-- ===== src/Stackdeploy/Deploy/Cleanup.antt =====
-- Every temporary file of a deployment is removed, on every way out of it.
use swarm_hpa.Base.{
  ℕ, ◌≡◌, refl, ap, ◌⊎◌, inl, inr, Option, none, some, List, [], ◌∷◌, ◌++◌, Text, Result, ok, err,
  In,
}
use swarm_hpa.Model.{StackService}
use swarm_hpa.Compose.Fields.{Fields}
use swarm_hpa.Gitops.Pass.{ComposeDoc}
use swarm_hpa.Stackdeploy.CarryForward.{CarryError}
use swarm_hpa.Stackdeploy.Deploy.{
  Call, services_read, file_created, file_removed, stack_deployed, System, closed, written, created,
  marshalled, write_temp_compose, next_file, write_files, write_temp_compose_group,
  rebase_file_objects, cleanup, with_fields, deploy_files, deploy_carried, deploy_live, deploy,
}

-- Every file that was created is removed, or among those still to be removed.
abbrev pub IsCleanBut : List Text → List Call → Type 0
IsCleanBut files es = (f : Text) → In (file_created f) es → In (file_removed f) es ⊎ In f files

-- Every file that was created is removed.
abbrev pub IsClean : List Call → Type 0
IsClean es = (f : Text) → In (file_created f) es → In (file_removed f) es

In-append_left : {A : Type 0} (a : A) (xs ys : List A) → In a xs → In a (xs ++ ys)
In-append_left a (x ∷ xs) ys (inl e) = inl e
In-append_left a (x ∷ xs) ys (inr m) = inr (In-append_left a xs ys m)
In-append_left a [] ys m = absurd m

In-append_last : {A : Type 0} (a : A) (xs : List A) → In a (xs ++ a ∷ [])
In-append_last a [] = inl refl
In-append_last a (x ∷ xs) = inr (In-append_last a xs)

deployed-IsCleanBut :
    (name : Text) (files paths : List Text) (policy : Text) (es : List Call)
    → IsCleanBut files es
    → IsCleanBut files (stack_deployed name paths policy ∷ es)
deployed-IsCleanBut name files paths policy es h f (inl e) = cc
deployed-IsCleanBut name files paths policy es h f (inr m) = elim (h f m) [
  | inl r ↦ inl (inr r)
  | inr k ↦ inr k
]

read-IsClean : (name : Text) (es : List Call) → IsClean es → IsClean (services_read name ∷ es)
read-IsClean name es h f (inl e) = cc
read-IsClean name es h f (inr m) = inr (h f m)

created-IsCleanBut :
    (path : Text) (files : List Text) (es : List Call)
    → IsCleanBut files es
    → IsCleanBut (files ++ path ∷ []) (file_created path ∷ es)
created-IsCleanBut path files es h f (inl e) =
    let same : path ≡ f = cc in inr (rw (← same) (In-append_last path files))
created-IsCleanBut path files es h f (inr m) = elim (h f m) [
  | inl r ↦ inl (inr r)
  | inr k ↦ inr (In-append_left f files (path ∷ []) k)
]

-- A file that was just created is removed at once.
undone-IsCleanBut :
    (path : Text) (files : List Text) (es : List Call)
    → IsCleanBut files es
    → IsCleanBut files (file_removed path ∷ file_created path ∷ es)
undone-IsCleanBut path files es h f (inl e) = cc
undone-IsCleanBut path files es h f (inr (inl e)) =
    let same : path ≡ f = cc in inl (inl (ap file_removed same))
undone-IsCleanBut path files es h f (inr (inr m)) = elim (h f m) [
  | inl r ↦ inl (inr (inr r))
  | inr k ↦ inr k
]

removed-IsCleanBut :
    (path : Text) (files : List Text) (es : List Call)
    → IsCleanBut (path ∷ files) es
    → IsCleanBut files (file_removed path ∷ es)
removed-IsCleanBut path files es h f (inl e) = cc
removed-IsCleanBut path files es h f (inr m) = elim (h f m) [
  | inl r ↦ inl (inr r)
  | inr (inl e) ↦ inl (inl (ap file_removed e))
  | inr (inr k) ↦ inr k
]

module _ {F : Type 0} (sys : System F) where
  cleanup-IsClean :
      (files : List Text) (es : List Call) → IsCleanBut files es → IsClean (cleanup sys files es)
  unfolding cleanup
  cleanup-IsClean [] es h = λ f m. elim (h f m) [ inl r ↦ r | inr k ↦ absurd k ]
  cleanup-IsClean (path ∷ files) es h =
      cleanup-IsClean files (file_removed path ∷ es) (removed-IsCleanBut path files es h)

  -- What the writing of one file leaves.
  abbrev Left : List Text → Result Text Text × List Call → Type 0
  Left files (ok path, es) = IsCleanBut (files ++ path ∷ []) es
  Left files (err e, es) = IsCleanBut files es

  closed-Left :
      (path : Text) (files : List Text) (o : Option Text) (es : List Call)
      → IsCleanBut files es
      → Left files (closed sys path o (file_created path ∷ es))
  unfolding closed
  closed-Left path files none es h = created-IsCleanBut path files es h
  closed-Left path files (some e) es h = undone-IsCleanBut path files es h

  written-Left :
      (path : Text) (files : List Text) (o : Option Text) (es : List Call)
      → IsCleanBut files es
      → Left files (written sys path o (file_created path ∷ es))
  unfolding written
  written-Left path files none es h = closed-Left path files _ es h
  written-Left path files (some e) es h = undone-IsCleanBut path files es h

  created-Left :
      (bytes : List ℕ) (files : List Text) (r : Result Text Text) (es : List Call)
      → IsCleanBut files es
      → Left files (created sys bytes r es)
  unfolding created
  created-Left bytes files (err e) es h = h
  created-Left bytes files (ok path) es h = written-Left path files _ es h

  write_temp_compose-Left :
      (name dir : Text) (compose : Fields F) (files : List Text) (es : List Call)
      → IsCleanBut files es
      → Left files (write_temp_compose sys name dir compose es)
  unfolding write_temp_compose marshalled
  write_temp_compose-Left name dir compose files es h = bytes (sys.marshal compose)
    where
      bytes : (r : Result Text (List ℕ)) → Left files (marshalled sys name dir r es)
      bytes (err e) = h
      bytes (ok b) = created-Left b files _ es h

  next_file-IsCleanBut :
      (go : List Text → List Call → Option Text × List Text × List Call)
      → ((files : List Text) (es : List Call)
          → IsCleanBut files es
          → IsCleanBut (go files es).1 (go files es).2)
      → (files : List Text) (r : Result Text Text × List Call) → Left files r
      → IsCleanBut (next_file sys go files r).1 (next_file sys go files r).2
  unfolding next_file
  next_file-IsCleanBut go step files (err e, es) h = h
  next_file-IsCleanBut go step files (ok path, es) h = step (files ++ path ∷ []) es h

  write_files-IsCleanBut :
      (name base_dir : Text) (docs : List (ComposeDoc F)) (files : List Text) (es : List Call)
      → IsCleanBut files es
      → IsCleanBut
          (write_files sys name base_dir docs files es).1
          (write_files sys name base_dir docs files es).2
  unfolding write_files
  write_files-IsCleanBut name base_dir [] files es h = h
  write_files-IsCleanBut name base_dir (doc ∷ docs) files es h =
      next_file-IsCleanBut (write_files sys name base_dir docs)
        (λ files' es' h'. write_files-IsCleanBut name base_dir docs files' es' h') files
        (write_temp_compose sys name doc.dir (rebase_file_objects sys doc.dir base_dir doc.fields)
          es)
        (write_temp_compose-Left name doc.dir _ files es h)

  deploy_files-IsClean :
      (name policy : Text) (o : Option Text) (files : List Text) (es : List Call)
      → IsCleanBut files es
      → IsClean (deploy_files sys name policy (o, files, es)).1
  unfolding deploy_files
  deploy_files-IsClean name policy (some e) files es h = cleanup-IsClean files es h
  deploy_files-IsClean name policy none files es h =
      cleanup-IsClean files _ (deployed-IsCleanBut name files files policy es h)

  deploy_carried-IsClean :
      (name policy : Text) (docs : List (ComposeDoc F))
      (r : Result CarryError (List (Fields F) × ℕ)) (es : List Call)
      → IsClean es
      → IsClean (deploy_carried sys name docs policy r es).1
  unfolding deploy_carried write_temp_compose_group
  deploy_carried-IsClean name policy docs (err e) es h = h
  deploy_carried-IsClean name policy docs (ok (fss, changed)) es h =
      deploy_files-IsClean name _ _ _ _
        (write_files-IsCleanBut name _ (with_fields sys docs fss) [] es (λ f m. inl (h f m)))

  deploy_live-IsClean :
      (name policy : Text) (docs : List (ComposeDoc F)) (r : Result Text (List StackService))
      (es : List Call)
      → IsClean es
      → IsClean (deploy_live sys name docs policy r es).1
  unfolding deploy_live
  deploy_live-IsClean name policy docs (err e) es h = h
  deploy_live-IsClean name policy docs (ok live) es h =
      deploy_carried-IsClean name policy docs _ es h

  -- However a deployment ends, and whatever of its calls fail, every temporary file that it created is removed at
  -- its end, if that held of the calls before it.
  pub deploy-IsClean :
      (name : Text) (docs : List (ComposeDoc F)) (policy : Text) (es : List Call)
      → IsClean es
      → IsClean (deploy sys name docs policy es).1
  unfolding deploy
  deploy-IsClean name [] policy es h = h
  deploy-IsClean name (doc ∷ docs) policy es h =
      deploy_live-IsClean name policy (doc ∷ docs) _ (services_read name ∷ es)
        (read-IsClean name es h)
