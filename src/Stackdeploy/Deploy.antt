-- ===== src/Stackdeploy/Deploy.antt =====
-- internal/adapter/stackdeploy/deploy.go: the documents of a merge group become temporary files beside
-- their sources, which `docker stack deploy` gets and which are removed behind it.
pub mod Cleanup
use swarm_hpa.Base.{
  ℕ, zero, suc, nat_eq, ltb, Bool, true, false, ◌&&◌, ◌||◌, not, Option, none, some, List, [], ◌∷◌,
  ◌++◌, map, Text, text_eq, lit, Result, ok, err, leb, if◌then◌else◌,
}
use swarm_hpa.Model.{StackService}
use swarm_hpa.Compose.Fields.{
  Value, text, object, Fields, end, field, get, set, entries, as_object, as_text, object_at,
}
use swarm_hpa.Gitops.Pass.{ComposeDoc}
use swarm_hpa.Stackdeploy.CarryForward.{CarryError, apply_carry_forward_group}

-- The calls of a deployment.
pub data Call : Type 0 where
  services_read : Text → Call
  file_created file_removed : Text → Call
  stack_deployed : Text → List Text → Text → Call

-- What the operating system, the YAML library, Swarm and the wrapped DeployFunc answer, the calls after a
-- given trace. `rel` and `is_abs` are filepath.Rel and filepath.IsAbs.
pub record System (F : Type 0) : Type 0 where
  pub stack_services : List Call → Text → Result Text (List StackService)
  pub marshal : Fields F → Result Text (List ℕ)
  pub create_temp : List Call → Text → Text → Result Text Text
  pub write : List Call → Text → List ℕ → Option Text
  pub close : List Call → Text → Option Text
  pub docker : List Call → Text → List Text → Text → Option Text
  pub join : Text → Text → Text
  pub rel : Text → Text → Option Text
  pub is_abs : Text → Bool
  pub sprint : Value F → Text

pub data DeployError : Type 0 where
  no_documents : Text → DeployError
  unread_services : Text → Text → DeployError
  carry_failed : Text → CarryError → DeployError
  unwritten : Text → Text → DeployError
  not_deployed : Text → Text → DeployError

-- The bytes of a code point in UTF-8.
unfoldable pub width : ℕ → ℕ
width c = if ltb c 128 then 1 else if ltb c 2048 then 2 else if ltb c 65536 then 3 else 4

-- sanitize, which works on bytes, with its test of one byte
unfoldable pub is_plain : ℕ → Bool
is_plain c = nat_eq c 95 || (nat_eq c 45 || ((leb 97 c && leb c 122) || (leb 48 c && leb c 57)))

unfoldable pub dashes : ℕ → Text → Text
dashes zero s = s
dashes (suc n) s = 45 ∷ dashes n s

unfoldable pub sanitize : Text → Text
unfolding is_plain width dashes
sanitize [] = []
sanitize (c ∷ s) = let rest = sanitize s in if is_plain c then c ∷ rest else dashes (width c) rest

module _ {F : Type 0} (sys : System F) where
  -- The object with its `file` relative to the base directory; an object without a relative file is kept.
  unfoldable pub rebase_file : Text → Text → Fields F → Option Text → Fields F
  rebase_file doc_dir base_dir obj none = obj
  rebase_file doc_dir base_dir obj (some f) =
      if text_eq f [] || sys.is_abs f then obj else elim (sys.rel base_dir (sys.join doc_dir f)) [
        | none ↦ obj
        | some rel ↦ set (lit "file") (text rel) obj
      ]

  unfoldable pub rebase_object : Text → Text → Value F → Value F
  unfolding rebase_file
  rebase_object doc_dir base_dir (object obj) =
      object (rebase_file doc_dir base_dir obj (as_text (get (lit "file") obj)))
  rebase_object doc_dir base_dir v = v

  unfoldable pub rebase_objects : Text → Text → Fields F → Fields F
  unfolding rebase_object
  rebase_objects doc_dir base_dir end = end
  rebase_objects doc_dir base_dir (field k v fs) =
      field k (rebase_object doc_dir base_dir v) (rebase_objects doc_dir base_dir fs)

  unfoldable pub rebase_section : Text → Text → Text → Fields F → Fields F
  unfolding rebase_objects
  rebase_section doc_dir base_dir section doc = elim (object_at section doc) [
    | none ↦ doc
    | some objects ↦ set section (object (rebase_objects doc_dir base_dir objects)) doc
  ]

  -- rebaseFileObjects, without the count that is only logged.
  unfoldable pub rebase_file_objects : Text → Text → Fields F → Fields F
  unfolding rebase_section
  rebase_file_objects doc_dir base_dir doc =
      if text_eq doc_dir [] || text_eq base_dir []
      then doc
      else rebase_section doc_dir base_dir (lit "secrets")
          (rebase_section doc_dir base_dir (lit "configs") doc)

  -- The part of writeTempCompose behind the file's creation: a file that cannot be written or closed is
  -- removed at once.
  unfoldable pub closed : Text → Option Text → List Call → Result Text Text × List Call
  closed path none es = (ok path, es)
  closed path (some e) es = (err e, file_removed path ∷ es)

  unfoldable pub written : Text → Option Text → List Call → Result Text Text × List Call
  unfolding closed
  written path (some e) es = (err e, file_removed path ∷ es)
  written path none es = closed path (sys.close es path) es

  unfoldable pub created : List ℕ → Result Text Text → List Call → Result Text Text × List Call
  unfolding written
  created bytes (err e) es = (err e, es)
  created bytes (ok path) es =
      written path (sys.write (file_created path ∷ es) path bytes) (file_created path ∷ es)

  unfoldable pub marshalled :
      Text → Text → Result Text (List ℕ) → List Call → Result Text Text × List Call
  unfolding created
  marshalled name dir (err e) es = (err e, es)
  marshalled name dir (ok bytes) es =
      created bytes
        (sys.create_temp es dir (lit "swarm-hpa-stack-" ++ (sanitize name ++ lit "-*.yaml"))) es

  -- writeTempCompose
  unfoldable pub write_temp_compose :
      Text → Text → Fields F → List Call → Result Text Text × List Call
  unfolding marshalled
  write_temp_compose name dir compose es = marshalled name dir (sys.marshal compose) es

  -- The loop of writeTempComposeGroup, with the files so far: the first error, the files and the trace.
  unfoldable pub next_file :
      (List Text → List Call → Option Text × List Text × List Call)
      → List Text
      → Result Text Text × List Call
      → Option Text × List Text × List Call
  next_file go files (err e, es) = (some e, files, es)
  next_file go files (ok path, es) = go (files ++ path ∷ []) es

  unfoldable pub write_files :
      Text
      → Text
      → List (ComposeDoc F)
      → List Text
      → List Call
      → Option Text × List Text × List Call
  unfolding next_file
  write_files name base_dir [] files es = (none, files, es)
  write_files name base_dir (doc ∷ docs) files es =
      next_file (write_files name base_dir docs) files
        (write_temp_compose name doc.dir (rebase_file_objects doc.dir base_dir doc.fields) es)

  -- The directory of the base document.
  unfoldable pub base_dir_of : List (ComposeDoc F) → Text
  base_dir_of [] = []
  base_dir_of (doc ∷ docs) = doc.dir

  -- writeTempComposeGroup
  unfoldable pub write_temp_compose_group :
      Text → List (ComposeDoc F) → List Call → Option Text × List Text × List Call
  unfolding write_files base_dir_of
  write_temp_compose_group name docs es = write_files name (base_dir_of docs) docs [] es

  -- cleanup; an error of a removal is only logged.
  unfoldable pub cleanup : List Text → List Call → List Call
  cleanup [] es = es
  cleanup (f ∷ files) es = cleanup files (file_removed f ∷ es)

  -- The documents with the fields that the carry-forward has left.
  unfoldable pub with_fields : List (ComposeDoc F) → List (Fields F) → List (ComposeDoc F)
  with_fields (doc ∷ docs) (fs ∷ fss) = record doc { fields = fs } ∷ with_fields docs fss
  with_fields _ _ = []

  unfoldable pub fields_of : List (ComposeDoc F) → List (Fields F)
  fields_of [] = []
  fields_of (doc ∷ docs) = doc.fields ∷ fields_of docs

  unfoldable pub answered : Text → Option Text → Option DeployError
  answered name none = none
  answered name (some e) = some (not_deployed name e)

  -- The part of Deploy behind the temporary files, with its deferred cleanup.
  unfoldable pub deploy_files :
      Text → Text → Option Text × List Text × List Call → Option DeployError × List Call
  unfolding answered cleanup
  deploy_files name policy (some e, files, es) = (some (unwritten name e), cleanup files es)
  deploy_files name policy (none, files, es) = (
    answered name (sys.docker es name files policy),
    cleanup files (stack_deployed name files policy ∷ es),
  )

  unfoldable pub deploy_carried :
      Text
      → List (ComposeDoc F)
      → Text
      → Result CarryError (List (Fields F) × ℕ)
      → List Call
      → Option DeployError × List Call
  unfolding deploy_files write_temp_compose_group with_fields
  deploy_carried name docs policy (err e) es = (some (carry_failed name e), es)
  deploy_carried name docs policy (ok (fss, changed)) es =
      deploy_files name (if text_eq policy [] then lit "changed" else policy)
        (write_temp_compose_group name (with_fields docs fss) es)

  unfoldable pub deploy_live :
      Text
      → List (ComposeDoc F)
      → Text
      → Result Text (List StackService)
      → List Call
      → Option DeployError × List Call
  unfolding deploy_carried fields_of
  deploy_live name docs policy (err e) es = (some (unread_services name e), es)
  deploy_live name docs policy (ok live) es =
      deploy_carried name docs policy (apply_carry_forward_group sys.sprint (fields_of docs) live)
        es

  -- Deploy
  unfoldable pub deploy :
      Text → List (ComposeDoc F) → Text → List Call → Option DeployError × List Call
  unfolding deploy_live
  deploy name [] policy es = (some (no_documents name), es)
  deploy name (doc ∷ docs) policy es =
      deploy_live name (doc ∷ docs) policy (sys.stack_services es name) (services_read name ∷ es)
