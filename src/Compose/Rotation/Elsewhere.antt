-- ===== src/Compose/Rotation/Elsewhere.antt =====
-- A rotation changes the configs and the secrets of a document, and nothing else.
use swarm_hpa.Base.{
  ℕ, ◌≡◌, ◌≢◌, refl, ◌∙◌, Option, none, some, List, [], ◌∷◌, Text, lit, Result, ok, err,
}
use swarm_hpa.Compose.Fields.{Fields, get, get-set_other, entries, object_at}
use swarm_hpa.Compose.Rotation.{
  ComposeError, FileObject, Read, rename, rename_in, Rotated, rotate_read, rotate_object,
  rotate_objects, rotate_found, rotate_section, apply_rotation, file_objects,
}

rename-elsewhere :
    {F : Type 0} (section k key name : Text) (obj doc : Fields F) (o : Option (Fields F))
    → section ≢ k
    → get k (rename_in section key name obj o doc) ≡ get k doc
unfolding rename_in
rename-elsewhere section k key name obj doc none n = refl
rename-elsewhere section k key name obj doc (some objects) n = get-set_other section k _ doc n

module _ {F : Type 0} (join : Text → Text → Text) (hash : List ℕ → Text) (stack dir : Text)
    (resolve : Text → Read) (k : Text) where
  read-elsewhere :
      (section : Text) (o : FileObject F) (a : Read) (r : Rotated F)
      → section ≢ k
      → get k (rotate_read join hash stack dir resolve section o a r).doc ≡ get k r.doc
  unfolding rotate_read rename
  read-elsewhere section o (err e) r n = refl
  read-elsewhere section o (ok content) r n =
      rename-elsewhere section k o.name _ o.object r.doc (object_at section r.doc) n

  object-elsewhere :
      (section : Text) (o : FileObject F) (e : Option ComposeError) (r : Rotated F)
      → section ≢ k
      → get k (rotate_object join hash stack dir resolve section o e r).doc ≡ get k r.doc
  unfolding rotate_object
  object-elsewhere section o (some e) r n = refl
  object-elsewhere section o none r n = read-elsewhere section o (resolve (join dir o.file)) r n

  objects-elsewhere :
      (section : Text) (objs : List (FileObject F)) (r : Rotated F)
      → section ≢ k
      → get k (rotate_objects join hash stack dir resolve section objs r).doc ≡ get k r.doc
  unfolding rotate_objects
  objects-elsewhere section [] r n = refl
  objects-elsewhere section (o ∷ objs) r n =
      objects-elsewhere section objs (rotate_object join hash stack dir resolve section o r.error r)
        n
      ∙ object-elsewhere section o r.error r n

  found-elsewhere :
      (section : Text) (found : Result ComposeError (List (FileObject F))) (e : Option ComposeError)
      (r : Rotated F)
      → section ≢ k
      → get k (rotate_found join hash stack dir resolve section found e r).doc ≡ get k r.doc
  unfolding rotate_found
  found-elsewhere section (err f) none r n = refl
  found-elsewhere section (ok objs) none r n = objects-elsewhere section objs r n
  found-elsewhere section (err f) (some e) r n = refl
  found-elsewhere section (ok objs) (some e) r n = refl

  section-elsewhere :
      (section : Text) (o : Option (Fields F)) (r : Rotated F)
      → section ≢ k
      → get k (rotate_section join hash stack dir resolve section o r).doc ≡ get k r.doc
  unfolding rotate_section
  section-elsewhere section none r n = refl
  section-elsewhere section (some objects) r n =
      found-elsewhere section (file_objects (entries objects)) r.error r n

  -- A rotation, finished or broken off by an error, leaves every section of the document but configs and secrets
  -- as it is, the services among them.
  pub apply_rotation-elsewhere :
      (doc : Fields F)
      → lit "configs" ≢ k
      → lit "secrets" ≢ k
      → get k (apply_rotation join hash stack dir resolve doc).doc ≡ get k doc
  unfolding apply_rotation
  apply_rotation-elsewhere doc c s =
      let start : Rotated F = record { error = none; changed = 0; doc = doc } in
      let configs =
        rotate_section join hash stack dir resolve (lit "configs") (object_at (lit "configs") doc)
          start in
      section-elsewhere (lit "secrets") (object_at (lit "secrets") configs.doc) configs s
      ∙ section-elsewhere (lit "configs") (object_at (lit "configs") doc) start c
