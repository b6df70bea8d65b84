-- ===== src/Compose/Rotation.antt =====
-- internal/core/compose/discovery.go and rotation.go: the files that a document's secrets name, and
-- objects named by their contents.
pub mod Elsewhere
use swarm_hpa.Base.{
  ℕ, suc, Option, none, some, List, [], ◌∷◌, ◌++◌, Text, lit, Result, ok, err, ◌>>=◌,
}
use swarm_hpa.Compose.Fields.{Value, text, object, Fields, get, set, entries, object_at}

-- The errors: an object that is no map, a `file` that is no string, and an error of the resolver.
pub data ComposeError : Type 0 where
  not_a_map file_not_text : Text → ComposeError
  unreadable : Text → Text → ComposeError

-- A file-backed object: its name, the object, and its `file`.
pub record FileObject (F : Type 0) : Type 0 where
  pub name : Text
  pub object : Fields F
  pub file : Text

-- What a read answers with: the bytes, or an error's text.
abbrev pub Read : Type 0
Read = Result Text (List ℕ)

module _ {F : Type 0} where
  -- One round of the loop of fileObjects.
  unfoldable pub file_object : Text → Value F → Result ComposeError (Option (FileObject F))
  file_object name (object obj) = elim (get (lit "file") obj) [
    | none ↦ ok none
    | some (text f) ↦ ok (some (record { name = name; object = obj; file = f }))
    | some _ ↦ err (file_not_text name)
  ]
  file_object name _ = err (not_a_map name)

  unfoldable pub add_object : Option (FileObject F) → List (FileObject F) → List (FileObject F)
  add_object none objs = objs
  add_object (some o) objs = o ∷ objs

  -- fileObjects
  unfoldable pub file_objects : List (Text × Value F) → Result ComposeError (List (FileObject F))
  file_objects [] = ok []
  file_objects ((name, v) ∷ rest) = do
    o ← file_object name v
    objs ← file_objects rest
    ok (add_object o objs)

  -- `join` is filepath.Join.
  unfoldable pub joined : (Text → Text → Text) → Text → List (FileObject F) → List Text
  joined join dir [] = []
  joined join dir (o ∷ objs) = join dir o.file ∷ joined join dir objs

  -- DiscoverSecretFiles
  unfoldable pub discover_secret_files :
      (Text → Text → Text) → Fields F → Text → Result ComposeError (List Text)
  discover_secret_files join doc dir = elim (object_at (lit "secrets") doc) [
    | none ↦ ok []
    | some secrets ↦ do objs ← file_objects (entries secrets); ok (joined join dir objs)
  ]

  -- obj["name"] = name, for an object of a section of the document.
  unfoldable pub rename_in : Text → Text → Text → Fields F → Option (Fields F) → Fields F → Fields F
  rename_in section key name obj none doc = doc
  rename_in section key name obj (some objects) doc =
      set section (object (set key (object (set (lit "name") (text name) obj)) objects)) doc

  unfoldable pub rename : Text → Text → Text → Fields F → Fields F → Fields F
  unfolding rename_in
  rename section key name obj doc = rename_in section key name obj (object_at section doc) doc

-- The result so far: an error, behind which the loops do nothing more, the renamed objects, the document.
pub record Rotated (F : Type 0) : Type 0 where
  pub error : Option ComposeError
  pub changed : ℕ
  pub doc : Fields F

-- `hash` is the first eight hex digits of the MD5 sum, `resolve` the file resolver.
module _ {F : Type 0} (join : Text → Text → Text) (hash : List ℕ → Text) (stack dir : Text)
    (resolve : Text → Read) where
  unfoldable pub rotate_read : Text → FileObject F → Read → Rotated F → Rotated F
  rotate_read section o (err e) r = record r { error = some (unreadable (join dir o.file) e) }
  rotate_read section o (ok content) r = record r {
    changed = suc r.changed;
    doc =
        rename section o.name (stack ++ (lit "-" ++ (o.name ++ (lit "-" ++ hash content)))) o.object
          r.doc;
  }

  unfoldable pub rotate_object : Text → FileObject F → Option ComposeError → Rotated F → Rotated F
  unfolding rotate_read
  rotate_object section o (some e) r = r
  rotate_object section o none r = rotate_read section o (resolve (join dir o.file)) r

  unfoldable pub rotate_objects : Text → List (FileObject F) → Rotated F → Rotated F
  rotate_objects section [] r = r
  rotate_objects section (o ∷ objs) r =
      rotate_objects section objs (rotate_object section o r.error r)

  unfoldable pub rotate_found :
      Text → Result ComposeError (List (FileObject F)) → Option ComposeError → Rotated F → Rotated F
  rotate_found section found (some e) r = r
  rotate_found section (err e) none r = record r { error = some e }
  rotate_found section (ok objs) none r = rotate_objects section objs r

  unfoldable pub rotate_section : Text → Option (Fields F) → Rotated F → Rotated F
  unfolding rotate_found
  rotate_section section none r = r
  rotate_section section (some objects) r =
      rotate_found section (file_objects (entries objects)) r.error r

  -- ApplyRotation, with the document as it is left.
  unfoldable pub apply_rotation : Fields F → Rotated F
  apply_rotation doc =
      let start : Rotated F = record { error = none; changed = 0; doc = doc } in
      let configs = rotate_section (lit "configs") (object_at (lit "configs") doc) start in
      rotate_section (lit "secrets") (object_at (lit "secrets") configs.doc) configs
