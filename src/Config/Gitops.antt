-- ===== src/Config/Gitops.antt =====
-- internal/config/gitops.go: repos.yaml and stacks.yaml, once the YAML library has decoded them, with
-- the types of internal/core/model/gitops.go that they become.
pub mod Groups
pub mod Proper
use swarm_hpa.Base.{
  ℕ, suc, Bool, true, false, ◌||◌, Option, none, some, List, [], ◌∷◌, Text, text_eq, lit, Dict,
  lookup, put, text_keys, Result, ok, err, ◌>>=◌, if◌then◌else◌,
}
use swarm_hpa.Compose.Fields.{
  Value, null, boolean, int, uint, float, text, items, object, Fields, get, listed, as_text,
}

pub record RepoConfig : Type 0 where
  pub url : Text
  pub username : Text
  pub password : Text
  pub password_file : Text

pub record ComposeFileSpec : Type 0 where
  pub file : Text
  pub overrides : List Text
  pub pull_policy : Text

-- AllFiles
unfoldable pub all_files : ComposeFileSpec → List Text
all_files s = s.file ∷ s.overrides

pub record StackConfig : Type 0 where
  pub name : Text
  pub repo : Text
  pub branch : Text
  pub compose_files : List ComposeFileSpec
  pub values_file : Text
  pub sops_files : List Text
  pub sops_secrets_discovery : Bool
  pub pull_policy : Text

-- The errors, with the positions that their texts name.
pub data StacksError : Type 0 where
  no_url no_repo no_compose_file bad_compose_file : Text → StacksError
  unknown_repo bad_policy : Text → Text → StacksError
  item_empty item_without_file bad_item : Text → ℕ → StacksError
  bad_item_policy : Text → ℕ → Text → StacksError
  overrides_not_a_list : Text → ℕ → StacksError
  bad_override repeats_base repeats_override : Text → ℕ → ℕ → StacksError

-- The policies that a file may name.
unfoldable pub is_policy : Text → Bool
is_policy s = text_eq s [] || text_eq s (lit "always") || text_eq s (lit "changed")

unfoldable pub has_seen : Text → List Text → Bool
has_seen path [] = false
has_seen path (p ∷ ps) = text_eq p path || has_seen path ps

-- s, _ := v.(string)
unfoldable pub or_blank : Option Text → Text
or_blank none = []
or_blank (some s) = s

module _ (stack : Text) (idx : ℕ) where
  -- The checks of one round of the loop of parseOverrides.
  unfoldable pub check_override : Text → ℕ → List Text → Text → Result StacksError Text
  check_override base i seen path =
      if text_eq path []
      then err (bad_override stack idx i)
      else if text_eq path base
      then err (repeats_base stack idx i)
      else if has_seen path seen
      then err (repeats_override stack idx i)
      else ok path

module _ {F : Type 0} (stack : Text) (idx : ℕ) where
  -- The loop of parseOverrides; `seen` is the base and the overrides before.
  unfoldable pub override_list :
      Text → ℕ → List Text → List (Value F) → Result StacksError (List Text)
  unfolding or_blank
  override_list base i seen [] = ok []
  override_list base i seen (raw ∷ raws) = do
    path ← check_override stack idx base i seen (or_blank (as_text (some raw)))
    rest ← override_list base (suc i) (path ∷ seen) raws
    ok (path ∷ rest)

  -- parseOverrides
  unfoldable pub parse_overrides : Text → Option (Value F) → Result StacksError (List Text)
  unfolding override_list
  parse_overrides base none = ok []
  parse_overrides base (some null) = ok []
  parse_overrides base (some (items vs)) = override_list base 0 (base ∷ []) (listed vs)
  parse_overrides base (some _) = err (overrides_not_a_list stack idx)

  unfoldable pub parse_item_object :
      Text → Text → Option (Value F) → Result StacksError ComposeFileSpec
  unfolding parse_overrides is_policy
  parse_item_object file policy overrides =
      if text_eq file []
      then err (item_without_file stack idx)
      else if is_policy policy
      then (do
        paths ← parse_overrides file overrides
        ok (record { file = file; overrides = paths; pull_policy = policy }))
      else err (bad_item_policy stack idx policy)

  -- parseComposeFileItem
  unfoldable pub parse_compose_file_item : Value F → Result StacksError ComposeFileSpec
  unfolding parse_item_object
  parse_compose_file_item (text s) =
      if text_eq s []
      then err (item_empty stack idx)
      else ok (record { file = s; overrides = []; pull_policy = [] })
  parse_compose_file_item (object t) =
      parse_item_object (or_blank (as_text (get (lit "file") t)))
        (or_blank (as_text (get (lit "pull_policy") t))) (get (lit "overrides") t)
  parse_compose_file_item _ = err (bad_item stack idx)

module _ {F : Type 0} (stack : Text) where
  unfoldable pub item_list : ℕ → List (Value F) → Result StacksError (List ComposeFileSpec)
  item_list i [] = ok []
  item_list i (v ∷ vs) = do
    spec ← parse_compose_file_item stack i v
    rest ← item_list (suc i) vs
    ok (spec ∷ rest)

  unfoldable pub nonempty_items : List (Value F) → Result StacksError (List ComposeFileSpec)
  unfolding item_list
  nonempty_items [] = err (no_compose_file stack)
  nonempty_items (v ∷ vs) = item_list 0 (v ∷ vs)

  -- parseComposeFiles
  unfoldable pub parse_compose_files : Value F → Result StacksError (List ComposeFileSpec)
  unfolding nonempty_items
  parse_compose_files null = err (no_compose_file stack)
  parse_compose_files (text t) =
      if text_eq t []
      then err (no_compose_file stack)
      else ok (record { file = t; overrides = []; pull_policy = [] } ∷ [])
  parse_compose_files (items vs) = nonempty_items (listed vs)
  parse_compose_files _ = err (bad_compose_file stack)

-- fileStack
pub record FileStack (F : Type 0) : Type 0 where
  pub repo : Text
  pub branch : Text
  pub compose_file : Value F
  pub values_file : Text
  pub sops_files : List Text
  pub sops_secrets_discovery : Bool
  pub pull_policy : Text

-- The loop of loadReposFile; fileRepo has the fields of RepoConfig.
unfoldable pub load_repos :
    List (Text × RepoConfig) → Dict Text RepoConfig → Result StacksError (Dict Text RepoConfig)
load_repos [] repos = ok repos
load_repos ((name, r) ∷ raw) repos =
    let rest = load_repos raw (put name r repos) in
    if text_eq r.url [] then err (no_url name) else rest

unfoldable pub is_known : Dict Text RepoConfig → Text → Bool
is_known repos name = elim (lookup name repos) [ none ↦ false | some _ ↦ true ]

module _ {F : Type 0} (repos : Dict Text RepoConfig) where
  -- The checks of a stack behind its compose files.
  unfoldable pub stack_of :
      Text → FileStack F → List ComposeFileSpec → Result StacksError StackConfig
  stack_of name s files =
      if is_policy s.pull_policy
      then ok (record {
        name = name;
        repo = s.repo;
        branch = if text_eq s.branch [] then lit "main" else s.branch;
        compose_files = files;
        values_file = s.values_file;
        sops_files = s.sops_files;
        sops_secrets_discovery = s.sops_secrets_discovery;
        pull_policy = s.pull_policy;
      })
      else err (bad_policy name s.pull_policy)

  -- One round of the loop of loadStacksFile.
  unfoldable pub load_stack : Text → FileStack F → Result StacksError StackConfig
  unfolding stack_of
  load_stack name s =
      if text_eq s.repo []
      then err (no_repo name)
      else if is_known repos s.repo
      then (do files ← parse_compose_files name s.compose_file; stack_of name s files)
      else err (unknown_repo name s.repo)

  -- The loop of loadStacksFile.
  unfoldable pub load_stacks : List (Text × FileStack F) → Result StacksError (List StackConfig)
  load_stacks [] = ok []
  load_stacks ((name, s) ∷ raw) = do
    stack ← load_stack name s
    rest ← load_stacks raw
    ok (stack ∷ rest)

-- LoadGitOps, at what the two files decode to.
unfoldable pub load_gitops :
    {F : Type 0}
    → List (Text × RepoConfig)
    → List (Text × FileStack F)
    → Result StacksError (Dict Text RepoConfig × List StackConfig)
load_gitops raw_repos raw_stacks = do
  repos ← load_repos raw_repos []
  stacks ← load_stacks repos raw_stacks
  ok (repos, stacks)
