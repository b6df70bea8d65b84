-- ===== src/Examples/Syncing.antt =====
-- The theorems on the configuration and the passes of the GitOps loop, applied to one stack of one
-- document.
use swarm_hpa.Base.{
  ℕ, ◌≡◌, ◌≢◌, refl, true, false, none, [], ◌∷◌, ◌++◌, Text, text_eq, lit, pos, Dict, lookup, put,
  ok, All, length,
}
use swarm_hpa.Examples.Data.{whole}
use swarm_hpa.Compose.Fields.{listed, text, uint, items, nil, cons, object, Fields, end, field, get}
use swarm_hpa.Compose.Rotation.{apply_rotation}
use swarm_hpa.Compose.Rotation.Elsewhere.{apply_rotation-elsewhere}
use swarm_hpa.Config.Gitops.{
  is_known, load_repos, load_stack, load_stacks, parse_compose_file_item, parse_compose_files,
  RepoConfig, StackConfig, FileStack, load_gitops,
}
use swarm_hpa.Config.Gitops.Proper.{IsLoaded, load_gitops-IsLoaded}
use swarm_hpa.Gitops.Pass.{answered, Ports, Settings, Pass}
use swarm_hpa.Gitops.Deploys.{sync_all}
use swarm_hpa.Gitops.DryRun.{effects, sync_all-dry_run}

abbrev join_paths : Text → Text → Text
join_paths dir path = dir ++ (lit "/" ++ path)

-- A document with one service and one file-backed secret.
abbrev document : Fields ℕ
document =
    field (lit "services")
      (object (field (lit "api") (object (field (lit "replicas") (uint 2) end)) end))
      (field (lit "secrets")
        (object (field (lit "key") (object (field (lit "file") (text (lit "key.txt")) end)) end))
        end)

services_apart : lit "configs" ≢ lit "services"
services_apart = λ e. cc

services_apart_too : lit "secrets" ≢ lit "services"
services_apart_too = λ e. cc

apply_rotation-elsewhere_example :
    get
      (lit "services")
      (apply_rotation join_paths
        (λ bytes. lit "0a1b2c3d")
        (lit "web")
        (lit "dir")
        (λ path. ok (1 ∷ []))
        document).doc
    ≡ get (lit "services") document
apply_rotation-elsewhere_example =
    apply_rotation-elsewhere join_paths (λ bytes. lit "0a1b2c3d") (lit "web") (lit "dir")
      (λ path. ok (1 ∷ [])) (lit "services") document services_apart services_apart_too

abbrev repository : RepoConfig
repository = record { url = lit "git"; username = []; password = []; password_file = [] }

abbrev raw_stack : FileStack ℕ
raw_stack = record {
  repo = lit "main";
  branch = [];
  compose_file = items (cons (text (lit "app.yaml")) nil);
  values_file = [];
  sops_files = [];
  sops_secrets_discovery = true;
  pull_policy = lit "always";
}

abbrev web : StackConfig
web = record {
  name = lit "web";
  repo = lit "main";
  branch = lit "main";
  compose_files = record { file = lit "app.yaml"; overrides = []; pull_policy = [] } ∷ [];
  values_file = [];
  sops_files = [];
  sops_secrets_discovery = true;
  pull_policy = lit "always";
}

abbrev repositories : Dict Text RepoConfig
repositories = (lit "main", repository) ∷ []

loaded : load_gitops repositories ((lit "web", raw_stack) ∷ []) ≡ ok (repositories, web ∷ [])
unfolding load_gitops load_repos text_eq load_stacks load_stack is_known lookup put
    parse_compose_files listed parse_compose_file_item
loaded = refl

load_gitops-IsLoaded_example : All (IsLoaded repositories) (web ∷ [])
load_gitops-IsLoaded_example =
    load_gitops-IsLoaded repositories ((lit "web", raw_stack) ∷ []) repositories (web ∷ []) loaded

-- Ports that answer every call.
abbrev ports : Ports ℕ
ports = record {
  now = λ es. pos (length es);
  never = pos 0;
  sync = λ es st. answered (lit "abc");
  read_file = λ es st path. ok (1 ∷ []);
  worktree_path = λ st. lit "tree";
  render = λ es bytes values. answered document;
  stack_services = none;
  decrypt = none;
  deploy = λ es name docs policy. answered tt;
  join = join_paths;
  dir = λ path. lit "dir";
  hash = λ bytes. lit "0a1b2c3d";
  sprint = λ v. lit "v";
  error_text = λ e. lit "bad object";
}

abbrev settings : Settings
settings = record {
  pull_policy = lit "changed";
  dry_run = false;
  auto_rotate = true;
  stored = true;
  watched = true;
}

abbrev new_pass : Pass ℕ
new_pass = record {
  trace = [];
  last_deployed_rev = [];
  last_deployed_ok = [];
  last_desired = [];
  deploy_count = [];
  store = [];
  revision = [];
  files = [];
}

sync_all-dry_run_example :
    effects (sync_all ports (record settings { dry_run = true }) (web ∷ []) new_pass)
    ≡ effects new_pass
sync_all-dry_run_example =
    sync_all-dry_run ports (record settings { dry_run = true }) refl (web ∷ []) new_pass
