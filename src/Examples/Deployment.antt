-- ===== src/Examples/Deployment.antt =====
-- The theorems on deployments and on Swarm's services, applied to small documents and to a Docker that
-- meets one conflict.
use swarm_hpa.Config.Labels.{label, parse_opt_in, parse_policy}
use swarm_hpa.Base.{
  parse_bool, ℕ, ◌≡◌, ◌≢◌, ◌<◌, ◌^◌, refl, true, false, Option, none, some, List, [], ◌∷◌, map,
  map_values, arith, ◌%◌, text_keys, digits_from, in_uint64, parse_uint, Text, text_eq, lit, Dict,
  lookup, put, ok, All,
}
use swarm_hpa.Examples.Data.{whole}
use swarm_hpa.Model.{StackService, ManagedService}
use swarm_hpa.Retry.{DockerError, succeeded, retry}
use swarm_hpa.Compose.Fields.{
  Value, text, uint, object, Fields, end, field, object_at, get, entries, as_object, as_text, set,
}
use swarm_hpa.Stackdeploy.CarryForward.{
  merge_services, apply_carry_forward_group, merge_doc, carry, merge_round, merge_service,
  rewrite_if, decide, new_mode, explicit_mode, deploy_mode, filled_text, or_new, bound_label,
  carried, live_count, or_end, put_all, rewrite, rewrite_in, rewrite_under, set_replicas,
}
use swarm_hpa.Compose.Labels.{service_labels, deploy_labels, merge_labels, merge_fields, print_all}
use swarm_hpa.Stackdeploy.CarryForward.Live.{LastNamed}
use swarm_hpa.Stackdeploy.CarryForward.Count.{Count}
use swarm_hpa.Stackdeploy.CarryForward.Declared.{declared}
use swarm_hpa.Stackdeploy.CarryForward.Kept.{counted, carry_forward-declared}
use swarm_hpa.Stackdeploy.Retry.{DeployEvent, DeployEnv, with_retry, Finish, with_retry-Ending}
use swarm_hpa.Stackdeploy.Deploy.{System, deploy}
use swarm_hpa.Stackdeploy.Deploy.Cleanup.{IsClean, deploy-IsClean}
use swarm_hpa.Stackstatus.{live_by_name}
use swarm_hpa.Gitops.Desired.{merge_group_services}
use swarm_hpa.Gitops.Desired.Agreement.{deployer_view, drift_view, merge_services-group}
use swarm_hpa.Swarm.{Sdk}
use swarm_hpa.Swarm.Mutate.{
  Client, UpdateEvent, update_call, inspect_call, update_service, update_attempt, set_count, answer,
  send, scale, scale-Updated,
}
use swarm_hpa.Swarm.Read.{
  count_of_mode, is_among, keep_ok, managed_from, or_none, to_managed_service, managed_services,
}
use swarm_hpa.Swarm.Read.Managed.{DistinctIds, IsManageable, managed_services-IsManageable}

-- fmt.Sprint, as far as the documents need it.
abbrev print : Value ℕ → Text
print (text s) = s
print _ = lit "?"

-- A service with a count that the file sets and labels that hand it to the autoscaler.
abbrev autoscaled : Fields ℕ
autoscaled =
    field (lit "labels")
      (object (
        field (lit "swarm.autoscaler.enabled") (text (lit "true"))
          (field (lit "swarm.autoscaler.max") (text (lit "3")) end)))
      (field (lit "deploy") (object (field (lit "replicas") (uint 1) end)) end)

abbrev services_of : Fields ℕ → Fields ℕ
services_of svc = field (lit "services") (object (field (lit "api") (object svc) end)) end

abbrev rewritten : Fields ℕ
rewritten =
    field (lit "labels")
      (object (
        field (lit "swarm.autoscaler.enabled") (text (lit "true"))
          (field (lit "swarm.autoscaler.max") (text (lit "3")) end)))
      (field (lit "deploy") (object (field (lit "replicas") (uint 3) end)) end)

abbrev running : StackService
running = record { name = lit "api"; replicas = 7; replicated = true; labels = [] }

carried_forward :
    apply_carry_forward_group print (services_of autoscaled ∷ []) (running ∷ [])
    ≡ ok (services_of rewritten ∷ [], 1)
unfolding apply_carry_forward_group merge_services merge_doc object_at get text_eq carry merge_round
    entries merge_service put rewrite_if decide new_mode explicit_mode deploy_mode filled_text
    or_new lookup digits_from in_uint64 parse_uint as_object as_text set service_labels
    deploy_labels merge_labels merge_fields print_all bound_label carried live_count or_end put_all
    rewrite rewrite_in rewrite_under set_replicas live_by_name label
carried_forward = refl

carry_forward-declared_example :
    (found : Option StackService) × (count : Option ℕ) × LastNamed (running ∷ []) (lit "api") found
    × Count found
        (lookup (lit "api") (merge_services print (services_of autoscaled ∷ []) ([], false)).0)
        count
    × (map (declared (lit "api")) (services_of rewritten ∷ [])
        ≡ map (counted count) (map (declared (lit "api")) (services_of autoscaled ∷ [])))
carry_forward-declared_example =
    carry_forward-declared print (services_of autoscaled ∷ []) (services_of rewritten ∷ [])
      (running ∷ []) 1 (lit "api") carried_forward

plain : (s : Text) → print (text s) ≡ s
plain s = refl

merge_services-group_example :
    map_values deployer_view (merge_services print (services_of autoscaled ∷ []) ([], false)).0
    ≡ map_values drift_view (merge_group_services print (services_of autoscaled ∷ []) [])
merge_services-group_example = merge_services-group print plain (services_of autoscaled ∷ [])

-- Errors are texts, none of which Docker calls a conflict.
abbrev errors : DockerError Text
errors = record { is_conflict = λ e. false; message = λ e. e }

abbrev conflict : Text
conflict = lit "update out of sequence"

abbrev conflict_first : List DeployEvent → Option Text
conflict_first [] = some conflict
conflict_first (e ∷ es) = none

abbrev docker : DeployEnv Text
docker = record {
  errors = errors;
  docker = λ es name files policy. conflict_first es;
  stop = λ es. none;
}

with_retry-Ending_example :
    Finish docker
      (lit "web")
      (lit "a.yaml" ∷ [])
      (lit "always")
      []
      (with_retry docker (lit "web") (lit "a.yaml" ∷ []) (lit "always") [])
with_retry-Ending_example =
    with_retry-Ending docker (lit "web") (lit "a.yaml" ∷ []) (lit "always") []

-- A service as its id with its spec, which is its name with its count and its labels.
abbrev Spec : Type 0
Spec = Text × ℕ × Dict Text Text

abbrev count_ok : ℕ → Option (Option ℕ)
count_ok n = some (some (n % 2 ^ 64))

abbrev sdk : Sdk (Text × Spec) Spec
sdk = record {
  id = λ s. s.0;
  version = λ s. 7;
  spec = λ s. s.1;
  name = λ s. s.0;
  labels = λ s. s.2;
  replicated = λ s. count_ok s.1;
  placement = λ s. none;
  with_replicas = λ n s. (s.0, n, s.2);
  with_force_update = λ s. s;
}

abbrev healed : Text × Spec
healed = (lit "s1", (lit "api", 2, (lit "swarm.autoscaler.heal", lit "true") ∷ []))

abbrev client : Client Text (Text × Spec) Spec
client = record {
  sdk = sdk;
  errors = errors;
  inspect = λ es id. ok healed;
  update = λ es id version spec. none;
  stop = λ es. none;
}

scaled : (scale client (lit "s1") 3 []).0 ≡ succeeded
unfolding scale update_service retry update_attempt set_count answer send
scaled = refl

scale-Updated_example :
    (svc : Text × Spec) × (earlier : List (UpdateEvent Spec)) × (client.inspect earlier (lit "s1")
      ≡ ok svc)
    × (sdk.replicated (sdk.spec svc) ≢ none)
    × (client.update
          (inspect_call (lit "s1") ∷ earlier)
          (lit "s1")
          (sdk.version svc)
          (sdk.with_replicas 3 (sdk.spec svc))
        ≡ none)
    × ((scale client (lit "s1") 3 []).1
        ≡ update_call (lit "s1") (sdk.version svc) (sdk.with_replicas 3 (sdk.spec svc))
          ∷ inspect_call (lit "s1")
          ∷ earlier)
scale-Updated_example = scale-Updated client (lit "s1") 3 [] scaled

fits : (spec : Spec) (n : ℕ) → sdk.replicated spec ≡ some (some n) → n < 2 ^ 64
fits spec n h = ground (arith, h)

abbrev managed : ManagedService ℕ
managed = record {
  ref = record { id = lit "s1"; name = lit "api" };
  replicas = 2;
  replicated = true;
  policy = record {
    enabled = false;
    min = 0;
    max = 0;
    metric = [];
    target = 0;
    source = [];
    query = [];
  };
  constraints = [];
  autoscale = false;
  heal = true;
  rebalance = false;
}

listed_once : managed_services sdk {E = Text} (λ filter. ok (healed ∷ [])) ≡ ok (managed ∷ [])
unfolding managed_services managed_from is_among keep_ok to_managed_service parse_policy
    parse_opt_in text_eq lookup parse_bool count_of_mode or_none
listed_once = refl

managed_services-IsManageable_example :
    DistinctIds (managed ∷ []) × All (IsManageable sdk ℕ) (managed ∷ [])
managed_services-IsManageable_example =
    managed_services-IsManageable sdk ℕ fits {E = Text} (λ filter. ok (healed ∷ [])) (managed ∷ [])
      listed_once

-- A system that grants every call.
abbrev system : System ℕ
system = record {
  stack_services = λ es name. ok (running ∷ []);
  marshal = λ fs. ok (1 ∷ []);
  create_temp = λ es dir pattern. ok (lit "tmp");
  write = λ es path bytes. none;
  close = λ es path. none;
  docker = λ es name files policy. none;
  join = λ dir path. path;
  rel = λ base path. some path;
  is_abs = λ path. false;
  sprint = print;
}

deploy-IsClean_example :
    IsClean
      (deploy system
        (lit "web")
        (record { fields = services_of autoscaled; dir = lit "d" } ∷ [])
        (lit "always")
        []).1
deploy-IsClean_example =
    deploy-IsClean system (lit "web")
      (record { fields = services_of autoscaled; dir = lit "d" } ∷ []) (lit "always") []
      (λ f m. absurd m)
