-- ===== src/Stackapi.antt =====
-- internal/adapter/stackapi/handler.go: the answer of the read-only status surface, from the status
-- store and from reads of Swarm.
pub mod Settled
use swarm_hpa.Base.{
  ℕ, suc, Bool, true, false, not, ◌||◌, ◌&&◌, Option, none, some, List, [], ◌∷◌, map, Text, text_eq,
  lit, Time, Dict, put, text_keys, Result, ok, err, length, ltb, if◌then◌else◌,
}
use swarm_hpa.Model.{StackService, LiveService, ServiceDrift}
use swarm_hpa.Stackstatus.{drift, orphans}
use swarm_hpa.Statusstore.{StackStatus, StackFileStatus, Store, listing}

-- driftItem, fileStatusResp, orphanItem
pub record DriftItem : Type 0 where
  pub service : Text
  pub desired : ℕ
  pub live : ℕ
  pub drifted : Bool

pub record FileStatusResp : Type 0 where
  pub file : Text
  pub overrides : List Text
  pub pull_policy : Text
  pub status : Text
  pub error : Text

pub record OrphanItem : Type 0 where
  pub name : Text
  pub namespace : Text

pub record StackResponse : Type 0 where
  pub name : Text
  pub repo : Text
  pub state : Text
  pub revision : Text
  pub is_ok : Bool
  pub error_stage : Text
  pub error_message : Text
  pub last_sync : Time
  pub deploy_count : ℕ
  pub desired_replicas : Dict Text ℕ
  pub files : List FileStatusResp
  pub drift : List DriftItem
  pub drifted : Bool
  pub drift_error : Text

pub record UiSummary : Type 0 where
  pub stacks : ℕ
  pub repos : ℕ
  pub syncing : ℕ
  pub waiting : ℕ
  pub orphans : ℕ
  pub orphans_fail : Bool
  pub concurrency : ℕ
  pub max_parallel : ℕ

pub record Payload : Type 0 where
  pub stacks : List StackResponse
  pub summary : UiSummary
  pub orphans : List OrphanItem
  pub orphans_error : Text

-- The fields of Handler, with what the reads of one request answer; `none` is a reader that is not wired.
-- `concurrency` is not negative, as the validation of the configuration demands. `never` is the zero time;
-- the last fields are sort.Slice with the comparisons of the snapshot, of Drift and of Orphans.
pub record Handler : Type 0 where
  pub store : Store
  pub never : Time
  pub live : Option (Text → Result Text (List StackService))
  pub reader : Option (Result Text (List LiveService))
  pub stack_names : List Text
  pub concurrency : ℕ
  pub by_stack : List StackStatus → List StackStatus
  pub by_service : List ServiceDrift → List ServiceDrift
  pub by_name : List LiveService → List LiveService

pub data Response : Type 0 where
  method_not_allowed not_found : Response
  json html : Payload → Response

-- toDriftItems and toFileResps, with one round each.
unfoldable pub to_drift_item : ServiceDrift → DriftItem
to_drift_item d = record {
  service = d.service;
  desired = d.desired;
  live = d.live;
  drifted = d.drifted;
}

unfoldable pub to_drift_items : List ServiceDrift → List DriftItem
unfolding to_drift_item
to_drift_items ds = map to_drift_item ds

unfoldable pub to_file_resps : List StackFileStatus → List FileStatusResp
to_file_resps [] = []
to_file_resps (f ∷ fs) =
    record {
      file = f.file;
      overrides = f.overrides;
      pull_policy = f.pull_policy;
      status = f.status;
      error = f.error;
    }
    ∷ to_file_resps fs

-- The loop that sets Drifted.
unfoldable pub any_drifted : List DriftItem → Bool
any_drifted [] = false
any_drifted (d ∷ ds) = let rest = any_drifted ds in if d.drifted then true else rest

-- The set of the repositories that the stacks name.
unfoldable pub repos_of : List StackStatus → Dict Text Bool → Dict Text Bool
repos_of [] repos = repos
repos_of (st ∷ sts) repos =
    repos_of sts (if text_eq st.repo [] then repos else put st.repo true repos)

unfoldable pub count_state : Text → List StackStatus → ℕ
count_state state [] = 0
count_state state (st ∷ sts) =
    let rest = count_state state sts in if text_eq st.state state then suc rest else rest

-- MaxParallel
unfoldable pub max_parallel : ℕ → ℕ → ℕ
max_parallel concurrency repos = if ltb 0 repos && ltb repos concurrency then repos else concurrency

-- The response's fields that are copied from the status.
abbrev pub copied : StackStatus → StackResponse
copied st = record {
  name = st.name;
  repo = st.repo;
  state = st.state;
  revision = st.revision;
  is_ok = st.is_ok;
  error_stage = st.error_stage;
  error_message = st.error_message;
  last_sync = st.last_sync;
  deploy_count = st.deploy_count;
  desired_replicas = st.desired_replicas;
  files = to_file_resps st.files;
  drift = [];
  drifted = false;
  drift_error = [];
}

module _ (h : Handler) where
  unfoldable pub compared : StackStatus → Result Text (List StackService) → StackResponse
  compared st (err e) = record (copied st) { drift_error = e }
  compared st (ok live) =
      let items = to_drift_items (drift h.by_service h.by_name st.desired_replicas live) in
      record (copied st) { drift = items; drifted = any_drifted items }

  -- One round of the loop of buildPayload.
  unfoldable pub response_with :
      Option (Text → Result Text (List StackService)) → Dict Text ℕ → StackStatus → StackResponse
  unfolding compared
  response_with none desired st = copied st
  response_with (some read) [] st = copied st
  response_with (some read) (d ∷ desired) st = compared st (read st.name)

  unfoldable pub response_of : StackStatus → StackResponse
  unfolding response_with
  response_of st = response_with h.live st.desired_replicas st

  unfoldable pub orphan_items : List LiveService → List OrphanItem
  orphan_items [] = []
  orphan_items (svc ∷ svcs) =
      record { name = svc.name; namespace = svc.stack_namespace } ∷ orphan_items svcs

  -- scanOrphans; the gauge of its count is set to summary.orphans.
  unfoldable pub scan_orphans : Option (Result Text (List LiveService)) → Payload → Payload
  unfolding orphan_items
  scan_orphans none p = p
  scan_orphans (some (err e)) p = record p {
    orphans_error = e;
    summary = record p.summary { orphans_fail = true };
  }
  scan_orphans (some (ok services)) p =
      let items = orphan_items (orphans h.by_service h.by_name h.stack_names services) in
      record p { orphans = items; summary = record p.summary { orphans = length items } }

  unfoldable pub summary_of : List StackStatus → UiSummary
  unfolding max_parallel
  summary_of sts =
      let repos = length (repos_of sts []) in
      record {
        stacks = length sts;
        repos = repos;
        syncing = count_state (lit "syncing") sts;
        waiting = count_state (lit "waiting") sts;
        orphans = 0;
        orphans_fail = false;
        concurrency = h.concurrency;
        max_parallel = if ltb 0 h.concurrency then max_parallel h.concurrency repos else 0;
      }

  -- buildPayload
  unfoldable pub build_payload : Payload
  unfolding scan_orphans summary_of response_of
  build_payload =
      let sts = listing h.never h.by_stack h.store in
      scan_orphans h.reader (record {
        stacks = map response_of sts;
        summary = summary_of sts;
        orphans = [];
        orphans_error = [];
      })

  -- ServeHTTP
  unfoldable pub serve : Text → Text → Response
  unfolding build_payload
  serve method path =
      if not (text_eq method (lit "GET"))
      then method_not_allowed
      else if text_eq path (lit "/stacks")
      then json build_payload
      else if text_eq path (lit "/") || text_eq path (lit "/ui")
      then html build_payload
      else not_found
