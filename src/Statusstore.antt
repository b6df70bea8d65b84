-- ===== src/Statusstore.antt =====
-- internal/adapter/statusstore/store.go: the last status of each stack. Maps and slices are values
-- here, so the copies that the store takes and hands out are the values themselves.
pub mod Results
use swarm_hpa.Base.{
  ℕ, Bool, false, Option, none, some, List, [], ◌∷◌, Text, Time, Dict, lookup, put, text_keys,
}

-- internal/core/model/stackstatus.go
pub record StackFileStatus : Type 0 where
  pub file : Text
  pub overrides : List Text
  pub pull_policy : Text
  pub status : Text
  pub error : Text

pub record StackStatus : Type 0 where
  pub name : Text
  pub repo : Text
  pub state : Text
  pub revision : Text
  pub is_ok : Bool
  pub error_stage : Text
  pub error_message : Text
  pub last_sync : Time
  pub deploy_count : ℕ
  pub desired_replicas : Dict Text ℕ
  pub files : List StackFileStatus

-- Store.items
abbrev pub Store : Type 0
Store = Dict Text StackStatus

-- SetStatus
unfoldable pub set_status : Text → StackStatus → Store → Store
set_status name status m = put name (record status { name = name; state = [] }) m

-- `never` is the zero time of a status that is not set yet.
module _ (never : Time) where
  abbrev pub blank : Text → StackStatus
  blank name = record {
    name = name;
    repo = [];
    state = [];
    revision = [];
    is_ok = false;
    error_stage = [];
    error_message = [];
    last_sync = never;
    deploy_count = 0;
    desired_replicas = [];
    files = [];
  }

  unfoldable pub or_blank : Text → Option StackStatus → StackStatus
  or_blank name none = blank name
  or_blank name (some st) = st

  -- SetState
  unfoldable pub set_state : Text → Text → Text → Store → Store
  unfolding or_blank
  set_state name repo state m =
      put name (record (or_blank name (lookup name m)) { repo = repo; state = state }) m

  unfoldable pub statuses : Store → List StackStatus
  statuses [] = []
  statuses ((k, st) ∷ m) = st ∷ statuses m

  -- Snapshot; `by_name` is sort.Slice with its comparison.
  unfoldable pub listing : (List StackStatus → List StackStatus) → Store → List StackStatus
  listing by_name m = by_name (statuses m)
