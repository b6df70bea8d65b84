-- ===== src/TaskErrors/Tracker.antt =====
-- internal/app/taskerrors/tracker.go: the sliding window of task errors.
pub mod Capacity
pub mod Window
use swarm_hpa.Base.{
  ℕ, suc, ◌≡◌, ◌↔◌, refl, Bool, true, false, not, ◌&&◌, Option, none, some, List, [], ◌∷◌, arith,
  Text, text_eq, text_eq_iff, text_keys, ℤ, int_eq, int_eq_iff, Time, Duration, sub, before, leb_ℤ,
  Eq, Dict, lookup, put, delete, or_empty, keep_if, length, leb, if◌then◌else◌,
}
use swarm_hpa.Model.{TaskErrorEvent}

-- key
pub record Key : Type 0 where
  pub service_name : Text
  pub slot : ℤ
  pub task_id : Text

abbrev pub key_eq : Key → Key → Bool
key_eq a b =
    text_eq a.service_name b.service_name && int_eq a.slot b.slot && text_eq a.task_id b.task_id

pub key_eq_iff : (a b : Key) → (key_eq a b ≡ true) ↔ (a ≡ b)
key_eq_iff a b = ground (
  arith,
  text_eq_iff a.service_name b.service_name,
  int_eq_iff a.slot b.slot,
  text_eq_iff a.task_id b.task_id,
)

instance abbrev pub keys : Eq Key
keys = record { beq = key_eq; beq_iff = key_eq_iff }

abbrev pub Tracked : Type 0
Tracked = Dict Key TaskErrorEvent

-- maxEvents
abbrev pub max_events : ℕ
max_events = 10000

abbrev pub key_of : TaskErrorEvent → Key
key_of e = record { service_name = e.service_name; slot = e.slot; task_id = e.task_id }

-- The loop of evictOldestLocked; nothing was found yet while `first` is set.
unfoldable pub oldest_from : Option (Key × Time) → Tracked → Option (Key × Time)
oldest_from found [] = found
oldest_from none ((k, e) ∷ m) = oldest_from (some (k, e.since)) m
oldest_from (some (k', t)) ((k, e) ∷ m) =
    oldest_from (if before e.since t then some (k, e.since) else some (k', t)) m

-- evictOldestLocked
unfoldable pub evict_oldest : Tracked → Tracked
unfolding oldest_from
evict_oldest m = elim (oldest_from none m) [ none ↦ m | some (k, t) ↦ delete k m ]

-- One round of the loop of Record, with the capacity.
unfoldable pub record_one : ℕ → TaskErrorEvent → Tracked → Tracked
record_one cap e m = elim (lookup (key_of e) m) [
  | some _ ↦ m
  | none ↦ put (key_of e) e (if leb cap (length m) then evict_oldest m else m)
]

-- Record
unfoldable pub record_events : ℕ → List TaskErrorEvent → Tracked → Tracked
record_events cap [] m = m
record_events cap (e ∷ es) m = record_events cap es (record_one cap e m)

-- The snapshot's count of one service and class; a missing key counts as 0.
abbrev pub Counts : Type 0
Counts = Dict Text (Dict Text ℕ)

unfoldable pub or_zero : Option ℕ → ℕ
or_zero none = 0
or_zero (some n) = n

-- snapshot[service][class]++, the inner map made where it is missing.
unfoldable pub bump : Text → Text → Counts → Counts
bump service class m =
    let inner = or_empty (lookup service m) in
    put service (put class (suc (or_zero (lookup class inner))) inner) m

-- The age test of WindowSnapshot: the entry is younger than the window.
unfoldable pub is_live : Time → Duration → Key × TaskErrorEvent → Bool
is_live now window (k, e) = not (leb_ℤ window (sub now e.since))

unfoldable pub tally : Tracked → Counts → Counts
tally [] m = m
tally ((k, e) ∷ es) m = tally es (bump e.service_name e.class m)

-- WindowSnapshot: the counts, and the entries that are left.
unfoldable pub window_snapshot : Time → Duration → Tracked → Counts × Tracked
window_snapshot now window m = let live = keep_if (is_live now window) m in (tally live [], live)
