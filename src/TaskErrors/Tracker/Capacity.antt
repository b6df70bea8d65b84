-- ===== src/TaskErrors/Tracker/Capacity.antt =====
-- The tracker never outgrows its capacity, and gives up the oldest event first.
use swarm_hpa.Base.{
  ℕ, ◌≤◌, ◌<◌, ◌≡◌, ◌≢◌, inl, inr, refl, ap, false, none, some, List, [], ◌∷◌, arith, Time, before,
  ◌≤ℤ◌, ltb_ℤ_iff, pos_part, neg_part, lookup, delete, length, length-put, length-delete_known, In,
  Option-cases, Bool-cases,
}
use swarm_hpa.Model.{TaskErrorEvent}
use swarm_hpa.TaskErrors.Tracker.{
  Key, key_eq_iff, keys, Tracked, key_of, oldest_from, evict_oldest, record_one, record_events,
}

In-lookup : (k : Key) (e : TaskErrorEvent) (m : Tracked) → In (k, e) m → lookup k m ≢ none
unfolding lookup
In-lookup k e [] i h = absurd i
In-lookup k e ((j, f) ∷ m) (inl same) h =
    ground (arith, key_eq_iff j k, ap (λ (p : Key × TaskErrorEvent). p.0) same)
In-lookup k e ((j, f) ∷ m) (inr i) h = In-lookup k e m i (ground arith)

-- What the loop holds is an entry of the map or what it held before.
oldest_from-In :
    (k : Key) (e : TaskErrorEvent) (m rest : Tracked)
    → In (k, e) m
    → ((p : Key × TaskErrorEvent) → In p rest → In p m)
    → (j : Key) × (f : TaskErrorEvent) × In (j, f) m
      × (oldest_from (some (k, e.since)) rest ≡ some (j, f.since))
unfolding oldest_from
oldest_from-In k e m [] i sub = (k, e, i, refl)
oldest_from-In k e m ((j, f) ∷ rest) i sub = elim (Bool-cases (before f.since e.since)) [
  | inl older ↦
      let (j', f', i', h) =
        oldest_from-In j f m rest (sub (j, f) (inl refl)) (λ p q. sub p (inr q)) in
      (j', f', i', rw older h)
  | inr younger ↦
      let (j', f', i', h) = oldest_from-In k e m rest i (λ p q. sub p (inr q)) in
      (j', f', i', rw younger h)
]

-- It is no younger than what it held before, nor than any entry that it met.
not_before : (t u : Time) → before t u ≡ false → u ≤ℤ t
not_before t u h = ground arith

oldest_from-le :
    (k : Key) (t : Time) (rest : Tracked) (j : Key) (u : Time)
    → oldest_from (some (k, t)) rest ≡ some (j, u)
    → u ≤ℤ t
unfolding oldest_from
oldest_from-le k t [] j u h = ground arith
oldest_from-le k t ((i, f) ∷ rest) j u h = elim (Bool-cases (before f.since t)) [
  | inl older ↦
      omega
        (arith, oldest_from-le i f.since rest j u (rw older at h), (ltb_ℤ_iff f.since t).0 older)
  | inr younger ↦ oldest_from-le k t rest j u (rw younger at h)
]

oldest_from-oldest :
    (k : Key) (t : Time) (rest : Tracked) (j : Key) (u : Time) (i : Key) (f : TaskErrorEvent)
    → oldest_from (some (k, t)) rest ≡ some (j, u)
    → In (i, f) rest
    → u ≤ℤ f.since
unfolding oldest_from
oldest_from-oldest k t [] j u i f h m = absurd m
oldest_from-oldest k t ((i', f') ∷ rest) j u i f h m = elim (Bool-cases (before f'.since t)) [
  | inl older ↦ elim m [
    | inl same ↦ omega (
      arith,
      oldest_from-le i' f'.since rest j u (rw older at h),
      ap (λ (p : Key × TaskErrorEvent). pos_part p.1.since) same,
      ap (λ (p : Key × TaskErrorEvent). neg_part p.1.since) same,
    )
    | inr there ↦ oldest_from-oldest i' f'.since rest j u i f (rw older at h) there
  ]
  | inr younger ↦ elim m [
    | inl same ↦ omega (
      arith,
      oldest_from-le k t rest j u (rw younger at h),
      not_before f'.since t younger,
      ap (λ (p : Key × TaskErrorEvent). pos_part p.1.since) same,
      ap (λ (p : Key × TaskErrorEvent). neg_part p.1.since) same,
    )
    | inr there ↦ oldest_from-oldest k t rest j u i f (rw younger at h) there
  ]
]

-- In a tracker that is not empty, the eviction takes one entry out: an entry of the tracker than which
-- none is older.
pub record Evicted (m m' : Tracked) : Type 0 where
  pub key : Key
  pub event : TaskErrorEvent
  pub was_there : In (key, event) m
  pub gone : m' ≡ delete key m
  pub oldest : (i : Key) (f : TaskErrorEvent) → In (i, f) m → event.since ≤ℤ f.since
  pub smaller : length m' < length m

shrinks :
    (j : Key) (f : TaskErrorEvent) (m : Tracked) → In (j, f) m → length (delete j m) < length m
shrinks j f m i = elim (Option-cases (lookup j m)) [
  | inl e ↦ absurd (In-lookup j f m i e)
  | inr (v, e) ↦ length-delete_known j v m e
]

-- An eviction from a tracker that is not empty removes the key of a tracked event, no tracked event is
-- older than that one, and the tracker is smaller afterwards.
evict_oldest-Evicted : (m : Tracked) → m ≢ [] → Evicted m (evict_oldest m)
unfolding evict_oldest
evict_oldest-Evicted [] n = absurd (n refl)
evict_oldest-Evicted ((k, e) ∷ m) n =
    let all : Tracked = (k, e) ∷ m in
    let (j, f, i, h) = oldest_from-In k e all m (inl refl) (λ p q. inr q) in
    record {
      key = j;
      event = f;
      was_there = i;
      gone = rw (h, evict_oldest);
      oldest = λ i' f' q. elim q [
        | inl same ↦ omega (
          arith,
          oldest_from-le k e.since m j f.since h,
          ap (λ (p : Key × TaskErrorEvent). pos_part p.1.since) same,
          ap (λ (p : Key × TaskErrorEvent). neg_part p.1.since) same,
        )
        | inr there ↦ oldest_from-oldest k e.since m j f.since i' f' h there
      ];
      smaller = rw (h, evict_oldest) (shrinks j f all i);
    }

record_one-capacity :
    (cap : ℕ) (e : TaskErrorEvent) (m : Tracked)
    → 1 ≤ cap
    → length m ≤ cap
    → length (record_one cap e m) ≤ cap
unfolding record_one
record_one-capacity cap e [] c h = ground (arith, length-put (key_of e) e [])
record_one-capacity cap e (p ∷ m) c h = ground (
  arith,
  length-put (key_of e) e (p ∷ m),
  length-put (key_of e) e (evict_oldest (p ∷ m)),
  (evict_oldest-Evicted (p ∷ m) (λ q. cc)).smaller,
)

-- Whatever is recorded, a tracker within its capacity, of one at least, stays within it.
pub record_events-capacity :
    (cap : ℕ) (es : List TaskErrorEvent) (m : Tracked)
    → 1 ≤ cap
    → length m ≤ cap
    → length (record_events cap es m) ≤ cap
unfolding record_events
record_events-capacity cap [] m c h = h
record_events-capacity cap (e ∷ es) m c h =
    record_events-capacity cap es (record_one cap e m) c (record_one-capacity cap e m c h)

-- An event of a task that is tracked changes nothing, so its time stamp is not refreshed.
record_one-tracked :
    (cap : ℕ) (e f : TaskErrorEvent) (m : Tracked)
    → lookup (key_of e) m ≡ some f
    → record_one cap e m ≡ m
unfolding record_one
record_one-tracked cap e f m h = ground (arith, h)
