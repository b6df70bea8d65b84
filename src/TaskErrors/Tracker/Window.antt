-- ===== src/TaskErrors/Tracker/Window.antt =====
-- The snapshot counts what is younger than the window, and keeps nothing else.
use swarm_hpa.Base.{
  ℕ, suc, ◌+◌, ◌≡◌, refl, Bool, true, not, leb_ℤ, sub, ◌&&◌, List, [], ◌∷◌, arith, Text, text_eq,
  text_eq_iff, Time, Duration, lookup, put, lookup-put, text_keys, or_empty, keep_if, In,
  In-keep_if, keep_if-In, ◌↔◌, count_if, if◌then◌else◌,
}
use swarm_hpa.Model.{TaskErrorEvent}
use swarm_hpa.TaskErrors.Tracker.{
  Key, Tracked, Counts, or_zero, bump, tally, is_live, window_snapshot,
}

-- What a reader of the snapshot finds for a service and a class.
pub count_of : Counts → Text → Text → ℕ
count_of m service class = or_zero (lookup class (or_empty (lookup service m)))

-- The entry is of the service and of the class.
pub is_of : Text → Text → Key × TaskErrorEvent → Bool
is_of service class (k, e) = text_eq e.service_name service && text_eq e.class class

count_of-bump :
    (s c : Text) (m : Counts) (service class : Text)
    → count_of (bump s c m) service class ≡ (
        if text_eq s service && text_eq c class
        then suc (count_of m service class)
        else count_of m service class)
unfolding count_of bump or_zero or_empty
count_of-bump s c m service class =
    let inner = or_empty (lookup s m) in
    let n = suc (or_zero (lookup c inner)) in
    ground (
      arith,
      lookup-put s service (put c n inner) m,
      lookup-put c class n inner,
      text_eq_iff s service,
      text_eq_iff c class,
    )

count_of-tally :
    (es : Tracked) (m : Counts) (service class : Text)
    → count_of (tally es m) service class
      ≡ count_if (is_of service class) es + count_of m service class
unfolding tally count_if is_of
count_of-tally [] m service class = omega arith
count_of-tally ((k, e) ∷ es) m service class = ground (
  arith,
  count_of-tally es (bump e.service_name e.class m) service class,
  count_of-bump e.service_name e.class m service class,
)

count_if-keep_if :
    {A : Type 0} (p q : A → Bool) (xs : List A)
    → count_if p (keep_if q xs) ≡ count_if (λ x. q x && p x) xs
unfolding count_if keep_if
count_if-keep_if p q [] = refl
count_if-keep_if p q (x ∷ xs) = ground (arith, count_if-keep_if p q xs)

count_if-is_live :
    (now : Time) (window : Duration) (p : Key × TaskErrorEvent → Bool) (m : Tracked)
    → count_if (λ x. is_live now window x && p x) m
      ≡ count_if (λ x. not (leb_ℤ window (sub now x.1.since)) && p x) m
unfolding count_if is_live
count_if-is_live now window p [] = refl
count_if-is_live now window p ((k, e) ∷ m) = ground (arith, count_if-is_live now window p m)

-- For every service and class, the snapshot's count is the number of tracked events of that service and
-- class whose age, the time from their `since` to now, is below the window.
pub window_snapshot-counts :
    (now : Time) (window : Duration) (m : Tracked) (service class : Text)
    → count_of (window_snapshot now window m).0 service class
      ≡ count_if (λ x. not (leb_ℤ window (sub now x.1.since)) && is_of service class x) m
unfolding window_snapshot count_of lookup or_zero or_empty
window_snapshot-counts now window m service class = omega (
  arith,
  count_of-tally (keep_if (is_live now window) m) [] service class,
  count_if-keep_if (is_of service class) (is_live now window) m,
  count_if-is_live now window (is_of service class) m,
)

-- The snapshot leaves the entries that are younger than the window, all of them and no others.
window_snapshot-left :
    (now : Time) (window : Duration) (m : Tracked) (x : Key × TaskErrorEvent)
    → In x (window_snapshot now window m).1 ↔ (In x m × (is_live now window x ≡ true))
unfolding window_snapshot
window_snapshot-left now window m x =
    (keep_if-In (is_live now window) m x, λ p. In-keep_if (is_live now window) m x p.0 p.1)
