-- ===== src/Reconciler/Stabilizer.antt =====
-- internal/app/reconciler/stabilizer.go: a short history of recommendations dampens scale-downs.
pub mod Damping
use swarm_hpa.Base.{
  ℕ, Bool, true, false, not, List, [], ◌∷◌, ◌++◌, Text, Time, Duration, zero_duration, before, ◌-ℤ◌,
  leb_ℤ, Dict, lookup, put, text_keys, or_empty, keep_if, ltb, leb, if◌then◌else◌,
}

-- recSample; `rec` is uint64.
pub record RecSample : Type 0 where
  pub at : Time
  pub rec : ℕ

abbrev pub History : Type 0
History = Dict Text (List RecSample)

-- The test of the pruning loop, `!e.at.Before(now.Add(-window))`.
unfoldable pub is_recent : Duration → Time → RecSample → Bool
is_recent window now e = not (before e.at (now -ℤ window))

-- The samples that are left, with the new one at the end.
unfoldable pub kept_samples : Duration → Time → ℕ → List RecSample → List RecSample
kept_samples window now desired old =
    keep_if (is_recent window now) old ++ record { at = now; rec = desired } ∷ []

-- The loop for the largest recommendation.
unfoldable pub max_rec : ℕ → List RecSample → ℕ
max_rec m [] = m
max_rec m (e ∷ es) = max_rec (if ltb m e.rec then e.rec else m) es

-- The value that Recommend returns once the history is written.
unfoldable pub stabilized : ℕ → ℕ → List RecSample → ℕ
unfolding max_rec
stabilized current desired kept =
    if leb current desired
    then desired
    else let largest = max_rec desired kept in if ltb current largest then current else largest

-- Recommend, with the window and the history of the Stabilizer.
unfoldable pub recommend : Duration → History → Text → ℕ → ℕ → Time → ℕ × History
recommend window history service_id current desired now =
    if leb_ℤ window zero_duration
    then (desired, history)
    else let kept = kept_samples window now desired (or_empty (lookup service_id history)) in
      (stabilized current desired kept, put service_id kept history)
