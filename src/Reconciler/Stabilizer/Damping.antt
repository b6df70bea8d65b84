-- ===== src/Reconciler/Stabilizer/Damping.antt =====
-- What the stabilizer promises: growth is immediate, and nothing shrinks below a recent wish.
use Prim.Native.Nat.{min}
use mathlib.Core.Path.{subst}
use swarm_hpa.Base.{
  text_eq_refl, All, ℕ, ◌≤◌, ◌<◌, ◌≡◌, ◌⊎◌, inl, inr, refl, sym, ap, true, false, List, [], ◌∷◌,
  ◌++◌, arith, Text, text_eq, text_eq_iff, Time, Duration, zero_duration, pos, ◌+ℤ◌, ◌≤ℤ◌, ◌<ℤ◌,
  leb_ℤ, -ℤ_parts, +ℤ_parts, lookup, text_keys, or_empty, lookup-put, In, In-keep_if, keep_if,
  Bool-cases, if◌then◌else◌, ltb,
}
use swarm_hpa.Reconciler.Stabilizer.{
  RecSample, History, is_recent, kept_samples, max_rec, stabilized, recommend,
}

max_rec-start : (m : ℕ) (es : List RecSample) → m ≤ max_rec m es
unfolding max_rec
max_rec-start m [] = omega arith
max_rec-start m (e ∷ es) = ground (arith, max_rec-start (if ltb m e.rec then e.rec else m) es)

max_rec-In : (m : ℕ) (es : List RecSample) (e : RecSample) → In e es → e.rec ≤ max_rec m es
unfolding max_rec
max_rec-In m [] e i = absurd i
max_rec-In m (f ∷ es) e (inl same) =
    ground (
      arith,
      max_rec-start (if ltb m f.rec then f.rec else m) es,
      ap (λ (x : RecSample). x.rec) same,
    )
max_rec-In m (f ∷ es) e (inr i) = max_rec-In (if ltb m f.rec then f.rec else m) es e i

-- The result is never below the raw recommendation, never grows a service that should shrink, and is
-- the raw recommendation where the service should not shrink.
pub recommend_bounds :
    (window : Duration) (history : History) (service_id : Text) (current desired : ℕ) (now : Time)
    → (desired ≤ (recommend window history service_id current desired now).0)
      × (((current ≤ desired)
            × ((recommend window history service_id current desired now).0 ≡ desired))
          ⊎ ((desired < current)
              × ((recommend window history service_id current desired now).0 ≤ current)))
unfolding recommend stabilized
recommend_bounds window history service_id current desired now = ground (
  arith,
  max_rec-start desired (kept_samples window now desired (or_empty (lookup service_id history))),
)

-- One call of Recommend.
pub record Call : Type 0 where
  pub service_id : Text
  pub current : ℕ
  pub desired : ℕ
  pub at : Time

-- The history after a list of calls, the first of the list first.
pub replay : Duration → History → List Call → History
replay window h [] = h
replay window h (c ∷ cs) =
    replay window (recommend window h c.service_id c.current c.desired c.at).1 cs

abbrev pub sample_of : Call → RecSample
sample_of c = record { at = c.at; rec = c.desired }

abbrev samples : History → Text → List RecSample
samples h service_id = or_empty (lookup service_id h)

In-append_left : {A : Type 0} (a : A) (xs ys : List A) → In a xs → In a (xs ++ ys)
In-append_left a [] ys i = absurd i
In-append_left a (x ∷ xs) ys (inl e) = inl e
In-append_left a (x ∷ xs) ys (inr i) = inr (In-append_left a xs ys i)

In-append_last : {A : Type 0} (a : A) (xs : List A) → In a (xs ++ a ∷ [])
In-append_last a [] = inl refl
In-append_last a (x ∷ xs) = inr (In-append_last a xs)

module _ (window : Duration) (positive : leb_ℤ window zero_duration ≡ false) where
  samples-recommend :
      (h : History) (service_id j : Text) (current desired : ℕ) (now : Time)
      → samples (recommend window h service_id current desired now).1 j ≡ (
          if text_eq service_id j
          then kept_samples window now desired (samples h service_id)
          else samples h j)
  unfolding recommend or_empty
  samples-recommend h service_id j current desired now = ground (
    arith,
    positive,
    lookup-put service_id j (kept_samples window now desired (samples h service_id)) h,
  )

  -- The call is in the history behind it.
  recorded :
      (h : History) (c : Call)
      → In
          (sample_of c)
          (samples (recommend window h c.service_id c.current c.desired c.at).1 c.service_id)
  unfolding kept_samples
  recorded h c =
      rw
        (
          samples-recommend h c.service_id c.service_id c.current c.desired c.at,
          text_eq_refl c.service_id,
        )
        (In-append_last (sample_of c) (keep_if (is_recent window c.at) (samples h c.service_id)))

  -- A sample that is recent at the time of a call is still there behind it.
  survives :
      (h : History) (c : Call) (service_id : Text) (e : RecSample)
      → In e (samples h service_id)
      → is_recent window c.at e ≡ true
      → In e (samples (recommend window h c.service_id c.current c.desired c.at).1 service_id)
  unfolding kept_samples
  survives h c service_id e i r = elim (Bool-cases (text_eq c.service_id service_id)) [
    | inl same ↦
        let eq : c.service_id ≡ service_id = (text_eq_iff c.service_id service_id).0 same in
        rw (samples-recommend h c.service_id service_id c.current c.desired c.at, same)
          (In-append_left e (keep_if (is_recent window c.at) (samples h c.service_id))
            (sample_of c ∷ [])
            (In-keep_if (is_recent window c.at) (samples h c.service_id) e
              (subst (λ j. In e (samples h j)) (sym eq) i) r))
    | inr other ↦ rw (samples-recommend h c.service_id service_id c.current c.desired c.at, other) i
  ]

  -- Recent at the end of a run of calls is recent at each of them.
  recent_earlier :
      (e : RecSample) (t now : Time)
      → t ≤ℤ now
      → is_recent window now e ≡ true
      → is_recent window t e ≡ true
  unfolding is_recent
  recent_earlier e t now le h = ground (arith, -ℤ_parts t window, -ℤ_parts now window)

  survives_replay :
      (h : History) (cs : List Call) (service_id : Text) (e : RecSample) (now : Time)
      → In e (samples h service_id)
      → All (λ c. c.at ≤ℤ now) cs
      → is_recent window now e ≡ true
      → In e (samples (replay window h cs) service_id)
  unfolding replay
  survives_replay h [] service_id e now i past r = i
  survives_replay h (c ∷ cs) service_id e now i past r =
      survives_replay (recommend window h c.service_id c.current c.desired c.at).1 cs service_id e
        now (survives h c service_id e i (recent_earlier e c.at now past.0 r)) past.1 r

  called-replay :
      (h : History) (cs : List Call) (c : Call) (now : Time)
      → In c cs
      → All (λ c. c.at ≤ℤ now) cs
      → is_recent window now (sample_of c) ≡ true
      → In (sample_of c) (samples (replay window h cs) c.service_id)
  unfolding replay
  called-replay h [] c now i past r = absurd i
  called-replay h (d ∷ cs) c now (inl same) past r =
      survives_replay (recommend window h d.service_id d.current d.desired d.at).1 cs c.service_id
        (sample_of c) now
        (subst
          (λ x.
            In (sample_of x)
              (samples (recommend window h d.service_id d.current d.desired d.at).1 x.service_id))
          same (recorded h d))
        past.1 r
  called-replay h (d ∷ cs) c now (inr i) past r =
      called-replay (recommend window h d.service_id d.current d.desired d.at).1 cs c now i past.1 r

  held :
      (h : History) (service_id : Text) (current desired : ℕ) (now : Time) (e : RecSample)
      → In e (samples h service_id)
      → is_recent window now e ≡ true
      → min e.rec current ≤ (recommend window h service_id current desired now).0
  unfolding recommend stabilized kept_samples
  held h service_id current desired now e i r = ground (
    arith,
    positive,
    max_rec-In desired (kept_samples window now desired (samples h service_id)) e (
        In-append_left e (keep_if (is_recent window now) (samples h service_id))
          (record { at = now; rec = desired } ∷ [])
          (In-keep_if (is_recent window now) (samples h service_id) e i r)),
  )

-- Over any run of calls for any services, none of them later than now: the service is held at every
-- recommendation that was made for it within the window, or at its current count if that is less.
pub recommend-holds :
    (window : Duration) (history : History) (calls : List Call) (c : Call) (current desired : ℕ)
    (now : Time)
    → pos 0 <ℤ window
    → In c calls
    → All (λ d. d.at ≤ℤ now) calls
    → now ≤ℤ c.at +ℤ window
    → min c.desired current
      ≤ (recommend window (replay window history calls) c.service_id current desired now).0
unfolding is_recent
recommend-holds window history calls c current desired now positive i past recent =
    let p : leb_ℤ window zero_duration ≡ false = ground arith in
    let r : is_recent window now (sample_of c) ≡ true =
      ground (arith, -ℤ_parts now window, +ℤ_parts c.at window) in
    held window p (replay window history calls) c.service_id current desired now (sample_of c)
      (called-replay window p history calls c now i past r) r
