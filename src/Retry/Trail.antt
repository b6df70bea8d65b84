-- ===== src/Retry/Trail.antt =====
-- The attempts that a loop makes, and how they end it.
use swarm_hpa.Base.{ℕ, zero, suc, ◌+◌, ◌<◌, ◌≡◌, refl, ap, ◌∙◌, Option, none, some, arith}
use swarm_hpa.Retry.{
  Attempt, done, failed, conflicted, Ended, succeeded, refused, cancelled, exhausted, retry,
}

module _ {E S : Type 0} (run : ℕ → S → Attempt E × S) (pause : ℕ → S → Option E × S) where
  -- So many attempts met a conflict and waited, from one state to another.
  pub data Trail : ℕ → ℕ → S → S → Type 0 where
    here : {i : ℕ} {s : S} → Trail 0 i s s
    again :
        {k i : ℕ} {s s1 s2 s' : S} (e : E)
        → run i s ≡ (conflicted e, s1)
        → pause i s1 ≡ (none, s2)
        → Trail k (suc i) s2 s'
        → Trail (suc k) i s s'

  -- The end of a loop of at most n attempts from number i: after k conflicts an attempt succeeds, or
  -- fails otherwise, or the wait behind one more conflict is cancelled; or all n met a conflict.
  pub data Ending (n i : ℕ) (s : S) : Ended E × S → Type 0 where
    by_success :
        (k : ℕ) (s' s'' : S)
        → k < n
        → Trail k i s s'
        → run (i + k) s' ≡ (done, s'')
        → Ending n i s (succeeded, s'')
    by_refusal :
        (k : ℕ) (s' s'' : S) (e : E)
        → k < n
        → Trail k i s s'
        → run (i + k) s' ≡ (failed e, s'')
        → Ending n i s (refused e, s'')
    by_cancel :
        (k : ℕ) (s' s1 s2 : S) (e e' : E)
        → k < n
        → Trail k i s s'
        → run (i + k) s' ≡ (conflicted e, s1)
        → pause (i + k) s1 ≡ (some e', s2)
        → Ending n i s (cancelled e', s2)
    by_exhaustion : (last : Option E) (s' : S) → Trail n i s s' → Ending n i s (exhausted last, s')

  later :
      (n i : ℕ) (s s1 s2 : S) (e : E) (r : Ended E × S)
      → run i s ≡ (conflicted e, s1)
      → pause i s1 ≡ (none, s2)
      → Ending n (suc i) s2 r
      → Ending (suc n) i s r
  later n i s s1 s2 e r h p (by_success k s' s'' l t q) =
      by_success (suc k) s' s'' (omega arith) (again e h p t)
        (ap (λ (m : ℕ). run m s') (omega arith) ∙ q)
  later n i s s1 s2 e r h p (by_refusal k s' s'' e' l t q) =
      by_refusal (suc k) s' s'' e' (omega arith) (again e h p t)
        (ap (λ (m : ℕ). run m s') (omega arith) ∙ q)
  later n i s s1 s2 e r h p (by_cancel k s' t1 t2 e' e'' l t q u) =
      by_cancel (suc k) s' t1 t2 e' e'' (omega arith) (again e h p t)
        (ap (λ (m : ℕ). run m s') (omega arith) ∙ q) (ap (λ (m : ℕ). pause m t1) (omega arith) ∙ u)
  later n i s s1 s2 e r h p (by_exhaustion last s' t) = by_exhaustion last s' (again e h p t)

  -- Whatever the attempts and the waits answer, the loop ends, in one of four ways.
  pub retry-Ending : (n i : ℕ) (last : Option E) (s : S) → Ending n i s (retry run pause n i last s)
  unfolding retry
  retry-Ending zero i last s = by_exhaustion last s here
  retry-Ending (suc n) i last s =
      attempted (λ e s2. retry-Ending n (suc i) e s2) (run i s).0 (run i s).1 refl
    where
      waited :
          ((e : Option E) (s2 : S) → Ending n (suc i) s2 (retry run pause n (suc i) e s2))
          → (e : E) (s1 : S) (c : Option E) (s2 : S) → run i s ≡ (conflicted e, s1)
          → pause i s1 ≡ (c, s2)
          → Ending (suc n) i s (elim c [
            | some e' ↦ (cancelled e', s2)
            | none ↦ retry run pause n (suc i) (some e) s2
          ])
      waited rest e s1 none s2 h p =
          later n i s s1 s2 e (retry run pause n (suc i) (some e) s2) h p (rest (some e) s2)
      waited rest e s1 (some e') s2 h p =
          by_cancel 0 s s1 s2 e e' (omega arith) here (ap (λ (m : ℕ). run m s) (omega arith) ∙ h)
            (ap (λ (m : ℕ). pause m s1) (omega arith) ∙ p)

      attempted :
          ((e : Option E) (s2 : S) → Ending n (suc i) s2 (retry run pause n (suc i) e s2))
          → (a : Attempt E) (s1 : S) → run i s ≡ (a, s1)
          → Ending (suc n) i s (elim a [
            | done ↦ (succeeded, s1)
            | failed e ↦ (refused e, s1)
            | conflicted e ↦
                let (c, s2) = pause i s1 in
                elim c [
                  | some e' ↦ (cancelled e', s2)
                  | none ↦ retry run pause n (suc i) (some e) s2
                ]
          ])
      attempted rest done s1 h =
          by_success 0 s s1 (omega arith) here (ap (λ (m : ℕ). run m s) (omega arith) ∙ h)
      attempted rest (failed e) s1 h =
          by_refusal 0 s s1 e (omega arith) here (ap (λ (m : ℕ). run m s) (omega arith) ∙ h)
      attempted rest (conflicted e) s1 h = waited rest e s1 (pause i s1).0 (pause i s1).1 h refl

  -- An attempt that would succeed after fewer conflicts than the loop has attempts is made.
  pub retry-succeeds :
      (n i k : ℕ) (last : Option E) (s s' s'' : S)
      → k < n
      → Trail k i s s'
      → run (i + k) s' ≡ (done, s'')
      → retry run pause n i last s ≡ (succeeded, s'')
  unfolding retry
  retry-succeeds zero i k last s s' s'' l t h = absurd (omega arith)
  retry-succeeds (suc n) i k last s s' s'' l here h =
      let now : run i s ≡ (done, s'') = ap (λ (m : ℕ). run m s) (omega arith) ∙ h in
      rw (now, retry) (ap (λ (r : Attempt E × S). (succeeded, r.1)) now)
  retry-succeeds (suc n) i k last s s' s'' l (again {k = j} {s1 = s1} {s2 = s2} e c p t) h =
      let c0 : (run i s).0 ≡ conflicted e = ap (λ (r : Attempt E × S). r.0) c in
      let c1 : (run i s).1 ≡ s1 = ap (λ (r : Attempt E × S). r.1) c in
      let q : pause i (run i s).1 ≡ (none, s2) = ap (pause i) c1 ∙ p in
      let p0 : (pause i (run i s).1).0 ≡ none = ap (λ (r : Option E × S). r.0) q in
      let p1 : (pause i (run i s).1).1 ≡ s2 = ap (λ (r : Option E × S). r.1) q in
      rw (c0, p0, retry)
        (ap (λ (x : S). retry run pause n (suc i) (some e) x) p1
          ∙ retry-succeeds n (suc i) j (some e) s2 s' s'' (omega arith) t
              (ap (λ (m : ℕ). run m s') (omega arith) ∙ h))
