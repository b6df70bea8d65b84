-- ===== src/Registry/Freshness.antt =====
-- What Snapshot hands out: every usable report, and only those.
use mathlib.Core.Path.{subst}
use swarm_hpa.Base.{
  ℕ, suc, ◌≡◌, ◌≢◌, refl, ap, inl, inr, true, false, not, [], ◌∷◌, arith, Text, text_eq,
  text_eq_iff, Time, Duration, Dict, put, text_keys, keep_if, keep_if-In, In-keep_if, Bool-cases,
  In, leb_ℤ, sub, ◌↔◌,
}
use swarm_hpa.Model.{AgentReport}
use swarm_hpa.Registry.{Entry, Registry, ingest, snapshot, reports_of, is_stale}

module _ {F : Type 0} where
  In-put : (k : Text) (e : Entry F) (m : Dict Text (Entry F)) → In (k, e) (put k e m)
  unfolding put
  In-put k e [] = inl refl
  In-put k e ((j, f) ∷ m) = elim (Bool-cases (text_eq j k)) [
    | inl same ↦ rw (same, put) (inl refl)
    | inr other ↦ rw (other, put) (inr (In-put k e m))
  ]

  In-reports_of :
      (k : Text) (e : Entry F) (m : Dict Text (Entry F)) → In (k, e) m → In e.report (reports_of m)
  unfolding reports_of
  In-reports_of k e [] h = h
  In-reports_of k e ((j, f) ∷ m) (inl q) = inl (ap (λ (x : Text × Entry F). x.1.report) q)
  In-reports_of k e ((j, f) ∷ m) (inr h) = inr (In-reports_of k e m h)

  reports_of-In :
      (a : AgentReport F) (m : Dict Text (Entry F))
      → In a (reports_of m)
      → (x : Text × Entry F) × In x m × (x.1.report ≡ a)
  unfolding reports_of
  reports_of-In a [] h = absurd h
  reports_of-In a ((j, f) ∷ m) (inl q) = ((j, f), inl refl, q)
  reports_of-In a ((j, f) ∷ m) (inr h) = let (x, i, q) = reports_of-In a m h in (x, inr i, q)

module _ {F : Type 0} (now : ℕ → Time) (stale : Duration) where
  -- Snapshot hands out a report exactly when an entry holds it whose age at the clock's reading is at most the staleness limit.
  pub snapshot-IsFresh :
      (a : AgentReport F) (r : Registry F)
      → In a (snapshot now stale r).0 ↔ (
          (x : Text × Entry F) × In x r.entries
          × (x.1.report ≡ a)
          × (leb_ℤ (sub (now r.reads) x.1.last_seen) stale ≡ true))
  unfolding snapshot is_stale
  snapshot-IsFresh a r = (
    λ h.
        let (x, i, q) =
          reports_of-In a (keep_if (λ y. not (is_stale now stale (now r.reads) y)) r.entries) h in
        let (j, t) = keep_if-In (λ y. not (is_stale now stale (now r.reads) y)) r.entries x i in
        (x, j, q, ground (arith, t)),
    λ (x, i, q, t).
        let kept =
          In-keep_if (λ y. not (is_stale now stale (now r.reads) y)) r.entries x i (ground arith) in
        subst
          (λ b.
            In b (reports_of (keep_if (λ y. not (is_stale now stale (now r.reads) y)) r.entries)))
          q
          (In-reports_of x.0 x.1 (keep_if (λ y. not (is_stale now stale (now r.reads) y)) r.entries)
            kept),
  )

  -- A report with a node id that Ingest takes is among those of a Snapshot that follows within the staleness limit.
  pub ingest-snapshot :
      (report : AgentReport F) (source : Text) (r : Registry F)
      → report.node_id ≢ []
      → leb_ℤ (sub (now (suc r.reads)) (now r.reads)) stale ≡ true
      → In report (snapshot now stale (ingest now stale report source r).1).0
  unfolding ingest
  ingest-snapshot report source r named soon =
      let named' : text_eq report.node_id [] ≡ false =
        ground (arith, text_eq_iff report.node_id []) in
      (snapshot-IsFresh report (ingest now stale report source r).1).1 (
        rw (named', ingest)
          (
            (report.node_id, record { report = report; last_seen = now r.reads; source = source }),
            In-put report.node_id
                (record { report = report; last_seen = now r.reads; source = source }) r.entries,
            refl,
            soon,
          ))
