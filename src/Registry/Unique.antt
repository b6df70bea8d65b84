-- ===== src/Registry/Unique.antt =====
-- No node is counted twice.
use swarm_hpa.Base.{
  ℕ, ◌≡◌, ◌≢◌, refl, sym, ◌∙◌, inl, inr, Bool, not, List, [], ◌∷◌, arith, Text, text_eq,
  text_eq_iff, Time, Duration, Dict, put, text_keys, keep_if, All, Bool-cases,
}
use swarm_hpa.Model.{AgentReport}
use swarm_hpa.Registry.{Entry, Registry, ingest, snapshot, reports_of, is_stale}

-- Every key is its report's node, and no key stands twice.
abbrev pub IsKeyed : {F : Type 0} → Dict Text (Entry F) → Type 0
IsKeyed [] = Unit
IsKeyed ((id, e) ∷ m) = (e.report.node_id ≡ id) × All (λ x. x.0 ≢ id) m × IsKeyed m

-- The reports are of pairwise different nodes.
abbrev pub Distinct : {F : Type 0} → List (AgentReport F) → Type 0
Distinct [] = Unit
Distinct (r ∷ rs) = All (λ s. s.node_id ≢ r.node_id) rs × Distinct rs

module _ {F : Type 0} where
  absent-put :
      (id k : Text) (e : Entry F) (m : Dict Text (Entry F))
      → k ≢ id
      → All (λ x. x.0 ≢ id) m
      → All (λ x. x.0 ≢ id) (put k e m)
  unfolding put
  absent-put id k e [] n h = (n, tt)
  absent-put id k e ((j, f) ∷ m) n h = elim (Bool-cases (text_eq j k)) [
    | inl same ↦ rw (same, put) (n, h.1)
    | inr other ↦ rw (other, put) (h.0, absent-put id k e m n h.1)
  ]

  put-IsKeyed :
      (k : Text) (e : Entry F) (m : Dict Text (Entry F))
      → e.report.node_id ≡ k
      → IsKeyed m
      → IsKeyed (put k e m)
  unfolding put
  put-IsKeyed k e [] own h = (own, tt, tt)
  put-IsKeyed k e ((j, f) ∷ m) own h = elim (Bool-cases (text_eq j k)) [
    | inl same ↦
        let eq : j ≡ k = (text_eq_iff j k).0 same in rw (same, put) (own, rw eq at h.1, h.2)
    | inr other ↦
        rw (other, put)
          (
            h.0,
            absent-put j k e m (λ q. ground (arith, text_eq_iff j k)) h.1,
            put-IsKeyed k e m own h.2,
          )
  ]

  absent-keep_if :
      (p : Text × Entry F → Bool) (id : Text) (m : Dict Text (Entry F))
      → All (λ x. x.0 ≢ id) m
      → All (λ x. x.0 ≢ id) (keep_if p m)
  unfolding keep_if
  absent-keep_if p id [] h = tt
  absent-keep_if p id (x ∷ m) h = elim (Bool-cases (p x)) [
    | inl kept ↦ rw (kept, keep_if) (h.0, absent-keep_if p id m h.1)
    | inr lost ↦ rw (lost, keep_if) (absent-keep_if p id m h.1)
  ]

  keep_if-IsKeyed :
      (p : Text × Entry F → Bool) (m : Dict Text (Entry F)) → IsKeyed m → IsKeyed (keep_if p m)
  unfolding keep_if
  keep_if-IsKeyed p [] h = tt
  keep_if-IsKeyed p ((id, e) ∷ m) h = elim (Bool-cases (p (id, e))) [
    | inl kept ↦ rw (kept, keep_if) (h.0, absent-keep_if p id m h.1, keep_if-IsKeyed p m h.2)
    | inr lost ↦ rw (lost, keep_if) (keep_if-IsKeyed p m h.2)
  ]

  absent-reports_of :
      (id : Text) (m : Dict Text (Entry F))
      → IsKeyed m
      → All (λ x. x.0 ≢ id) m
      → All (λ s. s.node_id ≢ id) (reports_of m)
  unfolding reports_of
  absent-reports_of id [] k h = tt
  absent-reports_of id ((j, e) ∷ m) k h = (λ q. h.0 (sym k.0 ∙ q), absent-reports_of id m k.2 h.1)

  reports_of-Distinct : (m : Dict Text (Entry F)) → IsKeyed m → Distinct (reports_of m)
  unfolding reports_of
  reports_of-Distinct [] k = tt
  reports_of-Distinct ((j, e) ∷ m) k =
      (rw k.0 (absent-reports_of j m k.2 k.1), reports_of-Distinct m k.2)

-- The calls of a Registry.
pub data Call (F : Type 0) : Type 0 where
  ingested : AgentReport F → Text → Call F
  polled : Call F

module _ {F : Type 0} (now : ℕ → Time) (stale : Duration) where
  unfoldable pub perform : Call F → Registry F → Registry F
  perform (ingested report source) r = (ingest now stale report source r).1
  perform polled r = (snapshot now stale r).1

  unfoldable pub serve : List (Call F) → Registry F → Registry F
  serve [] r = r
  serve (c ∷ cs) r = serve cs (perform c r)

  ingest-IsKeyed :
      (report : AgentReport F) (source : Text) (r : Registry F)
      → IsKeyed r.entries
      → IsKeyed (ingest now stale report source r).1.entries
  unfolding ingest
  ingest-IsKeyed report source r k = elim (Bool-cases (text_eq report.node_id [])) [
    | inl blank ↦ rw (blank, ingest) k
    | inr named ↦
        rw (named, ingest)
          (put-IsKeyed report.node_id
            (record { report = report; last_seen = now r.reads; source = source }) r.entries refl k)
  ]

  perform-IsKeyed :
      (c : Call F) (r : Registry F) → IsKeyed r.entries → IsKeyed (perform c r).entries
  unfolding perform snapshot
  perform-IsKeyed (ingested report source) r k = ingest-IsKeyed report source r k
  perform-IsKeyed polled r k =
      keep_if-IsKeyed (λ x. not (is_stale now stale (now r.reads) x)) r.entries k

  serve-IsKeyed :
      (cs : List (Call F)) (r : Registry F) → IsKeyed r.entries → IsKeyed (serve cs r).entries
  unfolding serve
  serve-IsKeyed [] r k = k
  serve-IsKeyed (c ∷ cs) r k = serve-IsKeyed cs (perform c r) (perform-IsKeyed c r k)

  -- Whatever calls a Registry has served since its entries were unique, the reports of the next Snapshot are of
  -- pairwise different nodes.
  pub snapshot-Distinct :
      (cs : List (Call F)) (r : Registry F)
      → IsKeyed r.entries
      → Distinct (snapshot now stale (serve cs r)).0
  unfolding snapshot
  snapshot-Distinct cs r k =
      reports_of-Distinct
        (keep_if (λ x. not (is_stale now stale (now (serve cs r).reads) x)) (serve cs r).entries)
        (keep_if-IsKeyed (λ x. not (is_stale now stale (now (serve cs r).reads) x))
          (serve cs r).entries (serve-IsKeyed cs r k))
