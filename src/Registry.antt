-- ===== src/Registry.antt =====
-- internal/app/registry/registry.go: the latest report of each node's agent.
pub mod Unique
pub mod Freshness
use swarm_hpa.Base.{
  ℕ, suc, Bool, true, false, not, ◌&&◌, Option, none, some, List, [], ◌∷◌, ◌++◌, map, Text, text_eq,
  lit, Time, Duration, sub, leb_ℤ, ltb_ℤ, Dict, lookup, put, text_keys, keep_if, length,
  if◌then◌else◌,
}
use swarm_hpa.Model.{AgentReport}

-- entry
pub record Entry (F : Type 0) : Type 0 where
  pub report : AgentReport F
  pub last_seen : Time
  pub source : Text

-- The calls of the Recorder, the newest first.
pub data Event (F : Type 0) : Type 0 where
  agent_connected agent_disconnected agent_report_received agent_duplicate : Text → Event F
  node_load : Text → F → F → Event F

-- The entries, how often the clock was read, and the events.
pub record Registry (F : Type 0) : Type 0 where
  pub entries : Dict Text (Entry F)
  pub reads : ℕ
  pub events : List (Event F)

module _ {F : Type 0} where
  unfoldable pub connected : Option (Entry F) → Text → List (Event F) → List (Event F)
  connected none id es = agent_connected id ∷ es
  connected (some prev) id es = es

  -- The events that Ingest emits behind the lock.
  unfoldable pub ingest_events :
      AgentReport F → Option (Entry F) → Bool → List (Event F) → List (Event F)
  unfolding connected
  ingest_events report prev duplicate es =
      let received =
        node_load report.node_id report.node.cpu_percent report.node.mem_percent
        ∷ agent_report_received report.node_id
        ∷ connected prev report.node_id es in
      if duplicate then agent_duplicate report.node_id ∷ received else received

  unfoldable pub disconnected : Dict Text (Entry F) → List (Event F) → List (Event F)
  disconnected [] es = es
  disconnected ((id, e) ∷ m) es = disconnected m (agent_disconnected id ∷ es)

  unfoldable pub reports_of : Dict Text (Entry F) → List (AgentReport F)
  reports_of [] = []
  reports_of ((id, e) ∷ m) = e.report ∷ reports_of m

  -- Len
  unfoldable pub len : Registry F → ℕ
  len r = length r.entries

-- `now` is the clock by its number of readings before, `stale` how long a report stays usable.
module _ {F : Type 0} (now : ℕ → Time) (stale : Duration) where
  -- The duplicate test of Ingest, for the entry that was there.
  unfoldable pub is_duplicate : Option (Entry F) → Text → Time → Bool
  is_duplicate none source t = false
  is_duplicate (some prev) source t =
      not (text_eq prev.source [])
      && not (text_eq source [])
      && not (text_eq prev.source source)
      && leb_ℤ (sub t prev.last_seen) stale

  -- Ingest, with its error.
  unfoldable pub ingest : AgentReport F → Text → Registry F → Option Text × Registry F
  unfolding is_duplicate ingest_events
  ingest report source r =
      if text_eq report.node_id []
      then (some (lit "registry: report has empty node id"), r)
      else let t = now r.reads in
        let prev = lookup report.node_id r.entries in
        (
          none,
          record {
            entries =
                put report.node_id (record { report = report; last_seen = t; source = source })
                  r.entries;
            reads = suc r.reads;
            events = ingest_events report prev (is_duplicate prev source t) r.events;
          },
        )

  -- The staleness test of Snapshot.
  unfoldable pub is_stale : Time → Text × Entry F → Bool
  is_stale t (id, e) = ltb_ℤ stale (sub t e.last_seen)

  -- Snapshot: the reports that are not stale; the others are evicted.
  unfoldable pub snapshot : Registry F → List (AgentReport F) × Registry F
  snapshot r =
      let t = now r.reads in
      let live = keep_if (λ x. not (is_stale t x)) r.entries in
      let evicted = keep_if (is_stale t) r.entries in
      (
        reports_of live,
        record { entries = live; reads = suc r.reads; events = disconnected evicted r.events },
      )
