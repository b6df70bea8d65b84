-- ===== src/Ingest.antt =====
-- internal/adapter/ingest/ingest.go: the endpoint at which the agents' reports come in.
pub mod Admission
use swarm_hpa.Base.{
  ℕ, Bool, true, false, not, Option, none, some, List, [], ◌∷◌, Text, text_eq, lit, Time, Duration,
  has_prefix, drop, length, trim_space, Result, ok, err, if◌then◌else◌,
}
use swarm_hpa.Model.{AgentReport, NodeView}
use swarm_hpa.Registry.{Registry, ingest}

-- A request: its method, its Authorization header, what the JSON decoder makes of the first mebibyte of its
-- body, and the address of its sender.
pub record Request (F : Type 0) : Type 0 where
  pub method : Text
  pub authorization : Text
  pub body : Result Text (AgentReport F)
  pub remote_addr : Text

-- The status codes of ServeHTTP.
pub data Status : Type 0 where
  no_content method_not_allowed unauthorized bad_request service_unavailable forbidden : Status

-- Handler, with the answer of the Swarm read of one request and with the registry as its sink: the clock by
-- its number of readings, and how long a report stays usable.
pub record Handler : Type 0 where
  pub token : Text
  pub nodes : Result Text (List NodeView)
  pub now : ℕ → Time
  pub stale : Duration

-- authorized; the constant-time comparison is that of texts.
unfoldable pub authorized : Text → Text → Bool
authorized token got =
    if text_eq token []
    then true
    else if has_prefix (lit "Bearer ") got
    then text_eq (drop (length (lit "Bearer ")) got) token
    else false

-- The loop of isKnownNode.
unfoldable pub is_known_node : Text → List NodeView → Bool
is_known_node id [] = false
is_known_node id (n ∷ ns) = let rest = is_known_node id ns in if text_eq n.id id then true else rest

-- sourceOf
unfoldable pub source_of : Text → Text
source_of remote_addr = if text_eq remote_addr [] then lit "unknown" else remote_addr

module _ {F : Type 0} (h : Handler) (req : Request F) where
  -- The part of ServeHTTP behind the ingestion.
  unfoldable pub sunk : Option Text × Registry F → Status × Registry F
  sunk (none, r) = (no_content, r)
  sunk (some e, r) = (bad_request, r)

  -- The part behind the read of the nodes.
  unfoldable pub checked :
      Result Text (List NodeView) → AgentReport F → Registry F → Status × Registry F
  unfolding sunk
  checked (err e) report r = (service_unavailable, r)
  checked (ok nodes) report r =
      if is_known_node report.node_id nodes
      then sunk (ingest h.now h.stale report (source_of req.remote_addr) r)
      else (forbidden, r)

  -- The part behind the decoding.
  unfoldable pub decoded : Result Text (AgentReport F) → Registry F → Status × Registry F
  unfolding checked
  decoded (err e) r = (bad_request, r)
  decoded (ok report) r =
      if text_eq (trim_space report.node_id) [] then (bad_request, r) else checked h.nodes report r

  -- ServeHTTP
  unfoldable pub serve : Registry F → Status × Registry F
  unfolding decoded
  serve r =
      if not (text_eq req.method (lit "POST"))
      then (method_not_allowed, r)
      else if not (authorized h.token req.authorization)
      then (unauthorized, r)
      else decoded req.body r
