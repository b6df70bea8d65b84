-- ===== src/Ingest/Admission.antt =====
-- Which reports the endpoint lets into the registry.
use swarm_hpa.Base.{
  ◌≡◌, ◌≢◌, ◌⊎◌, refl, sym, ap, ◌∙◌, inl, inr, true, Option, none, some, List, [], ◌∷◌, ◌++◌, Text,
  text_eq, text_eq_iff, lit, has_prefix, prefix_rest, drop, length, trim_space, Result, ok, err, In,
  Bool-cases,
}
use swarm_hpa.Model.{AgentReport, NodeView}
use swarm_hpa.Registry.{Registry, ingest}
use swarm_hpa.Ingest.{
  Request, Status, no_content, Handler, authorized, is_known_node, source_of, sunk, checked,
  decoded, serve,
}

bearer_dropped : (rest : Text) → drop (length (lit "Bearer ")) (lit "Bearer " ++ rest) ≡ rest
unfolding drop
bearer_dropped rest = refl

-- Without a token every request is authorized; with one, exactly the header that bears it.
authorized-bearer :
    (token got : Text) → authorized token got ≡ true → (token ≡ []) ⊎ (got ≡ lit "Bearer " ++ token)
unfolding authorized
authorized-bearer token got h = elim (Bool-cases (text_eq token [])) [
  | inl blank ↦ inl ((text_eq_iff token []).0 blank)
  | inr set ↦ elim (Bool-cases (has_prefix (lit "Bearer ") got)) [
    | inr other ↦ cc (rw (set, other) at h)
    | inl bears ↦
        let (rest, e) = prefix_rest (lit "Bearer ") got bears in
        let same : text_eq (drop (length (lit "Bearer ")) got) token ≡ true =
          rw (set, bears) at h in
        let there : drop (length (lit "Bearer ")) got ≡ token = (text_eq_iff _ token).0 same in
        inr (
          e
          ∙ ap (λ (t : Text). lit "Bearer " ++ t)
              (sym (ap (drop (length (lit "Bearer "))) e ∙ bearer_dropped rest) ∙ there))
  ]
]

is_known_node-In :
    (id : Text) (ns : List NodeView)
    → is_known_node id ns ≡ true
    → (n : NodeView) × In n ns × (n.id ≡ id)
unfolding is_known_node
is_known_node-In id [] h = cc
is_known_node-In id (n ∷ ns) h = elim (Bool-cases (text_eq n.id id)) [
  | inl own ↦ (n, inl refl, (text_eq_iff n.id id).0 own)
  | inr other ↦ let (m, i, e) = is_known_node-In id ns (rw other at h) in (m, inr i, e)
]

ingest-refused :
    {F : Type 0} (h : Handler) (report : AgentReport F) (source m : Text) (r r' : Registry F)
    → ingest h.now h.stale report source r ≡ (some m, r')
    → r' ≡ r
unfolding ingest
ingest-refused h report source m r r' e = elim (Bool-cases (text_eq report.node_id [])) [
  | inl blank ↦
      let back : (some (lit "registry: report has empty node id"), r) ≡ (some m, r') =
        rw blank at e in
      ap (λ (p : Option Text × Registry _). p.1) (sym back)
  | inr filled ↦ cc (rw filled at e)
]

module _ {F : Type 0} (h : Handler) (req : Request F) where
  -- A request is answered without content only when its report goes into the registry, and only when it is a POST
  -- that bears the token, of a known node; otherwise the registry stays as it is.
  pub data Ruling (r : Registry F) (answer : Status × Registry F) : Type 0 where
    admitted :
        answer.0 ≡ no_content
        → req.method ≡ lit "POST"
        → (h.token ≡ []) ⊎ (req.authorization ≡ lit "Bearer " ++ h.token)
        → (report : AgentReport F) → req.body ≡ ok report
        → (nodes : List NodeView) → h.nodes ≡ ok nodes
        → (node : NodeView) × In node nodes × (node.id ≡ report.node_id)
        → ingest h.now h.stale report (source_of req.remote_addr) r ≡ (none, answer.1)
        → Ruling r answer
    refused : answer.0 ≢ no_content → answer.1 ≡ r → Ruling r answer

  module _ (r : Registry F) (posted : req.method ≡ lit "POST")
      (allowed : (h.token ≡ []) ⊎ (req.authorization ≡ lit "Bearer " ++ h.token)) where
    sunk-Ruling :
        (report : AgentReport F)
        → req.body ≡ ok report
        → (nodes : List NodeView) → h.nodes ≡ ok nodes
        → (node : NodeView) × In node nodes × (node.id ≡ report.node_id)
        → (o : Option Text × Registry F)
        → ingest h.now h.stale report (source_of req.remote_addr) r ≡ o
        → Ruling r (sunk h req o)
    unfolding sunk ingest
    sunk-Ruling report b nodes n known (none, r') e =
        admitted refl posted allowed report b nodes n known e
    sunk-Ruling report b nodes n known (some m, r') e =
        refused (λ q. cc) (ingest-refused h report (source_of req.remote_addr) m r r' e)

    checked-Ruling :
        (report : AgentReport F)
        → req.body ≡ ok report
        → (a : Result Text (List NodeView)) → h.nodes ≡ a
        → Ruling r (checked h req a report r)
    unfolding checked
    checked-Ruling report b (err e) n = refused (λ q. cc) refl
    checked-Ruling report b (ok nodes) n = elim (Bool-cases (is_known_node report.node_id nodes)) [
      | inl known ↦
          rw known
            (sunk-Ruling report b nodes n (is_known_node-In report.node_id nodes known) _ refl)
      | inr unknown ↦ rw unknown (refused (λ q. cc) refl)
    ]

    decoded-Ruling : (a : Result Text (AgentReport F)) → req.body ≡ a → Ruling r (decoded h req a r)
    unfolding decoded
    decoded-Ruling (err e) b = refused (λ q. cc) refl
    decoded-Ruling (ok report) b = elim (Bool-cases (text_eq (trim_space report.node_id) [])) [
      | inl blank ↦ rw blank (refused (λ q. cc) refl)
      | inr filled ↦ rw filled (checked-Ruling report b h.nodes refl)
    ]

  -- Every request is either admitted or refused. It is admitted only as a POST that bears the token, where one is
  -- set, and with a report that decodes and names a node of the swarm; then the answer has no content and the registry
  -- is the one that ingesting the report leaves. A refused request leaves the registry as it is.
  pub serve-Ruling : (r : Registry F) → Ruling r (serve h req r)
  unfolding serve
  serve-Ruling r = elim (Bool-cases (text_eq req.method (lit "POST"))) [
    | inr other ↦ rw other (refused (λ q. cc) refl)
    | inl post ↦ elim (Bool-cases (authorized h.token req.authorization)) [
      | inr barred ↦ rw (post, barred) (refused (λ q. cc) refl)
      | inl bears ↦
          rw (post, bears)
            (decoded-Ruling r ((text_eq_iff req.method (lit "POST")).0 post)
              (authorized-bearer h.token req.authorization bears) req.body refl)
    ]
  ]
