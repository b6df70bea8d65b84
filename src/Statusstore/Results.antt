-- ===== src/Statusstore/Results.antt =====
-- The result of a sync stays visible while later passes are in flight.
use swarm_hpa.Base.{
  ◌≡◌, ◌≢◌, refl, ap, ◌∙◌, inl, inr, some, List, [], ◌∷◌, arith, Text, text_eq, text_eq_iff, Time,
  lookup, put, lookup-put, lookup-put_self, text_keys, All, Bool-cases,
}
use swarm_hpa.Statusstore.{StackStatus, Store, set_status, set_state, or_blank}

-- The writes of the sync loop.
pub data Write : Type 0 where
  status_write : Text → StackStatus → Write
  state_write : Text → Text → Text → Write

unfoldable pub write : Time → Write → Store → Store
write never (status_write name status) m = set_status name status m
write never (state_write name repo state) m = set_state never name repo state m

unfoldable pub write_all : Time → List Write → Store → Store
write_all never [] m = m
write_all never (w ∷ ws) m = write_all never ws (write never w m)

-- The write sets no result of the stack.
abbrev pub IsQuiet : Text → Write → Type 0
IsQuiet name (status_write j status) = j ≢ name
IsQuiet name (state_write j repo state) = Unit

-- The statuses agree but for the repository and the state of the sync in flight.
abbrev pub Agree : StackStatus → StackStatus → Type 0
Agree s t = record s { repo = []; state = [] } ≡ record t { repo = []; state = [] }

-- What the store has for the stack agrees with the status.
pub record Shows (m : Store) (name : Text) (status : StackStatus) : Type 0 where
  pub stored : StackStatus
  pub known : lookup name m ≡ some stored
  pub agrees : Agree stored status

module _ (never : Time) (name : Text) (status : StackStatus) where
  put-Shows :
      (j : Text) (s : StackStatus) (m : Store)
      → j ≢ name
      → Shows m name status
      → Shows (put j s m) name status
  put-Shows j s m n h = record {
    stored = h.stored;
    known = ground (arith, lookup-put j name s m, text_eq_iff j name, h.known);
    agrees = h.agrees;
  }

  write-Shows :
      (w : Write) (m : Store)
      → IsQuiet name w
      → Shows m name status
      → Shows (write never w m) name status
  unfolding write set_status set_state
  write-Shows (status_write j s) m n h = put-Shows j (record s { name = j; state = [] }) m n h
  write-Shows (state_write j repo state) m q h = elim (Bool-cases (text_eq j name)) [
    | inl own ↦
        let same : j ≡ name = (text_eq_iff j name).0 own in
        let found : lookup j m ≡ some h.stored = ap (λ (k : Text). lookup k m) same ∙ h.known in
        record {
          stored = record h.stored { repo = repo; state = state };
          known = rw found (
              ground
                (arith, lookup-put j name (record h.stored { repo = repo; state = state }) m, own));
          agrees = h.agrees;
        }
    | inr foreign ↦
        put-Shows j (record (or_blank never j (lookup j m)) { repo = repo; state = state }) m
          (λ e. ground (arith, text_eq_iff j name)) h
  ]

  write_all-Shows :
      (ws : List Write) (m : Store)
      → All (IsQuiet name) ws
      → Shows m name status
      → Shows (write_all never ws m) name status
  unfolding write_all
  write_all-Shows [] m q h = h
  write_all-Shows (w ∷ ws) m q h = write_all-Shows ws (write never w m) q.1 (write-Shows w m q.0 h)

-- After SetStatus, and whatever SetState calls and SetStatus calls for other stacks follow, the store has the
-- stack's status under its name, with the result as it was set: only the repository and the state can differ.
pub set_status-Shows :
    (never : Time) (name : Text) (status : StackStatus) (ws : List Write) (m : Store)
    → All (IsQuiet name) ws
    → Shows (write_all never ws (set_status name status m)) name (record status { name = name })
unfolding set_status
set_status-Shows never name status ws m q =
    write_all-Shows never name (record status { name = name }) ws (set_status name status m) q
      (record {
        stored = record status { name = name; state = [] };
        known = lookup-put_self name (record status { name = name; state = [] }) m;
        agrees = refl;
      })
