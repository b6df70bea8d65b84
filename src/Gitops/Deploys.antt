-- ===== src/Gitops/Deploys.antt =====
-- internal/app/gitopsync/loop.go: the part of syncStack that writes, what a pass leaves in the status
-- store, and the pass over the stacks.
use swarm_hpa.Base.{
  ℕ, suc, ◌%◌, ◌^◌, Bool, true, false, Option, none, some, List, [], ◌∷◌, ◌++◌, Text, text_eq, lit,
  lookup, put, text_keys, or_empty, Float, Result, ok, err, if◌then◌else◌,
}
use swarm_hpa.TaskErrors.Tracker.{or_zero}
use swarm_hpa.Compose.Rotation.{ComposeError, Rotated, discover_secret_files, apply_rotation}
use swarm_hpa.Statusstore.{StackFileStatus, StackStatus, set_status}
use swarm_hpa.Config.Gitops.{StackConfig}
use swarm_hpa.Gitops.Pass.{
  secrets_stage, rotate_stage, deploy_stage, sync_stage, stage_text, ComposeDoc, Event, sync_run,
  decrypt_call, deploy_call, sync_error, sync_suppressed, deploy_applied, check_scheduled, Answer,
  answered, refused, panicked, Ports, Settings, Pass, Outcome, value, broken, Step, emit, ◌>>=◌,
  pure, modify, fail, ask,
}
use swarm_hpa.Gitops.Sync.{
  RenderedDoc, RenderedGroup, mark_failed_from, mark_ok, mark_state, policy_of, prepare,
}

module _ {F : Type 0} ⦃fl : Float F⦄ (ports : Ports F) (cfg : Settings) (st : StackConfig) where
  unfoldable pub found_files : Result ComposeError (List Text) → Step F (List Text)
  found_files (ok files) = pure files
  found_files (err e) = fail secrets_stage (ports.error_text e)

  -- The secret files of the documents of the groups, each in its document's directory.
  unfoldable pub discover_docs : List (RenderedDoc F) → Step F (List Text)
  discover_docs [] = pure []
  discover_docs (d ∷ ds) = do
    found ← found_files (discover_secret_files ports.join d.compose (ports.dir d.path))
    rest ← discover_docs ds
    pure (found ++ rest)

  unfoldable pub discover : List (RenderedGroup F) → Step F (List Text)
  unfolding discover_docs
  discover [] = pure []
  discover (g ∷ gs) = do found ← discover_docs g.docs; rest ← discover gs; pure (found ++ rest)

  unfoldable pub decrypt_files :
      Option (List (Event F) → Text → List Text → Answer Unit) → List Text → Step F Unit
  decrypt_files none files = pure tt
  decrypt_files (some decrypt) [] = pure tt
  decrypt_files (some decrypt) (f ∷ files) =
      ask secrets_stage (decrypt_call (ports.worktree_path st) (f ∷ files))
        (λ t. decrypt t (ports.worktree_path st) (f ∷ files))

  -- The entries of a pass that has reached its deploys.
  unfoldable pub seed_files : List (RenderedGroup F) → List StackFileStatus
  seed_files [] = []
  seed_files (g ∷ gs) =
      record {
        file = g.spec.file;
        overrides = g.spec.overrides;
        pull_policy = policy_of ports cfg st g.spec;
        status = [];
        error = [];
      }
      ∷ seed_files gs

  -- What a failed rotation does; a document that was rotated goes on.
  unfoldable pub rotated_doc : ℕ → RenderedDoc F → Rotated F → Step F (RenderedDoc F)
  rotated_doc i d r = elim r.error [
    | none ↦ pure (record d { compose = r.doc })
    | some e ↦ do
      _ ← modify (λ p. record p { files = mark_failed_from i (ports.error_text e) p.files })
      fail rotate_stage (ports.error_text e)
  ]

  -- The reads of a rotation are no calls of the trace.
  unfoldable pub rotate_docs : ℕ → List (RenderedDoc F) → Step F (List (RenderedDoc F))
  unfolding rotated_doc
  rotate_docs i [] = pure []
  rotate_docs i (d ∷ ds) = do
    d' ← λ p.
        rotated_doc i d
          (apply_rotation ports.join ports.hash st.name (ports.dir d.path)
            (ports.read_file p.trace st) d.compose)
          p
    ds' ← rotate_docs i ds
    pure (d' ∷ ds')

  unfoldable pub rotate_if : Bool → ℕ → List (RenderedDoc F) → Step F (List (RenderedDoc F))
  unfolding rotate_docs
  rotate_if true i ds = rotate_docs i ds
  rotate_if false i ds = pure ds

  unfoldable pub compose_docs : List (RenderedDoc F) → List (ComposeDoc F)
  compose_docs [] = []
  compose_docs (d ∷ ds) =
      record { fields = d.compose; dir = ports.join (ports.worktree_path st) (ports.dir d.path) }
      ∷ compose_docs ds

  -- markDeploy
  unfoldable pub mark_deploy : Bool → Pass F → Pass F
  mark_deploy deployed p = record p {
    last_deployed_rev = put st.name p.revision p.last_deployed_rev;
    last_deployed_ok = put st.name deployed p.last_deployed_ok;
  }

  -- What the answer of a group's deploy does.
  unfoldable pub deployed_group : ℕ → Answer Unit → Step F Unit
  unfolding mark_deploy
  deployed_group i (answered _) p = (value tt, record p { files = mark_ok i p.files })
  deployed_group i (panicked e) p = fail sync_stage (lit "panic: " ++ e) p
  deployed_group i (refused e) p = (
    broken deploy_stage e,
    mark_deploy false
        (emit (sync_error deploy_stage) (record p { files = mark_failed_from i e p.files })),
  )

  unfoldable pub deploy_group : ℕ → RenderedGroup F → List (RenderedDoc F) → Step F Unit
  unfolding deployed_group
  deploy_group i g docs p =
      let opts = policy_of ports cfg st g.spec in
      deployed_group i (ports.deploy p.trace st.name (compose_docs docs) opts)
        (emit (deploy_call st.name (compose_docs docs) opts) p)

  -- The loop over the groups, from the i-th on.
  unfoldable pub deploy_groups : ℕ → List (RenderedGroup F) → Step F Unit
  unfolding rotate_if deploy_group
  deploy_groups i [] = pure tt
  deploy_groups i (g ∷ gs) = do
    docs ← rotate_if cfg.auto_rotate i g.docs
    _ ← deploy_group i g docs
    deploy_groups (suc i) gs

  -- incDeploy; `deployCount` is uint64.
  unfoldable pub inc_deploy : Pass F → Pass F
  inc_deploy p = record p {
    deploy_count =
        put st.name (suc (or_zero (lookup st.name p.deploy_count)) % 2 ^ 64) p.deploy_count;
  }

  -- The part of syncStack behind its last deploy; the scheduled check is runPostDeployCheck.
  unfoldable pub finish : Pass F → Pass F
  unfolding mark_deploy inc_deploy
  finish p =
      let q = inc_deploy (mark_deploy true (emit (deploy_applied st.name) p)) in
      if cfg.watched then emit (check_scheduled st.name) q else q

  unfoldable pub files_to_decrypt : List (RenderedGroup F) → Step F (List Text)
  unfolding discover
  files_to_decrypt groups =
      if st.sops_secrets_discovery then discover groups else pure st.sops_files

  unfoldable pub deploy_all : List (RenderedGroup F) → Step F Unit
  unfolding deploy_groups finish
  deploy_all groups = do
    _ ← modify (λ p. record p { files = seed_files groups })
    _ ← deploy_groups 0 groups
    modify finish

  -- The part of syncStack that a dry run, which returns without an error, does not reach.
  unfoldable pub apply : List (RenderedGroup F) → Step F Unit
  unfolding files_to_decrypt decrypt_files deploy_all
  apply groups = do
    files ← files_to_decrypt groups
    _ ← decrypt_files ports.decrypt files
    deploy_all groups

  unfoldable pub apply_unless : Bool → List (RenderedGroup F) → Step F Unit
  unfolding apply
  apply_unless true groups p = (value tt, emit (sync_suppressed (lit "dry_run")) p)
  apply_unless false groups p = apply groups p

  unfoldable pub run_stages : Step F Unit
  unfolding apply_unless
  run_stages = do groups ← prepare ports cfg st; apply_unless cfg.dry_run groups

  -- The stage and the text of the error, empty without one.
  unfoldable pub error_of : Outcome Unit → Text × Text
  error_of (broken stage message) = (stage_text stage, message)
  error_of _ = ([], [])

  abbrev pub status_of : Outcome Unit → Pass F → StackStatus
  status_of o p =
      let (stage, message) = error_of o in
      record {
        name = st.name;
        repo = st.repo;
        state = [];
        revision = p.revision;
        is_ok = text_eq stage [];
        error_stage = stage;
        error_message = message;
        last_sync = ports.now p.trace;
        deploy_count = or_zero (lookup st.name p.deploy_count);
        desired_replicas = or_empty (lookup st.name p.last_desired);
        files = p.files;
      }

  -- recordStatus
  unfoldable pub record_status : Outcome Unit → Pass F → Pass F
  unfolding error_of
  record_status o p =
      if cfg.stored then record p { store = set_status st.name (status_of o p) p.store } else p

  -- syncStack; the lock of its repository is taken between the two marks.
  unfoldable pub sync_stack : Pass F → Pass F
  unfolding run_stages record_status
  sync_stack p =
      let start =
        mark_state ports cfg st (lit "waiting") (record p { revision = []; files = [] }) in
      let (o, q) = run_stages (mark_state ports cfg st (lit "syncing") start) in record_status o q

module _ {F : Type 0} ⦃fl : Float F⦄ (ports : Ports F) (cfg : Settings) where
  unfoldable pub sync_stacks : List StackConfig → Pass F → Pass F
  sync_stacks [] p = p
  sync_stacks (st ∷ sts) p = sync_stacks sts (sync_stack ports cfg st p)

  -- syncAll, with the stacks one after the other, as one worker takes them.
  unfoldable pub sync_all : List StackConfig → Pass F → Pass F
  sync_all sts p = emit sync_run (sync_stacks sts p)
