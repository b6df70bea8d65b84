-- ===== src/Gitops/DryRun.antt =====
-- internal/app/gitopsync/loop.go with `dryRun`: the passes decrypt nothing and deploy nothing.
use swarm_hpa.Base.{
  ℕ, ◌≡◌, refl, ap, ◌∙◌, Bool, true, List, [], ◌∷◌, Text, lit, Dict, Float, keep_if, Bool-cases,
  inl, inr,
}
use swarm_hpa.Config.Gitops.{StackConfig}
use swarm_hpa.Gitops.Pass.{Event, Ports, Settings, Pass, Outcome}
use swarm_hpa.Gitops.Sync.{mark_state, prepare}
use swarm_hpa.Gitops.Calm.{is_change, changes, IsCalm, bind-IsCalm, prepare-IsCalm}
use swarm_hpa.Gitops.Deploys.{
  apply_unless, run_stages, record_status, sync_stack, sync_stacks, sync_all,
}

-- The calls that change the worktree or the swarm, the counters of the deploys, and whether the last ones went well.
abbrev pub effects : {F : Type 0} → Pass F → List (Event F) × Dict Text ℕ × Dict Text Bool
effects p = (changes p.trace, p.deploy_count, p.last_deployed_ok)

module _ {F : Type 0} ⦃fl : Float F⦄ (ports : Ports F) (cfg : Settings) (st : StackConfig) where
  mark_state-effects :
      (state : Text) (p : Pass F) → effects (mark_state ports cfg st state p) ≡ effects p
  unfolding mark_state
  mark_state-effects state p = elim (Bool-cases cfg.stored) [
    | inl wired ↦ rw wired refl
    | inr none_wired ↦ rw none_wired refl
  ]

  record_status-effects :
      (o : Outcome Unit) (p : Pass F) → effects (record_status ports cfg st o p) ≡ effects p
  unfolding record_status
  record_status-effects o p = elim (Bool-cases cfg.stored) [
    | inl wired ↦ rw wired refl
    | inr none_wired ↦ rw none_wired refl
  ]

  run_stages-dry : cfg.dry_run ≡ true → IsCalm {F = F} (run_stages ports cfg st)
  unfolding run_stages apply_unless keep_if is_change
  run_stages-dry dry =
      bind-IsCalm (prepare ports cfg st) _ (prepare-IsCalm ports cfg st) (λ groups p. rw dry refl)

  sync_stack-dry :
      cfg.dry_run ≡ true → (p : Pass F) → effects (sync_stack ports cfg st p) ≡ effects p
  unfolding sync_stack
  sync_stack-dry dry p =
      let start =
        mark_state ports cfg st (lit "waiting") (record p { revision = []; files = [] }) in
      let locked = mark_state ports cfg st (lit "syncing") start in
      let ran = run_stages ports cfg st locked in
      record_status-effects ran.0 ran.1
      ∙ (ap (λ w. (w.0, w.1, w.2)) (run_stages-dry dry locked)
          ∙ (mark_state-effects (lit "syncing") start ∙ mark_state-effects (lit "waiting") _))

module _ {F : Type 0} ⦃fl : Float F⦄ (ports : Ports F) (cfg : Settings) where
  sync_stacks-dry :
      cfg.dry_run ≡ true
      → (sts : List StackConfig) (p : Pass F) → effects (sync_stacks ports cfg sts p) ≡ effects p
  unfolding sync_stacks
  sync_stacks-dry dry [] p = refl
  sync_stacks-dry dry (st ∷ sts) p =
      sync_stacks-dry dry sts (sync_stack ports cfg st p) ∙ sync_stack-dry ports cfg st dry p

  -- In a dry run, a pass over the stacks, whatever they are and whatever the ports answer, makes no call that
  -- decrypts or deploys, reports no deploy, schedules no check, and leaves the deploy counters as they were.
  pub sync_all-dry_run :
      cfg.dry_run ≡ true
      → (sts : List StackConfig) (p : Pass F) → effects (sync_all ports cfg sts p) ≡ effects p
  unfolding sync_all keep_if is_change
  sync_all-dry_run dry sts p = sync_stacks-dry dry sts p
