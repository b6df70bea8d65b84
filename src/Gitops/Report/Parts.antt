-- ===== src/Gitops/Report/Parts.antt =====
-- What the parts of a pass before and behind its deploys leave of the entries and of the deploy count.
use swarm_hpa.Base.{
  map, ℕ, suc, ◌%◌, ◌^◌, ◌≡◌, ◌≢◌, refl, ap, ◌∙◌, inl, inr, true, false, Option, none, some, List,
  [], ◌∷◌, Text, text_eq, Dict, lookup, lookup-put_self, text_keys, Result, ok, err, Float,
  if◌then◌else◌, Bool-cases,
}
use swarm_hpa.TaskErrors.Tracker.{or_zero}
use swarm_hpa.Compose.Rotation.{ComposeError}
use swarm_hpa.Statusstore.{StackFileStatus}
use swarm_hpa.Config.Gitops.{ComposeFileSpec, StackConfig}
use swarm_hpa.Gitops.Pass.{
  Stage, git_stage, render_stage, secrets_stage, rotate_stage, deploy_stage, sync_stage, stage_text,
  Event, Answer, answered, refused, panicked, Ports, Settings, Pass, Outcome, value, broken, Step,
  proceed, fail, settle, ask,
}
use swarm_hpa.Gitops.Keeps.{Keeps, bind-Keeps}
use swarm_hpa.Gitops.Sync.{
  policy_of, effective_pull_policy, first_filled, RenderedDoc, RenderedGroup,
}
use swarm_hpa.Gitops.Deploys.{
  found_files, discover_docs, discover, decrypt_files, seed_files, mark_deploy, inc_deploy, finish,
  error_of,
}
use swarm_hpa.Gitops.Report.Calls.{deploy_calls, Gives}
use swarm_hpa.Gitops.Report.{shape, Tail}

-- The successful deploys behind a pass, after `n` of them.
abbrev pub counted : Text → ℕ → ℕ
counted stage n = if text_eq stage [] then suc n % 2 ^ 64 else n

-- What an entry of a group is about, by the group's configuration: the policy of a group without one is that of its
-- stack, and of a stack without one the default.
abbrev pub configured : Settings → StackConfig → ComposeFileSpec → Text × List Text × Text
configured cfg st s = (
  s.file,
  s.overrides,
  if text_eq s.pull_policy []
      then (if text_eq st.pull_policy [] then cfg.pull_policy else st.pull_policy)
      else s.pull_policy,
)

-- What a pass of a stack with an error's stage, with entries and with a deploy count has done, from `n` deploys and
-- the calls `base` on: it has called no deploy, for an error or as a dry run; or it has reached its deploys.
pub data Report (cfg : Settings) (st : StackConfig) (n : ℕ) (base : List (Text × Text))
    (stage : Text) (files : List StackFileStatus) (count : ℕ) (calls : List (Text × Text))
    : Type 0 where
  unreached :
      stage ≢ []
      → files ≡ []
      → count ≡ n
      → calls ≡ base
      → Report cfg st n base stage files count calls
  suppressed :
      cfg.dry_run ≡ true
      → stage ≡ []
      → files ≡ []
      → count ≡ n
      → calls ≡ base
      → Report cfg st n base stage files count calls
  reached :
      cfg.dry_run ≡ false
      → map shape files ≡ map (configured cfg st) st.compose_files
      → Tail st.name stage files base calls
      → count ≡ counted stage n
      → Report cfg st n base stage files count calls

pub stage_text-filled : (s : Stage) → stage_text s ≢ []
unfolding stage_text
stage_text-filled git_stage e = cc
stage_text-filled render_stage e = cc
stage_text-filled secrets_stage e = cc
stage_text-filled rotate_stage e = cc
stage_text-filled deploy_stage e = cc
stage_text-filled sync_stage e = cc

module _ {F : Type 0} ⦃fl : Float F⦄ (ports : Ports F) (cfg : Settings) (st : StackConfig) where
  -- What the report is about.
  abbrev pub told_part : Pass F → List StackFileStatus × Dict Text ℕ × List (Text × Text)
  told_part p = (p.files, p.deploy_count, deploy_calls p.trace)

  found_files-Keeps :
      (r : Result ComposeError (List Text)) → Keeps {F = F} told_part (found_files ports cfg st r)
  unfolding found_files fail deploy_calls
  found_files-Keeps (ok files) = λ p. refl
  found_files-Keeps (err e) = λ p. refl

  discover_docs-Keeps :
      (ds : List (RenderedDoc F)) → Keeps {F = F} told_part (discover_docs ports cfg st ds)
  unfolding discover_docs
  discover_docs-Keeps [] = λ p. refl
  discover_docs-Keeps (d ∷ ds) =
      bind-Keeps told_part (found_files ports cfg st _) _ (found_files-Keeps _) (λ found.
        bind-Keeps told_part (discover_docs ports cfg st ds) _ (discover_docs-Keeps ds)
          (λ rest p. refl))

  pub discover-Keeps :
      (gs : List (RenderedGroup F)) → Keeps {F = F} told_part (discover ports cfg st gs)
  unfolding discover
  discover-Keeps [] = λ p. refl
  discover-Keeps (g ∷ gs) =
      bind-Keeps told_part (discover_docs ports cfg st g.docs) _ (discover_docs-Keeps g.docs)
        (λ found.
          bind-Keeps told_part (discover ports cfg st gs) _ (discover-Keeps gs) (λ rest p. refl))

  pub decrypt_files-Keeps :
      (decrypt : Option (List (Event F) → Text → List Text → Answer Unit)) (files : List Text)
      → Keeps {F = F} told_part (decrypt_files ports cfg st decrypt files)
  unfolding decrypt_files ask settle fail deploy_calls
  decrypt_files-Keeps none files = λ p. refl
  decrypt_files-Keeps (some decrypt) [] = λ p. refl
  decrypt_files-Keeps (some decrypt) (f ∷ files) =
      λ p. settled (decrypt p.trace (ports.worktree_path st) (f ∷ files)) _
    where
      settled :
          (a : Answer Unit) (p : Pass F) → told_part (settle secrets_stage a p).1 ≡ told_part p
      settled (answered u) p = refl
      settled (refused e) p = refl
      settled (panicked e) p = refl

  -- The report on a part's end, after a pass p.
  abbrev pub Reported : Pass F → Outcome Unit → Pass F → Type 0
  Reported p o q =
      Report cfg st (or_zero (lookup st.name p.deploy_count)) (deploy_calls p.trace)
        (error_of ports cfg st o).0 q.files (or_zero (lookup st.name q.deploy_count))
        (deploy_calls q.trace)

  -- A part that has not reached the deploys, and then the rest.
  pub then-Reported :
      {A : Type 0} (P : A → Type 0) (p q : Pass F) (o : Outcome A) (f : A → Step F Unit)
      → Gives P o
      → p.files ≡ []
      → told_part q ≡ told_part p
      → ((a : A) (r : Pass F) → P a → told_part r ≡ told_part p → Reported p (f a r).0 (f a r).1)
      → Reported p (proceed o f q).0 (proceed o f q).1
  unfolding proceed error_of
  then-Reported P p q (value a) f g h k next = next a q g k
  then-Reported P p q (broken stage message) f g h k next =
      unreached (stage_text-filled stage) (ap (λ t. t.0) k ∙ h)
        (ap (λ t. or_zero (lookup st.name t.1)) k) (ap (λ t. t.2) k)

  pub shape-seed_files :
      (gs : List (RenderedGroup F))
      → map shape (seed_files ports cfg st gs) ≡ map (configured cfg st) (map (λ g. g.spec) gs)
  unfolding seed_files policy_of effective_pull_policy first_filled
  shape-seed_files [] = refl
  shape-seed_files (g ∷ gs) = ap (λ l. configured cfg st g.spec ∷ l) (shape-seed_files gs)

  pub finish-calls :
      (p : Pass F) → deploy_calls (finish ports cfg st p).trace ≡ deploy_calls p.trace
  unfolding finish mark_deploy inc_deploy deploy_calls
  finish-calls p = elim (Bool-cases cfg.watched) [
    | inl watched ↦ rw watched refl
    | inr unwatched ↦ rw unwatched refl
  ]

  pub finish-files : (p : Pass F) → (finish ports cfg st p).files ≡ p.files
  unfolding finish mark_deploy inc_deploy
  finish-files p = elim (Bool-cases cfg.watched) [
    | inl watched ↦ rw watched refl
    | inr unwatched ↦ rw unwatched refl
  ]

  pub finish-deploy_count :
      (p : Pass F)
      → or_zero (lookup st.name (finish ports cfg st p).deploy_count)
        ≡ suc (or_zero (lookup st.name p.deploy_count)) % 2 ^ 64
  unfolding finish mark_deploy inc_deploy or_zero
  finish-deploy_count p =
      let n = suc (or_zero (lookup st.name p.deploy_count)) % 2 ^ 64 in
      elim (Bool-cases cfg.watched) [
        | inl watched ↦ rw watched (ap or_zero (lookup-put_self st.name n p.deploy_count))
        | inr unwatched ↦ rw unwatched (ap or_zero (lookup-put_self st.name n p.deploy_count))
      ]
