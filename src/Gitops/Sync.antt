-- ===== src/Gitops/Sync.antt =====
-- internal/app/gitopsync/loop.go: one pass over the stacks, each from Git to its deploys.
use swarm_hpa.Base.{
  ℕ, zero, suc, Option, none, some, List, [], ◌∷◌, ◌++◌, Text, text_eq, lit, Dict, lookup, put,
  text_keys, Float, Result, ok, err, if◌then◌else◌,
}
use swarm_hpa.Model.{StackService}
use swarm_hpa.TaskErrors.Tracker.{or_zero}
use swarm_hpa.Compose.Fields.{Fields}
use swarm_hpa.Statusstore.{StackFileStatus, set_state}
use swarm_hpa.Config.Gitops.{StackConfig, ComposeFileSpec, all_files}
use swarm_hpa.Gitops.Desired.{desired_replicas_group}
use swarm_hpa.Gitops.Pass.{
  render_stage, git_stage, sync_stage, Event, git_call, read_call, render_call, services_call,
  last_revision, stack_replicas, Answer, answered, refused, panicked, Ports, Settings, Pass, value,
  Step, emit, ◌>>=◌, pure, modify, fail, ask,
}

pub record RenderedDoc (F : Type 0) : Type 0 where
  pub path : Text
  pub compose : Fields F

pub record RenderedGroup (F : Type 0) : Type 0 where
  pub spec : ComposeFileSpec
  pub docs : List (RenderedDoc F)

-- maps
unfoldable pub maps : {F : Type 0} → List (RenderedDoc F) → List (Fields F)
maps [] = []
maps (d ∷ ds) = d.compose ∷ maps ds

unfoldable pub first_filled : Text → Text → Text
first_filled a b = if text_eq a [] then b else a

-- effectivePullPolicy, without the label that is only logged.
unfoldable pub effective_pull_policy : ComposeFileSpec → Text → Text → Text
effective_pull_policy spec stack_policy default =
    first_filled spec.pull_policy (first_filled stack_policy default)

-- The loop's end and the loop of markFailedFrom, on the entries from a group on.
unfoldable pub skip_all : List StackFileStatus → List StackFileStatus
skip_all [] = []
skip_all (f ∷ fs) = record f { status = lit "skipped" } ∷ skip_all fs

-- markFailedFrom
unfoldable pub mark_failed_from : ℕ → Text → List StackFileStatus → List StackFileStatus
mark_failed_from i because [] = []
mark_failed_from zero because (f ∷ fs) =
    record f { status = lit "failed"; error = because } ∷ skip_all fs
mark_failed_from (suc i) because (f ∷ fs) = f ∷ mark_failed_from i because fs

-- files[i].Status = "ok"
unfoldable pub mark_ok : ℕ → List StackFileStatus → List StackFileStatus
mark_ok i [] = []
mark_ok zero (f ∷ fs) = record f { status = lit "ok" } ∷ fs
mark_ok (suc i) (f ∷ fs) = f ∷ mark_ok i fs

-- liveByName
unfoldable pub live_by_name : List StackService → Dict Text ℕ → Dict Text ℕ
live_by_name [] m = m
live_by_name (s ∷ ss) m = live_by_name ss (put s.name s.replicas m)

unfoldable pub put_counts : Dict Text ℕ → Dict Text ℕ → Dict Text ℕ
put_counts [] m = m
put_counts ((k, n) ∷ kns) m = put_counts kns (put k n m)

unfoldable pub or_none_desired : Option (Dict Text ℕ) → Dict Text ℕ
or_none_desired none = []
or_none_desired (some m) = m

module _ {F : Type 0} ⦃fl : Float F⦄ (ports : Ports F) (cfg : Settings) (st : StackConfig) where
  -- markState
  unfoldable pub mark_state : Text → Pass F → Pass F
  mark_state state p =
      if cfg.stored
      then record p { store = set_state ports.never st.name st.repo state p.store }
      else p

  unfoldable pub policy_of : ComposeFileSpec → Text
  policy_of spec = effective_pull_policy spec st.pull_policy cfg.pull_policy

  unfoldable pub read_answer : Result Text (List ℕ) → Answer (List ℕ)
  read_answer (ok bytes) = answered bytes
  read_answer (err e) = refused e

  unfoldable pub read : Text → Step F (List ℕ)
  unfolding read_answer
  read path = ask render_stage (read_call path) (λ t. read_answer (ports.read_file t st path))

  unfoldable pub read_values : Step F (List ℕ)
  unfolding read
  read_values = if text_eq st.values_file [] then pure [] else read st.values_file

  unfoldable pub render_doc : List ℕ → Text → Step F (RenderedDoc F)
  unfolding read
  render_doc values path = do
    bytes ← read path
    compose ← ask render_stage (render_call bytes values) (λ t. ports.render t bytes values)
    pure (record { path = path; compose = compose })

  unfoldable pub render_docs : List ℕ → List Text → Step F (List (RenderedDoc F))
  unfolding render_doc
  render_docs values [] = pure []
  render_docs values (path ∷ paths) = do
    doc ← render_doc values path
    docs ← render_docs values paths
    pure (doc ∷ docs)

  unfoldable pub render_groups : List ℕ → List ComposeFileSpec → Step F (List (RenderedGroup F))
  unfolding render_docs
  render_groups values [] = pure []
  render_groups values (spec ∷ specs) = do
    docs ← render_docs values (all_files spec)
    groups ← render_groups values specs
    pure (record { spec = spec; docs = docs } ∷ groups)

  -- The counts of the groups, in one map.
  unfoldable pub desired_snapshot : List (RenderedGroup F) → Dict Text ℕ → Dict Text ℕ
  desired_snapshot [] m = m
  desired_snapshot (g ∷ gs) m =
      desired_snapshot gs (put_counts (desired_replicas_group ports.sprint (maps g.docs)) m)

  -- setDesired
  unfoldable pub set_desired : Dict Text ℕ → Pass F → Pass F
  set_desired desired p = record p { last_desired = put st.name desired p.last_desired }

  unfoldable pub emit_replicas : Dict Text ℕ → Dict Text ℕ → Pass F → Pass F
  emit_replicas [] live p = p
  emit_replicas ((svc, d) ∷ desired) live p =
      emit_replicas desired live (emit (stack_replicas st.name svc d (or_zero (lookup svc live))) p)

  unfoldable pub compare_live : Dict Text ℕ → Answer (List StackService) → Step F Unit
  unfolding emit_replicas
  compare_live desired (answered live) = modify (emit_replicas desired (live_by_name live []))
  compare_live desired (refused e) = pure tt
  compare_live desired (panicked e) = fail sync_stage (lit "panic: " ++ e)

  -- recordStackReplicas
  unfoldable pub record_stack_replicas :
      Option (List (Event F) → Text → Answer (List StackService)) → Dict Text ℕ → Step F Unit
  unfolding compare_live
  record_stack_replicas none desired p = (value tt, p)
  record_stack_replicas (some read_live) [] p = (value tt, p)
  record_stack_replicas (some read_live) (d ∷ desired) p =
      compare_live (d ∷ desired) (read_live p.trace st.name) (emit (services_call st.name) p)

  -- The part of syncStack before the dry run's return.
  unfoldable pub prepare : Step F (List (RenderedGroup F))
  unfolding read_values render_groups set_desired record_stack_replicas
  prepare = do
    rev ← ask git_stage (git_call st.name) (λ t. ports.sync t st)
    _ ← modify (λ p. emit (last_revision st.name rev) (record p { revision = rev }))
    values ← read_values
    groups ← render_groups values st.compose_files
    let desired = desired_snapshot groups []
    _ ← modify (set_desired desired)
    _ ← record_stack_replicas ports.stack_services desired
    pure groups
