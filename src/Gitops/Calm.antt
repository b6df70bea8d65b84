-- ===== src/Gitops/Calm.antt =====
-- Before a dry run returns, a pass of a stack has read, and written nothing.
use swarm_hpa.Base.{
  ℕ, ◌≡◌, refl, ◌∙◌, Bool, true, false, Option, none, some, List, [], ◌∷◌, Text, text_eq, Dict,
  Float, keep_if,
}
use swarm_hpa.Model.{StackService}
use swarm_hpa.Statusstore.{StackFileStatus, Store}
use swarm_hpa.Config.Gitops.{StackConfig, ComposeFileSpec, all_files}
use swarm_hpa.Gitops.Pass.{
  Stage, render_stage, git_stage, Event, git_call, read_call, render_call, services_call,
  decrypt_call, deploy_call, deploy_applied, check_scheduled, Answer, answered, refused, panicked,
  Ports, Settings, Pass, Step, emit, ◌>>=◌, fail, settle, ask,
}
use swarm_hpa.Gitops.Keeps.{Keeps, bind-Keeps, if-Keeps}
use swarm_hpa.Gitops.Sync.{
  read, read_values, render_doc, render_docs, render_groups, set_desired, emit_replicas,
  live_by_name, compare_live, record_stack_replicas, prepare, desired_snapshot,
}

module _ {F : Type 0} where
  -- The call writes to the worktree or to the swarm, or follows such a write.
  unfoldable pub is_change : Event F → Bool
  is_change (decrypt_call w files) = true
  is_change (deploy_call name docs policy) = true
  is_change (deploy_applied name) = true
  is_change (check_scheduled name) = true
  is_change _ = false

  abbrev pub changes : List (Event F) → List (Event F)
  changes es = keep_if is_change es

  -- What stays as it is.
  abbrev pub watched_part :
      Pass F → List (Event F) × Dict Text ℕ × Dict Text Bool × Store × List StackFileStatus
  watched_part p = (changes p.trace, p.deploy_count, p.last_deployed_ok, p.store, p.files)

  abbrev pub IsCalm : {A : Type 0} → Step F A → Type 0
  IsCalm m = Keeps watched_part m

  pub bind-IsCalm :
      {A B : Type 0} (m : Step F A) (f : A → Step F B)
      → IsCalm m
      → ((a : A) → IsCalm (f a))
      → IsCalm (m >>= f)
  bind-IsCalm m f hm hf = bind-Keeps watched_part m f hm hf

  settle-IsCalm : {A : Type 0} (stage : Stage) (a : Answer A) → IsCalm (settle stage a)
  unfolding settle fail keep_if is_change
  settle-IsCalm stage (answered a) p = refl
  settle-IsCalm stage (refused message) p = refl
  settle-IsCalm stage (panicked message) p = refl

  ask-IsCalm :
      {A : Type 0} (stage : Stage) (e : Event F) (f : List (Event F) → Answer A)
      → is_change e ≡ false
      → IsCalm (ask stage e f)
  unfolding ask keep_if
  ask-IsCalm stage e f h p = settle-IsCalm stage (f p.trace) (emit e p) ∙ rw h refl

module _ {F : Type 0} ⦃fl : Float F⦄ (ports : Ports F) (cfg : Settings) (st : StackConfig) where
  read-IsCalm : (path : Text) → IsCalm {F = F} (read ports cfg st path)
  unfolding read is_change
  read-IsCalm path = ask-IsCalm render_stage (read_call path) _ refl

  read_values-IsCalm : IsCalm {F = F} (read_values ports cfg st)
  unfolding read_values
  read_values-IsCalm =
      if-Keeps watched_part (text_eq st.values_file []) _ (read ports cfg st st.values_file)
        (λ p. refl) (read-IsCalm st.values_file)

  render_doc-IsCalm :
      (values : List ℕ) (path : Text) → IsCalm {F = F} (render_doc ports cfg st values path)
  unfolding render_doc is_change
  render_doc-IsCalm values path =
      bind-IsCalm (read ports cfg st path) _ (read-IsCalm path) (λ bytes.
        bind-IsCalm (ask render_stage (render_call bytes values) _) _
          (ask-IsCalm render_stage (render_call bytes values) _ refl) (λ compose p. refl))

  render_docs-IsCalm :
      (values : List ℕ) (paths : List Text) → IsCalm {F = F} (render_docs ports cfg st values paths)
  unfolding render_docs
  render_docs-IsCalm values [] = λ p. refl
  render_docs-IsCalm values (path ∷ paths) =
      bind-IsCalm (render_doc ports cfg st values path) _ (render_doc-IsCalm values path) (λ doc.
        bind-IsCalm (render_docs ports cfg st values paths) _ (render_docs-IsCalm values paths)
          (λ docs p. refl))

  render_groups-IsCalm :
      (values : List ℕ) (specs : List ComposeFileSpec)
      → IsCalm {F = F} (render_groups ports cfg st values specs)
  unfolding render_groups
  render_groups-IsCalm values [] = λ p. refl
  render_groups-IsCalm values (spec ∷ specs) =
      bind-IsCalm (render_docs ports cfg st values (all_files spec)) _
        (render_docs-IsCalm values (all_files spec))
        (λ docs.
          bind-IsCalm (render_groups ports cfg st values specs) _
            (render_groups-IsCalm values specs) (λ groups p. refl))

  emit_replicas-calm :
      (desired live : Dict Text ℕ) (p : Pass F)
      → watched_part (emit_replicas ports cfg st desired live p) ≡ watched_part p
  unfolding emit_replicas keep_if is_change
  emit_replicas-calm [] live p = refl
  emit_replicas-calm ((svc, d) ∷ desired) live p = emit_replicas-calm desired live _

  compare_live-IsCalm :
      (desired : Dict Text ℕ) (a : Answer (List StackService))
      → IsCalm {F = F} (compare_live ports cfg st desired a)
  unfolding compare_live fail keep_if is_change
  compare_live-IsCalm desired (answered live) p =
      emit_replicas-calm desired (live_by_name live []) p
  compare_live-IsCalm desired (refused e) p = refl
  compare_live-IsCalm desired (panicked e) p = refl

  record_stack_replicas-IsCalm :
      (read_live : Option (List (Event F) → Text → Answer (List StackService)))
      (desired : Dict Text ℕ)
      → IsCalm {F = F} (record_stack_replicas ports cfg st read_live desired)
  unfolding record_stack_replicas keep_if is_change
  record_stack_replicas-IsCalm none desired p = refl
  record_stack_replicas-IsCalm (some f) [] p = refl
  record_stack_replicas-IsCalm (some f) (d ∷ desired) p =
      compare_live-IsCalm (d ∷ desired) (f p.trace st.name) (emit (services_call st.name) p)

  pub prepare-IsCalm : IsCalm {F = F} (prepare ports cfg st)
  unfolding prepare set_desired keep_if is_change
  prepare-IsCalm =
      bind-IsCalm (ask git_stage (git_call st.name) _) _
        (ask-IsCalm git_stage (git_call st.name) _ refl)
        (λ rev.
          bind-IsCalm _ _ (λ p. refl)
            (λ _. bind-IsCalm (read_values ports cfg st) _ read_values-IsCalm (λ values.
              bind-IsCalm (render_groups ports cfg st values st.compose_files) _
                (render_groups-IsCalm values st.compose_files)
                (λ groups.
                  bind-IsCalm _ _ (λ p. refl)
                    (λ _.
                      bind-IsCalm _ _
                        (record_stack_replicas-IsCalm ports.stack_services
                          (desired_snapshot ports cfg st groups []))
                        (λ _ p. refl))))))
