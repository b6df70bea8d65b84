-- ===== src/Gitops/Report/Calls.antt =====
-- The deploys that a trace has called, and the groups that a pass deploys.
use swarm_hpa.Base.{◌≡◌, refl, ap, List, [], ◌∷◌, map, ℕ, Text, Float, keep_if}
use swarm_hpa.Config.Gitops.{StackConfig, ComposeFileSpec, all_files}
use swarm_hpa.Gitops.Pass.{
  Event, sync_run, git_call, read_call, render_call, services_call, decrypt_call, deploy_call,
  sync_error, last_revision, stack_replicas, sync_suppressed, deploy_applied, check_scheduled,
  Ports, Settings, Pass, Outcome, value, broken, Step, proceed, ◌>>=◌,
}
use swarm_hpa.Gitops.Calm.{changes, is_change}
use swarm_hpa.Gitops.Sync.{RenderedGroup, render_docs, render_groups, prepare}

-- A value that a step goes on with is one of these.
abbrev pub Gives : {A : Type 0} → (A → Type 0) → Outcome A → Type 0
Gives P (value a) = P a
Gives P (broken stage message) = Unit

module _ {F : Type 0} where
  -- The stack and the policy of each deploy that was called, the newest first.
  unfoldable pub deploy_calls : List (Event F) → List (Text × Text)
  deploy_calls [] = []
  deploy_calls (deploy_call name docs policy ∷ es) = (name, policy) ∷ deploy_calls es
  deploy_calls (_ ∷ es) = deploy_calls es

  pub deploy_calls-changes : (es : List (Event F)) → deploy_calls (changes es) ≡ deploy_calls es
  unfolding deploy_calls keep_if is_change
  deploy_calls-changes [] = refl
  deploy_calls-changes (deploy_call name docs policy ∷ es) =
      ap (λ l. (name, policy) ∷ l) (deploy_calls-changes es)
  deploy_calls-changes (sync_run ∷ es) = deploy_calls-changes es
  deploy_calls-changes (git_call a ∷ es) = deploy_calls-changes es
  deploy_calls-changes (read_call a ∷ es) = deploy_calls-changes es
  deploy_calls-changes (render_call a b ∷ es) = deploy_calls-changes es
  deploy_calls-changes (services_call a ∷ es) = deploy_calls-changes es
  deploy_calls-changes (decrypt_call a b ∷ es) = deploy_calls-changes es
  deploy_calls-changes (sync_error s ∷ es) = deploy_calls-changes es
  deploy_calls-changes (last_revision a b ∷ es) = deploy_calls-changes es
  deploy_calls-changes (stack_replicas a b c d ∷ es) = deploy_calls-changes es
  deploy_calls-changes (sync_suppressed a ∷ es) = deploy_calls-changes es
  deploy_calls-changes (deploy_applied a ∷ es) = deploy_calls-changes es
  deploy_calls-changes (check_scheduled a ∷ es) = deploy_calls-changes es

  bind-Gives :
      {A B : Type 0} (Q : A → Type 0) (P : B → Type 0) (m : Step F A) (f : A → Step F B)
      → ((p : Pass F) → Gives Q (m p).0)
      → ((a : A) → Q a → (p : Pass F) → Gives P (f a p).0)
      → (p : Pass F) → Gives P ((m >>= f) p).0
  unfolding ◌>>=◌ proceed
  bind-Gives {A = A} {B = B} Q P m f hm hf p = go (m p).0 (m p).1 (hm p)
    where
      go : (o : Outcome A) (q : Pass F) → Gives Q o → Gives P (proceed o f q).0
      go (value a) q h = hf a h q
      go (broken stage message) q h = tt

pub anything : {A : Type 0} (o : Outcome A) → Gives (λ _. Unit) o
anything (value a) = tt
anything (broken stage message) = tt

module _ {F : Type 0} ⦃fl : Float F⦄ (ports : Ports F) (cfg : Settings) (st : StackConfig) where
  -- The groups are those of the stack's configuration.
  abbrev pub AreOf : List ComposeFileSpec → List (RenderedGroup F) → Type 0
  AreOf specs gs = map (λ g. g.spec) gs ≡ specs

  render_groups-AreOf :
      (values : List ℕ) (specs : List ComposeFileSpec) (p : Pass F)
      → Gives (AreOf specs) (render_groups ports cfg st values specs p).0
  unfolding render_groups
  render_groups-AreOf values [] p = refl
  render_groups-AreOf values (spec ∷ specs) p =
      bind-Gives (λ _. Unit) (AreOf (spec ∷ specs))
        (render_docs ports cfg st values (all_files spec)) _ (λ q. anything _)
        (λ docs _ q.
          bind-Gives (AreOf specs) (AreOf (spec ∷ specs)) (render_groups ports cfg st values specs)
            _ (render_groups-AreOf values specs) (λ groups e r. ap (λ l. spec ∷ l) e) q)
        p

  pub prepare-AreOf : (p : Pass F) → Gives (AreOf st.compose_files) (prepare ports cfg st p).0
  unfolding prepare
  prepare-AreOf =
      let P = AreOf st.compose_files in
      bind-Gives (λ _. Unit) P _ _ (λ q. anything _)
        (λ rev _.
          bind-Gives (λ _. Unit) P _ _ (λ q. tt)
            (λ _ _.
              bind-Gives (λ _. Unit) P _ _ (λ q. anything _)
                (λ values _.
                  bind-Gives P P (render_groups ports cfg st values st.compose_files) _
                    (render_groups-AreOf values st.compose_files)
                    (λ groups e.
                      bind-Gives (λ _. Unit) P _ _ (λ q. tt)
                        (λ _ _. bind-Gives (λ _. Unit) P _ _ (λ q. anything _) (λ _ _ q. e))))))
