-- ===== src/Gitops/Report/Ends.antt =====
-- How a rotation and a deploy of one merge group end.
use swarm_hpa.Base.{
  ℕ, ◌≡◌, refl, ap, ◌∙◌, ◌⊎◌, inl, inr, Bool, true, false, Option, none, some, List, [], ◌∷◌, Text,
  lit, Float,
}
use swarm_hpa.Compose.Rotation.{Rotated, apply_rotation}
use swarm_hpa.Statusstore.{StackFileStatus}
use swarm_hpa.Config.Gitops.{StackConfig}
use swarm_hpa.Gitops.Pass.{
  stage_text, Answer, answered, refused, panicked, Ports, Settings, Pass, Outcome, value, broken,
  Step, proceed, ◌>>=◌, fail,
}
use swarm_hpa.Gitops.Sync.{policy_of, RenderedDoc, RenderedGroup, mark_failed_from, mark_ok}
use swarm_hpa.Gitops.Deploys.{
  rotated_doc, rotate_docs, rotate_if, deployed_group, deploy_group, mark_deploy,
}
use swarm_hpa.Gitops.Report.Calls.{deploy_calls}

abbrev pub same : List StackFileStatus → List StackFileStatus
same fs = fs

abbrev pub unpushed : List (Text × Text) → List (Text × Text)
unpushed calls = calls

module _ {F : Type 0} where
  -- How a step at the i-th group ends: `go` is what it does to the entries where it goes on, `push` what it adds to
  -- the deploys that were called, and `stage` the stage that it can fail in.
  abbrev pub Ends :
      {A : Type 0}
      → (List StackFileStatus → List StackFileStatus)
      → (List (Text × Text) → List (Text × Text))
      → Text
      → ℕ
      → Pass F
      → Outcome A
      → Pass F
      → Type 0
  Ends go push own i p (value a) q =
      (q.files ≡ go p.files)
      × (q.deploy_count ≡ p.deploy_count)
      × (deploy_calls q.trace ≡ push (deploy_calls p.trace))
  Ends go push own i p (broken stage message) q =
      ((stage_text stage ≡ own)
        × (q.files ≡ mark_failed_from i message p.files)
        × (q.deploy_count ≡ p.deploy_count)
        × (deploy_calls q.trace ≡ push (deploy_calls p.trace)))
      ⊎ ((stage_text stage ≡ lit "sync")
          × (own ≡ lit "deploy")
          × (q.files ≡ p.files)
          × (q.deploy_count ≡ p.deploy_count)
          × (deploy_calls q.trace ≡ push (deploy_calls p.trace)))

  -- A step behind one that left the entries and the calls as they were.
  then-Ends :
      {A B : Type 0} (i : ℕ) (p q : Pass F) (o : Outcome A) (f : A → Step F B)
      → Ends same unpushed (lit "rotate") i p o q
      → ((a : A) (r : Pass F) → Ends same unpushed (lit "rotate") i r (f a r).0 (f a r).1)
      → Ends same unpushed (lit "rotate") i p (proceed o f q).0 (proceed o f q).1
  unfolding proceed
  then-Ends {B = B} i p q (broken stage message) f h k = h
  then-Ends {B = B} i p q (value a) f h k = shift (f a q).0 (f a q).1 (k a q)
    where
      shift :
          (o : Outcome B) (r : Pass F)
          → Ends same unpushed (lit "rotate") i q o r
          → Ends same unpushed (lit "rotate") i p o r
      shift (value b) r e = (e.0 ∙ h.0, e.1 ∙ h.1, e.2 ∙ h.2)
      shift (broken stage message) r (inl e) =
          inl (e.0, e.1 ∙ ap (mark_failed_from i message) h.0, e.2 ∙ h.1, e.3 ∙ h.2)
      shift (broken stage message) r (inr e) = inr (e.0, e.1, e.2 ∙ h.0, e.3 ∙ h.1, e.4 ∙ h.2)

module _ {F : Type 0} ⦃fl : Float F⦄ (ports : Ports F) (cfg : Settings) (st : StackConfig) where
  -- A part of a rotation leaves the entries, and calls no deploy.
  abbrev pub RotationEnds : {A : Type 0} → ℕ → Pass F → Outcome A × Pass F → Type 0
  RotationEnds i p (o, q) = Ends same unpushed (lit "rotate") i p o q

  rotated_doc-Ends :
      (i : ℕ) (d : RenderedDoc F) (r : Rotated F) (p : Pass F)
      → RotationEnds i p (rotated_doc ports cfg st i d r p)
  unfolding rotated_doc ◌>>=◌ proceed fail stage_text deploy_calls
  rotated_doc-Ends i d r p = ended r.error refl
    where
      ended : (e : Option _) → r.error ≡ e → RotationEnds i p (rotated_doc ports cfg st i d r p)
      ended none h = rw h (refl, refl, refl)
      ended (some e) h = rw h (inl (refl, refl, refl, refl))

  abbrev rotation : Pass F → RenderedDoc F → Rotated F
  rotation p d =
      apply_rotation ports.join ports.hash st.name (ports.dir d.path) (ports.read_file p.trace st)
        d.compose

  rotate_docs-Ends :
      (i : ℕ) (ds : List (RenderedDoc F)) (p : Pass F)
      → RotationEnds i p (rotate_docs ports cfg st i ds p)
  unfolding rotate_docs ◌>>=◌
  rotate_docs-Ends i [] p = (refl, refl, refl)
  rotate_docs-Ends i (d ∷ ds) p =
      then-Ends i p _ _ _ (rotated_doc-Ends i d (rotation p d) p)
        (λ d' q. then-Ends i q _ _ _ (rotate_docs-Ends i ds q) (λ ds' r. (refl, refl, refl)))

  pub rotate_if-Ends :
      (rotate : Bool) (i : ℕ) (ds : List (RenderedDoc F)) (p : Pass F)
      → RotationEnds i p (rotate_if ports cfg st rotate i ds p)
  unfolding rotate_if
  rotate_if-Ends true i ds p = rotate_docs-Ends i ds p
  rotate_if-Ends false i ds p = (refl, refl, refl)

  -- The deploy of a group is called once, with the group's policy, whatever it answers.
  abbrev pub with_call : RenderedGroup F → List (Text × Text) → List (Text × Text)
  with_call g calls = (st.name, policy_of ports cfg st g.spec) ∷ calls

  pub deploy_group-Ends :
      (i : ℕ) (g : RenderedGroup F) (docs : List (RenderedDoc F)) (p : Pass F)
      → Ends
          (mark_ok i)
          (with_call g)
          (lit "deploy")
          i
          p
          (deploy_group ports cfg st i g docs p).0
          (deploy_group ports cfg st i g docs p).1
  unfolding deploy_group deployed_group fail mark_deploy stage_text deploy_calls
  deploy_group-Ends i g docs p = answer (ports.deploy p.trace st.name _ _) _ refl refl refl
    where
      answer :
          (a : Answer Unit) (q : Pass F)
          → q.files ≡ p.files
          → q.deploy_count ≡ p.deploy_count
          → deploy_calls q.trace ≡ with_call g (deploy_calls p.trace)
          → Ends
              (mark_ok i)
              (with_call g)
              (lit "deploy")
              i
              p
              (deployed_group ports cfg st i a q).0
              (deployed_group ports cfg st i a q).1
      answer (answered u) q h k c = (ap (mark_ok i) h, k, c)
      answer (refused e) q h k c = inl (refl, ap (mark_failed_from i e) h, k, c)
      answer (panicked e) q h k c = inr (refl, refl, h, k, c)
