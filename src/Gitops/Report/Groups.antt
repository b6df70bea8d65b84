-- ===== src/Gitops/Report/Groups.antt =====
-- The loop over the merge groups, from any group on.
use swarm_hpa.Base.{
  text_eq, text_eq_iff, ◌≢◌, map, ℕ, suc, ◌≡◌, refl, sym, ap, ◌∙◌, inl, inr, true, false, List, [],
  ◌∷◌, ◌++◌, append_assoc, arith, Text, lit, Float, length, length-append, All, All-append,
}
use swarm_hpa.Statusstore.{StackFileStatus}
use swarm_hpa.Config.Gitops.{StackConfig}
use swarm_hpa.Gitops.Pass.{
  Stage, stage_text, Ports, Settings, Pass, Outcome, value, broken, proceed, ◌>>=◌,
}
use swarm_hpa.Gitops.Sync.{policy_of, RenderedDoc, RenderedGroup, mark_ok}
use swarm_hpa.Gitops.Deploys.{deploy_group, deploy_groups, seed_files, error_of}
use swarm_hpa.Gitops.Report.Calls.{deploy_calls}
use swarm_hpa.Gitops.Report.{
  Marked, shape, pushed, pushed-snoc, Tail, whole, abandoned, mark_ok-append, failed_rotation,
  failed_deploy, shape-mark_ok, shape-mark_failed_from,
}
use swarm_hpa.Gitops.Report.Ends.{same, unpushed, Ends}
use swarm_hpa.Gitops.Report.Ends

rotation_no_deploy : lit "rotate" ≢ lit "deploy"
unfolding text_eq
rotation_no_deploy e =
    let same : false ≡ true = (text_eq_iff (lit "rotate") (lit "deploy")).1 e in
    ground (arith, same)

append_nil : {A : Type 0} (xs : List A) → xs ++ [] ≡ xs
append_nil [] = refl
append_nil (x ∷ xs) = ap (λ l. x ∷ l) (append_nil xs)

module _ {F : Type 0} ⦃fl : Float F⦄ (ports : Ports F) (cfg : Settings) (st : StackConfig) where
  -- What the loop has told at its end, of the deploys behind `base`.
  abbrev pub Told : List (Text × Text) → Pass F → Outcome Unit × Pass F → Type 0
  Told base p (o, q) =
      Tail st.name (error_of ports cfg st o).0 q.files base (deploy_calls q.trace)
      × (map shape q.files ≡ map shape p.files)
      × (q.deploy_count ≡ p.deploy_count)

  unrotated-Told :
      (A : Type 0) (base : List (Text × Text)) (i : ℕ) (p q : Pass F) (stage : Stage)
      (message : Text) (done : List StackFileStatus) (b : StackFileStatus)
      (bs : List StackFileStatus)
      → p.files ≡ done ++ b ∷ bs
      → i ≡ length done
      → All (Marked (lit "ok")) done
      → deploy_calls p.trace ≡ pushed st.name done base
      → Ends.RotationEnds ports cfg st {A = A} i p (broken stage message, q)
      → Told base p (broken stage message, q)
  unfolding error_of
  unrotated-Told A base i p q stage message done b bs f e oks c (inl (s, h, k, t)) =
      let tail =
        failed_rotation st.name (stage_text stage) message done b bs base (deploy_calls q.trace) s
          oks (t ∙ c) in
      (rw (h, f, e) tail, ap (map shape) h ∙ shape-mark_failed_from i message p.files, k)
  unrotated-Told A base i p q stage message done b bs f e oks c (inr (s, w, h, k, t)) =
      absurd (rotation_no_deploy w)

  undeployed-Told :
      (g : RenderedGroup F) (base : List (Text × Text)) (i : ℕ) (p q : Pass F) (stage : Stage)
      (message : Text) (done : List StackFileStatus) (b : StackFileStatus)
      (bs : List StackFileStatus)
      → p.files ≡ done ++ b ∷ bs
      → i ≡ length done
      → All (Marked (lit "ok")) done
      → All (Marked []) (b ∷ bs)
      → b.pull_policy ≡ policy_of ports cfg st g.spec
      → deploy_calls p.trace ≡ pushed st.name done base
      → Ends {A = Unit}
          (mark_ok i)
          (Ends.with_call ports cfg st g)
          (lit "deploy")
          i
          p
          (broken stage message)
          q
      → Told base p (broken stage message, q)
  unfolding error_of
  undeployed-Told g base i p q stage message done b bs f e oks blanks o c (inl (s, h, k, t)) =
      let tail =
        failed_deploy st.name (stage_text stage) message done b bs base (deploy_calls q.trace) s oks
          (t
            ∙ ap (Ends.with_call ports cfg st g) c
            ∙ ap (λ y. (st.name, y) ∷ pushed st.name done base) (sym o)) in
      (rw (h, f, e) tail, ap (map shape) h ∙ shape-mark_failed_from i message p.files, k)
  undeployed-Told g base i p q stage message done b bs f e oks blanks o c (inr (s, w, h, k, t)) = (
    abandoned s done b bs (h ∙ f) oks blanks (
        t
        ∙ ap (Ends.with_call ports cfg st g) c
        ∙ ap (λ y. (st.name, y) ∷ pushed st.name done base) (sym o)),
    ap (map shape) h,
    k,
  )

  -- One round, given what the rounds behind it tell.
  module _ (base : List (Text × Text)) (i : ℕ) (g : RenderedGroup F) (gs : List (RenderedGroup F))
      (p : Pass F) (done : List StackFileStatus) (b : StackFileStatus) (bs : List StackFileStatus)
      (f : p.files ≡ done ++ b ∷ bs) (e : i ≡ length done) (oks : All (Marked (lit "ok")) done)
      (blanks : All (Marked []) (b ∷ bs)) (own : b.pull_policy ≡ policy_of ports cfg st g.spec)
      (c : deploy_calls p.trace ≡ pushed st.name done base)
      (next : (r : Pass F)
        → r.files ≡ done ++ record b { status = lit "ok" } ∷ bs
        → r.deploy_count ≡ p.deploy_count
        → deploy_calls r.trace ≡ (st.name, b.pull_policy) ∷ pushed st.name done base
        → Told base r (deploy_groups ports cfg st (suc i) gs r)) where
    deployed-Told :
        (q : Pass F)
        → q.files ≡ p.files
        → q.deploy_count ≡ p.deploy_count
        → deploy_calls q.trace ≡ deploy_calls p.trace
        → (o : Outcome Unit) (r : Pass F)
        → Ends (mark_ok i) (Ends.with_call ports cfg st g) (lit "deploy") i q o r
        → Told base p (proceed o (λ _. deploy_groups ports cfg st (suc i) gs) r)
    unfolding proceed
    deployed-Told q h k t (value u) r (h', k', t') =
        let (tail, shapes, counted) =
          next r (h' ∙ (ap (mark_ok i) (h ∙ f) ∙ rw e (mark_ok-append done b bs))) (k' ∙ k) (
            t'
            ∙ ap (Ends.with_call ports cfg st g) (t ∙ c)
            ∙ ap (λ y. (st.name, y) ∷ pushed st.name done base) (sym own)) in
        (
          tail,
          shapes ∙ ap (map shape) (h' ∙ ap (mark_ok i) h) ∙ shape-mark_ok i p.files,
          counted ∙ (k' ∙ k),
        )
    deployed-Told q h k t (broken stage message) r ends =
        let (tail, shapes, counted) =
          undeployed-Told g base i q r stage message done b bs (h ∙ f) e oks blanks own (t ∙ c)
            ends in
        (tail, shapes ∙ ap (map shape) h, counted ∙ k)

    rotated-Told :
        (o : Outcome (List (RenderedDoc F))) (q : Pass F)
        → Ends same unpushed (lit "rotate") i p o q
        → Told base p (
            proceed o
              (λ docs.
                deploy_group ports cfg st i g docs >>= λ _. deploy_groups ports cfg st (suc i) gs)
              q)
    unfolding proceed ◌>>=◌
    rotated-Told (value docs) q (h, k, t) =
        deployed-Told q h k t _ _ (Ends.deploy_group-Ends ports cfg st i g docs q)
    rotated-Told (broken stage message) q ends =
        unrotated-Told (List (RenderedDoc F)) base i p q stage message done b bs f e oks c ends

  abbrev seeded : RenderedGroup F → StackFileStatus
  seeded g = record {
    file = g.spec.file;
    overrides = g.spec.overrides;
    pull_policy = policy_of ports cfg st g.spec;
    status = [];
    error = [];
  }

  seed_files-Marked : (gs : List (RenderedGroup F)) → All (Marked []) (seed_files ports cfg st gs)
  unfolding seed_files
  seed_files-Marked [] = tt
  seed_files-Marked (g ∷ gs) = (refl, seed_files-Marked gs)

  pub deploy_groups-Told :
      (base : List (Text × Text)) (gs : List (RenderedGroup F)) (p : Pass F) (i : ℕ)
      (done : List StackFileStatus)
      → p.files ≡ done ++ seed_files ports cfg st gs
      → i ≡ length done
      → All (Marked (lit "ok")) done
      → deploy_calls p.trace ≡ pushed st.name done base
      → Told base p (deploy_groups ports cfg st i gs p)
  unfolding deploy_groups ◌>>=◌ error_of seed_files
  deploy_groups-Told base [] p i done f e oks c = (
    whole refl (rw f (All-append (Marked (lit "ok")) done [] oks tt))
        (rw f (c ∙ ap (λ l. pushed st.name l base) (sym (append_nil done)))),
    refl,
    refl,
  )
  deploy_groups-Told base (g ∷ gs) p i done f e oks c =
      let b = seeded g in
      let bs = seed_files ports cfg st gs in
      rotated-Told base i g gs p done b bs f e oks (refl, seed_files-Marked gs) refl c
        (λ r h k t.
          deploy_groups-Told base gs r (suc i) (done ++ record b { status = lit "ok" } ∷ [])
            (h ∙ sym (append_assoc done (record b { status = lit "ok" } ∷ []) bs))
            (omega (arith, e, length-append done (record b { status = lit "ok" } ∷ [])))
            (All-append (Marked (lit "ok")) done _ oks (refl, tt))
            (t ∙ sym (pushed-snoc st.name done (record b { status = lit "ok" }) base)))
        _ _ (Ends.rotate_if-Ends ports cfg st cfg.auto_rotate i g.docs p)
