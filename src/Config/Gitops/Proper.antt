-- ===== src/Config/Gitops/Proper.antt =====
-- What a configuration that loads is like.
use mathlib.Core.Path.{subst}
use swarm_hpa.Base.{
  ◌≡◌, ◌≢◌, inl, inr, true, List, [], ◌∷◌, Text, text_eq, text_eq_iff, Dict, ok, >>=-eq-ok, All, In,
  lit, lookup, text_keys, some, Option-cases, arith, Bool-cases,
}
use swarm_hpa.Config.Gitops.{
  RepoConfig, ComposeFileSpec, StackConfig, is_policy, parse_compose_files, FileStack, load_repos,
  is_known, stack_of, load_stack, load_stacks, load_gitops,
}
use swarm_hpa.Config.Gitops.Groups.{AreProper, is_policy-In, compose_files-AreProper}

-- The stack's repository is configured, its branch is named, its groups are proper.
pub record IsLoaded (repos : Dict Text RepoConfig) (s : StackConfig) : Type 0 where
  pub repo_known : (cfg : RepoConfig) × (lookup s.repo repos ≡ some cfg)
  pub branch_named : s.branch ≢ []
  pub groups : AreProper s.compose_files
  pub policy : In s.pull_policy ([] ∷ lit "always" ∷ lit "changed" ∷ [])

is_known-lookup :
    (repos : Dict Text RepoConfig) (name : Text)
    → is_known repos name ≡ true
    → (cfg : RepoConfig) × (lookup name repos ≡ some cfg)
unfolding is_known
is_known-lookup repos name h = elim (Option-cases (lookup name repos)) [
  | inl missing ↦ absurd (ground (arith, missing))
  | inr found ↦ found
]

module _ {F : Type 0} (repos : Dict Text RepoConfig) where
  stack_of-IsLoaded :
      (name : Text) (s : FileStack F) (files : List ComposeFileSpec) (stack : StackConfig)
      → is_known repos s.repo ≡ true
      → AreProper files
      → stack_of repos name s files ≡ ok stack
      → IsLoaded repos stack
  unfolding stack_of
  stack_of-IsLoaded name s files stack k g h = elim (Bool-cases (is_policy s.pull_policy)) [
    | inr bad ↦ cc (rw bad at h)
    | inl good ↦
        let e = rw good at h in
        let same_repo : s.repo ≡ stack.repo = ground (arith, e) in
        let same_policy : s.pull_policy ≡ stack.pull_policy = ground (arith, e) in
        record {
          repo_known =
              subst (λ t. (cfg : RepoConfig) × (lookup t repos ≡ some cfg)) same_repo
                (is_known-lookup repos s.repo k);
          branch_named = λ q. ground (arith, e, q, text_eq_iff s.branch []);
          groups = ground (arith, e, g);
          policy =
              subst (λ t. In t ([] ∷ lit "always" ∷ lit "changed" ∷ [])) same_policy
                (is_policy-In s.pull_policy good);
        }
  ]

  load_stack-IsLoaded :
      (name : Text) (s : FileStack F) (stack : StackConfig)
      → load_stack repos name s ≡ ok stack
      → IsLoaded repos stack
  unfolding load_stack
  load_stack-IsLoaded name s stack h = elim (Bool-cases (text_eq s.repo [])) [
    | inl blank ↦ cc (rw blank at h)
    | inr named ↦ elim (Bool-cases (is_known repos s.repo)) [
      | inr unknown ↦ cc (rw (named, unknown) at h)
      | inl known ↦
          let (files, ef, h1) =
            >>=-eq-ok (parse_compose_files name s.compose_file) _ (rw (named, known) at h) in
          stack_of-IsLoaded name s files stack known
            (compose_files-AreProper name s.compose_file files ef) h1
    ]
  ]

  load_stacks-IsLoaded :
      (raw : List (Text × FileStack F)) (stacks : List StackConfig)
      → load_stacks repos raw ≡ ok stacks
      → All (IsLoaded repos) stacks
  unfolding load_stacks
  load_stacks-IsLoaded [] stacks h = let e : [] ≡ stacks = cc h in rw (← e) tt
  load_stacks-IsLoaded ((name, s) ∷ raw) stacks h =
      let (stack, es, h1) = >>=-eq-ok (load_stack repos name s) _ h in
      let (rest, er, h2) = >>=-eq-ok (load_stacks repos raw) _ h1 in
      let e : stack ∷ rest ≡ stacks = cc h2 in
      rw (← e) (load_stack-IsLoaded name s stack es, load_stacks-IsLoaded raw rest er)

-- Every stack of a configuration that loads has a repository that is found among the loaded ones, a branch that is
-- not blank, a pull policy that is blank, `always` or `changed`, and at least one merge group; no path of a group
-- is blank or stands twice in it, and its policy is blank, `always` or `changed`.
pub load_gitops-IsLoaded :
    {F : Type 0} (raw_repos : List (Text × RepoConfig)) (raw_stacks : List (Text × FileStack F))
    (repos : Dict Text RepoConfig) (stacks : List StackConfig)
    → load_gitops raw_repos raw_stacks ≡ ok (repos, stacks)
    → All (IsLoaded repos) stacks
unfolding load_gitops
load_gitops-IsLoaded raw_repos raw_stacks repos stacks h =
    let (r, er, h1) = >>=-eq-ok (load_repos raw_repos []) _ h in
    let (s, es, h2) = >>=-eq-ok (load_stacks r raw_stacks) _ h1 in
    let same : (r, s) ≡ (repos, stacks) = cc h2 in
    subst (λ (p : Dict Text RepoConfig × List StackConfig). All (IsLoaded p.0) p.1) same
      (load_stacks-IsLoaded r raw_stacks s es)
