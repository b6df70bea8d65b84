-- ===== src/Config/Runtime/Proper.antt =====
-- What a configuration is like that passes the checks.
use swarm_hpa.Base.{
  ◌≡◌, ◌≢◌, ◌⊎◌, refl, sym, inl, inr, Bool, true, false, Option, none, some, List, [], ◌∷◌, arith,
  Text, text_eq, text_eq_iff, lit, ℤ, pos, ◌≤ℤ◌, leb_ℤ_iff, Float, In, Bool-cases, if◌then◌else◌,
}
use swarm_hpa.Config.Labels.{provider_docker_stats, provider_prometheus, provider_agents}
use swarm_hpa.Config.Runtime.{
  Config, ConfigError, mode_manager, mode_agent, demand, is_positive, is_natural, is_one_of,
  is_filled, validate_gitops, validate_rest, validate_manager, validate_agent, validate_logging,
  or_else, validate_mode, validate,
}

demand-none :
    (holds : Bool) (e : ConfigError) (rest : Option ConfigError)
    → demand holds e rest ≡ none
    → (holds ≡ true) × (rest ≡ none)
unfolding demand
demand-none true e rest h = (refl, h)
demand-none false e rest h = cc

is_one_of-In : (s : Text) (ts : List Text) → is_one_of s ts ≡ true → In s ts
unfolding is_one_of
is_one_of-In s [] h = cc
is_one_of-In s (t ∷ ts) h = elim (Bool-cases (text_eq s t)) [
  | inl same ↦ inl (sym ((text_eq_iff s t).0 same))
  | inr other ↦ inr (is_one_of-In s ts (ground (arith, h, other)))
]

or_else-none :
    (first second : Option ConfigError)
    → or_else first second ≡ none
    → (first ≡ none) × (second ≡ none)
unfolding or_else
or_else-none none second h = (refl, h)
or_else-none (some e) second h = cc

positive-le : (d : ℤ) → is_positive d ≡ true → pos 1 ≤ℤ d
unfolding is_positive
positive-le d h = (leb_ℤ_iff (pos 1) d).0 h

natural-le : (d : ℤ) → is_natural d ≡ true → pos 0 ≤ℤ d
unfolding is_natural
natural-le d h = (leb_ℤ_iff (pos 0) d).0 h

filled-nonempty : (trim : Text → Text) (s : Text) → is_filled trim s ≡ true → trim s ≢ []
unfolding is_filled
filled-nonempty trim s h = ground (arith, h, text_eq_iff (trim s) [])

module _ {F : Type 0} ⦃fl : Float F⦄ (trim lower : Text → Text) (parses : Text → Bool) where
  -- The settings of the GitOps loop.
  pub record IsSynced (c : Config F) : Type 0 where
    pub interval : pos 1 ≤ℤ c.gitops_interval
    pub concurrency : pos 1 ≤ℤ c.gitops_concurrency
    pub configs_path : trim c.gitops_configs_path ≢ []
    pub pull_policy : In c.gitops_pull_policy (lit "always" ∷ lit "changed" ∷ [])

  -- The settings of a manager.
  pub record IsManager (c : Config F) : Type 0 where
    pub provider :
        In c.metrics_provider (provider_docker_stats ∷ provider_agents ∷ [])
        ⊎ ((c.metrics_provider ≡ provider_prometheus) × (trim c.prometheus_url ≢ []))
    pub ingest_addr : trim c.ingest_addr ≢ []
    pub agent_stale_timeout : pos 1 ≤ℤ c.agent_stale_timeout
    pub threshold :
        (fl.le c.rebalance_threshold fl.zero ≡ false) × (fl.lt fl.one c.rebalance_threshold ≡ false)
    pub rebalance_cooldown : pos 0 ≤ℤ c.rebalance_cooldown
    pub synced : c.gitops_enabled ≡ true → IsSynced c

  -- The settings of an agent.
  pub record IsAgent (c : Config F) : Type 0 where
    pub manager_url : trim c.manager_url ≢ []
    pub url_parses : parses c.manager_url ≡ true
    pub report_interval : pos 1 ≤ℤ c.report_interval

  pub record IsProper (c : Config F) : Type 0 where
    pub poll_interval : pos 1 ≤ℤ c.poll_interval
    pub cooldown : pos 0 ≤ℤ c.cooldown
    pub scale_up_cooldown : pos 0 ≤ℤ c.scale_up_cooldown
    pub scale_down_cooldown : pos 0 ≤ℤ c.scale_down_cooldown
    pub stabilization : pos 0 ≤ℤ c.scale_down_stabilization_window
    pub heal_threshold : pos 0 ≤ℤ c.heal_threshold
    pub task_errors_window : pos 0 ≤ℤ c.task_errors_window
    pub deploy_check_delay : pos 0 ≤ℤ c.deploy_check_delay
    pub role : ((c.mode ≡ mode_manager) × IsManager c) ⊎ ((c.mode ≡ mode_agent) × IsAgent c)
    pub prometheus_timeout : pos 1 ≤ℤ c.prometheus_timeout
    pub log_format : In c.log_format (lit "text" ∷ lit "json" ∷ [])

  validate_gitops-IsSynced :
      (c : Config F) → validate_gitops trim lower parses c ≡ none → IsSynced c
  unfolding validate_gitops
  validate_gitops-IsSynced c h =
      let (i, h1) = demand-none _ _ _ h in
      let (n, h2) = demand-none _ _ _ h1 in
      let (p, h3) = demand-none _ _ _ h2 in
      let (q, h4) = demand-none _ _ _ h3 in
      record {
        interval = positive-le c.gitops_interval i;
        concurrency = positive-le c.gitops_concurrency n;
        configs_path = filled-nonempty trim c.gitops_configs_path p;
        pull_policy = is_one_of-In c.gitops_pull_policy (lit "always" ∷ lit "changed" ∷ []) q;
      }

  enabled-IsSynced :
      (c : Config F) (b : Bool)
      → (if b then validate_gitops trim lower parses c else none) ≡ none
      → b ≡ true
      → IsSynced c
  enabled-IsSynced c true h e = validate_gitops-IsSynced c h
  enabled-IsSynced c false h e = cc

  rest-IsManager :
      (c : Config F)
      → In c.metrics_provider (provider_docker_stats ∷ provider_agents ∷ [])
        ⊎ ((c.metrics_provider ≡ provider_prometheus) × (trim c.prometheus_url ≢ []))
      → validate_rest trim lower parses c ≡ none
      → IsManager c
  unfolding validate_rest
  rest-IsManager c provider h =
      let (a, h1) = demand-none _ _ _ h in
      let (s, h2) = demand-none _ _ _ h1 in
      let (t, h3) = demand-none _ _ _ h2 in
      let (r, h4) = demand-none _ _ _ h3 in
      record {
        provider = provider;
        ingest_addr = filled-nonempty trim c.ingest_addr a;
        agent_stale_timeout = positive-le c.agent_stale_timeout s;
        threshold = (ground (arith, t), ground (arith, t));
        rebalance_cooldown = natural-le c.rebalance_cooldown r;
        synced = enabled-IsSynced c c.gitops_enabled h4;
      }

  validate_manager-IsManager :
      (c : Config F) → validate_manager trim lower parses c ≡ none → IsManager c
  unfolding validate_manager
  validate_manager-IsManager c h =
      elim (Bool-cases
        (is_one_of c.metrics_provider (provider_docker_stats ∷ provider_agents ∷ []))) [
          | inl plain ↦
              rest-IsManager c
                (inl (
                  is_one_of-In c.metrics_provider (provider_docker_stats ∷ provider_agents ∷ [])
                    plain))
                (rw plain at h)
          | inr other ↦ elim (Bool-cases (text_eq c.metrics_provider provider_prometheus)) [
            | inl prom ↦
                let (u, h1) = demand-none _ _ _ (rw (other, prom) at h) in
                rest-IsManager c
                  (inr (
                    (text_eq_iff c.metrics_provider provider_prometheus).0 prom,
                    filled-nonempty trim c.prometheus_url u,
                  ))
                  h1
            | inr foreign ↦ cc (rw (other, foreign) at h)
          ]
        ]

  validate_agent-IsAgent : (c : Config F) → validate_agent trim lower parses c ≡ none → IsAgent c
  unfolding validate_agent
  validate_agent-IsAgent c h =
      let (u, h1) = demand-none _ _ _ h in
      let (p, h2) = demand-none _ _ _ h1 in
      let (r, h3) = demand-none _ _ _ h2 in
      record {
        manager_url = filled-nonempty trim c.manager_url u;
        url_parses = p;
        report_interval = positive-le c.report_interval r;
      }

  validate_mode-role :
      (c : Config F)
      → validate_mode trim lower parses c ≡ none
      → ((c.mode ≡ mode_manager) × IsManager c) ⊎ ((c.mode ≡ mode_agent) × IsAgent c)
  unfolding validate_mode
  validate_mode-role c h = elim (Bool-cases (text_eq c.mode mode_manager)) [
    | inl manager ↦ inl (
      (text_eq_iff c.mode mode_manager).0 manager,
      validate_manager-IsManager c (rw manager at h),
    )
    | inr other ↦ elim (Bool-cases (text_eq c.mode mode_agent)) [
      | inl agent ↦ inr (
        (text_eq_iff c.mode mode_agent).0 agent,
        validate_agent-IsAgent c (rw (other, agent) at h),
      )
      | inr foreign ↦ cc (rw (other, foreign) at h)
    ]
  ]

  -- A configuration that Validate accepts has a positive poll interval and Prometheus timeout; a cooldown, cooldowns
  -- of scaling up and down, a stabilization window, a heal threshold, a window of task errors and a delay of the
  -- deploy check that are not negative; the log format text or json; and one of two roles. A manager's
  -- provider is dockerstats, agents, or prometheus with a URL that is not blank; its ingest address is not
  -- blank, its agent stale timeout is positive, its rebalance cooldown is not negative, its rebalance
  -- threshold compares neither as at most 0 nor as above 1; and with GitOps enabled, the interval and the concurrency are
  -- positive, the configs path is not blank and the pull policy is always or changed. An agent's manager URL is not
  -- blank and parses, and its report interval is positive.
  pub validate-IsProper : (c : Config F) → validate trim lower parses c ≡ none → IsProper c
  unfolding validate validate_logging
  validate-IsProper c h =
      let (a1, h1) = demand-none _ _ _ h in
      let (a2, h2) = demand-none _ _ _ h1 in
      let (a3, h3) = demand-none _ _ _ h2 in
      let (a4, h4) = demand-none _ _ _ h3 in
      let (a5, h5) = demand-none _ _ _ h4 in
      let (a6, h6) = demand-none _ _ _ h5 in
      let (a7, h7) = demand-none _ _ _ h6 in
      let (a8, h8) = demand-none _ _ _ h7 in
      let (m, l) = or_else-none (validate_mode trim lower parses c) _ h8 in
      let (l1, k1) = demand-none _ _ _ l in
      let (l2, k2) = demand-none _ _ _ k1 in
      let (l3, k3) = demand-none _ _ _ k2 in
      record {
        poll_interval = positive-le c.poll_interval a1;
        cooldown = natural-le c.cooldown a2;
        scale_up_cooldown = natural-le c.scale_up_cooldown a3;
        scale_down_cooldown = natural-le c.scale_down_cooldown a4;
        stabilization = natural-le c.scale_down_stabilization_window a5;
        heal_threshold = natural-le c.heal_threshold a6;
        task_errors_window = natural-le c.task_errors_window a7;
        deploy_check_delay = natural-le c.deploy_check_delay a8;
        role = validate_mode-role c m;
        prometheus_timeout = positive-le c.prometheus_timeout l1;
        log_format = is_one_of-In c.log_format (lit "text" ∷ lit "json" ∷ []) l3;
      }
