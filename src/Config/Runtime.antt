-- ===== src/Config/Runtime.antt =====
-- internal/config/config.go: the daemon's configuration, as its flags and its environment set it, and
-- the checks that it has to pass.
pub mod Proper
use swarm_hpa.Base.{
  ℕ, ◌*◌, Bool, true, false, not, ◌&&◌, ◌||◌, Option, none, some, List, [], ◌∷◌, Text, text_eq, lit,
  ℤ, pos, leb_ℤ, Duration, Float, if◌then◌else◌,
}
use swarm_hpa.Config.Labels.{provider_docker_stats, provider_prometheus, provider_agents}

-- ModeManager and ModeAgent
abbrev pub mode_manager : Text
mode_manager = lit "manager"

abbrev pub mode_agent : Text
mode_agent = lit "agent"

-- Config; `max_scale_step` is uint64.
pub record Config (F : Type 0) : Type 0 where
  pub poll_interval : Duration
  pub cooldown : Duration
  pub scale_up_cooldown : Duration
  pub scale_down_cooldown : Duration
  pub max_scale_step : ℕ
  pub scale_down_stabilization_window : Duration
  pub heal_threshold : Duration
  pub dry_run : Bool
  pub log_level : Text
  pub log_format : Text
  pub metrics_provider : Text
  pub prometheus_url : Text
  pub prometheus_timeout : Duration
  pub metrics_addr : Text
  pub mode : Text
  pub ingest_addr : Text
  pub ingest_token : Text
  pub agent_stale_timeout : Duration
  pub rebalance_threshold : F
  pub rebalance_cooldown : Duration
  pub gitops_enabled : Bool
  pub gitops_configs_path : Text
  pub gitops_repos_path : Text
  pub gitops_interval : Duration
  pub gitops_pull_policy : Text
  pub gitops_auto_rotate : Bool
  pub gitops_concurrency : ℤ
  pub task_errors_window : Duration
  pub deploy_check_delay : Duration
  pub orphans_scan : Bool
  pub manager_url : Text
  pub report_interval : Duration
  pub node_id : Text

abbrev pub seconds_of : ℕ → Duration
seconds_of n = pos (n * 1000000000)

-- Default, with the constant 0.30.
unfoldable pub default : {F : Type 0} → F → Config F
default threshold = record {
  poll_interval = seconds_of 15;
  cooldown = seconds_of 180;
  scale_up_cooldown = seconds_of 180;
  scale_down_cooldown = seconds_of 180;
  max_scale_step = 0;
  scale_down_stabilization_window = pos 0;
  heal_threshold = seconds_of 120;
  dry_run = true;
  log_level = lit "info";
  log_format = lit "text";
  metrics_provider = provider_docker_stats;
  prometheus_url = [];
  prometheus_timeout = seconds_of 10;
  metrics_addr = lit ":9095";
  mode = mode_manager;
  ingest_addr = lit ":9096";
  ingest_token = [];
  agent_stale_timeout = seconds_of 45;
  rebalance_threshold = threshold;
  rebalance_cooldown = seconds_of 600;
  gitops_enabled = false;
  gitops_configs_path = lit ".";
  gitops_repos_path = lit "repos";
  gitops_interval = seconds_of 120;
  gitops_pull_policy = lit "always";
  gitops_auto_rotate = true;
  gitops_concurrency = pos 4;
  task_errors_window = seconds_of 300;
  deploy_check_delay = seconds_of 90;
  orphans_scan = true;
  manager_url = [];
  report_interval = seconds_of 15;
  node_id = [];
}

-- The errors, each by the setting that it names.
pub data ConfigError : Type 0 where
  poll_interval_error cooldown_error scale_up_cooldown_error scale_down_cooldown_error
        scale_down_stabilization_error heal_threshold_error task_errors_window_error
        deploy_check_delay_error mode_error prometheus_timeout_error log_level_error
        log_format_error prometheus_url_error metrics_provider_error ingest_addr_error
        agent_stale_timeout_error rebalance_threshold_error rebalance_cooldown_error
        gitops_interval_error gitops_concurrency_error gitops_configs_path_error
        gitops_pull_policy_error manager_url_missing manager_url_error report_interval_error :
      ConfigError

-- The first error of a row of checks: the check holds, or its error is the answer.
unfoldable pub demand : Bool → ConfigError → Option ConfigError → Option ConfigError
demand holds e rest = if holds then rest else some e

-- d > 0, or n >= 1, and d >= 0
unfoldable pub is_positive : ℤ → Bool
is_positive d = leb_ℤ (pos 1) d

unfoldable pub is_natural : ℤ → Bool
is_natural d = leb_ℤ (pos 0) d

unfoldable pub is_one_of : Text → List Text → Bool
is_one_of s [] = false
is_one_of s (t ∷ ts) = text_eq s t || is_one_of s ts

unfoldable pub or_else : Option ConfigError → Option ConfigError → Option ConfigError
or_else (some e) rest = some e
or_else none rest = rest

-- strings.TrimSpace(s) != "", with the trimming as an argument.
unfoldable pub is_filled : (Text → Text) → Text → Bool
is_filled trim s = not (text_eq (trim s) [])

-- `trim` and `lower` are strings.TrimSpace and strings.ToLower, `parses` is that url.Parse returns no error.
module _ {F : Type 0} ⦃fl : Float F⦄ (trim lower : Text → Text) (parses : Text → Bool) where
  -- The part of validateManager behind `if c.GitOpsEnabled`.
  unfoldable pub validate_gitops : Config F → Option ConfigError
  validate_gitops c = demand (is_positive c.gitops_interval) gitops_interval_error (
      demand (is_positive c.gitops_concurrency) gitops_concurrency_error (
        demand (is_filled trim c.gitops_configs_path) gitops_configs_path_error (
          demand (is_one_of c.gitops_pull_policy (lit "always" ∷ lit "changed" ∷ []))
            gitops_pull_policy_error none)))

  -- The part of validateManager behind the switch over the provider.
  unfoldable pub validate_rest : Config F → Option ConfigError
  unfolding validate_gitops
  validate_rest c = demand (is_filled trim c.ingest_addr) ingest_addr_error (
      demand (is_positive c.agent_stale_timeout) agent_stale_timeout_error (
        demand (not (fl.le c.rebalance_threshold fl.zero || fl.lt fl.one c.rebalance_threshold))
          rebalance_threshold_error
          (demand (is_natural c.rebalance_cooldown) rebalance_cooldown_error
            (if c.gitops_enabled then validate_gitops c else none))))

  -- validateManager
  unfoldable pub validate_manager : Config F → Option ConfigError
  unfolding validate_rest
  validate_manager c =
      if is_one_of c.metrics_provider (provider_docker_stats ∷ provider_agents ∷ [])
      then validate_rest c
      else if text_eq c.metrics_provider provider_prometheus
      then demand (is_filled trim c.prometheus_url) prometheus_url_error (validate_rest c)
      else some metrics_provider_error

  -- validateAgent
  unfoldable pub validate_agent : Config F → Option ConfigError
  validate_agent c = demand (is_filled trim c.manager_url) manager_url_missing (
      demand (parses c.manager_url) manager_url_error
        (demand (is_positive c.report_interval) report_interval_error none))

  -- The part of Validate behind the switch over the mode.
  unfoldable pub validate_logging : Config F → Option ConfigError
  validate_logging c = demand (is_positive c.prometheus_timeout) prometheus_timeout_error (
      demand
        (is_one_of (lower (trim c.log_level))
          (lit "debug" ∷ lit "info" ∷ lit "warn" ∷ lit "warning" ∷ lit "error" ∷ []))
        log_level_error
        (demand (is_one_of c.log_format (lit "text" ∷ lit "json" ∷ [])) log_format_error none))

  unfoldable pub validate_mode : Config F → Option ConfigError
  unfolding validate_manager validate_agent
  validate_mode c =
      if text_eq c.mode mode_manager
      then validate_manager c
      else if text_eq c.mode mode_agent
      then validate_agent c
      else some mode_error

  -- Validate
  unfoldable pub validate : Config F → Option ConfigError
  unfolding or_else validate_mode validate_logging
  validate c = demand (is_positive c.poll_interval) poll_interval_error (
      demand (is_natural c.cooldown) cooldown_error (
        demand (is_natural c.scale_up_cooldown) scale_up_cooldown_error (
          demand (is_natural c.scale_down_cooldown) scale_down_cooldown_error (
            demand (is_natural c.scale_down_stabilization_window) scale_down_stabilization_error (
              demand (is_natural c.heal_threshold) heal_threshold_error (
                demand (is_natural c.task_errors_window) task_errors_window_error (
                  demand (is_natural c.deploy_check_delay) deploy_check_delay_error
                    (or_else (validate_mode c) (validate_logging c)))))))))
