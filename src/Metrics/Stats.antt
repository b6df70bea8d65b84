-- ===== src/Metrics/Stats.antt =====
-- internal/adapter/statsutil/statsutil.go: the percentages of a container's stats sample.
use swarm_hpa.Base.{
  ℕ, Bool, ◌&&◌, ◌||◌, Option, none, some, [], Text, text_eq, lit, Float, if◌then◌else◌,
}

-- The fields that are read of a sample of Docker's stats: the current and the previous CPU readings, the memory's
-- usage and limit, and `inactive_file` of its statistics, where the cgroup reports it.
pub record Sample : Type 0 where
  pub total_usage : ℕ
  pub pre_total_usage : ℕ
  pub system_usage : ℕ
  pub pre_system_usage : ℕ
  pub online_cpus : ℕ
  pub percpu_count : ℕ
  pub mem_usage : ℕ
  pub mem_limit : ℕ
  pub inactive_file : Option ℕ

pub data Compute : Type 0 where
  cpu_percent_compute mem_percent_compute : Compute

-- ComputeFor; `trim` and `lower` are strings.TrimSpace and strings.ToLower, `none` is its error.
unfoldable pub compute_for : (Text → Text) → (Text → Text) → Text → Option Compute
compute_for trim lower metric =
    let name = lower (trim metric) in
    if text_eq name (lit "cpu") || text_eq name []
    then some cpu_percent_compute
    else if text_eq name (lit "memory") || text_eq name (lit "mem")
    then some mem_percent_compute
    else none

module _ {F : Type 0} ⦃fl : Float F⦄ where
  -- x == 0
  unfoldable pub is_zero : F → Bool
  is_zero x = fl.le x fl.zero && fl.le fl.zero x

  unfoldable pub or_if_zero : F → F → F
  or_if_zero x y = if is_zero x then y else x

  -- CPUPercent
  unfoldable pub cpu_percent : Sample → Option F
  unfolding or_if_zero
  cpu_percent s =
      let cpu_delta = fl.sub (fl.of_uint64 s.total_usage) (fl.of_uint64 s.pre_total_usage) in
      let sys_delta = fl.sub (fl.of_uint64 s.system_usage) (fl.of_uint64 s.pre_system_usage) in
      let cpus =
        or_if_zero (or_if_zero (fl.of_uint64 s.online_cpus) (fl.of_uint64 s.percpu_count)) fl.one in
      if fl.le cpu_delta fl.zero || fl.le sys_delta fl.zero
      then none
      else some (fl.mul (fl.mul (fl.div cpu_delta sys_delta) cpus) fl.hundred)

  unfoldable pub without_cache : F → Option ℕ → F
  without_cache usage none = usage
  without_cache usage (some cache) =
      if fl.lt (fl.of_uint64 cache) usage then fl.sub usage (fl.of_uint64 cache) else usage

  -- MemUsageBytes
  unfoldable pub mem_usage_bytes : Sample → F
  unfolding without_cache
  mem_usage_bytes s = without_cache (fl.of_uint64 s.mem_usage) s.inactive_file

  -- MemPercent
  unfoldable pub mem_percent : Sample → Option F
  unfolding without_cache
  mem_percent s =
      let limit = fl.of_uint64 s.mem_limit in
      let usage = without_cache (fl.of_uint64 s.mem_usage) s.inactive_file in
      if fl.le limit fl.zero then none else some (fl.mul (fl.div usage limit) fl.hundred)
