-- ===== src/Metrics/Router.antt =====
-- internal/adapter/metrics/router.go: the provider that a service's source names.
use swarm_hpa.Base.{
  ◌≡◌, refl, inl, inr, Option, none, some, [], Text, text_eq, text_eq_iff, Result, ok, err,
  Bool-cases, if◌then◌else◌,
}
use swarm_hpa.Model.{ManagedService}
use swarm_hpa.Config.Labels.{provider_docker_stats, provider_prometheus, provider_agents}
use swarm_hpa.Metrics.{
  Failure, unavailable_dockerstats, unavailable_prometheus, unavailable_agents, unknown_source,
}

-- MetricsProvider.Value
abbrev pub Provider : Type 0 → Type 0
Provider F = ManagedService F → Result Failure F

-- Router; a provider that is nil is `none`.
pub record Router (F : Type 0) : Type 0 where
  pub dockerstats : Option (Provider F)
  pub prometheus : Option (Provider F)
  pub agents : Option (Provider F)
  pub default_source : Text

module _ {F : Type 0} where
  -- The source that Value switches on.
  unfoldable pub source_of : Router F → ManagedService F → Text
  source_of r svc = if text_eq svc.policy.source [] then r.default_source else svc.policy.source

  -- A case of the switch.
  unfoldable pub ask : Option (Provider F) → Failure → ManagedService F → Result Failure F
  ask none missing svc = err missing
  ask (some p) missing svc = p svc

  -- Router.Value
  unfoldable pub route : Router F → ManagedService F → Result Failure F
  unfolding ask
  route r svc =
      let source = source_of r svc in
      if text_eq source provider_docker_stats
      then ask r.dockerstats (unavailable_dockerstats svc.ref.name) svc
      else if text_eq source provider_prometheus
      then ask r.prometheus (unavailable_prometheus svc.ref.name) svc
      else if text_eq source provider_agents
      then ask r.agents (unavailable_agents svc.ref.name) svc
      else err (unknown_source svc.ref.name source)

  -- The router has the provider under the source.
  pub data Serves (r : Router F) (source : Text) (p : Provider F) : Type 0 where
    from_dockerstats : source ≡ provider_docker_stats → r.dockerstats ≡ some p → Serves r source p
    from_prometheus : source ≡ provider_prometheus → r.prometheus ≡ some p → Serves r source p
    from_agents : source ≡ provider_agents → r.agents ≡ some p → Serves r source p

  ask-ok :
      (o : Option (Provider F)) (missing : Failure) (svc : ManagedService F) (v : F)
      → ask o missing svc ≡ ok v
      → (p : Provider F) × (o ≡ some p) × (p svc ≡ ok v)
  unfolding ask
  ask-ok none missing svc v h = cc
  ask-ok (some p) missing svc v h = (p, refl, h)

  -- A value is never one of another source: it is the answer of the provider that stands under the
  -- service's own source, or under the default source for a service without one.
  pub route-Serves :
      (r : Router F) (svc : ManagedService F) (v : F)
      → route r svc ≡ ok v
      → (p : Provider F) × Serves r
          (if text_eq svc.policy.source [] then r.default_source else svc.policy.source)
          p
        × (p svc ≡ ok v)
  unfolding route source_of
  route-Serves r svc v h =
      let source = source_of r svc in
      elim (Bool-cases (text_eq source provider_docker_stats)) [
        | inl d ↦
            let (p, e, a) =
              ask-ok r.dockerstats (unavailable_dockerstats svc.ref.name) svc v
                (rw (d, route) at h) in
            (p, from_dockerstats ((text_eq_iff source provider_docker_stats).0 d) e, a)
        | inr d ↦ elim (Bool-cases (text_eq source provider_prometheus)) [
          | inl q ↦
              let (p, e, a) =
                ask-ok r.prometheus (unavailable_prometheus svc.ref.name) svc v
                  (rw (d, q, route) at h) in
              (p, from_prometheus ((text_eq_iff source provider_prometheus).0 q) e, a)
          | inr q ↦ elim (Bool-cases (text_eq source provider_agents)) [
            | inl g ↦
                let (p, e, a) =
                  ask-ok r.agents (unavailable_agents svc.ref.name) svc v
                    (rw (d, q, g, route) at h) in
                (p, from_agents ((text_eq_iff source provider_agents).0 g) e, a)
            | inr g ↦ cc (rw (d, q, g, route) at h)
          ]
        ]
      ]
