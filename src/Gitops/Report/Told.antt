-- ===== src/Gitops/Report/Told.antt =====
-- The status that a pass of a stack leaves in the store.
use swarm_hpa.Base.{◌≡◌, some, [], text_eq, lookup, text_keys, Float}
use swarm_hpa.TaskErrors.Tracker.{or_zero}
use swarm_hpa.Statusstore.{StackStatus}
use swarm_hpa.Config.Gitops.{StackConfig}
use swarm_hpa.Gitops.Pass.{Ports, Settings, Pass}
use swarm_hpa.Gitops.Keeps.{Keeps}
use swarm_hpa.Gitops.Report.Calls.{deploy_calls}
use swarm_hpa.Gitops.Report.Parts.{Report}

module _ {F : Type 0} ⦃fl : Float F⦄ (ports : Ports F) (cfg : Settings) (st : StackConfig) where
  -- The status that the store has for the stack: at rest, without an error exactly where no stage is named, and with a true report.
  pub record Stored (before after : Pass F) : Type 0 where
    pub status : StackStatus
    pub known : lookup st.name after.store ≡ some status
    pub resting : status.state ≡ []
    pub judged : status.is_ok ≡ text_eq status.error_stage []
    pub told :
        Report cfg st
          (or_zero (lookup st.name before.deploy_count))
          (deploy_calls before.trace)
          status.error_stage
          status.files
          status.deploy_count
          (deploy_calls after.trace)
