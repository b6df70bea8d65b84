-- ===== src/Lib.antt =====
-- swarm-hpa: an autoscaler, healer and rebalancer for Docker Swarm, with a GitOps loop.
--
-- The daemon runs a reconcile loop. A pass reads the managed services, the nodes, the tasks, the
-- metrics and the agents' reports; pure components decide on them; a guard with cooldowns and a
-- dry-run mode stands before the two mutations of Swarm, scaling and forced updates. The GitOps loop
-- syncs each configured stack from Git: it renders the documents of its merge groups, takes the drift
-- snapshot, decrypts secrets, rotates configs and secrets by content, and deploys group by group; the
-- deployer first gives autoscaled services their live counts. The outcome goes to the status store.
--
-- Which file models what:
-- - Model: internal/core/model, the plain data (ServiceRef, ManagedService, NodeView, TaskView, ...).
-- - Config/Labels: internal/config/labels.go; ParsePolicy is parse_policy, with parse_uint_label,
--   parse_float_label and validate_policy as in the source.
-- - Placement: internal/core/placement/placement.go; NodeSatisfies is node_satisfies, with
--   parse_constraint and node_value.
-- - Healer: internal/core/healer/healer.go; Detect is detect.
-- - Rebalancer: internal/core/rebalancer/rebalancer.go; Recommend is recommend.
-- - Autoscaler: internal/core/autoscaler/autoscaler.go; Desired is desired, ClampStep is clamp_step.
-- - TaskErrors/Classify: internal/core/taskerrors/classify.go.
-- - TaskErrors/Tracker: internal/app/taskerrors/tracker.go; Record is record_events and
--   WindowSnapshot is window_snapshot, over the map of tracked events.
-- - Registry: internal/app/registry/registry.go; Ingest and Snapshot over the entries, the readings of
--   the clock and the recorder's events.
-- - Stackstatus: internal/core/stackstatus; Drift is drift, Orphans is orphans.
-- - Statusstore: internal/adapter/statusstore/store.go; SetStatus, SetState and Snapshot (listing).
-- - Metrics/Router, Metrics/Distributed: internal/adapter/metrics/router.go and
--   internal/adapter/metrics/distributed/distributed.go; Value is route and mean_value.
-- - Reconciler: internal/app/reconciler. World holds the cooldown's map, the readings of the clock and
--   the trace of calls to Swarm and the recorder. Cooldown is cooldown.go, Stabilizer stabilizer.go,
--   Guard guard.go; Observation and Loop are reconciler.go, where observe is the whole of a pass, its
--   early returns and recorder calls included. Guard/Commands makes one type of the three guarded
--   operations, so that runs of them can be spoken of.
-- - Compose/Fields: a decoded document, as a tree; Compose/Labels: serviceLabels of
--   internal/adapter/stackdeploy/carryforward.go and flatServiceLabels of
--   internal/app/gitopsync/loop.go; Compose/Rotation: internal/core/compose, where ApplyRotation is
--   apply_rotation and DiscoverSecretFiles is discover_secret_files.
-- - Config/Gitops: internal/config/gitops.go with the types of internal/core/model/gitops.go;
--   LoadGitOps is load_gitops.
-- - Config/Runtime: internal/config/config.go; Default is default, Validate is validate.
-- - Stackdeploy: internal/adapter/stackdeploy. CarryForward is carryforward.go, with
--   ApplyCarryForwardGroup as apply_carry_forward_group; Deploy is deploy.go, with its temporary files
--   as calls of a trace; Retry is retry.go, with WithRetry as with_retry. The module
--   Retry beside it is the loop that it shares with internal/adapter/swarm/mutate.go, with
--   internal/adapter/dockererr/dockererr.go.
-- - Swarm: internal/adapter/swarm; Mutate is mutate.go (scale, force_update, update_service), Read is
--   the mappings of swarm.go, with ManagedServices as managed_services.
-- - Gitops: internal/app/gitopsync/loop.go. Pass has the loop's fields and the locals of syncStack as
--   one state, its calls as a trace, and its parts as steps that go on with a value or break off with
--   a stage and a text. Sync is syncStack up to the dry run's return (prepare), Deploys the rest of it,
--   the report to the status store and the pass over the stacks (sync_stack, sync_all), Desired the
--   drift snapshot (desired_replicas_group), PostCheck the alert behind a deploy.
-- - Ingest: internal/adapter/ingest/ingest.go, with the registry as its sink; ServeHTTP is serve.
-- - Stackapi: internal/adapter/stackapi/handler.go; buildPayload is build_payload, over Statusstore and
--   Stackstatus.
-- - Metrics/Stats: the percentages of internal/adapter/statsutil/statsutil.go.
-- - Base: strings, maps, time, integers and the theory that the components share.
-- - Examples: a concrete input for each theorem.
--
-- Conventions. A Go string is a list of code points. A Go map is an association list; the order of
-- Go's iteration, which is not specified, is the order of the list, so a statement about every list is
-- one about every order. Numbers of type uint64 are natural numbers with the wrap-around written out.
-- Time is an integer of nanoseconds; Time.Sub saturates at the limits of int64. The clock is a function
-- of the number of its readings so far. Errors of Swarm are functions of the trace, so every sequence
-- of successes and failures is covered. float64 is a type F with its operations as an instance; what
-- IEEE 754 says of them is a hypothesis where a theorem needs it. sort.Slice, strings.ToLower and, in the
-- configuration, strings.TrimSpace are arguments. The ports of the GitOps loop, the Docker SDK's types
-- and calls, fmt.Sprint, the functions of filepath and the MD5 sum are arguments too; a port's answer
-- can be an error or a panic. All loops recurse on the list that they walk, or on the number of
-- attempts that the source names, so there is no fuel.
--
-- Not modelled: logging and formatted reasons; the tickers and the constructors; locks, since each
-- operation holds its lock throughout (Ingest and Snapshot emit their events behind the lock, in the
-- order of the calls here). The stacks of a pass are synced one after the other, as with one worker;
-- the interleavings of several workers, which stacks of different repositories can take, and the timer
-- of the check behind a deploy are left out. YAML, JSON, HTML, git, sops, the docker command line, the
-- Prometheus client, the HTTP servers, the agents, the reading of flags and of the environment and
-- the process's start are input and output, or outside this model.
pub mod Base
pub mod Model
pub mod Config
pub mod Placement
pub mod Healer
pub mod Rebalancer
pub mod TaskErrors
pub mod Registry
pub mod Ingest
pub mod Autoscaler
pub mod Reconciler
pub mod Compose
pub mod Retry
pub mod Stackdeploy
pub mod Gitops
pub mod Swarm
pub mod Stackapi
pub mod Metrics
pub mod Stackstatus
pub mod Statusstore
mod Examples
