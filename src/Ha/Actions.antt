-- ===== src/Ha/Actions.antt =====
-- internal/controller/ha_controller.go: the annotations that the HA controller acts on, the standby and
-- the whole reconcile. What executeRebalanceViaDB returns is an answer of the reconcile.
use cloudberry_k8s.Base.{
  suc, Bool, false, not, ◌&&◌, ◌||◌, Option, none, some, String, str_eq, if◌then◌else◌,
}
use cloudberry_k8s.Util.Conditions.{set_condition, condition_true, condition_false}
use cloudberry_k8s.Ha.Types.{Event, Sample, JobState, World, Faults, emit, count}
use cloudberry_k8s.Ha.Probe.{run_fts_probe, has_some}

-- A condition set on the copy in hand.
abbrev pub set_memory : Faults → String → String → String → String → World → World
set_memory faults type status reason message w = record w {
  memory = record w.memory {
    conditions = set_condition faults.now type status reason message w.memory.conditions;
  };
}

-- `patchStatus`: a merge patch, in which an empty list of failed segments does not occur.
unfoldable pub patch_status : Faults → World → World
patch_status faults w =
    let stored = record w.memory {
      failed_segments =
          if has_some w.memory.failed_segments
          then w.memory.failed_segments
          else w.status.failed_segments;
    } in
    if faults.status_patch_fails then w else record w { status = stored; memory = stored }

-- What a reconcile returns: when it is called again, or an error.
pub data Result : Type 0 where
  after_default after_rebalance_job after_probe_interval no_requeue : Result
  failed : Result

abbrev pub Outcome : Type 0
Outcome = World × Result

unfoldable pub normalize_recovery_type : String → String
normalize_recovery_type type =
    if str_eq type "incremental" || (str_eq type "full" || str_eq type "differential")
    then type
    else "full"

unfoldable pub handle_recovery : Faults → String → World → Outcome
handle_recovery faults type w =
    let rt = normalize_recovery_type type in
    if faults.annotation_patch_fails
    then (count (Sample.recovery_operation rt "failed") w, failed)
    else if faults.refetch_fails
    then (count (Sample.recovery_operation rt "failed") (record w { recovery = none }), failed)
    else (
      count (Sample.recovery_operation rt "noop")
          (emit Event.recovery_not_implemented (record w { recovery = none })),
      after_default,
    )

unfoldable pub record_rebalance_failure : Faults → String → World → World
record_rebalance_failure faults reason w = count (Sample.scale_operation "rebalance-failed") (
    emit (Event.rebalance_failed reason) (
      patch_status faults
        (set_memory faults "DataRedistribution" condition_false reason "Rebalance failed" w)))

unfoldable pub clear_rebalance_job_annotation : Faults → World → Outcome
clear_rebalance_job_annotation faults w =
    if faults.annotation_patch_fails
    then (w, failed)
    else if faults.refetch_fails
    then (record w { rebalance_job = none }, failed)
    else (record w { rebalance_job = none }, after_default)

abbrev pub complete_rebalance : World → World
complete_rebalance w = count (Sample.scale_operation "rebalance") (emit Event.rebalance_completed w)

abbrev pub set_completed : Faults → World → World
set_completed faults w = patch_status faults (
    set_memory faults "DataRedistribution" condition_true "RebalanceCompleted"
      "Rebalance completed successfully" w)

-- Of a Job that was fetched, or that is gone.
unfoldable pub observe_fetched_job : Faults → Option JobState → World → Outcome
observe_fetched_job faults none w =
    clear_rebalance_job_annotation faults (record_rebalance_failure faults "RebalanceJobLost" w)
observe_fetched_job faults (some JobState.succeeded) w =
    let completed = set_completed faults w in
    if faults.status_patch_fails
    then (completed, failed)
    else clear_rebalance_job_annotation faults (complete_rebalance completed)
observe_fetched_job faults (some JobState.failed) w =
    clear_rebalance_job_annotation faults (record_rebalance_failure faults "RebalanceJobFailed" w)
observe_fetched_job faults (some JobState.running) w = (w, after_rebalance_job)

unfoldable pub observe_rebalance_job : Faults → World → Outcome
observe_rebalance_job faults w =
    if faults.get_fails then (w, failed) else observe_fetched_job faults w.job w

-- The name of the Job has the time in it, so the Job is a new one.
unfoldable pub start_rebalance_job : Faults → World → Outcome
start_rebalance_job faults w =
    let created = record w { job = some JobState.running } in
    if not faults.has_job_to_build
    then (record_rebalance_failure faults "RebalanceJobNotBuilt" w, after_default)
    else if faults.create_fails
    then (record_rebalance_failure faults "RebalanceJobCreateFailed" w, failed)
    else if faults.annotation_patch_fails
    then (created, failed)
    else (
      emit Event.rebalance_started (record created { rebalance_job = some "rebalance" }),
      after_rebalance_job,
    )

-- `handleRebalance` after the annotation is removed.
unfoldable pub rebalance : Faults → World → Outcome
rebalance faults w =
    let set =
      set_memory faults "DataRedistribution" condition_true "RebalanceStarted" "Rebalance started"
        w in
    let started = patch_status faults set in
    let announced = emit Event.rebalance_started started in
    let completed = set_completed faults announced in
    if faults.status_patch_fails
    then (started, failed)
    else if faults.has_factory && not faults.rebalance_fails
    then (complete_rebalance completed, after_default)
    else start_rebalance_job faults announced

unfoldable pub handle_rebalance : Faults → World → Outcome
handle_rebalance faults w =
    if faults.annotation_patch_fails
    then (w, failed)
    else if faults.refetch_fails
    then (record w { action = none }, failed)
    else rebalance faults (record w { action = none })

unfoldable pub record_standby_activation_failure : Faults → World → World
record_standby_activation_failure faults w =
    count (Sample.recovery_operation "standby-activation" "error") (
      emit Event.activation_failed (
        set_memory faults "StandbyReady" condition_false "StandbyPromotionFailed"
          "Standby promotion failed" w))

-- A call of PromoteStandby, whether it succeeds or not.
abbrev pub promote : World → World
promote w = record w { promotions = suc w.promotions }

abbrev pub promoted : Faults → World → World
promoted faults w = count (Sample.recovery_operation "standby-activation" "completed") (
    emit Event.activation_completed (
      patch_status faults (
        set_memory faults "StandbyReady" condition_false "StandbyPromoted"
          "Standby coordinator was promoted to primary" w)))

-- `handleStandbyActivation` after the annotation is removed.
unfoldable pub activate_standby : Faults → World → Outcome
activate_standby faults w =
    let initiated = emit Event.activation_initiated w in
    if not w.standby
    then (emit Event.activation_skipped w, after_default)
    else if not faults.has_factory
    then (record_standby_activation_failure faults w, failed)
    else if faults.client_fails
    then (record_standby_activation_failure faults initiated, failed)
    else if faults.promote_fails
    then (record_standby_activation_failure faults (promote initiated), failed)
    else (promoted faults (promote initiated), after_default)

unfoldable pub handle_standby_activation : Faults → World → Outcome
handle_standby_activation faults w =
    if faults.annotation_patch_fails
    then (w, failed)
    else if faults.refetch_fails
    then (record w { action = none }, failed)
    else activate_standby faults (record w { action = none })

-- `monitorStandby`; its error is logged.
unfoldable pub monitor_standby : Faults → World → World
monitor_standby faults w =
    if not faults.has_factory || faults.client_fails
    then w
    else if faults.lag_fails
    then set_memory faults "StandbyReady" condition_false "ReplicationCheckFailed"
        "Failed to check replication lag" w
    else patch_status faults (
        set_memory faults "StandbyReady" condition_true "StandbyInSync" "Standby replication lag" w)

unfoldable pub run_health_checks : Faults → World → World
run_health_checks faults w =
    let probed = if w.mirroring then run_fts_probe faults w else w in
    if w.standby then monitor_standby faults probed else probed

abbrev pub handle_action : Faults → World → Option String → Outcome
handle_action faults w none = (run_health_checks faults w, after_probe_interval)
handle_action faults w (some action) =
    if str_eq action "rebalance"
    then handle_rebalance faults w
    else if str_eq action "activate-standby"
    then handle_standby_activation faults w
    else (run_health_checks faults w, after_probe_interval)

abbrev pub handle_recovery_or : Faults → World → Option String → Outcome
handle_recovery_or faults w none = handle_action faults w w.action
handle_recovery_or faults w (some type) = handle_recovery faults type w

abbrev pub has_job_name : Option String → Bool
has_job_name none = false
has_job_name (some name) = not (str_eq name "")

-- `handleAnnotations`, and the health checks where it handles nothing.
unfoldable pub handle_annotations : Faults → World → Outcome
handle_annotations faults w =
    if has_job_name w.rebalance_job
    then observe_rebalance_job faults w
    else handle_recovery_or faults w w.recovery

-- `Reconcile` of a cluster that was fetched.
unfoldable pub reconcile : Faults → World → Outcome
reconcile faults w =
    let fetched = record w { memory = w.status } in
    if not (str_eq w.phase "Running")
    then (fetched, after_default)
    else handle_annotations faults fetched
