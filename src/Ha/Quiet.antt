-- ===== src/Ha/Quiet.antt =====
-- internal/controller/ha_controller.go: the calls that neither promote nor touch the action.
use cloudberry_k8s.Base.{
  ℕ, not, ◌&&◌, ◌||◌, Option, none, some, List, [], ◌∷◌, String, if◌then◌else◌, if_cases, ◌≡◌, refl,
  ◌∙◌,
}
use cloudberry_k8s.Ha.Types.{SegmentInfo, Event, Sample, JobState, World, Faults, emit, count}
use cloudberry_k8s.Ha.Probe.{
  Analysis, analyze_segments, verify_failover, detect_failover, handle_failover, has_some,
  warn_degraded, fail_over, update_fts_probe_status, report_probe, after_probe, run_fts_probe,
}
use cloudberry_k8s.Util.Conditions.{condition_true}
use cloudberry_k8s.Ha.Actions.{
  set_memory, set_completed, complete_rebalance, patch_status, Result, Outcome, handle_recovery,
  record_rebalance_failure, clear_rebalance_job_annotation, observe_fetched_job,
  observe_rebalance_job, start_rebalance_job, rebalance, monitor_standby, run_health_checks,
}

-- What a call leaves of the requests and of the promotions.
abbrev pub IsQuiet : World → World → Type 0
IsQuiet w after = (after.promotions ≡ w.promotions) × (after.action ≡ w.action)

pub patch_status-IsQuiet : (faults : Faults) (w : World) → IsQuiet w (patch_status faults w)
unfolding patch_status
patch_status-IsQuiet faults w =
    if_cases (IsQuiet w) faults.status_patch_fails w _ (λ e. (refl, refl)) (λ e. (refl, refl))

abbrev pub IsQuietOutcome : World → Outcome → Type 0
IsQuietOutcome w o = IsQuiet w o.0

clear-IsQuiet :
    (faults : Faults) (w v : World)
    → IsQuiet w v
    → IsQuietOutcome w (clear_rebalance_job_annotation faults v)
unfolding clear_rebalance_job_annotation
clear-IsQuiet faults w v h =
    if_cases (IsQuietOutcome w) faults.annotation_patch_fails (v, Result.failed) _ (λ e. h)
      (λ e. if_cases (IsQuietOutcome w) faults.refetch_fails _ _ (λ f. h) (λ f. h))

record_failure-IsQuiet :
    (faults : Faults) (reason : String) (w : World)
    → IsQuiet w (record_rebalance_failure faults reason w)
unfolding record_rebalance_failure
record_failure-IsQuiet faults reason w = patch_status-IsQuiet faults _

observe_fetched_job-IsQuiet :
    (faults : Faults) (job : Option JobState) (w : World)
    → IsQuietOutcome w (observe_fetched_job faults job w)
unfolding observe_fetched_job
observe_fetched_job-IsQuiet faults none w =
    clear-IsQuiet faults w _ (record_failure-IsQuiet faults "RebalanceJobLost" w)
observe_fetched_job-IsQuiet faults (some JobState.succeeded) w =
    if_cases (IsQuietOutcome w) faults.status_patch_fails (set_completed faults w, Result.failed)
      (clear_rebalance_job_annotation faults (complete_rebalance (set_completed faults w)))
      (λ e. patch_status-IsQuiet faults _)
      (λ e. clear-IsQuiet faults w _ (patch_status-IsQuiet faults _))
observe_fetched_job-IsQuiet faults (some JobState.failed) w =
    clear-IsQuiet faults w _ (record_failure-IsQuiet faults "RebalanceJobFailed" w)
observe_fetched_job-IsQuiet faults (some JobState.running) w = (refl, refl)

pub observe_rebalance_job-IsQuiet :
    (faults : Faults) (w : World) → IsQuietOutcome w (observe_rebalance_job faults w)
unfolding observe_rebalance_job
observe_rebalance_job-IsQuiet faults w =
    if_cases (IsQuietOutcome w) faults.get_fails (w, Result.failed) _ (λ e. (refl, refl))
      (λ e. observe_fetched_job-IsQuiet faults w.job w)

pub handle_recovery-IsQuiet :
    (faults : Faults) (type : String) (w : World) → IsQuietOutcome w (handle_recovery faults type w)
unfolding handle_recovery
handle_recovery-IsQuiet faults type w =
    if_cases (IsQuietOutcome w) faults.annotation_patch_fails _ _ (λ e. (refl, refl))
      (λ e.
        if_cases (IsQuietOutcome w) faults.refetch_fails _ _ (λ f. (refl, refl))
          (λ f. (refl, refl)))

verify_failover-IsQuiet :
    (updated fps : List SegmentInfo) (w : World) → IsQuiet w (verify_failover updated fps w)
unfolding verify_failover
verify_failover-IsQuiet updated [] w = (refl, refl)
verify_failover-IsQuiet updated (fp ∷ rest) w = verify_failover-IsQuiet updated rest _

detect_failover-IsQuiet : (fps : List SegmentInfo) (w : World) → IsQuiet w (detect_failover fps w)
unfolding detect_failover
detect_failover-IsQuiet [] w = (refl, refl)
detect_failover-IsQuiet (fp ∷ rest) w = detect_failover-IsQuiet rest _

handle_failover-IsQuiet :
    (updated : Option (List SegmentInfo)) (fps : List SegmentInfo) (w : World)
    → IsQuiet w (handle_failover updated fps w)
unfolding handle_failover
handle_failover-IsQuiet none fps w = detect_failover-IsQuiet fps w
handle_failover-IsQuiet (some updated) fps w = verify_failover-IsQuiet updated fps w

fail_over-IsQuiet :
    (faults : Faults) (call : ℕ) (analysis : Analysis) (w : World)
    → IsQuiet w (fail_over faults call analysis w)
fail_over-IsQuiet faults call analysis w =
    if_cases (IsQuiet w) (has_some analysis.failed_primaries && w.mirroring)
      (handle_failover (faults.configuration call) analysis.failed_primaries _) _
      (λ e. handle_failover-IsQuiet (faults.configuration call) analysis.failed_primaries _)
      (λ e. (refl, refl))

warn_degraded-IsQuiet : (analysis : Analysis) (w : World) → IsQuiet w (warn_degraded analysis w)
warn_degraded-IsQuiet analysis w =
    if_cases (IsQuiet w) analysis.all_healthy w _ (λ e. (refl, refl)) (λ e. (refl, refl))

IsQuiet-trans : (u v w : World) → IsQuiet u v → IsQuiet v w → IsQuiet u w
IsQuiet-trans u v w h k = (k.0 ∙ h.0, k.1 ∙ h.1)

report_probe-IsQuiet :
    (faults : Faults) (call : ℕ) (segments : List SegmentInfo) (w : World)
    → IsQuiet w (report_probe faults call segments w)
unfolding report_probe
report_probe-IsQuiet faults call segments w =
    let analysis = analyze_segments segments in
    let over = fail_over faults call analysis w in
    let updated = update_fts_probe_status analysis over in
    let quiet =
      IsQuiet-trans w over updated (fail_over-IsQuiet faults call analysis w)
        (warn_degraded-IsQuiet analysis _) in
    if_cases (IsQuiet w) faults.status_patch_fails updated _ (λ e. quiet) (λ e. quiet)

after_probe-IsQuiet :
    (faults : Faults) (w : World) (answer : Option (List SegmentInfo) × ℕ)
    → IsQuiet w (after_probe faults w answer)
after_probe-IsQuiet faults w (none, call) = (refl, refl)
after_probe-IsQuiet faults w (some segments, call) = report_probe-IsQuiet faults call segments w

run_fts_probe-IsQuiet : (faults : Faults) (w : World) → IsQuiet w (run_fts_probe faults w)
unfolding run_fts_probe
run_fts_probe-IsQuiet faults w =
    if_cases (IsQuiet w) (not faults.has_factory || faults.client_fails)
      (count (Sample.fts_probe "failure") w) _ (λ e. (refl, refl))
      (λ e. after_probe-IsQuiet faults w _)

monitor_standby-IsQuiet : (faults : Faults) (w : World) → IsQuiet w (monitor_standby faults w)
unfolding monitor_standby
monitor_standby-IsQuiet faults w =
    if_cases (IsQuiet w) (not faults.has_factory || faults.client_fails) w _ (λ e. (refl, refl))
      (λ e.
        if_cases (IsQuiet w) faults.lag_fails _ _ (λ f. (refl, refl))
          (λ f. patch_status-IsQuiet faults _))

pub run_health_checks-IsQuiet :
    (faults : Faults) (w : World) → IsQuiet w (run_health_checks faults w)
unfolding run_health_checks
run_health_checks-IsQuiet faults w =
    let probed = if w.mirroring then run_fts_probe faults w else w in
    let quiet =
      if_cases (IsQuiet w) w.mirroring (run_fts_probe faults w) w
        (λ e. run_fts_probe-IsQuiet faults w) (λ e. (refl, refl)) in
    if_cases (IsQuiet w) w.standby (monitor_standby faults probed) probed
      (λ e.
        IsQuiet-trans w probed (monitor_standby faults probed) quiet
          (monitor_standby-IsQuiet faults probed))
      (λ e. quiet)

start_rebalance_job-IsQuiet :
    (faults : Faults) (w : World) → IsQuietOutcome w (start_rebalance_job faults w)
unfolding start_rebalance_job
start_rebalance_job-IsQuiet faults w =
    if_cases (IsQuietOutcome w) (not faults.has_job_to_build) _ _
      (λ e. record_failure-IsQuiet faults "RebalanceJobNotBuilt" w)
      (λ e.
        if_cases (IsQuietOutcome w) faults.create_fails _ _
          (λ f. record_failure-IsQuiet faults "RebalanceJobCreateFailed" w)
          (λ f.
            if_cases (IsQuietOutcome w) faults.annotation_patch_fails _ _ (λ g. (refl, refl))
              (λ g. (refl, refl))))

pub rebalance-IsQuiet : (faults : Faults) (w : World) → IsQuietOutcome w (rebalance faults w)
unfolding rebalance
rebalance-IsQuiet faults w =
    let set =
      set_memory faults "DataRedistribution" condition_true "RebalanceStarted" "Rebalance started"
        w in
    let started = patch_status faults set in
    let announced = emit Event.rebalance_started started in
    let completed = set_completed faults announced in
    let first = patch_status-IsQuiet faults set in
    if_cases (IsQuietOutcome w) faults.status_patch_fails (started, Result.failed) _ (λ e. first)
      (λ e.
        if_cases (IsQuietOutcome w) (faults.has_factory && not faults.rebalance_fails)
          (complete_rebalance completed, Result.after_default)
          (start_rebalance_job faults announced)
          (λ f. IsQuiet-trans w started completed first (patch_status-IsQuiet faults _))
          (λ f.
            IsQuiet-trans w started (start_rebalance_job faults announced).0 first
              (start_rebalance_job-IsQuiet faults announced)))
