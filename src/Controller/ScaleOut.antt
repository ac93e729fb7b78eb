-- ===== src/Controller/ScaleOut.antt =====
-- internal/controller/cluster_controller.go: the expanding phase of scale-out, which a Job runs. Its
-- name depends on the cluster and its two counts, so there is at most one.
pub mod Attempts
pub mod Wedge
pub mod Bounds
use cloudberry_k8s.Base.{
  ℕ, zero, suc, ◌+◌, ◌-◌, Bool, true, false, not, ◌&&◌, ◌||◌, Option, none, some, String, str_eq,
  List, [], ◌∷◌, if◌then◌else◌, leb,
}
use cloudberry_k8s.Controller.Types.{
  ClusterPhase, failed, Requeue, no_requeue, after_error, after_stopping, after_immediate,
  after_recovery, after_gpexpand_poll, Result, done, failing, Annotation, absent, malformed, holds,
}
use cloudberry_k8s.Util.Conditions.{Condition, set_condition}

pub data ScaleOutPhase : Type 0 where
  scaling_sts expanding registering redistributing completed : ScaleOutPhase

-- scaleStateData
pub record ScaleOutState : Type 0 where
  pub phase : ScaleOutPhase
  pub old_count : ℕ
  pub new_count : ℕ
  pub phase_started_at : ℕ
  pub has_job_name : Bool
  pub redistribute_attempts : ℕ

-- A gpexpand Job; has_failed is its Failed condition or a count of failed pods.
pub record Job : Type 0 where
  pub succeeded : Bool
  pub has_failed : Bool
  pub terminating : Bool
  pub script_hash : String

pub record ExpandWorld : Type 0 where
  pub phase : ClusterPhase
  pub failed_segments : List ℕ
  pub conditions : List Condition
  pub scale_state : Annotation ScaleOutState
  pub scale_started : Option ℕ
  pub job : Option Job
  -- a history: how often the coordinator's pod was deleted
  pub recoveries : ℕ

-- What one reconcile meets: which calls fail, the Job that the builder builds, and whether the
-- message of the failed Job's pod names the shutdown of the coordinator.
pub record ExpandEnv : Type 0 where
  pub get_fails : Bool
  -- the read of the Job before its creation
  pub second_get_fails : Bool
  pub create_fails : Bool
  pub delete_fails : Bool
  pub annotation_fails : Bool
  pub status_update_fails : Bool
  pub state_removal_fails : Bool
  pub started_removal_fails : Bool
  pub pod_exists : Bool
  pub pod_get_fails : Bool
  pub pod_delete_fails : Bool
  pub built_hash : Option String
  pub is_wedged : Bool

-- maxRedistributeAttempts
abbrev pub max_attempts : ℕ
max_attempts = 5

-- The numbers from `first` on, n of them.
abbrev pub count_up : ℕ → ℕ → List ℕ
count_up first zero = []
count_up first (suc n) = first ∷ count_up (suc first) n

-- `gpexpandJobSuperseded`
unfoldable pub gpexpand_job_superseded : Job → String → Bool
gpexpand_job_superseded existing fresh_hash =
    if existing.has_failed then true else not (str_eq existing.script_hash fresh_hash)

module _ (env : ExpandEnv) (now : ℕ) where
  -- `failScaleOutRedistribution`: the errors of its calls are only logged.
  unfoldable pub fail_scale_out : ScaleOutState → ExpandWorld → ExpandWorld × Result
  fail_scale_out state w =
      let reported = if env.status_update_fails then w else record w {
        phase = failed;
        failed_segments = count_up state.old_count (state.new_count - state.old_count);
        conditions =
            set_condition now "ScaleOutFailed" "True" "RedistributionFailed"
              "Scale-out redistribution failed" w.conditions;
      } in
      (
        record reported {
          scale_state = if env.state_removal_fails then w.scale_state else absent;
          scale_started = if env.started_removal_fails then w.scale_started else none;
        },
        done no_requeue,
      )

  -- `persistScaleState`: the annotation after it.
  abbrev pub persist : ScaleOutState → ExpandWorld → ExpandWorld
  persist state w = if env.annotation_fails then w else record w { scale_state = holds state }

  -- `ensureFreshGpexpandJob` on the Job of that name: the Job after it, and the result if the caller
  -- is to return.
  unfoldable pub ensure_fresh : String → Option Job → Option Job × Option Result
  ensure_fresh hash job =
      if env.second_get_fails then (job, some (done after_error)) else elim job [
        | none ↦ (none, none)
        | some existing ↦
            if existing.terminating
            then (some existing, some (done after_stopping))
            else if not (gpexpand_job_superseded existing hash)
            then (some existing, none)
            else if env.delete_fails
            then (some existing, some (done after_error))
            else (some (record existing { terminating = true }), some (done after_stopping))
      ]

  abbrev pub fresh_job : String → Job
  fresh_job hash = record {
    succeeded = false;
    has_failed = false;
    terminating = false;
    script_hash = hash;
  }

  -- The end of `startGpexpandJob`: create the Job unless there is one, and record its name.
  abbrev create_job : String → ScaleOutState → ExpandWorld → ExpandWorld × Result
  create_job hash state w =
      let named = record state { has_job_name = true } in
      let created = record w {
        job = elim w.job [ none ↦ some (fresh_job hash) | some j ↦ some j ];
      } in
      if env.create_fails
      then (w, done after_error)
      else if env.annotation_fails
      then (created, done after_error)
      else (persist named created, done after_gpexpand_poll)

  abbrev after_ensured : String → ScaleOutState → ExpandWorld → Option Result → ExpandWorld × Result
  after_ensured hash state w none = create_job hash state w
  after_ensured hash state w (some result) = (w, result)

  abbrev start_built : ScaleOutState → ExpandWorld → Option String → ExpandWorld × Result
  start_built state w none = fail_scale_out state w
  start_built state w (some hash) =
      let ensured = ensure_fresh hash w.job in
      after_ensured hash state (record w { job = ensured.0 }) ensured.1

  -- `startGpexpandJob`; without a Job to create, the scale-out fails.
  unfoldable pub start_gpexpand_job : ScaleOutState → ExpandWorld → ExpandWorld × Result
  start_gpexpand_job state w = start_built state w env.built_hash

  -- `advanceScalePhase` to the completed phase
  unfoldable pub advance_scale_phase : ScaleOutState → ExpandWorld → ExpandWorld × Result
  advance_scale_phase state w = if env.annotation_fails then (w, failing no_requeue) else (
    record w { scale_state = holds (record state { phase = completed; phase_started_at = now }) },
    done after_immediate,
  )

  -- `recoverWedgedCoordinator`, for an error that names the shutdown.
  unfoldable pub recover_wedged_coordinator : ExpandWorld → ExpandWorld × Result
  recover_wedged_coordinator w =
      if env.pod_get_fails
      then (w, done after_error)
      else if not env.pod_exists
      then (w, done after_recovery)
      else if env.pod_delete_fails
      then (w, done after_error)
      else (record w { recoveries = w.recoveries + 1 }, done after_recovery)

  -- `handleGpexpandJobFailure`
  unfoldable pub handle_job_failure : ScaleOutState → Job → ExpandWorld → ExpandWorld × Result
  handle_job_failure state job w =
      let counted = record state { redistribute_attempts = state.redistribute_attempts + 1 } in
      let deleted = record w { job = if env.delete_fails then some job else none } in
      if env.is_wedged
      then recover_wedged_coordinator w
      else if leb max_attempts (state.redistribute_attempts + 1)
      then fail_scale_out counted w
      else (persist (record counted { has_job_name = false }) deleted, done after_error)

  -- The part of `processScaleOutExpanding` after the Job was read.
  unfoldable pub observe_job : ScaleOutState → Option Job → ExpandWorld → ExpandWorld × Result
  observe_job state none w = start_gpexpand_job (record state { has_job_name = false }) w
  observe_job state (some job) w =
      if job.succeeded
      then advance_scale_phase state w
      else if job.has_failed
      then handle_job_failure state job w
      else (w, done after_gpexpand_poll)

  -- `processScaleOutExpanding`
  unfoldable pub process_expanding : ScaleOutState → ExpandWorld → ExpandWorld × Result
  process_expanding state w =
      if not state.has_job_name
      then start_gpexpand_job state w
      else if env.get_fails
      then (w, failing after_error)
      else observe_job state w.job w

  -- A reconcile in the expanding phase, if a scale-out is in progress.
  abbrev expand : Annotation ScaleOutState → ExpandWorld → ExpandWorld
  expand (holds state) w = (process_expanding state w).0
  expand _ w = w

  abbrev pub reconcile : ExpandWorld → ExpandWorld
  reconcile w = expand w.scale_state w
