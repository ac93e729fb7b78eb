-- ===== src/Controller/ScaleIn.antt =====
-- internal/controller/cluster_controller.go: scale-in, phase by phase. One call of the handler is
-- one reconcile; which of its calls to the API server and the database fail is an argument.
pub mod Order
pub mod Completion
use cloudberry_k8s.Base.{
  ℕ, ◌+◌, ◌*◌, Bool, true, false, not, ◌&&◌, ◌||◌, Option, none, some, String, List, [], ◌∷◌,
  if◌then◌else◌, ltb,
}
use cloudberry_k8s.Controller.Sts.{StsFaults, scale_stateful_set, is_stateful_set_at_scale}
use cloudberry_k8s.Controller.Types.{
  done, failing, is_running, ClusterPhase, running, scaling, StatefulSet, Requeue, no_requeue,
  after_error, after_stopping, after_immediate, Result, Annotation, absent, malformed, holds,
}
use cloudberry_k8s.Util.Conditions.{Condition, set_condition}

pub data ScaleInPhase : Type 0 where
  redistributing deregistering scaling_mirrors scaling_primaries : ScaleInPhase
  cleanup completed unknown_phase : ScaleInPhase

-- scaleInStateData; times are in seconds.
pub record ScaleInState : Type 0 where
  pub phase : ScaleInPhase
  pub old_count : ℕ
  pub new_count : ℕ
  pub started_at : ℕ
  pub phase_started_at : ℕ

-- What the operation has done so far: calls that succeeded, in order.
pub data Effect : Type 0 where
  redistributed deregistered : ℕ → Effect
  mirrors_scaled primaries_scaled pvcs_removed : ℕ → Effect
  finished : Effect

pub record ScaleWorld : Type 0 where
  -- spec
  pub count : ℕ
  pub mirroring : Bool
  pub delete_policy : Bool
  -- is a database client factory configured?
  pub has_database : Bool
  -- status
  pub phase : ClusterPhase
  pub segments_ready : ℕ
  pub segments_total : ℕ
  pub conditions : List Condition
  -- annotations
  pub scale_in_state : Annotation ScaleInState
  pub scale_started : Option ℕ
  pub confirm_scale_in : Bool
  -- other objects
  pub mirrors : Option StatefulSet
  pub primaries : Option StatefulSet
  -- a history, newest first, which the operator does not keep
  pub log : List Effect

-- Which calls of one reconcile fail.
pub record Faults : Type 0 where
  pub redistribute_fails : Bool
  pub deregister_fails : Bool
  pub mirror_sts : StsFaults
  pub primary_sts : StsFaults
  pub status_patch_fails : Bool
  pub status_update_fails : Bool
  pub started_patch_fails : Bool
  pub annotation_fails : Bool
  pub started_removal_fails : Bool
  pub confirm_removal_fails : Bool
  pub state_removal_fails : Bool

abbrev pub log_effect : Effect → ScaleWorld → ScaleWorld
log_effect e w = record w { log = e ∷ w.log }

module _ (faults : Faults) (now : ℕ) where
  -- `advanceScaleInPhase`: on an error of the patch the old state stays.
  unfoldable pub advance_scale_in_phase :
      ScaleInState → ScaleInPhase → ScaleWorld → ScaleWorld × Result
  advance_scale_in_phase state next w =
      if faults.annotation_fails then (w, failing no_requeue) else (
        record w { scale_in_state = holds (record state { phase = next; phase_started_at = now }) },
        done after_immediate,
      )

  -- `completeScaleOperation` with `finaliseScaleIn` and `cleanupScaleAnnotations`.
  unfoldable pub complete_scale_operation : ScaleWorld → ScaleWorld × Result
  complete_scale_operation w =
      let is_scale_in = ltb w.count w.segments_total in
      let purged =
        if is_scale_in && w.delete_policy then log_effect (pvcs_removed w.count) w else w in
      if faults.status_update_fails then (purged, failing no_requeue) else (
        record (log_effect finished purged) {
          phase = running;
          segments_ready = w.count;
          segments_total = w.count;
          conditions =
              set_condition now "DataRedistribution" "True" "Completed"
                "Data redistribution completed" w.conditions;
          scale_started = if faults.started_removal_fails then w.scale_started else none;
          confirm_scale_in =
              if is_scale_in && not faults.confirm_removal_fails then false else w.confirm_scale_in;
          scale_in_state = if faults.state_removal_fails then w.scale_in_state else absent;
        },
        done after_immediate,
      )

  -- `processScaleInCompleted`: a failed removal of the annotation is only logged.
  unfoldable pub process_completed : ScaleWorld → ScaleWorld × Result
  process_completed w =
      complete_scale_operation
        (if faults.annotation_fails then w else record w { scale_in_state = absent })

  -- The end of `redistributeBeforeScaleIn`; without a factory it does nothing.
  abbrev pub mark_redistributed : ScaleInState → ScaleWorld → ScaleWorld
  mark_redistributed state w =
      let w' = log_effect (redistributed state.new_count) w in
      if not w.has_database then w else if faults.status_patch_fails then w' else record w' {
        conditions =
            set_condition now "DataRedistribution" "True" "ScaleInRedistributed"
              "Data redistributed off segments being removed" w.conditions;
      }

  unfoldable pub process_redistributing : ScaleInState → ScaleWorld → ScaleWorld × Result
  process_redistributing state w =
      if w.has_database && faults.redistribute_fails
      then (w, done after_error)
      else advance_scale_in_phase state deregistering (mark_redistributed state w)

  unfoldable pub process_deregistering : ScaleInState → ScaleWorld → ScaleWorld × Result
  process_deregistering state w =
      if w.has_database && faults.deregister_fails
      then (w, done after_error)
      else advance_scale_in_phase state (if w.mirroring then scaling_mirrors else scaling_primaries)
          (if w.has_database then log_effect (deregistered state.new_count) w else w)

  -- `processScaleInScalingMirrors`
  unfoldable pub process_scaling_mirrors : ScaleInState → ScaleWorld → ScaleWorld × Result
  process_scaling_mirrors state w =
      let scaled = scale_stateful_set faults.mirror_sts state.new_count w.mirrors in
      let w' = log_effect (mirrors_scaled state.new_count) (record w { mirrors = scaled.0 }) in
      if scaled.1
      then (w, failing after_error)
      else if not
          (is_stateful_set_at_scale faults.mirror_sts.check_fails state.new_count w'.mirrors)
      then (w', done after_stopping)
      else advance_scale_in_phase state scaling_primaries w'

  -- `processScaleInScalingPrimaries`
  unfoldable pub process_scaling_primaries : ScaleInState → ScaleWorld → ScaleWorld × Result
  process_scaling_primaries state w =
      let scaled = scale_stateful_set faults.primary_sts state.new_count w.primaries in
      let w' = log_effect (primaries_scaled state.new_count) (record w { primaries = scaled.0 }) in
      if scaled.1
      then (w, failing after_error)
      else if not
          (is_stateful_set_at_scale faults.primary_sts.check_fails state.new_count w'.primaries)
      then (w', done after_stopping)
      else advance_scale_in_phase state cleanup w'

  unfoldable pub process_cleanup : ScaleInState → ScaleWorld → ScaleWorld × Result
  process_cleanup state w =
      advance_scale_in_phase state completed
        (if w.delete_policy then log_effect (pvcs_removed state.new_count) w else w)

  unfoldable pub dispatch : ScaleInPhase → ScaleInState → ScaleWorld → ScaleWorld × Result
  dispatch redistributing state w = process_redistributing state w
  dispatch deregistering state w = process_deregistering state w
  dispatch scaling_mirrors state w = process_scaling_mirrors state w
  dispatch scaling_primaries state w = process_scaling_primaries state w
  dispatch cleanup state w = process_cleanup state w
  dispatch completed state w = process_completed w
  dispatch unknown_phase state w = process_completed w

  -- `allSegmentStatefulSetsReady`
  unfoldable pub all_segments_ready : ScaleWorld → Bool
  all_segments_ready w =
      is_stateful_set_at_scale faults.primary_sts.check_fails w.count w.primaries
      && (not w.mirroring
          || is_stateful_set_at_scale faults.mirror_sts.check_fails w.count w.mirrors)

  -- `checkScaleInPhases`; a state that does not parse falls back to the simple check.
  unfoldable pub check_scale_in_phases : Annotation ScaleInState → ScaleWorld → ScaleWorld × Result
  check_scale_in_phases (holds state) w = dispatch state.phase state w
  check_scale_in_phases _ w =
      if all_segments_ready w then complete_scale_operation w else (w, done after_stopping)

  -- One reconcile of a cluster with a scale-in state.
  abbrev pub reconcile : ScaleWorld → ScaleWorld
  reconcile w = (check_scale_in_phases w.scale_in_state w).0

  -- `handleScaleIn`: the new state goes into the annotation before the phase becomes Scaling.
  unfoldable pub handle_scale_in : ℕ → ℕ → ScaleWorld → ScaleWorld × Bool
  handle_scale_in old new w =
      let started = record w { scale_started = some now } in
      let stored = record started {
        scale_in_state = holds (record {
          phase = redistributing;
          old_count = old;
          new_count = new;
          started_at = now;
          phase_started_at = now;
        });
      } in
      if not (is_running w.phase)
      then (w, false)
      else if ltb (2 * new) old && not w.confirm_scale_in
      then (w, false)
      else if faults.started_patch_fails
      then (w, true)
      else if faults.annotation_fails
      then (started, true)
      else if faults.status_update_fails
      then (stored, true)
      else (
        record stored {
          phase = scaling;
          conditions =
              set_condition now "DataRedistribution" "True" "ScaleInRedistributing"
                "Redistributing data off segments" w.conditions;
        },
        false,
      )
