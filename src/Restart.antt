-- ===== src/Restart.antt =====
-- internal/controller/admin_controller.go: the rolling restart after a change of the configuration.
pub mod Completion
pub mod Order
use cloudberry_k8s.Base.{
  ℕ, Bool, true, false, not, ◌&&◌, ◌||◌, Option, none, some, List, [], ◌∷◌, String, str_eq,
  if◌then◌else◌, ◌==◌, ◌+◌,
}
use cloudberry_k8s.Util.Conditions.{Condition, condition_true, set_condition}

-- Each other text of a phase is treated like the last, which ends the restart.
pub data RestartPhase : Type 0 where
  mirrors : RestartPhase
  primaries : RestartPhase
  standby : RestartPhase
  coordinator : RestartPhase
  completed : RestartPhase

-- The StatefulSets of a cluster; none has an empty name.
pub data Component : Type 0 where
  segment_mirror : Component
  segment_primary : Component
  coordinator_standby : Component
  coordinator_active : Component

pub record RollingRestartState : Type 0 where
  pub phase : RestartPhase
  pub started_at : ℕ
  pub restart_params : List String

-- What the annotation holds, where it is there.
pub data Annotation : Type 0 where
  malformed : Annotation
  valid : RollingRestartState → Annotation

-- What the spec says of a cluster.
pub record Topology : Type 0 where
  pub mirroring : Bool
  pub standby : Bool

-- What the API server stores, and what was done: the latest restart and record first.
pub record World : Type 0 where
  pub annotation : Option Annotation
  pub conditions : List Condition
  pub restarts : List Component
  pub completions : ℕ
  pub records : List String

-- The part of a StatefulSet that `isStatefulSetRolled` reads.
pub record Rollout : Type 0 where
  pub replicas : Option ℕ
  pub ready_replicas : ℕ
  pub updated_replicas : ℕ
  pub current_revision : String
  pub update_revision : String

-- How the calls of one reconcile answer: a Get of a StatefulSet, which may fail, the patches, and the
-- fetch of the cluster after the annotation was removed.
pub record Round : Type 0 where
  pub now : ℕ
  pub rollout : Component → Option Rollout
  pub set_fails : Bool
  pub remove_fails : Bool
  pub refetch_fails : Bool
  pub restart_fails : Bool
  pub status_fails : Bool

pub data Result : Type 0 where
  after_short : Result
  after_default : Result
  failed : Result

abbrev pub Outcome : Type 0
Outcome = World × Result

abbrev has_replicas : Option ℕ → Rollout → Bool
has_replicas none s = false
has_replicas (some desired) s =
    s.ready_replicas == desired
    && s.updated_replicas == desired
    && str_eq s.current_revision s.update_revision

-- `isStatefulSetRolled`; none is an error.
abbrev pub is_stateful_set_rolled : Option Rollout → Option Bool
is_stateful_set_rolled none = none
is_stateful_set_rolled (some s) = some (has_replicas s.replicas s)

abbrev pub stateful_set_name_for_phase : Topology → RestartPhase → Option Component
stateful_set_name_for_phase t RestartPhase.mirrors =
    if t.mirroring then some segment_mirror else none
stateful_set_name_for_phase t RestartPhase.primaries = some segment_primary
stateful_set_name_for_phase t RestartPhase.standby =
    if t.standby then some coordinator_standby else none
stateful_set_name_for_phase t RestartPhase.coordinator = some coordinator_active
stateful_set_name_for_phase t RestartPhase.completed = none

abbrev pub or_next : Option Component → RestartPhase → RestartPhase → RestartPhase
or_next none next later = later
or_next (some c) next later = next

-- The loop with its recursive calls, for each phase.
abbrev pub next_restart_phase : Topology → RestartPhase → RestartPhase
next_restart_phase t RestartPhase.completed = completed
next_restart_phase t RestartPhase.coordinator = completed
next_restart_phase t RestartPhase.standby =
    or_next (stateful_set_name_for_phase t coordinator) coordinator completed
next_restart_phase t RestartPhase.primaries =
    or_next (stateful_set_name_for_phase t standby) standby
      (or_next (stateful_set_name_for_phase t coordinator) coordinator completed)
next_restart_phase t RestartPhase.mirrors =
    or_next (stateful_set_name_for_phase t primaries) primaries (
      or_next (stateful_set_name_for_phase t standby) standby
        (or_next (stateful_set_name_for_phase t coordinator) coordinator completed))

unfoldable pub update_restart_annotation : Round → RollingRestartState → World → Outcome
update_restart_annotation r state w =
    if r.set_fails then (w, failed) else (record w { annotation = some (valid state) }, after_short)

abbrev pub config_applied : String
config_applied = "ConfigApplied"

-- The annotation is removed first, so a status that is not written, or not reached as the cluster is
-- not fetched again, is lost.
unfoldable pub complete_rolling_restart : Round → World → Outcome
complete_rolling_restart r w =
    if r.remove_fails
    then (w, failed)
    else if r.refetch_fails || r.status_fails
    then (record w { annotation = none }, failed)
    else (
      record w {
        annotation = none;
        conditions =
            set_condition r.now config_applied condition_true "ConfigAppliedAfterRestart"
              "Configuration applied after rolling restart of parameters" w.conditions;
        completions = w.completions + 1;
        records = "completed" ∷ w.records;
      },
      after_default,
    )

-- `restartStatefulSet` on the StatefulSet of a phase, then the annotation.
unfoldable pub restart_and_update : Round → RollingRestartState → Option Component → World → Outcome
restart_and_update r state none w = update_restart_annotation r state w
restart_and_update r state (some c) w =
    if r.restart_fails
    then (record w { records = "failed" ∷ w.records }, failed)
    else update_restart_annotation r state (record w { restarts = c ∷ w.restarts })

abbrev pub is_completed : RestartPhase → Bool
is_completed RestartPhase.completed = true
is_completed RestartPhase.mirrors = false
is_completed RestartPhase.primaries = false
is_completed RestartPhase.standby = false
is_completed RestartPhase.coordinator = false

-- The phase has no StatefulSet: the next one begins without a restart of its own.
unfoldable pub skip_phase : Topology → Round → RollingRestartState → World → Outcome
skip_phase t r state w =
    let next = next_restart_phase t state.phase in
    if is_completed next
    then complete_rolling_restart r w
    else update_restart_annotation r (record state { phase = next }) w

unfoldable pub finish_phase : Topology → Round → RollingRestartState → World → Outcome
finish_phase t r state w =
    let next = next_restart_phase t state.phase in
    if is_completed next
    then complete_rolling_restart r w
    else restart_and_update r (record state { phase = next }) (stateful_set_name_for_phase t next) w

abbrev pub after_check : Topology → Round → RollingRestartState → World → Option Bool → Outcome
after_check t r state w none = skip_phase t r state w
after_check t r state w (some true) = finish_phase t r state w
after_check t r state w (some false) = (w, after_short)

abbrev pub continue_phase :
    Topology → Round → RollingRestartState → World → Option Component → Outcome
continue_phase t r state w none = skip_phase t r state w
continue_phase t r state w (some c) = after_check t r state w (is_stateful_set_rolled (r.rollout c))

abbrev pub continue_rolling_restart : Topology → Round → World → Annotation → Outcome
continue_rolling_restart t r w malformed =
    if r.remove_fails
    then (w, failed)
    else (record w { annotation = none }, if r.refetch_fails then failed else after_short)
continue_rolling_restart t r w (valid state) =
    continue_phase t r state w (stateful_set_name_for_phase t state.phase)

-- `handleAdminEarlyReturns`, where the restart goes on in each reconcile; without the annotation
-- the rest of the reconcile is left out.
abbrev pub with_annotation : Topology → Round → World → Option Annotation → Outcome
with_annotation t r w none = (w, after_default)
with_annotation t r w (some a) = continue_rolling_restart t r w a

unfoldable pub handle_restart : Topology → Round → World → Outcome
handle_restart t r w = with_annotation t r w w.annotation

abbrev pub start_phase : Topology → RestartPhase
start_phase t = if t.mirroring then mirrors else primaries

-- The first restart, whose failure is only logged.
abbrev pub restart_first : Bool → Option Component → World → World
restart_first fails none w = w
restart_first true (some c) w = w
restart_first false (some c) w = record w { restarts = c ∷ w.restarts }

-- `triggerRollingRestart`: whether it reports an error is the second part.
unfoldable pub trigger_rolling_restart : Topology → Round → List String → World → World × Bool
trigger_rolling_restart t r params w =
    let state : RollingRestartState = record {
      phase = start_phase t;
      started_at = r.now;
      restart_params = params;
    } in
    if r.set_fails then (w, true) else (
      restart_first r.restart_fails (stateful_set_name_for_phase t (start_phase t))
          (record w { annotation = some (valid state); records = "started" ∷ w.records }),
      false,
    )

abbrev pub reconciles : Topology → List Round → World → World
reconciles t [] w = w
reconciles t (r ∷ rounds) w = reconciles t rounds ((handle_restart t r w).0)
