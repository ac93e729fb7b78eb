-- ===== src/Controller/ScaleIn/Order.antt =====
-- internal/controller/cluster_controller.go: in which order the steps of a scale-in happen.
pub mod Steps
pub mod Runs
use mathlib.Core.List.{Memᴰ}
use cloudberry_k8s.Base.{
  ℕ, Bool, true, false, not, ◌&&◌, Option, List, [], ◌∷◌, if◌then◌else◌, if_cases, ltb, ◌≡◌, refl,
  arith, Bool-cases, inl, inr, ◌*◌,
}
use cloudberry_k8s.Controller.ScaleIn.{
  ScaleInPhase, redistributing, deregistering, scaling_mirrors, scaling_primaries, cleanup,
  completed, unknown_phase, ScaleInState, Effect, redistributed, deregistered, mirrors_scaled,
  primaries_scaled, pvcs_removed, finished, ScaleWorld, Faults, log_effect, advance_scale_in_phase,
  complete_scale_operation, process_completed, process_redistributing, process_deregistering,
  process_scaling_mirrors, process_scaling_primaries, process_cleanup, dispatch,
  check_scale_in_phases, reconcile, handle_scale_in, mark_redistributed,
}
use cloudberry_k8s.Controller.Sts.{scale_stateful_set, is_stateful_set_at_scale}
use cloudberry_k8s.Controller.Types.{
  is_running, ClusterPhase, StatefulSet, Result, Annotation, absent, malformed, holds,
}

-- A history, newest first, in which segments leave the catalog only after their data was moved, and
-- pods are scaled down only after their segments left the catalog.
pub IsOrdered : List Effect → Type 0
IsOrdered [] = Unit
IsOrdered (deregistered n ∷ l) = Memᴰ (redistributed n) l × IsOrdered l
IsOrdered (mirrors_scaled n ∷ l) = Memᴰ (deregistered n) l × IsOrdered l
IsOrdered (primaries_scaled n ∷ l) = Memᴰ (deregistered n) l × IsOrdered l
IsOrdered (redistributed n ∷ l) = IsOrdered l
IsOrdered (pvcs_removed n ∷ l) = IsOrdered l
IsOrdered (finished ∷ l) = IsOrdered l

-- What the phase that is stored says of the past.
pub IsDue : ScaleInPhase → ℕ → List Effect → Type 0
IsDue deregistering n l = Memᴰ (redistributed n) l
IsDue scaling_mirrors n l = Memᴰ (deregistered n) l
IsDue scaling_primaries n l = Memᴰ (deregistered n) l
IsDue _ n l = Unit

pub IsStored : Annotation ScaleInState → List Effect → Type 0
IsStored (holds state) l = IsDue state.phase state.new_count l
IsStored _ l = Unit

pub IsConsistent : ScaleWorld → Type 0
IsConsistent w = IsOrdered w.log × IsStored w.scale_in_state w.log

pub IsDue-mono :
    (phase : ScaleInPhase) (n : ℕ) (e : Effect) (l : List Effect)
    → IsDue phase n l
    → IsDue phase n (e ∷ l)
unfolding IsDue
IsDue-mono deregistering n e l d = Memᴰ.tail d
IsDue-mono scaling_mirrors n e l d = Memᴰ.tail d
IsDue-mono scaling_primaries n e l d = Memᴰ.tail d
IsDue-mono redistributing n e l d = d
IsDue-mono cleanup n e l d = d
IsDue-mono completed n e l d = d
IsDue-mono unknown_phase n e l d = d

pub IsStored-mono :
    (a : Annotation ScaleInState) (e : Effect) (l : List Effect) → IsStored a l → IsStored a (e ∷ l)
unfolding IsStored
IsStored-mono (holds state) e l d = IsDue-mono state.phase state.new_count e l d
IsStored-mono absent e l d = d
IsStored-mono malformed e l d = d

pub consistent :
    (w : ScaleWorld) → IsOrdered w.log → IsStored w.scale_in_state w.log → IsConsistent w
unfolding IsConsistent
consistent w o d = (o, d)

pub ordered : (w : ScaleWorld) → IsConsistent w → IsOrdered w.log
unfolding IsConsistent
ordered w c = c.0

pub stored : (w : ScaleWorld) → IsConsistent w → IsStored w.scale_in_state w.log
unfolding IsConsistent
stored w c = c.1

abbrev pub AfterIsConsistent : {B : Type 0} → ScaleWorld × B → Type 0
AfterIsConsistent r = IsConsistent r.0

-- An effect on which no order is imposed.
pub log-IsConsistent :
    (e : Effect) (w : ScaleWorld)
    → IsOrdered (e ∷ w.log)
    → IsConsistent w
    → IsConsistent (log_effect e w)
unfolding IsConsistent
log-IsConsistent e w o c = (o, IsStored-mono w.scale_in_state e w.log c.1)
