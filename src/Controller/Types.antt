-- ===== src/Controller/Types.antt =====
-- api/v1alpha1/types.go and internal/controller: what the reconciler reads and writes. An object is
-- the copy that the API server holds; a write that the server refuses leaves it as it was.
use cloudberry_k8s.Base.{ℕ, ◌*◌, Bool, true, false, Option, List, String}

pub data ClusterPhase : Type 0 where
  pending initializing running updating scaling failed : ClusterPhase
  deleting stopped stopping restricted maintenance : ClusterPhase

pub record StatefulSet : Type 0 where
  pub replicas : Option ℕ
  -- the images of its containers
  pub images : List String
  pub status_replicas : ℕ
  pub ready_replicas : ℕ
  pub updated_replicas : ℕ

-- When the reconciler asks to be called again.
pub data Requeue : Type 0 where
  no_requeue after_default after_error after_stopping after_immediate : Requeue
  after_recovery after_gpexpand_poll : Requeue

-- ctrl.Result with the error of the call.
pub record Result : Type 0 where
  pub requeue : Requeue
  pub is_error : Bool

-- What an annotation holds: JSON that does not parse, or a state.
pub data Annotation (S : Type 0) : Type 0 where
  absent malformed : Annotation S
  holds : S → Annotation S

abbrev pub minute : ℕ
minute = 60

-- scaleTimeout and upgradePhaseTimeout, in seconds.
abbrev pub scale_timeout : ℕ
scale_timeout = 10 * minute

abbrev pub upgrade_phase_timeout : ℕ
upgrade_phase_timeout = 10 * minute

abbrev pub done : Requeue → Result
done r = record { requeue = r; is_error = false }

abbrev pub failing : Requeue → Result
failing r = record { requeue = r; is_error = true }

abbrev pub is_running : ClusterPhase → Bool
is_running running = true
is_running _ = false
