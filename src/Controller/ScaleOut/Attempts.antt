-- ===== src/Controller/ScaleOut/Attempts.antt =====
-- internal/controller/cluster_controller.go: scale-out with Jobs that fail.
use cloudberry_k8s.Base.{ℕ, zero, suc, ◌-◌, true, false, Option, none, some, String, ◌≡◌, refl}
use cloudberry_k8s.Controller.ScaleOut.{
  ScaleOutState, Job, ExpandWorld, ExpandEnv, handle_job_failure, fail_scale_out, count_up,
  start_gpexpand_job, ensure_fresh, observe_job, process_expanding, reconcile,
}
use cloudberry_k8s.Controller.ScaleOut.Wedge.{wedged, tracking}
use cloudberry_k8s.Controller.Types.{failed, absent}

-- All calls succeed, and the coordinator is not wedged.
abbrev pub calm : String → ExpandEnv
calm hash = record (wedged hash) { is_wedged = false }

-- What the cluster does between the reconciles: the Job fails, if there is one.
abbrev fail_job : Option Job → Option Job
fail_job none = none
fail_job (some job) = some (record job { succeeded = false; has_failed = true })

-- One Job: its failure is handled, the next one is created, and it fails too.
abbrev round : String → ℕ → ExpandWorld → ExpandWorld
round hash now w =
    let started = reconcile (calm hash) now (reconcile (calm hash) now w) in
    record started { job = fail_job started.job }

abbrev pub rounds : String → ℕ → ℕ → ExpandWorld → ExpandWorld
rounds hash now zero w = w
rounds hash now (suc n) w = rounds hash now n (round hash now w)

-- What a scale-out from old to new segments leaves when it is given up.
pub record IsGivenUp (old new : ℕ) (w : ExpandWorld) : Type 0 where
  pub has_failed : w.phase ≡ failed
  pub segments : w.failed_segments ≡ count_up old (new - old)
  pub no_state : w.scale_state ≡ absent
  pub no_start : w.scale_started ≡ none

-- If all other calls succeed, a scale-out whose first Job and the next four fail, none by a shutdown
-- of the coordinator, is given up at the fifth failure, and not before it: the cluster is Failed
-- with exactly the new segments listed, and the annotations are gone.
pub rounds-IsGivenUp :
    (hash : String) (now : ℕ) (state : ScaleOutState) (job : Job) (w : ExpandWorld)
    → IsGivenUp state.old_count state.new_count (
        reconcile
          (calm hash)
          now
          (rounds hash now 4 (tracking (record state { redistribute_attempts = 0 }) job w)))
      × ((rounds hash now 4 (tracking (record state { redistribute_attempts = 0 }) job w)).phase
          ≡ w.phase)
unfolding process_expanding observe_job handle_job_failure fail_scale_out start_gpexpand_job
    ensure_fresh
rounds-IsGivenUp hash now state job w =
    (record { has_failed = refl; segments = refl; no_state = refl; no_start = refl }, refl)
