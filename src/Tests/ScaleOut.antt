-- ===== src/Tests/ScaleOut.antt =====
-- The expanding phase of scale-out on concrete inputs.
use cloudberry_k8s.Base.{true, false, [], ◌∷◌, some, ◌≡◌, refl, arith}
use cloudberry_k8s.Controller.ScaleOut.{
  ScaleOutState, expanding, Job, ExpandWorld, count_up, reconcile,
}
use cloudberry_k8s.Controller.ScaleOut.Attempts.{calm, rounds, IsGivenUp, rounds-IsGivenUp}
use cloudberry_k8s.Controller.ScaleOut.Bounds.{IsBounded, reconcile-IsBounded}
use cloudberry_k8s.Controller.ScaleOut.Wedge.{tracking}
use cloudberry_k8s.Controller.Types.{scaling, holds}

abbrev state : ScaleOutState
state = record {
  phase = expanding;
  old_count = 4;
  new_count = 6;
  phase_started_at = 100;
  has_job_name = true;
  redistribute_attempts = 0;
}

abbrev job : Job
job = record { succeeded = false; has_failed = true; terminating = false; script_hash = "abc" }

abbrev cluster : ExpandWorld
cluster = record {
  phase = scaling;
  failed_segments = [];
  conditions = [];
  scale_state = holds state;
  scale_started = some 100;
  job = some job;
  recoveries = 0;
}

rounds-IsGivenUp_example :
    IsGivenUp 4 6 (reconcile (calm "abc") 200 (rounds "abc" 200 4 (tracking state job cluster)))
    × ((rounds "abc" 200 4 (tracking state job cluster)).phase ≡ scaling)
rounds-IsGivenUp_example = rounds-IsGivenUp "abc" 200 state job cluster

new_segments : count_up 4 2 ≡ 4 ∷ 5 ∷ []
new_segments = refl

reconcile-IsBounded_example : IsBounded (reconcile (calm "abc") 200 cluster).scale_state
unfolding IsBounded
reconcile-IsBounded_example = reconcile-IsBounded (calm "abc") 200 cluster (omega arith)
