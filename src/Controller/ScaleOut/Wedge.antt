-- ===== src/Controller/ScaleOut/Wedge.antt =====
-- internal/controller/cluster_controller.go: a failed Job that names a shutdown of the coordinator.
use cloudberry_k8s.Base.{ℕ, zero, suc, true, false, some, String}
use cloudberry_k8s.Controller.Types.{holds}
use cloudberry_k8s.Controller.ScaleOut.{ScaleOutState, Job, ExpandWorld, ExpandEnv, reconcile}

-- All calls succeed and the pod of the coordinator is there; the message of the pod of the failed Job names the shutdown.
abbrev pub wedged : String → ExpandEnv
wedged hash = record {
  get_fails = false;
  second_get_fails = false;
  create_fails = false;
  delete_fails = false;
  annotation_fails = false;
  status_update_fails = false;
  state_removal_fails = false;
  started_removal_fails = false;
  pod_exists = true;
  pod_get_fails = false;
  pod_delete_fails = false;
  built_hash = some hash;
  is_wedged = true;
}

abbrev pub reconciles : String → ℕ → ℕ → ExpandWorld → ExpandWorld
reconciles hash now zero w = w
reconciles hash now (suc n) w = reconciles hash now n (reconcile (wedged hash) now w)

-- A scale-out that tracks a failed Job.
abbrev pub tracking : ScaleOutState → Job → ExpandWorld → ExpandWorld
tracking state job w = record w {
  scale_state = holds (record state { has_job_name = true });
  job = some (record job { succeeded = false; has_failed = true });
}
