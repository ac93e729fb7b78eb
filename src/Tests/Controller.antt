-- ===== src/Tests/Controller.antt =====
-- The cluster controller on concrete inputs.
use cloudberry_k8s.Base.{true, false, [], ◌∷◌, none, some, ◌≡◌, refl}
use cloudberry_k8s.Controller.ScaleIn.{
  ScaleWorld, Faults, reconcile, handle_scale_in, check_scale_in_phases, dispatch,
  process_redistributing, process_deregistering, process_scaling_mirrors, process_scaling_primaries,
  process_cleanup, process_completed, complete_scale_operation, advance_scale_in_phase,
  deregistered, redistributed,
}
use cloudberry_k8s.Controller.Sts.{scale_stateful_set, is_stateful_set_at_scale}
use cloudberry_k8s.Controller.ScaleIn.Completion.{all_works, reconciles}
use cloudberry_k8s.Controller.ScaleIn.Order.{IsOrdered}
use cloudberry_k8s.Controller.ScaleIn.Order.Runs.{
  Run, fresh, reconciled, requested, scale_in-IsOrdered,
}
use cloudberry_k8s.Controller.Types.{StatefulSet, running, absent}

abbrev segments : StatefulSet
segments = record {
  replicas = some 4;
  images = "cloudberry:2.0" ∷ [];
  status_replicas = 4;
  ready_replicas = 4;
  updated_replicas = 4;
}

abbrev cluster : ScaleWorld
cluster = record {
  count = 2;
  mirroring = true;
  delete_policy = true;
  has_database = true;
  phase = running;
  segments_ready = 4;
  segments_total = 4;
  conditions = [];
  scale_in_state = absent;
  scale_started = none;
  confirm_scale_in = false;
  mirrors = some segments;
  primaries = some segments;
  log = [];
}

-- The first redistribution fails; the second reconcile succeeds.
abbrev broken : Faults
broken = record all_works { redistribute_fails = true }

abbrev asked : ScaleWorld
asked = (handle_scale_in all_works 100 4 2 cluster).0

abbrev retried : ScaleWorld
retried = reconcile broken 150 asked

retried-has_database : retried.has_database ≡ true
unfolding handle_scale_in check_scale_in_phases dispatch process_redistributing
retried-has_database = refl

asked-Run : Run asked
asked-Run = requested all_works 100 4 2 (fresh {w = cluster} refl refl)

retried-Run : Run retried
unfolding handle_scale_in
retried-Run = reconciled {w = asked} broken 150 refl asked-Run

scale_in-IsOrdered_example : IsOrdered (reconcile all_works 200 retried).log
scale_in-IsOrdered_example =
    scale_in-IsOrdered (reconciled {w = retried} all_works 200 retried-has_database retried-Run)

scale_in-log :
    (reconcile all_works 300 (reconcile all_works 200 retried)).log
    ≡ deregistered 2 ∷ redistributed 2 ∷ []
unfolding handle_scale_in check_scale_in_phases dispatch process_redistributing
    process_deregistering advance_scale_in_phase
scale_in-log = refl

-- The pods of the removed segments still run after the scale-in is finished.
pods_remain : (reconciles 300 6 asked).primaries ≡ some (record segments { replicas = some 2 })
unfolding handle_scale_in check_scale_in_phases dispatch process_redistributing
    process_deregistering process_scaling_mirrors process_scaling_primaries process_cleanup
    process_completed complete_scale_operation advance_scale_in_phase scale_stateful_set
    is_stateful_set_at_scale
pods_remain = refl
