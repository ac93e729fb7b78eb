-- ===== src/Tests/Restart.antt =====
-- Rolling restarts of a small cluster.
use cloudberry_k8s.Base.{true, false, none, some, List, [], ◌∷◌, ◌≡◌, refl, arith}
use cloudberry_k8s.Util.Conditions.{set_condition, is_condition_true, find_condition}
use cloudberry_k8s.Restart.{
  Component, Topology, World, Rollout, Round, trigger_rolling_restart, reconciles, handle_restart,
  finish_phase, skip_phase, complete_rolling_restart, restart_and_update, update_restart_annotation,
}
use cloudberry_k8s.Restart.Completion.{IsCalm, IsRestarted, reconciles-IsRestarted}
use cloudberry_k8s.Restart.Order.{IsInOrder, reconciles-IsInOrder}

-- Mirrors, and no standby.
abbrev mirrored : Topology
mirrored = record { mirroring = true; standby = false }

abbrev idle : World
idle = record { annotation = none; conditions = []; restarts = []; completions = 0; records = [] }

abbrev rolled : Rollout
rolled = record {
  replicas = some 2;
  ready_replicas = 2;
  updated_replicas = 2;
  current_revision = "b";
  update_revision = "b";
}

abbrev calm_round : Round
calm_round = record {
  now = 5;
  rollout = λ c. some rolled;
  set_fails = false;
  remove_fails = false;
  refetch_fails = false;
  restart_fails = false;
  status_fails = false;
}

abbrev waiting_round : Round
waiting_round = record calm_round { rollout = λ c. some (record rolled { updated_replicas = 1 }) }

abbrev calm_rounds : List Round
calm_rounds = waiting_round ∷ calm_round ∷ calm_round ∷ calm_round ∷ calm_round ∷ []

calm_round-IsCalm : IsCalm mirrored calm_round
calm_round-IsCalm = (refl, refl, refl, refl, refl, refl)

waiting_round-IsCalm : IsCalm mirrored waiting_round
waiting_round-IsCalm = (refl, refl, refl, refl, refl, refl)

reconciles-IsRestarted_example : IsRestarted mirrored [] (
    reconciles mirrored calm_rounds
      ((trigger_rolling_restart mirrored calm_round ("shared_buffers" ∷ []) idle).0))
reconciles-IsRestarted_example =
    reconciles-IsRestarted mirrored calm_round calm_rounds ("shared_buffers" ∷ []) idle
      calm_round-IsCalm
      (
        waiting_round-IsCalm,
        (calm_round-IsCalm, (calm_round-IsCalm, (calm_round-IsCalm, (calm_round-IsCalm, tt)))),
      )
      (omega arith)

abbrev failing_round : Round
failing_round = record calm_round { restart_fails = true }

reconciles-IsInOrder_example :
    IsInOrder
      (reconciles mirrored
        (waiting_round ∷ failing_round ∷ calm_rounds)
        ((trigger_rolling_restart mirrored calm_round [] idle).0)).restarts
reconciles-IsInOrder_example =
    reconciles-IsInOrder mirrored calm_round (waiting_round ∷ failing_round ∷ calm_rounds) [] idle
      refl refl

-- The first restart fails: the mirrors are never restarted, and ConfigApplied is true at the end.
abbrev after_lost_restart : World
after_lost_restart =
    reconciles mirrored calm_rounds ((trigger_rolling_restart mirrored failing_round [] idle).0)

first_restart_lost :
    (after_lost_restart.restarts ≡ Component.coordinator_active ∷ Component.segment_primary ∷ [])
    × (is_condition_true after_lost_restart.conditions "ConfigApplied" ≡ true)
unfolding trigger_rolling_restart handle_restart finish_phase restart_and_update
    update_restart_annotation complete_rolling_restart is_condition_true set_condition
    find_condition
first_restart_lost = (refl, refl)

-- A Get fails once: the primaries are never restarted.
abbrev lost_round : Round
lost_round = record calm_round { rollout = λ c. none }

phase_lost :
    (reconciles mirrored
      (lost_round ∷ calm_rounds)
      ((trigger_rolling_restart mirrored calm_round [] idle).0)).restarts
    ≡ Component.coordinator_active ∷ Component.segment_mirror ∷ []
unfolding trigger_rolling_restart handle_restart finish_phase skip_phase restart_and_update
    update_restart_annotation complete_rolling_restart
phase_lost = refl
