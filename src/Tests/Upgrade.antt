-- ===== src/Tests/Upgrade.antt =====
-- Rolling upgrades on concrete inputs.
use cloudberry_k8s.Base.{◌<◌, true, false, [], ◌∷◌, some, ◌≡◌, refl, arith}
use cloudberry_k8s.Controller.Sts.{is_stateful_set_ready}
use cloudberry_k8s.Controller.Types.{StatefulSet, updating, holds}
use cloudberry_k8s.Controller.Upgrade.{
  primaries, rolling, UpgradeState, UpgradeWorld, update_image, upgrade_phase,
  advance_upgrade_phase, continue_upgrade, get_current_image,
}
use cloudberry_k8s.Controller.Upgrade.Gate.{IsPassed, continue_upgrade-gate, rank_of}
use cloudberry_k8s.Controller.Upgrade.Rollback.{no_fault}

-- Three replicas of the old image, ready and, for the revision that the controller has seen,
-- updated.
abbrev old : StatefulSet
old = record {
  replicas = some 3;
  images = "cloudberry:2.0" ∷ "pxf:1.0" ∷ [];
  status_replicas = 3;
  ready_replicas = 3;
  updated_replicas = 3;
}

abbrev state : UpgradeState
state = record {
  previous_image = "cloudberry:2.0";
  previous_version = "2.0";
  phase = rolling primaries;
  phase_started_at = some 1000;
}

abbrev cluster : UpgradeWorld
cluster = record {
  image = "cloudberry:2.1";
  version = "2.1";
  mirroring = true;
  has_standby = false;
  phase = updating;
  cluster_version = "2.0";
  conditions = [];
  upgrade = holds state;
  sets = λ c. some old;
}

-- The status is the one from before the update of the image, and the phase ends at once.
ends_at_once : rank_of (continue_upgrade no_fault 1100 600 (holds state) cluster).0.upgrade ≡ 3
unfolding continue_upgrade upgrade_phase advance_upgrade_phase update_image is_stateful_set_ready
ends_at_once = refl

-- The image of every container changes, that of a sidecar too.
sidecar_replaced :
    (update_image false false "cloudberry:2.1" (some old)).0
    ≡ some (record old { images = "cloudberry:2.1" ∷ "cloudberry:2.1" ∷ [] })
unfolding update_image
sidecar_replaced = refl

-- Where the coordinator cannot be read, the image to go back to is the new one.
lost_previous_image : get_current_image true "cloudberry:2.1" (some old) ≡ "cloudberry:2.1"
unfolding get_current_image
lost_previous_image = refl

moved : 2 < rank_of (continue_upgrade no_fault 1100 600 (holds state) cluster).0.upgrade
unfolding continue_upgrade upgrade_phase advance_upgrade_phase update_image is_stateful_set_ready
moved = omega arith

continue_upgrade-gate_example :
    IsPassed no_fault 1100 600 primaries cluster
      (continue_upgrade no_fault 1100 600 (holds state) cluster).0.sets
continue_upgrade-gate_example =
    continue_upgrade-gate no_fault 1100 600 state primaries cluster refl refl moved
