-- ===== src/Controller/Upgrade/Completion.antt =====
-- internal/controller/cluster_controller.go: upgrades without failing calls.
use cloudberry_k8s.Base.{ℕ, zero, suc, true, false, some, if◌then◌else◌, ◌≡◌}
use cloudberry_k8s.Controller.Sts.{is_stateful_set_ready}
use cloudberry_k8s.Controller.Types.{running, absent, holds}
use cloudberry_k8s.Controller.Upgrade.{
  Component, mirrors, primaries, standby, coordinator, UpgradePhase, UpgradeState, UpgradeWorld,
  is_enabled, update_set, store_set, continue_upgrade,
}
use cloudberry_k8s.Controller.Upgrade.Gate.{HasImage}
use cloudberry_k8s.Controller.Upgrade.Rollback.{no_fault}

-- n reconciles whose calls all succeed, all at one time.
abbrev pub reconciles : ℕ → ℕ → ℕ → UpgradeWorld → UpgradeWorld
reconciles now timeout zero w = w
reconciles now timeout (suc n) w =
    reconciles now timeout n (continue_upgrade no_fault now timeout w.upgrade w).0

-- Every StatefulSet reports itself as ready.
unfoldable pub AllReady : UpgradeWorld → Type 0
AllReady w = (c : Component) → is_stateful_set_ready false (w.sets c) ≡ true

module _ (now timeout : ℕ) where
  -- The world after a component was updated, and after the phase was left.
  abbrev updated : Component → UpgradeWorld → UpgradeWorld
  updated c w = store_set no_fault now timeout c (update_set no_fault now timeout c w.image w).0 w

  abbrev passed : Component → UpgradeWorld → UpgradeWorld
  passed c w = record w { sets = if is_enabled w c then (updated c w).sets else w.sets }

  -- The world at the beginning of a phase that has just been reached.
  abbrev pub entered : UpgradeState → UpgradePhase → UpgradeWorld → UpgradeWorld
  entered state next w = record w {
    upgrade = holds (record state { phase = next; phase_started_at = some now });
  }

  -- What a finished upgrade leaves.
  pub record IsUpgraded (w v : UpgradeWorld) : Type 0 where
    pub is_running : v.phase ≡ running
    pub has_version : v.cluster_version ≡ w.version
    pub no_state : v.upgrade ≡ absent
    pub has_image : (c : Component) → is_enabled w c ≡ true → HasImage w.image (v.sets c)

  abbrev all_passed : UpgradeWorld → UpgradeWorld
  all_passed w = passed coordinator (passed standby (passed primaries (passed mirrors w)))
