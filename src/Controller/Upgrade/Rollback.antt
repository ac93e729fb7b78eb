-- ===== src/Controller/Upgrade/Rollback.antt =====
-- internal/controller/cluster_controller.go: the rollback of an upgrade.
use cloudberry_k8s.Base.{
  ℕ, Bool, true, false, Option, none, some, String, List, if◌then◌else◌, if_cases, ◌≡◌, refl,
}
use cloudberry_k8s.Controller.Types.{StatefulSet, running}
use cloudberry_k8s.Controller.Upgrade.{
  Component, mirrors, primaries, standby, coordinator, UpgradeState, UpgradeWorld, UpgradeFaults,
  update_image, is_enabled, update_set, store_set, has_failed, is_upgrade_needed, same_component,
  all_images,
}
use cloudberry_k8s.Controller.Upgrade.Gate.{HasImage, update_image-HasImage}
use cloudberry_k8s.Util.Conditions.{Condition}

HasFailed : List Condition → Type 0
HasFailed cs = has_failed cs ≡ true

abbrev pub no_fault : UpgradeFaults
no_fault = record {
  get_fails = λ c. false;
  update_fails = λ c. false;
  check_fails = λ c. false;
  current_fails = false;
  status_update_fails = false;
  start_fails = false;
  annotation_fails = false;
  removal_fails = false;
}

module _ (now timeout : ℕ) (image : String) where
  pub update_works : (o : Option StatefulSet) → (update_image false false image o).1 ≡ false
  unfolding update_image
  update_works none = refl
  update_works (some sts) =
      if_cases (λ (r : Option StatefulSet × Bool). r.1 ≡ false) (all_images image sts.images) _ _
        (λ e. refl) (λ e. refl)

  abbrev reverted_one : Component → UpgradeWorld → UpgradeWorld
  reverted_one c w =
      store_set no_fault now timeout c (update_set no_fault now timeout c image w).0 w

  pub reverted-HasImage :
      (c : Component) (w : UpgradeWorld) → HasImage image ((reverted_one c w).sets c)
  reverted-HasImage mirrors w =
      update_image-HasImage false false image _ (update_works (w.sets mirrors))
  reverted-HasImage primaries w =
      update_image-HasImage false false image _ (update_works (w.sets primaries))
  reverted-HasImage standby w =
      update_image-HasImage false false image _ (update_works (w.sets standby))
  reverted-HasImage coordinator w =
      update_image-HasImage false false image _ (update_works (w.sets coordinator))

  -- What asks for the image keeps asking for it.
  put-HasImage :
      (b : Bool) (o p : Option StatefulSet)
      → HasImage image o
      → HasImage image p
      → HasImage image (if b then o else p)
  put-HasImage true o p h k = h
  put-HasImage false o p h k = k

  pub kept-HasImage :
      (c d : Component) (w : UpgradeWorld)
      → HasImage image (w.sets d)
      → HasImage image ((reverted_one c w).sets d)
  kept-HasImage c d w h =
      put-HasImage (same_component c d) _ _
        (update_image-HasImage false false image _ (update_works (w.sets c))) h

-- What a rollback to the given state leaves.
pub record IsRolledBack (state : UpgradeState) (w v : UpgradeWorld) : Type 0 where
  pub has_image : (c : Component) → is_enabled w c ≡ true → HasImage state.previous_image (v.sets c)
  pub is_running : v.phase ≡ running
  pub version_restored : v.cluster_version ≡ state.previous_version
  pub no_retry : (version : String) → is_upgrade_needed (record v { version = version }) ≡ false
