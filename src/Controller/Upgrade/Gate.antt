-- ===== src/Controller/Upgrade/Gate.antt =====
-- internal/controller/cluster_controller.go: from one phase of an upgrade to the next.
use mathlib.Core.Path.{subst}
use cloudberry_k8s.Base.{
  ℕ, ◌<◌, ◌≤◌, Bool, true, false, not, Option, none, some, String, eq_iff, List, [], ◌∷◌, map,
  if_cases, ◌⊎◌, inl, inr, ◌≡◌, refl, sym, arith,
}
use cloudberry_k8s.Controller.Sts.{is_stateful_set_ready}
use cloudberry_k8s.Controller.Types.{StatefulSet, Result, Annotation, holds}
use cloudberry_k8s.Controller.Upgrade.{
  Component, mirrors, primaries, standby, coordinator, UpgradePhase, rolling, verify, unknown_phase,
  UpgradeState, UpgradeWorld, UpgradeFaults, all_images, with_image, update_image, is_enabled,
  next_phase, is_ready, advance_upgrade_phase, update_set, store_set, upgrade_phase,
  rollback_upgrade, revert_sets, has_timed_out, run_phase, continue_upgrade, put_set,
  all_components,
}

-- Every container of the StatefulSet, if there is one, is to run the image.
pub HasImage : String → Option StatefulSet → Type 0
HasImage image none = Unit
HasImage image (some sts) = all_images image sts.images ≡ true

all_images-map : (image : String) (l : List String) → all_images image (map (λ _. image) l) ≡ true
all_images-map image [] = refl
all_images-map image (i ∷ l) = ground (arith, eq_iff image image, all_images-map image l)

pub update_image-HasImage :
    (g u : Bool) (image : String) (o : Option StatefulSet)
    → (update_image g u image o).1 ≡ false
    → HasImage image (update_image g u image o).0
unfolding update_image HasImage
update_image-HasImage g u image none h = tt
update_image-HasImage g u image (some sts) h =
    if_cases Updated g (some sts, true) _ (λ e failed. ground arith)
      (λ e.
        if_cases Updated (all_images image sts.images) (some sts, false) _ (λ same ok. same)
          (λ e.
            if_cases Updated u (some sts, true) (some (with_image image sts), false)
              (λ e failed. ground arith) (λ e ok. all_images-map image sts.images)))
      h
  where
    Updated : Option StatefulSet × Bool → Type 0
    Updated r = r.1 ≡ false → HasImage image r.0

-- How far an upgrade has come.
abbrev pub rank : UpgradePhase → ℕ
rank (rolling mirrors) = 1
rank (rolling primaries) = 2
rank (rolling standby) = 3
rank (rolling coordinator) = 4
rank verify = 5
rank unknown_phase = 6

abbrev pub rank_of : Annotation UpgradeState → ℕ
rank_of (holds state) = rank state.phase
rank_of _ = 0

module _ (faults : UpgradeFaults) (now timeout : ℕ) where
  -- The component is left out of the cluster, or its StatefulSet asks for the new image and reports
  -- itself as ready.
  pub IsPassed : Component → UpgradeWorld → (Component → Option StatefulSet) → Type 0
  IsPassed c w sets =
      (is_enabled w c ≡ false)
      ⊎ (HasImage w.image (sets c) × (is_stateful_set_ready (faults.check_fails c) (sets c) ≡ true))

  -- If the upgrade has come further, it has passed the component.
  Gates : UpgradeState → Component → UpgradeWorld → UpgradeWorld × Result → Type 0
  Gates state c w r = rank state.phase < rank_of r.0.upgrade → IsPassed c w r.0.sets

  put_same : (c : Component) (o : Option StatefulSet) (w : UpgradeWorld) → put_set c o w.sets c ≡ o
  put_same mirrors o w = refl
  put_same primaries o w = refl
  put_same standby o w = refl
  put_same coordinator o w = refl

  -- Whoever has not come further, or has passed.
  stays :
      (state : UpgradeState) (c : Component) (w : UpgradeWorld) (r : UpgradeWorld × Result)
      → rank_of r.0.upgrade ≤ rank state.phase
      → Gates state c w r
  unfolding Gates
  stays state c w r le moved = absurd (omega arith)

  passes :
      (state : UpgradeState) (c : Component) (w : UpgradeWorld) (r : UpgradeWorld × Result)
      → IsPassed c w r.0.sets
      → Gates state c w r
  unfolding Gates
  passes state c w r p moved = p

  advance-sets :
      (state : UpgradeState) (next : UpgradePhase) (w : UpgradeWorld)
      → (advance_upgrade_phase faults now timeout state next w).0.sets ≡ w.sets
  unfolding advance_upgrade_phase
  advance-sets state next w =
      if_cases (λ (r : UpgradeWorld × Result). r.0.sets ≡ w.sets) faults.annotation_fails (w, _) _
        (λ e. refl) (λ e. refl)

  upgrade_phase-Gates :
      (state : UpgradeState) (c : Component) (w : UpgradeWorld)
      → w.upgrade ≡ holds state
      → Gates state c w (upgrade_phase faults now timeout state c w)
  unfolding upgrade_phase IsPassed
  upgrade_phase-Gates state c w s =
      let updated = update_set faults now timeout c w.image w in
      let w' = store_set faults now timeout c updated.0 w in
      let unmoved : rank_of w.upgrade ≤ rank state.phase = rw s (omega arith) in
      if_cases (Gates state c w) (not (is_enabled w c)) _ _
        (λ off. passes state c w _ (inl (ground arith)))
        (λ on.
          if_cases (Gates state c w) updated.1 (w', _) _ (λ failed. stays state c w _ unmoved)
            (λ ok.
              if_cases (Gates state c w) (is_ready faults now timeout w' c) _ (w', _)
                (λ set. passes state c w _ (
                  rw (advance-sets state (next_phase c) w') (
                    inr (
                      rw (put_same c updated.0 w) (update_image-HasImage _ _ w.image (w.sets c) ok),
                      set,
                    ))))
                (λ unset. stays state c w _ unmoved)))

  revert_sets-upgrade :
      (image : String) (cs : List Component) (w : UpgradeWorld)
      → (revert_sets faults now timeout image cs w).upgrade ≡ w.upgrade
  unfolding revert_sets
  revert_sets-upgrade image [] w = refl
  revert_sets-upgrade image (c ∷ cs) w = revert_sets-upgrade image cs _

  rollback-Gates :
      (state : UpgradeState) (c : Component) (w : UpgradeWorld)
      → w.upgrade ≡ holds state
      → Gates state c w (rollback_upgrade faults now timeout state w)
  unfolding rollback_upgrade
  rollback-Gates state c w s =
      let reverted = revert_sets faults now timeout state.previous_image (all_components w) w in
      let unmoved : rank_of w.upgrade ≤ rank state.phase = rw s (omega arith) in
      if_cases (Gates state c w) faults.status_update_fails (reverted, _) _
        (λ e.
          stays state c w _
            (rw (revert_sets-upgrade state.previous_image (all_components w) w) unmoved))
        (λ e. stays state c w _ (
          if_cases (λ a. rank_of a ≤ rank state.phase) faults.removal_fails _ _ (λ e. unmoved)
            (λ e. omega arith)))

  continue-Gates :
      (state : UpgradeState) (c : Component) (w : UpgradeWorld)
      → w.upgrade ≡ holds state
      → state.phase ≡ rolling c
      → Gates state c w (continue_upgrade faults now timeout (holds state) w)
  unfolding continue_upgrade
  continue-Gates state c w s p =
      if_cases (Gates state c w) (has_timed_out faults now timeout state.phase_started_at) _ _
        (λ late. rollback-Gates state c w s)
        (λ timely.
          subst (λ phase. Gates state c w (run_phase faults now timeout phase state w)) (sym p)
            (upgrade_phase-Gates state c w s))

  -- A reconcile takes an upgrade from the phase of a component into a later one only if the cluster
  -- does not have the component, or its StatefulSet now asks for the new image in every container
  -- and reports all its replicas as ready and updated, whichever calls fail.
  pub continue_upgrade-gate :
      (state : UpgradeState) (c : Component) (w : UpgradeWorld)
      → w.upgrade ≡ holds state
      → state.phase ≡ rolling c
      → rank state.phase < rank_of (continue_upgrade faults now timeout w.upgrade w).0.upgrade
      → IsPassed c w (continue_upgrade faults now timeout w.upgrade w).0.sets
  unfolding Gates
  continue_upgrade-gate state c w s p =
      subst (λ a. Gates state c w (continue_upgrade faults now timeout a w)) (sym s)
        (continue-Gates state c w s p)
