-- ===== src/Controller/Upgrade.antt =====
-- internal/controller/cluster_controller.go: rolling upgrades, phase by phase, and their rollback.
-- One call is one reconcile; times are in seconds.
pub mod Gate
pub mod Rollback
pub mod Completion
use cloudberry_k8s.Base.{
  ℕ, ◌+◌, Bool, true, false, not, ◌&&◌, ◌||◌, Option, none, some, String, str_eq, List, [], ◌∷◌,
  ◌++◌, map, if◌then◌else◌, ltb,
}
use cloudberry_k8s.Controller.Sts.{is_stateful_set_ready}
use cloudberry_k8s.Controller.Types.{
  ClusterPhase, running, updating, is_running, StatefulSet, Requeue, no_requeue, after_default,
  after_error, after_stopping, after_immediate, Result, done, failing, Annotation, absent,
  malformed, holds,
}
use cloudberry_k8s.Util.Conditions.{Condition, set_condition}

pub data Component : Type 0 where
  mirrors primaries standby coordinator : Component

pub data UpgradePhase : Type 0 where
  rolling : Component → UpgradePhase
  verify unknown_phase : UpgradePhase

-- upgradeStateData; a time that does not parse is none.
pub record UpgradeState : Type 0 where
  pub previous_image : String
  pub previous_version : String
  pub phase : UpgradePhase
  pub phase_started_at : Option ℕ

pub record UpgradeWorld : Type 0 where
  -- spec
  pub image : String
  pub version : String
  pub mirroring : Bool
  pub has_standby : Bool
  -- status
  pub phase : ClusterPhase
  pub cluster_version : String
  pub conditions : List Condition
  -- the upgrade annotation and the StatefulSets
  pub upgrade : Annotation UpgradeState
  pub sets : Component → Option StatefulSet

-- Which calls of one reconcile fail.
pub record UpgradeFaults : Type 0 where
  pub get_fails : Component → Bool
  pub update_fails : Component → Bool
  pub check_fails : Component → Bool
  pub current_fails : Bool
  pub status_update_fails : Bool
  -- the writes of the annotation at the start of an upgrade, and at the end of a phase
  pub start_fails : Bool
  pub annotation_fails : Bool
  pub removal_fails : Bool

abbrev pub same_component : Component → Component → Bool
same_component mirrors mirrors = true
same_component primaries primaries = true
same_component standby standby = true
same_component coordinator coordinator = true
same_component _ _ = false

abbrev pub put_set :
    Component
    → Option StatefulSet
    → (Component → Option StatefulSet)
    → Component
    → Option StatefulSet
put_set c sts sets d = if same_component c d then sts else sets d

abbrev pub all_images : String → List String → Bool
all_images image [] = true
all_images image (i ∷ images) = str_eq i image && all_images image images

abbrev pub with_image : String → StatefulSet → StatefulSet
with_image image sts = record sts { images = map (λ _. image) sts.images }

-- `updateStatefulSetImage` on an object: the object after it, and whether it returns an error.
unfoldable pub update_image : Bool → Bool → String → Option StatefulSet → Option StatefulSet × Bool
update_image get_fails update_fails image none = (none, get_fails)
update_image get_fails update_fails image (some sts) =
    if get_fails
    then (some sts, true)
    else if all_images image sts.images
    then (some sts, false)
    else if update_fails
    then (some sts, true)
    else (some (with_image image sts), false)

abbrev pub is_enabled : UpgradeWorld → Component → Bool
is_enabled w mirrors = w.mirroring
is_enabled w standby = w.has_standby
is_enabled w _ = true

abbrev pub next_phase : Component → UpgradePhase
next_phase mirrors = rolling primaries
next_phase primaries = rolling standby
next_phase standby = rolling coordinator
next_phase coordinator = verify

-- `getAllStatefulSetNames`
abbrev pub scale_down_order : Bool → Bool → List Component
scale_down_order mirroring has_standby =
    (if mirroring then mirrors ∷ [] else [])
    ++ (primaries ∷ [])
    ++ (if has_standby then standby ∷ [] else [])
    ++ (coordinator ∷ [])

abbrev pub all_components : UpgradeWorld → List Component
all_components w = scale_down_order w.mirroring w.has_standby

abbrev first_image : String → List String → String
first_image default [] = default
first_image default (i ∷ images) = if str_eq i "" then first_image default images else i

-- `getCurrentImage`: whatever the error, it falls back to the image of the spec.
unfoldable pub get_current_image : Bool → String → Option StatefulSet → String
get_current_image get_fails spec none = spec
get_current_image get_fails spec (some sts) =
    if get_fails then spec else first_image spec sts.images

-- The loop of `isUpgradeRolledBack` and of `isUpgradeNeeded`.
unfoldable pub has_failed : List Condition → Bool
has_failed [] = false
has_failed (c ∷ cs) = (str_eq c.type "UpgradeFailed" && str_eq c.status "True") || has_failed cs

unfoldable pub is_upgrade_rolled_back : UpgradeWorld → Bool
is_upgrade_rolled_back w = has_failed w.conditions

abbrev pub has_annotation : {S : Type 0} → Annotation S → Bool
has_annotation absent = false
has_annotation _ = true

unfoldable pub is_upgrade_needed : UpgradeWorld → Bool
is_upgrade_needed w =
    if has_annotation w.upgrade
    then true
    else if has_failed w.conditions
    then false
    else not (str_eq w.cluster_version "") && not (str_eq w.cluster_version w.version)

module _ (faults : UpgradeFaults) (now timeout : ℕ) where
  abbrev is_ready : UpgradeWorld → Component → Bool
  is_ready w c = is_stateful_set_ready (faults.check_fails c) (w.sets c)

  unfoldable pub advance_upgrade_phase :
      UpgradeState → UpgradePhase → UpgradeWorld → UpgradeWorld × Result
  advance_upgrade_phase state next w =
      if faults.annotation_fails then (w, failing no_requeue) else (
        record w { upgrade = holds (record state { phase = next; phase_started_at = some now }) },
        done after_immediate,
      )

  abbrev pub update_set : Component → String → UpgradeWorld → (Option StatefulSet) × Bool
  update_set c image w = update_image (faults.get_fails c) (faults.update_fails c) image (w.sets c)

  abbrev pub store_set : Component → Option StatefulSet → UpgradeWorld → UpgradeWorld
  store_set c sts w = record w { sets = put_set c sts w.sets }

  unfoldable pub upgrade_phase : UpgradeState → Component → UpgradeWorld → UpgradeWorld × Result
  upgrade_phase state c w =
      let updated = update_set c w.image w in
      let w' = store_set c updated.0 w in
      if not (is_enabled w c)
      then advance_upgrade_phase state (next_phase c) w
      else if updated.1
      then (w', done after_error)
      else if is_ready w' c
      then advance_upgrade_phase state (next_phase c) w'
      else (w', done after_stopping)

  unfoldable pub complete_upgrade : UpgradeState → UpgradeWorld → UpgradeWorld × Result
  complete_upgrade state w = if faults.status_update_fails then (w, failing no_requeue) else (
    record w {
      phase = running;
      cluster_version = w.version;
      conditions =
          set_condition now "UpgradeCompleted" "True" "UpgradeSucceeded" "Upgraded" w.conditions;
      upgrade = if faults.removal_fails then w.upgrade else absent;
    },
    done after_default,
  )

  unfoldable pub verify_upgrade : UpgradeState → UpgradeWorld → UpgradeWorld × Result
  verify_upgrade state w =
      if not (is_ready w coordinator)
      then (w, done after_stopping)
      else if not (is_ready w primaries)
      then (w, done after_stopping)
      else complete_upgrade state w

  -- The loop of `rollbackUpgrade` over the StatefulSets, whose errors are only logged.
  unfoldable pub revert_sets : String → List Component → UpgradeWorld → UpgradeWorld
  revert_sets image [] w = w
  revert_sets image (c ∷ cs) w = revert_sets image cs (store_set c (update_set c image w).0 w)

  unfoldable pub rollback_upgrade : UpgradeState → UpgradeWorld → UpgradeWorld × Result
  rollback_upgrade state w =
      let reverted = revert_sets state.previous_image (all_components w) w in
      if faults.status_update_fails then (reverted, failing no_requeue) else (
        record reverted {
          phase = running;
          cluster_version = state.previous_version;
          conditions =
              set_condition now "UpgradeFailed" "True" "RolledBack" "phase timed out" w.conditions;
          upgrade = if faults.removal_fails then w.upgrade else absent;
        },
        done after_default,
      )

  abbrev pub has_timed_out : Option ℕ → Bool
  has_timed_out none = false
  has_timed_out (some start) = ltb (start + timeout) now

  abbrev run_phase : UpgradePhase → UpgradeState → UpgradeWorld → UpgradeWorld × Result
  run_phase (rolling c) state w = upgrade_phase state c w
  run_phase verify state w = verify_upgrade state w
  run_phase unknown_phase state w = complete_upgrade state w

  unfoldable pub continue_upgrade : Annotation UpgradeState → UpgradeWorld → UpgradeWorld × Result
  continue_upgrade absent w = (w, done after_default)
  continue_upgrade malformed w = (w, done after_error)
  continue_upgrade (holds state) w =
      if has_timed_out state.phase_started_at
      then rollback_upgrade state w
      else run_phase state.phase state w

  -- `handleUpgrade`: the phase becomes Updating before the annotation is written.
  unfoldable pub handle_upgrade : UpgradeWorld → UpgradeWorld × Result
  handle_upgrade w =
      let state : UpgradeState = record {
        previous_image = get_current_image faults.current_fails w.image (w.sets coordinator);
        previous_version = w.cluster_version;
        phase = rolling mirrors;
        phase_started_at = some now;
      } in
      let begun = record w { phase = updating } in
      if has_annotation w.upgrade
      then continue_upgrade w.upgrade w
      else if not (is_running w.phase)
      then (w, done no_requeue)
      else if faults.status_update_fails
      then (w, failing no_requeue)
      else if faults.start_fails
      then (begun, failing no_requeue)
      else continue_upgrade (holds state) (record begun { upgrade = holds state })
