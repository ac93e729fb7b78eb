-- ===== src/Tests/Ha.antt =====
-- Clusters on which the theorems of the HA controller apply.
use cloudberry_k8s.Base.{
  ℕ, zero, suc, ◌≤◌, true, false, Option, none, some, List, [], ◌∷◌, String, ◌≡◌, refl,
}
use cloudberry_k8s.Base.Int.{ℤ, pos, negsuc}
use cloudberry_k8s.Util.Conditions.{set_condition}
use cloudberry_k8s.Ha.Types.{SegmentInfo, Status, World, Faults}
use cloudberry_k8s.Ha.Probe.{
  probe_retries, run_fts_probe, analyze_segments, probe_segment_config, report_probe,
  handle_failover, verify_failover, find_primary, probe_status,
}
use cloudberry_k8s.Ha.Actions.{
  patch_status, record_standby_activation_failure, activate_standby, handle_standby_activation,
  monitor_standby, run_health_checks, handle_annotations, reconcile,
}
use cloudberry_k8s.Ha.Promotions.{Move, move, moves, moves-promotions_le}

abbrev segment : ℤ → ℤ → String → String → SegmentInfo
segment content db role status = record {
  content_id = content;
  db_id = db;
  role = role;
  status = status;
  hostname = "host";
}

-- The primary of content 0 is down and its mirror is up.
abbrev segments : List SegmentInfo
segments =
    segment (negsuc 0) (pos 1) "p" "u"
    ∷ segment (pos 0) (pos 2) "p" "d"
    ∷ segment (pos 0) (pos 4) "m" "u"
    ∷ segment (pos 1) (pos 3) "p" "u"
    ∷ []

-- The first call for the segments fails.
abbrev configuration : ℕ → Option (List SegmentInfo)
configuration zero = none
configuration (suc call) = some segments

abbrev faults : Faults
faults = record {
  now = 60;
  has_factory = true;
  client_fails = false;
  configuration = configuration;
  trigger_fails = true;
  lag_fails = false;
  status_patch_fails = false;
  annotation_patch_fails = false;
  refetch_fails = false;
  promote_fails = true;
  rebalance_fails = true;
  has_job_to_build = true;
  create_fails = false;
  get_fails = false;
}

abbrev status : Status
status = record { failed_segments = []; mirroring_status = "InSync"; conditions = [] }

abbrev world : World
world = record {
  phase = "Running";
  mirroring = true;
  standby = true;
  ha = none;
  action = none;
  recovery = none;
  rebalance_job = none;
  status = status;
  memory = status;
  job = none;
  promotions = 0;
  events = [];
  samples = [];
  segment_gauge = [];
  segments_failed_gauge = none;
  mirroring_in_sync_gauge = none;
}

-- The gauge of content 0 says up at last: the mirror's row is written after the primary's.
mirror_masks :
    (analyze_segments segments).gauge ≡ (pos 0, false) ∷ (pos 0, true) ∷ (pos 1, true) ∷ []
unfolding analyze_segments
mirror_masks = refl

-- One request, and three reconciles, in which the promotion fails.
abbrev script : List Move
script =
    Move.asks (some "activate-standby")
    ∷ Move.reconciles (record faults { annotation_patch_fails = true })
    ∷ Move.reconciles faults
    ∷ Move.reconciles faults
    ∷ []

moves-promotions_le_example : (moves script world).promotions ≤ 1
moves-promotions_le_example = moves-promotions_le script world

promoted_once : (moves script world).promotions ≡ 1
unfolding move reconcile handle_annotations handle_standby_activation activate_standby
    record_standby_activation_failure run_health_checks run_fts_probe probe_retries
    probe_segment_config analyze_segments report_probe handle_failover verify_failover find_primary
    probe_status monitor_standby patch_status set_condition
promoted_once = refl
