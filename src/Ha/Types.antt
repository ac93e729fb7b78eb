-- ===== src/Ha/Types.antt =====
-- internal/controller/ha_controller.go: what the HA controller reads and writes. Texts of conditions
-- are given without the numbers and errors that the code prints into them.
use cloudberry_k8s.Base.{ℕ, String, Bool, Option, List, ◌++◌, ◌∷◌, []}
use cloudberry_k8s.Base.Int.{ℤ}
use cloudberry_k8s.Api.Cluster.{HaSpec}
use cloudberry_k8s.Util.Conditions.{Condition}

-- What the code uses of a db.SegmentInfo.
pub record SegmentInfo : Type 0 where
  pub content_id : ℤ
  pub db_id : ℤ
  pub role : String
  pub status : String
  pub hostname : String

pub record FailedSegment : Type 0 where
  pub content_id : ℤ
  pub hostname : String
  pub role : String
  pub status : String

pub data Event : Type 0 where
  failover_detected failover_completed promotion_pending : ℤ → Event
  mirroring_degraded : ℕ → Event
  recovery_not_implemented : Event
  rebalance_started rebalance_completed : Event
  rebalance_failed : String → Event
  activation_skipped activation_initiated activation_failed activation_completed : Event

-- A counter that is incremented, with its label.
pub data Sample : Type 0 where
  fts_probe : String → Sample
  fts_failover : Sample
  recovery_operation : String → String → Sample
  scale_operation : String → Sample

-- The part of the status that this controller writes.
pub record Status : Type 0 where
  pub failed_segments : List FailedSegment
  pub mirroring_status : String
  pub conditions : List Condition

pub data JobState : Type 0 where
  running succeeded failed : JobState

-- The stored cluster with its annotations, the status of the copy in hand, the rebalance Job, and
-- what has been done and recorded; the newest event, sample and value of a segment's gauge last.
pub record World : Type 0 where
  pub phase : String
  pub mirroring : Bool
  pub standby : Bool
  pub ha : Option HaSpec
  pub action : Option String
  pub recovery : Option String
  pub rebalance_job : Option String
  pub status : Status
  pub memory : Status
  pub job : Option JobState
  pub promotions : ℕ
  pub events : List Event
  pub samples : List Sample
  pub segment_gauge : List (ℤ × Bool)
  pub segments_failed_gauge : Option ℕ
  pub mirroring_in_sync_gauge : Option Bool

-- How the calls of one reconcile answer. The segment configuration is given for each call.
pub record Faults : Type 0 where
  pub now : ℕ
  pub has_factory : Bool
  pub client_fails : Bool
  pub configuration : ℕ → Option (List SegmentInfo)
  pub trigger_fails : Bool
  pub lag_fails : Bool
  pub status_patch_fails : Bool
  pub annotation_patch_fails : Bool
  -- The fetch of the cluster after an annotation was removed.
  pub refetch_fails : Bool
  pub promote_fails : Bool
  pub rebalance_fails : Bool
  pub has_job_to_build : Bool
  pub create_fails : Bool
  pub get_fails : Bool

abbrev pub emit : Event → World → World
emit e w = record w { events = w.events ++ (e ∷ []) }

abbrev pub count : Sample → World → World
count s w = record w { samples = w.samples ++ (s ∷ []) }
