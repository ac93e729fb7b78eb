-- ===== src/Api/Cluster.antt =====
-- api/v1alpha1/types.go: the spec of a CloudberryCluster, with the fields that the admission
-- webhooks read or set; the others pass through them. A pointer is an Option, and an enumerated
-- string is the string, since the validator sees what the user wrote. An int32 or int64 is a ℤ.
use cloudberry_k8s.Base.{String, Bool, Option, List}
use cloudberry_k8s.Base.Int.{ℤ}
use cloudberry_k8s.Api.Backup.{BackupSpec}
use cloudberry_k8s.Api.DataLoading.{DataLoadingSpec}

pub record ClusterAffinitySpec : Type 0 where
  pub mode : String
  pub type : String
  pub topology_key : String

pub record StorageSpec : Type 0 where
  pub storage_class : String
  pub size : String

pub record CoordinatorSpec : Type 0 where
  pub replicas : Option ℤ
  pub storage : StorageSpec
  pub port : ℤ

pub record MirroringSpec : Type 0 where
  pub enabled : Bool
  pub layout : String

pub record SegmentsSpec : Type 0 where
  pub count : ℤ
  pub primaries_per_host : ℤ
  pub mirroring : Option MirroringSpec
  pub storage : StorageSpec
  pub anti_affinity : String

pub record BasicAuthSpec : Type 0 where
  pub enabled : Bool
  pub admin_user : String

pub record OidcSpec : Type 0 where
  pub enabled : Bool
  pub issuer_url : String
  pub client_id : String
  pub scopes : List String
  pub role_claim_path : String
  pub role_claim_source : String
  pub role_match_mode : String

pub record AuthSpec : Type 0 where
  pub basic : Option BasicAuthSpec
  pub oidc : Option OidcSpec

pub record HaSpec : Type 0 where
  pub fts_probe_interval : ℤ
  pub fts_probe_timeout : ℤ
  pub fts_probe_retries : ℤ
  pub checksums : Bool

pub record VaultSpec : Type 0 where
  pub enabled : Bool
  pub address : String

pub record MonitoringSpec : Type 0 where
  pub enabled : Bool
  pub metrics_port : ℤ
  pub service_monitor : Bool

pub record TablespaceIoLimitSpec : Type 0 where
  pub tablespace : String

pub record ResourceGroupSpec : Type 0 where
  pub name : String
  pub concurrency : ℤ
  pub cpu_max_percent : ℤ
  pub cpu_weight : ℤ
  pub io_limits : List TablespaceIoLimitSpec

pub record WorkloadRule : Type 0 where
  pub name : String
  pub action : String

pub record IdleSessionRule : Type 0 where
  pub name : String
  pub resource_group : String
  pub idle_timeout : String

pub record WorkloadSpec : Type 0 where
  pub enabled : Bool
  pub resource_groups : List ResourceGroupSpec
  pub rules : List WorkloadRule
  pub idle_rules : List IdleSessionRule

pub record ExporterSpec : Type 0 where
  pub enabled : Bool
  pub image : String

pub record QueryMonitoringExportersSpec : Type 0 where
  pub postgres_exporter : Option ExporterSpec
  pub node_exporter : Option ExporterSpec
  pub cloudberry_query_exporter : Option ExporterSpec

pub record QueryMonitoringSpec : Type 0 where
  pub enabled : Bool
  pub history_retention : String
  pub sampling_interval : ℤ
  pub slow_query_threshold : String
  pub exporters : Option QueryMonitoringExportersSpec

pub record RecommendationScanSpec : Type 0 where
  pub enabled : Bool
  pub schedule : String
  pub bloat_threshold : ℤ
  pub skew_threshold : ℤ
  pub age_threshold : ℤ
  pub index_bloat_threshold : ℤ
  pub scan_duration : String

pub record StorageManagementSpec : Type 0 where
  pub disk_monitoring : Bool
  pub recommendation_scan : Option RecommendationScanSpec

pub record CloudberryClusterSpec : Type 0 where
  pub version : String
  pub image : String
  pub image_pull_policy : String
  pub coordinator : CoordinatorSpec
  pub segments : SegmentsSpec
  pub affinity : Option ClusterAffinitySpec
  pub auth : Option AuthSpec
  pub ha : Option HaSpec
  pub vault : Option VaultSpec
  pub monitoring : Option MonitoringSpec
  pub workload : Option WorkloadSpec
  pub query_monitoring : Option QueryMonitoringSpec
  pub backup : Option BackupSpec
  pub data_loading : Option DataLoadingSpec
  pub storage : Option StorageManagementSpec
  pub deletion_policy : String

-- The object; of its status, the phase.
pub record CloudberryCluster : Type 0 where
  pub name : String
  pub namespace : String
  pub spec : CloudberryClusterSpec
  pub phase : String
