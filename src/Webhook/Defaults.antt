-- ===== src/Webhook/Defaults.antt =====
-- internal/webhook/mutating.go: the defaults of a cluster's spec. A pointer that the code allocates
-- when it is nil is an Option that becomes `some` of the zero value.
pub mod Fields
pub mod Backup
pub mod DataLoading
pub mod Idempotence
use cloudberry_k8s.Base.{String, Bool, true, false, Option, none, some, List, [], ◌∷◌, map, not}
use cloudberry_k8s.Base.{◌||◌, str_eq, if◌then◌else◌}
use cloudberry_k8s.Base.Int.{ℤ, pos}
use cloudberry_k8s.Api.Cluster.{
  ClusterAffinitySpec, StorageSpec, CoordinatorSpec, MirroringSpec, SegmentsSpec, BasicAuthSpec,
  OidcSpec, AuthSpec, HaSpec, VaultSpec, MonitoringSpec, TablespaceIoLimitSpec, ResourceGroupSpec,
  WorkloadRule, IdleSessionRule, WorkloadSpec, ExporterSpec, QueryMonitoringExportersSpec,
  QueryMonitoringSpec, RecommendationScanSpec, StorageManagementSpec, CloudberryClusterSpec,
  CloudberryCluster,
}
use cloudberry_k8s.Webhook.Defaults.Fields.{text_or, int_or, pointer_or, list_or, map_pointer}
use cloudberry_k8s.Webhook.Defaults.Backup.{set_backup_defaults}
use cloudberry_k8s.Webhook.Defaults.DataLoading.{set_data_loading_defaults}

unfoldable pub set_affinity_defaults : ClusterAffinitySpec → ClusterAffinitySpec
set_affinity_defaults aff = record aff {
  type = text_or "preferred" aff.type;
  topology_key = text_or "kubernetes.io/hostname" aff.topology_key;
}

unfoldable pub set_spec_defaults : CloudberryClusterSpec → CloudberryClusterSpec
set_spec_defaults spec = record spec {
  version = text_or "2.1.0" spec.version;
  image = text_or "cloudberrydb/cloudberry:2.1.0" spec.image;
  image_pull_policy = text_or "IfNotPresent" spec.image_pull_policy;
}

abbrev set_size_default : String → StorageSpec → StorageSpec
set_size_default size storage = record storage { size = text_or size storage.size }

unfoldable pub set_coordinator_defaults : CoordinatorSpec → CoordinatorSpec
set_coordinator_defaults coord = record coord {
  replicas = some (pointer_or (pos 1) coord.replicas);
  port = int_or (pos 5432) coord.port;
  storage = set_size_default "10Gi" coord.storage;
}

abbrev pub default_mirroring : MirroringSpec
default_mirroring = record { enabled = true; layout = "group" }

abbrev pub set_layout_default : MirroringSpec → MirroringSpec
set_layout_default mirroring = record mirroring { layout = text_or "group" mirroring.layout }

unfoldable pub set_segment_defaults : SegmentsSpec → SegmentsSpec
set_segment_defaults seg = record seg {
  primaries_per_host = int_or (pos 2) seg.primaries_per_host;
  storage = set_size_default "20Gi" seg.storage;
  anti_affinity = text_or "preferred" seg.anti_affinity;
  mirroring = some (set_layout_default (pointer_or default_mirroring seg.mirroring));
}

unfoldable pub set_oidc_defaults : OidcSpec → OidcSpec
set_oidc_defaults oidc = if not oidc.enabled then oidc else record oidc {
  scopes = list_or ("openid" ∷ "profile" ∷ "email" ∷ []) oidc.scopes;
  role_claim_path = text_or "realm_access.roles" oidc.role_claim_path;
  role_claim_source = text_or "id_token" oidc.role_claim_source;
  role_match_mode = text_or "exact" oidc.role_match_mode;
}

abbrev default_basic : BasicAuthSpec
default_basic = record { enabled = true; admin_user = "gpadmin" }

abbrev set_admin_user_default : BasicAuthSpec → BasicAuthSpec
set_admin_user_default basic = record basic { admin_user = text_or "gpadmin" basic.admin_user }

unfoldable pub set_auth_defaults : AuthSpec → AuthSpec
set_auth_defaults auth = record auth {
  basic = some (set_admin_user_default (pointer_or default_basic auth.basic));
  oidc = map_pointer set_oidc_defaults auth.oidc;
}

abbrev pub no_auth : AuthSpec
no_auth = record { basic = none; oidc = none }

unfoldable pub set_ha_defaults : HaSpec → HaSpec
set_ha_defaults ha = record ha {
  fts_probe_interval = int_or (pos 60) ha.fts_probe_interval;
  fts_probe_timeout = int_or (pos 20) ha.fts_probe_timeout;
  fts_probe_retries = int_or (pos 5) ha.fts_probe_retries;
}

abbrev pub no_ha : HaSpec
no_ha = record {
  fts_probe_interval = pos 0;
  fts_probe_timeout = pos 0;
  fts_probe_retries = pos 0;
  checksums = false;
}

abbrev pub default_monitoring : MonitoringSpec
default_monitoring = record { enabled = true; metrics_port = pos 9187; service_monitor = false }

unfoldable pub set_monitoring_defaults : MonitoringSpec → MonitoringSpec
set_monitoring_defaults m = record m { metrics_port = int_or (pos 9187) m.metrics_port }

unfoldable pub set_resource_group_defaults : ResourceGroupSpec → ResourceGroupSpec
set_resource_group_defaults rg = record rg {
  concurrency = int_or (pos 20) rg.concurrency;
  cpu_max_percent = int_or (pos 100) rg.cpu_max_percent;
  cpu_weight = int_or (pos 100) rg.cpu_weight;
}

unfoldable pub set_workload_defaults : WorkloadSpec → WorkloadSpec
set_workload_defaults w = record w {
  resource_groups = map set_resource_group_defaults w.resource_groups;
}

-- `defaultExporterImage`
unfoldable pub default_exporter_image : String → ExporterSpec → ExporterSpec
default_exporter_image default_image exporter =
    if not exporter.enabled || not (str_eq exporter.image "")
    then exporter
    else record exporter { image = default_image }

unfoldable pub set_exporter_image_defaults :
    QueryMonitoringExportersSpec → QueryMonitoringExportersSpec
set_exporter_image_defaults exporters = record exporters {
  postgres_exporter =
      map_pointer (default_exporter_image "prometheuscommunity/postgres-exporter:v0.16.0")
        exporters.postgres_exporter;
  node_exporter =
      map_pointer (default_exporter_image "prom/node-exporter:v1.8.2") exporters.node_exporter;
  cloudberry_query_exporter =
      map_pointer (default_exporter_image "cloudberry-query-exporter:1.0.0")
        exporters.cloudberry_query_exporter;
}

unfoldable pub set_query_monitoring_defaults : QueryMonitoringSpec → QueryMonitoringSpec
set_query_monitoring_defaults q = record q {
  history_retention = text_or "30d" q.history_retention;
  sampling_interval = int_or (pos 15) q.sampling_interval;
  slow_query_threshold = text_or "1000ms" q.slow_query_threshold;
  exporters = map_pointer set_exporter_image_defaults q.exporters;
}

-- The recommendation scan, where it is enabled.
unfoldable pub set_scan_defaults : RecommendationScanSpec → RecommendationScanSpec
set_scan_defaults scan = if not scan.enabled then scan else record scan {
  schedule = text_or "0 3 * * 0" scan.schedule;
  bloat_threshold = int_or (pos 20) scan.bloat_threshold;
  skew_threshold = int_or (pos 50) scan.skew_threshold;
  age_threshold = int_or (pos 500_000_000) scan.age_threshold;
  index_bloat_threshold = int_or (pos 30) scan.index_bloat_threshold;
  scan_duration = text_or "2h" scan.scan_duration;
}

unfoldable pub set_storage_management_defaults : StorageManagementSpec → StorageManagementSpec
set_storage_management_defaults storage = record storage {
  recommendation_scan = map_pointer set_scan_defaults storage.recommendation_scan;
}

unfoldable pub default_parts : CloudberryClusterSpec → CloudberryClusterSpec
default_parts spec = record spec {
  coordinator = set_coordinator_defaults spec.coordinator;
  segments = set_segment_defaults spec.segments;
  auth = some (set_auth_defaults (pointer_or no_auth spec.auth));
  ha = some (set_ha_defaults (pointer_or no_ha spec.ha));
  monitoring = some (set_monitoring_defaults (pointer_or default_monitoring spec.monitoring));
  workload = map_pointer set_workload_defaults spec.workload;
  query_monitoring = map_pointer set_query_monitoring_defaults spec.query_monitoring;
  backup = map_pointer set_backup_defaults spec.backup;
  data_loading = map_pointer set_data_loading_defaults spec.data_loading;
  storage = map_pointer set_storage_management_defaults spec.storage;
  affinity = map_pointer set_affinity_defaults spec.affinity;
  deletion_policy = text_or "Retain" spec.deletion_policy;
}

-- `setClusterDefaults`. The parts that it sets are apart, so their order does not show.
unfoldable pub set_cluster_defaults : CloudberryCluster → CloudberryCluster
set_cluster_defaults cluster = record cluster {
  spec = default_parts (set_spec_defaults cluster.spec);
}
