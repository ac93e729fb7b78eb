-- ===== src/Webhook/Defaults/Idempotence.antt =====
-- internal/webhook/mutating.go: defaulting a cluster again.
use cloudberry_k8s.Base.{String, ◌≡◌, arith, Bool-cases, eq_iff, inl, inr}
use cloudberry_k8s.Api.Backup.{BackupSpec}
use cloudberry_k8s.Api.Cluster.{
  ClusterAffinitySpec, OidcSpec, AuthSpec, ResourceGroupSpec, WorkloadSpec, ExporterSpec,
  QueryMonitoringExportersSpec, QueryMonitoringSpec, RecommendationScanSpec, StorageManagementSpec,
  CloudberryClusterSpec, CloudberryCluster,
}
use cloudberry_k8s.Api.DataLoading.{
  PxfSpec, GpfdistSpec, PxfJobSpec, GploadJobSpec, DataLoadingJob, DataLoadingSpec,
}
use cloudberry_k8s.Webhook.Defaults.Fields.{
  pointer_or-some, list_or_idem, map_pointer_idem, map_idem, text_or_idem, int_or_idem,
}
use cloudberry_k8s.Webhook.Defaults.Backup.{
  set_gpbackup_defaults, set_gprestore_defaults, set_backup_retention_defaults,
  set_backup_job_template_defaults, set_backup_defaults,
}
use cloudberry_k8s.Webhook.Defaults.DataLoading.{
  set_pxf_defaults, set_gpfdist_defaults, set_pxf_job_defaults, set_gpload_job_defaults,
  set_data_loading_job_defaults, set_data_loading_job_template_defaults, set_data_loading_defaults,
}
use cloudberry_k8s.Webhook.Defaults.{
  set_affinity_defaults, set_spec_defaults, set_coordinator_defaults, set_segment_defaults,
  set_oidc_defaults, set_auth_defaults, set_ha_defaults, set_monitoring_defaults,
  set_resource_group_defaults, set_workload_defaults, default_exporter_image,
  set_exporter_image_defaults, set_query_monitoring_defaults, set_storage_management_defaults,
  set_cluster_defaults, set_scan_defaults, default_parts,
}

ruleset field_idem = (text_or_idem, int_or_idem, pointer_or-some, list_or_idem)

set_backup_defaults_idem :
    (b : BackupSpec) → set_backup_defaults (set_backup_defaults b) ≡ set_backup_defaults b
unfolding set_backup_defaults set_gpbackup_defaults set_gprestore_defaults
    set_backup_retention_defaults set_backup_job_template_defaults
set_backup_defaults_idem b = elim (Bool-cases b.enabled) [
  | inl e ↦ simp (e, field_idem)
  | inr e ↦ simp (e)
]

set_pxf_defaults_idem : (p : PxfSpec) → set_pxf_defaults (set_pxf_defaults p) ≡ set_pxf_defaults p
unfolding set_pxf_defaults
set_pxf_defaults_idem p = simp (field_idem)

set_gpfdist_defaults_idem :
    (g : GpfdistSpec) → set_gpfdist_defaults (set_gpfdist_defaults g) ≡ set_gpfdist_defaults g
unfolding set_gpfdist_defaults
set_gpfdist_defaults_idem g = simp (field_idem)

set_pxf_job_defaults_idem :
    (j : PxfJobSpec) → set_pxf_job_defaults (set_pxf_job_defaults j) ≡ set_pxf_job_defaults j
unfolding set_pxf_job_defaults
set_pxf_job_defaults_idem j = simp (field_idem)

set_gpload_job_defaults_idem :
    (j : GploadJobSpec)
    → set_gpload_job_defaults (set_gpload_job_defaults j) ≡ set_gpload_job_defaults j
unfolding set_gpload_job_defaults
set_gpload_job_defaults_idem j = simp (field_idem)

set_data_loading_job_defaults_idem :
    (j : DataLoadingJob)
    → set_data_loading_job_defaults (set_data_loading_job_defaults j)
      ≡ set_data_loading_job_defaults j
unfolding set_data_loading_job_defaults
set_data_loading_job_defaults_idem j = simp (
  map_pointer_idem set_pxf_job_defaults set_pxf_job_defaults_idem,
  map_pointer_idem set_gpload_job_defaults set_gpload_job_defaults_idem,
)

set_data_loading_defaults_idem :
    (d : DataLoadingSpec)
    → set_data_loading_defaults (set_data_loading_defaults d) ≡ set_data_loading_defaults d
unfolding set_data_loading_defaults set_data_loading_job_template_defaults
set_data_loading_defaults_idem d =
    let pxf = map_pointer_idem set_pxf_defaults set_pxf_defaults_idem in
    let gpfdist = map_pointer_idem set_gpfdist_defaults set_gpfdist_defaults_idem in
    let jobs = map_idem set_data_loading_job_defaults set_data_loading_job_defaults_idem in
    elim (Bool-cases d.enabled) [
      | inl e ↦ simp (e, field_idem, pxf, gpfdist, jobs)
      | inr e ↦ simp (e)
    ]

set_oidc_defaults_idem :
    (o : OidcSpec) → set_oidc_defaults (set_oidc_defaults o) ≡ set_oidc_defaults o
unfolding set_oidc_defaults
set_oidc_defaults_idem o = elim (Bool-cases o.enabled) [
  | inl e ↦ simp (e, field_idem)
  | inr e ↦ simp (e)
]

set_auth_defaults_idem :
    (a : AuthSpec) → set_auth_defaults (set_auth_defaults a) ≡ set_auth_defaults a
unfolding set_auth_defaults
set_auth_defaults_idem a =
    simp (field_idem, map_pointer_idem set_oidc_defaults set_oidc_defaults_idem)

set_resource_group_defaults_idem :
    (r : ResourceGroupSpec)
    → set_resource_group_defaults (set_resource_group_defaults r) ≡ set_resource_group_defaults r
unfolding set_resource_group_defaults
set_resource_group_defaults_idem r = simp (field_idem)

set_workload_defaults_idem :
    (w : WorkloadSpec) → set_workload_defaults (set_workload_defaults w) ≡ set_workload_defaults w
unfolding set_workload_defaults
set_workload_defaults_idem w =
    simp (map_idem set_resource_group_defaults set_resource_group_defaults_idem)

default_exporter_image_idem :
    (image : String) (e : ExporterSpec)
    → default_exporter_image image (default_exporter_image image e) ≡ default_exporter_image image e
unfolding default_exporter_image
default_exporter_image_idem image e = ground (arith, eq_iff e.image "", eq_iff image "")

set_exporter_image_defaults_idem :
    (e : QueryMonitoringExportersSpec)
    → set_exporter_image_defaults (set_exporter_image_defaults e) ≡ set_exporter_image_defaults e
unfolding set_exporter_image_defaults
set_exporter_image_defaults_idem e =
    let once = λ (image : String).
      map_pointer_idem (default_exporter_image image) (default_exporter_image_idem image) in
    simp (
      once "prometheuscommunity/postgres-exporter:v0.16.0",
      once "prom/node-exporter:v1.8.2",
      once "cloudberry-query-exporter:1.0.0",
    )

set_query_monitoring_defaults_idem :
    (q : QueryMonitoringSpec)
    → set_query_monitoring_defaults (set_query_monitoring_defaults q)
      ≡ set_query_monitoring_defaults q
unfolding set_query_monitoring_defaults
set_query_monitoring_defaults_idem q =
    simp (field_idem, map_pointer_idem set_exporter_image_defaults set_exporter_image_defaults_idem)

set_scan_defaults_idem :
    (s : RecommendationScanSpec) → set_scan_defaults (set_scan_defaults s) ≡ set_scan_defaults s
unfolding set_scan_defaults
set_scan_defaults_idem s = elim (Bool-cases s.enabled) [
  | inl e ↦ simp (e, field_idem)
  | inr e ↦ simp (e)
]

set_storage_management_defaults_idem :
    (s : StorageManagementSpec)
    → set_storage_management_defaults (set_storage_management_defaults s)
      ≡ set_storage_management_defaults s
unfolding set_storage_management_defaults
set_storage_management_defaults_idem s =
    simp (map_pointer_idem set_scan_defaults set_scan_defaults_idem)

set_affinity_defaults_idem :
    (a : ClusterAffinitySpec)
    → set_affinity_defaults (set_affinity_defaults a) ≡ set_affinity_defaults a
unfolding set_affinity_defaults
set_affinity_defaults_idem a = simp (field_idem)

set_parts_idem :
    (s : CloudberryClusterSpec)
    → default_parts (set_spec_defaults (default_parts (set_spec_defaults s)))
      ≡ default_parts (set_spec_defaults s)
unfolding default_parts set_spec_defaults set_coordinator_defaults set_segment_defaults
    set_ha_defaults set_monitoring_defaults
set_parts_idem s = simp (
  field_idem,
  set_auth_defaults_idem,
  map_pointer_idem set_workload_defaults set_workload_defaults_idem,
  map_pointer_idem set_query_monitoring_defaults set_query_monitoring_defaults_idem,
  map_pointer_idem set_backup_defaults set_backup_defaults_idem,
  map_pointer_idem set_data_loading_defaults set_data_loading_defaults_idem,
  map_pointer_idem set_storage_management_defaults set_storage_management_defaults_idem,
  map_pointer_idem set_affinity_defaults set_affinity_defaults_idem,
)

-- Defaulting a cluster that was defaulted changes nothing: the webhook may be called again.
pub set_cluster_defaults_idem :
    (c : CloudberryCluster) → set_cluster_defaults (set_cluster_defaults c) ≡ set_cluster_defaults c
unfolding set_cluster_defaults
set_cluster_defaults_idem c = simp (set_parts_idem)
