-- ===== src/Webhook/Stability.antt =====
-- internal/webhook: what the validating webhook says of a cluster that the mutating webhook
-- defaulted.
pub mod Parts
pub mod DataLoading
pub mod Backup
use mathlib.Core.Path.{subst}
use cloudberry_k8s.Base.{
  Option, none, some, List, [], ◌∷◌, String, ◌≡◌, refl, ap, sym, arith, ◌∙◌, str_eq, false, ◌≢◌,
}
use cloudberry_k8s.Api.Cluster.{
  ClusterAffinitySpec, StorageSpec, CoordinatorSpec, MirroringSpec, SegmentsSpec, BasicAuthSpec,
  OidcSpec, AuthSpec, HaSpec, VaultSpec, MonitoringSpec, TablespaceIoLimitSpec, ResourceGroupSpec,
  WorkloadRule, IdleSessionRule, WorkloadSpec, ExporterSpec, QueryMonitoringExportersSpec,
  QueryMonitoringSpec, RecommendationScanSpec, StorageManagementSpec, CloudberryClusterSpec,
  CloudberryCluster,
}
use cloudberry_k8s.Webhook.Defaults.{
  set_affinity_defaults, set_spec_defaults, set_coordinator_defaults, default_mirroring,
  set_layout_default, set_segment_defaults, set_oidc_defaults, set_auth_defaults, no_auth,
  set_ha_defaults, no_ha, default_monitoring, set_monitoring_defaults, set_resource_group_defaults,
  set_workload_defaults, default_exporter_image, set_exporter_image_defaults,
  set_query_monitoring_defaults, set_scan_defaults, set_storage_management_defaults, default_parts,
  set_cluster_defaults,
}
use cloudberry_k8s.Webhook.Defaults.Backup.{set_backup_defaults}
use cloudberry_k8s.Webhook.Defaults.Fields.{
  text_or, is_zero, int_or, pointer_or, list_or, map_pointer, pointer_or-some, list_or_idem,
  map_pointer_idem, map_idem, text_or_idem, int_or_idem, text_or-apply, int_or-apply,
}
use cloudberry_k8s.Webhook.Validation.{
  validate_cluster, ClusterList, check_duplicate_name, validate_create, validate_update, Admission,
  admission_result,
}
use cloudberry_k8s.Webhook.Validation.Errors.{
  Rule, Warning, Outcome, ◌>>◌, quiet, ◌<|>◌, reject_if, check_each, both_none, reject_if-none,
  check_each-All, Keeps, Agrees, eq-Keeps, eq-Agrees, quiet-Agrees, >>-Agrees,
}
use cloudberry_k8s.Webhook.Validation.Cluster.{
  is_one_of, validate_affinity, primaries_or_two, is_spread, validate_segments, validate_oidc,
  validate_vault, validate_deletion_policy, validate_storage, tablespace_pattern, validate_io_limit,
  validate_resource_group_io_limits, validate_resource_group, validate_rule, validate_idle_rule,
  validate_workload, validate_query_monitoring, is_percent, is_parsed, is_duration, validate_scan,
  validate_scan_pointer, validate_storage_management,
}
use cloudberry_k8s.Webhook.Validation.Backup.{
  has_text, validate_s3_vault_secret_path, validate_backup_destination, is_invalid_level,
  is_compression_type, validate_backup_gpbackup, validate_backup_gprestore, is_cron, backup_rules,
  validate_backup,
}
use cloudberry_k8s.Webhook.Validation.Jobs.{
  validate_streaming_params, is_true, is_writable_mode, is_fdw, validate_load_method,
  validate_source_filter, validate_partitioning, validate_error_handling, validate_pxf_job,
  validate_pxf_pointer, validate_data_loading_job_body, validate_data_loading_job,
  validate_data_loading_jobs, jobs_after_servers, validate_data_loading,
}
use cloudberry_k8s.Webhook.Stability.Parts.{
  validate_segments_lem, validate_affinity_lem, validate_oidc_lem, validate_deletion_policy_lem,
  validate_query_monitoring_lem, validate_storage_management_lem, validate_workload_lem,
}
use cloudberry_k8s.Webhook.Stability.DataLoading.{validate_data_loading_lem}
use cloudberry_k8s.Webhook.Stability.Backup.{text_or-set, text_or-set, validate_backup_lem}

-- The rules of a spec between those of the segments and those of the backup.
abbrev early_rules : CloudberryClusterSpec → Option Rule
early_rules spec =
    validate_oidc spec.auth
    <|> validate_vault spec.vault
    <|> validate_deletion_policy spec.deletion_policy
    <|> validate_storage spec
    <|> validate_workload spec.workload
    <|> validate_query_monitoring spec.query_monitoring

abbrev late_rules : CloudberryClusterSpec → Option Rule
late_rules spec =
    validate_data_loading spec.data_loading <|> validate_storage_management spec.storage

abbrev defaulted : CloudberryClusterSpec → CloudberryClusterSpec
defaulted spec = default_parts (set_spec_defaults spec)

-- A defaulted cluster has a storage size for each role.
validate_storage_lem : (spec : CloudberryClusterSpec) → validate_storage (defaulted spec) ≡ none
unfolding validate_storage default_parts set_spec_defaults set_coordinator_defaults
    set_segment_defaults
validate_storage_lem spec =
    rw
      (
        text_or-set "10Gi" spec.coordinator.storage.size refl,
        text_or-set "20Gi" spec.segments.storage.size refl,
      )
      refl

early_rules_lem :
    (spec : CloudberryClusterSpec) → Keeps (early_rules spec) (early_rules (defaulted spec))
unfolding default_parts set_spec_defaults
early_rules_lem spec h =
    let before =
      validate_oidc spec.auth
      <|> validate_vault spec.vault
      <|> validate_deletion_policy spec.deletion_policy in
    let with_storage = before <|> validate_storage spec in
    let with_workload = with_storage <|> validate_workload spec.workload in
    let last = both_none with_workload (validate_query_monitoring spec.query_monitoring) h in
    let workload = both_none with_storage (validate_workload spec.workload) (last.0) in
    let storage = both_none before (validate_storage spec) (workload.0) in
    rw
      (
        validate_oidc_lem spec.auth,
        validate_deletion_policy_lem spec.deletion_policy,
        storage.0,
        validate_storage_lem spec,
        validate_workload_lem spec.workload,
        workload.1,
        validate_query_monitoring_lem spec.query_monitoring,
      )
      (last.1)

late_rules_lem : (spec : CloudberryClusterSpec) → late_rules (defaulted spec) ≡ late_rules spec
unfolding default_parts set_spec_defaults
late_rules_lem spec =
    cc (validate_data_loading_lem spec.data_loading, validate_storage_management_lem spec.storage)

abbrev up_to_early : CloudberryClusterSpec → Outcome
up_to_early spec = validate_segments spec.segments [] >> quiet (early_rules spec)

abbrev up_to_backup : CloudberryClusterSpec → Outcome
up_to_backup spec = up_to_early spec >> validate_backup spec.backup

abbrev up_to_late : CloudberryClusterSpec → Outcome
up_to_late spec = up_to_backup spec >> quiet (late_rules spec)

up_to_early-Agrees :
    (spec : CloudberryClusterSpec) → Agrees (up_to_early spec) (up_to_early (defaulted spec))
unfolding default_parts set_spec_defaults
up_to_early-Agrees spec =
    >>-Agrees (validate_segments spec.segments [])
      (validate_segments (set_segment_defaults spec.segments) []) (quiet (early_rules spec))
      (quiet (early_rules (defaulted spec))) (eq-Agrees (validate_segments_lem spec.segments []))
      (λ w. quiet-Agrees (early_rules spec) (early_rules (defaulted spec)) w (early_rules_lem spec))

up_to_late-Agrees :
    (spec : CloudberryClusterSpec) → Agrees (up_to_late spec) (up_to_late (defaulted spec))
unfolding default_parts set_spec_defaults
up_to_late-Agrees spec =
    >>-Agrees (up_to_backup spec) (up_to_backup (defaulted spec)) (quiet (late_rules spec))
      (quiet (late_rules (defaulted spec)))
      (>>-Agrees (up_to_early spec) (up_to_early (defaulted spec)) (validate_backup spec.backup)
        (validate_backup (map_pointer set_backup_defaults spec.backup)) (up_to_early-Agrees spec)
        (validate_backup_lem spec.backup))
      (λ w.
        quiet-Agrees (late_rules spec) (late_rules (defaulted spec)) w
          (eq-Keeps (late_rules_lem spec)))

-- A cluster that validateCluster accepts, it accepts with the same warnings after setClusterDefaults.
pub validate_cluster-set_cluster_defaults :
    (c : CloudberryCluster) (w : List Warning)
    → validate_cluster c ≡ (w, none)
    → validate_cluster (set_cluster_defaults c) ≡ (w, none)
unfolding validate_cluster set_cluster_defaults default_parts set_spec_defaults
validate_cluster-set_cluster_defaults c w h =
    >>-Agrees (up_to_late c.spec) (up_to_late (defaulted c.spec))
      (validate_affinity c.spec.affinity)
      (validate_affinity (map_pointer set_affinity_defaults c.spec.affinity))
      (up_to_late-Agrees c.spec) (λ u. eq-Agrees (validate_affinity_lem c.spec.affinity u)) w h
