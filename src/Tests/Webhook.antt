-- ===== src/Tests/Webhook.antt =====
-- Clusters on which the theorems of the admission webhooks apply.
use cloudberry_k8s.Base.{true, false, none, some, List, [], ◌∷◌, String, ◌≡◌, refl, arith, eq_iff}
use cloudberry_k8s.Base.Int.{pos}
use cloudberry_k8s.Base.Duration.{parse_duration}
use cloudberry_k8s.Cron.Bytes.{cut, atoi, digits, fields, split}
use cloudberry_k8s.Cron.Parse.{
  insert_values, parse_bounded, parse_field, parse_part, parse_parts, parse_range, split_step,
}
use cloudberry_k8s.Cron.Schedule.{parse, parse_sets}
use cloudberry_k8s.Api.Cluster.{StorageSpec, CloudberryClusterSpec, CloudberryCluster}
use cloudberry_k8s.Api.Backup.{BackupSpec}
use cloudberry_k8s.Api.DataLoading.{
  PxfServerSpec, PxfSpec, PxfJobSpec, GploadJobSpec, DataLoadingJob, DataLoadingSpec,
}
use cloudberry_k8s.Webhook.Defaults.{set_cluster_defaults}
use cloudberry_k8s.Webhook.Defaults.Idempotence.{set_cluster_defaults_idem}
use cloudberry_k8s.Webhook.Stability.{validate_cluster-set_cluster_defaults}
use cloudberry_k8s.Webhook.Validation.{validate_cluster, validate_update}
use cloudberry_k8s.Webhook.Validation.Errors.{Warning, check_each}
use cloudberry_k8s.Webhook.Validation.Cluster.{
  validate_affinity, validate_segments, validate_oidc, validate_vault, validate_deletion_policy,
  validate_storage, validate_workload, validate_query_monitoring, validate_storage_management,
}
use cloudberry_k8s.Webhook.Validation.Backup.{
  validate_backup_destination, validate_backup_gpbackup, validate_backup_gprestore, is_cron,
  validate_backup,
}
use cloudberry_k8s.Webhook.Validation.Pxf.{
  validate_pxf_object_store_server, validate_pxf_server_type, validate_pxf_server_kerberos,
  validate_pxf_server, validate_pxf_servers, pxf_custom_connector_names, validate_pxf,
}
use cloudberry_k8s.Webhook.Validation.Gpload.{
  contains_unsafe_sql_fragment, validate_gpload_file_paths, validate_gpload_input_source,
  validate_gpload_delimiter, validate_gpload_mode, validate_gpload_post_actions,
  validate_gpload_job,
}
use cloudberry_k8s.Webhook.Validation.Jobs.{
  validate_streaming_params, validate_load_method, validate_source_filter, validate_partitioning,
  validate_error_handling, validate_pxf_job, validate_data_loading_job_body,
  validate_data_loading_job, validate_data_loading_jobs, validate_data_loading,
}
use cloudberry_k8s.Webhook.Validation.Jobs.Sound.{IsSoundSpec}
use cloudberry_k8s.Webhook.Validation.Jobs.Soundness.{validate_data_loading-IsSoundSpec}
use cloudberry_k8s.Webhook.Validation.Mirroring.{
  twice_32, next_32, is_mirroring_enabled, validate_mirroring_layout_change,
  validate_node_count_for_mirroring, validate_mirroring_enable, validate_mirroring_transition,
}
use cloudberry_k8s.Webhook.Validation.Mirroring.Enabling.{IsFit, validate_update-IsFit}
use cloudberry_k8s.PxfPolicy.{
  is_profile_writable, is_valid_pxf_profile, is_custom_connector_profile,
}

abbrev events : PxfServerSpec
events = record {
  name = "events";
  type = "custom";
  config = [];
  credential_secrets = [];
  kerberos = none;
}

abbrev lake : PxfServerSpec
lake = record {
  name = "lake";
  type = "gs";
  config = ("fs.s3a.endpoint", "storage.example.org") ∷ [];
  credential_secrets = [];
  kerberos = none;
}

abbrev pxf : PxfSpec
pxf = record {
  enabled = true;
  image = "pxf:7";
  port = pos 0;
  jvm_opts = "";
  log_level = "";
  extensions = none;
  servers = lake ∷ events ∷ [];
  custom_connectors = record { name = "events"; jar_url = "https://example.org/kafka.jar" } ∷ [];
}

-- A stream without an end.
abbrev consume : PxfJobSpec
consume = record {
  server = "events";
  profile = "kafka:json";
  target_table = "clicks";
  mode = "";
  load_method = "";
  source_filter = "";
  filter_pushdown = none;
  column_projection = some false;
  partitioning = none;
  error_handling = none;
  continuous = some true;
  batch_size = pos 500;
  flush_interval = "1.5s";
}

-- An export.
abbrev export_job : PxfJobSpec
export_job = record consume {
  server = "lake";
  profile = "GS:Parquet";
  mode = "writable";
  source_filter = "day > 3";
  continuous = none;
}

abbrev merge_job : GploadJobSpec
merge_job = record {
  target_table = "users";
  mode = "merge";
  input_source = none;
  file_paths = "gpfdist://host/users.csv" ∷ [];
  delimiter = ",";
  match_columns = "id" ∷ [];
  post_actions = "ANALYZE users" ∷ [];
}

abbrev jobs : List DataLoadingJob
jobs =
    record {
      name = "consume";
      type = "pxf";
      enabled = true;
      schedule = "";
      pxf_job = some consume;
      gpload_job = none;
    }
    ∷ record {
      name = "export";
      type = "pxf";
      enabled = true;
      schedule = "0 3 * * *";
      pxf_job = some export_job;
      gpload_job = none;
    }
    ∷ record {
      name = "merge";
      type = "gpload";
      enabled = true;
      schedule = "";
      pxf_job = none;
      gpload_job = some merge_job;
    }
    ∷ []

abbrev loading : DataLoadingSpec
loading = record {
  enabled = true;
  pxf = some pxf;
  gpfdist = none;
  jobs = jobs;
  job_template = none;
}

abbrev backup : BackupSpec
backup = record {
  enabled = true;
  schedule = "30 2 * * 0";
  retention = record { full_count = pos 0; incremental_count = pos 0; max_age = "" };
  destination = record { type = "local"; s3 = none };
  gpbackup = none;
  gprestore = none;
  job_template = none;
  image = "backup:1";
}

abbrev no_storage_class : String → StorageSpec
no_storage_class size = record { storage_class = ""; size = size }

abbrev spec : CloudberryClusterSpec
spec = record {
  version = "";
  image = "";
  image_pull_policy = "";
  coordinator = record { replicas = none; storage = no_storage_class "5Gi"; port = pos 0 };
  segments = record {
    count = pos 4;
    primaries_per_host = pos 0;
    mirroring = some (record { enabled = false; layout = "" });
    storage = no_storage_class "9Gi";
    anti_affinity = "";
  };
  affinity = some (record { mode = "full"; type = "required"; topology_key = "" });
  auth = none;
  ha = none;
  vault = none;
  monitoring = none;
  workload = none;
  query_monitoring = none;
  backup = some backup;
  data_loading = some loading;
  storage = none;
  deletion_policy = "";
}

abbrev cluster : CloudberryCluster
cluster = record { name = "sales"; namespace = "prod"; spec = spec; phase = "Running" }

set_cluster_defaults_idem_example :
    set_cluster_defaults (set_cluster_defaults cluster) ≡ set_cluster_defaults cluster
set_cluster_defaults_idem_example = set_cluster_defaults_idem cluster

loading_passes : validate_data_loading (some loading) ≡ none
unfolding validate_data_loading validate_pxf validate_pxf_servers validate_pxf_server
    validate_pxf_server_type validate_pxf_object_store_server validate_pxf_server_kerberos
    pxf_custom_connector_names validate_data_loading_jobs validate_data_loading_job
    validate_data_loading_job_body validate_pxf_job is_valid_pxf_profile cut
    is_custom_connector_profile validate_streaming_params parse_duration atoi digits fields split
    insert_values parse_bounded parse_field parse_part parse_parts parse_range split_step parse
    parse_sets is_profile_writable is_cron check_each contains_unsafe_sql_fragment
    validate_gpload_delimiter validate_gpload_file_paths validate_gpload_input_source
    validate_gpload_job validate_gpload_mode validate_gpload_post_actions validate_error_handling
    validate_load_method validate_partitioning validate_source_filter
loading_passes = refl

validate_data_loading-IsSoundSpec_example : IsSoundSpec loading
validate_data_loading-IsSoundSpec_example =
    validate_data_loading-IsSoundSpec loading refl loading_passes

cluster_passes : validate_cluster cluster ≡ (Warning.required_best_effort ∷ [], none)
unfolding validate_cluster validate_segments validate_oidc validate_vault validate_deletion_policy
    validate_storage validate_workload validate_query_monitoring validate_backup
    validate_backup_destination validate_backup_gpbackup validate_backup_gprestore
    validate_storage_management validate_affinity is_cron atoi digits fields split insert_values
    parse_bounded parse_field parse_part parse_parts parse_range split_step parse parse_sets cut
cluster_passes = rw loading_passes refl

validate_cluster-set_cluster_defaults_example :
    validate_cluster (set_cluster_defaults cluster) ≡ (Warning.required_best_effort ∷ [], none)
validate_cluster-set_cluster_defaults_example =
    validate_cluster-set_cluster_defaults cluster (Warning.required_best_effort ∷ []) cluster_passes

-- The cluster alone, with its mirroring turned on.
abbrev mirrored : CloudberryCluster
mirrored = record cluster {
  spec = record spec {
    affinity = none;
    backup = none;
    data_loading = none;
    segments = record spec.segments {
      mirroring = some (record { enabled = true; layout = "spread" });
    };
  };
}

mirrored_passes : validate_update cluster mirrored ≡ ([], none)
unfolding validate_update validate_cluster validate_segments validate_oidc validate_vault
    validate_deletion_policy validate_storage validate_workload validate_query_monitoring
    validate_backup validate_data_loading validate_storage_management validate_affinity
    is_mirroring_enabled next_32 twice_32 validate_mirroring_enable validate_mirroring_layout_change
    validate_mirroring_transition validate_node_count_for_mirroring
mirrored_passes = refl

validate_update-IsFit_example : IsFit cluster mirrored 2
validate_update-IsFit_example =
    validate_update-IsFit cluster mirrored 2 [] (unfold is_mirroring_enabled in refl)
      (unfold is_mirroring_enabled in refl) refl (omega arith) (ground (arith, eq_iff "Running" ""))
      (ground (arith, eq_iff "Running" "Initializing")) mirrored_passes

-- With 2^30 primaries on a host, twice as many is a negative int32: any segments are enough.
group_wraps : validate_node_count_for_mirroring "group" (pos 1) (pos 1073741824) ≡ none
unfolding validate_node_count_for_mirroring twice_32
group_wraps = refl
