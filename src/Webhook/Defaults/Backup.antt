-- ===== src/Webhook/Defaults/Backup.antt =====
-- internal/webhook/mutating.go: the defaults of the backup spec.
use cloudberry_k8s.Base.{true, false, Option, none, some, not, if◌then◌else◌}
use cloudberry_k8s.Base.Int.{pos}
use cloudberry_k8s.Api.Backup.{
  BackupRetention, GpbackupOptions, GprestoreOptions, BackupJobTemplate, BackupSpec,
}
use cloudberry_k8s.Webhook.Defaults.Fields.{text_or, int_or, pointer_or}

abbrev no_gpbackup : GpbackupOptions
no_gpbackup = record {
  compression_level = pos 0;
  compression_type = "";
  single_data_file = false;
  copy_queue_size = pos 0;
  jobs = pos 0;
  incremental = false;
  leaf_partition_data = false;
  with_stats = none;
  without_globals = false;
  no_compression = false;
}

unfoldable pub set_gpbackup_defaults : Option GpbackupOptions → GpbackupOptions
set_gpbackup_defaults o =
    let gp = pointer_or no_gpbackup o in
    record gp {
      compression_level = int_or (pos 1) gp.compression_level;
      compression_type = text_or "gzip" gp.compression_type;
      jobs = int_or (pos 1) gp.jobs;
      with_stats = some (pointer_or true gp.with_stats);
    }

abbrev no_gprestore : GprestoreOptions
no_gprestore = record {
  jobs = pos 0;
  create_db = false;
  with_globals = false;
  with_stats = none;
  run_analyze = false;
  on_error_continue = false;
  truncate_table = false;
  data_only = false;
  metadata_only = false;
  resize_cluster = false;
}

unfoldable pub set_gprestore_defaults : Option GprestoreOptions → GprestoreOptions
set_gprestore_defaults o =
    let gr = pointer_or no_gprestore o in
    record gr { jobs = int_or (pos 1) gr.jobs; with_stats = some (pointer_or false gr.with_stats) }

unfoldable pub set_backup_retention_defaults : BackupRetention → BackupRetention
set_backup_retention_defaults r = record r {
  full_count = int_or (pos 3) r.full_count;
  max_age = text_or "30d" r.max_age;
}

abbrev no_job_template : BackupJobTemplate
no_job_template = record {
  service_account_name = "";
  backoff_limit = none;
  active_deadline_seconds = none;
  ttl_seconds_after_finished = none;
}

unfoldable pub set_backup_job_template_defaults : Option BackupJobTemplate → BackupJobTemplate
set_backup_job_template_defaults o =
    let jt = pointer_or no_job_template o in
    record jt {
      backoff_limit = some (pointer_or (pos 2) jt.backoff_limit);
      active_deadline_seconds = some (pointer_or (pos 7200) jt.active_deadline_seconds);
      ttl_seconds_after_finished = some (pointer_or (pos 86400) jt.ttl_seconds_after_finished);
    }

unfoldable pub set_backup_defaults : BackupSpec → BackupSpec
set_backup_defaults backup = if not backup.enabled then backup else record backup {
  image = text_or "cloudberry-backup:2.1.0" backup.image;
  gpbackup = some (set_gpbackup_defaults backup.gpbackup);
  gprestore = some (set_gprestore_defaults backup.gprestore);
  retention = set_backup_retention_defaults backup.retention;
  job_template = some (set_backup_job_template_defaults backup.job_template);
}
