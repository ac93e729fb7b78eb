-- ===== src/Api/Backup.antt =====
-- api/v1alpha1/types.go: the backup part of the spec, with the fields that the admission webhooks
-- read or set.
use cloudberry_k8s.Base.{String, Bool, Option}
use cloudberry_k8s.Base.Int.{ℤ}

pub record BackupRetention : Type 0 where
  pub full_count : ℤ
  pub incremental_count : ℤ
  pub max_age : String

pub record S3VaultSecret : Type 0 where
  pub path : String

pub record S3CredentialSecret : Type 0 where
  pub name : String

pub record S3Destination : Type 0 where
  pub bucket : String
  pub credential_secret : Option S3CredentialSecret
  pub vault_secret : Option S3VaultSecret

pub record BackupDestination : Type 0 where
  pub type : String
  pub s3 : Option S3Destination

pub record GpbackupOptions : Type 0 where
  pub compression_level : ℤ
  pub compression_type : String
  pub single_data_file : Bool
  pub copy_queue_size : ℤ
  pub jobs : ℤ
  pub incremental : Bool
  pub leaf_partition_data : Bool
  pub with_stats : Option Bool
  pub without_globals : Bool
  pub no_compression : Bool

pub record GprestoreOptions : Type 0 where
  pub jobs : ℤ
  pub create_db : Bool
  pub with_globals : Bool
  pub with_stats : Option Bool
  pub run_analyze : Bool
  pub on_error_continue : Bool
  pub truncate_table : Bool
  pub data_only : Bool
  pub metadata_only : Bool
  pub resize_cluster : Bool

pub record BackupJobTemplate : Type 0 where
  pub service_account_name : String
  pub backoff_limit : Option ℤ
  pub active_deadline_seconds : Option ℤ
  pub ttl_seconds_after_finished : Option ℤ

pub record BackupSpec : Type 0 where
  pub enabled : Bool
  pub schedule : String
  pub retention : BackupRetention
  pub destination : BackupDestination
  pub gpbackup : Option GpbackupOptions
  pub gprestore : Option GprestoreOptions
  pub job_template : Option BackupJobTemplate
  pub image : String
