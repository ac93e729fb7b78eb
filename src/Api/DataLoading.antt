-- ===== src/Api/DataLoading.antt =====
-- api/v1alpha1/types.go: the data loading part of the spec, with the fields that the admission
-- webhooks read or set. A map of strings is a list of its entries.
use cloudberry_k8s.Base.{String, Bool, Option, List}
use cloudberry_k8s.Base.Int.{ℤ}

pub record SecretReference : Type 0 where
  pub name : String
  pub key : String

pub record PxfKerberosSpec : Type 0 where
  pub principal : String
  pub keytab_secret : SecretReference

pub record PxfServerSpec : Type 0 where
  pub name : String
  pub type : String
  pub config : List (String × String)
  pub credential_secrets : List SecretReference
  pub kerberos : Option PxfKerberosSpec

pub record PxfCustomConnector : Type 0 where
  pub name : String
  pub jar_url : String

pub record PxfExtensionsSpec : Type 0 where
  pub pxf : Option Bool
  pub pxf_fdw : Option Bool

pub record PxfSpec : Type 0 where
  pub enabled : Bool
  pub image : String
  pub port : ℤ
  pub jvm_opts : String
  pub log_level : String
  pub extensions : Option PxfExtensionsSpec
  pub servers : List PxfServerSpec
  pub custom_connectors : List PxfCustomConnector

pub record GpfdistSpec : Type 0 where
  pub enabled : Bool
  pub replicas : Option ℤ
  pub image : String
  pub port : ℤ

pub record PartitioningSpec : Type 0 where
  pub column : String
  pub range : String
  pub interval : String

pub record ErrorHandlingSpec : Type 0 where
  pub segment_reject_limit : ℤ
  pub segment_reject_limit_type : String
  pub log_errors : Option Bool

pub record PxfJobSpec : Type 0 where
  pub server : String
  pub profile : String
  pub target_table : String
  pub mode : String
  pub load_method : String
  pub source_filter : String
  pub filter_pushdown : Option Bool
  pub column_projection : Option Bool
  pub partitioning : Option PartitioningSpec
  pub error_handling : Option ErrorHandlingSpec
  pub continuous : Option Bool
  pub batch_size : ℤ
  pub flush_interval : String

pub record GploadInputSourceSpec : Type 0 where
  pub type : String
  pub host : String
  pub port : ℤ

pub record GploadJobSpec : Type 0 where
  pub target_table : String
  pub mode : String
  pub input_source : Option GploadInputSourceSpec
  pub file_paths : List String
  pub delimiter : String
  pub match_columns : List String
  pub post_actions : List String

pub record DataLoadingJob : Type 0 where
  pub name : String
  pub type : String
  pub enabled : Bool
  pub schedule : String
  pub pxf_job : Option PxfJobSpec
  pub gpload_job : Option GploadJobSpec

pub record DataLoadingJobTemplate : Type 0 where
  pub service_account_name : String
  pub backoff_limit : Option ℤ
  pub active_deadline_seconds : Option ℤ
  pub ttl_seconds_after_finished : Option ℤ

pub record DataLoadingSpec : Type 0 where
  pub enabled : Bool
  pub pxf : Option PxfSpec
  pub gpfdist : Option GpfdistSpec
  pub jobs : List DataLoadingJob
  pub job_template : Option DataLoadingJobTemplate
