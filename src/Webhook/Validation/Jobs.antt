-- ===== src/Webhook/Validation/Jobs.antt =====
-- internal/webhook/validating.go: the rules of the data loading jobs.
pub mod Sound
pub mod Bodies
pub mod Soundness
use cloudberry_k8s.Base.{
  ℕ, zero, suc, Bool, true, false, not, ◌&&◌, ◌||◌, Option, none, some, List, [], ◌∷◌, String,
  str_eq, if◌then◌else◌, map,
}
use cloudberry_k8s.Base.Int.{pos, ltb_ℤ}
use cloudberry_k8s.Api.DataLoading.{
  SecretReference, PxfKerberosSpec, PxfServerSpec, PxfCustomConnector, PxfExtensionsSpec, PxfSpec,
  GpfdistSpec, PartitioningSpec, ErrorHandlingSpec, PxfJobSpec, GploadInputSourceSpec,
  GploadJobSpec, DataLoadingJob, DataLoadingJobTemplate, DataLoadingSpec,
}
use cloudberry_k8s.PxfPolicy.{
  is_profile_writable, is_valid_pxf_profile, is_custom_connector_profile,
}
use cloudberry_k8s.Webhook.Defaults.Fields.{is_zero}
use cloudberry_k8s.Webhook.Validation.Errors.{
  Rule, Warning, Outcome, ◌>>◌, quiet, ◌<|>◌, reject_if, check_each, both_none, reject_if-none,
  check_each-All,
}
use cloudberry_k8s.Webhook.Validation.Cluster.{is_one_of, is_duration}
use cloudberry_k8s.Webhook.Validation.Backup.{is_cron, has_text}
use cloudberry_k8s.Webhook.Validation.Pxf.{ServerNames, Checked, rejected, passed, validate_pxf}
use cloudberry_k8s.Webhook.Validation.Gpload.{
  folds_to, contains_unsafe_sql_fragment, validate_gpload_job,
}

unfoldable pub validate_streaming_params : PxfJobSpec → ℕ → Option Rule
validate_streaming_params job i =
    reject_if (not (is_zero job.batch_size) && ltb_ℤ job.batch_size (pos 1)) (Rule.batch_size i)
    <|> reject_if (not (is_duration job.flush_interval)) (Rule.flush_interval i)

abbrev pub is_true : Option Bool → Bool
is_true none = false
is_true (some b) = b

abbrev pub is_writable_mode : PxfJobSpec → Bool
is_writable_mode job = folds_to job.mode "writable"

abbrev pub is_fdw : PxfJobSpec → Bool
is_fdw job = folds_to job.load_method "fdw"

unfoldable pub validate_load_method : PxfJobSpec → ℕ → Option Rule
validate_load_method job i =
    if not (is_one_of job.load_method ("" ∷ "external-table" ∷ "fdw" ∷ []))
    then some (Rule.load_method i)
    else if not (is_fdw job)
    then none
    else reject_if (is_writable_mode job) (Rule.fdw_writable i)
      <|> reject_if (is_true job.continuous) (Rule.fdw_continuous i)

unfoldable pub validate_source_filter : PxfJobSpec → ℕ → Option Rule
validate_source_filter job i =
    let is_fdw_read = is_fdw job && not (is_writable_mode job) in
    if str_eq job.source_filter ""
    then none
    else reject_if (not (is_writable_mode job) && not is_fdw_read) (Rule.source_filter_mode i)
      <|> reject_if (not (str_eq (contains_unsafe_sql_fragment job.source_filter) ""))
          (Rule.source_filter_unsafe i)

unfoldable pub validate_partitioning : Option PartitioningSpec → ℕ → Option Rule
validate_partitioning none i = none
validate_partitioning (some part) i =
    if str_eq part.column ""
    then none
    else reject_if (str_eq part.range "" || str_eq part.interval "") (Rule.partitioning i)

unfoldable pub validate_error_handling : Option ErrorHandlingSpec → ℕ → Option Rule
validate_error_handling none i = none
validate_error_handling (some eh) i =
    reject_if (not (is_one_of eh.segment_reject_limit_type ("" ∷ "rows" ∷ "percent" ∷ [])))
      (Rule.reject_limit_type i)

-- What `validatePxfJob` checks of a job that there is.
unfoldable pub validate_pxf_job : PxfJobSpec → ServerNames → ℕ → Option Rule
validate_pxf_job job servers i =
    reject_if (not (is_one_of job.server servers.names)) (Rule.pxf_job_server i)
    <|> reject_if
        (not (is_valid_pxf_profile job.profile) && not (is_custom_connector_profile job.profile))
        (Rule.pxf_job_profile i)
    <|> reject_if
        (is_custom_connector_profile job.profile
          && not (is_one_of job.server servers.connector_backed))
        (Rule.pxf_job_connector i)
    <|> validate_streaming_params job i
    <|> reject_if (is_writable_mode job && not (is_profile_writable job.profile))
        (Rule.write_unsupported i)
    <|> validate_load_method job i
    <|> validate_source_filter job i
    <|> reject_if (str_eq job.target_table "") (Rule.pxf_job_target i)
    <|> validate_partitioning job.partitioning i
    <|> validate_error_handling job.error_handling i

abbrev pub validate_pxf_pointer : String → Option PxfJobSpec → ServerNames → ℕ → Option Rule
validate_pxf_pointer schedule none servers i = some (Rule.pxf_job_required i)
validate_pxf_pointer schedule (some job) servers i =
    validate_pxf_job job servers i
    <|> reject_if (is_true job.continuous && has_text schedule) (Rule.job_continuous_schedule i)

unfoldable pub validate_data_loading_job_body : DataLoadingJob → ServerNames → ℕ → Option Rule
validate_data_loading_job_body job servers i =
    if not (str_eq job.type "pxf")
    then validate_gpload_job job.gpload_job i
    else validate_pxf_pointer job.schedule job.pxf_job servers i

-- One turn of the loop of `validateDataLoadingJobs`.
unfoldable pub validate_data_loading_job :
    ℕ → DataLoadingJob → ServerNames → List String → Option Rule
validate_data_loading_job i job servers seen =
    reject_if (str_eq job.name "") (Rule.job_name i)
    <|> reject_if (is_one_of job.name seen) (Rule.job_duplicate i)
    <|> reject_if (not (is_one_of job.type ("pxf" ∷ "gpload" ∷ []))) (Rule.job_type i)
    <|> validate_data_loading_job_body job servers i
    <|> reject_if (has_text job.schedule && not (is_cron job.schedule)) (Rule.job_schedule i)

unfoldable pub validate_data_loading_jobs :
    ℕ → List DataLoadingJob → ServerNames → List String → Option Rule
validate_data_loading_jobs i [] servers seen = none
validate_data_loading_jobs i (job ∷ jobs) servers seen =
    validate_data_loading_job i job servers seen
    <|> validate_data_loading_jobs (suc i) jobs servers (job.name ∷ seen)

abbrev pub jobs_after_servers : List DataLoadingJob → Checked ServerNames → Option Rule
jobs_after_servers jobs (rejected err) = some err
jobs_after_servers jobs (passed servers) = validate_data_loading_jobs 0 jobs servers []

unfoldable pub validate_data_loading : Option DataLoadingSpec → Option Rule
validate_data_loading none = none
validate_data_loading (some dl) =
    if not dl.enabled then none else jobs_after_servers dl.jobs (validate_pxf dl.pxf)
