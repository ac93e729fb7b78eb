-- ===== src/Webhook/Stability/DataLoading.antt =====
-- internal/webhook: what the validating webhook says of a defaulted data loading spec.
use cloudberry_k8s.Base.{
  ℕ, suc, Option, none, some, List, [], ◌∷◌, String, ◌≡◌, refl, Bool-cases, inl, inr, map,
}
use cloudberry_k8s.Webhook.Defaults.Fields.{map_pointer, text_or-apply}
use cloudberry_k8s.Api.DataLoading.{
  PxfSpec, PxfJobSpec, GploadJobSpec, DataLoadingJob, DataLoadingSpec,
}
use cloudberry_k8s.Webhook.Defaults.DataLoading.{
  set_pxf_defaults, set_pxf_job_defaults, set_gpload_job_defaults, set_data_loading_job_defaults,
  set_data_loading_defaults,
}
use cloudberry_k8s.Webhook.Validation.Pxf.{ServerNames, Checked, rejected, passed, validate_pxf}
use cloudberry_k8s.Webhook.Validation.Jobs.{
  validate_streaming_params, validate_load_method, validate_source_filter, validate_pxf_job,
  validate_pxf_pointer, validate_data_loading_job_body, validate_data_loading_job,
  validate_data_loading_jobs, jobs_after_servers, validate_data_loading,
}
use cloudberry_k8s.Webhook.Validation.Gpload.{validate_gpload_mode, validate_gpload_job}

validate_pxf_lem :
    (p : Option PxfSpec) → validate_pxf (map_pointer set_pxf_defaults p) ≡ validate_pxf p
unfolding validate_pxf set_pxf_defaults map_pointer
validate_pxf_lem none = refl
validate_pxf_lem (some p) = refl

validate_pxf_pointer_lem :
    (schedule : String) (job : Option PxfJobSpec) (servers : ServerNames) (i : ℕ)
    → validate_pxf_pointer schedule (map_pointer set_pxf_job_defaults job) servers i
      ≡ validate_pxf_pointer schedule job servers i
unfolding validate_pxf_job validate_load_method validate_source_filter set_pxf_job_defaults
    map_pointer validate_streaming_params
validate_pxf_pointer_lem schedule none servers i = refl
validate_pxf_pointer_lem schedule (some job) servers i =
    text_or-apply
      (λ mode. validate_pxf_pointer schedule (some (record job { mode = mode })) servers i) "insert"
      job.mode refl

validate_gpload_job_lem :
    (job : Option GploadJobSpec) (i : ℕ)
    → validate_gpload_job (map_pointer set_gpload_job_defaults job) i ≡ validate_gpload_job job i
unfolding validate_gpload_job validate_gpload_mode set_gpload_job_defaults map_pointer
validate_gpload_job_lem none i = refl
validate_gpload_job_lem (some job) i =
    text_or-apply (λ mode. validate_gpload_job (some (record job { mode = mode })) i) "insert"
      job.mode refl

validate_data_loading_job_lem :
    (i : ℕ) (job : DataLoadingJob) (servers : ServerNames) (seen : List String)
    → validate_data_loading_job i (set_data_loading_job_defaults job) servers seen
      ≡ validate_data_loading_job i job servers seen
unfolding validate_data_loading_job validate_data_loading_job_body set_data_loading_job_defaults
validate_data_loading_job_lem i job servers seen =
    rw
      (
        validate_pxf_pointer_lem job.schedule job.pxf_job servers i,
        validate_gpload_job_lem job.gpload_job i,
      )
      refl

validate_data_loading_jobs_lem :
    (i : ℕ) (jobs : List DataLoadingJob) (servers : ServerNames) (seen : List String)
    → validate_data_loading_jobs i (map set_data_loading_job_defaults jobs) servers seen
      ≡ validate_data_loading_jobs i jobs servers seen
unfolding validate_data_loading_jobs set_data_loading_job_defaults
validate_data_loading_jobs_lem i [] servers seen = refl
validate_data_loading_jobs_lem i (job ∷ jobs) servers seen = cc (
  validate_data_loading_job_lem i job servers seen,
  validate_data_loading_jobs_lem (suc i) jobs servers (job.name ∷ seen),
)

jobs_after_servers_lem :
    (jobs : List DataLoadingJob) (servers : Checked ServerNames)
    → jobs_after_servers (map set_data_loading_job_defaults jobs) servers
      ≡ jobs_after_servers jobs servers
jobs_after_servers_lem jobs (rejected err) = refl
jobs_after_servers_lem jobs (passed servers) = validate_data_loading_jobs_lem 0 jobs servers []

-- Defaulting the data loading spec changes nothing of what the validator says of it.
pub validate_data_loading_lem :
    (dl : Option DataLoadingSpec)
    → validate_data_loading (map_pointer set_data_loading_defaults dl) ≡ validate_data_loading dl
unfolding validate_data_loading set_data_loading_defaults map_pointer
validate_data_loading_lem none = refl
validate_data_loading_lem (some dl) = elim (Bool-cases dl.enabled) [
  | inl e ↦ simp (e, validate_pxf_lem dl.pxf, jobs_after_servers_lem dl.jobs)
  | inr e ↦ simp (e)
]
