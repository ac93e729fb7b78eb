-- ===== src/Webhook/Defaults/DataLoading.antt =====
-- internal/webhook/mutating.go: the defaults of the data loading spec.
use cloudberry_k8s.Base.{true, Option, none, some, not, map, if◌then◌else◌}
use cloudberry_k8s.Base.Int.{pos}
use cloudberry_k8s.Api.DataLoading.{
  PxfExtensionsSpec, PxfSpec, GpfdistSpec, PxfJobSpec, GploadJobSpec, DataLoadingJob,
  DataLoadingJobTemplate, DataLoadingSpec,
}
use cloudberry_k8s.Webhook.Defaults.Fields.{text_or, int_or, pointer_or, map_pointer}

abbrev no_extensions : PxfExtensionsSpec
no_extensions = record { pxf = none; pxf_fdw = none }

abbrev set_extensions_defaults : PxfExtensionsSpec → PxfExtensionsSpec
set_extensions_defaults e = record e {
  pxf = some (pointer_or true e.pxf);
  pxf_fdw = some (pointer_or true e.pxf_fdw);
}

unfoldable pub set_pxf_defaults : PxfSpec → PxfSpec
set_pxf_defaults pxf = record pxf {
  port = int_or (pos 5888) pxf.port;
  jvm_opts = text_or "-Xmx1g -Xms256m" pxf.jvm_opts;
  log_level = text_or "INFO" pxf.log_level;
  extensions = some (set_extensions_defaults (pointer_or no_extensions pxf.extensions));
}

unfoldable pub set_gpfdist_defaults : GpfdistSpec → GpfdistSpec
set_gpfdist_defaults g = record g {
  replicas = some (pointer_or (pos 1) g.replicas);
  port = int_or (pos 8080) g.port;
}

unfoldable pub set_pxf_job_defaults : PxfJobSpec → PxfJobSpec
set_pxf_job_defaults j = record j {
  mode = text_or "insert" j.mode;
  filter_pushdown = some (pointer_or true j.filter_pushdown);
  column_projection = some (pointer_or true j.column_projection);
}

unfoldable pub set_gpload_job_defaults : GploadJobSpec → GploadJobSpec
set_gpload_job_defaults j = record j { mode = text_or "insert" j.mode }

-- One turn of the loop of `setDataLoadingJobDefaults`
unfoldable pub set_data_loading_job_defaults : DataLoadingJob → DataLoadingJob
set_data_loading_job_defaults job = record job {
  pxf_job = map_pointer set_pxf_job_defaults job.pxf_job;
  gpload_job = map_pointer set_gpload_job_defaults job.gpload_job;
}

abbrev no_job_template : DataLoadingJobTemplate
no_job_template = record {
  service_account_name = "";
  backoff_limit = none;
  active_deadline_seconds = none;
  ttl_seconds_after_finished = none;
}

unfoldable pub set_data_loading_job_template_defaults :
    Option DataLoadingJobTemplate → DataLoadingJobTemplate
set_data_loading_job_template_defaults o =
    let jt = pointer_or no_job_template o in
    record jt {
      backoff_limit = some (pointer_or (pos 3) jt.backoff_limit);
      active_deadline_seconds = some (pointer_or (pos 14400) jt.active_deadline_seconds);
      ttl_seconds_after_finished = some (pointer_or (pos 86400) jt.ttl_seconds_after_finished);
    }

unfoldable pub set_data_loading_defaults : DataLoadingSpec → DataLoadingSpec
set_data_loading_defaults dl = if not dl.enabled then dl else record dl {
  pxf = map_pointer set_pxf_defaults dl.pxf;
  gpfdist = map_pointer set_gpfdist_defaults dl.gpfdist;
  jobs = map set_data_loading_job_defaults dl.jobs;
  job_template = some (set_data_loading_job_template_defaults dl.job_template);
}
