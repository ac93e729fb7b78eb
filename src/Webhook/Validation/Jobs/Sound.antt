-- ===== src/Webhook/Validation/Jobs/Sound.antt =====
-- internal/webhook/validating.go: what a data loading spec is that can be carried out.
use cloudberry_k8s.Base.{
  true, false, ◌||◌, Option, none, some, List, [], String, map, All, Any, ◌≡◌, ◌≢◌, ◌⊎◌,
}
use cloudberry_k8s.Api.DataLoading.{
  PxfServerSpec, PxfCustomConnector, PxfSpec, PxfJobSpec, GploadJobSpec, DataLoadingJob,
  DataLoadingSpec,
}
use cloudberry_k8s.PxfPolicy.{is_profile_writable, is_custom_connector_profile}
use cloudberry_k8s.Webhook.Validation.Cluster.{is_one_of}
use cloudberry_k8s.Webhook.Validation.Backup.{is_cron}
use cloudberry_k8s.Webhook.Validation.Pxf.{ServerNames}
use cloudberry_k8s.Webhook.Validation.Pxf.Servers.{
  server_names, IsNamed, IsConnected, IsDistinct, IsSoundServer,
}
use cloudberry_k8s.Webhook.Validation.Gpload.{folds_to}
use cloudberry_k8s.Webhook.Validation.Gpload.Fragments.{IsFree}
use cloudberry_k8s.Webhook.Validation.Jobs.{is_true, is_writable_mode, is_fdw}

abbrev pub servers_of : Option PxfSpec → List PxfServerSpec
servers_of none = []
servers_of (some pxf) = pxf.servers

abbrev pub connectors_of : Option PxfSpec → List PxfCustomConnector
connectors_of none = []
connectors_of (some pxf) = pxf.custom_connectors

-- A pxf job that can run: its server is there, a custom connector of that name backs it where the
-- profile wants one, what it writes can be written, it is not both an fdw load and a writable export,
-- its target is named, and no statement or comment hides in its filter.
abbrev pub IsSoundPxfJob : Option PxfSpec → PxfJobSpec → Type 0
IsSoundPxfJob pxf job =
    Any (IsNamed job.server) (servers_of pxf)
    × ((is_custom_connector_profile job.profile ≡ false)
        ⊎ Any (IsConnected (connectors_of pxf) job.server) (servers_of pxf))
    × ((is_writable_mode job ≡ false)
        ⊎ ((is_profile_writable job.profile ≡ true) × (is_fdw job ≡ false)))
    × (job.target_table ≢ "")
    × IsFree job.source_filter

abbrev pub IsSoundGploadJob : GploadJobSpec → Type 0
IsSoundGploadJob job =
    (job.target_table ≢ "")
    × (((folds_to job.mode "update" || folds_to job.mode "merge") ≡ false)
        ⊎ (job.match_columns ≢ []))
    × All IsFree job.post_actions

abbrev pub IsScheduled : String → Type 0
IsScheduled schedule = (schedule ≡ "") ⊎ (is_cron schedule ≡ true)

-- A job of either type has the body of that type, and a continuous one has no schedule.
abbrev pub IsSoundJob : Option PxfSpec → DataLoadingJob → Type 0
IsSoundJob pxf job =
    (job.name ≢ "")
    × IsScheduled job.schedule
    × (((job.type ≡ "gpload")
          × ((body : GploadJobSpec) × (job.gpload_job ≡ some body) × IsSoundGploadJob body))
        ⊎ ((job.type ≡ "pxf")
            × ((body : PxfJobSpec) × (job.pxf_job ≡ some body)
                × IsSoundPxfJob pxf body
                × ((is_true body.continuous ≡ false) ⊎ (job.schedule ≡ "")))))

-- The names that the servers of a spec leave.
abbrev pub AreServers : Option PxfSpec → ServerNames → Type 0
AreServers pxf known =
    ((n : String) → is_one_of n known.names ≡ true → Any (IsNamed n) (servers_of pxf))
    × ((n : String)
        → is_one_of n known.connector_backed ≡ true
        → Any (IsConnected (connectors_of pxf) n) (servers_of pxf))

abbrev pub job_names : List DataLoadingJob → List String
job_names jobs = map (λ job. job.name) jobs

-- Servers and jobs whose names are not empty and occur once, with every custom server backed by a
-- connector, and every job able to run.
abbrev pub IsSoundSpec : DataLoadingSpec → Type 0
IsSoundSpec dl =
    All (IsSoundServer (connectors_of dl.pxf)) (servers_of dl.pxf)
    × IsDistinct (server_names (servers_of dl.pxf))
    × All (IsSoundJob dl.pxf) dl.jobs
    × IsDistinct (job_names dl.jobs)
