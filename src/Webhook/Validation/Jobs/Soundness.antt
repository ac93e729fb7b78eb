-- ===== src/Webhook/Validation/Jobs/Soundness.antt =====
-- internal/webhook/validating.go: the data loading specs that pass.
use mathlib.Core.Path.{subst}
use cloudberry_k8s.Base.{
  ℕ, suc, Bool, true, false, not, ◌&&◌, Option, none, some, List, [], ◌∷◌, String, str_eq, eq_iff,
  if◌then◌else◌, All, ◌≡◌, ◌⊎◌, inl, inr, refl, sym, ap, arith,
}
use cloudberry_k8s.Api.DataLoading.{PxfSpec, DataLoadingJob, DataLoadingSpec}
use cloudberry_k8s.Webhook.Validation.Errors.{Rule, both_none}
use cloudberry_k8s.Webhook.Validation.Cluster.{is_one_of}
use cloudberry_k8s.Webhook.Validation.Pxf.{
  ServerNames, Checked, rejected, passed, validate_pxf, validate_pxf_servers, no_servers,
  pxf_custom_connector_names,
}
use cloudberry_k8s.Webhook.Validation.Pxf.Servers.{
  server_names, names_or, IsNew, IsDistinct, IsSoundServer, validate_pxf_servers-All,
  validate_pxf_servers-IsDistinct, validate_pxf_servers-names, validate_pxf_servers-backed,
}
use cloudberry_k8s.Webhook.Validation.Jobs.{
  validate_data_loading_job, validate_data_loading_jobs, jobs_after_servers, validate_data_loading,
}
use cloudberry_k8s.Webhook.Validation.Jobs.Sound.{
  servers_of, connectors_of, IsSoundJob, AreServers, job_names, IsSoundSpec,
}
use cloudberry_k8s.Webhook.Validation.Jobs.Bodies.{validate_data_loading_job-IsSound}

module _ (pxf : Option PxfSpec) (known : ServerNames) (are : AreServers pxf known) where
  job_step :
      (i : ℕ) (job : DataLoadingJob) (jobs : List DataLoadingJob) (seen : List String)
      → validate_data_loading_jobs i (job ∷ jobs) known seen ≡ none
      → (IsSoundJob pxf job × (is_one_of job.name seen ≡ false))
        × (validate_data_loading_jobs (suc i) jobs known (job.name ∷ seen) ≡ none)
  unfolding validate_data_loading_jobs
  job_step i job jobs seen h =
      let both = both_none (validate_data_loading_job i job known seen) _ h in
      (validate_data_loading_job-IsSound pxf i job known seen are (both.0), both.1)

  jobs-All :
      (i : ℕ) (jobs : List DataLoadingJob) (seen : List String)
      → validate_data_loading_jobs i jobs known seen ≡ none
      → All (IsSoundJob pxf) jobs
  jobs-All i [] seen h = tt
  jobs-All i (job ∷ jobs) seen h =
      let step = job_step i job jobs seen h in
      (step.0.0, jobs-All (suc i) jobs (job.name ∷ seen) (step.1))

  jobs-IsNew :
      (i : ℕ) (jobs : List DataLoadingJob) (seen : List String) (n : String)
      → validate_data_loading_jobs i jobs known seen ≡ none
      → is_one_of n seen ≡ true
      → IsNew n (job_names jobs)
  jobs-IsNew i [] seen n h old = tt
  jobs-IsNew i (job ∷ jobs) seen n h old =
      let step = job_step i job jobs seen h in
      let fresh = step.0.1 in
      let kept : is_one_of n (job.name ∷ seen) ≡ true = ground (arith, old) in
      (
        λ e. absurd (ground (arith, fresh, subst (λ m. is_one_of m seen ≡ true) (sym e) old)),
        jobs-IsNew (suc i) jobs (job.name ∷ seen) n (step.1) kept,
      )

  jobs-IsDistinct :
      (i : ℕ) (jobs : List DataLoadingJob) (seen : List String)
      → validate_data_loading_jobs i jobs known seen ≡ none
      → IsDistinct (job_names jobs)
  jobs-IsDistinct i [] seen h = tt
  jobs-IsDistinct i (job ∷ jobs) seen h =
      let step = job_step i job jobs seen h in
      let own : is_one_of job.name (job.name ∷ seen) ≡ true =
        ground (arith, eq_iff job.name job.name) in
      (
        jobs-IsNew (suc i) jobs (job.name ∷ seen) job.name (step.1) own,
        jobs-IsDistinct (suc i) jobs (job.name ∷ seen) (step.1),
      )

passed_else :
    (test : Bool) (next : Checked ServerNames) (known : ServerNames)
    → (if test then rejected Rule.pxf_image else next) ≡ passed known
    → next ≡ passed known
passed_else true next known h = absurd (ground (arith, h))
passed_else false next known h = h

no_name : false ≡ true → ⊥
no_name h = ground (arith, h)

-- A set that begins empty holds nothing from before.
first_of {ℓ} : {A : Type ℓ} → A ⊎ (false ≡ true) → A
first_of (inl a) = a
first_of (inr h) = absurd (ground (arith, h))

-- What the servers of a spec are, with the names that they leave.
abbrev ArePassed : Option PxfSpec → ServerNames → Type 0
ArePassed pxf known =
    AreServers pxf known
    × All (IsSoundServer (connectors_of pxf)) (servers_of pxf)
    × IsDistinct (server_names (servers_of pxf))

validate_pxf-ArePassed :
    (pxf : Option PxfSpec) (known : ServerNames)
    → validate_pxf pxf ≡ passed known
    → ArePassed pxf known
unfolding validate_pxf
validate_pxf-ArePassed none known h =
    let empty = ap (names_or no_servers) h in
    (
      (
        λ n is. no_name (subst (λ k. is_one_of n k.names ≡ true) (sym empty) is),
        λ n is. no_name (subst (λ k. is_one_of n k.connector_backed ≡ true) (sym empty) is),
      ),
      tt,
      tt,
    )
validate_pxf-ArePassed (some pxf) known h =
    let cs = pxf.custom_connectors in
    let loop = validate_pxf_servers 0 pxf.servers (pxf_custom_connector_names cs) no_servers in
    let with_image : loop ≡ passed known =
      passed_else (pxf.enabled && str_eq pxf.image "") loop known h in
    (
      (
        λ n is.
            first_of (validate_pxf_servers-names cs 0 pxf.servers no_servers known n with_image is),
        λ n is.
            first_of
              (validate_pxf_servers-backed cs 0 pxf.servers no_servers known n with_image is),
      ),
      validate_pxf_servers-All cs 0 pxf.servers no_servers known with_image,
      validate_pxf_servers-IsDistinct cs 0 pxf.servers no_servers known with_image,
    )

after_servers-IsSoundSpec :
    (dl : DataLoadingSpec) (known : Checked ServerNames)
    → validate_pxf dl.pxf ≡ known
    → jobs_after_servers dl.jobs known ≡ none
    → IsSoundSpec dl
after_servers-IsSoundSpec dl (rejected err) e h = absurd (ground (arith, h))
after_servers-IsSoundSpec dl (passed known) e h =
    let passed_servers = validate_pxf-ArePassed dl.pxf known e in
    let are = passed_servers.0 in
    (
      passed_servers.1,
      passed_servers.2,
      jobs-All dl.pxf known are 0 dl.jobs [] h,
      jobs-IsDistinct dl.pxf known are 0 dl.jobs [] h,
    )

-- A data loading spec that is enabled and that the validator accepts is sound: the names of its
-- servers and of its jobs are not empty and occur once, every custom server has a connector of its
-- name, every pxf job refers to a server, to one with a connector where its profile wants one, writes
-- only what can be written, and carries no end of a statement or comment in its filter, and every
-- gpload job has a target, and columns to match by where its mode is update or merge.
pub validate_data_loading-IsSoundSpec :
    (dl : DataLoadingSpec)
    → dl.enabled ≡ true
    → validate_data_loading (some dl) ≡ none
    → IsSoundSpec dl
unfolding validate_data_loading
validate_data_loading-IsSoundSpec dl e h = after_servers-IsSoundSpec dl (validate_pxf dl.pxf) refl (
    subst (λ t. (if not t then none else jobs_after_servers dl.jobs (validate_pxf dl.pxf)) ≡ none) e
      h)
