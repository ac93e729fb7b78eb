-- ===== src/Webhook/Validation/Jobs/Bodies.antt =====
-- internal/webhook/validating.go: one data loading job that passes.
use mathlib.Core.Path.{subst}
use cloudberry_k8s.Base.{
  ℕ, suc, Bool, true, false, not, ◌&&◌, ◌||◌, Option, none, some, List, [], ◌∷◌, String, str_eq,
  eq_iff, if◌then◌else◌, All, ◌≡◌, ◌≢◌, ◌⊎◌, inl, inr, refl, sym, arith, Bool-cases,
}
use cloudberry_k8s.Api.DataLoading.{PxfSpec, PxfJobSpec, GploadJobSpec, DataLoadingJob}
use cloudberry_k8s.PxfPolicy.{is_profile_writable, is_custom_connector_profile}
use cloudberry_k8s.Webhook.Validation.Errors.{check_each, both_none}
use cloudberry_k8s.Webhook.Validation.Cluster.{is_one_of}
use cloudberry_k8s.Webhook.Validation.Backup.{is_cron, has_text}
use cloudberry_k8s.Webhook.Validation.Pxf.{ServerNames, is_empty}
use cloudberry_k8s.Webhook.Validation.Gpload.{
  validate_post_action, contains_unsafe_sql_fragment, folds_to, validate_gpload_mode,
  validate_gpload_post_actions, validate_gpload_job,
}
use cloudberry_k8s.Webhook.Validation.Gpload.Fragments.{IsFree, contains_unsafe_sql_fragment-IsFree}
use cloudberry_k8s.Webhook.Validation.Jobs.{
  is_true, is_writable_mode, is_fdw, validate_load_method, validate_source_filter, validate_pxf_job,
  validate_pxf_pointer, validate_data_loading_job_body, validate_data_loading_job,
}
use cloudberry_k8s.Webhook.Validation.Jobs.Sound.{
  IsSoundPxfJob, IsSoundGploadJob, IsSoundJob, AreServers,
}

no_filter-IsFree : IsFree ""
unfolding contains_unsafe_sql_fragment
no_filter-IsFree = contains_unsafe_sql_fragment-IsFree "" refl

validate_source_filter-IsFree :
    (job : PxfJobSpec) (i : ℕ) → validate_source_filter job i ≡ none → IsFree job.source_filter
unfolding validate_source_filter
validate_source_filter-IsFree job i h = elim (Bool-cases (str_eq job.source_filter "")) [
  | inl e ↦ subst IsFree (sym ((eq_iff job.source_filter "").0 e)) no_filter-IsFree
  | inr e ↦ contains_unsafe_sql_fragment-IsFree job.source_filter (ground (arith, e, h))
]

validate_load_method-fdw :
    (job : PxfJobSpec) (i : ℕ)
    → validate_load_method job i ≡ none
    → is_writable_mode job ≡ true
    → is_fdw job ≡ false
unfolding validate_load_method
validate_load_method-fdw job i h writable = ground (arith, h, writable)

-- What a test for the writable mode lets through.
writable_cases :
    (job : PxfJobSpec) (i : ℕ)
    → (is_writable_mode job && not (is_profile_writable job.profile)) ≡ false
    → validate_load_method job i ≡ none
    → (is_writable_mode job ≡ false)
      ⊎ ((is_profile_writable job.profile ≡ true) × (is_fdw job ≡ false))
writable_cases job i h load = elim (Bool-cases (is_writable_mode job)) [
  | inl e ↦ inr (ground (arith, e, h), validate_load_method-fdw job i load e)
  | inr e ↦ inl e
]

validate_pxf_job-IsSound :
    (pxf : Option PxfSpec) (job : PxfJobSpec) (known : ServerNames) (i : ℕ)
    → AreServers pxf known
    → validate_pxf_job job known i ≡ none
    → IsSoundPxfJob pxf job
unfolding validate_pxf_job
validate_pxf_job-IsSound pxf job known i are h =
    let is_custom = is_custom_connector_profile job.profile in
    let is_backed = is_one_of job.server known.connector_backed in
    let server : is_one_of job.server known.names ≡ true = ground (arith, h) in
    let backed : (is_custom && not is_backed) ≡ false = ground (arith, h) in
    let writable : (is_writable_mode job && not (is_profile_writable job.profile)) ≡ false =
      ground (arith, h) in
    let load : validate_load_method job i ≡ none = ground (arith, h) in
    let filter : validate_source_filter job i ≡ none = ground (arith, h) in
    let target : str_eq job.target_table "" ≡ false = ground (arith, h) in
    (
      are.0 job.server server,
      elim (Bool-cases is_custom) [
        | inl e ↦ inr (are.1 job.server (ground (arith, e, backed)))
        | inr e ↦ inl e
      ],
      writable_cases job i writable load,
      ground (arith, target, eq_iff job.target_table ""),
      validate_source_filter-IsFree job i filter,
    )

post_actions-All :
    (i j : ℕ) (actions : List String)
    → check_each (validate_post_action i) j actions ≡ none
    → All IsFree actions
unfolding check_each
post_actions-All i j [] h = tt
post_actions-All i j (action ∷ actions) h =
    let both = both_none (validate_post_action i j action) _ h in
    let scanned : str_eq (contains_unsafe_sql_fragment action) "" ≡ true = ground (arith, both) in
    (
      contains_unsafe_sql_fragment-IsFree action scanned,
      post_actions-All i (suc j) actions (both.1),
    )

is_empty-false {ℓ} : {A : Type ℓ} (xs : List A) → is_empty xs ≡ false → xs ≢ []
is_empty-false [] h = ground (arith, h)
is_empty-false (x ∷ xs) h = ground arith

validate_gpload_job-IsSound :
    (job : GploadJobSpec) (i : ℕ) → validate_gpload_job (some job) i ≡ none → IsSoundGploadJob job
unfolding validate_gpload_job validate_gpload_mode validate_gpload_post_actions
validate_gpload_job-IsSound job i h =
    let target : str_eq job.target_table "" ≡ false = ground (arith, h) in
    let is_update = folds_to job.mode "update" || folds_to job.mode "merge" in
    let mode : (is_update && is_empty job.match_columns) ≡ false = ground (arith, h) in
    let actions : check_each (validate_post_action i) 0 job.post_actions ≡ none =
      ground (arith, h) in
    (
      ground (arith, target, eq_iff job.target_table ""),
      elim (Bool-cases is_update) [
        | inl e ↦ inr (is_empty-false job.match_columns (ground (arith, e, mode)))
        | inr e ↦ inl e
      ],
      post_actions-All i 0 job.post_actions actions,
    )

gpload_body :
    (o : Option GploadJobSpec) (i : ℕ)
    → validate_gpload_job o i ≡ none
    → (body : GploadJobSpec) × (o ≡ some body) × IsSoundGploadJob body
gpload_body none i h = unfold validate_gpload_job in absurd (ground (arith, h))
gpload_body (some body) i h = (body, refl, validate_gpload_job-IsSound body i h)

pxf_body :
    (pxf : Option PxfSpec) (schedule : String) (o : Option PxfJobSpec) (known : ServerNames) (i : ℕ)
    → AreServers pxf known
    → validate_pxf_pointer schedule o known i ≡ none
    → (body : PxfJobSpec) × (o ≡ some body)
      × IsSoundPxfJob pxf body
      × ((is_true body.continuous ≡ false) ⊎ (schedule ≡ ""))
pxf_body pxf schedule none known i are h = absurd (ground (arith, h))
pxf_body pxf schedule (some body) known i are h =
    let both = both_none (validate_pxf_job body known i) _ h in
    let apart : (is_true body.continuous && has_text schedule) ≡ false = ground (arith, both) in
    (
      body,
      refl,
      validate_pxf_job-IsSound pxf body known i are (both.0),
      elim (Bool-cases (is_true body.continuous)) [
        | inl e ↦ inr (ground (arith, e, apart, eq_iff schedule ""))
        | inr e ↦ inl e
      ],
    )

pub validate_data_loading_job-IsSound :
    (pxf : Option PxfSpec) (i : ℕ) (job : DataLoadingJob) (known : ServerNames) (seen : List String)
    → AreServers pxf known
    → validate_data_loading_job i job known seen ≡ none
    → IsSoundJob pxf job × (is_one_of job.name seen ≡ false)
unfolding validate_data_loading_job validate_data_loading_job_body
validate_data_loading_job-IsSound pxf i job known seen are h =
    let body = validate_data_loading_job_body job known i in
    let named : str_eq job.name "" ≡ false = ground (arith, h) in
    let fresh : is_one_of job.name seen ≡ false = ground (arith, h) in
    let typed : is_one_of job.type ("pxf" ∷ "gpload" ∷ []) ≡ true = ground (arith, h) in
    let schedule : (has_text job.schedule && not (is_cron job.schedule)) ≡ false =
      ground (arith, h) in
    let passed_body : body ≡ none = ground (arith, h) in
    let opened = λ (test : Bool) (e : str_eq job.type "pxf" ≡ test).
      subst
        (λ t.
          (if not t
            then validate_gpload_job job.gpload_job i
            else validate_pxf_pointer job.schedule job.pxf_job known i)
          ≡ none)
        e passed_body in
    (
      (
        ground (arith, named, eq_iff job.name ""),
        elim (Bool-cases (str_eq job.schedule "")) [
          | inl e ↦ inl ((eq_iff job.schedule "").0 e)
          | inr e ↦ inr (ground (arith, e, schedule))
        ],
        elim (Bool-cases (str_eq job.type "pxf")) [
          | inl e ↦
              (let body = pxf_body pxf job.schedule job.pxf_job known i are (opened true e) in
                inr ((eq_iff job.type "pxf").0 e, body))
          | inr e ↦
              (let body = gpload_body job.gpload_job i (opened false e) in
                inl (ground (arith, e, typed, eq_iff job.type "gpload"), body))
        ],
      ),
      fresh,
    )
