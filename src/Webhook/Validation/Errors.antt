-- ===== src/Webhook/Validation/Errors.antt =====
-- internal/webhook/validating.go: what a validation returns. An error is the rule that rejects, with
-- the indices in its message; the values that a message quotes are left out.
use cloudberry_k8s.Base.{
  ℕ, ap, ◌∙◌, suc, arith, Option, none, some, List, [], ◌∷◌, ◌≡◌, Bool, true, false, refl,
}
use cloudberry_k8s.Base.{All}

pub data Rule : Type 0 where
  admission_internal duplicate_cluster : Rule
  segments_count oidc_issuer_url oidc_client_id vault_address deletion_policy : Rule
  coordinator_storage_size segments_storage_size : Rule
  resource_group_name : ℕ → Rule
  io_limit_tablespace io_limit_tablespace_pattern : ℕ → ℕ → Rule
  rule_name rule_action idle_rule_name idle_rule_group idle_rule_timeout : ℕ → Rule
  sampling_interval : Rule
  destination_type_required destination_type s3_bucket s3_credentials : Rule
  vault_path_empty vault_path_slash : Rule
  compression_level compression_type copy_queue_size jobs_with_single_file : Rule
  incremental_leaf_partition data_and_metadata_only backup_schedule backup_image : Rule
  bloat_threshold skew_threshold index_bloat_threshold age_threshold scan_duration : Rule
  affinity_mode affinity_type : Rule
  pxf_image : Rule
  server_name server_duplicate server_type server_endpoint server_credentials : ℕ → Rule
  server_jdbc_driver server_jdbc_url server_default_fs server_connector : ℕ → Rule
  kerberos_server_type kerberos_principal kerberos_name kerberos_key : ℕ → Rule
  job_name job_duplicate job_type job_schedule job_continuous_schedule : ℕ → Rule
  pxf_job_required pxf_job_server pxf_job_profile pxf_job_connector : ℕ → Rule
  batch_size flush_interval write_unsupported load_method : ℕ → Rule
  fdw_writable fdw_continuous source_filter_mode source_filter_unsafe : ℕ → Rule
  pxf_job_target partitioning reject_limit_type : ℕ → Rule
  gpload_target input_source_type input_source_host delimiter match_columns : ℕ → Rule
  file_scheme post_action_unsafe : ℕ → ℕ → Rule
  mirroring_layout_change mirroring_phase group_segments spread_segments : Rule

pub data Warning : Type 0 where
  spread_hosts spread_marginal required_best_effort kv2_request_path : Warning

-- The warnings so far, and the error.
abbrev pub Outcome : Type 0
Outcome = List Warning × Option Rule

infixl 5 ◌>>◌
-- if err := step; err != nil { return warnings, err }
abbrev pub ◌>>◌ : Outcome → (List Warning → Outcome) → Outcome
(warnings, none) >> next = next warnings
(warnings, some err) >> next = (warnings, some err)

-- A step that warns of nothing.
abbrev pub quiet : Option Rule → List Warning → Outcome
quiet err warnings = (warnings, err)

infixl 6 ◌<|>◌
-- if err := step; err != nil { return err }
abbrev pub ◌<|>◌ : Option Rule → Option Rule → Option Rule
none <|> next = next
some err <|> next = some err

-- if test { return err }
abbrev pub reject_if : Bool → Rule → Option Rule
reject_if true err = some err
reject_if false err = none

module _ {ℓ} {A : Type ℓ} where
  -- A loop over a list, with the index, up to the first error.
  unfoldable pub check_each : (ℕ → A → Option Rule) → ℕ → List A → Option Rule
  check_each check i [] = none
  check_each check i (x ∷ xs) = check i x <|> check_each check (suc i) xs

pub both_none : (a b : Option Rule) → (a <|> b) ≡ none → (a ≡ none) × (b ≡ none)
both_none a b h = ground arith

pub reject_if-none : (test : Bool) (err : Rule) → reject_if test err ≡ none → test ≡ false
reject_if-none test err h = ground arith

-- A loop that rejects nothing checks every element, each at its index.
pub check_each-All {ℓ} :
    {A : Type ℓ} (check : ℕ → A → Option Rule) (i : ℕ) (xs : List A)
    → check_each check i xs ≡ none
    → All (λ x. (j : ℕ) × (check j x ≡ none)) xs
unfolding check_each
check_each-All check i [] h = tt
check_each-All check i (x ∷ xs) h =
    let e = both_none (check i x) (check_each check (suc i) xs) h in
    ((i, e.0), check_each-All check (suc i) xs e.1)

-- A step and what follows it return no error only if neither does.
pub >>-none :
    (o : Outcome) (next : List Warning → Outcome) (v : List Warning)
    → o >> next ≡ (v, none)
    → (w : List Warning) × (o ≡ (w, none)) × (next w ≡ (v, none))
>>-none (w, none) next v h = (w, refl, h)
>>-none (w, some err) next v h = ground arith

-- What the second returns is without an error wherever what the first returns is.
abbrev pub Keeps : Option Rule → Option Rule → Type 0
Keeps e f = e ≡ none → f ≡ none

-- The second outcome is the first, wherever that is without an error.
abbrev pub Agrees : Outcome → Outcome → Type 0
Agrees o p = (v : List Warning) → o ≡ (v, none) → p ≡ (v, none)

pub eq-Keeps : {e f : Option Rule} → f ≡ e → Keeps e f
eq-Keeps p h = p ∙ h

pub eq-Agrees : {o p : Outcome} → p ≡ o → Agrees o p
eq-Agrees e v h = e ∙ h

pub <|>-Keeps : (a b c d : Option Rule) → Keeps a c → Keeps b d → Keeps (a <|> b) (c <|> d)
<|>-Keeps a b c d ac bd h = let each = both_none a b h in rw (ac (each.0), bd (each.1)) refl

pub quiet-Agrees :
    (e f : Option Rule) (w : List Warning) → Keeps e f → Agrees (quiet e w) (quiet f w)
quiet-Agrees e f w k v h = rw (k (ap (λ o. o.1) h)) (ap (λ o. (o.0, none)) h)

pub >>-Agrees :
    (o p : Outcome) (next after : List Warning → Outcome)
    → Agrees o p
    → ((w : List Warning) → Agrees (next w) (after w))
    → Agrees (o >> next) (p >> after)
>>-Agrees o p next after op na v h =
    let steps = >>-none o next v h in rw (op (steps.0) (steps.1)) (na (steps.0) v (steps.2))
