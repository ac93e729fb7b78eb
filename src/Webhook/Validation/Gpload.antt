-- ===== src/Webhook/Validation/Gpload.antt =====
-- internal/webhook/validating.go: the rules of a gpload job, and the scan for unsafe SQL.
pub mod Fragments
use cloudberry_k8s.Base.{
  ℕ, zero, suc, Bool, true, false, not, ◌&&◌, ◌||◌, Option, none, some, List, [], ◌∷◌, String,
  str_eq, if◌then◌else◌, map, length, ◌==◌,
}
use cloudberry_k8s.Base.Text.{codes, equal_fold, contains, has_prefix, trim_space}
use cloudberry_k8s.Api.DataLoading.{
  SecretReference, PxfKerberosSpec, PxfServerSpec, PxfCustomConnector, PxfExtensionsSpec, PxfSpec,
  GpfdistSpec, PartitioningSpec, ErrorHandlingSpec, PxfJobSpec, GploadInputSourceSpec,
  GploadJobSpec, DataLoadingJob, DataLoadingJobTemplate, DataLoadingSpec,
}
use cloudberry_k8s.Webhook.Defaults.Fields.{is_zero}
use cloudberry_k8s.Webhook.Validation.Errors.{
  Rule, Warning, Outcome, ◌>>◌, quiet, ◌<|>◌, reject_if, check_each, both_none, reject_if-none,
  check_each-All,
}
use cloudberry_k8s.Webhook.Validation.Pxf.{is_empty}

abbrev pub sql_predicate_forbidden : List String
sql_predicate_forbidden = ";" ∷ "--" ∷ "/*" ∷ []

abbrev pub first_contained : List ℕ → List String → String
first_contained s [] = ""
first_contained s (bad ∷ rest) = if contains s (codes bad) then bad else first_contained s rest

-- `containsUnsafeSQLFragment`
unfoldable pub contains_unsafe_sql_fragment : String → String
contains_unsafe_sql_fragment s = first_contained (codes s) sql_predicate_forbidden

abbrev pub folds_to : String → String → Bool
folds_to s t = equal_fold (codes s) (codes t)

abbrev validate_file_path : ℕ → ℕ → String → Option Rule
validate_file_path i j p =
    reject_if (has_prefix (trim_space (codes p)) (codes "file://")) (Rule.file_scheme i j)

unfoldable pub validate_gpload_file_paths : List String → ℕ → Option Rule
validate_gpload_file_paths file_paths i = check_each (validate_file_path i) 0 file_paths

unfoldable pub validate_gpload_input_source : Option GploadInputSourceSpec → ℕ → Option Rule
validate_gpload_input_source none i = none
validate_gpload_input_source (some src) i =
    reject_if
      (not (str_eq src.type "")
        && not (folds_to src.type "gpfdist")
        && not (folds_to src.type "local"))
      (Rule.input_source_type i)
    <|> reject_if
        (folds_to src.type "local" && (not (str_eq src.host "") || not (is_zero src.port)))
        (Rule.input_source_host i)

unfoldable pub validate_gpload_delimiter : String → ℕ → Option Rule
validate_gpload_delimiter delim i =
    reject_if (not (str_eq delim "") && not (length (codes delim) == 1)) (Rule.delimiter i)

unfoldable pub validate_gpload_mode : GploadJobSpec → ℕ → Option Rule
validate_gpload_mode job i =
    reject_if
      ((folds_to job.mode "update" || folds_to job.mode "merge") && is_empty job.match_columns)
      (Rule.match_columns i)

abbrev pub validate_post_action : ℕ → ℕ → String → Option Rule
validate_post_action i j action =
    reject_if (not (str_eq (contains_unsafe_sql_fragment action) "")) (Rule.post_action_unsafe i j)

unfoldable pub validate_gpload_post_actions : List String → ℕ → Option Rule
validate_gpload_post_actions post_actions i = check_each (validate_post_action i) 0 post_actions

unfoldable pub validate_gpload_job : Option GploadJobSpec → ℕ → Option Rule
validate_gpload_job none i = some (Rule.gpload_target i)
validate_gpload_job (some job) i =
    reject_if (str_eq job.target_table "") (Rule.gpload_target i)
    <|> validate_gpload_file_paths job.file_paths i
    <|> validate_gpload_input_source job.input_source i
    <|> validate_gpload_delimiter job.delimiter i
    <|> validate_gpload_mode job i
    <|> validate_gpload_post_actions job.post_actions i
