-- ===== src/Webhook/Validation/Cluster.antt =====
-- internal/webhook/validating.go: the rules of the parts of a spec without rules across them.
use cloudberry_k8s.Base.{
  ℕ, Bool, true, false, not, ◌&&◌, ◌||◌, Option, none, some, List, [], ◌∷◌, ◌++◌, String, str_eq,
  if◌then◌else◌, leb, ◌==◌,
}
use cloudberry_k8s.Base.Int.{ℤ, pos, ltb_ℤ, leb_ℤ}
use cloudberry_k8s.Base.Text.{codes, same}
use cloudberry_k8s.Base.Duration.{parse_duration}
use cloudberry_k8s.Api.Cluster.{
  ClusterAffinitySpec, MirroringSpec, SegmentsSpec, OidcSpec, AuthSpec, VaultSpec,
  TablespaceIoLimitSpec, ResourceGroupSpec, WorkloadRule, IdleSessionRule, WorkloadSpec,
  QueryMonitoringSpec, RecommendationScanSpec, StorageManagementSpec, CloudberryClusterSpec,
}
use cloudberry_k8s.Webhook.Defaults.Fields.{is_zero}
use cloudberry_k8s.Webhook.Validation.Errors.{Rule, Warning, Outcome, ◌<|>◌, reject_if, check_each}

abbrev pub is_one_of : String → List String → Bool
is_one_of s [] = false
is_one_of s (t ∷ ts) = str_eq s t || is_one_of s ts

abbrev is_segment_mode : String → Bool
is_segment_mode mode = is_one_of mode ("segment-mirror" ∷ "full" ∷ [])

abbrev warn_if : Bool → Warning → List Warning → List Warning
warn_if true warning warnings = warnings ++ (warning ∷ [])
warn_if false warning warnings = warnings

unfoldable pub validate_affinity : Option ClusterAffinitySpec → List Warning → Outcome
validate_affinity none warnings = (warnings, none)
validate_affinity (some aff) warnings =
    if not (is_one_of aff.mode ("" ∷ "segment-mirror" ∷ "full" ∷ []))
    then (warnings, some Rule.affinity_mode)
    else if not (is_one_of aff.type ("" ∷ "preferred" ∷ "required" ∷ []))
    then (warnings, some Rule.affinity_type)
    else (
      warn_if (str_eq aff.type "required" && is_segment_mode aff.mode) Warning.required_best_effort
          warnings,
      none,
    )

-- Without a number of primaries per host, two.
abbrev pub primaries_or_two : SegmentsSpec → ℤ
primaries_or_two seg = if is_zero seg.primaries_per_host then pos 2 else seg.primaries_per_host

abbrev pub is_spread : Option MirroringSpec → Bool
is_spread none = false
is_spread (some m) = m.enabled && str_eq m.layout "spread"

unfoldable pub validate_segments : SegmentsSpec → List Warning → Outcome
validate_segments seg warnings =
    if ltb_ℤ seg.count (pos 1) then (warnings, some Rule.segments_count) else (
      warn_if (is_spread seg.mirroring && leb_ℤ seg.count (primaries_or_two seg))
          Warning.spread_hosts warnings,
      none,
    )

abbrev validate_oidc_spec : OidcSpec → Option Rule
validate_oidc_spec oidc =
    if not oidc.enabled
    then none
    else reject_if (str_eq oidc.issuer_url "") Rule.oidc_issuer_url
      <|> reject_if (str_eq oidc.client_id "") Rule.oidc_client_id

abbrev oidc_of : Option AuthSpec → Option OidcSpec
oidc_of none = none
oidc_of (some auth) = auth.oidc

abbrev validate_oidc_pointer : Option OidcSpec → Option Rule
validate_oidc_pointer none = none
validate_oidc_pointer (some oidc) = validate_oidc_spec oidc

-- `validateOIDC`
unfoldable pub validate_oidc : Option AuthSpec → Option Rule
validate_oidc auth = validate_oidc_pointer (oidc_of auth)

unfoldable pub validate_vault : Option VaultSpec → Option Rule
validate_vault none = none
validate_vault (some v) = reject_if (v.enabled && str_eq v.address "") Rule.vault_address

unfoldable pub validate_deletion_policy : String → Option Rule
validate_deletion_policy dp =
    reject_if (not (is_one_of dp ("" ∷ "Retain" ∷ "Delete" ∷ []))) Rule.deletion_policy

unfoldable pub validate_storage : CloudberryClusterSpec → Option Rule
validate_storage spec =
    reject_if (str_eq spec.coordinator.storage.size "") Rule.coordinator_storage_size
    <|> reject_if (str_eq spec.segments.storage.size "") Rule.segments_storage_size

abbrev is_letter_or_underscore : ℕ → Bool
is_letter_or_underscore c = c == 95 || (leb 65 c && leb c 90) || (leb 97 c && leb c 122)

abbrev is_identifier_code : ℕ → Bool
is_identifier_code c = is_letter_or_underscore c || (leb 48 c && leb c 57)

abbrev all_identifier_codes : List ℕ → Bool
all_identifier_codes [] = true
all_identifier_codes (c ∷ s) = is_identifier_code c && all_identifier_codes s

-- `tablespacePattern`: a SQL identifier, or *.
unfoldable pub tablespace_pattern : List ℕ → Bool
tablespace_pattern [] = false
tablespace_pattern (c ∷ s) =
    is_letter_or_underscore c && all_identifier_codes s || same (c ∷ s) (codes "*")

unfoldable pub validate_io_limit : ℕ → ℕ → TablespaceIoLimitSpec → Option Rule
validate_io_limit rg_index j io_limit =
    reject_if (str_eq io_limit.tablespace "") (Rule.io_limit_tablespace rg_index j)
    <|> reject_if (not (tablespace_pattern (codes io_limit.tablespace)))
        (Rule.io_limit_tablespace_pattern rg_index j)

unfoldable pub validate_resource_group_io_limits : ℕ → List TablespaceIoLimitSpec → Option Rule
validate_resource_group_io_limits rg_index io_limits =
    check_each (validate_io_limit rg_index) 0 io_limits

unfoldable pub validate_resource_group : ℕ → ResourceGroupSpec → Option Rule
validate_resource_group i rg =
    reject_if (str_eq rg.name "") (Rule.resource_group_name i)
    <|> validate_resource_group_io_limits i rg.io_limits

unfoldable pub validate_rule : ℕ → WorkloadRule → Option Rule
validate_rule i rule =
    reject_if (str_eq rule.name "") (Rule.rule_name i)
    <|> reject_if (str_eq rule.action "") (Rule.rule_action i)

unfoldable pub validate_idle_rule : ℕ → IdleSessionRule → Option Rule
validate_idle_rule i rule =
    reject_if (str_eq rule.name "") (Rule.idle_rule_name i)
    <|> reject_if (str_eq rule.resource_group "") (Rule.idle_rule_group i)
    <|> reject_if (str_eq rule.idle_timeout "") (Rule.idle_rule_timeout i)

unfoldable pub validate_workload : Option WorkloadSpec → Option Rule
validate_workload none = none
validate_workload (some w) =
    if not w.enabled
    then none
    else check_each validate_resource_group 0 w.resource_groups
      <|> check_each validate_rule 0 w.rules
      <|> check_each validate_idle_rule 0 w.idle_rules

unfoldable pub validate_query_monitoring : Option QueryMonitoringSpec → Option Rule
validate_query_monitoring none = none
validate_query_monitoring (some q) =
    reject_if (q.enabled && ltb_ℤ q.sampling_interval (pos 0)) Rule.sampling_interval

abbrev pub is_percent : ℤ → Bool
is_percent n = leb_ℤ (pos 0) n && leb_ℤ n (pos 100)

abbrev pub is_parsed : Option ℤ → Bool
is_parsed none = false
is_parsed (some d) = true

-- A duration that is left empty, or that time.ParseDuration reads.
abbrev pub is_duration : String → Bool
is_duration s = str_eq s "" || is_parsed (parse_duration (codes s))

unfoldable pub validate_scan : RecommendationScanSpec → Option Rule
validate_scan scan =
    if not scan.enabled
    then none
    else reject_if (not (is_percent scan.bloat_threshold)) Rule.bloat_threshold
      <|> reject_if (not (is_percent scan.skew_threshold)) Rule.skew_threshold
      <|> reject_if (not (is_percent scan.index_bloat_threshold)) Rule.index_bloat_threshold
      <|> reject_if (ltb_ℤ scan.age_threshold (pos 0)) Rule.age_threshold
      <|> reject_if (not (is_duration scan.scan_duration)) Rule.scan_duration

abbrev scan_of : Option StorageManagementSpec → Option RecommendationScanSpec
scan_of none = none
scan_of (some storage) = storage.recommendation_scan

abbrev pub validate_scan_pointer : Option RecommendationScanSpec → Option Rule
validate_scan_pointer none = none
validate_scan_pointer (some scan) = validate_scan scan

unfoldable pub validate_storage_management : Option StorageManagementSpec → Option Rule
validate_storage_management storage = validate_scan_pointer (scan_of storage)
