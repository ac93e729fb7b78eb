-- ===== src/Webhook/Validation/Mirroring.antt =====
-- internal/webhook/validating.go: the rules of an update that turns mirroring on, off or around.
pub mod Enabling
use cloudberry_k8s.Base.{
  ℕ, zero, suc, ◌+◌, ◌-◌, ◌*◌, ◌%◌, ◌^◌, Bool, true, false, not, ◌&&◌, ◌||◌, Option, none, some,
  List, [], ◌∷◌, ◌++◌, String, str_eq, if◌then◌else◌, ltb,
}
use cloudberry_k8s.Base.Int.{ℤ, pos, negsuc, ltb_ℤ, leb_ℤ, ◌+ℤ◌}
use cloudberry_k8s.Api.Cluster.{
  ClusterAffinitySpec, StorageSpec, CoordinatorSpec, MirroringSpec, SegmentsSpec, BasicAuthSpec,
  OidcSpec, AuthSpec, HaSpec, VaultSpec, MonitoringSpec, TablespaceIoLimitSpec, ResourceGroupSpec,
  WorkloadRule, IdleSessionRule, WorkloadSpec, ExporterSpec, QueryMonitoringExportersSpec,
  QueryMonitoringSpec, RecommendationScanSpec, StorageManagementSpec, CloudberryClusterSpec,
  CloudberryCluster,
}
use cloudberry_k8s.Webhook.Validation.Errors.{
  Rule, Warning, Outcome, ◌>>◌, quiet, ◌<|>◌, reject_if, check_each, both_none, reject_if-none,
  check_each-All,
}
use cloudberry_k8s.Webhook.Validation.Cluster.{primaries_or_two}

-- A number in the range of int32, from its remainder modulo 2^32.
abbrev signed_32 : ℕ → ℤ
signed_32 n = if ltb n (2 ^ 31) then pos n else negsuc (2 ^ 32 - n - 1)

-- 2 * n on int32, which wraps around.
unfoldable pub twice_32 : ℤ → ℤ
twice_32 (pos n) = signed_32 (2 * n % 2 ^ 32)
twice_32 (negsuc n) = signed_32 ((2 ^ 32 - 2 * suc n % 2 ^ 32) % 2 ^ 32)

-- n + 1 on int32, which wraps around.
unfoldable pub next_32 : ℤ → ℤ
next_32 (pos n) = signed_32 (suc n % 2 ^ 32)
next_32 (negsuc n) = negsuc n +ℤ pos 1

abbrev is_enabled_mirroring : Option MirroringSpec → Bool
is_enabled_mirroring none = false
is_enabled_mirroring (some m) = m.enabled

unfoldable pub is_mirroring_enabled : CloudberryCluster → Bool
is_mirroring_enabled cluster = is_enabled_mirroring cluster.spec.segments.mirroring

-- The layout, where there is a mirroring spec to hold it.
abbrev pub layout_of : Option MirroringSpec → String
layout_of none = ""
layout_of (some m) = m.layout

abbrev pub layout : CloudberryCluster → String
layout cluster = layout_of cluster.spec.segments.mirroring

unfoldable pub validate_mirroring_layout_change :
    CloudberryCluster → CloudberryCluster → Bool → Outcome
validate_mirroring_layout_change old_cluster new_cluster both_enabled =
    if not both_enabled
    then ([], none)
    else if not (str_eq (layout old_cluster) (layout new_cluster))
    then ([], some Rule.mirroring_layout_change)
    else ([], none)

unfoldable pub validate_node_count_for_mirroring : String → ℤ → ℤ → Option Rule
validate_node_count_for_mirroring lay segment_count primaries_per_host =
    if str_eq lay "group"
    then reject_if (ltb_ℤ segment_count (twice_32 primaries_per_host)) Rule.group_segments
    else if str_eq lay "spread"
    then reject_if (leb_ℤ segment_count primaries_per_host) Rule.spread_segments
    else none

abbrev pub layout_or_group : String → String
layout_or_group lay = if str_eq lay "" then "group" else lay

abbrev warn_marginal : Bool → List Warning
warn_marginal true = Warning.spread_marginal ∷ []
warn_marginal false = []

-- Where the counts pass, a warning for a marginal spread.
abbrev pub enabled_outcome : Bool → Option Rule → Outcome
enabled_outcome is_marginal (some err) = ([], some err)
enabled_outcome is_marginal none = (warn_marginal is_marginal, none)

unfoldable pub validate_mirroring_enable : CloudberryCluster → CloudberryCluster → Outcome
validate_mirroring_enable old_cluster new_cluster =
    let seg = new_cluster.spec.segments in
    let lay = layout_or_group (layout new_cluster) in
    let per_host = primaries_or_two seg in
    if str_eq old_cluster.phase "" || str_eq old_cluster.phase "Initializing"
    then ([], none)
    else if not (str_eq old_cluster.phase "Running")
    then ([], some Rule.mirroring_phase)
    else enabled_outcome (str_eq lay "spread" && leb_ℤ seg.count (next_32 per_host))
        (validate_node_count_for_mirroring lay seg.count per_host)

abbrev same_bool : Bool → Bool → Bool
same_bool true b = b
same_bool false b = not b

unfoldable pub validate_mirroring_transition : CloudberryCluster → CloudberryCluster → Outcome
validate_mirroring_transition old_cluster new_cluster =
    let old_enabled = is_mirroring_enabled old_cluster in
    let new_enabled = is_mirroring_enabled new_cluster in
    if same_bool old_enabled new_enabled
    then validate_mirroring_layout_change old_cluster new_cluster old_enabled
    else if not old_enabled && new_enabled
    then validate_mirroring_enable old_cluster new_cluster
    else ([], none)
