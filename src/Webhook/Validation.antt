-- ===== src/Webhook/Validation.antt =====
-- internal/webhook/validating.go: the rules of a cluster, on creation and on update.
pub mod Errors
pub mod Cluster
pub mod Backup
pub mod Pxf
pub mod Gpload
pub mod Jobs
pub mod Mirroring
use cloudberry_k8s.Base.{Bool, not, ◌&&◌, Option, none, some, List, [], ◌∷◌, ◌++◌, String, str_eq}
use cloudberry_k8s.Api.Cluster.{
  ClusterAffinitySpec, StorageSpec, CoordinatorSpec, MirroringSpec, SegmentsSpec, BasicAuthSpec,
  OidcSpec, AuthSpec, HaSpec, VaultSpec, MonitoringSpec, TablespaceIoLimitSpec, ResourceGroupSpec,
  WorkloadRule, IdleSessionRule, WorkloadSpec, ExporterSpec, QueryMonitoringExportersSpec,
  QueryMonitoringSpec, RecommendationScanSpec, StorageManagementSpec, CloudberryClusterSpec,
  CloudberryCluster,
}
use cloudberry_k8s.Webhook.Validation.Errors.{Rule, Warning, Outcome, ◌>>◌, quiet, reject_if, ◌<|>◌}
use cloudberry_k8s.Webhook.Validation.Cluster.{
  validate_affinity, validate_segments, validate_oidc, validate_vault, validate_deletion_policy,
  validate_storage, validate_workload, validate_query_monitoring, validate_storage_management,
}
use cloudberry_k8s.Webhook.Validation.Backup.{validate_backup}
use cloudberry_k8s.Webhook.Validation.Jobs.{validate_data_loading}
use cloudberry_k8s.Webhook.Validation.Mirroring.{validate_mirroring_transition}

-- `validateCluster`
unfoldable pub validate_cluster : CloudberryCluster → Outcome
validate_cluster cluster =
    let spec = cluster.spec in
    validate_segments spec.segments []
    >> quiet (
        validate_oidc spec.auth
        <|> validate_vault spec.vault
        <|> validate_deletion_policy spec.deletion_policy
        <|> validate_storage spec
        <|> validate_workload spec.workload
        <|> validate_query_monitoring spec.query_monitoring)
    >> validate_backup spec.backup
    >> quiet (validate_data_loading spec.data_loading <|> validate_storage_management spec.storage)
    >> validate_affinity spec.affinity

-- What a List of all clusters returns, where it does not fail.
abbrev pub ClusterList : Type 0
ClusterList = Option (List CloudberryCluster)

-- One turn of the loop of `checkDuplicateName`.
abbrev is_duplicate : CloudberryCluster → CloudberryCluster → Bool
is_duplicate cluster existing =
    str_eq existing.name cluster.name && not (str_eq existing.namespace cluster.namespace)

abbrev find_duplicate : CloudberryCluster → List CloudberryCluster → Option Rule
find_duplicate cluster [] = none
find_duplicate cluster (existing ∷ items) =
    reject_if (is_duplicate cluster existing) Rule.duplicate_cluster
    <|> find_duplicate cluster items

unfoldable pub check_duplicate_name : ClusterList → CloudberryCluster → Option Rule
check_duplicate_name none cluster = some Rule.admission_internal
check_duplicate_name (some items) cluster = find_duplicate cluster items

abbrev create_outcome : CloudberryCluster → Option Rule → Outcome
create_outcome cluster (some err) = ([], some err)
create_outcome cluster none = validate_cluster cluster

-- `validateCreate`, with a reader.
unfoldable pub validate_create : ClusterList → CloudberryCluster → Outcome
validate_create list cluster = create_outcome cluster (check_duplicate_name list cluster)

-- The warnings of both, and the second error.
abbrev pub append_outcome : List Warning → Outcome → Outcome
append_outcome warnings (more, err) = (warnings ++ more, err)

abbrev pub update_outcome : CloudberryCluster → CloudberryCluster → Outcome → Outcome
update_outcome old_cluster new_cluster (warnings, some err) = (warnings, some err)
update_outcome old_cluster new_cluster (warnings, none) =
    append_outcome warnings (validate_mirroring_transition old_cluster new_cluster)

unfoldable pub validate_update : CloudberryCluster → CloudberryCluster → Outcome
validate_update old_cluster new_cluster =
    update_outcome old_cluster new_cluster (validate_cluster new_cluster)

-- The `result` label of the metric `recordAdmission` records.
pub data Admission : Type 0 where
  allowed denied error : Admission

unfoldable pub admission_result : Option Rule → Admission
admission_result none = allowed
admission_result (some Rule.admission_internal) = error
admission_result (some _) = denied
