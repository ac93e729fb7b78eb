-- ===== src/Webhook/Stability/Parts.antt =====
-- internal/webhook: what the validating webhook says of the defaulted parts of a cluster that have
-- no rules across them.
use cloudberry_k8s.Base.{
  ℕ, suc, ◌&&◌, Option, none, some, List, [], ◌∷◌, String, str_eq, ◌≡◌, refl, arith, Bool-cases,
  inl, inr, map, if◌then◌else◌,
}
use cloudberry_k8s.Base.Int.{pos, ltb_ℤ}
use cloudberry_k8s.Base.Duration.{parse_duration}
use cloudberry_k8s.Api.Cluster.{
  ClusterAffinitySpec, MirroringSpec, SegmentsSpec, AuthSpec, ResourceGroupSpec, WorkloadSpec,
  QueryMonitoringSpec, RecommendationScanSpec, StorageManagementSpec,
}
use cloudberry_k8s.Webhook.Defaults.{
  set_affinity_defaults, set_segment_defaults, set_oidc_defaults, set_auth_defaults, no_auth,
  set_resource_group_defaults, set_workload_defaults, set_query_monitoring_defaults,
  set_scan_defaults, set_storage_management_defaults, default_mirroring, set_layout_default,
  set_scan_defaults,
}
use cloudberry_k8s.Webhook.Defaults.Fields.{
  text_or, is_zero, pointer_or, map_pointer, text_or-apply, int_or-apply,
}
use cloudberry_k8s.Webhook.Validation.Errors.{Rule, Warning, check_each}
use cloudberry_k8s.Webhook.Validation.Cluster.{
  validate_affinity, validate_segments, validate_oidc, validate_deletion_policy,
  validate_resource_group, validate_workload, validate_query_monitoring, is_duration, validate_scan,
  validate_storage_management, is_spread, is_percent, validate_scan_pointer,
}

is_spread_lem :
    (m : Option MirroringSpec)
    → is_spread (some (set_layout_default (pointer_or default_mirroring m))) ≡ is_spread m
unfolding pointer_or text_or
is_spread_lem none = refl
is_spread_lem (some m) =
    text_or-apply (λ layout. m.enabled && str_eq layout "spread") "group" m.layout refl

pub validate_segments_lem :
    (seg : SegmentsSpec) (w : List Warning)
    → validate_segments (set_segment_defaults seg) w ≡ validate_segments seg w
unfolding validate_segments set_segment_defaults
validate_segments_lem seg w =
    rw
      (
        int_or-apply (λ n. if is_zero n then pos 2 else n) (pos 2) seg.primaries_per_host refl,
        is_spread_lem seg.mirroring,
      )
      refl

pub validate_affinity_lem :
    (a : Option ClusterAffinitySpec) (w : List Warning)
    → validate_affinity (map_pointer set_affinity_defaults a) w ≡ validate_affinity a w
unfolding validate_affinity set_affinity_defaults map_pointer
validate_affinity_lem none w = refl
validate_affinity_lem (some a) w =
    text_or-apply (λ type. validate_affinity (some (record a { type = type })) w) "preferred" a.type
      refl

pub validate_oidc_lem :
    (a : Option AuthSpec)
    → validate_oidc (some (set_auth_defaults (pointer_or no_auth a))) ≡ validate_oidc a
unfolding validate_oidc set_auth_defaults set_oidc_defaults pointer_or map_pointer
validate_oidc_lem none = refl
validate_oidc_lem (some a) = ground arith

pub validate_deletion_policy_lem :
    (dp : String) → validate_deletion_policy (text_or "Retain" dp) ≡ validate_deletion_policy dp
unfolding validate_deletion_policy
validate_deletion_policy_lem dp = text_or-apply validate_deletion_policy "Retain" dp refl

pub validate_query_monitoring_lem :
    (q : Option QueryMonitoringSpec)
    → validate_query_monitoring (map_pointer set_query_monitoring_defaults q)
      ≡ validate_query_monitoring q
unfolding validate_query_monitoring set_query_monitoring_defaults map_pointer
validate_query_monitoring_lem none = refl
validate_query_monitoring_lem (some q) =
    int_or-apply (λ n. validate_query_monitoring (some (record q { sampling_interval = n })))
      (pos 15) q.sampling_interval refl

is_duration-text_or : (s : String) → is_duration (text_or "2h" s) ≡ is_duration s
unfolding parse_duration
is_duration-text_or s = text_or-apply is_duration "2h" s refl

validate_scan_lem :
    (s : RecommendationScanSpec) → validate_scan (set_scan_defaults s) ≡ validate_scan s
unfolding validate_scan set_scan_defaults
validate_scan_lem s = elim (Bool-cases s.enabled) [
  | inl e ↦ simp (
    e,
    is_duration-text_or,
    int_or-apply is_percent (pos 20) s.bloat_threshold refl,
    int_or-apply is_percent (pos 50) s.skew_threshold refl,
    int_or-apply is_percent (pos 30) s.index_bloat_threshold refl,
    int_or-apply (λ n. ltb_ℤ n (pos 0)) (pos 500_000_000) s.age_threshold refl,
  )
  | inr e ↦ simp (e)
]

validate_scan_pointer_lem :
    (o : Option RecommendationScanSpec)
    → validate_scan_pointer (map_pointer set_scan_defaults o) ≡ validate_scan_pointer o
unfolding map_pointer
validate_scan_pointer_lem none = refl
validate_scan_pointer_lem (some scan) = validate_scan_lem scan

pub validate_storage_management_lem :
    (s : Option StorageManagementSpec)
    → validate_storage_management (map_pointer set_storage_management_defaults s)
      ≡ validate_storage_management s
unfolding validate_storage_management set_storage_management_defaults map_pointer
validate_storage_management_lem none = refl
validate_storage_management_lem (some s) = validate_scan_pointer_lem s.recommendation_scan

check_each-map {ℓ} :
    {A : Type ℓ} (check : ℕ → A → Option Rule) (set : A → A)
    → ((i : ℕ) (x : A) → check i (set x) ≡ check i x)
    → (i : ℕ) (xs : List A) → check_each check i (map set xs) ≡ check_each check i xs
unfolding check_each
check_each-map check set h i [] = refl
check_each-map check set h i (x ∷ xs) = cc (h i x, check_each-map check set h (suc i) xs)

validate_resource_group_lem :
    (i : ℕ) (rg : ResourceGroupSpec)
    → validate_resource_group i (set_resource_group_defaults rg) ≡ validate_resource_group i rg
unfolding validate_resource_group set_resource_group_defaults
validate_resource_group_lem i rg = refl

pub validate_workload_lem :
    (w : Option WorkloadSpec)
    → validate_workload (map_pointer set_workload_defaults w) ≡ validate_workload w
unfolding validate_workload set_workload_defaults map_pointer
validate_workload_lem none = refl
validate_workload_lem (some w) =
    let groups =
      check_each-map validate_resource_group set_resource_group_defaults validate_resource_group_lem
        0 w.resource_groups in
    rw groups refl
