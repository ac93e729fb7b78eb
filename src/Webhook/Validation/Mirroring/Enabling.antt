-- ===== src/Webhook/Validation/Mirroring/Enabling.antt =====
-- internal/webhook/validating.go: an update that turns mirroring on.
use mathlib.Core.Path.{subst}
use cloudberry_k8s.Base.{
  ◌&&◌, ◌||◌, ℕ, ◌+◌, ◌*◌, ◌^◌, ◌<◌, Bool, true, false, not, Option, none, some, List, [], String,
  str_eq, eq_iff, if◌then◌else◌, ◌≡◌, ◌≢◌, ◌⊎◌, inl, inr, refl, sym, arith, Bool-cases, ◌∙◌,
}
use cloudberry_k8s.Base.Int.{ℤ, pos, ◌≤ℤ◌, leb_ℤ, ltb_ℤ}
use cloudberry_k8s.Api.Cluster.{CloudberryCluster}
use cloudberry_k8s.Webhook.Validation.{
  append_outcome, update_outcome, validate_cluster, validate_update,
}
use cloudberry_k8s.Webhook.Validation.Errors.{Rule, Warning, Outcome, reject_if, reject_if-none}
use cloudberry_k8s.Webhook.Validation.Cluster.{primaries_or_two}
use cloudberry_k8s.Webhook.Validation.Mirroring.{
  enabled_outcome, twice_32, next_32, is_mirroring_enabled, layout,
  validate_node_count_for_mirroring, layout_or_group, validate_mirroring_enable,
  validate_mirroring_transition,
}

-- The segments that a layout wants for p primaries on a host: twice as many for the mirrors of a
-- group on another host, and more than those of one host for a spread.
abbrev pub HasHosts : String → ℕ → ℤ → Type 0
HasHosts lay p count =
    ((lay ≡ "group") × (pos (2 * p) ≤ℤ count))
    ⊎ ((lay ≡ "spread") × (pos (p + 1) ≤ℤ count))
    ⊎ ((lay ≢ "group") × (lay ≢ "spread"))

twice_32-small : (p : ℕ) → p < 2 ^ 30 → twice_32 (pos p) ≡ pos (2 * p)
unfolding twice_32
twice_32-small p h = ground (arith, h)

validate_node_count-HasHosts :
    (lay : String) (count : ℤ) (p : ℕ)
    → p < 2 ^ 30
    → validate_node_count_for_mirroring lay count (pos p) ≡ none
    → HasHosts lay p count
unfolding validate_node_count_for_mirroring
validate_node_count-HasHosts lay count p small h =
    let group = reject_if (ltb_ℤ count (twice_32 (pos p))) Rule.group_segments in
    let spread = reject_if (leb_ℤ count (pos p)) Rule.spread_segments in
    let is_group = eq_iff lay "group" in
    let is_spread = eq_iff lay "spread" in
    let other = if str_eq lay "spread" then spread else none in
    elim (Bool-cases (str_eq lay "group")) [
      | inl e ↦
          (let enough = subst (λ t. (if t then group else other) ≡ none) e h in
            let counted =
              subst (λ n. ltb_ℤ count n ≡ false) (twice_32-small p small)
                (reject_if-none _ _ enough) in
            inl (is_group.0 e, ground (arith, counted)))
      | inr e ↦
          (let others = subst (λ t. (if t then group else other) ≡ none) e h in
            elim (Bool-cases (str_eq lay "spread")) [
              | inl f ↦
                  (let enough = subst (λ t. (if t then spread else none) ≡ none) f others in
                    inr (inl (is_spread.0 f, ground (arith, enough))))
              | inr f ↦ inr (inr (ground (arith, e, is_group), ground (arith, f, is_spread)))
            ])
    ]

-- What an update that turns mirroring on has been checked for.
abbrev pub IsFit : CloudberryCluster → CloudberryCluster → ℕ → Type 0
IsFit old_cluster new_cluster p =
    (old_cluster.phase ≡ "Running")
    × HasHosts (layout_or_group (layout new_cluster)) p new_cluster.spec.segments.count

enabled_outcome-none :
    (is_marginal : Bool) (e : Option Rule) (v : List Warning)
    → enabled_outcome is_marginal e ≡ (v, none)
    → e ≡ none
enabled_outcome-none is_marginal none v h = refl
enabled_outcome-none is_marginal (some err) v h = ground arith

validate_mirroring_enable-IsFit :
    (old_cluster new_cluster : CloudberryCluster) (p : ℕ) (v : List Warning)
    → primaries_or_two new_cluster.spec.segments ≡ pos p
    → p < 2 ^ 30
    → old_cluster.phase ≢ ""
    → old_cluster.phase ≢ "Initializing"
    → validate_mirroring_enable old_cluster new_cluster ≡ (v, none)
    → IsFit old_cluster new_cluster p
unfolding validate_mirroring_enable
validate_mirroring_enable-IsFit old_cluster new_cluster p v per_host small not_empty not_initial h =
    let phase = old_cluster.phase in
    let seg = new_cluster.spec.segments in
    let lay = layout_or_group (layout new_cluster) in
    let is_marginal = str_eq lay "spread" && leb_ℤ seg.count (next_32 (primaries_or_two seg)) in
    let counts = validate_node_count_for_mirroring lay seg.count (primaries_or_two seg) in
    let checked = enabled_outcome is_marginal counts in
    let at_phase =
      if not (str_eq phase "Running") then ([], some Rule.mirroring_phase) else checked in
    let started : (str_eq phase "" || str_eq phase "Initializing") ≡ false =
      ground (arith, eq_iff phase "", eq_iff phase "Initializing", not_empty, not_initial) in
    let after = subst (λ t. (if t then ([], none) else at_phase) ≡ (v, none)) started h in
    elim (Bool-cases (str_eq phase "Running")) [
      | inl e ↦
          (let passed =
              subst (λ t. (if not t then ([], some Rule.mirroring_phase) else checked) ≡ (v, none))
                e after in
            let none_wrong = enabled_outcome-none is_marginal counts v passed in
            let at_p =
              subst (λ n. validate_node_count_for_mirroring lay seg.count n ≡ none) per_host
                none_wrong in
            ((eq_iff phase "Running").0 e, validate_node_count-HasHosts lay seg.count p small at_p))
      | inr e ↦
          (let refused =
              subst (λ t. (if not t then ([], some Rule.mirroring_phase) else checked) ≡ (v, none))
                e after in
            absurd (ground arith))
    ]

append_outcome-none :
    (u : List Warning) (o : Outcome) (v : List Warning)
    → append_outcome u o ≡ (v, none)
    → (w : List Warning) × (o ≡ (w, none))
append_outcome-none u (w, none) v h = (w, refl)
append_outcome-none u (w, some err) v h = absurd (ground arith)

update_outcome-none :
    (old_cluster new_cluster : CloudberryCluster) (o : Outcome) (v : List Warning)
    → update_outcome old_cluster new_cluster o ≡ (v, none)
    → (w : List Warning) × (validate_mirroring_transition old_cluster new_cluster ≡ (w, none))
update_outcome-none old_cluster new_cluster (u, none) v h =
    append_outcome-none u (validate_mirroring_transition old_cluster new_cluster) v h
update_outcome-none old_cluster new_cluster (u, some err) v h = absurd (ground arith)

validate_mirroring_transition_lem :
    (old_cluster new_cluster : CloudberryCluster)
    → is_mirroring_enabled old_cluster ≡ false
    → is_mirroring_enabled new_cluster ≡ true
    → validate_mirroring_transition old_cluster new_cluster
      ≡ validate_mirroring_enable old_cluster new_cluster
unfolding validate_mirroring_transition
validate_mirroring_transition_lem old_cluster new_cluster off on = rw (off, on) refl

-- An update that turns mirroring on, of a cluster whose phase is neither empty nor Initializing and
-- with at most 2^30 - 1 primaries on a host (two, if it says 0), is accepted only if the phase is
-- Running and there are twice as many segments for a group layout, the default, and more segments
-- than the primaries of a host for a spread.
pub validate_update-IsFit :
    (old_cluster new_cluster : CloudberryCluster) (p : ℕ) (v : List Warning)
    → is_mirroring_enabled old_cluster ≡ false
    → is_mirroring_enabled new_cluster ≡ true
    → primaries_or_two new_cluster.spec.segments ≡ pos p
    → p < 2 ^ 30
    → old_cluster.phase ≢ ""
    → old_cluster.phase ≢ "Initializing"
    → validate_update old_cluster new_cluster ≡ (v, none)
    → IsFit old_cluster new_cluster p
unfolding validate_update
validate_update-IsFit old_cluster new_cluster p v off on per_host small not_empty not_initial h =
    let moved = update_outcome-none old_cluster new_cluster (validate_cluster new_cluster) v h in
    let enabling : validate_mirroring_enable old_cluster new_cluster ≡ (moved.0, none) =
      sym (validate_mirroring_transition_lem old_cluster new_cluster off on) ∙ moved.1 in
    validate_mirroring_enable-IsFit old_cluster new_cluster p (moved.0) per_host small not_empty
      not_initial enabling
