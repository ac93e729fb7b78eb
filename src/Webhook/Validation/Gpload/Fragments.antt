-- ===== src/Webhook/Validation/Gpload/Fragments.antt =====
-- internal/webhook/validating.go: what `containsUnsafeSQLFragment` finds.
use mathlib.Core.Path.{subst}
use cloudberry_k8s.Base.{
  ℕ, All, Bool, true, false, List, [], ◌∷◌, ◌++◌, String, str_eq, if◌then◌else◌, ◌≡◌, refl, sym,
  arith, Bool-cases, inl, inr,
}
use cloudberry_k8s.Base.Text.{codes, contains, has_prefix}
use cloudberry_k8s.Webhook.Validation.Gpload.{
  contains_unsafe_sql_fragment, first_contained, sql_predicate_forbidden,
}

-- A text with another inside it.
abbrev pub Occurs : String → String → Type 0
Occurs bad s = (before : List ℕ) × (after : List ℕ) × (codes s ≡ before ++ (codes bad ++ after))

-- No end of a statement, and no beginning of a comment.
abbrev pub IsFree : String → Type 0
IsFree s = (¬ Occurs ";" s) × (¬ Occurs "--" s) × (¬ Occurs "/*" s)

has_prefix-append : (t after : List ℕ) → has_prefix (t ++ after) t ≡ true
has_prefix-append [] after = refl
has_prefix-append (c ∷ t) after = ground (arith, has_prefix-append t after)

prefix-contains : (s t : List ℕ) → has_prefix s t ≡ true → contains s t ≡ true
prefix-contains [] t h = h
prefix-contains (c ∷ s) t h = ground (arith, h)

contains-append : (before t after : List ℕ) → contains (before ++ (t ++ after)) t ≡ true
contains-append [] t after = prefix-contains (t ++ after) t (has_prefix-append t after)
contains-append (c ∷ before) t after = ground (arith, contains-append before t after)

absent : (bad s : String) → contains (codes s) (codes bad) ≡ false → ¬ Occurs bad s
absent bad s h o =
    let found = contains-append (o.0) (codes bad) (o.1) in
    let same = subst (λ t. contains t (codes bad) ≡ true) (sym (o.2)) found in
    absurd (ground (arith, h, same))

first_contained-All :
    (s : List ℕ) (bads : List String)
    → All (λ bad. str_eq bad "" ≡ false) bads
    → str_eq (first_contained s bads) "" ≡ true
    → All (λ bad. contains s (codes bad) ≡ false) bads
first_contained-All s [] texts h = tt
first_contained-All s (bad ∷ rest) texts h =
    let opened = λ (test : Bool) (e : contains s (codes bad) ≡ test).
      subst (λ t. str_eq (if t then bad else first_contained s rest) "" ≡ true) e h in
    let text = texts.0 in
    elim (Bool-cases (contains s (codes bad))) [
      | inl e ↦ (let found = opened true e in absurd (ground (arith, found, text)))
      | inr e ↦ (e, first_contained-All s rest (texts.1) (opened false e))
    ]

-- A text in which the scan finds nothing has none of the fragments in it.
pub contains_unsafe_sql_fragment-IsFree :
    (s : String) → str_eq (contains_unsafe_sql_fragment s) "" ≡ true → IsFree s
unfolding contains_unsafe_sql_fragment
contains_unsafe_sql_fragment-IsFree s h =
    let all = first_contained-All (codes s) sql_predicate_forbidden (refl, (refl, (refl, tt))) h in
    (absent ";" s (all.0), absent "--" s (all.1.0), absent "/*" s (all.1.1.0))
