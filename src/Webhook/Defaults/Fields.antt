-- ===== src/Webhook/Defaults/Fields.antt =====
-- internal/webhook/mutating.go: a field that is set where it has its zero value, in its kinds.
use cloudberry_k8s.Base.{
  String, Bool, true, false, Option, none, some, List, [], ◌∷◌, map, ◌≡◌, refl, ap, arith, str_eq,
  eq_iff, if◌then◌else◌, zero, suc, if_cases, sym, ◌∙◌,
}
use cloudberry_k8s.Base.Int.{ℤ, pos, negsuc}

-- if field == "" { field = default }
unfoldable pub text_or : String → String → String
text_or default field = if str_eq field "" then default else field

abbrev pub is_zero : ℤ → Bool
is_zero (pos zero) = true
is_zero (pos (suc n)) = false
is_zero (negsuc n) = false

-- if field == 0 { field = default }
unfoldable pub int_or : ℤ → ℤ → ℤ
int_or default field = if is_zero field then default else field

module _ {ℓ} {A : Type ℓ} where
  -- What a pointer points to after: if field == nil { field = &default }
  unfoldable pub pointer_or : A → Option A → A
  pointer_or default none = default
  pointer_or default (some x) = x

  -- if len(field) == 0 { field = default }
  unfoldable pub list_or : List A → List A → List A
  list_or default [] = default
  list_or default (x ∷ xs) = x ∷ xs

  -- A setter behind a pointer that may be nil.
  unfoldable pub map_pointer : (A → A) → Option A → Option A
  map_pointer set none = none
  map_pointer set (some x) = some (set x)

  pub pointer_or-some : (default x : A) → pointer_or default (some x) ≡ x
  unfolding pointer_or
  pointer_or-some default x = refl

  pub list_or_idem :
      (default xs : List A) → list_or default (list_or default xs) ≡ list_or default xs
  unfolding list_or
  list_or_idem [] [] = refl
  list_or_idem (y ∷ ys) [] = refl
  list_or_idem default (x ∷ xs) = refl

  pub map_pointer_idem :
      (set : A → A)
      → ((x : A) → set (set x) ≡ set x)
      → (o : Option A) → map_pointer set (map_pointer set o) ≡ map_pointer set o
  unfolding map_pointer
  map_pointer_idem set h none = refl
  map_pointer_idem set h (some x) = ap some (h x)

  pub map_idem :
      (set : A → A)
      → ((x : A) → set (set x) ≡ set x)
      → (xs : List A) → map set (map set xs) ≡ map set xs
  map_idem set h [] = refl
  map_idem set h (x ∷ xs) = cc (h x, map_idem set h xs)

pub text_or_idem :
    (default field : String) → text_or default (text_or default field) ≡ text_or default field
unfolding text_or
text_or_idem default field = ground (arith, eq_iff field "", eq_iff default "")

pub int_or_idem : (default field : ℤ) → int_or default (int_or default field) ≡ int_or default field
unfolding int_or
int_or_idem default field = ground arith

-- What does not tell a default from the zero value does not tell that the field was set.
pub text_or-apply {ℓ} :
    {A : Type ℓ} (f : String → A) (default field : String)
    → f default ≡ f ""
    → f (text_or default field) ≡ f field
unfolding text_or
text_or-apply f default field h =
    if_cases (λ x. f x ≡ f field) (str_eq field "") default field
      (λ e. h ∙ ap f (sym ((eq_iff field "").0 e))) (λ e. refl)

is_zero-eq : (n : ℤ) → is_zero n ≡ true → n ≡ pos 0
is_zero-eq (pos zero) h = refl
is_zero-eq (pos (suc n)) h = ground arith
is_zero-eq (negsuc n) h = ground arith

pub int_or-apply {ℓ} :
    {A : Type ℓ} (f : ℤ → A) (default field : ℤ)
    → f default ≡ f (pos 0)
    → f (int_or default field) ≡ f field
unfolding int_or
int_or-apply f default field h =
    if_cases (λ x. f x ≡ f field) (is_zero field) default field
      (λ e. h ∙ ap f (sym (is_zero-eq field e))) (λ e. refl)
