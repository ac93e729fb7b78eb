-- ===== src/Cron/Parse/Ranges.antt =====
-- internal/cron/cron.go: the ranges and steps of a component.
use cloudberry_k8s.Base.{
  ℕ, zero, suc, ◌<◌, ◌≤◌, Option, none, some, if_cases, ltb, ◌||◌, ◌≡◌, arith,
}
use cloudberry_k8s.Base.Int.{ℤ, pos, negsuc}
use cloudberry_k8s.Cron.Bytes.{Bytes, atoi, cut}
use cloudberry_k8s.Cron.Parse.{
  FieldBounds, in_bounds, parse_bounded, single, ordered, resolve, is_star, parse_range, positive,
  step_of, with_step, split_step,
}

pub record IsRange (b : FieldBounds) (lo hi : ℕ) : Type 0 where
  pub above : b.min ≤ lo
  pub ordered : lo ≤ hi
  pub below : hi ≤ b.max

-- A predicate of what is found, if anything.
abbrev OnSome : {A : Type 0} → (A → Type 0) → Option A → Type 0
OnSome P none = Unit
OnSome P (some a) = P a

abbrev Within : FieldBounds → Option ℕ → Type 0
Within b = OnSome (λ v. (b.min ≤ v) × (v ≤ b.max))

abbrev Resolved : FieldBounds → Option (ℕ × ℕ) → Type 0
Resolved b = OnSome (λ (r : ℕ × ℕ). IsRange b r.0 r.1)

in_bounds-Within : (b : FieldBounds) (o : Option ℤ) → Within b (in_bounds b o)
in_bounds-Within b none = tt
in_bounds-Within b (some (negsuc n)) = tt
in_bounds-Within b (some (pos n)) =
    if_cases (Within b) (ltb n b.min || ltb b.max n) _ _ (λ out. tt)
      (λ inside. (ground arith, ground arith))

single-Resolved : (b : FieldBounds) (o : Option ℕ) → Within b o → Resolved b (single o)
single-Resolved b none w = tt
single-Resolved b (some v) w = record { above = w.0; ordered = omega arith; below = w.1 }

ordered-Resolved :
    (b : FieldBounds) (o p : Option ℕ) → Within b o → Within b p → Resolved b (ordered o p)
ordered-Resolved b none p w x = tt
ordered-Resolved b (some lo) none w x = tt
ordered-Resolved b (some lo) (some hi) w x =
    if_cases (Resolved b) (ltb hi lo) _ _ (λ wrong. tt)
      (λ right. record { above = w.0; ordered = ground arith; below = x.1 })

resolve-Resolved : (b : FieldBounds) (s : Bytes) (o : Option Bytes) → Resolved b (resolve b s o)
unfolding parse_bounded
resolve-Resolved b s none = single-Resolved b _ (in_bounds-Within b (atoi s))
resolve-Resolved b s (some t) =
    ordered-Resolved b _ _ (in_bounds-Within b (atoi s)) (in_bounds-Within b (atoi t))

parse_range-Resolved :
    (b : FieldBounds) (spec : Bytes) → b.min ≤ b.max → Resolved b (parse_range b spec)
unfolding parse_range
parse_range-Resolved b spec h =
    if_cases (Resolved b) (is_star spec) _ _
      (λ star. record { above = omega arith; ordered = h; below = omega arith })
      (λ other. resolve-Resolved b (cut 45 spec).0 (cut 45 spec).1)

pub parse_range-IsRange :
    (b : FieldBounds) (spec : Bytes) (lo hi : ℕ)
    → b.min ≤ b.max
    → parse_range b spec ≡ some (lo, hi)
    → IsRange b lo hi
parse_range-IsRange b spec lo hi h e = rw e at (parse_range-Resolved b spec h)

abbrev Positive : Option ℕ → Type 0
Positive = OnSome (λ n. 0 < n)

positive-Positive : (o : Option ℤ) → Positive (positive o)
positive-Positive none = tt
positive-Positive (some (negsuc n)) = tt
positive-Positive (some (pos zero)) = tt
positive-Positive (some (pos (suc n))) = omega arith

step_of-Positive : (o : Option Bytes) → Positive (step_of o)
step_of-Positive none = omega arith
step_of-Positive (some s) = positive-Positive (atoi s)

with_step-Positive :
    (spec : Bytes) (o : Option ℕ)
    → Positive o
    → OnSome (λ (r : Bytes × ℕ). 0 < r.1) (with_step spec o)
with_step-Positive spec none p = tt
with_step-Positive spec (some n) p = p

split_step-OnSome : (part : Bytes) → OnSome (λ (r : Bytes × ℕ). 0 < r.1) (split_step part)
unfolding split_step
split_step-OnSome part =
    with_step-Positive (cut 47 part).0 (step_of (cut 47 part).1) (step_of-Positive (cut 47 part).1)

pub split_step-positive :
    (part spec : Bytes) (step : ℕ) → split_step part ≡ some (spec, step) → 0 < step
split_step-positive part spec step e = rw e at (split_step-OnSome part)
