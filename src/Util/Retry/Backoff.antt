-- ===== src/Util/Retry/Backoff.antt =====
-- internal/util/retry.go: the waits between attempts.
use cloudberry_k8s.Base.{
  ℕ, zero, suc, ◌+◌, true, false, Option, none, ◌≡◌, arith, inl, inr, Bool-cases, All,
}
use cloudberry_k8s.Base.Float.{Float64, IsIeee, exact}
use cloudberry_k8s.Base.Int.{pos, ◌≤ℤ◌, ◌+ℤ◌, ltb_ℤ, +ℤ_parts, ≤ℤ-trans}
use cloudberry_k8s.Util.Retry.{
  Duration, RetryOptions, Environment, calculate_backoff, next_backoff, after_call, retry_from,
  normalize_options, retry_with_backoff,
}

module _ (f : Float64) (ieee : IsIeee f) where
  pub calculate_backoff_le :
      (b m : Duration) (x y : f.F)
      → pos 0 ≤ℤ b
      → pos 0 ≤ℤ m
      → m ≤ℤ exact
      → f.in_unit x ≡ true
      → f.in_unit y ≡ true
      → calculate_backoff f b m x y ≤ℤ m +ℤ m
  unfolding calculate_backoff
  calculate_backoff_le b m x y hb hm he hx hy = elim (Bool-cases (ltb_ℤ m b)) [
    | inl over ↦ ground (
      arith,
      +ℤ_parts m m,
      +ℤ_parts m (f.to_ℤ (f.mul (f.mul (f.of_ℤ m) x) y)),
      ieee.mul_unit_le m x y,
    )
    | inr within ↦ ground (
      arith,
      +ℤ_parts m m,
      +ℤ_parts b (f.to_ℤ (f.mul (f.mul (f.of_ℤ b) x) y)),
      ieee.mul_unit_le b x y,
    )
  ]

  pub calculate_backoff_le_max :
      (b m : Duration) (x y : f.F) → f.is_nonpos x ≡ true → calculate_backoff f b m x y ≤ℤ m
  unfolding calculate_backoff
  calculate_backoff_le_max b m x y h = ground arith

module _ (f : Float64) (ieee : IsIeee f) {S E : Type 0} (opts : RetryOptions f)
    (env : Environment f) (fn : S → S × Option E) where
  -- What normalised options give, with a jitter in the unit interval.
  pub record IsBounded : Type 0 where
    pub max_nonneg : pos 0 ≤ℤ opts.max_backoff
    pub max_exact : opts.max_backoff ≤ℤ exact
    pub finite : f.is_finite opts.multiplier ≡ true
    pub grows : f.is_nonpos opts.multiplier ≡ false
    pub fraction : f.in_unit opts.jitter_fraction ≡ true
    pub random : (i : ℕ) → f.in_unit (env.random i) ≡ true

  pub slept_from-le :
      (rounds attempt : ℕ) (last : Option E) (b : Duration) (s : S)
      → IsBounded
      → pos 0 ≤ℤ b
      → b ≤ℤ exact
      → All
          (λ d. d ≤ℤ opts.max_backoff +ℤ opts.max_backoff)
          (retry_from f opts env fn rounds attempt last b s).slept
  unfolding retry_from after_call next_backoff
  slept_from-le zero attempt last b s h hb eb = tt
  slept_from-le (suc n) attempt last b s h hb eb =
      let next =
        ieee.min_range b opts.max_backoff opts.multiplier hb eb h.max_nonneg h.max_exact h.finite
          h.grows in
      let small = ≤ℤ-trans _ opts.max_backoff exact next.1 h.max_exact in
      ground (
        arith,
        calculate_backoff_le f ieee b opts.max_backoff opts.jitter_fraction (env.random attempt) hb
            h.max_nonneg h.max_exact h.fraction (h.random attempt),
        slept_from-le n (attempt + 1) (fn s).1 b (fn s).0 h hb,
        slept_from-le n (attempt + 1) (fn s).1
            (f.to_ℤ (f.min (f.mul (f.of_ℤ b) opts.multiplier) (f.of_ℤ opts.max_backoff))) (fn s).0 h
            next.0 small,
      )

-- Under the IEEE laws, with an InitialBackoff and a MaxBackoff of at most 2^53 ns, a finite
-- multiplier, and jitter and random values in the unit interval, each wait of RetryWithBackoff that
-- ends by its timer is at most twice the normalised maximal backoff.
pub retry_with_backoff-slept_le :
    (f : Float64) {S E : Type 0} (opts : RetryOptions f) (env : Environment f)
    (fn : S → S × Option E) (s : S)
    → IsIeee f
    → opts.initial_backoff ≤ℤ exact
    → opts.max_backoff ≤ℤ exact
    → f.is_finite opts.multiplier ≡ true
    → f.in_unit opts.jitter_fraction ≡ true
    → ((i : ℕ) → f.in_unit (env.random i) ≡ true)
    → let m = (normalize_options f opts).max_backoff in
      All (λ d. d ≤ℤ m +ℤ m) (retry_with_backoff f opts env fn s).slept
unfolding retry_with_backoff normalize_options
retry_with_backoff-slept_le f opts env fn s ieee first small finite fraction random =
    slept_from-le f ieee (normalize_options f opts) env fn _ 0 none _ s
      (record {
        max_nonneg = ground arith;
        max_exact = ground arith;
        finite = ground (arith, ieee.two_finite, finite);
        grows = ground (arith, ieee.two_pos);
        fraction = fraction;
        random = random;
      })
      (ground arith) (ground (arith, first))
