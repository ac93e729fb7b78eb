-- ===== src/Util/Retry.antt =====
-- internal/util/retry.go: RetryWithBackoff. The function under retry is a state transformer; what
-- the context, the timer race and math/rand do at each attempt is given by an environment.
pub mod Attempts
pub mod Backoff
use cloudberry_k8s.Base.{
  ℕ, zero, suc, ◌+◌, ◌*◌, Bool, Option, none, some, List, [], ◌∷◌, ltb, if◌then◌else◌,
}
use cloudberry_k8s.Base.Int.{ℤ, pos, pos_part, ltb_ℤ, leb_ℤ, ◌+ℤ◌}
use cloudberry_k8s.Base.Float.{Float64}

-- A duration in nanoseconds.
abbrev pub Duration : Type 0
Duration = ℤ

abbrev pub second : ℕ
second = 1_000_000_000

module _ (f : Float64) where
  open f use {F, of_ℤ, to_ℤ, mul, min, is_nonpos, two}

  pub record RetryOptions : Type 0 where
    pub max_retries : ℤ
    pub initial_backoff : Duration
    pub max_backoff : Duration
    pub multiplier : F
    pub jitter_fraction : F

  -- The guards at the head of `RetryWithBackoff`.
  unfoldable pub normalize_options : RetryOptions → RetryOptions
  normalize_options o = record o {
    max_retries = if ltb_ℤ o.max_retries (pos 0) then pos 0 else o.max_retries;
    multiplier = if is_nonpos o.multiplier then two else o.multiplier;
    initial_backoff = if leb_ℤ o.initial_backoff (pos 0) then pos second else o.initial_backoff;
    max_backoff = if leb_ℤ o.max_backoff (pos 0) then pos (30 * second) else o.max_backoff;
  }

  -- `calculateBackoff`, given the value of rand.Float64().
  unfoldable pub calculate_backoff : Duration → Duration → F → F → Duration
  calculate_backoff base max_backoff jitter_fraction jitter_rand =
      let base' = if ltb_ℤ max_backoff base then max_backoff else base in
      if is_nonpos jitter_fraction
      then base'
      else base' +ℤ to_ℤ (mul (mul (of_ℤ base') jitter_fraction) jitter_rand)

  -- The assignment to `backoff` at the end of the loop's body.
  unfoldable pub next_backoff : RetryOptions → Duration → Duration
  next_backoff o backoff = to_ℤ (min (mul (of_ℤ backoff) o.multiplier) (of_ℤ o.max_backoff))

  -- Attempt i: does ctx.Err() report an error before it, does ctx.Done() win against the timer
  -- after it, and what does rand.Float64() return.
  pub record Environment : Type 0 where
    pub canceled : ℕ → Bool
    pub interrupted : ℕ → Bool
    pub random : ℕ → F

-- The four errors that `RetryWithBackoff` wraps, with the attempts and the last error they name.
pub data RetryError (E : Type 0) : Type 0 where
  context_canceled : RetryError E
  canceled_after : ℕ → E → RetryError E
  canceled_in_backoff : ℕ → E → RetryError E
  retry_exhausted : ℕ → Option E → RetryError E

pub record Outcome (S E : Type 0) : Type 0 where
  pub state : S
  pub error : Option (RetryError E)
  -- The waits that ran to their end, in order.
  pub slept : List Duration

abbrev pub cancel_error : {E : Type 0} → ℕ → Option E → RetryError E
cancel_error attempt none = context_canceled
cancel_error attempt (some e) = canceled_after attempt e

module _ {S E : Type 0} where
  abbrev pub stop : S → Option (RetryError E) → Outcome S E
  stop s e = record { state = s; error = e; slept = [] }

  abbrev pub sleep : Duration → Outcome S E → Outcome S E
  sleep d r = record r { slept = d ∷ r.slept }

module _ (f : Float64) {S E : Type 0} (opts : RetryOptions f) (env : Environment f)
    (fn : S → S × Option E) where
  -- The loop's body behind `lastErr = fn(ctx)`; `next` is the next round.
  unfoldable pub after_call : ℕ → Duration → S × Option E → (Duration → Outcome S E) → Outcome S E
  after_call attempt backoff (s, none) next = stop s none
  after_call attempt backoff (s, some e) next =
      if ltb attempt (pos_part opts.max_retries)
      then if env.interrupted attempt
        then stop s (some (canceled_in_backoff (attempt + 1) e))
        else sleep
            (calculate_backoff f backoff opts.max_backoff opts.jitter_fraction (env.random attempt))
            (next (next_backoff f opts backoff))
      else next backoff

  -- The loop, with the rounds left; `last` is `lastErr`.
  unfoldable pub retry_from : ℕ → ℕ → Option E → Duration → S → Outcome S E
  retry_from zero attempt last backoff s =
      stop s (some (retry_exhausted (pos_part opts.max_retries + 1) last))
  retry_from (suc rounds) attempt last backoff s =
      let called = fn s in
      let next = λ (b : Duration). retry_from rounds (attempt + 1) called.1 b called.0 in
      if env.canceled attempt
      then stop s (some (cancel_error attempt last))
      else after_call attempt backoff called next

-- `RetryWithBackoff`: the loop runs for attempt = 0 .. MaxRetries.
unfoldable pub retry_with_backoff :
    (f : Float64) {S E : Type 0}
    → RetryOptions f
    → Environment f
    → (S → S × Option E)
    → S
    → Outcome S E
retry_with_backoff f opts env fn s =
    let o = normalize_options f opts in
    retry_from f o env fn (suc (pos_part o.max_retries)) 0 none o.initial_backoff s
