-- ===== src/RateLimit.antt =====
-- internal/api/ratelimit.go: the token bucket of each client. Times are in nanoseconds of a clock
-- that does not run backwards; each operation holds the mutex from beginning to end.
pub mod Burst
pub mod Isolation
pub mod Cleanup
use cloudberry_k8s.Base.{
  ℕ, suc, ◌-◌, ◌*◌, ◌<◌, ◌≤◌, ◌^◌, Bool, true, false, not, Option, none, some, String, str_eq, List,
  [], ◌∷◌, if◌then◌else◌, ltb, leb, ◌≡◌, ◌⊎◌,
}
use cloudberry_k8s.Base.Int.{ℤ, pos, leb_ℤ, pos_part}

-- The float64 operations of the limiter; `seconds` is Duration.Seconds.
pub record TokenArith : Type 1 where
  pub F : Type 0
  pub of_ℕ : ℕ → F
  pub seconds : ℕ → F
  pub add : F → F → F
  pub sub : F → F → F
  pub mul : F → F → F
  pub div : F → F → F
  pub less : F → F → Bool

-- defaultRateLimit and defaultRateInterval
abbrev pub default_rate_limit : ℕ
default_rate_limit = 10

abbrev pub default_rate_interval : ℕ
default_rate_interval = 60 * 1_000_000_000

-- The settings that `NewRateLimiter` makes of its arguments.
unfoldable pub new_rate_limiter : ℤ → ℤ → ℕ × ℕ
new_rate_limiter limit interval = (
  if leb_ℤ limit (pos 0) then default_rate_limit else pos_part limit,
  if leb_ℤ interval (pos 0) then default_rate_interval else pos_part interval,
)

-- Settings as `NewRateLimiter` makes them of an int64 duration, with a limit that float64 holds
-- exactly, and two intervals that an int64 holds.
pub record IsSettings (limit interval : ℕ) : Type 0 where
  pub positive : 1 ≤ limit
  pub small : limit < 2 ^ 53
  pub some_time : 1 ≤ interval
  pub twice_fits : interval * 2 < 2 ^ 63

module _ (arith : TokenArith) (limit interval : ℕ) where
  open arith use {F, of_ℕ, seconds, add, sub, mul, div, less}

  -- A number of tokens that is not negative, and not NaN: of NaN nothing is less.
  abbrev pub IsTokens : F → Type 0
  IsTokens x = (x ≡ of_ℕ 0) ⊎ (less (of_ℕ 0) x ≡ true)

  -- What the limiter relies on of float64 at its settings: on integers below 2 ^ 53 the operations
  -- are exact, no time adds nothing, and a duration of more than two intervals fills a bucket that
  -- is not negative.
  pub record IsExact : Type 0 where
    pub sub_one : (n : ℕ) → n < 2 ^ 53 → sub (of_ℕ (suc n)) (of_ℕ 1) ≡ of_ℕ n
    pub less_of_ℕ : (m n : ℕ) → m < 2 ^ 53 → n < 2 ^ 53 → less (of_ℕ m) (of_ℕ n) ≡ ltb m n
    pub no_time :
        (n : ℕ)
        → n < 2 ^ 53
        → add (of_ℕ n) (mul (seconds 0) (div (of_ℕ limit) (seconds interval))) ≡ of_ℕ n
    pub fills :
        (x : F) (d : ℕ)
        → IsTokens x
        → interval * 2 < d
        → d < 2 ^ 63
        → less (of_ℕ limit) (add x (mul (seconds d) (div (of_ℕ limit) (seconds interval)))) ≡ true

  -- rateLimitEntry
  pub record Entry : Type 0 where
    pub tokens : F
    pub last_refill : ℕ

  -- The map of the limiter.
  abbrev pub Entries : Type 0
  Entries = String → Option Entry

  abbrev pub put : String → Option Entry → Entries → Entries
  put ip e entries ip' = if str_eq ip' ip then e else entries ip'

  -- The refill of an entry, capped at the limit.
  unfoldable pub refill : ℕ → Entry → F
  refill now e =
      let refilled =
        add e.tokens (mul (seconds (now - e.last_refill)) (div (of_ℕ limit) (seconds interval))) in
      if less (of_ℕ limit) refilled then of_ℕ limit else refilled

  -- `Allow`: the client's entry after it, and the answer.
  unfoldable pub take_token : ℕ → Option Entry → Entry × Bool
  take_token now none = (record { tokens = sub (of_ℕ limit) (of_ℕ 1); last_refill = now }, true)
  take_token now (some e) =
      let tokens = refill now e in
      if less tokens (of_ℕ 1)
      then (record { tokens = tokens; last_refill = now }, false)
      else (record { tokens = sub tokens (of_ℕ 1); last_refill = now }, true)

  unfoldable pub allow : ℕ → String → Entries → Entries × Bool
  allow now ip entries =
      let taken = take_token now (entries ip) in (put ip (some taken.0) entries, taken.1)

  -- `rl.interval*2`, an int64, is negative from 2 ^ 63 on, and any time that passed is more.
  abbrev pub is_stale : ℕ → Bool
  is_stale elapsed = if ltb (interval * 2) (2 ^ 63) then ltb (interval * 2) elapsed else true

  -- The test of `cleanup` on one entry.
  unfoldable pub keep_recent : ℕ → Option Entry → Option Entry
  keep_recent now none = none
  keep_recent now (some e) = if is_stale (now - e.last_refill) then none else some e

  unfoldable pub clean_up : ℕ → Entries → Entries
  clean_up now entries ip = keep_recent now (entries ip)
