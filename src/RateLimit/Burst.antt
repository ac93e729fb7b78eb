-- ===== src/RateLimit/Burst.antt =====
-- internal/api/ratelimit.go: the requests of one moment.
use Prim.Native.Nat.{min}
use cloudberry_k8s.Base.{
  ℕ, zero, suc, ◌-◌, ◌≤◌, true, false, Option, none, some, String, str_eq, eq_iff, if◌then◌else◌,
  ltb, ◌≡◌, refl, arith,
}
use cloudberry_k8s.RateLimit.{
  TokenArith, IsExact, IsSettings, Entry, Entries, put, refill, take_token, allow,
}

module _ (ops : TokenArith) (limit interval : ℕ) (settings : IsSettings limit interval)
    (laws : IsExact ops limit interval) where
  -- How many of n requests of a client at one time are allowed.
  unfoldable pub allowed : ℕ → ℕ → String → Entries ops limit interval → ℕ
  allowed now zero ip entries = 0
  allowed now (suc n) ip entries =
      let answer = allow ops limit interval now ip entries in
      let rest = allowed now n ip answer.0 in if answer.1 then suc rest else rest

  abbrev bucket : ℕ → ℕ → Entry ops limit interval
  bucket now m = record { tokens = ops.of_ℕ m; last_refill = now }

  refill-bucket :
      (now m : ℕ) → m ≤ limit → refill ops limit interval now (bucket now m) ≡ ops.of_ℕ m
  unfolding refill
  refill-bucket now m le =
      let no_wait : now - now ≡ 0 = omega arith in
      let not_over : ltb limit m ≡ false = ground arith in
      rw
        (
          no_wait,
          laws.no_time m (omega arith),
          laws.less_of_ℕ limit m settings.small (omega arith),
          not_over,
        )
        refl

  take_full :
      (now m : ℕ)
      → suc m ≤ limit
      → take_token ops limit interval now (some (bucket now (suc m))) ≡ (bucket now m, true)
  unfolding take_token
  take_full now m le =
      let enough : ltb (suc m) 1 ≡ false = ground arith in
      rw
        (
          refill-bucket now (suc m) le,
          laws.less_of_ℕ (suc m) 1 (omega arith) (omega arith),
          enough,
          laws.sub_one m (omega arith),
        )
        refl

  take_empty :
      (now : ℕ) → take_token ops limit interval now (some (bucket now 0)) ≡ (bucket now 0, false)
  unfolding take_token
  take_empty now =
      rw (refill-bucket now 0 (omega arith), laws.less_of_ℕ 0 1 (omega arith) (omega arith)) refl

  abbrev holding : ℕ → ℕ → String → Entries ops limit interval → Entries ops limit interval
  holding now m ip entries = put ops limit interval ip (some (bucket now m)) entries

  put_same :
      (ip : String) (e : Option (Entry ops limit interval)) (entries : Entries ops limit interval)
      → put ops limit interval ip e entries ip ≡ e
  put_same ip e entries =
      let same : str_eq ip ip ≡ true = ground (arith, eq_iff ip ip) in rw same refl

  -- From a bucket with m tokens, m requests are allowed.
  allowed-bucket :
      (now n m : ℕ) (ip : String) (entries : Entries ops limit interval)
      → m ≤ limit
      → entries ip ≡ some (bucket now m)
      → allowed now n ip entries ≡ min n m
  unfolding allowed allow
  allowed-bucket now zero m ip entries le e = omega arith
  allowed-bucket now (suc n) zero ip entries le e =
      rw (e, take_empty now)
        (omega (
          arith,
          allowed-bucket now n 0 ip (holding now 0 ip entries) le
              (put_same ip (some (bucket now 0)) entries),
        ))
  allowed-bucket now (suc n) (suc m) ip entries le e =
      rw (e, take_full now m le)
        (omega (
          arith,
          allowed-bucket now n m ip (holding now m ip entries) (omega arith)
              (put_same ip (some (bucket now m)) entries),
        ))

  -- Of n requests that a client whom the limiter does not know makes at one time, the first `limit`
  -- are allowed and the others are not, under the laws of float64, where the limit is at least 1 and
  -- below 2 ^ 53 and the interval at least 1 and below 2 ^ 62.
  pub allowed-fresh :
      (now n : ℕ) (ip : String) (entries : Entries ops limit interval)
      → entries ip ≡ none
      → allowed now n ip entries ≡ min n limit
  unfolding allowed allow take_token
  allowed-fresh now zero ip entries e = omega arith
  allowed-fresh now (suc n) ip entries e =
      let one_less : suc (limit - 1) ≡ limit = omega (arith, settings.positive) in
      let left : ops.sub (ops.of_ℕ limit) (ops.of_ℕ 1) ≡ ops.of_ℕ (limit - 1) =
        rw one_less at (laws.sub_one (limit - 1) (omega (arith, settings.small))) in
      rw (e, left)
        (omega (
          arith,
          allowed-bucket now n (limit - 1) ip (holding now (limit - 1) ip entries) (omega arith)
              (put_same ip (some (bucket now (limit - 1))) entries),
        ))
