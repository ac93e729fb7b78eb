-- ===== src/Tests/RateLimit.antt =====
-- The rate limiter on concrete inputs.
use Prim.Native.Nat.{min}
use cloudberry_k8s.Base.{ℕ, ◌+◌, ◌-◌, ◌*◌, ◌/◌, ◌≡◌, inl, none, some, [], ◌∷◌, refl, arith, ltb}
use cloudberry_k8s.RateLimit.{TokenArith, IsExact, IsSettings, Entries, allow, clean_up}
use cloudberry_k8s.RateLimit.Burst.{allowed, allowed-fresh}
use cloudberry_k8s.RateLimit.Cleanup.{IsNatural, allow-clean_up}
use cloudberry_k8s.RateLimit.Isolation.{answers, own, answers-own}

-- Whole numbers with quotients rounded up: tokens come no slower than the limiter's.
abbrev rounded_up : TokenArith
rounded_up = record {
  F = ℕ;
  of_ℕ = λ n. n;
  seconds = λ d. d;
  add = λ x y. x + y;
  sub = λ x y. x - y;
  mul = λ x y. x * y;
  div = λ x y. (x + y - 1) / y;
  less = ltb;
}

-- Two requests in ten units of time.
settings : IsSettings 2 10
settings = record {
  positive = omega arith;
  small = omega arith;
  some_time = omega arith;
  twice_fits = omega arith;
}

rounded_up-IsExact : IsExact rounded_up 2 10
rounded_up-IsExact = record {
  sub_one = λ n small. omega arith;
  less_of_ℕ = λ m n sm sn. refl;
  no_time = λ n small. omega arith;
  fills = λ x d natural old era. ground arith;
}

abbrev nobody : Entries rounded_up 2 10
nobody ip = none

allowed-fresh_example :
    allowed rounded_up 2 10 settings rounded_up-IsExact 7 5 "10.0.0.1" nobody ≡ min 5 2
allowed-fresh_example =
    allowed-fresh rounded_up 2 10 settings rounded_up-IsExact 7 5 "10.0.0.1" nobody refl

answers-own_example :
    answers rounded_up 2 10 "a" ((1, "a") ∷ (1, "b") ∷ (2, "a") ∷ []) nobody
    ≡ answers rounded_up 2 10 "a"
        (own rounded_up 2 10 "a" ((1, "a") ∷ (1, "b") ∷ (2, "a") ∷ []))
        nobody
answers-own_example = answers-own rounded_up 2 10 "a" ((1, "a") ∷ (1, "b") ∷ (2, "a") ∷ []) nobody

abbrev seen : Entries rounded_up 2 10
seen ip = some (record { tokens = 0; last_refill = 5 })

seen-IsNatural : IsNatural rounded_up 2 10 settings rounded_up-IsExact (seen "a")
unfolding IsNatural
seen-IsNatural = inl refl

allow-clean_up_example :
    ((allow rounded_up 2 10 50 "a" (clean_up rounded_up 2 10 40 seen)).1
      ≡ (allow rounded_up 2 10 50 "a" seen).1)
    × ((allow rounded_up 2 10 50 "a" (clean_up rounded_up 2 10 40 seen)).0 "a"
        ≡ (allow rounded_up 2 10 50 "a" seen).0 "a")
allow-clean_up_example =
    allow-clean_up rounded_up 2 10 settings rounded_up-IsExact 40 50 "a" seen (omega arith)
      (omega arith) seen-IsNatural
