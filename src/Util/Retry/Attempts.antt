-- ===== src/Util/Retry/Attempts.antt =====
-- internal/util/retry.go: how often RetryWithBackoff calls the function, and what it reports.
use cloudberry_k8s.Base.{
  ℕ, zero, suc, ◌+◌, ◌-◌, ◌≤◌, ◌<◌, false, Option, none, some, ◌≡◌, refl, sym, ap, ◌∙◌, arith, ◌⊎◌,
  inl, inr, Bool-cases, ltb, length,
}
use cloudberry_k8s.Base.Float.{Float64}
use cloudberry_k8s.Base.Int.{pos_part}
use cloudberry_k8s.Util.Retry.{
  Duration, next_backoff, RetryOptions, Environment, retry_exhausted, Outcome, after_call,
  retry_from, normalize_options, retry_with_backoff,
}

-- The function under retry with a count of its calls beside its state.
abbrev pub counted : {S E : Type 0} → (S → S × Option E) → S × ℕ → (S × ℕ) × Option E
counted fn (s, k) = (((fn s).0, k + 1), (fn s).1)

module _ (f : Float64) {S E : Type 0} (opts : RetryOptions f) (env : Environment f)
    (fn : S → S × Option E) where
  calls_from-le :
      (rounds attempt : ℕ) (last : Option E) (b : Duration) (s : S) (k : ℕ)
      → (retry_from f opts env (counted fn) rounds attempt last b (s, k)).state.1 ≤ k + rounds
  unfolding retry_from after_call
  calls_from-le zero attempt last b s k = omega arith
  calls_from-le (suc n) attempt last b s k =
      grind (arith, calls_from-le n (attempt + 1) (fn s).1 _ (fn s).0 (k + 1))

  -- A round that ends the loop without error made a call that did, or its next round ends so.
  after_call-eq-none :
      (attempt : ℕ) (b : Duration) (c : S × Option E) (next : Duration → Outcome S E)
      → (after_call f opts env fn attempt b c next).error ≡ none
      → (c ≡ ((after_call f opts env fn attempt b c next).state, none))
        ⊎ ((b' : Duration) × ((next b').error ≡ none)
            × ((after_call f opts env fn attempt b c next).state ≡ (next b').state))
  unfolding after_call
  after_call-eq-none attempt b (s, none) next h = inl refl
  after_call-eq-none attempt b (s, some e) next h =
      elim (Bool-cases (ltb attempt (pos_part opts.max_retries))) [
        | inl more ↦ inr (next_backoff f opts b, ground arith, ground arith)
        | inr last ↦ inr (b, ground arith, ground arith)
      ]

  success_from :
      (rounds attempt : ℕ) (last : Option E) (b : Duration) (s : S)
      → (retry_from f opts env fn rounds attempt last b s).error ≡ none
      → (t : S) × (fn t ≡ ((retry_from f opts env fn rounds attempt last b s).state, none))
  unfolding retry_from
  success_from zero attempt last b s h = absurd (ground arith)
  success_from (suc n) attempt last b s h = elim (Bool-cases (env.canceled attempt)) [
    | inl c ↦ absurd (ground arith)
    | inr go ↦
        let next =
          λ (b' : Duration). retry_from f opts env fn n (attempt + 1) (fn s).1 b' (fn s).0 in
        elim (after_call-eq-none attempt b (fn s) next (rw go at h)) [
          | inl e ↦ rw go (s, e)
          | inr (b', ok, same) ↦
              let (t, e) = success_from n (attempt + 1) (fn s).1 b' (fn s).0 ok in
              rw go (t, e ∙ ap (λ v. (v, none)) (sym same))
        ]
  ]

  -- Failing calls lead from one state to another.
  pub data Fails : ℕ → S → S → Type 0 where
    none_left : {s : S} → Fails 0 s s
    fail : {n : ℕ} {s t : S} (e : E) → (fn s).1 ≡ some e → Fails n (fn s).0 t → Fails (suc n) s t

  -- Nothing cancels the context.
  pub record IsCalm : Type 0 where
    pub never_canceled : (i : ℕ) → env.canceled i ≡ false
    pub never_interrupted : (i : ℕ) → env.interrupted i ≡ false

  recovers_from :
      (rounds attempt : ℕ) (last : Option E) (b : Duration) (u : S) {k : ℕ} {s t : S}
      → IsCalm
      → Fails k s t
      → fn t ≡ (u, none)
      → attempt + rounds ≡ suc (pos_part opts.max_retries)
      → k < rounds
      → ((retry_from f opts env fn rounds attempt last b s).error ≡ none)
        × ((retry_from f opts env fn rounds attempt last b s).state ≡ u)
        × (length (retry_from f opts env fn rounds attempt last b s).slept ≡ k)
  unfolding retry_from after_call
  recovers_from zero attempt last b u calm fails ok r h = absurd (omega arith)
  recovers_from (suc n) attempt last b u calm none_left ok r h =
      ground (arith, calm.never_canceled attempt)
  recovers_from (suc n) attempt last b u calm (fail {s} e eq fs) ok r h = ground (
    arith,
    calm.never_canceled attempt,
    calm.never_interrupted attempt,
    recovers_from n (attempt + 1) (fn s).1 (next_backoff f opts b) u calm fs ok (omega arith)
        (omega arith),
  )

  exhausts_from :
      (rounds attempt : ℕ) (last : Option E) (b : Duration) {s t : S}
      → IsCalm
      → Fails rounds s t
      → attempt + rounds ≡ suc (pos_part opts.max_retries)
      → (rounds ≡ 0 → (e : E) × (last ≡ some e))
      → ((e' : E) × ((retry_from f opts env fn rounds attempt last b s).error
            ≡ some (retry_exhausted (pos_part opts.max_retries + 1) (some e'))))
        × ((retry_from f opts env fn rounds attempt last b s).state ≡ t)
        × (length (retry_from f opts env fn rounds attempt last b s).slept ≡ rounds - 1)
  unfolding retry_from after_call
  exhausts_from zero attempt last b calm none_left r known =
      let (e, le) = known refl in ((e, ground arith), refl, refl)
  exhausts_from (suc n) attempt last b calm (fail {s} e' eq fs) r known =
      let rest =
        exhausts_from n (attempt + 1) (fn s).1 (next_backoff f opts b) calm fs (omega arith)
          (λ _. (e', eq)) in
      let stay = exhausts_from n (attempt + 1) (fn s).1 b calm fs (omega arith) (λ _. (e', eq)) in
      elim (Bool-cases (ltb attempt (pos_part opts.max_retries))) [
        | inl more ↦ (
          (rest.0.0, ground (arith, calm.never_canceled attempt, calm.never_interrupted attempt)),
          ground (arith, calm.never_canceled attempt, calm.never_interrupted attempt),
          ground (arith, calm.never_canceled attempt, calm.never_interrupted attempt),
        )
        | inr no_more ↦ (
          (stay.0.0, ground (arith, calm.never_canceled attempt, calm.never_interrupted attempt)),
          ground (arith, calm.never_canceled attempt, calm.never_interrupted attempt),
          ground (arith, calm.never_canceled attempt, calm.never_interrupted attempt),
        )
      ]

module _ (f : Float64) {S E : Type 0} (opts : RetryOptions f) (env : Environment f)
    (fn : S → S × Option E) where
  abbrev pub normal_retries : ℕ
  normal_retries = pos_part (normalize_options f opts).max_retries

  -- RetryWithBackoff calls its function at most MaxRetries + 1 times (MaxRetries below 0 counts
  -- as 0), whatever the function, the context and the timers do.
  pub retry_with_backoff-calls_le :
      (s : S) → (retry_with_backoff f opts env (counted fn) (s, 0)).state.1 ≤ normal_retries + 1
  unfolding retry_with_backoff
  retry_with_backoff-calls_le s = omega (
    arith,
    calls_from-le f (normalize_options f opts) env fn (suc normal_retries) 0 none
        (normalize_options f opts).initial_backoff s 0,
  )

  -- If RetryWithBackoff reports no error, its last call succeeded, and the state is the one that
  -- this call left.
  pub retry_with_backoff-eq_none :
      (s : S)
      → (retry_with_backoff f opts env fn s).error ≡ none
      → (t : S) × (fn t ≡ ((retry_with_backoff f opts env fn s).state, none))
  unfolding retry_with_backoff
  retry_with_backoff-eq_none s h = success_from f (normalize_options f opts) env fn _ 0 none _ s h

  -- With the context never done: if k calls fail, the next one succeeds and k is at most
  -- MaxRetries, the result is that call's, without error and after k waits.
  pub retry_with_backoff_recovers :
      {k : ℕ} {s t : S} (u : S)
      → IsCalm f (normalize_options f opts) env fn
      → Fails f (normalize_options f opts) env fn k s t
      → fn t ≡ (u, none)
      → k ≤ normal_retries
      → ((retry_with_backoff f opts env fn s).error ≡ none)
        × ((retry_with_backoff f opts env fn s).state ≡ u)
        × (length (retry_with_backoff f opts env fn s).slept ≡ k)
  unfolding retry_with_backoff
  retry_with_backoff_recovers u calm fails ok le =
      recovers_from f (normalize_options f opts) env fn (suc normal_retries) 0 none _ u calm fails
        ok (omega arith) (omega arith)

  -- With the context never done: if MaxRetries + 1 calls fail, the error is ErrRetryExhausted with
  -- that number of attempts and an error of the function, after MaxRetries waits.
  pub retry_with_backoff_exhausts :
      {s t : S}
      → IsCalm f (normalize_options f opts) env fn
      → Fails f (normalize_options f opts) env fn (suc normal_retries) s t
      → ((e : E) × ((retry_with_backoff f opts env fn s).error
            ≡ some (retry_exhausted (normal_retries + 1) (some e))))
        × ((retry_with_backoff f opts env fn s).state ≡ t)
        × (length (retry_with_backoff f opts env fn s).slept ≡ normal_retries)
  unfolding retry_with_backoff
  retry_with_backoff_exhausts calm fails =
      let (failed, last, waits) =
        exhausts_from f (normalize_options f opts) env fn (suc normal_retries) 0 none
          (normalize_options f opts).initial_backoff calm fails (omega arith)
          (λ z. absurd (omega arith)) in
      (failed, last, omega (arith, waits))
