-- ===== src/Tests/Util.antt =====
-- Conditions and retries on concrete inputs.
use cloudberry_k8s.Base.{
  ℕ, zero, suc, ◌+◌, ◌≤◌, false, List, [], ◌∷◌, Option, none, some, ◌≡◌, refl, arith, length, All,
}
use cloudberry_k8s.Base.Int.{pos, ◌+ℤ◌, ◌≤ℤ◌}
use cloudberry_k8s.Tests.Floats.{whole, whole-IsIeee}
use cloudberry_k8s.Util.Conditions.{
  Condition, set_condition, find_condition, set_condition_idem, set_condition-IsDistinct,
  IsDistinct,
}
use cloudberry_k8s.Util.Conditions.Refinement.{
  Update.sets, Update.removes, calls, replay, Reads, calls-Reads,
}
use cloudberry_k8s.Util.Retry.{
  RetryOptions, Environment, retry_exhausted, retry_with_backoff, normalize_options,
  calculate_backoff, next_backoff, after_call, retry_from,
}
use cloudberry_k8s.Util.Retry.Attempts.{
  IsCalm, Fails, none_left, fail, counted, normal_retries, retry_with_backoff-calls_le,
  retry_with_backoff-eq_none, retry_with_backoff_recovers, retry_with_backoff_exhausts,
}
use cloudberry_k8s.Util.Retry.Backoff.{retry_with_backoff-slept_le}

abbrev ready : Condition
ready = record {
  type = "ClusterReady";
  status = "False";
  reason = "ComponentsNotReady";
  message = "";
  last_transition_time = 5;
}

abbrev degraded : Condition
degraded = record ready { type = "Degraded"; last_transition_time = 3 }

abbrev both : List Condition
both = ready ∷ degraded ∷ []

set_condition_idem_example :
    set_condition 9 "ClusterReady" "True" "All" "ok"
      (set_condition 7 "ClusterReady" "True" "All" "ok" both)
    ≡ set_condition 7 "ClusterReady" "True" "All" "ok" both
set_condition_idem_example = set_condition_idem 7 9 "ClusterReady" "True" "All" "ok" both

both-IsDistinct : IsDistinct both
unfolding find_condition
both-IsDistinct = (refl, (refl, tt))

set_condition-IsDistinct_example : IsDistinct (set_condition 7 "Upgrading" "True" "All" "ok" both)
set_condition-IsDistinct_example =
    set_condition-IsDistinct 7 "Upgrading" "True" "All" "ok" both both-IsDistinct

-- Two retries, one second at first, doubling.
abbrev options : RetryOptions whole
options = record {
  max_retries = pos 2;
  initial_backoff = pos 1_000;
  max_backoff = pos 1_500;
  multiplier = 2;
  jitter_fraction = 1;
}

abbrev calm_env : Environment whole
calm_env = record { canceled = λ _. false; interrupted = λ _. false; random = λ _. 1 }

-- Fails as long as its countdown is above 0.
abbrev countdown : ℕ → ℕ × Option (Unit {0})
countdown zero = (0, none)
countdown (suc n) = (n, some tt)

abbrev calm : IsCalm whole (normalize_options whole options) calm_env countdown
calm = record { never_canceled = λ _. refl; never_interrupted = λ _. refl }

two_failures : Fails whole (normalize_options whole options) calm_env countdown 2 2 0
two_failures = fail tt refl (fail tt refl none_left)

three_failures : Fails whole (normalize_options whole options) calm_env countdown 3 7 4
three_failures = fail tt refl (fail tt refl (fail tt refl none_left))

recovers_run :
    retry_with_backoff whole options calm_env countdown 2
    ≡ record { state = 0; error = none; slept = pos 2_000 ∷ pos 3_000 ∷ [] }
unfolding retry_with_backoff normalize_options retry_from after_call calculate_backoff next_backoff
    ◌+ℤ◌
recovers_run = refl

retry_with_backoff-calls_le_example :
    (retry_with_backoff whole options calm_env (counted countdown) (9, 0)).state.1
    ≤ normal_retries whole options calm_env countdown + 1
retry_with_backoff-calls_le_example = retry_with_backoff-calls_le whole options calm_env countdown 9

retry_with_backoff-eq_none_example :
    (t : ℕ) × (countdown t ≡ ((retry_with_backoff whole options calm_env countdown 2).state, none))
unfolding retry_with_backoff normalize_options retry_from after_call calculate_backoff next_backoff
    ◌+ℤ◌
retry_with_backoff-eq_none_example =
    retry_with_backoff-eq_none whole options calm_env countdown 2 refl

retry_with_backoff_recovers_example :
    ((retry_with_backoff whole options calm_env countdown 2).error ≡ none)
    × ((retry_with_backoff whole options calm_env countdown 2).state ≡ 0)
    × (length (retry_with_backoff whole options calm_env countdown 2).slept ≡ 2)
unfolding normalize_options
retry_with_backoff_recovers_example =
    retry_with_backoff_recovers whole options calm_env countdown 0 calm two_failures refl
      (omega arith)

retry_with_backoff_exhausts_example :
    ((e : Unit {0}) × ((retry_with_backoff whole options calm_env countdown 7).error
        ≡ some (retry_exhausted (normal_retries whole options calm_env countdown + 1) (some e))))
    × ((retry_with_backoff whole options calm_env countdown 7).state ≡ 4)
    × (length (retry_with_backoff whole options calm_env countdown 7).slept
        ≡ normal_retries whole options calm_env countdown)
unfolding normalize_options
retry_with_backoff_exhausts_example =
    retry_with_backoff_exhausts whole options calm_env countdown calm three_failures

retry_with_backoff-slept_le_example :
    All
      (λ d.
        d
        ≤ℤ (normalize_options whole options).max_backoff
          +ℤ (normalize_options whole options).max_backoff)
      (retry_with_backoff whole options calm_env countdown 7).slept
retry_with_backoff-slept_le_example =
    retry_with_backoff-slept_le whole options calm_env countdown 7 whole-IsIeee (omega arith)
      (omega arith) refl refl (λ _. refl)

calls-Reads_example :
    Reads
      (calls (sets 9 "ClusterReady" "False" "Down" "1 of 2" ∷ removes "Degraded" ∷ []) both)
      (replay
        (sets 9 "ClusterReady" "False" "Down" "1 of 2" ∷ removes "Degraded" ∷ [])
        (find_condition both)
        "ClusterReady")
      "ClusterReady"
calls-Reads_example =
    calls-Reads (sets 9 "ClusterReady" "False" "Down" "1 of 2" ∷ removes "Degraded" ∷ []) both
      "ClusterReady"
