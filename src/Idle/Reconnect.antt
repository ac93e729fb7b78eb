-- ===== src/Idle/Reconnect.antt =====
-- internal/idle/daemon.go: `runScanCycle`, `healthCheck` and `attemptReconnect`.
pub mod Attempts
use cloudberry_k8s.Base.{
  ℕ, ◌+◌, Bool, true, false, List, [], ◌∷◌, ◌++◌, Option, none, some, if◌then◌else◌, ltb, leb,
}
use cloudberry_k8s.Base.Float.{Float64}
use cloudberry_k8s.Base.Int.{pos}
use cloudberry_k8s.Util.Retry.{RetryOptions, Environment, retry_with_backoff, Outcome}

-- What the daemon keeps, over the clients C and the outer world W in which the factory works.
pub record Connection (C W : Type 0) : Type 0 where
  pub world : W
  pub client : Option C
  pub consecutive_fails : ℕ
  -- The clients that `Close` was called on, and the results of RecordIdleReconnectAttempt.
  pub closed : List C
  pub attempts : List Bool
  pub scan_failures : ℕ

-- `DBClientFactory.NewClient`; `none` stands for its error.
abbrev pub Factory : Type 0 → Type 0 → Type 0
Factory C W = W → W × Option C

abbrev pub close_old : {C : Type 0} → Option C → List C → List C
close_old none closed = closed
close_old (some c) closed = closed ++ (c ∷ [])

module _ (f : Float64) (multiplier fraction : f.F) where
  -- The options of `attemptReconnect`: reconnectMaxAttempts = 5, so four retries; the two float
  -- constants are parameters.
  unfoldable pub reconnect_options : RetryOptions f
  reconnect_options = record {
    max_retries = pos 4;
    initial_backoff = pos 1_000_000_000;
    max_backoff = pos 60_000_000_000;
    multiplier = multiplier;
    jitter_fraction = fraction;
  }

module _ {C W : Type 0} where
  abbrev pub install : Connection C W → W × Option C → Connection C W × Option (Unit {0})
  install st (w, none) = (record st { world = w; attempts = st.attempts ++ (false ∷ []) }, some tt)
  install st (w, some c) = (
    record st {
      world = w;
      attempts = st.attempts ++ (true ∷ []);
      client = some c;
      closed = close_old st.client st.closed;
      consecutive_fails = 0;
    },
    none,
  )

  -- The closure that `attemptReconnect` retries.
  unfoldable pub reconnect_once : Factory C W → Connection C W → Connection C W × Option (Unit {0})
  reconnect_once factory st = install st (factory st.world)

module _ (f : Float64) (multiplier fraction : f.F) (env : Environment f) {C W : Type 0} where
  -- Without a factory nothing is done.
  unfoldable pub attempt_reconnect : Option (Factory C W) → Connection C W → Connection C W
  attempt_reconnect none st = st
  attempt_reconnect (some factory) st =
      (retry_with_backoff f (reconnect_options f multiplier fraction) env (reconnect_once factory)
        st).state

  abbrev after_failure : Option (Factory C W) → Connection C W → Connection C W
  after_failure factory st = if leb 3 st.consecutive_fails then attempt_reconnect factory st else st

  -- `runScanCycle`, given whether the scan failed.
  unfoldable pub run_scan_cycle : Option (Factory C W) → Bool → Connection C W → Connection C W
  run_scan_cycle factory scan_failed st =
      if scan_failed
      then after_failure factory (record st {
        consecutive_fails = st.consecutive_fails + 1;
        scan_failures = st.scan_failures + 1;
      })
      else record st { consecutive_fails = 0 }

  abbrev pub after_ping : Bool → Option (Factory C W) → Connection C W → Connection C W
  after_ping failed factory st = if failed then attempt_reconnect factory st else st

  -- `healthCheck`, given whether the ping fails; without a client nothing is pinged.
  unfoldable pub health_check : Option (Factory C W) → (C → Bool) → Connection C W → Connection C W
  health_check factory ping_fails st = elim (st.client) [
    | none ↦ st
    | some c ↦ after_ping (ping_fails c) factory st
  ]
