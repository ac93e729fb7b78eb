-- ===== src/Idle/Reconnect/Attempts.antt =====
-- internal/idle/daemon.go: what a reconnect leaves behind.
use cloudberry_k8s.Base.{
  ℕ, zero, suc, ◌≤◌, Bool, true, false, List, [], ◌∷◌, ◌++◌, none, some, ◌≡◌, refl, sym, ap, arith,
}
use mathlib.Core.Path.{subst}
use cloudberry_k8s.Base.Float.{Float64}
use cloudberry_k8s.Util.Retry.{RetryOptions, Environment, normalize_options}
use cloudberry_k8s.Util.Retry.Attempts.{
  Fails, none_left, fail, IsCalm, retry_with_backoff_recovers, retry_with_backoff_exhausts,
}
use cloudberry_k8s.Idle.Reconnect.{
  Connection, Factory, close_old, reconnect_options, reconnect_once, attempt_reconnect,
}

-- The factory fails k times from a world, and leaves another.
pub data Refuses {C W : Type 0} (factory : Factory C W) : ℕ → W → W → Type 0 where
  none_refused : {w : W} → Refuses factory 0 w w
  refuse :
      {n : ℕ} {w v : W}
      → (factory w).1 ≡ none
      → Refuses factory n (factory w).0 v
      → Refuses factory (suc n) w v

abbrev pub replicate_onto : ℕ → List Bool → List Bool
replicate_onto zero xs = xs
replicate_onto (suc n) xs = replicate_onto n (xs ++ (false ∷ []))

module _ (f : Float64) (multiplier fraction : f.F) (env : Environment f) {C W : Type 0}
    (factory : Factory C W) where
  abbrev options : RetryOptions f
  options = normalize_options f (reconnect_options f multiplier fraction)

  refused : ℕ → Connection C W → W → Connection C W
  refused k st v = record st { world = v; attempts = replicate_onto k st.attempts }

  reconnect_once-refused :
      (st : Connection C W)
      → (factory st.world).1 ≡ none
      → reconnect_once factory st ≡ (
        record st { world = (factory st.world).0; attempts = st.attempts ++ (false ∷ []) },
        some tt,
      )
  unfolding reconnect_once
  reconnect_once-refused st h = ground arith

  Refuses-Fails :
      (k : ℕ) (st : Connection C W) {v : W}
      → Refuses factory k st.world v
      → Fails f options env (reconnect_once factory) k st (refused k st v)
  unfolding refused
  Refuses-Fails zero st none_refused = none_left
  Refuses-Fails (suc k) st {v} (refuse h hs) =
      let st' = record st {
        world = (factory st.world).0;
        attempts = st.attempts ++ (false ∷ []);
      } in
      let eq = reconnect_once-refused st h in
      fail tt (ap (λ p. p.1) eq) (
        subst (λ x. Fails f options env (reconnect_once factory) k x (refused k st' v))
          (sym (ap (λ p. p.0) eq)) (Refuses-Fails k st' hs))

  -- With the context never done: if the factory refuses k ≤ 4 clients and gives the next, the
  -- daemon holds the new client, has closed the old one, if any, just once, has no consecutive
  -- failures, and has recorded k failed attempts and a successful one.
  pub attempt_reconnect_recovers :
      (k : ℕ) (st : Connection C W) {v w : W} {c : C}
      → IsCalm f options env (reconnect_once factory)
      → k ≤ 4
      → Refuses factory k st.world v
      → factory v ≡ (w, some c)
      → attempt_reconnect f multiplier fraction env (some factory) st ≡ record st {
        world = w;
        client = some c;
        closed = close_old st.client st.closed;
        consecutive_fails = 0;
        attempts = replicate_onto k st.attempts ++ (true ∷ []);
      }
  unfolding attempt_reconnect refused reconnect_once
  attempt_reconnect_recovers k st {v} {w} {c} calm few refuses given =
      (retry_with_backoff_recovers f (reconnect_options f multiplier fraction) env
        (reconnect_once factory) _ calm (Refuses-Fails k st refuses) (rw given refl)
        (unfold normalize_options reconnect_options in few)).1

  -- With the context never done: if the factory refuses five clients, the daemon keeps its client
  -- open and its failure count, and has recorded five failed attempts.
  pub attempt_reconnect_exhausts :
      (st : Connection C W) {v : W}
      → IsCalm f options env (reconnect_once factory)
      → Refuses factory 5 st.world v
      → attempt_reconnect f multiplier fraction env (some factory) st
        ≡ record st { world = v; attempts = replicate_onto 5 st.attempts }
  unfolding attempt_reconnect refused normalize_options reconnect_options
  attempt_reconnect_exhausts st calm refuses =
      (retry_with_backoff_exhausts f (reconnect_options f multiplier fraction) env
        (reconnect_once factory) calm (Refuses-Fails 5 st refuses)).1
