-- ===== src/Tests/Idle.antt =====
-- The idle daemon on concrete inputs.
use cloudberry_k8s.Base.{
  ℕ, zero, suc, ◌+◌, ◌≤◌, true, false, String, [], ◌∷◌, ◌++◌, none, some, ◌≡◌, ◌⊎◌, ◌↔◌, refl,
  arith, ℕ_discrete,
}
use cloudberry_k8s.Base.Int.{ℤ, pos, ◌-ℤ◌}
use cloudberry_k8s.Idle.Lifecycle.{
  looping, System, Reach, start, later, call_start, call_stop, advance, caller_step, returned,
  start_lock, stop_lock, stop_wait, stop_cancel, update, spawn, new_daemon,
}
use cloudberry_k8s.Idle.Lifecycle.Held.{IsHeld, looping-IsHeld}
use cloudberry_k8s.Idle.Lifecycle.Safety.{looping_unique, stop_wait_progress}
use cloudberry_k8s.Idle.Reconnect.{Connection, Factory, attempt_reconnect, close_old}
use cloudberry_k8s.Idle.Reconnect.Attempts.{
  none_refused, refuse, attempt_reconnect_recovers, attempt_reconnect_exhausts, replicate_onto,
}
use cloudberry_k8s.Idle.Rules.{
  Session, IdleRule, is_session_idle, is_session_idle_iff, ShouldTerminate,
}
use cloudberry_k8s.Idle.Scan.{SessionOps, scan_and_enforce}
use cloudberry_k8s.Idle.Scan.Completeness.{any_idle, count_idle, scan_and_enforce-count_idle}
use cloudberry_k8s.Idle.Scan.Enforcement.{IsSound, scan_and_enforce-IsSound}
use cloudberry_k8s.Tests.Floats.{whole}
use cloudberry_k8s.Util.Retry.{Environment}

abbrev session : ℤ → String → ℤ → Session
session pid state query_start = record {
  pid = pid;
  username = "gpadmin";
  state = state;
  resource_group = "etl";
  query_start = query_start;
}

abbrev rule : IdleRule
rule = record {
  name = "etl-idle";
  enabled = true;
  resource_group = "etl";
  idle_timeout = pos 60;
  exclude_in_transaction = true;
  terminate_message = "";
}

abbrev lazy : Session
lazy = session (pos 1) "idle" (pos 100)

is_session_idle_iff_example :
    (is_session_idle lazy rule (pos 200) ≡ true) ↔ ShouldTerminate lazy rule (pos 200)
is_session_idle_iff_example = is_session_idle_iff lazy rule (pos 200)

-- The database is the number of sessions terminated; every termination succeeds.
abbrev ops : SessionOps ℕ
ops = record {
  list_sessions = λ db. (db, some (lazy ∷ session (pos 2) "active" (pos 0) ∷ []));
  terminate = λ pid db. (db + 1, some true);
}

scan_and_enforce-count_idle_example :
    (scan_and_enforce ops (pos 200) (rule ∷ rule ∷ []) 0).state.terminated
    ≡ count_idle (pos 200) (rule ∷ rule ∷ []) (lazy ∷ session (pos 2) "active" (pos 0) ∷ [])
scan_and_enforce-count_idle_example =
    scan_and_enforce-count_idle ops (pos 200) (λ pid db. refl) (rule ∷ rule ∷ []) 0 refl

one_idle :
    count_idle (pos 200) (rule ∷ rule ∷ []) (lazy ∷ session (pos 2) "active" (pos 0) ∷ []) ≡ 1
unfolding count_idle any_idle is_session_idle ◌-ℤ◌
one_idle = refl

scan_and_enforce-IsSound_example :
    IsSound
      (pos 200)
      (rule ∷ rule ∷ [])
      (lazy ∷ session (pos 2) "active" (pos 0) ∷ [])
      (scan_and_enforce ops (pos 200) (rule ∷ rule ∷ []) 0).state
    × ((scan_and_enforce ops (pos 200) (rule ∷ rule ∷ []) 0).state.terminated
        ≤ (scan_and_enforce ops (pos 200) (rule ∷ rule ∷ []) 0).evaluated)
scan_and_enforce-IsSound_example = scan_and_enforce-IsSound ops (pos 200) (rule ∷ rule ∷ []) 0

-- A caller has started the daemon.
abbrev started : System
started = record {
  daemon = spawn new_daemon;
  pc = update (update (λ _. returned) 0 start_lock) 0 returned;
}

started-Reach : Reach started
unfolding caller_step ℕ_discrete
started-Reach = later (later start (call_start 0 refl)) (advance 0 _ _ refl)

looping_unique_example : ◌≡◌ {A = ℕ} 0 0
unfolding ℕ_discrete
looping_unique_example = looping_unique 0 0 started-Reach refl refl

-- Another caller stops it and waits for its loop.
abbrev stopping : System
stopping = record {
  daemon = record (spawn new_daemon) {
    cancel = none;
    canceled = update (update (λ _. false) 0 false) 0 true;
  };
  pc = update (update (update started.pc 1 stop_lock) 1 (stop_cancel 0 (some 0))) 1 (stop_wait 0);
}

stopping-Reach : Reach stopping
unfolding caller_step ℕ_discrete
stopping-Reach =
    later (later (later started-Reach (call_stop 1 refl)) (advance 1 _ _ refl)) (advance 1 _ _ refl)

stop_wait_progress_example :
    (caller_step stopping.daemon (stopping.pc 1) ≡ some (stopping.daemon, returned))
    ⊎ ((stopping.daemon.status 0 ≡ looping) × (stopping.daemon.canceled 0 ≡ true))
unfolding ℕ_discrete
stop_wait_progress_example = stop_wait_progress 1 0 stopping-Reach refl

-- The same, before the caller cancels.
abbrev taken : System
taken = record {
  daemon = record (spawn new_daemon) { cancel = none };
  pc = update (update started.pc 1 stop_lock) 1 (stop_cancel 0 (some 0));
}

taken-Reach : Reach taken
unfolding caller_step ℕ_discrete
taken-Reach = later (later started-Reach (call_stop 1 refl)) (advance 1 _ _ refl)

looping-IsHeld_example : IsHeld taken 0
unfolding ℕ_discrete
looping-IsHeld_example = looping-IsHeld 0 taken-Reach refl

-- A factory that counts its calls down and then gives clients.
abbrev factory : Factory String ℕ
factory zero = (0, some "new")
factory (suc n) = (n, none)

abbrev lost : ℕ → Connection String ℕ
lost n = record {
  world = n;
  client = some "old";
  consecutive_fails = 3;
  closed = [];
  attempts = [];
  scan_failures = 3;
}

abbrev calm_env : Environment whole
calm_env = record { canceled = λ _. false; interrupted = λ _. false; random = λ _. 0 }

attempt_reconnect_recovers_example :
    attempt_reconnect whole 2 0 calm_env (some factory) (lost 1) ≡ record (lost 1) {
      world = 0;
      client = some "new";
      closed = close_old (some "old") [];
      consecutive_fails = 0;
      attempts = replicate_onto 1 [] ++ (true ∷ []);
    }
attempt_reconnect_recovers_example =
    attempt_reconnect_recovers whole 2 0 calm_env factory 1 (lost 1)
      (record { never_canceled = λ _. refl; never_interrupted = λ _. refl }) (omega arith)
      (refuse refl none_refused) refl

attempt_reconnect_exhausts_example :
    attempt_reconnect whole 2 0 calm_env (some factory) (lost 7)
    ≡ record (lost 7) { world = 2; attempts = replicate_onto 5 [] }
attempt_reconnect_exhausts_example =
    attempt_reconnect_exhausts whole 2 0 calm_env factory (lost 7)
      (record { never_canceled = λ _. refl; never_interrupted = λ _. refl })
      (refuse refl (refuse refl (refuse refl (refuse refl (refuse refl none_refused)))))
