-- ===== src/Idle/Scan.antt =====
-- internal/idle/daemon.go: `scanAndEnforce` and `terminateSession`. The database client is the
-- interface that the daemon is given; a log stands for the calls and the metric.
pub mod Enforcement
pub mod Completeness
use cloudberry_k8s.Base.{
  ℕ, ◌+◌, Bool, true, false, not, List, [], ◌∷◌, ◌++◌, Option, none, some, String, if◌then◌else◌,
  ◌==◌, length,
}
use cloudberry_k8s.Base.Int.{ℤ}
use cloudberry_k8s.Idle.Rules.{Session, IdleRule, is_session_idle}

-- db.SessionOps over an abstract database: the sessions, or an error; and whether the session with
-- a PID was terminated, or an error.
pub record SessionOps (Db : Type 0) : Type 0 where
  pub list_sessions : Db → Db × Option (List Session)
  pub terminate : ℤ → Db → Db × Option Bool

-- One call of `TerminateSession`, with its session and rule, and whether it terminated.
pub record Call : Type 0 where
  pub session : Session
  pub rule : IdleRule
  pub done : Bool

pub record ScanState (Db : Type 0) : Type 0 where
  pub db : Db
  pub terminated : ℕ
  pub calls : List Call
  -- The rule names of RecordIdleSessionTermination.
  pub recorded : List String

-- `hasEnabled`
unfoldable pub has_enabled : List IdleRule → Bool
has_enabled [] = false
has_enabled (r ∷ rs) = let rest = has_enabled rs in if r.enabled then true else rest

abbrev pub succeeded : Option Bool → Bool
succeeded none = false
succeeded (some b) = b

pub record ScanResult (Db : Type 0) : Type 0 where
  pub state : ScanState Db
  pub evaluated : ℕ
  pub failed : Bool

abbrev pub idle_state : {Db : Type 0} → Db → ScanState Db
idle_state db = record { db = db; terminated = 0; calls = []; recorded = [] }

module _ {Db : Type 0} (ops : SessionOps Db) where
  -- `terminateSession`: an error or `false` from the client counts as not terminated; a success
  -- is recorded on the metric.
  unfoldable pub terminate_session : Session → IdleRule → ScanState Db → ScanState Db × Bool
  terminate_session session rule st =
      let called = ops.terminate session.pid st.db in
      let done = succeeded called.1 in
      (
        record st {
          db = called.0;
          calls = st.calls ++ (record { session = session; rule = rule; done = done } ∷ []);
          recorded = if done then st.recorded ++ (rule.name ∷ []) else st.recorded;
        },
        done,
      )

  -- The loop over the rules for one session; it breaks at the first success.
  unfoldable pub enforce_rules : Session → ℤ → List IdleRule → ScanState Db → ScanState Db
  enforce_rules session now [] st = st
  enforce_rules session now (rule ∷ rules) st =
      let next = λ (st' : ScanState Db). enforce_rules session now rules st' in
      let (st', done) = terminate_session session rule st in
      if not rule.enabled
      then next st
      else if not (is_session_idle session rule now)
      then next st
      else if done
      then record st' { terminated = st'.terminated + 1 }
      else next st'

  unfoldable pub enforce_sessions : ℤ → List IdleRule → List Session → ScanState Db → ScanState Db
  enforce_sessions now rules [] st = st
  enforce_sessions now rules (session ∷ sessions) st =
      enforce_sessions now rules sessions (enforce_rules session now rules st)

  abbrev pub scan_listed : ℤ → List IdleRule → Db × Option (List Session) → ScanResult Db
  scan_listed now rules (db, none) = record { state = idle_state db; evaluated = 0; failed = true }
  scan_listed now rules (db, some sessions) = record {
    state = enforce_sessions now rules sessions (idle_state db);
    evaluated = length sessions;
    failed = false;
  }

  -- `scanAndEnforce`; without an enabled rule (so also without rules) the database is not asked.
  unfoldable pub scan_and_enforce : ℤ → List IdleRule → Db → ScanResult Db
  scan_and_enforce now rules db =
      let unasked : ScanResult Db = record {
        state = idle_state db;
        evaluated = 0;
        failed = false;
      } in
      if length rules == 0
      then unasked
      else if not (has_enabled rules)
      then unasked
      else scan_listed now rules (ops.list_sessions db)
