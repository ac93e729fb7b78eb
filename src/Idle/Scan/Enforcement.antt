-- ===== src/Idle/Scan/Enforcement.antt =====
-- internal/idle/daemon.go: which sessions a scan terminates.
use cloudberry_k8s.Base.{
  ℕ, suc, ◌+◌, ◌≤◌, Bool, true, false, not, List, [], ◌∷◌, ◌++◌, Option, none, some, ◌≡◌, refl,
  arith, Bool-cases, if_cases, not-eq_false, inl, inr, if◌then◌else◌, ◌==◌, length, All, All-append,
  All-In, In, String, sym, ap, ◌∙◌,
}
use cloudberry_k8s.Base.Int.{ℤ}
use cloudberry_k8s.Idle.Rules.{Session, IdleRule, is_session_idle}
use cloudberry_k8s.Idle.Scan.{
  SessionOps, Call, ScanState, ScanResult, idle_state, scan_listed, scan_and_enforce, has_enabled,
  terminate_session, enforce_rules, enforce_sessions, succeeded,
}

-- The number of calls that terminated their session.
pub count_done : List Call → ℕ
count_done [] = 0
count_done (c ∷ cs) = if c.done then suc (count_done cs) else count_done cs

pub count_done-append : (xs ys : List Call) → count_done (xs ++ ys) ≡ count_done xs + count_done ys
unfolding count_done
count_done-append [] ys = omega arith
count_done-append (x ∷ xs) ys = ground (arith, count_done-append xs ys)

-- The names of their rules.
pub done_names : List Call → List String
done_names [] = []
done_names (c ∷ cs) = if c.done then c.rule.name ∷ done_names cs else done_names cs

done_names-append : (xs ys : List Call) → done_names (xs ++ ys) ≡ done_names xs ++ done_names ys
unfolding done_names
done_names-append [] ys = refl
done_names-append (x ∷ xs) ys = elim (Bool-cases x.done) [
  | inl yes_done ↦ rw (yes_done, done_names-append xs ys) refl
  | inr not_done ↦ rw (not_done, done_names-append xs ys) refl
]

append_none : (xs : List String) → xs ++ [] ≡ xs
append_none [] = refl
append_none (x ∷ xs) = ap (λ ys. x ∷ ys) (append_none xs)

-- A scan's bookkeeping: every call was for a session and a rule of the lists of which the test
-- holds, the counter is the number of calls that succeeded, and the metric has the names of their
-- rules in the order of the calls.
pub record IsSound {Db : Type 0} (now : ℤ) (rules : List IdleRule) (sessions : List Session)
    (st : ScanState Db) : Type 0 where
  pub idle : All (λ c. is_session_idle c.session c.rule now ≡ true) st.calls
  pub listed : All (λ c. In c.session sessions × In c.rule rules) st.calls
  pub counted : st.terminated ≡ count_done st.calls
  pub metric : st.recorded ≡ done_names st.calls

abbrev IsIdleCall : ℤ → Call → Type 0
IsIdleCall now c = is_session_idle c.session c.rule now ≡ true

abbrev IsListedCall : List IdleRule → List Session → Call → Type 0
IsListedCall rules sessions c = In c.session sessions × In c.rule rules

-- The state after the loop's handling of one call, the counter included.
abbrev credit : {Db : Type 0} → ScanState Db × Bool → ScanState Db
credit (st, done) = if done then record st { terminated = st.terminated + 1 } else st

module _ {Db : Type 0} (ops : SessionOps Db) (now : ℤ) (all_rules : List IdleRule)
    (all_sessions : List Session) where
  abbrev Sound : ScanState Db → Type 0
  Sound = IsSound now all_rules all_sessions

  -- A call that was made, with its answer.
  called_with : Session → IdleRule → ScanState Db → Db → Bool → ScanState Db × Bool
  called_with session rule st db done = (
    record st {
      db = db;
      calls = st.calls ++ (record { session = session; rule = rule; done = done } ∷ []);
      recorded = if done then st.recorded ++ (rule.name ∷ []) else st.recorded;
    },
    done,
  )

  module _ (session : Session) (rule : IdleRule) (st : ScanState Db)
      (in_sessions : In session all_sessions) (in_rules : In rule all_rules)
      (idle : is_session_idle session rule now ≡ true) (h : Sound st) where
    called_with-IsSound :
        (db : Db) (done : Bool) → Sound (credit (called_with session rule st db done))
    unfolding called_with count_done done_names
    called_with-IsSound db true =
        let c : Call = record { session = session; rule = rule; done = true } in
        record {
          idle = All-append (IsIdleCall now) st.calls (c ∷ []) h.idle (idle, tt);
          listed =
              All-append (IsListedCall all_rules all_sessions) st.calls (c ∷ []) h.listed
                ((in_sessions, in_rules), tt);
          counted = ground (arith, h.counted, count_done-append st.calls (c ∷ []));
          metric =
              ap (λ names. names ++ (rule.name ∷ [])) h.metric
              ∙ sym (done_names-append st.calls (c ∷ []));
        }
    called_with-IsSound db false =
        let c : Call = record { session = session; rule = rule; done = false } in
        record {
          idle = All-append (IsIdleCall now) st.calls (c ∷ []) h.idle (idle, tt);
          listed =
              All-append (IsListedCall all_rules all_sessions) st.calls (c ∷ []) h.listed
                ((in_sessions, in_rules), tt);
          counted = ground (arith, h.counted, count_done-append st.calls (c ∷ []));
          metric =
              h.metric
              ∙ sym (append_none (done_names st.calls))
              ∙ sym (done_names-append st.calls (c ∷ []));
        }

    credit-IsSound : Sound (credit (terminate_session ops session rule st))
    unfolding terminate_session called_with
    credit-IsSound =
        called_with-IsSound (ops.terminate session.pid st.db).0
          (succeeded (ops.terminate session.pid st.db).1)

  enforce_rules-IsSound :
      (session : Session) (rules : List IdleRule) (st : ScanState Db)
      → In session all_sessions
      → All (λ r. In r all_rules) rules
      → Sound st
      → Sound (enforce_rules ops session now rules st)
  unfolding enforce_rules
  enforce_rules-IsSound session [] st here among h = h
  enforce_rules-IsSound session (rule ∷ rules) st here among h =
      let called = terminate_session ops session rule st in
      let skip = enforce_rules-IsSound session rules st here among.1 h in
      if_cases Sound _ _ _ (λ _. skip)
        (λ _.
          if_cases Sound _ _ _ (λ _. skip)
            (λ idle.
              let credited = credit-IsSound session rule st here among.0 (not-eq_false idle) h in
              if_cases Sound called.1 _ _ (λ done. rw done at credited)
                (λ missed.
                  enforce_rules-IsSound session rules called.0 here among.1
                    (rw missed at credited))))

  enforce_sessions-IsSound :
      (sessions : List Session) (st : ScanState Db)
      → All (λ s. In s all_sessions) sessions
      → Sound st
      → Sound (enforce_sessions ops now all_rules sessions st)
  unfolding enforce_sessions
  enforce_sessions-IsSound [] st among h = h
  enforce_sessions-IsSound (session ∷ sessions) st among h =
      enforce_sessions-IsSound sessions _ among.1
        (enforce_rules-IsSound session all_rules st among.0 (All-In all_rules) h)

module _ {Db : Type 0} (ops : SessionOps Db) (now : ℤ) where
  -- One session adds at most one to the counter.
  enforce_rules-terminated_le :
      (session : Session) (rules : List IdleRule) (st : ScanState Db)
      → (enforce_rules ops session now rules st).terminated ≤ st.terminated + 1
  unfolding enforce_rules terminate_session
  enforce_rules-terminated_le session [] st = omega arith
  enforce_rules-terminated_le session (rule ∷ rules) st = ground (
    arith,
    enforce_rules-terminated_le session rules st,
    enforce_rules-terminated_le session rules (terminate_session ops session rule st).0,
  )

  enforce_sessions-terminated_le :
      (rules : List IdleRule) (sessions : List Session) (st : ScanState Db)
      → (enforce_sessions ops now rules sessions st).terminated ≤ st.terminated + length sessions
  unfolding enforce_sessions
  enforce_sessions-terminated_le rules [] st = omega arith
  enforce_sessions-terminated_le rules (session ∷ sessions) st = omega (
    arith,
    enforce_rules-terminated_le session rules st,
    enforce_sessions-terminated_le rules sessions (enforce_rules ops session now rules st),
  )

  -- The sessions that the client lists, if it does.
  abbrev pub listed_sessions : Option (List Session) → List Session
  listed_sessions none = []
  listed_sessions (some sessions) = sessions

  -- Whatever the database answers, each call of TerminateSession in a scan is for a session that
  -- the client listed and a rule of the list by which the session is idle at the scan's time, the
  -- counter is the number of the calls that succeeded, the metric has the names of their rules in
  -- that order, and a scan terminates at most one session for each that it evaluates.
  pub scan_and_enforce-IsSound :
      (rules : List IdleRule) (db : Db)
      → IsSound now rules
          (listed_sessions (ops.list_sessions db).1)
          (scan_and_enforce ops now rules db).state
        × ((scan_and_enforce ops now rules db).state.terminated
            ≤ (scan_and_enforce ops now rules db).evaluated)
  unfolding scan_and_enforce count_done done_names
  scan_and_enforce-IsSound rules db =
      if_cases (IsSoundResult (ops.list_sessions db).1) (length rules == 0) _ _
        (λ _. unasked (ops.list_sessions db).1 db)
        (λ _.
          if_cases (IsSoundResult (ops.list_sessions db).1) (not (has_enabled rules)) _ _
            (λ _. unasked (ops.list_sessions db).1 db) (λ _. listed (ops.list_sessions db)))
    where
      IsSoundResult : Option (List Session) → ScanResult Db → Type 0
      IsSoundResult o r =
          IsSound now rules (listed_sessions o) r.state × (r.state.terminated ≤ r.evaluated)

      unasked :
          (o : Option (List Session)) (d : Db)
          → IsSoundResult o (record { state = idle_state d; evaluated = 0; failed = false })
      unasked o d = (record { idle = tt; listed = tt; counted = refl; metric = refl }, omega arith)

      listed : (l : Db × Option (List Session)) → IsSoundResult l.1 (scan_listed ops now rules l)
      listed (d, none) =
          (record { idle = tt; listed = tt; counted = refl; metric = refl }, omega arith)
      listed (d, some sessions) = (
        enforce_sessions-IsSound ops now rules sessions sessions (idle_state d) (All-In sessions)
            (record { idle = tt; listed = tt; counted = refl; metric = refl }),
        omega (arith, enforce_sessions-terminated_le rules sessions (idle_state d)),
      )
