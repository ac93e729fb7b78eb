-- ===== src/Idle/Scan/Completeness.antt =====
-- internal/idle/daemon.go: scans with a client whose terminations succeed.
use cloudberry_k8s.Base.{
  ℕ, suc, ◌+◌, Bool, true, false, ◌||◌, List, [], ◌∷◌, some, ◌≡◌, refl, sym, arith, Bool-cases, inl,
  inr, if◌then◌else◌,
}
use cloudberry_k8s.Base.Int.{ℤ}
use cloudberry_k8s.Idle.Rules.{Session, IdleRule, is_session_idle}
use cloudberry_k8s.Idle.Scan.{
  SessionOps, ScanState, terminate_session, enforce_rules, enforce_sessions, idle_state,
  scan_and_enforce, has_enabled,
}

-- Does any rule of the list hold for the session?
unfoldable pub any_idle : Session → ℤ → List IdleRule → Bool
any_idle session now [] = false
any_idle session now (rule ∷ rules) = is_session_idle session rule now || any_idle session now rules

unfoldable pub count_idle : ℤ → List IdleRule → List Session → ℕ
count_idle now rules [] = 0
count_idle now rules (session ∷ sessions) =
    let rest = count_idle now rules sessions in
    if any_idle session now rules then suc rest else rest

module _ {Db : Type 0} (ops : SessionOps Db) (now : ℤ)
    (reliable : (pid : ℤ) (db : Db) → (ops.terminate pid db).1 ≡ some true) where
  enforce_rules-any_idle :
      (session : Session) (rules : List IdleRule) (st : ScanState Db)
      → (enforce_rules ops session now rules st).terminated
        ≡ (if any_idle session now rules then st.terminated + 1 else st.terminated)
  unfolding enforce_rules any_idle terminate_session is_session_idle
  enforce_rules-any_idle session [] st = refl
  enforce_rules-any_idle session (rule ∷ rules) st =
      ground (arith, reliable session.pid st.db, enforce_rules-any_idle session rules st)

  enforce_sessions-count_idle :
      (rules : List IdleRule) (sessions : List Session) (st : ScanState Db)
      → (enforce_sessions ops now rules sessions st).terminated
        ≡ st.terminated + count_idle now rules sessions
  unfolding enforce_sessions count_idle
  enforce_sessions-count_idle rules [] st = omega arith
  enforce_sessions-count_idle rules (session ∷ sessions) st = ground (
    arith,
    enforce_rules-any_idle session rules st,
    enforce_sessions-count_idle rules sessions (enforce_rules ops session now rules st),
  )

  any_idle-has_enabled :
      (session : Session) (rules : List IdleRule)
      → has_enabled rules ≡ false
      → any_idle session now rules ≡ false
  unfolding any_idle has_enabled is_session_idle
  any_idle-has_enabled session [] h = refl
  any_idle-has_enabled session (rule ∷ rules) h = ground (arith, any_idle-has_enabled session rules)

  count_idle-has_enabled :
      (rules : List IdleRule) (sessions : List Session)
      → has_enabled rules ≡ false
      → count_idle now rules sessions ≡ 0
  unfolding count_idle
  count_idle-has_enabled rules [] h = refl
  count_idle-has_enabled rules (session ∷ sessions) h =
      ground (arith, any_idle-has_enabled session rules h, count_idle-has_enabled rules sessions h)

  -- If the client lists its sessions and each of its terminations succeeds, a scan terminates as
  -- many sessions as there are sessions for which some rule of the list holds.
  pub scan_and_enforce-count_idle :
      (rules : List IdleRule) (db : Db) {db' : Db} {sessions : List Session}
      → ops.list_sessions db ≡ (db', some sessions)
      → (scan_and_enforce ops now rules db).state.terminated ≡ count_idle now rules sessions
  unfolding scan_and_enforce
  scan_and_enforce-count_idle [] db {db'} {sessions} h =
      sym (count_idle-has_enabled [] sessions (unfold has_enabled in refl))
  scan_and_enforce-count_idle (r ∷ rules) db {db'} {sessions} h =
      elim (Bool-cases (has_enabled (r ∷ rules))) [
        | inl on ↦ ground (arith, enforce_sessions-count_idle (r ∷ rules) sessions (idle_state db'))
        | inr off ↦ ground (arith, count_idle-has_enabled (r ∷ rules) sessions off)
      ]
