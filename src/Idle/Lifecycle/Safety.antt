-- ===== src/Idle/Lifecycle/Safety.antt =====
-- internal/idle/daemon.go: what the handover of generations guarantees.
use cloudberry_k8s.Base.{ℕ, true, some, ◌≡◌, ◌≢◌, ◌⊎◌, inl, inr, arith, refl}
use cloudberry_k8s.Idle.Lifecycle.{
  LoopStatus, unborn, looping, exited, stop_wait, returned, caller_step, System, Reach, receive,
}
use cloudberry_k8s.Idle.Lifecycle.Invariant.{Reach-Inv}

-- In every reachable state at most one scanLoop runs.
pub looping_unique :
    {s : System} (g h : ℕ)
    → Reach s
    → s.daemon.status g ≡ looping
    → s.daemon.status h ≡ looping
    → g ≡ h
looping_unique g h r eg eh =
    let inv = (Reach-Inv r).daemon in ground (arith, inv.looping_done g, inv.looping_done h)

-- A caller of Stop that waits never waits in vain: the loop has exited and the caller's next step
-- returns, or the loop runs with its context canceled, so that it can exit.
pub stop_wait_progress :
    {s : System} (i g : ℕ)
    → Reach s
    → s.pc i ≡ stop_wait g
    → (caller_step s.daemon (s.pc i) ≡ some (s.daemon, returned))
      ⊎ ((s.daemon.status g ≡ looping) × (s.daemon.canceled g ≡ true))
unfolding caller_step
stop_wait_progress {s} i g r eq =
    let (released, off) = rw eq at ((Reach-Inv r).callers i) in
    let born = (Reach-Inv r).daemon.born g released.0 in
    rw eq (by_status (s.daemon.status g) refl born off)
  where
    by_status :
        (st : LoopStatus)
        → s.daemon.status g ≡ st
        → s.daemon.status g ≢ unborn
        → s.daemon.canceled g ≡ true
        → (receive (s.daemon.status g) s.daemon returned ≡ some (s.daemon, returned))
          ⊎ ((s.daemon.status g ≡ looping) × (s.daemon.canceled g ≡ true))
    by_status unborn e born off = absurd (born e)
    by_status looping e born off = inr (e, off)
    by_status exited e born off = inl (rw e)
