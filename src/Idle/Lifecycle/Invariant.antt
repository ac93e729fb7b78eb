-- ===== src/Idle/Lifecycle/Invariant.antt =====
-- internal/idle/daemon.go: what holds in every state that Start, Stop and the loops can reach.
use mathlib.Core.Logic.{if_pos, if_neg}
use mathlib.Core.Path.{subst}
use cloudberry_k8s.Base.{
  ℕ, ◌<◌, ◌≤◌, true, Option, none, some, ◌≡◌, ◌≢◌, refl, sym, ◌∙◌, arith, ℕ_discrete,
}
use cloudberry_k8s.Idle.Lifecycle.{
  LoopStatus, unborn, looping, exited, Daemon, update, Pc, returned, start_lock, stop_lock,
  clear_done, start_decide, stop_decide, await, receive, start_wait, start_clear, stop_wait,
  stop_cancel, spawn, caller_step, System, initial, Step, call_start, call_stop, advance,
  parent_cancel, loop_exit, Reach, start, later,
}

-- A generation that has begun and whose `cancel` nobody can find in the daemon any more.
abbrev pub IsReleased : Daemon → ℕ → Type 0
IsReleased d g = (g < d.next) × (d.cancel ≢ some g)

-- What a caller may rely on, where it stands.
abbrev pub PcInv : Daemon → Pc → Type 0
PcInv d (start_wait g) = IsReleased d g
PcInv d (start_clear g) = IsReleased d g × (d.status g ≡ exited)
PcInv d (stop_cancel g ch) = IsReleased d g × (ch ≡ some g)
PcInv d (stop_wait g) = IsReleased d g × (d.canceled g ≡ true)
PcInv d _ = Unit

pub record DaemonInv (d : Daemon) : Type 0 where
  pub cancel_done : (g : ℕ) → d.cancel ≡ some g → d.done ≡ some g
  pub done_born : (g : ℕ) → d.done ≡ some g → g < d.next
  pub born : (g : ℕ) → g < d.next → d.status g ≢ unborn
  pub fresh : (g : ℕ) → d.next ≤ g → d.status g ≡ unborn
  pub looping_done : (g : ℕ) → d.status g ≡ looping → d.done ≡ some g

pub record Inv (s : System) : Type 0 where
  pub daemon : DaemonInv s.daemon
  pub callers : (i : ℕ) → PcInv s.daemon (s.pc i)

-- Facts about generations are never lost.
record Later (d e : Daemon) : Type 0 where
  next : d.next ≤ e.next
  exits : (g : ℕ) → d.status g ≡ exited → e.status g ≡ exited
  cancels : (g : ℕ) → g < d.next → d.canceled g ≡ true → e.canceled g ≡ true
  releases : (g : ℕ) → IsReleased d g → IsReleased e g

PcInv-Later : {d e : Daemon} (p : Pc) → Later d e → PcInv d p → PcInv e p
PcInv-Later returned l h = tt
PcInv-Later start_lock l h = tt
PcInv-Later stop_lock l h = tt
PcInv-Later (start_wait g) l h = l.releases g h
PcInv-Later (start_clear g) l h = (l.releases g h.0, l.exits g h.1)
PcInv-Later (stop_wait g) l h = (l.releases g h.0, l.cancels g h.0.0 h.1)
PcInv-Later (stop_cancel g ch) l h = (l.releases g h.0, h.1)

Later-refl : (d : Daemon) → Later d d
Later-refl d = record {
  next = omega arith;
  exits = λ g h. h;
  cancels = λ g lt h. h;
  releases = λ g h. h;
}

module _ (d : Daemon) (inv : DaemonInv d) where
  spawn-DaemonInv : d.done ≡ none → DaemonInv (spawn d)
  unfolding ℕ_discrete
  spawn-DaemonInv idle = record {
    cancel_done = λ g h. h;
    done_born = λ g h. ground arith;
    born = λ g h. ground (arith, inv.born g, inv.fresh g);
    fresh = λ g h. ground (arith, inv.fresh g);
    looping_done = λ g h. ground (arith, inv.looping_done g);
  }

  spawn-Later : Later d (spawn d)
  unfolding ℕ_discrete
  spawn-Later = record {
    next = omega arith;
    exits = λ g h. ground (arith, inv.fresh g);
    cancels = λ g lt h. ground arith;
    releases = λ g h. (omega (arith, h.0), λ eq. ground (arith, h.0));
  }

  clear-DaemonInv :
      (g : ℕ)
      → d.status g ≡ exited
      → d.cancel ≢ some g
      → DaemonInv (record d { done = clear_done g d.done })
  clear-DaemonInv g ex rel = record {
    cancel_done = λ k h. ground (arith, inv.cancel_done k);
    done_born = λ k h. ground (arith, inv.done_born k);
    born = inv.born;
    fresh = inv.fresh;
    looping_done = λ k h. ground (arith, inv.looping_done k);
  }

  take_cancel-DaemonInv : DaemonInv (record d { cancel = none })
  take_cancel-DaemonInv = record {
    cancel_done = λ g h. ground arith;
    done_born = inv.done_born;
    born = inv.born;
    fresh = inv.fresh;
    looping_done = inv.looping_done;
  }

  take_cancel-Later : Later d (record d { cancel = none })
  take_cancel-Later = record {
    next = omega arith;
    exits = λ g h. h;
    cancels = λ g lt h. h;
    releases = λ g h. (h.0, λ eq. ground arith);
  }

  cancel-DaemonInv : (g : ℕ) → DaemonInv (record d { canceled = update d.canceled g true })
  cancel-DaemonInv g = record {
    cancel_done = inv.cancel_done;
    done_born = inv.done_born;
    born = inv.born;
    fresh = inv.fresh;
    looping_done = inv.looping_done;
  }

  cancel-Later : (g : ℕ) → Later d (record d { canceled = update d.canceled g true })
  unfolding ℕ_discrete
  cancel-Later g = record {
    next = omega arith;
    exits = λ k h. h;
    cancels = λ k lt h. ground arith;
    releases = λ k h. h;
  }

  exit-DaemonInv :
      (g : ℕ) → d.status g ≡ looping → DaemonInv (record d { status = update d.status g exited })
  unfolding ℕ_discrete
  exit-DaemonInv g live = record {
    cancel_done = inv.cancel_done;
    done_born = inv.done_born;
    born = λ k h. ground (arith, inv.born k);
    fresh = λ k h. ground (arith, inv.fresh k);
    looping_done = λ k h. ground (arith, inv.looping_done k);
  }

  exit-Later : (g : ℕ) → Later d (record d { status = update d.status g exited })
  unfolding ℕ_discrete
  exit-Later g = record {
    next = omega arith;
    exits = λ k h. ground arith;
    cancels = λ k lt h. h;
    releases = λ k h. h;
  }

  -- What a step of a caller owes: the invariants after it, and no fact lost.
  abbrev Kept : Option (Daemon × Pc) → Type 0
  Kept none = Unit
  Kept (some (e, p)) = DaemonInv e × PcInv e p × Later d e

  start_decide-Kept :
      (c ch : Option ℕ) → d.cancel ≡ c → d.done ≡ ch → Kept (some (start_decide c ch d))
  start_decide-Kept (some g) ch ec ed = (inv, tt, Later-refl d)
  start_decide-Kept none none ec ed = (spawn-DaemonInv ed, tt, spawn-Later)
  start_decide-Kept none (some g) ec ed =
      (inv, (inv.done_born g ed, λ eq. ground arith), Later-refl d)

  stop_decide-PcInv :
      (c ch : Option ℕ)
      → d.cancel ≡ c
      → d.done ≡ ch
      → PcInv (record d { cancel = none }) (stop_decide c ch)
  stop_decide-PcInv none ch ec ed = tt
  stop_decide-PcInv (some g) ch ec ed =
      let same = inv.cancel_done g ec in ((inv.done_born g same, λ eq. ground arith), sym ed ∙ same)

  receive-Kept :
      (g : ℕ) (st : LoopStatus) (p : Pc)
      → d.status g ≡ st
      → (d.status g ≡ exited → PcInv d p)
      → Kept (receive st d p)
  receive-Kept g unborn p es h = tt
  receive-Kept g looping p es h = tt
  receive-Kept g exited p es h = (inv, h es, Later-refl d)

  await-PcInv :
      (g : ℕ) (ch : Option ℕ)
      → ch ≡ some g
      → IsReleased d g
      → PcInv (record d { canceled = update d.canceled g true }) (await ch)
  unfolding ℕ_discrete
  await-PcInv g none eq h = cc
  await-PcInv g (some k) eq h = ground arith

  caller_step-Kept : (p : Pc) → PcInv d p → Kept (caller_step d p)
  unfolding caller_step ℕ_discrete
  caller_step-Kept returned h = tt
  caller_step-Kept start_lock h = start_decide-Kept d.cancel d.done refl refl
  caller_step-Kept stop_lock h =
      (take_cancel-DaemonInv, stop_decide-PcInv d.cancel d.done refl refl, take_cancel-Later)
  caller_step-Kept (start_wait g) h =
      receive-Kept g (d.status g) (start_clear g) refl (λ ex. (h, ex))
  caller_step-Kept (start_clear g) h = (
    clear-DaemonInv g h.1 h.0.1,
    tt,
    record { next = omega arith; exits = λ k x. x; cancels = λ k lt x. x; releases = λ k x. x },
  )
  caller_step-Kept (stop_wait g) h = receive-Kept g (d.status g) returned refl (λ _. tt)
  caller_step-Kept (stop_cancel g ch) h =
      (cancel-DaemonInv g, await-PcInv g ch h.1 h.0, cancel-Later g)

-- The callers' facts after a step of caller i, who now stands at p.
callers_update :
    {d e : Daemon} (pc : ℕ → Pc) (i : ℕ) (p : Pc)
    → Later d e
    → ((j : ℕ) → PcInv d (pc j))
    → PcInv e p
    → (j : ℕ) → PcInv e (update pc i p j)
callers_update pc i p l all new j = elim (ℕ_discrete i j) [
  | yes same ↦ rw (if_pos _ same) new
  | no other ↦ rw (if_neg _ other) (PcInv-Later (pc j) l (all j))
]

Step-Inv : {s t : System} → Step s t → Inv s → Inv t
Step-Inv {s} (call_start i h) inv = record {
  daemon = inv.daemon;
  callers = callers_update s.pc i _ (Later-refl s.daemon) inv.callers tt;
}
Step-Inv {s} (call_stop i h) inv = record {
  daemon = inv.daemon;
  callers = callers_update s.pc i _ (Later-refl s.daemon) inv.callers tt;
}
Step-Inv {s} (advance i d p eq) inv =
    let kept =
      subst (Kept s.daemon inv.daemon) eq
        (caller_step-Kept s.daemon inv.daemon (s.pc i) (inv.callers i)) in
    record { daemon = kept.0; callers = callers_update s.pc i p kept.2 inv.callers kept.1 }
Step-Inv {s} (parent_cancel g) inv = record {
  daemon = cancel-DaemonInv s.daemon inv.daemon g;
  callers = λ j. PcInv-Later (s.pc j) (cancel-Later s.daemon inv.daemon g) (inv.callers j);
}
Step-Inv {s} (loop_exit g live off) inv = record {
  daemon = exit-DaemonInv s.daemon inv.daemon g live;
  callers = λ j. PcInv-Later (s.pc j) (exit-Later s.daemon inv.daemon g) (inv.callers j);
}

initial-Inv : Inv initial
initial-Inv = record {
  daemon = record {
    cancel_done = λ g h. cc;
    done_born = λ g h. absurd (ground arith);
    born = λ g h. absurd (omega arith);
    fresh = λ g h. refl;
    looping_done = λ g h. cc;
  };
  callers = λ i. tt;
}

-- The invariant holds in every state that callers and loops can reach from `New`.
pub Reach-Inv : {s : System} → Reach s → Inv s
Reach-Inv start = initial-Inv
Reach-Inv (later r st) = Step-Inv st (Reach-Inv r)
