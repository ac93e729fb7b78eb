-- ===== src/Idle/Lifecycle.antt =====
-- internal/idle/daemon.go: `Start`, `Stop` and the life of `scanLoop`, with any number of callers.
-- What a caller does under `d.mu` is one step; a receive from a done channel waits for its close.
-- A generation is the number of a scanLoop; it names its context and its done channel too.
pub mod Invariant
pub mod Safety
pub mod Held
use mathlib.Core.Logic.{ite}
use cloudberry_k8s.Base.{
  ℕ, ◌+◌, Bool, true, false, Option, none, some, ◌≡◌, if◌then◌else◌, ◌==◌, ℕ_discrete,
}

pub data LoopStatus : Type 0 where
  unborn looping exited : LoopStatus

-- The fields of `Daemon` that `d.mu` guards, and the state of each generation.
pub record Daemon : Type 0 where
  -- `d.cancel`, `d.done`: nil, or of a generation.
  pub cancel : Option ℕ
  pub done : Option ℕ
  pub next : ℕ
  pub status : ℕ → LoopStatus
  pub canceled : ℕ → Bool

abbrev pub update {ℓ} : {A : Type ℓ} → (ℕ → A) → ℕ → A → ℕ → A
update f i a j = ite (ℕ_discrete i j) a (f j)

-- Where a caller stands. `stop_cancel` holds the local copies `cancelFn` and `doneCh`.
pub data Pc : Type 0 where
  returned start_lock stop_lock : Pc
  start_wait start_clear stop_wait : ℕ → Pc
  stop_cancel : ℕ → Option ℕ → Pc

-- `go d.scanLoop(scanCtx, d.done)`, under the lock.
abbrev pub spawn : Daemon → Daemon
spawn d = record d {
  cancel = some d.next;
  done = some d.next;
  next = d.next + 1;
  status = update d.status d.next looping;
  canceled = update d.canceled d.next false;
}

-- The first locked region of `Start`.
abbrev pub start_decide : Option ℕ → Option ℕ → Daemon → Daemon × Pc
start_decide (some g) prev d = (d, returned)
start_decide none none d = (spawn d, returned)
start_decide none (some g) d = (d, start_wait g)

abbrev pub clear_done : ℕ → Option ℕ → Option ℕ
clear_done g none = none
clear_done g (some h) = if h == g then none else some h

-- The locked region of `Stop`, which takes `d.cancel` away.
abbrev pub stop_decide : Option ℕ → Option ℕ → Pc
stop_decide none ch = returned
stop_decide (some g) ch = stop_cancel g ch

abbrev pub await : Option ℕ → Pc
await none = returned
await (some g) = stop_wait g

-- A receive from the done channel of a generation, which its loop closes at its exit.
abbrev pub receive : LoopStatus → Daemon → Pc → Option (Daemon × Pc)
receive exited d p = some (d, p)
receive _ d p = none

-- One step of a caller; `none` means that it waits.
unfoldable pub caller_step : Daemon → Pc → Option (Daemon × Pc)
caller_step d returned = none
caller_step d start_lock = some (start_decide d.cancel d.done d)
caller_step d (start_wait g) = receive (d.status g) d (start_clear g)
caller_step d (start_clear g) = some (record d { done = clear_done g d.done }, start_lock)
caller_step d stop_lock = some (record d { cancel = none }, stop_decide d.cancel d.done)
caller_step d (stop_cancel g ch) = some (record d { canceled = update d.canceled g true }, await ch)
caller_step d (stop_wait g) = receive (d.status g) d returned

pub record System : Type 0 where
  pub daemon : Daemon
  pub pc : ℕ → Pc

-- `New`: no loop has run.
abbrev pub new_daemon : Daemon
new_daemon = record {
  cancel = none;
  done = none;
  next = 0;
  status = λ _. unborn;
  canceled = λ _. false;
}

abbrev pub initial : System
initial = record { daemon = new_daemon; pc = λ _. returned }

-- Callers call `Start` and `Stop` at will, the context given to `Start` may be canceled, and a loop
-- whose context is done returns and closes its own channel.
pub data Step (s : System) : System → Type 0 where
  call_start : (i : ℕ) → s.pc i ≡ returned → Step s (record s { pc = update s.pc i start_lock })
  call_stop : (i : ℕ) → s.pc i ≡ returned → Step s (record s { pc = update s.pc i stop_lock })
  advance :
      (i : ℕ) (d : Daemon) (p : Pc)
      → caller_step s.daemon (s.pc i) ≡ some (d, p)
      → Step s (record { daemon = d; pc = update s.pc i p })
  parent_cancel :
      (g : ℕ)
      → Step s
          (record s { daemon = record (s.daemon) { canceled = update s.daemon.canceled g true } })
  loop_exit :
      (g : ℕ)
      → s.daemon.status g ≡ looping
      → s.daemon.canceled g ≡ true
      → Step s
          (record s { daemon = record (s.daemon) { status = update s.daemon.status g exited } })

pub data Reach : System → Type 0 where
  start : Reach initial
  later : {s t : System} → Reach s → Step s t → Reach t
