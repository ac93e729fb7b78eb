-- ===== src/Idle/Lifecycle/Held.antt =====
-- internal/idle/daemon.go: every scanLoop that runs can be stopped.
use mathlib.Core.Logic.{if_pos, if_neg}
use mathlib.Core.Path.{subst}
use cloudberry_k8s.Base.{
  ℕ, Bool, true, Option, none, some, ◌≡◌, ◌≢◌, ◌⊎◌, inl, inr, refl, sym, ap, ◌∙◌, arith, ℕ_discrete,
}
use cloudberry_k8s.Idle.Lifecycle.{
  LoopStatus, unborn, looping, exited, Daemon, update, Pc, returned, start_lock, stop_lock,
  start_decide, stop_decide, await, receive, start_wait, start_clear, stop_wait, stop_cancel,
  caller_step, System, Step, call_start, call_stop, advance, parent_cancel, loop_exit, Reach, start,
  later,
}
use cloudberry_k8s.Idle.Lifecycle.Invariant.{DaemonInv, Inv, Reach-Inv}

-- A caller of Stop has taken the cancel function of a generation and is about to call it.
abbrev Cancels : (ℕ → Pc) → ℕ → Type 0
Cancels pc g = (i : ℕ) × ((ch : Option ℕ) × (pc i ≡ stop_cancel g ch))

-- The daemon holds the cancel function of a generation, or its context is done, or a caller of Stop
-- is about to cancel it.
abbrev pub IsHeld : System → ℕ → Type 0
IsHeld s g = (s.daemon.cancel ≡ some g) ⊎ ((s.daemon.canceled g ≡ true) ⊎ Cancels s.pc g)

abbrev AllHeld : System → Type 0
AllHeld s = (g : ℕ) → s.daemon.status g ≡ looping → IsHeld s g

update_same : {A : Type 0} (f : ℕ → A) (i : ℕ) (a : A) → update f i a i ≡ a
update_same f i a = if_pos _ refl a (f i)

update_other : {A : Type 0} (f : ℕ → A) (i : ℕ) (a : A) (j : ℕ) → i ≢ j → update f i a j ≡ f j
update_other f i a j other = if_neg _ other a (f j)

abbrev canceling : Pc → Option ℕ
canceling (stop_cancel g ch) = some g
canceling _ = none

-- A caller who moves on without being about to cancel takes nothing away.
Cancels-update :
    (pc : ℕ → Pc) (i g : ℕ) (p : Pc)
    → canceling (pc i) ≢ some g
    → Cancels pc g
    → Cancels (update pc i p) g
Cancels-update pc i g p other (j, (ch, e)) = elim (ℕ_discrete i j) [
  | yes same ↦ absurd (other (ap (λ k. canceling (pc k)) same ∙ ap canceling e))
  | no apart ↦ (j, (ch, update_other pc i p j apart ∙ e))
]

Cancels-here : (pc : ℕ → Pc) (i g : ℕ) (ch : Option ℕ) → Cancels (update pc i (stop_cancel g ch)) g
Cancels-here pc i g ch = (i, (ch, update_same pc i (stop_cancel g ch)))

abbrev some_or : ℕ → Option ℕ → ℕ
some_or n none = n
some_or n (some m) = m

option_inj : {m n : ℕ} → some m ≡ some n → m ≡ n
option_inj {m} eq = ap (some_or m) eq

cancel_kept : (canceled : ℕ → Bool) (k g : ℕ) → canceled g ≡ true → update canceled k true g ≡ true
cancel_kept canceled k g off = elim (ℕ_discrete k g) [
  | yes same ↦ rw (sym same) (update_same canceled k true)
  | no other ↦ update_other canceled k true g other ∙ off
]

-- Only the caller moves.
IsHeld-moves :
    (s : System) (i g : ℕ) (p : Pc)
    → canceling (s.pc i) ≢ some g
    → IsHeld s g
    → IsHeld (record s { pc = update s.pc i p }) g
IsHeld-moves s i g p other (inl c) = inl c
IsHeld-moves s i g p other (inr (inl off)) = inr (inl off)
IsHeld-moves s i g p other (inr (inr h)) = inr (inr (Cancels-update s.pc i g p other h))

module _ (s : System) (inv : DaemonInv s.daemon) (held : AllHeld s) (i : ℕ) where
  abbrev After : Option (Daemon × Pc) → Type 0
  After none = Unit
  After (some (d, p)) = AllHeld (record { daemon = d; pc = update s.pc i p })

  stays : (p : Pc) → canceling (s.pc i) ≡ none → After (some (s.daemon, p))
  stays p idle g live = IsHeld-moves s i g p (λ eq. ground (arith, idle, eq)) (held g live)

  receive-After :
      (st : LoopStatus) (p : Pc) → canceling (s.pc i) ≡ none → After (receive st s.daemon p)
  receive-After unborn p idle = tt
  receive-After looping p idle = tt
  receive-After exited p idle = stays p idle

  start_decide-After :
      (c ch : Option ℕ)
      → s.daemon.cancel ≡ c
      → s.daemon.done ≡ ch
      → canceling (s.pc i) ≡ none
      → After (some (start_decide c ch s.daemon))
  unfolding ℕ_discrete
  start_decide-After (some k) ch ec ed idle = λ g live. stays returned idle g live
  start_decide-After none (some k) ec ed idle = stays (start_wait k) idle
  start_decide-After none none ec ed idle = λ g live. elim (ℕ_discrete s.daemon.next g) [
    | yes same ↦ inl (ap some same)
    | no other ↦
        (let was : s.daemon.status g ≡ looping =
            sym (update_other s.daemon.status s.daemon.next looping g other) ∙ live in
          let mine = inv.looping_done g was in absurd (ground (arith, mine, ed)))
  ]

  -- What Stop takes, it is about to cancel.
  taken : (c ch : Option ℕ) (g : ℕ) → c ≡ some g → Cancels (update s.pc i (stop_decide c ch)) g
  taken none ch g eq = absurd (ground (arith, eq))
  taken (some k) ch g eq = rw (option_inj eq) (Cancels-here s.pc i g ch)

  stop_decide-After :
      (c ch : Option ℕ)
      → s.daemon.cancel ≡ c
      → canceling (s.pc i) ≡ none
      → After (some (record (s.daemon) { cancel = none }, stop_decide c ch))
  stop_decide-After c ch ec idle g live = after (held g live)
    where
      after :
          IsHeld s g
          → IsHeld
              (record {
                daemon = record (s.daemon) { cancel = none };
                pc = update s.pc i (stop_decide c ch);
              })
              g
      after (inl mine) = inr (inr (taken c ch g (sym ec ∙ mine)))
      after (inr (inl off)) = inr (inl off)
      after (inr (inr h)) =
          inr (inr (Cancels-update s.pc i g (stop_decide c ch) (λ eq. ground (arith, idle, eq)) h))

  stop_cancel-After :
      (k : ℕ) (ch : Option ℕ)
      → s.pc i ≡ stop_cancel k ch
      → After (some (record (s.daemon) { canceled = update s.daemon.canceled k true }, await ch))
  stop_cancel-After k ch here g live = after (held g live)
    where
      after :
          IsHeld s g
          → IsHeld
              (record {
                daemon = record (s.daemon) { canceled = update s.daemon.canceled k true };
                pc = update s.pc i (await ch);
              })
              g
      after (inl mine) = inl mine
      after (inr (inl off)) = inr (inl (cancel_kept s.daemon.canceled k g off))
      after (inr (inr h)) = elim (ℕ_discrete k g) [
        | yes same ↦ inr (inl (rw (sym same) (update_same s.daemon.canceled k true)))
        | no other ↦ inr (
            inr (
              Cancels-update s.pc i g (await ch)
                (λ eq. other (option_inj (sym (ap canceling here) ∙ eq))) h))
      ]

  caller_step-After : (p : Pc) → s.pc i ≡ p → After (caller_step s.daemon p)
  unfolding caller_step
  caller_step-After returned e = tt
  caller_step-After start_lock e = start_decide-After _ _ refl refl (ap canceling e)
  caller_step-After stop_lock e = stop_decide-After _ _ refl (ap canceling e)
  caller_step-After (start_wait k) e =
      receive-After (s.daemon.status k) (start_clear k) (ap canceling e)
  caller_step-After (start_clear k) e = λ g live.
      IsHeld-moves s i g start_lock (λ eq. ground (arith, ap canceling e, eq)) (held g live)
  caller_step-After (stop_wait k) e = receive-After (s.daemon.status k) returned (ap canceling e)
  caller_step-After (stop_cancel k ch) e = stop_cancel-After k ch e

Step-AllHeld : {s t : System} → Step s t → Inv s → AllHeld s → AllHeld t
Step-AllHeld {s} (call_start i h) inv held g live =
    IsHeld-moves s i g start_lock (λ eq. ground (arith, ap canceling h, eq)) (held g live)
Step-AllHeld {s} (call_stop i h) inv held g live =
    IsHeld-moves s i g stop_lock (λ eq. ground (arith, ap canceling h, eq)) (held g live)
Step-AllHeld {s} (advance i d p eq) inv held g live =
    (subst (After s inv.daemon held i) eq (caller_step-After s inv.daemon held i (s.pc i) refl)) g
      live
Step-AllHeld {s} (parent_cancel k) inv held g live = after (held g live)
  where
    after :
        IsHeld s g
        → IsHeld
            (record s { daemon = record (s.daemon) { canceled = update s.daemon.canceled k true } })
            g
    after (inl mine) = inl mine
    after (inr (inl off)) = inr (inl (cancel_kept s.daemon.canceled k g off))
    after (inr (inr h)) = inr (inr h)
Step-AllHeld {s} (loop_exit k on off) inv held g live = elim (ℕ_discrete k g) [
  | yes same ↦
      absurd (ground (arith, sym (update_same s.daemon.status k exited), rw (sym same) at live))
  | no other ↦ held g (sym (update_other s.daemon.status k exited g other) ∙ live)
]

-- In every state that callers and loops can reach, a scanLoop that runs can be stopped: the daemon
-- holds its cancel function, so the next Stop takes it, or a caller of Stop has taken it and is
-- about to call it, or its context is done already.
pub looping-IsHeld : {s : System} (g : ℕ) → Reach s → s.daemon.status g ≡ looping → IsHeld s g
looping-IsHeld g start live = absurd (ground (arith, live))
looping-IsHeld g (later r st) live =
    Step-AllHeld st (Reach-Inv r) (λ k on. looping-IsHeld k r on) g live
