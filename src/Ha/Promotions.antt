-- ===== src/Ha/Promotions.antt =====
-- internal/controller/ha_controller.go: how often the standby is promoted.
use cloudberry_k8s.Base.{
  ℕ, suc, ◌+◌, ◌≤◌, Bool, not, Option, none, some, List, [], ◌∷◌, String, str_eq, if◌then◌else◌,
  if_cases, ◌≡◌, refl, ap, arith, eq_iff, ◌∙◌,
}
use cloudberry_k8s.Ha.Types.{Event, JobState, World, Faults, emit}
use cloudberry_k8s.Ha.Actions.{
  promote, promoted, handle_action, handle_recovery_or, has_job_name, Result, Outcome,
  handle_recovery, observe_rebalance_job, rebalance, handle_rebalance,
  record_standby_activation_failure, activate_standby, handle_standby_activation, run_health_checks,
  handle_annotations, reconcile,
}
use cloudberry_k8s.Ha.Quiet.{
  IsQuiet, observe_rebalance_job-IsQuiet, handle_recovery-IsQuiet, run_health_checks-IsQuiet,
  rebalance-IsQuiet, patch_status-IsQuiet,
}

abbrev pub waiting_action : Option String → ℕ
waiting_action none = 0
waiting_action (some action) = if str_eq action "activate-standby" then 1 else 0

-- A request to activate the standby that waits in the annotation.
abbrev pub waiting : World → ℕ
waiting w = waiting_action w.action

-- A call that promotes no more than the requests that it takes.
abbrev IsCounted : World → World → Type 0
IsCounted w after = after.promotions + waiting after ≤ w.promotions + waiting w

abbrev IsCountedOutcome : World → Outcome → Type 0
IsCountedOutcome w o = IsCounted w o.0

quiet-IsCounted : (w after : World) → IsQuiet w after → IsCounted w after
quiet-IsCounted w after q = let kept = ap waiting_action (q.1) in omega (arith, q.0, kept)

-- A call that promotes nothing and takes what waits.
done-IsCounted :
    (w after : World) → after.promotions ≡ w.promotions → after.action ≡ none → IsCounted w after
done-IsCounted w after p a = let taken = ap waiting_action a in omega (arith, p, taken)

handle_rebalance-IsCounted :
    (faults : Faults) (w : World) → IsCountedOutcome w (handle_rebalance faults w)
unfolding handle_rebalance
handle_rebalance-IsCounted faults w =
    let taken = record w { action = none } in
    if_cases (IsCountedOutcome w) faults.annotation_patch_fails (w, Result.failed) _
      (λ e. omega arith)
      (λ e.
        if_cases (IsCountedOutcome w) faults.refetch_fails (taken, Result.failed)
          (rebalance faults taken) (λ f. done-IsCounted w taken refl refl)
          (λ f.
            (let q = rebalance-IsQuiet faults taken in
              done-IsCounted w (rebalance faults taken).0 (q.0) (q.1))))

-- An activation calls PromoteStandby at most once, and leaves the action as it is.
abbrev IsOnce : World → Outcome → Type 0
IsOnce w o = (o.0.promotions ≤ suc w.promotions) × (o.0.action ≡ w.action)

activate_standby-IsOnce : (faults : Faults) (w : World) → IsOnce w (activate_standby faults w)
unfolding activate_standby record_standby_activation_failure
activate_standby-IsOnce faults w =
    let promoted_world = promote (emit Event.activation_initiated w) in
    if_cases (IsOnce w) (not w.standby) _ _ (λ e. (omega arith, refl))
      (λ e.
        if_cases (IsOnce w) (not faults.has_factory) _ _ (λ f. (omega arith, refl))
          (λ f.
            if_cases (IsOnce w) faults.client_fails _ _ (λ g. (omega arith, refl))
              (λ g.
                if_cases (IsOnce w) faults.promote_fails _
                  (promoted faults promoted_world, Result.after_default) (λ h. (omega arith, refl))
                  (λ h. (let q = patch_status-IsQuiet faults _ in (omega (arith, q.0), q.1))))))

-- The standby's activation takes the request that waits, and promotes at most once for it.
handle_standby_activation-IsCounted :
    (faults : Faults) (w : World)
    → w.action ≡ some "activate-standby"
    → IsCountedOutcome w (handle_standby_activation faults w)
unfolding handle_standby_activation
handle_standby_activation-IsCounted faults w asked =
    let taken = record w { action = none } in
    if_cases (IsCountedOutcome w) faults.annotation_patch_fails (w, Result.failed) _
      (λ e. omega arith)
      (λ e.
        if_cases (IsCountedOutcome w) faults.refetch_fails (taken, Result.failed)
          (activate_standby faults taken) (λ f. done-IsCounted w taken refl refl)
          (λ f.
            (let once = activate_standby-IsOnce faults taken in
              let one : waiting w ≡ 1 = ap waiting_action asked in
              let zero_left = ap waiting_action (once.1) in omega (arith, once.0, one, zero_left))))

handle_action-IsCounted :
    (faults : Faults) (w : World) (action : Option String)
    → w.action ≡ action
    → IsCountedOutcome w (handle_action faults w action)
handle_action-IsCounted faults w none same =
    quiet-IsCounted w (run_health_checks faults w) (run_health_checks-IsQuiet faults w)
handle_action-IsCounted faults w (some action) same =
    if_cases (IsCountedOutcome w) (str_eq action "rebalance") (handle_rebalance faults w) _
      (λ e. handle_rebalance-IsCounted faults w)
      (λ e.
        if_cases (IsCountedOutcome w) (str_eq action "activate-standby")
          (handle_standby_activation faults w)
          (run_health_checks faults w, Result.after_probe_interval)
          (λ f.
            handle_standby_activation-IsCounted faults w
              (same ∙ ap some ((eq_iff action "activate-standby").0 f)))
          (λ f.
            quiet-IsCounted w (run_health_checks faults w) (run_health_checks-IsQuiet faults w)))

handle_recovery_or-IsCounted :
    (faults : Faults) (w : World) (recovery : Option String)
    → IsCountedOutcome w (handle_recovery_or faults w recovery)
handle_recovery_or-IsCounted faults w none = handle_action-IsCounted faults w w.action refl
handle_recovery_or-IsCounted faults w (some type) =
    quiet-IsCounted w (handle_recovery faults type w).0 (handle_recovery-IsQuiet faults type w)

reconcile-IsCounted : (faults : Faults) (w : World) → IsCountedOutcome w (reconcile faults w)
unfolding reconcile handle_annotations
reconcile-IsCounted faults w =
    let fetched = record w { memory = w.status } in
    if_cases (IsCountedOutcome w) (not (str_eq w.phase "Running")) (fetched, Result.after_default) _
      (λ e. omega arith)
      (λ e.
        if_cases (IsCountedOutcome w) (has_job_name w.rebalance_job)
          (observe_rebalance_job faults fetched) (handle_recovery_or faults fetched w.recovery)
          (λ f.
            quiet-IsCounted w (observe_rebalance_job faults fetched).0
              (observe_rebalance_job-IsQuiet faults fetched))
          (λ f. handle_recovery_or-IsCounted faults fetched w.recovery))

-- What happens to a cluster: a reconcile, a user who writes the action or the recovery annotation or
-- switches the standby, and changes of its phase and of its Job by others.
pub data Move : Type 0 where
  reconciles : Faults → Move
  asks asks_recovery : Option String → Move
  has_standby : Bool → Move
  has_phase : String → Move
  has_job : Option JobState → Move

unfoldable pub move : Move → World → World
move (Move.reconciles faults) w = (reconcile faults w).0
move (Move.asks action) w = record w { action = action }
move (Move.asks_recovery type) w = record w { recovery = type }
move (Move.has_standby b) w = record w { standby = b }
move (Move.has_phase phase) w = record w { phase = phase }
move (Move.has_job job) w = record w { job = job }

abbrev pub moves : List Move → World → World
moves [] w = w
moves (m ∷ ms) w = moves ms (move m w)

abbrev requests_of : Move → ℕ
requests_of (Move.asks action) = waiting_action action
requests_of _ = 0

-- How often activate-standby is asked for.
abbrev pub requests : List Move → ℕ
requests [] = 0
requests (m ∷ ms) = requests_of m + requests ms

move-IsCounted :
    (m : Move) (w : World)
    → (move m w).promotions + waiting (move m w) ≤ w.promotions + waiting w + requests_of m
unfolding move
move-IsCounted (Move.reconciles faults) w = omega (arith, reconcile-IsCounted faults w)
move-IsCounted (Move.asks action) w = omega arith
move-IsCounted (Move.asks_recovery type) w = omega arith
move-IsCounted (Move.has_standby b) w = omega arith
move-IsCounted (Move.has_phase phase) w = omega arith
move-IsCounted (Move.has_job job) w = omega arith

-- Over any sequence of moves, PromoteStandby is called at most once for each request to activate the
-- standby, whether it waited at first or was made since, whatever calls fail.
pub moves-promotions_le :
    (ms : List Move) (w : World) → (moves ms w).promotions ≤ w.promotions + waiting w + requests ms
moves-promotions_le [] w = omega arith
moves-promotions_le (m ∷ ms) w =
    omega (arith, moves-promotions_le ms (move m w), move-IsCounted m w)
