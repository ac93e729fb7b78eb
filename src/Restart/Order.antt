-- ===== src/Restart/Order.antt =====
-- internal/controller/admin_controller.go: the order of a rolling restart, whatever fails.
use cloudberry_k8s.Base.{
  ℕ, ◌≤◌, ◌||◌, Bool, true, false, Option, none, some, List, [], ◌∷◌, String, if_cases,
  if◌then◌else◌, ◌≡◌, refl, sym, ap, All, arith,
}
use cloudberry_k8s.Restart.{
  RestartPhase, Component, RollingRestartState, Annotation, Topology, World, Round, Outcome,
  is_stateful_set_rolled, stateful_set_name_for_phase, next_restart_phase,
  update_restart_annotation, complete_rolling_restart, restart_and_update, skip_phase, finish_phase,
  after_check, continue_phase, with_annotation, handle_restart, trigger_rolling_restart,
  restart_first, reconciles, is_completed, or_next,
}

abbrev pub rank : Component → ℕ
rank Component.segment_mirror = 0
rank Component.segment_primary = 1
rank Component.coordinator_standby = 2
rank Component.coordinator_active = 3

abbrev rank_phase : RestartPhase → ℕ
rank_phase RestartPhase.mirrors = 0
rank_phase RestartPhase.primaries = 1
rank_phase RestartPhase.standby = 2
rank_phase RestartPhase.coordinator = 3
rank_phase RestartPhase.completed = 4

abbrev IsUpTo : ℕ → List Component → Type 0
IsUpTo n = All (λ d. rank d ≤ n)

-- The latest restart is first, and none of a later component is before it.
abbrev pub IsInOrder : List Component → Type 0
IsInOrder [] = Unit
IsInOrder (c ∷ cs) = IsUpTo (rank c) cs × IsInOrder cs

abbrev IsWithin : Topology → List Component → Option Annotation → Type 0
IsWithin t cs none = Unit
IsWithin t cs (some Annotation.malformed) = Unit
IsWithin t cs (some (Annotation.valid s)) = IsUpTo (rank_phase (next_restart_phase t s.phase)) cs

abbrev IsOrderly : Topology → World → Type 0
IsOrderly t w = IsInOrder w.restarts × IsWithin t w.restarts w.annotation

abbrev IsOrderlyOutcome : Topology → Outcome → Type 0
IsOrderlyOutcome t o = IsOrderly t (o.0)

IsUpTo-mono : (m n : ℕ) (cs : List Component) → m ≤ n → IsUpTo m cs → IsUpTo n cs
IsUpTo-mono m n [] h u = tt
IsUpTo-mono m n (c ∷ cs) h u = (omega (arith, h, u.0), IsUpTo-mono m n cs h u.1)

rank_next : (t : Topology) (p : RestartPhase) → rank_phase p ≤ rank_phase (next_restart_phase t p)
rank_next t RestartPhase.mirrors = omega arith
rank_next t RestartPhase.primaries =
    if_cases (λ o. 1 ≤ rank_phase (or_next o RestartPhase.standby RestartPhase.coordinator))
      t.standby (some Component.coordinator_standby) none (λ e. omega arith) (λ e. omega arith)
rank_next t RestartPhase.standby = omega arith
rank_next t RestartPhase.coordinator = omega arith
rank_next t RestartPhase.completed = omega arith

abbrev is_some : Option Component → Bool
is_some none = false
is_some (some c) = true

abbrev rank_or : ℕ → Option Component → ℕ
rank_or n none = n
rank_or n (some c) = rank c

rank_if : (b : Bool) (d c : Component) → (if b then some d else none) ≡ some c → rank c ≡ rank d
rank_if true d c h = ap (rank_or (rank d)) (sym h)
rank_if false d c h = let none_there = ap is_some h in ground (arith, none_there)

rank_named :
    (t : Topology) (p : RestartPhase) (c : Component)
    → stateful_set_name_for_phase t p ≡ some c
    → rank c ≡ rank_phase p
rank_named t RestartPhase.mirrors c h = rank_if t.mirroring Component.segment_mirror c h
rank_named t RestartPhase.primaries c h = rank_if true Component.segment_primary c h
rank_named t RestartPhase.standby c h = rank_if t.standby Component.coordinator_standby c h
rank_named t RestartPhase.coordinator c h = rank_if true Component.coordinator_active c h
rank_named t RestartPhase.completed c h =
    let none_there = ap is_some h in ground (arith, none_there)

complete-IsOrderly :
    (t : Topology) (r : Round) (w : World)
    → IsOrderly t w
    → IsOrderly t ((complete_rolling_restart r w).0)
unfolding complete_rolling_restart
complete-IsOrderly t r w h =
    if_cases (IsOrderlyOutcome t) r.remove_fails _ _ (λ e. h)
      (λ e.
        if_cases (IsOrderlyOutcome t) (r.refetch_fails || r.status_fails) _ _ (λ f. (h.0, tt))
          (λ f. (h.0, tt)))

-- A phase begins that bounds what was restarted.
update-IsOrderly :
    (t : Topology) (r : Round) (s : RollingRestartState) (w : World)
    → IsOrderly t w
    → IsUpTo (rank_phase s.phase) w.restarts
    → IsOrderly t ((update_restart_annotation r s w).0)
unfolding update_restart_annotation
update-IsOrderly t r s w h u =
    if_cases (IsOrderlyOutcome t) r.set_fails _ _ (λ e. h)
      (λ e. (h.0, IsUpTo-mono _ _ w.restarts (rank_next t s.phase) u))

IsWithin-at :
    (t : Topology) (w : World) (s : RollingRestartState)
    → w.annotation ≡ some (Annotation.valid s)
    → IsUpTo (rank_phase (next_restart_phase t s.phase)) w.restarts
    → IsWithin t w.restarts w.annotation
IsWithin-at t w s e u = rw e u

restart-IsOrderly :
    (t : Topology) (r : Round) (s before : RollingRestartState) (w : World) (o : Option Component)
    → stateful_set_name_for_phase t s.phase ≡ o
    → w.annotation ≡ some (Annotation.valid before)
    → next_restart_phase t before.phase ≡ s.phase
    → IsInOrder w.restarts
    → IsUpTo (rank_phase s.phase) w.restarts
    → IsOrderlyOutcome t (restart_and_update r s o w)
unfolding restart_and_update
restart-IsOrderly t r s before w none name e next h u =
    update-IsOrderly t r s w (h, IsWithin-at t w before e (rw next u)) u
restart-IsOrderly t r s before w (some c) name e next h u =
    let top = rank_named t s.phase c name in
    let same = ap rank_phase next in
    let all : IsUpTo (rank_phase s.phase) (c ∷ w.restarts) = (omega (arith, top), u) in
    if_cases (IsOrderlyOutcome t) r.restart_fails _ _
      (λ f. (h, IsWithin-at t w before e (rw next u)))
      (λ f.
        update-IsOrderly t r s (record w { restarts = c ∷ w.restarts })
          (
            (rw top u, h),
            IsWithin-at t (record w { restarts = c ∷ w.restarts }) before e
                (IsUpTo-mono _ _ (c ∷ w.restarts) (omega (arith, same)) all),
          )
          all)

skip-IsOrderly :
    (t : Topology) (r : Round) (s : RollingRestartState) (w : World)
    → IsOrderly t w
    → IsUpTo (rank_phase (next_restart_phase t s.phase)) w.restarts
    → IsOrderlyOutcome t (skip_phase t r s w)
unfolding skip_phase
skip-IsOrderly t r s w h u =
    if_cases (IsOrderlyOutcome t) (is_completed (next_restart_phase t s.phase)) _ _
      (λ e. complete-IsOrderly t r w h) (λ e. update-IsOrderly t r _ w h u)

finish-IsOrderly :
    (t : Topology) (r : Round) (s : RollingRestartState) (w : World)
    → w.annotation ≡ some (Annotation.valid s)
    → IsOrderly t w
    → IsUpTo (rank_phase (next_restart_phase t s.phase)) w.restarts
    → IsOrderlyOutcome t (finish_phase t r s w)
unfolding finish_phase
finish-IsOrderly t r s w e h u =
    if_cases (IsOrderlyOutcome t) (is_completed (next_restart_phase t s.phase)) _ _
      (λ f. complete-IsOrderly t r w h)
      (λ f.
        restart-IsOrderly t r (record s { phase = next_restart_phase t s.phase }) s w _ refl e refl
          (h.0) u)

after_check-IsOrderly :
    (t : Topology) (r : Round) (s : RollingRestartState) (w : World) (answer : Option Bool)
    → w.annotation ≡ some (Annotation.valid s)
    → IsOrderly t w
    → IsUpTo (rank_phase (next_restart_phase t s.phase)) w.restarts
    → IsOrderlyOutcome t (after_check t r s w answer)
after_check-IsOrderly t r s w none e h u = skip-IsOrderly t r s w h u
after_check-IsOrderly t r s w (some true) e h u = finish-IsOrderly t r s w e h u
after_check-IsOrderly t r s w (some false) e h u = h

phase-IsOrderly :
    (t : Topology) (r : Round) (s : RollingRestartState) (w : World) (o : Option Component)
    → w.annotation ≡ some (Annotation.valid s)
    → IsOrderly t w
    → IsUpTo (rank_phase (next_restart_phase t s.phase)) w.restarts
    → IsOrderlyOutcome t (continue_phase t r s w o)
phase-IsOrderly t r s w none e h u = skip-IsOrderly t r s w h u
phase-IsOrderly t r s w (some c) e h u =
    after_check-IsOrderly t r s w (is_stateful_set_rolled (r.rollout c)) e h u

with_annotation-IsOrderly :
    (t : Topology) (r : Round) (w : World) (a : Option Annotation)
    → w.annotation ≡ a
    → IsOrderly t w
    → IsWithin t w.restarts a
    → IsOrderlyOutcome t (with_annotation t r w a)
with_annotation-IsOrderly t r w none e h u = h
with_annotation-IsOrderly t r w (some Annotation.malformed) e h u =
    if_cases (IsOrderlyOutcome t) r.remove_fails _ _ (λ f. h) (λ f. (h.0, tt))
with_annotation-IsOrderly t r w (some (Annotation.valid s)) e h u =
    phase-IsOrderly t r s w (stateful_set_name_for_phase t s.phase) e h u

reconciles-IsOrderly :
    (t : Topology) (rounds : List Round) (w : World)
    → IsOrderly t w
    → IsOrderly t (reconciles t rounds w)
unfolding handle_restart
reconciles-IsOrderly t [] w h = h
reconciles-IsOrderly t (r ∷ rounds) w h =
    reconciles-IsOrderly t rounds ((handle_restart t r w).0)
      (with_annotation-IsOrderly t r w w.annotation refl h (h.1))

first-IsOrderly :
    (t : Topology) (s : RollingRestartState) (fails : Bool) (w : World) (o : Option Component)
    → stateful_set_name_for_phase t s.phase ≡ o
    → w.restarts ≡ []
    → w.annotation ≡ some (Annotation.valid s)
    → IsOrderly t (restart_first fails o w)
first-IsOrderly t s fails w none name fresh e = rw (fresh, e) (tt, tt)
first-IsOrderly t s true w (some c) name fresh e = rw (fresh, e) (tt, tt)
first-IsOrderly t s false w (some c) name fresh e =
    let top = rank_named t s.phase c name in
    let later = rank_next t s.phase in rw (fresh, e) ((tt, tt), (omega (arith, top, later), tt))

trigger-IsOrderly :
    (t : Topology) (first : Round) (params : List String) (w : World)
    → w.restarts ≡ []
    → w.annotation ≡ none
    → IsOrderly t ((trigger_rolling_restart t first params w).0)
unfolding trigger_rolling_restart
trigger-IsOrderly t first params w fresh idle =
    if_cases {A = World × Bool} (λ o. IsOrderly t (o.0)) first.set_fails (w, true) _
      (λ e. rw (fresh, idle) (tt, tt))
      (λ e. first-IsOrderly t _ first.restart_fails _ _ refl fresh refl)

-- Whichever calls fail and whatever the StatefulSets report, the reconciles after a trigger, on a
-- cluster in which no restart was in progress and none is recorded, restart the mirrors, the
-- primaries, the standby and the coordinator in this order: none is restarted after one that comes
-- later in it.
pub reconciles-IsInOrder :
    (t : Topology) (first : Round) (rounds : List Round) (params : List String) (w : World)
    → w.restarts ≡ []
    → w.annotation ≡ none
    → IsInOrder (reconciles t rounds ((trigger_rolling_restart t first params w).0)).restarts
reconciles-IsInOrder t first rounds params w fresh idle =
    (reconciles-IsOrderly t rounds ((trigger_rolling_restart t first params w).0)
      (trigger-IsOrderly t first params w fresh idle)).0
