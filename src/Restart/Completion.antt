-- ===== src/Restart/Completion.antt =====
-- internal/controller/admin_controller.go: a rolling restart whose calls succeed.
use cloudberry_k8s.Base.{
  ℕ, suc, ◌+◌, ◌≤◌, Bool, true, false, not, ◌&&◌, ◌||◌, Option, none, some, List, [], ◌∷◌, String,
  if◌then◌else◌, ◌≡◌, refl, sym, ap, ◌∙◌, ◌⊎◌, inl, inr, All, arith, Bool-cases,
}
use cloudberry_k8s.Util.Conditions.{
  is_condition_true, has_status, condition_true, find_condition-set_condition,
}
use cloudberry_k8s.Restart.{
  RestartPhase, Component, RollingRestartState, Annotation, Topology, World, Round,
  is_stateful_set_rolled, stateful_set_name_for_phase, next_restart_phase,
  update_restart_annotation, config_applied, complete_rolling_restart, restart_and_update,
  finish_phase, after_check, handle_restart, start_phase, trigger_rolling_restart, reconciles,
  is_completed, with_annotation,
}

-- A test that each StatefulSet of the cluster passes.
abbrev pub passes : Topology → (Component → Bool) → Bool
passes t test =
    (not t.mirroring || test Component.segment_mirror)
    && test Component.segment_primary
    && (not t.standby || test Component.coordinator_standby)
    && test Component.coordinator_active

abbrev is_there : Option Bool → Bool
is_there none = false
is_there (some rolled) = true

abbrev says_rolled : Option Bool → Bool
says_rolled none = false
says_rolled (some rolled) = rolled

abbrev pub all_there : Topology → Round → Bool
all_there t r = passes t (λ c. is_there (is_stateful_set_rolled (r.rollout c)))

abbrev pub all_rolled : Topology → Round → Bool
all_rolled t r = passes t (λ c. says_rolled (is_stateful_set_rolled (r.rollout c)))

-- No call fails, and each StatefulSet of the cluster exists.
abbrev pub IsCalm : Topology → Round → Type 0
IsCalm t r =
    (r.set_fails ≡ false)
    × (r.remove_fails ≡ false)
    × (r.restart_fails ≡ false)
    × (r.refetch_fails ≡ false)
    × (r.status_fails ≡ false)
    × (all_there t r ≡ true)

abbrev pub count_rolled : Topology → List Round → ℕ
count_rolled t [] = 0
count_rolled t (r ∷ rounds) = (if all_rolled t r then 1 else 0) + count_rolled t rounds

-- What has been restarted when a phase begins, the latest first.
abbrev pub begun : Topology → RestartPhase → List Component → List Component
begun t RestartPhase.mirrors base = Component.segment_mirror ∷ base
begun t RestartPhase.primaries base =
    Component.segment_primary ∷ (if t.mirroring then Component.segment_mirror ∷ base else base)
begun t RestartPhase.standby base =
    Component.coordinator_standby
    ∷ Component.segment_primary
    ∷ (if t.mirroring then Component.segment_mirror ∷ base else base)
begun t RestartPhase.coordinator base =
    let segments =
      Component.segment_primary ∷ (if t.mirroring then Component.segment_mirror ∷ base else base) in
    Component.coordinator_active
    ∷ (if t.standby then Component.coordinator_standby ∷ segments else segments)
begun t RestartPhase.completed base = base

abbrev left : RestartPhase → ℕ
left RestartPhase.mirrors = 4
left RestartPhase.primaries = 3
left RestartPhase.standby = 2
left RestartPhase.coordinator = 1
left RestartPhase.completed = 5

abbrev applies : Option Component → Bool
applies none = false
applies (some c) = true

abbrev pub IsRestarted : Topology → List Component → World → Type 0
IsRestarted t base w =
    (w.annotation ≡ none)
    × (w.restarts ≡ begun t RestartPhase.coordinator base)
    × (is_condition_true w.conditions config_applied ≡ true)

abbrev IsGoing : Topology → List Component → ℕ → World → Type 0
IsGoing t base n w =
    (s : RollingRestartState) × ((w.annotation ≡ some (Annotation.valid s))
      × ((left s.phase ≤ n)
          × ((applies (stateful_set_name_for_phase t s.phase) ≡ true)
              × (w.restarts ≡ begun t s.phase base))))

abbrev IsOnTheWay : Topology → List Component → ℕ → World → Type 0
IsOnTheWay t base n w = IsGoing t base n w ⊎ IsRestarted t base w

complete-IsRestarted :
    (t : Topology) (r : Round) (base : List Component) (w : World)
    → IsCalm t r
    → w.restarts ≡ begun t RestartPhase.coordinator base
    → IsRestarted t base ((complete_rolling_restart r w).0)
unfolding complete_rolling_restart is_condition_true
complete-IsRestarted t r base w calm h =
    rw (calm.1, calm.3, calm.4)
      (
        refl,
        h,
        ap (has_status condition_true) (
            find_condition-set_condition r.now config_applied condition_true
              "ConfigAppliedAfterRestart"
              "Configuration applied after rolling restart of parameters" config_applied
              w.conditions),
      )

-- The phase begins that has this StatefulSet.
begin-IsGoing :
    (t : Topology) (r : Round) (base : List Component) (s : RollingRestartState) (w : World) (n : ℕ)
    (c : Component)
    → IsCalm t r
    → stateful_set_name_for_phase t s.phase ≡ some c
    → left s.phase ≤ n
    → c ∷ w.restarts ≡ begun t s.phase base
    → IsOnTheWay t base n ((restart_and_update r s (some c) w).0)
unfolding restart_and_update update_restart_annotation
begin-IsGoing t r base s w n c calm name few h =
    rw (calm.2, calm.0) (inl (s, (refl, (few, (ap applies name, h)))))

-- The phase that follows, if there is one, has a StatefulSet, and is nearer to the end.
abbrev Follows : Topology → List Component → RestartPhase → Type 0
Follows t base p =
    ((next_restart_phase t p ≡ RestartPhase.completed)
      × (begun t p base ≡ begun t RestartPhase.coordinator base))
    ⊎ ((q : RestartPhase) × ((c : Component) × ((next_restart_phase t p ≡ q)
            × ((stateful_set_name_for_phase t q ≡ some c)
                × ((suc (left q) ≤ left p)
                    × ((c ∷ begun t p base ≡ begun t q base) × (is_completed q ≡ false)))))))

applies_if : (b : Bool) (c : Component) → applies (if b then some c else none) ≡ true → b ≡ true
applies_if true c h = refl
applies_if false c h = ground (arith, h)

follows :
    (t : Topology) (base : List Component) (p : RestartPhase)
    → applies (stateful_set_name_for_phase t p) ≡ true
    → Follows t base p
follows t base RestartPhase.completed app = ground (arith, app)
follows t base RestartPhase.coordinator app = inl (refl, refl)
follows t base RestartPhase.standby app = inr (
  RestartPhase.coordinator,
  (
    Component.coordinator_active,
    (
      refl,
      (
        refl,
        (omega arith, (rw (applies_if t.standby Component.coordinator_standby app) refl, refl)),
      ),
    ),
  ),
)
follows t base RestartPhase.primaries app = elim (Bool-cases t.standby) [
  | inl h ↦ inr (
    RestartPhase.standby,
    (Component.coordinator_standby, (rw h refl, (rw h refl, (omega arith, (refl, refl))))),
  )
  | inr h ↦ inr (
    RestartPhase.coordinator,
    (Component.coordinator_active, (rw h refl, (refl, (omega arith, (rw h refl, refl))))),
  )
]
follows t base RestartPhase.mirrors app = inr (
  RestartPhase.primaries,
  (
    Component.segment_primary,
    (
      refl,
      (refl, (omega arith, (rw (applies_if t.mirroring Component.segment_mirror app) refl, refl))),
    ),
  ),
)

finish-IsOnTheWay :
    (t : Topology) (r : Round) (base : List Component) (n : ℕ) (w : World) (s : RollingRestartState)
    → IsCalm t r
    → left s.phase ≤ suc n
    → applies (stateful_set_name_for_phase t s.phase) ≡ true
    → w.restarts ≡ begun t s.phase base
    → IsOnTheWay t base n ((finish_phase t r s w).0)
unfolding finish_phase
finish-IsOnTheWay t r base n w s calm few app h = elim (follows t base s.phase app) [
  | inl (e, same) ↦ rw e (inr (complete-IsRestarted t r base w calm (h ∙ same)))
  | inr (q, (c, (e, (name, (less, (same, more)))))) ↦
      rw (e, more, name)
        (begin-IsGoing t r base (record s { phase = q }) w n c calm name (omega arith)
          (ap (λ cs. c ∷ cs) h ∙ same))
]

abbrev component_or : Component → Option Component → Component
component_or d none = d
component_or d (some c) = c

some_inj : (d c : Component) → some d ≡ some c → d ≡ c
some_inj d c h = ap (component_or d) h

if_some :
    (b : Bool) (d c : Component) → (if b then some d else none) ≡ some c → (b ≡ true) × (d ≡ c)
if_some true d c h = (refl, some_inj d c h)
if_some false d c h = let none_there = ap applies h in ground (arith, none_there)

-- A test that all StatefulSets pass, the one of a phase passes.
passes_phase :
    (t : Topology) (test : Component → Bool) (p : RestartPhase) (c : Component)
    → stateful_set_name_for_phase t p ≡ some c
    → passes t test ≡ true
    → test c ≡ true
passes_phase t test RestartPhase.mirrors c name h =
    let (on, same) = if_some t.mirroring Component.segment_mirror c name in
    sym (ap test same) ∙ ground (arith, on, h)
passes_phase t test RestartPhase.primaries c name h =
    sym (ap test (some_inj Component.segment_primary c name)) ∙ ground (arith, h)
passes_phase t test RestartPhase.standby c name h =
    let (on, same) = if_some t.standby Component.coordinator_standby c name in
    sym (ap test same) ∙ ground (arith, on, h)
passes_phase t test RestartPhase.coordinator c name h =
    sym (ap test (some_inj Component.coordinator_active c name)) ∙ ground (arith, h)
passes_phase t test RestartPhase.completed c name h =
    let none_there = ap applies name in ground (arith, none_there)

few_or : (b : Bool) (k n : ℕ) → k ≤ (if b then 1 else 0) + n → k ≤ suc n
few_or true k n h = omega arith
few_or false k n h = omega arith

few_unless : (b : Bool) (k n : ℕ) → (b ≡ true → ⊥) → k ≤ (if b then 1 else 0) + n → k ≤ n
few_unless b k n never h = elim (Bool-cases b) [
  | inl e ↦ elim (never e) [ ]
  | inr e ↦ ground (arith, e, h)
]

checked-IsOnTheWay :
    (t : Topology) (r : Round) (base : List Component) (n : ℕ) (w : World) (s : RollingRestartState)
    (c : Component) (answer : Option Bool)
    → IsCalm t r
    → w.annotation ≡ some (Annotation.valid s)
    → left s.phase ≤ (if all_rolled t r then 1 else 0) + n
    → stateful_set_name_for_phase t s.phase ≡ some c
    → w.restarts ≡ begun t s.phase base
    → is_stateful_set_rolled (r.rollout c) ≡ answer
    → IsOnTheWay t base n ((after_check t r s w answer).0)
checked-IsOnTheWay t r base n w s c none calm e few name h said =
    let there =
      passes_phase t (λ d. is_there (is_stateful_set_rolled (r.rollout d))) s.phase c name
        (calm.5) in
    let missing = ap is_there said in ground (arith, there, missing)
checked-IsOnTheWay t r base n w s c (some true) calm e few name h said =
    finish-IsOnTheWay t r base n w s calm (few_or (all_rolled t r) (left s.phase) n few)
      (ap applies name) h
checked-IsOnTheWay t r base n w s c (some false) calm e few name h said =
    let waits : all_rolled t r ≡ true → ⊥ = λ all.
      let rolled =
        passes_phase t (λ d. says_rolled (is_stateful_set_rolled (r.rollout d))) s.phase c name
          all in
      let not_yet = ap says_rolled said in ground (arith, rolled, not_yet) in
    inl (s, (e, (few_unless (all_rolled t r) (left s.phase) n waits few, (ap applies name, h))))

named : (o : Option Component) → applies o ≡ true → (c : Component) × (o ≡ some c)
named none h = ground (arith, h)
named (some c) h = (c, refl)

handle_restart_at :
    (t : Topology) (r : Round) (w : World) (a : Option Annotation)
    → w.annotation ≡ a
    → handle_restart t r w ≡ with_annotation t r w a
unfolding handle_restart
handle_restart_at t r w a e = ap (with_annotation t r w) e

-- No phase is left when no round is.
left_pos : (t : Topology) (p : RestartPhase) → left p ≤ 0 → ⊥
left_pos t RestartPhase.mirrors h = omega (arith, h)
left_pos t RestartPhase.primaries h = omega (arith, h)
left_pos t RestartPhase.standby h = omega (arith, h)
left_pos t RestartPhase.coordinator h = omega (arith, h)
left_pos t RestartPhase.completed h = omega (arith, h)

going-IsOnTheWay :
    (t : Topology) (r : Round) (base : List Component) (n : ℕ) (w : World)
    → IsCalm t r
    → IsGoing t base ((if all_rolled t r then 1 else 0) + n) w
    → IsOnTheWay t base n ((handle_restart t r w).0)
going-IsOnTheWay t r base n w calm (s, (e, (few, (app, h)))) =
    let (c, name) = named (stateful_set_name_for_phase t s.phase) app in
    rw (handle_restart_at t r w (some (Annotation.valid s)) e, name)
      (checked-IsOnTheWay t r base n w s c (is_stateful_set_rolled (r.rollout c)) calm e few name h
        refl)

IsRestarted-step :
    (t : Topology) (r : Round) (base : List Component) (w : World)
    → IsRestarted t base w
    → IsRestarted t base ((handle_restart t r w).0)
IsRestarted-step t r base w h = rw (handle_restart_at t r w none (h.0)) h

IsRestarted-stays :
    (t : Topology) (rounds : List Round) (base : List Component) (w : World)
    → IsRestarted t base w
    → IsRestarted t base (reconciles t rounds w)
IsRestarted-stays t [] base w h = h
IsRestarted-stays t (r ∷ rounds) base w h =
    IsRestarted-stays t rounds base ((handle_restart t r w).0) (IsRestarted-step t r base w h)

way-IsRestarted :
    (t : Topology) (rounds : List Round) (base : List Component) (w : World)
    → All (IsCalm t) rounds
    → IsOnTheWay t base (count_rolled t rounds) w
    → IsRestarted t base (reconciles t rounds w)
way-IsRestarted t rounds base w calm (inr h) = IsRestarted-stays t rounds base w h
way-IsRestarted t [] base w calm (inl (s, (e, (few, (app, h))))) = elim (left_pos t s.phase few) [ ]
way-IsRestarted t (r ∷ rounds) base w calm (inl going) =
    way-IsRestarted t rounds base ((handle_restart t r w).0) (calm.1)
      (going-IsOnTheWay t r base (count_rolled t rounds) w (calm.0) going)

starts :
    (t : Topology) (base : List Component)
    → (c : Component) × ((stateful_set_name_for_phase t (start_phase t) ≡ some c)
        × (left (start_phase t) ≤ 4)
        × (c ∷ base ≡ begun t (start_phase t) base))
starts t base = elim (Bool-cases t.mirroring) [
  | inl on ↦ (Component.segment_mirror, (rw on refl, rw on (omega arith), rw on refl))
  | inr off ↦ (Component.segment_primary, (rw off refl, rw off (omega arith), rw off refl))
]

-- If no call fails and each StatefulSet of the cluster exists, in the reconcile that triggers a
-- rolling restart and in the ones after it, of which four find all StatefulSets rolled, then the
-- restart is over, ConfigApplied is true, and it has restarted, each once, the mirrors if there are
-- any, the primaries, the standby if there is one, and the coordinator, in this order.
pub reconciles-IsRestarted :
    (t : Topology) (first : Round) (rounds : List Round) (params : List String) (w : World)
    → IsCalm t first
    → All (IsCalm t) rounds
    → 4 ≤ count_rolled t rounds
    → IsRestarted t w.restarts (reconciles t rounds ((trigger_rolling_restart t first params w).0))
unfolding trigger_rolling_restart
reconciles-IsRestarted t first rounds params w calm later enough =
    let state : RollingRestartState = record {
      phase = start_phase t;
      started_at = first.now;
      restart_params = params;
    } in
    let (c, begins) = starts t w.restarts in
    let few : left (start_phase t) ≤ count_rolled t rounds = omega (arith, begins.1, enough) in
    way-IsRestarted t rounds w.restarts ((trigger_rolling_restart t first params w).0) later (
      rw (calm.0, calm.2, begins.0) (inl (state, (refl, (few, (ap applies (begins.0), begins.2))))))
