-- ===== src/Controller/ScaleIn/Order/Steps.antt =====
-- internal/controller/cluster_controller.go: the steps of a scale-in, one by one.
use mathlib.Core.List.{Memᴰ}
use cloudberry_k8s.Base.{
  ℕ, Bool, true, false, not, ◌&&◌, List, ◌∷◌, if◌then◌else◌, if_cases, ltb, ◌≡◌, refl, arith, ◌*◌,
}
use cloudberry_k8s.Controller.ScaleIn.{
  ScaleInPhase, redistributing, deregistering, scaling_mirrors, scaling_primaries, cleanup,
  completed, unknown_phase, ScaleInState, Effect, redistributed, deregistered, mirrors_scaled,
  primaries_scaled, pvcs_removed, finished, ScaleWorld, Faults, log_effect, advance_scale_in_phase,
  complete_scale_operation, process_completed, process_redistributing, process_deregistering,
  process_scaling_mirrors, process_scaling_primaries, process_cleanup, dispatch,
  check_scale_in_phases, handle_scale_in, mark_redistributed,
}
use cloudberry_k8s.Controller.Sts.{scale_stateful_set}
use cloudberry_k8s.Controller.Types.{is_running, Annotation, absent, malformed, holds}
use cloudberry_k8s.Controller.ScaleIn.Order.{
  IsOrdered, IsDue, IsStored, IsConsistent, IsStored-mono, log-IsConsistent, consistent, ordered,
  stored, AfterIsConsistent,
}

module _ (faults : Faults) (now : ℕ) where
  advance-IsConsistent :
      (state : ScaleInState) (next : ScaleInPhase) (w : ScaleWorld)
      → IsConsistent w
      → IsDue next state.new_count w.log
      → AfterIsConsistent (advance_scale_in_phase faults now state next w)
  unfolding advance_scale_in_phase IsConsistent IsStored
  advance-IsConsistent state next w c d =
      if_cases AfterIsConsistent faults.annotation_fails _ _ (λ e. c) (λ e. (c.0, d))

  purge-IsConsistent :
      (n : ℕ) (b : Bool) (w : ScaleWorld)
      → IsConsistent w
      → IsConsistent (if b then log_effect (pvcs_removed n) w else w)
  unfolding IsOrdered IsConsistent
  purge-IsConsistent n true w c = log-IsConsistent (pvcs_removed n) w c.0 c
  purge-IsConsistent n false w c = c

  purge-IsStored :
      (n : ℕ) (b : Bool) (w : ScaleWorld)
      → IsConsistent w
      → IsStored w.scale_in_state (if b then log_effect (pvcs_removed n) w else w).log
  purge-IsStored n true w c = IsStored-mono w.scale_in_state _ w.log (stored w c)
  purge-IsStored n false w c = stored w c

  finish-IsStored :
      (a : Annotation ScaleInState) (b : Bool) (l : List Effect)
      → IsStored a l
      → IsStored (if b then a else absent) (finished ∷ l)
  unfolding IsStored
  finish-IsStored a true l d = IsStored-mono a finished l d
  finish-IsStored a false l d = tt

  complete-IsConsistent :
      (w : ScaleWorld) → IsConsistent w → AfterIsConsistent (complete_scale_operation faults now w)
  unfolding complete_scale_operation IsOrdered
  complete-IsConsistent w c =
      let removes = ltb w.count w.segments_total && w.delete_policy in
      let kept = purge-IsConsistent w.count removes w c in
      if_cases AfterIsConsistent faults.status_update_fails _ _ (λ e. kept)
        (λ e. consistent _ (ordered _ kept) (
          finish-IsStored w.scale_in_state faults.state_removal_fails _
            (purge-IsStored w.count removes w c)))

  process_completed-IsConsistent :
      (w : ScaleWorld) → IsConsistent w → AfterIsConsistent (process_completed faults now w)
  unfolding process_completed IsConsistent IsStored
  process_completed-IsConsistent w c =
      complete-IsConsistent _
        (if_cases IsConsistent faults.annotation_fails _ _ (λ e. c) (λ e. (c.0, tt)))

  -- v is w with an effect added to the history.
  abbrev Records : Effect → ScaleWorld → ScaleWorld → Type 0
  Records e w v = (v.log ≡ e ∷ w.log) × (v.scale_in_state ≡ w.scale_in_state)

  mark_redistributed-log :
      (state : ScaleInState) (w : ScaleWorld)
      → w.has_database ≡ true
      → Records (redistributed state.new_count) w (mark_redistributed faults now state w)
  mark_redistributed-log state w db =
      let P = Records (redistributed state.new_count) w in
      if_cases P (not w.has_database) _ _ (λ e. ground (arith, db))
        (λ e. if_cases P faults.status_patch_fails _ _ (λ e. (refl, refl)) (λ e. (refl, refl)))

  redistributing-IsConsistent :
      (state : ScaleInState) (w : ScaleWorld)
      → w.has_database ≡ true
      → IsConsistent w
      → AfterIsConsistent (process_redistributing faults now state w)
  unfolding process_redistributing IsDue IsConsistent IsOrdered
  redistributing-IsConsistent state w db c =
      let m = mark_redistributed faults now state w in
      let (l, a) = mark_redistributed-log state w db in
      if_cases AfterIsConsistent (w.has_database && faults.redistribute_fails) _ _ (λ e. c)
        (λ e.
          advance-IsConsistent state deregistering m
            (rw (l, a) (c.0, IsStored-mono w.scale_in_state _ w.log c.1)) (rw l (Memᴰ.head refl)))

  deregistering-IsConsistent :
      (state : ScaleInState) (w : ScaleWorld)
      → w.has_database ≡ true
      → IsConsistent w
      → IsDue deregistering state.new_count w.log
      → AfterIsConsistent (process_deregistering faults now state w)
  unfolding process_deregistering IsDue IsOrdered IsConsistent
  deregistering-IsConsistent state w db c d =
      let logged = if w.has_database then log_effect (deregistered state.new_count) w else w in
      let (l, a) =
        if_cases (Records (deregistered state.new_count) w) w.has_database
          (log_effect (deregistered state.new_count) w) w (λ e. (refl, refl))
          (λ e. ground (arith, db)) in
      if_cases AfterIsConsistent (w.has_database && faults.deregister_fails) _ _ (λ e. c)
        (λ e.
          advance-IsConsistent state _ logged
            (rw (l, a) ((d, c.0), IsStored-mono w.scale_in_state _ w.log c.1))
            (if_cases (λ next. IsDue next state.new_count logged.log) w.mirroring _ _
              (λ e. rw l (Memᴰ.head refl)) (λ e. rw l (Memᴰ.head refl))))

  scaling_mirrors-IsConsistent :
      (state : ScaleInState) (w : ScaleWorld)
      → IsConsistent w
      → IsDue scaling_mirrors state.new_count w.log
      → AfterIsConsistent (process_scaling_mirrors faults now state w)
  unfolding process_scaling_mirrors IsDue IsOrdered IsConsistent
  scaling_mirrors-IsConsistent state w c d =
      let scaled = scale_stateful_set faults.mirror_sts state.new_count w.mirrors in
      let w' = log_effect (mirrors_scaled state.new_count) (record w { mirrors = scaled.0 }) in
      let c' =
        log-IsConsistent (mirrors_scaled state.new_count) (record w { mirrors = scaled.0 }) (d, c.0)
          c in
      if_cases AfterIsConsistent scaled.1 _ _ (λ e. c)
        (λ e.
          if_cases AfterIsConsistent _ (w', _) _ (λ e. c')
            (λ e. advance-IsConsistent state scaling_primaries w' c' (Memᴰ.tail d)))

  scaling_primaries-IsConsistent :
      (state : ScaleInState) (w : ScaleWorld)
      → IsConsistent w
      → IsDue scaling_primaries state.new_count w.log
      → AfterIsConsistent (process_scaling_primaries faults now state w)
  unfolding process_scaling_primaries IsDue IsOrdered IsConsistent
  scaling_primaries-IsConsistent state w c d =
      let scaled = scale_stateful_set faults.primary_sts state.new_count w.primaries in
      let w' = log_effect (primaries_scaled state.new_count) (record w { primaries = scaled.0 }) in
      let c' =
        log-IsConsistent (primaries_scaled state.new_count) (record w { primaries = scaled.0 })
          (d, c.0) c in
      if_cases AfterIsConsistent scaled.1 _ _ (λ e. c)
        (λ e.
          if_cases AfterIsConsistent _ (w', _) _ (λ e. c')
            (λ e. advance-IsConsistent state cleanup w' c' tt))

  cleanup-IsConsistent :
      (state : ScaleInState) (w : ScaleWorld)
      → IsConsistent w
      → AfterIsConsistent (process_cleanup faults now state w)
  unfolding process_cleanup IsDue
  cleanup-IsConsistent state w c =
      advance-IsConsistent state completed _
        (purge-IsConsistent state.new_count w.delete_policy w c) tt

  dispatch-IsConsistent :
      (state : ScaleInState) (phase : ScaleInPhase) (w : ScaleWorld)
      → w.has_database ≡ true
      → IsConsistent w
      → IsDue phase state.new_count w.log
      → AfterIsConsistent (dispatch faults now phase state w)
  unfolding dispatch
  dispatch-IsConsistent state redistributing w db c d = redistributing-IsConsistent state w db c
  dispatch-IsConsistent state deregistering w db c d = deregistering-IsConsistent state w db c d
  dispatch-IsConsistent state scaling_mirrors w db c d = scaling_mirrors-IsConsistent state w c d
  dispatch-IsConsistent state scaling_primaries w db c d =
      scaling_primaries-IsConsistent state w c d
  dispatch-IsConsistent state cleanup w db c d = cleanup-IsConsistent state w c
  dispatch-IsConsistent state completed w db c d = process_completed-IsConsistent w c
  dispatch-IsConsistent state unknown_phase w db c d = process_completed-IsConsistent w c

  pub check-IsConsistent :
      (a : Annotation ScaleInState) (w : ScaleWorld)
      → w.has_database ≡ true
      → IsConsistent w
      → IsStored a w.log
      → AfterIsConsistent (check_scale_in_phases faults now a w)
  unfolding check_scale_in_phases IsStored
  check-IsConsistent (holds state) w db c d = dispatch-IsConsistent state state.phase w db c d
  check-IsConsistent absent w db c d =
      if_cases AfterIsConsistent _ _ _ (λ e. complete-IsConsistent w c) (λ e. c)
  check-IsConsistent malformed w db c d =
      if_cases AfterIsConsistent _ _ _ (λ e. complete-IsConsistent w c) (λ e. c)

  pub handle_scale_in-IsConsistent :
      (old new : ℕ) (w : ScaleWorld)
      → IsConsistent w
      → IsConsistent (handle_scale_in faults now old new w).0
  unfolding handle_scale_in IsStored IsDue
  handle_scale_in-IsConsistent old new w c =
      let o = ordered w c in
      if_cases AfterIsConsistent (not (is_running w.phase)) _ _ (λ e. c)
        (λ e.
          if_cases AfterIsConsistent (ltb (2 * new) old && not w.confirm_scale_in) _ _ (λ e. c)
            (λ e.
              if_cases AfterIsConsistent faults.started_patch_fails _ _ (λ e. c)
                (λ e.
                  if_cases AfterIsConsistent faults.annotation_fails _ _
                    (λ e. consistent _ o (stored w c))
                    (λ e.
                      if_cases AfterIsConsistent faults.status_update_fails _ _
                        (λ e. consistent _ o tt) (λ e. consistent _ o tt)))))
