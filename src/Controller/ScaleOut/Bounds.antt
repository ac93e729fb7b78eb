-- ===== src/Controller/ScaleOut/Bounds.antt =====
-- internal/controller/cluster_controller.go: the counter of attempts of a scale-out.
use cloudberry_k8s.Base.{ℕ, ◌+◌, ◌<◌, not, Option, none, some, String, if_cases, leb, arith}
use cloudberry_k8s.Controller.ScaleOut.{
  ScaleOutState, Job, ExpandWorld, ExpandEnv, max_attempts, recover_wedged_coordinator,
  handle_job_failure, fail_scale_out, start_gpexpand_job, start_built, after_ensured, create_job,
  observe_job, advance_scale_phase, process_expanding, reconcile, expand, persist,
}
use cloudberry_k8s.Controller.Types.{Result, Annotation, absent, malformed, holds}

-- What is stored of a scale-out has attempts left.
unfoldable pub IsBounded : Annotation ScaleOutState → Type 0
IsBounded (holds state) = state.redistribute_attempts < max_attempts
IsBounded _ = Unit

abbrev AfterIsBounded : ExpandWorld × Result → Type 0
AfterIsBounded r = IsBounded r.0.scale_state

module _ (env : ExpandEnv) (now : ℕ) where
  fail-IsBounded :
      (state : ScaleOutState) (w : ExpandWorld)
      → IsBounded w.scale_state
      → AfterIsBounded (fail_scale_out env now state w)
  unfolding fail_scale_out IsBounded
  fail-IsBounded state w b = if_cases IsBounded env.state_removal_fails _ _ (λ e. b) (λ e. tt)

  recover-IsBounded :
      (w : ExpandWorld)
      → IsBounded w.scale_state
      → AfterIsBounded (recover_wedged_coordinator env now w)
  unfolding recover_wedged_coordinator
  recover-IsBounded w b =
      if_cases AfterIsBounded env.pod_get_fails (w, _) _ (λ e. b)
        (λ e.
          if_cases AfterIsBounded (not env.pod_exists) (w, _) _ (λ e. b)
            (λ e.
              if_cases AfterIsBounded env.pod_delete_fails (w, _)
                (record w { recoveries = w.recoveries + 1 }, _) (λ e. b) (λ e. b)))

  persist-IsBounded :
      (state : ScaleOutState) (w : ExpandWorld)
      → IsBounded w.scale_state
      → state.redistribute_attempts < max_attempts
      → IsBounded (persist env now state w).scale_state
  unfolding IsBounded
  persist-IsBounded state w b lt =
      if_cases (λ (v : ExpandWorld). IsBounded v.scale_state) env.annotation_fails w _ (λ e. b)
        (λ e. lt)

  handle-IsBounded :
      (state : ScaleOutState) (job : Job) (w : ExpandWorld)
      → IsBounded w.scale_state
      → AfterIsBounded (handle_job_failure env now state job w)
  unfolding handle_job_failure
  handle-IsBounded state job w b =
      if_cases AfterIsBounded env.is_wedged _ _ (λ e. recover-IsBounded w b)
        (λ e.
          if_cases AfterIsBounded (leb max_attempts (state.redistribute_attempts + 1)) _ _
            (λ last. fail-IsBounded _ w b) (λ left. persist-IsBounded _ _ b (ground arith)))

  create-IsBounded :
      (hash : String) (state : ScaleOutState) (w : ExpandWorld)
      → IsBounded w.scale_state
      → state.redistribute_attempts < max_attempts
      → AfterIsBounded (create_job env now hash state w)
  create-IsBounded hash state w b lt =
      if_cases AfterIsBounded env.create_fails (w, _) _ (λ e. b)
        (λ e.
          if_cases AfterIsBounded env.annotation_fails (record w { job = _ }, _) _ (λ e. b)
            (λ e. persist-IsBounded _ (record w { job = _ }) b lt))

  after_ensured-IsBounded :
      (hash : String) (state : ScaleOutState) (w : ExpandWorld) (o : Option Result)
      → IsBounded w.scale_state
      → state.redistribute_attempts < max_attempts
      → AfterIsBounded (after_ensured env now hash state w o)
  after_ensured-IsBounded hash state w none b lt = create-IsBounded hash state w b lt
  after_ensured-IsBounded hash state w (some result) b lt = b

  start-IsBounded :
      (state : ScaleOutState) (w : ExpandWorld) (o : Option String)
      → IsBounded w.scale_state
      → state.redistribute_attempts < max_attempts
      → AfterIsBounded (start_built env now state w o)
  start-IsBounded state w none b lt = fail-IsBounded state w b
  start-IsBounded state w (some hash) b lt = after_ensured-IsBounded hash state _ _ b lt

  observe-IsBounded :
      (state : ScaleOutState) (o : Option Job) (w : ExpandWorld)
      → IsBounded w.scale_state
      → state.redistribute_attempts < max_attempts
      → AfterIsBounded (observe_job env now state o w)
  unfolding observe_job start_gpexpand_job advance_scale_phase IsBounded
  observe-IsBounded state none w b lt = start-IsBounded _ w env.built_hash b lt
  observe-IsBounded state (some job) w b lt =
      if_cases AfterIsBounded job.succeeded _ _
        (λ e. if_cases AfterIsBounded env.annotation_fails (w, _) _ (λ e. b) (λ e. lt))
        (λ e.
          if_cases AfterIsBounded job.has_failed _ (w, _) (λ e. handle-IsBounded state job w b)
            (λ e. b))

  expand-IsBounded :
      (a : Annotation ScaleOutState) (w : ExpandWorld)
      → IsBounded a
      → IsBounded w.scale_state
      → IsBounded (expand env now a w).scale_state
  unfolding process_expanding start_gpexpand_job IsBounded
  expand-IsBounded absent w a b = b
  expand-IsBounded malformed w a b = b
  expand-IsBounded (holds state) w a b =
      if_cases AfterIsBounded (not state.has_job_name) _ _
        (λ e. start-IsBounded state w env.built_hash b a)
        (λ e.
          if_cases AfterIsBounded env.get_fails (w, _) _ (λ e. b)
            (λ e. observe-IsBounded state w.job w b a))

  -- Whichever calls fail and whatever the Job does, a reconcile of a scale-out with fewer than
  -- maxRedistributeAttempts attempts stores no state, or one with fewer than these.
  pub reconcile-IsBounded :
      (w : ExpandWorld) → IsBounded w.scale_state → IsBounded (reconcile env now w).scale_state
  reconcile-IsBounded w b = expand-IsBounded w.scale_state w b b
