-- ===== src/Controller/ScaleIn/Completion.antt =====
-- internal/controller/cluster_controller.go: scale-in without failing calls.
use cloudberry_k8s.Base.{ℕ, zero, suc, true, false, Option, none, some, ◌≡◌}
use cloudberry_k8s.Controller.ScaleIn.{
  ScaleInPhase, redistributing, ScaleInState, mirrors_scaled, primaries_scaled, ScaleWorld, Faults,
  reconcile,
}
use cloudberry_k8s.Controller.Sts.{StsFaults}
use cloudberry_k8s.Controller.Types.{scaling, running, StatefulSet, absent, holds}
use cloudberry_k8s.Util.Conditions.{set_condition}

abbrev sts_works : StsFaults
sts_works = record { get_fails = false; update_fails = false; check_fails = false }

abbrev pub all_works : Faults
all_works = record {
  redistribute_fails = false;
  deregister_fails = false;
  mirror_sts = sts_works;
  primary_sts = sts_works;
  status_patch_fails = false;
  status_update_fails = false;
  started_patch_fails = false;
  annotation_fails = false;
  started_removal_fails = false;
  confirm_removal_fails = false;
  state_removal_fails = false;
}

-- n reconciles whose calls all succeed.
abbrev pub reconciles : ℕ → ℕ → ScaleWorld → ScaleWorld
reconciles now zero w = w
reconciles now (suc n) w = reconciles now n (reconcile all_works now w)

-- The object after `scaleStatefulSet`.
abbrev resized : StatefulSet → ℕ → StatefulSet
resized sts n = record sts { replicas = some n }

-- The state after a step into another phase.
abbrev moved : ℕ → ScaleInState → ScaleInPhase → ScaleWorld → ScaleWorld
moved now state next w = record w {
  scale_in_state = holds (record state { phase = next; phase_started_at = now });
}

-- What a finished scale-in to n segments leaves.
pub record IsFinished (n : ℕ) (mirrors primaries : StatefulSet) (w : ScaleWorld) : Type 0 where
  pub is_running : w.phase ≡ running
  pub total : w.segments_total ≡ n
  pub mirrors_scaled : w.mirrors ≡ some (resized mirrors n)
  pub primaries_scaled : w.primaries ≡ some (resized primaries n)
  pub no_state : w.scale_in_state ≡ absent
  pub no_start : w.scale_started ≡ none
  pub no_confirm : w.confirm_scale_in ≡ false

-- The parts of a world which an effect leaves alone.
abbrev HasSets : Option StatefulSet → Option StatefulSet → ℕ → ℕ → ScaleWorld → Type 0
HasSets m p c t w = (w.mirrors ≡ m) × (w.primaries ≡ p) × (w.count ≡ c) × (w.segments_total ≡ t)

module _ (now old k : ℕ) (w : ScaleWorld) (mirrors primaries : StatefulSet) where
  abbrev begun_state : ScaleInState
  begun_state = record {
    phase = redistributing;
    old_count = old;
    new_count = suc k;
    started_at = now;
    phase_started_at = now;
  }

  -- A scale-in to suc k segments as `handle_scale_in` leaves it.
  abbrev begun : ScaleWorld
  begun = record w {
    count = suc k;
    segments_total = old;
    mirroring = true;
    has_database = true;
    mirrors = some mirrors;
    primaries = some primaries;
    scale_in_state = holds begun_state;
  }

module _ (now old k : ℕ) (w : ScaleWorld) (mirrors primaries : StatefulSet) where
  -- A running cluster with mirrors, a database and both StatefulSets, whose spec asks for suc k
  -- segments and whose status has the old number.
  abbrev pub ready : ScaleWorld
  ready = record w {
    count = suc k;
    segments_total = old;
    phase = running;
    mirroring = true;
    has_database = true;
    mirrors = some mirrors;
    primaries = some primaries;
  }

  abbrev requested : ScaleWorld
  requested = record ready {
    phase = scaling;
    scale_started = some now;
    conditions =
        set_condition now "DataRedistribution" "True" "ScaleInRedistributing"
          "Redistributing data off segments" w.conditions;
  }
