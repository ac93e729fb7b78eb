-- ===== src/Ha/Probe/Report.antt =====
-- internal/controller/ha_controller.go: what a probe leaves in the status and in the counters.
use cloudberry_k8s.Base.{Bool, not, ◌&&◌, List, [], ◌∷◌, ◌++◌, map, String, if◌then◌else◌, ◌≡◌}
use cloudberry_k8s.Ha.Types.{SegmentInfo, Sample, World}
use cloudberry_k8s.Ha.Probe.{is_coordinator, is_up, is_primary, to_failed, has_some}

abbrev keep : (SegmentInfo → Bool) → List SegmentInfo → List SegmentInfo
keep test [] = []
keep test (seg ∷ segments) = if test seg then seg ∷ keep test segments else keep test segments

abbrev is_down : SegmentInfo → Bool
is_down seg = not (is_coordinator seg) && not (is_up seg)

-- The segments that are down, in order, without the coordinators.
abbrev pub down : List SegmentInfo → List SegmentInfo
down segments = keep is_down segments

-- A failover is counted where mirroring is on and a primary is down.
abbrev pub failover_samples : Bool → List SegmentInfo → List Sample
failover_samples mirroring segments =
    if has_some (keep is_primary (down segments)) && mirroring then Sample.fts_failover ∷ [] else []

abbrev pub state_of : List SegmentInfo → String
state_of segments = if has_some (down segments) then "Degraded" else "InSync"

abbrev pub result_of : List SegmentInfo → String
result_of segments = if has_some (down segments) then "degraded" else "success"

-- The stored status has the segments that are down and says whether there are any, and one probe is
-- counted, after the failover if there is one.
abbrev pub IsReported : List SegmentInfo → World → World → Type 0
IsReported segments w after =
    (after.status.failed_segments ≡ map to_failed (down segments))
    × (after.status.mirroring_status ≡ state_of segments)
    × (after.status.conditions ≡ w.status.conditions)
    × (after.samples
        ≡ (w.samples ++ failover_samples w.mirroring segments)
          ++ (Sample.fts_probe (result_of segments) ∷ []))

-- What the loops over failed primaries leave alone.
abbrev IsKept : World → World → Type 0
IsKept w after = (after.status ≡ w.status) × (after.memory ≡ w.memory) × (after.samples ≡ w.samples)

-- What is counted of a failover.
abbrev failover_of : Bool → List SegmentInfo → List Sample
failover_of mirroring failed_primaries =
    if has_some failed_primaries && mirroring then Sample.fts_failover ∷ [] else []
