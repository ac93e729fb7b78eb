-- ===== src/Ha/Probe.antt =====
-- internal/controller/ha_controller.go: the probe of the segments and what it reports. The
-- replication lag of the mirrors is a gauge that is left out.
pub mod Report
use cloudberry_k8s.Base.{
  ℕ, zero, suc, ◌+◌, Bool, true, false, not, ◌&&◌, ◌||◌, Option, none, some, List, [], ◌∷◌, ◌++◌,
  String, str_eq, if◌then◌else◌, length, ltb, ◌==◌,
}
use cloudberry_k8s.Base.Int.{ℤ, pos, pos_part, neg_part, ltb_ℤ}
use cloudberry_k8s.Api.Cluster.{HaSpec}
use cloudberry_k8s.Ha.Types.{
  SegmentInfo, FailedSegment, Event, Sample, Status, World, Faults, emit, count,
}

abbrev positive_or : ℕ → ℤ → ℕ
positive_or default n = if ltb_ℤ (pos 0) n then pos_part n else default

unfoldable pub probe_retries : Option HaSpec → ℕ
probe_retries none = 5
probe_retries (some ha) = positive_or 5 ha.fts_probe_retries

unfoldable pub probe_interval : Option HaSpec → ℕ
probe_interval none = 60
probe_interval (some ha) = positive_or 60 ha.fts_probe_interval

-- One attempt, with what the attempts after it return.
abbrev pub after_attempt :
    ℕ → Option (List SegmentInfo) × ℕ → Option (List SegmentInfo) → Option (List SegmentInfo) × ℕ
after_attempt call later none = later
after_attempt call later (some segments) = (some segments, suc call)

-- `probeSegmentConfigWithRetries`, with the attempts that are left and the number of the next call:
-- the segments, if a call gives them, and the number of the call after it.
unfoldable pub probe_segment_config :
    ℕ → ℕ → (ℕ → Option (List SegmentInfo)) → Option (List SegmentInfo) × ℕ
probe_segment_config zero call configuration = (none, call)
probe_segment_config (suc left) call configuration =
    after_attempt call (probe_segment_config left (suc call) configuration) (configuration call)

-- With the values that it writes to the gauge of a segment.
pub record Analysis : Type 0 where
  pub failed_segments : List FailedSegment
  pub failed_primaries : List SegmentInfo
  pub all_healthy : Bool
  pub gauge : List (ℤ × Bool)

abbrev pub is_coordinator : SegmentInfo → Bool
is_coordinator seg = ltb_ℤ seg.content_id (pos 0)

abbrev pub is_up : SegmentInfo → Bool
is_up seg = str_eq seg.status "u"

abbrev pub to_failed : SegmentInfo → FailedSegment
to_failed seg = record {
  content_id = seg.content_id;
  hostname = seg.hostname;
  role = seg.role;
  status = seg.status;
}

abbrev pub is_primary : SegmentInfo → Bool
is_primary seg = str_eq seg.role "p"

-- A segment that is down before those of the rest of the loop.
abbrev add_failed : SegmentInfo → Analysis → Analysis
add_failed seg rest = record rest {
  failed_segments = to_failed seg ∷ rest.failed_segments;
  failed_primaries = if is_primary seg then seg ∷ rest.failed_primaries else rest.failed_primaries;
  all_healthy = false;
}

abbrev add_gauge : SegmentInfo → Analysis → Analysis
add_gauge seg rest = record rest { gauge = (seg.content_id, is_up seg) ∷ rest.gauge }

unfoldable pub analyze_segments : List SegmentInfo → Analysis
analyze_segments [] = record {
  failed_segments = [];
  failed_primaries = [];
  all_healthy = true;
  gauge = [];
}
analyze_segments (seg ∷ segments) =
    let rest = analyze_segments segments in
    if is_coordinator seg
    then rest
    else if is_up seg
    then add_gauge seg rest
    else add_gauge seg (add_failed seg rest)

abbrev same_int : ℤ → ℤ → Bool
same_int a b = pos_part a + neg_part b == pos_part b + neg_part a

-- The last of the segments of that content with the role of a primary.
unfoldable pub find_primary : ℤ → List SegmentInfo → Option SegmentInfo
find_primary content [] = none
find_primary content (seg ∷ segments) =
    let later = find_primary content segments in
    elim later [
      | some found ↦ some found
      | none ↦ if same_int seg.content_id content && is_primary seg then some seg else none
    ]

abbrev failover_event : SegmentInfo → Option SegmentInfo → Event
failover_event fp none = Event.promotion_pending fp.content_id
failover_event fp (some mirror) =
    if not (same_int mirror.db_id fp.db_id)
    then Event.failover_completed fp.content_id
    else Event.promotion_pending fp.content_id

abbrev set_down : SegmentInfo → World → World
set_down fp w = record w { segment_gauge = w.segment_gauge ++ ((fp.content_id, false) ∷ []) }

-- The loop that verifies each failed primary.
unfoldable pub verify_failover : List SegmentInfo → List SegmentInfo → World → World
verify_failover updated [] w = w
verify_failover updated (fp ∷ rest) w =
    verify_failover updated rest
      (set_down fp (emit (failover_event fp (find_primary fp.content_id updated)) w))

unfoldable pub detect_failover : List SegmentInfo → World → World
detect_failover [] w = w
detect_failover (fp ∷ rest) w =
    detect_failover rest (emit (Event.failover_detected fp.content_id) w)

-- `handleFailover`, with the answer to the second read. A failed trigger or read is logged.
unfoldable pub handle_failover : Option (List SegmentInfo) → List SegmentInfo → World → World
handle_failover none failed_primaries w =
    count Sample.fts_failover (detect_failover failed_primaries w)
handle_failover (some updated) failed_primaries w =
    count Sample.fts_failover (verify_failover updated failed_primaries w)

abbrev pub has_some {ℓ} : {A : Type ℓ} → List A → Bool
has_some [] = false
has_some (x ∷ xs) = true

-- The status in memory after `updateFTSProbeStatus`.
unfoldable pub probe_status : Analysis → Status → Status
probe_status analysis status = record status {
  failed_segments = analysis.failed_segments;
  mirroring_status = if analysis.all_healthy then "InSync" else "Degraded";
}

abbrev pub warn_degraded : Analysis → World → World
warn_degraded analysis w =
    if analysis.all_healthy
    then w
    else emit (Event.mirroring_degraded (length analysis.failed_segments)) w

-- `patchFTSStatus`, where it does not fail. The copy in hand takes what is stored.
abbrev pub patch_fts_status : World → World
patch_fts_status w =
    let stored = record w.status {
      failed_segments = w.memory.failed_segments;
      mirroring_status = w.memory.mirroring_status;
    } in
    record w { status = stored; memory = stored }

abbrev pub probe_result : Bool → String
probe_result all_healthy = if all_healthy then "success" else "degraded"

-- The failover of `runFTSProbe`, after the gauge is written.
abbrev pub fail_over : Faults → ℕ → Analysis → World → World
fail_over faults call analysis w =
    let gauged = record w { segment_gauge = w.segment_gauge ++ analysis.gauge } in
    if has_some analysis.failed_primaries && w.mirroring
    then handle_failover (faults.configuration call) analysis.failed_primaries gauged
    else gauged

-- `updateFTSProbeStatus`
abbrev pub update_fts_probe_status : Analysis → World → World
update_fts_probe_status analysis w = warn_degraded analysis (record w {
  memory = probe_status analysis w.memory;
  segments_failed_gauge = some (length analysis.failed_segments);
  mirroring_in_sync_gauge = some analysis.all_healthy;
})

-- What `runFTSProbe` does with the segments of a probe.
unfoldable pub report_probe : Faults → ℕ → List SegmentInfo → World → World
report_probe faults call segments w =
    let analysis = analyze_segments segments in
    let updated = update_fts_probe_status analysis (fail_over faults call analysis w) in
    if faults.status_patch_fails
    then updated
    else count (Sample.fts_probe (probe_result analysis.all_healthy)) (patch_fts_status updated)

abbrev pub after_probe : Faults → World → Option (List SegmentInfo) × ℕ → World
after_probe faults w (none, call) = count (Sample.fts_probe "failure") w
after_probe faults w (some segments, call) = report_probe faults call segments w

-- `runFTSProbe`
unfoldable pub run_fts_probe : Faults → World → World
run_fts_probe faults w =
    if not faults.has_factory || faults.client_fails
    then count (Sample.fts_probe "failure") w
    else after_probe faults w (probe_segment_config (probe_retries w.ha) 0 faults.configuration)
