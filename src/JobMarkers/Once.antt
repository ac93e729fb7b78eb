-- ===== src/JobMarkers/Once.antt =====
-- internal/controller/restore_partial.go: how often a partial restore is reported.
use cloudberry_k8s.Base.{
  ℕ, Bool, true, false, not, ◌||◌, Option, none, some, List, [], ◌∷◌, map, if_cases, Bool-cases,
  ◌≡◌, refl, ap, ◌⊎◌, inl, inr, All, arith, str_eq, ◌==◌,
}
use cloudberry_k8s.JobMarkers.{
  Copy, BatchJob, Answers, Round, Pod, report_partial, report_timestamp, reconcile_restore_partial,
  reconcile_backup_timestamp, list_job, refresh_backup_status, refreshes, unseen,
  job_restore_partial, read_restore_partial_detail, read_backup_real_timestamp, is_empty,
  parse_restore_partial_message, partial_detail, detail_or_stats, or_else, restore_partial_from_pod,
  first_pod, after_last, restore_partial_marker_prefix, message_says,
}

-- No event, and no more than one: its detail is then the annotation that the API server stores.
abbrev pub IsReportedOnce : Copy → Type 0
IsReportedOnce c =
    (c.events ≡ [])
    ⊎ ((c.events ≡ c.stored.restore_partial ∷ []) × (is_empty c.stored.restore_partial ≡ false))

-- While a pass runs, a copy in memory without the annotation is of a Job without it.
abbrev IsHeld : Copy → Type 0
IsHeld c =
    IsReportedOnce c
    × (is_empty c.memory.restore_partial ≡ true → is_empty c.stored.restore_partial ≡ true)

-- A detail is a text that is not empty.
abbrev IsDetail : Option (List ℕ) → Type 0
IsDetail none = Unit
IsDetail (some detail) = is_empty detail ≡ false

or_else-IsDetail : (a b : Option (List ℕ)) → IsDetail a → IsDetail b → IsDetail (or_else a b)
or_else-IsDetail none b ha hb = hb
or_else-IsDetail (some d) b ha hb = ha

detail_or_stats-IsDetail : (s : List ℕ) → is_empty (detail_or_stats s) ≡ false
detail_or_stats-IsDetail [] = refl
detail_or_stats-IsDetail (c ∷ s) = refl

partial_detail-IsDetail : (o : Option (List ℕ)) → IsDetail (partial_detail o)
partial_detail-IsDetail none = tt
partial_detail-IsDetail (some rest) = detail_or_stats-IsDetail _

message_says-IsDetail :
    (m : Option (List ℕ)) → IsDetail (message_says parse_restore_partial_message m)
unfolding parse_restore_partial_message
message_says-IsDetail none = tt
message_says-IsDetail (some []) = tt
message_says-IsDetail (some (c ∷ s)) =
    partial_detail-IsDetail (after_last restore_partial_marker_prefix (c ∷ s))

from_pod-IsDetail : (pod : Pod) → IsDetail (restore_partial_from_pod pod)
from_pod-IsDetail [] = tt
from_pod-IsDetail (m ∷ pod) =
    or_else-IsDetail (message_says parse_restore_partial_message m) (restore_partial_from_pod pod)
      (message_says-IsDetail m) (from_pod-IsDetail pod)

first_pod-IsDetail : (pods : List Pod) → IsDetail (first_pod restore_partial_from_pod pods)
first_pod-IsDetail [] = tt
first_pod-IsDetail (pod ∷ pods) =
    or_else-IsDetail (restore_partial_from_pod pod) (first_pod restore_partial_from_pod pods)
      (from_pod-IsDetail pod) (first_pod-IsDetail pods)

read-IsDetail : (pods : Option (List Pod)) → IsDetail (read_restore_partial_detail pods)
read-IsDetail none = tt
read-IsDetail (some pods) = first_pod-IsDetail pods

-- A Job without the annotation has had no event.
no_event : (c : Copy) → IsReportedOnce c → is_empty c.stored.restore_partial ≡ true → c.events ≡ []
no_event c (inl none_yet) h = none_yet
no_event c (inr (one, full)) h = ground (arith, full, h)

report_partial-IsHeld :
    (fails : Bool) (c : Copy) (o : Option (List ℕ))
    → IsDetail o
    → is_empty c.memory.restore_partial ≡ true
    → IsHeld c
    → IsHeld (report_partial fails c o)
report_partial-IsHeld fails c none d h held = held
report_partial-IsHeld true c (some detail) d h held = (held.0, λ e. ground (arith, d, e))
report_partial-IsHeld false c (some detail) d h held =
    (inr (ap (λ es. detail ∷ es) (no_event c held.0 (held.1 h)), d), λ e. e)

unreported :
    (a b : Bool) (c : Copy)
    → (a || b || job_restore_partial c.memory) ≡ false
    → is_empty c.memory.restore_partial ≡ true
unfolding job_restore_partial
unreported a b c h = ground (arith, Bool-cases (is_empty c.memory.restore_partial), h)

reconcile_restore_partial-IsHeld :
    (answers : Answers) (c : Copy) → IsHeld c → IsHeld (reconcile_restore_partial answers c)
unfolding reconcile_restore_partial
reconcile_restore_partial-IsHeld answers c held =
    if_cases IsHeld _ c _ (λ e. held)
      (λ e.
        report_partial-IsHeld answers.restore_patch_fails c
          (read_restore_partial_detail answers.restore_pods) (read-IsDetail answers.restore_pods)
          (unreported (not (str_eq c.memory.operation "restore")) (c.memory.succeeded == 0) c e)
          held)

report_timestamp-IsHeld :
    (fails : Bool) (c : Copy) (o : Option (List ℕ)) → IsHeld c → IsHeld (report_timestamp fails c o)
report_timestamp-IsHeld fails c none held = held
report_timestamp-IsHeld true c (some ts) held = held
report_timestamp-IsHeld false c (some ts) held = held

reconcile_backup_timestamp-IsHeld :
    (answers : Answers) (c : Copy) → IsHeld c → IsHeld (reconcile_backup_timestamp answers c)
unfolding reconcile_backup_timestamp
reconcile_backup_timestamp-IsHeld answers c held =
    if_cases IsHeld _ c _ (λ e. held)
      (λ e.
        report_timestamp-IsHeld answers.backup_patch_fails c
          (read_backup_real_timestamp answers.backup_pods) held)

refresh-IsReportedOnce :
    (round : Round) (jobs : List Copy)
    → All IsReportedOnce jobs
    → All IsReportedOnce (refresh_backup_status round jobs)
refresh-IsReportedOnce round [] h = tt
refresh-IsReportedOnce round (c ∷ jobs) h =
    let first =
      reconcile_restore_partial-IsHeld (round.answers c.stored.name) (list_job round c)
        (h.0, λ e. e) in
    ((reconcile_backup_timestamp-IsHeld _ _ first).0, refresh-IsReportedOnce round jobs h.1)

refreshes-All :
    (rounds : List Round) (jobs : List Copy)
    → All IsReportedOnce jobs
    → All IsReportedOnce (refreshes rounds jobs)
refreshes-All [] jobs h = h
refreshes-All (round ∷ rounds) jobs h =
    refreshes-All rounds (refresh_backup_status round jobs) (refresh-IsReportedOnce round jobs h)

unseen-All : (jobs : List BatchJob) → All IsReportedOnce (map unseen jobs)
unseen-All [] = tt
unseen-All (job ∷ jobs) = (inl refl, unseen-All jobs)

-- Whatever the pods say and whichever calls fail, over any run of reconciles a Job has at most one
-- RestorePartial event, and one that has it is stored with the detail of the event, which is not
-- empty, as its annotation.
pub refreshes-IsReportedOnce :
    (rounds : List Round) (jobs : List BatchJob)
    → All IsReportedOnce (refreshes rounds (map unseen jobs))
refreshes-IsReportedOnce rounds jobs = refreshes-All rounds (map unseen jobs) (unseen-All jobs)
