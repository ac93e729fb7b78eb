-- ===== src/Tests/JobMarkers.antt =====
-- The markers of backup and restore Jobs on concrete texts.
use cloudberry_k8s.Base.{
  ℕ, true, false, none, some, List, [], ◌∷◌, map, ◌≡◌, refl, All, if◌then◌else◌, ◌==◌,
}
use cloudberry_k8s.Base.Text.{codes}
use cloudberry_k8s.JobMarkers.{
  BatchJob, Round, refreshes, unseen, parse_backup_timestamp_message, parse_restore_partial_message,
  reconcile_restore_partial, reconcile_backup_timestamp, is_gpbackup_timestamp, job_restore_partial,
}
use cloudberry_k8s.JobMarkers.Once.{IsReportedOnce, refreshes-IsReportedOnce}

abbrev log_tail : List ℕ
log_tail = codes "BACKUP_TIMESTAMP=7; done, "

abbrev stamp : List ℕ
stamp = codes "20260102030405"

abbrev log_end : List ℕ
log_end = codes " (exit 0)"

-- A marker that was cut off hides a whole one before it.
cut_marker :
    parse_backup_timestamp_message (codes "BACKUP_TIMESTAMP=20260102030405 BACKUP_TIMESTAMP=2026")
    ≡ none
unfolding parse_backup_timestamp_message is_gpbackup_timestamp
cut_marker = refl

abbrev restore_job : BatchJob
restore_job = record {
  name = "demo-restore";
  operation = "restore";
  succeeded = 0;
  restore_partial = [];
  backup_timestamp = [];
}

-- The patch fails in the first of these rounds.
abbrev round : ℕ → Round
round n = record {
  succeeded = λ job. n;
  answers = λ job. record {
    restore_pods = some ((none ∷ some (codes "x GPRESTORE_PARTIAL= ") ∷ []) ∷ []);
    restore_patch_fails = (if n == 1 then true else false);
    backup_pods = none;
    backup_patch_fails = false;
  };
}

abbrev rounds : List Round
rounds = round 0 ∷ round 1 ∷ round 2 ∷ round 2 ∷ []

refreshes-IsReportedOnce_example :
    All IsReportedOnce (refreshes rounds (map unseen (restore_job ∷ [])))
refreshes-IsReportedOnce_example = refreshes-IsReportedOnce rounds (restore_job ∷ [])

one_event :
    map (λ c. c.events) (refreshes rounds (map unseen (restore_job ∷ [])))
    ≡ (codes "stats" ∷ []) ∷ []
unfolding reconcile_restore_partial reconcile_backup_timestamp parse_restore_partial_message
    job_restore_partial
one_event = refl
