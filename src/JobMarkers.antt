-- ===== src/JobMarkers.antt =====
-- internal/controller/restore_partial.go and backup_timestamp.go: what a pod of a Job says in its
-- termination message, and the annotations that the admin controller makes of it. Texts are codes.
pub mod Token
pub mod Once
use cloudberry_k8s.Base.{
  ℕ, zero, suc, Bool, true, false, not, ◌&&◌, ◌||◌, Option, none, some, List, [], ◌∷◌, map, String,
  str_eq, if◌then◌else◌, length, ◌==◌, leb,
}
use cloudberry_k8s.Base.Text.{codes, has_prefix, to_lower}

abbrev pub restore_partial_marker_prefix : List ℕ
restore_partial_marker_prefix = codes "GPRESTORE_PARTIAL="

abbrev pub backup_timestamp_marker_prefix : List ℕ
backup_timestamp_marker_prefix = codes "BACKUP_TIMESTAMP="

abbrev pub or_else {ℓ} : {A : Type ℓ} → Option A → Option A → Option A
or_else none b = b
or_else (some a) b = some a

abbrev pub drop {ℓ} : {A : Type ℓ} → ℕ → List A → List A
drop zero xs = xs
drop (suc n) [] = []
drop (suc n) (x ∷ xs) = drop n xs

abbrev at_prefix : List ℕ → List ℕ → Option (List ℕ)
at_prefix p s = if has_prefix s p then some (drop (length p) s) else none

-- What follows the place that strings.LastIndex finds.
abbrev pub after_last : List ℕ → List ℕ → Option (List ℕ)
after_last p [] = at_prefix p []
after_last p (c ∷ s) = or_else (after_last p s) (at_prefix p (c ∷ s))

-- The loop of both parsers: the codes up to the first that is refused.
abbrev pub token : (ℕ → Bool) → List ℕ → List ℕ
token ok [] = []
token ok (c ∷ s) = let rest = token ok s in if ok c then c ∷ rest else []

abbrev pub is_digit : ℕ → Bool
is_digit c = leb 48 c && leb c 57

abbrev pub is_restore_partial_detail_rune : ℕ → Bool
is_restore_partial_detail_rune c =
    (leb 97 c && leb c 122) || (leb 65 c && leb c 90) || is_digit c || c == 45 || c == 95

abbrev pub detail_or_stats : List ℕ → List ℕ
detail_or_stats [] = codes "stats"
detail_or_stats (c ∷ s) = c ∷ s

abbrev pub partial_detail : Option (List ℕ) → Option (List ℕ)
partial_detail none = none
partial_detail (some rest) = some (detail_or_stats (token is_restore_partial_detail_rune rest))

unfoldable pub parse_restore_partial_message : List ℕ → Option (List ℕ)
parse_restore_partial_message message =
    partial_detail (after_last restore_partial_marker_prefix message)

abbrev pub all_digits : List ℕ → Bool
all_digits [] = true
all_digits (c ∷ s) = is_digit c && all_digits s

unfoldable pub is_gpbackup_timestamp : List ℕ → Bool
is_gpbackup_timestamp ts = (length ts == 14) && all_digits ts

abbrev valid_timestamp : List ℕ → Option (List ℕ)
valid_timestamp ts = if is_gpbackup_timestamp ts then some ts else none

abbrev pub timestamp_of : Option (List ℕ) → Option (List ℕ)
timestamp_of none = none
timestamp_of (some rest) = valid_timestamp (token is_digit rest)

unfoldable pub parse_backup_timestamp_message : List ℕ → Option (List ℕ)
parse_backup_timestamp_message message =
    timestamp_of (after_last backup_timestamp_marker_prefix message)

-- A pod, as the messages of its containers that have terminated.
abbrev pub Pod : Type 0
Pod = List (Option (List ℕ))

abbrev pub message_says : (List ℕ → Option (List ℕ)) → Option (List ℕ) → Option (List ℕ)
message_says parse none = none
message_says parse (some []) = none
message_says parse (some (c ∷ s)) = parse (c ∷ s)

abbrev pub from_pod : (List ℕ → Option (List ℕ)) → Pod → Option (List ℕ)
from_pod parse [] = none
from_pod parse (m ∷ pod) = or_else (message_says parse m) (from_pod parse pod)

abbrev pub restore_partial_from_pod : Pod → Option (List ℕ)
restore_partial_from_pod pod = from_pod parse_restore_partial_message pod

abbrev backup_real_timestamp_from_pod : Pod → Option (List ℕ)
backup_real_timestamp_from_pod pod = from_pod parse_backup_timestamp_message pod

abbrev pub first_pod : (Pod → Option (List ℕ)) → List Pod → Option (List ℕ)
first_pod read [] = none
first_pod read (pod ∷ pods) = or_else (read pod) (first_pod read pods)

-- The pods of a Job; none where the API server's list fails.
abbrev pub read_restore_partial_detail : Option (List Pod) → Option (List ℕ)
read_restore_partial_detail none = none
read_restore_partial_detail (some pods) = first_pod restore_partial_from_pod pods

abbrev pub read_backup_real_timestamp : Option (List Pod) → Option (List ℕ)
read_backup_real_timestamp none = none
read_backup_real_timestamp (some pods) = first_pod backup_real_timestamp_from_pod pods

-- A batch/v1 Job, as far as the two passes read it; an annotation or a label that is not there is
-- the empty text.
pub record BatchJob : Type 0 where
  pub name : String
  pub operation : String
  pub succeeded : ℕ
  pub restore_partial : List ℕ
  pub backup_timestamp : List ℕ

abbrev pub is_empty : List ℕ → Bool
is_empty [] = true
is_empty (c ∷ s) = false

unfoldable pub job_restore_partial : BatchJob → Bool
job_restore_partial job = not (is_empty job.restore_partial)

abbrev pub backup_timestamp_from_annotation : BatchJob → List ℕ
backup_timestamp_from_annotation job =
    if is_gpbackup_timestamp job.backup_timestamp then job.backup_timestamp else []

abbrev pub restore_metric_status : BatchJob → String → List ℕ
restore_metric_status job status =
    if str_eq status "Success" && job_restore_partial job
    then codes "partial"
    else to_lower (codes status)

-- A Job as the API server stores it and as a reconcile holds it, with the details of the
-- RestorePartial events so far, the latest first.
pub record Copy : Type 0 where
  pub stored : BatchJob
  pub memory : BatchJob
  pub events : List (List ℕ)

-- What the API server answers for a Job: its pods at each list, and whether each patch fails.
pub record Answers : Type 0 where
  pub restore_pods : Option (List Pod)
  pub restore_patch_fails : Bool
  pub backup_pods : Option (List Pod)
  pub backup_patch_fails : Bool

-- The copy in memory is changed before the patch is tried.
abbrev pub report_partial : Bool → Copy → Option (List ℕ) → Copy
report_partial fails c none = c
report_partial true c (some detail) = record c {
  memory = record c.memory { restore_partial = detail };
}
report_partial false c (some detail) = record {
  stored = record c.stored { restore_partial = detail };
  memory = record c.memory { restore_partial = detail };
  events = detail ∷ c.events;
}

unfoldable pub reconcile_restore_partial : Answers → Copy → Copy
reconcile_restore_partial answers c =
    if not (str_eq c.memory.operation "restore")
      || c.memory.succeeded == 0
      || job_restore_partial c.memory
    then c
    else report_partial answers.restore_patch_fails c
        (read_restore_partial_detail answers.restore_pods)

abbrev pub report_timestamp : Bool → Copy → Option (List ℕ) → Copy
report_timestamp fails c none = c
report_timestamp true c (some ts) = record c { memory = record c.memory { backup_timestamp = ts } }
report_timestamp false c (some ts) = record c {
  stored = record c.stored { backup_timestamp = ts };
  memory = record c.memory { backup_timestamp = ts };
}

unfoldable pub reconcile_backup_timestamp : Answers → Copy → Copy
reconcile_backup_timestamp answers c =
    if not (str_eq c.memory.operation "backup")
      || c.memory.succeeded == 0
      || not (is_empty (backup_timestamp_from_annotation c.memory))
    then c
    else report_timestamp answers.backup_patch_fails c
        (read_backup_real_timestamp answers.backup_pods)

-- Each pass walks the Jobs of the list; a Job's pods and patches are its own.
abbrev pub reconcile_restore_partial_annotations : (String → Answers) → List Copy → List Copy
reconcile_restore_partial_annotations answers =
    map (λ c. reconcile_restore_partial (answers c.memory.name) c)

abbrev pub reconcile_backup_timestamp_annotations : (String → Answers) → List Copy → List Copy
reconcile_backup_timestamp_annotations answers =
    map (λ c. reconcile_backup_timestamp (answers c.memory.name) c)

-- A reconcile: what the Job controller has counted by then, and what the API server answers.
pub record Round : Type 0 where
  pub succeeded : String → ℕ
  pub answers : String → Answers

-- The list of Jobs that `refreshBackupStatus` reads.
abbrev pub list_job : Round → Copy → Copy
list_job round c =
    let job : BatchJob = record c.stored { succeeded = round.succeeded c.stored.name } in
    record c { stored = job; memory = job }

abbrev pub refresh_backup_status : Round → List Copy → List Copy
refresh_backup_status round jobs =
    reconcile_backup_timestamp_annotations round.answers
      (reconcile_restore_partial_annotations round.answers (map (list_job round) jobs))

abbrev pub refreshes : List Round → List Copy → List Copy
refreshes [] jobs = jobs
refreshes (round ∷ rounds) jobs = refreshes rounds (refresh_backup_status round jobs)

-- A Job before any event about it.
abbrev pub unseen : BatchJob → Copy
unseen job = record { stored = job; memory = job; events = [] }
