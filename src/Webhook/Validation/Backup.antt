-- ===== src/Webhook/Validation/Backup.antt =====
-- internal/webhook/validating.go: the rules of the backup spec.
use cloudberry_k8s.Base.{
  ℕ, Bool, true, false, not, ◌&&◌, ◌||◌, Option, none, some, List, [], ◌∷◌, ◌++◌, String, str_eq,
  if◌then◌else◌,
}
use cloudberry_k8s.Base.Int.{ℤ, pos, ltb_ℤ}
use cloudberry_k8s.Base.Text.{codes, same, has_prefix}
use cloudberry_k8s.Api.Backup.{
  S3VaultSecret, S3CredentialSecret, S3Destination, BackupDestination, GpbackupOptions,
  GprestoreOptions, BackupSpec,
}
use cloudberry_k8s.Cron.Bytes.{cut}
use cloudberry_k8s.Cron.Schedule.{Parsed, parsed, refused, parse}
use cloudberry_k8s.Webhook.Validation.Errors.{Rule, Warning, Outcome, ◌>>◌, quiet, ◌<|>◌, reject_if}
use cloudberry_k8s.Webhook.Validation.Cluster.{is_one_of}

abbrev pub has_text : String → Bool
has_text s = not (str_eq s "")

abbrev has_secret_name : Option S3CredentialSecret → Bool
has_secret_name none = false
has_secret_name (some s) = has_text s.name

abbrev has_vault_path : Option S3VaultSecret → Bool
has_vault_path none = false
has_vault_path (some v) = has_text v.path

-- `/`
abbrev slash : ℕ
slash = 47

-- Whether the second of the segments of strings.SplitN(path, "/", 3) is "data".
abbrev second_segment_is_data : Option (List ℕ) → Bool
second_segment_is_data none = false
second_segment_is_data (some after) = same (cut slash after).0 (codes "data")

unfoldable pub validate_s3_vault_secret_path : String → List Warning → Outcome
validate_s3_vault_secret_path path warnings =
    if str_eq path ""
    then (warnings, some Rule.vault_path_empty)
    else if has_prefix (codes path) (slash ∷ [])
    then (warnings, some Rule.vault_path_slash)
    else if second_segment_is_data (cut slash (codes path)).1
    then (warnings ++ (Warning.kv2_request_path ∷ []), none)
    else (warnings, none)

abbrev validate_vault_secret : Option S3VaultSecret → List Warning → Outcome
validate_vault_secret none warnings = (warnings, none)
validate_vault_secret (some v) warnings = validate_s3_vault_secret_path v.path warnings

abbrev validate_s3 : Option S3Destination → List Warning → Outcome
validate_s3 none warnings = (warnings, some Rule.s3_bucket)
validate_s3 (some s3) warnings =
    if str_eq s3.bucket ""
    then (warnings, some Rule.s3_bucket)
    else if not (has_secret_name s3.credential_secret) && not (has_vault_path s3.vault_secret)
    then (warnings, some Rule.s3_credentials)
    else validate_vault_secret s3.vault_secret warnings

unfoldable pub validate_backup_destination : BackupDestination → List Warning → Outcome
validate_backup_destination dest warnings =
    if str_eq dest.type ""
    then (warnings, some Rule.destination_type_required)
    else if not (is_one_of dest.type ("s3" ∷ "local" ∷ []))
    then (warnings, some Rule.destination_type)
    else if not (str_eq dest.type "s3")
    then (warnings, none)
    else validate_s3 dest.s3 warnings

abbrev pub is_invalid_level : ℤ → Bool
is_invalid_level level = ltb_ℤ level (pos 1) || ltb_ℤ (pos 9) level

abbrev pub is_compression_type : String → Bool
is_compression_type type = is_one_of type ("" ∷ "gzip" ∷ "zstd" ∷ [])

unfoldable pub validate_backup_gpbackup : Option GpbackupOptions → Option Rule
validate_backup_gpbackup none = none
validate_backup_gpbackup (some gp) =
    reject_if (is_invalid_level gp.compression_level) Rule.compression_level
    <|> reject_if (not (is_compression_type gp.compression_type)) Rule.compression_type
    <|> reject_if (ltb_ℤ (pos 0) gp.copy_queue_size && not gp.single_data_file) Rule.copy_queue_size
    <|> reject_if (ltb_ℤ (pos 1) gp.jobs && gp.single_data_file) Rule.jobs_with_single_file
    <|> reject_if (gp.incremental && not gp.leaf_partition_data) Rule.incremental_leaf_partition

unfoldable pub validate_backup_gprestore : Option GprestoreOptions → Option Rule
validate_backup_gprestore none = none
validate_backup_gprestore (some gr) =
    reject_if (gr.data_only && gr.metadata_only) Rule.data_and_metadata_only

abbrev is_schedule : {A : Type 0} → Parsed A → Bool
is_schedule (refused err) = false
is_schedule (parsed schedule) = true

-- `validateCron`, which is cron.Validate
unfoldable pub is_cron : String → Bool
is_cron expr = is_schedule (parse (codes expr))

-- What follows the check of the destination.
abbrev pub backup_rules : BackupSpec → Option Rule
backup_rules backup =
    validate_backup_gpbackup backup.gpbackup
    <|> validate_backup_gprestore backup.gprestore
    <|> reject_if (has_text backup.schedule && not (is_cron backup.schedule)) Rule.backup_schedule
    <|> reject_if (str_eq backup.image "") Rule.backup_image

unfoldable pub validate_backup : Option BackupSpec → List Warning → Outcome
validate_backup none warnings = (warnings, none)
validate_backup (some backup) warnings =
    if not backup.enabled
    then (warnings, none)
    else validate_backup_destination backup.destination warnings >> quiet (backup_rules backup)
