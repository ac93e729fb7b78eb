-- ===== src/Webhook/Stability/Backup.antt =====
-- internal/webhook: what the validating webhook says of a defaulted backup spec.
use mathlib.Core.Path.{subst}
use cloudberry_k8s.Base.{
  Bool, true, false, not, ◌&&◌, Option, none, some, List, String, str_eq, ◌≡◌, refl, arith,
  Bool-cases, inl, inr, if◌then◌else◌, if_cases, ◌∙◌,
}
use cloudberry_k8s.Base.Int.{ℤ, pos, ltb_ℤ}
use cloudberry_k8s.Api.Backup.{GpbackupOptions, GprestoreOptions, BackupSpec}
use cloudberry_k8s.Webhook.Defaults.Fields.{
  text_or, is_zero, int_or, pointer_or, map_pointer, text_or-apply, int_or-apply,
}
use cloudberry_k8s.Webhook.Defaults.Backup.{
  set_gpbackup_defaults, set_gprestore_defaults, set_backup_defaults,
}
use cloudberry_k8s.Webhook.Validation.Errors.{
  Rule, Warning, ◌>>◌, quiet, ◌<|>◌, reject_if, both_none, Agrees, >>-Agrees, quiet-Agrees,
}
use cloudberry_k8s.Webhook.Validation.Backup.{
  backup_rules, is_invalid_level, is_compression_type, has_text, validate_backup_destination,
  validate_backup_gpbackup, validate_backup_gprestore, is_cron, validate_backup,
}

pub text_or-set :
    (default field : String) → str_eq default "" ≡ false → str_eq (text_or default field) "" ≡ false
unfolding text_or
text_or-set default field h =
    if_cases (λ s. str_eq s "" ≡ false) (str_eq field "") default field (λ e. h) (λ e. e)

int_or-keep :
    (test : ℤ → Bool) (default field : ℤ)
    → test default ≡ false
    → test field ≡ false
    → test (int_or default field) ≡ false
unfolding int_or
int_or-keep test default field hd hf =
    if_cases (λ n. test n ≡ false) (is_zero field) default field (λ e. hd) (λ e. hf)

validate_backup_gpbackup_lem :
    (gp : Option GpbackupOptions)
    → validate_backup_gpbackup gp ≡ none
    → validate_backup_gpbackup (some (set_gpbackup_defaults gp)) ≡ none
unfolding validate_backup_gpbackup set_gpbackup_defaults pointer_or
validate_backup_gpbackup_lem none h = unfold int_or text_or in refl
validate_backup_gpbackup_lem (some gp) h =
    let level : is_invalid_level gp.compression_level ≡ false = ground (arith, h) in
    let kept = int_or-keep is_invalid_level (pos 1) gp.compression_level refl level in
    let types = text_or-apply is_compression_type "gzip" gp.compression_type refl in
    let jobs = int_or-apply (ltb_ℤ (pos 1)) (pos 1) gp.jobs refl in cc (kept, types, jobs, level, h)

validate_backup_gprestore_lem :
    (gr : Option GprestoreOptions)
    → validate_backup_gprestore (some (set_gprestore_defaults gr)) ≡ validate_backup_gprestore gr
unfolding validate_backup_gprestore set_gprestore_defaults pointer_or
validate_backup_gprestore_lem none = refl
validate_backup_gprestore_lem (some gr) = refl

backup_rules_lem :
    (b : BackupSpec)
    → b.enabled ≡ true
    → backup_rules b ≡ none
    → backup_rules (set_backup_defaults b) ≡ none
unfolding set_backup_defaults
backup_rules_lem b e h =
    let options = validate_backup_gpbackup b.gpbackup <|> validate_backup_gprestore b.gprestore in
    let schedule =
      reject_if (has_text b.schedule && not (is_cron b.schedule)) Rule.backup_schedule in
    let all =
      both_none (options <|> schedule) (reject_if (str_eq b.image "") Rule.backup_image) h in
    let first = both_none options schedule (all.0) in
    let each =
      both_none (validate_backup_gpbackup b.gpbackup) (validate_backup_gprestore b.gprestore)
        (first.0) in
    simp (
      e,
      validate_backup_gpbackup_lem b.gpbackup (each.0),
      validate_backup_gprestore_lem b.gprestore,
      each.1,
      first.1,
      text_or-set "cloudberry-backup:2.1.0" b.image refl,
    )

set_backup_defaults-enabled : (b : BackupSpec) → (set_backup_defaults b).enabled ≡ b.enabled
unfolding set_backup_defaults
set_backup_defaults-enabled b = elim (Bool-cases b.enabled) [ inl e ↦ simp (e) | inr e ↦ simp (e) ]

set_backup_defaults-destination :
    (b : BackupSpec) → (set_backup_defaults b).destination ≡ b.destination
unfolding set_backup_defaults
set_backup_defaults-destination b = elim (Bool-cases b.enabled) [
  | inl e ↦ simp (e)
  | inr e ↦ simp (e)
]

-- A backup spec without an error has none after it is defaulted, and the same warnings.
pub validate_backup_lem :
    (b : Option BackupSpec) (w : List Warning)
    → Agrees (validate_backup b w) (validate_backup (map_pointer set_backup_defaults b) w)
unfolding validate_backup map_pointer
validate_backup_lem none w v h = h
validate_backup_lem (some b) w v h =
    let o = validate_backup_destination b.destination w in
    let opened = λ (test : Bool) (e : b.enabled ≡ test).
      subst (λ x. (if not x then (w, none) else o >> quiet (backup_rules b)) ≡ (v, none)) e h in
    let kept = set_backup_defaults-enabled b in
    let rules = backup_rules (set_backup_defaults b) in
    elim (Bool-cases b.enabled) [
      | inl e ↦
          rw (kept ∙ e, set_backup_defaults-destination b)
            (>>-Agrees o o (quiet (backup_rules b)) (quiet rules) (λ u same. same)
              (λ u. quiet-Agrees (backup_rules b) rules u (backup_rules_lem b e)) v (opened true e))
      | inr e ↦ rw (kept ∙ e) (opened false e)
    ]
