-- ===== src/Config/Recover.antt =====
-- internal/syncthing/config_recovery.go: `RecoverConfig`, its inspection of the files, and the
-- directory checks before it.
pub mod Table
pub mod Restart
use leaf_syncthing_pak.Base.{
  Bool, true, false, not, ◌&&◌, ◌||◌, Option, some, none, leb, if◌then◌else◌,
}
use leaf_syncthing_pak.Config.Files.{
  File, Entry, Dir, Inspected, absent, irregular, file, is_present, max_config_bytes, validate_xml,
}
use leaf_syncthing_pak.Config.Monad.{
  Err, call_failed, unsafe_file, unsafe_directory, oversized, restored_invalid,
  no_known_good_config, Result, ok, err, M, pass, throw, ◌>>=◌, ◌>>◌, require, when, branch,
  attempt, move,
}

pub data RecoveryState : Type 0 where
  ready : RecoveryState
  factory_clean : RecoveryState

pub record RecoveryResult : Type 0 where
  pub state : RecoveryState
  pub changed : Bool

pub data Call : Type 0 where
  lstat_directory lstat_parent lstat_config lstat_temporary lstat_backup : Call
  lstat_certificate lstat_key remove_temporary remove_backup remove_config : Call
  rename_backup flush lstat_restored : Call
  read_config read_temporary read_backup read_restored : Call

-- `inspectXML`: absent is no error; whatever is not a regular file of bounded size is one. `works`
-- says whether its own call succeeds, and `readable` whether those of `ValidateXML` do (a second
-- `Lstat`, the opening, `Stat` and the reads): where one fails, the file counts as invalid.
inspect_xml : (works readable : Bool) → Entry → Result Inspected
inspect_xml works readable absent = ok (record { exists = false; valid = false })
inspect_xml false readable e = err call_failed
inspect_xml true readable irregular = err unsafe_file
inspect_xml true readable (file f) =
    if leb f.size max_config_bytes
    then ok (record { exists = true; valid = readable && validate_xml f })
    else err oversized

-- One round of the loop of `hasAnyIdentity`.
identity_at : Bool → Entry → Result Bool
identity_at works absent = ok false
identity_at false e = err call_failed
identity_at true irregular = err unsafe_file
identity_at true (file f) = ok true

-- What `Lstat` of the configuration directory, and of its parent, may find.
pub data Place : Type 0 where
  missing : Place
  real_directory : Place
  elsewhere : Place

module _ (works : Call → Bool) where
  inspect : (call reading : Call) → (Dir → Entry) → M Inspected
  unfolding inspect_xml
  inspect call reading entry d = (inspect_xml (works call) (works reading) (entry d), d)

  has_any_identity : M Bool
  unfolding identity_at
  has_any_identity = do
    certificate ← λ d. (identity_at (works lstat_certificate) d.certificate, d)
    key ← λ d. (identity_at (works lstat_key) d.key, d)
    pass (certificate || key)

  discard_temporary : M (Unit {0})
  discard_temporary = attempt (works remove_temporary) (λ d. record d { temporary = absent })

  discard_backup : M (Unit {0})
  discard_backup = attempt (works remove_backup) (λ d. record d { backup = absent })

  discard_config : M (Unit {0})
  discard_config = attempt (works remove_config) (λ d. record d { config = absent })

  -- The branch of a valid config.xml.
  recover_ready : Inspected → Inspected → M RecoveryResult
  unfolding discard_temporary discard_backup
  recover_ready temporary backup = do
    let bad_backup = backup.exists && not backup.valid
    let changed = temporary.exists || bad_backup
    when temporary.exists discard_temporary
    when bad_backup discard_backup
    when changed (require (works flush) call_failed)
    pass (record { state = ready; changed = changed })

  -- The branch of a valid backup.
  recover_backup : Inspected → Inspected → M RecoveryResult
  unfolding discard_config discard_temporary inspect
  recover_backup config temporary = do
    when config.exists discard_config
    when temporary.exists discard_temporary
    move (works rename_backup) (λ d. d.backup)
        (λ d. record d { config = d.backup; backup = absent })
    require (works flush) call_failed
    restored ← inspect lstat_restored read_restored (λ d. d.config)
    require restored.valid restored_invalid
    pass (record { state = ready; changed = true })

  -- The branch of no known-good file.
  recover_clean : Inspected → Inspected → Inspected → M RecoveryResult
  unfolding has_any_identity discard_config discard_temporary discard_backup
  recover_clean config temporary backup = do
    identity_exists ← has_any_identity
    require (not identity_exists) no_known_good_config
    let changed = config.exists || (temporary.exists || backup.exists)
    when config.exists discard_config
    when temporary.exists discard_temporary
    when backup.exists discard_backup
    when changed (require (works flush) call_failed)
    pass (record { state = factory_clean; changed = changed })

  pub recover_files : M RecoveryResult
  unfolding inspect
  recover_files = do
    config ← inspect lstat_config read_config (λ d. d.config)
    temporary ← inspect lstat_temporary read_temporary (λ d. d.temporary)
    backup ← inspect lstat_backup read_backup (λ d. d.backup)
    branch config.valid (recover_ready temporary backup) (
        branch backup.valid (recover_backup config temporary)
          (recover_clean config temporary backup))

  -- `requireRealDirectory`.
  require_real_directory : Call → Place → M (Unit {0})
  require_real_directory call missing = throw call_failed
  require_real_directory call real_directory = require (works call) call_failed
  require_real_directory call elsewhere = throw unsafe_directory

  unfoldable pub recover_config : (parent directory : Place) → M RecoveryResult
  unfolding require_real_directory
  recover_config parent missing = do
    require_real_directory lstat_parent parent
    pass (record { state = factory_clean; changed = false })
  recover_config parent real_directory = do
    require (works lstat_directory) call_failed
    recover_files
  recover_config parent elsewhere = throw unsafe_directory
