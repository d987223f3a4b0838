-- ===== src/Config/Promote.antt =====
-- internal/syncthing/offline_pause.go: `promoteConfig` and `restoreBackup`.
use leaf_syncthing_pak.Base.{Bool, true, false, not, ◌&&◌, ◌||◌, if◌then◌else◌}
use leaf_syncthing_pak.Config.Files.{File, Entry, absent, file, is_present, validate_xml}
use leaf_syncthing_pak.Config.Monad.{
  call_failed, stale_temporary, unsafe_backup, rejected_temporary, restored_backup, restore_failed,
  restored_invalid, ok, M, throw, ◌>>=◌, ◌>>◌, require, when, attempt, move, named,
}

-- The calls into the operating system, in program order.
pub data Call : Type 0 where
  lstat_temporary lstat_backup open_temporary write_temporary sync_temporary close_temporary : Call
  read_temporary remove_backup rename_config rename_temporary flush read_config : Call
  remove_temporary remove_config rename_backup flush_restored read_restored : Call

-- Which calls succeed, and what a failed write leaves in the temporary.
pub record Io : Type 0 where
  pub works : Call → Bool
  pub torn : File

abbrev is_regular : Entry → Bool
is_regular (file f) = true
is_regular _ = false

-- `verify(path)` and `ValidateXML(path)` on what stands there.
abbrev passes : (File → Bool) → Entry → Bool
passes verify (file f) = verify f
passes verify _ = false

module _ (io : Io) where
  -- `_ = os.Remove(temporaryPath)`: the error is dropped.
  discard_temporary : M (Unit {0})
  discard_temporary d =
      (ok tt, if io.works remove_temporary then record d { temporary = absent } else d)

  -- Always an error: the one that says what became of the backup.
  unfoldable pub restore_backup : M (Unit {0})
  unfolding discard_temporary
  restore_backup = do
    discard_temporary
    require (io.works remove_config) restore_failed
    attempt true (λ d. record d { config = absent })
    named restore_failed (
        move (io.works rename_backup) (λ d. d.backup)
          (λ d. record d { config = d.backup; backup = absent }))
    require (io.works flush_restored) restore_failed
    valid ← λ d. (ok (io.works read_restored && passes validate_xml d.config), d)
    require valid restored_invalid
    throw restored_backup

  -- What follows the `Lstat` of the backup.
  write_temporary_file : File → M (Unit {0})
  write_temporary_file contents = do
    attempt (io.works open_temporary) (λ d. record d { temporary = file io.torn })
    attempt (io.works write_temporary) (λ d. record d { temporary = file contents })
    require (io.works sync_temporary) call_failed
    require (io.works close_temporary) call_failed

  swap_files : Bool → M (Unit {0})
  swap_files backup_exists = do
    when backup_exists (attempt (io.works remove_backup) (λ d. record d { backup = absent }))
    move (io.works rename_config) (λ d. d.config)
        (λ d. record d { backup = d.config; config = absent })
    move (io.works rename_temporary) (λ d. d.temporary)
        (λ d. record d { config = d.temporary; temporary = absent })
    require (io.works flush) call_failed

  verify_promoted : (File → Bool) → M (Unit {0})
  unfolding restore_backup
  verify_promoted verify d =
      if io.works read_config && passes verify d.config then (ok tt, d) else restore_backup d

  unfoldable pub promote_config : (verify : File → Bool) → File → M (Unit {0})
  unfolding write_temporary_file swap_files verify_promoted
  promote_config verify contents d =
      (do
        require (io.works lstat_temporary) call_failed
        require (not (is_present d.temporary)) stale_temporary
        require (io.works lstat_backup) call_failed
        require (not (is_present d.backup) || is_regular d.backup) unsafe_backup
        write_temporary_file contents
        checked ← λ e. (ok (io.works read_temporary && passes verify e.temporary), e)
        require checked rejected_temporary
        swap_files (is_present d.backup)
        verify_promoted verify)
        d
