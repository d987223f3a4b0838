-- ===== src/Config/Recover/Table.antt =====
-- The state table of `RecoverConfig`, and that the code computes it when no call fails.
use leaf_syncthing_pak.Base.{Bool, true, false, not, ◌&&◌, ◌||◌, ◌≡◌, ◌≤◌, arith, if◌then◌else◌}
use leaf_syncthing_pak.Config.Files.{
  Entry, Dir, absent, irregular, file, is_present, max_config_bytes, validate_xml,
}
use leaf_syncthing_pak.Config.Monad.{Result, ok, err, no_known_good_config}
use leaf_syncthing_pak.Config.Recover.{
  Call, RecoveryResult, ready, factory_clean, recover_ready, recover_backup, recover_clean,
  recover_files,
}

-- A file that `RecoverConfig` can inspect, or none.
abbrev pub IsTame : Entry → Type 0
IsTame absent = Unit
IsTame irregular = ⊥
IsTame (file f) = f.size ≤ max_config_bytes

pub record AllTame (d : Dir) : Type 0 where
  pub config : IsTame d.config
  pub temporary : IsTame d.temporary
  pub backup : IsTame d.backup
  pub certificate : IsTame d.certificate
  pub key : IsTame d.key

abbrev pub is_good : Entry → Bool
is_good (file f) = validate_xml f
is_good _ = false

abbrev pub no_faults : Call → Bool
no_faults _ = true

-- The table: the steady config wins, then the backup, then a start from nothing, which an
-- identity forbids. The temporary never wins.
unfoldable pub settle : Dir → Result RecoveryResult × Dir
settle d =
    if is_good d.config
    then (
      ok (record {
        state = ready;
        changed = is_present d.temporary || (is_present d.backup && not (is_good d.backup));
      }),
      record d { temporary = absent; backup = if is_good d.backup then d.backup else absent },
    )
    else if is_good d.backup
    then (
      ok (record { state = ready; changed = true }),
      record d { config = d.backup; temporary = absent; backup = absent },
    )
    else if is_present d.certificate || is_present d.key
    then (err no_known_good_config, d)
    else (
      ok (record {
        state = factory_clean;
        changed = is_present d.config || (is_present d.temporary || is_present d.backup);
      }),
      record d { config = absent; temporary = absent; backup = absent },
    )

recover_files-settle_at :
    (c t b k l : Entry)
    → IsTame c
    → IsTame t
    → IsTame b
    → IsTame k
    → IsTame l
    → let d : Dir = record { config = c; temporary = t; backup = b; certificate = k; key = l } in
      recover_files no_faults d ≡ settle d
unfolding recover_files recover_ready recover_backup recover_clean settle
recover_files-settle_at irregular t b k l h _ _ _ _ = absurd h
recover_files-settle_at c irregular b k l _ h _ _ _ = absurd h
recover_files-settle_at c t irregular k l _ _ h _ _ = absurd h
recover_files-settle_at c t b irregular l _ _ _ h _ = absurd h
recover_files-settle_at c t b k irregular _ _ _ _ h = absurd h
recover_files-settle_at c t b k l hc ht hb hk hl = ground arith

-- Where no call fails and no file is irregular or oversized, a recovery is the state table.
pub recover_files-settle : (d : Dir) → AllTame d → recover_files no_faults d ≡ settle d
recover_files-settle d h =
    recover_files-settle_at d.config d.temporary d.backup d.certificate d.key h.config h.temporary
      h.backup h.certificate h.key
