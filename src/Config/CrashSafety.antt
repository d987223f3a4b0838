-- ===== src/Config/CrashSafety.antt =====
-- `promoteConfig` against interruption and failure, and `RecoverConfig` after either.
use leaf_syncthing_pak.Base.{Bool, true, false, ◌≡◌, ◌≤◌, ◌⊎◌, arith}
use leaf_syncthing_pak.Config.Files.{File, Entry, Dir, absent, file, max_config_bytes, validate_xml}
use leaf_syncthing_pak.Config.Monad.{Result, ok, err}
use leaf_syncthing_pak.Config.Promote.{Io, promote_config}
use leaf_syncthing_pak.Config.Recover.{RecoveryResult, ready, factory_clean, recover_files}
use leaf_syncthing_pak.Config.Recover.Table.{
  IsTame, AllTame, no_faults, settle, recover_files-settle,
}

-- The states in which a promotion of `new` over `old` can be left: before the renames, between
-- them, or after them.
abbrev pub Midway : (File → Bool) → File → File → Dir → Type 0
Midway verify old new d =
    (d.config ≡ file old)
    ⊎ ((d.config ≡ absent) × (d.backup ≡ file old))
    ⊎ ((d.config ≡ file new) × (verify new ≡ true))

abbrev pub IsEither : (File → Bool) → File → File → Entry → Type 0
IsEither verify old new e = (e ≡ file old) ⊎ ((e ≡ file new) × (verify new ≡ true))

-- What is supposed of the directory and the files before a promotion of `new` over `old`: the
-- committed configuration is valid, and `RecoverConfig` can inspect all that is there or may come.
pub record Before (io : Io) (old new : File) (d : Dir) : Type 0 where
  pub committed : d.config ≡ file old
  pub old_valid : validate_xml old ≡ true
  pub tame : AllTame d
  pub new_size : new.size ≤ max_config_bytes
  pub torn_size : io.torn.size ≤ max_config_bytes

module _ (io : Io) (verify : File → Bool) (old new : File) (d : Dir) (h : Before io old new d) where
  promote_config-Midway : Midway verify old new (promote_config io verify new d).1
  unfolding promote_config
  promote_config-Midway = ground arith

  config-IsTame : IsTame (promote_config io verify new d).1.config
  unfolding promote_config
  config-IsTame = ground arith

  temporary-IsTame : IsTame (promote_config io verify new d).1.temporary
  unfolding promote_config
  temporary-IsTame = ground arith

  backup-IsTame : IsTame (promote_config io verify new d).1.backup
  unfolding promote_config
  backup-IsTame = ground arith

  promote_config-certificate : (promote_config io verify new d).1.certificate ≡ d.certificate
  unfolding promote_config
  promote_config-certificate = ground arith

  promote_config-key : (promote_config io verify new d).1.key ≡ d.key
  unfolding promote_config
  promote_config-key = ground arith

  promote_config-AllTame : AllTame (promote_config io verify new d).1
  promote_config-AllTame = record {
    config = config-IsTame;
    temporary = temporary-IsTame;
    backup = backup-IsTame;
    certificate = rw promote_config-certificate h.tame.certificate;
    key = rw promote_config-key h.tame.key;
  }

-- The result says that a configuration is ready for use.
abbrev pub is_ready : Result RecoveryResult → Bool
is_ready (ok r) = elim r.state [ ready ↦ true | factory_clean ↦ false ]
is_ready (err e) = false

settle-Midway :
    (verify : File → Bool) (old new : File) (d : Dir)
    → validate_xml old ≡ true
    → (verify new ≡ true → validate_xml new ≡ true)
    → Midway verify old new d
    → (is_ready (settle d).0 ≡ true)
      × IsEither verify old new (settle d).1.config
      × ((settle d).1.temporary ≡ absent)
unfolding settle
settle-Midway verify old new d v w m = (ground arith, ground arith, ground arith)

-- Whatever calls fail while a new configuration is promoted over a valid one, wherever that leaves
-- the directory, a recovery in which no call fails ends ready, with the old configuration or with
-- the new one if that passed its verification, and with no temporary. It is supposed that the
-- files are of bounded size and regular, and that what passes the verification is valid.
pub promote_config-recover_files :
    (io : Io) (verify : File → Bool) (old new : File) (d : Dir)
    → Before io old new d
    → (verify new ≡ true → validate_xml new ≡ true)
    → let (r, e) = recover_files no_faults (promote_config io verify new d).1 in
      (is_ready r ≡ true) × IsEither verify old new e.config × (e.temporary ≡ absent)
promote_config-recover_files io verify old new d h w =
    rw (recover_files-settle _ (promote_config-AllTame io verify old new d h))
      (settle-Midway verify old new _ h.old_valid w (promote_config-Midway io verify old new d h))

-- A promotion that reports success has put the new, verified configuration in place, kept the old
-- one as the backup, and left no temporary.
pub promote_config-ok :
    (io : Io) (verify : File → Bool) (new : File) (d : Dir)
    → (promote_config io verify new d).0 ≡ ok tt
    → ((promote_config io verify new d).1
        ≡ record d { config = file new; backup = d.config; temporary = absent })
      × (verify new ≡ true)
unfolding promote_config
promote_config-ok io verify new d h = (ground arith, ground arith)
