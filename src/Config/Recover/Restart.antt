-- ===== src/Config/Recover/Restart.antt =====
-- Interrupted recoveries: what `RecoverConfig` leaves when a call fails is no worse than before.
use leaf_syncthing_pak.Base.{Bool, true, false, ◌&&◌, ◌≡◌, ◌≤◌, refl, ◌⊎◌, inl, inr, arith}
use leaf_syncthing_pak.Config.Files.{
  File, max_config_bytes, validate_xml, Inspected, Entry, Dir, absent, irregular, file, is_present,
}
use leaf_syncthing_pak.Config.Monad.{ok, err, Err}
use leaf_syncthing_pak.Config.Recover.{
  Call, inspect_xml, identity_at, recover_ready, recover_backup, recover_clean, recover_files,
  lstat_certificate, lstat_key, lstat_config, lstat_temporary, lstat_backup, read_config,
  read_temporary, read_backup,
}
use leaf_syncthing_pak.Config.Recover.Table.{
  IsTame, AllTame, is_good, no_faults, settle, recover_files-settle,
}

-- What an inspection that succeeds finds.
abbrev found : Entry → Inspected
found e = record { exists = is_present e; valid = is_good e }

inspect_xml-tame :
    (w r : Bool) (e : Entry)
    → IsTame e
    → ((x : Err) × (inspect_xml w r e ≡ err x))
      ⊎ (inspect_xml w r e ≡ ok (record { exists = is_present e; valid = r && is_good e }))
unfolding inspect_xml
inspect_xml-tame w r absent h = inr (ground arith)
inspect_xml-tame w r irregular h = absurd h
inspect_xml-tame false r (file f) h = inl (Err.call_failed, refl)
inspect_xml-tame true r (file f) h = inr (ground arith)

identity_at-tame :
    (w : Bool) (e : Entry)
    → IsTame e
    → ((x : Err) × (identity_at w e ≡ err x)) ⊎ (identity_at w e ≡ ok (is_present e))
unfolding identity_at
identity_at-tame w absent h = inr refl
identity_at-tame w irregular h = absurd h
identity_at-tame false (file f) h = inl (Err.call_failed, refl)
identity_at-tame true (file f) h = inr refl

-- `e` is as good as `d` for a recovery to come.
abbrev Near : Dir → Dir → Type 0
Near d e = AllTame e × ((settle e).1 ≡ (settle d).1)

module _ (works : Call → Bool) (d : Dir) (h : AllTame d) where
  Near-recover_ready :
      (valid : Bool)
      → is_good d.config ≡ true
      → Near d
          (recover_ready works
            (record { exists = is_present d.temporary; valid = valid })
            (found d.backup)
            d).1
  unfolding recover_ready settle
  Near-recover_ready valid g = (ground arith, ground arith)

  Near-recover_backup :
      (valid : Bool)
      → is_good d.config ≡ false
      → is_good d.backup ≡ true
      → Near d
          (recover_backup works
            (found d.config)
            (record { exists = is_present d.temporary; valid = valid })
            d).1
  unfolding recover_backup settle
  Near-recover_backup valid g b = (ground arith, ground arith)

  Near-recover_clean :
      (valid : Bool)
      → is_good d.config ≡ false
      → is_good d.backup ≡ false
      → Near d
          (recover_clean works
            (found d.config)
            (record { exists = is_present d.temporary; valid = valid })
            (found d.backup)
            d).1
  unfolding recover_clean settle
  Near-recover_clean valid g b = (
    ground (
      arith,
      identity_at-tame (works lstat_certificate) d.certificate h.certificate,
      identity_at-tame (works lstat_key) d.key h.key,
    ),
    ground (
      arith,
      identity_at-tame (works lstat_certificate) d.certificate h.certificate,
      identity_at-tame (works lstat_key) d.key h.key,
    ),
  )

  Near-recover_files :
      works read_config ≡ true → works read_backup ≡ true → Near d (recover_files works d).1
  unfolding recover_files
  Near-recover_files read_c read_b =
      let valid = works read_temporary && is_good d.temporary in
      ground (
        arith,
        inspect_xml-tame (works lstat_config) (works read_config) d.config h.config,
        inspect_xml-tame (works lstat_temporary) (works read_temporary) d.temporary h.temporary,
        inspect_xml-tame (works lstat_backup) (works read_backup) d.backup h.backup,
        Near-recover_ready valid,
        Near-recover_backup valid,
        Near-recover_clean valid,
      )

-- Recovery can itself be interrupted: whatever calls fail in it, except for the reads of the
-- configuration and its backup, a second recovery in which none fails leaves the directory that an
-- undisturbed recovery leaves, where no file of the directory is irregular or oversized.
pub recover_files_restarts :
    (works : Call → Bool) (d : Dir)
    → works read_config ≡ true
    → works read_backup ≡ true
    → AllTame d
    → (recover_files no_faults (recover_files works d).1).1 ≡ (recover_files no_faults d).1
recover_files_restarts works d c b h =
    let (tame, same) = Near-recover_files works d h c b in
    rw (recover_files-settle _ tame, recover_files-settle d h) same

-- A failed read of the configuration.
abbrev unreadable_config : Call → Bool
unreadable_config read_config = false
unreadable_config _ = true

-- A valid configuration that cannot be read is taken for an invalid one: it is lost to the backup.
lost_configuration :
    (f g : File) (certificate key : Entry)
    → f.size ≤ max_config_bytes
    → g.size ≤ max_config_bytes
    → validate_xml g ≡ true
    → (recover_files unreadable_config (record {
      config = file f;
      temporary = absent;
      backup = file g;
      certificate = certificate;
      key = key;
    })).1
      ≡ (record {
        config = file g;
        temporary = absent;
        backup = absent;
        certificate = certificate;
        key = key;
      })
unfolding recover_files recover_backup inspect_xml
lost_configuration f g certificate key a b v = ground arith
