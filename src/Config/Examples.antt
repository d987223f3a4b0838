-- ===== src/Config/Examples.antt =====
-- The configuration theorems at concrete directories, and runs of the code.
use leaf_syncthing_pak.Base.{Bool, true, false, ◌≡◌, refl, arith, [], ◌∷◌, codes}
use leaf_syncthing_pak.Config.Files.{File, Dir, absent, file, start, end, validate_xml}
use leaf_syncthing_pak.Config.Monad.{ok}
use leaf_syncthing_pak.Config.Promote
use leaf_syncthing_pak.Config.Promote.{Io, promote_config, restore_backup}
use leaf_syncthing_pak.Config.Recover
use leaf_syncthing_pak.Config.Recover.{
  recover_files, recover_config, real_directory, missing, factory_clean,
}
use leaf_syncthing_pak.Config.Recover.Table.{AllTame, no_faults, settle, recover_files-settle}
use leaf_syncthing_pak.Config.Recover.Restart.{recover_files_restarts}
use leaf_syncthing_pak.Config.CrashSafety.{
  Before, IsEither, is_ready, promote_config-recover_files, promote_config-ok,
}

abbrev old_file : File
old_file = record {
  size = 40;
  tokens = start (codes "configuration") [] ∷ end (codes "configuration") ∷ [];
}

abbrev new_file : File
new_file = record {
  size = 60;
  tokens =
      start (codes "configuration") []
      ∷ start (codes "folder") []
      ∷ end (codes "folder")
      ∷ end (codes "configuration")
      ∷ [];
}

abbrev torn_file : File
torn_file = record { size = 20; tokens = start (codes "configuration") [] ∷ [] }

abbrev steady : Dir
steady = record {
  config = file old_file;
  temporary = absent;
  backup = file torn_file;
  certificate = file old_file;
  key = file old_file;
}

-- A power cut between the two renames.
abbrev cut_works : Promote.Call → Bool
cut_works Promote.rename_temporary = false
cut_works _ = true

abbrev cut_io : Io
cut_io = record { works = cut_works; torn = torn_file }

abbrev good_io : Io
good_io = record { works = λ _. true; torn = torn_file }

old_file_valid : validate_xml old_file ≡ true
unfolding validate_xml
old_file_valid = refl

steady_tame : AllTame steady
steady_tame = record {
  config = omega arith;
  temporary = tt;
  backup = omega arith;
  certificate = omega arith;
  key = omega arith;
}

steady-Before : Before cut_io old_file new_file steady
steady-Before = record {
  committed = refl;
  old_valid = old_file_valid;
  tame = steady_tame;
  new_size = omega arith;
  torn_size = omega arith;
}

promote_config-recover_files_example :
    let (r, e) = recover_files no_faults (promote_config cut_io validate_xml new_file steady).1 in
    (is_ready r ≡ true) × IsEither validate_xml old_file new_file e.config × (e.temporary ≡ absent)
promote_config-recover_files_example =
    promote_config-recover_files cut_io validate_xml old_file new_file steady steady-Before (λ v. v)

good_promotion : (promote_config good_io validate_xml new_file steady).0 ≡ ok tt
unfolding promote_config validate_xml
good_promotion = refl

promote_config-ok_example :
    ((promote_config good_io validate_xml new_file steady).1
      ≡ record steady { config = file new_file; backup = file old_file; temporary = absent })
    × (validate_xml new_file ≡ true)
promote_config-ok_example = promote_config-ok good_io validate_xml new_file steady good_promotion

-- A backup to restore from, a bad config and a left-over temporary.
abbrev damaged : Dir
damaged = record {
  config = file torn_file;
  temporary = file new_file;
  backup = file old_file;
  certificate = file old_file;
  key = file old_file;
}

damaged_tame : AllTame damaged
damaged_tame = record {
  config = omega arith;
  temporary = omega arith;
  backup = omega arith;
  certificate = omega arith;
  key = omega arith;
}

-- A power cut before the backup is renamed.
abbrev cut_recovery : Recover.Call → Bool
cut_recovery Recover.rename_backup = false
cut_recovery _ = true

recover_files-settle_example : recover_files no_faults damaged ≡ settle damaged
recover_files-settle_example = recover_files-settle damaged damaged_tame

recover_files_restarts_example :
    (recover_files no_faults (recover_files cut_recovery damaged).1).1
    ≡ (recover_files no_faults damaged).1
recover_files_restarts_example = recover_files_restarts cut_recovery damaged refl refl damaged_tame

missing_directory :
    recover_config no_faults real_directory missing steady
    ≡ (ok (record { state = factory_clean; changed = false }), steady)
unfolding recover_config
missing_directory = refl
