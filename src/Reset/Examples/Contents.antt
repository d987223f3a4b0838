-- ===== src/Reset/Examples/Contents.antt =====
-- Resets of a device whose source has saves, states and roms.
use leaf_syncthing_pak.Base.{
  true, ◌||◌, ◌==◌, ◌≡◌, refl, if◌then◌else◌, Option, none, some, [], ◌∷◌, ◌++◌, Text, codes,
  text_eq, lookup, insert,
}
use leaf_syncthing_pak.Reset.Documents.{
  Config, Filepath, is_some, is_hex_id, version_tail, after_prefix, index_directory,
  relative_within, reset_path_within, live_content_path, index_paths, exact_reset_paths,
  source_filesystems, allowed_filesystems, valid_root, valid_roots, valid_retained,
  valid_reset_document,
}
use leaf_syncthing_pak.Reset.Examples.{plain_paths, index_reset, device}

-- What is left of a path after one that is it or a directory above it.
abbrev left_of : Option Text → Option Text
left_of none = none
left_of (some []) = some (codes ".")
left_of (some (c ∷ cs)) = if c == b'/' then some (codes "./" ++ cs) else none

abbrev dotted_paths : Filepath
dotted_paths = record plain_paths { rel = λ root target. left_of (after_prefix root target) }

-- The test of `relative_within` on what is left of a path.
abbrev checked : Option Text → Option Text
unfolding text_eq after_prefix
checked r = elim r [
  | none ↦ none
  | some path ↦
      if text_eq path (codes "..")
        || is_some (after_prefix (codes "../") path)
        || dotted_paths.is_abs path
      then none
      else some path
]

abbrev device_with : (saves : Text) → Config
device_with saves = record device {
  sources =
      record {
        id = codes "card";
        primary = true;
        root = codes "/u";
        roms_path = codes "/u/Roms";
        userdata_path = codes "/u";
        saves_path = saves;
        states_path = codes "/u/States";
      }
      ∷ [];
}

-- Saves that stand below an index directory are no reason to refuse its reset.
saves_below_index :
    valid_reset_document dotted_paths (device_with (codes "/u/d/index-v1.db/saves")) index_reset
    ≡ true
unfolding valid_reset_document is_hex_id exact_reset_paths index_paths index_directory after_prefix
    version_tail allowed_filesystems source_filesystems valid_roots valid_root valid_retained
    reset_path_within relative_within live_content_path text_eq lookup insert
saves_below_index = refl
