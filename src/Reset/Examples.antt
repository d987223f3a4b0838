-- ===== src/Reset/Examples.antt =====
-- Runs of a reset of two index directories.
use leaf_syncthing_pak.Base.{
  if◌then◌else◌, Bool, true, false, not, ◌&&◌, ◌==◌, ◌≡◌, refl, ◌⊎◌, some, List, [], ◌∷◌, ◌++◌, any,
  All, member, Text, codes, text_eq, lookup, insert, sort, text_lt, place, pos,
}
use leaf_syncthing_pak.FirstSync.Documents.{absent}
use leaf_syncthing_pak.Reset.Documents.{
  ResetRoot, ResetDocument, Config, Filepath, index_only, is_hex_id, version_tail, after_prefix,
  index_directory, relative_within, reset_path_within, live_content_path, index_paths,
  exact_reset_paths, source_filesystems, allowed_filesystems, valid_root, valid_roots,
  valid_retained, valid_reset_document, verify_required_cards,
}
use leaf_syncthing_pak.Reset.Run.{
  World, restart, sync_intent, sync_root, remove_root, Calls, ◌>>◌, sync_filesystem, change_intent,
  remove_declared_path, write_intent, remove_roots, sync_all, roots_gone, filesystems_of,
  unique_filesystems, have_intent, remove_all, clear_intent, run_reset_intent, recover_reset,
}
use leaf_syncthing_pak.Reset.Steps.{Kept, Gone}
use leaf_syncthing_pak.Reset.Safe.{Safe}
use leaf_syncthing_pak.Reset.Recovered.{
  Finished, run_reset_intent-Safe, interrupted_reset-recovered,
}
mod Contents

-- Clean absolute paths.
abbrev pub last_part : Text → Text → Text
last_part part [] = part
last_part part (c ∷ cs) = elim (c == b'/') [
  | true ↦ last_part [] cs
  | false ↦ last_part (part ++ c ∷ []) cs
]

abbrev pub directory_of : Text → Text
directory_of [] = []
directory_of (c ∷ cs) =
    let rest = directory_of cs in
    if c == b'/' && not (any (λ x. x == b'/') cs) then [] else c ∷ rest

abbrev pub joined : List Text → Text
joined [] = []
joined (p ∷ []) = p
joined (p ∷ q ∷ ps) = p ++ codes "/" ++ joined (q ∷ ps)

abbrev pub starts_at_root : Text → Bool
starts_at_root [] = false
starts_at_root (c ∷ cs) = c == b'/'

abbrev pub plain_paths : Filepath
plain_paths = record {
  clean = λ p. p;
  base = last_part [];
  dir = directory_of;
  join = joined;
  rel = λ root target. after_prefix (root ++ codes "/") target;
  is_abs = starts_at_root;
}

abbrev pub index_root : Text → ResetRoot
index_root name = record {
  path = codes "/u/d/" ++ name;
  filesystem_root = codes "/u";
  description = codes "index";
}

abbrev pub index_reset : ResetDocument
index_reset = record {
  schema = pos 1;
  action_id = codes "00000000000000000000000000000000";
  action = index_only;
  roots = index_root (codes "index-v1.db") ∷ index_root (codes "index-v2.db") ∷ [];
  required_cards = [];
  retained = [];
}

abbrev pub device : Config
device = record {
  userdata_path = codes "/u";
  config_dir = codes "/u/c";
  data_dir = codes "/u/d";
  sources = [];
}

abbrev intent_file : Text
intent_file = codes "/u/intent"

abbrev one_disk : Text → Text → Bool
one_disk filesystem path = true

abbrev two_indexes : World
two_indexes = record {
  present = λ p. member p (codes "/u/d/index-v1.db" ∷ codes "/u/d/index-v2.db" ∷ []);
  durable = λ p. member p (codes "/u/d/index-v1.db" ∷ codes "/u/d/index-v2.db" ∷ []);
  intent = absent;
  durable_intent = absent;
}

abbrev all_work : Calls
all_work = record { works = λ p. true; early = λ p. false }

-- Power is lost before the flush of the disk.
abbrev no_flush : Calls
no_flush = record { works = λ p. elim p [ sync_root f ↦ false | _ ↦ true ]; early = λ p. false }

index_reset_valid : valid_reset_document plain_paths device index_reset ≡ true
unfolding valid_reset_document is_hex_id exact_reset_paths index_paths index_directory after_prefix
    version_tail allowed_filesystems source_filesystems valid_roots valid_root valid_retained
    reset_path_within relative_within live_content_path text_eq lookup insert
index_reset_valid = refl

run_reset_intent-Safe_example :
    Safe two_indexes index_reset
      (run_reset_intent plain_paths one_disk no_flush intent_file device [] index_reset
        two_indexes).0
    × (((run_reset_intent plain_paths one_disk no_flush intent_file device [] index_reset
            two_indexes).1
          ≡ false)
        ⊎ Finished index_reset
            (run_reset_intent plain_paths one_disk no_flush intent_file device [] index_reset
              two_indexes).0)
run_reset_intent-Safe_example =
    run_reset_intent-Safe plain_paths one_disk intent_file device index_reset refl refl
      (refl, (refl, tt)) no_flush [] two_indexes refl refl

no_cards : verify_required_cards plain_paths [] [] ≡ true
unfolding verify_required_cards
no_cards = refl

interrupted_reset-recovered_example :
    (after : World) × (pending : Bool) × (recover_reset plain_paths one_disk all_work intent_file
        device true
        (some [])
        (restart
          (run_reset_intent plain_paths one_disk no_flush intent_file device [] index_reset
            two_indexes).0)
      ≡ ((after, true), pending))
    × (after.intent ≡ absent)
    × (after.durable_intent ≡ absent)
    × (Gone index_reset after ⊎ Kept two_indexes after)
interrupted_reset-recovered_example =
    interrupted_reset-recovered plain_paths one_disk intent_file device index_reset refl refl
      (refl, (refl, tt)) no_flush all_work [] [] two_indexes refl refl (λ p. refl) index_reset_valid
      no_cards

-- The flush of a new intent fails and the reset is run again: the roots are removed while no intent
-- is stored. `partial` is what a loss of power before the flush leaves then: one root, and no intent.
abbrev no_intent_flush : Calls
no_intent_flush = record {
  works = λ p. elim p [ sync_intent ↦ false | _ ↦ true ];
  early = λ p. false;
}

abbrev one_early : Calls
one_early = record {
  works = λ p. elim p [ sync_root f ↦ false | _ ↦ true ];
  early = λ p. elim p [ remove_root n ↦ n == 0 | _ ↦ false ];
}

abbrev partial : World → Bool × Bool × Bool
partial w = (
  w.durable (codes "/u/d/index-v1.db"),
  w.durable (codes "/u/d/index-v2.db"),
  elim w.durable_intent [ absent ↦ false | _ ↦ true ],
)

unsynced_intent :
    partial
      (run_reset_intent plain_paths one_disk one_early intent_file device [] index_reset
        (run_reset_intent plain_paths one_disk no_intent_flush intent_file device [] index_reset
          two_indexes).0).0
    ≡ (false, true, false)
unfolding run_reset_intent have_intent write_intent remove_all clear_intent ◌>>◌ remove_roots
    remove_declared_path sync_all sync_filesystem change_intent roots_gone unique_filesystems
    filesystems_of sort place valid_reset_document verify_required_cards is_hex_id exact_reset_paths
    index_paths index_directory after_prefix version_tail allowed_filesystems source_filesystems
    valid_roots valid_root valid_retained reset_path_within relative_within live_content_path
    text_eq text_lt lookup insert
unsynced_intent = refl
