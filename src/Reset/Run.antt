-- ===== src/Reset/Run.antt =====
-- internal/controller/reset.go, `runResetIntent`, `writeResetDocument` and `RecoverReset` on the paths
-- that a reset removes and on its intent. A call that fails ends the run, and so does a crash.
use leaf_syncthing_pak.Base.{
  ℕ, suc, Bool, true, false, not, ◌&&◌, Option, none, some, List, [], ◌∷◌, all, member, sort,
  if◌then◌else◌, Text, text_eq,
}
use leaf_syncthing_pak.Folders.Types.{Card}
use leaf_syncthing_pak.FirstSync.Documents.{Document, absent, unreadable, document}
use leaf_syncthing_pak.Reset.Documents.{
  ResetRoot, ResetDocument, Config, Filepath, valid_reset_document, verify_required_cards,
}

-- What stands at a path now and after a loss of power, and the same of the intent. Of a directory
-- that was removed in part something still stands there.
pub record World : Type 0 where
  pub present : Text → Bool
  pub durable : Text → Bool
  pub intent : Document ResetDocument
  pub durable_intent : Document ResetDocument

-- A loss of power, and the start after it.
abbrev pub restart : World → World
restart w = record {
  present = w.durable;
  durable = w.durable;
  intent = w.durable_intent;
  durable_intent = w.durable_intent;
}

-- The calls, in program order; those that end in `_point` are the fault points.
pub data Point : Type 0 where
  before_intent_point remove_temporary write_temporary temporary_synced_point : Point
  rename_intent sync_intent intent_persisted_point : Point
  remove_root root_removed_point : ℕ → Point
  sync_root : Text → Point
  roots_synced_point remove_intent intent_cleared_point sync_cleared : Point

-- Which calls succeed, and which changes reach the disk before they are flushed.
pub record Calls : Type 0 where
  pub works : Point → Bool
  pub early : Point → Bool

abbrev pub Run : Type 0
Run = World → World × Bool

infixl 5 ◌>>◌
unfoldable pub ◌>>◌ : Run → Run → Run
◌>>◌ m k w = let (w', ok) = m w in elim ok [ true ↦ k w' | false ↦ (w', false) ]

abbrev pub require : Bool → Run
require ok w = (w, ok)

-- `on directory path` says that a flush of the file system of the directory reaches the path.
module _ (on : Text → Text → Bool) (calls : Calls) where
  abbrev pub reach : Point → Run
  reach p = require (calls.works p)

  -- The flush of the file system of a directory.
  unfoldable pub sync_filesystem : Text → (intent_path : Text) → Point → Run
  sync_filesystem filesystem intent_path p w = (
    record w {
      durable =
          λ path. if calls.works p && on filesystem path then w.present path else w.durable path;
      durable_intent =
          if calls.works p && on filesystem intent_path then w.intent else w.durable_intent;
    },
    calls.works p,
  )

  -- A change of the intent: `os.Rename` onto it, and `removeSafeRegular`.
  unfoldable pub change_intent : Document ResetDocument → Point → Run
  change_intent d p w = (
    record w {
      intent = if calls.works p then d else w.intent;
      durable_intent = if calls.works p && calls.early p then d else w.durable_intent;
    },
    calls.works p,
  )

  -- `removeDeclaredPath`.
  unfoldable pub remove_declared_path : Text → Point → Run
  remove_declared_path path p w = (
    record w {
      present = λ x. if calls.works p && text_eq path x then false else w.present x;
      durable =
          λ x. if calls.works p && calls.early p && text_eq path x then false else w.durable x;
    },
    calls.works p,
  )

  -- `writeResetDocument` of the intent, in its directory. The document is read back as it was
  -- written: the limit of `readResetDocument` on the length of the file is left aside.
  unfoldable pub write_intent : (directory intent_path : Text) → ResetDocument → Run
  write_intent directory intent_path d =
      reach remove_temporary
      >> reach write_temporary
      >> reach temporary_synced_point
      >> change_intent (document d) rename_intent
      >> sync_filesystem directory intent_path sync_intent

  unfoldable pub remove_roots : ℕ → List ResetRoot → Run
  remove_roots index [] = require true
  remove_roots index (root ∷ roots) =
      remove_declared_path root.path (remove_root index)
      >> reach (root_removed_point index)
      >> remove_roots (suc index) roots

  unfoldable pub sync_all : (intent_path : Text) → List Text → Run
  sync_all intent_path [] = require true
  sync_all intent_path (filesystem ∷ filesystems) =
      sync_filesystem filesystem intent_path (sync_root filesystem)
      >> sync_all intent_path filesystems

  -- The last look at the roots, which ends in an error where one is still there. An `Lstat` that
  -- fails for another reason is left aside.
  unfoldable pub roots_gone : List ResetRoot → Run
  roots_gone roots w = (w, all (λ root. not (w.present root.path)) roots)

-- `uniqueFilesystems` before it sorts.
unfoldable pub filesystems_of : (Text → Text) → List ResetRoot → List Text → List Text
filesystems_of clean [] result = result
filesystems_of clean (root ∷ roots) result = filesystems_of clean roots (
    if member (clean root.filesystem_root) result
    then result
    else clean root.filesystem_root ∷ result)

unfoldable pub unique_filesystems : (Text → Text) → List ResetRoot → List Text
unique_filesystems clean roots = sort (filesystems_of clean roots [])

module _ (fp : Filepath) (on : Text → Text → Bool) (calls : Calls) (intent_path : Text)
    (config : Config) where
  -- The intent is written if there is none; one that cannot be read is an error.
  unfoldable pub have_intent : ResetDocument → Run
  have_intent d w = elim w.intent [
    | unreadable ↦ (w, false)
    | document other ↦ (w, true)
    | absent ↦
        (reach on calls before_intent_point
            >> write_intent on calls (fp.dir intent_path) intent_path d
            >> reach on calls intent_persisted_point)
          w
  ]

  -- The run from the intent on.
  unfoldable pub remove_all : ResetDocument → Run
  remove_all d =
      remove_roots on calls 0 d.roots
      >> sync_all on calls intent_path (unique_filesystems fp.clean d.roots)
      >> roots_gone on calls d.roots

  unfoldable pub clear_intent : Run
  clear_intent =
      reach on calls roots_synced_point
      >> change_intent on calls absent remove_intent
      >> reach on calls intent_cleared_point
      >> sync_filesystem on calls config.userdata_path intent_path sync_cleared

  unfoldable pub run_reset_intent : List Card → ResetDocument → Run
  run_reset_intent inventory d =
      require (valid_reset_document fp config d)
      >> require (verify_required_cards fp d.required_cards inventory)
      >> have_intent d
      >> remove_all d
      >> clear_intent

  -- `RecoverReset`: whether an intent was pending, and the run; `temporary_removed` is the success of
  -- the removal of a temporary file that a crash left, and an inventory that fails is `none`.
  unfoldable pub recover_reset :
      (temporary_removed : Bool) → Option (List Card) → World → (World × Bool) × Bool
  recover_reset temporary_removed inventory w = elim w.intent [
    | unreadable ↦ ((w, false), false)
    | absent ↦ ((w, temporary_removed), false)
    | document d ↦ elim inventory [
      | none ↦ ((w, false), true)
      | some cards ↦ (run_reset_intent cards d w, true)
    ]
  ]
