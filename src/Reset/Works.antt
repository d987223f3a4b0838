-- ===== src/Reset/Works.antt =====
-- A reset whose calls all work succeeds.
use leaf_syncthing_pak.Base.{
  ℕ, suc, Bool, true, false, not, ◌≡◌, refl, ◌⊎◌, List, [], ◌∷◌, all, All, Text, text_eq_refl,
  arith,
}
use leaf_syncthing_pak.Folders.Types.{Card}
use leaf_syncthing_pak.FirstSync.Documents.{Document, absent, unreadable, document}
use leaf_syncthing_pak.Reset.Documents.{
  ResetRoot, ResetDocument, Config, Filepath, valid_reset_document, verify_required_cards,
}
use leaf_syncthing_pak.Reset.Run.{
  World, Point, remove_temporary, write_temporary, temporary_synced_point, rename_intent,
  sync_intent, before_intent_point, intent_persisted_point, remove_root, root_removed_point,
  roots_synced_point, remove_intent, intent_cleared_point, sync_cleared, sync_root, Calls, Run,
  ◌>>◌, require, reach, sync_filesystem, change_intent, remove_declared_path, write_intent,
  remove_roots, sync_all, roots_gone, unique_filesystems, have_intent, remove_all, clear_intent,
  run_reset_intent,
}
use leaf_syncthing_pak.Reset.Steps.{Predicate, Keeps, seq-Keeps, Succeeds, seq-Succeeds}

abbrev pub Works : Calls → Type 0
Works calls = (p : Point) → calls.works p ≡ true

abbrev Anything : Predicate
Anything w = Unit

abbrev Absent : List ResetRoot → Predicate
Absent roots w = All (λ root. w.present root.path ≡ false) roots

abbrev Without : Text → Predicate
Without path w = w.present path ≡ false

all-Absent :
    (roots : List ResetRoot) (w : World)
    → Absent roots w
    → all (λ root. not (w.present root.path)) roots ≡ true
all-Absent [] w h = refl
all-Absent (root ∷ roots) w (a, h) = ground (arith, all-Absent roots w h)

-- A run that succeeds wherever it starts.
abbrev Total : Run → Type 0
Total m = (w : World) → (m w).1 ≡ true

seq-Total : (m k : Run) → Total m → Total k → Total (m >> k)
unfolding ◌>>◌
seq-Total m k h g w = go (m w) (h w)
  where
    go :
        (r : World × Bool)
        → r.1 ≡ true
        → let e : World × Bool = elim r.1 [ true ↦ k r.0 | false ↦ (r.0, false) ] in e.1 ≡ true
    go (w', true) a = g w'
    go (w', false) a = absurd (ground arith)

module _ (on : Text → Text → Bool) (calls : Calls) (works : Works calls) (intent_path : Text) where
  reach-Succeeds : (P : Predicate) (p : Point) → Succeeds P (reach on calls p) P
  reach-Succeeds P p w h = (works p, h)

  sync-Succeeds :
      (roots : List ResetRoot) (filesystem : Text) (p : Point)
      → Succeeds (Absent roots) (sync_filesystem on calls filesystem intent_path p) (Absent roots)
  unfolding sync_filesystem
  sync-Succeeds roots filesystem p w h = (works p, h)

  remove_roots-Without :
      (path : Text) (index : ℕ) (roots : List ResetRoot)
      → Keeps (Without path) (remove_roots on calls index roots)
  unfolding remove_roots remove_declared_path
  remove_roots-Without path index [] = λ w h. h
  remove_roots-Without path index (root ∷ roots) =
      seq-Keeps (Without path)
        (remove_declared_path on calls root.path (remove_root index)
          >> reach on calls (root_removed_point index))
        (remove_roots on calls (suc index) roots)
        (seq-Keeps (Without path) (remove_declared_path on calls root.path (remove_root index))
          (reach on calls (root_removed_point index)) (λ w h. ground arith) (λ w h. h))
        (remove_roots-Without path (suc index) roots)

  remove-Succeeds :
      (root : ResetRoot) (index : ℕ)
      → Succeeds Anything
          (remove_declared_path on calls root.path (remove_root index))
          (Without root.path)
  unfolding remove_declared_path
  remove-Succeeds root index w h =
      (works (remove_root index), ground (arith, works (remove_root index), text_eq_refl root.path))

  remove_roots-Succeeds :
      (index : ℕ) (roots : List ResetRoot)
      → Succeeds Anything (remove_roots on calls index roots) (Absent roots)
  unfolding remove_roots
  remove_roots-Succeeds index [] w h = (refl, tt)
  remove_roots-Succeeds index (root ∷ roots) w h =
      seq-Succeeds Anything (Without root.path) (Absent (root ∷ roots))
        (remove_declared_path on calls root.path (remove_root index)
          >> reach on calls (root_removed_point index))
        (remove_roots on calls (suc index) roots)
        (seq-Succeeds Anything (Without root.path) (Without root.path)
          (remove_declared_path on calls root.path (remove_root index))
          (reach on calls (root_removed_point index)) (remove-Succeeds root index)
          (reach-Succeeds (Without root.path) (root_removed_point index)))
        (λ w' a.
          let (ok, more) = remove_roots-Succeeds (suc index) roots w' tt in
          (ok, (remove_roots-Without root.path (suc index) roots w' a, more)))
        w h

  sync_all-Succeeds :
      (roots : List ResetRoot) (filesystems : List Text)
      → Succeeds (Absent roots) (sync_all on calls intent_path filesystems) (Absent roots)
  unfolding sync_all
  sync_all-Succeeds roots [] = λ w h. (refl, h)
  sync_all-Succeeds roots (filesystem ∷ filesystems) =
      seq-Succeeds (Absent roots) (Absent roots) (Absent roots)
        (sync_filesystem on calls filesystem intent_path (sync_root filesystem))
        (sync_all on calls intent_path filesystems)
        (sync-Succeeds roots filesystem (sync_root filesystem))
        (sync_all-Succeeds roots filesystems)

  roots_gone-Succeeds :
      (roots : List ResetRoot) → Succeeds (Absent roots) (roots_gone on calls roots) Anything
  unfolding roots_gone
  roots_gone-Succeeds roots w h = (all-Absent roots w h, tt)

  write-Total :
      (d : ResetDocument) (directory : Text) → Total (write_intent on calls directory intent_path d)
  unfolding write_intent change_intent sync_filesystem
  write-Total d directory =
      seq-Total _ (sync_filesystem on calls directory intent_path sync_intent)
        (seq-Total _ (change_intent on calls (document d) rename_intent)
          (seq-Total _ (reach on calls temporary_synced_point)
            (seq-Total (reach on calls remove_temporary) (reach on calls write_temporary)
              (λ w. works remove_temporary) (λ w. works write_temporary))
            (λ w. works temporary_synced_point))
          (λ w. works rename_intent))
        (λ w. works sync_intent)

module _ (fp : Filepath) (on : Text → Text → Bool) (calls : Calls) (works : Works calls)
    (intent_path : Text) (config : Config) (d : ResetDocument) where
  first-Total : Total (
      reach on calls before_intent_point
      >> write_intent on calls (fp.dir intent_path) intent_path d
      >> reach on calls intent_persisted_point)
  first-Total =
      seq-Total
        (reach on calls before_intent_point
          >> write_intent on calls (fp.dir intent_path) intent_path d)
        (reach on calls intent_persisted_point)
        (seq-Total (reach on calls before_intent_point)
          (write_intent on calls (fp.dir intent_path) intent_path d)
          (λ w. works before_intent_point)
          (write-Total on calls works intent_path d (fp.dir intent_path)))
        (λ w. works intent_persisted_point)

  -- The intent is readable or there is none.
  abbrev Readable : Predicate
  Readable w = (w.intent ≡ absent) ⊎ (w.intent ≡ document d)

  have_intent-Succeeds : Succeeds Readable (have_intent fp on calls intent_path config d) Anything
  unfolding have_intent
  have_intent-Succeeds w h = go w.intent h
    where
      first : Run
      first =
          reach on calls before_intent_point
          >> write_intent on calls (fp.dir intent_path) intent_path d
          >> reach on calls intent_persisted_point

      go :
          (i : Document ResetDocument)
          → (i ≡ absent) ⊎ (i ≡ document d)
          → let e : World × Bool = elim i [
            | unreadable ↦ (w, false)
            | document other ↦ (w, true)
            | absent ↦ first w
          ] in
            (e.1 ≡ true) × Unit {0}
      go unreadable h = absurd (ground arith)
      go (document other) h = (refl, tt)
      go absent h = (first-Total w, tt)

  clear_intent-Total : Total (clear_intent fp on calls intent_path config)
  unfolding clear_intent change_intent sync_filesystem
  clear_intent-Total =
      seq-Total _ (sync_filesystem on calls config.userdata_path intent_path sync_cleared)
        (seq-Total _ (reach on calls intent_cleared_point)
          (seq-Total (reach on calls roots_synced_point)
            (change_intent on calls absent remove_intent) (λ w. works roots_synced_point)
            (λ w. works remove_intent))
          (λ w. works intent_cleared_point))
        (λ w. works sync_cleared)

  remove_all-Succeeds : Succeeds Anything (remove_all fp on calls intent_path config d) Anything
  unfolding remove_all
  remove_all-Succeeds =
      let flush = sync_all on calls intent_path (unique_filesystems fp.clean d.roots) in
      seq-Succeeds Anything (Absent d.roots) Anything (remove_roots on calls 0 d.roots >> flush)
        (roots_gone on calls d.roots)
        (seq-Succeeds Anything (Absent d.roots) (Absent d.roots) (remove_roots on calls 0 d.roots)
          flush (remove_roots-Succeeds on calls works intent_path 0 d.roots)
          (sync_all-Succeeds on calls works intent_path d.roots
            (unique_filesystems fp.clean d.roots)))
        (roots_gone-Succeeds on calls works intent_path d.roots)

  pub run-Succeeds :
      (inventory : List Card)
      → valid_reset_document fp config d ≡ true
      → verify_required_cards fp d.required_cards inventory ≡ true
      → Succeeds Readable (run_reset_intent fp on calls intent_path config inventory d) Anything
  unfolding run_reset_intent
  run-Succeeds inventory v c =
      let valid = require (valid_reset_document fp config d) in
      let cards = require (verify_required_cards fp d.required_cards inventory) in
      let have = have_intent fp on calls intent_path config d in
      seq-Succeeds Readable Anything Anything
        (valid >> cards >> have >> remove_all fp on calls intent_path config d)
        (clear_intent fp on calls intent_path config)
        (seq-Succeeds Readable Anything Anything (valid >> cards >> have)
          (remove_all fp on calls intent_path config d)
          (seq-Succeeds Readable Readable Anything (valid >> cards) have
            (seq-Succeeds Readable Readable Readable valid cards (λ w h. (v, h)) (λ w h. (c, h)))
            have_intent-Succeeds)
          remove_all-Succeeds)
        (λ w h. (clear_intent-Total w, tt))
