-- ===== src/Reset/Safe.antt =====
-- A reset that ends at any call: what is stored then.
use leaf_syncthing_pak.Base.{
  Bool, true, false, ◌≡◌, refl, ◌⊎◌, inl, inr, List, [], All, Text, arith, Bool-cases,
}
use leaf_syncthing_pak.Folders.Types.{Card}
use leaf_syncthing_pak.FirstSync.Documents.{Document, absent, unreadable, document}
use leaf_syncthing_pak.Reset.Documents.{
  ResetDocument, Config, Filepath, valid_reset_document, verify_required_cards,
}
use leaf_syncthing_pak.Reset.Run.{
  World, Point, before_intent_point, remove_temporary, write_temporary, temporary_synced_point,
  rename_intent, sync_intent, intent_persisted_point, roots_synced_point, remove_intent,
  intent_cleared_point, sync_cleared, Calls, Run, ◌>>◌, require, reach, sync_filesystem,
  change_intent, write_intent, remove_roots, sync_all, roots_gone, unique_filesystems, have_intent,
  remove_all, clear_intent, run_reset_intent,
}
use leaf_syncthing_pak.Reset.Flushes.{flushed_first}
use leaf_syncthing_pak.Reset.Steps.{
  Predicate, Holds, seq-Holds, Keeps-Holds, Kept, Gone, Written, Flushed, sync-Kept, sync-Gone,
  remove_roots-Written, sync_all-Flushed, roots_gone-Gone,
}

-- What is stored: the intent, or no intent and all that was there, or no intent and no root.
abbrev pub Safe : World → ResetDocument → Predicate
Safe w₀ d w =
    (w.durable_intent ≡ document d) ⊎ ((w.durable_intent ≡ absent) × (Kept w₀ w ⊎ Gone d w))

abbrev NoIntent : Predicate
NoIntent w = (w.intent ≡ absent) × (w.durable_intent ≡ absent)

module _ (fp : Filepath) (on : Text → Text → Bool) (calls : Calls) (intent_path : Text)
    (config : Config) (d : ResetDocument) (w₀ : World) where
  Renamed : Predicate
  Renamed w =
      Kept w₀ w
      × (w.intent ≡ document d)
      × ((w.durable_intent ≡ absent) ⊎ (w.durable_intent ≡ document d))

  unfoldable pub Before : Predicate
  Before w = Kept w₀ w × NoIntent w

  Before-Safe : (w : World) → Before w → Safe w₀ d w
  unfolding Before
  Before-Safe w (k, (i, j)) = inr (j, inl k)

  change-Renamed :
      Holds Before (change_intent on calls (document d) rename_intent) Renamed (Safe w₀ d)
  unfolding change_intent Before Renamed
  change-Renamed w (k, (i, j)) = elim (Bool-cases (calls.works rename_intent)) [
    | inl e ↦ elim (Bool-cases (calls.early rename_intent)) [
      | inl f ↦ (inl (ground arith), inr (k, ground arith, inr (ground arith)))
      | inr f ↦ (inr (ground arith, inl k), inr (k, ground arith, inl (ground arith)))
    ]
    | inr e ↦ (inr (ground arith, inl k), inl e)
  ]

  sync-Renamed :
      on (fp.dir intent_path) intent_path ≡ true
      → Holds Renamed
          (sync_filesystem on calls (fp.dir intent_path) intent_path sync_intent)
          (Written d)
          (Safe w₀ d)
  unfolding Renamed sync_filesystem
  sync-Renamed here w (k, i, j) = elim (Bool-cases (calls.works sync_intent)) [
    | inl e ↦ (inl (ground arith), inr (i, ground arith))
    | inr e ↦ (
      elim j [
        | inl a ↦ inr (
          ground arith,
          inl (sync-Kept on calls intent_path w₀ (fp.dir intent_path) sync_intent w k),
        )
        | inr a ↦ inl (ground arith)
      ],
      inl e,
    )
  ]

  Written-Safe : (w : World) → Written d w → Safe w₀ d w
  Written-Safe w (a, b) = inl b

  reach-Before : (p : Point) → Holds Before (reach on calls p) Before (Safe w₀ d)
  reach-Before p = Keeps-Holds Before (Safe w₀ d) (reach on calls p) Before-Safe (λ w h. h)

  then_Written :
      (P Q : Predicate) (m k : Run)
      → Holds P m Q (Safe w₀ d)
      → Holds Q k (Written d) (Safe w₀ d)
      → Holds P (m >> k) (Written d) (Safe w₀ d)
  then_Written P Q m k h g = seq-Holds P Q (Written d) (Safe w₀ d) m k h g

  write_intent-Written :
      on (fp.dir intent_path) intent_path ≡ true
      → Holds Before
          (write_intent on calls (fp.dir intent_path) intent_path d)
          (Written d)
          (Safe w₀ d)
  unfolding write_intent
  write_intent-Written here =
      let r : Point → Run = reach on calls in
      then_Written Before Renamed
        (r remove_temporary
          >> r write_temporary
          >> r temporary_synced_point
          >> change_intent on calls (document d) rename_intent)
        (sync_filesystem on calls (fp.dir intent_path) intent_path sync_intent)
        (seq-Holds Before Before Renamed (Safe w₀ d)
          (r remove_temporary >> r write_temporary >> r temporary_synced_point)
          (change_intent on calls (document d) rename_intent)
          (seq-Holds Before Before Before (Safe w₀ d) (r remove_temporary >> r write_temporary)
            (r temporary_synced_point)
            (seq-Holds Before Before Before (Safe w₀ d) (r remove_temporary) (r write_temporary)
              (reach-Before remove_temporary) (reach-Before write_temporary))
            (reach-Before temporary_synced_point))
          change-Renamed)
        (sync-Renamed here)

  unfoldable pub Start : Predicate
  Start w = Before w ⊎ Written d w

  Start-Safe : (w : World) → Start w → Safe w₀ d w
  unfolding Start
  Start-Safe w (inl h) = Before-Safe w h
  Start-Safe w (inr h) = Written-Safe w h

  have_intent-Written :
      on (fp.dir intent_path) intent_path ≡ true
      → Holds Start (have_intent fp on calls intent_path config d) (Written d) (Safe w₀ d)
  unfolding have_intent Start Before
  have_intent-Written here w start = go w.intent refl start
    where
      first : Run
      first =
          reach on calls before_intent_point
          >> write_intent on calls (fp.dir intent_path) intent_path d
          >> reach on calls intent_persisted_point

      go :
          (i : Document ResetDocument)
          → w.intent ≡ i
          → Before w ⊎ Written d w
          → let e : World × Bool = elim i [
            | unreadable ↦ (w, false)
            | document other ↦ (w, true)
            | absent ↦ first w
          ] in
            Safe w₀ d e.0 × ((e.1 ≡ false) ⊎ Written d e.0)
      go unreadable e (inl h) = (Before-Safe w h, inl refl)
      go unreadable e (inr h) = (Written-Safe w h, inl refl)
      go (document other) e (inl h) = absurd (ground arith)
      go (document other) e (inr h) = (Written-Safe w h, inr h)
      go absent e (inr h) = absurd (ground arith)
      go absent e (inl h) =
          then_Written Before (Written d)
            (reach on calls before_intent_point
              >> write_intent on calls (fp.dir intent_path) intent_path d)
            (reach on calls intent_persisted_point)
            (then_Written Before Before (reach on calls before_intent_point)
              (write_intent on calls (fp.dir intent_path) intent_path d)
              (reach-Before before_intent_point) (write_intent-Written here))
            (Keeps-Holds (Written d) (Safe w₀ d) (reach on calls intent_persisted_point)
              Written-Safe (λ w h. h))
            w h

  Removed : Predicate
  Removed w = Written d w × Gone d w

  remove_all-Removed :
      All (λ root. on (fp.clean root.filesystem_root) root.path ≡ true) d.roots
      → Holds (Written d) (remove_all fp on calls intent_path config d) Removed (Written d)
  unfolding remove_all Removed
  remove_all-Removed holds =
      seq-Holds (Written d) (λ w. Written d w × Flushed on calls intent_path [] d w) Removed
        (Written d)
        (remove_roots on calls 0 d.roots
          >> sync_all on calls intent_path (unique_filesystems fp.clean d.roots))
        (roots_gone on calls d.roots)
        (seq-Holds (Written d)
          (λ w.
            Written d w × Flushed on calls intent_path (unique_filesystems fp.clean d.roots) d w)
          (λ w. Written d w × Flushed on calls intent_path [] d w) (Written d)
          (remove_roots on calls 0 d.roots)
          (sync_all on calls intent_path (unique_filesystems fp.clean d.roots))
          (λ w h.
            let kept = remove_roots-Written on calls intent_path d 0 d.roots w h in
            (
              kept,
              inr (
                kept,
                flushed_first on fp.clean d.roots (remove_roots on calls 0 d.roots w).0 holds,
              ),
            ))
          (sync_all-Flushed on calls intent_path (unique_filesystems fp.clean d.roots) d))
        (roots_gone-Gone on calls intent_path d)

  Cleared : Predicate
  Cleared w =
      Gone d w
      × (w.intent ≡ absent)
      × ((w.durable_intent ≡ absent) ⊎ (w.durable_intent ≡ document d))

  Cleared-Safe : (w : World) → Cleared w → Safe w₀ d w
  unfolding Cleared
  Cleared-Safe w (g, i, inl j) = inr (j, inr g)
  Cleared-Safe w (g, i, inr j) = inl j

  change-Cleared : Holds Removed (change_intent on calls absent remove_intent) Cleared (Safe w₀ d)
  unfolding change_intent Removed Cleared
  change-Cleared w ((i, j), g) = elim (Bool-cases (calls.works remove_intent)) [
    | inl e ↦ elim (Bool-cases (calls.early remove_intent)) [
      | inl f ↦ (inr (ground arith, inr g), inr (g, ground arith, inl (ground arith)))
      | inr f ↦ (inl (ground arith), inr (g, ground arith, inr (ground arith)))
    ]
    | inr e ↦ (inl (ground arith), inl e)
  ]

  -- Every root has gone, and the intent after them.
  abbrev pub Done : Predicate
  Done w = Gone d w × NoIntent w

  sync-Done :
      on config.userdata_path intent_path ≡ true
      → Holds Cleared
          (sync_filesystem on calls config.userdata_path intent_path sync_cleared)
          Done
          (Safe w₀ d)
  unfolding Cleared sync_filesystem
  sync-Done home w (g, i, j) =
      let gone = sync-Gone on calls intent_path d config.userdata_path sync_cleared w g in
      elim (Bool-cases (calls.works sync_cleared)) [
        | inl e ↦ (inr (ground arith, inr gone), inr (gone, (i, ground arith)))
        | inr e ↦
            (elim j [ inl a ↦ inr (ground arith, inr gone) | inr a ↦ inl (ground arith) ], inl e)
      ]

  clear_intent-Done :
      on config.userdata_path intent_path ≡ true
      → Holds Removed (clear_intent fp on calls intent_path config) Done (Safe w₀ d)
  unfolding clear_intent Removed
  clear_intent-Done home =
      let r : Point → Run = reach on calls in
      let change = change_intent on calls absent remove_intent in
      seq-Holds Removed Cleared Done (Safe w₀ d)
        (r roots_synced_point >> change >> r intent_cleared_point)
        (sync_filesystem on calls config.userdata_path intent_path sync_cleared)
        (seq-Holds Removed Cleared Cleared (Safe w₀ d) (r roots_synced_point >> change)
          (r intent_cleared_point)
          (seq-Holds Removed Removed Cleared (Safe w₀ d) (r roots_synced_point) change
            (Keeps-Holds Removed (Safe w₀ d) (r roots_synced_point) (λ w h. Written-Safe w h.0)
              (λ w h. h))
            change-Cleared)
          (Keeps-Holds Cleared (Safe w₀ d) (r intent_cleared_point) Cleared-Safe (λ w h. h)))
        (sync-Done home)

  pub run-Done :
      (inventory : List Card)
      → on (fp.dir intent_path) intent_path ≡ true
      → on config.userdata_path intent_path ≡ true
      → All (λ root. on (fp.clean root.filesystem_root) root.path ≡ true) d.roots
      → Holds Start (run_reset_intent fp on calls intent_path config inventory d) Done (Safe w₀ d)
  unfolding run_reset_intent Start
  run-Done inventory here home holds =
      let valid = require (valid_reset_document fp config d) in
      let cards = require (verify_required_cards fp d.required_cards inventory) in
      seq-Holds Start Removed Done (Safe w₀ d)
        (valid
          >> cards
          >> have_intent fp on calls intent_path config d
          >> remove_all fp on calls intent_path config d)
        (clear_intent fp on calls intent_path config)
        (seq-Holds Start (Written d) Removed (Safe w₀ d)
          (valid >> cards >> have_intent fp on calls intent_path config d)
          (remove_all fp on calls intent_path config d)
          (seq-Holds Start Start (Written d) (Safe w₀ d) (valid >> cards)
            (have_intent fp on calls intent_path config d)
            (seq-Holds Start Start Start (Safe w₀ d) valid cards
              (Keeps-Holds Start (Safe w₀ d) valid Start-Safe (λ w h. h))
              (Keeps-Holds Start (Safe w₀ d) cards Start-Safe (λ w h. h)))
            (have_intent-Written here))
          (λ w h. let (r, q) = remove_all-Removed holds w h in (Written-Safe _ r, q)))
        (clear_intent-Done home)
