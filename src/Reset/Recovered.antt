-- ===== src/Reset/Recovered.antt =====
-- A reset that was interrupted and the recovery after it.
use leaf_syncthing_pak.Base.{
  Bool, true, false, ◌≡◌, refl, ◌⊎◌, inl, inr, some, List, All, All-map, Text, arith,
}
use leaf_syncthing_pak.Folders.Types.{Card}
use leaf_syncthing_pak.FirstSync.Documents.{absent, document}
use leaf_syncthing_pak.Reset.Documents.{
  ResetRoot, ResetDocument, Config, Filepath, valid_reset_document, verify_required_cards,
}
use leaf_syncthing_pak.Reset.Run.{World, restart, Calls, run_reset_intent, recover_reset}
use leaf_syncthing_pak.Reset.Steps.{Predicate, Kept, Gone}
use leaf_syncthing_pak.Reset.Safe.{Safe, Start, Before, run-Done}
use leaf_syncthing_pak.Reset.Works.{Works, run-Succeeds}

-- A reset that succeeds has removed every root for good, and its intent.
abbrev pub Finished : ResetDocument → Predicate
Finished d w = Gone d w × ((w.intent ≡ absent) × (w.durable_intent ≡ absent))

stored_roots :
    (roots : List ResetRoot) (w : World)
    → All (λ root. (w.present root.path ≡ false) × (w.durable root.path ≡ false)) roots
    → All (λ root. (w.durable root.path ≡ false) × (w.durable root.path ≡ false)) roots
stored_roots roots w h = All-map _ _ roots (λ root (a, b). (b, b)) h

-- A flush of the intent's directory, and of the userdata directory, reaches the intent, and each
-- root is on its file system.
module _ (fp : Filepath) (on : Text → Text → Bool) (intent_path : Text) (config : Config)
    (d : ResetDocument) (here : on (fp.dir intent_path) intent_path ≡ true)
    (home : on config.userdata_path intent_path ≡ true)
    (holds : All (λ root. on (fp.clean root.filesystem_root) root.path ≡ true) d.roots) where
  recover_pending :
      (calls : Calls) (inventory : List Card) (w : World)
      → Works calls
      → valid_reset_document fp config d ≡ true
      → verify_required_cards fp d.required_cards inventory ≡ true
      → (w.intent ≡ document d)
      → (w.durable_intent ≡ document d)
      → (after : World) × (recover_reset fp on calls intent_path config true (some inventory) w
          ≡ ((after, true), true))
        × Finished d after
  unfolding recover_reset Start
  recover_pending calls inventory w works v c i j =
      go (run_reset_intent fp on calls intent_path config inventory d w) refl
        (run-Succeeds fp on calls works intent_path config d inventory v c w (inr i)).0
        (run-Done fp on calls intent_path config d w inventory here home holds w (inr (i, j))).1
    where
      go :
          (r : World × Bool)
          → run_reset_intent fp on calls intent_path config inventory d w ≡ r
          → r.1 ≡ true
          → (r.1 ≡ false) ⊎ Finished d r.0
          → (after : World) × (recover_reset fp on calls intent_path config true (some inventory) w
              ≡ ((after, true), true))
            × Finished d after
      go (after, ok) e t (inl f) = absurd (ground arith)
      go (after, ok) e t (inr f) = (after, ground arith, f)

  -- The recovery after a crash that stored no intent.
  recover_nothing :
      (calls : Calls) (inventory : List Card) (w : World)
      → w.intent ≡ absent
      → recover_reset fp on calls intent_path config true (some inventory) w ≡ ((w, true), false)
  unfolding recover_reset
  recover_nothing calls inventory w i = ground arith

  after_crash :
      (calls : Calls) (cards : List Card) (w₀ w : World)
      → Works calls
      → valid_reset_document fp config d ≡ true
      → verify_required_cards fp d.required_cards cards ≡ true
      → Safe w₀ d w
      → (after : World) × (pending : Bool) × (recover_reset fp on calls intent_path config true
            (some cards)
            (restart w)
          ≡ ((after, true), pending))
        × (after.intent ≡ absent)
        × (after.durable_intent ≡ absent)
        × (Gone d after ⊎ Kept w₀ after)
  after_crash calls cards w₀ w works v c (inl i) =
      let (after, e, (gone, (a, b))) = recover_pending calls cards (restart w) works v c i i in
      (after, true, e, a, b, inl gone)
  after_crash calls cards w₀ w works v c (inr (i, s)) =
      let stored : Gone d (restart w) ⊎ Kept w₀ (restart w) = elim s [
        | inl kept ↦ inr (λ path h. let k = kept path h in ground arith)
        | inr gone ↦ inl (stored_roots d.roots w gone)
      ] in
      (restart w, false, recover_nothing calls cards (restart w) i, i, i, stored)

  -- A reset that starts without an intent and ends at any of its calls, or goes through: the intent
  -- is stored, or there is none and either all that was stored is still there or every root has gone
  -- for good. If it goes through, every root and the intent have gone for good. A flush of the
  -- intent's directory, and of the userdata directory, reaches the intent, and each root is on its
  -- file system.
  pub run_reset_intent-Safe :
      (calls : Calls) (inventory : List Card) (w : World)
      → w.intent ≡ absent
      → w.durable_intent ≡ absent
      → Safe w d (run_reset_intent fp on calls intent_path config inventory d w).0
        × (((run_reset_intent fp on calls intent_path config inventory d w).1 ≡ false)
            ⊎ Finished d (run_reset_intent fp on calls intent_path config inventory d w).0)
  unfolding Start Before
  run_reset_intent-Safe calls inventory w i j =
      run-Done fp on calls intent_path config d w inventory here home holds w
        (inl ((λ path h. h), (i, j)))

  -- A reset of an accepted document that starts without an intent, that ends at any of its calls,
  -- and after which the power is lost: the recovery, if its calls work and the cards are there,
  -- succeeds and leaves no intent, and either every root has gone for good or all that was stored is
  -- still there. A flush of the intent's directory, and of the userdata directory, reaches the
  -- intent, and each root is on its file system.
  pub interrupted_reset-recovered :
      (calls later : Calls) (inventory cards : List Card) (w : World)
      → w.intent ≡ absent
      → w.durable_intent ≡ absent
      → Works later
      → valid_reset_document fp config d ≡ true
      → verify_required_cards fp d.required_cards cards ≡ true
      → (after : World) × (pending : Bool) × (recover_reset fp on later intent_path config true
            (some cards)
            (restart (run_reset_intent fp on calls intent_path config inventory d w).0)
          ≡ ((after, true), pending))
        × (after.intent ≡ absent)
        × (after.durable_intent ≡ absent)
        × (Gone d after ⊎ Kept w after)
  interrupted_reset-recovered calls later inventory cards w i j works v c =
      after_crash later cards w (run_reset_intent fp on calls intent_path config inventory d w).0
        works v c (run_reset_intent-Safe calls inventory w i j).0
