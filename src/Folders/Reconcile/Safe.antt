-- ===== src/Folders/Reconcile/Safe.antt =====
-- A folder that is left running has all that the issues ask for.
use leaf_syncthing_pak.Base.{
  Bool, true, false, not, ◌&&◌, ◌||◌, ◌≡◌, ◌≢◌, refl, sym, ap, ◌∙◌, ◌⊎◌, inl, inr, some, List, [],
  ◌∷◌, ◌++◌, Text, codes, text_eq, text_eq_iff, Dict, lookup, arith, Option-cases,
}
use leaf_syncthing_pak.Folders.Types.{Card, ConfiguredFolder, is_enrolled, managed_content_path}
use leaf_syncthing_pak.Folders.Store.{FolderControlRecord, complete_folder_binding}
use leaf_syncthing_pak.Folders.Rows.{
  IssueCode, FolderStatus, Lstat, Marker, sound, mark, mark_and_pause, mark_marker, append_unique,
  refused, reasons_of, unsafe_folder_kind, unsafe_folder_path, card_unavailable,
  unsupported_folder_type, card_read_only, unsafe_folder_marker, unsafe_versioning, source_label,
  first_row, cards_with, has_reasons, settled, at_path, is_type, receives, versions_kept,
  storage_reason,
}
use leaf_syncthing_pak.Folders.Reconcile.{
  bound_row, validate_managed_marker, check_card, reconcile_folder,
}

append_one : {A : Type 0} (xs : List A) (x : A) → xs ++ x ∷ [] ≢ []
append_one [] x h = cc
append_one (y ∷ xs) x h = cc

-- A row without issues passed each check.
mark-clear :
    (row : FolderStatus) (b : Bool) (code : IssueCode)
    → (mark row b code).issues ≡ []
    → (b ≡ false) × (row.issues ≡ []) × (mark row b code ≡ row)
mark-clear row false code h = (refl, h, refl)
mark-clear row true code h = absurd (append_one row.issues code h)

mark_and_pause-clear :
    (row : FolderStatus) (b : Bool) (code : IssueCode) (reasons : List Text)
    → (mark_and_pause row b code reasons).issues ≡ []
    → (b ≡ false) × (row.issues ≡ []) × (mark_and_pause row b code reasons ≡ row)
mark_and_pause-clear row false code reasons h = (refl, h, refl)
mark_and_pause-clear row true code reasons h = absurd (append_one row.issues code h)

append_unique-nonempty :
    (values : List Text) (value : Text) → has_reasons (append_unique values value) ≡ true
unfolding append_unique
append_unique-nonempty [] value = refl
append_unique-nonempty (v ∷ vs) value = ground arith

settled-clear :
    (row : FolderStatus)
    → (settled row).paused ≡ false
    → (row.issues ≡ []) × (row.pause_reasons ≡ [])
unfolding settled
settled-clear row h = ground (arith, append_unique-nonempty row.pause_reasons (codes "health"))

mark_marker-clear :
    (row : FolderStatus) (looked : Bool) (m : Marker)
    → (mark_marker row looked m).issues ≡ []
    → (looked ≡ true → m ≡ sound) × (row.issues ≡ []) × (mark_marker row looked m ≡ row)
mark_marker-clear row false m h = (cc, h, refl)
mark_marker-clear row true Marker.sound h = ((λ _. refl), h, refl)
mark_marker-clear row true Marker.marker_collision h = absurd (append_one row.issues _ h)
mark_marker-clear row true Marker.unsafe_root h = absurd (append_one row.issues _ h)
mark_marker-clear row true Marker.foreign_marker h = absurd (append_one row.issues _ h)
mark_marker-clear row true Marker.no_marker h = absurd (append_one row.issues _ h)
mark_marker-clear row true Marker.failed h = absurd (append_one row.issues _ h)

module _ (clean base : Text → Text) (join : List Text → Text) (lstat : Text → Lstat) where
  -- What the checks on one card find in order.
  pub record FitsCard (folder : ConfiguredFolder) (control : FolderControlRecord) (card : Card)
      : Type 0 where
    pub placed : at_path clean folder (managed_content_path card.source folder.kind) ≡ true
    pub enrolled : is_enrolled card.state ≡ true
    pub present : card.present ≡ true
    pub not_duplicated : card.duplicate_id ≡ false
    pub typed : is_type folder ≡ true
    pub writable : (receives folder ≡ false) ⊎ (card.writable ≡ true)
    pub named : folder.marker_name ≡ control.marker_name
    pub marked :
        validate_managed_marker clean base join lstat
          (managed_content_path card.source folder.kind)
          control.marker_name
        ≡ sound
    pub versioned : (receives folder ≡ false) ⊎ (versions_kept clean join folder card ≡ true)

  check_card-clear :
      (folder : ConfiguredFolder) (control : FolderControlRecord) (card : Card) (row : FolderStatus)
      → (check_card clean base join lstat folder control card row).issues ≡ []
      → FitsCard folder control card
        × (row.issues ≡ [])
        × ((check_card clean base join lstat folder control card row).pause_reasons
            ≡ row.pause_reasons)
  unfolding check_card
  check_card-clear folder control card row h =
      let expected = managed_content_path card.source folder.kind in
      let storage = storage_reason card in
      let labelled : FolderStatus = record row {
        card_id = card.identity_id;
        label = row.label ++ 32 ∷ 226 ∷ 128 ∷ 148 ∷ 32 ∷ source_label card.source;
      } in
      let outside = not (at_path clean folder expected) in
      let unavailable = not (is_enrolled card.state) || not card.present || card.duplicate_id in
      let read_only = receives folder && not card.writable in
      let misnamed = not (text_eq folder.marker_name control.marker_name) in
      let found = validate_managed_marker clean base join lstat expected control.marker_name in
      let placed = mark labelled outside unsafe_folder_path in
      let available =
        mark_and_pause placed unavailable card_unavailable (placed.pause_reasons ++ storage ∷ []) in
      let typed = mark available (not (is_type folder)) unsupported_folder_type in
      let written =
        mark_and_pause typed read_only card_read_only (append_unique typed.pause_reasons storage) in
      let named = mark written misnamed unsafe_folder_marker in
      let marked = mark_marker named (at_path clean folder expected && card.present) found in
      let (versions, h₁, e₁) =
        mark-clear marked (receives folder && not (versions_kept clean join folder card))
          unsafe_versioning h in
      let (marker, h₂, e₂) =
        mark_marker-clear named (at_path clean folder expected && card.present) found h₁ in
      let (name, h₃, e₃) = mark-clear written misnamed unsafe_folder_marker h₂ in
      let (writes, h₄, e₄) =
        mark_and_pause-clear typed read_only card_read_only
          (append_unique typed.pause_reasons storage) h₃ in
      let (type, h₅, e₅) = mark-clear available (not (is_type folder)) unsupported_folder_type h₄ in
      let (available_card, h₆, e₆) =
        mark_and_pause-clear placed unavailable card_unavailable
          (placed.pause_reasons ++ storage ∷ []) h₅ in
      let (place, h₇, e₇) = mark-clear labelled outside unsafe_folder_path h₆ in
      (
        record {
          placed = ground arith;
          enrolled = ground arith;
          present = ground arith;
          not_duplicated = ground arith;
          typed = ground arith;
          writable = ground arith;
          named = (text_eq_iff folder.marker_name control.marker_name).0 (ground arith);
          marked = marker (ground arith);
          versioned = ground arith;
        },
        h₇,
        ap (λ r. r.pause_reasons) (e₁ ∙ e₂ ∙ e₃ ∙ e₄ ∙ e₅ ∙ e₆ ∙ e₇),
      )

  -- The card that a binding stands on is the only one with its identity, and the records hold no
  -- reason to pause the folder.
  pub record IsReady (folder : ConfiguredFolder) (inventory : List Card)
      (control : FolderControlRecord) : Type 0 where
    pub complete : complete_folder_binding control ≡ true
    pub same_kind : folder.kind ≡ control.kind
    pub unheld : reasons_of control ≡ []
    pub card : Card
    pub only : cards_with control.card_id inventory ≡ card ∷ []
    pub fits : FitsCard folder control card

  refused-paused : (row : FolderStatus) → (refused row).paused ≡ false → ⊥
  refused-paused row h = cc

  bound-IsReady :
      (inventory : List Card) (folder : ConfiguredFolder) (control : FolderControlRecord)
      → (bound_row clean base join lstat inventory folder control).paused ≡ false
      → IsReady folder inventory control
  unfolding bound_row first_row
  bound-IsReady inventory folder control h = go (cards_with control.card_id inventory) refl
    where
      go :
          (cs : List Card)
          → cards_with control.card_id inventory ≡ cs
          → IsReady folder inventory control
      go [] e = absurd (ground arith)
      go (card ∷ other ∷ cs) e = absurd (ground arith)
      go (card ∷ []) e =
          let row = first_row folder control in
          let bound : FolderStatus = record row { card_id = control.card_id } in
          let misfit = not (text_eq folder.kind control.kind) in
          let kinded = mark bound misfit unsafe_folder_kind in
          let last = check_card clean base join lstat folder control card kinded in
          let running : (settled last).paused ≡ false = ground arith in
          let (clear, unpaused) = settled-clear last running in
          let (fits, clear_kind, kept) = check_card-clear folder control card kinded clear in
          let (kind, _, same) = mark-clear bound misfit unsafe_folder_kind clear_kind in
          record {
            complete = ground arith;
            same_kind = (text_eq_iff folder.kind control.kind).0 (ground arith);
            unheld = sym (ap (λ r. r.pause_reasons) same) ∙ (sym kept ∙ unpaused);
            card = card;
            only = e;
            fits = fits;
          }

  -- A folder whose row is not paused has a control record with a complete binding and with no
  -- reason to pause it, and its binding names exactly one card, which is enrolled, present, not
  -- duplicated and, unless the folder is send-only, writable; the folder's kind, path, type, marker
  -- and versioning are those of the binding and the card, and the marker on the card is sound.
  pub reconcile_folder-IsReady :
      (inventory : List Card) (control_state : Dict FolderControlRecord) (folder : ConfiguredFolder)
      → (reconcile_folder clean base join lstat inventory control_state folder).paused ≡ false
      → (control : FolderControlRecord) × (lookup folder.id control_state ≡ some control)
        × IsReady folder inventory control
  unfolding reconcile_folder
  reconcile_folder-IsReady inventory control_state folder h =
      elim (Option-cases (lookup folder.id control_state)) [
        | inl e ↦ absurd (ground arith)
        | inr (control, e) ↦
            (control, e, bound-IsReady inventory folder control (rw (e, reconcile_folder) at h))
      ]
