-- ===== src/Folders/GameCheck/Selected.antt =====
-- What a game check waits for.
use leaf_syncthing_pak.Base.{
  true, false, ◌≡◌, refl, sym, ap, ◌∙◌, inl, inr, some, List, [], ◌∷◌, ◌++◌, map, All, Text, Dict,
  lookup, lookup-insert, arith, Option-cases, Bool-cases,
}
use leaf_syncthing_pak.Folders.Types.{Card, ConfiguredFolder}
use leaf_syncthing_pak.Folders.Store.{FolderControlRecord, complete_folder_binding}
use leaf_syncthing_pak.Folders.Rows.{
  FolderStatus, Lstat, zero_record, cards_with, settled, first_row,
}
use leaf_syncthing_pak.Folders.Reconcile.{
  check_card, bound_row, reconcile_folder, reconcile_managed_folders,
}
use leaf_syncthing_pak.Folders.Reconcile.Safe.{IsReady, reconcile_folder-IsReady}
use leaf_syncthing_pak.Folders.GameCheck.{
  GameEvent, by_folder_id, by_row_id, cards_of_source, Choice, chosen, choose, select,
  folders_for_game_check,
}

All-append :
    {A : Type 0} (P : A → Type 0) (xs : List A) (x : A) → All P xs → P x → All P (xs ++ x ∷ [])
All-append P [] x h p = (p, tt)
All-append P (y ∷ xs) x (q, h) p = (q, All-append P xs x h p)

module _ (clean base : Text → Text) (join : List Text → Text) (lstat : Text → Lstat) where
  check_card-id :
      (folder : ConfiguredFolder) (control : FolderControlRecord) (card : Card) (row : FolderStatus)
      → (check_card clean base join lstat folder control card row).id ≡ row.id
  unfolding check_card
  check_card-id folder control card row = refl

  abbrev pub reconciled : List Card → Dict FolderControlRecord → ConfiguredFolder → FolderStatus
  reconciled = reconcile_folder clean base join lstat

  settled-id : (row : FolderStatus) → (settled row).id ≡ row.id
  unfolding settled
  settled-id row = refl

  first_row-id :
      (folder : ConfiguredFolder) (control : FolderControlRecord)
      → (first_row folder control).id ≡ folder.id
  unfolding first_row
  first_row-id folder control = refl

  by_cards-id :
      (inventory : List Card) (folder : ConfiguredFolder) (control : FolderControlRecord)
      (cs : List Card)
      → cards_with control.card_id inventory ≡ cs
      → complete_folder_binding control ≡ true
      → (bound_row clean base join lstat inventory folder control).id ≡ folder.id
  unfolding bound_row
  by_cards-id inventory folder control [] e k = rw (k, e) (first_row-id folder control)
  by_cards-id inventory folder control (card ∷ []) e k =
      rw (k, e) (settled-id _ ∙ (check_card-id folder control card _ ∙ first_row-id folder control))
  by_cards-id inventory folder control (card ∷ other ∷ cs) e k =
      rw (k, e) (first_row-id folder control)

  bound_row-id :
      (inventory : List Card) (folder : ConfiguredFolder) (control : FolderControlRecord)
      → (bound_row clean base join lstat inventory folder control).id ≡ folder.id
  unfolding bound_row
  bound_row-id inventory folder control = elim (Bool-cases (complete_folder_binding control)) [
    | inl e ↦ by_cards-id inventory folder control _ refl e
    | inr e ↦ rw e (first_row-id folder control)
  ]

  reconciled-id :
      (inventory : List Card) (controls : Dict FolderControlRecord) (folder : ConfiguredFolder)
      → (reconciled inventory controls folder).id ≡ folder.id
  unfolding reconcile_folder
  reconciled-id inventory controls folder = elim (Option-cases (lookup folder.id controls)) [
    | inl e ↦ rw (e, reconcile_folder) (first_row-id folder zero_record)
    | inr (control, e) ↦ rw (e, reconcile_folder) (bound_row-id inventory folder control)
  ]

  -- The rows under their ids are those of the folders under the same ids.
  abbrev Consistent :
      List Card → Dict FolderControlRecord → Dict ConfiguredFolder → Dict FolderStatus → Type 0
  Consistent inventory controls configured rows =
      (id : Text) (folder : ConfiguredFolder) (row : FolderStatus)
      → lookup id configured ≡ some folder
      → lookup id rows ≡ some row
      → row ≡ reconciled inventory controls folder

  by_id-Consistent :
      (inventory : List Card) (controls : Dict FolderControlRecord)
      (folders : List ConfiguredFolder) (configured : Dict ConfiguredFolder)
      (rows : Dict FolderStatus)
      → Consistent inventory controls configured rows
      → Consistent inventory controls
          (by_folder_id folders configured)
          (by_row_id (map (reconciled inventory controls) folders) rows)
  unfolding by_folder_id by_row_id
  by_id-Consistent inventory controls [] configured rows h = h
  by_id-Consistent inventory controls (f ∷ folders) configured rows h =
      by_id-Consistent inventory controls folders _ _ (λ id folder row e k. ground (
        arith,
        reconciled-id inventory controls f,
        lookup-insert id f.id f configured,
        lookup-insert id (reconciled inventory controls f).id (reconciled inventory controls f)
            rows,
        h id folder row,
      ))

  abbrev pub Ready : List Card → Dict FolderControlRecord → ConfiguredFolder → Type 0
  Ready inventory controls folder =
      (control : FolderControlRecord) × (lookup folder.id controls ≡ some control)
      × IsReady clean base join lstat folder inventory control

  choose-Ready :
      (inventory : List Card) (controls : Dict FolderControlRecord) (card : Card)
      (configured : Dict ConfiguredFolder) (rows : Dict FolderStatus) (id : Text)
      (control : FolderControlRecord) (folder : ConfiguredFolder)
      → Consistent inventory controls configured rows
      → choose clean base join lstat card configured rows id control ≡ chosen folder
      → Ready inventory controls folder
  unfolding choose
  choose-Ready inventory controls card configured rows id control folder h e =
      elim (Option-cases (lookup id configured)) [
        | inl none_configured ↦ absurd (ground arith)
        | inr (found, c) ↦ elim (Option-cases (lookup id rows)) [
          | inl no_row ↦ absurd (ground arith)
          | inr (row, r) ↦
              let same : found ≡ folder = ground arith in
              let running : row.paused ≡ false = ground arith in
              let is_row = h id found row c r in
              let unpaused : (reconciled inventory controls folder).paused ≡ false =
                sym (ap (λ s. s.paused) (is_row ∙ ap (reconciled inventory controls) same))
                ∙ running in
              reconcile_folder-IsReady clean base join lstat inventory controls folder unpaused
        ]
      ]

  select-Ready :
      (inventory : List Card) (controls : Dict FolderControlRecord) (card : Card)
      (configured : Dict ConfiguredFolder) (rows : Dict FolderStatus)
      (entries : Dict FolderControlRecord) (selected result : List ConfiguredFolder)
      → Consistent inventory controls configured rows
      → All (Ready inventory controls) selected
      → select clean base join lstat card configured rows entries selected ≡ some result
      → All (Ready inventory controls) result
  unfolding select
  select-Ready inventory controls card configured rows [] selected result h ready e =
      let same : selected ≡ result = ground arith in rw (sym same) ready
  select-Ready inventory controls card configured rows ((id, control) ∷ entries) selected result h
        ready e =
      go (choose clean base join lstat card configured rows id control) refl (λ before r k.
        select-Ready inventory controls card configured rows entries before result h r k)
    where
      go :
          (c : Choice)
          → choose clean base join lstat card configured rows id control ≡ c
          → ((before : List ConfiguredFolder)
              → All (Ready inventory controls) before
              → select clean base join lstat card configured rows entries before ≡ some result
              → All (Ready inventory controls) result)
          → All (Ready inventory controls) result
      go Choice.skipped k later = later selected ready (ground arith)
      go Choice.refused_folder k later = absurd (ground arith)
      go (chosen folder) k later =
          later (selected ++ folder ∷ [])
            (All-append (Ready inventory controls) selected folder ready
              (choose-Ready inventory controls card configured rows id control folder h k))
            (ground arith)

  -- Every folder that a game check waits for is ready: its control record has a complete binding
  -- and no reason to pause it, and the binding's one card and the folder fit each other.
  pub folders_for_game_check-Ready :
      (event : GameEvent) (inventory : List Card) (folders : List ConfiguredFolder)
      (controls : Dict FolderControlRecord) (result : List ConfiguredFolder)
      → folders_for_game_check clean base join lstat event inventory folders controls ≡ some result
      → All (Ready inventory controls) result
  unfolding folders_for_game_check reconcile_managed_folders lookup
  folders_for_game_check-Ready event inventory folders controls result e =
      go (cards_of_source event.source_id inventory) refl
    where
      go :
          (cs : List Card)
          → cards_of_source event.source_id inventory ≡ cs
          → All (Ready inventory controls) result
      go [] k = absurd (ground arith)
      go (card ∷ other ∷ cs) k = absurd (ground arith)
      go (card ∷ []) k =
          select-Ready inventory controls card (by_folder_id folders [])
            (by_row_id (map (reconciled inventory controls) folders) []) controls [] result
            (by_id-Consistent inventory controls folders [] [] (λ id folder row a b. cc)) tt
            (ground arith)
