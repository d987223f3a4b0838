-- ===== src/Recovery/Waiting.antt =====
-- The records that wait for a recovery, by a test on them.
use leaf_syncthing_pak.Base.{
  Bool, true, false, ◌≡◌, ◌⊎◌, inl, inr, some, [], ◌∷◌, Bool-cases, arith, Text, text_eq,
  text_eq_iff, Dict, lookup,
}
use leaf_syncthing_pak.Folders.Store.{FolderControlRecord, Store}

module _ (waits : FolderControlRecord → Bool) where
  -- The record of this folder, if there is one, does not wait.
  abbrev pub IsSettled : Store → Text → Type 0
  IsSettled s id = (r : FolderControlRecord) → lookup id s.records ≡ some r → waits r ≡ false

  -- An entry of a snapshot for this folder that waits.
  abbrev pub Waits : Dict FolderControlRecord → Text → Type 0
  Waits [] id = ⊥
  Waits ((j, r) ∷ m) id = ((j ≡ id) × (waits r ≡ true)) ⊎ Waits m id

  pub skipped :
      (id : Text) (r : FolderControlRecord) (m : Dict FolderControlRecord) (s : Store) (j : Text)
      → waits r ≡ false
      → IsSettled s j ⊎ Waits ((id, r) ∷ m) j
      → IsSettled s j ⊎ Waits m j
  skipped id r m s j e (inl settled) = inl settled
  skipped id r m s j e (inr (inl (same, w))) = absurd (ground arith)
  skipped id r m s j e (inr (inr w)) = inr w

  Waits-or_settled :
      (m : Dict FolderControlRecord) (j : Text)
      → Waits m j ⊎ ((r : FolderControlRecord) → lookup j m ≡ some r → waits r ≡ false)
  unfolding lookup
  Waits-or_settled [] j = inr (λ r e. cc)
  Waits-or_settled ((id, r) ∷ m) j = elim (Waits-or_settled m j) [
    | inl w ↦ inl (inr w)
    | inr f ↦ elim (Bool-cases (text_eq id j)) [
      | inr n ↦ inr (λ q e. f q (ground arith))
      | inl t ↦ elim (Bool-cases (waits r)) [
        | inl w ↦ inl (inl ((text_eq_iff id j).0 t, w))
        | inr c ↦ inr (λ q e. let same : r ≡ q = ground arith in rw (← same) c)
      ]
    ]
  ]

  -- A folder is settled or waits in the snapshot of the records.
  pub snapshot-Waits : (s : Store) (j : Text) → IsSettled s j ⊎ Waits s.records j
  snapshot-Waits s j = elim (Waits-or_settled s.records j) [ inl w ↦ inr w | inr f ↦ inl f ]
