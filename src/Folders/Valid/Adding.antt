-- ===== src/Folders/Valid/Adding.antt =====
-- Adding a folder keeps the records well formed: the local key of a card and a kind tells bindings
-- apart.
use leaf_syncthing_pak.Base.{
  Bool, false, ◌≡◌, refl, sym, ◌∙◌, ◌≢◌, inl, inr, none, some, [], ◌∷◌, ◌++◌, length, leb, All,
  arith, Text, Dict, lookup, insert, delete, Option-cases, text_eq_iff,
}
use leaf_syncthing_pak.Folders.Types.{ConfiguredFolder, Card}
use leaf_syncthing_pak.Folders.Device.{binding_names, valid_identity_id}
use leaf_syncthing_pak.Folders.Store.{FolderControlRecord, Store, Call, persist_locked}
use leaf_syncthing_pak.Folders.Store.Persist.{persist_locked-records}
use leaf_syncthing_pak.Folders.Ops.{undo, put, binds, is_some, new_folder_control_record, add}
use leaf_syncthing_pak.Folders.Load.{local_key}
use leaf_syncthing_pak.Folders.Valid.{
  WellFormed, ValidRecords, marker_of, insert_new-ValidRecords, delete-ValidRecords,
}
use leaf_syncthing_pak.Folders.Valid.Steps.{undo-records, Kept-if}

append_inj :
    (xs ys us vs : Text) → length xs ≡ length ys → xs ++ us ≡ ys ++ vs → (xs ≡ ys) × (us ≡ vs)
append_inj [] [] us vs l e = (refl, e)
append_inj [] (y ∷ ys) us vs l e = absurd (omega arith)
append_inj (x ∷ xs) [] us vs l e = absurd (omega arith)
append_inj (x ∷ xs) (y ∷ ys) us vs l e = ground (arith, append_inj xs ys us vs)

module _ (hex_digest : Text → Text) where
  bound-length :
      (card kind marker : Text)
      → marker_of (binding_names hex_digest card kind) ≡ some marker
      → length card ≡ 32
  unfolding binding_names valid_identity_id
  bound-length card kind marker h = ground arith

  local_key_inj :
      (a b : FolderControlRecord)
      → marker_of (binding_names hex_digest a.card_id a.kind) ≡ some a.marker_name
      → marker_of (binding_names hex_digest b.card_id b.kind) ≡ some b.marker_name
      → local_key a ≡ local_key b
      → (a.card_id ≡ b.card_id) × (a.kind ≡ b.kind)
  local_key_inj a b ha hb e =
      let (same, rest) =
        append_inj a.card_id b.card_id (b':' ∷ a.kind) (b':' ∷ b.kind)
          (bound-length a.card_id a.kind a.marker_name ha
            ∙ sym (bound-length b.card_id b.kind b.marker_name hb))
          e in
      (same, cc)

  unbound :
      (r : FolderControlRecord) (m : Dict FolderControlRecord)
      → marker_of (binding_names hex_digest r.card_id r.kind) ≡ some r.marker_name
      → All (WellFormed hex_digest) m
      → binds r.card_id r.kind m ≡ false
      → All (λ f. local_key f.1 ≢ local_key r) m
  unfolding binds
  unbound r [] h a b = tt
  unbound r ((id, f) ∷ m) h a b = (
    (λ q.
        let (card, kind) = local_key_inj f r a.0.bound h q in
        ground (arith, text_eq_iff f.card_id r.card_id, text_eq_iff f.kind r.kind)),
    unbound r m h a.1 (ground arith),
  )

  made-WellFormed :
      (folder : ConfiguredFolder) (card : Card) (pending : Bool)
      → (new_folder_control_record hex_digest folder card).1 ≡ none
      → WellFormed hex_digest (
        folder.id,
        record (new_folder_control_record hex_digest folder card).0 { pending_add = pending },
      )
  unfolding new_folder_control_record
  made-WellFormed folder card pending h = ground arith

  added :
      (works : Call → Bool) (s : Store) (id : Text) (r : FolderControlRecord)
      → ValidRecords hex_digest (insert id r s.records)
      → ValidRecords hex_digest
          (undo
            (λ t. record t { records = delete id t.records })
            (persist_locked works (put id r s))).0.records
  added works s id r v =
      let back : Store → Store = λ t. record t { records = delete id t.records } in
      elim (undo-records back (persist_locked works (put id r s))) [
        | inl q ↦ rw (q, persist_locked-records works (put id r s)) v
        | inr q ↦
            rw (q, persist_locked-records works (put id r s))
              (delete-ValidRecords hex_digest id (insert id r s.records) v)
      ]

  pub add-ValidRecords :
      (works : Call → Bool) (s : Store) (folder : ConfiguredFolder) (card : Card) (pending : Bool)
      → ValidRecords hex_digest s.records
      → ValidRecords hex_digest (add works hex_digest folder card pending s).0.records
  unfolding add
  add-ValidRecords works s folder card pending v =
      elim (Option-cases (new_folder_control_record hex_digest folder card).1) [
        | inr (x, e) ↦ rw (e, add) v
        | inl e ↦
            let made = (new_folder_control_record hex_digest folder card).0 in
            let r : FolderControlRecord = record made { pending_add = pending } in
            let w = made-WellFormed folder card pending e in
            let branch = Kept-if hex_digest works s v in
            rw (e, add)
              (branch (is_some (lookup folder.id s.records)) _ _ (λ _. v)
                λ fresh.
                  branch (leb 16 (length s.records)) _ _ (λ _. v)
                    λ short.
                      branch (binds r.card_id r.kind s.records) _ _ (λ _. v)
                        λ free.
                          let inserted =
                            insert_new-ValidRecords hex_digest folder.id s.records v r
                              (ground arith) (unbound r s.records w.bound v.entries free) w
                              (ground arith) in
                          added works s folder.id r inserted)
      ]
