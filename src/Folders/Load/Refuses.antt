-- ===== src/Folders/Load/Refuses.antt =====
-- A state file with a record whose pending mutations conflict stops every later controller start.
use leaf_syncthing_pak.Base.{
  Bool, true, false, not, ◌||◌, ◌≡◌, refl, ◌⊎◌, inl, inr, Option, none, some, List, [], ◌∷◌, arith,
  ◌==◌, Text, is_empty, text_eq, text_eq_iff, text_eq_refl, Dict, lookup, insert, lookup-insert,
  Bool-cases,
}
use leaf_syncthing_pak.Folders.Types.{ConfiguredFolder, Card}
use leaf_syncthing_pak.Folders.Device.{normalize_device_id}
use leaf_syncthing_pak.Folders.Store.{
  FolderControlRecord, FolderControlDocument, Store, StoreErr, document, document_of, Temporary,
  Call, persist_locked,
}
use leaf_syncthing_pak.Folders.Store.Persist.{persist_locked-ok}
use leaf_syncthing_pak.Folders.Ops.{begin_membership, is_operation, put, is_some}
use leaf_syncthing_pak.Folders.Load.{
  local_key, bad_pending, Checked, accepted, refused, Loaded, read_document,
  read_folder_control_state, record_error, validate_records, legacy_folder_binding, register,
  register_all, new_folder_control_store,
}

-- The record of this folder, if any, has conflicting mutations.
abbrev pub stuck : Option FolderControlRecord → Bool
stuck none = false
stuck (some r) = bad_pending r

abbrev pub is_accepted {ℓ} : {A : Type ℓ} → Checked A → Bool
is_accepted (accepted a) = true
is_accepted (refused e) = false

Checked-cases {ℓ} :
    {A : Type ℓ} (o : Checked A) → ((x : StoreErr) × (o ≡ refused x)) ⊎ ((a : A) × (o ≡ accepted a))
Checked-cases (accepted a) = inr (a, refl)
Checked-cases (refused x) = inl (x, refl)

pub operation-nonempty : (o : Text) → is_operation o ≡ true → is_empty o ≡ false
unfolding text_eq
operation-nonempty [] h = cc
operation-nonempty (c ∷ cs) h = refl

module _ (hex_digest : Text → Text) where
  record_error-stuck :
      (id : Text) (r : FolderControlRecord)
      → bad_pending r ≡ true
      → is_some (record_error hex_digest id r) ≡ true
  unfolding record_error
  record_error-stuck id r h = ground arith

  validate-stuck :
      (id : Text) (seen : List Text) (m : Dict FolderControlRecord)
      → stuck (lookup id m) ≡ true
      → is_some (validate_records hex_digest seen m) ≡ true
  unfolding validate_records lookup
  validate-stuck id seen [] h = cc
  validate-stuck id seen ((j, r) ∷ m) h =
      ground (arith, record_error-stuck j r, validate-stuck id (local_key r ∷ seen) m)

  register-stuck :
      (folder : ConfiguredFolder) (inventory : List Card) (found : Option FolderControlRecord)
      (r : FolderControlRecord) (c : Bool)
      → register hex_digest folder inventory found ≡ accepted (r, c)
      → stuck found ≡ true
      → bad_pending r ≡ true
  unfolding register legacy_folder_binding
  register-stuck folder inventory none r c e h = cc
  register-stuck folder inventory (some q) r c e h = ground arith

  register_all-stuck :
      (id : Text) (folders : List ConfiguredFolder) (inventory : List Card)
      (m m' : Dict FolderControlRecord) (c c' : Bool)
      → register_all hex_digest folders inventory m c ≡ accepted (m', c')
      → stuck (lookup id m) ≡ true
      → stuck (lookup id m') ≡ true
  unfolding register_all
  register_all-stuck id [] inventory m m' c c' e h = ground arith
  register_all-stuck id (f ∷ fs) inventory m m' c c' e h =
      go (register hex_digest f inventory (lookup f.id m)) refl
        (λ r d q k. register_all-stuck id fs inventory (insert f.id r m) m' (c || d) c' q k)
    where
      go :
          (o : Checked (FolderControlRecord × Bool))
          → register hex_digest f inventory (lookup f.id m) ≡ o
          → ((r : FolderControlRecord) (d : Bool)
              → register_all hex_digest fs inventory (insert f.id r m) (c || d) ≡ accepted (m', c')
              → stuck (lookup id (insert f.id r m)) ≡ true
              → stuck (lookup id m') ≡ true)
          → stuck (lookup id m') ≡ true
      go (refused x) q ih = ground (arith, rw (q, register_all) at e)
      go (accepted (r, d)) q ih = ih r d (rw (q, register_all) at e) (
          rw lookup-insert (elim (Bool-cases (text_eq f.id id)) [
            | inl same ↦ rw same (
                register-stuck f inventory (lookup f.id m) r d q
                  (rw ((text_eq_iff f.id id).0 same) h))
            | inr other ↦ rw other h
          ]))

  read_document-folders :
      (d : FolderControlDocument) (l : Loaded)
      → read_document d ≡ accepted l
      → (l.records ≡ d.folders) × (l.schema ≡ d.schema)
  unfolding read_document
  read_document-folders d l h = ground arith

  -- Whatever the configured folders and the cards, a start on a state file of schema 2 that holds
  -- such a record is refused.
  pub new_folder_control_store-stuck :
      (works : Call → Bool) (folders : List ConfiguredFolder) (inventory : List Card)
      (d : FolderControlDocument) (t : Temporary) (id : Text)
      → d.schema ≡ 2
      → stuck (lookup id d.folders) ≡ true
      → is_accepted (new_folder_control_store hex_digest works folders inventory (document d) t)
        ≡ false
  unfolding new_folder_control_store read_folder_control_state
  new_folder_control_store-stuck works folders inventory d t id two h =
      elim (Checked-cases (read_document d)) [
        | inl (x, e) ↦ rw (e, new_folder_control_store, read_folder_control_state) refl
        | inr (l, e) ↦
            let (same, schema) = read_document-folders d l e in
            let changed = not l.present || l.schema == 1 in
            let still : stuck (lookup id l.records) ≡ true = rw same h in
            rw (e, new_folder_control_store, read_folder_control_state)
              (elim (Checked-cases (register_all hex_digest folders inventory l.records changed)) [
                | inl (x, q) ↦ rw q refl
                | inr ((m, c), q) ↦
                    let bad =
                      validate-stuck id [] m
                        (register_all-stuck id folders inventory l.records m changed c q still) in
                    rw q (ground arith)
              ])
      ]

  -- `begin_membership` accepts a change on a folder that is being stopped, and no start of the
  -- controller accepts the state file that it then writes: whatever the configured folders and
  -- cards are, and whether calls fail or not. It is supposed that the record of the folder has
  -- neither an addition nor a membership change pending, and that the calls of `begin_membership`
  -- succeed.
  pub begin_membership-stopping :
      (works works' : Call → Bool) (s : Store) (id raw operation device : Text)
      (r : FolderControlRecord) (folders : List ConfiguredFolder) (inventory : List Card)
      (t : Temporary)
      → lookup id s.records ≡ some r
      → r.pending_stop ≡ true
      → r.pending_add ≡ false
      → r.pending_membership ≡ []
      → normalize_device_id raw ≡ some device
      → is_operation operation ≡ true
      → (persist_locked works
          (put id (record r { pending_membership = operation; pending_device_id = device }) s)).1
        ≡ none
      → let (s', e) = begin_membership works id raw operation s in
        (e ≡ none)
        × (is_accepted (new_folder_control_store hex_digest works' folders inventory s'.file t)
            ≡ false)
  unfolding begin_membership document_of
  begin_membership-stopping works works' s id raw operation device r folders inventory t h stop add
        free n op stored =
      let q : FolderControlRecord = record r {
        pending_membership = operation;
        pending_device_id = device;
      } in
      let result : begin_membership works id raw operation s
          ≡ ((persist_locked works (put id q s)).0, none) =
        ground arith in
      let bad : bad_pending q ≡ true = ground (arith, operation-nonempty operation) in
      let inserted : stuck (lookup id (insert id q s.records)) ≡ true =
        rw lookup-insert (rw (text_eq_refl id) bad) in
      rw (result, persist_locked-ok works (put id q s) stored)
        (
          refl,
          new_folder_control_store-stuck works' folders inventory (document_of (put id q s)) t id
              refl inserted,
        )
