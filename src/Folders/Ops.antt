-- ===== src/Folders/Ops.antt =====
-- internal/controller/folder_state.go: the operations of the folder control store.
use leaf_syncthing_pak.Base.{
  ℕ, ◌+◌, ◌-◌, ◌^◌, Bool, true, false, not, ◌&&◌, ◌||◌, Option, none, some, [], ◌∷◌, length, leb,
  any, ◌==◌, if◌then◌else◌, Text, codes, text_eq, is_empty, Dict, lookup, insert, delete,
}
use leaf_syncthing_pak.Folders.Types.{ConfiguredFolder, Card}
use leaf_syncthing_pak.Folders.Device.{normalize_device_id, valid_folder_id, binding_names}
use leaf_syncthing_pak.Folders.Store.{
  FolderControlRecord, IgnoredFolderOffer, Store, StoreErr, invalid_offer, offer_limit,
  invalid_removal, other_removal, removal_mismatch, unknown_folder, epoch_exhausted,
  invalid_folder_id, invalid_binding, known_folder, folder_limit, bound_already, invalid_intent,
  no_membership, other_membership, absent_membership, no_stop, Call, folder_offer_key, Outcome,
  persist_locked,
}

abbrev pub is_some {ℓ} : {A : Type ℓ} → Option A → Bool
is_some none = false
is_some (some a) = true

-- The writes that an operation takes back where it could not persist them.
abbrev pub undo : (Store → Store) → Outcome → Outcome
undo back (s, none) = (s, none)
undo back (s, some e) = (back s, some e)

abbrev pub put : Text → FolderControlRecord → Store → Store
put id r s = record s { records = insert id r s.records }

abbrev pub put_offer : Text → IgnoredFolderOffer → Store → Store
put_offer key offer s = record s { ignored_offers = insert key offer s.ignored_offers }

abbrev pub drop_offer : Text → Store → Store
drop_offer key s = record s { ignored_offers = delete key s.ignored_offers }

abbrev pub max_uint64 : ℕ
max_uint64 = 2 ^ 64 - 1

abbrev pub is_operation : Text → Bool
is_operation operation = text_eq operation (codes "share") || text_eq operation (codes "unshare")

-- Those of one device, and the others, as the loop of `CompleteDeviceRemoval` parts them.
unfoldable pub offers_of : Text → Dict IgnoredFolderOffer → Dict IgnoredFolderOffer
offers_of device [] = []
offers_of device ((k, o) ∷ m) =
    let rest = offers_of device m in if text_eq o.device_id device then (k, o) ∷ rest else rest

unfoldable pub offers_without : Text → Dict IgnoredFolderOffer → Dict IgnoredFolderOffer
offers_without device [] = []
offers_without device ((k, o) ∷ m) =
    let rest = offers_without device m in if text_eq o.device_id device then rest else (k, o) ∷ rest

unfoldable pub put_offers :
    Dict IgnoredFolderOffer → Dict IgnoredFolderOffer → Dict IgnoredFolderOffer
put_offers [] m = m
put_offers ((k, o) ∷ os) m = put_offers os (insert k o m)

-- `newFolderControlRecord`.
unfoldable pub new_folder_control_record :
    (Text → Text) → ConfiguredFolder → Card → FolderControlRecord × Option StoreErr
unfolding text_eq
new_folder_control_record hex_digest folder card =
    let nothing : FolderControlRecord = record {
      card_id = [];
      kind = [];
      marker_name = [];
      manual = false;
      first_sync = false;
      first_sync_epoch = 0;
      pending_rescan = false;
      pending_add = false;
      pending_membership = [];
      pending_device_id = [];
      pending_stop = false;
    } in
    if not (valid_folder_id folder.id)
    then (nothing, some invalid_folder_id)
    else elim (binding_names hex_digest card.identity_id folder.kind) [
      | none ↦ (nothing, some invalid_binding)
      | some names ↦
          if not (text_eq names.marker_name folder.marker_name)
          then (nothing, some invalid_binding)
          else (
            record nothing {
              card_id = card.identity_id;
              kind = folder.kind;
              marker_name = names.marker_name;
              first_sync = true;
              first_sync_epoch = 1;
            },
            none,
          )
    ]

-- Some record binds this card and kind.
unfoldable pub binds : Text → Text → Dict FolderControlRecord → Bool
binds card_id kind m = any (λ e. text_eq e.1.card_id card_id && text_eq e.1.kind kind) m

module _ (works : Call → Bool) where
  unfoldable pub set_offer_ignored : Text → Text → Bool → Store → Outcome
  set_offer_ignored folder_id raw ignored s = elim (normalize_device_id raw) [
    | none ↦ (s, some invalid_offer)
    | some device_id ↦
        let key = folder_offer_key folder_id device_id in
        let offer : IgnoredFolderOffer = record { folder_id = folder_id; device_id = device_id } in
        let present = is_some (lookup key s.ignored_offers) in
        if not (valid_folder_id folder_id)
        then (s, some invalid_offer)
        else if (present && ignored) || (not present && not ignored)
        then (s, none)
        else if ignored
        then if leb 32 (length s.ignored_offers)
          then (s, some offer_limit)
          else undo (drop_offer key) (persist_locked works (put_offer key offer s))
        else undo (put_offer key offer) (persist_locked works (drop_offer key s))
  ]

  unfoldable pub begin_device_removal : Text → Store → Outcome
  begin_device_removal raw s = elim (normalize_device_id raw) [
    | none ↦ (s, some invalid_removal)
    | some device_id ↦
        if not (is_empty s.pending_device_removal)
        then if text_eq s.pending_device_removal device_id
          then (s, none)
          else (s, some other_removal)
        else undo (λ t. record t { pending_device_removal = [] })
            (persist_locked works (record s { pending_device_removal = device_id }))
  ]

  unfoldable pub complete_device_removal : Text → Store → Outcome
  complete_device_removal raw s = elim (normalize_device_id raw) [
    | none ↦ (s, some invalid_removal)
    | some device_id ↦
        let removed = offers_of device_id s.ignored_offers in
        if not (text_eq s.pending_device_removal device_id)
        then (s, some removal_mismatch)
        else undo
            (λ t. record t {
              pending_device_removal = device_id;
              ignored_offers = put_offers removed t.ignored_offers;
            })
            (persist_locked works (record s {
              pending_device_removal = [];
              ignored_offers = offers_without device_id s.ignored_offers;
            }))
  ]

  unfoldable pub set_manual : Text → Bool → Store → Outcome
  set_manual id manual s = elim (lookup id s.records) [
    | none ↦ (s, some unknown_folder)
    | some r ↦ persist_locked works (put id (record r { manual = manual }) s)
  ]

  unfoldable pub set_pending_rescan : Text → Bool → Store → Outcome
  set_pending_rescan id pending s = elim (lookup id s.records) [
    | none ↦ (s, some unknown_folder)
    | some r ↦ persist_locked works (put id (record r { pending_rescan = pending }) s)
  ]

  unfoldable pub set_first_sync : Text → Bool → Store → Outcome
  set_first_sync id pending s = elim (lookup id s.records) [
    | none ↦ (s, some unknown_folder)
    | some r ↦
        if (r.first_sync && pending) || (not r.first_sync && not pending)
        then (s, none)
        else persist_locked works (put id (record r { first_sync = pending }) s)
  ]

  unfoldable pub require_first_sync : Text → Store → Outcome
  require_first_sync id s = elim (lookup id s.records) [
    | none ↦ (s, some unknown_folder)
    | some r ↦
        if r.first_sync_epoch == max_uint64
        then (s, some epoch_exhausted)
        else persist_locked works
            (put id (record r { first_sync = true; first_sync_epoch = r.first_sync_epoch + 1 }) s)
  ]

  -- `add`; `Add` and `BeginAdd` pass false and true.
  unfoldable pub add :
      (hex_digest : Text → Text) → ConfiguredFolder → Card → (pending : Bool) → Store → Outcome
  add hex_digest folder card pending s =
      let (made, e) = new_folder_control_record hex_digest folder card in
      let r = record made { pending_add = pending } in
      elim e [
        | some x ↦ (s, some x)
        | none ↦
            if is_some (lookup folder.id s.records)
            then (s, some known_folder)
            else if leb 16 (length s.records)
            then (s, some folder_limit)
            else if binds r.card_id r.kind s.records
            then (s, some bound_already)
            else undo (λ t. record t { records = delete folder.id t.records })
                (persist_locked works (put folder.id r s))
      ]

  unfoldable pub activate : Text → Store → Outcome
  activate id s = elim (lookup id s.records) [
    | none ↦ (s, some unknown_folder)
    | some r ↦
        if not r.pending_add
        then (s, none)
        else undo (put id (record r { pending_add = true }))
            (persist_locked works (put id (record r { pending_add = false }) s))
  ]

  unfoldable pub remove : Text → Store → Outcome
  remove id s = elim (lookup id s.records) [
    | none ↦ (s, none)
    | some r ↦ undo (put id r) (persist_locked works (record s { records = delete id s.records }))
  ]

  unfoldable pub begin_membership : Text → Text → Text → Store → Outcome
  begin_membership id raw operation s = elim (normalize_device_id raw) [
    | none ↦ (s, some invalid_intent)
    | some device_id ↦
        if not (is_operation operation)
        then (s, some invalid_intent)
        else elim (lookup id s.records) [
          | none ↦ (s, some no_membership)
          | some r ↦
              if r.pending_add
              then (s, some no_membership)
              else if not (is_empty r.pending_membership)
              then if text_eq r.pending_membership operation
                  && text_eq r.pending_device_id device_id
                then (s, none)
                else (s, some other_membership)
              else undo (put id (record r { pending_membership = []; pending_device_id = [] })) (
                  persist_locked works (
                    put id
                      (record r { pending_membership = operation; pending_device_id = device_id })
                      s))
        ]
  ]

  unfoldable pub complete_membership : Text → Store → Outcome
  complete_membership id s = elim (lookup id s.records) [
    | none ↦ (s, some absent_membership)
    | some r ↦
        if is_empty r.pending_membership
        then (s, some absent_membership)
        else undo (put id r) (
            persist_locked works
              (put id (record r { pending_membership = []; pending_device_id = [] }) s))
  ]

  unfoldable pub begin_stop : Text → Store → Outcome
  begin_stop id s = elim (lookup id s.records) [
    | none ↦ (s, some no_stop)
    | some r ↦
        if r.pending_add || not (is_empty r.pending_membership)
        then (s, some no_stop)
        else if r.pending_stop
        then (s, none)
        else undo (put id (record r { pending_stop = false }))
            (persist_locked works (put id (record r { pending_stop = true }) s))
  ]
