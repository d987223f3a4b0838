-- ===== src/Folders/Load.antt =====
-- internal/controller/folder_state.go: reading the state file, the migration of old records, and
-- the validation that a controller start makes of them. Go visits a map in no fixed order: where
-- several records are wrong, which error comes first is that of the list here.
pub mod Refuses
use leaf_syncthing_pak.Base.{
  ℕ, zero, suc, ◌+◌, Bool, true, false, not, ◌&&◌, ◌||◌, Option, none, some, List, [], ◌∷◌, ◌++◌,
  map, length, take, drop, all, leb, ltb, any, ◌==◌, if◌then◌else◌, Text, codes, text_eq, is_empty,
  between, Dict, lookup, insert, delete,
}
use leaf_syncthing_pak.Folders.Types.{ConfiguredFolder, Card}
use leaf_syncthing_pak.Folders.Device.{Names, normalize_device_id, valid_folder_id, binding_names}
use leaf_syncthing_pak.Folders.Store.{
  FolderControlRecord, FolderControlDocument, IgnoredFolderOffer, Store, StateFile, missing, unsafe,
  undecodable, document, Temporary, absent, StoreErr, invalid_offer, invalid_folder_id,
  invalid_removal, invalid_binding, unsafe_file, undecodable_file, unsupported_file,
  incomplete_binding, invalid_pending, invalid_pending_device, duplicate_bindings, no_unique_card,
  Call, folder_offer_key, persist_locked, complete_folder_binding,
}
use leaf_syncthing_pak.Folders.Ops.{is_some, is_operation}

-- `localKey`.
abbrev pub local_key : FolderControlRecord → Text
local_key r = r.card_id ++ b':' ∷ r.kind

-- The test of a pending mutation.
abbrev pub bad_pending : FolderControlRecord → Bool
bad_pending r =
    let membership = not (is_empty r.pending_membership) in
    let device = not (is_empty r.pending_device_id) in
    (r.pending_add && (membership || r.pending_stop))
    || (r.pending_stop && membership)
    || ((membership && not device) || (not membership && device))
    || (membership && not (is_operation r.pending_membership))

abbrev pub bad_device : FolderControlRecord → Bool
bad_device r =
    not (is_empty r.pending_device_id) && not (is_some (normalize_device_id r.pending_device_id))

-- `stringsManagedFolderID`.
abbrev is_hex_digit : ℕ → Bool
is_hex_digit c = between b'0' b'9' c || between b'a' b'f' c

abbrev has_prefix : Text → Text → Bool
has_prefix p value =
    length value == length p + 16
    && text_eq (take (length p) value) p
    && all is_hex_digit (drop (length p) value)

strings_managed_folder_id : Text → Bool
strings_managed_folder_id value =
    has_prefix (codes "leaf-saves-") value || has_prefix (codes "leaf-states-") value

-- The results of `readFolderControlState`, and of the functions below that may refuse.
pub data Checked {ℓ} (A : Type ℓ) : Type ℓ where
  accepted : A → Checked A
  refused : StoreErr → Checked A

infixl 5 ◌>>=◌
abbrev ◌>>=◌ {ℓ κ} : {A : Type ℓ} {B : Type κ} → Checked A → (A → Checked B) → Checked B
accepted a >>= f = f a
refused e >>= f = refused e

pub record Loaded : Type 0 where
  pub records : Dict FolderControlRecord
  pub ignored_offers : Dict IgnoredFolderOffer
  pub pending_device_removal : Text
  pub schema : ℕ
  pub present : Bool

-- The loop over the offers of the document.
read_offers : List IgnoredFolderOffer → Dict IgnoredFolderOffer → Checked (Dict IgnoredFolderOffer)
read_offers [] m = accepted m
read_offers (o ∷ os) m = elim (normalize_device_id o.device_id) [
  | none ↦ refused invalid_offer
  | some device_id ↦
      let key = folder_offer_key o.folder_id device_id in
      if not (valid_folder_id o.folder_id)
      then refused invalid_offer
      else if is_some (lookup key m)
      then refused invalid_offer
      else read_offers os (insert key (record o { device_id = device_id }) m)
]

read_removal : Text → Checked Text
read_removal [] = accepted []
read_removal (c ∷ cs) = elim (normalize_device_id (c ∷ cs)) [
  | none ↦ refused invalid_removal
  | some device_id ↦ accepted device_id
]

abbrev valid_key : ℕ → Text → Bool
valid_key schema id = if schema == 1 then strings_managed_folder_id id else valid_folder_id id

read_document : FolderControlDocument → Checked Loaded
unfolding read_removal
read_document d =
    if not (d.schema == 1 || d.schema == 2)
      || ltb 16 (length d.folders)
      || ltb 32 (length d.ignored_offers)
    then refused unsupported_file
    else if not (all (λ e. valid_key d.schema e.0) d.folders)
    then refused invalid_folder_id
    else do
      offers ← read_offers d.ignored_offers []
      removal ← read_removal d.pending_device_removal
      accepted (record {
        records = d.folders;
        ignored_offers = offers;
        pending_device_removal = removal;
        schema = d.schema;
        present = true;
      })

pub read_folder_control_state : StateFile → Checked Loaded
read_folder_control_state missing = accepted (record {
  records = [];
  ignored_offers = [];
  pending_device_removal = [];
  schema = 0;
  present = false;
})
read_folder_control_state unsafe = refused unsafe_file
read_folder_control_state undecodable = refused undecodable_file
read_folder_control_state (document d) = read_document d

module _ (hex_digest : Text → Text) where
  -- What `validateFolderControlRecords` finds wrong with one record.
  unfoldable pub record_error : Text → FolderControlRecord → Option StoreErr
  record_error id r =
      if not (valid_folder_id id) || not (complete_folder_binding r)
      then some incomplete_binding
      else elim (binding_names hex_digest r.card_id r.kind) [
        | none ↦ some invalid_binding
        | some names ↦
            if not (text_eq names.marker_name r.marker_name)
            then some invalid_binding
            else if bad_pending r
            then some invalid_pending
            else if bad_device r
            then some invalid_pending_device
            else none
      ]

  -- The loop of `validateFolderControlRecords`, over the local keys met so far.
  unfoldable pub validate_records : List Text → Dict FolderControlRecord → Option StoreErr
  validate_records seen [] = none
  validate_records seen ((id, r) ∷ m) =
      let rest = validate_records (local_key r ∷ seen) m in
      elim (record_error id r) [
        | some e ↦ some e
        | none ↦ if any (λ k. text_eq k (local_key r)) seen then some duplicate_bindings else rest
      ]

  -- `legacyFolderBinding`: the card whose names fit the folder, and how many do.
  abbrev fits : ConfiguredFolder → Card → Bool
  fits folder card = elim (binding_names hex_digest card.identity_id folder.kind) [
    | none ↦ false
    | some names ↦ text_eq names.folder_id folder.id && text_eq names.marker_name folder.marker_name
  ]

  legacy_matches : ConfiguredFolder → List Card → List Card
  legacy_matches folder [] = []
  legacy_matches folder (card ∷ cards) =
      let rest = legacy_matches folder cards in if fits folder card then card ∷ rest else rest

  pub legacy_folder_binding :
      ConfiguredFolder → List Card → FolderControlRecord → Checked FolderControlRecord
  unfolding legacy_matches
  legacy_folder_binding folder inventory r = elim (legacy_matches folder inventory) [
    | [] ↦ refused no_unique_card
    | card ∷ [] ↦ accepted (record r {
      card_id = card.identity_id;
      kind = folder.kind;
      marker_name = folder.marker_name;
    })
    | _ ∷ _ ∷ _ ↦ refused no_unique_card
  ]

  -- One round of the loop of `newFolderControlStore`: the record that it stores, and whether it
  -- changed.
  abbrev current : Option FolderControlRecord → FolderControlRecord × Bool
  current none = (
    record {
      card_id = [];
      kind = [];
      marker_name = [];
      manual = false;
      first_sync = true;
      first_sync_epoch = 1;
      pending_rescan = false;
      pending_add = false;
      pending_membership = [];
      pending_device_id = [];
      pending_stop = false;
    },
    true,
  )
  current (some r) =
      if r.first_sync_epoch == 0 then (record r { first_sync_epoch = 1 }, true) else (r, false)

  register :
      ConfiguredFolder
      → List Card
      → Option FolderControlRecord
      → Checked (FolderControlRecord × Bool)
  unfolding legacy_folder_binding
  register folder inventory found =
      let (r, changed) = current found in
      if complete_folder_binding r
      then accepted (r, changed)
      else do bound ← legacy_folder_binding folder inventory r; accepted (bound, true)

  register_all :
      List ConfiguredFolder
      → List Card
      → Dict FolderControlRecord
      → Bool
      → Checked (Dict FolderControlRecord × Bool)
  unfolding register
  register_all [] inventory records changed = accepted (records, changed)
  register_all (folder ∷ folders) inventory records changed =
      elim (register folder inventory (lookup folder.id records)) [
        | refused e ↦ refused e
        | accepted (r, c) ↦
            register_all folders inventory (insert folder.id r records) (changed || c)
      ]

  -- The records of schema 1 that no configured folder names are dropped.
  abbrev drop_unconfigured :
      List ConfiguredFolder → Dict FolderControlRecord → Dict FolderControlRecord
  drop_unconfigured folders [] = []
  drop_unconfigured folders ((id, r) ∷ m) =
      let rest = drop_unconfigured folders m in
      if any (λ f. text_eq f.id id) folders then (id, r) ∷ rest else rest

  abbrev migrated : ℕ → List ConfiguredFolder → Dict FolderControlRecord → Dict FolderControlRecord
  migrated schema folders records =
      if schema == 1 then drop_unconfigured folders records else records

  pub new_folder_control_store :
      (works : Call → Bool)
      → List ConfiguredFolder
      → List Card
      → StateFile
      → Temporary
      → Checked Store
  new_folder_control_store works folders inventory file temporary = do
    loaded ← read_folder_control_state file
    registered ←
        register_all folders inventory loaded.records (not loaded.present || loaded.schema == 1)
    let records = migrated loaded.schema folders registered.0
    let store : Store = record {
      records = records;
      ignored_offers = loaded.ignored_offers;
      pending_device_removal = loaded.pending_device_removal;
      file = file;
      temporary = temporary;
    }
    let (stored, e) = persist_locked works store
    elim (validate_records [] records) [
      | some x ↦ refused x
      | none ↦
          if registered.1
          then elim e [ none ↦ accepted stored | some x ↦ refused x ]
          else accepted store
    ]
