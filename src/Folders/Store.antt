-- ===== src/Folders/Store.antt =====
-- internal/controller/folder_state.go: the folder control store, its operations and its file.
-- The store's mutex makes each operation one step. A Go map is an association list, and the JSON
-- text of the file is the document that it encodes.
pub mod Persist
use leaf_syncthing_pak.Base.{
  ℕ, zero, suc, ◌+◌, ◌^◌, Bool, true, false, not, ◌&&◌, ◌||◌, Option, none, some, List, [], ◌∷◌,
  ◌++◌, map, length, ltb, leb, any, ◌==◌, if◌then◌else◌, Text, codes, text_eq, is_empty, Dict,
  lookup, insert, delete, text_lt,
}
use leaf_syncthing_pak.Folders.Types.{ConfiguredFolder, Card}
use leaf_syncthing_pak.Folders.Device.{Names, normalize_device_id, valid_folder_id, binding_names}

-- `folderControlRecord`. The epoch is a uint64.
pub record FolderControlRecord : Type 0 where
  pub card_id : Text
  pub kind : Text
  pub marker_name : Text
  pub manual : Bool
  pub first_sync : Bool
  pub first_sync_epoch : ℕ
  pub pending_rescan : Bool
  pub pending_add : Bool
  pub pending_membership : Text
  pub pending_device_id : Text
  pub pending_stop : Bool

pub record IgnoredFolderOffer : Type 0 where
  pub folder_id : Text
  pub device_id : Text

pub record FolderControlDocument : Type 0 where
  pub schema : ℕ
  pub folders : Dict FolderControlRecord
  pub ignored_offers : List IgnoredFolderOffer
  pub pending_device_removal : Text

-- What stands at the path of the state file, and at that path with `.tmp` behind it.
pub data StateFile : Type 0 where
  missing : StateFile
  unsafe : StateFile
  undecodable : StateFile
  document : FolderControlDocument → StateFile

pub data Temporary : Type 0 where
  absent : Temporary
  irregular : Temporary
  regular : Temporary

pub record Store : Type 0 where
  pub records : Dict FolderControlRecord
  pub ignored_offers : Dict IgnoredFolderOffer
  pub pending_device_removal : Text
  pub file : StateFile
  pub temporary : Temporary

pub data StoreErr : Type 0 where
  call_failed unsafe_temporary : StoreErr
  invalid_offer offer_limit : StoreErr
  invalid_removal other_removal removal_mismatch : StoreErr
  unknown_folder epoch_exhausted : StoreErr
  invalid_folder_id invalid_binding known_folder folder_limit bound_already : StoreErr
  invalid_intent no_membership other_membership absent_membership no_stop : StoreErr
  unsafe_file undecodable_file unsupported_file : StoreErr
  incomplete_binding invalid_pending invalid_pending_device duplicate_bindings : StoreErr
  no_unique_card : StoreErr

pub data Call : Type 0 where
  mkdir lstat remove create write sync close rename flush : Call

-- `folderOfferKey`.
abbrev pub folder_offer_key : Text → Text → Text
folder_offer_key folder_id device_id = folder_id ++ 10 ∷ device_id

abbrev offer_before : IgnoredFolderOffer → IgnoredFolderOffer → Bool
offer_before a b =
    text_lt (folder_offer_key a.folder_id a.device_id) (folder_offer_key b.folder_id b.device_id)

sorted_in : IgnoredFolderOffer → List IgnoredFolderOffer → List IgnoredFolderOffer
sorted_in a [] = a ∷ []
sorted_in a (b ∷ bs) = if offer_before b a then b ∷ sorted_in a bs else a ∷ b ∷ bs

unfoldable pub sort_offers : Dict IgnoredFolderOffer → List IgnoredFolderOffer
unfolding sorted_in text_lt
sort_offers [] = []
sort_offers ((k, a) ∷ m) = sorted_in a (sort_offers m)

-- The document that `persistLocked` writes.
unfoldable pub document_of : Store → FolderControlDocument
document_of s = record {
  schema = 2;
  folders = s.records;
  ignored_offers = sort_offers s.ignored_offers;
  pending_device_removal = s.pending_device_removal;
}

abbrev pub Outcome : Type 0
Outcome = Store × Option StoreErr

-- `completeFolderBinding`.
unfoldable pub complete_folder_binding : FolderControlRecord → Bool
complete_folder_binding r =
    not (is_empty r.card_id) && not (is_empty r.kind) && not (is_empty r.marker_name)

-- `works` says which calls of the operating system succeed.
module _ (works : Call → Bool) where
  -- From the opening of the temporary on. Each failure leaves what was done so far.
  write_file : Store → Outcome
  write_file s =
      let opened = record s { temporary = regular } in
      let renamed = record s { temporary = absent; file = document (document_of s) } in
      if not (works create)
      then (s, some call_failed)
      else if not (works write && works sync && works close)
      then (opened, some call_failed)
      else if not (works rename)
      then (opened, some call_failed)
      else if not (works flush)
      then (renamed, some call_failed)
      else (renamed, none)

  remove_temporary : Temporary → Store → Outcome
  unfolding write_file
  remove_temporary absent s = if works lstat then write_file s else (s, some call_failed)
  remove_temporary irregular s =
      if works lstat then (s, some unsafe_temporary) else (s, some call_failed)
  remove_temporary regular s =
      if works lstat && works remove
      then write_file (record s { temporary = absent })
      else (s, some call_failed)

  unfoldable pub persist_locked : Store → Outcome
  unfolding remove_temporary
  persist_locked s = if works mkdir then remove_temporary s.temporary s else (s, some call_failed)
