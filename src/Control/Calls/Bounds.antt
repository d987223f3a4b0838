-- ===== src/Control/Calls/Bounds.antt =====
-- The bounds of the protocol on the call of an operation.
use leaf_syncthing_pak.Base.{
  ℕ, Bool, true, false, ◌≡◌, sym, ◌⊎◌, ◌≤◌, ◌<◌, some, List, [], ◌∷◌, length, all, All, Text, codes,
  text_eq_iff, arith, ℤ, pos, negsuc, is_negative, above,
}
use leaf_syncthing_pak.Control.Words.{
  Operation, get, enroll_card, network_set, folder_rename, folder_inspect, folder_onboard_plan,
  folder_offer_plan, folder_onboard_create, folder_first_sync_prepare, folder_first_sync_start,
  folder_type_set, device_remove, reset_prepare, log_level_set, diagnostics_export, storage_cleanup,
  max_identifier, is_identifier_char, is_display_char, valid_identifier, valid_display_text,
  is_content_kind, is_folder_type,
}
use leaf_syncthing_pak.Control.Arguments.{
  Call, status, enroll, set_network_profile, gateway_action, folder_action, inspect_folder,
  plan_folder, plan_folder_offer, folder_offer_action, create_folder, prepare_first_sync,
  start_first_sync, set_folder_type, folder_membership, device_action, prepare_reset, set_log_level,
  export_diagnostics, cleanup_storage, given,
}

-- One to sixty-four characters that an identifier may have.
pub record IsIdentifier (t : Text) : Type 0 where
  pub nonempty : 0 < length t
  pub short : length t ≤ max_identifier
  pub characters : All (λ c. is_identifier_char c ≡ true) t

-- A text of bounded length without control characters.
pub record IsDisplay (maximum : ℕ) (t : Text) : Type 0 where
  pub nonempty : 0 < length t
  pub short : length t ≤ maximum
  pub characters : All (λ c. is_display_char c ≡ true) t

abbrev pub IsKind : Text → Type 0
IsKind t = (t ≡ codes "saves") ⊎ (t ≡ codes "states")

abbrev pub IsFolderType : Text → Type 0
IsFolderType t = (t ≡ codes "sendonly") ⊎ ((t ≡ codes "sendreceive") ⊎ (t ≡ codes "receiveonly"))

abbrev pub IsSubject : Text → Type 0
IsSubject t = (0 < length t) × (length t ≤ 256)

abbrev pub IsCount : ℤ → Type 0
IsCount (pos n) = n ≤ 9007199254740991
IsCount (negsuc n) = ⊥

-- The call of an operation, with arguments within the bounds.
abbrev pub IsBounded : Operation → Call → Type 0
IsBounded op status = op ≡ get
IsBounded op (enroll source_id) = (op ≡ enroll_card) × IsIdentifier source_id
IsBounded op (set_network_profile profile) =
    (op ≡ network_set) × ((profile ≡ codes "lan-only") ⊎ (profile ≡ codes "sync-anywhere"))
IsBounded op (gateway_action o) = op ≡ o
IsBounded op (folder_action folder_rename folder_id label) =
    (op ≡ folder_rename) × IsSubject folder_id × IsDisplay 96 label
IsBounded op (folder_action o folder_id label) = (op ≡ o) × IsIdentifier folder_id × (label ≡ [])
IsBounded op (inspect_folder folder_id) = (op ≡ folder_inspect) × IsIdentifier folder_id
IsBounded op (plan_folder source_id kind folder_type device_ids) =
    (op ≡ folder_onboard_plan)
    × IsIdentifier source_id
    × IsKind kind
    × IsFolderType folder_type
    × (0 < length device_ids)
    × (length device_ids ≤ 32)
    × All IsIdentifier device_ids
IsBounded op (plan_folder_offer folder_id device_id source_id kind folder_type) =
    (op ≡ folder_offer_plan)
    × IsIdentifier folder_id
    × IsIdentifier device_id
    × IsIdentifier source_id
    × IsKind kind
    × IsFolderType folder_type
IsBounded op (folder_offer_action o folder_id device_id) =
    (op ≡ o) × IsIdentifier folder_id × IsIdentifier device_id
IsBounded op (create_folder plan_id states manual) =
    (op ≡ folder_onboard_create) × (length plan_id ≡ 32) × IsIdentifier plan_id × (manual ≡ true)
IsBounded op (prepare_first_sync folder_id) =
    (op ≡ folder_first_sync_prepare) × IsIdentifier folder_id
IsBounded op (start_first_sync folder_id hub) =
    (op ≡ folder_first_sync_start) × IsIdentifier folder_id × (hub ≡ true)
IsBounded op (set_folder_type folder_id folder_type) =
    (op ≡ folder_type_set) × IsIdentifier folder_id × IsFolderType folder_type
IsBounded op (folder_membership o folder_id device_id) =
    (op ≡ o) × IsIdentifier folder_id × IsIdentifier device_id
IsBounded op (device_action device_remove device_id name) =
    (op ≡ device_remove) × IsIdentifier device_id × (name ≡ [])
IsBounded op (device_action o device_id name) = (op ≡ o) × IsSubject device_id × IsDisplay 64 name
IsBounded op (prepare_reset action) =
    (op ≡ reset_prepare)
    × ((action ≡ codes "index-only")
        ⊎ ((action ≡ codes "full") ⊎ (action ≡ codes "available-only")))
IsBounded op (set_log_level level) =
    (op ≡ log_level_set) × ((level ≡ codes "normal") ⊎ (level ≡ codes "debug"))
IsBounded op export_diagnostics = op ≡ diagnostics_export
IsBounded op (cleanup_storage card_suffix category kind name bytes) =
    (op ≡ storage_cleanup)
    × IsDisplay 16 card_suffix
    × ((category ≡ codes "snapshot") ⊎ (category ≡ codes "versions"))
    × IsKind kind
    × IsDisplay 128 name
    × IsCount bytes

pub all-All :
    {A : Type 0} (p : A → Bool) (P : A → Type 0) (xs : List A)
    → ((x : A) → p x ≡ true → P x)
    → all p xs ≡ true
    → All P xs
all-All p P [] f h = tt
all-All p P (x ∷ xs) f h = (f x (ground arith), all-All p P xs f (ground arith))

pub valid_identifier-IsIdentifier : (t : Text) → valid_identifier t ≡ true → IsIdentifier t
unfolding valid_identifier
valid_identifier-IsIdentifier t h = record {
  nonempty = ground arith;
  short = ground arith;
  characters = all-All is_identifier_char _ t (λ c k. k) (ground arith);
}

pub valid_display_text-IsDisplay :
    (t : Text) (maximum : ℕ) → valid_display_text t maximum ≡ true → IsDisplay maximum t
unfolding valid_display_text
valid_display_text-IsDisplay t maximum h = record {
  nonempty = ground arith;
  short = ground arith;
  characters = all-All is_display_char _ t (λ c k. k) (ground arith);
}

pub is_content_kind-IsKind : (t : Text) → is_content_kind t ≡ true → IsKind t
is_content_kind-IsKind t h =
    ground (arith, text_eq_iff t (codes "saves"), text_eq_iff t (codes "states"))

pub is_folder_type-IsFolderType : (t : Text) → is_folder_type t ≡ true → IsFolderType t
is_folder_type-IsFolderType t h = ground (
  arith,
  text_eq_iff t (codes "sendonly"),
  text_eq_iff t (codes "sendreceive"),
  text_eq_iff t (codes "receiveonly"),
)

pub bytes-IsCount : (n : ℤ) → is_negative n ≡ false → above n 9007199254740991 ≡ false → IsCount n
bytes-IsCount (pos n) h k = ground arith
bytes-IsCount (negsuc n) h k = cc

pub some-IsBounded :
    (op : Operation) (c call : Call) → IsBounded op c → some c ≡ some call → IsBounded op call
some-IsBounded op c call h e = let same : c ≡ call = ground arith in rw (sym same) h

pub given-IsBounded :
    (op : Operation) (t : Bool) (c call : Call)
    → IsBounded op c
    → given t c ≡ some call
    → IsBounded op call
given-IsBounded op true c call h e = some-IsBounded op c call h e
given-IsBounded op false c call h e = cc
