-- ===== src/Control/Arguments.antt =====
-- internal/uicontrol/protocol.go: the arguments of the operations, decoded and checked. Each decoder
-- returns `none` for an error.
use leaf_syncthing_pak.Base.{
  ℕ, Bool, true, false, not, ◌&&◌, ◌||◌, Option, none, some, List, [], ◌∷◌, all, length, ltb, ◌==◌,
  if◌then◌else◌, Text, codes, text_eq, is_empty, Dict, lookup, ℤ, is_negative, above,
}
use leaf_syncthing_pak.Control.Words.{
  Operation, valid_identifier, valid_display_text, is_content_kind, is_folder_type,
}

-- The fields of the decoders' structs; those that a struct does not have, or the text leaves out,
-- are zero.
pub record Fields : Type 0 where
  pub confirmed : Bool
  pub profile : Text
  pub source_id : Text
  pub kind : Text
  pub folder_type : Text
  pub device_ids : List Text
  pub folder_id : Text
  pub device_id : Text
  pub plan_id : Text
  pub states_warning_acknowledged : Bool
  pub manual_edit_acknowledged : Bool
  pub snapshot_limit_acknowledged : Bool
  pub hub_versioning_acknowledged : Bool
  pub action : Text
  pub confirmation : Text
  pub level : Text
  pub card_suffix : Text
  pub category : Text
  pub name : Text
  pub bytes : ℤ

pub record Request : Type 0 where
  pub version : ℤ
  pub id : Text
  pub operation : Text
  pub arguments : Text

-- encoding/json, on texts. `request` and `strict` are a decoder that refuses unknown fields (`strict`
-- for the struct with the listed ones) and then finds the end; `object` is a map that is not null,
-- and the end; `text` and `flag` are `json.Unmarshal` into a string and a bool.
pub record Json : Type 0 where
  pub request : Text → Option Request
  pub strict : List Text → Text → Option Fields
  pub object : Text → Option (Dict Text)
  pub text : Text → Option Text
  pub flag : Text → Option Bool

-- What an operation asks of the controller.
pub data Call : Type 0 where
  status : Call
  enroll : (source_id : Text) → Call
  set_network_profile : (profile : Text) → Call
  gateway_action : Operation → Call
  folder_action : Operation → (folder_id label : Text) → Call
  inspect_folder : (folder_id : Text) → Call
  plan_folder : (source_id kind folder_type : Text) → List Text → Call
  plan_folder_offer : (folder_id device_id source_id kind folder_type : Text) → Call
  folder_offer_action : Operation → (folder_id device_id : Text) → Call
  create_folder : (plan_id : Text) → (states manual : Bool) → Call
  prepare_first_sync : (folder_id : Text) → Call
  start_first_sync : (folder_id : Text) → Bool → Call
  set_folder_type : (folder_id folder_type : Text) → Call
  folder_membership : Operation → (folder_id device_id : Text) → Call
  device_action : Operation → (device_id name : Text) → Call
  prepare_reset : (action : Text) → Call
  set_log_level : (level : Text) → Call
  export_diagnostics : Call
  cleanup_storage : (card_suffix category kind name : Text) → ℤ → Call

abbrev pub given {ℓ} : {A : Type ℓ} → Bool → A → Option A
given true a = some a
given false a = none

infixl 5 ◌>>=◌
abbrev pub ◌>>=◌ {ℓ κ} : {A : Type ℓ} {B : Type κ} → Option A → (A → Option B) → Option B
none >>= f = none
some a >>= f = f a

abbrev confirmed_field : List Text
confirmed_field = codes "confirmed" ∷ []

-- The phrase that a reset action must be confirmed by.
abbrev pub reset_phrase : Text → Text
reset_phrase action =
    if text_eq action (codes "index-only")
    then codes "RESET INDEX"
    else if text_eq action (codes "full")
    then codes "RESET SYNCTHING"
    else if text_eq action (codes "available-only")
    then codes "RESET AVAILABLE STATE"
    else []

-- A key that is not there is the empty text, which does not decode.
abbrev pub or_empty : Option Text → Text
or_empty none = []
or_empty (some t) = t

module _ (json : Json) (raw : Text) where
  unfoldable pub empty_object : Bool
  empty_object = elim (json.object raw) [ none ↦ false | some [] ↦ true | some (e ∷ es) ↦ false ]

  unfoldable pub decode_confirmed : Option (Unit {0})
  decode_confirmed = do a ← json.strict confirmed_field raw; given a.confirmed tt

  unfoldable pub decode_network_profile : Option Text
  decode_network_profile = do
    a ← json.strict (codes "profile" ∷ confirmed_field) raw
    given
        (a.confirmed
          && (text_eq a.profile (codes "lan-only") || text_eq a.profile (codes "sync-anywhere")))
        a.profile

  unfoldable pub decode_enroll_card : Option Text
  decode_enroll_card = do
    a ← json.strict (codes "source_id" ∷ []) raw
    given (valid_identifier a.source_id) a.source_id

  unfoldable pub decode_onboarding_plan : Option Call
  decode_onboarding_plan = do
    a ←
        json.strict
          (codes "source_id" ∷ codes "kind" ∷ codes "folder_type" ∷ codes "device_ids" ∷ []) raw
    given
        (valid_identifier a.source_id
          && is_content_kind a.kind
          && is_folder_type a.folder_type
          && not (length a.device_ids == 0 || ltb 32 (length a.device_ids))
          && all valid_identifier a.device_ids)
        (plan_folder a.source_id a.kind a.folder_type a.device_ids)

  unfoldable pub decode_folder_offer_plan : Option Call
  decode_folder_offer_plan = do
    a ←
        json.strict
          (codes "folder_id"
            ∷ codes "device_id"
            ∷ codes "source_id"
            ∷ codes "kind"
            ∷ codes "folder_type"
            ∷ [])
          raw
    given
        (valid_identifier a.folder_id
          && valid_identifier a.device_id
          && valid_identifier a.source_id
          && is_content_kind a.kind
          && is_folder_type a.folder_type)
        (plan_folder_offer a.folder_id a.device_id a.source_id a.kind a.folder_type)

  unfoldable pub decode_folder_membership : Option (Text × Text)
  decode_folder_membership = do
    a ← json.strict (codes "folder_id" ∷ codes "device_id" ∷ confirmed_field) raw
    given (a.confirmed && valid_identifier a.folder_id && valid_identifier a.device_id)
        (a.folder_id, a.device_id)

  unfoldable pub decode_onboarding_create : Option Call
  decode_onboarding_create = do
    a ←
        json.strict
          (codes "plan_id"
            ∷ codes "confirmed"
            ∷ codes "states_warning_acknowledged"
            ∷ codes "manual_edit_warning_acknowledged"
            ∷ [])
          raw
    given
        (length a.plan_id == 32
          && valid_identifier a.plan_id
          && a.confirmed
          && a.manual_edit_acknowledged)
        (create_folder a.plan_id a.states_warning_acknowledged a.manual_edit_acknowledged)

  unfoldable pub decode_first_sync_prepare : Option Text
  decode_first_sync_prepare = do
    a ←
        json.strict
          (codes "folder_id" ∷ codes "confirmed" ∷ codes "snapshot_limit_acknowledged" ∷ []) raw
    given (valid_identifier a.folder_id && a.confirmed && a.snapshot_limit_acknowledged) a.folder_id

  unfoldable pub decode_first_sync_start : Option Call
  decode_first_sync_start = do
    a ←
        json.strict
          (codes "folder_id" ∷ codes "confirmed" ∷ codes "hub_versioning_acknowledged" ∷ []) raw
    given (valid_identifier a.folder_id && a.confirmed && a.hub_versioning_acknowledged)
        (start_first_sync a.folder_id a.hub_versioning_acknowledged)

  unfoldable pub decode_folder_type : Option Call
  decode_folder_type = do
    a ← json.strict (codes "folder_id" ∷ codes "folder_type" ∷ confirmed_field) raw
    given (valid_identifier a.folder_id && a.confirmed && is_folder_type a.folder_type)
        (set_folder_type a.folder_id a.folder_type)

  -- One field of the map, with `json.Unmarshal` into a string.
  unfoldable pub text_at : Dict Text → Text → Option Text
  text_at arguments field = do encoded ← lookup field arguments; json.text encoded

  unfoldable pub decode_id : (field : Text) → Option Text
  decode_id field = do
    arguments ← json.object raw
    value ← text_at arguments field
    given (length arguments == 1 && valid_identifier value) value

  unfoldable pub decode_confirmed_id : (field : Text) → Option Text
  unfolding lookup text_eq
  decode_confirmed_id field = do
    arguments ← json.object raw
    value ← text_at arguments field
    confirmed ← json.flag (or_empty (lookup (codes "confirmed") arguments))
    given (length arguments == 2 && valid_identifier value && confirmed) value

  unfoldable pub decode_named : (id_field name_field : Text) → ℕ → Option (Text × Text)
  decode_named id_field name_field max_name = do
    arguments ← json.object raw
    id ← text_at arguments id_field
    name ← text_at arguments name_field
    given
        (length arguments == 2
          && not (is_empty id || ltb 256 (length id))
          && valid_display_text name max_name)
        (id, name)

  unfoldable pub decode_reset : Option Text
  unfolding text_eq
  decode_reset = do
    a ← json.strict (codes "action" ∷ codes "confirmed" ∷ codes "confirmation" ∷ []) raw
    given
        (a.confirmed
          && not (is_empty (reset_phrase a.action))
          && text_eq a.confirmation (reset_phrase a.action))
        a.action

  unfoldable pub decode_log_level : Option Text
  decode_log_level = do
    a ← json.strict (codes "level" ∷ confirmed_field) raw
    given (a.confirmed && (text_eq a.level (codes "normal") || text_eq a.level (codes "debug")))
        a.level

  unfoldable pub decode_storage_cleanup : Option Call
  decode_storage_cleanup = do
    a ←
        json.strict
          (codes "card_suffix"
            ∷ codes "category"
            ∷ codes "kind"
            ∷ codes "name"
            ∷ codes "bytes"
            ∷ confirmed_field)
          raw
    given
        (a.confirmed
          && valid_display_text a.card_suffix 16
          && (text_eq a.category (codes "snapshot") || text_eq a.category (codes "versions"))
          && is_content_kind a.kind
          && valid_display_text a.name 128
          && not (is_negative a.bytes || above a.bytes 9007199254740991))
        (cleanup_storage a.card_suffix a.category a.kind a.name a.bytes)
