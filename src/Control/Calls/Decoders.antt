-- ===== src/Control/Calls/Decoders.antt =====
-- What the decoders of the arguments accept is within the bounds.
use leaf_syncthing_pak.Base.{
  ℕ, ◌≡◌, refl, sym, ◌⊎◌, some, [], ◌∷◌, Text, codes, text_eq_iff, lookup, arith,
}
use leaf_syncthing_pak.Control.Words.{
  folder_onboard_plan, folder_offer_plan, folder_onboard_create, folder_first_sync_start,
  folder_type_set, storage_cleanup, valid_identifier,
}
use leaf_syncthing_pak.Control.Arguments.{
  Json, Call, plan_folder, plan_folder_offer, create_folder, start_first_sync, set_folder_type,
  cleanup_storage, text_at, or_empty, decode_network_profile, decode_enroll_card,
  decode_onboarding_plan, decode_folder_offer_plan, decode_folder_membership,
  decode_onboarding_create, decode_first_sync_prepare, decode_first_sync_start, decode_folder_type,
  decode_id, decode_confirmed_id, decode_named, decode_reset, decode_log_level,
  decode_storage_cleanup,
}
use leaf_syncthing_pak.Control.Calls.Confirmed.{bind-some}
use leaf_syncthing_pak.Control.Calls.Bounds.{
  IsIdentifier, IsDisplay, IsSubject, IsBounded, all-All, valid_identifier-IsIdentifier,
  valid_display_text-IsDisplay, is_content_kind-IsKind, is_folder_type-IsFolderType, bytes-IsCount,
}

module _ (json : Json) (raw : Text) where
  pub decode_network_profile-bounded :
      (p : Text)
      → decode_network_profile json raw ≡ some p
      → (p ≡ codes "lan-only") ⊎ (p ≡ codes "sync-anywhere")
  unfolding decode_network_profile
  decode_network_profile-bounded p e =
      let (a, k, g) =
        bind-some (json.strict (codes "profile" ∷ codes "confirmed" ∷ []) raw) _ p e in
      let same : a.profile ≡ p = ground arith in
      rw (sym same) (
        ground (
          arith,
          text_eq_iff a.profile (codes "lan-only"),
          text_eq_iff a.profile (codes "sync-anywhere"),
        ))

  pub decode_enroll_card-IsIdentifier :
      (id : Text) → decode_enroll_card json raw ≡ some id → IsIdentifier id
  unfolding decode_enroll_card
  decode_enroll_card-IsIdentifier id e =
      let (a, k, g) = bind-some (json.strict (codes "source_id" ∷ []) raw) _ id e in
      let same : a.source_id ≡ id = ground arith in
      rw (sym same) (valid_identifier-IsIdentifier a.source_id (ground arith))

  pub decode_onboarding_plan-IsBounded :
      (c : Call) → decode_onboarding_plan json raw ≡ some c → IsBounded folder_onboard_plan c
  unfolding decode_onboarding_plan
  decode_onboarding_plan-IsBounded c e =
      let (a, k, g) =
        bind-some
          (json.strict
            (codes "source_id" ∷ codes "kind" ∷ codes "folder_type" ∷ codes "device_ids" ∷ []) raw)
          _ c e in
      let same : plan_folder a.source_id a.kind a.folder_type a.device_ids ≡ c = ground arith in
      rw (sym same) (
        (
          refl,
          valid_identifier-IsIdentifier a.source_id (ground arith),
          is_content_kind-IsKind a.kind (ground arith),
          is_folder_type-IsFolderType a.folder_type (ground arith),
          ground arith,
          ground arith,
          all-All valid_identifier IsIdentifier a.device_ids valid_identifier-IsIdentifier
              (ground arith),
        ))

  pub decode_folder_offer_plan-IsBounded :
      (c : Call) → decode_folder_offer_plan json raw ≡ some c → IsBounded folder_offer_plan c
  unfolding decode_folder_offer_plan
  decode_folder_offer_plan-IsBounded c e =
      let (a, k, g) =
        bind-some
          (json.strict
            (codes "folder_id"
              ∷ codes "device_id"
              ∷ codes "source_id"
              ∷ codes "kind"
              ∷ codes "folder_type"
              ∷ [])
            raw)
          _ c e in
      let same : plan_folder_offer a.folder_id a.device_id a.source_id a.kind a.folder_type ≡ c =
        ground arith in
      rw (sym same) (
        (
          refl,
          valid_identifier-IsIdentifier a.folder_id (ground arith),
          valid_identifier-IsIdentifier a.device_id (ground arith),
          valid_identifier-IsIdentifier a.source_id (ground arith),
          is_content_kind-IsKind a.kind (ground arith),
          is_folder_type-IsFolderType a.folder_type (ground arith),
        ))

  pub decode_folder_membership-bounded :
      (v : Text × Text)
      → decode_folder_membership json raw ≡ some v
      → IsIdentifier v.0 × IsIdentifier v.1
  unfolding decode_folder_membership
  decode_folder_membership-bounded v e =
      let (a, k, g) =
        bind-some (json.strict (codes "folder_id" ∷ codes "device_id" ∷ codes "confirmed" ∷ []) raw)
          _ v e in
      let same : (a.folder_id, a.device_id) ≡ v = ground arith in
      rw (sym same) (
        (
          valid_identifier-IsIdentifier a.folder_id (ground arith),
          valid_identifier-IsIdentifier a.device_id (ground arith),
        ))

  pub decode_onboarding_create-IsBounded :
      (c : Call) → decode_onboarding_create json raw ≡ some c → IsBounded folder_onboard_create c
  unfolding decode_onboarding_create
  decode_onboarding_create-IsBounded c e =
      let (a, k, g) =
        bind-some
          (json.strict
            (codes "plan_id"
              ∷ codes "confirmed"
              ∷ codes "states_warning_acknowledged"
              ∷ codes "manual_edit_warning_acknowledged"
              ∷ [])
            raw)
          _ c e in
      let same : create_folder a.plan_id a.states_warning_acknowledged a.manual_edit_acknowledged
          ≡ c =
        ground arith in
      rw (sym same)
        ((refl, ground arith, valid_identifier-IsIdentifier a.plan_id (ground arith), ground arith))

  pub decode_first_sync_prepare-IsIdentifier :
      (id : Text) → decode_first_sync_prepare json raw ≡ some id → IsIdentifier id
  unfolding decode_first_sync_prepare
  decode_first_sync_prepare-IsIdentifier id e =
      let (a, k, g) =
        bind-some
          (json.strict
            (codes "folder_id" ∷ codes "confirmed" ∷ codes "snapshot_limit_acknowledged" ∷ []) raw)
          _ id e in
      let same : a.folder_id ≡ id = ground arith in
      rw (sym same) (valid_identifier-IsIdentifier a.folder_id (ground arith))

  pub decode_first_sync_start-IsBounded :
      (c : Call) → decode_first_sync_start json raw ≡ some c → IsBounded folder_first_sync_start c
  unfolding decode_first_sync_start
  decode_first_sync_start-IsBounded c e =
      let (a, k, g) =
        bind-some
          (json.strict
            (codes "folder_id" ∷ codes "confirmed" ∷ codes "hub_versioning_acknowledged" ∷ []) raw)
          _ c e in
      let same : start_first_sync a.folder_id a.hub_versioning_acknowledged ≡ c = ground arith in
      rw (sym same) ((refl, valid_identifier-IsIdentifier a.folder_id (ground arith), ground arith))

  pub decode_folder_type-IsBounded :
      (c : Call) → decode_folder_type json raw ≡ some c → IsBounded folder_type_set c
  unfolding decode_folder_type
  decode_folder_type-IsBounded c e =
      let (a, k, g) =
        bind-some
          (json.strict (codes "folder_id" ∷ codes "folder_type" ∷ codes "confirmed" ∷ []) raw) _ c
          e in
      let same : set_folder_type a.folder_id a.folder_type ≡ c = ground arith in
      rw (sym same) (
        (
          refl,
          valid_identifier-IsIdentifier a.folder_id (ground arith),
          is_folder_type-IsFolderType a.folder_type (ground arith),
        ))

  pub decode_id-IsIdentifier :
      (field id : Text) → decode_id json raw field ≡ some id → IsIdentifier id
  unfolding decode_id
  decode_id-IsIdentifier field id e =
      let (m, o, e₁) = bind-some (json.object raw) _ id e in
      let (v, t, e₂) = bind-some (text_at json raw m field) _ id e₁ in
      let same : v ≡ id = ground arith in
      rw (sym same) (valid_identifier-IsIdentifier v (ground arith))

  pub decode_confirmed_id-IsIdentifier :
      (field id : Text) → decode_confirmed_id json raw field ≡ some id → IsIdentifier id
  unfolding decode_confirmed_id
  decode_confirmed_id-IsIdentifier field id e =
      let (m, o, e₁) = bind-some (json.object raw) _ id e in
      let (v, t, e₂) = bind-some (text_at json raw m field) _ id e₁ in
      let (b, f, e₃) = bind-some (json.flag (or_empty (lookup (codes "confirmed") m))) _ id e₂ in
      let same : v ≡ id = ground arith in
      rw (sym same) (valid_identifier-IsIdentifier v (ground arith))

  pub decode_named-bounded :
      (id_field name_field : Text) (maximum : ℕ) (v : Text × Text)
      → decode_named json raw id_field name_field maximum ≡ some v
      → IsSubject v.0 × IsDisplay maximum v.1
  unfolding decode_named
  decode_named-bounded id_field name_field maximum v e =
      let (m, o, e₁) = bind-some (json.object raw) _ v e in
      let (id, t, e₂) = bind-some (text_at json raw m id_field) _ v e₁ in
      let (name, u, e₃) = bind-some (text_at json raw m name_field) _ v e₂ in
      let same : (id, name) ≡ v = ground arith in
      rw (sym same)
        ((ground arith, ground arith), valid_display_text-IsDisplay name maximum (ground arith))

  pub decode_reset-bounded :
      (action : Text)
      → decode_reset json raw ≡ some action
      → (action ≡ codes "index-only")
        ⊎ ((action ≡ codes "full") ⊎ (action ≡ codes "available-only"))
  unfolding decode_reset
  decode_reset-bounded action e =
      let (a, k, g) =
        bind-some (json.strict (codes "action" ∷ codes "confirmed" ∷ codes "confirmation" ∷ []) raw)
          _ action e in
      let same : a.action ≡ action = ground arith in
      rw (sym same) (
        ground (
          arith,
          text_eq_iff a.action (codes "index-only"),
          text_eq_iff a.action (codes "full"),
          text_eq_iff a.action (codes "available-only"),
        ))

  pub decode_log_level-bounded :
      (level : Text)
      → decode_log_level json raw ≡ some level
      → (level ≡ codes "normal") ⊎ (level ≡ codes "debug")
  unfolding decode_log_level
  decode_log_level-bounded level e =
      let (a, k, g) =
        bind-some (json.strict (codes "level" ∷ codes "confirmed" ∷ []) raw) _ level e in
      let same : a.level ≡ level = ground arith in
      rw (sym same)
        (ground (arith, text_eq_iff a.level (codes "normal"), text_eq_iff a.level (codes "debug")))

  pub decode_storage_cleanup-IsBounded :
      (c : Call) → decode_storage_cleanup json raw ≡ some c → IsBounded storage_cleanup c
  unfolding decode_storage_cleanup
  decode_storage_cleanup-IsBounded c e =
      let (a, k, g) =
        bind-some
          (json.strict
            (codes "card_suffix"
              ∷ codes "category"
              ∷ codes "kind"
              ∷ codes "name"
              ∷ codes "bytes"
              ∷ codes "confirmed"
              ∷ [])
            raw)
          _ c e in
      let same : cleanup_storage a.card_suffix a.category a.kind a.name a.bytes ≡ c =
        ground arith in
      rw (sym same) (
        (
          refl,
          valid_display_text-IsDisplay a.card_suffix 16 (ground arith),
          ground (
            arith,
            text_eq_iff a.category (codes "snapshot"),
            text_eq_iff a.category (codes "versions"),
          ),
          is_content_kind-IsKind a.kind (ground arith),
          valid_display_text-IsDisplay a.name 128 (ground arith),
          bytes-IsCount a.bytes (ground arith) (ground arith),
        ))
