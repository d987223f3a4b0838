-- ===== src/Control/Calls/Confirmed.antt =====
-- The operations that change what cannot be taken back need a confirmation.
use leaf_syncthing_pak.Base.{
  Bool, true, false, ◌≡◌, refl, ◌⊎◌, inl, inr, Option, none, some, List, Text, codes, Dict, lookup,
  arith,
}
use leaf_syncthing_pak.Control.Words.{
  Operation, get, enroll_card, network_set, gateway_open, gateway_keep_alive, gateway_close,
  gateway_extend, gateway_revoke, folder_pause, folder_resume, folder_rescan, folder_rename,
  folder_inspect, folder_onboard_plan, folder_offer_plan, folder_offer_ignore, folder_offer_restore,
  folder_onboard_create, folder_first_sync_prepare, folder_first_sync_start, folder_type_set,
  folder_share, folder_unshare, folder_stop, device_add, device_rename, device_remove,
  reset_prepare, log_level_set, diagnostics_export, storage_cleanup,
}
use leaf_syncthing_pak.Control.Arguments.{
  Json, Fields, Call, given, ◌>>=◌, text_at, or_empty, decode_confirmed, decode_network_profile,
  decode_folder_membership, decode_onboarding_create, decode_first_sync_prepare,
  decode_first_sync_start, decode_folder_type, decode_confirmed_id, decode_reset, decode_log_level,
  decode_storage_cleanup,
}
use leaf_syncthing_pak.Control.Calls.{decode_call}

-- The operations that are performed only when confirmed.
abbrev pub needs_confirmation : Operation → Bool
needs_confirmation network_set = true
needs_confirmation gateway_extend = true
needs_confirmation gateway_revoke = true
needs_confirmation folder_offer_ignore = true
needs_confirmation folder_offer_restore = true
needs_confirmation folder_onboard_create = true
needs_confirmation folder_first_sync_prepare = true
needs_confirmation folder_first_sync_start = true
needs_confirmation folder_type_set = true
needs_confirmation folder_share = true
needs_confirmation folder_unshare = true
needs_confirmation folder_stop = true
needs_confirmation device_remove = true
needs_confirmation reset_prepare = true
needs_confirmation log_level_set = true
needs_confirmation storage_cleanup = true
needs_confirmation _ = false

pub bind-some :
    {A B : Type 0} (m : Option A) (f : A → Option B) (b : B)
    → (m >>= f) ≡ some b
    → (a : A) × (m ≡ some a) × (f a ≡ some b)
bind-some none f b e = cc
bind-some (some a) f b e = (a, refl, e)

pub given-true : {B : Type 0} (t : Bool) (b c : B) → given t b ≡ some c → t ≡ true
given-true true b c e = refl
given-true false b c e = cc

module _ (json : Json) where
  -- The arguments say `confirmed`: as a field of a struct, or as a key of an object.
  abbrev pub Confirmed : Text → Type 0
  Confirmed raw =
      ((fields : List Text) × (a : Fields) × (json.strict fields raw ≡ some a)
        × (a.confirmed ≡ true))
      ⊎ ((m : Dict Text) × (json.object raw ≡ some m)
          × (json.flag (or_empty (lookup (codes "confirmed") m)) ≡ some true))

  -- Through a struct.
  struct-Confirmed :
      {B : Type 0} (fields : List Text) (raw : Text) (test : Fields → Bool) (make : Fields → B)
      (b : B)
      → ((a : Fields) → test a ≡ true → a.confirmed ≡ true)
      → (json.strict fields raw >>= λ a. given (test a) (make a)) ≡ some b
      → Confirmed raw
  struct-Confirmed fields raw test make b confirms e =
      let (a, k, g) = bind-some (json.strict fields raw) (λ a. given (test a) (make a)) b e in
      inl (fields, a, k, confirms a (given-true (test a) (make a) b g))

  -- Through an object.
  decode_confirmed_id-Confirmed :
      (raw field value : Text) → decode_confirmed_id json raw field ≡ some value → Confirmed raw
  unfolding decode_confirmed_id
  decode_confirmed_id-Confirmed raw field value e =
      let (m, o, e₁) = bind-some (json.object raw) _ value e in
      let (v, t, e₂) = bind-some (text_at json raw m field) _ value e₁ in
      let (b, f, e₃) = bind-some (json.flag (or_empty (lookup (codes "confirmed") m))) _ value e₂ in
      inr (m, o, ground arith)

  module _ (raw : Text) where
    decode_confirmed-Confirmed : (u : Unit) → decode_confirmed json raw ≡ some u → Confirmed raw
    unfolding decode_confirmed
    decode_confirmed-Confirmed u e = struct-Confirmed _ raw _ _ u (λ a t. t) e

    decode_network_profile-Confirmed :
        (p : Text) → decode_network_profile json raw ≡ some p → Confirmed raw
    unfolding decode_network_profile
    decode_network_profile-Confirmed p e = struct-Confirmed _ raw _ _ p (λ a t. ground arith) e

    decode_folder_membership-Confirmed :
        (v : Text × Text) → decode_folder_membership json raw ≡ some v → Confirmed raw
    unfolding decode_folder_membership
    decode_folder_membership-Confirmed v e = struct-Confirmed _ raw _ _ v (λ a t. ground arith) e

    decode_onboarding_create-Confirmed :
        (v : Call) → decode_onboarding_create json raw ≡ some v → Confirmed raw
    unfolding decode_onboarding_create
    decode_onboarding_create-Confirmed v e = struct-Confirmed _ raw _ _ v (λ a t. ground arith) e

    decode_first_sync_prepare-Confirmed :
        (v : Text) → decode_first_sync_prepare json raw ≡ some v → Confirmed raw
    unfolding decode_first_sync_prepare
    decode_first_sync_prepare-Confirmed v e = struct-Confirmed _ raw _ _ v (λ a t. ground arith) e

    decode_first_sync_start-Confirmed :
        (v : Call) → decode_first_sync_start json raw ≡ some v → Confirmed raw
    unfolding decode_first_sync_start
    decode_first_sync_start-Confirmed v e = struct-Confirmed _ raw _ _ v (λ a t. ground arith) e

    decode_folder_type-Confirmed : (v : Call) → decode_folder_type json raw ≡ some v → Confirmed raw
    unfolding decode_folder_type
    decode_folder_type-Confirmed v e = struct-Confirmed _ raw _ _ v (λ a t. ground arith) e

    decode_reset-Confirmed : (v : Text) → decode_reset json raw ≡ some v → Confirmed raw
    unfolding decode_reset
    decode_reset-Confirmed v e = struct-Confirmed _ raw _ _ v (λ a t. ground arith) e

    decode_log_level-Confirmed : (v : Text) → decode_log_level json raw ≡ some v → Confirmed raw
    unfolding decode_log_level
    decode_log_level-Confirmed v e = struct-Confirmed _ raw _ _ v (λ a t. ground arith) e

    decode_storage_cleanup-Confirmed :
        (v : Call) → decode_storage_cleanup json raw ≡ some v → Confirmed raw
    unfolding decode_storage_cleanup
    decode_storage_cleanup-Confirmed v e = struct-Confirmed _ raw _ _ v (λ a t. ground arith) e

  -- A call of an operation that needs a confirmation comes only from arguments that confirm it.
  pub decode_call-Confirmed :
      (op : Operation) (raw : Text) (call : Call)
      → needs_confirmation op ≡ true
      → decode_call json op raw ≡ some call
      → Confirmed raw
  unfolding decode_call
  decode_call-Confirmed get raw call n e = cc
  decode_call-Confirmed enroll_card raw call n e = cc
  decode_call-Confirmed network_set raw call n e =
      let (v, k, _) = bind-some (decode_network_profile json raw) _ call e in
      decode_network_profile-Confirmed raw v k
  decode_call-Confirmed gateway_open raw call n e = cc
  decode_call-Confirmed gateway_keep_alive raw call n e = cc
  decode_call-Confirmed gateway_close raw call n e = cc
  decode_call-Confirmed gateway_extend raw call n e =
      let (v, k, _) = bind-some (decode_confirmed json raw) _ call e in
      decode_confirmed-Confirmed raw v k
  decode_call-Confirmed gateway_revoke raw call n e =
      let (v, k, _) = bind-some (decode_confirmed json raw) _ call e in
      decode_confirmed-Confirmed raw v k
  decode_call-Confirmed folder_pause raw call n e = cc
  decode_call-Confirmed folder_resume raw call n e = cc
  decode_call-Confirmed folder_rescan raw call n e = cc
  decode_call-Confirmed folder_rename raw call n e = cc
  decode_call-Confirmed folder_inspect raw call n e = cc
  decode_call-Confirmed folder_onboard_plan raw call n e = cc
  decode_call-Confirmed folder_offer_plan raw call n e = cc
  decode_call-Confirmed folder_offer_ignore raw call n e =
      let (v, k, _) = bind-some (decode_folder_membership json raw) _ call e in
      decode_folder_membership-Confirmed raw v k
  decode_call-Confirmed folder_offer_restore raw call n e =
      let (v, k, _) = bind-some (decode_folder_membership json raw) _ call e in
      decode_folder_membership-Confirmed raw v k
  decode_call-Confirmed folder_onboard_create raw call n e =
      decode_onboarding_create-Confirmed raw call e
  decode_call-Confirmed folder_first_sync_prepare raw call n e =
      let (v, k, _) = bind-some (decode_first_sync_prepare json raw) _ call e in
      decode_first_sync_prepare-Confirmed raw v k
  decode_call-Confirmed folder_first_sync_start raw call n e =
      decode_first_sync_start-Confirmed raw call e
  decode_call-Confirmed folder_type_set raw call n e = decode_folder_type-Confirmed raw call e
  decode_call-Confirmed folder_share raw call n e =
      let (v, k, _) = bind-some (decode_folder_membership json raw) _ call e in
      decode_folder_membership-Confirmed raw v k
  decode_call-Confirmed folder_unshare raw call n e =
      let (v, k, _) = bind-some (decode_folder_membership json raw) _ call e in
      decode_folder_membership-Confirmed raw v k
  decode_call-Confirmed folder_stop raw call n e =
      let (v, k, _) = bind-some (decode_confirmed_id json raw (codes "folder_id")) _ call e in
      decode_confirmed_id-Confirmed raw (codes "folder_id") v k
  decode_call-Confirmed device_add raw call n e = cc
  decode_call-Confirmed device_rename raw call n e = cc
  decode_call-Confirmed device_remove raw call n e =
      let (v, k, _) = bind-some (decode_confirmed_id json raw (codes "device_id")) _ call e in
      decode_confirmed_id-Confirmed raw (codes "device_id") v k
  decode_call-Confirmed reset_prepare raw call n e =
      let (v, k, _) = bind-some (decode_reset json raw) _ call e in decode_reset-Confirmed raw v k
  decode_call-Confirmed log_level_set raw call n e =
      let (v, k, _) = bind-some (decode_log_level json raw) _ call e in
      decode_log_level-Confirmed raw v k
  decode_call-Confirmed diagnostics_export raw call n e = cc
  decode_call-Confirmed storage_cleanup raw call n e = decode_storage_cleanup-Confirmed raw call e
