-- ===== src/Control/Handle/Sound.antt =====
-- What a request can bring about.
use leaf_syncthing_pak.Base.{
  true, false, ◌&&◌, equals, codes, is_empty, [], ◌∷◌, All-lookup, ◌≡◌, refl, sym, ◌⊎◌, inl, inr,
  some, Text, lookup, arith, Option-cases, Bool-cases,
}
use leaf_syncthing_pak.Control.Words.{Operation, operations, valid_identifier}
use leaf_syncthing_pak.Control.Handlers.{handler_of}
use leaf_syncthing_pak.Control.Arguments.{Request, Json, Call}
use leaf_syncthing_pak.Control.Calls.{decode_call}
use leaf_syncthing_pak.Control.Calls.Confirmed.{
  needs_confirmation, Confirmed, decode_call-Confirmed,
}
use leaf_syncthing_pak.Control.Calls.Bounds.{IsIdentifier, IsBounded, valid_identifier-IsIdentifier}
use leaf_syncthing_pak.Control.Calls.Bounded.{decode_call-IsBounded}
use leaf_syncthing_pak.Control.Status.{Status, normalize}
use leaf_syncthing_pak.Control.Status.Laws.{normalize_idem}
use leaf_syncthing_pak.Control.Validate.{validate}
use leaf_syncthing_pak.Control.Handle.{
  Operations, ProtocolError, success, finish, dispatch, answer, handle,
}

-- What a client may rely on in a status.
pub record IsReport (id : Text) (t : Status) : Type 0 where
  pub identified : IsIdentifier id
  pub valid : validate t ≡ true
  pub normal : normalize t ≡ t

valid_identifier-full : (t : Text) → valid_identifier t ≡ true → is_empty t ≡ false
unfolding valid_identifier
valid_identifier-full [] h = absurd (ground arith)
valid_identifier-full (c ∷ cs) h = refl

-- The operations' names in the protocol.
abbrev pub name_of : Operation → Text
name_of Operation.get = codes "status.get"
name_of Operation.enroll_card = codes "card.enroll"
name_of Operation.network_set = codes "network.profile.set"
name_of Operation.gateway_open = codes "gateway.open"
name_of Operation.gateway_keep_alive = codes "gateway.keepalive"
name_of Operation.gateway_close = codes "gateway.close"
name_of Operation.gateway_extend = codes "gateway.extend"
name_of Operation.gateway_revoke = codes "gateway.revoke-all"
name_of Operation.folder_pause = codes "folder.pause"
name_of Operation.folder_resume = codes "folder.resume"
name_of Operation.folder_rescan = codes "folder.rescan"
name_of Operation.folder_rename = codes "folder.rename"
name_of Operation.folder_inspect = codes "folder.inspect"
name_of Operation.folder_onboard_plan = codes "folder.onboard.plan"
name_of Operation.folder_offer_plan = codes "folder.offer.plan"
name_of Operation.folder_offer_ignore = codes "folder.offer.ignore"
name_of Operation.folder_offer_restore = codes "folder.offer.restore"
name_of Operation.folder_onboard_create = codes "folder.onboard.create"
name_of Operation.folder_first_sync_prepare = codes "folder.first-sync.prepare"
name_of Operation.folder_first_sync_start = codes "folder.first-sync.start"
name_of Operation.folder_type_set = codes "folder.type.set"
name_of Operation.folder_share = codes "folder.share"
name_of Operation.folder_unshare = codes "folder.unshare"
name_of Operation.folder_stop = codes "folder.stop"
name_of Operation.device_add = codes "device.add"
name_of Operation.device_rename = codes "device.rename"
name_of Operation.device_remove = codes "device.remove"
name_of Operation.reset_prepare = codes "reset.prepare"
name_of Operation.log_level_set = codes "log.level.set"
name_of Operation.diagnostics_export = codes "diagnostics.export"
name_of Operation.storage_cleanup = codes "storage.cleanup"

operations-named :
    (name : Text) (op : Operation) → lookup name operations ≡ some op → name ≡ name_of op
unfolding operations
operations-named name op h = All-lookup (λ e. e.0 ≡ name_of e.1) name op operations (ground arith) h

module _ {ℓ} {S : Type ℓ} (json : Json) (ops : Operations S) where
  -- The call that the request of a payload stands for, with what it needs.
  pub record Performed (payload : Text) (s s' : S) : Type ℓ where
    pub request : Request
    pub parsed : json.request payload ≡ some request
    pub current : equals request.version 1 ≡ true
    pub identified : IsIdentifier request.id
    pub op : Operation
    pub named : request.operation ≡ name_of op
    pub offered : ops.offers (handler_of op) ≡ true
    pub call : Call
    pub decoded : decode_call json op request.arguments ≡ some call
    pub bounded : IsBounded op call
    pub confirmed : (needs_confirmation op ≡ false) ⊎ Confirmed json request.arguments
    pub step : s' ≡ (ops.perform call s).0

  dispatch-cases :
      (id : Text) (op : Operation) (arguments : Text) (s : S)
      → ((dispatch json ops id op arguments s).0 ≡ s)
        ⊎ ((call : Call) × (decode_call json op arguments ≡ some call)
            × (ops.offers (handler_of op) ≡ true)
            × ((dispatch json ops id op arguments s).0 ≡ (ops.perform call s).0))
  unfolding dispatch
  dispatch-cases id op arguments s = elim (Option-cases (decode_call json op arguments)) [
    | inl n ↦ inl (ground arith)
    | inr (call, e) ↦ elim (Bool-cases (ops.offers (handler_of op))) [
      | inl o ↦ inr (call, e, o, ground arith)
      | inr o ↦ inl (ground arith)
    ]
  ]

  answer-Performed :
      (payload : Text) (r : Request) (s : S)
      → json.request payload ≡ some r
      → ((answer json ops r s).0 ≡ s) ⊎ Performed payload s (answer json ops r s).0
  unfolding answer
  answer-Performed payload r s parsed =
      elim (Bool-cases (equals r.version 1 && valid_identifier r.id)) [
        | inr n ↦ inl (ground arith)
        | inl v ↦ elim (Option-cases (lookup r.operation operations)) [
          | inl n ↦ inl (ground arith)
          | inr (op, e) ↦ elim (dispatch-cases r.id op r.arguments s) [
            | inl same ↦ inl (ground arith)
            | inr (call, d, offered, step) ↦ inr (record {
              request = r;
              parsed = parsed;
              current = ground arith;
              identified = valid_identifier-IsIdentifier r.id (ground arith);
              op = op;
              named = operations-named r.operation op e;
              offered = offered;
              call = call;
              decoded = d;
              bounded = decode_call-IsBounded json r.arguments op call d;
              confirmed = elim (Bool-cases (needs_confirmation op)) [
                | inl n ↦ inr (decode_call-Confirmed json op r.arguments call n d)
                | inr n ↦ inl n
              ];
              step = ground (arith, valid_identifier-full r.id);
            })
          ]
        ]
      ]

  -- A request changes nothing, or performs one call: the one that the arguments of the request stand
  -- for under the operation that it names, in the current version and with a valid identifier. The
  -- controller offers the operation, the call is within the bounds of the protocol, and the
  -- arguments confirm it if the operation needs a confirmation.
  pub handle-Performed :
      (payload : Text) (s : S)
      → ((handle json ops payload s).0 ≡ s) ⊎ Performed payload s (handle json ops payload s).0
  unfolding handle
  handle-Performed payload s = elim (Option-cases (json.request payload)) [
    | inl n ↦ inl (rw (n, handle) refl)
    | inr (r, e) ↦ rw (e, handle) (answer-Performed payload r s e)
  ]

  finish-IsReport :
      (id : Text) (o : ProtocolError ⊎ Status) (name : Text) (t : Status)
      → IsIdentifier id
      → finish json ops id o ≡ success name t
      → IsReport name t
  unfolding finish
  finish-IsReport id (inl e) name t i h = cc
  finish-IsReport id (inr u) name t i h =
      let same : id ≡ name = ground arith in
      let is : normalize u ≡ t = ground arith in
      record {
        identified = rw (sym same) i;
        valid = rw (sym is) (ground arith);
        normal = rw (sym is) (normalize_idem u);
      }

  dispatch-IsReport :
      (id : Text) (op : Operation) (arguments : Text) (s : S) (name : Text) (t : Status)
      → IsIdentifier id
      → (dispatch json ops id op arguments s).1 ≡ success name t
      → IsReport name t
  unfolding dispatch
  dispatch-IsReport id op arguments s name t i h =
      elim (Option-cases (decode_call json op arguments)) [
        | inl n ↦ absurd (ground arith)
        | inr (call, e) ↦ finish-IsReport id (ops.perform call s).1 name t i (ground arith)
      ]

  answer-IsReport :
      (r : Request) (s : S) (name : Text) (t : Status)
      → (answer json ops r s).1 ≡ success name t
      → IsReport name t
  unfolding answer
  answer-IsReport r s name t h = elim (Option-cases (lookup r.operation operations)) [
    | inl n ↦ absurd (ground arith)
    | inr (op, e) ↦
        dispatch-IsReport r.id op r.arguments s name t
          (valid_identifier-IsIdentifier r.id (ground arith)) (ground arith)
  ]

  -- A status that answers a request is valid, has no nil list where the protocol has none, and goes
  -- under a valid identifier.
  pub handle-IsReport :
      (payload : Text) (s : S) (id : Text) (t : Status)
      → (handle json ops payload s).1 ≡ success id t
      → IsReport id t
  unfolding handle
  handle-IsReport payload s id t h = elim (Option-cases (json.request payload)) [
    | inl n ↦ absurd (ground arith)
    | inr (r, e) ↦ answer-IsReport r s id t (ground arith)
  ]
