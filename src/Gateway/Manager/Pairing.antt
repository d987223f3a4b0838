-- ===== src/Gateway/Manager/Pairing.antt =====
-- internal/gateway/gateway.go: pairing a browser, logging one out, and the limits on failures.
use leaf_syncthing_pak.Base.{
  ℕ, ◌-◌, Bool, true, false, not, ◌&&◌, ◌||◌, Option, none, some, List, [], ◌∷◌, ◌++◌, length, ltb,
  leb, ◌==◌, if◌then◌else◌, Text, codes, text_eq, is_empty, Dict, lookup, insert,
}
use leaf_syncthing_pak.Gateway.Trust.{issue, authenticate, revoke}
use leaf_syncthing_pak.Gateway.Manager.{
  PairingOffer, Instance, Manager, per_source_window, global_window, set_trust,
}

-- What the handlers read of an HTTP request. The referer is absent where `url.Parse` fails, else
-- its scheme and host; the body is absent where it does not decode, else its two fields.
pub record ControlRequest : Type 0 where
  pub host : Text
  pub csrf : Text
  pub origin : Text
  pub referer : Option (Text × Text)
  pub cookie : Option Text
  pub body : Option (Text × Text)
  pub source : Text

pub data Reply : Type 0 where
  forbidden bad_request too_many_requests unauthorized internal_error : Reply
  no_content : (cookie : Text) → Reply

abbrev same_origin : Instance → ControlRequest → Bool
same_origin i request =
    if not (is_empty request.origin)
    then text_eq request.origin (codes "https://" ++ i.host)
    else elim request.referer [
      | none ↦ false
      | some (scheme, host) ↦ text_eq scheme (codes "https") && text_eq host i.host
    ]

unfoldable pub valid_control_request : Manager → ControlRequest → Bool
valid_control_request m request = elim m.instance [
  | none ↦ false
  | some i ↦
      text_eq request.host i.host
      && not (is_empty m.control_csrf)
      && text_eq request.csrf m.control_csrf
      && same_origin i request
]

unfoldable pub recent : List ℕ → ℕ → List ℕ
recent [] threshold = []
recent (v ∷ vs) threshold =
    let rest = recent vs threshold in if ltb v threshold then rest else v ∷ vs

-- The loop over the sources: those left with no failure are deleted.
unfoldable pub recent_by_source : Dict (List ℕ) → ℕ → Dict (List ℕ)
recent_by_source [] threshold = []
recent_by_source ((k, vs) ∷ m) threshold =
    let rest = recent_by_source m threshold in
    elim (recent vs threshold) [ [] ↦ rest | u ∷ us ↦ (k, u ∷ us) ∷ rest ]

unfoldable pub prune_failures : ℕ → Manager → Manager
prune_failures now m = record m {
  failed_global = recent m.failed_global (now - global_window);
  failed_by_source = recent_by_source m.failed_by_source (now - per_source_window);
}

abbrev pub failures_of : Text → Manager → List ℕ
failures_of source m = elim (lookup source m.failed_by_source) [ none ↦ [] | some vs ↦ vs ]

-- The PIN or the token of the offer, before it expires.
unfoldable pub matches : ℕ → Option PairingOffer → Text → Text → Bool
matches now none pin token = false
matches now (some o) pin token =
    ltb now o.expires
    && ((not (is_empty pin) && length pin == 4 && text_eq pin o.pin)
        || (not (is_empty token) && text_eq token o.token))

-- The branch of a pairing that does not match.
unfoldable pub note_failure : Text → ℕ → Manager → Manager
note_failure source now m =
    let global = m.failed_global ++ now ∷ [] in
    let noted = record m {
      failed_by_source = insert source (failures_of source m ++ now ∷ []) m.failed_by_source;
      failed_global = global;
    } in
    if leb 20 (length global) then record noted { pairing_locked = true; offer = none } else noted

module _ (hash_of : Text → Text) where
  -- From the decoded body on.
  unfoldable pub pair :
      (stored : Bool) → ℕ → (fresh : Option Text) → Text → Text → Text → Manager → Manager × Reply
  pair stored now fresh source pin token m =
      let pruned = prune_failures now m in
      let (t, issued) = issue hash_of stored now fresh pruned.trust in
      if pruned.pairing_locked || leb 5 (length (failures_of source pruned))
      then (pruned, too_many_requests)
      else if not (matches now pruned.offer pin token)
      then (note_failure source now pruned, unauthorized)
      else (
        record pruned { offer = none; trust = t },
        elim issued [ none ↦ internal_error | some secret ↦ no_content secret ],
      )

  unfoldable pub submit_pairing :
      (stored : Bool) → ℕ → (fresh : Option Text) → ControlRequest → Manager → Manager × Reply
  submit_pairing stored now fresh request m =
      if not (valid_control_request m request) then (m, forbidden) else elim request.body [
        | none ↦ (m, bad_request)
        | some (pin, token) ↦
            if (is_empty pin && is_empty token) || (not (is_empty pin) && not (is_empty token))
            then (m, bad_request)
            else pair stored now fresh request.source pin token m
      ]

  -- `Authenticate` and `Revoke` each write the file.
  unfoldable pub logout : (stored stored' : Bool) → ℕ → ControlRequest → Manager → Manager × Reply
  logout stored stored' now request m =
      if not (valid_control_request m request) then (m, forbidden) else elim request.cookie [
        | none ↦ (m, unauthorized)
        | some cookie ↦
            let (t, trusted) = authenticate hash_of stored now cookie m.trust in
            let (u, revoked) = revoke hash_of stored' cookie t in
            if not trusted
            then (set_trust t m, unauthorized)
            else if not revoked
            then (set_trust u m, internal_error)
            else (set_trust u m, no_content [])
      ]
