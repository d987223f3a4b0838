-- ===== src/Control/Handle.antt =====
-- internal/uicontrol/protocol.go: `Operations.Handle`. The controller behind it is a state, and the
-- operations that it offers.
pub mod Sound
use leaf_syncthing_pak.Base.{
  Bool, true, false, not, Option, none, some, List, [], ◌∷◌, ◌⊎◌, inl, inr, Text, codes, is_empty,
  lookup, if◌then◌else◌, equals,
}
use leaf_syncthing_pak.Control.Words.{Operation, operations, valid_identifier}
use leaf_syncthing_pak.Control.Handlers.{Handler, handler_of}
use leaf_syncthing_pak.Control.Arguments.{Request, Json, Call}
use leaf_syncthing_pak.Control.Calls.{decode_call}
use leaf_syncthing_pak.Control.Status.{Status, normalize}
use leaf_syncthing_pak.Control.Validate.{validate}

pub record ProtocolError : Type 0 where
  pub code : Text
  pub message : Text

pub data Code : Type 0 where
  bad_request unsupported_version unsupported_op bad_arguments internal : Code

-- An error of `Handle` itself, an error of an operation, or a status.
pub data Response : Type 0 where
  failure : (id : Text) → Code → Response
  failed : (id : Text) → ProtocolError → Response
  success : (id : Text) → Status → Response

abbrev pub is_get : Operation → Bool
is_get Operation.get = true
is_get _ = false

-- What a controller with states in `S` offers, and does with a call.
pub record Operations {ℓ} (S : Type ℓ) : Type ℓ where
  pub offers : Handler → Bool
  pub perform : Call → S → S × (ProtocolError ⊎ Status)

module _ {ℓ} {S : Type ℓ} (json : Json) (ops : Operations S) where
  -- The answer after the switch.
  unfoldable pub finish : Text → ProtocolError ⊎ Status → Response
  finish id (inl e) = failed id e
  finish id (inr s) =
      if not (validate (normalize s)) then failure id internal else success id (normalize s)

  -- A case of the switch. `status.get` looks at its arguments first.
  unfoldable pub dispatch : Text → Operation → Text → S → S × Response
  dispatch id op arguments s =
      let call = decode_call json op arguments in
      if is_get op
      then elim call [
        | none ↦ (s, failure id bad_arguments)
        | some c ↦
            if not (ops.offers (handler_of op))
            then (s, failure id internal)
            else let (s', outcome) = ops.perform c s in (s', finish id outcome)
      ]
      else if not (ops.offers (handler_of op))
      then (s, failure id unsupported_op)
      else elim call [
        | none ↦ (s, failure id bad_arguments)
        | some c ↦ let (s', outcome) = ops.perform c s in (s', finish id outcome)
      ]

  unfoldable pub answer : Request → S → S × Response
  answer r s =
      let id = if valid_identifier r.id then r.id else [] in
      if not (equals r.version 1)
      then (s, failure id unsupported_version)
      else if is_empty id
      then (s, failure [] bad_request)
      else elim (lookup r.operation operations) [
        | none ↦ (s, failure id unsupported_op)
        | some op ↦ dispatch id op r.arguments s
      ]

  unfoldable pub handle : Text → S → S × Response
  handle payload s = elim (json.request payload) [
    | none ↦ (s, failure [] bad_request)
    | some r ↦ answer r s
  ]
