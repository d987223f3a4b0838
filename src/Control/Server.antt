-- ===== src/Control/Server.antt =====
-- internal/uicontrol/server.go: one exchange of the socket, a frame that is answered by a frame.
use leaf_syncthing_pak.Base.{Bool, Option, none, some, List, length, ltb, Text, if◌then◌else◌}
use leaf_syncthing_pak.Life1.Wire.{
  cut_short, refused, message, Wrote, Sent, semantic_max_payload, read, write,
}
use leaf_syncthing_pak.Control.Arguments.{Json, or_empty, ◌>>=◌}
use leaf_syncthing_pak.Control.Handle.{
  Operations, Response, failure, failed, success, internal, handle,
}

abbrev pub response_id : Response → Text
response_id (failure id c) = id
response_id (failed id e) = id
response_id (success id s) = id

-- `valid` is json.Valid and `marshal` json.Marshal of a response.
module _ {ℓ} {S : Type ℓ} (json : Json) (ops : Operations S) (valid : Text → Bool)
    (marshal : Response → Option Text) where
  -- The text that answers a response: one that is too long for a frame is replaced.
  unfoldable pub reply : Response → Option Text
  reply r = elim (marshal r) [
    | none ↦ none
    | some encoded ↦ some (
        if ltb semantic_max_payload (length encoded)
        then or_empty (marshal (failure (response_id r) internal))
        else encoded)
  ]

  -- What comes in on the connection and the results of the writer's calls, to the bytes that go out
  -- and how the writing ended; `none` where nothing is written.
  unfoldable pub exchange : Text → List Wrote → S → S × Option (Text × Option Sent)
  exchange stream calls s = elim (read valid stream).0 [
    | cut_short ↦ (s, none)
    | refused e ↦ (s, none)
    | message payload ↦
        let (s', response) = handle json ops payload s in
        (s', (do encoded ← reply response; some (write valid encoded calls)))
  ]
