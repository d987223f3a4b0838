-- ===== src/Life1/Wire.antt =====
-- internal/life1/wire.go: one frame is four bytes of length, the highest first, and a JSON text.
pub mod Round
use leaf_syncthing_pak.Base.{
  ℕ, zero, suc, ◌+◌, ◌-◌, ◌*◌, ◌/◌, ◌%◌, Bool, true, false, not, ◌||◌, Option, none, some, List, [],
  ◌∷◌, ◌++◌, length, take, drop, ltb, leb, ◌==◌, if◌then◌else◌, Text,
}

abbrev pub semantic_max_payload : ℕ
semantic_max_payload = 65536

abbrev pub transport_max_payload : ℕ
transport_max_payload = 16777216

abbrev pub frame_prefix_bytes : ℕ
frame_prefix_bytes = 4

pub data WireError : Type 0 where
  frame_too_short transport_limit semantic_limit length_mismatch invalid_json : WireError

pub data Decoded : Type 0 where
  failed : WireError → Decoded
  payload : Text → Decoded

-- `binary.BigEndian.PutUint32` and `Uint32`.
unfoldable pub put_uint32 : ℕ → Text
put_uint32 n = n / 16777216 % 256 ∷ n / 65536 % 256 ∷ n / 256 % 256 ∷ n % 256 ∷ []

unfoldable pub get_uint32 : Text → ℕ
get_uint32 (a ∷ b ∷ c ∷ d ∷ _) = 16777216 * a + (65536 * b + (256 * c + d))
get_uint32 _ = 0

-- How a read of a stream ends: `io.ReadFull` returns an error where too few bytes come before the
-- end or the deadline, and has used them.
pub data Received : Type 0 where
  cut_short : Received
  refused : WireError → Received
  message : Text → Received

-- What one call of the writer does: it takes so many bytes, or fails.
pub data Wrote : Type 0 where
  broken : Wrote
  took : ℕ → Wrote

pub data Sent : Type 0 where
  unsent : WireError → Sent
  write_failed short_write sent : Sent

-- `json.Valid` is a parameter.
module _ (valid : Text → Bool) where
  unfoldable pub encode : Text → Decoded
  encode m =
      if ltb semantic_max_payload (length m)
      then failed semantic_limit
      else if not (valid m)
      then failed invalid_json
      else payload (put_uint32 (length m) ++ m)

  unfoldable pub decode : Text → Decoded
  decode frame =
      let declared = get_uint32 (take frame_prefix_bytes frame) in
      if ltb (length frame) frame_prefix_bytes
      then failed frame_too_short
      else if ltb transport_max_payload declared
      then failed transport_limit
      else if ltb semantic_max_payload declared
      then failed semantic_limit
      else if not (declared == length frame - frame_prefix_bytes)
      then failed length_mismatch
      else if not (valid (drop frame_prefix_bytes frame))
      then failed invalid_json
      else payload (drop frame_prefix_bytes frame)

  -- `Read`, on the bytes that the stream still has; those that are left come back with the result.
  unfoldable pub read : Text → Received × Text
  read stream =
      let declared = get_uint32 (take frame_prefix_bytes stream) in
      let rest = drop frame_prefix_bytes stream in
      if ltb (length stream) frame_prefix_bytes
      then (cut_short, [])
      else if ltb transport_max_payload declared
      then (refused transport_limit, rest)
      else if ltb semantic_max_payload declared
      then (refused semantic_limit, rest)
      else if ltb (length rest) declared
      then (cut_short, [])
      else if not (valid (take declared rest))
      then (refused invalid_json, drop declared rest)
      else (message (take declared rest), drop declared rest)

-- The loop of `Write` on the calls' results, in order: what was written, and how it ended. With no
-- further result the loop still waits.
unfoldable pub write_all : Text → List Wrote → Text × Option Sent
write_all [] calls = ([], some sent)
write_all (b ∷ frame) [] = ([], none)
write_all (b ∷ frame) (broken ∷ calls) = ([], some write_failed)
write_all (b ∷ frame) (took n ∷ calls) =
    let (out, end) = write_all (drop n (b ∷ frame)) calls in
    if n == 0 || ltb (length (b ∷ frame)) n
    then ([], some short_write)
    else (take n (b ∷ frame) ++ out, end)

unfoldable pub write : (valid : Text → Bool) → Text → List Wrote → Text × Option Sent
write valid m calls = elim (encode valid m) [
  | failed e ↦ ([], some (unsent e))
  | payload frame ↦ write_all frame calls
]
