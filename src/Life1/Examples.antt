-- ===== src/Life1/Examples.antt =====
-- The theorems on frames and events at concrete messages.
use leaf_syncthing_pak.Base.{
  pos, Bool, true, false, ◌≡◌, refl, arith, some, [], ◌∷◌, ◌++◌, take, Text, codes, text_eq,
}
use leaf_syncthing_pak.Life1.Wire.{
  payload, message, cut_short, took, sent, put_uint32, get_uint32, encode, decode, read, write_all,
  write,
}
use leaf_syncthing_pak.Life1.Wire.Round.{encode-decode, read-write, read-take}
use leaf_syncthing_pak.Life1.Events.{
  Payload, inactive, validate_state, follow, follow-valid, decode_event, check_event,
  reconcile_game_state, require_json_fields, has_member,
}

-- A validity that accepts every text but the empty one.
abbrev not_empty : Text → Bool
not_empty [] = false
not_empty _ = true

abbrev small : Text
small = codes "{}"

abbrev small_frame : Text
small_frame = 0 ∷ 0 ∷ 0 ∷ 2 ∷ small

small_encoded : encode not_empty small ≡ payload small_frame
unfolding encode put_uint32
small_encoded = refl

small_decoded : decode not_empty small_frame ≡ payload small
unfolding decode get_uint32
small_decoded = refl

encode-decode_example : encode not_empty small ≡ payload small_frame
encode-decode_example =
    encode-decode not_empty small small_frame
      (omega arith, (omega arith, (omega arith, (omega arith, (omega arith, (omega arith, tt))))))
      small_decoded

-- Three calls, the first of one byte and the second of three.
small_written : (write not_empty small (took 1 ∷ took 3 ∷ took 2 ∷ [])).1 ≡ some sent
unfolding write encode put_uint32 write_all
small_written = refl

read-write_example :
    read not_empty ((write not_empty small (took 1 ∷ took 3 ∷ took 2 ∷ [])).0 ++ codes "next")
    ≡ (message small, codes "next")
read-write_example =
    read-write not_empty small (took 1 ∷ took 3 ∷ took 2 ∷ []) (codes "next") small_written

read-take_example : read not_empty (take 5 small_frame) ≡ (cut_short, [])
read-take_example = read-take not_empty small small_frame 5 small_encoded (omega arith)

abbrev check_payload : Payload
check_payload = record {
  members =
      codes "v"
      ∷ codes "event"
      ∷ codes "launch_id"
      ∷ codes "source_id"
      ∷ codes "saves_path"
      ∷ codes "states_path"
      ∷ codes "wait_budget_ms"
      ∷ [];
  strict = some (record {
    version = pos 1;
    name = codes "game.check";
    launch_id = codes "7";
    source_id = codes "primary";
    saves_path = codes "/s";
    states_path = codes "/t";
    wait_budget_ms = some (pos 500);
  });
}

inactive_valid : validate_state inactive ≡ true
unfolding validate_state
inactive_valid = refl

follow_check : follow inactive (check_payload ∷ []) ≡ record {
  active = true;
  launch_id = codes "7";
  source_id = codes "primary";
  saves_path = codes "/s";
  states_path = codes "/t";
}
unfolding follow decode_event check_event require_json_fields has_member text_eq
    reconcile_game_state
follow_check = refl

follow-valid_example : validate_state (follow inactive (check_payload ∷ [])) ≡ true
follow-valid_example = follow-valid (check_payload ∷ []) inactive inactive_valid
