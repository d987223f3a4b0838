-- ===== src/Life1/Events.antt =====
-- internal/life1/client.go: the events of the launcher and its game state; and
-- `reconcileGameState` of internal/controller/run.go.
use leaf_syncthing_pak.Base.{
  ℤ, is_negative, above, equals, Bool, true, false, not, ◌&&◌, ◌||◌, ◌≡◌, sym, inl, inr, Option,
  none, some, List, [], ◌∷◌, all, if◌then◌else◌, Text, codes, text_eq, is_empty, arith,
  Option-cases,
}

pub record Event : Type 0 where
  pub version : ℤ
  pub name : Text
  pub launch_id : Text
  pub source_id : Text
  pub saves_path : Text
  pub states_path : Text
  pub wait_budget_ms : Option ℤ

pub record GameState : Type 0 where
  pub active : Bool
  pub launch_id : Text
  pub source_id : Text
  pub saves_path : Text
  pub states_path : Text

abbrev pub inactive : GameState
inactive = record {
  active = false;
  launch_id = [];
  source_id = [];
  saves_path = [];
  states_path = [];
}

-- A payload as the two JSON decoders see it: the names of its members, and the event that the
-- strict one makes of it, if it accepts it.
pub record Payload : Type 0 where
  pub members : List Text
  pub strict : Option Event

abbrev pub is_source : Text → Bool
is_source id = text_eq id (codes "primary") || text_eq id (codes "secondary_sd")

-- `validateState` finds no error.
unfoldable pub validate_state : GameState → Bool
unfolding text_eq
validate_state s =
    if not s.active
    then is_empty s.launch_id
      && is_empty s.source_id
      && is_empty s.saves_path
      && is_empty s.states_path
    else not (is_empty s.launch_id) && is_source s.source_id

unfoldable pub has_member : Text → List Text → Bool
has_member name [] = false
has_member name (m ∷ ms) = text_eq m name || has_member name ms

unfoldable pub require_json_fields : Payload → List Text → Bool
require_json_fields p fields = all (λ field. has_member field p.members) fields

abbrev is_budget : Option ℤ → Bool
is_budget none = false
is_budget (some n) = not (is_negative n) && not (above n 15000)

abbrev no_budget : Option ℤ → Bool
no_budget none = true
no_budget (some n) = false

abbrev pub starts : Text → Bool
starts name = text_eq name (codes "game.start") || text_eq name (codes "game.check")

abbrev pub ends : Text → Bool
ends name = text_eq name (codes "game.abort") || text_eq name (codes "game.finish")

abbrev start_fields : List Text
start_fields =
    codes "v"
    ∷ codes "event"
    ∷ codes "launch_id"
    ∷ codes "source_id"
    ∷ codes "saves_path"
    ∷ codes "states_path"
    ∷ codes "wait_budget_ms"
    ∷ []

abbrev end_fields : List Text
end_fields = codes "v" ∷ codes "event" ∷ codes "launch_id" ∷ []

unfoldable pub check_event : Payload → Event → Option Event
unfolding text_eq
check_event p e =
    if not (equals e.version 1) || is_empty e.launch_id
    then none
    else if starts e.name
    then if require_json_fields p start_fields
        && is_source e.source_id
        && is_budget e.wait_budget_ms
      then some e
      else none
    else if text_eq e.name (codes "game.cancel") || ends e.name
    then if require_json_fields p end_fields
        && is_empty e.source_id
        && is_empty e.saves_path
        && is_empty e.states_path
        && no_budget e.wait_budget_ms
      then some e
      else none
    else none

unfoldable pub decode_event : Payload → Option Event
decode_event p = elim p.strict [ none ↦ none | some e ↦ check_event p e ]

unfoldable pub reconcile_game_state : GameState → Event → GameState
unfolding text_eq
reconcile_game_state current e =
    if starts e.name
    then record {
      active = true;
      launch_id = e.launch_id;
      source_id = e.source_id;
      saves_path = e.saves_path;
      states_path = e.states_path;
    }
    else if ends e.name && text_eq current.launch_id e.launch_id
    then inactive
    else current

check_event-valid :
    (p : Payload) (e f : Event) (s : GameState)
    → check_event p e ≡ some f
    → validate_state s ≡ true
    → validate_state (reconcile_game_state s f) ≡ true
unfolding check_event reconcile_game_state validate_state
check_event-valid p e f s h valid = let same : e ≡ f = ground arith in rw (sym same) (ground arith)

decode_event-valid :
    (p : Payload) (f : Event) (s : GameState)
    → decode_event p ≡ some f
    → validate_state s ≡ true
    → validate_state (reconcile_game_state s f) ≡ true
unfolding decode_event
decode_event-valid p f s h valid = elim (Option-cases p.strict) [
  | inl n ↦ absurd (ground arith)
  | inr (e, k) ↦ check_event-valid p e f s (ground arith) valid
]

-- The state after the events of a list of payloads, those that do not decode left out.
unfoldable pub follow : GameState → List Payload → GameState
follow s [] = s
follow s (p ∷ ps) = elim (decode_event p) [
  | none ↦ follow s ps
  | some e ↦ follow (reconcile_game_state s e) ps
]

-- Whatever payloads arrive, the game state that the controller keeps stays one that `validateState`
-- accepts, if it starts as one.
pub follow-valid :
    (ps : List Payload) (s : GameState)
    → validate_state s ≡ true
    → validate_state (follow s ps) ≡ true
unfolding follow
follow-valid [] s valid = valid
follow-valid (p ∷ ps) s valid = elim (Option-cases (decode_event p)) [
  | inl n ↦ rw (n, follow) (follow-valid ps s valid)
  | inr (f, d) ↦
      rw (d, follow) (follow-valid ps (reconcile_game_state s f) (decode_event-valid p f s d valid))
]
