-- ===== src/Folders/GameCheck/Loop.antt =====
-- internal/controller/game_check.go, `runGameCheck`: the replies to a game's check and when they are
-- sent. Times are nanoseconds. What the loop meets on one turn is a `Reading`; a list of them is a
-- run. A read ends with its context at the latest, and sending takes no time.
use leaf_syncthing_pak.Base.{
  ℕ, ◌+◌, ◌-◌, ◌*◌, ◌/◌, min, Bool, true, false, not, ◌&&◌, ◌||◌, ◌==◌, leb, ltb, Option, none,
  some, List, [], ◌∷◌, if◌then◌else◌, Text, codes, ℤ, pos, negsuc,
}
use leaf_syncthing_pak.Rest.Replies.{Reply, got, lost}
use leaf_syncthing_pak.Rest.Game.{GameCheckStatus}

-- One turn: the result of `ReadGameCheckStatus`, how long it takes if its context does not end it, whether the check was cancelled
-- by then or while it waits after that, and whether a waiting reply can be sent.
pub record Reading : Type 0 where
  pub read_result : Reply GameCheckStatus
  pub took : ℕ
  pub cancelled : Bool
  pub sends : Bool
  pub cancelled_waiting : Bool

pub data Message : Type 0 where
  waiting : ℤ → ℤ → Message
  stop : Message
  error : Text → Message

pub record Check : Type 0 where
  pub now : ℕ
  pub last : Option (ℤ × ℤ)
  pub synthetic_waiting : Bool

-- What a turn sends, and the check after it if it goes on.
pub record Turn : Type 0 where
  pub sent : Option Message
  pub after : Option Check

abbrev pub ms : ℕ
ms = 1000000

-- `DefaultAckMS` of internal/life1/client.go.
abbrev pub default_ack_ms : ℕ
default_ack_ms = 250

abbrev pub first_status_budget : ℕ
first_status_budget = 900 * ms

abbrev pub first_status_probe_budget : ℕ
first_status_probe_budget = 700 * ms

abbrev pub first_status_reply_margin : ℕ
first_status_reply_margin = 100 * ms

abbrev pub first_status_retry_delay : ℕ
first_status_retry_delay = 100 * ms

abbrev pub unavailable : Message
unavailable = error (codes "sync-status-unavailable")

unfoldable pub ack_budget : ℤ → ℕ
ack_budget (pos n) = if n == 0 then default_ack_ms * ms else n * ms
ack_budget (negsuc n) = default_ack_ms * ms

unfoldable pub first_reply_budget : ℕ → ℕ
first_reply_budget ack =
    let margin = if leb ack first_status_reply_margin then ack / 5 else first_status_reply_margin in
    min (ack - margin) first_status_budget

unfoldable pub read_timeout : (ack deadline : ℕ) → Check → ℕ
read_timeout ack deadline check = elim check.last [
  | some l ↦ if ltb ack (2000 * ms) then 2000 * ms else ack
  | none ↦ min (min ack (deadline - check.now)) first_status_probe_budget
]

abbrev pub end_turn : Option Message → Turn
end_turn sent = record { sent = sent; after = none }

-- The wait that ends a turn.
abbrev pub wait : ℕ → Option Message → Reading → Check → Turn
wait d sent reading check = record {
  sent = sent;
  after = if reading.cancelled_waiting then none else some (record check { now = check.now + d });
}

-- A read that failed before any reply was sent.
unfoldable pub first_failure : ℕ → Bool → Reading → Check → Turn
first_failure deadline timed_out reading check =
    if timed_out && ltb check.now deadline
    then elim reading.sends [
      | true ↦ record {
        sent = some (waiting (pos 1) (pos 0));
        after = some (record check { last = some (pos 1, pos 0); synthetic_waiting = true });
      }
      | false ↦ end_turn none
    ]
    else if ltb check.now deadline
    then wait (min (deadline - check.now) first_status_retry_delay) none reading check
    else end_turn (some unavailable)

abbrev pub int_eq : ℤ → ℤ → Bool
int_eq (pos n) (pos m) = n == m
int_eq (negsuc n) (negsuc m) = n == m
int_eq _ _ = false

-- `!haveLast || current.PendingItems != last.PendingItems || ...`.
unfoldable pub is_news : Option (ℤ × ℤ) → GameCheckStatus → Bool
is_news none status = true
is_news (some (items, bytes)) status =
    not (int_eq status.pending_items items) || not (int_eq status.pending_bytes bytes)

unfoldable pub after_status : GameCheckStatus → Reading → Check → Turn
after_status status reading check =
    if status.current
    then end_turn (some stop)
    else if is_news check.last status
    then elim reading.sends [
      | true ↦
          wait (500 * ms) (some (waiting status.pending_items status.pending_bytes)) reading
            (record check {
              last = some (status.pending_items, status.pending_bytes);
              synthetic_waiting = false;
            })
      | false ↦ end_turn none
    ]
    else wait (500 * ms) none reading (record check { synthetic_waiting = false })

unfoldable pub after_failure : ℕ → Bool → Reading → Check → Turn
after_failure deadline timed_out reading check = elim check.last [
  | none ↦ first_failure deadline timed_out reading check
  | some l ↦
      if check.synthetic_waiting
      then end_turn (some unavailable)
      else wait (500 * ms) none reading check
]

-- The body of the loop from the end of the read.
unfoldable pub after_read : ℕ → Reading → Check → Turn
after_read deadline reading check =
    if reading.cancelled then end_turn none else elim reading.read_result [
      | got status ↦ after_status status reading check
      | lost timed_out ↦ after_failure deadline timed_out reading check
    ]

abbrev pub is_some {ℓ} : {A : Type ℓ} → Option A → Bool
is_some none = false
is_some (some a) = true

-- The time at which the read has ended, and the body of the loop.
unfoldable pub read_end : (ack deadline : ℕ) → Reading → Check → ℕ
read_end ack deadline reading check = check.now + min reading.took (read_timeout ack deadline check)

unfoldable pub turn : (ack deadline : ℕ) → Reading → Check → Turn
turn ack deadline reading check =
    if not (is_some check.last) && leb deadline check.now
    then end_turn (some unavailable)
    else after_read deadline reading (record check { now = read_end ack deadline reading check })

-- The time of what a turn sends: when its read has ended, or at once if it reads nothing.
unfoldable pub send_time : (ack deadline : ℕ) → Reading → Check → ℕ
send_time ack deadline reading check =
    if not (is_some check.last) && leb deadline check.now
    then check.now
    else read_end ack deadline reading check

abbrev pub add_message : ℕ → Option Message → List (ℕ × Message) → List (ℕ × Message)
add_message t none rest = rest
add_message t (some m) rest = (t, m) ∷ rest

-- The loop, as far as the readings go.
unfoldable pub check_loop : (ack deadline : ℕ) → List Reading → Check → List (ℕ × Message)
check_loop ack deadline [] check = []
check_loop ack deadline (reading ∷ readings) check =
    let t = turn ack deadline reading check in
    add_message (send_time ack deadline reading check) t.sent
      (elim t.after [ none ↦ [] | some next ↦ check_loop ack deadline readings next ])

unfoldable pub run_game_check :
    (upstream : Bool) → ℤ → (start : ℕ) → List Reading → List (ℕ × Message)
run_game_check upstream ack_ms start readings =
    let ack = ack_budget ack_ms in
    if upstream
    then check_loop ack (start + first_reply_budget ack) readings
        (record { now = start; last = none; synthetic_waiting = false })
    else (start, error (codes "check-unavailable")) ∷ []
