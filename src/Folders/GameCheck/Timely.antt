-- ===== src/Folders/GameCheck/Timely.antt =====
-- When a game check sends its first reply.
use mathlib.Core.Path.{subst}
use leaf_syncthing_pak.Base.{
  ◌∙◌, ℕ, zero, suc, ◌+◌, ◌*◌, ◌≤◌, ◌<◌, Bool, true, false, not, ◌≡◌, refl, ◌⊎◌, inl, inr, Option,
  none, some, List, [], ◌∷◌, length, All, ◌&&◌, ℤ, pos, negsuc, arith, Bool-cases, ltb, leb,
}
use leaf_syncthing_pak.Rest.Replies.{Reply, got, lost}
use leaf_syncthing_pak.Rest.Game.{GameCheckStatus}
use leaf_syncthing_pak.Folders.GameCheck.Loop.{
  Reading, Message, Check, Turn, ms, ack_budget, first_reply_budget, read_timeout, first_failure,
  is_news, after_status, after_failure, after_read, read_end, turn, send_time, check_loop,
  run_game_check, add_message, is_some,
}

-- A reading of a check that is not cancelled and whose replies can be sent.
abbrev pub IsAttentive : Reading → Type 0
IsAttentive r = (r.cancelled ≡ false) × (r.cancelled_waiting ≡ false) × (r.sends ≡ true)

-- Where a turn without a reply leaves a check: nearer to the deadline.
IsNearer : ℕ → Check → Option Check → Type 0
IsNearer deadline check none = ⊥
IsNearer deadline check (some next) =
    (next.last ≡ none)
    × (next.now ≤ deadline)
    × ((deadline ≤ next.now) ⊎ (check.now + 100 * ms ≤ next.now))

IsProgress : ℕ → Check → Turn → Type 0
IsProgress deadline check t =
    (is_some t.sent ≡ true) ⊎ ((t.sent ≡ none) × IsNearer deadline check t.after)

read_end-deadline :
    (ack deadline : ℕ) (reading : Reading) (check : Check)
    → check.last ≡ none
    → check.now ≤ deadline
    → read_end ack deadline reading check ≤ deadline
unfolding read_end read_timeout
read_end-deadline ack deadline reading check l h = rw l (ground arith)

read_end-later :
    (ack deadline : ℕ) (reading : Reading) (check : Check)
    → check.now ≤ read_end ack deadline reading check
unfolding read_end
read_end-later ack deadline reading check = omega arith

after_status-sent :
    (status : GameCheckStatus) (reading : Reading) (check : Check)
    → check.last ≡ none
    → reading.sends ≡ true
    → is_some (after_status status reading check).sent ≡ true
unfolding after_status is_news
after_status-sent status reading check l s = ground arith

first_failure-IsProgress :
    (deadline : ℕ) (timed_out : Bool) (reading : Reading) (check : Check)
    → check.last ≡ none
    → reading.sends ≡ true
    → reading.cancelled_waiting ≡ false
    → check.now ≤ deadline
    → IsProgress deadline check (first_failure deadline timed_out reading check)
unfolding first_failure IsProgress IsNearer
first_failure-IsProgress deadline timed_out reading check l s w h =
    elim (Bool-cases (timed_out && ltb check.now deadline)) [
      | inl e ↦ inl (ground arith)
      | inr e ↦ elim (Bool-cases (ltb check.now deadline)) [
        | inl f ↦ inr (rw (e, f, w) (refl, (l, ground arith, ground arith)))
        | inr f ↦ inl (ground arith)
      ]
    ]

after_failure_first :
    (deadline : ℕ) (timed_out : Bool) (reading : Reading) (check : Check)
    → check.last ≡ none
    → first_failure deadline timed_out reading check
      ≡ after_failure deadline timed_out reading check
unfolding after_failure
after_failure_first deadline timed_out reading check l = ground arith

after_read_status :
    (deadline : ℕ) (status : GameCheckStatus) (reading : Reading) (check : Check)
    → reading.cancelled ≡ false
    → reading.read_result ≡ got status
    → after_status status reading check ≡ after_read deadline reading check
unfolding after_read
after_read_status deadline status reading check c a = ground arith

after_read_failure :
    (deadline : ℕ) (timed_out : Bool) (reading : Reading) (check : Check)
    → reading.cancelled ≡ false
    → reading.read_result ≡ lost timed_out
    → after_failure deadline timed_out reading check ≡ after_read deadline reading check
unfolding after_read
after_read_failure deadline timed_out reading check c a = ground arith

reply-cases :
    (a : Reply GameCheckStatus)
    → ((status : GameCheckStatus) × (a ≡ got status)) ⊎ ((b : Bool) × (a ≡ lost b))
reply-cases (got status) = inl (status, refl)
reply-cases (lost b) = inr (b, refl)

after_read-IsProgress :
    (deadline : ℕ) (reading : Reading) (check : Check)
    → check.last ≡ none
    → IsAttentive reading
    → check.now ≤ deadline
    → IsProgress deadline check (after_read deadline reading check)
unfolding IsProgress
after_read-IsProgress deadline reading check l (c, w, s) h =
    elim (reply-cases reading.read_result) [
      | inl (status, a) ↦ inl (
          subst (λ (t : Turn). is_some t.sent ≡ true)
            (after_read_status deadline status reading check c a)
            (after_status-sent status reading check l s))
      | inr (b, a) ↦
          subst (λ t. IsProgress deadline check t)
            (after_failure_first deadline b reading check l
              ∙ after_read_failure deadline b reading check c a)
            (first_failure-IsProgress deadline b reading check l s w h)
    ]

later-IsNearer :
    (deadline later : ℕ) (check : Check) (next : Option Check)
    → check.now ≤ later
    → IsNearer deadline (record check { now = later }) next
    → IsNearer deadline check next
unfolding IsNearer
later-IsNearer deadline later check none h n = n
later-IsNearer deadline later check (some next) h (l, b, near) = (l, b, ground arith)

turn-IsProgress :
    (ack deadline : ℕ) (reading : Reading) (check : Check)
    → check.last ≡ none
    → IsAttentive reading
    → check.now ≤ deadline
    → (send_time ack deadline reading check ≤ deadline)
      × IsProgress deadline check (turn ack deadline reading check)
unfolding turn send_time IsProgress
turn-IsProgress ack deadline reading check l a h =
    let e = read_end-deadline ack deadline reading check l h in
    let later = read_end-later ack deadline reading check in
    elim (Bool-cases (not (is_some check.last) && leb deadline check.now)) [
      | inl d ↦ (ground arith, inl (ground arith))
      | inr d ↦
          let read =
            after_read-IsProgress deadline reading
              (record check { now = read_end ack deadline reading check }) l a e in
          (
            ground arith,
            rw d (elim read [
              | inl s ↦ inl s
              | inr (s, n) ↦ inr (s, later-IsNearer deadline _ check _ later n)
            ]),
          )
    ]

turn_late :
    (ack deadline : ℕ) (reading : Reading) (check : Check)
    → check.last ≡ none
    → deadline ≤ check.now
    → is_some (turn ack deadline reading check).sent ≡ true
unfolding turn
turn_late ack deadline reading check l h = ground arith

-- The first message is sent by the deadline.
IsRepliedBy : ℕ → List (ℕ × Message) → Type 0
IsRepliedBy deadline [] = ⊥
IsRepliedBy deadline ((t, m) ∷ rest) = t ≤ deadline

add_message-IsRepliedBy :
    (deadline t : ℕ) (sent : Option Message) (rest : List (ℕ × Message))
    → t ≤ deadline
    → is_some sent ≡ true
    → IsRepliedBy deadline (add_message t sent rest)
unfolding IsRepliedBy
add_message-IsRepliedBy deadline t none rest h s = absurd (ground arith)
add_message-IsRepliedBy deadline t (some m) rest h s = h

went_on :
    (deadline t : ℕ) (sent : Option Message) (rest : List (ℕ × Message))
    → sent ≡ none
    → IsRepliedBy deadline rest
    → IsRepliedBy deadline (add_message t sent rest)
went_on deadline t none rest s h = h
went_on deadline t (some m) rest s h = absurd (ground arith)

goes_on :
    (deadline : ℕ) (check : Check) (after : Option Check) (loop : Check → List (ℕ × Message))
    → ((next : Check) → IsNearer deadline check (some next) → IsRepliedBy deadline (loop next))
    → IsNearer deadline check after
    → IsRepliedBy deadline (elim after [ none ↦ [] | some next ↦ loop next ])
unfolding IsNearer
goes_on deadline check none loop h n = absurd n
goes_on deadline check (some next) loop h n = h next n

check_loop-IsRepliedBy :
    (ack deadline : ℕ) (readings : List Reading) (k : ℕ) (check : Check)
    → check.last ≡ none
    → All IsAttentive readings
    → check.now ≤ deadline
    → deadline ≤ check.now + 100 * ms * k
    → k < length readings
    → IsRepliedBy deadline (check_loop ack deadline readings check)
unfolding check_loop IsProgress IsNearer
check_loop-IsRepliedBy ack deadline [] k check l a h d n = absurd (omega arith)
check_loop-IsRepliedBy ack deadline (reading ∷ readings) zero check l (a, later) h d n =
    add_message-IsRepliedBy deadline _ _ _ (turn-IsProgress ack deadline reading check l a h).0
      (turn_late ack deadline reading check l (omega arith))
check_loop-IsRepliedBy ack deadline (reading ∷ readings) (suc k) check l (a, later) h d n =
    let (t, progress) = turn-IsProgress ack deadline reading check l a h in
    elim progress [
      | inl s ↦ add_message-IsRepliedBy deadline _ _ _ t s
      | inr (s, n') ↦ went_on deadline _ _ _ s (
          goes_on deadline check (turn ack deadline reading check).after
            (check_loop ack deadline readings)
            (λ next (l', b, near).
              check_loop-IsRepliedBy ack deadline readings k next l' later b (ground arith)
                (omega arith))
            n')
    ]

first_reply_budget-bounds :
    (ack : ℕ) → ms ≤ ack → (first_reply_budget ack < ack) × (first_reply_budget ack ≤ 900 * ms)
unfolding first_reply_budget
first_reply_budget-bounds ack h = ground arith

ack_budget-positive : (ack_ms : ℤ) → ms ≤ ack_budget ack_ms
unfolding ack_budget
ack_budget-positive (pos n) = ground arith
ack_budget-positive (negsuc n) = omega arith

-- A check that is not cancelled and can reply sends its first reply within ten turns, before the
-- acknowledgement runs out and within 900 ms, however the reads end and however long they take.
pub run_game_check-first_reply :
    (ack_ms : ℤ) (start : ℕ) (readings : List Reading)
    → All IsAttentive readings
    → 10 ≤ length readings
    → (t : ℕ) × (m : Message) × (rest : List (ℕ × Message)) × (run_game_check true ack_ms start
          readings
        ≡ (t, m) ∷ rest)
      × (t < start + ack_budget ack_ms)
      × (t ≤ start + 900 * ms)
unfolding run_game_check IsRepliedBy
run_game_check-first_reply ack_ms start readings a n =
    let budget = first_reply_budget-bounds (ack_budget ack_ms) (ack_budget-positive ack_ms) in
    split (check_loop _ _ readings _) (
      check_loop-IsRepliedBy _ _ readings 9 _ refl a (omega arith) (omega (arith, budget.1))
        (omega arith))
  where
    split :
        (messages : List (ℕ × Message))
        → IsRepliedBy (start + first_reply_budget (ack_budget ack_ms)) messages
        → (t : ℕ) × (m : Message) × (rest : List (ℕ × Message)) × (messages ≡ (t, m) ∷ rest)
          × (t < start + ack_budget ack_ms)
          × (t ≤ start + 900 * ms)
    split [] h = absurd h
    split ((t, m) ∷ rest) h =
        let budget = first_reply_budget-bounds (ack_budget ack_ms) (ack_budget-positive ack_ms) in
        (t, m, rest, refl, omega arith, omega arith)
