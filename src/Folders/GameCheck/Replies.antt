-- ===== src/Folders/GameCheck/Replies.antt =====
-- The order of a game check's replies.
use mathlib.Core.Path.{subst}
use leaf_syncthing_pak.Base.{
  ℕ, Bool, true, false, not, ◌&&◌, ◌≡◌, ◌≢◌, refl, inl, inr, Option, none, some, List, [], ◌∷◌, ℤ,
  pos, negsuc, arith, Bool-cases, leb, ltb, if◌then◌else◌, ◌*◌,
}
use leaf_syncthing_pak.Rest.Replies.{Reply, got, lost}
use leaf_syncthing_pak.Rest.Game.{GameCheckStatus}
use leaf_syncthing_pak.Folders.GameCheck.Loop.{
  Reading, Message, waiting, stop, error, Check, Turn, first_failure, is_news, int_eq, after_status,
  after_failure, after_read, read_end, turn, check_loop, run_game_check, wait, end_turn,
  add_message, is_some, unavailable, ms,
}

-- Each waiting reply differs from the one before it, and nothing follows a stop or an error.
abbrev pub IsOrderly : Option (ℤ × ℤ) → List (ℕ × Message) → Type 0
IsOrderly last [] = Unit
IsOrderly last ((t, waiting items bytes) ∷ rest) =
    (last ≢ some (items, bytes)) × IsOrderly (some (items, bytes)) rest
IsOrderly last ((t, stop) ∷ rest) = rest ≡ []
IsOrderly last ((t, error code) ∷ rest) = rest ≡ []

Keeps : Option (ℤ × ℤ) → Option Check → Type 0
Keeps last none = Unit
Keeps last (some next) = next.last ≡ last

IsTurn : Option (ℤ × ℤ) → Option Message → Option Check → Type 0
IsTurn last none after = Keeps last after
IsTurn last (some (waiting items bytes)) after =
    (last ≢ some (items, bytes)) × Keeps (some (items, bytes)) after
IsTurn last (some stop) after = after ≡ none
IsTurn last (some (error code)) after = after ≡ none

ended-IsTurn : (last : Option (ℤ × ℤ)) → IsTurn last none none
unfolding IsTurn Keeps
ended-IsTurn last = tt

refused-IsTurn : (last : Option (ℤ × ℤ)) → IsTurn last (some unavailable) none
unfolding IsTurn
refused-IsTurn last = refl

int_eq_refl : (n : ℤ) → int_eq n n ≡ true
int_eq_refl (pos n) = ground arith
int_eq_refl (negsuc n) = ground arith

is_news-same :
    (status : GameCheckStatus)
    → is_news (some (status.pending_items, status.pending_bytes)) status ≡ false
unfolding is_news
is_news-same status = rw (int_eq_refl status.pending_items, int_eq_refl status.pending_bytes) refl

is_news-differs :
    (last : Option (ℤ × ℤ)) (status : GameCheckStatus)
    → is_news last status ≡ true
    → last ≢ some (status.pending_items, status.pending_bytes)
is_news-differs last status h e =
    let same = is_news-same status in let h' = rw e at h in absurd (ground arith)

wait-Keeps :
    (d : ℕ) (sent : Option Message) (reading : Reading) (check : Check)
    → Keeps check.last (wait d sent reading check).after
unfolding Keeps
wait-Keeps d sent reading check = elim (Bool-cases reading.cancelled_waiting) [
  | inl e ↦ rw e tt
  | inr e ↦ rw e refl
]

after_status-IsTurn :
    (status : GameCheckStatus) (reading : Reading) (check : Check)
    → IsTurn check.last
        (after_status status reading check).sent
        (after_status status reading check).after
unfolding after_status IsTurn Keeps
after_status-IsTurn status reading check =
    go status.current (is_news check.last status) reading.sends refl
  where
    go :
        (current news sends : Bool)
        → is_news check.last status ≡ news
        → let t : Turn =
            if current
            then end_turn (some stop)
            else if news
            then elim sends [
              | true ↦
                  wait
                    (500 * ms)
                    (some (waiting status.pending_items status.pending_bytes))
                    reading
                    (record check {
                      last = some (status.pending_items, status.pending_bytes);
                      synthetic_waiting = false;
                    })
              | false ↦ end_turn none
            ]
            else wait (500 * ms) none reading (record check { synthetic_waiting = false }) in
          IsTurn check.last t.sent t.after
    go true news sends n = refl
    go false true true n =
        (is_news-differs check.last status n, wait-Keeps (500 * ms) none reading _)
    go false true false n = tt
    go false false sends n = wait-Keeps (500 * ms) none reading _

none-some : {A : Type 0} → (last : Option A) (a : A) → last ≡ none → last ≢ some a
none-some last a l e = ground arith

first_failure-IsTurn :
    (deadline : ℕ) (timed_out : Bool) (reading : Reading) (check : Check)
    → check.last ≡ none
    → IsTurn check.last
        (first_failure deadline timed_out reading check).sent
        (first_failure deadline timed_out reading check).after
unfolding first_failure IsTurn Keeps
first_failure-IsTurn deadline timed_out reading check l =
    elim (Bool-cases (timed_out && ltb check.now deadline)) [
      | inl e ↦ elim (Bool-cases reading.sends) [
        | inl s ↦ rw (e, s) (none-some check.last _ l, refl)
        | inr s ↦ rw (e, s) tt
      ]
      | inr e ↦ elim (Bool-cases (ltb check.now deadline)) [
        | inl f ↦ rw (e, f) (wait-Keeps _ none reading check)
        | inr f ↦ rw (e, f) refl
      ]
    ]

after_failure-IsTurn :
    (deadline : ℕ) (timed_out : Bool) (reading : Reading) (check : Check)
    → IsTurn check.last
        (after_failure deadline timed_out reading check).sent
        (after_failure deadline timed_out reading check).after
unfolding after_failure IsTurn Keeps
after_failure-IsTurn deadline timed_out reading check = go check.last check.synthetic_waiting refl
  where
    go :
        (last : Option (ℤ × ℤ)) (synthetic : Bool)
        → check.last ≡ last
        → let t : Turn = elim last [
          | none ↦ first_failure deadline timed_out reading check
          | some l ↦
              if synthetic then end_turn (some unavailable) else wait (500 * ms) none reading check
        ] in
          IsTurn check.last t.sent t.after
    go none synthetic l = first_failure-IsTurn deadline timed_out reading check l
    go (some a) true l = refl
    go (some a) false l = wait-Keeps (500 * ms) none reading check

after_read-IsTurn :
    (deadline : ℕ) (reading : Reading) (check : Check)
    → IsTurn check.last
        (after_read deadline reading check).sent
        (after_read deadline reading check).after
unfolding after_read
after_read-IsTurn deadline reading check = go reading.cancelled reading.read_result
  where
    go :
        (cancelled : Bool) (read_result : Reply GameCheckStatus)
        → let t : Turn = if cancelled then end_turn none else elim read_result [
          | got status ↦ after_status status reading check
          | lost timed_out ↦ after_failure deadline timed_out reading check
        ] in
          IsTurn check.last t.sent t.after
    go true a = ended-IsTurn check.last
    go false (got status) = after_status-IsTurn status reading check
    go false (lost timed_out) = after_failure-IsTurn deadline timed_out reading check

turn-IsTurn :
    (ack deadline : ℕ) (reading : Reading) (check : Check)
    → IsTurn check.last
        (turn ack deadline reading check).sent
        (turn ack deadline reading check).after
unfolding turn
turn-IsTurn ack deadline reading check = go (not (is_some check.last) && leb deadline check.now)
  where
    go :
        (late : Bool)
        → let t : Turn =
            if late
            then end_turn (some unavailable)
            else after_read deadline reading
                (record check { now = read_end ack deadline reading check }) in
          IsTurn check.last t.sent t.after
    go true = refused-IsTurn check.last
    go false =
        after_read-IsTurn deadline reading
          (record check { now = read_end ack deadline reading check })

added-IsOrderly :
    (last : Option (ℤ × ℤ)) (t : ℕ) (sent : Option Message) (after : Option Check)
    (loop : Check → List (ℕ × Message))
    → IsTurn last sent after
    → ((next : Check) → IsOrderly next.last (loop next))
    → IsOrderly last (add_message t sent (elim after [ none ↦ [] | some next ↦ loop next ]))
unfolding IsTurn Keeps
added-IsOrderly last t none none loop i h = tt
added-IsOrderly last t none (some next) loop i h =
    subst (λ (l : Option (ℤ × ℤ)). IsOrderly l (loop next)) i (h next)
added-IsOrderly last t (some (waiting items bytes)) none loop (n, i) h = (n, tt)
added-IsOrderly last t (some (waiting items bytes)) (some next) loop (n, i) h =
    (n, subst (λ (l : Option (ℤ × ℤ)). IsOrderly l (loop next)) i (h next))
added-IsOrderly last t (some stop) none loop i h = refl
added-IsOrderly last t (some stop) (some next) loop i h = absurd (ground arith)
added-IsOrderly last t (some (error code)) none loop i h = refl
added-IsOrderly last t (some (error code)) (some next) loop i h = absurd (ground arith)

check_loop-IsOrderly :
    (ack deadline : ℕ) (readings : List Reading) (check : Check)
    → IsOrderly check.last (check_loop ack deadline readings check)
unfolding check_loop
check_loop-IsOrderly ack deadline [] check = tt
check_loop-IsOrderly ack deadline (reading ∷ readings) check =
    added-IsOrderly check.last _ _ _ (check_loop ack deadline readings)
      (turn-IsTurn ack deadline reading check) (check_loop-IsOrderly ack deadline readings)

-- The replies of a game's check: each waiting reply differs from the one before it, and nothing
-- follows a stop or an error.
pub run_game_check-IsOrderly :
    (upstream : Bool) (ack_ms : ℤ) (start : ℕ) (readings : List Reading)
    → IsOrderly none (run_game_check upstream ack_ms start readings)
unfolding run_game_check
run_game_check-IsOrderly true ack_ms start readings = check_loop-IsOrderly _ _ readings _
run_game_check-IsOrderly false ack_ms start readings = refl
