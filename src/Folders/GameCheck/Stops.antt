-- ===== src/Folders/GameCheck/Stops.antt =====
-- What the stop of a game's check rests on.
use leaf_syncthing_pak.Base.{
  ℕ, Bool, true, false, ◌≡◌, ◌⊎◌, Text, refl, inl, inr, Option, none, some, List, [], ◌∷◌, any, ℤ,
  arith,
}
use leaf_syncthing_pak.Rest.Replies.{Responses}
use leaf_syncthing_pak.Folders.Types.{ConfiguredFolder}
use leaf_syncthing_pak.Rest.Game.{read_game_check_status}
use leaf_syncthing_pak.Rest.Game.Added.{reply_is}
use leaf_syncthing_pak.Rest.Game.InSync.{all_in_sync, read_game_check_status-current}
use leaf_syncthing_pak.Folders.GameCheck.Loop.{
  Reading, Message, waiting, stop, error, Check, first_failure, after_status, after_failure,
  after_read, turn, check_loop, run_game_check, add_message,
}

abbrev pub is_stop : ℕ × Message → Bool
is_stop (t, stop) = true
is_stop _ = false

abbrev pub is_current : Reading → Bool
is_current reading = reply_is (λ status. status.current) reading.read_result

turn_stop :
    (ack deadline : ℕ) (reading : Reading) (check : Check)
    → (turn ack deadline reading check).sent ≡ some stop
    → is_current reading ≡ true
unfolding turn after_read after_status after_failure first_failure
turn_stop ack deadline reading check h = ground arith

added_stop :
    (t : ℕ) (sent : Option Message) (rest : List (ℕ × Message))
    → any is_stop (add_message t sent rest) ≡ true
    → (sent ≡ some stop) ⊎ (any is_stop rest ≡ true)
added_stop t none rest h = inr h
added_stop t (some (waiting items bytes)) rest h = inr h
added_stop t (some stop) rest h = inl refl
added_stop t (some (error code)) rest h = inr h

abbrev follow : Option Check → (Check → List (ℕ × Message)) → List (ℕ × Message)
follow after loop = elim after [ none ↦ [] | some next ↦ loop next ]

follow_stop :
    (after : Option Check) (loop : Check → List (ℕ × Message)) (b : Bool)
    → ((next : Check) → any is_stop (loop next) ≡ true → b ≡ true)
    → any is_stop (follow after loop) ≡ true
    → b ≡ true
follow_stop none loop b h s = absurd (ground arith)
follow_stop (some next) loop b h s = h next s

check_loop-stop :
    (ack deadline : ℕ) (readings : List Reading) (check : Check)
    → any is_stop (check_loop ack deadline readings check) ≡ true
    → any is_current readings ≡ true
unfolding check_loop
check_loop-stop ack deadline [] check h = h
check_loop-stop ack deadline (reading ∷ readings) check h =
    elim (added_stop _ (turn ack deadline reading check).sent
      (follow (turn ack deadline reading check).after (check_loop ack deadline readings)) h) [
        | inl s ↦ ground (arith, turn_stop ack deadline reading check s)
        | inr s ↦
            let later =
              follow_stop (turn ack deadline reading check).after (check_loop ack deadline readings)
                (any is_current readings) (check_loop-stop ack deadline readings) s in
            ground arith
      ]

-- The readings of a check whose reads meet the given replies of the Syncthing process.
abbrev pub reads : List ConfiguredFolder → Text → List (Responses × Reading) → List Reading
reads folders self [] = []
reads folders self ((rest, reading) ∷ runs) =
    (record reading { read_result = read_game_check_status rest folders self })
    ∷ reads folders self runs

any_current :
    (folders : List ConfiguredFolder) (self : Text) (runs : List (Responses × Reading))
    → any is_current (reads folders self runs) ≡ any (λ r. all_in_sync r.0 folders self) runs
any_current folders self [] = refl
any_current folders self ((rest, reading) ∷ runs) =
    ground (arith, read_game_check_status-current rest folders self, any_current folders self runs)

-- A game is told to stop waiting only after a read in which every folder that it waits for was in
-- sync with every peer.
pub run_game_check-stop :
    (folders : List ConfiguredFolder) (self : Text) (ack_ms : ℤ) (start : ℕ)
    (runs : List (Responses × Reading))
    → any is_stop (run_game_check true ack_ms start (reads folders self runs)) ≡ true
    → any (λ r. all_in_sync r.0 folders self) runs ≡ true
unfolding run_game_check
run_game_check-stop folders self ack_ms start runs h =
    ground (arith, any_current folders self runs, check_loop-stop _ _ (reads folders self runs) _ h)
