-- ===== src/Gateway/Manager/OneUse.antt =====
-- A pairing needs the offer that is out, and uses it up.
use leaf_syncthing_pak.Base.{
  ℕ, ◌<◌, Bool, true, false, ◌≡◌, refl, ◌≢◌, ◌⊎◌, inl, inr, Option, none, some, arith, Text,
  text_eq_iff,
}
use leaf_syncthing_pak.Gateway.Manager.{PairingOffer, Manager}
use leaf_syncthing_pak.Gateway.Manager.Pairing.{
  ControlRequest, no_content, prune_failures, matches, pair, submit_pairing, valid_control_request,
}

-- The offer that a PIN or a token answers in time.
pub record Answers (now : ℕ) (o : PairingOffer) (pin token : Text) : Type 0 where
  pub in_time : now < o.expires
  pub secret : (pin ≡ o.pin) ⊎ (token ≡ o.token)

abbrev Answered : ℕ → Option PairingOffer → Text → Text → Type 0
Answered now none pin token = ⊥
Answered now (some o) pin token = Answers now o pin token

matches-Answered :
    (now : ℕ) (o : Option PairingOffer) (pin token : Text)
    → matches now o pin token ≡ true
    → Answered now o pin token
unfolding matches
matches-Answered now none pin token h = cc
matches-Answered now (some o) pin token h = record {
  in_time = ground arith;
  secret = ground (arith, text_eq_iff pin o.pin, text_eq_iff token o.token);
}

abbrev pub BodyAnswers : ℕ → Option PairingOffer → Option (Text × Text) → Type 0
BodyAnswers now o none = ⊥
BodyAnswers now o (some (pin, token)) = Answered now o pin token

module _ (hash_of : Text → Text) where
  pair-no_content :
      (stored : Bool) (now : ℕ) (fresh : Option Text) (source pin token cookie : Text) (m : Manager)
      → (pair hash_of stored now fresh source pin token m).1 ≡ no_content cookie
      → (m.pairing_locked ≡ false)
        × (matches now m.offer pin token ≡ true)
        × ((pair hash_of stored now fresh source pin token m).0.offer ≡ none)
  unfolding pair prune_failures
  pair-no_content stored now fresh source pin token cookie m h =
      (ground arith, ground arith, ground arith)

  -- A browser is given a cookie only where its request has the gateway's host, control token and
  -- origin, the pairing is not locked, and the body has the PIN or the token of the offer that is
  -- out and has not expired; the offer is then gone.
  pub submit_pairing-no_content :
      (stored : Bool) (now : ℕ) (fresh : Option Text) (request : ControlRequest) (cookie : Text)
      (m : Manager)
      → (submit_pairing hash_of stored now fresh request m).1 ≡ no_content cookie
      → (valid_control_request m request ≡ true)
        × (m.pairing_locked ≡ false)
        × BodyAnswers now m.offer request.body
        × ((submit_pairing hash_of stored now fresh request m).0.offer ≡ none)
  unfolding submit_pairing
  submit_pairing-no_content stored now fresh request cookie m h = go request.body refl
    where
      go :
          (b : Option (Text × Text))
          → request.body ≡ b
          → (valid_control_request m request ≡ true)
            × (m.pairing_locked ≡ false)
            × BodyAnswers now m.offer request.body
            × ((submit_pairing hash_of stored now fresh request m).0.offer ≡ none)
      go none e = absurd (ground arith)
      go (some (pin, token)) e =
          let paired : (pair hash_of stored now fresh request.source pin token m).1
              ≡ no_content cookie =
            ground arith in
          let (unlocked, match, gone) =
            pair-no_content stored now fresh request.source pin token cookie m paired in
          (
            ground arith,
            unlocked,
            rw e (matches-Answered now m.offer pin token match),
            ground arith,
          )

  -- Without an offer, or with the pairing locked, no request is given a cookie: an offer that was
  -- used pairs no second browser.
  submit_pairing-no_offer :
      (stored : Bool) (now : ℕ) (fresh : Option Text) (request : ControlRequest) (cookie : Text)
      (m : Manager)
      → (m.offer ≡ none) ⊎ (m.pairing_locked ≡ true)
      → (submit_pairing hash_of stored now fresh request m).1 ≢ no_content cookie
  submit_pairing-no_offer stored now fresh request cookie m (inr locked) e =
      let (_, unlocked, answered, _) =
        submit_pairing-no_content stored now fresh request cookie m e in
      cc
  submit_pairing-no_offer stored now fresh request cookie m (inl gone) e =
      let (_, unlocked, answered, _) =
        submit_pairing-no_content stored now fresh request cookie m e in
      unanswered m.offer request.body gone answered
    where
      unanswered :
          (o : Option PairingOffer) (b : Option (Text × Text)) → o ≡ none → ¬ (BodyAnswers now o b)
      unanswered none none gone h = h
      unanswered none (some (pin, token)) gone h = h
      unanswered (some o) b gone h = cc
