-- ===== src/Gateway/Manager.antt =====
-- internal/gateway/gateway.go: the gateway's state and the operations on it. A zero time is
-- `none`. What the operating system and the random source answer comes in as arguments; `stored`
-- says whether a write of the trust file succeeds.
pub mod Pairing
pub mod Invariant
pub mod OneUse
use leaf_syncthing_pak.Base.{
  ℕ, zero, suc, ◌+◌, ◌-◌, ◌*◌, ◌/◌, ◌%◌, Bool, true, false, not, ◌&&◌, ◌||◌, Option, none, some,
  List, [], ◌∷◌, ◌++◌, length, ltb, leb, ◌==◌, if◌then◌else◌, Text, codes, text_eq, is_empty, Dict,
  lookup, insert,
}
use leaf_syncthing_pak.Gateway.Trust.{TrustStore, seconds, issue, authenticate, revoke}
use leaf_syncthing_pak.Gateway.Trust

abbrev pub pairing_lifetime : ℕ
pairing_lifetime = seconds 120

abbrev pub extension_lifetime : ℕ
extension_lifetime = seconds 900

abbrev pub foreground_lifetime : ℕ
foreground_lifetime = seconds 4

abbrev pub per_source_window : ℕ
per_source_window = seconds 30

abbrev pub global_window : ℕ
global_window = seconds 600

pub record PairingOffer : Type 0 where
  pub pin : Text
  pub token : Text
  pub expires : ℕ

pub record Instance : Type 0 where
  pub host : Text
  pub addresses : List Text
  pub fingerprint : Text

pub record Manager : Type 0 where
  pub trust : TrustStore
  pub instance : Option Instance
  pub offer : Option PairingOffer
  pub control_csrf : Text
  pub foreground_deadline : Option ℕ
  pub extension_expires : Option ℕ
  pub failed_by_source : Dict (List ℕ)
  pub failed_global : List ℕ
  pub pairing_locked : Bool

pub record Status : Type 0 where
  pub is_open : Bool
  pub url : Text
  pub pin : Text
  pub qr_token : Text
  pub offer_expires : Option ℕ
  pub fingerprint : Text
  pub trusted_browsers : ℕ
  pub pairing : Bool
  pub extension_expires : Option ℕ

abbrev pub is_some {ℓ} : {A : Type ℓ} → Option A → Bool
is_some none = false
is_some (some a) = true

abbrev pub set_trust : TrustStore → Manager → Manager
set_trust t m = record m { trust = t }

abbrev closed_status : ℕ → Status
closed_status trusted = record {
  is_open = false;
  url = [];
  pin = [];
  qr_token = [];
  offer_expires = none;
  fingerprint = [];
  trusted_browsers = trusted;
  pairing = false;
  extension_expires = none;
}

abbrev open_status : ℕ → Instance → Option ℕ → Option PairingOffer → Status
open_status trusted i none (some o) = record {
  is_open = true;
  url = codes "https://" ++ i.host ++ codes "/";
  pin = o.pin;
  qr_token = o.token;
  offer_expires = some o.expires;
  fingerprint = i.fingerprint;
  trusted_browsers = trusted;
  pairing = true;
  extension_expires = none;
}
open_status trusted i e o = record {
  is_open = true;
  url = codes "https://" ++ i.host ++ codes "/";
  pin = [];
  qr_token = [];
  offer_expires = none;
  fingerprint = i.fingerprint;
  trusted_browsers = trusted;
  pairing = false;
  extension_expires = e;
}

abbrev status_at : ℕ → Manager → Status
status_at trusted m = elim m.instance [
  | none ↦ closed_status trusted
  | some i ↦ open_status trusted i m.extension_expires m.offer
]

-- `statusLocked`, which counts the trusted browsers and so prunes them.
unfoldable pub status : (stored : Bool) → ℕ → Manager → Manager × Status
status stored now m =
    let (t, trusted) = Trust.count stored now m.trust in
    (set_trust t m, status_at trusted (set_trust t m))

-- `Close`.
unfoldable pub close : Manager → Manager
close m = record m {
  instance = none;
  offer = none;
  control_csrf = [];
  foreground_deadline = none;
  extension_expires = none;
}

-- The secrets that `issueOfferLocked` reads: two encoded tokens and a 16-bit number; none where the
-- random source fails.
pub record Secrets : Type 0 where
  pub token : Text
  pub csrf : Text
  pub pin_word : ℕ

abbrev digit : ℕ → ℕ
digit n = n % 10 + b'0'

-- `%04d` of a number below 10000.
abbrev four_digits : ℕ → Text
four_digits n = digit (n / 1000) ∷ digit (n / 100) ∷ digit (n / 10) ∷ digit n ∷ []

unfoldable pub issue_offer : Option Secrets → ℕ → Manager → Manager × Bool
issue_offer none now m = (m, false)
issue_offer (some s) now m = (
  record m {
    offer = some (record {
      pin = four_digits (s.pin_word % 10000);
      token = s.token;
      expires = now + pairing_lifetime;
    });
    control_csrf = s.csrf;
  },
  true,
)

-- `slices.Equal` on the addresses.
unfoldable pub same_addresses : List Text → List Text → Bool
same_addresses [] [] = true
same_addresses (a ∷ rest) (b ∷ bs) = text_eq a b && same_addresses rest bs
same_addresses _ _ = false

abbrev addressed : Option Instance → List Text → Bool
addressed none addresses = false
addressed (some i) addresses = same_addresses i.addresses addresses

-- The end of `Open` and `KeepAlive`: the status, and none for an error.
unfoldable pub reported : (stored : Bool) → ℕ → Manager × Bool → Manager × Option Status
unfolding status
reported stored now (m, false) = (m, none)
reported stored now (m, true) = let (n, s) = status stored now m in (n, some s)

-- `Open`: the eligible addresses, the listener that a new instance gets, the secrets. Each early
-- return leaves what was done so far.
unfoldable pub open_gateway :
    (stored : Bool)
    → Option (List Text)
    → Option Instance
    → Option Secrets
    → ℕ
    → Manager
    → Manager × Option Status
unfolding close issue_offer reported
open_gateway stored none listened secrets now m = (m, none)
open_gateway stored (some addresses) listened secrets now m =
    let same = addressed m.instance addresses in
    let cleared = if not same && is_some m.instance then close m else m in
    let reset = λ (n : Manager). record n {
      extension_expires = none;
      foreground_deadline = some (now + foreground_lifetime);
      failed_by_source = [];
      failed_global = [];
      pairing_locked = false;
    } in
    if same then reported stored now (issue_offer secrets now (reset cleared)) else elim listened [
      | none ↦ (cleared, none)
      | some i ↦
          reported stored now
            (issue_offer secrets now (reset (record cleared { instance = some i })))
    ]

unfoldable pub keep_alive : (stored : Bool) → ℕ → Manager → Manager × Option Status
unfolding reported
keep_alive stored now m =
    if not (is_some m.instance)
    then (m, none)
    else reported stored now (
      if is_some m.extension_expires
          then m
          else record m { foreground_deadline = some (now + foreground_lifetime) },
      true,
    )

-- `Extend`. The count of its final status finds nothing more to prune at the same time.
unfoldable pub extend : (stored : Bool) → ℕ → Manager → Manager × Bool
extend stored now m =
    let (t, trusted) = Trust.count stored now m.trust in
    if not (is_some m.instance)
    then (m, false)
    else if trusted == 0
    then (set_trust t m, false)
    else (
      record m {
        trust = t;
        offer = none;
        extension_expires = some (now + extension_lifetime);
        foreground_deadline = none;
      },
      true,
    )

-- `!t.IsZero() && now.Before(t)` and `!t.IsZero() && !now.Before(t)`.
abbrev ahead : ℕ → Option ℕ → Bool
ahead now none = false
ahead now (some t) = ltb now t

abbrev reached : ℕ → Option ℕ → Bool
reached now none = false
reached now (some t) = leb t now

unfoldable pub close_foreground : ℕ → Manager → Manager
unfolding close
close_foreground now m =
    if is_some m.instance && ahead now m.extension_expires
    then record m { offer = none }
    else close m

unfoldable pub revoke_all : (stored : Bool) → Manager → Manager × Bool
unfolding close
revoke_all stored m =
    let (t, done) = Trust.revoke_all stored m.trust in
    if done then (close (set_trust t m), true) else (set_trust t m, false)

abbrev expire_offer : ℕ → Option PairingOffer → Option PairingOffer
expire_offer now none = none
expire_offer now (some o) = if leb o.expires now then none else some o

-- `Tick`, with the addresses that it reads; the Boolean says that it closed the gateway.
unfoldable pub tick : Option (List Text) → ℕ → Manager → Manager × Bool
unfolding close
tick addresses now m = elim m.instance [
  | none ↦ (m, false)
  | some i ↦
      let for_lifetime =
        reached now m.extension_expires
        || (not (is_some m.extension_expires) && reached now m.foreground_deadline) in
      let moved : Bool = elim addresses [
        | none ↦ true
        | some a ↦ not (same_addresses i.addresses a)
      ] in
      let expired = record m { offer = expire_offer now m.offer } in
      if for_lifetime || moved then (close expired, true) else (expired, false)
]
