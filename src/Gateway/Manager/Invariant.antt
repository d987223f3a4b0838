-- ===== src/Gateway/Manager/Invariant.antt =====
-- The properties of the pairing state over every sequence of the gateway's operations.
use leaf_syncthing_pak.Base.{
  ℕ, ◌<◌, Bool, true, false, ◌≡◌, Option, none, List, [], ◌∷◌, length, Text,
}
use leaf_syncthing_pak.Gateway.Manager.{
  Instance, Manager, Secrets, is_some, close, open_gateway, keep_alive, extend, close_foreground,
  revoke_all, tick, status,
}
use leaf_syncthing_pak.Gateway.Manager.Pairing.{ControlRequest, submit_pairing, logout}

-- An offer is out only while the gateway is open, not locked and not extended; without the lock
-- there are fewer than twenty recent failures.
pub record Inv (m : Manager) : Type 0 where
  pub offer_open : is_some m.offer ≡ true → is_some m.instance ≡ true
  pub offer_unlocked : m.pairing_locked ≡ true → m.offer ≡ none
  pub offer_unextended : is_some m.extension_expires ≡ true → m.offer ≡ none
  pub failures_counted : m.pairing_locked ≡ false → length m.failed_global < 20

-- A call of one of the gateway's operations, with what its environment answers.
pub data Op : Type 0 where
  opened : (stored : Bool) → Option (List Text) → Option Instance → Option Secrets → ℕ → Op
  kept_alive : (stored : Bool) → ℕ → Op
  extended : Bool → ℕ → Op
  foreground_closed : ℕ → Op
  all_revoked : Bool → Op
  closed : Op
  ticked : Option (List Text) → ℕ → Op
  asked : Bool → ℕ → Op
  submitted : Bool → ℕ → Option Text → ControlRequest → Op
  logged_out : Bool → Bool → ℕ → ControlRequest → Op

module _ (hash_of : Text → Text) where
  unfoldable pub apply : Op → Manager → Manager
  apply (opened stored addresses listened secrets now) m =
      (open_gateway stored addresses listened secrets now m).0
  apply (kept_alive stored now) m = (keep_alive stored now m).0
  apply (extended stored now) m = (extend stored now m).0
  apply (foreground_closed now) m = close_foreground now m
  apply (all_revoked stored) m = (revoke_all stored m).0
  apply closed m = close m
  apply (ticked addresses now) m = (tick addresses now m).0
  apply (asked stored now) m = (status stored now m).0
  apply (submitted stored now fresh request) m =
      (submit_pairing hash_of stored now fresh request m).0
  apply (logged_out stored stored' now request) m = (logout hash_of stored stored' now request m).0

  abbrev pub run : List Op → Manager → Manager
  run [] m = m
  run (op ∷ ops) m = run ops (apply op m)
