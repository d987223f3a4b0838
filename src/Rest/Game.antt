-- ===== src/Rest/Game.antt =====
-- internal/syncthing/game_check.go, `ReadGameCheckStatus`: whether the folders of a game are in sync
-- with every peer. The requests that run concurrently each fill a place of their own.
pub mod Added
pub mod Current
pub mod InSync
use leaf_syncthing_pak.Base.{
  ℕ, Bool, true, false, not, ◌&&◌, ◌||◌, ◌==◌, ltb, Option, none, some, List, [], ◌∷◌, any, keep,
  member, if◌then◌else◌, Text, codes, text_eq, Dict, lookup, insert, ℤ, pos,
}
use leaf_syncthing_pak.Folders.Types.{ConfiguredFolder}
use leaf_syncthing_pak.Rest.Replies.{
  Reply, got, lost, ◌>>=◌, UiDevice, UiConnection, UiDbStatus, UiCompletion, Responses,
}
use leaf_syncthing_pak.Rest.Totals.{
  nonnegative, bounded_byte_total, bounded_item_total, bounded_state,
}

pub record GameCheckStatus : Type 0 where
  pub current : Bool
  pub pending_items : ℤ
  pub pending_bytes : ℤ

-- The assignments to a map, in order.
unfoldable pub by_device_id : List UiDevice → Dict UiDevice → Dict UiDevice
by_device_id [] result = result
by_device_id (device ∷ devices) result =
    by_device_id devices (insert device.device_id device result)

abbrev pub wrong : {A : Type 0} → Reply A
wrong = lost false

abbrev pub paused_by : Option UiConnection → Bool
paused_by none = false
paused_by (some c) = c.paused

abbrev pub connected_by : Option UiConnection → Bool
connected_by none = false
connected_by (some c) = c.connected

abbrev pub device_accepted : Option UiDevice → Option UiConnection → Bool
device_accepted none c = false
device_accepted (some device) c = not (device.paused || paused_by c)

-- The peers of a folder.
abbrev pub peers_of : Text → ConfiguredFolder → List Text
peers_of self folder = keep (λ id. not (text_eq id self)) folder.devices

module _ (devices : Dict UiDevice) (connections : Dict UiConnection) where
  -- The peers that a check waits for, added to those of the folders before.
  unfoldable pub waiting_peers : List Text → List Text → Reply (List Text)
  waiting_peers [] waiting = got waiting
  waiting_peers (id ∷ ids) waiting =
      let connection = lookup id connections in
      let next = waiting_peers ids (if connected_by connection then waiting else id ∷ waiting) in
      if device_accepted (lookup id devices) connection then next else wrong

  unfoldable pub waiting_of_folders : Text → List ConfiguredFolder → List Text → Reply (List Text)
  unfolding ◌>>=◌
  waiting_of_folders self [] waiting = got waiting
  waiting_of_folders self (folder ∷ folders) waiting =
      waiting_peers (peers_of self folder) waiting >>= waiting_of_folders self folders

-- The totals so far, and `folderPending`.
pub record Pending : Type 0 where
  pub items : ℕ
  pub bytes : ℕ
  pub folder_pending : Bool

abbrev positive : ℕ → Bool
positive n = ltb 0 n

unfoldable pub add_pending : (items bytes : ℕ) → Pending → Pending
add_pending items bytes p = record {
  items = bounded_item_total (pos p.items ∷ pos items ∷ []);
  bytes = bounded_byte_total p.bytes (pos bytes);
  folder_pending = p.folder_pending || positive bytes || positive items;
}

abbrev one_if_zero : ℕ → ℕ → ℕ
one_if_zero bytes items = if bytes == 0 && items == 0 then 1 else items

unfoldable pub add_completion : UiCompletion → Pending → Reply Pending
unfolding text_eq
add_completion completion p =
    let bytes = nonnegative completion.need_bytes in
    let items = bounded_item_total (completion.need_items ∷ completion.need_deletes ∷ []) in
    if text_eq completion.remote_state (codes "unknown")
    then got (add_pending (one_if_zero bytes items) bytes p)
    else if text_eq completion.remote_state (codes "valid")
    then got (add_pending items bytes p)
    else wrong

-- A peer that the check waits for.
unfoldable pub add_waiting : Pending → Pending
add_waiting p = record {
  items = bounded_item_total (pos p.items ∷ pos 1 ∷ []);
  bytes = p.bytes;
  folder_pending = true;
}

abbrev pub refused_states : List Text
refused_states =
    codes "error"
    ∷ codes "unknown"
    ∷ codes "paused"
    ∷ codes "scanning"
    ∷ codes "scan-waiting"
    ∷ codes "cleaning"
    ∷ codes "clean-waiting"
    ∷ []

abbrev above_zero : ℤ → Bool
above_zero n = positive (nonnegative n)

unfoldable pub add_local : UiDbStatus → Pending → Reply Pending
unfolding nonnegative
add_local local p =
    if above_zero local.errors || above_zero local.pull_errors
    then wrong
    else if member (bounded_state local.state) refused_states
    then wrong
    else got (
        add_pending (nonnegative local.need_total_items) (nonnegative local.need_bytes)
          (record p { folder_pending = false }))

module _ (rest : Responses) (self : Text) (waiting : List Text) where
  unfoldable pub add_peer : Text → Text → Pending → Reply Pending
  unfolding ◌>>=◌
  add_peer folder_id id p =
      if member id waiting
      then got (add_waiting p)
      else (rest.completion id folder_id >>= λ completion. add_completion completion p)

  unfoldable pub add_peers : Text → List Text → Pending → Reply Pending
  unfolding ◌>>=◌
  add_peers folder_id [] p = got p
  add_peers folder_id (id ∷ ids) p = add_peer folder_id id p >>= add_peers folder_id ids

  -- Activity without a pending count is refused.
  unfoldable pub check_activity : Text → Pending → Reply Pending
  unfolding text_eq
  check_activity state p =
      if not (text_eq (bounded_state state) (codes "idle")) && not p.folder_pending
      then wrong
      else got p

  unfoldable pub add_read : ConfiguredFolder → Pending → Reply Pending
  unfolding ◌>>=◌
  add_read folder p = rest.status folder.id >>= λ local. add_local local p >>= λ p₁.
      add_peers folder.id (peers_of self folder) p₁ >>= check_activity local.state

  unfoldable pub add_reads : List ConfiguredFolder → Pending → Reply Pending
  unfolding ◌>>=◌
  add_reads [] p = got p
  add_reads (folder ∷ folders) p = add_read folder p >>= add_reads folders

abbrev pub no_pending : Pending
no_pending = record { items = 0; bytes = 0; folder_pending = false }

abbrev pub nothing_pending : Pending → Bool
nothing_pending p = p.items == 0 && p.bytes == 0

abbrev pub as_status : Pending → GameCheckStatus
as_status p = record {
  current = nothing_pending p;
  pending_items = pos p.items;
  pending_bytes = pos p.bytes;
}

unfoldable pub read_game_check_status :
    Responses → List ConfiguredFolder → Text → Reply GameCheckStatus
unfolding ◌>>=◌
read_game_check_status rest folders self =
    if any (λ folder. folder.paused) folders
    then wrong
    else (rest.devices >>= λ devices. rest.connections >>= λ connections.
        waiting_of_folders (by_device_id devices []) connections self folders [] >>= λ waiting.
        add_reads rest self waiting folders no_pending >>= λ p. got (as_status p))
