-- ===== src/Recovery/Membership.antt =====
-- internal/controller/membership.go: the folder that a share or an unshare leaves.
pub mod Gathered
pub mod Laws
use leaf_syncthing_pak.Base.{
  Bool, true, false, not, ◌||◌, Option, none, some, List, [], ◌∷◌, keep, if◌then◌else◌, Text,
  text_eq, sort, member,
}
use leaf_syncthing_pak.Folders.Types.{ConfiguredFolder}
use leaf_syncthing_pak.Folders.Device.{normalize_device_id}

-- The loop that fills `members`; `seen` are those that it has.
unfoldable pub gather : List Text → List Text → Option (List Text)
gather seen [] = some []
gather seen (raw ∷ raws) = elim (normalize_device_id raw) [
  | none ↦ none
  | some d ↦ elim (member d seen) [
    | true ↦ none
    | false ↦ elim (gather (d ∷ seen) raws) [ none ↦ none | some ds ↦ some (d ∷ ds) ]
  ]
]

-- `members[peer] = present`, with the `delete`.
unfoldable pub with_peer : Text → Bool → List Text → List Text
with_peer peer true members = if member peer members then members else peer ∷ members
with_peer peer false members = keep (λ d. not (text_eq d peer)) members

abbrev pub differs : Bool → Bool → Bool
differs true b = not b
differs false b = b

abbrev pub members_changed :
    ConfiguredFolder → (self peer : Text) → Bool → List Text → ConfiguredFolder × Bool
members_changed folder self peer present members = (
  record folder {
    devices = self ∷ sort (keep (λ d. not (text_eq d self)) (with_peer peer present members));
    paused = true;
  },
  differs (member peer members) present,
)

-- `folderWithMembership`; its errors are `none`, as the callers pass them on.
unfoldable pub folder_with_membership :
    ConfiguredFolder
    → (self_id peer_id : Text) → (present : Bool) → Option (ConfiguredFolder × Bool)
folder_with_membership folder self_id peer_id present = elim (normalize_device_id self_id) [
  | none ↦ none
  | some self ↦ elim (normalize_device_id peer_id) [
    | none ↦ none
    | some peer ↦ elim (gather [] folder.devices) [
      | none ↦ none
      | some members ↦
          if text_eq peer self || not (member self members)
          then none
          else some (members_changed folder self peer present members)
    ]
  ]
]
