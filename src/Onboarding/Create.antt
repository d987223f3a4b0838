-- ===== src/Onboarding/Create.antt =====
-- internal/controller/onboarding.go: `Create`, which makes the folder of a reviewed plan.
pub mod Created
pub mod Refused
use leaf_syncthing_pak.Base.{
  ℕ, Bool, true, false, not, ◌&&◌, ◌||◌, Option, none, some, List, [], ◌∷◌, length, ltb, drop,
  if◌then◌else◌, Text, codes, text_eq, is_empty, Dict, lookup, delete, ℤ,
}
use leaf_syncthing_pak.Folders.Types.{Source, ConfiguredFolder, Card, managed_content_path}
use leaf_syncthing_pak.Folders.Device.{Names, valid_folder_id, binding_names}
use leaf_syncthing_pak.Folders.Store.{FolderControlRecord, Store, Call}
use leaf_syncthing_pak.Folders.Ops.{new_folder_control_record, add, remove, activate}
use leaf_syncthing_pak.Folders.Rows.{Lstat}
use leaf_syncthing_pak.Folders.Upstream.{Upstream}
use leaf_syncthing_pak.FirstSync.Manager.{valid_first_sync_binding}
use leaf_syncthing_pak.Onboarding.Plans.{
  OnboardingPlan, expire, onboarding_card, valid_onboarding_selection, snapshot_fits,
  selected_folder_devices,
}

pub record World (U : Type 0) : Type 0 where
  pub plans : Dict OnboardingPlan
  pub store : Store
  pub upstream : U

-- The three writes of the control store.
pub data Phase : Type 0 where
  adding removing activating : Phase

-- What the file system answers: the size of a content tree that may be taken (`inspectOnboardingRoot`),
-- the free bytes under a root, and whether the directories of a folder could be made and flushed
-- (`prepareOnboardingStorage`).
pub record Surveys : Type 0 where
  pub inspect : (path marker_name : Text) → Option ℤ
  pub available_bytes : Text → Option ℕ
  pub prepare : Card → OnboardingPlan → Bool

abbrev pub folder_of : OnboardingPlan → List Text → ConfiguredFolder
folder_of plan devices =
    let receives = not (text_eq plan.folder_type (codes "sendonly")) in
    record {
      id = plan.folder_id;
      label = plan.label;
      kind = plan.kind;
      path = plan.path;
      type = plan.folder_type;
      marker_name = plan.marker_name;
      paused = true;
      versioning_type = if receives then codes "simple" else [];
      versioning_fs_path = if receives then plan.versioning_path else [];
      versioning_fs_type = if receives then codes "basic" else [];
      devices = devices;
    }

abbrev pub acknowledged : OnboardingPlan → (states manual : Bool) → Bool
acknowledged plan states manual = manual && (not plan.states_warning || states)

module _ {U : Type 0} (upstream : Upstream U) (hex_digest : Text → Text)
    (works : Phase → Call → Bool) (clean base : Text → Text) (join : List Text → Text)
    (lstat : Text → Lstat) (confined : Text → Text → Bool) (root_of : Source → Text) (reserve : ℕ)
    (surveys : Surveys) where
  -- The binding is still the one that was reviewed.
  unfoldable pub binding_unchanged : Card → OnboardingPlan → Bool
  binding_unchanged card plan = elim (binding_names hex_digest card.identity_id plan.kind) [
    | none ↦ false
    | some names ↦
        (if is_empty plan.offer_device_id
          then text_eq names.folder_id plan.folder_id
          else valid_folder_id plan.folder_id)
        && text_eq names.marker_name plan.marker_name
        && text_eq (clean (managed_content_path card.source plan.kind)) (clean plan.path)
  ]

  unfoldable pub room_for_snapshot : Card → OnboardingPlan → ℤ → Bool
  room_for_snapshot card plan bytes =
      if text_eq plan.folder_type (codes "sendonly")
      then true
      else elim (surveys.available_bytes (root_of card.source)) [
        | none ↦ false
        | some available ↦ snapshot_fits reserve bytes available
      ]

  -- What is looked at before anything is changed, with the devices of the folder.
  unfoldable pub reviewed :
      OnboardingPlan
      → (self_id : Text) → (states manual : Bool) → List ConfiguredFolder
      → U
      → Card
      → Option (List Text)
  reviewed plan self_id states manual configured u card =
      elim (surveys.inspect plan.path plan.marker_name) [
        | none ↦ none
        | some bytes ↦
            if not (acknowledged plan states manual)
              || not (text_eq card.identity_id plan.card_id)
              || not (
                  valid_onboarding_selection clean confined root_of card plan.kind plan.folder_type
                    configured)
              || not (binding_unchanged card plan)
              || not (room_for_snapshot card plan bytes)
              || ltb (length plan.devices) 2
            then none
            else selected_folder_devices upstream self_id (drop 1 plan.devices) u
      ]

  -- From `BeginAdd` on.
  unfoldable pub add_folder :
      Text → ConfiguredFolder → Card → World U → World U × Option ConfiguredFolder
  add_folder plan_id folder card w =
      let (s, added) = add (works adding) hex_digest folder card true w.store in
      let (u, accepted) = upstream.add_managed_folder folder w.upstream in
      let (s_out, out) = remove (works removing) folder.id s in
      let (s_on, on) = activate (works activating) folder.id s in
      elim added [
        | some e ↦ (record w { store = s }, none)
        | none ↦
            if not accepted then (record w { store = s_out; upstream = u }, none) else elim on [
              | some e ↦ (record w { store = s_on; upstream = u }, none)
              | none ↦ (
                record w { store = s_on; upstream = u; plans = delete plan_id w.plans },
                some folder,
              )
            ]
      ]

  unfoldable pub create_reviewed :
      Text → OnboardingPlan → Card → List Text → World U → World U × Option ConfiguredFolder
  create_reviewed plan_id plan card devices w =
      let folder = folder_of plan devices in
      let (binding, failure) = new_folder_control_record hex_digest folder card in
      elim failure [
        | some e ↦ (w, none)
        | none ↦
            if not (surveys.prepare card plan)
              || not (valid_first_sync_binding clean base join lstat folder card binding)
            then (w, none)
            else add_folder plan_id folder card w
      ]

  -- `Create`, at the time `now`.
  unfoldable pub create :
      (now : ℕ) (plan_id self_id : Text) (states manual : Bool)
      → List Card
      → List ConfiguredFolder
      → World U
      → World U × Option ConfiguredFolder
  create now plan_id self_id states manual inventory configured w =
      let kept = record w { plans = expire now w.plans } in
      elim (lookup plan_id kept.plans) [
        | none ↦ (kept, none)
        | some plan ↦ elim (onboarding_card plan.source_id inventory) [
          | none ↦ (kept, none)
          | some card ↦ elim (reviewed plan self_id states manual configured w.upstream card) [
            | none ↦ (kept, none)
            | some devices ↦ create_reviewed plan_id plan card devices kept
          ]
        ]
      ]
