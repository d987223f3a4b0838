-- ===== src/Onboarding/Making.antt =====
-- internal/controller/onboarding.go: `Plan` and `PlanOffer`, which make the plans.
pub mod Kept
use leaf_syncthing_pak.Base.{
  ℕ, ◌+◌, ◌*◌, Bool, true, false, not, ◌&&◌, ◌||◌, Option, none, some, List, [], ◌∷◌, ◌++◌, length,
  any, all, leb, ltb, ◌==◌, if◌then◌else◌, Text, codes, text_eq, is_empty, Dict, insert, ℤ,
}
use leaf_syncthing_pak.Folders.Types.{Source, ConfiguredFolder, Card, managed_content_path}
use leaf_syncthing_pak.Folders.Device.{
  Names, binding_names, normalize_device_id, trim_space, valid_folder_id,
}
use leaf_syncthing_pak.Folders.Rows.{folder_kind_label}
use leaf_syncthing_pak.Folders.Upstream.{Upstream}
use leaf_syncthing_pak.Onboarding.Plans.{
  OnboardingPlan, expire, onboarding_card, valid_onboarding_selection, selected_folder_devices,
}
use leaf_syncthing_pak.Onboarding.Create.{Surveys}

-- Five minutes, in nanoseconds.
abbrev pub onboarding_plan_lifetime : ℕ
onboarding_plan_lifetime = 5 * 60 * 1000000000

abbrev pub max_onboarding_plans : ℕ
max_onboarding_plans = 16

-- `validOnboardingLabel`.
unfoldable pub valid_onboarding_label : Text → Bool
valid_onboarding_label label =
    not (is_empty label || ltb 96 (length label)) && all (λ c. not (ltb c 32 || c == 127)) label

-- What is offered: a folder, its label and the device; all are empty for a folder of one's own.
pub record Offered : Type 0 where
  pub folder_id : Text
  pub label : Text
  pub device_id : Text

abbrev pub nothing_offered : Offered
nothing_offered = record { folder_id = []; label = []; device_id = [] }

-- The folder of a plan: the one of the binding, unless another is offered.
abbrev pub planned_id : Offered → Names → Text
planned_id offered names = if is_empty offered.folder_id then names.folder_id else offered.folder_id

module _ {U : Type 0} (upstream : Upstream U) (hex_digest : Text → Text) (clean : Text → Text)
    (join : List Text → Text) (confined : Text → Text → Bool) (root_of : Source → Text)
    (surveys : Surveys) where
  -- The checks of `plan` after the limit, with the card's names and the devices.
  unfoldable pub surveyed :
      (kind folder_type : Text)
      → Offered
      → (self_id : Text) → List Text
      → List ConfiguredFolder
      → U
      → Card
      → Option (Names × List Text)
  surveyed kind folder_type offered self_id device_ids configured u card =
      elim (binding_names hex_digest card.identity_id kind) [
        | none ↦ none
        | some names ↦
            let path = managed_content_path card.source kind in
            if not
                (valid_onboarding_selection clean confined root_of card kind folder_type configured)
              || any (λ folder. text_eq folder.id (planned_id offered names)) configured
            then none
            else elim (surveys.inspect path names.marker_name) [
              | none ↦ none
              | some bytes ↦ elim (surveys.available_bytes (root_of card.source)) [
                | none ↦ none
                | some available ↦ elim (selected_folder_devices upstream self_id device_ids u) [
                  | none ↦ none
                  | some devices ↦ some (names, devices)
                ]
              ]
            ]
      ]

  abbrev pub plan_of :
      (now : ℕ)
      → (source_id kind folder_type : Text) → Offered
      → Card
      → Names
      → List Text
      → OnboardingPlan
  plan_of now source_id kind folder_type offered card names devices = record {
    source_id = source_id;
    card_id = card.identity_id;
    kind = kind;
    folder_type = folder_type;
    folder_id = planned_id offered names;
    label =
        if is_empty offered.folder_id
        then codes "Leaf " ++ folder_kind_label kind
        else offered.label;
    path = managed_content_path card.source kind;
    marker_name = names.marker_name;
    versioning_path =
        join (card.source.userdata_path ∷ codes "Syncthing" ∷ codes "versions" ∷ kind ∷ []);
    states_warning = text_eq kind (codes "states");
    offer_device_id = offered.device_id;
    devices = devices;
    expires_at = now + onboarding_plan_lifetime;
  }

  -- `plan`, at the time `now`; `fresh` is the id that was read from the random source.
  unfoldable pub plan :
      (now : ℕ) (fresh : Option Text) (source_id kind folder_type : Text)
      → Offered
      → (self_id : Text) → List Text
      → List Card
      → List ConfiguredFolder
      → U
      → Dict OnboardingPlan
      → Dict OnboardingPlan × Option (Text × OnboardingPlan)
  plan now fresh source_id kind folder_type offered self_id device_ids inventory configured u
        plans =
      let kept = expire now plans in
      if leb max_onboarding_plans (length kept)
      then (kept, none)
      else elim (onboarding_card source_id inventory) [
        | none ↦ (kept, none)
        | some card ↦
            elim (surveyed kind folder_type offered self_id device_ids configured u card) [
              | none ↦ (kept, none)
              | some (names, devices) ↦ elim fresh [
                | none ↦ (kept, none)
                | some id ↦
                    let made = plan_of now source_id kind folder_type offered card names devices in
                    (insert id made kept, some (id, made))
              ]
            ]
      ]

  -- `PlanOffer`.
  unfoldable pub plan_offer :
      (now : ℕ) (fresh : Option Text) (source_id kind folder_type : Text)
      → Offered
      → (self_id : Text) → List Card
      → List ConfiguredFolder
      → U
      → Dict OnboardingPlan
      → Dict OnboardingPlan × Option (Text × OnboardingPlan)
  plan_offer now fresh source_id kind folder_type offered self_id inventory configured u plans =
      elim (normalize_device_id offered.device_id) [
        | none ↦ (plans, none)
        | some device ↦
            let label = trim_space offered.label in
            let sound =
              if valid_onboarding_label label
              then label
              else codes "Leaf " ++ folder_kind_label kind in
            if not (valid_folder_id offered.folder_id) || text_eq device self_id
            then (plans, none)
            else plan now fresh source_id kind folder_type
                (record { folder_id = offered.folder_id; label = sound; device_id = device })
                self_id (device ∷ []) inventory configured u plans
      ]
