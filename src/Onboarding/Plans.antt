-- ===== src/Onboarding/Plans.antt =====
-- internal/controller/onboarding.go: a plan with its checks, and the devices that a folder is shared
-- with. Of a plan, the fields that `Create` reads.
use leaf_syncthing_pak.Base.{
  ℕ, ◌+◌, ◌-◌, ◌^◌, Bool, true, false, not, ◌&&◌, ◌||◌, Option, none, some, List, [], ◌∷◌, keep,
  any, length, ltb, leb, ◌==◌, if◌then◌else◌, Text, codes, text_eq, is_empty, sort, member, Dict, ℤ,
  pos, negsuc,
}
use leaf_syncthing_pak.Folders.Types.{
  Source, ConfiguredFolder, Card, managed_content_path, usable_enrolled_card,
}
use leaf_syncthing_pak.Folders.Device.{normalize_device_id, is_kind}
use leaf_syncthing_pak.Folders.Upstream.{Upstream}

pub record OnboardingPlan : Type 0 where
  pub source_id : Text
  pub card_id : Text
  pub kind : Text
  pub folder_type : Text
  pub folder_id : Text
  pub label : Text
  pub path : Text
  pub marker_name : Text
  pub versioning_path : Text
  pub states_warning : Bool
  pub offer_device_id : Text
  pub devices : List Text
  pub expires_at : ℕ

-- `expireLocked`, at the time `now`.
unfoldable pub expire : ℕ → Dict OnboardingPlan → Dict OnboardingPlan
expire now plans = keep (λ e. ltb now e.1.expires_at) plans

abbrev pub only {ℓ} : {A : Type ℓ} → List A → Option A
only (x ∷ []) = some x
only _ = none

unfoldable pub onboarding_card : Text → List Card → Option Card
onboarding_card source_id inventory =
    elim (only (keep (λ card. text_eq card.source.id source_id) inventory)) [
      | none ↦ none
      | some card ↦ if usable_enrolled_card card then some card else none
    ]

abbrev pub is_folder_type : Text → Bool
is_folder_type type =
    text_eq type (codes "sendonly")
    || text_eq type (codes "sendreceive")
    || text_eq type (codes "receiveonly")

-- `clean` is `filepath.Clean`, `confined` whether `leaf.RelativeWithin` accepts a root and a path,
-- and `root_of` the root of a source.
unfoldable pub valid_onboarding_selection :
    (clean : Text → Text) (confined : Text → Text → Bool) (root_of : Source → Text)
    → Card
    → (kind folder_type : Text) → List ConfiguredFolder
    → Bool
unfolding text_eq
valid_onboarding_selection clean confined root_of card kind folder_type configured =
    let path = managed_content_path card.source kind in
    is_kind kind
    && not (is_empty path)
    && is_folder_type folder_type
    && not (any (λ folder. text_eq (clean folder.path) (clean path)) configured)
    && confined (root_of card.source) path
    && not (text_eq (clean path) (clean (root_of card.source)))

-- `StorageReserveBytes` is `reserve`; the numbers are 64 bits wide.
unfoldable pub snapshot_fits : (reserve : ℕ) → ℤ → ℕ → Bool
snapshot_fits reserve (negsuc n) available = false
snapshot_fits reserve (pos required) available =
    leb required (2 ^ 64 - 1 - reserve) && leb (required + reserve) available

-- `strings` of devices that normalise, or an error.
unfoldable pub normalized : List Text → Option (List Text)
normalized [] = some []
normalized (raw ∷ raws) = elim (normalize_device_id raw) [
  | none ↦ none
  | some d ↦ elim (normalized raws) [ none ↦ none | some ds ↦ some (d ∷ ds) ]
]

-- The loop over the selected devices; `seen` are those before.
unfoldable pub selected_peers :
    (available : List Text) → (self : Text) → List Text → List Text → Option (List Text)
selected_peers available self seen [] = some []
selected_peers available self seen (raw ∷ raws) = elim (normalize_device_id raw) [
  | none ↦ none
  | some d ↦ elim (text_eq d self || member d seen || not (member d available)) [
    | true ↦ none
    | false ↦ elim (selected_peers available self (d ∷ seen) raws) [
      | none ↦ none
      | some ds ↦ some (d ∷ ds)
    ]
  ]
]

module _ {U : Type 0} (upstream : Upstream U) where
  unfoldable pub selected_folder_devices : (self_id : Text) → List Text → U → Option (List Text)
  selected_folder_devices self_id selected u = elim (normalize_device_id self_id) [
    | none ↦ none
    | some self ↦ elim (length selected == 0 || ltb 32 (length selected)) [
      | true ↦ none
      | false ↦ elim (upstream.configured_folder_devices self u) [
        | none ↦ none
        | some configured ↦ elim (normalized configured) [
          | none ↦ none
          | some available ↦ elim (member self available) [
            | false ↦ none
            | true ↦ elim (selected_peers available self [] selected) [
              | none ↦ none
              | some peers ↦ some (self ∷ sort peers)
            ]
          ]
        ]
      ]
    ]
  ]
