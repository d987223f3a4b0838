-- ===== src/Reset/Documents.antt =====
-- internal/controller/reset.go: the document of a reset and which documents are accepted, with
-- `RelativeWithin` of internal/leaf/pathguard.go.
use leaf_syncthing_pak.Base.{
  ℕ, Bool, true, false, not, ◌&&◌, ◌||◌, ◌==◌, leb, Option, none, some, List, [], ◌∷◌, ◌++◌, map,
  all, any, keep, length, member, between, if◌then◌else◌, Text, codes, text_eq, is_empty, Dict,
  lookup, insert, ℤ, equals,
}
use leaf_syncthing_pak.Folders.Types.{Source, Card, is_enrolled}

pub record ResetRoot : Type 0 where
  pub path : Text
  pub filesystem_root : Text
  pub description : Text

pub record ResetCard : Type 0 where
  pub id : Text
  pub source_id : Text
  pub root : Text
  pub userdata_path : Text

pub record ResetDocument : Type 0 where
  pub schema : ℤ
  pub action_id : Text
  pub action : Text
  pub roots : List ResetRoot
  pub required_cards : List ResetCard
  pub retained : List Text

-- The fields of the controller's `Config` that a reset reads.
pub record Config : Type 0 where
  pub userdata_path : Text
  pub config_dir : Text
  pub data_dir : Text
  pub sources : List Source

abbrev pub index_only : Text
index_only = codes "index-only"

abbrev pub full : Text
full = codes "full"

abbrev pub available_only : Text
available_only = codes "available-only"

-- The bytes that `hex.DecodeString` takes; sixteen bytes are written with 32 of them.
abbrev is_hex_byte : ℕ → Bool
is_hex_byte c = between b'0' b'9' c || between b'a' b'f' c || between b'A' b'F' c

unfoldable pub is_hex_id : Text → Bool
is_hex_id id = length id == 32 && all is_hex_byte id

-- `[0-9.]+\.db$` after `started`, which says whether a byte of the class was read.
unfoldable pub version_tail : Bool → Text → Bool
unfolding text_eq
version_tail started [] = false
version_tail started (c ∷ cs) =
    let rest = version_tail true cs in
    (started && text_eq (c ∷ cs) (codes ".db")) || ((between b'0' b'9' c || c == b'.') && rest)

unfoldable pub after_prefix : Text → Text → Option Text
after_prefix [] s = some s
after_prefix (p ∷ ps) [] = none
after_prefix (p ∷ ps) (c ∷ cs) = let rest = after_prefix ps cs in if p == c then rest else none

-- `indexDirectory`.
unfoldable pub index_directory : Text → Bool
unfolding after_prefix version_tail
index_directory name = elim (after_prefix (codes "index-v") name) [
  | none ↦ false
  | some tail ↦ version_tail false tail
]

abbrev pub is_some : {A : Type 0} → Option A → Bool
is_some none = false
is_some (some a) = true

abbrev pub without : Text → List Text → List Text
without x xs = keep (λ y. not (text_eq x y)) xs

-- The functions of path/filepath that a reset uses; `rel` is `none` for an error.
pub record Filepath : Type 0 where
  pub clean : Text → Text
  pub base : Text → Text
  pub dir : Text → Text
  pub join : List Text → Text
  pub rel : Text → Text → Option Text
  pub is_abs : Text → Bool

module _ (fp : Filepath) where
  unfoldable pub relative_within : Text → Text → Option Text
  unfolding text_eq after_prefix
  relative_within root target = elim (fp.rel (fp.clean root) (fp.clean target)) [
    | none ↦ none
    | some path ↦
        if text_eq path (codes "..") || is_some (after_prefix (codes "../") path) || fp.is_abs path
        then none
        else some path
  ]

  unfoldable pub reset_path_within : Text → Text → Bool
  reset_path_within root target =
      not (text_eq (fp.clean root) (fp.clean target))
      && is_some (relative_within (fp.clean root) (fp.clean target))

  unfoldable pub live_content_path : List Source → Text → Bool
  live_content_path sources target =
      any
        (λ source.
          any (λ live. not (is_empty live) && text_eq (fp.clean live) (fp.clean target))
            (source.saves_path ∷ source.states_path ∷ source.roms_path ∷ []))
        sources

  abbrev pub state_path : Text → Text → Text
  state_path userdata name = fp.join (fp.join (userdata ∷ codes "Syncthing" ∷ []) ∷ name ∷ [])

  abbrev pub leaf_path : Text → Text → Text
  leaf_path userdata name =
      fp.join (fp.join (userdata ∷ codes "Syncthing" ∷ []) ∷ codes "leaf" ∷ name ∷ [])

  unfoldable pub card_roots : Text → List Text
  card_roots userdata =
      state_path userdata (codes "snapshots") ∷ state_path userdata (codes "versions") ∷ []

  -- The paths of the device's own state, with their descriptions.
  unfoldable pub primary_roots : Config → List (Text × Text)
  primary_roots config =
      (config.config_dir, codes "Syncthing configuration and device identity")
      ∷ (config.data_dir, codes "Syncthing derived database")
      ∷ (state_path config.userdata_path (codes "backups"), codes "Syncthing configuration backups")
      ∷ (
        leaf_path config.userdata_path (codes "trusted-clients.json"),
        codes "trusted browser records",
      )
      ∷ (leaf_path config.userdata_path (codes "gateway-cert.pem"), codes "gateway certificate")
      ∷ (leaf_path config.userdata_path (codes "gateway-key.pem"), codes "gateway private key")
      ∷ (
        leaf_path config.userdata_path (codes "folder-control.json"),
        codes "managed-folder control state",
      )
      ∷ []

  -- `exactResetPaths` of an index reset.
  unfoldable pub index_paths : Config → List ResetRoot → Option (List Text)
  index_paths config [] = some []
  index_paths config (root ∷ roots) =
      let rest = index_paths config roots in
      if text_eq (fp.clean (fp.dir root.path)) (fp.clean config.data_dir)
        && index_directory (fp.base root.path)
      then elim rest [ none ↦ none | some paths ↦ some (fp.clean root.path ∷ paths) ]
      else none

  unfoldable pub sources_by_id : List Source → Dict Source → Dict Source
  sources_by_id [] result = result
  sources_by_id (source ∷ sources) result = sources_by_id sources (insert source.id source result)

  unfoldable pub known_card : Option Source → ResetCard → List Text → Bool
  known_card none card seen = false
  known_card (some source) card seen =
      is_hex_id card.id
      && not (member card.id seen)
      && text_eq (fp.clean source.root) (fp.clean card.root)
      && text_eq (fp.clean source.userdata_path) (fp.clean card.userdata_path)

  -- The loop on the required cards: their roots may be removed, and are not retained.
  unfoldable pub card_paths :
      Dict Source
      → List ResetCard
      → (seen allowed retained : List Text) → Option (List Text × List Text)
  unfolding card_roots
  card_paths sources [] seen allowed retained = some (allowed, retained)
  card_paths sources (card ∷ cards) seen allowed retained =
      let source = lookup card.source_id sources in
      let userdata : Text = elim source [ none ↦ [] | some s ↦ s.userdata_path ] in
      let snapshots = state_path userdata (codes "snapshots") in
      let versions = state_path userdata (codes "versions") in
      let rest =
        card_paths sources cards (card.id ∷ seen) (snapshots ∷ versions ∷ allowed)
          (without versions (without snapshots retained)) in
      if known_card source card seen then rest else none

  abbrev pub all_card_roots : List Source → List Text
  all_card_roots [] = []
  all_card_roots (source ∷ sources) = card_roots source.userdata_path ++ all_card_roots sources

  unfoldable pub exact_reset_paths : Config → ResetDocument → Option (List Text × List Text)
  unfolding text_eq
  exact_reset_paths config document =
      if text_eq document.action index_only
      then elim (index_paths config document.roots) [
        | none ↦ none
        | some allowed ↦
            if length document.required_cards == 0 && length document.retained == 0
            then some (allowed, [])
            else none
      ]
      else elim (card_paths (sources_by_id config.sources []) document.required_cards []
          (map (λ root. fp.clean root.0) (primary_roots config)) (all_card_roots config.sources)) [
            | none ↦ none
            | some paths ↦
                if text_eq document.action full && not (length document.retained == 0)
                then none
                else some paths
          ]

  unfoldable pub source_filesystems : List Source → Dict Text → Dict Text
  source_filesystems [] result = result
  source_filesystems (source ∷ sources) result =
      source_filesystems sources
        (insert (fp.clean source.root) (fp.clean source.userdata_path) result)

  -- The userdata directory on each filesystem.
  unfoldable pub allowed_filesystems : Config → Dict Text
  allowed_filesystems config =
      source_filesystems config.sources
        (insert (fp.clean config.userdata_path) (fp.clean config.userdata_path) [])

  unfoldable pub valid_root : Config → List Text → List Text → ResetRoot → Bool
  valid_root config allowed seen root =
      elim (lookup (fp.clean root.filesystem_root) (allowed_filesystems config)) [
        | none ↦ false
        | some userdata ↦
            not (is_empty root.path)
            && not (is_empty root.description)
            && not (member root.path seen)
            && reset_path_within userdata root.path
            && member (fp.clean root.path) allowed
            && not (live_content_path config.sources root.path)
      ]

  unfoldable pub valid_roots : Config → List Text → List Text → List ResetRoot → Bool
  valid_roots config allowed seen [] = true
  valid_roots config allowed seen (root ∷ roots) =
      valid_root config allowed seen root && valid_roots config allowed (root.path ∷ seen) roots

  unfoldable pub valid_retained : List Text → List Text → List Text → Bool
  valid_retained allowed seen [] = true
  valid_retained allowed seen (path ∷ paths) =
      not (member (fp.clean path) seen)
      && member (fp.clean path) allowed
      && valid_retained allowed (fp.clean path ∷ seen) paths

  abbrev is_action : Text → Bool
  is_action action = member action (index_only ∷ full ∷ available_only ∷ [])

  -- `validateResetDocument`.
  unfoldable pub valid_reset_document : Config → ResetDocument → Bool
  valid_reset_document config document =
      equals document.schema 1
      && is_hex_id document.action_id
      && is_action document.action
      && leb (length document.roots) 64
      && leb (length document.required_cards) 16
      && leb (length document.retained) 32
      && elim (exact_reset_paths config document) [
        | none ↦ false
        | some (allowed, retained) ↦
            valid_roots config allowed [] document.roots
            && valid_retained retained [] document.retained
      ]

  abbrev same_card : ResetCard → Card → Bool
  same_card wanted card =
      text_eq card.identity_id wanted.id
      && text_eq card.source.id wanted.source_id
      && is_enrolled card.state
      && card.present
      && not card.duplicate_id
      && text_eq (fp.clean card.source.root) wanted.root
      && text_eq (fp.clean card.source.userdata_path) wanted.userdata_path

  -- `verifyRequiredCards`.
  unfoldable pub verify_required_cards : List ResetCard → List Card → Bool
  verify_required_cards required inventory =
      all (λ wanted. any (same_card wanted) inventory) required
