-- ===== src/Folders/Device.antt =====
-- Identifiers that cross the controller's boundaries: `NormalizeDeviceID` of
-- internal/syncthing/ui.go, `ValidFolderID` of internal/syncthing/folders.go and `BindingNames` of
-- internal/cards/cards.go. Their errors are `none`: the callers modelled here only test for one.
pub mod Canonical
use leaf_syncthing_pak.Base.{
  ℕ, zero, suc, ◌+◌, Bool, true, false, not, ◌&&◌, ◌||◌, Option, none, some, List, [], ◌∷◌, ◌++◌,
  map, length, take, drop, all, ltb, leb, ◌==◌, if◌then◌else◌, Text, codes, text_eq, between,
  is_empty, to_upper, to_lower,
}

-- `strings.TrimSpace`.
abbrev is_space : ℕ → Bool
is_space c = between 9 13 c || c == 32

trim_left : Text → Text
trim_left [] = []
trim_left (c ∷ cs) = let rest = trim_left cs in if is_space c then rest else c ∷ cs

trim_right : Text → Text
trim_right [] = []
trim_right (c ∷ cs) =
    let rest = trim_right cs in if is_space c && is_empty rest then [] else c ∷ rest

pub trim_space : Text → Text
unfolding trim_left trim_right
trim_space s = trim_right (trim_left s)

starts_with : Text → Text → Bool
starts_with [] s = true
starts_with (p ∷ ps) [] = false
starts_with (p ∷ ps) (c ∷ cs) = p == c && starts_with ps cs

-- The loop over the two prefixes, which stops at the first that fits.
abbrev prefixes : List Text
prefixes = codes "syncthing://device/" ∷ codes "syncthing://" ∷ []

strip_prefix : List Text → Text → Text
unfolding starts_with
strip_prefix [] s = s
strip_prefix (p ∷ ps) s =
    let rest = strip_prefix ps s in
    if starts_with p (map to_lower s) then drop (length p) s else rest

-- The text before the first `?` or `#`.
cut_query : Text → Text
cut_query [] = []
cut_query (c ∷ cs) = let rest = cut_query cs in if c == b'?' || c == b'#' then [] else c ∷ rest

-- `strings.Split`, by one character.
abbrev onto_first : ℕ → List Text → List Text
onto_first c [] = (c ∷ []) ∷ []
onto_first c (p ∷ ps) = (c ∷ p) ∷ ps

split : ℕ → Text → List Text
split sep [] = [] ∷ []
split sep (c ∷ cs) = let rest = split sep cs in if c == sep then [] ∷ rest else onto_first c rest

abbrev is_id_char : ℕ → Bool
is_id_char c = between b'A' b'Z' c || between b'2' b'7' c

-- Eight groups of seven characters.
abbrev is_group : Text → Bool
is_group part = length part == 7 && all is_id_char part

check_groups : Text → Option Text
unfolding split
check_groups value =
    let parts = split b'-' value in
    if length parts == 8 && all is_group parts then some value else none

unfoldable pub normalize_device_id : Text → Option Text
unfolding trim_space strip_prefix cut_query check_groups to_upper to_lower
normalize_device_id value =
    let stripped = strip_prefix prefixes (trim_space value) in
    check_groups (map to_upper (trim_space (cut_query stripped)))

abbrev is_folder_id_char : ℕ → Bool
is_folder_id_char c =
    between b'a' b'z' c
    || between b'A' b'Z' c
    || between b'0' b'9' c
    || c == b'.'
    || c == b'_'
    || c == b':'
    || c == b'-'

unfoldable pub valid_folder_id : Text → Bool
valid_folder_id value = not (is_empty value) && leb (length value) 64 && all is_folder_id_char value

abbrev is_hex_digit : ℕ → Bool
is_hex_digit c = between b'0' b'9' c || between b'a' b'f' c

-- `hex.DecodeString` accepts, sixteen bytes, all in lower case.
unfoldable pub valid_identity_id : Text → Bool
valid_identity_id id = length id == 32 && all is_hex_digit id

abbrev pub is_kind : Text → Bool
is_kind kind = text_eq kind (codes "saves") || text_eq kind (codes "states")

pub record Names : Type 0 where
  pub folder_id : Text
  pub marker_name : Text

-- `hex_digest` is the hexadecimal SHA-256 of a text.
unfoldable pub binding_names : (hex_digest : Text → Text) → Text → Text → Option Names
unfolding valid_identity_id text_eq
binding_names hex_digest card_id kind =
    let digest = hex_digest (card_id ++ kind) in
    if valid_identity_id card_id && is_kind kind
    then some (record {
      folder_id = codes "leaf-" ++ kind ++ codes "-" ++ take 16 digest;
      marker_name = codes ".leaf-" ++ kind ++ codes "-" ++ take 12 digest;
    })
    else none
