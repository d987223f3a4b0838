-- ===== src/Folders/Device/Canonical.antt =====
-- The device ids that `NormalizeDeviceID` returns are canonical: it returns them unchanged.
use leaf_syncthing_pak.Base.{
  ℕ, Bool, true, false, not, ◌&&◌, ◌||◌, ◌≡◌, refl, ◌∙◌, some, List, [], ◌∷◌, map, all, ◌==◌, Text,
  is_empty, to_upper, to_lower, arith, codes,
}
use leaf_syncthing_pak.Folders.Device.{
  trim_left, trim_right, trim_space, starts_with, prefixes, strip_prefix, cut_query, onto_first,
  split, is_id_char, is_group, check_groups, normalize_device_id,
}

abbrev is_canonical_char : ℕ → Bool
is_canonical_char c = is_id_char c || c == b'-'

abbrev IsCanonical : Text → Type 0
IsCanonical s = all is_canonical_char s ≡ true

trim_left-canonical : (s : Text) → IsCanonical s → trim_left s ≡ s
unfolding trim_left
trim_left-canonical [] h = refl
trim_left-canonical (c ∷ cs) h = ground arith

trim_right-canonical : (s : Text) → IsCanonical s → trim_right s ≡ s
unfolding trim_right
trim_right-canonical [] h = refl
trim_right-canonical (c ∷ cs) h = ground (arith, trim_right-canonical cs)

cut_query-canonical : (s : Text) → IsCanonical s → cut_query s ≡ s
unfolding cut_query
cut_query-canonical [] h = refl
cut_query-canonical (c ∷ cs) h = ground (arith, cut_query-canonical cs)

to_upper-canonical : (s : Text) → IsCanonical s → map to_upper s ≡ s
unfolding to_upper
to_upper-canonical [] h = refl
to_upper-canonical (c ∷ cs) h = ground (arith, to_upper-canonical cs)

-- A canonical text has no colon, so it starts with no text that has one.
starts_with-canonical :
    (p s : Text)
    → IsCanonical s
    → starts_with p (map to_lower s) ≡ true
    → all (λ c. not (c == b':')) p ≡ true
unfolding starts_with to_lower
starts_with-canonical [] s h k = refl
starts_with-canonical (p ∷ ps) [] h k = cc
starts_with-canonical (p ∷ ps) (c ∷ cs) h k = ground (arith, starts_with-canonical ps cs)

strip_prefix-canonical : (s : Text) → IsCanonical s → strip_prefix prefixes s ≡ s
unfolding strip_prefix
strip_prefix-canonical s h = ground (
  arith,
  starts_with-canonical (codes "syncthing://device/") s h,
  starts_with-canonical (codes "syncthing://") s h,
)

all-onto_first :
    (p : ℕ → Bool) (c : ℕ) (ps : List Text)
    → all (all p) (onto_first c ps) ≡ (p c && all (all p) ps)
all-onto_first p c [] = ground arith
all-onto_first p c (q ∷ qs) = ground arith

split-IsCanonical : (s : Text) → all (all is_id_char) (split b'-' s) ≡ true → IsCanonical s
unfolding split
split-IsCanonical [] h = refl
split-IsCanonical (c ∷ cs) h =
    ground (arith, split-IsCanonical cs, all-onto_first is_id_char c (split b'-' cs))

groups-id_chars : (ps : List Text) → all is_group ps ≡ true → all (all is_id_char) ps ≡ true
groups-id_chars [] h = refl
groups-id_chars (p ∷ ps) h = ground (arith, groups-id_chars ps)

check_groups-IsCanonical :
    (s t : Text) → check_groups s ≡ some t → IsCanonical t × (check_groups t ≡ some t)
unfolding check_groups
check_groups-IsCanonical s t h = ground (arith, split-IsCanonical s, groups-id_chars (split b'-' s))

trim_space-canonical : (s : Text) → IsCanonical s → trim_space s ≡ s
unfolding trim_space
trim_space-canonical s h = rw (trim_left-canonical s h) (trim_right-canonical s h)

normalize-canonical : (s : Text) → IsCanonical s → normalize_device_id s ≡ check_groups s
unfolding normalize_device_id
normalize-canonical s h = simp (
  trim_space-canonical s h,
  strip_prefix-canonical s h,
  cut_query-canonical s h,
  to_upper-canonical s h,
)

-- A device id that was normalised is its own normal form, so the ids that the controller keeps
-- compare as texts.
pub normalize_device_id_idem :
    (value id : Text) → normalize_device_id value ≡ some id → normalize_device_id id ≡ some id
unfolding normalize_device_id
normalize_device_id_idem value id h =
    let formed = map to_upper (trim_space (cut_query (strip_prefix prefixes (trim_space value)))) in
    let (canonical, checked) = check_groups-IsCanonical formed id h in
    normalize-canonical id canonical ∙ checked

pub normalize_device_id-nonempty :
    (id : Text) → normalize_device_id id ≡ some id → is_empty id ≡ false
unfolding normalize_device_id trim_space strip_prefix cut_query check_groups
normalize_device_id-nonempty [] h = cc
normalize_device_id-nonempty (c ∷ cs) h = refl

-- A well-formed id.
abbrev pub sample_device : Text
sample_device = codes "AAAAAAA-BBBBBBB-CCCCCCC-DDDDDDD-EEEEEEE-FFFFFFF-2345672-7654327"

abbrev pub sample_link : Text
sample_link =
    codes " syncthing://device/aaaaaaa-bbbbbbb-ccccccc-ddddddd-eeeeeee-fffffff-2345672-7654327?x=1"

pub sample_device_normal : normalize_device_id sample_device ≡ some sample_device
unfolding normalize_device_id trim_space strip_prefix cut_query check_groups to_upper to_lower
sample_device_normal = refl

pub sample_link_normal : normalize_device_id sample_link ≡ some sample_device
unfolding normalize_device_id trim_space strip_prefix cut_query check_groups to_upper to_lower
sample_link_normal = refl
