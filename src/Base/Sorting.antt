-- ===== src/Base/Sorting.antt =====
-- Go's `<` on strings, `sort.Strings` as an insertion sort, and membership in a list of texts.
use mathlib.Core.Path.{◌≡◌, refl}
use mathlib.Core.Logic.{inl, inr}
use mathlib.Core.Bool.{Bool, true, false, ◌&&◌, ◌||◌}
use mathlib.Core.List.{List, [], ◌∷◌}
use native.Mathlib.Omega.{arith}
use leaf_syncthing_pak.Base.Tests.{ltb, ◌==◌, if◌then◌else◌, Bool-cases}
use leaf_syncthing_pak.Base.Lists.{any, All}
use leaf_syncthing_pak.Base.Strings.{Text, text_eq}

unfoldable pub text_lt : Text → Text → Bool
text_lt s [] = false
text_lt [] (c ∷ cs) = true
text_lt (b ∷ bs) (c ∷ cs) = ltb b c || (b == c && text_lt bs cs)

text_lt_asym : (s t : Text) → text_lt s t ≡ true → text_lt t s ≡ false
unfolding text_lt
text_lt_asym s [] h = cc
text_lt_asym [] (c ∷ cs) h = refl
text_lt_asym (b ∷ bs) (c ∷ cs) h = ground (arith, text_lt_asym bs cs)

-- An element put in before the first that is not below it.
unfoldable pub place : Text → List Text → List Text
place a [] = a ∷ []
place a (b ∷ bs) = let rest = place a bs in if text_lt b a then b ∷ rest else a ∷ b ∷ bs

unfoldable pub sort : List Text → List Text
sort [] = []
sort (a ∷ xs) = place a (sort xs)

abbrev pub member : Text → List Text → Bool
member x xs = any (text_eq x) xs

-- No element is below the one before it.
abbrev pub IsSorted : List Text → Type 0
IsSorted [] = Unit
IsSorted (x ∷ []) = Unit
IsSorted (x ∷ y ∷ ys) = (text_lt y x ≡ false) × IsSorted (y ∷ ys)

place-IsSorted : (a : Text) (xs : List Text) → IsSorted xs → IsSorted (place a xs)
unfolding place
place-IsSorted a [] h = tt
place-IsSorted a (x ∷ []) h = elim (Bool-cases (text_lt x a)) [
  | inl e ↦ rw e (text_lt_asym x a e, tt)
  | inr e ↦ rw e (e, tt)
]
place-IsSorted a (x ∷ y ∷ ys) h =
    let rest = place-IsSorted a (y ∷ ys) h.1 in
    elim (Bool-cases (text_lt x a)) [
      | inr e ↦ rw e (e, h)
      | inl e ↦ elim (Bool-cases (text_lt y a)) [
        | inl f ↦ let s = rw f at rest in rw (e, f) (h.0, s)
        | inr f ↦ let s = rw f at rest in rw (e, f) (text_lt_asym x a e, s)
      ]
    ]

pub sort-IsSorted : (xs : List Text) → IsSorted (sort xs)
unfolding sort
sort-IsSorted [] = tt
sort-IsSorted (x ∷ xs) = place-IsSorted x (sort xs) (sort-IsSorted xs)

tail-IsSorted : (x : Text) (xs : List Text) → IsSorted (x ∷ xs) → IsSorted xs
tail-IsSorted x [] h = tt
tail-IsSorted x (y ∷ ys) h = h.1

place-first : (x : Text) (xs : List Text) → IsSorted (x ∷ xs) → place x xs ≡ x ∷ xs
unfolding place
place-first x [] h = refl
place-first x (y ∷ ys) h = rw h.0 refl

-- What is sorted stays as it is.
pub sort_sorted : (xs : List Text) → IsSorted xs → sort xs ≡ xs
unfolding sort
sort_sorted [] h = refl
sort_sorted (x ∷ xs) h = rw (sort_sorted xs (tail-IsSorted x xs h)) (place-first x xs h)

pub member-place :
    (d a : Text) (xs : List Text) → member d (place a xs) ≡ (text_eq d a || member d xs)
unfolding place
member-place d a [] = refl
member-place d a (b ∷ bs) = ground (arith, member-place d a bs)

pub member-sort : (d : Text) (xs : List Text) → member d (sort xs) ≡ member d xs
unfolding sort
member-sort d [] = refl
member-sort d (x ∷ xs) = rw (← member-sort d xs) (member-place d x (sort xs))

All-place : (P : Text → Type 0) (x : Text) (xs : List Text) → P x → All P xs → All P (place x xs)
unfolding place
All-place P x [] p h = (p, tt)
All-place P x (y ∷ ys) p h = elim (Bool-cases (text_lt y x)) [
  | inl e ↦ rw (e, All) (h.0, All-place P x ys p h.1)
  | inr e ↦ rw (e, All) (p, h)
]

pub All-sort : (P : Text → Type 0) (xs : List Text) → All P xs → All P (sort xs)
unfolding sort
All-sort P [] h = tt
All-sort P (x ∷ xs) h = All-place P x (sort xs) h.0 (All-sort P xs h.1)
