-- ===== src/Base/MapLaws.antt =====
-- What assignment and `delete` keep of a property of all entries.
use Prim.Native.Nat.{◌+◌, ◌≤◌}
use mathlib.Core.Path.{◌≡◌}
use mathlib.Core.Option.{some}
use mathlib.Core.List.{[], ◌∷◌}
use native.Mathlib.Omega.{arith}
use leaf_syncthing_pak.Base.Tests.{Bool-cases}
use mathlib.Core.Logic.{inl, inr}
use leaf_syncthing_pak.Base.Lists.{length, All}
use leaf_syncthing_pak.Base.Strings.{Text, text_eq, text_eq_iff}
use leaf_syncthing_pak.Base.Maps.{Dict, lookup, insert, delete, length-delete}

module _ {ℓ κ} {V : Type ℓ} (P : Text × V → Type κ) where
  pub All-insert : (k : Text) (v : V) (m : Dict V) → P (k, v) → All P m → All P (insert k v m)
  unfolding insert
  All-insert k v [] p h = (p, tt)
  All-insert k v ((j, w) ∷ m) p h = elim (Bool-cases (text_eq j k)) [
    | inl e ↦ rw e (p, h.1)
    | inr e ↦ rw e (h.0, All-insert k v m p h.1)
  ]

  pub All-delete : (k : Text) (m : Dict V) → All P m → All P (delete k m)
  unfolding delete
  All-delete k [] h = tt
  All-delete k ((j, w) ∷ m) h = elim (Bool-cases (text_eq j k)) [
    | inl e ↦ rw e (All-delete k m h.1)
    | inr e ↦ rw e (h.0, All-delete k m h.1)
  ]

  pub All-lookup : (k : Text) (v : V) (m : Dict V) → All P m → lookup k m ≡ some v → P (k, v)
  unfolding lookup
  All-lookup k v [] h e = cc
  All-lookup k v ((j, w) ∷ m) h e = elim (Bool-cases (text_eq j k)) [
    | inl t ↦
        let same : w ≡ v = ground arith in
        let key : j ≡ k = (text_eq_iff j k).0 t in rw (← same, ← key) h.0
    | inr t ↦ All-lookup k v m h.1 (ground arith)
  ]

module _ {ℓ} {V : Type ℓ} where
  pub length-delete_present :
      (k : Text) (v : V) (m : Dict V) → lookup k m ≡ some v → length (delete k m) + 1 ≤ length m
  unfolding delete lookup
  length-delete_present k v [] h = cc
  length-delete_present k v ((j, w) ∷ m) h =
      ground (arith, length-delete_present k v m, length-delete k m)
