-- ===== src/Recovery/Attempts.antt =====
-- Code that goes on after each call that succeeded: the store and the upstream after it, and its
-- result, which is `none` for an error. The changes made before an error stay.
use leaf_syncthing_pak.Base.{
  Bool, true, false, Option, none, some, List, [], ◌∷◌, if◌then◌else◌, Text, text_eq, ◌≡◌, refl,
  arith,
}
use leaf_syncthing_pak.Folders.Types.{ConfiguredFolder}
use leaf_syncthing_pak.Folders.Store.{Store, Outcome}

abbrev pub Attempt : Type 0 → Type 0 → Type 0
Attempt U A = (Store × U) × Option A

abbrev pub fail : {U A : Type 0} → Store → U → Attempt U A
fail s u = ((s, u), none)

abbrev pub return : {U A : Type 0} → A → Store → U → Attempt U A
return a s u = ((s, u), some a)

unfoldable pub next : {U A B : Type 0} → Attempt U A → (A → Store → U → Attempt U B) → Attempt U B
next ((s, u), none) f = ((s, u), none)
next ((s, u), some a) f = f a s u

-- A call of the upstream, and an operation of the store.
unfoldable pub called : {U A : Type 0} → U × Bool → Store → (U → Attempt U A) → Attempt U A
called (u, true) s f = f u
called (u, false) s f = ((s, u), none)

unfoldable pub stored : {U A : Type 0} → Outcome → U → (Store → Attempt U A) → Attempt U A
stored (s, none) u f = f s
stored (s, some e) u f = ((s, u), none)

-- What an attempt that succeeded did first.
pub next-some :
    {U A B : Type 0} (t : Attempt U A) (f : A → Store → U → Attempt U B) (s : Store) (u : U) (b : B)
    → next t f ≡ ((s, u), some b)
    → (s₁ : Store) × (u₁ : U) × (a : A) × (t ≡ ((s₁, u₁), some a)) × (f a s₁ u₁ ≡ ((s, u), some b))
unfolding next
next-some ((s₁, u₁), none) f s u b h = absurd (ground arith)
next-some ((s₁, u₁), some a) f s u b h = (s₁, u₁, a, refl, h)

pub called-some :
    {U A : Type 0} (c : U × Bool) (s : Store) (f : U → Attempt U A) (s' : Store) (u' : U) (a : A)
    → called c s f ≡ ((s', u'), some a)
    → (c.1 ≡ true) × (f c.0 ≡ ((s', u'), some a))
unfolding called
called-some (u, true) s f s' u' a h = (refl, h)
called-some (u, false) s f s' u' a h = absurd (ground arith)

pub called-store :
    {U A : Type 0} (c : U × Bool) (s : Store) (f : U → Attempt U A)
    → ((u : U) → (f u).0.0 ≡ s)
    → (called c s f).0.0 ≡ s
unfolding called
called-store (u, true) s f h = h u
called-store (u, false) s f h = refl

pub stored-some :
    {U A : Type 0} (o : Outcome) (u : U) (f : Store → Attempt U A) (s' : Store) (u' : U) (a : A)
    → stored o u f ≡ ((s', u'), some a)
    → (o.1 ≡ none) × (f o.0 ≡ ((s', u'), some a))
unfolding stored
stored-some (s, none) u f s' u' a h = (refl, h)
stored-some (s, some e) u f s' u' a h = absurd (ground arith)

-- internal/controller/run.go, `findConfiguredFolder`, with the assignment at the index that it finds.
unfoldable pub find_configured_folder : List ConfiguredFolder → Text → Option ConfiguredFolder
find_configured_folder [] id = none
find_configured_folder (f ∷ fs) id =
    if text_eq f.id id then some f else find_configured_folder fs id

unfoldable pub replace_folder :
    Text → (ConfiguredFolder → ConfiguredFolder) → List ConfiguredFolder → List ConfiguredFolder
replace_folder id change [] = []
replace_folder id change (f ∷ fs) =
    let rest = replace_folder id change fs in if text_eq f.id id then change f ∷ fs else f ∷ rest
