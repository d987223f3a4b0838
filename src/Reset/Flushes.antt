-- ===== src/Reset/Flushes.antt =====
-- The file systems that a reset flushes.
use leaf_syncthing_pak.Base.{
  Bool, true, ◌≡◌, ◌⊎◌, inr, List, [], ◌∷◌, any, member, member-sort, All, All-both, Text,
  text_eq_iff, text_eq_refl, arith,
}
use leaf_syncthing_pak.Reset.Documents.{ResetRoot}
use leaf_syncthing_pak.Reset.Run.{World, filesystems_of, unique_filesystems}

filesystems_of-kept :
    (clean : Text → Text) (x : Text) (roots : List ResetRoot) (result : List Text)
    → member x result ≡ true
    → member x (filesystems_of clean roots result) ≡ true
unfolding filesystems_of
filesystems_of-kept clean x [] result h = h
filesystems_of-kept clean x (root ∷ roots) result h =
    filesystems_of-kept clean x roots _ (ground arith)

filesystems_of-All :
    (clean : Text → Text) (roots : List ResetRoot) (result : List Text)
    → All
        (λ root. member (clean root.filesystem_root) (filesystems_of clean roots result) ≡ true)
        roots
unfolding filesystems_of
filesystems_of-All clean [] result = tt
filesystems_of-All clean (root ∷ roots) result = (
  filesystems_of-kept clean (clean root.filesystem_root) roots _
      (ground (arith, text_eq_refl (clean root.filesystem_root))),
  filesystems_of-All clean roots _,
)

any-member :
    (p : Text → Bool) (x : Text) (xs : List Text)
    → member x xs ≡ true
    → p x ≡ true
    → any p xs ≡ true
any-member p x [] h e = h
any-member p x (y ∷ ys) h e = ground (arith, text_eq_iff x y, any-member p x ys)

-- Every root is on one of the file systems that the run flushes.
pub flushed_first :
    (on : Text → Text → Bool) (clean : Text → Text) (roots : List ResetRoot) (w : World)
    → All (λ root. on (clean root.filesystem_root) root.path ≡ true) roots
    → All
        (λ root.
          (w.durable root.path ≡ w.present root.path)
          ⊎ (any (λ f. on f root.path) (unique_filesystems clean roots) ≡ true))
        roots
unfolding unique_filesystems
flushed_first on clean roots w h =
    All-both _ _ _ roots
      (λ root m o. inr (
        any-member (λ f. on f root.path) (clean root.filesystem_root)
          (unique_filesystems clean roots)
          (ground (arith, member-sort (clean root.filesystem_root) (filesystems_of clean roots [])))
          o))
      (filesystems_of-All clean roots []) h
