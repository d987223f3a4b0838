-- ===== src/Reset/Steps.antt =====
-- What the steps of a reset keep and establish: a run that starts in P ends in R at whatever call it
-- ends, and in Q if it succeeds.
use leaf_syncthing_pak.Base.{
  ℕ, suc, Bool, true, false, not, ◌&&◌, ◌≡◌, refl, ◌⊎◌, inl, inr, List, [], ◌∷◌, any, all, All,
  All-map, if◌then◌else◌, Text, arith, Bool-cases,
}
use leaf_syncthing_pak.FirstSync.Documents.{document}
use leaf_syncthing_pak.Reset.Documents.{ResetRoot, ResetDocument}
use leaf_syncthing_pak.Reset.Run.{
  World, Point, sync_root, remove_root, root_removed_point, Calls, Run, ◌>>◌, reach,
  sync_filesystem, remove_declared_path, remove_roots, sync_all, roots_gone,
}

abbrev pub Predicate : Type 1
Predicate = World → Type 0

abbrev pub Holds : Predicate → Run → Predicate → Predicate → Type 0
Holds P m Q R = (w : World) → P w → R (m w).0 × (((m w).1 ≡ false) ⊎ Q (m w).0)

pub seq-Holds :
    (P Q S R : Predicate) (m k : Run) → Holds P m Q R → Holds Q k S R → Holds P (m >> k) S R
unfolding ◌>>◌
seq-Holds P Q S R m k h g w p = go (m w) (h w p)
  where
    go :
        (r : World × Bool)
        → R r.0 × ((r.1 ≡ false) ⊎ Q r.0)
        → let e : World × Bool = elim r.1 [ true ↦ k r.0 | false ↦ (r.0, false) ] in
          R e.0 × ((e.1 ≡ false) ⊎ S e.0)
    go (w', true) (a, inl e) = absurd (ground arith)
    go (w', true) (a, inr q) = g w' q
    go (w', false) (a, b) = (a, inl refl)

-- A step that keeps a predicate whether or not it succeeds.
abbrev pub Keeps : Predicate → Run → Type 0
Keeps P m = (w : World) → P w → P (m w).0

pub Keeps-Holds :
    (P R : Predicate) (m : Run) → ((w : World) → P w → R w) → Keeps P m → Holds P m P R
Keeps-Holds P R m f h w p = (f (m w).0 (h w p), inr (h w p))

pub seq-Keeps : (P : Predicate) (m k : Run) → Keeps P m → Keeps P k → Keeps P (m >> k)
unfolding ◌>>◌
seq-Keeps P m k h g w p = go (m w) (h w p)
  where
    go :
        (r : World × Bool)
        → P r.0
        → let e : World × Bool = elim r.1 [ true ↦ k r.0 | false ↦ (r.0, false) ] in P e.0
    go (w', true) a = g w' a
    go (w', false) a = a

-- A run that succeeds.
abbrev pub Succeeds : Predicate → Run → Predicate → Type 0
Succeeds P m Q = (w : World) → P w → ((m w).1 ≡ true) × Q (m w).0

pub seq-Succeeds :
    (P Q S : Predicate) (m k : Run) → Succeeds P m Q → Succeeds Q k S → Succeeds P (m >> k) S
unfolding ◌>>◌
seq-Succeeds P Q S m k h g w p = go (m w) (h w p)
  where
    go :
        (r : World × Bool)
        → (r.1 ≡ true) × Q r.0
        → let e : World × Bool = elim r.1 [ true ↦ k r.0 | false ↦ (r.0, false) ] in
          (e.1 ≡ true) × S e.0
    go (w', true) (a, q) = g w' q
    go (w', false) (a, q) = absurd (ground arith)

-- Nothing that was there for good has gone.
abbrev pub Kept : World → Predicate
Kept w₀ w =
    (path : Text)
    → w₀.present path && w₀.durable path ≡ true
    → w.present path && w.durable path ≡ true

abbrev pub Gone : ResetDocument → Predicate
Gone d w = All (λ root. (w.present root.path ≡ false) × (w.durable root.path ≡ false)) d.roots

abbrev pub Written : ResetDocument → Predicate
Written d w = (w.intent ≡ document d) × (w.durable_intent ≡ document d)

module _ (on : Text → Text → Bool) (calls : Calls) (intent_path : Text) where
  pub sync-Kept :
      (w₀ : World) (filesystem : Text) (p : Point)
      → Keeps (Kept w₀) (sync_filesystem on calls filesystem intent_path p)
  unfolding sync_filesystem
  sync-Kept w₀ filesystem p w h path e = let h' = h path e in ground arith

  pub sync-Gone :
      (d : ResetDocument) (filesystem : Text) (p : Point)
      → Keeps (Gone d) (sync_filesystem on calls filesystem intent_path p)
  unfolding sync_filesystem
  sync-Gone d filesystem p w h = All-map _ _ d.roots (λ root (a, b). (a, ground arith)) h

  pub sync-Written :
      (d : ResetDocument) (filesystem : Text) (p : Point)
      → Keeps (Written d) (sync_filesystem on calls filesystem intent_path p)
  unfolding sync_filesystem
  sync-Written d filesystem p w (a, b) = (a, ground arith)

  pub remove_roots-Written :
      (d : ResetDocument) (index : ℕ) (roots : List ResetRoot)
      → Keeps (Written d) (remove_roots on calls index roots)
  unfolding remove_roots remove_declared_path
  remove_roots-Written d index [] = λ w h. h
  remove_roots-Written d index (root ∷ roots) =
      seq-Keeps (Written d)
        (remove_declared_path on calls root.path (remove_root index)
          >> reach on calls (root_removed_point index))
        (remove_roots on calls (suc index) roots)
        (seq-Keeps (Written d) (remove_declared_path on calls root.path (remove_root index))
          (reach on calls (root_removed_point index)) (λ w h. h) (λ w h. h))
        (remove_roots-Written d (suc index) roots)

  -- The paths of the roots read as they are stored, or a file system is still to be flushed.
  abbrev pub Flushed : List Text → ResetDocument → Predicate
  Flushed filesystems d w =
      All
        (λ root.
          (w.durable root.path ≡ w.present root.path)
          ⊎ (any (λ filesystem. on filesystem root.path) filesystems ≡ true))
        d.roots

  sync-Flushed :
      (filesystem : Text) (filesystems : List Text) (d : ResetDocument)
      → Holds
          (λ w. Written d w × Flushed (filesystem ∷ filesystems) d w)
          (sync_filesystem on calls filesystem intent_path (sync_root filesystem))
          (λ w. Written d w × Flushed filesystems d w)
          (Written d)
  unfolding sync_filesystem
  sync-Flushed filesystem filesystems d w ((a, b), h) =
      elim (Bool-cases (calls.works (sync_root filesystem))) [
        | inr e ↦ ((a, ground arith), inl e)
        | inl e ↦ ((a, ground arith), inr ((a, ground arith), All-map _ _ d.roots (each e) h))
      ]
    where
      each :
          calls.works (sync_root filesystem) ≡ true
          → (root : ResetRoot)
          → (w.durable root.path ≡ w.present root.path)
            ⊎ (any (λ f. on f root.path) (filesystem ∷ filesystems) ≡ true)
          → ((if calls.works (sync_root filesystem) && on filesystem root.path
                then w.present root.path
                else w.durable root.path)
              ≡ w.present root.path)
            ⊎ (any (λ f. on f root.path) filesystems ≡ true)
      each e root c = ground arith

  pub sync_all-Flushed :
      (filesystems : List Text) (d : ResetDocument)
      → Holds
          (λ w. Written d w × Flushed filesystems d w)
          (sync_all on calls intent_path filesystems)
          (λ w. Written d w × Flushed [] d w)
          (Written d)
  unfolding sync_all
  sync_all-Flushed [] d = λ w h. (h.0, inr h)
  sync_all-Flushed (filesystem ∷ filesystems) d =
      seq-Holds (λ w. Written d w × Flushed (filesystem ∷ filesystems) d w)
        (λ w. Written d w × Flushed filesystems d w) (λ w. Written d w × Flushed [] d w) (Written d)
        (sync_filesystem on calls filesystem intent_path (sync_root filesystem))
        (sync_all on calls intent_path filesystems) (sync-Flushed filesystem filesystems d)
        (sync_all-Flushed filesystems d)

  all_gone :
      (roots : List ResetRoot) (w : World)
      → All (λ root. (w.durable root.path ≡ w.present root.path) ⊎ (false ≡ true)) roots
      → all (λ root. not (w.present root.path)) roots ≡ true
      → All (λ root. (w.present root.path ≡ false) × (w.durable root.path ≡ false)) roots
  all_gone [] w h e = tt
  all_gone (root ∷ roots) w (a, h) e =
      ((ground arith, ground arith), all_gone roots w h (ground arith))

  pub roots_gone-Gone :
      (d : ResetDocument)
      → Holds
          (λ w. Written d w × Flushed [] d w)
          (roots_gone on calls d.roots)
          (λ w. Written d w × Gone d w)
          (Written d)
  unfolding roots_gone
  roots_gone-Gone d w (a, h) = (
    a,
    elim (Bool-cases (all (λ root. not (w.present root.path)) d.roots)) [
      | inl e ↦ inr (a, all_gone d.roots w h e)
      | inr e ↦ inl e
    ],
  )
