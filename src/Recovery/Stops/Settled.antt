-- ===== src/Recovery/Stops/Settled.antt =====
-- A recovery of the stops leaves none pending, and removes only an empty marker of the folder.
use leaf_syncthing_pak.Base.{
  Bool, true, false, not, ◌&&◌, ◌≡◌, refl, ap, ◌⊎◌, inl, inr, Option, none, some, List, [], ◌∷◌,
  Bool-cases, Option-cases, if◌then◌else◌, arith, Text, codes, text_eq, text_eq_iff, Dict, lookup,
  delete, lookup-delete,
}
use leaf_syncthing_pak.Folders.Types.{Source, ConfiguredFolder, Card, managed_content_path}
use leaf_syncthing_pak.Folders.Store.{FolderControlRecord, Store, Call}
use leaf_syncthing_pak.Folders.Store.Persist.{persist_locked-records}
use leaf_syncthing_pak.Folders.Ops.{remove, is_some}
use leaf_syncthing_pak.Folders.Rows.{Lstat, missing, directory}
use leaf_syncthing_pak.Folders.Upstream.{Upstream}
use leaf_syncthing_pak.Recovery.Attempts.{
  next-some, called-some, stored-some, find_configured_folder,
}
use leaf_syncthing_pak.Recovery.Waiting.{IsSettled, Waits, skipped, snapshot-Waits}
use leaf_syncthing_pak.Recovery.Stops.{
  Disk, card_for_stop, or_recorded, valid_binding, marker_at, validate_stop_marker,
  remove_stop_marker, finish_stop, recover_stop, recover_stops, recover_pending_folder_stops,
}

-- The record has a stop pending.
abbrev pub stopping : FolderControlRecord → Bool
stopping r = r.pending_stop

remove-lookup :
    (works : Call → Bool) (id : Text) (s : Store)
    → (remove works id s).1 ≡ none
    → (j : Text)
    → lookup j (remove works id s).0.records ≡ (if text_eq id j then none else lookup j s.records)
unfolding remove
remove-lookup works id s done j = elim (Option-cases (lookup id s.records)) [
  | inl n ↦ rw (n, remove) (ground (arith, text_eq_iff id j))
  | inr (r, e) ↦
      let t = record s { records = delete id s.records } in
      let same : (remove works id s).0.records ≡ delete id s.records =
        ground (arith, persist_locked-records works t) in
      rw same (lookup-delete j id s.records)
]

remove-IsSettled :
    (works : Call → Bool) (id : Text) (s : Store)
    → (remove works id s).1 ≡ none
    → (j : Text) → IsSettled stopping s j ⊎ (id ≡ j)
    → IsSettled stopping (remove works id s).0 j
remove-IsSettled works id s done j h r e = elim (Bool-cases (text_eq id j)) [
  | inl t ↦ absurd (ground (arith, remove-lookup works id s done j))
  | inr f ↦ elim h [
    | inl settled ↦ settled r (ground (arith, remove-lookup works id s done j))
    | inr same ↦ absurd (ground (arith, text_eq_iff id j))
  ]
]

found-empty :
    (l : Lstat) (required : Bool) (names : Option (List Text))
    → elim l [
      | missing ↦ not required
      | directory ↦ elim names [ none ↦ false | some [] ↦ true | some (x ∷ xs) ↦ false ]
      | _ ↦ false
    ]
      ≡ true
    → (l ≡ missing) ⊎ ((l ≡ directory) × (names ≡ some []))
found-empty Lstat.missing required names h = inl refl
found-empty Lstat.directory required (some []) h = inr (refl, refl)
found-empty Lstat.directory required (some (x ∷ xs)) h = cc
found-empty Lstat.directory required none h = cc
found-empty Lstat.symlink required names h = cc
found-empty Lstat.other required names h = cc
found-empty Lstat.unreadable required names h = cc

root-found :
    (l m : Lstat) (required : Bool) (names : Option (List Text))
    → elim l [
      | directory ↦ elim m [
        | missing ↦ not required
        | directory ↦ elim names [ none ↦ false | some [] ↦ true | some (x ∷ xs) ↦ false ]
        | _ ↦ false
      ]
      | _ ↦ false
    ]
      ≡ true
    → (l ≡ directory) × ((m ≡ missing) ⊎ ((m ≡ directory) × (names ≡ some [])))
root-found Lstat.directory m required names h = (refl, found-empty m required names h)
root-found Lstat.missing m required names h = cc
root-found Lstat.symlink m required names h = cc
root-found Lstat.other m required names h = cc
root-found Lstat.unreadable m required names h = cc

and-both : (a b : Bool) → (a && b) ≡ true → (a ≡ true) × (b ≡ true)
and-both true b h = (refl, h)
and-both false b h = cc

module _ {D : Type 0} (disk : Disk D) (clean base : Text → Text) (join : List Text → Text)
    (root_of : Source → Text) where
  -- What a marker may be removed for: it stands at the content path of its card, under its own name,
  -- and is an empty directory, or is not there.
  pub record IsOwn (folder : ConfiguredFolder) (card : Card) (d : D) : Type 0 where
    pub own_name : text_eq folder.marker_name (codes ".stfolder") ≡ false
    pub simple_name : base folder.marker_name ≡ folder.marker_name
    pub placed : clean folder.path ≡ clean (managed_content_path card.source folder.kind)
    pub real_root : disk.lstat (managed_content_path card.source folder.kind) d ≡ directory
    pub empty :
        (disk.lstat (marker_at disk clean base join root_of folder card) d ≡ missing)
        ⊎ ((disk.lstat (marker_at disk clean base join root_of folder card) d ≡ directory)
            × (disk.read_dir (marker_at disk clean base join root_of folder card) d ≡ some []))

  validate_stop_marker-IsOwn :
      (folder : ConfiguredFolder) (card : Card) (required : Bool) (d : D)
      → validate_stop_marker disk clean base join root_of folder card required d ≡ true
      → IsOwn folder card d
  unfolding validate_stop_marker valid_binding
  validate_stop_marker-IsOwn folder card required d h =
      let (bound, found) = and-both (valid_binding disk clean base join root_of folder card) _ h in
      let (real_root, empty) =
        root-found (disk.lstat (managed_content_path card.source folder.kind) d)
          (disk.lstat (marker_at disk clean base join root_of folder card) d) required
          (disk.read_dir (marker_at disk clean base join root_of folder card) d) found in
      record {
        own_name = ground arith;
        simple_name = (text_eq_iff (base folder.marker_name) folder.marker_name).0 (ground arith);
        placed =
            (text_eq_iff (clean folder.path)
                (clean (managed_content_path card.source folder.kind))).0
              (ground arith);
        real_root = real_root;
        empty = empty;
      }

  -- The removal of a marker leaves the file system as it is, or makes one call that removes the name
  -- of the marker in the folder's path, and may flush the card after it: then the folder's path is
  -- the content path of its card, a directory, the marker has a simple name of its own, and at that
  -- name in the content path is an empty directory or nothing.
  pub remove_stop_marker-IsOwn :
      (folder : ConfiguredFolder) (card : Card) (d : D)
      → ((remove_stop_marker disk clean base join root_of folder card d).0 ≡ d)
        ⊎ (IsOwn folder card d
            × (((remove_stop_marker disk clean base join root_of folder card d).0
                  ≡ (disk.remove (join (folder.path ∷ folder.marker_name ∷ [])) d).0)
                ⊎ ((remove_stop_marker disk clean base join root_of folder card d).0
                    ≡ (disk.sync
                        (root_of card.source)
                        (disk.remove (join (folder.path ∷ folder.marker_name ∷ [])) d).0).0)))
  unfolding remove_stop_marker
  remove_stop_marker-IsOwn folder card d =
      elim (Bool-cases (validate_stop_marker disk clean base join root_of folder card false d)) [
        | inl e ↦ inr (validate_stop_marker-IsOwn folder card false d e, ground arith)
        | inr e ↦ inl (rw (e, remove_stop_marker) refl)
      ]

  module _ {U : Type 0} (upstream : Upstream U) (works : Text → Call → Bool)
      (inventory : List Card) where
    finish_stop-IsSettled :
        (id : Text) (found : Option ConfiguredFolder) (folder : ConfiguredFolder) (card : Card)
        (folders : List ConfiguredFolder) (s : Store) (w : U × D) (fs : List ConfiguredFolder)
        (s' : Store) (w' : U × D)
        → finish_stop disk clean base join root_of upstream works inventory id found folder card
            folders s w
          ≡ ((s', w'), some fs)
        → (j : Text) → IsSettled stopping s j ⊎ (id ≡ j)
        → IsSettled stopping s' j
    unfolding finish_stop
    finish_stop-IsSettled id found folder card folders s (u, d) fs s' w' h j settled =
        elim (Bool-cases
          (validate_stop_marker disk clean base join root_of folder card (is_some found) d)) [
            | inr n ↦ absurd (ground arith)
            | inl v ↦
                let (_, paused) = called-some _ s _ s' w' fs (rw (v, finish_stop) at h) in
                let (_, removed) = called-some _ s _ s' w' fs paused in
                let (_, cleaned) = called-some _ s _ s' w' fs removed in
                let (done, end) = stored-some (remove (works id) id s) _ _ s' w' fs cleaned in
                let same : (remove (works id) id s).0 ≡ s' = ap (λ p. p.0.0) end in
                rw (← same) (remove-IsSettled (works id) id s done j settled)
          ]

    recover_stop-IsSettled :
        (id : Text) (r : FolderControlRecord) (folders : List ConfiguredFolder) (s : Store)
        (w : U × D) (fs : List ConfiguredFolder) (s' : Store) (w' : U × D)
        → recover_stop disk clean base join root_of upstream works inventory id r folders s w
          ≡ ((s', w'), some fs)
        → (j : Text) → IsSettled stopping s j ⊎ (id ≡ j)
        → IsSettled stopping s' j
    unfolding recover_stop
    recover_stop-IsSettled id r folders s w fs s' w' h j settled =
        let found = find_configured_folder folders id in
        elim (Option-cases (card_for_stop r inventory)) [
          | inl n ↦ absurd (ground arith)
          | inr (card, e) ↦
              finish_stop-IsSettled id found (or_recorded found id r card) card folders s w fs s' w'
                (ground arith) j settled
        ]

    recover_stops-IsSettled :
        (m : Dict FolderControlRecord) (folders : List ConfiguredFolder) (s : Store) (w : U × D)
        (fs : List ConfiguredFolder) (s' : Store) (w' : U × D)
        → recover_stops disk clean base join root_of upstream works inventory m folders s w
          ≡ ((s', w'), some fs)
        → (j : Text) → IsSettled stopping s j ⊎ Waits stopping m j
        → IsSettled stopping s' j
    unfolding recover_stops
    recover_stops-IsSettled [] folders s w fs s' w' h j (inl settled) =
        let same : s ≡ s' = ap (λ p. p.0.0) h in rw (← same) settled
    recover_stops-IsSettled [] folders s w fs s' w' h j (inr waits) = absurd waits
    recover_stops-IsSettled ((id, r) ∷ m) folders s w fs s' w' h j settled =
        elim (Bool-cases r.pending_stop) [
          | inr e ↦
              recover_stops-IsSettled m folders s w fs s' w' (rw (e, recover_stops) at h) j
                (skipped stopping id r m s j e settled)
          | inl e ↦
              let (s₁, w₁, fs₁, first, rest) =
                next-some
                  (recover_stop disk clean base join root_of upstream works inventory id r folders s
                    w)
                  _ s' w' fs (rw (e, recover_stops) at h) in
              let before = recover_stop-IsSettled id r folders s w fs₁ s₁ w₁ first j in
              recover_stops-IsSettled m fs₁ s₁ w₁ fs s' w' rest j (elim settled [
                | inl a ↦ inl (before (inl a))
                | inr (inl (same, p)) ↦ inl (before (inr same))
                | inr (inr p) ↦ inr p
              ])
        ]

    -- After a recovery of the stops that succeeds no record has a stop pending, whatever the
    -- records, the folders, the cards, the upstream and the file system are.
    pub recover_pending_folder_stops-IsSettled :
        (folders : List ConfiguredFolder) (s : Store) (w : U × D) (fs : List ConfiguredFolder)
        (s' : Store) (w' : U × D)
        → recover_pending_folder_stops disk clean base join root_of upstream works inventory folders
            s w
          ≡ ((s', w'), some fs)
        → (id : Text) (r : FolderControlRecord) → lookup id s'.records ≡ some r
        → r.pending_stop ≡ false
    unfolding recover_pending_folder_stops
    recover_pending_folder_stops-IsSettled folders s w fs s' w' h id r e =
        recover_stops-IsSettled s.records folders s w fs s' w' h id (snapshot-Waits stopping s id) r
          e
