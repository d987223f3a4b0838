-- ===== src/FirstSync/Manager/Durable.antt =====
-- The protection of a folder is taken away only once its marker is durable.
use leaf_syncthing_pak.Base.{
  ℕ, Bool, true, false, not, ◌||◌, ◌==◌, ◌≡◌, refl, sym, ◌∙◌, ◌⊎◌, inl, inr, none, some, List, [],
  ◌∷◌, All, Bool-cases, Option-cases, if◌then◌else◌, arith, Text, codes, text_eq, text_eq_iff,
  text_eq_refl, is_empty, sort, All-sort, lookup,
}
use mathlib.Core.Path.{subst}
use leaf_syncthing_pak.Folders.Types.{ConfiguredFolder, Card, usable_enrolled_card}
use leaf_syncthing_pak.Folders.Store.{FolderControlRecord, Outcome}
use leaf_syncthing_pak.Folders.Rows.{Lstat}
use leaf_syncthing_pak.FirstSync.Documents.{
  SnapshotHeader, FirstSyncMarker, Document, absent, unreadable, document, Found, failed, not_found,
  found, Snapshots, is_sendonly, DirectoryEntry, Listing, unsafe_listing, no_directory, listing,
  is_hidden, visible_names, descending, header_fits, first_ready, marker_fits, read_mode,
  read_snapshot_header, latest_prepared_snapshot, read_first_sync_marker,
}
use leaf_syncthing_pak.FirstSync.Manager.{
  World, Calls, Run, started_marker, write_started, complete, stored_in, sync, confirm_snapshot,
  ◌>>◌, valid_first_sync_binding,
}

module _ (calls : Calls) where
  stored_in-cases :
      (w : World) (o : Outcome)
      → ((stored_in w o).0.marker ≡ w.marker) × ((stored_in w o).0.durable ≡ w.durable)
  stored_in-cases w (s, none) = (refl, refl)
  stored_in-cases w (s, some e) = (refl, refl)

  -- The steps of a start, whichever of them is the last.
  write_started-durable :
      (folder : ConfiguredFolder) (card : Card) (control : FolderControlRecord)
      (mode name stamp : Text) (w : World)
      → let w' = (write_started calls folder card control mode name stamp w).0 in
        (w'.store ≡ w.store)
        ⊎ (w'.durable
            ≡ document
                (started_marker calls folder card control (codes "complete") mode name stamp))
  unfolding write_started
  write_started-durable folder card control mode name stamp w = ground arith

pub Found-cases :
    {A : Type 0} (f : Found A) → (f ≡ failed) ⊎ ((f ≡ not_found) ⊎ ((a : A) × (f ≡ found a)))
Found-cases failed = inl refl
Found-cases not_found = inr (inl refl)
Found-cases (found a) = inr (inr (a, refl))

Listing-cases :
    (l : Listing)
    → (l ≡ unsafe_listing) ⊎ ((l ≡ no_directory) ⊎ ((es : List DirectoryEntry) × (l ≡ listing es)))
Listing-cases unsafe_listing = inl refl
Listing-cases no_directory = inr (inl refl)
Listing-cases (listing es) = inr (inr (es, refl))

header-name :
    (d : Document SnapshotHeader) (h : SnapshotHeader) (folder : ConfiguredFolder) (card : Card)
    (epoch : ℕ) (manifest : Bool) (name : Text)
    → elim d [
      | absent ↦ not_found
      | unreadable ↦ failed
      | document g ↦
          if not manifest
          then failed
          else if header_fits folder card epoch name g
          then found g
          else not_found
    ]
      ≡ found h
    → h.name ≡ name
unfolding header_fits
header-name absent h folder card epoch manifest name r = absurd (ground arith)
header-name unreadable h folder card epoch manifest name r = absurd (ground arith)
header-name (document g) h folder card epoch manifest name r =
    let same : g ≡ h = ground arith in rw (← same) ((text_eq_iff g.name name).0 (ground arith))

module _ (clean base : Text → Text) (join : List Text → Text) (lstat : Text → Lstat)
    (kind_root : Text) (snapshots : Snapshots) (folder : ConfiguredFolder) (card : Card) where
  -- The marker that a restart accepts.
  abbrev pub IsAccepted : ℕ → Document FirstSyncMarker → Type 0
  IsAccepted epoch d =
      (m : FirstSyncMarker) × (read_first_sync_marker base join kind_root snapshots folder card
          epoch d
        ≡ found m)

  started_fits :
      (calls : Calls) (control : FolderControlRecord) (mode name stamp : Text)
      → (control.first_sync_epoch == 0) ≡ false
      → is_empty stamp ≡ false
      → marker_fits folder card control.first_sync_epoch
          (started_marker calls folder card control (codes "complete") mode name stamp)
        ≡ true
  unfolding marker_fits text_eq
  started_fits calls control mode name stamp e t =
      rw (text_eq_refl folder.id, text_eq_refl card.identity_id, text_eq_refl folder.kind, t)
        (ground arith)

  sendonly-IsAccepted :
      (calls : Calls) (control : FolderControlRecord) (stamp : Text)
      → (control.first_sync_epoch == 0) ≡ false
      → is_empty stamp ≡ false
      → is_sendonly folder.type ≡ true
      → IsAccepted control.first_sync_epoch (
          document (
            started_marker calls folder card control
              (codes "complete")
              (codes "sendonly")
              []
              stamp))
  unfolding read_first_sync_marker read_mode
  sendonly-IsAccepted calls control stamp e t s =
      let m =
        started_marker calls folder card control (codes "complete") (codes "sendonly") [] stamp in
      (
        m,
        rw
            (
              started_fits calls control (codes "sendonly") [] stamp e t,
              s,
              text_eq_refl (codes "sendonly"),
            )
            refl,
      )

  snapshot-IsAccepted :
      (calls : Calls) (control : FolderControlRecord) (h : SnapshotHeader) (stamp : Text)
      → (control.first_sync_epoch == 0) ≡ false
      → is_empty stamp ≡ false
      → is_sendonly folder.type ≡ false
      → (text_eq folder.type (codes "sendreceive") || text_eq folder.type (codes "receiveonly"))
        ≡ true
      → is_empty h.name ≡ false
      → read_snapshot_header base join kind_root snapshots folder card control.first_sync_epoch
          h.name
        ≡ found h
      → IsAccepted control.first_sync_epoch (
          document (
            started_marker calls folder card control
              (codes "complete")
              (codes "snapshot")
              h.name
              stamp))
  unfolding read_first_sync_marker read_mode text_eq
  snapshot-IsAccepted calls control h stamp e t s k n r =
      let m =
        started_marker calls folder card control (codes "complete") (codes "snapshot") h.name
          stamp in
      (
        m,
        rw
            (
              started_fits calls control (codes "snapshot") h.name stamp e t,
              s,
              k,
              n,
              r,
              text_eq_refl h.name,
            )
            refl,
      )

  -- A name as the file system lists it: the last part of its path, and not empty.
  abbrev pub IsPlain : Text → Type 0
  IsPlain name = (base (join (kind_root ∷ name ∷ [])) ≡ name) × (is_empty name ≡ false)

  visible-IsPlain :
      (es : List DirectoryEntry) (names : List Text)
      → All (λ e. IsPlain e.name) es
      → visible_names es ≡ some names
      → All IsPlain names
  unfolding visible_names
  visible-IsPlain [] names p h = let none_left : [] ≡ names = ground arith in rw (← none_left) tt
  visible-IsPlain (e ∷ es) names p h = elim (Option-cases (visible_names es)) [
    | inl n ↦ elim (Bool-cases (is_hidden e.name)) [
      | inl t ↦ absurd (ground arith)
      | inr t ↦ absurd (ground arith)
    ]
    | inr (ns, r) ↦ elim (Bool-cases (is_hidden e.name)) [
      | inl t ↦ visible-IsPlain es names p.1 (ground arith)
      | inr t ↦
          let is : e.name ∷ ns ≡ names = ground arith in
          rw (← is) (p.0, visible-IsPlain es ns p.1 r)
    ]
  ]

  descending-IsPlain :
      (xs ys : List Text) → All IsPlain xs → All IsPlain ys → All IsPlain (descending xs ys)
  descending-IsPlain [] ys p q = q
  descending-IsPlain (x ∷ xs) ys p q = descending-IsPlain xs (x ∷ ys) p.1 (p.0, q)

  module _ (epoch : ℕ) where
    read_snapshot_header-name :
        (name : Text) (h : SnapshotHeader)
        → IsPlain name
        → read_snapshot_header base join kind_root snapshots folder card epoch name ≡ found h
        → h.name ≡ name
    unfolding read_snapshot_header header_fits
    read_snapshot_header-name name h p r =
        let root = join (kind_root ∷ name ∷ []) in
        header-name ((snapshots.at root).header) h folder card epoch
          (snapshots.at root).manifest_sound (base root) r
        ∙ p.0

    first_ready-found :
        (names : List Text) (h : SnapshotHeader)
        → All IsPlain names
        → first_ready base join kind_root snapshots folder card epoch names ≡ found h
        → (read_snapshot_header base join kind_root snapshots folder card epoch h.name ≡ found h)
          × (is_empty h.name ≡ false)
    unfolding first_ready
    first_ready-found [] h p r = absurd (ground arith)
    first_ready-found (name ∷ names) h p r =
        elim (Found-cases
          (read_snapshot_header base join kind_root snapshots folder card epoch name)) [
            | inl e ↦ absurd (ground arith)
            | inr (inl e) ↦ first_ready-found names h p.1 (ground arith)
            | inr (inr (g, e)) ↦
                let same : g ≡ h = ground arith in
                let named = read_snapshot_header-name name g p.0 e in
                rw (← same) (
                  subst
                      (λ n.
                        read_snapshot_header base join kind_root snapshots folder card epoch n
                        ≡ found g)
                      (sym named) e,
                  rw named p.0.1,
                )
          ]

    latest_prepared_snapshot-found :
        (h : SnapshotHeader)
        → ((es : List DirectoryEntry)
            → snapshots.entries ≡ listing es
            → All (λ e. IsPlain e.name) es)
        → latest_prepared_snapshot base join kind_root snapshots folder card epoch ≡ found h
        → (read_snapshot_header base join kind_root snapshots folder card epoch h.name ≡ found h)
          × (is_empty h.name ≡ false)
    unfolding latest_prepared_snapshot
    latest_prepared_snapshot-found h p r = elim (Listing-cases snapshots.entries) [
      | inl e ↦ absurd (ground arith)
      | inr (inl e) ↦ absurd (ground arith)
      | inr (inr (es, e)) ↦ elim (Option-cases (visible_names es)) [
        | inl n ↦ absurd (ground arith)
        | inr (names, v) ↦
            first_ready-found (descending (sort names) []) h
              (descending-IsPlain (sort names) []
                (All-sort IsPlain names (visible-IsPlain es names (p es e) v)) tt)
              (ground arith)
      ]
    ]

  -- What a start needs of its surroundings: the folder has one of the three types, the time is not
  -- empty, and the names of the snapshots' directory are names.
  pub record Surroundings (stamp : Text) : Type 0 where
    pub typed :
        is_sendonly folder.type ≡ false
        → (text_eq folder.type (codes "sendreceive") || text_eq folder.type (codes "receiveonly"))
          ≡ true
    pub stamped : is_empty stamp ≡ false
    pub plain :
        (es : List DirectoryEntry) → snapshots.entries ≡ listing es → All (λ e. IsPlain e.name) es

  -- The store is as it was, or a restart accepts the marker.
  abbrev IsSafe : ℕ → World → World → Type 0
  IsSafe epoch w w' = (w'.store ≡ w.store) ⊎ IsAccepted epoch w'.durable

  write_started-IsSafe :
      (calls : Calls) (control : FolderControlRecord) (mode name stamp : Text) (w : World)
      → IsAccepted control.first_sync_epoch
          (document (started_marker calls folder card control (codes "complete") mode name stamp))
      → IsSafe control.first_sync_epoch w
          (write_started calls folder card control mode name stamp w).0
  write_started-IsSafe calls control mode name stamp w accepted =
      elim (write_started-durable calls folder card control mode name stamp w) [
        | inl same ↦ inl same
        | inr d ↦ inr (subst (IsAccepted control.first_sync_epoch) (sym d) accepted)
      ]

  synced-IsSafe :
      (calls : Calls) (epoch : ℕ) (k : Run) (w : World)
      → ((v : World) → v.store ≡ w.store → IsSafe epoch w (k v).0)
      → IsSafe epoch w ((sync calls confirm_snapshot >> k) w).0
  synced-IsSafe calls epoch k w h = elim (Bool-cases (calls.works confirm_snapshot)) [
    | inl t ↦ rw t (h (sync calls confirm_snapshot w).0 refl)
    | inr t ↦ rw t (inl refl)
  ]

  -- Whichever call of a confirmed start fails, or is the last before a loss of power, the control
  -- records are as they were, or a restart accepts the marker that is on the card.
  pub complete-durable :
      (calls : Calls) (hub : Bool) (stamp : Text) (w : World) (control : FolderControlRecord)
      → Surroundings stamp
      → lookup folder.id w.store.records ≡ some control
      → let w' =
          (complete calls clean base join lstat kind_root snapshots folder hub card stamp w).0 in
        (w'.store ≡ w.store) ⊎ IsAccepted control.first_sync_epoch w'.durable
  unfolding complete
  complete-durable calls hub stamp w control around e =
      elim (Bool-cases (
        not hub
        || not (usable_enrolled_card card)
        || not control.first_sync
        || control.first_sync_epoch == 0
        || not (valid_first_sync_binding clean base join lstat folder card control))) [
          | inl t ↦ rw (e, t, complete) (inl refl)
          | inr t ↦
              let z : (control.first_sync_epoch == 0) ≡ false = ground arith in
              elim (Bool-cases (is_sendonly folder.type)) [
                | inl s ↦
                    rw (e, t, s, complete)
                      (write_started-IsSafe calls control (codes "sendonly") [] stamp w
                        (sendonly-IsAccepted calls control stamp z around.stamped s))
                | inr s ↦
                    elim (Found-cases (
                      latest_prepared_snapshot base join kind_root snapshots folder card
                        control.first_sync_epoch)) [
                          | inl n ↦ rw (e, t, s, n, complete) (inl refl)
                          | inr (inl n) ↦ rw (e, t, s, n, complete) (inl refl)
                          | inr (inr (h, f)) ↦
                              let (r, n) =
                                latest_prepared_snapshot-found control.first_sync_epoch h
                                  around.plain f in
                              let accepted =
                                snapshot-IsAccepted calls control h stamp z around.stamped s
                                  (around.typed s) n r in
                              rw (e, t, s, f, complete)
                                (synced-IsSafe calls control.first_sync_epoch
                                  (write_started calls folder card control (codes "snapshot") h.name
                                    stamp)
                                  w
                                  (λ v same. rw (← same) (
                                    write_started-IsSafe calls control (codes "snapshot") h.name
                                      stamp v accepted)))
                        ]
              ]
        ]
