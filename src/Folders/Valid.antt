-- ===== src/Folders/Valid.antt =====
-- The well-formedness of the folder control records, stated apart from the code that validates
-- them, with what one write keeps of it.
pub mod Steps
pub mod Adding
pub mod Accepted
use leaf_syncthing_pak.Base.{
  ℕ, suc, ◌+◌, ◌≤◌, Bool, true, false, not, ◌&&◌, ◌||◌, ◌≡◌, refl, sym, ap, ◌∙◌, ◌≢◌, ◌⊎◌, inl, inr,
  Option, none, some, List, [], ◌∷◌, ◌++◌, length, All, arith, Text, is_empty, text_eq, text_eq_iff,
  text_eq_refl, Dict, lookup, insert, delete, lookup-insert, lookup-delete, All-insert, All-delete,
  All-lookup, length-insert_present, length-insert, length-delete, length-delete_present,
  Bool-cases, Option-cases, if◌then◌else◌, ==_iff, ◌==◌,
}
use leaf_syncthing_pak.Folders.Device.{
  Names, normalize_device_id, valid_folder_id, valid_identity_id, is_kind, binding_names,
}
use leaf_syncthing_pak.Folders.Store.{
  FolderControlRecord, Store, StoreErr, Call, Outcome, persist_locked,
}
use leaf_syncthing_pak.Folders.Ops.{is_operation, undo, put}
use leaf_syncthing_pak.Folders.Load.{local_key}

abbrev pub marker_of : Option Names → Option Text
marker_of none = none
marker_of (some n) = some n.marker_name

abbrev pub Entry : Type 0
Entry = Text × FolderControlRecord

module _ (hex_digest : Text → Text) where
  -- A record under its folder's id: it is bound to a card, and at most one mutation is pending.
  pub record WellFormed (e : Entry) : Type 0 where
    pub id_valid : valid_folder_id e.0 ≡ true
    pub bound : marker_of (binding_names hex_digest e.1.card_id e.1.kind) ≡ some e.1.marker_name
    pub membership :
        ((e.1.pending_membership ≡ []) × (e.1.pending_device_id ≡ []))
        ⊎ ((is_operation e.1.pending_membership ≡ true)
            × (normalize_device_id e.1.pending_device_id ≡ some e.1.pending_device_id))
    pub adding : e.1.pending_add ≡ true → (e.1.pending_membership ≡ []) × (e.1.pending_stop ≡ false)
    pub stopping : e.1.pending_stop ≡ true → e.1.pending_membership ≡ []

  -- No two folders share a card and a kind.
  abbrev pub Distinct : Dict FolderControlRecord → Type 0
  Distinct [] = Unit
  Distinct (e ∷ m) = All (λ f. local_key f.1 ≢ local_key e.1) m × Distinct m

  pub record ValidRecords (m : Dict FolderControlRecord) : Type 0 where
    pub entries : All WellFormed m
    pub distinct : Distinct m
    pub room : length m ≤ 16

  Distinct-insert :
      (id : Text) (r old : FolderControlRecord) (m : Dict FolderControlRecord)
      → lookup id m ≡ some old
      → local_key r ≡ local_key old
      → Distinct m
      → Distinct (insert id r m)
  unfolding insert lookup
  Distinct-insert id r old [] h k d = cc
  Distinct-insert id r old ((j, w) ∷ m) h k d = elim (Bool-cases (text_eq j id)) [
    | inl e ↦ let same : w ≡ old = ground arith in rw e (rw (k, ← same) d)
    | inr e ↦
        let later : lookup id m ≡ some old = ground arith in
        rw e (
          All-insert (λ f. local_key f.1 ≢ local_key w) id r m
              (rw k (All-lookup (λ f. local_key f.1 ≢ local_key w) id old m d.0 later)) d.0,
          Distinct-insert id r old m later k d.1,
        )
  ]

  Distinct-delete : (id : Text) (m : Dict FolderControlRecord) → Distinct m → Distinct (delete id m)
  unfolding delete
  Distinct-delete id [] d = tt
  Distinct-delete id ((j, w) ∷ m) d = elim (Bool-cases (text_eq j id)) [
    | inl e ↦ rw e (Distinct-delete id m d.1)
    | inr e ↦
        rw e (All-delete (λ f. local_key f.1 ≢ local_key w) id m d.0, Distinct-delete id m d.1)
  ]

  Distinct-insert_new :
      (id : Text) (r : FolderControlRecord) (m : Dict FolderControlRecord)
      → lookup id m ≡ none
      → All (λ f. local_key f.1 ≢ local_key r) m
      → Distinct m
      → Distinct (insert id r m)
  unfolding insert lookup
  Distinct-insert_new id r [] h a d = (tt, tt)
  Distinct-insert_new id r ((j, w) ∷ m) h a d = elim (Bool-cases (text_eq j id)) [
    | inl e ↦ absurd (ground arith)
    | inr e ↦ rw e (
      All-insert (λ f. local_key f.1 ≢ local_key w) id r m (λ q. a.0 (sym q)) d.0,
      Distinct-insert_new id r m (ground arith) a.1 d.1,
    )
  ]

  -- What stays after a removal does not share the removed record's card and kind.
  Distinct-deleted :
      (id : Text) (r : FolderControlRecord) (m : Dict FolderControlRecord)
      → lookup id m ≡ some r
      → Distinct m
      → All (λ f. local_key f.1 ≢ local_key r) (delete id m)
  unfolding delete lookup
  Distinct-deleted id r [] h d = cc
  Distinct-deleted id r ((j, w) ∷ m) h d = elim (Bool-cases (text_eq j id)) [
    | inl e ↦
        let same : w ≡ r = ground arith in
        rw e (All-delete (λ f. local_key f.1 ≢ local_key r) id m (rw (← same) d.0))
    | inr e ↦
        let later : lookup id m ≡ some r = ground arith in
        rw e (
          λ q. All-lookup (λ f. local_key f.1 ≢ local_key w) id r m d.0 later (sym q),
          Distinct-deleted id r m later d.1,
        )
  ]

  pub All-lookup_entry :
      (id : Text) (r : FolderControlRecord) (m : Dict FolderControlRecord)
      → ValidRecords m
      → lookup id m ≡ some r
      → WellFormed (id, r)
  All-lookup_entry id r m v h = All-lookup WellFormed id r m v.entries h

  module _ (id : Text) (m : Dict FolderControlRecord) (v : ValidRecords m) where
    pub insert-ValidRecords :
        (r old : FolderControlRecord)
        → lookup id m ≡ some old
        → local_key r ≡ local_key old
        → WellFormed (id, r)
        → ValidRecords (insert id r m)
    insert-ValidRecords r old h k w = record {
      entries = All-insert WellFormed id r m w v.entries;
      distinct = Distinct-insert id r old m h k v.distinct;
      room = omega (arith, length-insert_present id r old m h, v.room);
    }

    pub insert_new-ValidRecords :
        (r : FolderControlRecord)
        → lookup id m ≡ none
        → All (λ f. local_key f.1 ≢ local_key r) m
        → WellFormed (id, r)
        → length m ≤ 15
        → ValidRecords (insert id r m)
    insert_new-ValidRecords r h a w l = record {
      entries = All-insert WellFormed id r m w v.entries;
      distinct = Distinct-insert_new id r m h a v.distinct;
      room = omega (arith, length-insert id r m);
    }

    pub delete-ValidRecords : ValidRecords (delete id m)
    delete-ValidRecords = record {
      entries = All-delete WellFormed id m v.entries;
      distinct = Distinct-delete id m v.distinct;
      room = omega (arith, length-delete id m, v.room);
    }

    -- A removal that is taken back.
    pub insert-delete-ValidRecords :
        (r : FolderControlRecord) → lookup id m ≡ some r → ValidRecords (insert id r (delete id m))
    insert-delete-ValidRecords r h = record {
      entries =
          All-insert WellFormed id r (delete id m) (All-lookup_entry id r m v h)
            (All-delete WellFormed id m v.entries);
      distinct =
          Distinct-insert_new id r (delete id m) (rw lookup-delete (rw (text_eq_refl id)))
            (Distinct-deleted id r m h v.distinct) (Distinct-delete id m v.distinct);
      room =
          omega (arith, length-insert id r (delete id m), length-delete_present id r m h, v.room);
    }
