-- ===== src/Folders/Valid/Accepted.antt =====
-- A controller start accepts well-formed records, and every operation keeps them so, but for a
-- change of membership begun on a folder that is being stopped.
use leaf_syncthing_pak.Base.{
  Bool, true, false, ◌≡◌, refl, sym, ◌≢◌, inl, inr, none, some, List, [], ◌∷◌, any, All, arith,
  Text, Dict, lookup, Option-cases, text_eq, text_eq_refl, text_eq_iff,
}
use leaf_syncthing_pak.Folders.Types.{ConfiguredFolder, Card}
use leaf_syncthing_pak.Folders.Device.{binding_names, valid_identity_id, normalize_device_id}
use leaf_syncthing_pak.Folders.Device.Canonical.{normalize_device_id-nonempty}
use leaf_syncthing_pak.Folders.Store.{
  FolderControlRecord, Store, Call, Outcome, folder_offer_key, complete_folder_binding,
}
use leaf_syncthing_pak.Folders.Store.Persist.{persist_locked-records}
use leaf_syncthing_pak.Folders.Ops
use leaf_syncthing_pak.Folders.Ops.{undo, is_operation}
use leaf_syncthing_pak.Folders.Load.{local_key, record_error, validate_records}
use leaf_syncthing_pak.Folders.Load.Refuses.{operation-nonempty}
use leaf_syncthing_pak.Folders.Valid.{WellFormed, ValidRecords, Distinct, marker_of}
use leaf_syncthing_pak.Folders.Valid.Steps
use leaf_syncthing_pak.Folders.Valid.Steps.{undo-records, Kept-if}
use leaf_syncthing_pak.Folders.Valid.Adding.{add-ValidRecords}

-- A call of one of the store's methods.
pub data Op : Type 0 where
  offer_ignored : Text → Text → Bool → Op
  removal_begun : Text → Op
  removal_completed : Text → Op
  manual : Text → Bool → Op
  pending_rescan : Text → Bool → Op
  first_sync : Text → Bool → Op
  first_sync_required : Text → Op
  added : ConfiguredFolder → Card → Bool → Op
  activated : Text → Op
  removed : Text → Op
  membership_begun : Text → Text → Text → Op
  membership_completed : Text → Op
  stop_begun : Text → Op

-- Not a membership change of a folder that is being stopped.
abbrev pub Permitted : Op → Store → Type 0
Permitted (membership_begun id raw operation) s =
    (r : FolderControlRecord) → lookup id s.records ≡ some r → r.pending_stop ≡ false
Permitted _ s = Unit

module _ (hex_digest : Text → Text) where
  unfoldable pub apply : (Call → Bool) → Op → Store → Outcome
  apply works (offer_ignored folder device ignored) s =
      Ops.set_offer_ignored works folder device ignored s
  apply works (removal_begun device) s = Ops.begin_device_removal works device s
  apply works (removal_completed device) s = Ops.complete_device_removal works device s
  apply works (manual id b) s = Ops.set_manual works id b s
  apply works (pending_rescan id b) s = Ops.set_pending_rescan works id b s
  apply works (first_sync id b) s = Ops.set_first_sync works id b s
  apply works (first_sync_required id) s = Ops.require_first_sync works id s
  apply works (added folder card pending) s = Ops.add works hex_digest folder card pending s
  apply works (activated id) s = Ops.activate works id s
  apply works (removed id) s = Ops.remove works id s
  apply works (membership_begun id raw operation) s = Ops.begin_membership works id raw operation s
  apply works (membership_completed id) s = Ops.complete_membership works id s
  apply works (stop_begun id) s = Ops.begin_stop works id s

  -- Removals and offers leave the records alone.
  module _ (works : Call → Bool) (s : Store) where
    removal_begun-records :
        (raw : Text) → (Ops.begin_device_removal works raw s).0.records ≡ s.records
    unfolding Ops.begin_device_removal
    removal_begun-records raw = elim (Option-cases (normalize_device_id raw)) [
      | inl n ↦ rw (n, Ops.begin_device_removal) refl
      | inr (d, n) ↦
          rw (n, Ops.begin_device_removal)
            (ground (arith, persist_locked-records works (record s { pending_device_removal = d })))
    ]

    removal_completed-records :
        (raw : Text) → (Ops.complete_device_removal works raw s).0.records ≡ s.records
    unfolding Ops.complete_device_removal
    removal_completed-records raw = elim (Option-cases (normalize_device_id raw)) [
      | inl n ↦ rw (n, Ops.complete_device_removal) refl
      | inr (d, n) ↦
          rw (n, Ops.complete_device_removal)
            (ground (
              arith,
              persist_locked-records works (record s {
                pending_device_removal = [];
                ignored_offers = Ops.offers_without d s.ignored_offers;
              }),
            ))
    ]

    offer_ignored-records :
        (folder raw : Text) (b : Bool)
        → (Ops.set_offer_ignored works folder raw b s).0.records ≡ s.records
    unfolding Ops.set_offer_ignored
    offer_ignored-records folder raw b = elim (Option-cases (normalize_device_id raw)) [
      | inl n ↦ rw (n, Ops.set_offer_ignored) refl
      | inr (d, n) ↦
          let key = folder_offer_key folder d in
          rw (n, Ops.set_offer_ignored)
            (ground (
              arith,
              persist_locked-records works
                  (Ops.put_offer key (record { folder_id = folder; device_id = d }) s),
              persist_locked-records works (Ops.drop_offer key s),
            ))
    ]

  -- Every operation keeps the records well formed, whichever calls of the operating system fail,
  -- unless it begins a membership change of a folder that is being stopped.
  pub apply-ValidRecords :
      (works : Call → Bool) (op : Op) (s : Store)
      → ValidRecords hex_digest s.records
      → Permitted op s
      → ValidRecords hex_digest (apply works op s).0.records
  unfolding apply
  apply-ValidRecords works (offer_ignored f d b) s v p = rw (offer_ignored-records works s f d b) v
  apply-ValidRecords works (removal_begun d) s v p = rw (removal_begun-records works s d) v
  apply-ValidRecords works (removal_completed d) s v p = rw (removal_completed-records works s d) v
  apply-ValidRecords works (manual id b) s v p =
      Steps.set_manual-ValidRecords hex_digest works s v id b
  apply-ValidRecords works (pending_rescan id b) s v p =
      Steps.set_pending_rescan-ValidRecords hex_digest works s v id b
  apply-ValidRecords works (first_sync id b) s v p =
      Steps.set_first_sync-ValidRecords hex_digest works s v id b
  apply-ValidRecords works (first_sync_required id) s v p =
      Steps.require_first_sync-ValidRecords hex_digest works s v id
  apply-ValidRecords works (added f c b) s v p = add-ValidRecords hex_digest works s f c b v
  apply-ValidRecords works (activated id) s v p =
      Steps.activate-ValidRecords hex_digest works s v id
  apply-ValidRecords works (removed id) s v p = Steps.remove-ValidRecords hex_digest works s v id
  apply-ValidRecords works (membership_begun id raw o) s v p =
      Steps.begin_membership-ValidRecords hex_digest works s v id raw o p
  apply-ValidRecords works (membership_completed id) s v p =
      Steps.complete_membership-ValidRecords hex_digest works s v id
  apply-ValidRecords works (stop_begun id) s v p =
      Steps.begin_stop-ValidRecords hex_digest works s v id

  bound_complete :
      (r : FolderControlRecord)
      → marker_of (binding_names hex_digest r.card_id r.kind) ≡ some r.marker_name
      → complete_folder_binding r ≡ true
  unfolding complete_folder_binding binding_names valid_identity_id
  bound_complete r h = ground (arith, text_eq_iff r.kind [])

  record_error-WellFormed :
      (id : Text) (r : FolderControlRecord)
      → WellFormed hex_digest (id, r)
      → record_error hex_digest id r ≡ none
  unfolding record_error
  record_error-WellFormed id r w = ground (
    arith,
    bound_complete r w.bound,
    text_eq_refl r.marker_name,
    operation-nonempty r.pending_membership,
    normalize_device_id-nonempty r.pending_device_id,
  )

  unseen :
      (k : Text) (seen : List Text) → All (λ q. q ≢ k) seen → any (λ q. text_eq q k) seen ≡ false
  unseen k [] h = refl
  unseen k (q ∷ qs) h = ground (arith, text_eq_iff q k, h.0, unseen k qs h.1)

  abbrev Apart : List Text → Dict FolderControlRecord → Type 0
  Apart seen m = All (λ e. All (λ q. q ≢ local_key e.1) seen) m

  Apart-cons :
      (r : FolderControlRecord) (seen : List Text) (m : Dict FolderControlRecord)
      → All (λ f. local_key f.1 ≢ local_key r) m
      → Apart seen m
      → Apart (local_key r ∷ seen) m
  Apart-cons r seen [] d a = tt
  Apart-cons r seen (e ∷ m) d a = ((λ q. d.0 (sym q), a.0), Apart-cons r seen m d.1 a.1)

  validate_from :
      (seen : List Text) (m : Dict FolderControlRecord)
      → All (WellFormed hex_digest) m
      → Distinct hex_digest m
      → Apart seen m
      → validate_records hex_digest seen m ≡ none
  unfolding validate_records
  validate_from seen [] w d a = refl
  validate_from seen ((id, r) ∷ m) w d a =
      rw (record_error-WellFormed id r w.0, unseen (local_key r) seen a.0, validate_records)
        (validate_from (local_key r ∷ seen) m w.1 d.1 (Apart-cons r seen m d.0 a.1))

  Apart-nil : (m : Dict FolderControlRecord) → Apart [] m
  Apart-nil [] = tt
  Apart-nil (e ∷ m) = (tt, Apart-nil m)

  -- The validation of a controller start accepts well-formed records.
  pub validate_records-ValidRecords :
      (m : Dict FolderControlRecord)
      → ValidRecords hex_digest m
      → validate_records hex_digest [] m ≡ none
  validate_records-ValidRecords m v = validate_from [] m v.entries v.distinct (Apart-nil m)
