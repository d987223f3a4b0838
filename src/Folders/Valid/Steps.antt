-- ===== src/Folders/Valid/Steps.antt =====
-- Each operation of the folder control store keeps its records well formed.
use leaf_syncthing_pak.Base.{
  ◌+◌, Bool, true, false, not, ◌&&◌, ◌||◌, ◌≡◌, refl, sym, ◌∙◌, ◌⊎◌, inl, inr, none, some, [],
  arith, Text, lookup, insert, delete, lookup-insert, Bool-cases, Option-cases, if◌then◌else◌,
  text_eq, text_eq_refl, is_empty, ◌==◌,
}
use leaf_syncthing_pak.Folders.Device.{normalize_device_id}
use leaf_syncthing_pak.Folders.Device.Canonical.{normalize_device_id_idem}
use leaf_syncthing_pak.Folders.Store.{FolderControlRecord, Store, Call, Outcome, persist_locked}
use leaf_syncthing_pak.Folders.Store.Persist.{persist_locked-records}
use leaf_syncthing_pak.Folders.Ops.{
  undo, put, is_operation, max_uint64, set_manual, set_pending_rescan, set_first_sync,
  require_first_sync, activate, remove, complete_membership, begin_stop, begin_membership,
}
use leaf_syncthing_pak.Folders.Load.{local_key}
use leaf_syncthing_pak.Folders.Valid.{
  WellFormed, ValidRecords, insert-ValidRecords, delete-ValidRecords, insert-delete-ValidRecords,
  All-lookup_entry,
}

pub undo-records :
    (back : Store → Store) (o : Outcome)
    → ((undo back o).0.records ≡ o.0.records) ⊎ ((undo back o).0.records ≡ (back o.0).records)
undo-records back (s, none) = inl refl
undo-records back (s, some e) = inr refl

module _ (hex_digest : Text → Text) (works : Call → Bool) (s : Store)
    (v : ValidRecords hex_digest s.records) where
  abbrev pub Kept : Outcome → Type 0
  Kept o = ValidRecords hex_digest o.0.records

  pub Kept-if :
      (b : Bool) (x y : Outcome)
      → (b ≡ true → Kept x)
      → (b ≡ false → Kept y)
      → Kept (if b then x else y)
  Kept-if true x y f g = f refl
  Kept-if false x y f g = g refl

  -- A membership change begun on a record with nothing else pending.
  begun :
      (id : Text) (r : FolderControlRecord) (operation device : Text)
      → WellFormed hex_digest (id, r)
      → r.pending_stop ≡ false
      → r.pending_add ≡ false
      → is_operation operation ≡ true
      → normalize_device_id device ≡ some device
      → WellFormed hex_digest
          (id, record r { pending_membership = operation; pending_device_id = device })
  begun id r operation device w st ad op dev = record {
    id_valid = w.id_valid;
    bound = w.bound;
    membership = inr (op, dev);
    adding = λ p. absurd (ground arith);
    stopping = λ p. absurd (ground arith);
  }

  module _ (id : Text) (old r : FolderControlRecord) (h : lookup id s.records ≡ some old)
      (k : local_key r ≡ local_key old) (w : WellFormed hex_digest (id, r)) where
    -- A write of one record, persisted or not.
    persist-put : Kept (persist_locked works (put id r s))
    persist-put =
        rw (persist_locked-records works (put id r s))
          (insert-ValidRecords hex_digest id s.records v r old h k w)

    -- The same with its undoing.
    undo-put :
        (back : FolderControlRecord)
        → local_key back ≡ local_key old
        → WellFormed hex_digest (id, back)
        → Kept (undo (put id back) (persist_locked works (put id r s)))
    undo-put back kb wb = elim (undo-records (put id back) (persist_locked works (put id r s))) [
      | inl q ↦ rw q persist-put
      | inr q ↦
          rw (q, persist_locked-records works (put id r s))
            (insert-ValidRecords hex_digest id (insert id r s.records)
              (insert-ValidRecords hex_digest id s.records v r old h k w) back r
              (rw lookup-insert (rw (text_eq_refl id))) (kb ∙ sym k) wb)
    ]

  module _ (id : Text) where
    pub set_manual-ValidRecords : (b : Bool) → Kept (set_manual works id b s)
    unfolding set_manual
    set_manual-ValidRecords b = elim (Option-cases (lookup id s.records)) [
      | inl e ↦ rw (e, set_manual) v
      | inr (r, e) ↦
          let w = All-lookup_entry hex_digest id r s.records v e in
          rw (e, set_manual) (persist-put id r (record r { manual = b }) e refl (ground arith))
    ]

    pub set_pending_rescan-ValidRecords : (b : Bool) → Kept (set_pending_rescan works id b s)
    unfolding set_pending_rescan
    set_pending_rescan-ValidRecords b = elim (Option-cases (lookup id s.records)) [
      | inl e ↦ rw (e, set_pending_rescan) v
      | inr (r, e) ↦
          let w = All-lookup_entry hex_digest id r s.records v e in
          rw (e, set_pending_rescan)
            (persist-put id r (record r { pending_rescan = b }) e refl (ground arith))
    ]

    pub set_first_sync-ValidRecords : (b : Bool) → Kept (set_first_sync works id b s)
    unfolding set_first_sync
    set_first_sync-ValidRecords b = elim (Option-cases (lookup id s.records)) [
      | inl e ↦ rw (e, set_first_sync) v
      | inr (r, e) ↦
          let w = All-lookup_entry hex_digest id r s.records v e in
          rw (e, set_first_sync)
            (elim (Bool-cases ((r.first_sync && b) || (not r.first_sync && not b))) [
              | inl q ↦ rw q v
              | inr q ↦ rw q (persist-put id r (record r { first_sync = b }) e refl (ground arith))
            ])
    ]

    pub complete_membership-ValidRecords : Kept (complete_membership works id s)
    unfolding complete_membership
    complete_membership-ValidRecords = elim (Option-cases (lookup id s.records)) [
      | inl e ↦ rw (e, complete_membership) v
      | inr (r, e) ↦
          let w = All-lookup_entry hex_digest id r s.records v e in
          rw (e, complete_membership)
            (elim (Bool-cases (is_empty r.pending_membership)) [
              | inl q ↦ rw q v
              | inr q ↦ rw q (
                  undo-put id r (record r { pending_membership = []; pending_device_id = [] }) e
                    refl (ground arith) r refl w)
            ])
    ]

    pub require_first_sync-ValidRecords : Kept (require_first_sync works id s)
    unfolding require_first_sync
    require_first_sync-ValidRecords = elim (Option-cases (lookup id s.records)) [
      | inl e ↦ rw (e, require_first_sync) v
      | inr (r, e) ↦
          let w = All-lookup_entry hex_digest id r s.records v e in
          rw (e, require_first_sync)
            (elim (Bool-cases (r.first_sync_epoch == max_uint64)) [
              | inl q ↦ rw q v
              | inr q ↦ rw q (
                  persist-put id r
                    (record r { first_sync = true; first_sync_epoch = r.first_sync_epoch + 1 }) e
                    refl (ground arith))
            ])
    ]

    pub activate-ValidRecords : Kept (activate works id s)
    unfolding activate
    activate-ValidRecords = elim (Option-cases (lookup id s.records)) [
      | inl e ↦ rw (e, activate) v
      | inr (r, e) ↦
          let w = All-lookup_entry hex_digest id r s.records v e in
          rw (e, activate)
            (elim (Bool-cases r.pending_add) [
              | inl q ↦ rw q (
                  undo-put id r (record r { pending_add = false }) e refl (ground arith)
                    (record r { pending_add = true }) refl (ground arith))
              | inr q ↦ rw q v
            ])
    ]

    pub remove-ValidRecords : Kept (remove works id s)
    unfolding remove
    remove-ValidRecords = elim (Option-cases (lookup id s.records)) [
      | inl e ↦ rw (e, remove) v
      | inr (r, e) ↦
          let t : Store = record s { records = delete id s.records } in
          rw (e, remove)
            (elim (undo-records (put id r) (persist_locked works t)) [
              | inl q ↦
                  rw (q, persist_locked-records works t)
                    (delete-ValidRecords hex_digest id s.records v)
              | inr q ↦
                  rw (q, persist_locked-records works t)
                    (insert-delete-ValidRecords hex_digest id s.records v r e)
            ])
    ]

    pub begin_stop-ValidRecords : Kept (begin_stop works id s)
    unfolding begin_stop
    begin_stop-ValidRecords = elim (Option-cases (lookup id s.records)) [
      | inl e ↦ rw (e, begin_stop) v
      | inr (r, e) ↦
          let w = All-lookup_entry hex_digest id r s.records v e in
          rw (e, begin_stop)
            (elim (Bool-cases (r.pending_add || not (is_empty r.pending_membership))) [
              | inl q ↦ rw q v
              | inr q ↦ rw q (elim (Bool-cases r.pending_stop) [
                | inl p ↦ rw p v
                | inr p ↦ rw p (
                    undo-put id r (record r { pending_stop = true }) e refl (ground arith)
                      (record r { pending_stop = false }) refl (ground arith))
              ])
            ])
    ]

    -- Here the folder must not be stopping: the code does not test for that.
    pub begin_membership-ValidRecords :
        (raw operation : Text)
        → ((r : FolderControlRecord) → lookup id s.records ≡ some r → r.pending_stop ≡ false)
        → Kept (begin_membership works id raw operation s)
    unfolding begin_membership
    begin_membership-ValidRecords raw operation running =
        elim (Option-cases (normalize_device_id raw)) [
          | inl n ↦ rw (n, begin_membership) v
          | inr (device, n) ↦ elim (Option-cases (lookup id s.records)) [
            | inl e ↦
                rw (n, e, begin_membership)
                  (Kept-if (not (is_operation operation)) _ _ (λ _. v) (λ _. v))
            | inr (r, e) ↦
                let w = All-lookup_entry hex_digest id r s.records v e in
                rw (n, e, begin_membership)
                  (Kept-if (not (is_operation operation)) _ _ (λ _. v)
                    λ op.
                      Kept-if r.pending_add _ _ (λ _. v)
                        λ add.
                          Kept-if (not (is_empty r.pending_membership)) _ _
                            (λ _.
                              Kept-if
                                (text_eq r.pending_membership operation
                                  && text_eq r.pending_device_id device)
                                _ _ (λ _. v) (λ _. v))
                            λ free.
                              undo-put id r
                                (record r {
                                  pending_membership = operation;
                                  pending_device_id = device;
                                })
                                e refl
                                (begun id r operation device w (running r e) add (ground arith)
                                  (normalize_device_id_idem raw device n))
                                (record r { pending_membership = []; pending_device_id = [] }) refl
                                (ground arith))
          ]
        ]
