-- ===== src/Folders/Store/Persist.antt =====
-- What `persistLocked` does, whichever of its calls fail.
use leaf_syncthing_pak.Base.{Bool, true, ◌≡◌, refl, ◌⊎◌, none, arith}
use leaf_syncthing_pak.Folders.Store.{
  Store, document, document_of, Temporary, absent, Call, persist_locked,
}

module _ (works : Call → Bool) where
  kept :
      (t : Temporary) (s : Store)
      → s.temporary ≡ t
      → let s' = (persist_locked works s).0 in
        (s'.records ≡ s.records)
        × (s'.ignored_offers ≡ s.ignored_offers)
        × (s'.pending_device_removal ≡ s.pending_device_removal)
        × ((s'.file ≡ s.file) ⊎ (s'.file ≡ document (document_of s)))
        × ((persist_locked works s).1 ≡ none → s'.file ≡ document (document_of s))
  unfolding persist_locked document_of
  kept t s e = ground arith

  module _ (s : Store) where
    pub persist_locked-records : (persist_locked works s).0.records ≡ s.records
    persist_locked-records = (kept s.temporary s refl).0

    pub persist_locked-ignored_offers : (persist_locked works s).0.ignored_offers ≡ s.ignored_offers
    persist_locked-ignored_offers = (kept s.temporary s refl).1

    pub persist_locked-pending_device_removal :
        (persist_locked works s).0.pending_device_removal ≡ s.pending_device_removal
    persist_locked-pending_device_removal = (kept s.temporary s refl).2

    -- The file is replaced whole or left alone.
    pub persist_locked-file :
        ((persist_locked works s).0.file ≡ s.file)
        ⊎ ((persist_locked works s).0.file ≡ document (document_of s))
    persist_locked-file = (kept s.temporary s refl).3

    pub persist_locked-ok :
        (persist_locked works s).1 ≡ none
        → (persist_locked works s).0.file ≡ document (document_of s)
    persist_locked-ok = (kept s.temporary s refl).4

  -- With no failure, and nothing in the way of the temporary, it succeeds.
  pub persist_locked-works :
      (s : Store)
      → ((c : Call) → works c ≡ true)
      → s.temporary ≡ absent
      → (persist_locked works s).1 ≡ none
  unfolding persist_locked
  persist_locked-works s all e = ground (
    arith,
    all Call.mkdir,
    all Call.lstat,
    all Call.create,
    all Call.write,
    all Call.sync,
    all Call.close,
    all Call.rename,
    all Call.flush,
  )
