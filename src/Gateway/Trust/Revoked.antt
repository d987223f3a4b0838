-- ===== src/Gateway/Trust/Revoked.antt =====
-- A token that was revoked, whatever the trust store does after it.
use leaf_syncthing_pak.Base.{
  ℕ, zero, suc, Bool, true, false, not, ◌≡◌, refl, ◌⊎◌, inl, inr, Option, none, some, List, [], ◌∷◌,
  ◌++◌, drop, keep, any, ◌-◌, All, All-keep, Text, text_eq, arith, Bool-cases, leb, ltb, is_empty,
  if◌then◌else◌,
}
use leaf_syncthing_pak.Gateway.Trust.{
  TrustRecord, TrustStore, persist_locked, is_fresh, prune, count, sorted_in, sort, trim, issue,
  touch, authenticate, revoke, load, revoke_all, last_used_flush,
}

-- The operations of the store, with their arguments, and a restart of the program at a time.
pub data Step : Type 0 where
  counted : (stored : Bool) → ℕ → Step
  issued : (stored : Bool) → ℕ → Option Text → Step
  tried : (stored : Bool) → ℕ → Text → Step
  revoked : (stored : Bool) → Text → Step
  all_revoked : (stored : Bool) → Step
  restarted : ℕ → Step

abbrev pub is_restart : Step → Bool
is_restart (restarted now) = true
is_restart _ = false

module _ (hash_of : Text → Text) where
  abbrev pub take_step : Step → TrustStore → TrustStore
  take_step (counted stored now) s = (count stored now s).0
  take_step (issued stored now token) s = (issue hash_of stored now token s).0
  take_step (tried stored now token) s = (authenticate hash_of stored now token s).0
  take_step (revoked stored token) s = (revoke hash_of stored token s).0
  take_step (all_revoked stored) s = (revoke_all stored s).0
  take_step (restarted now) s = load now s

  abbrev pub take_steps : List Step → TrustStore → TrustStore
  take_steps [] s = s
  take_steps (step ∷ steps) s = take_steps steps (take_step step s)

  -- The step does not issue a token of the hash.
  abbrev pub Spares : Text → Step → Type 0
  Spares hash (issued stored now (some token)) = text_eq (hash_of token) hash ≡ false
  Spares hash _ = Unit

  module _ (hash : Text) where
    abbrev Lacks : TrustRecord → Type 0
    Lacks r = text_eq r.hash hash ≡ false

    keep-Lacks : (rs : List TrustRecord) → All Lacks (keep (λ r. not (text_eq r.hash hash)) rs)
    keep-Lacks [] = tt
    keep-Lacks (r ∷ rs) = elim (Bool-cases (text_eq r.hash hash)) [
      | inl e ↦ rw (e, keep, All) (keep-Lacks rs)
      | inr e ↦ rw (e, keep, All) (e, keep-Lacks rs)
    ]

    touch-Lacks :
        (now : ℕ) (k : Text) (rs : List TrustRecord)
        → All Lacks rs
        → All Lacks (touch hash_of now k rs).0
    unfolding touch
    touch-Lacks now k [] h = tt
    touch-Lacks now k (r ∷ rs) (l, h) = elim (Bool-cases (text_eq r.hash k)) [
      | inl e ↦ elim (Bool-cases (leb last_used_flush (now - r.last_used))) [
        | inl f ↦ rw (e, f, All) (l, h)
        | inr f ↦ rw (e, f, All) (l, h)
      ]
      | inr e ↦ rw (e, All) (l, touch-Lacks now k rs h)
    ]

    touch-refused :
        (now : ℕ) (rs : List TrustRecord) → All Lacks rs → (touch hash_of now hash rs).1 ≡ false
    unfolding touch
    touch-refused now [] h = refl
    touch-refused now (r ∷ rs) (l, h) = ground (arith, touch-refused now rs h)

    sorted_in-Lacks :
        (a : TrustRecord) (rs : List TrustRecord)
        → Lacks a
        → All Lacks rs
        → All Lacks (sorted_in a rs)
    unfolding sorted_in
    sorted_in-Lacks a [] l h = (l, tt)
    sorted_in-Lacks a (b ∷ bs) l (k, h) = elim (Bool-cases (ltb b.last_used a.last_used)) [
      | inl e ↦ rw (e, All) (k, sorted_in-Lacks a bs l h)
      | inr e ↦ rw (e, All) (l, (k, h))
    ]

    sort-Lacks : (rs : List TrustRecord) → All Lacks rs → All Lacks (sort rs)
    unfolding sort
    sort-Lacks [] h = tt
    sort-Lacks (a ∷ rs) (l, h) = sorted_in-Lacks a (sort rs) l (sort-Lacks rs h)

    drop-Lacks : (n : ℕ) (rs : List TrustRecord) → All Lacks rs → All Lacks (drop n rs)
    drop-Lacks zero rs h = h
    drop-Lacks (suc n) [] h = tt
    drop-Lacks (suc n) (r ∷ rs) h = drop-Lacks n rs h.1

    append-Lacks :
        (rs : List TrustRecord) (r : TrustRecord)
        → All Lacks rs
        → Lacks r
        → All Lacks (rs ++ r ∷ [])
    append-Lacks [] r h l = (l, tt)
    append-Lacks (a ∷ rs) r (k, h) l = (k, append-Lacks rs r h l)

    -- The records lack the hash, and if the revocation was stored so do those of the file.
    Clear : Bool → TrustStore → Type 0
    Clear stored s = All Lacks s.records × ((stored ≡ false) ⊎ All Lacks s.saved)

    stored-Clear :
        (kept stored : Bool) (rs : List TrustRecord) (s : TrustStore)
        → All Lacks rs
        → (kept ≡ false) ⊎ All Lacks s.saved
        → Clear kept (persist_locked stored (record s { records = rs }))
    unfolding Clear
    stored-Clear kept true rs s h f = (h, inr h)
    stored-Clear kept false rs s h f = (h, f)

    prune-Lacks :
        (now : ℕ) (s : TrustStore) → All Lacks s.records → All Lacks (prune now s).0.records
    unfolding prune
    prune-Lacks now s h = All-keep Lacks (is_fresh now) s.records h

    touched-Clear :
        (kept stored written : Bool) (rs : List TrustRecord) (s : TrustStore)
        → All Lacks rs
        → (kept ≡ false) ⊎ All Lacks s.saved
        → Clear kept (
            if written
            then persist_locked stored (record s { records = rs })
            else record s { records = rs })
    unfolding Clear
    touched-Clear kept stored true rs s h f = stored-Clear kept stored rs s h f
    touched-Clear kept stored false rs s h f = (h, f)

    authenticated-Clear :
        (kept stored : Bool) (now : ℕ) (token : Text) (s : TrustStore)
        → Clear kept s
        → Clear kept (authenticate hash_of stored now token s).0
    unfolding Clear authenticate prune
    authenticated-Clear kept stored now token s (h, f) = elim (Bool-cases (is_empty token)) [
      | inl e ↦ rw e (h, f)
      | inr e ↦ rw e (
          touched-Clear kept stored _ (touch hash_of now (hash_of token) (prune now s).0.records).0
            s (touch-Lacks now (hash_of token) (prune now s).0.records (prune-Lacks now s h)) f)
    ]

    restart-Clear :
        (kept : Bool) (now : ℕ) (s : TrustStore)
        → (kept ≡ true) ⊎ (true ≡ false)
        → Clear kept s
        → Clear kept (load now s)
    unfolding Clear load prune
    restart-Clear kept now s r (h, inl e) =
        absurd (elim r [ inl k ↦ ground arith | inr k ↦ ground arith ])
    restart-Clear kept now s r (h, inr g) = (All-keep Lacks (is_fresh now) s.saved g, inr g)

    take_step-Clear :
        (kept : Bool) (step : Step) (s : TrustStore)
        → Spares hash step
        → (kept ≡ true) ⊎ (is_restart step ≡ false)
        → Clear kept s
        → Clear kept (take_step step s)
    unfolding Clear count issue revoke revoke_all prune
    take_step-Clear kept (counted stored now) s p r (h, f) =
        touched-Clear kept stored _ (prune now s).0.records s (prune-Lacks now s h) f
    take_step-Clear kept (issued stored now none) s p r (h, f) = (prune-Lacks now s h, f)
    take_step-Clear kept (issued stored now (some token)) s p r (h, f) =
        let made : TrustRecord = record { hash = hash_of token; created = now; last_used = now } in
        let rs = (prune now s).0.records ++ made ∷ [] in
        stored-Clear kept stored (trim (sort rs)) s
          (drop-Lacks _ (sort rs)
            (sort-Lacks rs (append-Lacks (prune now s).0.records made (prune-Lacks now s h) p)))
          f
    take_step-Clear kept (tried stored now token) s p r c =
        authenticated-Clear kept stored now token s c
    take_step-Clear kept (revoked stored token) s p r (h, f) =
        stored-Clear kept stored _ s (All-keep Lacks _ s.records h) f
    take_step-Clear kept (all_revoked stored) s p r (h, f) = stored-Clear kept stored [] s tt f
    take_step-Clear kept (restarted now) s p r c = restart-Clear kept now s r c

    take_steps-Clear :
        (kept : Bool) (steps : List Step) (s : TrustStore)
        → All (Spares hash) steps
        → (kept ≡ true) ⊎ (any is_restart steps ≡ false)
        → Clear kept s
        → Clear kept (take_steps steps s)
    take_steps-Clear kept [] s p r c = c
    take_steps-Clear kept (step ∷ steps) s (p, ps) r c =
        take_steps-Clear kept steps (take_step step s) ps
          (elim r [ inl k ↦ inl k | inr n ↦ inr (ground arith) ])
          (take_step-Clear kept step s p (elim r [ inl k ↦ inl k | inr n ↦ inr (ground arith) ]) c)

  revoke-Clear :
      (stored : Bool) (token : Text) (s : TrustStore)
      → Clear (hash_of token) stored (revoke hash_of stored token s).0
  unfolding Clear revoke
  revoke-Clear true token s = let c = keep-Lacks (hash_of token) s.records in (c, inr c)
  revoke-Clear false token s = (keep-Lacks (hash_of token) s.records, inl refl)

  -- A revoked token is refused at any later time, whatever operations of the store and restarts of the program
  -- follow, with the token or others, if none of them issues a token of the same hash. The
  -- revocation was written to the file, or no restart is among them.
  pub authenticate-revoke :
      (stored stored' : Bool) (now : ℕ) (token : Text) (s : TrustStore) (steps : List Step)
      → All (Spares (hash_of token)) steps
      → (stored ≡ true) ⊎ (any is_restart steps ≡ false)
      → (authenticate hash_of stored' now token
          (take_steps steps (revoke hash_of stored token s).0)).1
        ≡ false
  unfolding authenticate prune Clear
  authenticate-revoke stored stored' now token s steps p r =
      let hash = hash_of token in
      let after = take_steps steps (revoke hash_of stored token s).0 in
      let clear =
        take_steps-Clear hash stored steps (revoke hash_of stored token s).0 p r
          (revoke-Clear stored token s) in
      ground (
        arith,
        touch-refused hash now (prune now after).0.records (prune-Lacks hash now after clear.0),
      )
