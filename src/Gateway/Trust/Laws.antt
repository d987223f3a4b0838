-- ===== src/Gateway/Trust/Laws.antt =====
-- What the trust store promises.
use leaf_syncthing_pak.Base.{
  ℕ, zero, suc, ◌+◌, ◌-◌, ◌≤◌, Bool, true, false, ◌≡◌, refl, ◌⊎◌, inl, inr, Option, none, some,
  List, [], ◌∷◌, ◌++◌, length, drop, keep, All, All-keep, length-keep, length-append, Text, text_eq,
  text_eq_iff, text_eq_refl, is_empty, arith, length-drop, Bool-cases,
}
use leaf_syncthing_pak.Gateway.Trust.{
  TrustRecord, TrustStore, max_trust_records, trust_absolute, trust_idle, is_fresh, sorted_in, sort,
  trim, issue, touch, authenticate,
}

-- The record of a token that is in force at a time.
pub record InForce (now : ℕ) (hash : Text) (r : TrustRecord) : Type 0 where
  pub same : r.hash ≡ hash
  pub begun : r.created ≤ now
  pub not_old : now ≤ r.created + trust_absolute
  pub not_idle : now ≤ r.last_used + trust_idle

-- Some record of the list is in force.
abbrev pub Some : (TrustRecord → Type 0) → List TrustRecord → Type 0
Some P [] = ⊥
Some P (r ∷ rs) = P r ⊎ Some P rs

module _ (hash_of : Text → Text) where
  touch-found :
      (now : ℕ) (hash : Text) (rs : List TrustRecord)
      → (touch hash_of now hash (keep (is_fresh now) rs)).1 ≡ true
      → Some (InForce now hash) rs
  unfolding touch
  touch-found now hash [] h = cc
  touch-found now hash (r ∷ rs) h = elim (Bool-cases (is_fresh now r)) [
    | inl e ↦ elim (Bool-cases (text_eq r.hash hash)) [
      | inl t ↦ inl (record {
        same = (text_eq_iff r.hash hash).0 t;
        begun = ground arith;
        not_old = ground arith;
        not_idle = ground arith;
      })
      | inr t ↦ inr (touch-found now hash rs (ground arith))
    ]
    | inr e ↦ inr (touch-found now hash rs (rw (e, keep) at h))
  ]

  -- A token that `Authenticate` accepts is not empty, and a record with its hash was in the store,
  -- created at most thirty days ago and last used at most a day ago.
  pub authenticate-InForce :
      (stored : Bool) (now : ℕ) (token : Text) (s : TrustStore)
      → (authenticate hash_of stored now token s).1 ≡ true
      → (is_empty token ≡ false) × Some (InForce now (hash_of token)) s.records
  unfolding authenticate
  authenticate-InForce stored now token s h =
      (ground arith, touch-found now (hash_of token) s.records (ground arith))

  length-sorted_in :
      (a : TrustRecord) (rs : List TrustRecord) → length (sorted_in a rs) ≡ length rs + 1
  unfolding sorted_in
  length-sorted_in a [] = omega arith
  length-sorted_in a (b ∷ bs) = ground (arith, length-sorted_in a bs)

  length-sort : (rs : List TrustRecord) → length (sort rs) ≡ length rs
  unfolding sort
  length-sort [] = refl
  length-sort (a ∷ rs) = omega (arith, length-sorted_in a (sort rs), length-sort rs)

  length-trim : (rs : List TrustRecord) → length (trim rs) ≤ max_trust_records
  length-trim rs = omega (arith, length-drop (length rs - 32) rs)

  -- A store of at most 32 records has at most 32 after an issue.
  issue-bounded :
      (stored : Bool) (now : ℕ) (token : Option Text) (s : TrustStore)
      → length s.records ≤ max_trust_records
      → length (issue hash_of stored now token s).0.records ≤ max_trust_records
  unfolding issue
  issue-bounded stored now none s h = omega (arith, length-keep (is_fresh now) s.records)
  issue-bounded stored now (some token) s h = ground (
    arith,
    length-trim (
        sort (
          keep (is_fresh now) s.records
          ++ (record { hash = hash_of token; created = now; last_used = now }) ∷ [])),
  )

  abbrev NotLater : ℕ → List TrustRecord → Type 0
  NotLater now rs = All (λ r. r.last_used ≤ now) rs

  sorted_in-last :
      (a m : TrustRecord) (rs : List TrustRecord)
      → a.last_used ≤ m.last_used
      → sorted_in a (rs ++ m ∷ []) ≡ sorted_in a rs ++ m ∷ []
  unfolding sorted_in
  sorted_in-last a m [] h = ground arith
  sorted_in-last a m (b ∷ bs) h = ground (arith, sorted_in-last a m bs)

  sort-last :
      (m : TrustRecord) (rs : List TrustRecord)
      → NotLater m.last_used rs
      → sort (rs ++ m ∷ []) ≡ sort rs ++ m ∷ []
  unfolding sort sorted_in
  sort-last m [] h = refl
  sort-last m (a ∷ rs) h = rw (sort-last m rs h.1) (sorted_in-last a m (sort rs) h.0)

  drop-last :
      (n : ℕ) (m : TrustRecord) (rs : List TrustRecord)
      → n ≤ length rs
      → drop n (rs ++ m ∷ []) ≡ drop n rs ++ m ∷ []
  drop-last zero m rs h = refl
  drop-last (suc n) m [] h = absurd (omega arith)
  drop-last (suc n) m (r ∷ rs) h = drop-last n m rs (omega arith)

  touch-last :
      (now : ℕ) (m : TrustRecord) (rs : List TrustRecord)
      → is_fresh now m ≡ true
      → (touch hash_of now m.hash (keep (is_fresh now) (rs ++ m ∷ []))).1 ≡ true
  unfolding touch
  touch-last now m [] f = ground (arith, text_eq_refl m.hash)
  touch-last now m (r ∷ rs) f = ground (arith, touch-last now m rs)

  -- A browser that was just paired is trusted: a token that was issued is accepted at the same
  -- instant, however full the store was, if it is not empty, its secret was read, and no record
  -- was last used later than now.
  pub authenticate-issue :
      (stored stored' : Bool) (now : ℕ) (token : Text) (s : TrustStore)
      → is_empty token ≡ false
      → NotLater now s.records
      → (authenticate hash_of stored' now token (issue hash_of stored now (some token) s).0).1
        ≡ true
  unfolding authenticate issue
  authenticate-issue stored stored' now token s full h =
      let m : TrustRecord = record { hash = hash_of token; created = now; last_used = now } in
      let rs = keep (is_fresh now) s.records in
      let sorted = sort-last m rs (All-keep (λ r. r.last_used ≤ now) (is_fresh now) s.records h) in
      let kept : trim (sort (rs ++ m ∷ []))
          ≡ drop (length (sort (rs ++ m ∷ [])) - 32) (sort rs) ++ m ∷ [] =
        rw sorted (
          drop-last (length (sort rs ++ m ∷ []) - 32) m (sort rs)
            (omega (arith, length-append (sort rs) (m ∷ [])))) in
      ground (arith, kept, touch-last now m (drop (length (sort (rs ++ m ∷ [])) - 32) (sort rs)))
