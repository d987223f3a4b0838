-- ===== src/Gateway/Trust.antt =====
-- internal/gateway/trust.go: the browsers that are trusted. A time is a number of nanoseconds; the
-- clock is read by the caller. The mutex makes each method one step.
pub mod Laws
pub mod Revoked
use leaf_syncthing_pak.Base.{
  ℕ, zero, suc, ◌+◌, ◌-◌, ◌*◌, Bool, true, false, not, ◌&&◌, ◌||◌, Option, none, some, List, [],
  ◌∷◌, ◌++◌, length, drop, keep, ltb, leb, ◌==◌, if◌then◌else◌, Text, text_eq, is_empty,
}

abbrev pub seconds : ℕ → ℕ
seconds n = n * 1000000000

abbrev pub max_trust_records : ℕ
max_trust_records = 32

abbrev pub trust_absolute : ℕ
trust_absolute = seconds 2592000

abbrev pub trust_idle : ℕ
trust_idle = seconds 86400

abbrev pub last_used_flush : ℕ
last_used_flush = seconds 300

pub record TrustRecord : Type 0 where
  pub hash : Text
  pub created : ℕ
  pub last_used : ℕ

-- The records in memory, and those of the file.
pub record TrustStore : Type 0 where
  pub records : List TrustRecord
  pub saved : List TrustRecord

-- `stored` says whether `persistLocked` succeeds; its last call replaces the file.
abbrev pub persist_locked : (stored : Bool) → TrustStore → TrustStore
persist_locked stored s = if stored then record s { saved = s.records } else s

-- A difference of times that is negative in Go is 0 here, and passes the same tests.
abbrev pub is_fresh : ℕ → TrustRecord → Bool
is_fresh now r = not (
    ltb trust_absolute (now - r.created) || ltb trust_idle (now - r.last_used) || ltb now r.created)

-- `pruneLocked`: the records kept, and whether some were dropped.
unfoldable pub prune : ℕ → TrustStore → TrustStore × Bool
prune now s =
    let kept = keep (is_fresh now) s.records in
    (record s { records = kept }, not (length kept == length s.records))

-- `Count`.
unfoldable pub count : (stored : Bool) → ℕ → TrustStore → TrustStore × ℕ
unfolding prune
count stored now s =
    let (pruned, changed) = prune now s in
    let s' = if changed then persist_locked stored pruned else pruned in (s', length s'.records)

-- `sort.Slice` by the last use. Go leaves the order of records with the same time open; here they
-- keep the one they had.
unfoldable pub sorted_in : TrustRecord → List TrustRecord → List TrustRecord
sorted_in a [] = a ∷ []
sorted_in a (b ∷ bs) = if ltb b.last_used a.last_used then b ∷ sorted_in a bs else a ∷ b ∷ bs

unfoldable pub sort : List TrustRecord → List TrustRecord
sort [] = []
sort (a ∷ rest) = sorted_in a (sort rest)

-- The newest 32.
abbrev pub trim : List TrustRecord → List TrustRecord
trim rs = drop (length rs - max_trust_records) rs

module _ (hash_of : Text → Text) where
  -- `Issue`: `token` is the encoded secret, absent where the random source fails. The result is
  -- the token, absent on an error.
  unfoldable pub issue :
      (stored : Bool) → ℕ → (token : Option Text) → TrustStore → TrustStore × Option Text
  unfolding prune
  issue stored now none s = ((prune now s).0, none)
  issue stored now (some token) s =
      let pruned = (prune now s).0 in
      let made : TrustRecord = record { hash = hash_of token; created = now; last_used = now } in
      let s' = record pruned { records = trim (sort (pruned.records ++ made ∷ [])) } in
      (persist_locked stored s', if stored then some token else none)

  -- The loop of `Authenticate`: the records after it, whether one fits, and whether its time of
  -- use was written.
  unfoldable pub touch : ℕ → Text → List TrustRecord → List TrustRecord × Bool × Bool
  touch now hash [] = ([], false, false)
  touch now hash (r ∷ rs) =
      let (rest, found, changed) = touch now hash rs in
      let flush = leb last_used_flush (now - r.last_used) in
      if not (text_eq r.hash hash)
      then (r ∷ rest, found, changed)
      else if flush
      then (record r { last_used = now } ∷ rs, true, true)
      else (r ∷ rs, true, false)

  unfoldable pub authenticate : (stored : Bool) → ℕ → Text → TrustStore → TrustStore × Bool
  unfolding prune
  authenticate stored now token s =
      let (pruned, dropped) = prune now s in
      let (rs, found, changed) = touch now (hash_of token) pruned.records in
      let s' = record pruned { records = rs } in
      if is_empty token
      then (s, false)
      else (if dropped || changed then persist_locked stored s' else s', found)

  -- `Revoke`, with its success.
  unfoldable pub revoke : (stored : Bool) → Text → TrustStore → TrustStore × Bool
  revoke stored token s =
      let kept = keep (λ r. not (text_eq r.hash (hash_of token))) s.records in
      (persist_locked stored (record s { records = kept }), stored)

-- `load` at a restart, of a file whose records are sound: those in memory are lost.
unfoldable pub load : ℕ → TrustStore → TrustStore
unfolding prune
load now s = (prune now (record s { records = s.saved })).0

-- `RevokeAll`.
unfoldable pub revoke_all : (stored : Bool) → TrustStore → TrustStore × Bool
revoke_all stored s = (persist_locked stored (record s { records = [] }), stored)
