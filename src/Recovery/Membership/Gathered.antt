-- ===== src/Recovery/Membership/Gathered.antt =====
-- The lists of devices that a membership change works on: distinct, normalised ids.
use leaf_syncthing_pak.Base.{
  Bool, true, false, not, ◌&&◌, ◌≡◌, refl, ◌∙◌, inl, inr, none, some, List, [], ◌∷◌, keep, any, All,
  All-keep, arith, Bool-cases, Option-cases, if◌then◌else◌, Text, text_eq, text_eq_iff, text_lt,
  place, member-place, sort, member, member-sort,
}
use leaf_syncthing_pak.Folders.Device.{normalize_device_id}
use leaf_syncthing_pak.Folders.Device.Canonical.{normalize_device_id_idem}
use leaf_syncthing_pak.Recovery.Membership.{gather, with_peer}

abbrev pub IsDistinct : List Text → Type 0
IsDistinct [] = Unit
IsDistinct (x ∷ xs) = (member x xs ≡ false) × IsDistinct xs

abbrev pub IsNormal : Text → Type 0
IsNormal d = normalize_device_id d ≡ some d

abbrev pub IsUnseen : List Text → Text → Type 0
IsUnseen seen d = member d seen ≡ false

-- What an id is to a list that is not normalised.
abbrev pub stands_for : Text → Text → Bool
stands_for d raw = elim (normalize_device_id raw) [ none ↦ false | some e ↦ text_eq d e ]

pub member-keep :
    (s d : Text) (xs : List Text)
    → member d (keep (λ e. not (text_eq e s)) xs) ≡ (not (text_eq d s) && member d xs)
member-keep s d [] = ground arith
member-keep s d (x ∷ xs) =
    ground (arith, member-keep s d xs, text_eq_iff d x, text_eq_iff d s, text_eq_iff x s)

pub member-with_peer :
    (peer d : Text) (present : Bool) (xs : List Text)
    → member d (with_peer peer present xs) ≡ (if text_eq d peer then present else member d xs)
unfolding with_peer
member-with_peer peer d true xs = ground (arith, text_eq_iff d peer)
member-with_peer peer d false xs = ground (arith, member-keep peer d xs)

pub keep_all :
    (s : Text) (xs : List Text) → member s xs ≡ false → keep (λ e. not (text_eq e s)) xs ≡ xs
keep_all s [] h = refl
keep_all s (x ∷ xs) h = ground (arith, keep_all s xs, text_eq_iff s x, text_eq_iff x s)

pub IsDistinct-keep :
    (s : Text) (xs : List Text) → IsDistinct xs → IsDistinct (keep (λ e. not (text_eq e s)) xs)
IsDistinct-keep s [] h = tt
IsDistinct-keep s (x ∷ xs) h = elim (Bool-cases (text_eq x s)) [
  | inl e ↦ rw (e, IsDistinct) (IsDistinct-keep s xs h.1)
  | inr e ↦ rw (e, IsDistinct) (ground (arith, member-keep s x xs), IsDistinct-keep s xs h.1)
]

pub IsDistinct-place :
    (x : Text) (xs : List Text) → member x xs ≡ false → IsDistinct xs → IsDistinct (place x xs)
unfolding place
IsDistinct-place x [] m h = (refl, tt)
IsDistinct-place x (y ∷ ys) m h = elim (Bool-cases (text_lt y x)) [
  | inl e ↦
      rw (e, IsDistinct)
        (
          member-place y x ys ∙ ground (arith, text_eq_iff x y, text_eq_iff y x),
          IsDistinct-place x ys (ground arith) h.1,
        )
  | inr e ↦ rw (e, IsDistinct) (m, h)
]

pub IsDistinct-sort : (xs : List Text) → IsDistinct xs → IsDistinct (sort xs)
unfolding sort
IsDistinct-sort [] h = tt
IsDistinct-sort (x ∷ xs) h =
    IsDistinct-place x (sort xs) (member-sort x xs ∙ h.0) (IsDistinct-sort xs h.1)

pub IsDistinct-with_peer :
    (peer : Text) (present : Bool) (xs : List Text)
    → IsDistinct xs
    → IsDistinct (with_peer peer present xs)
unfolding with_peer
IsDistinct-with_peer peer true xs h = elim (Bool-cases (member peer xs)) [
  | inl e ↦ rw e h
  | inr e ↦ rw e (e, h)
]
IsDistinct-with_peer peer false xs h = IsDistinct-keep peer xs h

pub All-with_peer :
    (peer : Text) (present : Bool) (xs : List Text)
    → IsNormal peer
    → All IsNormal xs
    → All IsNormal (with_peer peer present xs)
unfolding with_peer
All-with_peer peer true xs n h = elim (Bool-cases (member peer xs)) [
  | inl e ↦ rw e h
  | inr e ↦ rw e (n, h)
]
All-with_peer peer false xs n h = All-keep IsNormal _ xs h

-- What the loop gathers.
pub record Gathered (seen raws ds : List Text) : Type 0 where
  pub normal : All IsNormal ds
  pub distinct : IsDistinct ds
  pub unseen : All (IsUnseen seen) ds
  pub same : (d : Text) → member d ds ≡ any (stands_for d) raws

pub All-IsUnseen_tail :
    (d : Text) (seen ds : List Text)
    → All (IsUnseen (d ∷ seen)) ds
    → (member d ds ≡ false) × All (IsUnseen seen) ds
All-IsUnseen_tail d seen [] h = (refl, tt)
All-IsUnseen_tail d seen (e ∷ ds) h =
    let (m, rest) = All-IsUnseen_tail d seen ds h.1 in
    (ground (arith, text_eq_iff d e, text_eq_iff e d), (ground arith, rest))

pub gather-Gathered :
    (seen raws ds : List Text) → gather seen raws ≡ some ds → Gathered seen raws ds
unfolding gather
gather-Gathered seen [] ds h =
    let none_left : [] ≡ ds = ground arith in
    rw (← none_left) (record { normal = tt; distinct = tt; unseen = tt; same = λ d. refl })
gather-Gathered seen (raw ∷ raws) ds h = elim (Option-cases (normalize_device_id raw)) [
  | inl n ↦ absurd (ground arith)
  | inr (d, e) ↦ elim (Bool-cases (member d seen)) [
    | inl m ↦ absurd (ground arith)
    | inr m ↦ elim (Option-cases (gather (d ∷ seen) raws)) [
      | inl n ↦ absurd (ground arith)
      | inr (rest, f) ↦
          let is : d ∷ rest ≡ ds = ground arith in
          let g = gather-Gathered (d ∷ seen) raws rest f in
          let (fresh, unseen) = All-IsUnseen_tail d seen rest g.unseen in
          rw (← is) (record {
            normal = (normalize_device_id_idem raw d e, g.normal);
            distinct = (fresh, g.distinct);
            unseen = (m, unseen);
            same = λ c. rw (e, stands_for) (ground (arith, g.same c));
          })
    ]
  ]
]

pub IsUnseen-cons :
    (d : Text) (seen ds : List Text)
    → member d ds ≡ false
    → All (IsUnseen seen) ds
    → All (IsUnseen (d ∷ seen)) ds
IsUnseen-cons d seen [] m h = tt
IsUnseen-cons d seen (e ∷ ds) m h =
    (ground (arith, text_eq_iff d e, text_eq_iff e d), IsUnseen-cons d seen ds (ground arith) h.1)

pub All-IsUnseen_nil : (ds : List Text) → All (IsUnseen []) ds
All-IsUnseen_nil [] = tt
All-IsUnseen_nil (d ∷ ds) = (refl, All-IsUnseen_nil ds)

-- Normalised, distinct ids are gathered as they are.
pub gather_again :
    (seen ds : List Text)
    → All IsNormal ds
    → IsDistinct ds
    → All (IsUnseen seen) ds
    → gather seen ds ≡ some ds
unfolding gather
gather_again seen [] n d u = refl
gather_again seen (x ∷ xs) n d u =
    rw (n.0, u.0, gather_again (x ∷ seen) xs n.1 d.1 (IsUnseen-cons x seen xs d.0 u.1), gather) refl
