-- ===== src/Recovery/Membership/Laws.antt =====
-- Who is in a folder after its membership was changed, and that the change can be made again.
use leaf_syncthing_pak.Base.{
  Bool, true, false, not, ◌≡◌, refl, ap, ◌∙◌, inl, inr, some, List, [], ◌∷◌, keep, any, All,
  All-keep, arith, Option-cases, if◌then◌else◌, Text, text_eq, text_eq_iff, text_eq_refl, sort,
  member, sort-IsSorted, sort_sorted, member-sort, All-sort,
}
use mathlib.Core.Path.{subst}
use leaf_syncthing_pak.Folders.Types.{ConfiguredFolder}
use leaf_syncthing_pak.Folders.Device.{normalize_device_id}
use leaf_syncthing_pak.Folders.Device.Canonical.{normalize_device_id_idem}
use leaf_syncthing_pak.Recovery.Membership.{
  gather, with_peer, differs, members_changed, folder_with_membership,
}
use leaf_syncthing_pak.Recovery.Membership.Gathered.{
  IsNormal, stands_for, member-keep, member-with_peer, keep_all, IsDistinct-keep, IsDistinct-sort,
  IsDistinct-with_peer, All-with_peer, gather-Gathered, All-IsUnseen_nil, gather_again,
}

-- The steps of a membership change that succeeds.
record Changed (folder g : ConfiguredFolder) (self_id peer_id : Text) (present changed : Bool)
    : Type 0 where
  self : Text
  peer : Text
  members : List Text
  self_normal : normalize_device_id self_id ≡ some self
  peer_normal : normalize_device_id peer_id ≡ some peer
  gathered : gather [] folder.devices ≡ some members
  apart : text_eq peer self ≡ false
  inside : member self members ≡ true
  result : members_changed folder self peer present members ≡ (g, changed)

folder_with_membership-Changed :
    (folder g : ConfiguredFolder) (self_id peer_id : Text) (present changed : Bool)
    → folder_with_membership folder self_id peer_id present ≡ some (g, changed)
    → Changed folder g self_id peer_id present changed
unfolding folder_with_membership
folder_with_membership-Changed folder g self_id peer_id present changed h =
    elim (Option-cases (normalize_device_id self_id)) [
      | inl n ↦ absurd (ground arith)
      | inr (self, s) ↦ elim (Option-cases (normalize_device_id peer_id)) [
        | inl n ↦ absurd (ground arith)
        | inr (peer, p) ↦ elim (Option-cases (gather [] folder.devices)) [
          | inl n ↦ absurd (ground arith)
          | inr (members, m) ↦ record {
            self = self;
            peer = peer;
            members = members;
            self_normal = s;
            peer_normal = p;
            gathered = m;
            apart = ground arith;
            inside = ground arith;
            result = ground arith;
          }
        ]
      ]
    ]

member-members_changed :
    (folder : ConfiguredFolder) (self peer : Text) (present : Bool) (members : List Text) (d : Text)
    → text_eq peer self ≡ false
    → member self members ≡ true
    → member d (members_changed folder self peer present members).0.devices
      ≡ (if text_eq d peer then present else member d members)
member-members_changed folder self peer present members d apart inside =
    let kept = with_peer peer present members in
    ground (
      arith,
      member-sort d (keep (λ e. not (text_eq e self)) kept),
      member-keep self d kept,
      member-with_peer peer d present members,
      text_eq_iff d self,
      text_eq_iff d peer,
      text_eq_iff peer self,
    )

-- After a membership change the peer is in the folder exactly where it was to be, this device is in
-- it, and every other device is in it exactly where it was in it before.
pub folder_with_membership-member :
    (folder g : ConfiguredFolder) (self_id peer_id : Text) (present changed : Bool)
    → folder_with_membership folder self_id peer_id present ≡ some (g, changed)
    → (self peer : Text) → normalize_device_id self_id ≡ some self
    → normalize_device_id peer_id ≡ some peer
    → (d : Text)
    → (member self g.devices ≡ true)
      × (member d g.devices
          ≡ (if text_eq d peer then present else any (stands_for d) folder.devices))
folder_with_membership-member folder g self_id peer_id present changed h self peer s p d =
    let c = folder_with_membership-Changed folder g self_id peer_id present changed h in
    let same_self : c.self ≡ self = ground (arith, c.self_normal) in
    let same_peer : c.peer ≡ peer = ground (arith, c.peer_normal) in
    let it = member-members_changed folder c.self c.peer present c.members d c.apart c.inside in
    let same = gather-Gathered [] folder.devices c.members c.gathered in
    let made : (members_changed folder c.self c.peer present c.members).0 ≡ g =
      ap (λ r. r.0) c.result in
    subst
      (λ f.
        (member self f.devices ≡ true)
        × (member d f.devices
            ≡ (if text_eq d peer then present else any (stands_for d) folder.devices)))
      made
      (rw (← same_self, ← same_peer) (ground (arith, text_eq_refl c.self), rw (← same.same d) it))

with_peer_settled :
    (peer : Text) (present : Bool) (xs : List Text)
    → member peer xs ≡ present
    → with_peer peer present xs ≡ xs
unfolding with_peer
with_peer_settled peer true xs h = rw h refl
with_peer_settled peer false xs h = keep_all peer xs h

differs_same : (b : Bool) → differs b b ≡ false
differs_same true = refl
differs_same false = refl

-- The devices of a change, without this one.
abbrev peers_of : (self peer : Text) → Bool → List Text → List Text
peers_of self peer present members =
    sort (keep (λ d. not (text_eq d self)) (with_peer peer present members))

self_outside :
    (self peer : Text) (present : Bool) (members : List Text)
    → member self (peers_of self peer present members) ≡ false
self_outside self peer present members =
    let kept = with_peer peer present members in
    ground (
      arith,
      member-sort self (keep (λ e. not (text_eq e self)) kept),
      member-keep self self kept,
      text_eq_refl self,
    )

keep_rest :
    (s : Text) (xs : List Text) → member s xs ≡ false → keep (λ d. not (text_eq d s)) (s ∷ xs) ≡ xs
keep_rest s xs h = rw (text_eq_refl s, keep) (keep_all s xs h)

changed_again :
    (folder : ConfiguredFolder) (self peer : Text) (present : Bool) (members : List Text)
    → text_eq peer self ≡ false
    → member self members ≡ true
    → let g = (members_changed folder self peer present members).0 in
      members_changed g self peer present g.devices ≡ (g, false)
changed_again folder self peer present members apart inside =
    let kept = keep (λ d. not (text_eq d self)) (with_peer peer present members) in
    let there =
      member-members_changed folder self peer present members peer apart inside
      ∙ rw (text_eq_refl peer) refl in
    let settled = with_peer_settled peer present (self ∷ sort kept) there in
    let only = keep_rest self (sort kept) (self_outside self peer present members) in
    let devices : sort
          (keep (λ d. not (text_eq d self)) (with_peer peer present (self ∷ sort kept)))
        ≡ sort kept =
      ap (λ xs. sort (keep (λ d. not (text_eq d self)) xs)) settled
      ∙ (ap sort only ∙ sort_sorted (sort kept) (sort-IsSorted kept)) in
    rw (devices, there, differs_same present) refl

gather_changed :
    (self peer : Text) (present : Bool) (members raws : List Text)
    → IsNormal self
    → IsNormal peer
    → gather [] raws ≡ some members
    → gather [] (self ∷ peers_of self peer present members)
      ≡ some (self ∷ peers_of self peer present members)
gather_changed self peer present members raws s p e =
    let got = gather-Gathered [] raws members e in
    let kept = keep (λ d. not (text_eq d self)) (with_peer peer present members) in
    let normal : All IsNormal kept =
      All-keep IsNormal _ _ (All-with_peer peer present members p got.normal) in
    let distinct =
      IsDistinct-keep self _ (IsDistinct-with_peer peer present members got.distinct) in
    gather_again [] (self ∷ sort kept) (s, All-sort IsNormal kept normal)
      (self_outside self peer present members, IsDistinct-sort kept distinct)
      (All-IsUnseen_nil (self ∷ sort kept))

again_changed :
    (folder : ConfiguredFolder) (self_id peer_id self peer : Text) (present : Bool)
    (members : List Text)
    → normalize_device_id self_id ≡ some self
    → normalize_device_id peer_id ≡ some peer
    → gather [] folder.devices ≡ some members
    → text_eq peer self ≡ false
    → member self members ≡ true
    → let g = (members_changed folder self peer present members).0 in
      folder_with_membership g self_id peer_id present ≡ some (g, false)
unfolding folder_with_membership
again_changed folder self_id peer_id self peer present members s p e apart inside =
    let again =
      gather_changed self peer present members folder.devices
        (normalize_device_id_idem self_id self s) (normalize_device_id_idem peer_id peer p) e in
    let stays = changed_again folder self peer present members apart inside in
    rw (s, p, again, apart, text_eq_refl self, folder_with_membership) (ap some (rw apart at stays))

-- The same change of its result changes nothing, so that it can be made again after a crash.
folder_with_membership_idem :
    (folder g : ConfiguredFolder) (self_id peer_id : Text) (present changed : Bool)
    → folder_with_membership folder self_id peer_id present ≡ some (g, changed)
    → folder_with_membership g self_id peer_id present ≡ some (g, false)
folder_with_membership_idem folder g self_id peer_id present changed h =
    let c = folder_with_membership-Changed folder g self_id peer_id present changed h in
    subst (λ f. folder_with_membership f self_id peer_id present ≡ some (f, false))
      (ap (λ r. r.0) c.result)
      (again_changed folder self_id peer_id c.self c.peer present c.members c.self_normal
        c.peer_normal c.gathered c.apart c.inside)
