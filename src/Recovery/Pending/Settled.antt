-- ===== src/Recovery/Pending/Settled.antt =====
-- After a recovery no record waits for a change of its membership.
use leaf_syncthing_pak.Base.{
  Bool, true, not, ◌≡◌, refl, sym, ap, ◌∙◌, ◌⊎◌, inl, inr, none, some, List, [], ◌∷◌, Bool-cases,
  Option-cases, if◌then◌else◌, arith, Text, codes, text_eq, text_eq_iff, is_empty, member, Dict,
  lookup, insert, lookup-insert,
}
use leaf_syncthing_pak.Folders.Types.{ConfiguredFolder, Card}
use leaf_syncthing_pak.Folders.Store.{FolderControlRecord, Store, Call}
use leaf_syncthing_pak.Folders.Store.Persist.{persist_locked-records}
use leaf_syncthing_pak.Folders.Ops.{complete_membership, put}
use leaf_syncthing_pak.Folders.Rows.{FolderStatus, Lstat}
use leaf_syncthing_pak.Folders.Upstream.{Upstream}
use leaf_syncthing_pak.Recovery.Attempts.{
  next-some, called-some, called-store, stored-some, find_configured_folder, replace_folder,
}
use leaf_syncthing_pak.Recovery.Waiting.{IsSettled, Waits, skipped, snapshot-Waits}
use leaf_syncthing_pak.Recovery.Membership.{folder_with_membership}
use leaf_syncthing_pak.Recovery.Pending.{
  recover_member, recover_members, pause_recovered, pause_all, recover_folder_memberships,
}

-- The record has a change of its membership pending.
abbrev pub changing : FolderControlRecord → Bool
changing r = not (is_empty r.pending_membership)

abbrev cleared : FolderControlRecord → FolderControlRecord
cleared r = record r { pending_membership = []; pending_device_id = [] }

complete_membership-records :
    (works : Call → Bool) (id : Text) (s : Store)
    → (complete_membership works id s).1 ≡ none
    → (r : FolderControlRecord) × ((complete_membership works id s).0.records
        ≡ insert id (cleared r) s.records)
unfolding complete_membership
complete_membership-records works id s done = elim (Option-cases (lookup id s.records)) [
  | inl n ↦ absurd (ground arith)
  | inr (r, e) ↦ (r, ground (arith, persist_locked-records works (put id (cleared r) s)))
]

complete_membership-IsSettled :
    (works : Call → Bool) (id : Text) (s : Store)
    → (complete_membership works id s).1 ≡ none
    → (j : Text) → IsSettled changing s j ⊎ (id ≡ j)
    → IsSettled changing (complete_membership works id s).0 j
complete_membership-IsSettled works id s done j h r e =
    let (r₀, made) = complete_membership-records works id s done in
    let found : (if text_eq id j then some (cleared r₀) else lookup j s.records) ≡ some r =
      sym (lookup-insert j id (cleared r₀) s.records) ∙ (ap (lookup j) (sym made) ∙ e) in
    elim (Bool-cases (text_eq id j)) [
      | inl t ↦ let same : cleared r₀ ≡ r = ground arith in rw (← same) refl
      | inr f ↦ elim h [
        | inl settled ↦ settled r (ground arith)
        | inr same ↦ absurd (ground (arith, text_eq_iff id j))
      ]
    ]

module _ {U : Type 0} (upstream : Upstream U) (works : Text → Call → Bool) (self_id : Text) where
  recover_member-IsSettled :
      (id : Text) (r : FolderControlRecord) (folders : List ConfiguredFolder) (s : Store) (u : U)
      (fs : List ConfiguredFolder) (s' : Store) (u' : U)
      → recover_member upstream works self_id id r folders s u ≡ ((s', u'), some fs)
      → (j : Text) → IsSettled changing s j ⊎ (id ≡ j)
      → IsSettled changing s' j
  unfolding recover_member
  recover_member-IsSettled id r folders s u fs s' u' h j settled =
      elim (Option-cases (find_configured_folder folders id)) [
        | inl n ↦ absurd (ground arith)
        | inr (folder, e) ↦
            elim (Option-cases (
              folder_with_membership folder self_id r.pending_device_id
                (text_eq r.pending_membership (codes "share")))) [
                  | inl n ↦ absurd (ground arith)
                  | inr (g, f) ↦
                      let it = rw (e, f, recover_member) at h in
                      let (t, rest) =
                        called-some (upstream.set_managed_folder_devices g.0 u) s _ s' u' fs it in
                      let (done, end) =
                        stored-some (complete_membership (works id) id s) _ _ s' u' fs rest in
                      let same : (complete_membership (works id) id s).0 ≡ s' =
                        ap (λ p. p.0.0) end in
                      rw (← same) (complete_membership-IsSettled (works id) id s done j settled)
                ]
      ]

  -- The loop settles the folders that wait in the snapshot, and unsettles none.
  recover_members-IsSettled :
      (m : Dict FolderControlRecord) (folders : List ConfiguredFolder) (recovered : List Text)
      (s : Store) (u : U) (end : List ConfiguredFolder × List Text) (s' : Store) (u' : U)
      → recover_members upstream works self_id m folders recovered s u ≡ ((s', u'), some end)
      → (j : Text) → IsSettled changing s j ⊎ Waits changing m j
      → IsSettled changing s' j
  unfolding recover_members
  recover_members-IsSettled [] folders recovered s u end s' u' h j (inl settled) =
      let same : s ≡ s' = ap (λ p. p.0.0) h in rw (← same) settled
  recover_members-IsSettled [] folders recovered s u end s' u' h j (inr waits) = absurd waits
  recover_members-IsSettled ((id, r) ∷ m) folders recovered s u end s' u' h j settled =
      elim (Bool-cases (is_empty r.pending_membership)) [
        | inl e ↦
            recover_members-IsSettled m folders recovered s u end s' u'
              (rw (e, recover_members) at h) j (skipped changing id r m s j (ground arith) settled)
        | inr e ↦
            let (s₁, u₁, fs, first, rest) =
              next-some (recover_member upstream works self_id id r folders s u) _ s' u' end
                (rw (e, recover_members) at h) in
            let before = recover_member-IsSettled id r folders s u fs s₁ u₁ first j in
            recover_members-IsSettled m fs (id ∷ recovered) s₁ u₁ end s' u' rest j (elim settled [
              | inl a ↦ inl (before (inl a))
              | inr (inl (same, w)) ↦ inl (before (inr same))
              | inr (inr w) ↦ inr w
            ])
      ]

  pause_recovered-store :
      (rows : List FolderStatus) (recovered : List Text) (folders : List ConfiguredFolder)
      (s : Store) (u : U)
      → (pause_recovered upstream works self_id rows recovered folders s u).0.0 ≡ s
  unfolding pause_recovered
  pause_recovered-store [] recovered folders s u = refl
  pause_recovered-store (row ∷ rows) recovered folders s u =
      elim (Bool-cases (member row.id recovered)) [
        | inr e ↦ rw (e, pause_recovered) (pause_recovered-store rows recovered folders s u)
        | inl e ↦
            rw (e, pause_recovered)
              (called-store (upstream.set_folder_paused row.id row.paused u) s _ (λ u'.
                pause_recovered-store rows recovered
                  (replace_folder row.id (λ f. record f { paused = row.paused }) folders) s u'))
      ]

  module _ (clean base : Text → Text) (join : List Text → Text) (lstat : Text → Lstat) where
    pause_all-store :
        (inventory : List Card) (end : List ConfiguredFolder × List Text) (s : Store) (u : U)
        → (pause_all upstream works self_id clean base join lstat inventory end s u).0.0 ≡ s
    unfolding pause_all
    pause_all-store inventory (folders, []) s u = refl
    pause_all-store inventory (folders, id ∷ ids) s u =
        pause_recovered-store _ (id ∷ ids) folders s u

    -- After a recovery of the memberships that succeeds no record waits for a change, whatever the
    -- records, the folders and the upstream are, and whichever calls of the writes fail.
    pub recover_folder_memberships-IsSettled :
        (folders : List ConfiguredFolder) (inventory : List Card) (s : Store) (u : U)
        (fs : List ConfiguredFolder) (s' : Store) (u' : U)
        → recover_folder_memberships upstream works self_id clean base join lstat folders inventory
            s u
          ≡ ((s', u'), some fs)
        → (id : Text) (r : FolderControlRecord) → lookup id s'.records ≡ some r
        → is_empty r.pending_membership ≡ true
    unfolding recover_folder_memberships
    recover_folder_memberships-IsSettled folders inventory s u fs s' u' h id r e =
        let (s₁, u₁, end, loop, rest) =
          next-some (recover_members upstream works self_id s.records folders [] s u) _ s' u' fs
            h in
        let same : s₁ ≡ s' = sym (pause_all-store inventory end s₁ u₁) ∙ ap (λ p. p.0.0) rest in
        let settled =
          recover_members-IsSettled s.records folders [] s u end s₁ u₁ loop id
            (snapshot-Waits changing s id) in
        ground (arith, settled r (ap (λ t. lookup id t.records) same ∙ e))
