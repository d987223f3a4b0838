-- ===== src/Onboarding/Create/Refused.antt =====
-- A creation that fails leaves no new record active.
use leaf_syncthing_pak.Base.{
  ℕ, Bool, true, false, ◌≡◌, ap, ◌∙◌, inl, inr, none, some, List, Option-cases, arith, Text,
  text_eq_iff, lookup, insert, delete, lookup-insert, lookup-delete,
}
use leaf_syncthing_pak.Folders.Types.{Source, ConfiguredFolder, Card}
use leaf_syncthing_pak.Folders.Store.{FolderControlRecord, Store, Call, StoreErr}
use leaf_syncthing_pak.Folders.Store.Persist.{persist_locked-records}
use leaf_syncthing_pak.Folders.Ops.{new_folder_control_record, add, remove, activate, put}
use leaf_syncthing_pak.Folders.Rows.{Lstat}
use leaf_syncthing_pak.Folders.Upstream.{Upstream}
use leaf_syncthing_pak.Onboarding.Plans.{OnboardingPlan, expire, onboarding_card}
use leaf_syncthing_pak.Onboarding.Create.{
  World, Phase, Surveys, folder_of, reviewed, add_folder, create_reviewed, create,
}

-- The folder has no record, or one whose addition is not finished.
abbrev IsQuiet : Text → Store → Type 0
IsQuiet j s = (r : FolderControlRecord) → lookup j s.records ≡ some r → r.pending_add ≡ true

add-IsQuiet :
    (works : Call → Bool) (hex_digest : Text → Text) (folder : ConfiguredFolder) (card : Card)
    (s : Store) (j : Text)
    → IsQuiet j s
    → IsQuiet j (add works hex_digest folder card true s).0
unfolding add
add-IsQuiet works hex_digest folder card s j q r e =
    let new = record (new_folder_control_record hex_digest folder card).0 { pending_add = true } in
    ground (
      arith,
      persist_locked-records works (put folder.id new s),
      q r,
      lookup-insert j folder.id new s.records,
      lookup-delete j folder.id (insert folder.id new s.records),
    )

remove-IsQuiet :
    (works : Call → Bool) (id : Text) (s : Store) (j : Text)
    → IsQuiet j s
    → IsQuiet j (remove works id s).0
unfolding remove
remove-IsQuiet works id s j q r e = elim (Option-cases (lookup id s.records)) [
  | inl n ↦ q r (rw (n, remove) at e)
  | inr (r₀, f) ↦ ground (
    arith,
    f,
    persist_locked-records works (record s { records = delete id s.records }),
    q r,
    q r₀,
    lookup-delete j id s.records,
    lookup-insert j id r₀ (delete id s.records),
    text_eq_iff id j,
  )
]

activate-IsQuiet :
    (works : Call → Bool) (id : Text) (s : Store) (j : Text) (x : StoreErr)
    → (activate works id s).1 ≡ some x
    → IsQuiet j s
    → IsQuiet j (activate works id s).0
unfolding activate
activate-IsQuiet works id s j x h q r e = elim (Option-cases (lookup id s.records)) [
  | inl n ↦ q r (rw (n, activate) at e)
  | inr (r₀, f) ↦
      let new = record r₀ { pending_add = false } in
      let back = record r₀ { pending_add = true } in
      ground (
        arith,
        f,
        persist_locked-records works (put id new s),
        q r,
        q r₀,
        lookup-insert j id new s.records,
        lookup-insert j id back (insert id new s.records),
        text_eq_iff id j,
      )
]

module _ {U : Type 0} (upstream : Upstream U) (hex_digest : Text → Text)
    (works : Phase → Call → Bool) (clean base : Text → Text) (join : List Text → Text)
    (lstat : Text → Lstat) (confined : Text → Text → Bool) (root_of : Source → Text) (reserve : ℕ)
    (surveys : Surveys) where
  add_folder-IsQuiet :
      (plan_id : Text) (folder : ConfiguredFolder) (card : Card) (w : World U) (j : Text)
      → let out =
          add_folder upstream hex_digest works clean base join lstat confined root_of reserve
            surveys plan_id folder card w in
        out.1 ≡ none → IsQuiet j w.store → IsQuiet j out.0.store
  unfolding add_folder
  add_folder-IsQuiet plan_id folder card w j h q r e =
      let s = (add (works Phase.adding) hex_digest folder card true w.store).0 in
      let added = add-IsQuiet (works Phase.adding) hex_digest folder card w.store j q in
      let removed = remove-IsQuiet (works Phase.removing) folder.id s j added in
      elim (Option-cases (activate (works Phase.activating) folder.id s).1) [
        | inl n ↦ ground (arith, added r, removed r)
        | inr (x, f) ↦
            let active = activate-IsQuiet (works Phase.activating) folder.id s j x f added in
            ground (arith, added r, removed r, active r)
      ]

  create_reviewed-IsQuiet :
      (plan_id : Text) (plan : OnboardingPlan) (card : Card) (devices : List Text) (w : World U)
      (j : Text)
      → let out =
          create_reviewed upstream hex_digest works clean base join lstat confined root_of reserve
            surveys plan_id plan card devices w in
        out.1 ≡ none → IsQuiet j w.store → IsQuiet j out.0.store
  unfolding create_reviewed
  create_reviewed-IsQuiet plan_id plan card devices w j h q r e =
      let out =
        add_folder upstream hex_digest works clean base join lstat confined root_of reserve surveys
          plan_id (folder_of plan devices) card w in
      let it : out.1 ≡ none → lookup j out.0.store.records ≡ some r → r.pending_add ≡ true =
        λ n m. add_folder-IsQuiet plan_id (folder_of plan devices) card w j n q r m in
      ground (arith, q r, it)

  -- Where `Create` fails, a folder that had no control record has none, or one whose addition is not
  -- finished, whichever calls fail and whatever the upstream does.
  pub create-refused :
      (now : ℕ) (plan_id self_id : Text) (states manual : Bool) (inventory : List Card)
      (configured : List ConfiguredFolder) (w w' : World U) (id : Text) (r : FolderControlRecord)
      → create upstream hex_digest works clean base join lstat confined root_of reserve surveys now
          plan_id self_id states manual inventory configured w
        ≡ (w', none)
      → lookup id w.store.records ≡ none
      → lookup id w'.store.records ≡ some r
      → r.pending_add ≡ true
  unfolding create
  create-refused now plan_id self_id states manual inventory configured w w' id r h before after =
      let kept = record w { plans = expire now w.plans } in
      let quiet : IsQuiet id w.store = λ q e. absurd (ground (arith, before, e)) in
      elim (Option-cases (lookup plan_id kept.plans)) [
        | inl n ↦ quiet r (ground arith)
        | inr (plan, p) ↦ elim (Option-cases (onboarding_card plan.source_id inventory)) [
          | inl n ↦ quiet r (ground arith)
          | inr (card, c) ↦
              elim (Option-cases (
                reviewed upstream hex_digest works clean base join lstat confined root_of reserve
                  surveys plan self_id states manual configured w.upstream card)) [
                    | inl n ↦ quiet r (ground arith)
                    | inr (devices, d) ↦
                        let it = rw (p, c, d, create) at h in
                        create_reviewed-IsQuiet plan_id plan card devices kept id (ap (λ o. o.1) it)
                          quiet r (ap (λ o. lookup id o.0.store.records) it ∙ after)
                  ]
        ]
      ]
