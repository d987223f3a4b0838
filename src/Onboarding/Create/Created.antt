-- ===== src/Onboarding/Create/Created.antt =====
-- A folder that was created was planned, and waits for its first sync.
use leaf_syncthing_pak.Base.{
  ℕ, ◌<◌, Bool, true, false, ◌≡◌, ◌⊎◌, refl, sym, ap, ◌∙◌, inl, inr, codes, text_eq_iff, Option,
  none, some, List, [], ◌∷◌, keep, ltb, Bool-cases, Option-cases, arith, Text, text_eq,
  text_eq_refl, Dict, lookup, lookup-insert, lookup-delete,
}
use mathlib.Core.Path.{subst}
use leaf_syncthing_pak.Folders.Types.{Source, ConfiguredFolder, Card}
use leaf_syncthing_pak.Folders.Store.{FolderControlRecord, Store, Call}
use leaf_syncthing_pak.Folders.Store.Persist.{persist_locked-records}
use leaf_syncthing_pak.Folders.Ops.{new_folder_control_record, add, activate, put}
use leaf_syncthing_pak.Folders.Rows.{Lstat}
use leaf_syncthing_pak.Folders.Upstream.{Upstream}
use leaf_syncthing_pak.Onboarding.Plans.{OnboardingPlan, expire, onboarding_card}
use leaf_syncthing_pak.Onboarding.Create.{
  World, Phase, Surveys, folder_of, acknowledged, reviewed, add_folder, create_reviewed, create,
}

put-lookup :
    (id : Text) (r : FolderControlRecord) (s : Store) → lookup id (put id r s).records ≡ some r
put-lookup id r s = lookup-insert id id r s.records ∙ rw (text_eq_refl id) refl

new_record-protected :
    (hex_digest : Text → Text) (folder : ConfiguredFolder) (card : Card)
    → (new_folder_control_record hex_digest folder card).1 ≡ none
    → (new_folder_control_record hex_digest folder card).0.first_sync ≡ true
unfolding new_folder_control_record
new_record-protected hex_digest folder card h = ground arith

-- The record of an addition that is not finished.
abbrev pub IsAdding : FolderControlRecord → Type 0
IsAdding r = (r.pending_add ≡ true) × (r.first_sync ≡ true)

add-lookup :
    (works : Call → Bool) (hex_digest : Text → Text) (folder : ConfiguredFolder) (card : Card)
    (s : Store)
    → (add works hex_digest folder card true s).1 ≡ none
    → (r : FolderControlRecord) × (lookup folder.id
          (add works hex_digest folder card true s).0.records
        ≡ some r)
      × IsAdding r
unfolding add
add-lookup works hex_digest folder card s h =
    let r = record (new_folder_control_record hex_digest folder card).0 { pending_add = true } in
    (
      r,
      ground (arith, persist_locked-records works (put folder.id r s), put-lookup folder.id r s),
      (refl, ground (arith, new_record-protected hex_digest folder card)),
    )

activate-lookup :
    (works : Call → Bool) (id : Text) (s : Store) (r : FolderControlRecord)
    → lookup id s.records ≡ some r
    → (activate works id s).1 ≡ none
    → lookup id (activate works id s).0.records ≡ some (record r { pending_add = false })
unfolding activate
activate-lookup works id s r e h =
    let new = record r { pending_add = false } in
    ground (arith, persist_locked-records works (put id new s), put-lookup id new s)

lookup-expire :
    (now : ℕ) (id : Text) (plan : OnboardingPlan) (plans : Dict OnboardingPlan)
    → lookup id (expire now plans) ≡ some plan
    → now < plan.expires_at
unfolding lookup expire
lookup-expire now id plan [] h = absurd (ground arith)
lookup-expire now id plan ((k, p) ∷ plans) h = elim (Bool-cases (ltb now p.expires_at)) [
  | inr e ↦ lookup-expire now id plan plans (rw (e, keep, lookup) at h)
  | inl e ↦ elim (Bool-cases (text_eq k id)) [
    | inr n ↦ lookup-expire now id plan plans (rw (n, lookup) at (rw (e, keep, lookup) at h))
    | inl t ↦ ground (arith, e)
  ]
]

-- The folder of a plan: paused, under the plan's id and label, at its path, of its kind and type and
-- with its marker; one that receives keeps simple versions at the plan's place for them.
pub record IsPlanned (plan : OnboardingPlan) (folder : ConfiguredFolder) : Type 0 where
  pub paused : folder.paused ≡ true
  pub id : folder.id ≡ plan.folder_id
  pub label : folder.label ≡ plan.label
  pub path : folder.path ≡ plan.path
  pub kind : folder.kind ≡ plan.kind
  pub type : folder.type ≡ plan.folder_type
  pub marker : folder.marker_name ≡ plan.marker_name
  pub versions :
      ((plan.folder_type ≡ codes "sendonly")
        × (folder.versioning_type ≡ [])
        × (folder.versioning_fs_path ≡ []))
      ⊎ ((folder.versioning_type ≡ codes "simple")
          × (folder.versioning_fs_path ≡ plan.versioning_path))

folder_of-IsPlanned :
    (plan : OnboardingPlan) (devices : List Text) → IsPlanned plan (folder_of plan devices)
folder_of-IsPlanned plan devices = record {
  paused = refl;
  id = refl;
  label = refl;
  path = refl;
  kind = refl;
  type = refl;
  marker = refl;
  versions = ground (arith, text_eq_iff plan.folder_type (codes "sendonly"));
}

-- What an accepted plan has: it had not expired, the warnings were acknowledged, and it is used up;
-- the folder is its folder, and its record is active and waits for the first sync.
pub record IsCreated {U : Type 0} (now : ℕ) (plan_id : Text) (states manual : Bool) (w w' : World U)
    (folder : ConfiguredFolder) : Type 0 where
  pub plan : OnboardingPlan
  pub planned : lookup plan_id (expire now w.plans) ≡ some plan
  pub fresh : now < plan.expires_at
  pub manual_acknowledged : manual ≡ true
  pub states_acknowledged : (plan.states_warning ≡ false) ⊎ (states ≡ true)
  pub made : IsPlanned plan folder
  pub used : lookup plan_id w'.plans ≡ none
  pub now_on : FolderControlRecord
  pub recorded : lookup folder.id w'.store.records ≡ some now_on
  pub active : now_on.pending_add ≡ false
  pub waits : now_on.first_sync ≡ true

module _ {U : Type 0} (upstream : Upstream U) (hex_digest : Text → Text)
    (works : Phase → Call → Bool) (clean base : Text → Text) (join : List Text → Text)
    (lstat : Text → Lstat) (confined : Text → Text → Bool) (root_of : Source → Text) (reserve : ℕ)
    (surveys : Surveys) where
  abbrev adding_folder :
      Text → ConfiguredFolder → Card → World U → World U × Option ConfiguredFolder
  adding_folder plan_id folder card w =
      add_folder upstream hex_digest works clean base join lstat confined root_of reserve surveys
        plan_id folder card w

  -- The record and the plans after an addition that succeeds.
  record IsAdded (plan_id : Text) (folder : ConfiguredFolder) (card : Card) (w : World U)
      : Type 0 where
    now_on : FolderControlRecord
    recorded : lookup folder.id (adding_folder plan_id folder card w).0.store.records ≡ some now_on
    active : now_on.pending_add ≡ false
    waits : now_on.first_sync ≡ true
    used : lookup plan_id (adding_folder plan_id folder card w).0.plans ≡ none
    same : (adding_folder plan_id folder card w).1 ≡ some folder

  add_folder-IsAdded :
      (plan_id : Text) (folder : ConfiguredFolder) (card : Card) (w : World U)
      (f : ConfiguredFolder)
      → (adding_folder plan_id folder card w).1 ≡ some f
      → IsAdded plan_id folder card w
  unfolding add_folder
  add_folder-IsAdded plan_id folder card w f h =
      elim (Option-cases (add (works Phase.adding) hex_digest folder card true w.store).1) [
        | inr (x, e) ↦ absurd (ground arith)
        | inl e ↦
            let (r, there, adding) =
              add-lookup (works Phase.adding) hex_digest folder card w.store e in
            let s = (add (works Phase.adding) hex_digest folder card true w.store).0 in
            let on = activate-lookup (works Phase.activating) folder.id s r there in
            let gone = lookup-delete plan_id plan_id w.plans in
            record {
              now_on = record r { pending_add = false };
              recorded = ground arith;
              active = refl;
              waits = adding.1;
              used = ground (arith, text_eq_refl plan_id);
              same = ground arith;
            }
      ]

  abbrev the_review :
      OnboardingPlan → Text → Bool → Bool → List ConfiguredFolder → U → Card → Option (List Text)
  the_review plan self_id states manual configured u card =
      reviewed upstream hex_digest works clean base join lstat confined root_of reserve surveys plan
        self_id states manual configured u card

  reviewed-acknowledged :
      (plan : OnboardingPlan) (self_id : Text) (states manual : Bool)
      (configured : List ConfiguredFolder) (u : U) (card : Card) (devices : List Text)
      → the_review plan self_id states manual configured u card ≡ some devices
      → acknowledged plan states manual ≡ true
  unfolding reviewed
  reviewed-acknowledged plan self_id states manual configured u card devices h =
      elim (Option-cases (surveys.inspect plan.path plan.marker_name)) [
        | inl n ↦ absurd (ground arith)
        | inr (bytes, e) ↦ elim (Bool-cases (acknowledged plan states manual)) [
          | inl t ↦ t
          | inr n ↦ absurd (ground arith)
        ]
      ]

  create_reviewed-IsAdded :
      (plan_id : Text) (plan : OnboardingPlan) (card : Card) (devices : List Text) (w : World U)
      (f : ConfiguredFolder)
      → let out =
          create_reviewed upstream hex_digest works clean base join lstat confined root_of reserve
            surveys plan_id plan card devices w in
        out.1 ≡ some f
        → (out ≡ adding_folder plan_id (folder_of plan devices) card w)
          × IsAdded plan_id (folder_of plan devices) card w
  unfolding create_reviewed
  create_reviewed-IsAdded plan_id plan card devices w f h =
      let out =
        create_reviewed upstream hex_digest works clean base join lstat confined root_of reserve
          surveys plan_id plan card devices w in
      let same : out ≡ adding_folder plan_id (folder_of plan devices) card w = ground arith in
      (
        same,
        add_folder-IsAdded plan_id (folder_of plan devices) card w f (ap (λ r. r.1) (sym same) ∙ h),
      )

  -- A folder that `Create` returns is that of a plan that had not expired and whose warnings were
  -- acknowledged: it is paused, has the plan's id, label, path, kind, type and marker, and keeps
  -- simple versions at the plan's place unless it only sends. The plan is used up, and the folder's
  -- control record is active and waits for the first sync, whichever calls of the writes fail.
  pub create-IsCreated :
      (now : ℕ) (plan_id self_id : Text) (states manual : Bool) (inventory : List Card)
      (configured : List ConfiguredFolder) (w w' : World U) (folder : ConfiguredFolder)
      → create upstream hex_digest works clean base join lstat confined root_of reserve surveys now
          plan_id self_id states manual inventory configured w
        ≡ (w', some folder)
      → IsCreated now plan_id states manual w w' folder
  unfolding create
  create-IsCreated now plan_id self_id states manual inventory configured w w' folder h =
      let kept = record w { plans = expire now w.plans } in
      elim (Option-cases (lookup plan_id kept.plans)) [
        | inl n ↦ absurd (ground arith)
        | inr (plan, p) ↦ elim (Option-cases (onboarding_card plan.source_id inventory)) [
          | inl n ↦ absurd (ground arith)
          | inr (card, c) ↦
              elim (Option-cases
                (the_review plan self_id states manual configured w.upstream card)) [
                  | inl n ↦ absurd (ground arith)
                  | inr (devices, d) ↦
                      let it = rw (p, c, d, create) at h in
                      let (added, a) =
                        create_reviewed-IsAdded plan_id plan card devices kept folder
                          (ap (λ r. r.1) it) in
                      let end : adding_folder plan_id (folder_of plan devices) card kept
                          ≡ (w', some folder) =
                        sym added ∙ it in
                      let here : (adding_folder plan_id (folder_of plan devices) card kept).0 ≡ w' =
                        ap (λ r. r.0) end in
                      let is : folder_of plan devices ≡ folder =
                        ground (arith, a.same, ap (λ r. r.1) end) in
                      let warned =
                        reviewed-acknowledged plan self_id states manual configured w.upstream card
                          devices d in
                      record {
                        plan = plan;
                        planned = p;
                        fresh = lookup-expire now plan_id plan w.plans p;
                        manual_acknowledged = ground (arith, warned);
                        states_acknowledged = ground (arith, warned);
                        made =
                            subst (λ (g : ConfiguredFolder). IsPlanned plan g) is
                              (folder_of-IsPlanned plan devices);
                        used = subst (λ v. lookup plan_id v.plans ≡ none) here a.used;
                        now_on = a.now_on;
                        recorded =
                            subst (λ v. lookup folder.id v.store.records ≡ some a.now_on) here
                              (subst
                                (λ (g : ConfiguredFolder).
                                  lookup g.id
                                    (adding_folder plan_id (folder_of plan devices) card
                                      kept).0.store.records
                                  ≡ some a.now_on)
                                is a.recorded);
                        active = a.active;
                        waits = a.waits;
                      }
                ]
        ]
      ]
