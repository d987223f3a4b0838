-- ===== src/Onboarding/Making/Kept.antt =====
-- A plan that was made is there until it expires, and the plans stay few.
use leaf_syncthing_pak.Base.{
  ℕ, ◌+◌, ◌≤◌, ◌<◌, Bool, ◌≡◌, refl, ap, ◌∙◌, inl, inr, Option, some, List, [], ◌∷◌, length, leb,
  Bool-cases, Option-cases, arith, Text, text_eq_refl, Dict, lookup, insert, lookup-insert,
  length-insert,
}
use leaf_syncthing_pak.Folders.Types.{Source, ConfiguredFolder, Card}
use leaf_syncthing_pak.Folders.Upstream.{Upstream}
use leaf_syncthing_pak.Onboarding.Plans.{OnboardingPlan, expire, onboarding_card}
use leaf_syncthing_pak.Onboarding.Create.{Surveys}
use leaf_syncthing_pak.Onboarding.Making.{
  onboarding_plan_lifetime, max_onboarding_plans, Offered, surveyed, plan_of, plan,
}

lookup-expire :
    (now : ℕ) (id : Text) (p : OnboardingPlan) (plans : Dict OnboardingPlan)
    → now < p.expires_at
    → lookup id plans ≡ some p
    → lookup id (expire now plans) ≡ some p
unfolding lookup expire
lookup-expire now id p [] f h = h
lookup-expire now id p ((k, q) ∷ plans) f h = ground (arith, lookup-expire now id p plans f)

inserted :
    (later : ℕ) (new id : Text) (made p : OnboardingPlan) (kept plans' : Dict OnboardingPlan)
    → insert new made kept ≡ plans'
    → new ≡ id
    → made ≡ p
    → later < made.expires_at
    → length kept < max_onboarding_plans
    → (lookup id (expire later plans') ≡ some p) × (length plans' ≤ max_onboarding_plans)
inserted later new id made p kept plans' there key same t room =
    rw (← there, ← key, ← same)
      (
        lookup-expire later new made (insert new made kept) t
            (lookup-insert new new made kept ∙ rw (text_eq_refl new) refl),
        omega (arith, length-insert new made kept, room),
      )

module _ {U : Type 0} (upstream : Upstream U) (hex_digest : Text → Text) (clean : Text → Text)
    (join : List Text → Text) (confined : Text → Text → Bool) (root_of : Source → Text)
    (surveys : Surveys) where
  -- A plan that was made is found under its id at every time of the next five minutes, after the
  -- plans that have expired were removed, and there are at most sixteen plans.
  pub plan-lookup :
      (now : ℕ) (fresh : Option Text) (source_id kind folder_type : Text) (offered : Offered)
      (self_id : Text) (device_ids : List Text) (inventory : List Card)
      (configured : List ConfiguredFolder) (u : U) (plans plans' : Dict OnboardingPlan) (id : Text)
      (p : OnboardingPlan) (later : ℕ)
      → plan upstream hex_digest clean join confined root_of surveys now fresh source_id kind
          folder_type offered self_id device_ids inventory configured u plans
        ≡ (plans', some (id, p))
      → later < now + onboarding_plan_lifetime
      → (lookup id (expire later plans') ≡ some p) × (length plans' ≤ max_onboarding_plans)
  unfolding plan
  plan-lookup now fresh source_id kind folder_type offered self_id device_ids inventory configured u
        plans plans' id p later h t =
      let kept = expire now plans in
      elim (Bool-cases (leb max_onboarding_plans (length kept))) [
        | inl full ↦ absurd (ground arith)
        | inr room ↦ elim (Option-cases (onboarding_card source_id inventory)) [
          | inl n ↦ absurd (ground arith)
          | inr (card, c) ↦
              elim (Option-cases (
                surveyed upstream hex_digest clean join confined root_of surveys kind folder_type
                  offered self_id device_ids configured u card)) [
                    | inl n ↦ absurd (ground arith)
                    | inr ((names, devices), s) ↦ elim (Option-cases fresh) [
                      | inl n ↦ absurd (ground arith)
                      | inr (new, f) ↦
                          let made =
                            plan_of upstream hex_digest clean join confined root_of surveys now
                              source_id kind folder_type offered card names devices in
                          let it = rw (room, c, s, f, plan) at h in
                          let there : insert new made kept ≡ plans' = ap (λ r. r.0) it in
                          let key : new ≡ id = ground (arith, ap (λ r. r.1) it) in
                          let same : made ≡ p = ground (arith, ap (λ r. r.1) it) in
                          inserted later new id made p kept plans' there key same t (ground arith)
                    ]
                  ]
        ]
      ]
