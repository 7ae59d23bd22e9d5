-- ===== src/Plan/Build/Drift.antt =====
-- An approved plan is stale exactly when what it seals has changed
-- (crates/shipshape-core/src/release/plan.rs, `verify`).
use ossctl.Base.{
  ℕ, ◌≡◌, refl, ◌↔◌, inl, inr, String, str_eq, Option, List, is_some, arith, Bool-cases, eq_iff,
  eq_refl,
}
use ossctl.Plan.{BumpPlan, ReleasePlan}
use ossctl.Plan.Inputs.{Contract, Facts}
use ossctl.Plan.Targets.{resolve_targets}
use ossctl.Plan.Build.{
  SealInput, seal_input, seal, build_inner, verify_plan, bump_aware_phases, up_to_date,
}

module _ (to_vec : SealInput → List ℕ) (hex : List ℕ → String) where
  -- Two sealed inputs have the same id only when they are the same.
  abbrev pub NoCollision : SealInput → SealInput → Type 0
  NoCollision a b = hex (to_vec a) ≡ hex (to_vec b) → a ≡ b

  verify_up_to_date :
      (p : ReleasePlan) (contract : Contract) (facts : Facts) (head_sha : String)
      → verify_plan to_vec hex p contract facts head_sha ≡ up_to_date
      → seal to_vec hex contract (resolve_targets contract facts) head_sha p.version p.phases p.bump
        ≡ p.plan_id
  unfolding verify_plan
  verify_up_to_date p contract facts head_sha h =
      let i =
        seal to_vec hex contract (resolve_targets contract facts) head_sha p.version p.phases
          p.bump in
      elim (Bool-cases (str_eq i p.plan_id)) [
        | inl e ↦ ground (arith, e, eq_iff i p.plan_id)
        | inr e ↦ absurd (ground (arith, rw e at h))
      ]

  verify_same_id :
      (p : ReleasePlan) (contract : Contract) (facts : Facts) (head_sha : String)
      → seal to_vec hex contract (resolve_targets contract facts) head_sha p.version p.phases p.bump
        ≡ p.plan_id
      → verify_plan to_vec hex p contract facts head_sha ≡ up_to_date
  unfolding verify_plan
  verify_same_id p contract facts head_sha h = rw (h, eq_refl p.plan_id) refl

  -- When the plan's sealed input and that of the repository now do not collide, an approved plan, with
  -- a bump or without, is found up to date exactly when the contract, the commit and the resolved
  -- targets are what they were.
  pub verify_plan-build_inner :
      (contract now : Contract) (facts facts_now : Facts) (head_sha head_now version : String)
      (bumps : Option BumpPlan)
      → NoCollision
          (seal_input now
            (resolve_targets now facts_now)
            head_now
            version
            (bump_aware_phases (is_some bumps))
            bumps)
          (seal_input contract
            (resolve_targets contract facts)
            head_sha
            version
            (bump_aware_phases (is_some bumps))
            bumps)
      → (verify_plan to_vec hex
            (build_inner to_vec hex contract facts head_sha version bumps)
            now
            facts_now
            head_now
          ≡ up_to_date)
        ↔ ((now ≡ contract)
            × (head_now ≡ head_sha)
            × (resolve_targets now facts_now ≡ resolve_targets contract facts))
  unfolding build_inner seal seal_input
  verify_plan-build_inner contract now facts facts_now head_sha head_now version bumps apart =
      let p = build_inner to_vec hex contract facts head_sha version bumps in
      (
        (λ h.
            let same = apart (verify_up_to_date p now facts_now head_now h) in
            ((λ i. (same i).contract), (λ i. (same i).head_sha), (λ i. (same i).targets))),
        (λ (c, h, t). verify_same_id p now facts_now head_now (λ i. hex (
            to_vec
              (seal_input (c i) (t i) (h i) version (bump_aware_phases (is_some bumps)) bumps)))),
      )
