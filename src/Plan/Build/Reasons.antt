-- ===== src/Plan/Build/Reasons.antt =====
-- Why an approved plan is stale
-- (crates/shipshape-core/src/release/plan.rs, `verify`).
use mathlib.Core.Path.{subst}
use ossctl.Base.{
  ℕ, ◌≡◌, refl, ◌↔◌, ◌≢◌, inl, inr, Bool, true, false, String, str_eq, Option, none, some, List, [],
  ◌∷◌, is_empty, any, arith, Bool-cases, eq_iff,
}
use ossctl.Plan.{PlanTarget, ReleasePlan}
use ossctl.Plan.Inputs.{Contract, Facts}
use ossctl.Plan.Targets.{resolve_targets}
use ossctl.Plan.Build.{
  SealInput, seal, verify_plan, Verified, plan_stale, PlanDrift, DriftReason, specific_reasons,
  or_generic, name_eq, target_eq, targets_eq, head_moved, schema_changed, targets_changed,
  contract_changed,
}

abbrev pub is_head_moved : DriftReason → Bool
is_head_moved (head_moved a b) = true
is_head_moved (schema_changed a b) = false
is_head_moved targets_changed = false
is_head_moved contract_changed = false

abbrev pub is_targets_changed : DriftReason → Bool
is_targets_changed (head_moved a b) = false
is_targets_changed (schema_changed a b) = false
is_targets_changed targets_changed = true
is_targets_changed contract_changed = false

abbrev pub is_schema_changed : DriftReason → Bool
is_schema_changed (head_moved a b) = false
is_schema_changed (schema_changed a b) = true
is_schema_changed targets_changed = false
is_schema_changed contract_changed = false

name_eq_iff : (a b : Option String) → (name_eq a b ≡ true) ↔ (a ≡ b)
unfolding name_eq
name_eq_iff none none = ground arith
name_eq_iff none (some b) = ground arith
name_eq_iff (some a) none = ground arith
name_eq_iff (some a) (some b) = ground (arith, eq_iff a b)

target_same :
    (s t : PlanTarget)
    → s.ecosystem ≡ t.ecosystem
    → s.package_name ≡ t.package_name
    → s.registry ≡ t.registry
    → s.adapter ≡ t.adapter
    → s ≡ t
target_same s t e p r a i = record {
  ecosystem = e i;
  package_name = p i;
  registry = r i;
  adapter = a i;
}

target_eq-true : (s t : PlanTarget) → target_eq s t ≡ true → s ≡ t
unfolding target_eq
target_eq-true s t h =
    target_same s t (ground (arith, h))
      ((name_eq_iff s.package_name t.package_name).0 (ground (arith, h))) (ground (arith, h))
      (ground (arith, h))

target_eq_refl : (s : PlanTarget) → target_eq s s ≡ true
unfolding target_eq
target_eq_refl s = ground (arith, (name_eq_iff s.package_name s.package_name).1 refl)

targets_eq-true : (ss ts : List PlanTarget) → targets_eq ss ts ≡ true → ss ≡ ts
unfolding targets_eq
targets_eq-true [] [] h = refl
targets_eq-true [] (t ∷ ts) h = cc
targets_eq-true (s ∷ ss) [] h = cc
targets_eq-true (s ∷ ss) (t ∷ ts) h =
    let head : s ≡ t = target_eq-true s t (ground (arith, h)) in
    let tail : ss ≡ ts = targets_eq-true ss ts (ground (arith, h)) in λ i. head i ∷ tail i

targets_eq_refl : (ts : List PlanTarget) → targets_eq ts ts ≡ true
unfolding targets_eq
targets_eq_refl [] = refl
targets_eq_refl (t ∷ ts) = rw (target_eq_refl t, targets_eq_refl ts) refl

stale_same : (a b : PlanDrift) → ◌≡◌ {A = Verified} (plan_stale a) (plan_stale b) → a ≡ b
stale_same a b h = cc

or_generic_some : (rs : List DriftReason) → is_empty (or_generic rs) ≡ false
unfolding or_generic
or_generic_some [] = refl
or_generic_some (r ∷ rs) = refl

any-or_generic :
    (f : DriftReason → Bool) (rs : List DriftReason)
    → f contract_changed ≡ false
    → any f (or_generic rs) ≡ any f rs
unfolding or_generic
any-or_generic f [] h = rw h refl
any-or_generic f (r ∷ rs) h = refl

module _ (p : ReleasePlan) (contract : Contract) (now : List PlanTarget) (head_sha : String) where
  abbrev reasons : List DriftReason
  reasons = or_generic (specific_reasons p contract now head_sha)

  head_reason : (any is_head_moved reasons ≡ true) ↔ (p.head_sha ≢ head_sha)
  unfolding specific_reasons
  head_reason =
      rw (any-or_generic is_head_moved (specific_reasons p contract now head_sha) refl)
        (ground (arith, eq_iff p.head_sha head_sha))

  schema_reason :
      (any is_schema_changed reasons ≡ true) ↔ (p.contract_schema_version ≢ contract.schema_version)
  unfolding specific_reasons
  schema_reason =
      rw (any-or_generic is_schema_changed (specific_reasons p contract now head_sha) refl)
        (ground arith)

  targets_differ : (targets_eq p.targets now ≡ false) ↔ (p.targets ≢ now)
  targets_differ = (
    (λ h e.
        let same : targets_eq p.targets now ≡ true = rw e (targets_eq_refl now) in
        ground (arith, h, same)),
    (λ h. elim (Bool-cases (targets_eq p.targets now)) [
      | inl e ↦ absurd (h (targets_eq-true p.targets now e))
      | inr e ↦ e
    ]),
  )

  targets_reason : (any is_targets_changed reasons ≡ true) ↔ (p.targets ≢ now)
  unfolding specific_reasons
  targets_reason =
      rw (any-or_generic is_targets_changed (specific_reasons p contract now head_sha) refl)
        (ground (arith, targets_differ))

-- A stale plan keeps its id, the two ids differ, there is a reason, and the reasons about the commit,
-- the schema and the targets are given exactly when these differ.
pub verify_plan-plan_stale :
    (to_vec : SealInput → List ℕ) (hex : List ℕ → String) (p : ReleasePlan) (contract : Contract)
    (facts : Facts) (head_sha : String) (d : PlanDrift)
    → verify_plan to_vec hex p contract facts head_sha ≡ plan_stale d
    → (d.approved_plan_id ≡ p.plan_id)
      × (d.current_plan_id ≢ d.approved_plan_id)
      × (is_empty d.reasons ≡ false)
      × ((any is_head_moved d.reasons ≡ true) ↔ (p.head_sha ≢ head_sha))
      × ((any is_schema_changed d.reasons ≡ true)
          ↔ (p.contract_schema_version ≢ contract.schema_version))
      × ((any is_targets_changed d.reasons ≡ true) ↔ (p.targets ≢ resolve_targets contract facts))
unfolding verify_plan
verify_plan-plan_stale to_vec hex p contract facts head_sha d h =
    let now = resolve_targets contract facts in
    let i = seal to_vec hex contract now head_sha p.version p.phases p.bump in
    elim (Bool-cases (str_eq i p.plan_id)) [
      | inl e ↦ absurd (ground (arith, rw e at h))
      | inr e ↦
          let made : record {
            approved_plan_id = p.plan_id;
            current_plan_id = i;
            reasons = or_generic (specific_reasons p contract now head_sha);
          }
              ≡ d =
            stale_same _ d (rw e at h) in
          subst
            (λ (r : PlanDrift).
              (r.approved_plan_id ≡ p.plan_id)
              × (r.current_plan_id ≢ r.approved_plan_id)
              × (is_empty r.reasons ≡ false)
              × ((any is_head_moved r.reasons ≡ true) ↔ (p.head_sha ≢ head_sha))
              × ((any is_schema_changed r.reasons ≡ true)
                  ↔ (p.contract_schema_version ≢ contract.schema_version))
              × ((any is_targets_changed r.reasons ≡ true) ↔ (p.targets ≢ now)))
            made
            (
              refl,
              (λ s. ground (arith, e, s, eq_iff i p.plan_id)),
              or_generic_some (specific_reasons p contract now head_sha),
              head_reason p contract now head_sha,
              schema_reason p contract now head_sha,
              targets_reason p contract now head_sha,
            )
    ]
