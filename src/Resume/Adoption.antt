-- ===== src/Resume/Adoption.antt =====
-- What the adoption of a publish achieves
-- (crates/shipshape-core/src/release/resume.rs, `reconcile_for_resume`; journal.rs, `apply`).
use mathlib.Core.Option.{some-injective}
use mathlib.Core.Path.{subst}
use ossctl.Base.{
  String, ◌≡◌, ◌<◌, refl, sym, ◌∙◌, Bool, true, false, ◌||◌, Option, none, some, [], ◌∷◌,
  Bool-cases, inl, inr, lt→leb, str_eq, eq_iff,
}
use ossctl.Base.Dict.{Dict, lookup, contains, contains_key, lookup-insert_self}
use ossctl.Schema.Wire.{parse_ecosystem-ecosystem_as_str}
use ossctl.Journal.{
  VerifyOutcome, PublishReceipt, RunState, JournalEvent, matches, conflicts, missing, unknown,
  target_published,
}
use ossctl.Journal.Reduce.{apply, apply_kind, is_terminal}
use ossctl.Journal.Reduce.Step.{folded}
use ossctl.Plan.{PlanTarget, ReleasePlan}
use ossctl.Plan.TargetIds.{journal_target_ids}
use ossctl.Adapters.{AdapterReceipt, is_ci_delegated}
use ossctl.Resume.{
  classify, published, not_recorded, skip, adopt_forward, publish_phase_reached, decide, classified,
  verify_not_recorded, published_report, receipt_outcome, synthetic_receipt, outcome_for,
  receipt_adapter, plan_targets,
}

adopt-matches :
    (o : VerifyOutcome) (a r : Bool) → classify not_recorded o a r ≡ adopt_forward → o ≡ matches
unfolding classify
adopt-matches matches a r h = refl
adopt-matches conflicts a r h = cc
adopt-matches missing a r h = cc
adopt-matches unknown true true h = cc
adopt-matches unknown true false h = cc
adopt-matches unknown false true h = cc
adopt-matches unknown false false h = cc

published-ne_adopt : (o : VerifyOutcome) (a r : Bool) → classify published o a r ≡ adopt_forward → ⊥
unfolding classify
published-ne_adopt matches a r h = cc
published-ne_adopt conflicts a r h = cc
published-ne_adopt missing a r h = cc
published-ne_adopt unknown true r h = cc
published-ne_adopt unknown false r h = cc

apply_live :
    (s : RunState) (e : JournalEvent)
    → s.applied_seq < e.seq
    → is_terminal s.status ≡ false
    → apply s e ≡ folded s e
unfolding apply
apply_live s e new live = rw (lt→leb _ _ new, live)

module _ (verify : AdapterReceipt → VerifyOutcome) where
  lookup-published_report :
      (targets : Dict PlanTarget) (ps : Dict PublishReceipt) (id : String) (r : PublishReceipt)
      → lookup id ps ≡ some r
      → lookup id (published_report verify targets ps)
        ≡ some (receipt_outcome verify (lookup id targets) r r.package_name)
  unfolding lookup published_report
  lookup-published_report targets [] id r h = cc
  lookup-published_report targets ((k, q) ∷ ps) id r h = elim (Bool-cases (str_eq k id)) [
    | inl same ↦
        let found : q ≡ r = some-injective q r (rw same at h) in
        rw (same, found, (eq_iff k id).0 same)
    | inr other ↦ rw (other, lookup-published_report targets ps id r (rw other at h))
  ]

  -- The receipt that an adoption journals is checked as the target itself was.
  outcome-synthetic_receipt :
      (t : PlanTarget) (version : String) (name : Option String)
      → receipt_outcome verify (some t) (synthetic_receipt verify t version) name
        ≡ verify_not_recorded verify t version name
  unfolding receipt_outcome verify_not_recorded outcome_for receipt_adapter
  outcome-synthetic_receipt t version none = refl
  outcome-synthetic_receipt t version (some name) = rw parse_ecosystem-ecosystem_as_str

  module _ (state : RunState) (plan : ReleasePlan) (allow : Bool) (t : PlanTarget)
      (id : String) where
    record Adopts : Type 0 where
      not_cancelled : contains_key id state.cancelled ≡ false
      engine : (contains id state.delegated || is_ci_delegated t.adapter) ≡ false
      seen : verify_not_recorded verify t plan.version t.package_name ≡ matches

    adopts : (decide verify state plan allow t id).action ≡ adopt_forward → Adopts
    unfolding decide classified
    adopts h = elim (Bool-cases (contains_key id state.cancelled)) [
      | inl c ↦ cc (rw c at h)
      | inr c ↦ elim (Bool-cases (contains id state.delegated || is_ci_delegated t.adapter)) [
        | inl d ↦ cc (rw (c, d) at h)
        | inr d ↦ elim (Bool-cases (contains_key id state.published)) [
          | inl e ↦
              absurd (published-ne_adopt _ allow (publish_phase_reached state) (rw (c, d, e) at h))
          | inr e ↦ record {
            not_cancelled = c;
            engine = d;
            seen = adopt-matches _ allow (publish_phase_reached state) (rw (c, d, e) at h);
          }
        ]
      ]
    ]

    decide_published :
        (s : RunState) (r : PublishReceipt)
        → contains_key id s.cancelled ≡ false
        → (contains id s.delegated || is_ci_delegated t.adapter) ≡ false
        → lookup id s.published ≡ some r
        → receipt_outcome verify
            (lookup id (plan_targets (journal_target_ids plan.targets) plan.targets []))
            r
            r.package_name
          ≡ matches
        → (decide verify s plan allow t id).action ≡ skip
    unfolding decide classified classify
    decide_published s r c d p m = rw (
      c,
      d,
      p,
      lookup-published_report (plan_targets (journal_target_ids plan.targets) plan.targets [])
          s.published id r p,
      m,
    )

    folded_skips :
        (e : JournalEvent)
        → lookup id (plan_targets (journal_target_ids plan.targets) plan.targets []) ≡ some t
        → e.kind ≡ target_published id (synthetic_receipt verify t plan.version)
        → Adopts
        → (decide verify (folded state e) plan allow t id).action ≡ skip
    unfolding apply_kind
    folded_skips e planned k a = rw k (
        decide_published _ (synthetic_receipt verify t plan.version) a.not_cancelled a.engine
          (lookup-insert_self id (synthetic_receipt verify t plan.version) state.published)
          (rw planned (outcome-synthetic_receipt t plan.version t.package_name ∙ a.seen)))

    -- An adoption settles its target: in a run that is going on, once the adopted receipt is journalled
    -- for a target that the plan has under that id, the next resume, observing the same, skips it.
    pub adopt_then_skip :
        (e : JournalEvent)
        → lookup id (plan_targets (journal_target_ids plan.targets) plan.targets []) ≡ some t
        → state.applied_seq < e.seq
        → is_terminal state.status ≡ false
        → e.kind ≡ target_published id (synthetic_receipt verify t plan.version)
        → (decide verify state plan allow t id).action ≡ adopt_forward
        → (decide verify (apply state e) plan allow t id).action ≡ skip
    adopt_then_skip e planned new live k h =
        subst (λ s. (decide verify s plan allow t id).action ≡ skip)
          (sym (apply_live state e new live)) (folded_skips e planned k (adopts h))
