-- ===== src/Resume/Doubt.antt =====
-- A registry that cannot be asked is never taken for one that says no
-- (crates/shipshape-core/src/release/resume.rs, `publish_phase_reached`; adapters/mod.rs,
-- `verify_via_registry`).
use ossctl.Base.{
  String, ◌≡◌, ◌↔◌, refl, Bool, true, false, ◌||◌, Option, none, some, List, [], ◌∷◌, any, fold,
  arith, Bool-cases, inl, inr, is_empty, str_eq,
}
use mathlib.Core.Option.{some-injective}
use ossctl.Base.Dict.{Dict, lookup, contains, contains_key}
use ossctl.Journal.{VerifyOutcome, RunState, JournalEvent, missing, unknown}
use ossctl.Journal.Reduce.{apply}
use ossctl.Journal.Reduce.Kept.{fold-Kept}
use ossctl.Plan.{PlanTarget, ReleasePlan}
use ossctl.Adapters.{
  AdapterReceipt, classify_receipt, verify_via_registry, observed, digests_differ, is_ci_delegated,
}
use ossctl.Resume.{
  classify, not_recorded, unverifiable, publish_phase_reached, decide, classified,
  verify_not_recorded,
}

-- The registry answered, and the version is not in its answer.
abbrev pub Denied : Option (List String) → AdapterReceipt → Type 0
Denied answer r =
    (vs : List String) × (answer ≡ some vs) × (any (λ v. str_eq v r.version) vs ≡ false)

never_differ : (d : Option String) → digests_differ d none ≡ false
never_differ none = refl
never_differ (some l) = refl

listed_lem :
    (vs : List String) (r : AdapterReceipt)
    → classify_receipt r (observed (some vs)) ≡ missing
    → any (λ v. str_eq v r.version) vs ≡ false
unfolding classify_receipt observed
listed_lem vs r h = elim (Bool-cases (any (λ v. str_eq v r.version) vs)) [
  | inl listed ↦ cc (rw (listed, never_differ r.digest) at h)
  | inr absent ↦ absent
]

unlisted_lem :
    (vs : List String) (r : AdapterReceipt)
    → any (λ v. str_eq v r.version) vs ≡ false
    → classify_receipt r (observed (some vs)) ≡ missing
unfolding classify_receipt observed
unlisted_lem vs r h = rw h refl

outage_lem : (r : AdapterReceipt) → classify_receipt r (observed none) ≡ missing → ⊥
unfolding classify_receipt observed
outage_lem r h = cc

missing_lem :
    (answer : Option (List String)) (r : AdapterReceipt)
    → (classify_receipt r (observed answer) ≡ missing) ↔ Denied answer r
missing_lem none r = ((λ h. absurd (outage_lem r h)), λ h. cc (h.1))
missing_lem (some vs) r = (
  (λ h. (vs, refl, listed_lem vs r h)),
  λ h. unlisted_lem vs r (rw (some-injective vs h.0 h.1) h.2),
)

-- The registry's `verify` says that a version is missing if and only if the registry answered with a
-- list of versions and this version is not in it: an outage is never read as missing.
pub verify_via_registry_lem :
    (versions : AdapterReceipt → Option (List String)) (r : AdapterReceipt)
    → (verify_via_registry versions r ≡ missing) ↔ Denied (versions r) r
unfolding verify_via_registry
verify_via_registry_lem versions r = missing_lem (versions r) r

filled : {V : Type 0} (id : String) (d : Dict V) → contains_key id d ≡ true → is_empty d ≡ false
unfolding lookup
filled id [] h = cc
filled id (e ∷ d) h = refl

-- A receipt is proof that the publish phase was reached, whatever was recorded of the phases.
published-reached :
    (id : String) (s : RunState)
    → contains_key id s.published ≡ true
    → publish_phase_reached s ≡ true
unfolding publish_phase_reached
published-reached id s h = rw (filled id s.published h) (ground arith)

unknown-unverifiable :
    (reached : Bool) → reached ≡ true → classify not_recorded unknown false reached ≡ unverifiable
unfolding classify
unknown-unverifiable true h = refl
unknown-unverifiable false h = cc

-- Once any target of a run has a receipt, then whatever events follow, a target of the engine's that
-- is neither published nor cancelled and that the registry cannot be asked about is not published by a
-- resume without the operator's go-ahead: it is unverifiable.
pub doubt_blocks :
    (verify : AdapterReceipt → VerifyOutcome) (plan : ReleasePlan) (t : PlanTarget)
    (id other : String) (s : RunState) (es : List JournalEvent)
    → contains_key other s.published ≡ true
    → contains_key id (fold apply s es).cancelled ≡ false
    → (contains id (fold apply s es).delegated || is_ci_delegated t.adapter) ≡ false
    → contains_key id (fold apply s es).published ≡ false
    → verify_not_recorded verify t plan.version t.package_name ≡ unknown
    → (decide verify (fold apply s es) plan false t id).action ≡ unverifiable
unfolding decide classified
doubt_blocks verify plan t id other s es h c d p v =
    rw (c, d, p, v)
      (unknown-unverifiable (publish_phase_reached (fold apply s es))
        (published-reached other (fold apply s es) ((fold-Kept s es).published other h)))
