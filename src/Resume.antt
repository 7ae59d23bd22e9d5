-- ===== src/Resume.antt =====
-- What a resume does with each target: the journal's record against the registry
-- (crates/shipshape-core/src/release/resume.rs, and `reconcile` of reconcile.rs for the receipts).
pub mod Safety
pub mod Adoption
pub mod Doubt
mod Tests
use Prim.Native.Char.{code}
use Prim.Native.String
use mathlib.Core.Option.{get_or}
use ossctl.Base.{
  ℕ, String, Bool, true, false, ◌&&◌, ◌||◌, not, ◌==◌, Option, none, some, List, [], ◌∷◌, map, any,
  if◌then◌else◌, is_some, is_empty,
}
use ossctl.Base.Dict.{Dict, lookup, insert, contains, contains_key}
use ossctl.Schema.{
  Ecosystem, Adapter, Ecosystem-discrete, ecosystem_as_str, parse_ecosystem, default_adapter,
  binary, homebrew_tap, single,
}
use ossctl.Journal.{
  VerifyOutcome, PublishReceipt, PhaseRecord, RunState, matches, conflicts, missing, unknown, Phase,
  is_publish_or_later,
}
use ossctl.Plan.{PlanTarget, ReleasePlan}
use ossctl.Plan.TargetIds.{journal_target_ids}
use ossctl.Adapters.{AdapterReceipt, is_ci_delegated}
use mathlib.Core.Logic.{ite}

pub data JournalState : Type 0 where
  published not_recorded cancelled delegated : JournalState

pub data ResumeAction : Type 0 where
  skip adopt_forward resume_publish conflict unverifiable stop_cancelled leave_delegated :
      ResumeAction

-- `ResumeAction::is_blocker`
unfoldable pub is_blocker : ResumeAction → Bool
is_blocker skip = false
is_blocker adopt_forward = false
is_blocker resume_publish = false
is_blocker conflict = true
is_blocker unverifiable = true
is_blocker stop_cancelled = true
is_blocker leave_delegated = false

pub record TargetDecision : Type 0 where
  pub target : String
  pub ecosystem : Ecosystem
  pub journal_state : JournalState
  pub outcome : VerifyOutcome
  pub action : ResumeAction
  pub adopted_receipt : Option PublishReceipt

-- `classify`: the state, the outcome, the go-ahead, and whether the publish phase was reached
unfoldable pub classify : JournalState → VerifyOutcome → Bool → Bool → ResumeAction
classify cancelled o a r = stop_cancelled
classify delegated o a r = leave_delegated
classify published matches a r = skip
classify published conflicts a r = conflict
classify published missing a r = conflict
classify published unknown a r = if a then skip else unverifiable
classify not_recorded matches a r = adopt_forward
classify not_recorded missing a r = resume_publish
classify not_recorded conflicts a r = conflict
classify not_recorded unknown a r =
    if not r then resume_publish else if a then resume_publish else unverifiable

abbrev pub phase_reached : Option Phase → Bool
phase_reached none = false
phase_reached (some p) = is_publish_or_later p

abbrev pub record_reached : PhaseRecord → Bool
record_reached r = is_publish_or_later r.phase

-- `publish_phase_reached`
unfoldable pub publish_phase_reached : RunState → Bool
unfolding is_publish_or_later
publish_phase_reached s =
    phase_reached s.current_phase
    || any record_reached s.phases
    || not (is_empty s.published)
    || not (is_empty s.delegated)
    || not (is_empty s.tags)

has_prefix : String → String → Bool
has_prefix String.[] s = true
has_prefix (String.◌∷◌ a p) String.[] = false
has_prefix (String.◌∷◌ a p) (String.◌∷◌ b s) = code a == code b && has_prefix p s

-- `str::contains`
contains_text : String → String → Bool
unfolding has_prefix
contains_text p String.[] = has_prefix p ""
contains_text p (String.◌∷◌ b s) = has_prefix p (String.◌∷◌ b s) || contains_text p s

is_formula_url : Option String → Bool
unfolding contains_text
is_formula_url none = false
is_formula_url (some url) = contains_text "/Formula/" url || contains_text "/pull/" url

-- the adapter that a receipt is checked with: the plan's, else a guess from the receipt
unfoldable pub receipt_adapter : Option PlanTarget → Ecosystem → PublishReceipt → Adapter
unfolding default_adapter is_formula_url
receipt_adapter (some t) e r = t.adapter
receipt_adapter none e r =
    ite (Ecosystem-discrete e binary)
      (if is_formula_url r.registry_url then homebrew_tap else default_adapter e single)
      (default_adapter e single)

-- `plan_targets`: the targets by their ids
unfoldable pub plan_targets : List String → List PlanTarget → Dict PlanTarget → Dict PlanTarget
plan_targets [] ts d = d
plan_targets (i ∷ is) [] d = d
plan_targets (i ∷ is) (t ∷ ts) d = plan_targets is ts (insert i t d)

-- What the adapters' `verify` observes; an error of theirs is `unknown`.
module _ (verify : AdapterReceipt → VerifyOutcome) where
  outcome_for : Option PlanTarget → PublishReceipt → String → Option Ecosystem → VerifyOutcome
  unfolding receipt_adapter
  outcome_for planned r name none = unknown
  outcome_for planned r name (some e) = verify (record {
    adapter = receipt_adapter planned e r;
    ecosystem = e;
    package_name = name;
    version = r.version;
    digest = r.digest;
    remote_url = r.registry_url;
  })

  -- `reconcile::classify`: a receipt without a name, or of an unknown ecosystem, is not looked up
  unfoldable pub receipt_outcome :
      Option PlanTarget → PublishReceipt → Option String → VerifyOutcome
  unfolding outcome_for
  receipt_outcome planned r none = unknown
  receipt_outcome planned r (some name) = outcome_for planned r name (parse_ecosystem r.ecosystem)

  -- the rows of the report for the published targets
  unfoldable pub published_report : Dict PlanTarget → Dict PublishReceipt → Dict VerifyOutcome
  unfolding receipt_outcome
  published_report plan [] = []
  published_report plan ((id, r) ∷ rest) =
      (id, receipt_outcome (lookup id plan) r r.package_name) ∷ published_report plan rest

  -- `verify_not_recorded`
  unfoldable pub verify_not_recorded : PlanTarget → String → Option String → VerifyOutcome
  verify_not_recorded t version none = unknown
  verify_not_recorded t version (some name) = verify (record {
    adapter = t.adapter;
    ecosystem = t.ecosystem;
    package_name = name;
    version = version;
    digest = none;
    remote_url = none;
  })

  -- the receipt that an adoption journals
  abbrev pub synthetic_receipt : PlanTarget → String → PublishReceipt
  synthetic_receipt t version = record {
    ecosystem = ecosystem_as_str t.ecosystem;
    package_name = t.package_name;
    version = version;
    registry_url = none;
    digest = none;
  }

  abbrev pub adoption : ResumeAction → PublishReceipt → Option PublishReceipt
  adoption adopt_forward r = some r
  adoption _ r = none

  module _ (state : RunState) (plan : ReleasePlan) (allow_unverified : Bool) where
    abbrev pub report : Dict VerifyOutcome
    report =
        published_report (plan_targets (journal_target_ids plan.targets) plan.targets [])
          state.published

    abbrev pub decision :
        PlanTarget → String → JournalState → VerifyOutcome → ResumeAction → TargetDecision
    decision t id j o a = record {
      target = id;
      ecosystem = t.ecosystem;
      journal_state = j;
      outcome = o;
      action = a;
      adopted_receipt = adoption a (synthetic_receipt t plan.version);
    }

    classified : PlanTarget → String → JournalState → VerifyOutcome → TargetDecision
    classified t id j o =
        decision t id j o (classify j o allow_unverified (publish_phase_reached state))

    -- the body of the loop over the targets and their ids
    unfoldable pub decide : PlanTarget → String → TargetDecision
    unfolding classified
    decide t id =
        if contains_key id state.cancelled
        then decision t id cancelled unknown stop_cancelled
        else if contains id state.delegated || is_ci_delegated t.adapter
        then decision t id delegated unknown leave_delegated
        else if contains_key id state.published
        then classified t id published (get_or (lookup id report) unknown)
        else classified t id not_recorded (verify_not_recorded t plan.version t.package_name)

    decide_all : List PlanTarget → List String → List TargetDecision
    unfolding decide
    decide_all [] ids = []
    decide_all (t ∷ ts) [] = []
    decide_all (t ∷ ts) (id ∷ ids) = decide t id ∷ decide_all ts ids

    -- `reconcile_for_resume`
    unfoldable pub reconcile_for_resume : List TargetDecision
    unfolding decide_all journal_target_ids
    reconcile_for_resume = decide_all plan.targets (journal_target_ids plan.targets)

-- `ResumeReconcile::is_blocked`
unfoldable pub is_blocked : List TargetDecision → Bool
unfolding is_blocker
is_blocked ds = any (λ d. is_blocker d.action) ds

receipt_of :
    String → Option PublishReceipt → List (String × PublishReceipt) → List (String × PublishReceipt)
receipt_of t none rest = rest
receipt_of t (some r) rest = (t, r) ∷ rest

-- `ResumeReconcile::adoptions`
unfoldable pub adoptions : List TargetDecision → List (String × PublishReceipt)
unfolding receipt_of
adoptions [] = []
adoptions (d ∷ ds) = receipt_of d.target d.adopted_receipt (adoptions ds)
