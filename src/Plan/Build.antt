-- ===== src/Plan/Build.antt =====
-- The plan built and sealed, and the check of an approved plan against the repository
-- (crates/shipshape-core/src/release/plan.rs, `build`, `build_with_bump`, `verify`).
pub mod Sealed
pub mod Drift
pub mod Reasons
use Prim.Native.String.{◌++◌ as str_append}
use mathlib.Core.Logic.{ite}
use mathlib.Core.Option.{or_else, get_or}
use text.Mathlib.Text.{get?}
use ossctl.Base.{
  ℕ, ◌==◌, Bool, true, false, ◌&&◌, ◌||◌, not, String, str_eq, Option, none, some, List, [], ◌∷◌,
  ◌++◌, is_empty, is_some, any, if◌then◌else◌,
}
use ossctl.Base.Text.{bytes, version_text}
use ossctl.Bump.{Bumped, good, bad, bump_version}
use ossctl.Schema.{Registry-discrete, Adapter-discrete}
use ossctl.Plan.{
  PlanTarget, BumpLevel, ChangelogMode, curated, automated, fragment, ChangelogSource,
  issuectl_trailers, conventional_commits, manual, ChangelogFinalizePlan, PinRewrite, BumpPlan,
  PlanPhase, bump, dry_run_all, build_all, publish_all, tag, dist, verify, advance_branch,
  ReleasePlan,
}
use ossctl.Plan.Inputs.{Distribution, Contract, Facts, ecosystem_eq}
use ossctl.Plan.Targets.{resolve_targets}
use ossctl.Plan.Pins.{Planned, planned, declined, version_refused, derive_pin_rewrites}
use ossctl.Plan.Edits.{map_planned, derive_bump_plan}

-- `PlanPhase::SEQUENCE`
abbrev pub phase_sequence : List PlanPhase
phase_sequence = dry_run_all ∷ build_all ∷ publish_all ∷ tag ∷ dist ∷ verify ∷ advance_branch ∷ []

unfoldable pub bump_aware_phases : Bool → List PlanPhase
bump_aware_phases has_bump = if has_bump then bump ∷ phase_sequence else phase_sequence

-- The first tap that a distribution declares, and the platforms of all.
unfoldable pub first_tap : List Distribution → Option String
first_tap [] = none
first_tap (d ∷ ds) = or_else d.homebrew_tap (first_tap ds)

unfoldable pub all_platforms : List Distribution → List String
all_platforms [] = []
all_platforms (d ∷ ds) = d.platforms ++ all_platforms ds

pub record SealInput : Type 0 where
  pub domain : String
  pub seal_version : ℕ
  pub contract_schema_version : ℕ
  pub contract : Contract
  pub head_sha : String
  pub version : String
  pub targets : List PlanTarget
  pub phases : List PlanPhase
  pub bump : Option BumpPlan

unfoldable pub seal_input :
    Contract → List PlanTarget → String → String → List PlanPhase → Option BumpPlan → SealInput
seal_input contract targets head_sha version phases bumps = record {
  domain = "ossctl.release-plan";
  seal_version = 11;
  contract_schema_version = contract.schema_version;
  contract = contract;
  head_sha = head_sha;
  version = version;
  targets = targets;
  phases = phases;
  bump = bumps;
}

-- the `==` of options of texts, of targets and of lists of targets
unfoldable pub name_eq : Option String → Option String → Bool
name_eq none none = true
name_eq none (some b) = false
name_eq (some a) none = false
name_eq (some a) (some b) = str_eq a b

unfoldable pub target_eq : PlanTarget → PlanTarget → Bool
unfolding name_eq
target_eq s t =
    ecosystem_eq s.ecosystem t.ecosystem
    && (name_eq s.package_name t.package_name
        && (ite (Registry-discrete s.registry t.registry) true false
            && ite (Adapter-discrete s.adapter t.adapter) true false))

unfoldable pub targets_eq : List PlanTarget → List PlanTarget → Bool
unfolding target_eq
targets_eq [] [] = true
targets_eq [] (t ∷ ts) = false
targets_eq (s ∷ ss) [] = false
targets_eq (s ∷ ss) (t ∷ ts) = target_eq s t && targets_eq ss ts

-- `short_sha`
unfoldable pub short_sha : String → String
short_sha sha = get_or (get? sha 0 12) sha

-- the texts of the reasons, with what they name
pub data DriftReason : Type 0 where
  head_moved : String → String → DriftReason
  schema_changed : ℕ → ℕ → DriftReason
  targets_changed contract_changed : DriftReason

pub record PlanDrift : Type 0 where
  pub approved_plan_id : String
  pub current_plan_id : String
  pub reasons : List DriftReason

pub data Verified : Type 0 where
  up_to_date : Verified
  plan_stale : PlanDrift → Verified

abbrev pub reason_if : Bool → DriftReason → List DriftReason
reason_if b r = if b then r ∷ [] else []

unfoldable pub specific_reasons :
    ReleasePlan → Contract → List PlanTarget → String → List DriftReason
unfolding targets_eq short_sha
specific_reasons approved contract current_targets head_sha =
    reason_if (not (str_eq approved.head_sha head_sha))
      (head_moved (short_sha approved.head_sha) (short_sha head_sha))
    ++ (reason_if (not (approved.contract_schema_version == contract.schema_version))
          (schema_changed approved.contract_schema_version contract.schema_version)
        ++ reason_if (not (targets_eq approved.targets current_targets)) targets_changed)

unfoldable pub or_generic : List DriftReason → List DriftReason
or_generic reasons = if is_empty reasons then contract_changed ∷ [] else reasons

-- `to_vec` is the JSON serialization of serde_json, `hex` the SHA-256 digest in hexadecimal.
module _ (to_vec : SealInput → List ℕ) (hex : List ℕ → String) where
  unfoldable pub seal :
      Contract → List PlanTarget → String → String → List PlanPhase → Option BumpPlan → String
  unfolding seal_input
  seal contract targets head_sha version phases bumps =
      hex (to_vec (seal_input contract targets head_sha version phases bumps))

  unfoldable pub build_inner : Contract → Facts → String → String → Option BumpPlan → ReleasePlan
  unfolding seal bump_aware_phases resolve_targets first_tap all_platforms
  build_inner contract facts head_sha version bumps = record {
    plan_id =
        seal contract (resolve_targets contract facts) head_sha version
          (bump_aware_phases (is_some bumps)) bumps;
    contract_schema_version = contract.schema_version;
    head_sha = head_sha;
    version = version;
    targets = resolve_targets contract facts;
    phases = bump_aware_phases (is_some bumps);
    bump = bumps;
    homebrew_tap = first_tap contract.distributions;
    license = some contract.license;
    description = facts.description;
    homebrew_platforms = all_platforms contract.distributions;
  }

  unfoldable pub build : Contract → Facts → String → String → ReleasePlan
  unfolding build_inner
  build contract facts head_sha version = build_inner contract facts head_sha version none

  unfoldable pub build_bumped :
      Contract → Facts → String → String → BumpLevel → Bumped (List ℕ) → Planned ReleasePlan
  unfolding derive_bump_plan build_inner map_planned version_text
  build_bumped contract facts head_sha from_version level (bad r) = declined (version_refused r)
  build_bumped contract facts head_sha from_version level (good to) =
      map_planned (λ (b : BumpPlan). build_inner contract facts head_sha (version_text to) (some b))
        (derive_bump_plan contract facts head_sha level from_version (version_text to))

  unfoldable pub build_with_bump :
      Contract → Facts → String → String → BumpLevel → Planned ReleasePlan
  unfolding build_bumped bump_version bytes
  build_with_bump contract facts head_sha from_version level =
      build_bumped contract facts head_sha from_version level
        (bump_version level (bytes from_version))

  unfoldable pub compute_plan_id : Contract → Facts → String → String → String
  unfolding seal resolve_targets
  compute_plan_id contract facts head_sha version =
      seal contract (resolve_targets contract facts) head_sha version phase_sequence none

  -- `verify`
  unfoldable pub verify_plan : ReleasePlan → Contract → Facts → String → Verified
  unfolding seal resolve_targets specific_reasons or_generic
  verify_plan approved contract facts head_sha =
      let current_targets = resolve_targets contract facts in
      let current_id =
        seal contract current_targets head_sha approved.version approved.phases approved.bump in
      if str_eq current_id approved.plan_id
      then up_to_date
      else plan_stale (record {
        approved_plan_id = approved.plan_id;
        current_plan_id = current_id;
        reasons = or_generic (specific_reasons approved contract current_targets head_sha);
      })
