-- ===== src/Coordinator/Resolve.antt =====
-- The plan's targets made into units of work, and the check before a run is created
-- (crates/shipshape-core/src/release/coordinator.rs, `resolve_target_plans`, `validate_plan`).
pub mod Ids
use ossctl.Base.{
  ℕ, String, Bool, true, false, not, ◌==◌, Option, none, some, List, [], ◌∷◌, str_eq, any, length,
  is_empty, if◌then◌else◌,
}
use ossctl.Base.Dict.{contains}
use ossctl.Schema.{Ecosystem, Registry, Registry-discrete, homebrew}
use ossctl.Plan.{PlanTarget, ReleasePlan}
use ossctl.Plan.TargetIds.{journal_target_ids, all_new}
use ossctl.Coordinator.World.{
  TargetPlan, PlanError, no_package, duplicate_id, no_platform, ambiguous_platforms,
}
use mathlib.Core.Logic.{ite}

pub data Checked (A : Type 0) : Type 0 where
  resolved : A → Checked A
  refused : PlanError → Checked A

abbrev pub target_plan : String → PlanTarget → String → String → TargetPlan
target_plan version t i name = record {
  id = i;
  ecosystem = t.ecosystem;
  package_name = name;
  registry = t.registry;
  adapter = t.adapter;
  version = version;
}

push_plan : TargetPlan → Checked (List TargetPlan) → Checked (List TargetPlan)
push_plan tp (resolved tps) = resolved (tp ∷ tps)
push_plan tp (refused e) = refused e

-- one pass of the loop: the package, then the id against those that were seen
resolve_one :
    String
    → PlanTarget
    → String
    → Option String
    → Bool
    → Checked (List TargetPlan)
    → Checked (List TargetPlan)
unfolding push_plan
resolve_one version t i none seen rest = refused (no_package t.ecosystem)
resolve_one version t i (some name) true rest = refused (duplicate_id i)
resolve_one version t i (some name) false rest = push_plan (target_plan version t i name) rest

unfoldable pub resolve_loop :
    String → List PlanTarget → List String → List String → Checked (List TargetPlan)
unfolding resolve_one contains
resolve_loop version [] ids seen = resolved []
resolve_loop version (t ∷ ts) [] seen = resolved []
resolve_loop version (t ∷ ts) (i ∷ ids) seen =
    let rest = resolve_loop version ts ids (i ∷ seen) in
    resolve_one version t i t.package_name (contains i seen) rest

-- `resolve_target_plans`
unfoldable pub resolve_target_plans : ReleasePlan → Checked (List TargetPlan)
unfolding resolve_loop journal_target_ids
resolve_target_plans plan =
    resolve_loop plan.version plan.targets (journal_target_ids plan.targets) []

-- `homebrew_platform_condition` of adapters/homebrew.rs
unfoldable pub homebrew_platform_condition : String → Option String
homebrew_platform_condition triple =
    if str_eq triple "aarch64-apple-darwin"
    then some "if OS.mac? && Hardware::CPU.arm?"
    else if str_eq triple "x86_64-apple-darwin"
    then some "if OS.mac? && Hardware::CPU.intel?"
    else if str_eq triple "aarch64-unknown-linux-gnu"
    then some "if OS.linux? && Hardware::CPU.arm?"
    else if str_eq triple "aarch64-unknown-linux-musl"
    then some "if OS.linux? && Hardware::CPU.arm?"
    else if str_eq triple "x86_64-unknown-linux-gnu"
    then some "if OS.linux? && Hardware::CPU.intel?"
    else if str_eq triple "x86_64-unknown-linux-musl"
    then some "if OS.linux? && Hardware::CPU.intel?"
    else none

push_condition : Option String → List String → List String
push_condition none cs = cs
push_condition (some c) cs = c ∷ cs

-- the conditions of the platforms that Homebrew can serve
unfoldable pub conditions : List String → List String
unfolding homebrew_platform_condition push_condition
conditions [] = []
conditions (p ∷ ps) = push_condition (homebrew_platform_condition p) (conditions ps)

is_homebrew : PlanTarget → Bool
is_homebrew t = ite (Registry-discrete t.registry homebrew) true false

platform_check : List String → Checked (List TargetPlan) → Checked (List TargetPlan)
platform_check cs r =
    if is_empty cs
    then refused no_platform
    else if not (all_new cs)
    then refused ambiguous_platforms
    else r

after_resolve : ReleasePlan → Checked (List TargetPlan) → Checked (List TargetPlan)
unfolding platform_check conditions is_homebrew
after_resolve plan (refused e) = refused e
after_resolve plan (resolved tps) =
    if any is_homebrew plan.targets
    then platform_check (conditions plan.homebrew_platforms) (resolved tps)
    else resolved tps

-- `validate_plan`, with the targets that it resolved
unfoldable pub validate_plan : ReleasePlan → Checked (List TargetPlan)
unfolding after_resolve resolve_target_plans
validate_plan plan = after_resolve plan (resolve_target_plans plan)
