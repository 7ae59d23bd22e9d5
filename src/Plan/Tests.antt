-- ===== src/Plan/Tests.antt =====
-- The planner at a small workspace (crates/shipshape-core/src/release/plan.rs).
use mathlib.Core.List.{Memᴰ}
use mathlib.Core.Option.{or_else}
use ossctl.Base.{
  ℕ, ap, str_eq, ◌≡◌, ◌≢◌, ◌↔◌, ◌⊎◌, refl, true, false, ◌||◌, String, none, some, List, [], ◌∷◌,
  map, any, is_empty, is_some, filter, find,
}
use ossctl.Base.SortBy.{sort_by, dedup_by}
use ossctl.Base.Dict.{contains}
use ossctl.Schema.{
  rust, binary, crates_io, homebrew, cargo_publish, homebrew_tap, Ecosystem-discrete,
  Registry-discrete, Adapter-discrete,
}
use ossctl.Plan.{PlanTarget, BumpPlan, ReleasePlan, patch, curated, conventional_commits}
use ossctl.Plan.Order.{
  WorkspaceMember, package_of, topo_order_members, topo_rounds, take_ready, decrement, first_slot,
  count_deps,
}
use ossctl.Plan.Inputs.{Contract, RustWorkspace, Facts}
use ossctl.Plan.Targets.{
  is_rust_crates_io_publish, by_name, deps_of, push_deps, close_over, count_edges, reversed,
  required_of, append_roots, dependency_closure_order, named, splice, expand_with,
  expand_rust_workspace_members, resolve_targets,
}
use ossctl.Base.Text.{is_whitespace, trim_start, starts_with_equals, bytes, version_text}
use ossctl.Bump.{bump_version}
use ossctl.Plan.Pins.{bool_eq, planned, is_exact, exact_pin, owner_place}
use ossctl.Plan.Pins.Counted.{rewrites}
use ossctl.Plan.Pins.Complete.{by_owner}
use ossctl.Plan.Edits.{bump_plan}
use ossctl.Plan.Build.{
  SealInput, seal_input, build_inner, build, build_with_bump, bump_aware_phases, verify_plan,
  up_to_date, plan_stale, PlanDrift, head_moved,
}
use ossctl.Plan.Build.Drift.{NoCollision, verify_plan-build_inner}
use ossctl.Plan.Build.Reasons.{
  is_head_moved, is_schema_changed, is_targets_changed, verify_plan-plan_stale,
}
use ossctl.Plan.Build.Sealed.{build_with_bump-Handled}
use ossctl.Plan.Versions.{resolve_release_version, determined}
use ossctl.Plan.Versions.Classified.{Agreed, Checked}
use ossctl.Plan.Versions.Agreement.{resolve_release_version-Agreed}
use ossctl.Schema.{cargo_publish_ci}
use ossctl.Plan.Conflicts.{
  delegated_packages, extend_stack, walk_deps, delegated_dependency_conflicts,
}
use ossctl.Plan.Conflicts.Found.{between, delegated_dependency_conflicts-Reach}
use ossctl.Plan.Targets.{named}
use ossctl.Plan.Targets.Closure.{Reach}
use ossctl.Plan.Targets.PublishSet.{dependency_closure_order-Reach}
use ossctl.Plan.Targets.Superset.{
  Needed, Memᴰ-expand_rust_workspace_members, expand_rust_workspace_members-Needed,
}

abbrev core : WorkspaceMember
core = record { package_name = "core"; workspace_deps = [] }

abbrev cli : WorkspaceMember
cli = record { package_name = "cli"; workspace_deps = "core" ∷ [] }

abbrev extra : WorkspaceMember
extra = record { package_name = "extra"; workspace_deps = "core" ∷ [] }

abbrev members : List WorkspaceMember
members = cli ∷ extra ∷ core ∷ []

abbrev workspace : RustWorkspace
workspace = record {
  members = members;
  pin_owners =
      record {
        package_name = "cli";
        pin_reqs = ("core", some "=1.2.3" ∷ none ∷ []) ∷ ("serde", some "=1.0.0" ∷ []) ∷ [];
      }
      ∷ [];
  workspace_pin_reqs = [];
  pin_parse_error = none;
}

abbrev facts : Facts
facts = record {
  packages =
      record {
        ecosystem = rust;
        manifest = "cli/Cargo.toml";
        package_name = some "cli";
        version = some "1.2.3";
      }
      ∷ record {
        ecosystem = rust;
        manifest = "core/Cargo.toml";
        package_name = some "core";
        version = some "1.2.3";
      }
      ∷ [];
  tags = [];
  description = none;
  rust_workspace = some workspace;
}

abbrev crate : String → PlanTarget
crate name = record {
  ecosystem = rust;
  package_name = some name;
  registry = crates_io;
  adapter = cargo_publish;
}

abbrev formula : PlanTarget
formula = record {
  ecosystem = binary;
  package_name = none;
  registry = homebrew;
  adapter = homebrew_tap;
}

dependency_closure_order-Reach_example :
    (contains "core" (dependency_closure_order ("cli" ∷ []) members) ≡ true) ↔ (
      Reach ("cli" ∷ []) members "core"
      × ((contains "core" (map package_of members) || contains "core" ("cli" ∷ [])) ≡ true))
dependency_closure_order-Reach_example = dependency_closure_order-Reach ("cli" ∷ []) members "core"

-- The declared crate gets its dependency before it, and not the crate that nothing needs.
expand_test :
    expand_rust_workspace_members (formula ∷ crate "cli" ∷ []) facts
    ≡ formula ∷ crate "core" ∷ crate "cli" ∷ []
unfolding expand_rust_workspace_members expand_with find filter is_rust_crates_io_publish
    dependency_closure_order named splice required_of append_roots close_over push_deps deps_of
    by_name reversed count_edges topo_order_members topo_rounds take_ready decrement first_slot
    count_deps contains or_else Ecosystem-discrete Registry-discrete Adapter-discrete
expand_test = refl

Memᴰ-expand_rust_workspace_members_example :
    Memᴰ (crate "cli") (expand_rust_workspace_members (formula ∷ crate "cli" ∷ []) facts)
Memᴰ-expand_rust_workspace_members_example =
    Memᴰ-expand_rust_workspace_members (formula ∷ crate "cli" ∷ []) facts (crate "cli")
      (Memᴰ.tail (Memᴰ.head refl))

added : Memᴰ (crate "core") (expand_rust_workspace_members (formula ∷ crate "cli" ∷ []) facts)
added = rw expand_test (Memᴰ.tail (Memᴰ.head refl))

expand_rust_workspace_members-Needed_example :
    Memᴰ (crate "core") (formula ∷ crate "cli" ∷ [])
    ⊎ Needed (formula ∷ crate "cli" ∷ []) facts (crate "core")
expand_rust_workspace_members-Needed_example =
    expand_rust_workspace_members-Needed (formula ∷ crate "cli" ∷ []) facts (crate "core") added

abbrev contract : Contract
contract = record {
  schema_version = 2;
  ecosystems = rust ∷ [];
  targets =
      record {
        ecosystem = rust;
        package_name = some "cli";
        registry = crates_io;
        adapter = cargo_publish;
      }
      ∷ [];
  distributions = [];
  changelog = record {
    mode = curated;
    source = conventional_commits;
    fragment_dir = "changelog.d";
  };
  bump_hook = none;
  license = "MIT";
  others = "{}";
}

resolve_release_version-Agreed_example :
    (resolve_release_version contract facts ≡ determined "1.2.3") ↔ (
      Agreed facts "1.2.3" (resolve_targets contract facts)
      × ((t : PlanTarget) × (name : String) × Memᴰ t (resolve_targets contract facts)
          × Checked facts t name))
resolve_release_version-Agreed_example = resolve_release_version-Agreed contract facts "1.2.3" refl

-- a digest that tells a bumped plan from another, and two commits from each other
abbrev to_vec : SealInput → List ℕ
to_vec i = elim i.bump [ none ↦ bytes i.head_sha | some b ↦ b'7' ∷ [] ]

abbrev hex : List ℕ → String
hex bs = version_text bs

abbrev bumped_plan : ReleasePlan
bumped_plan = build_inner to_vec hex contract facts "1" "1.2.4" (
    some (
      bump_plan contract facts "1" patch "1.2.3" "1.2.4" (
        record {
          in_package = "cli";
          workspace_root = false;
          dependency = "core";
          from = "=1.2.3";
          to = "=1.2.4";
        }
        ∷ [])))

bump_test : build_with_bump to_vec hex contract facts "1" "1.2.3" patch ≡ planned bumped_plan
unfolding build_with_bump bump_version bytes version_text
bump_test = refl

build_with_bump-Handled_example :
    ("=1.2.3" ≡ exact_pin "1.2.3")
    × (any
          (rewrites
            (owner_place (record {
              package_name = "cli";
              pin_reqs = ("core", some "=1.2.3" ∷ none ∷ []) ∷ ("serde", some "=1.0.0" ∷ []) ∷ [];
            }))
            "core")
          (record {
            in_package = "cli";
            workspace_root = false;
            dependency = "core";
            from = "=1.2.3";
            to = "=1.2.4";
          }
            ∷ [])
        ≡ true)
unfolding bool_eq build_inner bump_plan
build_with_bump-Handled_example =
    build_with_bump-Handled to_vec hex contract facts "1" "1.2.3" patch workspace bumped_plan refl
      bump_test (by_owner _ (Memᴰ.head refl)) "core" "=1.2.3" (some "=1.2.3" ∷ none ∷ [])
      (Memᴰ.head refl) (unfold contains in refl) (Memᴰ.head refl)
      (unfold is_exact trim_start starts_with_equals is_whitespace in refl)

apart_commits :
    NoCollision to_vec hex
      (seal_input contract
        (resolve_targets contract facts)
        "2"
        "1.2.3"
        (bump_aware_phases (is_some {A = BumpPlan} none))
        none)
      (seal_input contract
        (resolve_targets contract facts)
        "1"
        "1.2.3"
        (bump_aware_phases (is_some {A = BumpPlan} none))
        none)
unfolding seal_input bytes version_text
apart_commits h = let different : false ≡ true = ap (λ (s : String). str_eq s "1") h in cc

verify_plan-build_inner_example :
    (verify_plan to_vec hex
        (build_inner to_vec hex contract facts "1" "1.2.3" none)
        contract
        facts
        "2"
      ≡ up_to_date)
    ↔ ((contract ≡ contract)
        × (◌≡◌ {A = String} "2" "1")
        × (resolve_targets contract facts ≡ resolve_targets contract facts))
verify_plan-build_inner_example =
    verify_plan-build_inner to_vec hex contract contract facts facts "1" "2" "1.2.3" none
      apart_commits

abbrev moved : PlanDrift
moved = record { approved_plan_id = "1"; current_plan_id = "2"; reasons = head_moved "1" "2" ∷ [] }

stale_test :
    verify_plan to_vec hex (build to_vec hex contract facts "1" "1.2.3") contract facts "2"
    ≡ plan_stale moved
unfolding verify_plan build build_inner bytes version_text Ecosystem-discrete Registry-discrete
    Adapter-discrete or_else topo_rounds push_deps deps_of take_ready first_slot count_deps
    decrement
stale_test = refl

verify_plan-plan_stale_example :
    (moved.approved_plan_id ≡ (build to_vec hex contract facts "1" "1.2.3").plan_id)
    × (moved.current_plan_id ≢ moved.approved_plan_id)
    × (is_empty moved.reasons ≡ false)
    × ((any is_head_moved moved.reasons ≡ true)
        ↔ ((build to_vec hex contract facts "1" "1.2.3").head_sha ≢ "2"))
    × ((any is_schema_changed moved.reasons ≡ true) ↔ (
        (build to_vec hex contract facts "1" "1.2.3").contract_schema_version
        ≢ contract.schema_version))
    × ((any is_targets_changed moved.reasons ≡ true)
        ↔ ((build to_vec hex contract facts "1" "1.2.3").targets ≢ resolve_targets contract facts))
verify_plan-plan_stale_example =
    verify_plan-plan_stale to_vec hex (build to_vec hex contract facts "1" "1.2.3") contract facts
      "2" moved stale_test

abbrev ci_crate : String → PlanTarget
ci_crate name = record {
  ecosystem = rust;
  package_name = some name;
  registry = crates_io;
  adapter = cargo_publish_ci;
}

abbrev delegating_plan : ReleasePlan
delegating_plan = record {
  plan_id = "p";
  contract_schema_version = 2;
  head_sha = "1";
  version = "1.2.3";
  targets = crate "cli" ∷ ci_crate "core" ∷ [];
  phases = [];
  bump = none;
  homebrew_tap = none;
  license = none;
  description = none;
  homebrew_platforms = [];
}

-- The engine would publish cli before CI publishes core.
conflict_test :
    delegated_dependency_conflicts delegating_plan facts
    ≡ record { engine_package = "cli"; delegated_package = "core" } ∷ []
unfolding delegated_dependency_conflicts walk_deps deps_of contains extend_stack Ecosystem-discrete
    Registry-discrete Adapter-discrete dedup_by sort_by or_else
conflict_test = refl

delegated_dependency_conflicts-Reach_example :
    (any (between "cli" "core") (delegated_dependency_conflicts delegating_plan facts) ≡ true) ↔ (
      (contains "cli" (named (filter is_rust_crates_io_publish delegating_plan.targets)) ≡ true)
      × (contains "core" (delegated_packages delegating_plan.targets) ≡ true)
      × Reach (deps_of workspace.members "cli") workspace.members "core")
delegated_dependency_conflicts-Reach_example =
    delegated_dependency_conflicts-Reach delegating_plan facts workspace "cli" "core" refl
