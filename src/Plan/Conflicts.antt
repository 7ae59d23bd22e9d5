-- ===== src/Plan/Conflicts.antt =====
-- Engine-published crates that depend on crates published by CI
-- (crates/shipshape-core/src/release/plan.rs, `delegated_dependency_conflicts`).
pub mod Found
use Prim.Native.String.{compare}
use mathlib.Core.Logic.{ite}
use text.Mathlib.Text.{is_lt, is_le, is_eq}
use ossctl.Base.{
  ℕ, zero, suc, ◌+◌, Bool, true, false, ◌&&◌, ◌||◌, String, str_eq, Option, none, some, List, [],
  ◌∷◌, ◌++◌, map, length, fold, filter, is_empty, if◌then◌else◌,
}
use ossctl.Base.Dict.{contains}
use ossctl.Base.SortBy.{sort_by, dedup_by}
use ossctl.Schema.{Adapter-discrete, cargo_publish_ci}
use ossctl.Plan.{PlanTarget, ReleasePlan}
use ossctl.Plan.Order.{WorkspaceMember}
use ossctl.Plan.Inputs.{RustWorkspace, Facts}
use ossctl.Plan.Targets.{is_rust_crates_io_publish, deps_of, count_edges, named}

pub record DelegatedDependencyConflict : Type 0 where
  pub engine_package : String
  pub delegated_package : String

-- `t.adapter == Adapter::CargoPublishCi`
unfoldable pub is_ci_published : PlanTarget → Bool
is_ci_published t = ite (Adapter-discrete t.adapter cargo_publish_ci) true false

-- The packages of the set `delegated`.
unfoldable pub delegated_packages : List PlanTarget → List String
unfolding is_ci_published named filter
delegated_packages targets = named (filter is_ci_published targets)

-- `stack.extend(collect(deps))`; the last item of the code's stack is the head here.
unfoldable pub extend_stack : List String → List String → List String
extend_stack deps stack = fold (λ (s : List String) (d : String). d ∷ s) stack deps

-- The packages that enter the set `seen`, in the rounds of the loop.
unfoldable pub walk_deps : List WorkspaceMember → ℕ → List String → List String → List String
unfolding contains extend_stack deps_of
walk_deps members zero seen stack = seen
walk_deps members (suc left) seen [] = seen
walk_deps members (suc left) seen (pkg ∷ stack) = elim (contains pkg seen) [
  | true ↦ walk_deps members left seen stack
  | false ↦ walk_deps members left (pkg ∷ seen) (extend_stack (deps_of members pkg) stack)
]

-- A conflict is pushed for each delegated package as it enters `seen`.
unfoldable pub conflicts_among :
    List String → String → List String → List DelegatedDependencyConflict
unfolding contains
conflicts_among delegated root [] = []
conflicts_among delegated root (pkg ∷ seen) =
    let rest = conflicts_among delegated root seen in
    if contains pkg delegated
    then record { engine_package = root; delegated_package = pkg } ∷ rest
    else rest

-- What one engine-published crate reaches; its own dependencies start the stack.
unfoldable pub reached_from : List WorkspaceMember → String → List String
unfolding walk_deps deps_of count_edges extend_stack
reached_from members root =
    walk_deps members (length (deps_of members root) + count_edges members) []
      (extend_stack (deps_of members root) [])

-- The loop over the engine-published crates that have a package.
unfoldable pub engine_conflicts :
    List String → List WorkspaceMember → List String → List DelegatedDependencyConflict
unfolding conflicts_among reached_from
engine_conflicts delegated members [] = []
engine_conflicts delegated members (root ∷ roots) =
    conflicts_among delegated root (reached_from members root)
    ++ engine_conflicts delegated members roots

unfoldable pub conflict_le : DelegatedDependencyConflict → DelegatedDependencyConflict → Bool
conflict_le a b =
    let o = compare a.engine_package b.engine_package in
    is_lt o || (is_eq o && is_le (compare a.delegated_package b.delegated_package))

-- the derived `==`
unfoldable pub conflict_same : DelegatedDependencyConflict → DelegatedDependencyConflict → Bool
conflict_same a b =
    str_eq a.engine_package b.engine_package && str_eq a.delegated_package b.delegated_package

unfoldable pub workspace_conflicts :
    List PlanTarget → RustWorkspace → List DelegatedDependencyConflict
unfolding delegated_packages engine_conflicts conflict_le conflict_same is_rust_crates_io_publish
    named filter
workspace_conflicts targets workspace =
    if is_empty (delegated_packages targets)
    then []
    else dedup_by conflict_same (
        sort_by conflict_le (
          engine_conflicts (delegated_packages targets) workspace.members
            (named (filter is_rust_crates_io_publish targets))))

-- `delegated_dependency_conflicts`
unfoldable pub delegated_dependency_conflicts :
    ReleasePlan → Facts → List DelegatedDependencyConflict
unfolding workspace_conflicts
delegated_dependency_conflicts plan facts = elim facts.rust_workspace [
  | none ↦ []
  | some workspace ↦ workspace_conflicts plan.targets workspace
]
