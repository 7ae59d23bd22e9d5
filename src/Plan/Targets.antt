-- ===== src/Plan/Targets.antt =====
-- The concrete targets of a plan, with a Rust workspace expanded to its publish set
-- (crates/shipshape-core/src/release/plan.rs, `resolve_targets`).
pub mod Unseen
pub mod Closure
pub mod PublishSet
pub mod Splice
pub mod Superset
use mathlib.Core.Logic.{ite}
use mathlib.Core.Option.{or_else}
use ossctl.Base.{
  ℕ, zero, suc, ◌+◌, Bool, true, false, ◌&&◌, ◌||◌, not, String, str_eq, Option, none, some, List,
  [], ◌∷◌, ◌++◌, map, length, any, fold, filter, find, is_some, if◌then◌else◌,
}
use ossctl.Base.Dict.{contains}
use ossctl.Schema.{Ecosystem, Registry-discrete, Adapter-discrete, rust, crates_io, cargo_publish}
use ossctl.Plan.{PlanTarget}
use ossctl.Plan.Order.{WorkspaceMember, topo_order_members}
use ossctl.Plan.Inputs.{Target, Package, Contract, RustWorkspace, Facts, ecosystem_eq}

-- The only package, when there is one and no second.
unambiguous : List Package → Option String
unambiguous [] = none
unambiguous (p ∷ []) = p.package_name
unambiguous (p ∷ q ∷ ps) = none

-- `resolve_package`
unfoldable pub resolve_package : Facts → Ecosystem → Option String
unfolding unambiguous filter
resolve_package facts e =
    unambiguous (filter (λ p. ecosystem_eq p.ecosystem e && is_some p.package_name) facts.packages)

-- `is_rust_crates_io_publish`
unfoldable pub is_rust_crates_io_publish : PlanTarget → Bool
is_rust_crates_io_publish t =
    ecosystem_eq t.ecosystem rust
    && (ite (Registry-discrete t.registry crates_io) true false
        && ite (Adapter-discrete t.adapter cargo_publish) true false)

-- `by_name.get(name)`: of members with one name the last is kept.
unfoldable pub by_name : String → List WorkspaceMember → Option WorkspaceMember
by_name name [] = none
by_name name (m ∷ ms) =
    or_else (by_name name ms) (if str_eq m.package_name name then some m else none)

-- The dependencies of a package, none of a package that is no member.
unfoldable pub deps_of : List WorkspaceMember → String → List String
unfolding by_name
deps_of members name = elim (by_name name members) [ none ↦ [] | some m ↦ m.workspace_deps ]

-- The loop over a member's dependencies: those not yet required are pushed. The last item of the
-- code's stack is the head here.
unfoldable pub push_deps : List String → List String → List String → List String
unfolding contains
push_deps required [] stack = stack
push_deps required (d ∷ ds) stack =
    push_deps required ds (if contains d required then stack else d ∷ stack)

-- The rounds of the closure's loop, one package popped in each.
unfoldable pub close_over : List WorkspaceMember → ℕ → List String → List String → List String
unfolding contains
close_over members zero required stack = required
close_over members (suc left) required [] = required
close_over members (suc left) required (pkg ∷ stack) = elim (contains pkg required) [
  | true ↦ close_over members left required stack
  | false ↦
      close_over members left (pkg ∷ required)
        (push_deps (pkg ∷ required) (deps_of members pkg) stack)
]

-- Dependencies of all members together: each is pushed at most once.
unfoldable pub count_edges : List WorkspaceMember → ℕ
count_edges [] = 0
count_edges (m ∷ ms) = length m.workspace_deps + count_edges ms

-- `roots.to_vec()` as a stack
unfoldable pub reversed : List String → List String
reversed xs = fold (λ (s : List String) (x : String). x ∷ s) [] xs

-- The set `required` of `dependency_closure_order`.
unfoldable pub required_of : List String → List WorkspaceMember → List String
unfolding close_over reversed count_edges
required_of roots members =
    close_over members (length roots + count_edges members) [] (reversed roots)

-- The roots that the order lacks, appended one after the other.
unfoldable pub append_roots : List String → List String → List String
unfolding contains
append_roots order [] = order
append_roots order (r ∷ rs) = append_roots (if contains r order then order else order ++ r ∷ []) rs

unfoldable pub dependency_closure_order : List String → List WorkspaceMember → List String
unfolding required_of append_roots topo_order_members contains filter
dependency_closure_order roots members =
    append_roots
      (topo_order_members
        (filter (λ m. contains m.package_name (required_of roots members)) members))
      roots

-- `filter_map(|t| t.package.clone())`
unfoldable pub named : List PlanTarget → List String
named [] = []
named (t ∷ ts) = elim t.package_name [ none ↦ named ts | some p ↦ p ∷ named ts ]

-- A derived target, with the registry and the adapter of the representative.
abbrev pub derived_target : PlanTarget → String → PlanTarget
derived_target representative p = record {
  ecosystem = rust;
  package_name = some p;
  registry = representative.registry;
  adapter = representative.adapter;
}

-- The splice: the derived targets once at the first Rust crates.io target, none of the others.
unfoldable pub splice : List PlanTarget → Bool → List PlanTarget → List PlanTarget
unfolding is_rust_crates_io_publish
splice derived spliced [] = []
splice derived spliced (t ∷ ts) =
    let rest = splice derived (is_rust_crates_io_publish t || spliced) ts in
    if is_rust_crates_io_publish t then (if spliced then rest else derived ++ rest) else t ∷ rest

unfoldable pub expand_with : List PlanTarget → RustWorkspace → PlanTarget → List PlanTarget
unfolding is_rust_crates_io_publish dependency_closure_order named splice filter
expand_with base workspace representative =
    let publishes = filter is_rust_crates_io_publish base in
    if any (λ (t : PlanTarget). not (is_some t.package_name)) publishes
    then base
    else splice
        (map (derived_target representative)
          (dependency_closure_order (named publishes) workspace.members))
        false base

-- `expand_rust_workspace_members`
unfoldable pub expand_rust_workspace_members : List PlanTarget → Facts → List PlanTarget
unfolding is_rust_crates_io_publish expand_with find
expand_rust_workspace_members base facts = elim facts.rust_workspace [
  | none ↦ base
  | some workspace ↦ elim (find is_rust_crates_io_publish base) [
    | none ↦ base
    | some representative ↦ expand_with base workspace representative
  ]
]

-- A target of the contract with its package found.
unfoldable pub resolve_target : Facts → Target → PlanTarget
unfolding resolve_package
resolve_target facts t = record {
  ecosystem = t.ecosystem;
  package_name = or_else t.package_name (resolve_package facts t.ecosystem);
  registry = t.registry;
  adapter = t.adapter;
}

-- `resolve_targets`
unfoldable pub resolve_targets : Contract → Facts → List PlanTarget
unfolding resolve_target expand_rust_workspace_members
resolve_targets contract facts =
    expand_rust_workspace_members (map (resolve_target facts) contract.targets) facts
