-- ===== src/Plan/Order/Tests.antt =====
-- The publish order of small workspaces
-- (crates/shipshape-core/src/release/plan.rs, `topo_order_members`).
use mathlib.Core.List.{Permᴰ}
use ossctl.Base.{◌≡◌, refl, [], ◌∷◌, map}
use ossctl.Plan.Order.{
  WorkspaceMember, package_of, topo_order_members, topo_rounds, take_ready, decrement, first_slot,
  count_deps, waiting,
}
use ossctl.Base.Dict.{contains}
use ossctl.Plan.Order.Independent.{topo_order_members-Independent}
use ossctl.Plan.Order.DepsFirst.{deps_first, deps_first-topo_order_members}
use ossctl.Base.{ℕ, String, str_eq, all, true, if◌then◌else◌, inr, arith}
use ossctl.Plan.Order.Complete.{topo_order_members-perm}

abbrev core : WorkspaceMember
core = record { package_name = "core"; workspace_deps = [] }

abbrev api : WorkspaceMember
api = record { package_name = "api"; workspace_deps = "core" ∷ [] }

abbrev cli : WorkspaceMember
cli = record { package_name = "cli"; workspace_deps = "api" ∷ "core" ∷ [] }

abbrev left : WorkspaceMember
left = record { package_name = "left"; workspace_deps = "right" ∷ [] }

abbrev right : WorkspaceMember
right = record { package_name = "right"; workspace_deps = "left" ∷ [] }

libraries_first_test : topo_order_members (cli ∷ api ∷ core ∷ []) ≡ "core" ∷ "api" ∷ "cli" ∷ []
unfolding topo_order_members topo_rounds take_ready decrement first_slot count_deps contains
libraries_first_test = refl

cycle_test : topo_order_members (left ∷ right ∷ core ∷ []) ≡ "core" ∷ "left" ∷ "right" ∷ []
unfolding topo_order_members topo_rounds take_ready decrement first_slot count_deps waiting contains
cycle_test = refl

topo_order_members-perm_example :
    Permᴰ
      (topo_order_members (left ∷ right ∷ core ∷ []))
      (map package_of (left ∷ right ∷ core ∷ []))
topo_order_members-perm_example = topo_order_members-perm (left ∷ right ∷ core ∷ [])

topo_order_members-Independent_example :
    topo_order_members (right ∷ core ∷ []) ≡ map package_of (right ∷ core ∷ [])
topo_order_members-Independent_example =
    topo_order_members-Independent (right ∷ core ∷ []) (unfold contains in ((refl, tt), (tt, tt)))

-- a rank that rises along the dependencies
abbrev height : String → ℕ
height name = if str_eq name "cli" then 2 else if str_eq name "api" then 1 else 0

deps_first-topo_order_members_example :
    all
      (deps_first
        (map package_of (cli ∷ api ∷ core ∷ []))
        (topo_order_members (cli ∷ api ∷ core ∷ [])))
      (cli ∷ api ∷ core ∷ [])
    ≡ true
unfolding contains
deps_first-topo_order_members_example =
    deps_first-topo_order_members height (cli ∷ api ∷ core ∷ []) (refl, (refl, (refl, tt)))
      ((refl, (refl, tt)), ((refl, tt), (tt, tt)))
      ((inr (omega arith), (inr (omega arith), tt)), ((inr (omega arith), tt), (tt, tt)))
