-- ===== src/Plan/Order.antt =====
-- The publish order of a workspace's members
-- (crates/shipshape-core/src/release/plan.rs, `topo_order_members`).
pub mod Complete
pub mod Counts
pub mod Ordered
pub mod Waiting
pub mod Progress
pub mod DepsFirst
pub mod Independent
mod Tests
use ossctl.Base.{
  ℕ, zero, suc, ◌-◌, ◌≡◌, refl, sym, ap, ◌∙◌, ◌⊎◌, inl, inr, Bool, true, false, ◌&&◌, not, ◌==◌,
  ltb, Option, none, some, List, [], ◌∷◌, map, length, if◌then◌else◌, String, str_eq, arith,
  Bool-cases, Option-cases,
}
use ossctl.Base.Dict.{contains}

-- The fields of a member that the order reads.
pub record WorkspaceMember : Type 0 where
  pub package_name : String
  pub workspace_deps : List String

-- A member with its entries in the vectors `pending` and `emitted`.
pub record Slot : Type 0 where
  pub member : WorkspaceMember
  pub pending : ℕ
  pub emitted : Bool

-- `filter(…).count()` over the dependencies of a member
unfoldable pub count_deps : List String → String → List String → ℕ
count_deps names own [] = 0
count_deps names own (d ∷ ds) =
    let rest = count_deps names own ds in
    if contains d names && not (str_eq d own) then suc rest else rest

abbrev pub package_of : WorkspaceMember → String
package_of m = m.package_name

unfoldable pub first_slot : List String → WorkspaceMember → Slot
first_slot names m = record {
  member = m;
  pending = count_deps names m.package_name m.workspace_deps;
  emitted = false;
}

abbrev pub keep : Slot → Option (WorkspaceMember × List Slot) → Option (WorkspaceMember × List Slot)
keep s none = none
keep s (some (m, ss)) = some (m, s ∷ ss)

-- The first member that is not emitted and waits for nothing, with its `emitted` set.
unfoldable pub take_ready : List Slot → Option (WorkspaceMember × List Slot)
take_ready [] = none
take_ready (s ∷ ss) =
    let rest = take_ready ss in
    if not s.emitted && (s.pending == 0)
    then some (s.member, record { member = s.member; pending = s.pending; emitted = true } ∷ ss)
    else keep s rest

-- One step of the loop that decrements the dependents of the member just emitted.
unfoldable pub decrement : String → Slot → Slot
decrement name s =
    if not s.emitted && (ltb 0 s.pending && contains name s.member.workspace_deps)
    then record { member = s.member; pending = s.pending - 1; emitted = s.emitted }
    else s

-- The packages that are not emitted, in declaration order.
unfoldable pub waiting : List Slot → List String
waiting [] = []
waiting (s ∷ ss) = let rest = waiting ss in if s.emitted then rest else s.member.package_name ∷ rest

-- The rounds of the loop, each of which emits one member until a cycle ends them; the number is
-- `members.len() - order.len()`.
unfoldable pub topo_rounds : ℕ → List Slot → List String
topo_rounds zero ss = []
topo_rounds (suc left) ss = elim (take_ready ss) [
  | none ↦ waiting ss
  | some r ↦ r.0.package_name ∷ topo_rounds left (map (decrement r.0.package_name) r.1)
]

unfoldable pub topo_order_members : List WorkspaceMember → List String
topo_order_members members =
    topo_rounds (length members) (map (first_slot (map package_of members)) members)
