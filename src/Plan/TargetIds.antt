-- ===== src/Plan/TargetIds.antt =====
-- The journal ids of a plan's targets (crates/shipshape-core/src/release/target_id.rs).
pub mod Text
pub mod Pairs
pub mod Unique
mod Tests
use Prim.Native.String.{◌++◌}
use mathlib.Core.Logic.{ite}
use mathlib.Core.Option.{get_or}
use ossctl.Base.{ℕ, String, Bool, true, ◌&&◌, not, ◌==◌, List, [], ◌∷◌, map, length, if◌then◌else◌}
use ossctl.Base.Dict.{contains}
use ossctl.Schema.{Ecosystem, Ecosystem-discrete, ecosystem_as_str, registry_as_str, adapter_as_str}
use ossctl.Plan.{PlanTarget}

-- the discriminator of a target at level 1, 2 or 3
unfoldable pub discriminator : PlanTarget → ℕ → String
discriminator t level =
    let name : String = get_or t.package_name "" in
    if level == 1
    then name
    else if level == 2
    then name ++ ":" ++ registry_as_str t.registry
    else name ++ ":" ++ registry_as_str t.registry ++ ":" ++ adapter_as_str t.adapter

-- `all(|&i| seen.insert(…))`: whether no string stands twice
unfoldable pub all_new : List String → Bool
unfolding contains
all_new [] = true
all_new (x ∷ xs) = not (contains x xs) && all_new xs

abbrev pub at_level : ℕ → PlanTarget → String
at_level level t = discriminator t level

-- the `for level in 1..=MAX_LEVEL` of `minimal_level`, and its fall-back
unfoldable pub minimal_level : List PlanTarget → ℕ
unfolding all_new
minimal_level group =
    if all_new (map (at_level 1) group)
    then 1
    else if all_new (map (at_level 2) group)
    then 2
    else 3

-- the targets of one ecosystem, in the order of the plan
unfoldable pub group_of : Ecosystem → List PlanTarget → List PlanTarget
group_of e [] = []
group_of e (t ∷ ts) =
    let rest = group_of e ts in ite (Ecosystem-discrete t.ecosystem e) (t ∷ rest) rest

-- the id of one target within its group
unfoldable pub id_in : List PlanTarget → PlanTarget → String
unfolding minimal_level discriminator
id_in group t =
    if length group == 1
    then ecosystem_as_str t.ecosystem
    else ecosystem_as_str t.ecosystem ++ ":" ++ discriminator t (minimal_level group)

abbrev pub id_among : List PlanTarget → PlanTarget → String
id_among all t = id_in (group_of t.ecosystem all) t

-- `journal_target_ids`: the ids stand where their targets stand
unfoldable pub journal_target_ids : List PlanTarget → List String
unfolding id_in group_of
journal_target_ids targets = map (id_among targets) targets
