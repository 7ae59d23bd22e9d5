-- ===== src/Coordinator/Resolve/Ids.antt =====
-- The units of work of a plan have the plan's ids, without repetition
-- (crates/shipshape-core/src/release/coordinator.rs, `resolve_target_plans`).
use ossctl.Base.{
  String, ◌≡◌, refl, sym, ap, ◌∙◌, Bool, true, false, Option, none, some, List, [], ◌∷◌, map, arith,
  All, eq_iff, is_some,
}
use ossctl.Base.Dict.{contains}
use ossctl.Plan.{PlanTarget, ReleasePlan}
use ossctl.Plan.TargetIds.{journal_target_ids, all_new, id_among}
use ossctl.Plan.TargetIds.Pairs.{Pairwise}
use ossctl.Plan.TargetIds.Unique.{Differ, journal_target_ids_lem}
use ossctl.Coordinator.World.{TargetPlan}
use ossctl.Coordinator.Resolve.{
  Checked, resolved, refused, target_plan, push_plan, resolve_one, resolve_loop,
  resolve_target_plans,
}

abbrev pub plan_id_of : TargetPlan → String
plan_id_of tp = tp.id

plans_of : Checked (List TargetPlan) → List TargetPlan
plans_of (resolved tps) = tps
plans_of (refused e) = []

resolve_one-resolved :
    (version : String) (t : PlanTarget) (i : String) (name : Option String) (seen : Bool)
    (rest : Checked (List TargetPlan)) {tps : List TargetPlan}
    → resolve_one version t i name seen rest ≡ resolved tps
    → (seen ≡ false)
      × (more : List TargetPlan) × (rest ≡ resolved more)
      × (map plan_id_of tps ≡ i ∷ map plan_id_of more)
unfolding resolve_one push_plan plans_of
resolve_one-resolved version t i none seen rest h = cc
resolve_one-resolved version t i (some name) true rest h = cc
resolve_one-resolved version t i (some name) false (refused e) h = cc
resolve_one-resolved version t i (some name) false (resolved more) {tps} h =
    (refl, more, refl, ap (map plan_id_of) (sym (ap plans_of h)))

apart :
    (i : String) (seen ids : List String)
    → All (λ j. contains j (i ∷ seen) ≡ false) ids
    → contains i ids ≡ false
unfolding contains
apart i seen [] h = refl
apart i seen (j ∷ ids) h = ground (arith, h.0, eq_iff i j, eq_iff j i, apart i seen ids h.1)

unseen :
    (i : String) (seen ids : List String)
    → All (λ j. contains j (i ∷ seen) ≡ false) ids
    → All (λ j. contains j seen ≡ false) ids
unfolding contains
unseen i seen [] h = tt
unseen i seen (j ∷ ids) h = (ground (arith, h.0), unseen i seen ids h.1)

resolve_loop-resolved :
    (version : String) (f : PlanTarget → String) (ts : List PlanTarget) (seen : List String)
    {tps : List TargetPlan}
    → resolve_loop version ts (map f ts) seen ≡ resolved tps
    → (map plan_id_of tps ≡ map f ts)
      × (all_new (map f ts) ≡ true)
      × All (λ j. contains j seen ≡ false) (map f ts)
unfolding resolve_loop all_new plans_of
resolve_loop-resolved version f [] seen h = (ap (map plan_id_of) (sym (ap plans_of h)), refl, tt)
resolve_loop-resolved version f (t ∷ ts) seen h =
    let (new, more, rest, same) = resolve_one-resolved version t (f t) t.package_name _ _ h in
    let (ids, fresh, apart_all) = resolve_loop-resolved version f ts (f t ∷ seen) rest in
    (
      same ∙ ap (λ x. f t ∷ x) ids,
      rw (apart (f t) seen (map f ts) apart_all, fresh),
      (new, unseen (f t) seen (map f ts) apart_all),
    )

newly :
    (i : String) (seen ids : List String)
    → contains i ids ≡ false
    → All (λ j. contains j seen ≡ false) ids
    → All (λ j. contains j (i ∷ seen) ≡ false) ids
unfolding contains
newly i seen [] h u = tt
newly i seen (j ∷ ids) h u =
    (ground (arith, eq_iff i j, eq_iff j i, u.0), newly i seen ids (ground arith) u.1)

-- A package is known for the target.
abbrev pub Named : PlanTarget → Type 0
Named t = is_some t.package_name ≡ true

resolve_one-Named :
    (version : String) (t : PlanTarget) (i : String) (name : Option String) (more : List TargetPlan)
    → is_some name ≡ true
    → (tps : List TargetPlan) × (resolve_one version t i name false (resolved more) ≡ resolved tps)
unfolding resolve_one push_plan
resolve_one-Named version t i none more h = cc
resolve_one-Named version t i (some name) more h = (target_plan version t i name ∷ more, refl)

resolve_loop-total :
    (version : String) (f : PlanTarget → String) (ts : List PlanTarget) (seen : List String)
    → all_new (map f ts) ≡ true
    → All (λ j. contains j seen ≡ false) (map f ts)
    → All Named ts
    → (tps : List TargetPlan) × (resolve_loop version ts (map f ts) seen ≡ resolved tps)
unfolding resolve_loop all_new
resolve_loop-total version f [] seen h u n = ([], refl)
resolve_loop-total version f (t ∷ ts) seen h u n =
    let (more, rest) =
      resolve_loop-total version f ts (f t ∷ seen) (ground arith)
        (newly (f t) seen (map f ts) (ground arith) u.1) n.1 in
    rw (u.0, rest) (resolve_one-Named version t (f t) t.package_name more n.0)

-- A plan that resolves gives one unit of work to a target, in the order of the plan and under the
-- target's journal id, and no two units have the same id.
pub resolve_target_plans-resolved :
    (plan : ReleasePlan) {tps : List TargetPlan}
    → resolve_target_plans plan ≡ resolved tps
    → (map plan_id_of tps ≡ journal_target_ids plan.targets) × (all_new (map plan_id_of tps) ≡ true)
unfolding resolve_target_plans journal_target_ids
resolve_target_plans-resolved plan h =
    let (same, fresh, unseen_all) =
      resolve_loop-resolved plan.version (id_among plan.targets) plan.targets [] h in
    (same, ap all_new same ∙ fresh)

All-unseen : (ids : List String) → All (λ j. contains j [] ≡ false) ids
unfolding contains
All-unseen [] = tt
All-unseen (j ∷ ids) = (refl, All-unseen ids)

-- A plan in which every target has a package and no two targets agree in ecosystem, package, registry
-- and adapter resolves.
pub resolve_target_plans_total :
    (plan : ReleasePlan)
    → Pairwise Differ plan.targets
    → All Named plan.targets
    → (tps : List TargetPlan) × (resolve_target_plans plan ≡ resolved tps)
unfolding resolve_target_plans journal_target_ids
resolve_target_plans_total plan differ named =
    resolve_loop-total plan.version (id_among plan.targets) plan.targets []
      (unfold journal_target_ids in journal_target_ids_lem plan.targets differ)
      (All-unseen (map (id_among plan.targets) plan.targets)) named
