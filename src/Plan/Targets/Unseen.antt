-- ===== src/Plan/Targets/Unseen.antt =====
-- The dependencies that a walk has still to push, which bound its rounds
-- (crates/shipshape-core/src/release/plan.rs, `dependency_closure_order`).
use mathlib.Core.Option.{or_else}
use ossctl.Base.{
  ℕ, ◌+◌, ◌≤◌, ◌≡◌, refl, inl, inr, false, String, str_eq, none, some, List, [], ◌∷◌, length,
  if◌then◌else◌, arith, Bool-cases, Option-cases, eq_iff,
}
use ossctl.Base.Dict.{contains}
use ossctl.Plan.Order.{WorkspaceMember}
use ossctl.Plan.Targets.{by_name, deps_of, count_edges}

-- The edges of the members that are not required yet.
pub unseen : List String → List WorkspaceMember → ℕ
unseen req [] = 0
unseen req (m ∷ ms) =
    let rest = unseen req ms in
    if contains m.package_name req then rest else length m.workspace_deps + rest

pub unseen_none : (ms : List WorkspaceMember) → unseen [] ms ≡ count_edges ms
unfolding unseen count_edges contains
unseen_none [] = refl
unseen_none (m ∷ ms) = rw (unseen_none ms) refl

unseen_less :
    (p : String) (req : List String) (ms : List WorkspaceMember)
    → unseen (p ∷ req) ms ≤ unseen req ms
unfolding unseen contains
unseen_less p req [] = omega arith
unseen_less p req (m ∷ ms) = ground (arith, unseen_less p req ms)

deps_of-later :
    (p : String) (m : WorkspaceMember) (ms : List WorkspaceMember)
    → (n : WorkspaceMember) × (by_name p ms ≡ some n)
    → deps_of (m ∷ ms) p ≡ deps_of ms p
unfolding deps_of by_name or_else
deps_of-later p m ms (n, e) = rw (e, deps_of) refl

deps_of-first :
    (p : String) (m : WorkspaceMember) (ms : List WorkspaceMember)
    → by_name p ms ≡ none
    → deps_of (m ∷ ms) p ≡ (if str_eq m.package_name p then m.workspace_deps else [])
unfolding deps_of by_name or_else
deps_of-first p m ms e = elim (Bool-cases (str_eq m.package_name p)) [
  | inl same ↦ rw (e, deps_of, same) refl
  | inr other ↦ rw (e, deps_of, other) refl
]

pub unseen_drops :
    (p : String) (req : List String) (ms : List WorkspaceMember)
    → contains p req ≡ false
    → unseen (p ∷ req) ms + length (deps_of ms p) ≤ unseen req ms
unfolding unseen contains
unseen_drops p req [] h = unfold deps_of by_name in omega arith
unseen_drops p req (m ∷ ms) h = elim (Option-cases (by_name p ms)) [
  | inl e ↦
      rw (deps_of-first p m ms e)
        (ground (arith, h, unseen_less p req ms, eq_iff m.package_name p, eq_iff p m.package_name))
  | inr known ↦ rw (deps_of-later p m ms known) (ground (arith, unseen_drops p req ms h))
]
