-- ===== src/Plan/Targets/PublishSet.antt =====
-- The publish set of a Rust workspace: what the declared crates need, and no more
-- (crates/shipshape-core/src/release/plan.rs, `dependency_closure_order`).
use ossctl.Base.{not, if◌then◌else◌}
use ossctl.Base.{
  ◌+◌, ◌≤◌, ◌≡◌, refl, ◌↔◌, true, ◌&&◌, ◌||◌, String, List, [], ◌∷◌, ◌++◌, map, length, fold,
  filter, arith, Bool-cases, eq_iff, inl, inr,
}
use ossctl.Base.Dict.{contains}
use ossctl.Plan.Order.{WorkspaceMember, package_of, topo_order_members}
use ossctl.Plan.Order.Complete.{topo_order_members-perm}
use ossctl.Plan.Order.Waiting.{contains-perm}
use ossctl.Plan.Targets.{
  push_deps, close_over, reversed, count_edges, required_of, append_roots, dependency_closure_order,
}
use ossctl.Plan.Targets.Closure.{Reach, Walks, walk_iff}

pub contains-push :
    (y : String) (s xs : List String)
    → contains y (fold (λ (s : List String) (x : String). x ∷ s) s xs)
      ≡ (contains y s || contains y xs)
unfolding contains
contains-push y s [] = ground arith
contains-push y s (x ∷ xs) = rw (contains-push y (x ∷ s) xs) (ground arith)

contains-reversed : (y : String) (xs : List String) → contains y (reversed xs) ≡ contains y xs
unfolding reversed contains
contains-reversed y xs = contains-push y [] xs

pub length-push :
    (s xs : List String)
    → length (fold (λ (s : List String) (x : String). x ∷ s) s xs) ≡ length s + length xs
length-push s [] = omega arith
length-push s (x ∷ xs) = omega (arith, length-push (x ∷ s) xs)

length-reversed : (xs : List String) → length (reversed xs) ≡ length xs
unfolding reversed
length-reversed xs = omega (arith, length-push [] xs)

length-push_deps :
    (req ds stack : List String) → length (push_deps req ds stack) ≤ length ds + length stack
unfolding push_deps
length-push_deps req [] stack = omega arith
length-push_deps req (d ∷ ds) stack =
    ground (arith, length-push_deps req ds (if contains d req then stack else d ∷ stack))

contains-push_deps :
    (x : String) (req ds stack : List String)
    → contains x (push_deps req ds stack)
      ≡ (contains x stack || (contains x ds && not (contains x req)))
unfolding push_deps contains
contains-push_deps x req [] stack = ground arith
contains-push_deps x req (d ∷ ds) stack =
    ground
      (arith, contains-push_deps x req ds (if contains d req then stack else d ∷ stack), eq_iff d x)

close_over-Walks : (members : List WorkspaceMember) → Walks members (close_over members) push_deps
unfolding close_over
close_over-Walks members = record {
  out_of_rounds = λ seen stack. refl;
  done = λ left seen. refl;
  again = λ left p seen stack e. rw (e, close_over) refl;
  new = λ left p seen stack e. rw (e, close_over) refl;
  length-push = length-push_deps;
  pushed_from = λ x seen ds stack h. ground (arith, h, contains-push_deps x seen ds stack);
  pushed = λ x seen ds stack h. ground (arith, h, contains-push_deps x seen ds stack);
}

-- The required packages are what the roots reach.
required_of_iff :
    (roots : List String) (members : List WorkspaceMember) (x : String)
    → (contains x (required_of roots members) ≡ true) ↔ Reach roots members x
unfolding required_of
required_of_iff roots members =
    walk_iff roots members (close_over members) push_deps (close_over-Walks members)
      (length roots + count_edges members) (reversed roots) (λ x. contains-reversed x roots)
      (rw (length-reversed roots) (omega arith))

contains-append :
    (x : String) (xs ys : List String) → contains x (xs ++ ys) ≡ (contains x xs || contains x ys)
unfolding contains
contains-append x [] ys = refl
contains-append x (z ∷ xs) ys = rw (contains-append x xs ys) (ground arith)

contains-append_roots :
    (x : String) (order rs : List String)
    → contains x (append_roots order rs) ≡ (contains x order || contains x rs)
unfolding append_roots contains
contains-append_roots x order [] = ground arith
contains-append_roots x order (r ∷ rs) = elim (Bool-cases (contains r order)) [
  | inl e ↦ rw e (ground (arith, e, eq_iff r x, contains-append_roots x order rs))
  | inr e ↦ rw e (
      ground
        (arith, contains-append_roots x (order ++ r ∷ []) rs, contains-append x order (r ∷ [])))
]

contains-filter :
    (x : String) (req : List String) (ms : List WorkspaceMember)
    → contains x (map package_of (filter (λ m. contains m.package_name req) ms))
      ≡ (contains x (map package_of ms) && contains x req)
unfolding filter contains
contains-filter x req [] = refl
contains-filter x req (m ∷ ms) = ground (arith, contains-filter x req ms, eq_iff m.package_name x)

module _ (roots : List String) (members : List WorkspaceMember) where
  contains-closure :
      (x : String)
      → contains x (dependency_closure_order roots members) ≡ (
          (contains x (map package_of members) && contains x (required_of roots members))
          || contains x roots)
  unfolding dependency_closure_order
  contains-closure x =
      let sub : List WorkspaceMember =
        filter (λ m. contains m.package_name (required_of roots members)) members in
      let order : contains x (topo_order_members sub) ≡ contains x (map package_of sub) =
        contains-perm x (topo_order_members-perm sub) in
      let both : contains x (map package_of sub)
          ≡ (contains x (map package_of members) && contains x (required_of roots members)) =
        contains-filter x (required_of roots members) members in
      rw (contains-append_roots x (topo_order_members sub) roots, order, both) refl

-- The publish set of a workspace is exactly what the declared crates reach along the dependencies of
-- members, declared crates and members only.
pub dependency_closure_order-Reach :
    (roots : List String) (members : List WorkspaceMember) (x : String)
    → (contains x (dependency_closure_order roots members) ≡ true)
      ↔ (Reach roots members x × ((contains x (map package_of members) || contains x roots) ≡ true))
dependency_closure_order-Reach roots members x = (
  (λ c.
      let in_set : ((contains x (map package_of members) && contains x (required_of roots members))
            || contains x roots)
          ≡ true =
        rw contains-closure at c in
      elim (Bool-cases (contains x roots)) [
        | inl e ↦ (Reach.root e, ground (arith, e))
        | inr e ↦ (
          (required_of_iff roots members x).0 (ground (arith, in_set, e)),
          ground (arith, in_set, e),
        )
      ]),
  (λ (r, c).
      rw (contains-closure roots members x)
        (ground (arith, c, (required_of_iff roots members x).1 r))),
)
