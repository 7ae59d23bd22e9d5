-- ===== src/Plan/Targets/Closure.antt =====
-- What a walk along the dependencies of a workspace finds
-- (crates/shipshape-core/src/release/plan.rs, `dependency_closure_order` and
-- `delegated_dependency_conflicts`).
use mathlib.Core.Path.{subst}
use ossctl.Base.{
  ℕ, ◌↔◌, zero, suc, ◌+◌, ◌≤◌, ◌≡◌, refl, inl, inr, Bool, true, false, ◌&&◌, ◌||◌, not, String,
  str_eq, List, [], ◌∷◌, length, arith, Bool-cases, eq_iff, eq_refl,
}
use ossctl.Base.Dict.{contains}
use ossctl.Plan.Order.{WorkspaceMember}
use ossctl.Plan.Targets.{deps_of, count_edges}
use ossctl.Plan.Targets.Unseen.{unseen, unseen_none, unseen_drops}

-- What the roots need, along the dependencies of members.
pub data Reach (roots : List String) (members : List WorkspaceMember) : String → Type 0 where
  root : {x : String} → contains x roots ≡ true → Reach roots members x
  dep :
      {x y : String}
      → Reach roots members y
      → contains x (deps_of members y) ≡ true
      → Reach roots members x

-- A walk over the packages that a stack holds: each package popped is noted, unless it was before, and
-- what it depends on is pushed.
pub record Walks (members : List WorkspaceMember)
    (walk : ℕ → List String → List String → List String)
    (push : List String → List String → List String → List String) : Type 0 where
  pub out_of_rounds : (seen stack : List String) → walk zero seen stack ≡ seen
  pub done : (left : ℕ) (seen : List String) → walk (suc left) seen [] ≡ seen
  pub again :
      (left : ℕ) (p : String) (seen stack : List String)
      → contains p seen ≡ true
      → walk (suc left) seen (p ∷ stack) ≡ walk left seen stack
  pub new :
      (left : ℕ) (p : String) (seen stack : List String)
      → contains p seen ≡ false
      → walk (suc left) seen (p ∷ stack)
        ≡ walk left (p ∷ seen) (push (p ∷ seen) (deps_of members p) stack)
  pub length-push :
      (seen ds stack : List String) → length (push seen ds stack) ≤ length ds + length stack
  pub pushed_from :
      (x : String) (seen ds stack : List String)
      → contains x (push seen ds stack) ≡ true
      → (contains x stack || contains x ds) ≡ true
  pub pushed :
      (x : String) (seen ds stack : List String)
      → (contains x stack || (contains x ds && not (contains x seen))) ≡ true
      → contains x (push seen ds stack) ≡ true

module _ (roots : List String) (members : List WorkspaceMember)
    (walk : ℕ → List String → List String → List String)
    (push : List String → List String → List String → List String)
    (laws : Walks members walk push) where
  -- Every item of a list is reached.
  abbrev Reached : List String → Type 0
  Reached xs = (x : String) → contains x xs ≡ true → Reach roots members x

  -- What is required or waits on the stack.
  abbrev known : List String → List String → String → Bool
  known required stack x = contains x required || contains x stack

  -- Nothing that a required package needs is lost.
  abbrev Pending : List String → List String → Type 0
  Pending required stack =
      (x d : String)
      → contains x required ≡ true
      → contains d (deps_of members x) ≡ true
      → known required stack d ≡ true

  step_Reached :
      (p : String) (required stack : List String)
      → Reached (p ∷ stack)
      → Reached (push (p ∷ required) (deps_of members p) stack)
  unfolding contains
  step_Reached p required stack h x c = elim (Bool-cases (contains x stack)) [
    | inl e ↦ h x (ground (arith, e))
    | inr e ↦
        dep (h p (rw (eq_refl p) refl))
          (ground (arith, e, c, laws.pushed_from x (p ∷ required) (deps_of members p) stack))
  ]

  pop_Reached :
      (p : String) (required stack : List String)
      → Reached required
      → Reached (p ∷ stack)
      → Reached (p ∷ required)
  unfolding contains
  pop_Reached p required stack r h x c = elim (Bool-cases (str_eq p x)) [
    | inl e ↦ h x (rw e refl)
    | inr e ↦ r x (rw e at c)
  ]

  walk-Reached :
      (left : ℕ) (required stack : List String)
      → Reached required
      → Reached stack
      → Reached (walk left required stack)
  walk-Reached zero required stack r s = rw (laws.out_of_rounds required stack) r
  walk-Reached (suc left) required [] r s = rw (laws.done left required) r
  walk-Reached (suc left) required (p ∷ stack) r s = elim (Bool-cases (contains p required)) [
    | inl e ↦
        rw (laws.again left p required stack e)
          (walk-Reached left required stack r (λ x c. s x (unfold contains in ground (arith, c))))
    | inr e ↦ rw (laws.new left p required stack e) (
        walk-Reached left (p ∷ required) (push (p ∷ required) (deps_of members p) stack)
          (pop_Reached p required stack r s) (step_Reached p required stack s))
  ]

  -- The package popped is required from now on, and its dependencies wait.
  step_Pending :
      (p : String) (required stack : List String)
      → Pending required (p ∷ stack)
      → Pending (p ∷ required) (push (p ∷ required) (deps_of members p) stack)
  unfolding contains
  step_Pending p required stack h x d cx cd = elim (Bool-cases (str_eq p x)) [
    | inl e ↦
        let same : x ≡ p = ground (arith, e, eq_iff p x) in
        let here : contains d (deps_of members p) ≡ true =
          subst (λ y. contains d (deps_of members y) ≡ true) same cd in
        ground (arith, here, laws.pushed d (p ∷ required) (deps_of members p) stack)
    | inr e ↦
        let old : known required (p ∷ stack) d ≡ true = h x d (rw e at cx) cd in
        ground (arith, old, laws.pushed d (p ∷ required) (deps_of members p) stack)
  ]

  drop_Pending :
      (p : String) (required stack : List String)
      → contains p required ≡ true
      → Pending required (p ∷ stack)
      → Pending required stack
  unfolding contains
  drop_Pending p required stack e h x d cx cd =
      let old : known required (p ∷ stack) d ≡ true = h x d cx cd in
      ground (arith, old, e, eq_iff p d)

  -- With enough rounds, all that was required or waiting is required at the end, and so is all that it
  -- needs.
  abbrev Closed : List String → Type 0
  Closed required =
      (x d : String)
      → contains x required ≡ true
      → contains d (deps_of members x) ≡ true
      → contains d required ≡ true

  no_more : {A : Type 0} (xs : List A) → length xs ≤ 0 → xs ≡ []
  no_more [] h = refl
  no_more (x ∷ xs) h = absurd (omega arith)

  end_Closed :
      (required stack : List String) → stack ≡ [] → Pending required stack → Closed required
  end_Closed required stack e h x d cx cd =
      let old : known required stack d ≡ true = h x d cx cd in
      unfold contains in ground (arith, rw e at old)

  walk-Closed :
      (left : ℕ) (required stack : List String)
      → length stack + unseen required members ≤ left
      → Pending required stack
      → Closed (walk left required stack)
  walk-Closed zero required stack b h =
      rw (laws.out_of_rounds required stack)
        (end_Closed required stack (no_more stack (omega (arith, b))) h)
  walk-Closed (suc left) required [] b h =
      rw (laws.done left required) (end_Closed required [] refl h)
  walk-Closed (suc left) required (p ∷ stack) b h = elim (Bool-cases (contains p required)) [
    | inl e ↦
        rw (laws.again left p required stack e)
          (walk-Closed left required stack (omega (arith, b)) (drop_Pending p required stack e h))
    | inr e ↦ rw (laws.new left p required stack e) (
        walk-Closed left (p ∷ required) (push (p ∷ required) (deps_of members p) stack)
          (omega (
            arith,
            b,
            unseen_drops p required members e,
            laws.length-push (p ∷ required) (deps_of members p) stack,
          ))
          (step_Pending p required stack h))
  ]

  -- What was required or waiting is required at the end.
  walk-kept :
      (left : ℕ) (required stack : List String) (x : String)
      → length stack + unseen required members ≤ left
      → known required stack x ≡ true
      → contains x (walk left required stack) ≡ true
  unfolding contains
  walk-kept zero required stack x b k =
      let empty : stack ≡ [] = no_more stack (omega (arith, b)) in
      rw (laws.out_of_rounds required stack) (ground (arith, rw empty at k))
  walk-kept (suc left) required [] x b k = rw (laws.done left required) (ground (arith, k))
  walk-kept (suc left) required (p ∷ stack) x b k = elim (Bool-cases (contains p required)) [
    | inl e ↦
        rw (laws.again left p required stack e)
          (walk-kept left required stack x (omega (arith, b)) (ground (arith, k, e, eq_iff p x)))
    | inr e ↦ rw (laws.new left p required stack e) (
        walk-kept left (p ∷ required) (push (p ∷ required) (deps_of members p) stack) x
          (omega (
            arith,
            b,
            unseen_drops p required members e,
            laws.length-push (p ∷ required) (deps_of members p) stack,
          ))
          (ground (arith, k, laws.pushed x (p ∷ required) (deps_of members p) stack)))
  ]

  module _ (left : ℕ) (stack : List String)
      (same : (x : String) → contains x stack ≡ contains x roots)
      (enough : length stack + count_edges members ≤ left) where
    bound : length stack + unseen [] members ≤ left
    bound = rw (unseen_none members) enough

    Reach-walked : {x : String} → Reach roots members x → contains x (walk left [] stack) ≡ true
    Reach-walked (root {x = x} c) =
        walk-kept left [] stack x bound (unfold contains in rw (same x) c)
    Reach-walked (dep {x = x} {y = y} r c) =
        walk-Closed left [] stack bound
          (λ u d cu cd. unfold contains in absurd (ground (arith, cu))) y x (Reach-walked r) c

    -- With enough rounds, a walk notes exactly what the roots reach.
    pub walk_iff : (x : String) → (contains x (walk left [] stack) ≡ true) ↔ Reach roots members x
    walk_iff x = (
      walk-Reached left [] stack (λ u c. unfold contains in absurd (ground (arith, c)))
          (λ u c. root (rw (same u) at c)) x,
      Reach-walked,
    )
