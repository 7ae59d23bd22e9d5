-- ===== src/Plan/Order/DepsFirst.antt =====
-- Dependencies come before their dependents
-- (crates/shipshape-core/src/release/plan.rs, `topo_order_members`).
use ossctl.Plan.Order.Progress.{Counted, Ranked1, Ranked, All-Takes, Stuck, no_stall}
use ossctl.Plan.Order.Ordered.{
  precedes, Led1, Led, Led-slot, Led-slots, decrement-Counted, decrement_kept,
}
use ossctl.Plan.Order.Complete.{
  waiting-decrement, waiting-first, topo_rounds-perm, length-packages, empty_of-length,
}
use ossctl.Base.{
  ℕ, zero, suc, ◌<◌, ◌≡◌, refl, ◌∙◌, ◌⊎◌, inl, inr, Bool, true, false, ◌||◌, not, List, [], ◌∷◌,
  map, length, if◌then◌else◌, String, str_eq, arith, Bool-cases, Option-cases, All, all,
}
use ossctl.Base.Dict.{contains}
use ossctl.Plan.Order.{
  WorkspaceMember, Slot, package_of, first_slot, take_ready, decrement, waiting, topo_rounds,
  topo_order_members,
}
use ossctl.Plan.Order.Counts.{
  NoTwice, emit, Takes, take_ready-Result, contains-Takes, NoTwice-Takes,
}
use ossctl.Plan.Order.Waiting.{
  contains-perm, length-Takes, head_of, differ, reached, count_zero, Led-nothing,
}

-- What holds of each slot while `names` wait.
abbrev Kept : (String → ℕ) → List String → Slot → Type 0
Kept rank names s = Counted names s × NoTwice s.member.workspace_deps × Ranked rank names s.member

emit-Kept :
    (rank : String → ℕ) (names : List String) (s : Slot)
    → Kept rank names s
    → Kept rank names (emit s)
emit-Kept rank names s (c, n, r) = (inl refl, n, r)

Stuck-slots :
    (rank : String → ℕ) (names : List String) (ss : List Slot)
    → All (λ s. (s.emitted ≡ true) ⊎ (0 < s.pending)) ss
    → All (Kept rank names) ss
    → All (Stuck rank names) ss
Stuck-slots rank names [] h k = tt
Stuck-slots rank names (s ∷ ss) h k =
    let (c, n, r) = k.0 in ((h.0, c, r), Stuck-slots rank names ss h.1 k.1)

module _ (rank : String → ℕ) (n : String) (before after : List String)
    (adds : (d : String)
      → contains d before ≡ (if str_eq n d then true else contains d after)) where
  Ranked-after :
      (own : String) (ds : List String)
      → All (Ranked1 rank before own) ds
      → All (Ranked1 rank after own) ds
  Ranked-after own [] h = tt
  Ranked-after own (d ∷ ds) (inr r, h) = (inr r, Ranked-after own ds h)
  Ranked-after own (d ∷ ds) (inl r, h) = (inl (ground (arith, adds d, r)), Ranked-after own ds h)

  Kept-after :
      (ss : List Slot)
      → contains n after ≡ false
      → All (λ s. (s.emitted ≡ true) ⊎ (str_eq n s.member.package_name ≡ false)) ss
      → All (Kept rank before) ss
      → All (Kept rank after) (map (decrement n) ss)
  Kept-after [] gone d k = tt
  Kept-after (s ∷ ss) gone d k =
      let (c, once, r) = k.0 in
      (
        (
          decrement-Counted n before after adds s gone once d.0 c,
          rw (decrement_kept n s).0 once,
          rw (decrement_kept n s).0 (Ranked-after s.member.package_name s.member.workspace_deps r),
        ),
        Kept-after ss gone d.1 k.1,
      )

  Led-back :
      (out : List String) {ss rest : List Slot} {m : WorkspaceMember}
      → Takes ss m rest
      → All (Kept rank before) ss
      → All (λ s. (s.emitted ≡ true) ⊎ (contains s.member.package_name out ≡ true)) rest
      → All (Led after out) (map (decrement n) rest)
      → All (Led before (n ∷ out)) ss
  Led-back out (Takes.here {s = s} {ss = ss} e p) k c h =
      let (counted, once, r) = k.0 in
      (
        inr (
            count_zero before (n ∷ out) s.member.package_name s.member.workspace_deps
              (ground (arith, counted, e, p))),
        Led-slots n before after adds out ss c.1 h.1,
      )
  Led-back out (Takes.there {s = s} t) k c h =
      (Led-slot n before after adds out s c.0 h.0, Led-back out t k.1 c.1 h.1)

topo_rounds-Led :
    (rank : String → ℕ) (left : ℕ) (ss : List Slot)
    → length (waiting ss) ≡ left
    → NoTwice (waiting ss)
    → All (Kept rank (waiting ss)) ss
    → All (Led (waiting ss) (topo_rounds left ss)) ss
unfolding topo_rounds
topo_rounds-Led rank zero ss n once k =
    rw (empty_of-length (waiting ss) n) (Led-nothing (topo_rounds zero ss) ss)
topo_rounds-Led rank (suc left) ss n once k = elim (Option-cases (take_ready ss)) [
  | inl e ↦
      let stuck : All (λ s. (s.emitted ≡ true) ⊎ (0 < s.pending)) ss =
        rw e at (take_ready-Result ss) in
      let (w, c) = head_of left (waiting ss) n in
      let absurd : zero ≡ suc zero =
        no_stall rank (suc (rank w)) ss w (omega arith) c
          (Stuck-slots rank (waiting ss) ss stuck k) in
      cc
  | inr (r, e) ↦
      let name : String = r.0.package_name in
      let next : List Slot = map (decrement name) r.1 in
      let takes : Takes ss r.0 r.1 = rw e at (take_ready-Result ss) in
      let adds = λ (d : String). contains-Takes d takes in
      let (fresh, gone) = NoTwice-Takes takes once in
      let same : waiting next ≡ waiting r.1 = waiting-decrement name r.1 in
      let count : length (waiting r.1) ≡ left = omega (arith, length-Takes takes, n) in
      let kept : All (Kept rank (waiting ss)) r.1 =
        All-Takes (Kept rank (waiting ss)) (emit-Kept rank (waiting ss)) takes k in
      let kept_next : All (Kept rank (waiting r.1)) next =
        Kept-after rank name (waiting ss) (waiting r.1) adds r.1 gone (differ name r.1 gone) kept in
      let led : All (Led (waiting r.1) (topo_rounds left next)) next =
        rw same at
          (topo_rounds-Led rank left next (rw same count) (rw same fresh) (rw same kept_next)) in
      let all_out =
        reached (topo_rounds left next) r.1
          (λ d c. contains-perm d (topo_rounds-perm left next (rw same count)) ∙ rw same c) in
      rw (topo_rounds, e)
        (Led-back rank name (waiting ss) (waiting r.1) adds (topo_rounds left next) takes k all_out
          led)
]

first-Kept :
    (rank : String → ℕ) (names : List String) (ms : List WorkspaceMember)
    → All (λ m. NoTwice m.workspace_deps) ms
    → All (Ranked rank names) ms
    → All (Kept rank names) (map (first_slot names) ms)
unfolding first_slot
first-Kept rank names [] n r = tt
first-Kept rank names (m ∷ ms) n r = ((inr refl, n.0, r.0), first-Kept rank names ms n.1 r.1)

-- Whether each dependency of a member that is another name of the list stands before the member.
abbrev pub deps_first : List String → List String → WorkspaceMember → Bool
deps_first names out m =
    all (λ d. not (contains d names) || (str_eq d m.package_name || precedes d m.package_name out))
      m.workspace_deps

deps_first-Led :
    (names out : List String) (own : String) (ds : List String)
    → All (Led1 names out own) ds
    → all (λ d. not (contains d names) || (str_eq d own || precedes d own out)) ds ≡ true
deps_first-Led names out own [] h = refl
deps_first-Led names out own (d ∷ ds) h = elim (Bool-cases (contains d names)) [
  | inr a ↦ rw a (deps_first-Led names out own ds h.1)
  | inl a ↦ elim (Bool-cases (str_eq d own)) [
    | inl b ↦ rw (a, b) (deps_first-Led names out own ds h.1)
    | inr b ↦ rw (a, b, h.0 a b) (deps_first-Led names out own ds h.1)
  ]
]

members-Led :
    (names out : List String) (ms : List WorkspaceMember)
    → All (Led names out) (map (first_slot names) ms)
    → all (deps_first names out) ms ≡ true
unfolding first_slot
members-Led names out [] h = refl
members-Led names out (m ∷ ms) (inl e, h) = let absurd : false ≡ true = e in cc
members-Led names out (m ∷ ms) (inr l, h) =
    rw (deps_first-Led names out m.package_name m.workspace_deps l) (members-Led names out ms h)

-- When no package and no dependency of a member is repeated and the dependencies have no cycle, which
-- a rank that rises along them shows, every dependency on another member stands in the publish order
-- before the member that depends on it.
pub deps_first-topo_order_members :
    (rank : String → ℕ) (ms : List WorkspaceMember)
    → NoTwice (map package_of ms)
    → All (λ m. NoTwice m.workspace_deps) ms
    → All (Ranked rank (map package_of ms)) ms
    → all (deps_first (map package_of ms) (topo_order_members ms)) ms ≡ true
unfolding topo_order_members
deps_first-topo_order_members rank ms names deps ranked =
    let slots : List Slot = map (first_slot (map package_of ms)) ms in
    let same : waiting slots ≡ map package_of ms = waiting-first (map package_of ms) ms in
    members-Led (map package_of ms) (topo_rounds (length ms) slots) ms (
      rw same at (
        topo_rounds-Led rank (length ms) slots (rw same (length-packages ms)) (rw same names)
          (rw same (first-Kept rank (map package_of ms) ms deps ranked))))
