-- ===== src/Plan/Order/Progress.antt =====
-- Without a cycle each round finds a member
-- (crates/shipshape-core/src/release/plan.rs, `topo_order_members`).
use ossctl.Base.{
  ℕ, zero, suc, ◌<◌, ◌≡◌, ap, ◌⊎◌, inl, inr, true, false, ◌&&◌, not, List, [], ◌∷◌, String, str_eq,
  arith, Bool-cases, All, eq_iff,
}
use ossctl.Base.Dict.{contains}
use ossctl.Plan.Order.{WorkspaceMember, Slot, count_deps, waiting}
use ossctl.Plan.Order.Counts.{emit, Takes}

-- The pending count of a slot that waits is the number of its dependencies that wait.
abbrev pub Counted : List String → Slot → Type 0
Counted names s =
    (s.emitted ≡ true)
    ⊎ (s.pending ≡ count_deps names s.member.package_name s.member.workspace_deps)

abbrev pub Ranked1 : (String → ℕ) → List String → String → String → Type 0
Ranked1 rank names own d = ((contains d names && not (str_eq d own)) ≡ false) ⊎ (rank d < rank own)

-- Each dependency of a member that is another name of the list has a smaller rank, as in a graph
-- without cycles.
abbrev pub Ranked : (String → ℕ) → List String → WorkspaceMember → Type 0
Ranked rank names m = All (Ranked1 rank names m.package_name) m.workspace_deps

pub All-Takes :
    (P : Slot → Type 0)
    → ((s : Slot) → P s → P (emit s))
    → {ss rest : List Slot} {m : WorkspaceMember} → Takes ss m rest
    → All P ss
    → All P rest
All-Takes P k (Takes.here {s = s} e p) h = (k s h.0, h.1)
All-Takes P k (Takes.there t) h = (h.0, All-Takes P k t h.1)

find_slot :
    (P : Slot → Type 0) (d : String) (ss : List Slot)
    → contains d (waiting ss) ≡ true
    → All P ss
    → (s : Slot) × (s.emitted ≡ false) × (s.member.package_name ≡ d) × P s
unfolding contains waiting
find_slot P d [] c h = let absurd : false ≡ true = c in cc
find_slot P d (s ∷ ss) c h = elim (Bool-cases s.emitted) [
  | inl e ↦ find_slot P d ss (rw e at c) h.1
  | inr e ↦ elim (Bool-cases (str_eq s.member.package_name d)) [
    | inl q ↦ (s, e, (eq_iff s.member.package_name d).0 q, h.0)
    | inr q ↦ find_slot P d ss (ground (arith, c, e, q)) h.1
  ]
]

find_dep :
    (Q : String → Type 0) (names : List String) (own : String) (ds : List String)
    → 0 < count_deps names own ds
    → All Q ds
    → (d : String) × ((contains d names && not (str_eq d own)) ≡ true) × Q d
unfolding count_deps
find_dep Q names own [] c h = let absurd : zero ≡ suc zero = omega (arith, c) in cc
find_dep Q names own (d ∷ ds) c h = elim (Bool-cases (contains d names && not (str_eq d own))) [
  | inl q ↦ (d, q, h.0)
  | inr q ↦ find_dep Q names own ds (rw q at c) h.1
]

abbrev pub Stuck : (String → ℕ) → List String → Slot → Type 0
Stuck rank names s =
    ((s.emitted ≡ true) ⊎ (0 < s.pending)) × Counted names s × Ranked rank names s.member

Stuck-dep :
    (rank : String → ℕ) (names : List String) (s : Slot)
    → s.emitted ≡ false
    → Stuck rank names s
    → (d : String) × (contains d names ≡ true) × (rank d < rank s.member.package_name)
Stuck-dep rank names s e (p, c, r) =
    let (d, i, q) =
      find_dep (Ranked1 rank names s.member.package_name) names s.member.package_name
        s.member.workspace_deps (ground (arith, p, c, e)) r in
    (d, ground (arith, i), ground (arith, i, q))

-- Not every name that waits waits for another.
pub no_stall :
    (rank : String → ℕ) (k : ℕ) (ss : List Slot) (d : String)
    → rank d < k
    → contains d (waiting ss) ≡ true
    → All (Stuck rank (waiting ss)) ss
    → zero ≡ suc zero
no_stall rank zero ss d below c h = omega arith
no_stall rank (suc k) ss d below c h =
    let (s, e, same, stuck) = find_slot (Stuck rank (waiting ss)) d ss c h in
    let (next, waits, smaller) = Stuck-dep rank (waiting ss) s e stuck in
    no_stall rank k ss next (omega (arith, below, smaller, ap rank same)) waits h
