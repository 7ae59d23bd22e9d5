-- ===== src/Plan/Order/Independent.antt =====
-- The publish order of members that do not depend on each other
-- (crates/shipshape-core/src/release/plan.rs, `topo_order_members`).
use ossctl.Base.{
  ℕ, zero, suc, ◌≡◌, refl, sym, ◌∙◌, ◌⊎◌, inl, inr, true, false, ◌&&◌, not, some, List, [], ◌∷◌,
  map, length, String, str_eq, arith, Bool-cases, All,
}
use ossctl.Base.Dict.{contains}
use ossctl.Plan.Order.{
  WorkspaceMember, Slot, package_of, first_slot, count_deps, take_ready, decrement, waiting,
  topo_rounds, topo_order_members,
}
use ossctl.Plan.Order.Complete.{waiting-first, length-packages, empty_of-length}

abbrev Free : Slot → Type 0
Free s = s.pending ≡ 0

decrement-Free : (name : String) (ss : List Slot) → All Free ss → map (decrement name) ss ≡ ss
unfolding decrement
decrement-Free name [] h = refl
decrement-Free name (s ∷ ss) h = rw (decrement-Free name ss h.1, h.0) (ground arith)

-- The first that waits is taken.
Taken : List Slot → Type 0
Taken ss =
    (r : WorkspaceMember × List Slot) × (take_ready ss ≡ some r)
    × (waiting ss ≡ r.0.package_name ∷ waiting r.1)
    × All Free r.1

take_ready-Free : (ss : List Slot) → All Free ss → (waiting ss ≡ []) ⊎ Taken ss
unfolding take_ready waiting Taken
take_ready-Free [] h = inl refl
take_ready-Free (s ∷ ss) h = elim (Bool-cases s.emitted) [
  | inl e ↦ elim (take_ready-Free ss h.1) [
    | inl w ↦ inl (rw e w)
    | inr (r, t, w, z) ↦ inr ((r.0, s ∷ r.1), rw (e, t) refl, rw e w, (h.0, z))
  ]
  | inr e ↦ inr (
    (s.member, record { member = s.member; pending = s.pending; emitted = true } ∷ ss),
    rw (e, h.0) refl,
    rw e refl,
    h,
  )
]

topo_rounds-Free :
    (left : ℕ) (ss : List Slot)
    → All Free ss
    → length (waiting ss) ≡ left
    → topo_rounds left ss ≡ waiting ss
unfolding topo_rounds Taken
topo_rounds-Free zero ss h n = sym (empty_of-length (waiting ss) n)
topo_rounds-Free (suc left) ss h n = elim (take_ready-Free ss h) [
  | inl w ↦ let absurd : 0 ≡ suc left = rw w at n in cc
  | inr (r, t, w, z) ↦
      let rest : topo_rounds left r.1 ≡ waiting r.1 =
        topo_rounds-Free left r.1 z
          (let k : suc (length (waiting r.1)) ≡ suc left = rw w at n in omega (arith, k)) in
      rw (topo_rounds, t, decrement-Free r.0.package_name r.1 z, rest) (sym w)
]

-- None of its dependencies is another member of the list.
abbrev pub Independent : List WorkspaceMember → WorkspaceMember → Type 0
Independent all m =
    All (λ d. (contains d (map package_of all) && not (str_eq d m.package_name)) ≡ false)
      m.workspace_deps

count_deps-zero :
    (names : List String) (own : String) (ds : List String)
    → All (λ d. (contains d names && not (str_eq d own)) ≡ false) ds
    → count_deps names own ds ≡ 0
unfolding count_deps
count_deps-zero names own [] h = refl
count_deps-zero names own (d ∷ ds) h = rw h.0 (count_deps-zero names own ds h.1)

first_slot-Free :
    (all ms : List WorkspaceMember)
    → All (Independent all) ms
    → All Free (map (first_slot (map package_of all)) ms)
unfolding first_slot
first_slot-Free all [] h = tt
first_slot-Free all (m ∷ ms) h = (
  count_deps-zero (map package_of all) m.package_name m.workspace_deps h.0,
  first_slot-Free all ms h.1,
)

-- Members of which none depends on another are published in the order in which they are declared.
pub topo_order_members-Independent :
    (ms : List WorkspaceMember)
    → All (Independent ms) ms
    → topo_order_members ms ≡ map package_of ms
unfolding topo_order_members
topo_order_members-Independent ms h =
    let slots : List Slot = map (first_slot (map package_of ms)) ms in
    let names : waiting slots ≡ map package_of ms = waiting-first (map package_of ms) ms in
    topo_rounds-Free (length ms) slots (first_slot-Free ms ms h) (rw names (length-packages ms))
    ∙ names
