-- ===== src/Plan/Order/Complete.antt =====
-- The publish order loses no member and repeats none
-- (crates/shipshape-core/src/release/plan.rs, `topo_order_members`).
use mathlib.Core.List.{Permᴰ}
use mathlib.Core.List.Permᴰ.{refl as refl_perm}
use ossctl.Base.{
  ℕ, zero, suc, ◌≡◌, refl, ap, ◌∙◌, inl, inr, Bool, true, false, ◌&&◌, not, ◌==◌, Option, none,
  some, List, [], ◌∷◌, map, length, if◌then◌else◌, String, arith, Bool-cases, Option-cases,
}
use ossctl.Plan.Order.{
  WorkspaceMember, Slot, package_of, first_slot, keep, take_ready, decrement, waiting, topo_rounds,
  topo_order_members,
}

length-perm : {xs ys : List String} → Permᴰ xs ys → length xs ≡ length ys
length-perm Permᴰ.nil = refl
length-perm (Permᴰ.cons e p) = ap suc (length-perm p)
length-perm (Permᴰ.swap e f) = refl
length-perm (Permᴰ.trans p q) = length-perm p ∙ length-perm q

-- A decrement emits nothing.
pub waiting-decrement :
    (name : String) (ss : List Slot) → waiting (map (decrement name) ss) ≡ waiting ss
unfolding waiting decrement
waiting-decrement name [] = refl
waiting-decrement name (s ∷ ss) = ground (arith, waiting-decrement name ss)

-- What was taken and what then waits is what waited before.
abbrev Taken : List String → Option (WorkspaceMember × List Slot) → Type 0
Taken before none = Unit
Taken before (some (m, ss)) = Permᴰ (m.package_name ∷ waiting ss) before

keep-Taken :
    (s : Slot) (ss : List Slot) (r : Option (WorkspaceMember × List Slot))
    → Taken (waiting ss) r
    → Taken (waiting (s ∷ ss)) (keep s r)
unfolding waiting
keep-Taken s ss none t = tt
keep-Taken s ss (some (m, rest)) t = elim (Bool-cases s.emitted) [
  | inl e ↦ rw e t
  | inr e ↦ rw e (Permᴰ.trans (Permᴰ.swap refl refl) (Permᴰ.cons refl t))
]

Taken-first :
    (s : Slot) (ss : List Slot) (b : Bool)
    → Taken (waiting (s ∷ ss)) (keep s (take_ready ss))
    → (not s.emitted && b) ≡ b
    → Taken (waiting (s ∷ ss)) (
        if b
        then some (s.member, record { member = s.member; pending = s.pending; emitted = true } ∷ ss)
        else keep s (take_ready ss))
unfolding waiting
Taken-first s ss false t h = t
Taken-first s ss true t h = elim (Bool-cases s.emitted) [
  | inl e ↦ let absurd : false ≡ true = rw e at h in cc
  | inr e ↦ rw e (refl_perm _)
]

take_ready-Taken : (ss : List Slot) → Taken (waiting ss) (take_ready ss)
unfolding take_ready
take_ready-Taken [] = tt
take_ready-Taken (s ∷ ss) =
    Taken-first s ss (not s.emitted && (s.pending == 0))
      (keep-Taken s ss (take_ready ss) (take_ready-Taken ss)) (ground arith)

pub empty_of-length : (ws : List String) → length ws ≡ 0 → ws ≡ []
empty_of-length [] h = refl
empty_of-length (w ∷ ws) h = cc

-- With a round for each waiting member, the rounds emit exactly what waits.
pub topo_rounds-perm :
    (left : ℕ) (ss : List Slot)
    → length (waiting ss) ≡ left
    → Permᴰ (topo_rounds left ss) (waiting ss)
unfolding topo_rounds
topo_rounds-perm zero ss h = rw (empty_of-length (waiting ss) h) Permᴰ.nil
topo_rounds-perm (suc left) ss h = elim (Option-cases (take_ready ss)) [
  | inl e ↦ rw (topo_rounds, e) (refl_perm _)
  | inr (r, e) ↦
      let taken : Permᴰ (r.0.package_name ∷ waiting r.1) (waiting ss) =
        rw e at (take_ready-Taken ss) in
      let same : waiting (map (decrement r.0.package_name) r.1) ≡ waiting r.1 =
        waiting-decrement r.0.package_name r.1 in
      let rest : Permᴰ (topo_rounds left (map (decrement r.0.package_name) r.1)) (waiting r.1) =
        rw same at (
          topo_rounds-perm left (map (decrement r.0.package_name) r.1)
            (rw same (omega (arith, length-perm taken, h)))) in
      rw (topo_rounds, e) (Permᴰ.trans (Permᴰ.cons refl rest) taken)
]

pub waiting-first :
    (names : List String) (ms : List WorkspaceMember)
    → waiting (map (first_slot names) ms) ≡ map package_of ms
unfolding waiting first_slot
waiting-first names [] = refl
waiting-first names (m ∷ ms) = rw (waiting-first names ms) refl

pub length-packages : (ms : List WorkspaceMember) → length (map package_of ms) ≡ length ms
length-packages [] = refl
length-packages (m ∷ ms) = ap suc (length-packages ms)

-- The publish order of any members is a permutation of their packages, whatever cycles, repeated names
-- or repeated dependencies they have: none is dropped and none is emitted twice.
pub topo_order_members-perm :
    (ms : List WorkspaceMember) → Permᴰ (topo_order_members ms) (map package_of ms)
unfolding topo_order_members
topo_order_members-perm ms =
    let first : waiting (map (first_slot (map package_of ms)) ms) ≡ map package_of ms =
      waiting-first (map package_of ms) ms in
    rw first at (
      topo_rounds-perm (length ms) (map (first_slot (map package_of ms)) ms)
        (rw first (length-packages ms)))
