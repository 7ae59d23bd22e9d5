-- ===== src/Plan/Order/Waiting.antt =====
-- What waits between two rounds, and what needs no round
-- (crates/shipshape-core/src/release/plan.rs, `topo_order_members`).
use mathlib.Core.List.{Permᴰ}
use ossctl.Plan.Order.Ordered.{Led1, Led}
use ossctl.Base.{
  ℕ, zero, suc, ◌≡◌, refl, ◌∙◌, ◌⊎◌, inl, inr, true, false, List, [], ◌∷◌, length, String, str_eq,
  arith, Bool-cases, All, eq_iff, eq_refl,
}
use ossctl.Base.Dict.{contains}
use ossctl.Plan.Order.{WorkspaceMember, Slot, count_deps, waiting}
use ossctl.Plan.Order.Counts.{Takes}

pub contains-perm : {xs ys : List String} (d : String) → Permᴰ xs ys → contains d xs ≡ contains d ys
unfolding contains
contains-perm d Permᴰ.nil = refl
contains-perm d (Permᴰ.cons e p) = rw (e, contains-perm d p) refl
contains-perm d (Permᴰ.swap e f) = rw (e, f) (ground arith)
contains-perm d (Permᴰ.trans p q) = contains-perm d p ∙ contains-perm d q

pub length-Takes :
    {ss rest : List Slot} {m : WorkspaceMember}
    → Takes ss m rest
    → length (waiting ss) ≡ suc (length (waiting rest))
unfolding waiting
length-Takes (Takes.here e p) = rw e refl
length-Takes (Takes.there {s = s} t) = ground (arith, length-Takes t)

pub head_of :
    (left : ℕ) (ws : List String) → length ws ≡ suc left → (w : String) × (contains w ws ≡ true)
unfolding contains
head_of left [] h = let absurd : zero ≡ suc left = h in cc
head_of left (w ∷ ws) h = (w, rw (eq_refl w) refl)

pub differ :
    (n : String) (ss : List Slot)
    → contains n (waiting ss) ≡ false
    → All (λ s. (s.emitted ≡ true) ⊎ (str_eq n s.member.package_name ≡ false)) ss
unfolding contains waiting
differ n [] h = tt
differ n (s ∷ ss) h = elim (Bool-cases s.emitted) [
  | inl e ↦ (inl e, differ n ss (rw e at h))
  | inr e ↦ (
    inr (ground (arith, e, h, eq_iff n s.member.package_name, eq_iff s.member.package_name n)),
    differ n ss (ground (arith, e, h)),
  )
]

pub reached :
    (out : List String) (ss : List Slot)
    → ((d : String) → contains d (waiting ss) ≡ true → contains d out ≡ true)
    → All (λ s. (s.emitted ≡ true) ⊎ (contains s.member.package_name out ≡ true)) ss
unfolding contains waiting
reached out [] k = tt
reached out (s ∷ ss) k = elim (Bool-cases s.emitted) [
  | inl e ↦ (inl e, reached out ss (λ d c. k d (rw e c)))
  | inr e ↦ (
    inr (k s.member.package_name (rw (e, eq_refl s.member.package_name) refl)),
    reached out ss (λ d c. k d (ground (arith, e, c))),
  )
]

pub count_zero :
    (names out : List String) (own : String) (ds : List String)
    → count_deps names own ds ≡ 0
    → All (Led1 names out own) ds
unfolding count_deps
count_zero names out own [] h = tt
count_zero names out own (d ∷ ds) h =
    ((λ i o. ground (arith, h, i, o)), count_zero names out own ds (ground (arith, h)))

Led-none : (out : List String) (own : String) (ds : List String) → All (Led1 [] out own) ds
unfolding contains
Led-none out own [] = tt
Led-none out own (d ∷ ds) = ((λ i o. let absurd : false ≡ true = i in cc), Led-none out own ds)

pub Led-nothing : (out : List String) (ss : List Slot) → All (Led [] out) ss
Led-nothing out [] = tt
Led-nothing out (s ∷ ss) =
    (inr (Led-none out s.member.package_name s.member.workspace_deps), Led-nothing out ss)
