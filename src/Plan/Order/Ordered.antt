-- ===== src/Plan/Order/Ordered.antt =====
-- What a round puts in front of what still waits
-- (crates/shipshape-core/src/release/plan.rs, `topo_order_members`).
use ossctl.Plan.Order.Progress.{Counted}
use ossctl.Base.{
  ◌≡◌, refl, sym, ◌∙◌, ◌⊎◌, inl, inr, Bool, true, false, ◌&&◌, not, ltb, List, [], ◌∷◌, map,
  if◌then◌else◌, String, str_eq, arith, Bool-cases, All,
}
use ossctl.Base.Dict.{contains}
use ossctl.Plan.Order.{Slot, decrement}
use ossctl.Plan.Order.Counts.{NoTwice, count_drops}

-- Whether `a` stands in the list and `b` after it.
unfoldable pub precedes : String → String → List String → Bool
unfolding contains
precedes a b [] = false
precedes a b (x ∷ xs) = let rest = precedes a b xs in if str_eq x a then contains b xs else rest

abbrev pub Led1 : List String → List String → String → String → Type 0
Led1 names out own d = contains d names ≡ true → str_eq d own ≡ false → precedes d own out ≡ true

abbrev pub Led : List String → List String → Slot → Type 0
Led names out s =
    (s.emitted ≡ true) ⊎ All (Led1 names out s.member.package_name) s.member.workspace_deps

pub decrement_kept :
    (n : String) (s : Slot)
    → ((decrement n s).member ≡ s.member) × ((decrement n s).emitted ≡ s.emitted)
unfolding decrement
decrement_kept n s =
    elim (Bool-cases (not s.emitted && (ltb 0 s.pending && contains n s.member.workspace_deps))) [
      | inl e ↦ rw e (refl, refl)
      | inr e ↦ rw e (refl, refl)
    ]

module _ (n : String) (before after : List String)
    (adds : (d : String)
      → contains d before ≡ (if str_eq n d then true else contains d after)) where
  Led-deps :
      (out : List String) (own : String) (ds : List String)
      → contains own out ≡ true
      → All (Led1 after out own) ds
      → All (Led1 before (n ∷ out) own) ds
  unfolding precedes
  Led-deps out own [] c h = tt
  Led-deps out own (d ∷ ds) c h = (
    (λ i o. elim (Bool-cases (str_eq n d)) [
      | inl q ↦ rw q c
      | inr q ↦ rw q (h.0 (rw q at (sym (adds d) ∙ i)) o)
    ]),
    Led-deps out own ds c h.1,
  )

  pub Led-slot :
      (out : List String) (s : Slot)
      → (s.emitted ≡ true) ⊎ (contains s.member.package_name out ≡ true)
      → Led after out (decrement n s)
      → Led before (n ∷ out) s
  Led-slot out s (inl e) h = inl e
  Led-slot out s (inr c) (inl e) = inl (sym (decrement_kept n s).1 ∙ e)
  Led-slot out s (inr c) (inr h) = inr (
      Led-deps out s.member.package_name s.member.workspace_deps c (rw (decrement_kept n s).0 at h))

  pub Led-slots :
      (out : List String) (ss : List Slot)
      → All (λ s. (s.emitted ≡ true) ⊎ (contains s.member.package_name out ≡ true)) ss
      → All (Led after out) (map (decrement n) ss)
      → All (Led before (n ∷ out)) ss
  Led-slots out [] c h = tt
  Led-slots out (s ∷ ss) c h = (Led-slot out s c.0 h.0, Led-slots out ss c.1 h.1)

  pub decrement-Counted :
      (s : Slot)
      → contains n after ≡ false
      → NoTwice s.member.workspace_deps
      → (s.emitted ≡ true) ⊎ (str_eq n s.member.package_name ≡ false)
      → Counted before s
      → Counted after (decrement n s)
  unfolding decrement
  decrement-Counted s gone once (inl e) h = inl ((decrement_kept n s).1 ∙ e)
  decrement-Counted s gone once (inr o) (inl e) = inl ((decrement_kept n s).1 ∙ e)
  decrement-Counted s gone once (inr o) (inr c) = elim (Bool-cases s.emitted) [
    | inl e ↦ inl ((decrement_kept n s).1 ∙ e)
    | inr e ↦
        let k =
          count_drops n s.member.package_name before after adds gone o s.member.workspace_deps
            once in
        elim (Bool-cases (contains n s.member.workspace_deps)) [
          | inl q ↦ inr (ground (arith, e, q, c, k))
          | inr q ↦ inr (ground (arith, e, q, c, k))
        ]
  ]
