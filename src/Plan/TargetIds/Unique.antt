-- ===== src/Plan/TargetIds/Unique.antt =====
-- Different targets have different journal ids
-- (crates/shipshape-core/src/release/target_id.rs, `journal_target_ids`).
use Prim.Native.String.{◌++◌}
use text.Mathlib.TextLemmas.{append_cancel_left, append-nil}
use mathlib.Core.Logic.{if_pos, if_neg}
use mathlib.Core.Option.{get_or}
use ossctl.Base.{
  ℕ, String, ◌≡◌, ◌≢◌, refl, sym, ap, ◌∙◌, true, ◌==◌, List, [], ◌∷◌, map, length, All, arith,
  Bool-cases, inl, inr,
}
use ossctl.Schema.{Ecosystem, Ecosystem-discrete, ecosystem_as_str}
use ossctl.Plan.{PlanTarget}
use ossctl.Plan.TargetIds.{
  discriminator, all_new, at_level, minimal_level, group_of, id_in, id_among, journal_target_ids,
}
use ossctl.Plan.TargetIds.Text.{joined_inj, ecosystem_prefix}
use ossctl.Plan.TargetIds.Pairs.{
  Pairwise, All-map, All-trivial, Pairwise-map, all_new-map, Pairwise-of_all_new, Pairwise-both,
  Pairwise-family,
}

-- Two targets that are not the same to the plan, a missing package taken as an empty one.
abbrev pub Differ : PlanTarget → PlanTarget → Type 0
Differ t u =
    t.ecosystem ≡ u.ecosystem
    → get_or t.package_name "" ≡ get_or u.package_name ""
    → t.registry ≡ u.registry
    → t.adapter ≡ u.adapter
    → ⊥

-- A target of an ecosystem.
abbrev Of : Ecosystem → PlanTarget → Type 0
Of e t = t.ecosystem ≡ e

All-group_of {κ} :
    (P : PlanTarget → Type κ) (e : Ecosystem) (ts : List PlanTarget)
    → All P ts
    → All (λ t. Of e t × P t) (group_of e ts)
unfolding group_of
All-group_of P e [] h = tt
All-group_of P e (t ∷ ts) h = elim (Ecosystem-discrete t.ecosystem e) [
  | yes same ↦ rw (if_pos _ same) ((same, h.0), All-group_of P e ts h.1)
  | no other ↦ rw (if_neg _ other) (All-group_of P e ts h.1)
]

Pairwise-group_of {κ} :
    (R : PlanTarget → PlanTarget → Type κ) (e : Ecosystem) (ts : List PlanTarget)
    → Pairwise R ts
    → Pairwise (λ x y. Of e x × Of e y × R x y) (group_of e ts)
unfolding group_of
Pairwise-group_of R e [] h = tt
Pairwise-group_of R e (t ∷ ts) h = elim (Ecosystem-discrete t.ecosystem e) [
  | yes same ↦ rw (if_pos _ same) (
    All-map _ _ (group_of e ts) (λ y p. (same, p.0, p.1)) (All-group_of (R t) e ts h.0),
    Pairwise-group_of R e ts h.1,
  )
  | no other ↦ rw (if_neg _ other) (Pairwise-group_of R e ts h.1)
]

All-ungroup {κ} :
    (P : PlanTarget → Type κ) (e : Ecosystem) (ts : List PlanTarget)
    → All P (group_of e ts)
    → All (λ t. Of e t → P t) ts
unfolding group_of
All-ungroup P e [] h = tt
All-ungroup P e (t ∷ ts) h = elim (Ecosystem-discrete t.ecosystem e) [
  | yes same ↦
      let both : All P (t ∷ group_of e ts) = rw (if_pos _ same) at h in
      (λ o. both.0, All-ungroup P e ts both.1)
  | no other ↦ (λ o. absurd (other o), All-ungroup P e ts (rw (if_neg _ other) at h))
]

Pairwise-ungroup {κ} :
    (R : PlanTarget → PlanTarget → Type κ) (e : Ecosystem) (ts : List PlanTarget)
    → Pairwise R (group_of e ts)
    → Pairwise (λ x y. Of e x → Of e y → R x y) ts
unfolding group_of
Pairwise-ungroup R e [] h = tt
Pairwise-ungroup R e (t ∷ ts) h = elim (Ecosystem-discrete t.ecosystem e) [
  | yes same ↦
      let both : Pairwise R (t ∷ group_of e ts) = rw (if_pos _ same) at h in
      (
        All-map _ _ ts (λ y f o p. f p) (All-ungroup (R t) e ts both.0),
        Pairwise-ungroup R e ts both.1,
      )
  | no other ↦ (
    All-map (λ y. Unit) _ ts (λ y u o. absurd (other o)) (All-trivial ts),
    Pairwise-ungroup R e ts (rw (if_neg _ other) at h),
  )
]

minimal_level-Pairwise :
    (g : List PlanTarget)
    → Pairwise (λ x y. discriminator x 3 ≢ discriminator y 3) g
    → Pairwise (λ x y. discriminator x (minimal_level g) ≢ discriminator y (minimal_level g)) g
unfolding minimal_level
minimal_level-Pairwise g h = elim (Bool-cases (all_new (map (at_level 1) g))) [
  | inl one ↦ rw one (Pairwise-of_all_new (at_level 1) g one)
  | inr more ↦ rw more elim (Bool-cases (all_new (map (at_level 2) g))) [
    | inl two ↦ rw two (Pairwise-of_all_new (at_level 2) g two)
    | inr three ↦ rw three h
  ]
]

discriminator-Differ :
    (e : Ecosystem) (x y : PlanTarget)
    → Of e x × Of e y × Differ x y
    → discriminator x 3 ≢ discriminator y 3
unfolding discriminator
discriminator-Differ e x y h same =
    let (p, r, a) =
      joined_inj (get_or x.package_name "") (get_or y.package_name "") x.registry y.registry
        x.adapter y.adapter same in
    h.2 (h.0 ∙ sym h.1) p r a

lone-Pairwise {κ} :
    (R : PlanTarget → PlanTarget → Type κ) (g : List PlanTarget)
    → (length g == 1) ≡ true
    → Pairwise R g
lone-Pairwise R [] h = tt
lone-Pairwise R (t ∷ []) h = (tt, tt)
lone-Pairwise R (t ∷ u ∷ g) h = absurd (ground arith)

qualified-ne :
    (level : ℕ) (e : Ecosystem) (x y : PlanTarget)
    → (Of e x × Of e y × Differ x y) × (discriminator x level ≢ discriminator y level)
    → ecosystem_as_str x.ecosystem ++ ":" ++ discriminator x level
      ≢ ecosystem_as_str y.ecosystem ++ ":" ++ discriminator y level
qualified-ne level e x y h same = h.1 (
    append_cancel_left ":" _ _ (
      append_cancel_left (ecosystem_as_str e) _ _ (
        sym (ap (λ z. ecosystem_as_str z ++ ":" ++ discriminator x level) h.0.0)
        ∙ same
        ∙ ap (λ z. ecosystem_as_str z ++ ":" ++ discriminator y level) h.0.1)))

id_in-Pairwise :
    (e : Ecosystem) (g : List PlanTarget)
    → Pairwise (λ x y. Of e x × Of e y × Differ x y) g
    → Pairwise (λ x y. id_in g x ≢ id_in g y) g
unfolding id_in
id_in-Pairwise e g h = elim (Bool-cases (length g == 1)) [
  | inl lone ↦ lone-Pairwise _ g lone
  | inr many ↦ rw many (
      Pairwise-map _ _ g (qualified-ne (minimal_level g) e) (
        Pairwise-both _ _ g h
          (minimal_level-Pairwise g (Pairwise-map _ _ g (discriminator-Differ e) h))))
]

-- Every id begins with its target's ecosystem.
id_in-prefix :
    (g : List PlanTarget) (t : PlanTarget)
    → (s : String) × (id_in g t ≡ ecosystem_as_str t.ecosystem ++ s)
unfolding id_in
id_in-prefix g t = elim (Bool-cases (length g == 1)) [
  | inl lone ↦ rw lone ("", sym (append-nil (ecosystem_as_str t.ecosystem)))
  | inr many ↦ rw many (":" ++ discriminator t (minimal_level g), refl)
]

module _ (ts : List PlanTarget) where
  abbrev Apart : Ecosystem → PlanTarget → PlanTarget → Type 0
  Apart e x y = Of e x → Of e y → id_in (group_of e ts) x ≢ id_in (group_of e ts) y

  id_among-ne : (x y : PlanTarget) → ((e : Ecosystem) → Apart e x y) → id_among ts x ≢ id_among ts y
  id_among-ne x y apart same = elim (Ecosystem-discrete y.ecosystem x.ecosystem) [
    | yes q ↦ apart x.ecosystem refl q (same ∙ ap (λ e. id_in (group_of e ts) y) q)
    | no other ↦
        let (s, p) = id_in-prefix (group_of x.ecosystem ts) x in
        let (t, q) = id_in-prefix (group_of y.ecosystem ts) y in
        other (ecosystem_prefix y.ecosystem x.ecosystem t s (sym q ∙ sym same ∙ p))
  ]

  -- The journal ids of a plan's targets are pairwise different, if no two targets agree in ecosystem,
  -- package, registry and adapter, where a missing package counts as an empty one.
  pub journal_target_ids_lem : Pairwise Differ ts → all_new (journal_target_ids ts) ≡ true
  unfolding journal_target_ids
  journal_target_ids_lem h = all_new-map (id_among ts) ts (
      Pairwise-map _ _ ts id_among-ne (
        Pairwise-family Apart ts (λ e.
          Pairwise-ungroup _ e ts
            (id_in-Pairwise e (group_of e ts) (Pairwise-group_of Differ e ts h)))))
