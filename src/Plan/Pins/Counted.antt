-- ===== src/Plan/Pins/Counted.antt =====
-- The exact pins of one place are counted and rewritten
-- (crates/shipshape-core/src/release/plan.rs, `derive_pin_rewrites`).
use mathlib.Core.Path.{subst}
use mathlib.Core.List.{Memᴰ}
use ossctl.Base.{
  ℕ, ◌≤◌, ◌==◌, ◌≡◌, refl, sym, ◌⊎◌, inl, inr, Bool, true, false, ◌&&◌, ◌||◌, String, str_eq,
  Option, none, some, List, [], ◌∷◌, ◌++◌, length, any, filter, is_some, arith, Bool-cases, eq_iff,
  eq_refl,
}
use ossctl.Base.Dict.{Dict, contains}
use ossctl.Plan.{PinRewrite}
use ossctl.Plan.Inputs.{WorkspacePinOwner}
use ossctl.Plan.Pins.{
  Planned, planned, declined, is_pin, is_exact, exact_pin_count, Place, add_rewrite, rewrite_at,
  place_rewrites, both_rewrites, owner_place, owner_rewrites, bool_eq,
}

-- A pin is explicit, so no list has more pins than explicit requirements, and as many only when each
-- explicit requirement is the pin.
length-pins :
    (pin : String) (rs : List (Option String))
    → length (filter (is_pin pin) rs) ≤ length (filter (λ (r : Option String). is_some r) rs)
unfolding filter is_pin
length-pins pin [] = omega arith
length-pins pin (none ∷ rs) = length-pins pin rs
length-pins pin (some r ∷ rs) = ground (arith, length-pins pin rs)

all_pins :
    (pin : String) (r : String) (rs : List (Option String))
    → length (filter (is_pin pin) rs) ≡ length (filter (λ (q : Option String). is_some q) rs)
    → Memᴰ (some r) rs
    → r ≡ pin
unfolding filter is_pin
all_pins pin r [] e m = elim m [ ]
all_pins pin r (none ∷ rs) e (Memᴰ.head p) = cc
all_pins pin r (none ∷ rs) e (Memᴰ.tail m) = all_pins pin r rs e m
all_pins pin r (some q ∷ rs) e (Memᴰ.head p) =
    ground (arith, e, p, length-pins pin rs, eq_iff q pin)
all_pins pin r (some q ∷ rs) e (Memᴰ.tail m) =
    all_pins pin r rs (ground (arith, e, length-pins pin rs)) m

any_exact :
    (r : String) (rs : List (Option String))
    → Memᴰ (some r) rs
    → is_exact (some r) ≡ true
    → any is_exact rs ≡ true
any_exact r rs (Memᴰ.head {x = x} e) h = rw (subst (λ q. is_exact q ≡ true) e h) refl
any_exact r rs (Memᴰ.tail {x = x} {xs = xs} m) h = rw (any_exact r xs m h) (ground arith)

-- A count lets an exact requirement through only when it is the pin, and then rewrites it.
exact_counted :
    (owner dep pin r : String) (rs : List (Option String)) (o : Option ℕ)
    → Memᴰ (some r) rs
    → is_exact (some r) ≡ true
    → exact_pin_count owner dep rs pin ≡ planned o
    → (r ≡ pin) × (n : ℕ) × (o ≡ some n)
unfolding exact_pin_count
exact_counted owner dep pin r rs o m x h =
    elim (Bool-cases (length (filter (is_pin pin) rs) == 0)) [
      | inl e ↦ absurd (ground (arith, rw (e, any_exact r rs m x) at h))
      | inr e ↦
          elim (Bool-cases (
            length (filter (is_pin pin) rs)
            == length (filter (λ (q : Option String). is_some q) rs))) [
              | inl f ↦ (
                all_pins pin r rs (ground (arith, f)) m,
                length (filter (is_pin pin) rs),
                ground (arith, rw (e, f) at h),
              )
              | inr f ↦ absurd (ground (arith, rw (e, f) at h))
            ]
    ]

bool_eq_refl : (b : Bool) → bool_eq b b ≡ true
unfolding bool_eq
bool_eq_refl true = refl
bool_eq_refl false = refl

-- Whether a rewrite is of this dependency at this place.
abbrev pub rewrites : Place → String → PinRewrite → Bool
rewrites place dep q =
    bool_eq q.workspace_root place.workspace_root
    && (str_eq q.in_package place.in_package && str_eq q.dependency dep)

add_rewrite_cases :
    (q : PinRewrite) (o : Planned (Option ℕ)) (rest : Planned (List PinRewrite))
    (rs : List PinRewrite)
    → add_rewrite q o rest ≡ planned rs
    → (n : Option ℕ) × (qs : List PinRewrite) × (o ≡ planned n)
      × (rest ≡ planned qs)
      × (((n ≡ none) × (rs ≡ qs)) ⊎ (rs ≡ q ∷ qs))
unfolding add_rewrite
add_rewrite_cases q (declined e) rest rs h = absurd (ground (arith, h))
add_rewrite_cases q (planned none) rest rs h = (none, rs, refl, h, inl (refl, refl))
add_rewrite_cases q (planned (some n)) (declined e) rs h = absurd (ground (arith, h))
add_rewrite_cases q (planned (some n)) (planned qs) rs h = (some n, qs, refl, refl, inr (cc))

module _ (members : List String) (from_pin to_pin : String) where
  -- The place's exact pins on members are the pin that is rewritten, and are rewritten.
  abbrev pub Handled : Place → Dict (List (Option String)) → List PinRewrite → Type 0
  Handled place entries rs =
      (dep r : String) (reqs : List (Option String))
      → Memᴰ (dep, reqs) entries
      → contains dep members ≡ true
      → Memᴰ (some r) reqs
      → is_exact (some r) ≡ true
      → (r ≡ from_pin) × (any (rewrites place dep) rs ≡ true)

  member_step :
      (place : Place) (entry : String × List (Option String))
      (entries : Dict (List (Option String)))
      → contains entry.0 members ≡ true
      → place_rewrites members from_pin to_pin place (entry ∷ entries)
        ≡ add_rewrite
            (rewrite_at place from_pin to_pin entry.0)
            (exact_pin_count place.owner entry.0 entry.1 from_pin)
            (place_rewrites members from_pin to_pin place entries)
  unfolding place_rewrites
  member_step place entry entries e = rw e refl

  other_step :
      (place : Place) (entry : String × List (Option String))
      (entries : Dict (List (Option String)))
      → contains entry.0 members ≡ false
      → place_rewrites members from_pin to_pin place (entry ∷ entries)
        ≡ place_rewrites members from_pin to_pin place entries
  unfolding place_rewrites
  other_step place entry entries e = rw e refl

  abbrev Made : Place → String → Option ℕ → List PinRewrite → List PinRewrite → Type 0
  Made place d n qs rs = ((n ≡ none) × (rs ≡ qs)) ⊎ (rs ≡ rewrite_at place from_pin to_pin d ∷ qs)

  first_rewrite :
      (place : Place) (dep d : String)
      → dep ≡ d
      → (n : Option ℕ) (k : ℕ) (qs rs : List PinRewrite) → n ≡ some k
      → Made place d n qs rs
      → any (rewrites place dep) rs ≡ true
  first_rewrite place dep d same n k qs rs e (inl (f, g)) = absurd (ground (arith, e, f))
  first_rewrite place dep d same n k qs rs e (inr g) =
      rw (g, same, bool_eq_refl place.workspace_root, eq_refl place.in_package, eq_refl d) refl

  later_rewrite :
      (place : Place) (dep d : String) (n : Option ℕ) (qs rs : List PinRewrite)
      → any (rewrites place dep) qs ≡ true
      → Made place d n qs rs
      → any (rewrites place dep) rs ≡ true
  later_rewrite place dep d n qs rs h (inl (f, g)) = rw g h
  later_rewrite place dep d n qs rs h (inr g) = rw (g, h) (ground arith)

  pub place_rewrites-Handled :
      (place : Place) (entries : Dict (List (Option String))) (rs : List PinRewrite)
      → place_rewrites members from_pin to_pin place entries ≡ planned rs
      → Handled place entries rs
  place_rewrites-Handled place [] rs h dep r reqs m c mr x = elim m [ ]
  place_rewrites-Handled place (entry ∷ entries) rs h dep r reqs m c mr x =
      elim (Bool-cases (contains entry.0 members)) [
        | inr e ↦ elim m [
          | Memᴰ.head s ↦ absurd (
              ground (arith, e, subst (λ (d : String). contains d members ≡ true) (λ i. (s i).0) c))
          | Memᴰ.tail k ↦
              place_rewrites-Handled place entries rs (rw (other_step place entry entries e) at h)
                dep r reqs k c mr x
        ]
        | inl e ↦
            let (n, qs, counted, later, made) =
              add_rewrite_cases (rewrite_at place from_pin to_pin entry.0)
                (exact_pin_count place.owner entry.0 entry.1 from_pin)
                (place_rewrites members from_pin to_pin place entries) rs
                (rw (member_step place entry entries e) at h) in
            elim m [
              | Memᴰ.head s ↦
                  let (pinned, k, some_k) =
                    exact_counted place.owner entry.0 from_pin r entry.1 n
                      (subst (λ (q : List (Option String)). Memᴰ (some r) q) (λ i. (s i).1) mr) x
                      counted in
                  (pinned, first_rewrite place dep entry.0 (λ i. (s i).0) n k qs rs some_k made)
              | Memᴰ.tail k ↦
                  let (pinned, found) =
                    place_rewrites-Handled place entries qs later dep r reqs k c mr x in
                  (pinned, later_rewrite place dep entry.0 n qs rs found made)
            ]
      ]

  pub both_cases :
      (p q : Planned (List PinRewrite)) (rs : List PinRewrite)
      → both_rewrites p q ≡ planned rs
      → (ps : List PinRewrite) × (qs : List PinRewrite) × (p ≡ planned ps)
        × (q ≡ planned qs)
        × (rs ≡ ps ++ qs)
  unfolding both_rewrites
  both_cases (declined e) q rs h = absurd (ground (arith, h))
  both_cases (planned ps) (declined e) rs h = absurd (ground (arith, h))
  both_cases (planned ps) (planned qs) rs h = (ps, qs, refl, refl, (cc))

  pub any-append :
      (f : PinRewrite → Bool) (ps qs : List PinRewrite) → any f (ps ++ qs) ≡ (any f ps || any f qs)
  any-append f [] qs = refl
  any-append f (p ∷ ps) qs = rw (any-append f ps qs) (ground arith)

  -- The same of every owner.
  pub owner_rewrites-Handled :
      (os : List WorkspacePinOwner) (rs : List PinRewrite)
      → owner_rewrites members from_pin to_pin os ≡ planned rs
      → (o : WorkspacePinOwner) → Memᴰ o os
      → Handled (owner_place o) o.pin_reqs rs
  unfolding owner_rewrites
  owner_rewrites-Handled [] rs h o m dep r reqs k c mr x = elim m [ ]
  owner_rewrites-Handled (u ∷ os) rs h o (Memᴰ.head e) dep r reqs k c mr x =
      let (ps, qs, first, later, split) = both_cases _ _ rs h in
      let (pinned, found) =
        place_rewrites-Handled (owner_place o) o.pin_reqs ps
          (subst
            (λ v. place_rewrites members from_pin to_pin (owner_place v) v.pin_reqs ≡ planned ps)
            (sym e) first)
          dep r reqs k c mr x in
      (pinned, rw (split, any-append (rewrites (owner_place o) dep) ps qs, found) refl)
  owner_rewrites-Handled (u ∷ os) rs h o (Memᴰ.tail m) dep r reqs k c mr x =
      let (ps, qs, first, later, split) = both_cases _ _ rs h in
      let (pinned, found) = owner_rewrites-Handled os qs later o m dep r reqs k c mr x in
      (pinned, rw (split, any-append (rewrites (owner_place o) dep) ps qs, found) (ground arith))
