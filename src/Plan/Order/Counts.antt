-- ===== src/Plan/Order/Counts.antt =====
-- What the counts of pending dependencies mean, from round to round
-- (crates/shipshape-core/src/release/plan.rs, `topo_order_members`).
use ossctl.Base.{
  suc, ◌<◌, ◌≡◌, refl, ◌⊎◌, inl, inr, Bool, true, false, ◌&&◌, not, ◌==◌, Option, none, some, List,
  [], ◌∷◌, if◌then◌else◌, String, str_eq, arith, Bool-cases, All, eq_iff,
}
use ossctl.Base.Dict.{contains}
use ossctl.Plan.Order.{WorkspaceMember, Slot, count_deps, keep, take_ready, waiting}

-- No string stands twice.
abbrev pub NoTwice : List String → Type 0
NoTwice [] = Unit
NoTwice (x ∷ xs) = (contains x xs ≡ false) × NoTwice xs

abbrev pub emit : Slot → Slot
emit s = record { member = s.member; pending = s.pending; emitted = true }

-- One slot that waits for nothing is emitted.
pub data Takes : List Slot → WorkspaceMember → List Slot → Type 0 where
  here :
      {s : Slot} {ss : List Slot}
      → s.emitted ≡ false
      → s.pending ≡ 0
      → Takes (s ∷ ss) s.member (emit s ∷ ss)
  there :
      {s : Slot} {m : WorkspaceMember} {ss rest : List Slot}
      → Takes ss m rest
      → Takes (s ∷ ss) m (s ∷ rest)

abbrev pub Result : List Slot → Option (WorkspaceMember × List Slot) → Type 0
Result ss none = All (λ s. (s.emitted ≡ true) ⊎ (0 < s.pending)) ss
Result ss (some (m, rest)) = Takes ss m rest

keep-Result :
    (s : Slot) (ss : List Slot) (r : Option (WorkspaceMember × List Slot))
    → (s.emitted ≡ true) ⊎ (0 < s.pending)
    → Result ss r
    → Result (s ∷ ss) (keep s r)
keep-Result s ss none p h = (p, h)
keep-Result s ss (some (m, rest)) p h = Takes.there h

Result-first :
    (s : Slot) (ss : List Slot) (b : Bool)
    → (b ≡ true → (s.emitted ≡ false) × (s.pending ≡ 0))
    → (b ≡ false → (s.emitted ≡ true) ⊎ (0 < s.pending))
    → Result ss (take_ready ss)
    → Result (s ∷ ss) (if b then some (s.member, emit s ∷ ss) else keep s (take_ready ss))
Result-first s ss true p q h = Takes.here (p refl).0 (p refl).1
Result-first s ss false p q h = keep-Result s ss (take_ready ss) (q refl) h

pub take_ready-Result : (ss : List Slot) → Result ss (take_ready ss)
unfolding take_ready
take_ready-Result [] = tt
take_ready-Result (s ∷ ss) =
    Result-first s ss (not s.emitted && (s.pending == 0)) (λ e. ground (arith, e))
      (λ e. elim (Bool-cases s.emitted) [ inl y ↦ inl y | inr n ↦ inr (ground (arith, e, n)) ])
      (take_ready-Result ss)

-- What is waited for after a round.
pub contains-Takes :
    {ss rest : List Slot} {m : WorkspaceMember} (d : String)
    → Takes ss m rest
    → contains d (waiting ss)
      ≡ (if str_eq m.package_name d then true else contains d (waiting rest))
unfolding contains waiting
contains-Takes d (Takes.here e p) = rw e refl
contains-Takes d (Takes.there {s = s} t) = ground (arith, contains-Takes d t)

pub NoTwice-Takes :
    {ss rest : List Slot} {m : WorkspaceMember}
    → Takes ss m rest
    → NoTwice (waiting ss)
    → NoTwice (waiting rest) × (contains m.package_name (waiting rest) ≡ false)
unfolding waiting contains
NoTwice-Takes (Takes.here e p) n = let k = rw e at n in (k.1, k.0)
NoTwice-Takes (Takes.there {s = s} {m = m} {ss = ss} {rest = rest} t) n =
    elim (Bool-cases s.emitted) [
      | inl e ↦ rw e (NoTwice-Takes t (rw e at n))
      | inr e ↦
          let k : NoTwice (s.member.package_name ∷ waiting ss) = rw e at n in
          let r = NoTwice-Takes t k.1 in
          let c = contains-Takes s.member.package_name t in
          rw e (
            (ground (arith, k.0, c), r.0),
            ground (
              arith,
              k.0,
              c,
              r.1,
              eq_iff m.package_name s.member.package_name,
              eq_iff s.member.package_name m.package_name,
            ),
          )
    ]

-- The counts before and after a round, where `before` is `after` with `n`.
module _ (n own : String) (before after : List String)
    (adds : (d : String) → contains d before ≡ (if str_eq n d then true else contains d after))
    (gone : contains n after ≡ false) (other : str_eq n own ≡ false) where
  count_same :
      (ds : List String)
      → contains n ds ≡ false
      → count_deps before own ds ≡ count_deps after own ds
  unfolding count_deps contains
  count_same [] h = refl
  count_same (d ∷ ds) h = ground (arith, adds d, h, count_same ds, eq_iff d n, eq_iff n d)

  pub count_drops :
      (ds : List String)
      → NoTwice ds
      → count_deps before own ds
        ≡ (if contains n ds then suc (count_deps after own ds) else count_deps after own ds)
  unfolding count_deps contains
  count_drops [] h = refl
  count_drops (d ∷ ds) h =
      ground
        (arith, adds d, h.0, gone, other, count_same ds, count_drops ds h.1, eq_iff d n, eq_iff n d)
