-- ===== src/License/Grammar.antt =====
-- The parser accepts the expressions of the grammar and no others
-- (crates/shipshape-core/src/contract/spdx.rs, `Parser`).
use mathlib.Core.Path.{subst}
use ossctl.Base.{
  ℕ, zero, suc, ◌≡◌, refl, sym, ◌⊎◌, inl, inr, true, ◌&&◌, Option, none, some, List, [], ◌∷◌, arith,
  Bool-cases, &&-true,
}
use ossctl.License.{
  Token, valid_license_id, is_open, is_close, is_op, is_with, is_plain, after_with, after_id,
  parse_id, after_paren, parse_term, parse_expr, parse_ops,
}

mutual
  -- term := '(' expr ')' | id | id WITH exception, of the tokens up to a rest
  pub data Term : List Token → List Token → Type 0 where
    paren :
        {o c : Token} {ts rest : List Token}
        → is_open o ≡ true
        → Expr ts (c ∷ rest)
        → is_close c ≡ true
        → Term (o ∷ ts) rest
    id :
        {t : Token} {rest : List Token}
        → is_plain t ≡ true
        → valid_license_id t ≡ true
        → Term (t ∷ rest) rest
    id_with :
        {t w e : Token} {rest : List Token}
        → is_plain t ≡ true
        → valid_license_id t ≡ true
        → is_with w ≡ true
        → is_plain e ≡ true
        → Term (t ∷ w ∷ e ∷ rest) rest

  -- expr := term ops
  pub data Expr : List Token → List Token → Type 0 where
    expr : {ts us rest : List Token} → Term ts us → Ops us rest → Expr ts rest

  -- ops := ((AND|OR) term)*
  pub data Ops : List Token → List Token → Type 0 where
    stop : {rest : List Token} → Ops rest rest
    op :
        {o : Token} {ts us rest : List Token}
        → is_op o ≡ true
        → Term ts us
        → Ops us rest
        → Ops (o ∷ ts) rest

-- The three parsers take only what the grammar derives.
abbrev pub Sound : ℕ → Type 0
Sound n =
    ((ts rest : List Token) → parse_term n ts ≡ some rest → Term ts rest)
    × ((ts rest : List Token) → parse_expr n ts ≡ some rest → Expr ts rest)
    × ((ts rest : List Token) → parse_ops n ts ≡ some rest → Ops ts rest)

after_paren_cases :
    (r : Option (List Token)) (rest : List Token)
    → after_paren r ≡ some rest
    → (c : Token) × (r ≡ some (c ∷ rest)) × (is_close c ≡ true)
unfolding after_paren
after_paren_cases none rest h = absurd (ground (arith, h))
after_paren_cases (some []) rest h = absurd (ground (arith, h))
after_paren_cases (some (c ∷ ts)) rest h = elim (Bool-cases (is_close c)) [
  | inl e ↦ let same : ts ≡ rest = ground (arith, rw e at h) in (c, (λ i. some (c ∷ same i)), e)
  | inr e ↦ absurd (ground (arith, rw e at h))
]

same_rest : {a b : List Token} → ◌≡◌ {A = Option (List Token)} (some a) (some b) → a ≡ b
same_rest h = cc

after_with_cases :
    (ts rest : List Token)
    → after_with ts ≡ some rest
    → (e : Token) × (ts ≡ e ∷ rest) × (is_plain e ≡ true)
unfolding after_with
after_with_cases [] rest h = absurd (ground (arith, h))
after_with_cases (e ∷ ts) rest h = elim (Bool-cases (is_plain e)) [
  | inl p ↦ let same : ts ≡ rest = same_rest (rw p at h) in (e, (λ i. e ∷ same i), p)
  | inr p ↦ absurd (ground (arith, rw p at h))
]

after_id_cases :
    (ts rest : List Token)
    → after_id ts ≡ some rest
    → (ts ≡ rest)
      ⊎ ((w : Token) × (e : Token) × (ts ≡ w ∷ e ∷ rest) × (is_with w ≡ true) × (is_plain e ≡ true))
unfolding after_id
after_id_cases [] rest h = inl (same_rest h)
after_id_cases (w ∷ ts) rest h = elim (Bool-cases (is_with w)) [
  | inl p ↦
      let (e, split, q) = after_with_cases ts rest (rw p at h) in
      inr (w, e, (λ i. w ∷ split i), p, q)
  | inr p ↦ inl (same_rest (rw p at h))
]

parse_id-Term : (t : Token) (ts rest : List Token) → parse_id t ts ≡ some rest → Term (t ∷ ts) rest
unfolding parse_id
parse_id-Term t ts rest h = elim (Bool-cases (is_plain t && valid_license_id t)) [
  | inl p ↦
      let (plain, known) = &&-true (is_plain t) (valid_license_id t) p in
      elim (after_id_cases ts rest (rw p at h)) [
        | inl e ↦ subst (λ us. Term (t ∷ us) rest) (sym e) (id plain known)
        | inr (w, x, e, a, b) ↦ subst (λ us. Term (t ∷ us) rest) (sym e) (id_with plain known a b)
      ]
  | inr p ↦ absurd (ground (arith, rw p at h))
]

Term-step :
    (n : ℕ) → Sound n → (ts rest : List Token) → parse_term (suc n) ts ≡ some rest → Term ts rest
unfolding parse_term
Term-step n s [] rest h = absurd (ground (arith, h))
Term-step n (t, e, o) (k ∷ ts) rest h = elim (Bool-cases (is_open k)) [
  | inl p ↦
      let (c, inner, close) = after_paren_cases (parse_expr n ts) rest (rw (p, parse_term) at h) in
      paren p (e ts (c ∷ rest) inner) close
  | inr p ↦ parse_id-Term k ts rest (rw (p, parse_term) at h)
]

-- A step of the parser that goes on with the operators.
then_ops :
    (n : ℕ) (r : Option (List Token)) (rest : List Token)
    → ◌≡◌ {A = Option (List Token)} (elim r [ none ↦ none | some us ↦ parse_ops n us ]) (some rest)
    → (us : List Token) × (r ≡ some us) × (parse_ops n us ≡ some rest)
then_ops n none rest h = absurd (ground (arith, h))
then_ops n (some us) rest h = (us, refl, h)

Expr-step :
    (n : ℕ) → Sound n → (ts rest : List Token) → parse_expr (suc n) ts ≡ some rest → Expr ts rest
unfolding parse_expr
Expr-step n (t, e, o) ts rest h =
    let (us, first, more) = then_ops n (parse_term n ts) rest h in
    expr (t ts us first) (o us rest more)

Ops-step :
    (n : ℕ) → Sound n → (ts rest : List Token) → parse_ops (suc n) ts ≡ some rest → Ops ts rest
unfolding parse_ops
Ops-step n s [] rest h = subst (λ r. Ops [] r) (same_rest h) stop
Ops-step n (t, e, o) (k ∷ ts) rest h = elim (Bool-cases (is_op k)) [
  | inl p ↦
      let (us, first, more) = then_ops n (parse_term n ts) rest (rw (p, parse_ops) at h) in
      op p (t ts us first) (o us rest more)
  | inr p ↦ subst (λ r. Ops (k ∷ ts) r) (same_rest {a = k ∷ ts} (rw (p, parse_ops) at h)) stop
]

pub parse-Sound : (n : ℕ) → Sound n
unfolding parse_term parse_expr parse_ops
parse-Sound zero = (
  (λ ts rest h. absurd (ground (arith, h))),
  (λ ts rest h. absurd (ground (arith, h))),
  (λ ts rest h. absurd (ground (arith, h))),
)
parse-Sound (suc n) = let ih = parse-Sound n in (Term-step n ih, Expr-step n ih, Ops-step n ih)
