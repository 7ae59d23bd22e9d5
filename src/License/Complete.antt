-- ===== src/License/Complete.antt =====
-- The parser accepts exactly the expressions of the grammar
-- (crates/shipshape-core/src/contract/spdx.rs, `spdx_valid`).
use ossctl.Base.{
  ℕ, zero, suc, ◌+◌, ◌*◌, ◌≤◌, ◌<◌, ◌≡◌, refl, ◌↔◌, inl, inr, true, false, ◌==◌, ==_iff, Option,
  none, some, List, [], ◌∷◌, map, length, all, arith, Bool-cases, &&-true,
}
use ossctl.Base.Text.{codes}
use ossctl.License.{
  Token, text_eq, is_word, lower, valid_license_id, is_open, is_close, is_op, is_with, is_plain,
  after_with, after_id, parse_id, after_paren, parse_term, parse_expr, parse_ops, at_end, tokens,
  spdx_valid, is_space,
}
use ossctl.License.Grammar.{Term, Expr, Ops, paren, id, id_with, expr, stop, op, parse-Sound}

text_eq-true : (a b : List ℕ) → text_eq a b ≡ true → a ≡ b
unfolding text_eq
text_eq-true [] [] h = refl
text_eq-true [] (b ∷ bs) h = cc
text_eq-true (a ∷ s) [] h = cc
text_eq-true (a ∷ s) (b ∷ bs) h =
    let (first, more) = &&-true (a == b) (text_eq s bs) h in
    let tail : s ≡ bs = text_eq-true s bs more in
    let head : a ≡ b = (==_iff a b).0 first in λ i. head i ∷ tail i

op_not_with : (o : Token) → is_op o ≡ true → is_with o ≡ false
unfolding is_op is_with is_word
op_not_with o h = elim (Bool-cases (text_eq (map lower o) (codes "and"))) [
  | inl e ↦ rw (text_eq-true (map lower o) (codes "and") e) (unfold text_eq codes in refl)
  | inr e ↦
      let same : map lower o ≡ codes "or" =
        text_eq-true (map lower o) (codes "or") (ground (arith, rw e at h)) in
      rw same (unfold text_eq codes in refl)
]

close_not_op : (c : Token) → is_close c ≡ true → is_op c ≡ false
unfolding is_close
close_not_op c h =
    rw (text_eq-true c (codes ")") h) (unfold is_op is_word text_eq lower codes in refl)

close_not_with : (c : Token) → is_close c ≡ true → is_with c ≡ false
unfolding is_close
close_not_with c h =
    rw (text_eq-true c (codes ")") h) (unfold is_with is_word text_eq lower codes in refl)

plain_not_open : (t : Token) → is_plain t ≡ true → is_open t ≡ false
unfolding is_plain
plain_not_open t h = ground arith

-- What may follow a term, and what ends an expression.
abbrev NoWith : List Token → Type 0
NoWith [] = Unit
NoWith (t ∷ ts) = is_with t ≡ false

abbrev Ends : List Token → Type 0
Ends [] = Unit
Ends (t ∷ ts) = (is_op t ≡ false) × (is_with t ≡ false)

NoWith-Ends : (rest : List Token) → Ends rest → NoWith rest
NoWith-Ends [] e = tt
NoWith-Ends (t ∷ ts) e = e.1

NoWith-Ops : {us rest : List Token} → Ops us rest → Ends rest → NoWith us
NoWith-Ops (stop {rest = rest}) e = NoWith-Ends rest e
NoWith-Ops (op {o = o} p t os) e = op_not_with o p

mutual
  Term-shorter : {ts rest : List Token} → Term ts rest → length rest < length ts
  Term-shorter (paren p e c) = omega (arith, Expr-shorter e)
  Term-shorter (id p v) = omega arith
  Term-shorter (id_with p v w e) = omega arith

  Expr-shorter : {ts rest : List Token} → Expr ts rest → length rest < length ts
  Expr-shorter (expr t os) = omega (arith, Term-shorter t, Ops-shorter os)

  Ops-shorter : {ts rest : List Token} → Ops ts rest → length rest ≤ length ts
  Ops-shorter stop = omega arith
  Ops-shorter (op p t os) = omega (arith, Term-shorter t, Ops-shorter os)

-- With two rounds for each token, and one more for an expression, all that the grammar derives is taken.
abbrev Complete : ℕ → Type 0
Complete n =
    ((ts rest : List Token)
      → Term ts rest
      → NoWith rest
      → 2 * length ts ≤ n
      → parse_term n ts ≡ some rest)
    × ((ts rest : List Token)
        → Expr ts rest
        → Ends rest
        → 2 * length ts + 1 ≤ n
        → parse_expr n ts ≡ some rest)
    × ((ts rest : List Token)
        → Ops ts rest
        → Ends rest
        → 2 * length ts + 1 ≤ n
        → parse_ops n ts ≡ some rest)

accepted_id :
    (t : Token) (ts : List Token)
    → is_plain t ≡ true
    → valid_license_id t ≡ true
    → parse_id t ts ≡ after_id ts
unfolding parse_id
accepted_id t ts p v = rw (p, v) refl

id_only : (rest : List Token) → NoWith rest → after_id rest ≡ some rest
unfolding after_id
id_only [] h = refl
id_only (t ∷ ts) h = rw h refl

exception :
    (w e : Token) (rest : List Token)
    → is_with w ≡ true
    → is_plain e ≡ true
    → after_id (w ∷ e ∷ rest) ≡ some rest
unfolding after_id after_with
exception w e rest p q = rw (p, q) refl

opened :
    (n : ℕ) (o : Token) (ts : List Token)
    → is_open o ≡ true
    → parse_term (suc n) (o ∷ ts) ≡ after_paren (parse_expr n ts)
unfolding parse_term
opened n o ts h = rw (h, parse_term) refl

plain_term :
    (n : ℕ) (t : Token) (ts : List Token)
    → is_plain t ≡ true
    → parse_term (suc n) (t ∷ ts) ≡ parse_id t ts
unfolding parse_term
plain_term n t ts h = λ i. elim (plain_not_open t h i) as (λ b. Option (List Token)) [
  | true ↦ after_paren (parse_expr n ts)
  | false ↦ parse_id t ts
]

closed :
    (c : Token) (rest : List Token) → is_close c ≡ true → after_paren (some (c ∷ rest)) ≡ some rest
unfolding after_paren
closed c rest h = rw h refl

Term-step :
    (n : ℕ)
    → Complete n
    → (ts rest : List Token) → Term ts rest
    → NoWith rest
    → 2 * length ts ≤ suc n
    → parse_term (suc n) ts ≡ some rest
Term-step n s [] rest x f b = absurd (omega (arith, Term-shorter x))
Term-step n (t, e, o) (k ∷ ts) rest (paren {c = c} p x cl) f b =
    rw
      (
        opened n k ts p,
        e ts (c ∷ rest) x (close_not_op c cl, close_not_with c cl) (omega (arith, b)),
      )
      (closed c rest cl)
Term-step n s (k ∷ rest) rest' (id p v) f b =
    rw (plain_term n k rest p, accepted_id k rest p v) (id_only rest f)
Term-step n s (k ∷ w ∷ x ∷ rest) rest' (id_with p v q y) f b =
    rw (plain_term n k (w ∷ x ∷ rest) p, accepted_id k (w ∷ x ∷ rest) p v) (exception w x rest q y)

Expr-step :
    (n : ℕ)
    → Complete n
    → (ts rest : List Token) → Expr ts rest
    → Ends rest
    → 2 * length ts + 1 ≤ suc n
    → parse_expr (suc n) ts ≡ some rest
unfolding parse_expr
Expr-step n (t, e, o) ts rest (expr {us = us} x os) f b =
    rw (t ts us x (NoWith-Ops os f) (omega (arith, b)), parse_expr)
      (o us rest os f (omega (arith, b, Term-shorter x)))

at_op :
    (n : ℕ) (k : Token) (ts us : List Token)
    → is_op k ≡ true
    → parse_term n ts ≡ some us
    → parse_ops (suc n) (k ∷ ts) ≡ parse_ops n us
unfolding parse_ops
at_op n k ts us p h = rw (p, parse_ops) (rw (h, parse_ops) refl)

at_stop : (n : ℕ) (rest : List Token) → Ends rest → parse_ops (suc n) rest ≡ some rest
unfolding parse_ops
at_stop n [] e = refl
at_stop n (t ∷ ts) e = rw (e.0, parse_ops) refl

Ops-step :
    (n : ℕ)
    → Complete n
    → (ts rest : List Token) → Ops ts rest
    → Ends rest
    → 2 * length ts + 1 ≤ suc n
    → parse_ops (suc n) ts ≡ some rest
Ops-step n s ts rest stop f b = at_stop n rest f
Ops-step n (t, e, o) (k ∷ ts) rest (op {us = us} p x os) f b =
    rw (at_op n k ts us p (t ts us x (NoWith-Ops os f) (omega (arith, b))))
      (o us rest os f (omega (arith, b, Term-shorter x)))

parse-Complete : (n : ℕ) → Complete n
parse-Complete zero = (
  (λ ts rest x f b. absurd (omega (arith, b, Term-shorter x))),
  (λ ts rest x f b. absurd (omega (arith, b))),
  (λ ts rest x f b. absurd (omega (arith, b))),
)
parse-Complete (suc n) =
    let ih = parse-Complete n in (Term-step n ih, Expr-step n ih, Ops-step n ih)

at_end-some : (r : Option (List Token)) → at_end r ≡ true → r ≡ some []
unfolding at_end
at_end-some none h = absurd (ground (arith, h))
at_end-some (some []) h = refl
at_end-some (some (t ∷ ts)) h = absurd (ground (arith, h))

-- A text with some character that is no space is valid exactly when its tokens are an expression of the
-- grammar, with known license ids.
pub spdx_valid-Expr :
    (text : List ℕ) → all is_space text ≡ false → (spdx_valid text ≡ true) ↔ Expr (tokens text) []
unfolding spdx_valid at_end
spdx_valid-Expr text s = (
  (λ h.
      (parse-Sound (2 * length (tokens text) + 1)).1 (tokens text) []
        (at_end-some (parse_expr (2 * length (tokens text) + 1) (tokens text)) (rw s at h))),
  (λ x.
      rw (s, (parse-Complete (2 * length (tokens text) + 1)).1 (tokens text) [] x tt (omega arith))
        refl),
)
