-- ===== src/License.antt =====
-- License expressions (crates/shipshape-core/src/contract/spdx.rs, `spdx_valid`). A text is the list
-- of its characters' numbers here.
pub mod Grammar
pub mod Complete
mod Tests
use ossctl.Base.{
  ℕ, zero, suc, ◌+◌, ◌*◌, Bool, true, false, ◌&&◌, ◌||◌, not, ◌==◌, leb, String, Option, none, some,
  List, [], ◌∷◌, ◌++◌, map, length, any, all, is_empty, if◌then◌else◌,
}
use ossctl.Base.Text.{codes}

-- `==` on texts
unfoldable pub text_eq : List ℕ → List ℕ → Bool
text_eq [] [] = true
text_eq [] (b ∷ bs) = false
text_eq (a ∷ s) [] = false
text_eq (a ∷ s) (b ∷ bs) = (a == b) && text_eq s bs

-- `to_ascii_lowercase` of a character
unfoldable pub lower : ℕ → ℕ
lower c = if leb 65 c && leb c 90 then c + 32 else c

-- `eq_ignore_ascii_case` with a word in lower case
unfoldable pub is_word : String → List ℕ → Bool
unfolding text_eq lower codes
is_word w t = text_eq (map lower t) (codes w)

unfoldable pub starts_with : List ℕ → List ℕ → Bool
starts_with t [] = true
starts_with [] (p ∷ ps) = false
starts_with (c ∷ t) (p ∷ ps) = (c == p) && starts_with t ps

-- `strip_suffix('+').unwrap_or(tok)`
unfoldable pub strip_plus : List ℕ → List ℕ
strip_plus [] = []
strip_plus (c ∷ []) = if c == 43 then [] else c ∷ []
strip_plus (c ∷ d ∷ t) = c ∷ strip_plus (d ∷ t)

-- ASCII letters and digits, and `.`, `-`, `:`
unfoldable pub is_ref_char : ℕ → Bool
is_ref_char c =
    (leb 48 c && leb c 57)
    || (leb 65 c && leb c 90)
    || (leb 97 c && leb c 122)
    || c == 46
    || c == 45
    || c == 58

abbrev pub spdx_license_ids : List String
spdx_license_ids =
    "0bsd" ∷ "afl-3.0" ∷ "agpl-3.0" ∷ "agpl-3.0-only" ∷ "agpl-3.0-or-later" ∷ "apache-2.0"
    ∷ "artistic-2.0" ∷ "blueoak-1.0.0" ∷ "bsd-2-clause" ∷ "bsd-2-clause-patent" ∷ "bsd-3-clause"
    ∷ "bsd-3-clause-clear" ∷ "bsl-1.0" ∷ "cc-by-4.0" ∷ "cc-by-sa-4.0" ∷ "cc0-1.0" ∷ "cecill-2.1"
    ∷ "ecl-2.0" ∷ "epl-1.0" ∷ "epl-2.0" ∷ "eupl-1.1" ∷ "eupl-1.2" ∷ "gpl-2.0" ∷ "gpl-2.0-only"
    ∷ "gpl-2.0-or-later" ∷ "gpl-3.0" ∷ "gpl-3.0-only" ∷ "gpl-3.0-or-later" ∷ "isc" ∷ "lgpl-2.1"
    ∷ "lgpl-2.1-only" ∷ "lgpl-2.1-or-later" ∷ "lgpl-3.0" ∷ "lgpl-3.0-only" ∷ "lgpl-3.0-or-later"
    ∷ "mit" ∷ "mit-0" ∷ "mpl-2.0" ∷ "ms-pl" ∷ "ms-rl" ∷ "ncsa" ∷ "ofl-1.1" ∷ "osl-3.0"
    ∷ "postgresql" ∷ "python-2.0" ∷ "ruby" ∷ "unlicense" ∷ "upl-1.0" ∷ "vim" ∷ "wtfpl" ∷ "zlib"
    ∷ "zpl-2.1" ∷ []

unfoldable pub valid_license_id : List ℕ → Bool
unfolding strip_plus starts_with is_ref_char is_word codes
valid_license_id tok =
    let base = strip_plus tok in
    if starts_with base (codes "LicenseRef-") || starts_with base (codes "DocumentRef-")
    then not (is_empty base) && all is_ref_char base
    else any (λ (w : String). is_word w base) spdx_license_ids

unfoldable pub is_open : List ℕ → Bool
unfolding text_eq codes
is_open t = text_eq t (codes "(")

unfoldable pub is_close : List ℕ → Bool
unfolding text_eq codes
is_close t = text_eq t (codes ")")

-- `is_op`
unfoldable pub is_op : List ℕ → Bool
unfolding is_word
is_op t = is_word "and" t || is_word "or" t

unfoldable pub is_with : List ℕ → Bool
unfolding is_word
is_with t = is_word "with" t

-- a token that is no parenthesis, operator or `WITH`
unfoldable pub is_plain : List ℕ → Bool
unfolding is_open is_close is_op is_with
is_plain t = not (is_open t || (is_close t || (is_op t || is_with t)))

abbrev pub Token : Type 0
Token = List ℕ

-- After `WITH`: an exception, accepted on its shape.
unfoldable pub after_with : List Token → Option (List Token)
unfolding is_plain
after_with [] = none
after_with (e ∷ ts) = if is_plain e then some ts else none

-- After a license id.
unfoldable pub after_id : List Token → Option (List Token)
unfolding is_with after_with
after_id [] = some []
after_id (w ∷ ts) = if is_with w then after_with ts else some (w ∷ ts)

-- A term that starts with a license id.
unfoldable pub parse_id : Token → List Token → Option (List Token)
unfolding is_plain valid_license_id after_id
parse_id t ts = if is_plain t && valid_license_id t then after_id ts else none

-- After the expression in parentheses.
unfoldable pub after_paren : Option (List Token) → Option (List Token)
unfolding is_close
after_paren none = none
after_paren (some []) = none
after_paren (some (c ∷ ts)) = if is_close c then some ts else none

-- The parser: the tokens from the position on, and those that are left when it succeeds. The fuel is
-- spent by each call.
unfoldable mutual
  unfolding is_open is_op parse_id after_paren

  pub parse_term : ℕ → List Token → Option (List Token)
  parse_term zero ts = none
  parse_term (suc n) [] = none
  parse_term (suc n) (t ∷ ts) = elim (is_open t) [
    | true ↦ after_paren (parse_expr n ts)
    | false ↦ parse_id t ts
  ]

  pub parse_expr : ℕ → List Token → Option (List Token)
  parse_expr zero ts = none
  parse_expr (suc n) ts = elim (parse_term n ts) [ none ↦ none | some us ↦ parse_ops n us ]

  -- the loop over the operators
  pub parse_ops : ℕ → List Token → Option (List Token)
  parse_ops zero ts = none
  parse_ops (suc n) [] = some []
  parse_ops (suc n) (o ∷ ts) = elim (is_op o) [
    | true ↦ elim (parse_term n ts) [ none ↦ none | some us ↦ parse_ops n us ]
    | false ↦ some (o ∷ ts)
  ]

-- `parser.pos == parser.toks.len()`
unfoldable pub at_end : Option (List Token) → Bool
at_end none = false
at_end (some []) = true
at_end (some (t ∷ ts)) = false

-- `char::is_whitespace`
unfoldable pub is_space : ℕ → Bool
is_space n =
    (leb 9 n && leb n 13)
    || n == 32
    || n == 133
    || n == 160
    || n == 5760
    || (leb 8192 n && leb n 8202)
    || n == 8232
    || n == 8233
    || n == 8239
    || n == 8287
    || n == 12288

-- the two replacements: spaces around parentheses
unfoldable pub spaced : List ℕ → List ℕ
spaced [] = []
spaced (c ∷ t) = let rest = spaced t in if c == 40 || c == 41 then 32 ∷ c ∷ 32 ∷ rest else c ∷ rest

-- a character in front of the words of a text
push_char : ℕ → Bool → List Token → List Token
push_char c true words = (c ∷ []) ∷ words
push_char c false [] = (c ∷ []) ∷ []
push_char c false (w ∷ words) = (c ∷ w) ∷ words

starts_with_space : List ℕ → Bool
unfolding is_space
starts_with_space [] = true
starts_with_space (c ∷ t) = is_space c

-- `split_whitespace`
unfoldable pub split_whitespace : List ℕ → List Token
unfolding is_space push_char starts_with_space
split_whitespace [] = []
split_whitespace (c ∷ t) =
    let rest = split_whitespace t in
    if is_space c then rest else push_char c (starts_with_space t) rest

unfoldable pub tokens : List ℕ → List Token
unfolding split_whitespace spaced
tokens expr = split_whitespace (spaced expr)

-- `spdx_valid`
unfoldable pub spdx_valid : List ℕ → Bool
unfolding is_space tokens parse_expr at_end
spdx_valid expr =
    if all is_space expr
    then false
    else at_end (parse_expr (2 * length (tokens expr) + 1) (tokens expr))
