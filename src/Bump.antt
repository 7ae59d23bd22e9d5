-- ===== src/Bump.antt =====
-- The next version of a release (crates/shipshape-core/src/release/bump.rs, `bump_version`). A text
-- is the list of its bytes here.
pub mod Decimal
pub mod Version
mod Tests
use ossctl.Base.{
  ℕ, zero, suc, ◌+◌, ◌*◌, ◌-◌, ◌/◌, ◌%◌, ◌^◌, Bool, true, false, ◌&&◌, ◌||◌, not, ◌==◌, leb, ltb,
  List, [], ◌∷◌, ◌++◌, any, all, fold, length, is_empty, if◌then◌else◌,
}
use ossctl.Plan.{BumpLevel, major, minor, patch}

-- the reasons of a `BumpError`
pub data BumpReason : Type 0 where
  suffix missing_component too_many_components empty_component not_a_number leading_zero too_large
        overflow :
      BumpReason

pub data Bumped (A : Type 0) : Type 0 where
  good : A → Bumped A
  bad : BumpReason → Bumped A

-- the `?` of a result
unfoldable pub and_then : {A B : Type 0} → Bumped A → (A → Bumped B) → Bumped B
and_then (good a) f = f a
and_then (bad r) f = bad r

is_byte : ℕ → ℕ → Bool
is_byte k b = b == k

push_byte : ℕ → List (List ℕ) → List (List ℕ)
push_byte b [] = (b ∷ []) ∷ []
push_byte b (p ∷ ps) = (b ∷ p) ∷ ps

-- `v.split('.')`
unfoldable pub split : List ℕ → List (List ℕ)
unfolding push_byte
split [] = [] ∷ []
split (b ∷ bs) = let rest = split bs in if b == b'.' then [] ∷ rest else push_byte b rest

-- `b.is_ascii_digit()`
abbrev pub is_digit : ℕ → Bool
is_digit b = leb b'0' b && leb b b'9'

-- one more digit of a number
abbrev pub shift : ℕ → ℕ → ℕ
shift n b = n * 10 + (b - b'0')

abbrev pub starts_with_zero : List ℕ → Bool
starts_with_zero [] = false
starts_with_zero (b ∷ bs) = b == b'0'

-- `u64::MAX + 1`
abbrev pub u64_end : ℕ
u64_end = 2 ^ 64

-- `comp.parse::<u64>()` of digits
unfoldable pub parse_u64 : List ℕ → Bumped ℕ
parse_u64 bs = let n : ℕ = fold shift 0 bs in if ltb n u64_end then good n else bad too_large

unfoldable pub parse_component : List ℕ → Bumped ℕ
unfolding parse_u64
parse_component bs =
    if is_empty bs
    then bad empty_component
    else if not (all is_digit bs)
    then bad not_a_number
    else if ltb 1 (length bs) && starts_with_zero bs
    then bad leading_zero
    else parse_u64 bs

-- the closure `next`: a component, and the parts that are left
unfoldable pub next_component : List (List ℕ) → Bumped (ℕ × List (List ℕ))
unfolding parse_component and_then
next_component [] = bad missing_component
next_component (p ∷ ps) = and_then (parse_component p) (λ n. good (n, ps))

finish : ℕ → ℕ → ℕ → List (List ℕ) → Bumped (ℕ × ℕ × ℕ)
finish x y z [] = good (x, y, z)
finish x y z (p ∷ ps) = bad too_many_components

unfoldable pub parse_parts : List (List ℕ) → Bumped (ℕ × ℕ × ℕ)
unfolding next_component and_then finish
parse_parts ps = and_then (next_component ps) (λ a.
    and_then (next_component a.1)
      (λ b. and_then (next_component b.1) (λ c. finish a.0 b.0 c.0 c.1)))

unfoldable pub parse_semver_core : List ℕ → Bumped (ℕ × ℕ × ℕ)
unfolding is_byte split parse_parts
parse_semver_core v =
    if any (is_byte b'-') v || any (is_byte b'+') v then bad suffix else parse_parts (split v)

unfoldable pub checked_incr : ℕ → Bumped ℕ
checked_incr n = if ltb (n + 1) u64_end then good (n + 1) else bad overflow

-- the decimal digits of a number, for as many divisions by ten as are given
unfoldable pub digits : ℕ → ℕ → List ℕ
digits zero n = (b'0' + n % 10) ∷ []
digits (suc fuel) n =
    let rest = digits fuel (n / 10) in
    if ltb n 10 then (b'0' + n) ∷ [] else rest ++ (b'0' + n % 10) ∷ []

-- `{n}` of a `u64`: at most twenty digits
abbrev pub print_u64 : ℕ → List ℕ
print_u64 n = digits 19 n

-- `format!("{major}.{minor}.{patch}")`
unfoldable pub print_version : ℕ × ℕ × ℕ → List ℕ
unfolding digits
print_version (x, y, z) = print_u64 x ++ b'.' ∷ (print_u64 y ++ b'.' ∷ print_u64 z)

-- the `match level` of `bump_version`
unfoldable pub next_version : BumpLevel → ℕ × ℕ × ℕ → Bumped (ℕ × ℕ × ℕ)
unfolding checked_incr and_then
next_version major (x, y, z) = and_then (checked_incr x) (λ n. good (n, 0, 0))
next_version minor (x, y, z) = and_then (checked_incr y) (λ n. good (x, n, 0))
next_version patch (x, y, z) = and_then (checked_incr z) (λ n. good (x, y, n))

unfoldable pub bump_version : BumpLevel → List ℕ → Bumped (List ℕ)
unfolding parse_semver_core next_version print_version and_then
bump_version level v =
    and_then (parse_semver_core v)
      (λ t. and_then (next_version level t) (λ u. good (print_version u)))
