-- ===== src/Bump/Decimal.antt =====
-- Decimal numbers: what is printed parses back
-- (crates/shipshape-core/src/release/bump.rs, `parse_component`).
use ossctl.Base.{
  ℕ, zero, suc, ◌+◌, ◌*◌, ◌/◌, ◌%◌, ◌≡◌, ◌<◌, refl, true, false, ◌&&◌, ltb, List, [], ◌∷◌, ◌++◌,
  all, fold, fold-append, length, is_empty, arith, Bool-cases, inl, inr,
}
use ossctl.Bump.{
  good, is_digit, shift, starts_with_zero, u64_end, parse_u64, parse_component, digits, print_u64,
}

-- ten to the power of one more than the divisions
room : ℕ → ℕ
room zero = 10
room (suc fuel) = 10 * room fuel

fold-snoc : (n b : ℕ) (bs : List ℕ) → fold shift n (bs ++ b ∷ []) ≡ shift (fold shift n bs) b
fold-snoc n b bs = fold-append shift n bs (b ∷ [])

value-digits : (fuel n : ℕ) → n < room fuel → fold shift 0 (digits fuel n) ≡ n
unfolding digits room
value-digits zero n h = omega arith
value-digits (suc fuel) n h = elim (Bool-cases (ltb n 10)) [
  | inl small ↦ rw small (omega arith)
  | inr large ↦ rw (large, fold-snoc, value-digits fuel (n / 10) (omega arith)) (omega arith)
]

all-snoc :
    (b : ℕ) (bs : List ℕ)
    → all is_digit bs ≡ true
    → is_digit b ≡ true
    → all is_digit (bs ++ b ∷ []) ≡ true
all-snoc b [] h d = ground arith
all-snoc b (x ∷ bs) h d = ground (arith, all-snoc b bs)

pub all-digits : (fuel n : ℕ) → all is_digit (digits fuel n) ≡ true
unfolding digits
all-digits zero n = ground arith
all-digits (suc fuel) n = elim (Bool-cases (ltb n 10)) [
  | inl small ↦ rw small (ground arith)
  | inr large ↦
      rw large
        (all-snoc (b'0' + n % 10) (digits fuel (n / 10)) (all-digits fuel (n / 10)) (ground arith))
]

is_empty-snoc : (b : ℕ) (bs : List ℕ) → is_empty (bs ++ b ∷ []) ≡ false
is_empty-snoc b [] = refl
is_empty-snoc b (x ∷ bs) = refl

is_empty-digits : (fuel n : ℕ) → is_empty (digits fuel n) ≡ false
unfolding digits
is_empty-digits zero n = refl
is_empty-digits (suc fuel) n = elim (Bool-cases (ltb n 10)) [
  | inl small ↦ rw small refl
  | inr large ↦ rw large (is_empty-snoc (b'0' + n % 10) (digits fuel (n / 10)))
]

starts-snoc :
    (b : ℕ) (bs : List ℕ)
    → is_empty bs ≡ false
    → starts_with_zero (bs ++ b ∷ []) ≡ starts_with_zero bs
starts-snoc b [] h = cc
starts-snoc b (x ∷ bs) h = refl

starts-digits : (fuel n : ℕ) → 0 < n → n < room fuel → starts_with_zero (digits fuel n) ≡ false
unfolding digits room
starts-digits zero n p h = ground arith
starts-digits (suc fuel) n p h = elim (Bool-cases (ltb n 10)) [
  | inl small ↦ rw small (ground arith)
  | inr large ↦
      rw (large, starts-snoc (b'0' + n % 10) (digits fuel (n / 10)) (is_empty-digits fuel (n / 10)))
        (starts-digits fuel (n / 10) (ground arith) (ground arith))
]

u64_end-lt-room : (n : ℕ) → n < u64_end → n < room 19
unfolding room
u64_end-lt-room n h = omega arith

-- No number but zero is printed with a zero in front.
plain-print_u64 :
    (n : ℕ) → n < u64_end → (ltb 1 (length (print_u64 n)) && starts_with_zero (print_u64 n)) ≡ false
plain-print_u64 zero h = unfold digits in refl
plain-print_u64 (suc n) h =
    rw (starts-digits 19 (suc n) (omega arith) (u64_end-lt-room (suc n) h)) (ground arith)

-- A printed number parses back to itself.
pub parse_component-print_u64 : (n : ℕ) → n < u64_end → parse_component (print_u64 n) ≡ good n
unfolding parse_component parse_u64
parse_component-print_u64 n h =
    rw
      (
        is_empty-digits 19 n,
        all-digits 19 n,
        plain-print_u64 n h,
        value-digits 19 n (u64_end-lt-room n h),
      )
      (ground arith)
