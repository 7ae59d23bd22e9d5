-- ===== src/Bump/Version.antt =====
-- The bump of a version
-- (crates/shipshape-core/src/release/bump.rs, `parse_semver_core`, `bump_version`).
use ossctl.Base.{
  ℕ, ◌+◌, ◌≡◌, ◌≤◌, ◌<◌, refl, true, false, ◌||◌, ◌==◌, List, [], ◌∷◌, ◌++◌, all, any, arith,
}
use ossctl.Plan.{BumpLevel, major, minor, patch}
use ossctl.Bump.{
  good, bad, overflow, and_then, is_byte, push_byte, split, is_digit, u64_end, next_component,
  finish, parse_parts, parse_semver_core, checked_incr, print_u64, print_version, next_version,
  bump_version,
}
use ossctl.Bump.Decimal.{all-digits, parse_component-print_u64}

split-digits : (bs : List ℕ) → all is_digit bs ≡ true → split bs ≡ bs ∷ []
unfolding split push_byte
split-digits [] h = refl
split-digits (b ∷ bs) h = rw (split-digits bs (ground arith)) (ground arith)

split-append :
    (bs rest : List ℕ) → all is_digit bs ≡ true → split (bs ++ b'.' ∷ rest) ≡ bs ∷ split rest
unfolding split push_byte
split-append [] rest h = refl
split-append (b ∷ bs) rest h = rw (split-append bs rest (ground arith)) (ground arith)

any-append :
    (k : ℕ) (bs cs : List ℕ)
    → any (is_byte k) (bs ++ cs) ≡ (any (is_byte k) bs || any (is_byte k) cs)
any-append k [] cs = refl
any-append k (b ∷ bs) cs = ground (arith, any-append k bs cs)

any-digits :
    (k : ℕ) (bs : List ℕ) → is_digit k ≡ false → all is_digit bs ≡ true → any (is_byte k) bs ≡ false
unfolding is_byte
any-digits k [] other h = refl
any-digits k (b ∷ bs) other h = ground (arith, any-digits k bs other)

any-print_version :
    (k : ℕ) (t : ℕ × ℕ × ℕ)
    → is_digit k ≡ false
    → (b'.' == k) ≡ false
    → any (is_byte k) (print_version t) ≡ false
unfolding print_version is_byte
any-print_version k (x, y, z) other dot =
    rw
      (
        any-append k (print_u64 x) (b'.' ∷ (print_u64 y ++ b'.' ∷ print_u64 z)),
        any-digits k (print_u64 x) other (all-digits 19 x),
        dot,
        any-append k (print_u64 y) (b'.' ∷ print_u64 z),
        any-digits k (print_u64 y) other (all-digits 19 y),
        dot,
        any-digits k (print_u64 z) other (all-digits 19 z),
      )
      refl

split-print_version :
    (x y z : ℕ) → split (print_version (x, y, z)) ≡ print_u64 x ∷ print_u64 y ∷ print_u64 z ∷ []
unfolding print_version
split-print_version x y z =
    rw
      (
        split-append (print_u64 x) (print_u64 y ++ b'.' ∷ print_u64 z) (all-digits 19 x),
        split-append (print_u64 y) (print_u64 z) (all-digits 19 y),
        split-digits (print_u64 z) (all-digits 19 z),
      )
      refl

-- Each part of a version is a `u64`.
abbrev pub Fits : ℕ × ℕ × ℕ → Type 0
Fits (x, y, z) = (x < u64_end) × (y < u64_end) × (z < u64_end)

-- A printed version parses back to its three numbers.
pub parse_semver_core-print_version :
    (t : ℕ × ℕ × ℕ) → Fits t → parse_semver_core (print_version t) ≡ good t
unfolding parse_semver_core parse_parts next_component and_then finish
parse_semver_core-print_version (x, y, z) h =
    rw (any-print_version b'-' (x, y, z) refl refl, any-print_version b'+' (x, y, z) refl refl)
      (rw
        (
          split-print_version x y z,
          parse_component-print_u64 x h.0,
          parse_component-print_u64 y h.1,
          parse_component-print_u64 z h.2,
        )
        refl)

-- The part of a version that a level counts up.
abbrev pub counted : BumpLevel → ℕ × ℕ × ℕ → ℕ
counted major (x, y, z) = x
counted minor (x, y, z) = y
counted patch (x, y, z) = z

-- That part one higher, and the parts after it zero.
abbrev pub raised : BumpLevel → ℕ × ℕ × ℕ → ℕ × ℕ × ℕ
raised major (x, y, z) = (x + 1, 0, 0)
raised minor (x, y, z) = (x, y + 1, 0)
raised patch (x, y, z) = (x, y, z + 1)

-- The order of versions: the first part that differs decides.
pub data Before : ℕ × ℕ × ℕ → ℕ × ℕ × ℕ → Type 0 where
  by_major : {x y z x' y' z' : ℕ} → x < x' → Before (x, y, z) (x', y', z')
  by_minor : {x y z y' z' : ℕ} → y < y' → Before (x, y, z) (x, y', z')
  by_patch : {x y z z' : ℕ} → z < z' → Before (x, y, z) (x, y, z')

Before-raised : (level : BumpLevel) (t : ℕ × ℕ × ℕ) → Before t (raised level t)
Before-raised major (x, y, z) = Before.by_major (omega arith)
Before-raised minor (x, y, z) = Before.by_minor (omega arith)
Before-raised patch (x, y, z) = Before.by_patch (omega arith)

incr_room : (n : ℕ) → n + 1 < u64_end → checked_incr n ≡ good (n + 1)
unfolding checked_incr
incr_room n h = ground arith

incr_full : (n : ℕ) → u64_end ≤ n + 1 → checked_incr n ≡ bad overflow
unfolding checked_incr
incr_full n h = ground arith

next_version_room :
    (level : BumpLevel) (t : ℕ × ℕ × ℕ)
    → counted level t + 1 < u64_end
    → next_version level t ≡ good (raised level t)
unfolding next_version and_then
next_version_room major (x, y, z) h = rw (incr_room x h) refl
next_version_room minor (x, y, z) h = rw (incr_room y h) refl
next_version_room patch (x, y, z) h = rw (incr_room z h) refl

next_version_full :
    (level : BumpLevel) (t : ℕ × ℕ × ℕ)
    → u64_end ≤ counted level t + 1
    → next_version level t ≡ bad overflow
unfolding next_version and_then
next_version_full major (x, y, z) h = rw (incr_full x h) refl
next_version_full minor (x, y, z) h = rw (incr_full y h) refl
next_version_full patch (x, y, z) h = rw (incr_full z h) refl

-- Where the part that the level names has room, the bump of a printed version of three 64-bit numbers
-- is, text to text, that part one higher and the parts after it zero.
pub bump_version_room :
    (level : BumpLevel) (t : ℕ × ℕ × ℕ)
    → Fits t
    → counted level t + 1 < u64_end
    → bump_version level (print_version t) ≡ good (print_version (raised level t))
unfolding bump_version and_then
bump_version_room level t fits h =
    rw (parse_semver_core-print_version t fits, next_version_room level t h) refl

-- Where the part that the level names is the last 64-bit number, the bump is refused for an overflow,
-- and no version is made.
pub bump_version_full :
    (level : BumpLevel) (t : ℕ × ℕ × ℕ)
    → Fits t
    → u64_end ≤ counted level t + 1
    → bump_version level (print_version t) ≡ bad overflow
unfolding bump_version and_then
bump_version_full level t fits h =
    rw (parse_semver_core-print_version t fits, next_version_full level t h) refl

raised-Fits :
    (level : BumpLevel) (t : ℕ × ℕ × ℕ)
    → Fits t
    → counted level t + 1 < u64_end
    → Fits (raised level t)
raised-Fits major (x, y, z) f h = (h, (omega arith), (omega arith))
raised-Fits minor (x, y, z) f h = (f.0, h, (omega arith))
raised-Fits patch (x, y, z) f h = (f.0, f.1, h)

-- A bumped version parses, to numbers that come after the old ones in the order of versions.
pub bump_version_ordered :
    (level : BumpLevel) (t : ℕ × ℕ × ℕ)
    → Fits t
    → counted level t + 1 < u64_end
    → (w : List ℕ) × (u : ℕ × ℕ × ℕ) × (bump_version level (print_version t) ≡ good w)
      × (parse_semver_core w ≡ good u)
      × Before t u
bump_version_ordered level t fits h = (
  print_version (raised level t),
  raised level t,
  bump_version_room level t fits h,
  parse_semver_core-print_version (raised level t) (raised-Fits level t fits h),
  Before-raised level t,
)
