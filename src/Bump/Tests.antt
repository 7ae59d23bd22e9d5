-- ===== src/Bump/Tests.antt =====
-- The bump of version 1.2.3
-- (crates/shipshape-core/src/release/bump.rs).
use ossctl.Base.{ℕ, ◌≡◌, refl, List, [], ◌∷◌, arith}
use ossctl.Plan.{minor, patch}
use ossctl.Bump.{good, bad, overflow, bump_version, print_version, parse_semver_core}
use ossctl.Bump.Version.{Before, bump_version_room, bump_version_full, bump_version_ordered, raised}

print_version_test : print_version (1, 20, 3) ≡ b'1' ∷ b'.' ∷ b'2' ∷ b'0' ∷ b'.' ∷ b'3' ∷ []
unfolding print_version
print_version_test = refl

bump_version_room_example :
    bump_version minor (print_version (1, 20, 3)) ≡ good (print_version (raised minor (1, 20, 3)))
bump_version_room_example =
    bump_version_room minor (1, 20, 3) ((omega arith), (omega arith), (omega arith)) (omega arith)

bump_version_full_example :
    bump_version patch (print_version (1, 20, 18446744073709551615)) ≡ bad overflow
bump_version_full_example =
    bump_version_full patch (1, 20, 18446744073709551615)
      ((omega arith), (omega arith), (omega arith)) (omega arith)

bump_version_ordered_example :
    (w : List ℕ) × (u : ℕ × ℕ × ℕ) × (bump_version patch (print_version (1, 20, 3)) ≡ good w)
    × (parse_semver_core w ≡ good u)
    × Before (1, 20, 3) u
bump_version_ordered_example =
    bump_version_ordered patch (1, 20, 3) ((omega arith), (omega arith), (omega arith))
      (omega arith)
