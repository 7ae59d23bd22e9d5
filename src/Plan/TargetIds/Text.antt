-- ===== src/Plan/TargetIds/Text.antt =====
-- How the parts of a journal id are read off it
-- (crates/shipshape-core/src/release/target_id.rs, `discriminator`).
use Prim.Native.Char.{Char, code}
use Prim.Native.String.{◌++◌}
use text.Mathlib.TextLemmas.{
  head-eq_of_cons-eq, tail-eq_of_cons-eq, nil-append, cons-append, append_assoc, append_cancel_left,
}
use ossctl.Base.{
  ℕ, String, ◌≡◌, ◌≢◌, refl, sym, ap, ◌∙◌, Bool, true, false, ◌||◌, ◌==◌, arith, Option, some,
  if◌then◌else◌,
}
use ossctl.Schema.{
  Ecosystem, Registry, Adapter, rust, node, python, go, binary, ecosystem_as_str, registry_as_str,
  adapter_as_str, parse_registry, parse_adapter, crates_io, npm, pypi, test_pypi, gh_releases,
  proxy_golang_org, homebrew, cargo_publish, cargo_publish_ci, cargo_dist, release_please,
  changesets, gh_action_pypi_publish, twine, goreleaser, homebrew_tap, homebrew_core, npm_publish,
  manual,
}
use ossctl.Schema.Wire.{parse_registry-registry_as_str, parse_adapter-adapter_as_str}
use mathlib.Core.Option.{some-injective}

abbrev has_colon : String → Bool
has_colon String.[] = false
has_colon (String.◌∷◌ c s) = code c == b':' || has_colon s

has_colon-colon : (b : String) → has_colon (":" ++ b) ≡ true
has_colon-colon b = ap has_colon (cons-append ":" "" b)

has_colon-append : (y b : String) → has_colon (y ++ ":" ++ b) ≡ true
has_colon-append String.[] b = ap has_colon (nil-append (":" ++ b)) ∙ has_colon-colon b
has_colon-append (String.◌∷◌ d y) b =
    ap has_colon (cons-append d y (":" ++ b)) ∙ ground (arith, has_colon-append y b)

colon_tail :
    (d : Char) (y a b : String) → ":" ++ a ≡ String.◌∷◌ d y ++ ":" ++ b → has_colon a ≡ true
colon_tail d y a b h =
    ap has_colon (
      sym (nil-append a)
      ∙ tail-eq_of_cons-eq (sym (cons-append ":" "" a) ∙ h ∙ cons-append d y (":" ++ b)))
    ∙ has_colon-append y b

-- A text splits at its last colon in one way.
pub split_unique :
    (x y a b : String)
    → has_colon a ≡ false
    → has_colon b ≡ false
    → x ++ ":" ++ a ≡ y ++ ":" ++ b
    → (x ≡ y) × (a ≡ b)
split_unique String.[] String.[] a b ha hb h =
    (refl, append_cancel_left ":" a b (sym (nil-append (":" ++ a)) ∙ h ∙ nil-append (":" ++ b)))
split_unique String.[] (String.◌∷◌ d y) a b ha hb h =
    cc (colon_tail d y a b (sym (nil-append (":" ++ a)) ∙ h), ha)
split_unique (String.◌∷◌ c x) String.[] a b ha hb h =
    cc (colon_tail c x b a (sym (nil-append (":" ++ b)) ∙ sym h), hb)
split_unique (String.◌∷◌ c x) (String.◌∷◌ d y) a b ha hb h =
    let h' = sym (cons-append c x (":" ++ a)) ∙ h ∙ cons-append d y (":" ++ b) in
    let (p, q) = split_unique x y a b ha hb (tail-eq_of_cons-eq h') in
    (cc (p, head-eq_of_cons-eq h'), q)

registry-plain : (r : Registry) → has_colon (registry_as_str r) ≡ false
unfolding registry_as_str
registry-plain crates_io = refl
registry-plain npm = refl
registry-plain pypi = refl
registry-plain test_pypi = refl
registry-plain gh_releases = refl
registry-plain proxy_golang_org = refl
registry-plain homebrew = refl

adapter-plain : (a : Adapter) → has_colon (adapter_as_str a) ≡ false
unfolding adapter_as_str
adapter-plain cargo_publish = refl
adapter-plain cargo_publish_ci = refl
adapter-plain cargo_dist = refl
adapter-plain release_please = refl
adapter-plain changesets = refl
adapter-plain gh_action_pypi_publish = refl
adapter-plain twine = refl
adapter-plain goreleaser = refl
adapter-plain homebrew_tap = refl
adapter-plain homebrew_core = refl
adapter-plain npm_publish = refl
adapter-plain manual = refl

registry_inj : (r q : Registry) → registry_as_str r ≡ registry_as_str q → r ≡ q
registry_inj r q h = some-injective r q (
    sym (parse_registry-registry_as_str r) ∙ ap parse_registry h ∙ parse_registry-registry_as_str q)

adapter_inj : (r q : Adapter) → adapter_as_str r ≡ adapter_as_str q → r ≡ q
adapter_inj r q h =
    some-injective r q
      (sym (parse_adapter-adapter_as_str r) ∙ ap parse_adapter h ∙ parse_adapter-adapter_as_str q)

assoc : (x r t : String) → (x ++ ":" ++ r) ++ t ≡ x ++ ":" ++ r ++ t
assoc x r t = append_assoc x (":" ++ r) t ∙ ap (λ z. x ++ z) (append_assoc ":" r t)

-- A package, a registry and an adapter are read off the text that joins them.
pub joined_inj :
    (x y : String) (r q : Registry) (a b : Adapter)
    → x ++ ":" ++ registry_as_str r ++ ":" ++ adapter_as_str a
      ≡ y ++ ":" ++ registry_as_str q ++ ":" ++ adapter_as_str b
    → (x ≡ y) × (r ≡ q) × (a ≡ b)
joined_inj x y r q a b h =
    let (left, right) =
      split_unique (x ++ ":" ++ registry_as_str r) (y ++ ":" ++ registry_as_str q)
        (adapter_as_str a) (adapter_as_str b) (adapter-plain a) (adapter-plain b)
        (assoc x (registry_as_str r) (":" ++ adapter_as_str a)
          ∙ h
          ∙ sym (assoc y (registry_as_str q) (":" ++ adapter_as_str b))) in
    let (p, z) =
      split_unique x y (registry_as_str r) (registry_as_str q) (registry-plain r) (registry-plain q)
        left in
    (p, registry_inj r q z, adapter_inj a b right)

first_code : String → ℕ
first_code String.[] = 0
first_code (String.◌∷◌ c s) = code c

letter : Ecosystem → ℕ
letter rust = b'r'
letter node = b'n'
letter python = b'p'
letter go = b'g'
letter binary = b'b'

first_code-append : (x s : String) → first_code x ≢ 0 → first_code (x ++ s) ≡ first_code x
unfolding first_code
first_code-append String.[] s h = absurd (h refl)
first_code-append (String.◌∷◌ c x) s h = ap first_code (cons-append c x s)

first_code-ecosystem :
    (e : Ecosystem) (s : String) → first_code (ecosystem_as_str e ++ s) ≡ letter e
unfolding first_code ecosystem_as_str letter
first_code-ecosystem rust s = first_code-append "rust" s (λ h. omega arith)
first_code-ecosystem node s = first_code-append "node" s (λ h. omega arith)
first_code-ecosystem python s = first_code-append "python" s (λ h. omega arith)
first_code-ecosystem go s = first_code-append "go" s (λ h. omega arith)
first_code-ecosystem binary s = first_code-append "binary" s (λ h. omega arith)

of_letter : ℕ → Option Ecosystem
of_letter n =
    if n == b'r'
    then some rust
    else if n == b'n'
    then some node
    else if n == b'p'
    then some python
    else if n == b'g'
    then some go
    else some binary

of_letter-letter : (e : Ecosystem) → of_letter (letter e) ≡ some e
unfolding of_letter letter
of_letter-letter rust = refl
of_letter-letter node = refl
of_letter-letter python = refl
of_letter-letter go = refl
of_letter-letter binary = refl

letter_inj : (e f : Ecosystem) → letter e ≡ letter f → e ≡ f
letter_inj e f h =
    some-injective e f (sym (of_letter-letter e) ∙ ap of_letter h ∙ of_letter-letter f)

-- Two ids that begin with an ecosystem begin with the same one, if they are equal.
pub ecosystem_prefix :
    (e f : Ecosystem) (s t : String) → ecosystem_as_str e ++ s ≡ ecosystem_as_str f ++ t → e ≡ f
ecosystem_prefix e f s t h =
    letter_inj e f (sym (first_code-ecosystem e s) ∙ ap first_code h ∙ first_code-ecosystem f t)
