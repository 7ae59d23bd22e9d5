-- ===== src/Schema/Wire.antt =====
-- Printing and parsing of the contract's wire strings agree
-- (crates/shipshape-core/src/contract/schema.rs, `as_str` and `parse`).
use ossctl.Base.{
  String, ◌≡◌, refl, Option, some, eq_iff, str_eq, inl, inr, Bool-cases, if◌then◌else◌,
}
use mathlib.Core.Option.{some-injective}
use ossctl.Schema.{
  Ecosystem, ReleaseLayout, Registry, Adapter, ecosystem_as_str, layout_as_str, registry_as_str,
  adapter_as_str, parse_ecosystem, parse_layout, parse_registry, parse_adapter, rust, node, python,
  go, binary, single, monorepo, crates_io, npm, pypi, test_pypi, gh_releases, proxy_golang_org,
  homebrew, cargo_publish, cargo_publish_ci, cargo_dist, release_please, changesets,
  gh_action_pypi_publish, twine, goreleaser, homebrew_tap, homebrew_core, npm_publish, manual,
}

-- One arm of a `match` on strings: what it returns prints as the string that it matched.
parse_step :
    {A : Type 0} (print : A → String) (s w : String) (x c : A) (rest : Option A)
    → print x ≡ w
    → (rest ≡ some c → print c ≡ s)
    → (if str_eq s w then some x else rest) ≡ some c
    → print c ≡ s
parse_step print s w x c rest e next h = elim (Bool-cases (str_eq s w)) [
  | inl hit ↦ cc (some-injective x c (rw hit at h), e, (eq_iff s w).0 hit)
  | inr miss ↦ next (rw miss at h)
]

-- The wire string of an ecosystem parses back to it.
pub parse_ecosystem-ecosystem_as_str :
    (x : Ecosystem) → parse_ecosystem (ecosystem_as_str x) ≡ some x
unfolding parse_ecosystem ecosystem_as_str
parse_ecosystem-ecosystem_as_str rust = refl
parse_ecosystem-ecosystem_as_str node = refl
parse_ecosystem-ecosystem_as_str python = refl
parse_ecosystem-ecosystem_as_str go = refl
parse_ecosystem-ecosystem_as_str binary = refl

-- A string that parses as an ecosystem is the wire string of that ecosystem: no other string is accepted.
pub ecosystem_as_str-parse_ecosystem :
    (s : String) (x : Ecosystem) → parse_ecosystem s ≡ some x → ecosystem_as_str x ≡ s
unfolding parse_ecosystem ecosystem_as_str
ecosystem_as_str-parse_ecosystem s x = parse_step ecosystem_as_str s "rust" rust x _ refl (
    parse_step ecosystem_as_str s "node" node x _ refl (
      parse_step ecosystem_as_str s "python" python x _ refl (
        parse_step ecosystem_as_str s "go" go x _ refl
          (parse_step ecosystem_as_str s "binary" binary x _ refl (λ h. cc)))))

pub parse_layout-layout_as_str : (x : ReleaseLayout) → parse_layout (layout_as_str x) ≡ some x
unfolding parse_layout layout_as_str
parse_layout-layout_as_str single = refl
parse_layout-layout_as_str monorepo = refl

pub layout_as_str-parse_layout :
    (s : String) (x : ReleaseLayout) → parse_layout s ≡ some x → layout_as_str x ≡ s
unfolding parse_layout layout_as_str
layout_as_str-parse_layout s x =
    parse_step layout_as_str s "single" single x _ refl
      (parse_step layout_as_str s "monorepo" monorepo x _ refl (λ h. cc))

pub parse_registry-registry_as_str : (x : Registry) → parse_registry (registry_as_str x) ≡ some x
unfolding parse_registry registry_as_str
parse_registry-registry_as_str crates_io = refl
parse_registry-registry_as_str npm = refl
parse_registry-registry_as_str pypi = refl
parse_registry-registry_as_str test_pypi = refl
parse_registry-registry_as_str gh_releases = refl
parse_registry-registry_as_str proxy_golang_org = refl
parse_registry-registry_as_str homebrew = refl

pub registry_as_str-parse_registry :
    (s : String) (x : Registry) → parse_registry s ≡ some x → registry_as_str x ≡ s
unfolding parse_registry registry_as_str
registry_as_str-parse_registry s x = parse_step registry_as_str s "crates.io" crates_io x _ refl (
    parse_step registry_as_str s "npm" npm x _ refl (
      parse_step registry_as_str s "pypi" pypi x _ refl (
        parse_step registry_as_str s "testpypi" test_pypi x _ refl (
          parse_step registry_as_str s "gh-releases" gh_releases x _ refl (
            parse_step registry_as_str s "proxy.golang.org" proxy_golang_org x _ refl
              (parse_step registry_as_str s "homebrew" homebrew x _ refl (λ h. cc)))))))

-- The wire string of an adapter parses back to it.
pub parse_adapter-adapter_as_str : (x : Adapter) → parse_adapter (adapter_as_str x) ≡ some x
unfolding parse_adapter adapter_as_str
parse_adapter-adapter_as_str cargo_publish = refl
parse_adapter-adapter_as_str cargo_publish_ci = refl
parse_adapter-adapter_as_str cargo_dist = refl
parse_adapter-adapter_as_str release_please = refl
parse_adapter-adapter_as_str changesets = refl
parse_adapter-adapter_as_str gh_action_pypi_publish = refl
parse_adapter-adapter_as_str twine = refl
parse_adapter-adapter_as_str goreleaser = refl
parse_adapter-adapter_as_str homebrew_tap = refl
parse_adapter-adapter_as_str homebrew_core = refl
parse_adapter-adapter_as_str npm_publish = refl
parse_adapter-adapter_as_str manual = refl

-- A string that parses as an adapter is the wire string of that adapter: no other string is accepted.
pub adapter_as_str-parse_adapter :
    (s : String) (x : Adapter) → parse_adapter s ≡ some x → adapter_as_str x ≡ s
unfolding parse_adapter adapter_as_str
adapter_as_str-parse_adapter s x =
    parse_step adapter_as_str s "cargo-publish" cargo_publish x _ refl (
      parse_step adapter_as_str s "cargo-publish-ci" cargo_publish_ci x _ refl (
        parse_step adapter_as_str s "cargo-dist" cargo_dist x _ refl (
          parse_step adapter_as_str s "release-please" release_please x _ refl (
            parse_step adapter_as_str s "changesets" changesets x _ refl (
              parse_step adapter_as_str s "gh-action-pypi-publish" gh_action_pypi_publish x _ refl (
                parse_step adapter_as_str s "twine" twine x _ refl (
                  parse_step adapter_as_str s "goreleaser" goreleaser x _ refl (
                    parse_step adapter_as_str s "homebrew-tap" homebrew_tap x _ refl (
                      parse_step adapter_as_str s "homebrew-core" homebrew_core x _ refl (
                        parse_step adapter_as_str s "npm-publish" npm_publish x _ refl
                          (parse_step adapter_as_str s "manual" manual x _ refl (λ h. cc))))))))))))
