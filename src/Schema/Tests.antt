-- ===== src/Schema/Tests.antt =====
-- Runs of the contract's parsers
-- (crates/shipshape-core/src/contract/schema.rs).
use ossctl.Base.{◌≡◌, refl, some}
use ossctl.Schema.{
  rust, cargo_dist, ecosystem_as_str, adapter_as_str, parse_ecosystem, parse_adapter,
}
use ossctl.Schema.Wire.{
  parse_ecosystem-ecosystem_as_str, ecosystem_as_str-parse_ecosystem, parse_adapter-adapter_as_str,
  adapter_as_str-parse_adapter,
}

parse_ecosystem-ecosystem_as_str_example : parse_ecosystem (ecosystem_as_str rust) ≡ some rust
parse_ecosystem-ecosystem_as_str_example = parse_ecosystem-ecosystem_as_str rust

ecosystem_as_str-parse_ecosystem_example : ecosystem_as_str rust ≡ "rust"
unfolding parse_ecosystem
ecosystem_as_str-parse_ecosystem_example = ecosystem_as_str-parse_ecosystem "rust" rust refl

parse_adapter-adapter_as_str_example : parse_adapter (adapter_as_str cargo_dist) ≡ some cargo_dist
parse_adapter-adapter_as_str_example = parse_adapter-adapter_as_str cargo_dist

adapter_as_str-parse_adapter_example : adapter_as_str cargo_dist ≡ "cargo-dist"
unfolding parse_adapter
adapter_as_str-parse_adapter_example = adapter_as_str-parse_adapter "cargo-dist" cargo_dist refl
