-- ===== src/License/Tests.antt =====
-- License expressions checked (crates/shipshape-core/src/contract/spdx.rs).
use ossctl.Base.{◌≡◌, ◌↔◌, refl, true, false, []}
use ossctl.Base.Text.{codes}
use ossctl.License.{spdx_valid, tokens, is_space}
use ossctl.License.Grammar.{Expr}
use ossctl.License.Complete.{spdx_valid-Expr}

choice_test :
    spdx_valid (codes "(MIT or Apache-2.0) AND GPL-3.0-only WITH Classpath-exception-2.0") ≡ true
unfolding spdx_valid codes
choice_test = refl

dangling_test : spdx_valid (codes "MIT AND") ≡ false
unfolding spdx_valid codes
dangling_test = refl

unknown_test : spdx_valid (codes "LicenseRef-Our.Own+ OR Proprietary") ≡ false
unfolding spdx_valid codes
unknown_test = refl

spdx_valid-Expr_example :
    (spdx_valid (codes "MIT OR ISC") ≡ true) ↔ Expr (tokens (codes "MIT OR ISC")) []
unfolding is_space codes
spdx_valid-Expr_example = spdx_valid-Expr (codes "MIT OR ISC") refl
