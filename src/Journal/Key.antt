-- ===== src/Journal/Key.antt =====
-- The semantic identity of an event
-- (crates/shipshape-core/src/protocol/journal.rs, `EventKind::idempotency_key`).
use Prim.Native.String.{◌++◌}
use ossctl.Base.{String}
use ossctl.Journal.{
  EventKind, phase_as_str, run_created, bump_applied, phase_entered, phase_completed,
  target_dry_run, target_built, target_published, target_cancelled, target_delegated,
  target_verified, tag_created_local, tag_pushed_remote, default_branch_selected,
  default_branch_advanced, github_release_created, github_release_delegated, run_abandoned,
}

unfoldable pub idempotency_key : EventKind → String
unfolding phase_as_str
idempotency_key (run_created _) = "run_created"
idempotency_key (bump_applied _ _) = "bump_applied"
idempotency_key (phase_entered p) = "phase_entered:" ++ phase_as_str p
idempotency_key (phase_completed p _) = "phase_completed:" ++ phase_as_str p
idempotency_key (target_dry_run t) = "dry_run:" ++ t
idempotency_key (target_built t) = "built:" ++ t
idempotency_key (target_published t _) = "published:" ++ t
idempotency_key (target_cancelled t _) = "cancelled:" ++ t
idempotency_key (target_delegated t _) = "delegated:" ++ t
idempotency_key (target_verified t _) = "verified:" ++ t
idempotency_key (tag_created_local t) = "tag_created_local:" ++ t
idempotency_key (tag_pushed_remote t) = "tag_pushed_remote:" ++ t
idempotency_key (default_branch_selected b) = "default_branch_selected:" ++ b
idempotency_key (default_branch_advanced b c) = "default_branch_advanced:" ++ b ++ ":" ++ c
idempotency_key (github_release_created t _) = "github_release_created:" ++ t
idempotency_key (github_release_delegated t _) = "github_release_delegated:" ++ t
idempotency_key (run_abandoned _) = "run_abandoned"
