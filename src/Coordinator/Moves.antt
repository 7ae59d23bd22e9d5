-- ===== src/Coordinator/Moves.antt =====
-- The guarded moves of a cut, and its phases as sequences of them
-- (crates/shipshape-core/src/release/coordinator.rs).
pub mod Refine
pub mod Account
pub mod Tagged
pub mod Safety
pub mod Durable
use ossctl.Base.{ℕ, String, ◌≡◌, Bool, true, false, Option, none, some, List, [], ◌∷◌}
use ossctl.Base.Dict.{contains, contains_key}
use ossctl.Journal.{
  EventKind, RunState, run_created, target_cancelled, run_abandoned, target_published,
  github_release_created, github_release_delegated, dry_run, build,
}
use ossctl.Journal.Disk.{Codec}
use ossctl.Adapters.{is_ci_delegated}
use ossctl.Coordinator.World.{
  TargetPlan, Act, Env, World, adapter_dry_run, adapter_build, adapter_publish, apply_bump,
  create_tag, push_tag, create_release, move_branch, target_cleared, tag_step_done, record_event,
  act,
}
use ossctl.Coordinator.Tagging.{has_local, has_remote, has_release, has_delegated}

-- The states in which the coordinator may ask something of the world.
abbrev pub Allowed : Act → RunState → Type 0
Allowed (adapter_dry_run tp) s = target_cleared s dry_run tp.id ≡ false
Allowed (adapter_build tp) s = target_cleared s build tp.id ≡ false
Allowed (adapter_publish tp) s =
    (contains_key tp.id s.published ≡ false) × (is_ci_delegated tp.adapter ≡ false)
Allowed apply_bump s = s.bump ≡ none
Allowed (create_tag t commit) s = tag_step_done s t has_local ≡ false
Allowed (push_tag t) s = tag_step_done s t has_remote ≡ false
Allowed (create_release t) s =
    (tag_step_done s t has_release ≡ false) × (tag_step_done s t has_delegated ≡ false)
Allowed (move_branch b commit) s = s.default_branch ≡ none
Allowed _ s = Unit

-- The states in which the coordinator may journal an event.
abbrev pub Permitted : EventKind → RunState → Type 0
Permitted (run_created r) s = ⊥
Permitted (target_cancelled t r) s = ⊥
Permitted (run_abandoned r) s = ⊥
Permitted (target_published t r) s = contains_key t s.published ≡ false
Permitted (github_release_created t u) s = tag_step_done s t has_delegated ≡ false
Permitted (github_release_delegated t a) s = tag_step_done s t has_release ≡ false
Permitted _ s = Unit

module _ (c : Codec) (env : Env c) where
  -- One move: an act that is allowed, or an event that is permitted.
  pub data Move : World c → World c → Type 0 where
    acts : (a : Act) (w : World c) → Allowed a w.journal.state → Move w (act c env a w)
    journals :
        (k : EventKind) (w : World c)
        → Permitted k w.journal.state
        → Move w (record_event c env k w).1

  -- Any number of moves.
  pub data Moves : World c → World c → Type 0 where
    stop : {w : World c} → Moves w w
    then : {u v w : World c} → Move u v → Moves v w → Moves u w

  pub Moves-trans : {u v w : World c} → Moves u v → Moves v w → Moves u w
  Moves-trans Moves.stop q = q
  Moves-trans (Moves.then m p) q = Moves.then m (Moves-trans p q)

  pub single : {u v : World c} → Move u v → Moves u v
  single m = Moves.then m Moves.stop
