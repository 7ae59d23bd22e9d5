-- ===== src/Coordinator/Moves/Tagged.antt =====
-- The tag phase and the advance of the branch are sequences of guarded moves
-- (crates/shipshape-core/src/release/coordinator.rs).
use ossctl.Base.{String, ◌≡◌, refl, Bool, true, false, Option, none, some, Bool-cases, inl, inr}
use ossctl.Journal.{
  EventKind, DefaultBranchState, tag, advance_branch, tag_created_local, tag_pushed_remote,
  default_branch_selected, default_branch_advanced, github_release_created,
  github_release_delegated,
}
use ossctl.Journal.Disk.{Codec}
use ossctl.Coordinator.World.{
  Env, World, create_tag, push_tag, create_release, move_branch, resolve_branch, tag_step_done,
  record_event, act,
}
use ossctl.Coordinator.Tagging.{
  ReleaseDisposition, engine, delegated_to_ci, tag_only, has_local, has_remote, has_release,
  has_delegated, contradiction, same_branch, landed, create_tag_step, push_tag_step,
  github_release_step, release_step, tag_of, tag_body, tag_phase, advanced, evidence_step,
  move_step, resolved, select_step, advance_body, advance_branch_phase,
}
use ossctl.Coordinator.Moves.{Permitted, Move, Moves}
use ossctl.Coordinator.Moves.Refine.{
  andthen-Moves, record_event-Moves, fail_phase-Moves, run_phase-Moves,
}

module _ (c : Codec) (env : Env c) where
  landed-Moves :
      (k : EventKind) (b : Bool) (w : World c)
      → Permitted k w.journal.state
      → Moves c env w (landed c env k b w).1
  unfolding landed
  landed-Moves k true w h = record_event-Moves c env k w h
  landed-Moves k false w h = fail_phase-Moves c env tag none w

  create_tag_step-Moves :
      (t commit : String) (w : World c) → Moves c env w (create_tag_step c env t commit w).1
  unfolding create_tag_step
  create_tag_step-Moves t commit w = elim (Bool-cases (tag_step_done w.journal.state t has_local)) [
    | inl h ↦ rw h Moves.stop
    | inr h ↦ rw h (
        Moves.then (Move.acts (create_tag t commit) w h)
          (landed-Moves (tag_created_local t) _ _ tt))
  ]

  push_tag_step-Moves : (t : String) (w : World c) → Moves c env w (push_tag_step c env t w).1
  unfolding push_tag_step
  push_tag_step-Moves t w = elim (Bool-cases (tag_step_done w.journal.state t has_remote)) [
    | inl h ↦ rw h Moves.stop
    | inr h ↦
        rw h (Moves.then (Move.acts (push_tag t) w h) (landed-Moves (tag_pushed_remote t) _ _ tt))
  ]

  github_release_step-Moves :
      (d : ReleaseDisposition) (t : String) (w : World c)
      → contradiction w.journal.state t d ≡ false
      → Moves c env w (github_release_step c env d t w).1
  unfolding github_release_step contradiction
  github_release_step-Moves (delegated_to_ci a) t w free =
      elim (Bool-cases (tag_step_done w.journal.state t has_delegated)) [
        | inl h ↦ rw h Moves.stop
        | inr h ↦ rw h (record_event-Moves c env (github_release_delegated t a) w free)
      ]
  github_release_step-Moves engine t w free =
      elim (Bool-cases (tag_step_done w.journal.state t has_release)) [
        | inl h ↦ rw h Moves.stop
        | inr h ↦ rw h (
            Moves.then (Move.acts (create_release t) w (h, free))
              (landed-Moves (github_release_created t (env.release_url w.trace)) _ _ free))
      ]
  github_release_step-Moves tag_only t w free = Moves.stop

  release_step-Moves :
      (d : ReleaseDisposition) (t : String) (w : World c)
      → Moves c env w (release_step c env d t w).1
  unfolding release_step
  release_step-Moves d t w = elim (Bool-cases (contradiction w.journal.state t d)) [
    | inl h ↦ rw h (fail_phase-Moves c env tag none w)
    | inr h ↦ rw h (github_release_step-Moves d t w h)
  ]

  pub tag_phase-Moves :
      (version commit : String) (d : ReleaseDisposition) (w : World c)
      → Moves c env w (tag_phase c env version commit d w).1
  unfolding tag_phase tag_body
  tag_phase-Moves version commit d w =
      run_phase-Moves c env tag (tag_body c env version commit d) w (λ v.
        andthen-Moves c env (create_tag_step c env (tag_of c env version) commit v) _
          (create_tag_step-Moves (tag_of c env version) commit v)
          (λ x e.
            andthen-Moves c env (push_tag_step c env (tag_of c env version) x) _
              (push_tag_step-Moves (tag_of c env version) x)
              (λ y e. release_step-Moves d (tag_of c env version) y)))

  advanced-Moves :
      (b commit : String) (ok : Bool) (w : World c) → Moves c env w (advanced c env b commit ok w).1
  unfolding advanced
  advanced-Moves b commit true w = record_event-Moves c env (default_branch_advanced b commit) w tt
  advanced-Moves b commit false w = fail_phase-Moves c env advance_branch none w

  evidence_step-Moves :
      (b commit : String) (e : Option DefaultBranchState) (w : World c)
      → w.journal.state.default_branch ≡ e
      → Moves c env w (evidence_step c env b commit e w).1
  unfolding evidence_step
  evidence_step-Moves b commit none w h = Moves.then (Move.acts (move_branch b commit) w h) (
      advanced-Moves b commit (env.works (move_branch b commit) w.trace)
        (act c env (move_branch b commit) w))
  evidence_step-Moves b commit (some e) w h = elim (Bool-cases (same_branch b commit e)) [
    | inl same ↦ rw same Moves.stop
    | inr other ↦ rw other (fail_phase-Moves c env advance_branch none w)
  ]

  move_step-Moves : (b commit : String) (w : World c) → Moves c env w (move_step c env b commit w).1
  unfolding move_step
  move_step-Moves b commit w = evidence_step-Moves b commit w.journal.state.default_branch w refl

  resolved-Moves :
      (commit : String) (ok : Bool) (w : World c) → Moves c env w (resolved c env commit ok w).1
  unfolding resolved
  resolved-Moves commit true w =
      andthen-Moves c env (record_event c env (default_branch_selected (env.branch_name w.trace)) w)
        _ (record_event-Moves c env (default_branch_selected (env.branch_name w.trace)) w tt)
        (λ v e. move_step-Moves (env.branch_name w.trace) commit v)
  resolved-Moves commit false w = fail_phase-Moves c env advance_branch none w

  select_step-Moves :
      (commit : String) (b : Option String) (w : World c)
      → Moves c env w (select_step c env commit b w).1
  unfolding select_step
  select_step-Moves commit (some b) w = move_step-Moves b commit w
  select_step-Moves commit none w =
      Moves.then (Move.acts resolve_branch w tt)
        (resolved-Moves commit (env.works resolve_branch w.trace) (act c env resolve_branch w))

  pub advance_branch_phase-Moves :
      (commit : String) (w : World c) → Moves c env w (advance_branch_phase c env commit w).1
  unfolding advance_branch_phase advance_body
  advance_branch_phase-Moves commit w =
      run_phase-Moves c env advance_branch (advance_body c env commit) w
        (λ v. select_step-Moves commit v.journal.state.selected_default_branch v)
