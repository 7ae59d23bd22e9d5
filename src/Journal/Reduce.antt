-- ===== src/Journal/Reduce.antt =====
-- The reducer: an event stream folded into the state of the run
-- (crates/shipshape-core/src/release/journal.rs, `reduce`, `apply`, `upsert_phase`).
pub mod Phases
pub mod Invariant
pub mod Replay
pub mod Step
pub mod Facts
pub mod Kept
use mathlib.Core.Option.{get_or}
use mathlib.Core.Logic.{ite}
use ossctl.Base.{
  ℕ, String, Bool, true, false, Option, none, some, List, [], ◌∷◌, ◌++◌, leb, ◌==◌, fold, is_some,
  if◌then◌else◌,
}
use ossctl.Base.Dict.{Dict, lookup, insert, add}
use ossctl.Base.Sort.{sort_by_key}
use ossctl.Journal.{
  Phase, PhaseOutcome, RunStatus, PhaseRecord, TagState, EventKind, JournalEvent, RunState,
  Phase-discrete, phase_index, default_tag, empty, in_progress, completed, abandoned, ok, failed,
  tag, dist, verify, advance_branch, run_created, bump_applied, phase_entered, phase_completed,
  target_dry_run, target_built, target_published, target_cancelled, target_delegated,
  target_verified, tag_created_local, tag_pushed_remote, default_branch_selected,
  default_branch_advanced, github_release_created, github_release_delegated, run_abandoned,
}

-- `phases.iter_mut().find(|r| r.phase == phase)`
unfoldable pub find_phase : Phase → List PhaseRecord → Option PhaseOutcome
find_phase p [] = none
find_phase p (r ∷ rs) = ite (Phase-discrete r.phase p) (some r.outcome) (find_phase p rs)

-- `rec.outcome = outcome` at the record that `find_phase` finds
unfoldable pub write_phase : Phase → PhaseOutcome → List PhaseRecord → List PhaseRecord
write_phase p o [] = []
write_phase p o (r ∷ rs) =
    ite (Phase-discrete r.phase p) (record r { outcome = o } ∷ rs) (r ∷ write_phase p o rs)

abbrev pub record_index : PhaseRecord → ℕ
record_index r = phase_index r.phase

unfoldable pub upsert_phase : List PhaseRecord → Phase → PhaseOutcome → List PhaseRecord
unfolding find_phase write_phase sort_by_key
upsert_phase phases p o =
    if is_some (find_phase p phases)
    then write_phase p o phases
    else sort_by_key record_index (phases ++ record { phase = p; outcome = o } ∷ [])

-- The phase whose `ok` completes a run that was created under this schema version.
unfoldable pub terminal_of : ℕ → Phase
terminal_of v =
    if leb v 1 then tag else if leb v 4 then dist else if v == 5 then verify else advance_branch

-- `option == Some(phase)`
abbrev pub is_phase : Phase → Option Phase → Bool
is_phase p none = false
is_phase p (some q) = ite (Phase-discrete q p) true false

abbrev pub is_ok : PhaseOutcome → Bool
is_ok ok = true
is_ok failed = false

-- `tags.entry(tag).or_default()`, written back
unfoldable pub on_tag : String → (TagState → TagState) → Dict TagState → Dict TagState
on_tag t f tags = insert t (f (get_or (lookup t tags) default_tag)) tags

-- The writes to one landing step of a tag.
abbrev pub set_created_local : TagState → TagState
set_created_local x = record x { created_local = true }

abbrev pub set_pushed_remote : TagState → TagState
set_pushed_remote x = record x { pushed_remote = true }

abbrev pub set_github_release : Option String → TagState → TagState
set_github_release u x = record x { github_release = true; github_release_url = u }

abbrev pub set_github_release_delegated : TagState → TagState
set_github_release_delegated x = record x { github_release_delegated = true }

-- The `match &event.kind` of `apply`.
unfoldable pub apply_kind : RunState → JournalEvent → EventKind → RunState
unfolding upsert_phase terminal_of on_tag
apply_kind s e (run_created c) = record s {
  run_id = c.run_id;
  plan_id = c.plan_id;
  version = c.version;
  targets = c.targets;
  head_sha = c.head_sha;
  bump_inputs = c.bump;
  created_ts = e.ts;
  terminal_phase = some (terminal_of e.schema_version);
  status = in_progress;
}
apply_kind s e (bump_applied c d) = record s {
  bump = some (record { commit = c; effective_date = d });
}
apply_kind s e (phase_entered p) = record s { current_phase = some p }
apply_kind s e (phase_completed p o) = record s {
  phases = upsert_phase s.phases p o;
  current_phase = if is_phase p s.current_phase then none else s.current_phase;
  status =
      if is_phase p s.terminal_phase then (if is_ok o then completed else s.status) else s.status;
}
apply_kind s e (target_dry_run t) = record s { dry_run = add t s.dry_run }
apply_kind s e (target_built t) = record s { built = add t s.built }
apply_kind s e (target_published t r) = record s { published = insert t r s.published }
apply_kind s e (target_cancelled t r) = record s { cancelled = insert t r s.cancelled }
apply_kind s e (target_delegated t a) = record s {
  delegated = add t s.delegated;
  delegated_adapters = insert t a s.delegated_adapters;
}
apply_kind s e (target_verified t o) = record s { verified = insert t o s.verified }
apply_kind s e (tag_created_local t) = record s { tags = on_tag t set_created_local s.tags }
apply_kind s e (tag_pushed_remote t) = record s { tags = on_tag t set_pushed_remote s.tags }
apply_kind s e (default_branch_selected b) = record s { selected_default_branch = some b }
apply_kind s e (default_branch_advanced b c) = record s {
  default_branch = some (record { branch = b; commit = c });
}
apply_kind s e (github_release_created t u) = record s {
  tags = on_tag t (set_github_release u) s.tags;
}
apply_kind s e (github_release_delegated t a) = record s {
  tags = on_tag t set_github_release_delegated s.tags;
}
apply_kind s e (run_abandoned r) = record s { status = abandoned; abandon_reason = some r }

-- `matches!(status, Completed | Abandoned)`
abbrev pub is_terminal : RunStatus → Bool
is_terminal in_progress = false
is_terminal completed = true
is_terminal abandoned = true

unfoldable pub apply : RunState → JournalEvent → RunState
unfolding apply_kind
apply s e =
    if leb e.seq s.applied_seq
    then s
    else if is_terminal s.status
    then record s { applied_seq = e.seq }
    else record (apply_kind s e e.kind) { applied_seq = e.seq; updated_ts = e.ts }

abbrev pub event_seq : JournalEvent → ℕ
event_seq e = e.seq

unfoldable pub reduce : List JournalEvent → RunState
unfolding apply sort_by_key
reduce events = fold apply empty (sort_by_key event_seq events)
