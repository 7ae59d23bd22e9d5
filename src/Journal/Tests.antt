-- ===== src/Journal/Tests.antt =====
-- Runs of the journal on a small log
-- (crates/shipshape-core/src/protocol/journal.rs, release/journal.rs).
use mathlib.Core.List.{Memᴰ, Permᴰ}
use ossctl.Base.{◌≡◌, refl, true, false, [], ◌∷◌, ◌++◌, fold, arith, some}
use ossctl.Base.Dict.{lookup, insert}
use ossctl.Base.Sort.{sort_by_key}
use ossctl.Journal.{
  Phase, JournalEvent, empty, Phase-discrete, publish, ok, run_created, phase_entered,
  phase_completed, target_published, run_abandoned,
}
use ossctl.Journal.Reduce.{
  apply, apply_kind, reduce, upsert_phase, find_phase, write_phase, terminal_of,
}
use ossctl.Journal.Reduce.Invariant.{IsRun, reduce-IsRun}
use ossctl.Journal.Reduce.Replay.{replay_over_prefix, reduce-perm, fold_over, at_seq}
use ossctl.Journal.Reduce.Facts.{Logged, CreatedFor, reduce-published, reduce_completed}
use ossctl.Journal.Reduce.Kept.{Kept, fold-Kept}
use ossctl.Journal.Disk.{Io, Disk, invalid_data}
use ossctl.Journal.Handle.{
  Journal, append, create, open_run, is_run_id, too_new, next_event, applied, Weather,
}
use ossctl.Journal.Sample.{
  event, created, receipt, start, finish, log, plain, disk, handle, lossy, publishes,
  handle-IsSynced,
}
use ossctl.Journal.Handle.{read_run_state, load_state}
use ossctl.Journal.Handle.Load.{read_run_state-IsSynced, load_state-append}
use ossctl.Journal.Handle.Recovery.{IsSynced, crash_recovery, create-IsSynced, open_run_newer}

reduce-IsRun_example : IsRun (reduce log)
reduce-IsRun_example = reduce-IsRun log

replay_over_prefix_example :
    fold apply (fold apply empty start) (start ++ finish) ≡ fold apply empty (start ++ finish)
replay_over_prefix_example = replay_over_prefix empty start finish

reduce-perm_example :
    reduce (event 2 (phase_entered publish) ∷ event 1 (run_created created) ∷ [])
    ≡ reduce (event 1 (run_created created) ∷ event 2 (phase_entered publish) ∷ [])
reduce-perm_example = reduce-perm (Permᴰ.swap refl refl) (((λ h. omega arith), tt), (tt, tt))

fold_over_example :
    fold apply (reduce log) (event 9 (run_abandoned "late") ∷ [])
    ≡ at_seq
        (reduce log)
        (fold apply (reduce log) (event 9 (run_abandoned "late") ∷ [])).applied_seq
unfolding reduce apply apply_kind upsert_phase terminal_of sort_by_key find_phase write_phase
    Phase-discrete
fold_over_example = fold_over (reduce log) (event 9 (run_abandoned "late") ∷ []) refl

reduce-published_example : Logged (λ e. e.kind ≡ target_published "rust" receipt) log
unfolding reduce apply apply_kind upsert_phase terminal_of sort_by_key find_phase write_phase lookup
    Phase-discrete insert
reduce-published_example = reduce-published log "rust" receipt refl

reduce_completed_example :
    (p : Phase) × Logged (CreatedFor p) log × Logged (λ e. e.kind ≡ phase_completed p ok) log
unfolding reduce apply apply_kind upsert_phase terminal_of sort_by_key find_phase write_phase
    Phase-discrete
reduce_completed_example = reduce_completed log refl

fold-Kept_example : Kept (fold apply empty log) (fold apply (fold apply empty log) finish)
fold-Kept_example = fold-Kept (fold apply empty log) finish

crash_recovery_example :
    let (_, j, d) = append plain lossy publishes handle disk in
    (open_run plain true "r1" (record d { locked = false })).0 ≡ Io.ok j
unfolding is_run_id apply
crash_recovery_example =
    crash_recovery plain lossy true publishes handle disk (omega arith) (omega arith) refl
      handle-IsSynced

abbrev bare : Disk plain
bare = record { journals = []; manifests = []; locked = false }

abbrev first : Journal plain
first =
    let j : Journal plain = record { run_id = "r1"; state = empty } in
    applied plain j (next_event plain j 50 (run_created created))

create-IsSynced_example : IsSynced plain first (create plain lossy created bare).1
unfolding create lookup append next_event
create-IsSynced_example = create-IsSynced plain lossy created bare {j = first} refl refl

abbrev newer_line : JournalEvent
newer_line = record (event 3 publishes) { schema_version = 7 }

abbrev newer_disk : Disk plain
newer_disk = record {
  journals = ("r1", start ++ newer_line ∷ []) ∷ [];
  manifests = [];
  locked = false;
}

open_run_newer_example : open_run plain true "r1" newer_disk ≡ (Io.err invalid_data, newer_disk)
unfolding is_run_id lookup too_new
open_run_newer_example =
    open_run_newer plain true "r1" newer_disk newer_line refl refl
      (Memᴰ.tail (Memᴰ.tail (Memᴰ.head refl))) refl refl

read_run_state-IsSynced_example : read_run_state plain "r1" disk ≡ Io.ok (some handle.state)
unfolding is_run_id apply
read_run_state-IsSynced_example =
    read_run_state-IsSynced plain handle disk refl (omega arith) handle-IsSynced

abbrev saving : Weather plain
saving = record { now = 50; append_ok = true; manifest_ok = true }

load_state-append_example :
    load_state plain "r1" (append plain saving publishes handle disk).2
    ≡ Io.ok (some (append plain saving publishes handle disk).1.state)
unfolding is_run_id append apply apply_kind next_event
load_state-append_example =
    load_state-append plain saving publishes handle disk refl refl refl refl (omega arith)
