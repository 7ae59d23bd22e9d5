-- ===== src/Journal/Sample.antt =====
-- A small run, for the tests
-- (crates/shipshape-core/src/release/journal.rs).
use ossctl.Base.{ℕ, refl, true, false, none, some, List, [], ◌∷◌, ◌++◌, fold, arith}
use ossctl.Base.Dict.{lookup}
use ossctl.Journal.{
  PublishReceipt, RunCreated, EventKind, JournalEvent, RunState, empty, publish, advance_branch, ok,
  run_created, phase_entered, phase_completed, target_published,
}
use ossctl.Journal.Reduce.{apply}
use ossctl.Journal.Disk.{Codec, Disk}
use ossctl.Journal.Handle.{Journal, Weather, too_new, parse_lines}
use ossctl.Journal.Handle.Recovery.{IsSynced}

abbrev pub event : ℕ → EventKind → JournalEvent
event n k = record { schema_version = 6; seq = n; ts = n; idempotency_key = ""; kind = k }

abbrev pub created : RunCreated
created = record {
  run_id = "r1";
  plan_id = "plan";
  version = "1.2.0";
  targets = "rust" ∷ [];
  head_sha = none;
  bump = none;
}

abbrev pub receipt : PublishReceipt
receipt = record {
  ecosystem = "rust";
  package_name = some "ship";
  version = "1.2.0";
  registry_url = none;
  digest = none;
}

abbrev pub start : List JournalEvent
start = event 1 (run_created created) ∷ event 2 (phase_entered publish) ∷ []

abbrev pub finish : List JournalEvent
finish =
    event 3 (target_published "rust" receipt)
    ∷ event 4 (phase_completed publish ok)
    ∷ event 5 (phase_completed advance_branch ok)
    ∷ []

abbrev pub log : List JournalEvent
log = start ++ finish

-- A line that is the event itself, and a manifest that is the state.
abbrev pub plain : Codec
plain = record {
  Line = JournalEvent;
  Bytes = RunState;
  encode = λ e. e;
  is_blank = λ l. false;
  envelope = λ l. some l.schema_version;
  decode = some;
  encode_state = λ s. s;
  decode_state = some;
  is_blank-encode = λ e. refl;
  envelope-encode = λ e. refl;
  decode-encode = λ e. refl;
  decode_state-encode_state = λ s. refl;
}

abbrev pub disk : Disk plain
disk = record { journals = ("r1", start) ∷ []; manifests = []; locked = true }

abbrev pub handle : Journal plain
handle = record { run_id = "r1"; state = fold apply empty start }

abbrev pub lossy : Weather plain
lossy = record { now = 50; append_ok = true; manifest_ok = false }

abbrev pub publishes : EventKind
publishes = target_published "rust" receipt

pub handle-IsSynced : IsSynced plain handle disk
unfolding parse_lines too_new lookup
handle-IsSynced = record {
  events = start;
  parsed = refl;
  sorted = (((omega arith), tt), (tt, tt));
  folds = refl;
}
