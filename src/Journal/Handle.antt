-- ===== src/Journal/Handle.antt =====
-- The journal handle: creating a run, opening one again, and append-then-apply
-- (crates/shipshape-core/src/release/journal.rs, `Journal`, `read_events`, `load_state`).
pub mod Lines
pub mod Recovery
pub mod Load
use Prim.Native.Char.{code}
use Prim.Native.String
use mathlib.Core.Option.{get_or}
use ossctl.Base.{
  ℕ, String, ◌≡◌, ◌+◌, ◌%◌, ◌^◌, Bool, true, false, ◌||◌, ◌&&◌, Option, none, some, List, [], ◌∷◌,
  ◌++◌, leb, ltb, ◌==◌, str_eq, is_empty, if◌then◌else◌,
}
use ossctl.Base.Dict.{Dict, lookup, insert}
use ossctl.Base.Sort.{sort_by_key}
use ossctl.Journal.{
  JournalEvent, EventKind, RunCreated, RunState, BumpInputs, journal_schema_version, empty,
  run_created,
}
use ossctl.Journal.Key.{idempotency_key}
use ossctl.Journal.Reduce.{apply, reduce, event_seq}
use ossctl.Journal.Disk.{
  IoError, Io, ok, err, would_block, not_found, invalid_input, invalid_data, other, Codec, Disk,
}

contains_code : ℕ → String → Bool
contains_code k String.[] = false
contains_code k (String.◌∷◌ ch s) = code ch == k || contains_code k s

-- `validate_run_id`: a single safe path segment
unfoldable pub is_run_id : String → Bool
unfolding contains_code
is_run_id id =
    if str_eq id "" || str_eq id "." || str_eq id ".."
    then false
    else if contains_code b'/' id || contains_code 92 id || contains_code 0 id
    then false
    else true

-- `seq` is a `u64`
abbrev pub u64_mod : ℕ
u64_mod = 2 ^ 64

abbrev pub is_newer : Option ℕ → Bool
is_newer none = false
is_newer (some v) = ltb journal_schema_version v

module _ (c : Codec) where
  open c use {Line, Bytes, encode, is_blank, envelope, decode, encode_state, decode_state}

  -- a line with a schema version that is newer than this program's
  unfoldable pub too_new : Line → Bool
  too_new l = is_newer (envelope l)

  push_event : Option JournalEvent → Io (List JournalEvent) → Io (List JournalEvent)
  push_event none rest = err invalid_data
  push_event (some e) (ok es) = ok (e ∷ es)
  push_event (some e) (err x) = err x

  -- the loop of `read_events`: the first bad line ends it
  unfoldable pub parse_lines : List Line → Io (List JournalEvent)
  unfolding push_event
  parse_lines [] = ok []
  parse_lines (l ∷ ls) =
      let rest = parse_lines ls in
      if is_blank l
      then rest
      else if too_new l
      then err invalid_data
      else push_event (decode l) rest

  sort_events : Io (List JournalEvent) → Io (List JournalEvent)
  sort_events (ok es) = ok (sort_by_key event_seq es)
  sort_events (err x) = err x

  -- `store.read_lines`: an absent journal has no lines
  abbrev pub lines_of : String → Disk c → List Line
  lines_of id d = get_or (lookup id d.journals) []

  unfoldable pub read_events : String → Disk c → Io (List JournalEvent)
  unfolding parse_lines sort_events
  read_events id d = sort_events (parse_lines (lines_of id d))

  reduced : Io (List JournalEvent) → Io (Option RunState)
  reduced (err x) = err x
  reduced (ok []) = ok none
  reduced (ok (e ∷ es)) = ok (some (reduce (e ∷ es)))

  unfoldable pub read_run_state : String → Disk c → Io (Option RunState)
  unfolding reduced read_events
  read_run_state id d = if is_run_id id then reduced (read_events id d) else err invalid_input

  -- the fast path: a manifest of this run, of a version that is known
  usable : String → Option RunState → Option RunState
  usable id none = none
  usable id (some s) =
      if str_eq s.run_id id && leb s.schema_version journal_schema_version then some s else none

  cached : String → Option Bytes → Option RunState
  cached id none = none
  cached id (some b) = usable id (decode_state b)

  unfoldable pub load_state : String → Disk c → Io (Option RunState)
  unfolding cached usable reduced read_events
  load_state id d =
      if is_run_id id
      then elim (cached id (lookup id d.manifests)) [
        | some s ↦ ok (some s)
        | none ↦ reduced (read_events id d)
      ]
      else err invalid_input

  pub record Journal : Type 0 where
    pub run_id : String
    pub state : RunState

  -- What the world does to one `append`: the clock, and whether the two writes succeed.
  pub record Weather : Type 0 where
    pub now : ℕ
    pub append_ok : Bool
    pub manifest_ok : Bool

  -- `persist_manifest`
  unfoldable pub persist_manifest : Bool → Journal → Disk c → Disk c
  persist_manifest works j d =
      if works
      then record d { manifests = insert j.run_id (encode_state j.state) d.manifests }
      else d

  -- the envelope that `append` puts round an event
  unfoldable pub next_event : Journal → ℕ → EventKind → JournalEvent
  next_event j now k = record {
    schema_version = journal_schema_version;
    seq = (j.state.applied_seq + 1) % u64_mod;
    ts = now;
    idempotency_key = idempotency_key k;
    kind = k;
  }

  pub append_line : String → Line → Disk c → Disk c
  append_line id l d = record d { journals = insert id (lines_of id d ++ l ∷ []) d.journals }

  abbrev pub applied : Journal → JournalEvent → Journal
  applied j e = record j { state = apply j.state e }

  -- append-then-apply: the durable line, the projection, the manifest
  unfoldable pub append : Weather → EventKind → Journal → Disk c → Io RunState × Journal × Disk c
  unfolding next_event append_line persist_manifest
  append w k j d =
      let e = next_event j w.now k in
      if w.append_ok
      then (
        ok (apply j.state e),
        applied j e,
        persist_manifest w.manifest_ok (applied j e) (append_line j.run_id (encode e) d),
      )
      else (err other, j, d)

  with_handle : Io RunState × Journal × Disk c → Io Journal × Disk c
  with_handle (ok s, j, d) = (ok j, d)
  -- the handle is dropped, and its lock with it
  with_handle (err x, j, d) = (err x, record d { locked = false })

  create_locked : Bool → Weather → RunCreated → Disk c → Io Journal × Disk c
  unfolding with_handle append
  create_locked true w r d = (err would_block, d)
  create_locked false w r d = with_handle (
      append w (run_created r) (record { run_id = r.run_id; state = empty })
        (record d { locked = true }))

  -- `create_inner`: the lock, a fresh id, and the `RunCreated` event
  unfoldable pub create : Weather → RunCreated → Disk c → Io Journal × Disk c
  unfolding create_locked
  create w r d = create_locked d.locked w r d

  opened : Bool → String → Io (List JournalEvent) → Disk c → Io Journal × Disk c
  opened works id (err x) d = (err x, record d { locked = false })
  opened works id (ok []) d = (err not_found, record d { locked = false })
  opened works id (ok (e ∷ es)) d =
      let j : Journal = record { run_id = id; state = reduce (e ∷ es) } in
      (ok j, persist_manifest works j d)

  open_locked : Bool → Bool → String → Disk c → Io Journal × Disk c
  unfolding opened read_events persist_manifest
  open_locked true works id d = (err would_block, d)
  open_locked false works id d = opened works id (read_events id d) (record d { locked = true })

  -- `open`: the lock, the log reduced, and the manifest healed where the write works
  unfoldable pub open_run : Bool → String → Disk c → Io Journal × Disk c
  unfolding open_locked
  open_run works id d =
      if is_run_id id then open_locked d.locked works id d else (err invalid_input, d)
