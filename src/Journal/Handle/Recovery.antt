-- ===== src/Journal/Handle/Recovery.antt =====
-- The log on disk and the state in memory
-- (crates/shipshape-core/src/release/journal.rs, `Journal::create`, `open` and `append`).
use mathlib.Core.List.{Memᴰ}
use mathlib.Core.Path.{subst}
use ossctl.Base.{
  ℕ, String, ◌≡◌, ◌≤◌, ◌<◌, ◌+◌, ◌≢◌, refl, sym, ap, ◌∙◌, Bool, true, false, none, List, [], ◌∷◌,
  ◌++◌, arith, Bool-cases, inl, inr, All, fold, fold-append,
}
use ossctl.Base.Dict.{lookup-insert_self, lookup}
use ossctl.Base.Sort.{Ascending, sort_by_key_of_Ascending}
use ossctl.Journal.{JournalEvent, EventKind, RunCreated, RunState, empty, run_created}
use ossctl.Journal.Reduce.{apply, reduce, event_seq}
use ossctl.Journal.Reduce.Replay.{applied_seq-le-apply, seen-fold, reduce_of_Ascending}
use ossctl.Journal.Disk.{Io, ok, err, invalid_data, Codec, Disk}
use ossctl.Journal.Handle.{
  Journal, Weather, u64_mod, is_run_id, too_new, parse_lines, read_events, sort_events, lines_of,
  append_line, append, create, persist_manifest, next_event, applied, with_handle, opened,
  create_locked, open_locked, open_run,
}
use ossctl.Journal.Handle.Lines.{parse_lines-append, parse_lines_newer}

All-snoc_lt :
    (x : JournalEvent) (es : List JournalEvent) (e : JournalEvent)
    → All (λ y. event_seq x < event_seq y) es
    → event_seq x < event_seq e
    → All (λ y. event_seq x < event_seq y) (es ++ e ∷ [])
All-snoc_lt x [] e a h = (h, tt)
All-snoc_lt x (y ∷ es) e a h = (a.0, All-snoc_lt x es e a.1 h)

All-next :
    (n m : ℕ) (es : List JournalEvent)
    → n < m
    → All (λ y. event_seq y ≤ n) es
    → All (λ y. event_seq y < m) es
All-next n m [] h a = tt
All-next n m (y ∷ es) h a = (omega arith, All-next n m es h a.1)

Ascending-snoc :
    (es : List JournalEvent) (e : JournalEvent)
    → Ascending event_seq es
    → All (λ x. event_seq x < event_seq e) es
    → Ascending event_seq (es ++ e ∷ [])
Ascending-snoc [] e a h = (tt, tt)
Ascending-snoc (x ∷ es) e a h = (All-snoc_lt x es e a.0 h.0, Ascending-snoc es e a.1 h.1)

module _ (c : Codec) where
  open c use {Line, encode, is_blank}

  -- The log of the handle's run parses, in order, and folds to the handle's state.
  pub record IsSynced (j : Journal c) (d : Disk c) : Type 0 where
    pub events : List JournalEvent
    pub parsed : parse_lines c (lines_of c j.run_id d) ≡ ok events
    pub sorted : Ascending event_seq events
    pub folds : fold apply empty events ≡ j.state

  pub read_events-IsSynced :
      (j : Journal c) (d : Disk c) (s : IsSynced j d) → read_events c j.run_id d ≡ ok s.events
  unfolding read_events sort_events
  read_events-IsSynced j d s =
      rw s.parsed (rw (sort_by_key_of_Ascending event_seq s.events s.sorted))

  lines_of-append_line :
      (id : String) (l : Line) (d : Disk c)
      → lines_of c id (append_line c id l d) ≡ lines_of c id d ++ l ∷ []
  unfolding append_line
  lines_of-append_line id l d = rw lookup-insert_self

  lines_of-persist_manifest :
      (id : String) (works : Bool) (j : Journal c) (d : Disk c)
      → lines_of c id (persist_manifest c works j d) ≡ lines_of c id d
  unfolding persist_manifest
  lines_of-persist_manifest id true j d = refl
  lines_of-persist_manifest id false j d = refl

  -- The sequence number of the next event, where the counter does not wrap.
  seq-next_event :
      (j : Journal c) (now : ℕ) (k : EventKind)
      → j.state.applied_seq + 1 < u64_mod
      → (next_event c j now k).seq ≡ j.state.applied_seq + 1
  unfolding next_event
  seq-next_event j now k h = omega arith

  appended-IsSynced :
      (w : Weather c) (k : EventKind) (j : Journal c) (d : Disk c)
      → j.state.applied_seq + 1 < u64_mod
      → IsSynced j d
      → IsSynced (applied c j (next_event c j w.now k)) (
          persist_manifest c w.manifest_ok
            (applied c j (next_event c j w.now k))
            (append_line c j.run_id (encode (next_event c j w.now k)) d))
  appended-IsSynced w k j d room s =
      let e = next_event c j w.now k in
      let bounded : All (λ y. event_seq y ≤ j.state.applied_seq) s.events =
        rw (← s.folds) (seen-fold empty s.events) in
      record {
        events = s.events ++ e ∷ [];
        parsed =
            ap (parse_lines c) (
              lines_of-persist_manifest j.run_id w.manifest_ok _ _
              ∙ lines_of-append_line j.run_id (encode e) d)
            ∙ parse_lines-append c (lines_of c j.run_id d) e s.events
                (unfold next_event in omega arith) s.parsed;
        sorted = Ascending-snoc s.events e s.sorted (
            All-next j.state.applied_seq e.seq s.events
              (rw (seq-next_event j w.now k room) (omega arith)) bounded);
        folds = fold-append apply empty s.events (e ∷ []) ∙ ap (λ x. apply x e) s.folds;
      }

  -- An append keeps the log on disk and the state in memory in agreement, when it writes its line or
  -- fails with no line written, and whether the manifest is written or not, as long as the 64-bit
  -- sequence counter does not wrap.
  pub append-IsSynced :
      (w : Weather c) (k : EventKind) (j : Journal c) (d : Disk c)
      → j.state.applied_seq + 1 < u64_mod
      → IsSynced j d
      → let (_, j', d') = append c w k j d in IsSynced j' d'
  unfolding append
  append-IsSynced w k j d room s = elim (Bool-cases w.append_ok) [
    | inl wrote ↦ rw wrote (appended-IsSynced w k j d room s)
    | inr lost ↦ rw lost s
  ]

  opened-eq :
      (works : Bool) (id : String) (es : List JournalEvent) (d : Disk c)
      → es ≢ []
      → (opened c works id (ok es) d).0 ≡ ok (record { run_id = id; state = reduce es })
  unfolding opened
  opened-eq works id [] d h = absurd (h refl)
  opened-eq works id (e ∷ es) d h = refl

  pub started-ne_nil :
      (es : List JournalEvent) (s : RunState)
      → fold apply empty es ≡ s
      → 0 < s.applied_seq
      → es ≢ []
  started-ne_nil [] s folds h e = omega (arith, ap (λ (x : RunState). x.applied_seq) folds)
  started-ne_nil (x ∷ es) s folds h e = cc

  open_locked-IsSynced :
      (works : Bool) (j : Journal c) (d : Disk c)
      → 0 < j.state.applied_seq
      → IsSynced j d
      → (open_locked c false works j.run_id d).0 ≡ ok j
  unfolding open_locked
  open_locked-IsSynced works j d begun s =
      ap (λ r. (opened c works j.run_id r (record d { locked = true })).0)
        (read_events-IsSynced j d s)
      ∙ opened-eq works j.run_id s.events (record d { locked = true })
          (started-ne_nil s.events j.state s.folds begun)
      ∙ ap (λ (x : RunState). ok (record { run_id = j.run_id; state = x }))
          (reduce_of_Ascending s.events s.sorted ∙ s.folds)

  -- A handle whose log is on disk is found again: opening the run yields the same handle.
  open_run-IsSynced :
      (works : Bool) (j : Journal c) (d : Disk c)
      → is_run_id j.run_id ≡ true
      → d.locked ≡ false
      → 0 < j.state.applied_seq
      → IsSynced j d
      → (open_run c works j.run_id d).0 ≡ ok j
  unfolding open_run
  open_run-IsSynced works j d valid free begun s = rw valid (
      subst (λ b. (open_locked c b works j.run_id d).0 ≡ ok j) (sym free)
        (open_locked-IsSynced works j d begun s))

  run_id-append :
      (w : Weather c) (k : EventKind) (j : Journal c) (d : Disk c)
      → (append c w k j d).1.run_id ≡ j.run_id
  unfolding append
  run_id-append w k j d = ground arith

  applied_seq-append :
      (w : Weather c) (k : EventKind) (j : Journal c) (d : Disk c)
      → j.state.applied_seq + 1 < u64_mod
      → j.state.applied_seq ≤ (append c w k j d).1.state.applied_seq
  unfolding append
  applied_seq-append w k j d room =
      ground (arith, applied_seq-le-apply j.state (next_event c j w.now k))

  -- Crash recovery: after an append in a run that has begun, with the line written or lost and the
  -- manifest written or lost, the next process that opens the run, its lock gone with the first one,
  -- has exactly the state that the first process had in memory.
  pub crash_recovery :
      (w : Weather c) (works : Bool) (k : EventKind) (j : Journal c) (d : Disk c)
      → j.state.applied_seq + 1 < u64_mod
      → 0 < j.state.applied_seq
      → is_run_id j.run_id ≡ true
      → IsSynced j d
      → let (_, j', d') = append c w k j d in
        (open_run c works j.run_id (record d' { locked = false })).0 ≡ ok j'
  crash_recovery w works k j d room begun valid s =
      let (_, j', d') = append c w k j d in
      let s' : IsSynced j' d' = append-IsSynced w k j d room s in
      subst (λ id. (open_run c works id (record d' { locked = false })).0 ≡ ok j')
        (run_id-append w k j d)
        (open_run-IsSynced works j' (record d' { locked = false })
          (rw (run_id-append w k j d) valid) refl (omega (arith, applied_seq-append w k j d room))
          (record { events = s'.events; parsed = s'.parsed; sorted = s'.sorted; folds = s'.folds }))

  with_handle-IsSynced :
      (x : Io RunState × Journal c × Disk c) {j : Journal c}
      → IsSynced x.1 x.2
      → (with_handle c x).0 ≡ ok j
      → IsSynced j (with_handle c x).1
  unfolding with_handle
  with_handle-IsSynced (ok s, j', d) sync h =
      let same : j' ≡ _ = cc in subst (λ y. IsSynced y d) same sync
  with_handle-IsSynced (err e, j', d) sync h = cc

  fresh-IsSynced :
      (id : String) (d : Disk c)
      → lookup id d.journals ≡ none
      → IsSynced (record { run_id = id; state = empty }) (record d { locked = true })
  fresh-IsSynced id d fresh = record {
    events = [];
    parsed = rw fresh (unfold parse_lines in refl);
    sorted = tt;
    folds = refl;
  }

  created-IsSynced :
      (held : Bool) (w : Weather c) (r : RunCreated) (d : Disk c) {j : Journal c}
      → lookup r.run_id d.journals ≡ none
      → (create_locked c held w r d).0 ≡ ok j
      → IsSynced j (create_locked c held w r d).1
  unfolding create_locked
  created-IsSynced true w r d fresh h = cc
  created-IsSynced false w r d fresh h =
      with_handle-IsSynced _
        (append-IsSynced w (run_created r) _ _ (omega arith) (fresh-IsSynced r.run_id d fresh)) h

  -- A new run under a fresh id starts with its log and its state in agreement.
  pub create-IsSynced :
      (w : Weather c) (r : RunCreated) (d : Disk c) {j : Journal c}
      → lookup r.run_id d.journals ≡ none
      → (create c w r d).0 ≡ ok j
      → IsSynced j (create c w r d).1
  unfolding create
  create-IsSynced w r d fresh = created-IsSynced d.locked w r d fresh

  open_locked_newer :
      (works : Bool) (id : String) (d : Disk c) (l : Line)
      → Memᴰ l (lines_of c id d)
      → is_blank l ≡ false
      → too_new c l ≡ true
      → open_locked c false works id d ≡ (err invalid_data, record d { locked = false })
  unfolding open_locked opened read_events sort_events
  open_locked_newer works id d l m there newer =
      rw (parse_lines_newer c (lines_of c id d) l m there newer)

  -- One line of a newer schema in a run's log refuses to open it, and leaves the disk as it was.
  pub open_run_newer :
      (works : Bool) (id : String) (d : Disk c) (l : Line)
      → is_run_id id ≡ true
      → d.locked ≡ false
      → Memᴰ l (lines_of c id d)
      → is_blank l ≡ false
      → too_new c l ≡ true
      → open_run c works id d ≡ (err invalid_data, d)
  unfolding open_run
  open_run_newer works id d l valid free m there newer = rw valid (
      subst (λ b. open_locked c b works id d ≡ (err invalid_data, record d { locked = b }))
        (sym free) (open_locked_newer works id d l m there newer))
