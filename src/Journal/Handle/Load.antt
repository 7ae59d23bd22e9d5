-- ===== src/Journal/Handle/Load.antt =====
-- The state of a run read back without a handle
-- (crates/shipshape-core/src/release/journal.rs, `read_run_state`, `load_state`).
use mathlib.Core.Path.{subst}
use ossctl.Base.{
  String, ◌≡◌, ◌≤◌, ◌<◌, ◌≢◌, refl, sym, ap, ◌∙◌, true, some, List, [], ◌∷◌, eq_refl, le→leb,
}
use ossctl.Base.Dict.{lookup, lookup-insert_self}
use ossctl.Journal.{JournalEvent, EventKind, RunState, journal_schema_version}
use ossctl.Journal.Reduce.{reduce}
use ossctl.Journal.Reduce.Replay.{reduce_of_Ascending}
use ossctl.Journal.Disk.{Io, ok, Codec, Disk}
use ossctl.Journal.Handle.{
  Journal, Weather, is_run_id, reduced, read_run_state, usable, cached, load_state,
  persist_manifest, append_line, append, next_event, applied,
}
use ossctl.Journal.Handle.Recovery.{IsSynced, read_events-IsSynced, started-ne_nil}

module _ (c : Codec) where
  open c use {encode, encode_state, decode_state, decode_state-encode_state}

  reduced-eq : (es : List JournalEvent) → es ≢ [] → reduced c (Io.ok es) ≡ Io.ok (some (reduce es))
  unfolding reduced
  reduced-eq [] h = absurd (h refl)
  reduced-eq (e ∷ es) h = refl

  -- The log alone gives back the state of the handle that wrote it, once the run has begun.
  pub read_run_state-IsSynced :
      (j : Journal c) (d : Disk c)
      → is_run_id j.run_id ≡ true
      → 0 < j.state.applied_seq
      → IsSynced c j d
      → read_run_state c j.run_id d ≡ ok (some j.state)
  unfolding read_run_state
  read_run_state-IsSynced j d valid begun s = rw valid (
      ap (reduced c) (read_events-IsSynced c j d s)
      ∙ reduced-eq s.events (started-ne_nil c s.events j.state s.folds begun)
      ∙ ap (λ (x : RunState). ok (some x)) (reduce_of_Ascending s.events s.sorted ∙ s.folds))

  usable_own :
      (id : String) (s : RunState)
      → s.run_id ≡ id
      → s.schema_version ≤ journal_schema_version
      → usable c id (some s) ≡ some s
  unfolding usable
  usable_own id s own known = rw (own, eq_refl, le→leb _ _ known) refl

  cached-persist_manifest :
      (j : Journal c) (d : Disk c)
      → j.state.run_id ≡ j.run_id
      → j.state.schema_version ≤ journal_schema_version
      → cached c j.run_id (lookup j.run_id (persist_manifest c true j d).manifests) ≡ some j.state
  unfolding persist_manifest cached
  cached-persist_manifest j d own known =
      rw (lookup-insert_self, decode_state-encode_state) (usable_own j.run_id j.state own known)

  load_state-cached :
      (id : String) (d : Disk c) (s : RunState)
      → is_run_id id ≡ true
      → cached c id (lookup id d.manifests) ≡ some s
      → load_state c id d ≡ ok (some s)
  unfolding load_state
  load_state-cached id d s valid hit = rw (valid, hit) refl

  append_wrote :
      (w : Weather c) (k : EventKind) (j : Journal c) (d : Disk c)
      → w.append_ok ≡ true
      → w.manifest_ok ≡ true
      → let j' : Journal c = applied c j (next_event c j w.now k) in
        (e : Disk c) × (append c w k j d ≡ (ok j'.state, j', persist_manifest c true j' e))
  unfolding append
  append_wrote w k j d wrote saved =
      (append_line c j.run_id (encode (next_event c j w.now k)) d, rw (wrote, saved) refl)

  -- Where both writes of an append work, the manifest gives back the state after it, if that state is
  -- of this run and of a schema that this program knows.
  pub load_state-append :
      (w : Weather c) (k : EventKind) (j : Journal c) (d : Disk c)
      → w.append_ok ≡ true
      → w.manifest_ok ≡ true
      → is_run_id j.run_id ≡ true
      → (append c w k j d).1.state.run_id ≡ j.run_id
      → (append c w k j d).1.state.schema_version ≤ journal_schema_version
      → load_state c j.run_id (append c w k j d).2 ≡ ok (some (append c w k j d).1.state)
  load_state-append w k j d wrote saved valid own known =
      let (e, same) = append_wrote w k j d wrote saved in
      let j' : Journal c = applied c j (next_event c j w.now k) in
      subst
        (λ (r : Io RunState × Journal c × Disk c).
          r.1.state.run_id ≡ j.run_id
          → r.1.state.schema_version ≤ journal_schema_version
          → load_state c j.run_id r.2 ≡ ok (some r.1.state))
        (sym same)
        (λ o n.
          load_state-cached j.run_id (persist_manifest c true j' e) j'.state valid
            (cached-persist_manifest j' e o n))
        own known
