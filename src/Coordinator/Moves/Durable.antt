-- ===== src/Coordinator/Moves/Durable.antt =====
-- The journal on disk agrees with the coordinator's state at every point of a run
-- (crates/shipshape-core/src/release/coordinator.rs over release/journal.rs).
use ossctl.Base.{ℕ, ◌+◌, ◌≤◌, ◌<◌, ◌≡◌, ◌⊎◌, inl, inr, arith, Bool-cases, ltb, le→leb}
use ossctl.Journal.{EventKind, JournalEvent, RunState}
use ossctl.Journal.Reduce.{apply}
use ossctl.Journal.Disk.{Codec}
use ossctl.Journal.Handle.{Journal, append, next_event, u64_mod}
use ossctl.Journal.Handle.Recovery.{IsSynced, append-IsSynced}
use ossctl.Coordinator.World.{Env, World, record_event}
use ossctl.Coordinator.Moves.{Move, Moves}

module _ (c : Codec) (env : Env c) where
  -- The 64-bit counter of the journal has no room for one more event.
  abbrev pub Full : World c → Type 0
  Full w = u64_mod ≤ w.journal.state.applied_seq + 1

  abbrev pub Durable : World c → Type 0
  Durable w = IsSynced c w.journal w.disk ⊎ Full w

  seq-full :
      (j : Journal c) (now : ℕ) (k : EventKind)
      → u64_mod ≤ j.state.applied_seq + 1
      → (next_event c j now k).seq ≤ j.state.applied_seq
  unfolding next_event
  seq-full j now k h = omega arith

  apply-full : (s : RunState) (e : JournalEvent) → e.seq ≤ s.applied_seq → apply s e ≡ s
  unfolding apply
  apply-full s e h = rw (le→leb _ _ h)

  record_event-Full : (k : EventKind) (w : World c) → Full w → Full (record_event c env k w).1
  unfolding record_event append
  record_event-Full k w h = elim (Bool-cases (env.weather w.trace).append_ok) [
    | inl wrote ↦
        rw
          (
            wrote,
            apply-full w.journal.state (next_event c w.journal (env.weather w.trace).now k)
                (seq-full w.journal (env.weather w.trace).now k h),
          )
          h
    | inr lost ↦ rw lost h
  ]

  record_event-IsSynced :
      (k : EventKind) (w : World c)
      → w.journal.state.applied_seq + 1 < u64_mod
      → IsSynced c w.journal w.disk
      → IsSynced c (record_event c env k w).1.journal (record_event c env k w).1.disk
  unfolding record_event
  record_event-IsSynced k w room s =
      append-IsSynced c (env.weather w.trace) k w.journal w.disk room s

  record_event-Durable :
      (k : EventKind) (w : World c) → Durable w → Durable (record_event c env k w).1
  record_event-Durable k w (inr full) = inr (record_event-Full k w full)
  record_event-Durable k w (inl s) =
      elim (Bool-cases (ltb (w.journal.state.applied_seq + 1) u64_mod)) [
        | inl room ↦ inl (record_event-IsSynced k w (ground arith) s)
        | inr full ↦ inr (record_event-Full k w (ground arith))
      ]

  -- The log and the state agree after any moves.
  pub Moves-Durable : {v w : World c} → Moves c env v w → Durable v → Durable w
  Moves-Durable Moves.stop h = h
  Moves-Durable (Moves.then (Move.acts a v may) m) h = Moves-Durable m h
  Moves-Durable (Moves.then (Move.journals k v may) m) h =
      Moves-Durable m (record_event-Durable k v h)
