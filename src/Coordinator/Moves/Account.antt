-- ===== src/Coordinator/Moves/Account.antt =====
-- A publish phase that is done has accounted for every target
-- (crates/shipshape-core/src/release/coordinator.rs, `publish_phase`).
use mathlib.Core.List.{Memᴰ}
use mathlib.Core.Path.{subst}
use ossctl.Base.{
  String, ◌≡◌, refl, sym, ap, ◌∙◌, Bool, true, false, Option, some, List, [], ◌∷◌, inl, inr,
  Bool-cases, All,
}
use ossctl.Base.Dict.{contains, contains_key}
use ossctl.Schema.{adapter_as_str}
use ossctl.Journal.{
  Phase, EventKind, PublishReceipt, PhaseOutcome, publish, target_published, target_delegated,
  phase_entered, phase_completed, failed,
}
use ossctl.Journal.Reduce.Kept.{Kept, Kept-refl, Kept-trans, apply-Kept}
use ossctl.Journal.Disk.{Codec}
use ossctl.Journal.Handle.{append}
use ossctl.Adapters.{is_ci_delegated}
use ossctl.Coordinator.World.{
  TargetPlan, Step, Env, World, Outcome, acted, journalled, adapter_publish, done, phase_failed,
  journal_failed, plan_refused, checkout_failed, run_pending, run_failed, panicked,
  phase_completed_ok, to_journal_receipt, needs_post_tag, andthen, record_event, fail_phase,
}
use ossctl.Coordinator.Phases.{
  for_each, run_phase, phase_body, settle, published, publish_target, publish_phase,
}
use ossctl.Coordinator.Moves.{Move, Moves}
use ossctl.Coordinator.Moves.Safety.{Moves-property}
use ossctl.Coordinator.Moves.Refine.{publish_target-Moves, for_each-Moves, record_event-Moves}

module _ (c : Codec) (env : Env c) where
  -- How a target was dealt with: its receipt or its delegation was on record or has been written, or
  -- it waits for the tag.
  pub data Accounted (tp : TargetPlan) (w : World c) : Type 0 where
    recorded : contains_key tp.id w.journal.state.published ≡ true → Accounted tp w
    deferred : needs_post_tag tp.adapter ≡ true → Accounted tp w
    left_to_ci : contains tp.id w.journal.state.delegated ≡ true → Accounted tp w
    delegated_now :
        Memᴰ (journalled (target_delegated tp.id (adapter_as_str tp.adapter)) true) w.trace
        → Accounted tp w
    published_now :
        (r : PublishReceipt)
        → Memᴰ (acted (adapter_publish tp) true) w.trace
        → Memᴰ (journalled (target_published tp.id r) true) w.trace
        → Accounted tp w

  pub record_event-done :
      (k : EventKind) (w : World c)
      → (record_event c env k w).0 ≡ done
      → Memᴰ (journalled k true) (record_event c env k w).1.trace
  unfolding record_event append
  record_event-done k w h = elim (Bool-cases (env.weather w.trace).append_ok) [
    | inl wrote ↦ rw wrote (Memᴰ.head refl)
    | inr lost ↦ cc (rw lost at h)
  ]

  pub trace-record_event :
      (k : EventKind) (w : World c) (x : Step)
      → Memᴰ x w.trace
      → Memᴰ x (record_event c env k w).1.trace
  unfolding record_event
  trace-record_event k w x m = Memᴰ.tail m

  pub andthen-done :
      (o : Outcome c) (f : World c → Outcome c)
      → (andthen c o f).0 ≡ done
      → (o.0 ≡ done) × (andthen c o f ≡ f o.1)
  unfolding andthen
  andthen-done (done, w) f h = (refl, refl)
  andthen-done (phase_failed p t, w) f h = cc
  andthen-done (journal_failed e, w) f h = cc
  andthen-done (plan_refused e, w) f h = cc
  andthen-done (checkout_failed, w) f h = cc
  andthen-done (run_pending t, w) f h = cc
  andthen-done (run_failed t, w) f h = cc
  andthen-done (panicked, w) f h = cc

  pub fail_phase-ne_done :
      (p : Phase) (t : Option String) (w : World c) → (fail_phase c env p t w).0 ≡ done → ⊥
  unfolding fail_phase
  fail_phase-ne_done p t w h =
      let (first, same) =
        andthen-done (record_event c env (phase_completed p failed) w) (λ v. (phase_failed p t, v))
          h in
      cc (ap (λ (o : Outcome c). o.0) same, h)

  settle-done :
      (p : Phase) (tp : TargetPlan) (k : EventKind) (b : Bool) (w : World c)
      → (settle c env p tp k b w).0 ≡ done
      → (b ≡ true) × Memᴰ (journalled k true) (settle c env p tp k b w).1.trace
  unfolding settle
  settle-done p tp k true w h = (refl, record_event-done k w h)
  settle-done p tp k false w h = absurd (fail_phase-ne_done p (some tp.id) w h)

  pub trace-Moves : {v w : World c} (x : Step) → Moves c env v w → Memᴰ x v.trace → Memᴰ x w.trace
  trace-Moves x Moves.stop m = m
  trace-Moves x (Moves.then (Move.acts a v may) ms) m = trace-Moves x ms (Memᴰ.tail m)
  trace-Moves x (Moves.then (Move.journals k v may) ms) m =
      trace-Moves x ms (trace-record_event k v x m)

  pub Kept-Moves : {v w : World c} → Moves c env v w → Kept v.journal.state w.journal.state
  Kept-Moves {v} m =
      Moves-property c env (Kept v.journal.state) (λ s e may p. Kept-trans p (apply-Kept s e)) m
        (Kept-refl v.journal.state)

  -- What is accounted for stays so.
  Accounted-Moves :
      (tp : TargetPlan) {v w : World c} → Moves c env v w → Accounted tp v → Accounted tp w
  Accounted-Moves tp m (Accounted.recorded h) =
      Accounted.recorded ((Kept-Moves m).published tp.id h)
  Accounted-Moves tp m (Accounted.deferred h) = Accounted.deferred h
  Accounted-Moves tp m (Accounted.left_to_ci h) =
      Accounted.left_to_ci ((Kept-Moves m).delegated tp.id h)
  Accounted-Moves tp m (Accounted.delegated_now h) = Accounted.delegated_now (trace-Moves _ m h)
  Accounted-Moves tp m (Accounted.published_now r p h) =
      Accounted.published_now r (trace-Moves _ m p) (trace-Moves _ m h)

  asked-settle :
      (p : Phase) (tp : TargetPlan) (k : EventKind) (b : Bool) (w : World c) (x : Step)
      → Memᴰ x w.trace
      → b ≡ true
      → Memᴰ x (settle c env p tp k b w).1.trace
  unfolding settle
  asked-settle p tp k true w x m h = trace-record_event k w x m
  asked-settle p tp k false w x m h = cc

  published-Accounted :
      (tp : TargetPlan) (w : World c)
      → (published c env tp w).0 ≡ done
      → Accounted tp (published c env tp w).1
  unfolding published
  published-Accounted tp w h =
      let (worked, written) = settle-done publish tp _ _ _ h in
      Accounted.published_now (to_journal_receipt (env.receipt tp w.trace))
        (asked-settle publish tp _ _ _ _ (Memᴰ.head (ap (acted (adapter_publish tp)) (sym worked)))
          worked)
        written

  publish_target-Accounted :
      (tp : TargetPlan) (w : World c)
      → (publish_target c env tp w).0 ≡ done
      → Accounted tp (publish_target c env tp w).1
  unfolding publish_target
  publish_target-Accounted tp w h =
      elim (Bool-cases (contains_key tp.id w.journal.state.published)) [
        | inl p ↦ rw p (Accounted.recorded p)
        | inr p ↦ rw p elim (Bool-cases (needs_post_tag tp.adapter)) [
          | inl q ↦ rw q (Accounted.deferred q)
          | inr q ↦ rw q elim (Bool-cases (contains tp.id w.journal.state.delegated)) [
            | inl d ↦ rw d (Accounted.left_to_ci d)
            | inr d ↦ rw d elim (Bool-cases (is_ci_delegated tp.adapter)) [
              | inl i ↦
                  rw i (Accounted.delegated_now (record_event-done _ w (rw (p, q, d, i) at h)))
              | inr i ↦ rw i (published-Accounted tp w (rw (p, q, d, i) at h))
            ]
          ]
        ]
      ]

  for_each-Accounted :
      (tps : List TargetPlan) (w : World c)
      → (for_each c env (publish_target c env) tps w).0 ≡ done
      → All (λ tp. Accounted tp (for_each c env (publish_target c env) tps w).1) tps
  unfolding for_each
  for_each-Accounted [] w h = tt
  for_each-Accounted (tp ∷ tps) w h =
      let (first, same) =
        andthen-done (publish_target c env tp w) (for_each c env (publish_target c env) tps) h in
      subst (λ (o : Outcome c). All (λ x. Accounted x o.1) (tp ∷ tps)) (sym same)
        (
          Accounted-Moves tp
              (for_each-Moves c env (publish_target c env) tps (publish_target c env tp w).1
                (publish_target-Moves c env))
              (publish_target-Accounted tp w first),
          for_each-Accounted tps (publish_target c env tp w).1
              (sym (ap (λ (o : Outcome c). o.0) same) ∙ h),
        )

  All-Accounted :
      (tps : List TargetPlan) {v w : World c}
      → Moves c env v w
      → All (λ tp. Accounted tp v) tps
      → All (λ tp. Accounted tp w) tps
  All-Accounted [] m h = tt
  All-Accounted (tp ∷ tps) m h = (Accounted-Moves tp m h.0, All-Accounted tps m h.1)

  phase_body-Accounted :
      (tps : List TargetPlan) (w : World c)
      → (phase_body c env publish (for_each c env (publish_target c env) tps) w).0 ≡ done
      → All
          (λ tp.
            Accounted tp (phase_body c env publish (for_each c env (publish_target c env) tps) w).1)
          tps
  unfolding phase_body
  phase_body-Accounted tps w h =
      let body : World c → Outcome c = for_each c env (publish_target c env) tps in
      let v : World c = (record_event c env (phase_entered publish) w).1 in
      let finish : World c → Outcome c =
        record_event c env (phase_completed publish PhaseOutcome.ok) in
      let (entered, same) =
        andthen-done (record_event c env (phase_entered publish) w) (λ x. andthen c (body x) finish)
          h in
      let done_then : (andthen c (body v) finish).0 ≡ done =
        sym (ap (λ (o : Outcome c). o.0) same) ∙ h in
      let (all, last) = andthen-done (body v) finish done_then in
      rw (same, last)
        (All-Accounted tps
          (record_event-Moves c env (phase_completed publish PhaseOutcome.ok) (body v).1 tt)
          (for_each-Accounted tps v all))

  -- A publish phase that starts and ends well has accounted for every target: its receipt or its
  -- delegation was on record before, or its adapter published it and the receipt has been written to
  -- the journal, or its delegation to CI has been written, or it waits for the tag.
  pub publish_phase-Accounted :
      (tps : List TargetPlan) (w : World c)
      → phase_completed_ok w.journal.state publish ≡ false
      → (publish_phase c env tps w).0 ≡ done
      → All (λ tp. Accounted tp (publish_phase c env tps w).1) tps
  unfolding publish_phase run_phase
  publish_phase-Accounted tps w new h = rw new (phase_body-Accounted tps w (rw new at h))
