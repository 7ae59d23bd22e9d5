-- ===== src/Coordinator/Moves/Refine.antt =====
-- Each phase of the coordinator is a sequence of guarded moves
-- (crates/shipshape-core/src/release/coordinator.rs).
use ossctl.Base.{
  ℕ, zero, suc, String, ◌≡◌, refl, Bool, true, false, ◌&&◌, not, Option, none, some, List, [], ◌∷◌,
  Bool-cases, inl, inr, is_some, is_empty,
}
use ossctl.Base.Dict.{contains, contains_key}
use ossctl.Schema.{adapter_as_str, Adapter, homebrew_tap, homebrew_core}
use ossctl.Journal.{
  Phase, EventKind, dry_run, build, bump, publish, dist, phase_completed, phase_entered, failed, ok,
  target_dry_run, target_built, target_published, target_delegated, bump_applied,
}
use ossctl.Journal.Disk.{Codec}
use ossctl.Adapters.{is_ci_delegated}
use ossctl.Coordinator.World.{
  TargetPlan, Env, World, Outcome, done, phase_failed, journal_failed, plan_refused,
  checkout_failed, run_pending, run_failed, panicked, adapter_dry_run, adapter_build,
  adapter_publish, apply_bump, hash_tarball, fetch_assets, target_cleared, record_event, act,
  andthen, fail_phase, needs_post_tag, to_journal_receipt, phase_completed_ok,
}
use ossctl.Coordinator.Phases.{
  Reversible, dry_run_all, build_all, phase_of, for_each, phase_body, run_phase, settle,
  reversible_target, reversible_phase, published, publish_target, publish_phase, bumped, bump_body,
  bump_phase, publish_with_retry, dist_retries, dist_target, post_tag, fetched, fetch_step, hashed,
  hash_step, dist_body, dist_phase,
}
use ossctl.Coordinator.Moves.{Permitted, Move, Moves, Moves-trans, single}

module _ (c : Codec) (env : Env c) where
  pub andthen-Moves :
      {u : World c} (o : Outcome c) (f : World c → Outcome c)
      → Moves c env u o.1
      → ((v : World c) → v ≡ o.1 → Moves c env v (f v).1)
      → Moves c env u (andthen c o f).1
  unfolding andthen
  andthen-Moves (done, w) f m g = Moves-trans c env m (g w refl)
  andthen-Moves (phase_failed p t, w) f m g = m
  andthen-Moves (journal_failed e, w) f m g = m
  andthen-Moves (plan_refused e, w) f m g = m
  andthen-Moves (checkout_failed, w) f m g = m
  andthen-Moves (run_pending t, w) f m g = m
  andthen-Moves (run_failed t, w) f m g = m
  andthen-Moves (panicked, w) f m g = m

  pub record_event-Moves :
      (k : EventKind) (w : World c)
      → Permitted k w.journal.state
      → Moves c env w (record_event c env k w).1
  record_event-Moves k w h = single c env (Move.journals k w h)

  pub fail_phase-Moves :
      (p : Phase) (t : Option String) (w : World c) → Moves c env w (fail_phase c env p t w).1
  unfolding fail_phase
  fail_phase-Moves p t w =
      andthen-Moves (record_event c env (phase_completed p failed) w) (λ v. (phase_failed p t, v))
        (record_event-Moves (phase_completed p failed) w tt) (λ v e. Moves.stop)

  pub for_each-Moves :
      (f : TargetPlan → World c → Outcome c) (tps : List TargetPlan) (w : World c)
      → ((tp : TargetPlan) (v : World c) → Moves c env v (f tp v).1)
      → Moves c env w (for_each c env f tps w).1
  unfolding for_each
  for_each-Moves f [] w h = Moves.stop
  for_each-Moves f (tp ∷ tps) w h =
      andthen-Moves (f tp w) (for_each c env f tps) (h tp w) (λ v e. for_each-Moves f tps v h)

  pub run_phase-Moves :
      (p : Phase) (body : World c → Outcome c) (w : World c)
      → ((v : World c) → Moves c env v (body v).1)
      → Moves c env w (run_phase c env p body w).1
  unfolding run_phase phase_body
  run_phase-Moves p body w h = elim (Bool-cases (phase_completed_ok w.journal.state p)) [
    | inl over ↦ rw over Moves.stop
    | inr open_phase ↦ rw open_phase (
        andthen-Moves (record_event c env (phase_entered p) w) _
          (record_event-Moves (phase_entered p) w tt)
          (λ v e.
            andthen-Moves (body v) (record_event c env (phase_completed p ok)) (h v)
              (λ x e. record_event-Moves (phase_completed p ok) x tt)))
  ]

  settle-Moves :
      (p : Phase) (tp : TargetPlan) (k : EventKind) (b : Bool) (w : World c)
      → Permitted k w.journal.state
      → Moves c env w (settle c env p tp k b w).1
  unfolding settle
  settle-Moves p tp k true w h = record_event-Moves k w h
  settle-Moves p tp k false w h = fail_phase-Moves p (some tp.id) w

  reversible_target-Moves :
      (r : Reversible) (tp : TargetPlan) (w : World c)
      → Moves c env w (reversible_target c env r tp w).1
  unfolding reversible_target
  reversible_target-Moves dry_run_all tp w =
      elim (Bool-cases (target_cleared w.journal.state dry_run tp.id)) [
        | inl h ↦ rw h Moves.stop
        | inr h ↦ rw h (
            Moves.then (Move.acts (adapter_dry_run tp) w h)
              (settle-Moves dry_run tp (target_dry_run tp.id) _ _ tt))
      ]
  reversible_target-Moves build_all tp w =
      elim (Bool-cases (target_cleared w.journal.state build tp.id)) [
        | inl h ↦ rw h Moves.stop
        | inr h ↦ rw h (
            Moves.then (Move.acts (adapter_build tp) w h)
              (settle-Moves build tp (target_built tp.id) _ _ tt))
      ]

  -- The receipt of a publish is journalled where there was none.
  published-Moves :
      (p : Phase) (tp : TargetPlan) (w : World c)
      → contains_key tp.id w.journal.state.published ≡ false
      → is_ci_delegated tp.adapter ≡ false
      → Moves c env w
          (settle c env p tp
            (target_published tp.id (to_journal_receipt (env.receipt tp w.trace)))
            (env.works (adapter_publish tp) w.trace)
            (act c env (adapter_publish tp) w)).1
  published-Moves p tp w new own = Moves.then (Move.acts (adapter_publish tp) w (new, own)) (
      settle-Moves p tp (target_published tp.id (to_journal_receipt (env.receipt tp w.trace))) _ _
        new)

  pub publish_target-Moves :
      (tp : TargetPlan) (w : World c) → Moves c env w (publish_target c env tp w).1
  unfolding publish_target published
  publish_target-Moves tp w = elim (Bool-cases (contains_key tp.id w.journal.state.published)) [
    | inl h ↦ rw h Moves.stop
    | inr new ↦ rw new elim (Bool-cases (needs_post_tag tp.adapter)) [
      | inl h ↦ rw h Moves.stop
      | inr h ↦ rw h elim (Bool-cases (contains tp.id w.journal.state.delegated)) [
        | inl h ↦ rw h Moves.stop
        | inr h ↦ rw h elim (Bool-cases (is_ci_delegated tp.adapter)) [
          | inl h ↦
              rw h (record_event-Moves (target_delegated tp.id (adapter_as_str tp.adapter)) w tt)
          | inr own ↦ rw own (published-Moves publish tp w new own)
        ]
      ]
    ]
  ]

  bumped-Moves : (b : Bool) (w : World c) → Moves c env w (bumped c env b w).1
  unfolding bumped
  bumped-Moves true w = record_event-Moves (bump_applied _ _) w tt
  bumped-Moves false w = fail_phase-Moves bump none w

  none_lem : {A : Type 0} (o : Option A) → is_some o ≡ false → o ≡ none
  none_lem none h = refl
  none_lem (some x) h = cc

  bump_body-Moves : (w : World c) → Moves c env w (bump_body c env w).1
  unfolding bump_body
  bump_body-Moves w = elim (Bool-cases (is_some w.journal.state.bump)) [
    | inl h ↦ rw h Moves.stop
    | inr h ↦ rw h (
        Moves.then (Move.acts apply_bump w (none_lem w.journal.state.bump h))
          (bumped-Moves (env.works apply_bump w.trace) (act c env apply_bump w)))
  ]

  post_tag-own : (a : Adapter) → needs_post_tag a ≡ true → is_ci_delegated a ≡ false
  unfolding needs_post_tag is_ci_delegated
  post_tag-own homebrew_tap h = refl
  post_tag-own homebrew_core h = refl
  post_tag-own _ h = cc

  publish_with_retry-Moves :
      (n : ℕ) (tp : TargetPlan) (w : World c)
      → needs_post_tag tp.adapter ≡ true
      → contains_key tp.id w.journal.state.published ≡ false
      → Moves c env w (publish_with_retry c env n tp w).1
  unfolding publish_with_retry
  publish_with_retry-Moves zero tp w late new =
      published-Moves dist tp w new (post_tag-own tp.adapter late)
  publish_with_retry-Moves (suc n) tp w late new =
      elim (Bool-cases (not (env.works (adapter_publish tp) w.trace) && env.retryable w.trace)) [
        | inl h ↦ rw h (
            Moves.then (Move.acts (adapter_publish tp) w (new, post_tag-own tp.adapter late))
              (publish_with_retry-Moves n tp (act c env (adapter_publish tp) w) late new))
        | inr h ↦ rw h (published-Moves dist tp w new (post_tag-own tp.adapter late))
      ]

  dist_target-Moves :
      (tp : TargetPlan) (w : World c)
      → needs_post_tag tp.adapter ≡ true
      → Moves c env w (dist_target c env tp w).1
  unfolding dist_target
  dist_target-Moves tp w late = elim (Bool-cases (contains_key tp.id w.journal.state.published)) [
    | inl h ↦ rw h Moves.stop
    | inr new ↦ rw new (publish_with_retry-Moves dist_retries tp w late new)
  ]

  dist_each-Moves :
      (tps : List TargetPlan) (w : World c)
      → Moves c env w (for_each c env (dist_target c env) (post_tag tps) w).1
  unfolding for_each post_tag
  dist_each-Moves [] w = Moves.stop
  dist_each-Moves (tp ∷ tps) w = elim (Bool-cases (needs_post_tag tp.adapter)) [
    | inl late ↦ rw late (
        andthen-Moves (dist_target c env tp w) _ (dist_target-Moves tp w late)
          (λ v e. dist_each-Moves tps v))
    | inr h ↦ rw h (dist_each-Moves tps w)
  ]

  fetched-Moves :
      (b : Bool) (tps : List TargetPlan) (w : World c)
      → Moves c env w (fetched c env b (post_tag tps) w).1
  unfolding fetched
  fetched-Moves true tps w = dist_each-Moves tps w
  fetched-Moves false tps w = fail_phase-Moves dist none w

  fetch_step-Moves :
      (b : Bool) (tps : List TargetPlan) (w : World c)
      → Moves c env w (fetch_step c env b (post_tag tps) w).1
  unfolding fetch_step
  fetch_step-Moves true tps w =
      Moves.then (Move.acts fetch_assets w tt)
        (fetched-Moves (env.works fetch_assets w.trace) tps (act c env fetch_assets w))
  fetch_step-Moves false tps w = dist_each-Moves tps w

  hashed-Moves :
      (b formula : Bool) (tps : List TargetPlan) (w : World c)
      → Moves c env w (hashed c env b formula (post_tag tps) w).1
  unfolding hashed
  hashed-Moves true formula tps w = fetch_step-Moves formula tps w
  hashed-Moves false formula tps w = fail_phase-Moves dist none w

  hash_step-Moves :
      (slug formula : Bool) (tps : List TargetPlan) (w : World c)
      → Moves c env w (hash_step c env slug formula (post_tag tps) w).1
  unfolding hash_step
  hash_step-Moves true formula tps w =
      Moves.then (Move.acts hash_tarball w tt)
        (hashed-Moves (env.works hash_tarball w.trace) formula tps (act c env hash_tarball w))
  hash_step-Moves false formula tps w = dist_each-Moves tps w

  dist_body-Moves :
      (slug formula : Bool) (tps : List TargetPlan) (w : World c)
      → Moves c env w (dist_body c env slug formula (post_tag tps) w).1
  unfolding dist_body
  dist_body-Moves slug formula tps w = elim (Bool-cases (is_empty (post_tag tps))) [
    | inl h ↦ rw h Moves.stop
    | inr h ↦ rw h (hash_step-Moves slug formula tps w)
  ]

  pub reversible_phase-Moves :
      (r : Reversible) (tps : List TargetPlan) (w : World c)
      → Moves c env w (reversible_phase c env r tps w).1
  unfolding reversible_phase
  reversible_phase-Moves r tps w =
      run_phase-Moves (phase_of r) (for_each c env (reversible_target c env r) tps) w
        (λ v. for_each-Moves (reversible_target c env r) tps v (reversible_target-Moves r))

  pub publish_phase-Moves :
      (tps : List TargetPlan) (w : World c) → Moves c env w (publish_phase c env tps w).1
  unfolding publish_phase
  publish_phase-Moves tps w =
      run_phase-Moves publish (for_each c env (publish_target c env) tps) w
        (λ v. for_each-Moves (publish_target c env) tps v publish_target-Moves)

  pub bump_phase-Moves : (b : Bool) (w : World c) → Moves c env w (bump_phase c env b w).1
  unfolding bump_phase
  bump_phase-Moves true w = run_phase-Moves bump (bump_body c env) w bump_body-Moves
  bump_phase-Moves false w = Moves.stop

  pub dist_phase-Moves :
      (slug formula : Bool) (tps : List TargetPlan) (w : World c)
      → Moves c env w (dist_phase c env slug formula tps w).1
  unfolding dist_phase
  dist_phase-Moves slug formula tps w =
      run_phase-Moves dist (dist_body c env slug formula (post_tag tps)) w
        (dist_body-Moves slug formula tps)
