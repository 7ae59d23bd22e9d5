-- ===== src/Coordinator/Verify/Sighting.antt =====
-- What the destinations' answers rest on: a match is an answer that the destination gave
-- (crates/shipshape-core/src/release/coordinator.rs, `verify_delegated_destinations`).
use mathlib.Core.List.{Memᴰ}
use mathlib.Core.Path.{subst}
use ossctl.Base.{
  ℕ, zero, suc, ◌==◌, String, ◌≡◌, refl, sym, ◌⊎◌, inl, inr, Bool, true, false, ◌||◌, some, List,
  [], ◌∷◌, Bool-cases, All, is_empty, fold, str_eq, eq_iff,
}
use ossctl.Base.Dict.{Dict, lookup, lookup-insert, contains}
use ossctl.Plan.{ReleasePlan}
use ossctl.Journal.{VerifyOutcome, matches}
use ossctl.Journal.Disk.{Codec}
use ossctl.Coordinator.World.{TargetPlan, Env, World, Step, is_match}
use ossctl.Coordinator.Moves.{Moves, Moves-trans}
use ossctl.Coordinator.Verify.Window.{remaining, sleep_once}
use ossctl.Coordinator.Verify.{
  DestinationState, destination_of, all_settled, destination_states, put_outcome, observe_at,
  observe_once, observe_open, sweep_destinations, destination_rounds, collect,
  verify_delegated_destinations,
}
use ossctl.Coordinator.Verify.Refine.{
  Quiet, observe_at-Quiet, observe_open-Quiet, sweep_destinations-Quiet, sleep_once-Quiet,
}
use ossctl.Coordinator.Verify.Shown.{
  Earlier, Earlier-trans, Earlier-Moves, Shown, observe_at-Shown, observe_at-target,
  observe_at-asked, asked_at,
}

-- An outcome among those collected is the outcome of a state with that id.
collected :
    (id : String) (d : Dict VerifyOutcome) (ss : List DestinationState) (o : VerifyOutcome)
    → lookup id (fold put_outcome d ss) ≡ some o
    → (lookup id d ≡ some o)
      ⊎ ((s : DestinationState) × Memᴰ s ss × (s.target.id ≡ id) × (s.outcome ≡ o))
collected id d [] o h = inl h
collected id d (s ∷ ss) o h = elim (collected id (put_outcome d s) ss o h) [
  | inr (x, m, e, q) ↦ inr (x, Memᴰ.tail m, e, q)
  | inl before ↦ elim (Bool-cases (str_eq s.target.id id)) [
    | inl alike ↦
        let got : some s.outcome ≡ some o = rw (lookup-insert, alike) at before in
        inr (s, Memᴰ.head refl, (eq_iff s.target.id id).0 alike, cc)
    | inr other ↦ inl (rw (lookup-insert, other) at before)
  ]
]

nothing_collected : (id : String) → lookup {V = VerifyOutcome} id [] ≡ some matches → ⊥
unfolding lookup
nothing_collected id h = cc

All-Memᴰ {κ} : {A : Type 0} (P : A → Type κ) (xs : List A) (x : A) → All P xs → Memᴰ x xs → P x
All-Memᴰ P [] x a m = elim m [ ]
All-Memᴰ P (y ∷ xs) x a (Memᴰ.head e) = subst P (sym e) a.0
All-Memᴰ P (y ∷ xs) x a (Memᴰ.tail m) = All-Memᴰ P xs x a.1 m

module _ (c : Codec) (env : Env c) (plan : ReleasePlan) (tps : List TargetPlan) (u : World c) where
  -- Since the world `u`, the destination of a delegated target was asked and has shown it.
  pub record Sighting (tp : TargetPlan) (t : List Step) : Type 0 where
    pub seen : World c
    pub since : Moves c env u seen
    pub until : Earlier (asked_at c env plan tp seen.trace) t
    pub delegated : contains tp.id seen.journal.state.delegated ≡ true
    pub shown : Shown c env plan (destination_of tp) tp seen.trace

  -- What holds of a state in the loop over the destinations.
  record Tracked (w : World c) (s : DestinationState) : Type 0 where
    listed : Memᴰ s.target tps
    delegated : contains s.target.id w.journal.state.delegated ≡ true
    grounded : s.outcome ≡ matches → Sighting s.target w.trace

  Sighting-later : (tp : TargetPlan) {v w : List Step} → Earlier v w → Sighting tp v → Sighting tp w
  Sighting-later tp l s = record {
    seen = s.seen;
    since = s.since;
    until = Earlier-trans s.until l;
    delegated = s.delegated;
    shown = s.shown;
  }

  Tracked-later :
      {v w : World c} (s : DestinationState) → Quiet c env v w → Tracked v s → Tracked w s
  Tracked-later s q t = record {
    listed = t.listed;
    delegated = rw q.1 t.delegated;
    grounded = λ h. Sighting-later s.target (Earlier-Moves c env q.0) (t.grounded h);
  }

  All-Tracked_later :
      {v w : World c} (ss : List DestinationState)
      → Quiet c env v w
      → All (Tracked v) ss
      → All (Tracked w) ss
  All-Tracked_later [] q a = tt
  All-Tracked_later (s ∷ ss) q a = (Tracked-later s q a.0, All-Tracked_later ss q a.1)

  observe_once-Tracked :
      (s : DestinationState) (w : World c)
      → Moves c env u w
      → Tracked w s
      → Tracked (observe_once c env plan s w).1 (observe_once c env plan s w).0
  unfolding observe_once
  observe_once-Tracked s w m t =
      let d = destination_of s.target in
      let e : (observe_at c env plan d s w).0.target ≡ s.target =
        observe_at-target c env plan d s w in
      let q : Quiet c env w (observe_at c env plan d s w).1 = observe_at-Quiet c env plan d s w in
      record {
        listed = rw e t.listed;
        delegated = rw e (rw q.1 t.delegated);
        grounded = λ h. rw e (record {
          seen = w;
          since = m;
          until = observe_at-asked c env plan d s w h;
          delegated = t.delegated;
          shown = observe_at-Shown c env plan d s w h;
        });
      }

  observe_open-Tracked :
      (b : Bool) (s : DestinationState) (w : World c)
      → Moves c env u w
      → Tracked w s
      → Tracked (observe_open c env plan b s w).1 (observe_open c env plan b s w).0
  unfolding observe_open
  observe_open-Tracked true s w m t = t
  observe_open-Tracked false s w m t = observe_once-Tracked s w m t

  sweep_destinations-Tracked :
      (ss : List DestinationState) (w : World c)
      → Moves c env u w
      → All (Tracked w) ss
      → All (Tracked (sweep_destinations c env plan ss w).1) (sweep_destinations c env plan ss w).0
  unfolding sweep_destinations
  sweep_destinations-Tracked [] w m a = tt
  sweep_destinations-Tracked (s ∷ ss) w m a =
      let v : World c = (observe_open c env plan s.settled s w).1 in
      let q : Quiet c env w v = observe_open-Quiet c env plan s.settled s w in
      (
        Tracked-later (observe_open c env plan s.settled s w).0
            (sweep_destinations-Quiet c env plan ss v) (observe_open-Tracked s.settled s w m a.0),
        sweep_destinations-Tracked ss v (Moves-trans c env m q.0) (All-Tracked_later ss q a.1),
      )

  -- The states at the end of the rounds, in the world at their end.
  abbrev AllTracked : List DestinationState × World c → Type 0
  AllTracked r = All (Tracked r.1) r.0

  destination_rounds-Tracked :
      (left start : ℕ) (ss : List DestinationState) (w : World c)
      → Moves c env u w
      → All (Tracked w) ss
      → AllTracked (destination_rounds c env plan left start ss w)
  unfolding destination_rounds
  destination_rounds-Tracked zero start ss w m a = sweep_destinations-Tracked ss w m a
  destination_rounds-Tracked (suc left) start ss w m a =
      let v : World c = (sweep_destinations c env plan ss w).1 in
      let ts : List DestinationState = (sweep_destinations c env plan ss w).0 in
      let swept : All (Tracked v) ts = sweep_destinations-Tracked ss w m a in
      let q : Quiet c env v (sleep_once c env start v) = sleep_once-Quiet c env start v in
      elim (all_settled ts || remaining c env start v == 0)
        as (λ b. AllTracked (elim b as (λ z. List DestinationState × World c) [
          | true ↦ (ts, v)
          | false ↦ destination_rounds c env plan left start ts (sleep_once c env start v)
        ])) [
          | true ↦ swept
          | false ↦
              destination_rounds-Tracked left start ts (sleep_once c env start v)
                (Moves-trans c env m
                  (Moves-trans c env (sweep_destinations-Quiet c env plan ss w).0 q.0))
                (All-Tracked_later ts q swept)
        ]

  destination_states-Tracked :
      (w : World c) (ts : List TargetPlan)
      → ((tp : TargetPlan) → Memᴰ tp ts → Memᴰ tp tps)
      → All (Tracked w) (destination_states w.journal.state ts)
  unfolding destination_states
  destination_states-Tracked w [] sub = tt
  destination_states-Tracked w (tp ∷ ts) sub =
      let rest = destination_states-Tracked w ts (λ x m. sub x (Memᴰ.tail m)) in
      elim (Bool-cases (contains tp.id w.journal.state.delegated)) [
        | inr is_out ↦ rw is_out rest
        | inl is_in ↦ elim (Bool-cases (is_match (lookup tp.id w.journal.state.verified))) [
          | inl old ↦ rw (is_in, old) rest
          | inr new ↦
              rw (is_in, new)
                (
                  record {
                    listed = sub tp (Memᴰ.head refl);
                    delegated = is_in;
                    grounded = λ h. cc h;
                  },
                  rest,
                )
        ]
      ]

  -- What a match among the destinations' outcomes rests on.
  pub record Grounds (id : String) (t : List Step) : Type 0 where
    pub target : TargetPlan
    pub listed : Memᴰ target tps
    pub same_id : target.id ≡ id
    pub sighting : Sighting target t

  pub Grounds-later : {v w : List Step} (id : String) → Earlier v w → Grounds id v → Grounds id w
  Grounds-later id l g = record {
    target = g.target;
    listed = g.listed;
    same_id = g.same_id;
    sighting = Sighting-later g.target l g.sighting;
  }

  collect-Grounds :
      (r : List DestinationState × World c) (id : String)
      → AllTracked r
      → lookup id (collect c env plan r).0 ≡ some matches
      → Grounds id (collect c env plan r).1.trace
  collect-Grounds (ss, w) id a h = elim (collected id [] ss matches h) [
    | inl e ↦ absurd (nothing_collected id e)
    | inr (s, m, e, q) ↦
        let t : Tracked w s = All-Memᴰ (Tracked w) ss s a m in
        record { target = s.target; listed = t.listed; same_id = e; sighting = t.grounded q }
  ]

  pub verify_delegated_destinations-Grounds :
      (left start : ℕ) (w : World c) (id : String)
      → Moves c env u w
      → lookup id (verify_delegated_destinations c env plan left start tps w).0 ≡ some matches
      → Grounds id (verify_delegated_destinations c env plan left start tps w).1.trace
  unfolding verify_delegated_destinations
  verify_delegated_destinations-Grounds left start w id m h =
      let ss = destination_states w.journal.state tps in
      elim (Bool-cases (is_empty ss)) [
        | inl none_left ↦ absurd (nothing_collected id (rw none_left at h))
        | inr some_left ↦ rw some_left (
            collect-Grounds (destination_rounds c env plan left start ss w) id
              (destination_rounds-Tracked left start ss w m
                (destination_states-Tracked w tps (λ tp x. x)))
              (rw some_left at h))
      ]
