-- ===== src/Resume/Safety.antt =====
-- What a resume never does, and what an adoption achieves
-- (crates/shipshape-core/src/release/resume.rs, `reconcile_for_resume`).
use mathlib.Core.List.{Memᴰ}
use mathlib.Core.Path.{subst}
use ossctl.Base.{
  String, ◌≡◌, refl, sym, Bool, true, false, ◌||◌, Option, none, some, List, [], ◌∷◌, arith,
  Bool-cases, inl, inr, ◌⊎◌,
}
use ossctl.Base.Dict.{contains, contains_key}
use ossctl.Journal.{VerifyOutcome, RunState, matches, conflicts, missing, unknown}
use ossctl.Plan.{PlanTarget, ReleasePlan}
use ossctl.Plan.TargetIds.{journal_target_ids}
use ossctl.Adapters.{AdapterReceipt, is_ci_delegated}
use ossctl.Resume.{
  TargetDecision, classify, published, not_recorded, cancelled, delegated, resume_publish,
  stop_cancelled, leave_delegated, publish_phase_reached, decide, decide_all, classified, decision,
  reconcile_for_resume, verify_not_recorded,
}

module _ (verify : AdapterReceipt → VerifyOutcome) (state : RunState) (plan : ReleasePlan)
    (allow : Bool) where
  -- A target of the plan and its id, at the same place of their lists.
  pub data Listed (t : PlanTarget) (id : String) : List PlanTarget → List String → Type 0 where
    here : {ts : List PlanTarget} {ids : List String} → Listed t id (t ∷ ts) (id ∷ ids)
    there :
        {u : PlanTarget} {ts : List PlanTarget} {i : String} {ids : List String}
        → Listed t id ts ids
        → Listed t id (u ∷ ts) (i ∷ ids)

  -- What the adapter answers for the plan's version of a target; without a name it is not asked.
  abbrev pub Answers : PlanTarget → Option String → VerifyOutcome → Type 0
  Answers t none o = o ≡ unknown
  Answers t (some name) o =
      o
      ≡ verify (record {
        adapter = t.adapter;
        ecosystem = t.ecosystem;
        package_name = name;
        version = plan.version;
        digest = none;
        remote_url = none;
      })

  -- The facts under which a target may be published again.
  pub record MayPublish (d : TargetDecision) : Type 0 where
    pub planned : PlanTarget
    pub listed : Listed planned d.target plan.targets (journal_target_ids plan.targets)
    pub not_ci : is_ci_delegated planned.adapter ≡ false
    pub asked : Answers planned planned.package_name d.outcome
    pub not_published : contains_key d.target state.published ≡ false
    pub not_cancelled : contains_key d.target state.cancelled ≡ false
    pub not_delegated : contains d.target state.delegated ≡ false
    -- the answer was no, or there was none
    pub not_there : (d.outcome ≡ missing) ⊎ (d.outcome ≡ unknown)
    -- once the publish phase was reached and without the go-ahead, only a clear no will do
    pub clear : allow ≡ false → publish_phase_reached state ≡ true → d.outcome ≡ missing

  not_there_lem :
      (o : VerifyOutcome) (a r : Bool)
      → classify not_recorded o a r ≡ resume_publish
      → ((o ≡ missing) ⊎ (o ≡ unknown)) × (a ≡ false → r ≡ true → o ≡ missing)
  unfolding classify
  not_there_lem matches a r h = cc
  not_there_lem conflicts a r h = cc
  not_there_lem missing a r h = (inl refl, λ x y. refl)
  not_there_lem unknown true r h = (inr refl, λ x y. cc)
  not_there_lem unknown false true h = cc
  not_there_lem unknown false false h = (inr refl, λ x y. cc)

  published_lem : (o : VerifyOutcome) (a r : Bool) → classify published o a r ≡ resume_publish → ⊥
  unfolding classify
  published_lem matches a r h = cc
  published_lem conflicts a r h = cc
  published_lem missing a r h = cc
  published_lem unknown true r h = cc
  published_lem unknown false r h = cc

  -- The ways in which a target is decided.
  decide-property {κ} :
      (P : TargetDecision → Type κ) (t : PlanTarget) (id : String)
      → (contains_key id state.cancelled ≡ true
          → P (decision verify state plan allow t id cancelled unknown stop_cancelled))
      → P (decision verify state plan allow t id delegated unknown leave_delegated)
      → (contains_key id state.published ≡ true
          → (o : VerifyOutcome) → P (classified verify state plan allow t id published o))
      → (contains_key id state.cancelled ≡ false
          → contains id state.delegated ≡ false
          → is_ci_delegated t.adapter ≡ false
          → contains_key id state.published ≡ false
          → P (
              classified verify state plan allow t id not_recorded
                (verify_not_recorded verify t plan.version t.package_name)))
      → P (decide verify state plan allow t id)
  unfolding decide
  decide-property P t id p q r s = elim (Bool-cases (contains_key id state.cancelled)) [
    | inl c ↦ rw c (p c)
    | inr c ↦ rw c elim (Bool-cases (contains id state.delegated || is_ci_delegated t.adapter)) [
      | inl d ↦ rw d q
      | inr d ↦ rw d elim (Bool-cases (contains_key id state.published)) [
        | inl e ↦ rw e (r e _)
        | inr e ↦ rw e (s c (ground arith) (ground arith) e)
      ]
    ]
  ]

  verify_not_recorded-Answers :
      (t : PlanTarget) (name : Option String)
      → Answers t name (verify_not_recorded verify t plan.version name)
  unfolding verify_not_recorded
  verify_not_recorded-Answers t none = refl
  verify_not_recorded-Answers t (some name) = refl

  decide-MayPublish :
      (t : PlanTarget) (id : String)
      → Listed t id plan.targets (journal_target_ids plan.targets)
      → (decide verify state plan allow t id).action ≡ resume_publish
      → MayPublish (decide verify state plan allow t id)
  decide-MayPublish t id at =
      decide-property (λ d. d.action ≡ resume_publish → MayPublish d) t id (λ c h. cc) (λ h. cc)
        (λ p o h.
          absurd (published_lem o allow (publish_phase_reached state) (unfold classified in h)))
        (λ c d ci p h.
          let (not_there, clear) =
            not_there_lem (verify_not_recorded verify t plan.version t.package_name) allow
              (publish_phase_reached state) (unfold classified in h) in
          unfold classified in
          record {
            planned = t;
            listed = at;
            not_ci = ci;
            asked = verify_not_recorded-Answers t t.package_name;
            not_published = p;
            not_cancelled = c;
            not_delegated = d;
            not_there = not_there;
            clear = clear;
          })

  decide_all-Listed :
      (ts : List PlanTarget) (ids : List String) (d : TargetDecision)
      → Memᴰ d (decide_all verify state plan allow ts ids)
      → (t : PlanTarget) × (id : String) × Listed t id ts ids
        × (d ≡ decide verify state plan allow t id)
  unfolding decide_all
  decide_all-Listed [] ids d m = elim m [ ]
  decide_all-Listed (t ∷ ts) [] d m = elim m [ ]
  decide_all-Listed (t ∷ ts) (id ∷ ids) d (Memᴰ.head p) = (t, id, Listed.here, p)
  decide_all-Listed (t ∷ ts) (id ∷ ids) d (Memᴰ.tail m) =
      let (u, i, at, e) = decide_all-Listed ts ids d m in (u, i, Listed.there at, e)

  -- A resume publishes a target only if it is the decision for a target of the plan, under that
  -- target's id, whose adapter does not leave the publish to CI; the journal holds no receipt for it
  -- and records it neither as cancelled nor as delegated; and the adapter's check of that target at the
  -- plan's version answers that it is missing or is unknown (which it is for a target without a
  -- package name); once the publish phase was reached and without the operator's go-ahead, only if the
  -- answer is missing.
  pub reconcile_for_resume-MayPublish :
      (d : TargetDecision)
      → Memᴰ d (reconcile_for_resume verify state plan allow)
      → d.action ≡ resume_publish
      → MayPublish d
  unfolding reconcile_for_resume
  reconcile_for_resume-MayPublish d m h =
      let (t, id, at, e) = decide_all-Listed plan.targets (journal_target_ids plan.targets) d m in
      subst MayPublish (sym e) (decide-MayPublish t id at (rw e at h))
