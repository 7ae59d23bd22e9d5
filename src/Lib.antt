-- ===== src/Lib.antt =====
-- The release engine of shipshape (the repository ossctl): the planner, the durable journal of a
-- release run, the reconcile that a resume makes against the registries, and the coordinator that cuts
-- a release; and the check of license expressions.
--
-- The parts and how they interact. The planner (release/plan.rs) makes a plan of the contract and of
-- the facts of the repository, and seals it under an id. A sealed plan names targets, each an
-- ecosystem, a package, a registry and an adapter. The coordinator (crates/shipshape-core/src/release/coordinator.rs) walks
-- the phases bump, dry run, build, publish, tag, dist, verify and advance branch over those targets.
-- Each fact is appended to the journal (release/journal.rs) before the coordinator goes on; the state
-- of a run is nothing but its events reduced. When a run was interrupted, the resume
-- (release/resume.rs, release/reconcile.rs) crosses the journal's state with what the adapters'
-- verify observes and says what to do with each target, and the phases are called again.
--
-- The files, by the code that they are about (paths below crates/shipshape-core/src):
--   Base           names and lemmas that all share; Base/Dict for BTreeMap and BTreeSet, Base/Sort for
--                  sort_by_key, Base/SortBy for sort_by and dedup_by, Base/Members for membership,
--                  Base/Text for texts and Base/Tests for the Boolean tests
--   Schema         contract/schema.rs: the closed enums, as_str, parse, default_registry,
--                  default_adapter; Schema/Wire for their round trips
--   Journal        protocol/journal.rs: Phase, EventKind, JournalEvent, RunState; Journal/Key for
--                  idempotency_key
--   Journal/Reduce release/journal.rs: apply, reduce, upsert_phase; its children prove what holds of
--                  reduced states (Invariant, Facts), of replays (Replay) and of growth (Kept)
--   Journal/Disk   ports.rs: JournalStore as a disk with journals, manifests and the lock
--   Journal/Handle release/journal.rs: read_events, read_run_state, load_state, Journal::create, open
--                  and append; Lines and Recovery for the log on disk against the state in memory
--   Plan           protocol/plan.rs: the sealed plan; Plan/TargetIds for release/target_id.rs;
--                  Plan/Inputs for the fields of contract/schema.rs and protocol/facts.rs that the
--                  planner reads; Plan/Order for topo_order_members of release/plan.rs, with its
--                  proofs below it: Complete, Independent and DepsFirst, which rests on Counts (the pending counts),
--                  Progress, Ordered and Waiting
--   Plan/Targets   release/plan.rs: resolve_targets, expand_rust_workspace_members and
--                  dependency_closure_order; Closure, with Unseen for its rounds, and PublishSet for
--                  what a publish set holds, Superset, with Splice, for what an expansion keeps and
--                  adds
--   Plan/Versions  release/plan.rs: resolve_release_version; Rows, Classified and Agreement for its
--                  verdict
--   Plan/Pins      release/plan.rs: exact_pin_count and derive_pin_rewrites; Counted and Complete
--   Plan/Edits     release/plan.rs: derive_bump_plan, the edits that a bump seals
--   Plan/Conflicts release/plan.rs: delegated_dependency_conflicts; Found for what it reports
--   Plan/Build     release/plan.rs: build, build_with_bump, compute_plan_id and verify (verify_plan
--                  here); Sealed for plans with a bump, Drift and Reasons for stale plans
--   Adapters       release/adapters: the capabilities of the adapters, classify_receipt,
--                  verify_via_registry
--   Resume         release/resume.rs: classify, publish_phase_reached, reconcile_for_resume, and the
--                  receipts' part of release/reconcile.rs; Safety, Adoption and Doubt for the proofs
--   Coordinator    release/coordinator.rs. World has the state that the phases act on, record and
--                  fail_phase; Phases has bump_phase, reversible_phase, publish_phase and dist_phase;
--                  Tagging has tag_phase, github_release_step and advance_branch_phase. Moves is an
--                  abstract machine of guarded moves, Moves/Refine and Moves/Tagged prove that the
--                  phases implement it, and Moves/Safety, Durable and Account prove what moves keep.
--                  Runs calls phases in any order and any number of times, as a cut and its resumes
--                  do, and Runs/Promises has what that keeps
--   Coordinator/Resolve has resolve_target_plans and validate_plan, and what the ids of a plan promise
--   Coordinator/Verify has verify_phase: Window the wait for delegated workflow runs, Refine the
--                  moves that it makes, Shown, Sighting and Evidence what an observed match is, Loop and
--                  Confirm what a completed phase promises, AfterFailure the observation after a
--                  failed dist, Sleeps and Bounds how often it sleeps
--   Coordinator/Execute has execute, with the checkout of the sealed commit and dist_then_verify;
--                  Refine and Verified for the proofs
--   Bump           release/bump.rs: bump_version and the strict parser of versions, over bytes;
--                  Decimal for numbers and Version for versions
--   License        contract/spdx.rs: spdx_valid and its parser; Grammar for the grammar and what the
--                  parser takes, Complete for the rest
--   Tests modules  the theorems at small concrete inputs
--
-- How the state corresponds. RunState, the events and the plan have the fields of the structs. A map
-- is an association list in the order of insertion; the code modelled looks keys up, but for the
-- pins, whose maps are walked in the order of the list, which is that of the keys in the code. A file is kept by the run that it belongs to,
-- so the path functions are left out. The JSON text is a parameter, the record Codec: lines and bytes
-- with encode and decode, of which the laws say that what was written reads back, that a written line
-- is not blank and shows its schema version. The world outside is the record Env: it answers each
-- question (an adapter's dry run, build or publish, the tagger, a download, the clock, the writes of
-- an append) as it likes, given the whole history up to then, so a theorem over all Env is about
-- every failure and every interleaving of failures with phases. A trace keeps the questions with their
-- answers and the journalled events with their success.
--
-- Numbers. The sequence number of an event is a u64 and is computed modulo 2^64; theorems about the
-- log assume that the counter has room, or say what holds once it has none. The retries of the dist
-- phase are recursion on the attempts left, two after the first, as DIST_PUBLISH_ATTEMPTS says. A
-- u64 is printed with nineteen divisions by ten, which twenty digits need; the proofs show that they
-- are enough. The window of the verify phase, 1200 seconds polled every 15, is recursion on the sleeps
-- left, 82 at the start, two more than the clock of the code allows; the clock is asked all the same.
-- The publish order has one round for each member, as the loop's guard says. The closure of a publish
-- set has a round for each declared crate and for each dependency of a member, which are enough since
-- a member's dependencies are pushed once only; so is the walk of the
-- conflicts. The license parser has two rounds for each token and one more, which its proof shows to
-- be enough. All other
-- loops are over lists.
--
-- What workflow runs, destinations, registries, the verify of receipts and the clock say is an answer
-- of Env. The panic of an expect is an end of the run like an error. Progress lines, the texts of
-- errors and the list of assets that build hands to publish are left out.
--
-- An append that fails is modelled as one that wrote no line. The store's append_line can also fail
-- after it wrote the line, when the fsync that follows fails; the log then has an event that the state
-- in memory lacks, and the theorems on an append's own handle are not about that case; what the next
-- process finds then is stated for the written line.
--
-- The planner's JSON text and its SHA-256 digest are parameters, to_vec and hex; theorems that need
-- different plans to have different ids say for which two sealed inputs. The fields of the contract
-- that the planner seals without reading are one text, others. Sorts are stable insertion sorts, which
-- give what sort_unstable_by gives where equal keys mean equal items.
--
-- Not modelled: the plan store, the edits that a version bump makes, preflight, the audit, the
-- gathering of facts, the contract's normalizer, the dist files, the command lines that adapters run,
-- reads of the store that fail, and the command line program. In a resume, what verify of an adapter
-- observes is a function that the theorems quantify over.
pub mod Base
pub mod Schema
pub mod Journal
pub mod Plan
pub mod Adapters
pub mod Resume
pub mod Coordinator
pub mod Bump
pub mod License
