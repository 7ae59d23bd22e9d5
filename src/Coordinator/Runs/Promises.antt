-- ===== src/Coordinator/Runs/Promises.antt =====
-- What the coordinator promises over a cut and its resumes
-- (crates/shipshape-core/src/release/coordinator.rs).
use ossctl.Base.{String, ◌≡◌, true, List, some}
use ossctl.Base.Dict.{lookup, contains_key}
use ossctl.Journal.{PublishReceipt}
use ossctl.Journal.Disk.{Codec}
use ossctl.Coordinator.World.{Env, World}
use ossctl.Coordinator.Moves.Safety.{
  publishes, Moves-publishes, Moves-published, Exclusive, Moves-Exclusive,
}
use ossctl.Coordinator.Moves.Durable.{Durable, Moves-Durable}
use ossctl.Coordinator.Runs.{Call, run_calls, run_calls-Moves}

module _ (c : Codec) (env : Env c) where
  -- A target whose receipt is in the journal is never given to its adapter to publish again, whatever
  -- phases are called, in whichever order and however often, and however the world answers.
  pub publish_once :
      (id : String) (xs : List Call) (w : World c)
      → contains_key id w.journal.state.published ≡ true
      → publishes id (run_calls c env xs w).trace ≡ publishes id w.trace
  publish_once id xs w h = Moves-publishes c env id h (run_calls-Moves c env xs w)

  -- A receipt, once in the journal, is never replaced by a later one, whatever phases are called.
  pub receipt_kept :
      (id : String) (r : PublishReceipt) (xs : List Call) (w : World c)
      → lookup id w.journal.state.published ≡ some r
      → lookup id (run_calls c env xs w).journal.state.published ≡ some r
  receipt_kept id r xs w h = Moves-published c env id r h (run_calls-Moves c env xs w)

  -- The two ways to a release exclude each other: no phases bring a tag to have both a release that
  -- the engine created and one that was delegated to CI, if no tag had both before.
  pub one_disposition :
      (xs : List Call) (w : World c)
      → Exclusive w.journal.state
      → Exclusive (run_calls c env xs w).journal.state
  one_disposition xs w h = Moves-Exclusive c env h (run_calls-Moves c env xs w)

  -- After any phases, the run's log on disk parses, in order, and reduces to the state that the
  -- coordinator holds, unless the 64-bit event counter is used up, if it was so before.
  pub run_calls-Durable :
      (xs : List Call) (w : World c) → Durable c env w → Durable c env (run_calls c env xs w)
  run_calls-Durable xs w = Moves-Durable c env (run_calls-Moves c env xs w)
