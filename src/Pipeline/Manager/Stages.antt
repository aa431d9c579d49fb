-- ===== src/Pipeline/Manager/Stages.antt =====
-- A stage whose jobs complete.
use brazier.Base.{
  Text, ◌==◌, ◌≡◌, refl, sym, ◌∙◌, ap, subst, Bool, false, some, Bool-cases, inl, inr,
}
use brazier.Proto.{PipelineSpec}
use brazier.Db.{NodeState, RunState}
use brazier.Db.Keys.{IsKeyed}
use brazier.Db.Store.{Env}
use brazier.Pipeline.Conditions.{RunContext}
use brazier.Pipeline.Scheduler.{Dispatcher, World, advance}
use brazier.Pipeline.Scheduler.Snapshot.{state_in}
use brazier.Pipeline.Scheduler.Steps.{shown}
use brazier.Pipeline.Scheduler.Refinement.{listed, advance_unread, advance-advance_nodes}
use brazier.Pipeline.Scheduler.Lifecycle.{advance-Moves}
use brazier.Pipeline.Scheduler.Keyed.{advance-IsKeyed}
use brazier.Pipeline.Manager.{put, node_completed}
use brazier.Pipeline.Manager.Completion.{run_state_in, run_state_in-runs}
use brazier.Pipeline.Manager.Open.{put_other, put-IsKeyed, put-runs, node_completed_open}
use brazier.Pipeline.Manager.Waiting.{advance_nodes-runs}

-- The node and the run are running.
pub record IsRunning {S : Type 0} (run_id n : Text) (w : World S) : Type 0 where
  pub keyed : IsKeyed w.store.tables
  pub node : state_in run_id n w.store.tables ≡ some NodeState.running
  pub run : run_state_in run_id w.store.tables ≡ some RunState.running

-- Calls of `Advance`, and of `NodeCompleted` for other nodes, such as the jobs of a stage, with any
-- failures.
pub data Calls {S : Type 0} (run_id n : Text) (spec : PipelineSpec)
    : World S → World S → Type 0 where
  here : {w : World S} → Calls run_id n spec w w
  advanced :
      {v : World S} (env : Env) (d : Dispatcher S) (rc : RunContext) (w : World S)
      → Calls run_id n spec (advance env d run_id rc spec w) v
      → Calls run_id n spec w v
  completed :
      {v : World S} (env : Env) (node_id : Text) (success : Bool) (w : World S)
      → (node_id == n) ≡ false
      → Calls run_id n spec (node_completed env run_id node_id success w).1 v
      → Calls run_id n spec w v

module _ {S : Type 0} (run_id n : Text) where
  advance-runs :
      (env : Env) (d : Dispatcher S) (rc : RunContext) (spec : PipelineSpec) (w : World S)
      → IsKeyed w.store.tables
      → (advance env d run_id rc spec w).store.tables.runs ≡ w.store.tables.runs
  advance-runs env d rc spec w keyed = elim (Bool-cases (env.fails w.store.calls)) [
    | inl lost ↦ rw (advance_unread env d run_id rc spec w lost) refl
    | inr read ↦
        ap (λ (v : World S). v.store.tables.runs)
          (advance-advance_nodes env d run_id rc spec w keyed read)
        ∙ advance_nodes-runs env d run_id rc (λ i. shown env d run_id run_id i w) spec.nodes
            (listed w)
  ]

  advance-IsRunning :
      (env : Env) (d : Dispatcher S) (rc : RunContext) (spec : PipelineSpec) (w : World S)
      → IsRunning run_id n w
      → IsRunning run_id n (advance env d run_id rc spec w)
  advance-IsRunning env d rc spec w h = record {
    keyed = advance-IsKeyed env d run_id rc spec w h.keyed;
    node = elim (advance-Moves env d run_id rc spec w run_id n h.keyed) [
      | inl same ↦ same ∙ h.node
      | inr (pending, _) ↦ let running = h.node in cc
    ];
    run = run_state_in-runs run_id _ w.store.tables (advance-runs env d rc spec w h.keyed) ∙ h.run;
  }

  put-IsRunning :
      (env : Env) (node_id : Text) (state : NodeState) (v w : World S)
      → node_id == n ≡ false
      → v.store.tables ≡ (put env run_id node_id state w).1.store.tables
      → IsRunning run_id n w
      → IsRunning run_id n v
  put-IsRunning env node_id state v w other e h = record {
    keyed = subst IsKeyed (sym e) (put-IsKeyed run_id env node_id state w h.keyed);
    node = ap (state_in run_id n) e ∙ put_other run_id env node_id n state w other ∙ h.node;
    run =
        ap (run_state_in run_id) e
        ∙ run_state_in-runs run_id _ w.store.tables (put-runs run_id env node_id state w)
        ∙ h.run;
  }

  -- Where a node and its run are running and the primary keys are unique, no calls of `Advance`
  -- and of `NodeCompleted` for other ids, as those of its jobs where the node is a stage, end
  -- either, whatever fails.
  pub Calls-IsRunning :
      (spec : PipelineSpec) (w v : World S)
      → IsRunning run_id n w
      → Calls run_id n spec w v
      → IsRunning run_id n v
  Calls-IsRunning spec w _ h here = h
  Calls-IsRunning spec w v h (advanced env d rc _ rest) =
      Calls-IsRunning spec _ v (advance-IsRunning env d rc spec w h) rest
  Calls-IsRunning spec w v h (completed env node_id success _ other rest) =
      Calls-IsRunning spec _ v
        (put-IsRunning env node_id _ _ w other
          (node_completed_open run_id n NodeState.running env node_id success w other h.node refl)
          h)
        rest
