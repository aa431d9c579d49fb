-- ===== src/Pipeline/Manager/Blocked.antt =====
-- A run in which a node waits for one that has failed.
use brazier.Base.{
  Text, ◌==◌, ◌≡◌, refl, sym, ◌∙◌, ap, subst, Bool, false, some, Bool-cases, inl, inr,
}
use brazier.Proto.{PipelineSpec}
use brazier.Db.{NodeState, RunState}
use brazier.Db.Keys.{IsKeyed}
use brazier.Db.Store.{Env}
use brazier.Pipeline.Conditions.{RunContext}
use brazier.Pipeline.Scheduler.{Dispatcher, World, advance}
use brazier.Pipeline.Scheduler.Snapshot.{state_in}
use brazier.Pipeline.Scheduler.Steps.{shown}
use brazier.Pipeline.Scheduler.Refinement.{listed, advance_unread, advance-advance_nodes}
use brazier.Pipeline.Scheduler.Lifecycle.{advance-Moves}
use brazier.Pipeline.Scheduler.Keyed.{advance-IsKeyed}
use brazier.Pipeline.Manager.{put, node_completed}
use brazier.Pipeline.Manager.Completion.{run_state_in, run_state_in-runs}
use brazier.Pipeline.Manager.Open.{put_other, put-IsKeyed, put-runs, node_completed_open}
use brazier.Pipeline.Manager.Waiting.{Waits, advance_nodes_waiting, advance_nodes-runs}

-- The node `f` has failed, and `n` is pending; the run goes on.
pub record IsBlocked {S : Type 0} (run_id f n : Text) (w : World S) : Type 0 where
  pub keyed : IsKeyed w.store.tables
  pub failed : state_in run_id f w.store.tables ≡ some NodeState.failed
  pub waiting : state_in run_id n w.store.tables ≡ some NodeState.pending
  pub unfinished : run_state_in run_id w.store.tables ≡ some RunState.running

-- A call of `Advance`, or the completion of another node, with any failures.
pub data Step {S : Type 0} (run_id f n : Text) (spec : PipelineSpec)
    : World S → World S → Type 0 where
  advanced :
      (env : Env) (d : Dispatcher S) (rc : RunContext) (w : World S)
      → Step run_id f n spec w (advance env d run_id rc spec w)
  completed :
      (env : Env) (node_id : Text) (success : Bool) (w : World S)
      → (node_id == f) ≡ false
      → (node_id == n) ≡ false
      → Step run_id f n spec w (node_completed env run_id node_id success w).1

pub data Steps {S : Type 0} (run_id f n : Text) (spec : PipelineSpec)
    : World S → World S → Type 0 where
  here : {w : World S} → Steps run_id f n spec w w
  later :
      {u v w : World S}
      → Step run_id f n spec u v
      → Steps run_id f n spec v w
      → Steps run_id f n spec u w

module _ {S : Type 0} (run_id f n : Text) (spec : PipelineSpec) (waits : Waits f n spec.nodes) where
  failed_stays :
      (env : Env) (d : Dispatcher S) (rc : RunContext) (w : World S)
      → IsBlocked run_id f n w
      → state_in run_id f (advance env d run_id rc spec w).store.tables ≡ some NodeState.failed
  failed_stays env d rc w b = elim (advance-Moves env d run_id rc spec w run_id f b.keyed) [
    | inl same ↦ same ∙ b.failed
    | inr (pending, _) ↦ let failed = b.failed in cc
  ]

  advance-IsBlocked :
      (env : Env) (d : Dispatcher S) (rc : RunContext) (w : World S)
      → IsBlocked run_id f n w
      → IsBlocked run_id f n (advance env d run_id rc spec w)
  advance-IsBlocked env d rc w b = elim (Bool-cases (env.fails w.store.calls)) [
    | inl lost ↦ rw (advance_unread env d run_id rc spec w lost) (record {
      keyed = b.keyed;
      failed = b.failed;
      waiting = b.waiting;
      unfinished = b.unfinished;
    })
    | inr read ↦
        let e = advance-advance_nodes env d run_id rc spec w b.keyed read in
        let state = λ (i : Text). shown env d run_id run_id i w in
        record {
          keyed = advance-IsKeyed env d run_id rc spec w b.keyed;
          failed = failed_stays env d rc w b;
          waiting =
              ap (λ (v : World S). state_in run_id n v.store.tables) e
              ∙ advance_nodes_waiting env d run_id rc state f n spec.nodes (listed w) b.failed waits
              ∙ b.waiting;
          unfinished =
              run_state_in-runs run_id _ w.store.tables (
                ap (λ (v : World S). v.store.tables.runs) e
                ∙ advance_nodes-runs env d run_id rc state spec.nodes (listed w))
              ∙ b.unfinished;
        }
  ]

  put-IsBlocked :
      (env : Env) (node_id : Text) (state : NodeState) (w : World S)
      → node_id == f ≡ false
      → node_id == n ≡ false
      → IsBlocked run_id f n w
      → IsBlocked run_id f n (put env run_id node_id state w).1
  put-IsBlocked env node_id state w not_f not_n b = record {
    keyed = put-IsKeyed run_id env node_id state w b.keyed;
    failed = put_other run_id env node_id f state w not_f ∙ b.failed;
    waiting = put_other run_id env node_id n state w not_n ∙ b.waiting;
    unfinished =
        run_state_in-runs run_id _ w.store.tables (put-runs run_id env node_id state w)
        ∙ b.unfinished;
  }

  same_tables-IsBlocked :
      (v w : World S)
      → v.store.tables ≡ w.store.tables
      → IsBlocked run_id f n w
      → IsBlocked run_id f n v
  same_tables-IsBlocked v w e b = record {
    keyed = subst IsKeyed (sym e) b.keyed;
    failed = ap (state_in run_id f) e ∙ b.failed;
    waiting = ap (state_in run_id n) e ∙ b.waiting;
    unfinished = ap (run_state_in run_id) e ∙ b.unfinished;
  }

  step-IsBlocked :
      (v w : World S) → Step run_id f n spec v w → IsBlocked run_id f n v → IsBlocked run_id f n w
  step-IsBlocked v _ (advanced env d rc _) b = advance-IsBlocked env d rc v b
  step-IsBlocked v _ (completed env node_id success _ not_f not_n) b =
      same_tables-IsBlocked _ _
        (node_completed_open run_id n NodeState.pending env node_id success v not_n b.waiting refl)
        (put-IsBlocked env node_id _ v not_f not_n b)

  -- Where a node has failed and a pending node waits for it, no sequence of calls of `Advance` and
  -- of completions of other nodes, whatever fails, ends the run: it stays running, and the node
  -- stays pending. Every node of the pipeline with the id of the pending one depends on the failed
  -- one, and the primary keys are unique.
  pub Steps-IsBlocked :
      (v w : World S) → Steps run_id f n spec v w → IsBlocked run_id f n v → IsBlocked run_id f n w
  Steps-IsBlocked v _ here b = b
  Steps-IsBlocked u w (later {v} step steps) b =
      Steps-IsBlocked v w steps (step-IsBlocked u v step b)
