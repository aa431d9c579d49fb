-- ===== src/Pipeline/Manager/Open.antt =====
-- `NodeCompleted`, where another node of the run has not ended.
use brazier.Base.{
  Text, ◌==◌, ◌≡◌, ◌∙◌, Bool, true, false, some, arith, if◌then◌else◌, Bool-cases, Option-cases,
  inl, inr,
}
use brazier.Db
use brazier.Db.{NodeState, Tables}
use brazier.Db.Keys.{IsKeyed, get_node-upsert_node}
use brazier.Db.Store
use brazier.Db.Store.{Env, Store}
use brazier.Pipeline.Scheduler.{World, node_record}
use brazier.Pipeline.Scheduler.Snapshot.{state_in}
use brazier.Pipeline.Scheduler.Keyed.{upsert_node-IsKeyed}
use brazier.Bus.{job_completed, job_failed}
use brazier.Pipeline.Manager.{all_terminal, is_terminal, put, complete_run, node_completed, publish}
use brazier.Pipeline.Manager.Completion.{all_terminal-find_node}
use brazier.Pipeline.Manager.Waiting.{upsert_node-runs}

not_terminal :
    (run_id n : Text) (open_state : NodeState) (t : Tables)
    → state_in run_id n t ≡ some open_state
    → is_terminal open_state ≡ false
    → all_terminal (Db.list_nodes run_id t) ≡ false
unfolding state_in Db.get_node Db.list_nodes
not_terminal run_id n open_state t waiting not_over =
    elim (Bool-cases (all_terminal (Db.list_nodes run_id t))) [
      | inr unfinished ↦ unfinished
      | inl over ↦ elim (Option-cases (Db.find_node run_id n t.nodes)) [
        | inl e ↦ cc (rw e at waiting)
        | inr (row, e) ↦
            let terminal = all_terminal-find_node run_id t.nodes n row over e in
            let found = rw e at waiting in
            let same : row.state ≡ open_state = cc in
            let ended : is_terminal open_state ≡ true = rw (← same) terminal in cc
      ]
    ]

module _ {S : Type 0} (run_id : Text) where
  pub put_other :
      (env : Env) (node_id id : Text) (state : NodeState) (w : World S)
      → node_id == id ≡ false
      → state_in run_id id (put env run_id node_id state w).1.store.tables
        ≡ state_in run_id id w.store.tables
  unfolding put Store.upsert_node Store.execute state_in
  put_other env node_id id state w other = ground (
    arith,
    other,
    get_node-upsert_node (env.now w.store.calls) run_id id (node_record run_id node_id state)
        w.store.tables,
  )

  pub put-IsKeyed :
      (env : Env) (node_id : Text) (state : NodeState) (w : World S)
      → IsKeyed w.store.tables
      → IsKeyed (put env run_id node_id state w).1.store.tables
  unfolding put
  put-IsKeyed env node_id state w =
      upsert_node-IsKeyed env (node_record run_id node_id state) w.store

  pub put-runs :
      (env : Env) (node_id : Text) (state : NodeState) (w : World S)
      → (put env run_id node_id state w).1.store.tables.runs ≡ w.store.tables.runs
  unfolding put
  put-runs env node_id state w = upsert_node-runs env (node_record run_id node_id state) w.store

  module _ (n : Text) (open_state : NodeState) where
    complete_run_open :
        (env : Env) (w : World S)
        → state_in run_id n w.store.tables ≡ some open_state
        → is_terminal open_state ≡ false
        → ((complete_run env run_id w).1.store.tables ≡ w.store.tables)
          × ((complete_run env run_id w).1.published ≡ w.published)
    unfolding complete_run Store.list_nodes Store.query
    complete_run_open env w waiting not_over =
        ground (arith, not_terminal run_id n open_state w.store.tables waiting not_over)

    pub node_completed_open :
        (env : Env) (node_id : Text) (success : Bool) (w : World S)
        → node_id == n ≡ false
        → state_in run_id n w.store.tables ≡ some open_state
        → is_terminal open_state ≡ false
        → (node_completed env run_id node_id success w).1.store.tables
          ≡ (put env run_id node_id
              (if success then NodeState.success else NodeState.failed)
              w).1.store.tables
    unfolding node_completed
    node_completed_open env node_id success w not_n waiting not_over =
        let state = if success then NodeState.success else NodeState.failed in
        let w' = (put env run_id node_id state w).1 in
        let still = put_other env node_id n state w not_n ∙ waiting in
        let (quiet, _) =
          complete_run_open env
            (publish env (if success then job_completed else job_failed) node_id w') still
            not_over in
        ground (arith, quiet)
