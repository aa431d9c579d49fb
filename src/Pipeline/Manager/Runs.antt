-- ===== src/Pipeline/Manager/Runs.antt =====
-- `NodeCompleted` where no statement of the database fails.
use mathlib.Core.List.{append_assoc, append-nil}
use brazier.Base.{
  ℕ, suc, Text, ◌==◌, ◌≡◌, refl, ◌∙◌, Bool, true, ◌&&◌, none, some, [], ◌∷◌, ◌++◌, any, not, arith,
  if◌then◌else◌,
}
use brazier.Db
use brazier.Db.{RunState, NodeState, NodeRecord, Tables}
use brazier.Db.Keys.{get_node-upsert_node, get_run-update_run_state, touched}
use brazier.Db.Store
use brazier.Db.Store.{Env, Store}
use brazier.Bus.{job_completed, job_failed, run_completed}
use brazier.Pipeline.Scheduler.{World, node_record}
use brazier.Pipeline.Scheduler.Snapshot.{state_in}
use brazier.Pipeline.Scheduler.Refinement.{Reliable}
use brazier.Pipeline.Manager.{
  ok, is_terminal, final_state, put, finish, complete_run, node_completed,
}
use brazier.Pipeline.Manager.Completion.{
  run_verdict, all_terminal-any, final_state-any, run_state_in, with_verdict, rows_after,
  completion_events,
}

pub run_state_in-update :
    (now : ℕ) (run_id j : Text) (state : RunState) (t : Tables)
    → run_state_in j (Db.update_run_state now run_id state t) ≡ (
        if run_id == j
        then (elim (run_state_in j t) [ none ↦ none | some _ ↦ some state ])
        else run_state_in j t)
unfolding run_state_in touched
run_state_in-update now run_id j state t =
    ground (arith, get_run-update_run_state now run_id j state t)

pub nodes-update_run_state :
    (now : ℕ) (run_id : Text) (state : RunState) (t : Tables)
    → (Db.update_run_state now run_id state t).nodes ≡ t.nodes
unfolding Db.update_run_state
nodes-update_run_state now run_id state t = refl

pub state_in-nodes :
    (r id : Text) (t u : Tables) → t.nodes ≡ u.nodes → state_in r id t ≡ state_in r id u
unfolding state_in Db.get_node
state_in-nodes r id t u e = rw e

module _ {S : Type 0} (env : Env) (reliable : Reliable env) where
  put-Reliable :
      (run_id node_id : Text) (state : NodeState) (w : World S)
      → put env run_id node_id state w ≡ (
        true,
        record w {
          store = record {
            tables =
                Db.upsert_node
                  (env.now w.store.calls)
                  (node_record run_id node_id state)
                  w.store.tables;
            calls = suc w.store.calls;
          };
        },
      )
  unfolding put Store.upsert_node Store.execute
  put-Reliable run_id node_id state w = rw (reliable w.store.calls)

  complete_run-Reliable :
      (run_id j : Text) (w : World S)
      → ((complete_run env run_id w).0 ≡ ok tt)
        × (run_state_in j (complete_run env run_id w).1.store.tables ≡ (
            if run_id == j
            then with_verdict (Db.list_nodes run_id w.store.tables) (run_state_in j w.store.tables)
            else run_state_in j w.store.tables))
        × ((complete_run env run_id w).1.store.tables.nodes ≡ w.store.tables.nodes)
        × ((complete_run env run_id w).1.published
            ≡ w.published
              ++ (if any (λ n. not (is_terminal n.state)) (Db.list_nodes run_id w.store.tables)
                  then []
                  else record { type = run_completed; payload = run_id } ∷ []))
  unfolding complete_run finish Store.list_nodes Store.query Store.update_run_state Store.execute
      run_verdict
  complete_run-Reliable run_id j w =
      let rows = Db.list_nodes run_id w.store.tables in
      let now = env.now (suc w.store.calls) in
      let read = reliable w.store.calls in
      let write = reliable (suc w.store.calls) in
      let checked = all_terminal-any rows in
      let chosen = final_state-any rows in
      let updated = run_state_in-update now run_id j (final_state rows) w.store.tables in
      let same = append-nil w.published in
      (
        ground (arith, read, write),
        ground (arith, read, write, checked, chosen, updated),
        ground (
          arith,
          read,
          write,
          nodes-update_run_state now run_id (final_state rows) w.store.tables,
        ),
        ground (arith, read, write, checked, same),
      )

  -- The world between the write of the node and the check of the run.
  abbrev marked : (run_id node_id : Text) → Bool → World S → World S
  marked run_id node_id success w = record {
    store = record {
      tables =
          Db.upsert_node (env.now w.store.calls)
            (node_record run_id node_id (if success then NodeState.success else NodeState.failed))
            w.store.tables;
      calls = suc w.store.calls;
    };
    dispatcher = w.dispatcher;
    published =
        w.published
        ++ record { type = if success then job_completed else job_failed; payload = node_id } ∷ [];
  }

  node_completed-complete_run :
      (run_id node_id : Text) (success : Bool) (w : World S)
      → node_completed env run_id node_id success w
        ≡ complete_run env run_id (marked run_id node_id success w)
  unfolding node_completed
  node_completed-complete_run run_id node_id success w =
      let state = if success then NodeState.success else NodeState.failed in
      rw (put-Reliable run_id node_id state w)

  state_in-marked :
      (run_id node_id : Text) (success : Bool) (w : World S) (r id : Text)
      → state_in r id (marked run_id node_id success w).store.tables ≡ (
          if run_id == r && node_id == id
          then some (if success then NodeState.success else NodeState.failed)
          else state_in r id w.store.tables)
  unfolding state_in
  state_in-marked run_id node_id success w r id = ground (
    arith,
    get_node-upsert_node (env.now w.store.calls) r id
        (node_record run_id node_id (if success then NodeState.success else NodeState.failed))
        w.store.tables,
  )

  run_state_in-marked :
      (run_id node_id : Text) (success : Bool) (w : World S) (r : Text)
      → run_state_in r (marked run_id node_id success w).store.tables
        ≡ run_state_in r w.store.tables
  unfolding run_state_in Db.get_run Db.upsert_node
  run_state_in-marked run_id node_id success w r = refl

  pub node_completed_lem :
      (run_id node_id : Text) (success : Bool) (w : World S) (r id : Text)
      → let rows = rows_after run_id node_id success (env.now w.store.calls) w.store.tables in
        let after = (node_completed env run_id node_id success w).1 in
        ((node_completed env run_id node_id success w).0 ≡ ok tt)
        × (state_in r id after.store.tables ≡ (
            if run_id == r && node_id == id
            then some (if success then NodeState.success else NodeState.failed)
            else state_in r id w.store.tables))
        × (run_state_in r after.store.tables ≡ (
            if run_id == r
            then with_verdict rows (run_state_in r w.store.tables)
            else run_state_in r w.store.tables))
        × (after.published ≡ w.published ++ completion_events run_id node_id success rows)
  node_completed_lem run_id node_id success w r id =
      let w' = marked run_id node_id success w in
      let (done, run, nodes, events) = complete_run-Reliable run_id r w' in
      rw (node_completed-complete_run run_id node_id success w) (
        done,
        state_in-nodes r id _ w'.store.tables nodes ∙ state_in-marked run_id node_id success w r id,
        rw (run_state_in-marked run_id node_id success w r) at run,
        events ∙ append_assoc w.published _ _,
      )
