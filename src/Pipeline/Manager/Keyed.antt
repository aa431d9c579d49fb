-- ===== src/Pipeline/Manager/Keyed.antt =====
-- `Start` keeps the constraints of the schema.
use brazier.Base.{
  subst, arith, ◌≡◌, if◌then◌else◌, Text, text, refl, Bool, true, false, List, [], ◌∷◌, ◌++◌, ℕ,
  Bool-cases, Option-cases, inl, inr,
}
use brazier.Proto.{Node, id_of, get_stage, PipelineSpec}
use brazier.Db
use brazier.Db.{NodeState, RunState, PipelineRun}
use brazier.Db.Keys.{IsKeyed, create, update, apply-IsKeyed}
use brazier.Db.Store
use brazier.Db.Store.{Env, Store}
use brazier.Pipeline.Scheduler.{World, node_record}
use brazier.Pipeline.Scheduler.Keyed.{upsert_node-IsKeyed}
use brazier.Pipeline.Manager
use brazier.Pipeline.Manager.{
  Reply, ok, create_failed, seed_failed, update_failed, upsert_failed, list_failed, new_run, put,
  seed_jobs, seed_stage, seed_nodes, set_running, finish_start, finish, complete_run,
  node_completed, final_state, all_terminal,
}

create_run-IsKeyed :
    (env : Env) (r : PipelineRun) (s : Store)
    → IsKeyed s.tables
    → IsKeyed (Store.create_run env r s).1.tables
unfolding Store.create_run Store.execute
create_run-IsKeyed env r s keyed = elim (Bool-cases (env.fails s.calls)) [
  | inl failed ↦ rw failed keyed
  | inr fine ↦ elim (Option-cases (Db.create_run r s.tables)) [
    | inl taken ↦ rw (fine, taken) keyed
    | inr (t, made) ↦
        rw (fine, made) (apply-IsKeyed (env.now s.calls) (create r) s.tables t made keyed)
  ]
]

update_run_state-IsKeyed :
    (env : Env) (id : Text) (state : RunState) (s : Store)
    → IsKeyed s.tables
    → IsKeyed (Store.update_run_state env id state s).1.tables
unfolding Store.update_run_state Store.execute
update_run_state-IsKeyed env id state s keyed =
    let done = apply-IsKeyed (env.now s.calls) (update id state) s.tables _ refl keyed in
    elim (Bool-cases (env.fails s.calls)) [ inl failed ↦ rw failed keyed | inr fine ↦ rw fine done ]

module _ {S : Type 0} (env : Env) (run_id : Text) where
  Keyed : World S → Type 0
  Keyed w = IsKeyed w.store.tables

  put-Keyed :
      (id : Text) (state : NodeState) (w : World S) → Keyed w → Keyed (put env run_id id state w).1
  unfolding put Keyed
  put-Keyed id state w = upsert_node-IsKeyed env (node_record run_id id state) w.store

  seed_jobs-Keyed :
      (id : Text) (jobs : List Node) (w : World S)
      → Keyed w
      → Keyed (seed_jobs env run_id id jobs w).1
  unfolding seed_jobs
  seed_jobs-Keyed id [] w keyed = keyed
  seed_jobs-Keyed id (j ∷ jobs) w keyed =
      let p = put env run_id (id ++ (text "/" ++ id_of j)) NodeState.pending w in
      let one = put-Keyed (id ++ (text "/" ++ id_of j)) NodeState.pending w keyed in
      elim (Bool-cases p.0) [
        | inl done ↦ rw done (seed_jobs-Keyed id jobs p.1 one)
        | inr failed ↦ rw failed one
      ]

  seed_stage-Keyed : (n : Node) (w : World S) → Keyed w → Keyed (seed_stage env run_id n w).1
  unfolding seed_stage
  seed_stage-Keyed n w keyed = elim (Option-cases (get_stage n)) [
    | inl e ↦ rw (e, seed_stage) keyed
    | inr (jobs, e) ↦ rw (e, seed_stage) (seed_jobs-Keyed (id_of n) jobs w keyed)
  ]

  seed_nodes-Keyed : (ns : List Node) (w : World S) → Keyed w → Keyed (seed_nodes env run_id ns w).1
  unfolding seed_nodes
  seed_nodes-Keyed [] w keyed = keyed
  seed_nodes-Keyed (n ∷ ns) w keyed =
      let p = put env run_id (id_of n) NodeState.pending w in
      let q = seed_stage env run_id n p.1 in
      let one = put-Keyed (id_of n) NodeState.pending w keyed in
      let two = seed_stage-Keyed n p.1 one in
      elim (Bool-cases p.0) [
        | inl done ↦ elim (Bool-cases q.0) [
          | inl jobs_done ↦ rw (done, jobs_done) (seed_nodes-Keyed ns q.1 two)
          | inr failed ↦ rw (done, failed) two
        ]
        | inr failed ↦ rw failed one
      ]

  finish_start-Keyed :
      (p : Reply (Unit {0}) × World S) (u : Bool × World S)
      → Keyed p.1
      → Keyed u.1
      → Keyed (finish_start env run_id p u).1
  unfolding Keyed
  finish_start-Keyed (ok _, v) (true, x) h k = k
  finish_start-Keyed (ok _, v) (false, x) h k = k
  finish_start-Keyed (create_failed, v) u h k = h
  finish_start-Keyed (seed_failed _, v) u h k = h
  finish_start-Keyed (update_failed, v) u h k = h
  finish_start-Keyed (upsert_failed, v) u h k = h
  finish_start-Keyed (list_failed, v) u h k = h

  pub start-IsKeyed :
      (project : Text) (now : ℕ) (spec : PipelineSpec) (w : World S)
      → IsKeyed w.store.tables
      → IsKeyed (Manager.start env run_id project now spec w).1.store.tables
  unfolding Manager.start Keyed set_running
  start-IsKeyed project now spec w keyed =
      let r = Store.create_run env (new_run run_id project now) w.store in
      let opened = record w { store = r.1 } in
      let one = create_run-IsKeyed env (new_run run_id project now) w.store keyed in
      let seeded = seed_nodes env run_id spec.nodes opened in
      let two = seed_nodes-Keyed spec.nodes opened one in
      elim (Bool-cases r.0) [
        | inl done ↦ rw done (
            finish_start-Keyed seeded (set_running env run_id seeded.1) two
              (update_run_state-IsKeyed env run_id RunState.running seeded.1.store two))
        | inr failed ↦ rw failed one
      ]

  list_nodes-Keyed :
      (w : World S) → Keyed w → Keyed (record w { store = (Store.list_nodes env run_id w.store).1 })
  unfolding Store.list_nodes Store.query Keyed
  list_nodes-Keyed w keyed = subst (λ (t : Db.Tables). IsKeyed t) same keyed
    where
      same : w.store.tables ≡ (Store.list_nodes env run_id w.store).1.tables
      same = ground arith

  finish-Keyed :
      (nodes : List Db.NodeRecord) (w : World S) → Keyed w → Keyed (finish env run_id nodes w).1
  unfolding finish Keyed
  finish-Keyed nodes w keyed =
      let u = Store.update_run_state env run_id (final_state nodes) w.store in
      let done = update_run_state-IsKeyed env run_id (final_state nodes) w.store keyed in
      elim (Bool-cases u.0) [ inl updated ↦ rw updated done | inr failed ↦ rw failed done ]

  complete_run-Keyed : (w : World S) → Keyed w → Keyed (complete_run env run_id w).1
  unfolding complete_run
  complete_run-Keyed w keyed =
      let p = Store.list_nodes env run_id w.store in
      let read = list_nodes-Keyed w keyed in
      elim (Option-cases p.0) [
        | inl failed ↦ rw (complete_run, failed) read
        | inr (nodes, listed) ↦ elim (Bool-cases (all_terminal nodes)) [
          | inl over ↦ rw (complete_run, listed, over) (finish-Keyed nodes _ read)
          | inr going ↦ rw (complete_run, listed, going) read
        ]
      ]

  pub node_completed-IsKeyed :
      (node_id : Text) (success : Bool) (w : World S)
      → IsKeyed w.store.tables
      → IsKeyed (node_completed env run_id node_id success w).1.store.tables
  unfolding node_completed Keyed
  node_completed-IsKeyed node_id success w keyed =
      let state = if success then NodeState.success else NodeState.failed in
      let p = put env run_id node_id state w in
      let one = put-Keyed node_id state w keyed in
      elim (Bool-cases p.0) [
        | inl done ↦ rw done (complete_run-Keyed _ one)
        | inr failed ↦ rw failed one
      ]
