-- ===== src/Pipeline/Manager/Success.antt =====
-- `Start`, where no statement fails.
use brazier.Base.{
  ℕ, Text, text, ◌≡◌, refl, ap, Bool, true, false, none, List, [], ◌∷◌, ◌++◌, arith, inl, inr,
  Option-cases,
}
use brazier.Proto.{Node, id_of, get_stage, PipelineSpec}
use brazier.Db
use brazier.Db.{NodeState, RunState, Tables, PipelineRun, has_run, find_run}
use brazier.Db.Store
use brazier.Db.Store.{Env, Store}
use brazier.Pipeline.Scheduler.{World}
use brazier.Pipeline.Scheduler.Refinement.{Reliable}
use brazier.Pipeline.Manager
use brazier.Pipeline.Manager.{
  Reply, ok, create_failed, seed_failed, update_failed, upsert_failed, list_failed, seed_jobs,
  seed_stage, put, new_run, set_running, finish_start, seed_nodes,
}
use brazier.Pipeline.Manager.Seeding.{put-done}
use brazier.Pipeline.Manager.Starting.{start_created, opened}

find_run-has_run :
    (id : Text) (runs : List PipelineRun) → find_run id runs ≡ none → has_run id runs ≡ false
unfolding find_run
find_run-has_run id [] h = refl
find_run-has_run id (r ∷ runs) h = ground (arith, find_run-has_run id runs)

module _ {S : Type 0} (env : Env) (run_id project : Text) (now : ℕ) (spec : PipelineSpec)
    (reliable : Reliable env) where
  seed_jobs_done :
      (id : Text) (jobs : List Node) (w : World S) → (seed_jobs env run_id id jobs w).0 ≡ true
  unfolding seed_jobs
  seed_jobs_done id [] w = refl
  seed_jobs_done id (j ∷ jobs) w =
      rw
        (put-done run_id env (id ++ (text "/" ++ id_of j)) NodeState.pending w
          (reliable w.store.calls))
        (seed_jobs_done id jobs _)

  seed_stage_done : (n : Node) (w : World S) → (seed_stage env run_id n w).0 ≡ true
  unfolding seed_stage
  seed_stage_done n w = elim (Option-cases (get_stage n)) [
    | inl e ↦ rw (e, seed_stage) refl
    | inr (jobs, e) ↦ rw (e, seed_stage) (seed_jobs_done (id_of n) jobs w)
  ]

  seed_nodes_done : (ns : List Node) (w : World S) → (seed_nodes env run_id ns w).0 ≡ ok tt
  unfolding seed_nodes
  seed_nodes_done [] w = refl
  seed_nodes_done (n ∷ ns) w =
      let p = put env run_id (id_of n) NodeState.pending w in
      let placed : p.0 ≡ true =
        ap (λ (q : Bool × World S). q.0)
          (put-done run_id env (id_of n) NodeState.pending w (reliable w.store.calls)) in
      let q = seed_stage env run_id n p.1 in
      rw (placed, seed_stage_done n p.1) (seed_nodes_done ns q.1)

  create_run_done :
      (w : World S)
      → Db.get_run run_id w.store.tables ≡ none
      → (Store.create_run env (new_run run_id project now) w.store).0 ≡ true
  unfolding Store.create_run Store.execute Db.create_run Db.get_run
  create_run_done w free =
      rw (reliable w.store.calls, find_run-has_run run_id w.store.tables.runs free) refl

  set_running_done : (w : World S) → (set_running env run_id w).0 ≡ true
  unfolding set_running Store.update_run_state Store.execute
  set_running_done w = rw (reliable w.store.calls) refl

  finish_start_done :
      (seeded : Reply (Unit {0}) × World S) (u : Bool × World S)
      → seeded.0 ≡ ok tt
      → u.0 ≡ true
      → (finish_start env run_id seeded u).0 ≡ ok run_id
  finish_start_done (ok _, v) (true, x) h k = refl
  finish_start_done (ok _, v) (false, x) h k = cc
  finish_start_done (create_failed, v) u h k = cc
  finish_start_done (seed_failed _, v) u h k = cc
  finish_start_done (update_failed, v) u h k = cc
  finish_start_done (upsert_failed, v) u h k = cc
  finish_start_done (list_failed, v) u h k = cc

  -- Where no statement fails and the id of the run is new, `Start` replies ok with that id.
  pub start_succeeds :
      (w : World S)
      → Db.get_run run_id w.store.tables ≡ none
      → (Manager.start env run_id project now spec w).0 ≡ ok run_id
  start_succeeds w free =
      let seeded = seed_nodes env run_id spec.nodes (opened env run_id project now spec w) in
      rw (start_created env run_id project now spec w (create_run_done w free)) (
        finish_start_done seeded (set_running env run_id seeded.1)
          (seed_nodes_done spec.nodes (opened env run_id project now spec w))
          (set_running_done seeded.1))
