-- ===== src/Pipeline/Manager/Begun.antt =====
-- A call of `Start` that replies ok.
use brazier.Base.{
  All-weaken, ℕ, Text, ==_refl, ◌≡◌, refl, ◌∙◌, Bool, true, false, some, List, [], ◌∷◌, ◌++◌, All,
  contains, contains-append, arith, Bool-cases, inl, inr,
}
use brazier.Proto.{Node, id_of, get_stage, PipelineSpec}
use brazier.Db.{RunState}
use brazier.Db.Store
use brazier.Db.Store.{Env, Store}
use brazier.Bus.{trigger_received}
use brazier.Pipeline.Scheduler.{World}
use brazier.Pipeline.Manager
use brazier.Pipeline.Manager.{
  Reply, ok, create_failed, seed_failed, update_failed, upsert_failed, list_failed, new_run,
  seed_nodes, set_running, finish_start,
}
use brazier.Pipeline.Manager.Completion.{run_state_in}
use brazier.Pipeline.Manager.Seeding.{Marks, seeded_ids, stage_ids, Seeded, seed_nodes-Seeded}
use brazier.Pipeline.Manager.Starting.{Started, start-Started}

pub contains-seeded_ids : (ns : List Node) → All (λ n. contains (id_of n) (seeded_ids ns) ≡ true) ns
unfolding contains
contains-seeded_ids [] = tt
contains-seeded_ids (n ∷ ns) = (
  rw (==_refl (id_of n)) refl,
  All-weaken (λ m. contains (id_of m) (seeded_ids ns) ≡ true) _ ns
      (λ m on.
        ground (
          arith,
          on,
          contains-append (id_of m) (stage_ids (id_of n) (get_stage n)) (seeded_ids ns),
        ))
      (contains-seeded_ids ns),
)

module _ {S : Type 0} (env : Env) (run_id project : Text) (now : ℕ) (spec : PipelineSpec) where
  -- The rows, the run and the events behind a reply that is ok.
  abbrev Begun : World S → World S → Type 0
  Begun w v =
      Marks run_id (seeded_ids spec.nodes) w v
      × (run_state_in run_id v.store.tables ≡ some RunState.running)
      × (v.published ≡ w.published ++ record { type = trigger_received; payload = run_id } ∷ [])

  Started-Begun :
      (w : World S) (p : Reply Text × World S)
      → Started env run_id project now spec w p
      → p.0 ≡ ok run_id
      → Begun w p.1
  Started-Begun w (ok id, v) (_, marks, states, events, _, _) e =
      (marks, rw (states run_id, ==_refl run_id) refl, events)
  Started-Begun w (create_failed, v) h e = cc
  Started-Begun w (seed_failed _, v) h e = cc
  Started-Begun w (update_failed, v) h e = cc
  Started-Begun w (upsert_failed, v) h e = cc
  Started-Begun w (list_failed, v) h e = cc

  pub started_ok :
      (w : World S)
      → (Manager.start env run_id project now spec w).0 ≡ ok run_id
      → Begun w (Manager.start env run_id project now spec w).1
  started_ok w e =
      Started-Begun w (Manager.start env run_id project now spec w)
        (start-Started env run_id project now spec w) e

  Seeded-dispatcher :
      (w : World S) (p : Reply (Unit {0}) × World S)
      → Seeded run_id env (seeded_ids spec.nodes) w p
      → p.1.dispatcher ≡ w.dispatcher
  Seeded-dispatcher w (ok _, v) h = h.1.dispatcher
  Seeded-dispatcher w (create_failed, v) h = h.dispatcher
  Seeded-dispatcher w (seed_failed _, v) h = h.dispatcher
  Seeded-dispatcher w (update_failed, v) h = h.dispatcher
  Seeded-dispatcher w (upsert_failed, v) h = h.dispatcher
  Seeded-dispatcher w (list_failed, v) h = h.dispatcher

  finish_start-dispatcher :
      (p : Reply (Unit {0}) × World S) (u : Bool × World S)
      → u.1.dispatcher ≡ p.1.dispatcher
      → (finish_start env run_id p u).1.dispatcher ≡ p.1.dispatcher
  finish_start-dispatcher (ok _, v) (true, x) h = h
  finish_start-dispatcher (ok _, v) (false, x) h = h
  finish_start-dispatcher (create_failed, v) u h = refl
  finish_start-dispatcher (seed_failed _, v) u h = refl
  finish_start-dispatcher (update_failed, v) u h = refl
  finish_start-dispatcher (upsert_failed, v) u h = refl
  finish_start-dispatcher (list_failed, v) u h = refl

  -- `Start` itself dispatches nothing.
  pub dispatcher-start :
      (w : World S) → (Manager.start env run_id project now spec w).1.dispatcher ≡ w.dispatcher
  unfolding Manager.start set_running
  dispatcher-start w =
      let r = Store.create_run env (new_run run_id project now) w.store in
      let opened = record w { store = r.1 } in
      let seeded = seed_nodes env run_id spec.nodes opened in
      elim (Bool-cases r.0) [
        | inl done ↦
            rw (Manager.start, done)
              (finish_start-dispatcher seeded (set_running env run_id seeded.1) refl
                ∙ Seeded-dispatcher opened seeded (seed_nodes-Seeded run_id env spec.nodes opened))
        | inr failed ↦ rw (Manager.start, failed) refl
      ]
