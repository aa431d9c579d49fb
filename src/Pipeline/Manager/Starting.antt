-- ===== src/Pipeline/Manager/Starting.antt =====
-- `Start`: the run, its rows and its event.
use brazier.Base.{
  ℕ, ◌-◌, sym, Text, ◌==◌, ◌≡◌, refl, ◌∙◌, ap, Bool, true, false, none, some, List, [], ◌∷◌, ◌++◌,
  arith, if◌then◌else◌, inl, inr, ◌⊎◌,
}
use brazier.Proto.{PipelineSpec}
use brazier.Db
use brazier.Db.{NodeState, RunState, Tables, PipelineRun, has_run, find_run}
use brazier.Db.Store
use brazier.Db.Store.{Env, Store}
use brazier.Bus.{Event, trigger_received}
use brazier.Pipeline.Scheduler.{World}
use brazier.Pipeline.Manager
use brazier.Pipeline.Manager.{
  Reply, ok, create_failed, seed_failed, update_failed, upsert_failed, list_failed, seed_jobs,
  seed_stage, put, new_run, set_running, finish_start, seed_nodes,
}
use brazier.Pipeline.Manager.Completion.{run_state_in, run_state_in-runs}
use brazier.Pipeline.Manager.Runs.{run_state_in-update, state_in-nodes, nodes-update_run_state}
use brazier.Pipeline.Manager.Seeding.{Marks, IsQuiet, Seeded, seeded_ids, seed_nodes-Seeded}
use brazier.Pipeline.Manager.Updating.{IsUpdate, set_running-IsUpdate}
use brazier.Pipeline.Manager.Creating.{find_run-snoc, set_state-snoc, create_run-cases}

-- The row of the run, in a state since `time`.
abbrev pub row_of : (run_id project : Text) (now : ℕ) → RunState → ℕ → PipelineRun
row_of run_id project now state time = record {
  id = run_id;
  project = project;
  state = state;
  created_at = now;
  updated_at = time;
}

module _ {S : Type 0} where
  -- The log and the dispatcher are as they were.
  pub record IsApart (w v : World S) : Type 0 where
    pub log_chunks : v.store.tables.log_chunks ≡ w.store.tables.log_chunks
    pub next_log : v.store.tables.next_log ≡ w.store.tables.next_log
    pub dispatcher : v.dispatcher ≡ w.dispatcher

module _ {S : Type 0} (env : Env) (run_id project : Text) (now : ℕ) (spec : PipelineSpec) where
  -- What `Start` promises: every row and the event where it replies ok, and no event otherwise,
  -- where no run is new or it is left pending.
  abbrev pub Started : World S → Reply Text × World S → Type 0
  Started w (reply, v) = elim reply [
    | ok id ↦
        (id ≡ run_id)
        × Marks run_id (seeded_ids spec.nodes) w v
        × ((j : Text)
            → run_state_in j v.store.tables
              ≡ (if run_id == j then some RunState.running else run_state_in j w.store.tables))
        × (v.published ≡ w.published ++ record { type = trigger_received; payload = run_id } ∷ [])
        × (v.store.tables.runs
            ≡ w.store.tables.runs
              ++ row_of run_id project now RunState.running (env.now (v.store.calls - 1)) ∷ [])
        × IsApart w v
    | _ ↦
        (v.published ≡ w.published)
        × ((v.store.tables.runs ≡ w.store.tables.runs)
            ⊎ (v.store.tables.runs
                ≡ w.store.tables.runs ++ row_of run_id project now RunState.pending now ∷ []))
        × IsApart w v
  ]

  -- The world behind `CreateRun`.
  record IsCreated (w v : World S) : Type 0 where
    published : v.published ≡ w.published
    nodes : v.store.tables.nodes ≡ w.store.tables.nodes
    free : find_run run_id w.store.tables.runs ≡ none
    runs :
        v.store.tables.runs
        ≡ w.store.tables.runs ++ row_of run_id project now RunState.pending now ∷ []
    apart : IsApart w v
    states :
        (j : Text)
        → run_state_in j v.store.tables
          ≡ (if run_id == j then some RunState.pending else run_state_in j w.store.tables)

  quiet-IsApart : (w w₁ v : World S) → IsCreated w w₁ → IsQuiet run_id w₁ v → IsApart w v
  quiet-IsApart w w₁ v created quiet = record {
    log_chunks = quiet.log_chunks ∙ created.apart.log_chunks;
    next_log = quiet.next_log ∙ created.apart.next_log;
    dispatcher = quiet.dispatcher ∙ created.apart.dispatcher;
  }

  left_pending :
      (w w₁ v : World S)
      → IsCreated w w₁
      → IsQuiet run_id w₁ v
      → (v.published ≡ w.published)
        × ((v.store.tables.runs ≡ w.store.tables.runs)
            ⊎ (v.store.tables.runs
                ≡ w.store.tables.runs ++ row_of run_id project now RunState.pending now ∷ []))
        × IsApart w v
  left_pending w w₁ v created quiet = (
    quiet.published ∙ created.published,
    inr (quiet.runs ∙ created.runs),
    quiet-IsApart w w₁ v created quiet,
  )

  -- An update that failed leaves what it found.
  failed-IsQuiet :
      (w₁ v x : World S)
      → IsQuiet run_id w₁ v
      → IsUpdate env run_id v (false, x)
      → IsQuiet run_id w₁ x
  failed-IsQuiet w₁ v x quiet update =
      let e = update.failed refl in
      record {
        runs = ap (λ (t : Tables). t.runs) e ∙ quiet.runs;
        log_chunks = ap (λ (t : Tables). t.log_chunks) e ∙ quiet.log_chunks;
        next_log = ap (λ (t : Tables). t.next_log) e ∙ quiet.next_log;
        dispatcher = update.dispatcher ∙ quiet.dispatcher;
        published = update.published ∙ quiet.published;
      }

  done-runs :
      (w w₁ v x : World S)
      → IsCreated w w₁
      → IsQuiet run_id w₁ v
      → IsUpdate env run_id v (true, x)
      → (x.store.tables.runs
          ≡ w.store.tables.runs
            ++ row_of run_id project now RunState.running (env.now (x.store.calls - 1)) ∷ [])
        × IsApart w x
  unfolding Db.update_run_state
  done-runs w w₁ v x created quiet update =
      let e = update.done refl in
      let time : x.store.calls - 1 ≡ v.store.calls = rw update.calls (omega arith) in
      (
        ap (λ (t : Tables). t.runs) e
            ∙ ap (Db.set_state (env.now v.store.calls) run_id RunState.running)
                (quiet.runs ∙ created.runs)
            ∙ set_state-snoc (env.now v.store.calls) RunState.running w.store.tables.runs
                (row_of run_id project now RunState.pending now) created.free
            ∙ ap
                (λ k.
                  w.store.tables.runs
                  ++ row_of run_id project now RunState.running (env.now k) ∷ [])
                (sym time),
        record {
          log_chunks =
              ap (λ (t : Tables). t.log_chunks) e ∙ quiet.log_chunks ∙ created.apart.log_chunks;
          next_log = ap (λ (t : Tables). t.next_log) e ∙ quiet.next_log ∙ created.apart.next_log;
          dispatcher = update.dispatcher ∙ quiet.dispatcher ∙ created.apart.dispatcher;
        },
      )

  finish_start-Started :
      (w w₁ : World S) (seeded : Reply (Unit {0}) × World S) (u : Bool × World S)
      → IsCreated w w₁
      → Seeded run_id env (seeded_ids spec.nodes) w₁ seeded
      → IsUpdate env run_id seeded.1 u
      → Started w (finish_start env run_id seeded u)
  finish_start-Started w w₁ (ok _, v) (true, x) created (marks, quiet) update =
      let e = update.done refl in
      let rows =
        ap (λ (t : Tables). t.nodes) e
        ∙ nodes-update_run_state (env.now v.store.calls) run_id RunState.running v.store.tables in
      (
        refl,
        λ r id.
            state_in-nodes r id x.store.tables v.store.tables rows
            ∙ marks r id
            ∙ rw (state_in-nodes r id w₁.store.tables w.store.tables created.nodes) refl,
        λ j.
            ap (run_state_in j) e
            ∙ ground (
              arith,
              run_state_in-update (env.now v.store.calls) run_id j RunState.running v.store.tables,
              run_state_in-runs j v.store.tables w₁.store.tables quiet.runs,
              created.states j,
            ),
        ap (λ (es : List Event). es ++ record { type = trigger_received; payload = run_id } ∷ [])
            (update.published ∙ quiet.published ∙ created.published),
        (done-runs w w₁ v x created quiet update).0,
        record {
          log_chunks = (done-runs w w₁ v x created quiet update).1.log_chunks;
          next_log = (done-runs w w₁ v x created quiet update).1.next_log;
          dispatcher = (done-runs w w₁ v x created quiet update).1.dispatcher;
        },
      )
  finish_start-Started w w₁ (ok _, v) (false, x) created (marks, quiet) update =
      left_pending w w₁ x created (failed-IsQuiet w₁ v x quiet update)
  finish_start-Started w w₁ (create_failed, v) u created quiet update =
      left_pending w w₁ v created quiet
  finish_start-Started w w₁ (seed_failed _, v) u created quiet update =
      left_pending w w₁ v created quiet
  finish_start-Started w w₁ (update_failed, v) u created quiet update =
      left_pending w w₁ v created quiet
  finish_start-Started w w₁ (upsert_failed, v) u created quiet update =
      left_pending w w₁ v created quiet
  finish_start-Started w w₁ (list_failed, v) u created quiet update =
      left_pending w w₁ v created quiet

  start_refused :
      (w : World S)
      → (Store.create_run env (new_run run_id project now) w.store).0 ≡ false
      → Manager.start env run_id project now spec w ≡ (
        create_failed,
        record w { store = (Store.create_run env (new_run run_id project now) w.store).1 },
      )
  unfolding Manager.start
  start_refused w e = rw (Manager.start, e)

  -- The world behind a `CreateRun` that succeeds.
  abbrev pub opened : World S → World S
  opened w = record w { store = (Store.create_run env (new_run run_id project now) w.store).1 }

  pub start_created :
      (w : World S)
      → (Store.create_run env (new_run run_id project now) w.store).0 ≡ true
      → Manager.start env run_id project now spec w
        ≡ finish_start env run_id
            (seed_nodes env run_id spec.nodes (opened w))
            (set_running env run_id (seed_nodes env run_id spec.nodes (opened w)).1)
  unfolding Manager.start
  start_created w e = rw (Manager.start, e)

  opened-IsCreated :
      (w : World S)
      → find_run run_id w.store.tables.runs ≡ none
      → (opened w).store.tables
        ≡ record w.store.tables { runs = w.store.tables.runs ++ new_run run_id project now ∷ [] }
      → IsCreated w (opened w)
  unfolding run_state_in Db.get_run
  opened-IsCreated w free e = record {
    published = refl;
    nodes = ap (λ (t : Tables). t.nodes) e;
    free = free;
    runs = ap (λ (t : Tables). t.runs) e;
    apart = record {
      log_chunks = ap (λ (t : Tables). t.log_chunks) e;
      next_log = ap (λ (t : Tables). t.next_log) e;
      dispatcher = refl;
    };
    states = λ j.
        rw e
          (ground (arith, find_run-snoc j w.store.tables.runs (new_run run_id project now), free));
  }

  -- Whatever statements fail, where `Start` replies ok the runs have one more row, last, with the
  -- id, the project, the state running, the time that `Start` read first as its time of creation,
  -- and that of the last statement as its time of update; each node and each job of a stage is
  -- pending, and every other node of every run is in the state that it was in; the log and the
  -- dispatcher are as they were, and the event was published behind those before. With any other
  -- reply there is no event, the runs are as they were or have one more row, which is pending, and
  -- the log and the dispatcher are as they were.
  pub start-Started : (w : World S) → Started w (Manager.start env run_id project now spec w)
  start-Started w = elim (create_run-cases env (new_run run_id project now) w.store) [
    | inl (refused, same) ↦ rw (start_refused w refused) (
      refl,
      inl (ap (λ (t : Tables). t.runs) same),
      record {
        log_chunks = ap (λ (t : Tables). t.log_chunks) same;
        next_log = ap (λ (t : Tables). t.next_log) same;
        dispatcher = refl;
      },
    )
    | inr (created, free, e) ↦ rw (start_created w created) (
        finish_start-Started w (opened w) (seed_nodes env run_id spec.nodes (opened w)) _
          (opened-IsCreated w free e) (seed_nodes-Seeded run_id env spec.nodes (opened w))
          (set_running-IsUpdate env run_id (seed_nodes env run_id spec.nodes (opened w)).1))
  ]
