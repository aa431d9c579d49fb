-- ===== src/Pipeline/Manager/Seeding.antt =====
-- The rows that `Start` makes for the nodes of a pipeline and for the jobs of its stages.
use brazier.Base.{
  suc, Text, text, ◌==◌, ==_iff, ◌≡◌, refl, ◌∙◌, Bool, true, false, ◌&&◌, Option, none, some, List,
  [], ◌∷◌, ◌++◌, contains, contains-append, arith, if◌then◌else◌, Bool-cases, inl, inr,
}
use brazier.Proto.{Node, id_of, get_stage}
use brazier.Db
use brazier.Db.{NodeState, Tables, PipelineRun}
use brazier.Db.Keys.{get_node-upsert_node}
use brazier.Db.Store
use brazier.Db.Store.{Env, Store}
use brazier.Pipeline.Scheduler.{World, node_record}
use brazier.Pipeline.Scheduler.Snapshot.{state_in}
use brazier.Pipeline.Manager.{
  Reply, ok, create_failed, seed_failed, update_failed, upsert_failed, list_failed, put, seed_jobs,
  seed_stage, seed_nodes,
}

abbrev pub job_ids : Text → List Node → List Text
job_ids id [] = []
job_ids id (j ∷ jobs) = (id ++ (text "/" ++ id_of j)) ∷ job_ids id jobs

abbrev pub stage_ids : Text → Option (List Node) → List Text
stage_ids id none = []
stage_ids id (some jobs) = job_ids id jobs

-- The ids of the rows, in the order in which they are made.
abbrev pub seeded_ids : List Node → List Text
seeded_ids [] = []
seeded_ids (n ∷ ns) = id_of n ∷ stage_ids (id_of n) (get_stage n) ++ seeded_ids ns

module _ {S : Type 0} (run_id : Text) where
  -- The nodes in `ids` are pending, and the others as they were.
  abbrev pub Marks : List Text → World S → World S → Type 0
  Marks ids v w =
      (r id : Text)
      → state_in r id w.store.tables ≡ (
          if run_id == r && contains id ids
          then some NodeState.pending
          else state_in r id v.store.tables)

  -- The runs, the log, the dispatcher and the events are as they were.
  pub record IsQuiet (v w : World S) : Type 0 where
    pub runs : w.store.tables.runs ≡ v.store.tables.runs
    pub log_chunks : w.store.tables.log_chunks ≡ v.store.tables.log_chunks
    pub next_log : w.store.tables.next_log ≡ v.store.tables.next_log
    pub dispatcher : w.dispatcher ≡ v.dispatcher
    pub published : w.published ≡ v.published

  IsQuiet-trans : {u v w : World S} → IsQuiet u v → IsQuiet v w → IsQuiet u w
  IsQuiet-trans p q = record {
    runs = q.runs ∙ p.runs;
    log_chunks = q.log_chunks ∙ p.log_chunks;
    next_log = q.next_log ∙ p.next_log;
    dispatcher = q.dispatcher ∙ p.dispatcher;
    published = q.published ∙ p.published;
  }

  IsQuiet-refl : (w : World S) → IsQuiet w w
  IsQuiet-refl w = record {
    runs = refl;
    log_chunks = refl;
    next_log = refl;
    dispatcher = refl;
    published = refl;
  }

  -- Where the result is true the rows are made.
  abbrev Made : List Text → World S → Bool × World S → Type 0
  Made ids v (true, w) = Marks ids v w × IsQuiet v w
  Made ids v (false, w) = IsQuiet v w

  Marks-nil : (w : World S) → Marks [] w w
  unfolding contains
  Marks-nil w r id = ground arith

  Marks-append :
      (ids more : List Text) (u v w : World S)
      → Marks ids u v
      → Marks more v w
      → Marks (ids ++ more) u w
  Marks-append ids more u v w h k r id = ground (arith, h r id, k r id, contains-append id ids more)

  Made-then :
      (ids more : List Text) (u : World S) (p q : Bool × World S)
      → Made ids u p
      → Made more p.1 q
      → Made (ids ++ more) u (if p.0 then q else (false, p.1))
  Made-then ids more u (false, v) q h k = h
  Made-then ids more u (true, v) (false, w) h k = IsQuiet-trans h.1 k
  Made-then ids more u (true, v) (true, w) h k =
      (Marks-append ids more u v w h.0 k.0, IsQuiet-trans h.1 k.1)

  module _ (env : Env) where
    pub put-done :
        (id : Text) (state : NodeState) (w : World S)
        → env.fails w.store.calls ≡ false
        → put env run_id id state w ≡ (
          true,
          record w {
            store = record {
              tables =
                  Db.upsert_node
                    (env.now w.store.calls)
                    (node_record run_id id state)
                    w.store.tables;
              calls = suc w.store.calls;
            };
          },
        )
    unfolding put Store.upsert_node Store.execute
    put-done id state w fine = rw fine

    put-failed :
        (id : Text) (state : NodeState) (w : World S)
        → env.fails w.store.calls ≡ true
        → put env run_id id state w
          ≡ (false, record w { store = record w.store { calls = suc w.store.calls } })
    unfolding put Store.upsert_node Store.execute
    put-failed id state w failed = rw failed

    put-Made : (id : Text) (w : World S) → Made (id ∷ []) w (put env run_id id NodeState.pending w)
    unfolding state_in contains Db.upsert_node
    put-Made id w = elim (Bool-cases (env.fails w.store.calls)) [
      | inl failed ↦ rw (put-failed id NodeState.pending w failed) (record {
        runs = refl;
        log_chunks = refl;
        next_log = refl;
        dispatcher = refl;
        published = refl;
      })
      | inr fine ↦ rw (put-done id NodeState.pending w fine) (
        λ r i. ground (
          arith,
          get_node-upsert_node (env.now w.store.calls) r i (node_record run_id id NodeState.pending)
              w.store.tables,
          ==_iff id i,
          ==_iff i id,
        ),
        record {
          runs = refl;
          log_chunks = refl;
          next_log = refl;
          dispatcher = refl;
          published = refl;
        },
      )
    ]

    seed_jobs-Made :
        (id : Text) (jobs : List Node) (w : World S)
        → Made (job_ids id jobs) w (seed_jobs env run_id id jobs w)
    unfolding seed_jobs
    seed_jobs-Made id [] w = (Marks-nil w, IsQuiet-refl w)
    seed_jobs-Made id (j ∷ jobs) w =
        let row = id ++ (text "/" ++ id_of j) in
        let p = put env run_id row NodeState.pending w in
        Made-then (row ∷ []) (job_ids id jobs) w p (seed_jobs env run_id id jobs p.1)
          (put-Made row w) (seed_jobs-Made id jobs p.1)

    seed_stage-Made :
        (n : Node) (w : World S)
        → Made (stage_ids (id_of n) (get_stage n)) w (seed_stage env run_id n w)
    unfolding seed_stage
    seed_stage-Made n w =
        elim (get_stage n)
          as (λ o. Made (stage_ids (id_of n) o) w (elim o as (λ _. Bool × World S) [
            | none ↦ (true, w)
            | some jobs ↦ seed_jobs env run_id (id_of n) jobs w
          ])) [ none ↦ (Marks-nil w, IsQuiet-refl w) | some jobs ↦ seed_jobs-Made (id_of n) jobs w ]

    -- Where `seed_nodes` replies ok the rows are made.
    abbrev pub Seeded : List Text → World S → Reply (Unit {0}) × World S → Type 0
    Seeded ids v (ok _, w) = Marks ids v w × IsQuiet v w
    Seeded ids v (create_failed, w) = IsQuiet v w
    Seeded ids v (seed_failed _, w) = IsQuiet v w
    Seeded ids v (update_failed, w) = IsQuiet v w
    Seeded ids v (upsert_failed, w) = IsQuiet v w
    Seeded ids v (list_failed, w) = IsQuiet v w

    Seeded-then :
        (failure : Reply (Unit {0})) (ids more : List Text) (u : World S) (p : Bool × World S)
        (q : Reply (Unit {0}) × World S)
        → Made ids u p
        → ((v : World S) → IsQuiet u v → Seeded (ids ++ more) u (failure, v))
        → Seeded more p.1 q
        → Seeded (ids ++ more) u (if p.0 then q else (failure, p.1))
    Seeded-then failure ids more u (false, v) q h failed k = failed v h
    Seeded-then failure ids more u (true, v) (ok _, w) h failed k =
        (Marks-append ids more u v w h.0 k.0, IsQuiet-trans h.1 k.1)
    Seeded-then failure ids more u (true, v) (create_failed, w) h failed k = IsQuiet-trans h.1 k
    Seeded-then failure ids more u (true, v) (seed_failed _, w) h failed k = IsQuiet-trans h.1 k
    Seeded-then failure ids more u (true, v) (update_failed, w) h failed k = IsQuiet-trans h.1 k
    Seeded-then failure ids more u (true, v) (upsert_failed, w) h failed k = IsQuiet-trans h.1 k
    Seeded-then failure ids more u (true, v) (list_failed, w) h failed k = IsQuiet-trans h.1 k

    pub seed_nodes-Seeded :
        (ns : List Node) (w : World S) → Seeded (seeded_ids ns) w (seed_nodes env run_id ns w)
    unfolding seed_nodes
    seed_nodes-Seeded [] w = (Marks-nil w, IsQuiet-refl w)
    seed_nodes-Seeded (n ∷ ns) w =
        let p = put env run_id (id_of n) NodeState.pending w in
        let q = seed_stage env run_id n p.1 in
        let ids = stage_ids (id_of n) (get_stage n) in
        Seeded-then (seed_failed (id_of n)) (id_of n ∷ []) (ids ++ seeded_ids ns) w p _
          (put-Made (id_of n) w) (λ v quiet. quiet)
          (Seeded-then upsert_failed ids (seeded_ids ns) p.1 q (seed_nodes env run_id ns q.1)
            (seed_stage-Made n p.1) (λ v quiet. quiet) (seed_nodes-Seeded ns q.1))
