-- ===== src/Db/Store.antt =====
-- A connection to the database: each method of the `DB` interface runs one statement, which may
-- fail. The environment says which statements fail, and what the clock shows at each.
use brazier.Base.{ℕ, suc, Text, Bool, Option, none, some, List, if◌then◌else◌}
use brazier.Db
use brazier.Db.{RunState, NodeState, PipelineRun, NodeRecord, LogChunk, Tables}

pub record Env : Type 0 where
  pub fails : ℕ → Bool
  pub now : ℕ → ℕ

-- The tables, and how many statements were run.
pub record Store : Type 0 where
  pub tables : Tables
  pub calls : ℕ

module _ (env : Env) where
  -- A statement that writes: `none` is an error, which leaves the tables as they were.
  unfoldable pub execute : (ℕ → Tables → Option Tables) → Store → Bool × Store
  execute statement s =
      let after = record s { calls = suc s.calls } in
      if env.fails s.calls
      then (Bool.false, after)
      else elim (statement (env.now s.calls) s.tables) [
        | none ↦ (Bool.false, after)
        | some tables ↦ (Bool.true, record after { tables = tables })
      ]

  -- A statement that reads.
  unfoldable pub query {ℓ} : {A : Type ℓ} → (Tables → Option A) → Store → Option A × Store
  query read s =
      let after = record s { calls = suc s.calls } in
      if env.fails s.calls then (none, after) else (read s.tables, after)

  unfoldable pub create_run : PipelineRun → Store → Bool × Store
  create_run run = execute (λ now t. Db.create_run run t)

  unfoldable pub update_run_state : Text → RunState → Store → Bool × Store
  update_run_state id state = execute (λ now t. some (Db.update_run_state now id state t))

  unfoldable pub upsert_node : NodeRecord → Store → Bool × Store
  upsert_node n = execute (λ now t. some (Db.upsert_node now n t))

  unfoldable pub append_log : LogChunk → Store → Bool × Store
  append_log chunk = execute (λ now t. some (Db.append_log chunk t))

  unfoldable pub get_run : Text → Store → Option PipelineRun × Store
  get_run id = query (Db.get_run id)

  unfoldable pub list_nodes : Text → Store → Option (List NodeRecord) × Store
  list_nodes run_id = query (λ t. some (Db.list_nodes run_id t))

  unfoldable pub list_runs : Text → ℕ → Store → Option (List PipelineRun) × Store
  list_runs project limit = query (λ t. some (Db.list_runs project limit t))

  unfoldable pub get_logs : Text → Text → Store → Option (List LogChunk) × Store
  get_logs run_id job_id = query (λ t. some (Db.get_logs run_id job_id t))
