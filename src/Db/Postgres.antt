-- ===== src/Db/Postgres.antt =====
-- internal/db/postgres.go: the statements on PostgreSQL. The server returns rows without an ORDER BY,
-- and rows that tie in one, in an order of its own, and the ids of BIGSERIAL may leave gaps, as an
-- INSERT that fails has used one up; both are fields of `Server`, by the number of the statement. A
-- TEXT of PostgreSQL has no U+0000: a statement with one in a text fails.
pub mod Rows
pub mod Logs
pub mod Reads
pub mod Alike
pub mod Agreement
use brazier.Base.{
  ℕ, suc, ◌+◌, Text, ◌==◌, Bool, true, not, nat_eq, ◌&&◌, Option, none, some, List, [], ◌∷◌, ◌++◌,
  keep, if◌then◌else◌,
}
use brazier.Db.{
  RunState, NodeState, PipelineRun, NodeRecord, LogChunk, LogRow, Tables, empty, Opened, opened,
  open_failed, migrate_failed, has_run, set_state, upsert, order_by, take, newer, earlier, of_job,
  chunks_of,
}

pub record Server : Type 0 where
  pub runs_order : ℕ → List PipelineRun → List PipelineRun
  pub nodes_order : ℕ → List NodeRecord → List NodeRecord
  pub logs_order : ℕ → List LogRow → List LogRow
  pub skipped_ids : ℕ → ℕ

-- CREATE TABLE IF NOT EXISTS: tables that are there stay.
abbrev pub migrate : Option Tables → Tables
migrate none = empty
migrate (some t) = t

unfoldable pub open_postgres : (opens migrates : Bool) → Option Tables → Opened
open_postgres opens migrates t =
    if opens then (if migrates then opened (migrate t) else migrate_failed) else open_failed

-- QueryRow: the first row.
abbrev pub first_row {ℓ} : {A : Type ℓ} → List A → Option A
first_row [] = none
first_row (x ∷ xs) = some x

-- The text has no U+0000.
unfoldable pub is_plain : Text → Bool
is_plain [] = true
is_plain (c ∷ s) = not (nat_eq c 0) && is_plain s

unfoldable pub create_run : PipelineRun → Tables → Option Tables
create_run run t =
    if is_plain run.id && is_plain run.project
    then (if has_run run.id t.runs then none else some (record t { runs = t.runs ++ run ∷ [] }))
    else none

unfoldable pub update_run_state : ℕ → Text → RunState → Tables → Option Tables
update_run_state now id state t =
    if is_plain id then some (record t { runs = set_state now id state t.runs }) else none

unfoldable pub upsert_node : ℕ → NodeRecord → Tables → Option Tables
upsert_node now n t =
    if is_plain n.run_id && (is_plain n.node_id && is_plain n.job_id)
    then some (record t { nodes = upsert (record n { updated_at = now }) t.nodes })
    else none

module _ (server : Server) (k : ℕ) where
  -- The id of the row is the next one of the sequence that no statement has used up.
  unfoldable pub append_log : LogChunk → Tables → Option Tables
  append_log chunk t =
      let id = t.next_log + server.skipped_ids k in
      if is_plain chunk.job_id && (is_plain chunk.run_id && is_plain chunk.line)
      then some (record t {
        log_chunks = t.log_chunks ++ record { id = id; chunk = chunk } ∷ [];
        next_log = suc id;
      })
      else none

  unfoldable pub get_run : Text → Tables → Option PipelineRun
  get_run id t =
      if is_plain id then first_row (server.runs_order k (keep (λ r. r.id == id) t.runs)) else none

  unfoldable pub list_runs : Text → ℕ → Tables → Option (List PipelineRun)
  list_runs project limit t =
      if is_plain project
      then some (
          take limit
            (order_by newer (server.runs_order k (keep (λ r. r.project == project) t.runs))))
      else none

  unfoldable pub get_node : Text → Text → Tables → Option NodeRecord
  get_node run_id node_id t =
      if is_plain run_id && is_plain node_id
      then first_row
          (server.nodes_order k (keep (λ m. m.run_id == run_id && m.node_id == node_id) t.nodes))
      else none

  unfoldable pub list_nodes : Text → Tables → Option (List NodeRecord)
  list_nodes run_id t =
      if is_plain run_id
      then some (server.nodes_order k (keep (λ m. m.run_id == run_id) t.nodes))
      else none

  unfoldable pub get_logs : Text → Text → Tables → Option (List LogChunk)
  get_logs run_id job_id t =
      if is_plain run_id && is_plain job_id
      then some (
          chunks_of
            (order_by earlier (server.logs_order k (keep (of_job run_id job_id) t.log_chunks))))
      else none
