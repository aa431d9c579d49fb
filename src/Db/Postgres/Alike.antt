-- ===== src/Db/Postgres/Alike.antt =====
-- What is read from two databases with the same rows.
use mathlib.Core.List.{Perm, Permᴰ}
use brazier.Base.{ℕ, ◌≤◌, ◌<◌, Text, ◌==◌, ◌≡◌, refl, ◌∙◌, ap, true, some, List, All, keep, subst}
use brazier.Db
use brazier.Db.{
  PipelineRun, NodeRecord, LogChunk, LogRow, Tables, empty, has_run, find_run, find_node, order_by,
  earlier, of_job, chunks_of,
}
use brazier.Db.Keys.{IsKeyed, Ascending}
use brazier.Db.Postgres
use brazier.Db.Postgres.{Server, is_plain, first_row}
use brazier.Db.Postgres.Reads.{rows_of, first_row-any_order, keep-find_run, keep-find_node, has_key}
use brazier.Db.Postgres.Logs.{order_by-any_order, chunks_of-same}

-- The rows that the server returns are the rows that were selected.
pub record IsServer (server : Server) : Type 0 where
  pub runs : (k : ℕ) (rows : List PipelineRun) → Permᴰ (server.runs_order k rows) rows
  pub nodes : (k : ℕ) (rows : List NodeRecord) → Permᴰ (server.nodes_order k rows) rows
  pub logs : (k : ℕ) (rows : List LogRow) → Permᴰ (server.logs_order k rows) rows

-- The rows of `u`, in PostgreSQL, are those of `t` but for the ids of the chunks, which grow.
pub record IsAlike (t u : Tables) : Type 0 where
  pub keyed : IsKeyed t
  pub runs : u.runs ≡ t.runs
  pub nodes : u.nodes ≡ t.nodes
  pub chunks : chunks_of u.log_chunks ≡ chunks_of t.log_chunks
  pub ascending : Ascending 1 u.log_chunks
  pub below : All (λ r. r.id < u.next_log) u.log_chunks
  pub counted : 1 ≤ u.next_log

module _ (server : Server) where
  pub views :
      (t u : Tables) (k : ℕ) (run_id id : Text)
      → IsAlike t u
      → IsServer server
      → is_plain run_id ≡ true
      → is_plain id ≡ true
      → (Postgres.get_run server k run_id u ≡ Db.get_run run_id t)
        × (Postgres.get_node server k run_id id u ≡ Db.get_node run_id id t)
        × ((ms : List NodeRecord) × (Postgres.list_nodes server k run_id u ≡ some ms)
            × Perm ms (Db.list_nodes run_id t))
        × (Postgres.get_logs server k run_id id u ≡ some (Db.get_logs run_id id t))
  unfolding Postgres.get_run Db.get_run Postgres.get_node Db.get_node Postgres.list_nodes
      Db.list_nodes Postgres.get_logs Db.get_logs
  views t u k run_id id a orders plain_run plain_id =
      let runs = keep (λ r. r.id == run_id) u.runs in
      let nodes = keep (has_key run_id id) u.nodes in
      let logs = keep (of_job run_id id) u.log_chunks in
      let runs' : runs ≡ rows_of (find_run run_id t.runs) =
        ap (keep (λ r. r.id == run_id)) a.runs ∙ keep-find_run run_id t.runs a.keyed.runs in
      let nodes' : nodes ≡ rows_of (find_node run_id id t.nodes) =
        ap (keep (has_key run_id id)) a.nodes ∙ keep-find_node run_id id t.nodes a.keyed.nodes in
      rw
        (
          Postgres.get_run, Postgres.get_node, Postgres.list_nodes, Postgres.get_logs, plain_run,
          plain_id,
        )
        (
          first_row-any_order (find_run run_id t.runs) _
              (subst (Permᴰ (server.runs_order k runs)) runs' (orders.runs k runs)),
          first_row-any_order (find_node run_id id t.nodes) _
              (subst (Permᴰ (server.nodes_order k nodes)) nodes' (orders.nodes k nodes)),
          (
            _,
            refl,
            ∣ subst
                (λ ms.
                  Permᴰ (server.nodes_order k (keep (λ m. m.run_id == run_id) u.nodes))
                    (keep (λ m. m.run_id == run_id) ms))
                a.nodes (orders.nodes k (keep (λ m. m.run_id == run_id) u.nodes)) ∣₁,
          ),
          ap (λ rows. some (chunks_of rows))
                (order_by-any_order (of_job run_id id) 1 u.log_chunks _ a.ascending
                  (orders.logs k logs))
              ∙ ap some (
                  chunks_of-same run_id id 1 u.log_chunks t.log_chunks a.ascending a.keyed.ascending
                    a.chunks),
        )
