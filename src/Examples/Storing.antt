-- ===== src/Examples/Storing.antt =====
-- The statements of the database at a small database.
use mathlib.Core.List.{Perm, reverse}
use mathlib.Core.List.Permᴰ
use brazier.Base.{ℕ, text, ◌==◌, ◌≡◌, refl, true, false, none, some, All, List, [], ◌∷◌, keep}
use brazier.Db
use brazier.Db.{
  NodeState, NodeRecord, LogRow, empty, upsert_node, earlier, of_job, chunks_of, get_logs, has_run,
}
use brazier.Db.Keys.{IsKeyed, Statement, create, put, append, apply-IsKeyed}
use brazier.Db.Sorting.{Ordered}
use brazier.Db.Logs.{get_logs-Ordered}
use brazier.Db.Postgres
use brazier.Db.Postgres.{Server}
use brazier.Db.Postgres.Alike.{IsServer}
use brazier.Db.Postgres.Agreement.{on_sqlite, on_postgres, IsPlain, on_postgres-on_sqlite}
use brazier.Examples.{row, run, line, half_done, half_done-IsKeyed}

apply-IsKeyed_example : IsKeyed (upsert_node 9 (row (text "test") NodeState.running) half_done)
apply-IsKeyed_example =
    apply-IsKeyed 9 (put (row (text "test") NodeState.running)) half_done
      (upsert_node 9 (row (text "test") NodeState.running) half_done) refl half_done-IsKeyed

half_done_logs :
    (rows : List LogRow) × (get_logs (text "r") (text "lint") half_done ≡ chunks_of rows)
    × Ordered earlier rows
    × Perm rows (keep (of_job (text "r") (text "lint")) half_done.log_chunks)
half_done_logs = get_logs-Ordered (text "r") (text "lint") half_done

-- A server that returns rows backwards, and uses an id up before each row.
abbrev backwards : Server
backwards = record {
  runs_order = λ k rows. reverse rows;
  nodes_order = λ k rows. reverse rows;
  logs_order = λ k rows. reverse rows;
  skipped_ids = λ k. 1;
}

backwards-IsServer : IsServer backwards
backwards-IsServer = record {
  runs = λ k rows. Permᴰ.reverse rows;
  nodes = λ k rows. Permᴰ.reverse rows;
  logs = λ k rows. Permᴰ.reverse rows;
}

abbrev statements : List (ℕ × Statement)
statements =
    (1, create run)
    ∷ (2, create run)
    ∷ (3, put (row (text "lint") NodeState.running))
    ∷ (4, append (line (text "one") 7))
    ∷ (5, append (line (text "two") 7))
    ∷ []

-- The run is there when it is created again.
statements_succeed : (on_sqlite statements).0 ≡ true ∷ false ∷ true ∷ true ∷ true ∷ []
unfolding Db.create_run text ◌==◌
statements_succeed = refl

statements-IsPlain : All (λ (now, s). IsPlain s) statements
unfolding Postgres.is_plain text
statements-IsPlain = (
  (refl, (refl, tt)),
  (
    (refl, (refl, tt)),
    ((refl, (refl, (refl, tt))), ((refl, (refl, (refl, tt))), ((refl, (refl, (refl, tt))), tt))),
  ),
)

ids-plain : (Postgres.is_plain (text "r") ≡ true) × (Postgres.is_plain (text "lint") ≡ true)
unfolding Postgres.is_plain text
ids-plain = (refl, refl)

-- A line with a U+0000 is stored by the one database and refused by the other.
nul_refused : Postgres.append_log backwards 0 (line (0 ∷ []) 7) empty ≡ none
unfolding Postgres.append_log Postgres.is_plain text
nul_refused = refl

on_postgres-on_sqlite_example :
    let (done, t) = on_sqlite statements in
    let (done', u) = on_postgres backwards statements in
    (done' ≡ done)
    × (Postgres.get_run backwards 5 (text "r") u ≡ Db.get_run (text "r") t)
    × (Postgres.get_node backwards 5 (text "r") (text "lint") u
        ≡ Db.get_node (text "r") (text "lint") t)
    × ((ms : List NodeRecord) × (Postgres.list_nodes backwards 5 (text "r") u ≡ some ms)
        × Perm ms (Db.list_nodes (text "r") t))
    × (Postgres.get_logs backwards 5 (text "r") (text "lint") u
        ≡ some (Db.get_logs (text "r") (text "lint") t))
on_postgres-on_sqlite_example =
    on_postgres-on_sqlite backwards statements 5 (text "r") (text "lint") backwards-IsServer
      statements-IsPlain ids-plain.0 ids-plain.1
