-- ===== src/Db/Postgres/Agreement.antt =====
-- The two databases, given the same statements.
use mathlib.Core.List.{Perm}
use brazier.Base.{
  ℕ, suc, ◌+◌, ◌<◌, Text, ◌≡◌, refl, sym, ◌∙◌, ap, Bool, true, false, Option, none, some, List, [],
  ◌∷◌, ◌++◌, All, All-snoc, All-weaken, Bool-cases, inl, inr, arith,
}
use brazier.Db
use brazier.Db.{
  PipelineRun, NodeRecord, LogChunk, LogRow, Tables, empty, has_run, find_run, find_node, order_by,
  earlier, of_job, chunks_of,
}
use brazier.Db.Keys.{
  Statement, create, update, put, append, apply, apply-IsKeyed, IsKeyed, Ascending-snoc,
}
use brazier.Db.Postgres
use brazier.Db.Postgres.{Server, is_plain}
use brazier.Db.Postgres.Alike.{IsServer, IsAlike, views}

chunks_of-snoc :
    (rows : List LogRow) (r : LogRow) → chunks_of (rows ++ r ∷ []) ≡ chunks_of rows ++ r.chunk ∷ []
chunks_of-snoc [] r = refl
chunks_of-snoc (s ∷ rows) r = ap (λ cs. s.chunk ∷ cs) (chunks_of-snoc rows r)

-- The texts of a statement.
abbrev pub texts_of : Statement → List Text
texts_of (create run) = run.id ∷ run.project ∷ []
texts_of (update id state) = id ∷ []
texts_of (put n) = n.run_id ∷ n.node_id ∷ n.job_id ∷ []
texts_of (append chunk) = chunk.job_id ∷ chunk.run_id ∷ chunk.line ∷ []

-- No text of the statement has a U+0000.
abbrev pub IsPlain : Statement → Type 0
IsPlain s = All (λ t. is_plain t ≡ true) (texts_of s)

-- A statement that fails leaves the tables alone.
abbrev settled : Option Tables → Tables → Tables
settled none t = t
settled (some t') t = t'

abbrev succeeded : Option Tables → Bool
succeeded none = false
succeeded (some t) = true

abbrev postgres_apply : Server → ℕ → ℕ → Statement → Tables → Option Tables
postgres_apply server k now (create run) t = Postgres.create_run run t
postgres_apply server k now (update id state) t = Postgres.update_run_state now id state t
postgres_apply server k now (put n) t = Postgres.upsert_node now n t
postgres_apply server k now (append chunk) t = Postgres.append_log server k chunk t

module _ (server : Server) (k now : ℕ) where
  settled-IsKeyed : (s : Statement) (t : Tables) → IsKeyed t → IsKeyed (settled (apply now s t) t)
  settled-IsKeyed s t keyed = go (apply now s t) refl
    where
      go : (r : Option Tables) → apply now s t ≡ r → IsKeyed (settled r t)
      go none e = keyed
      go (some t') e = apply-IsKeyed now s t t' e keyed

  apply-IsAlike :
      (s : Statement) (t u : Tables)
      → IsPlain s
      → IsAlike t u
      → (succeeded (postgres_apply server k now s u) ≡ succeeded (apply now s t))
        × IsAlike (settled (apply now s t) t) (settled (postgres_apply server k now s u) u)
  unfolding Db.create_run Postgres.create_run Db.update_run_state Postgres.update_run_state
      Db.upsert_node Postgres.upsert_node Db.append_log Postgres.append_log
  apply-IsAlike (create run) t u (plain₁, (plain₂, _)) a =
      elim (Bool-cases (has_run run.id t.runs)) [
        | inl taken ↦
            let taken' : has_run run.id u.runs ≡ true = rw a.runs taken in
            rw (Db.create_run, Postgres.create_run, plain₁, plain₂, taken, taken') (refl, a)
        | inr fresh ↦
            let keyed' = rw (Db.create_run, fresh) at (settled-IsKeyed (create run) t a.keyed) in
            let fresh' : has_run run.id u.runs ≡ false = rw a.runs fresh in
            rw (Db.create_run, Postgres.create_run, plain₁, plain₂, fresh, fresh')
              (
                refl,
                record {
                  keyed = keyed';
                  runs = ap (λ rs. rs ++ run ∷ []) a.runs;
                  nodes = a.nodes;
                  chunks = a.chunks;
                  ascending = a.ascending;
                  below = a.below;
                  counted = a.counted;
                },
              )
      ]
  apply-IsAlike (update id state) t u (plain, _) a =
      rw (Postgres.update_run_state, plain)
        (
          refl,
          record {
            keyed = settled-IsKeyed (update id state) t a.keyed;
            runs = ap (Db.set_state now id state) a.runs;
            nodes = a.nodes;
            chunks = a.chunks;
            ascending = a.ascending;
            below = a.below;
            counted = a.counted;
          },
        )
  apply-IsAlike (put n) t u (plain₁, (plain₂, (plain₃, _))) a =
      rw (Postgres.upsert_node, plain₁, plain₂, plain₃)
        (
          refl,
          record {
            keyed = settled-IsKeyed (put n) t a.keyed;
            runs = a.runs;
            nodes = ap (Db.upsert (record n { updated_at = now })) a.nodes;
            chunks = a.chunks;
            ascending = a.ascending;
            below = a.below;
            counted = a.counted;
          },
        )
  apply-IsAlike (append chunk) t u (plain₁, (plain₂, (plain₃, _))) a =
      let id = u.next_log + server.skipped_ids k in
      let row : LogRow = record { id = id; chunk = chunk } in
      rw (Postgres.append_log, plain₁, plain₂, plain₃)
        (
          refl,
          record {
            keyed = settled-IsKeyed (append chunk) t a.keyed;
            runs = a.runs;
            nodes = a.nodes;
            chunks =
                chunks_of-snoc u.log_chunks row
                ∙ ap (λ cs. cs ++ chunk ∷ []) a.chunks
                ∙ sym (chunks_of-snoc t.log_chunks (record { id = t.next_log; chunk = chunk }));
            ascending =
                Ascending-snoc 1 id row u.log_chunks a.ascending
                  (All-weaken (λ r. r.id < u.next_log) _ u.log_chunks (λ r lt. omega arith) a.below)
                  (omega (arith, a.counted)) refl;
            below =
                All-snoc (λ r. r.id < suc id) u.log_chunks row
                  (All-weaken (λ r. r.id < u.next_log) _ u.log_chunks (λ r lt. omega arith) a.below)
                  (omega arith);
            counted = omega arith;
          },
        )

empty-IsKeyed : IsKeyed empty
empty-IsKeyed = record { nodes = tt; runs = tt; ascending = tt; below = tt; counted = omega arith }

-- Statements, each at its time, one after the other from the statement `k` on: which of them
-- succeeded, and the tables behind them.
abbrev pub apply_all :
    (ℕ → ℕ → Statement → Tables → Option Tables)
    → ℕ
    → List (ℕ × Statement)
    → Tables
    → List Bool × Tables
apply_all run k [] t = ([], t)
apply_all run k ((now, s) ∷ rest) t =
    let after = run k now s t in
    let (done, last) = apply_all run (suc k) rest (settled after t) in
    (succeeded after ∷ done, last)

abbrev pub on_sqlite : List (ℕ × Statement) → List Bool × Tables
on_sqlite statements = apply_all (λ k. apply) 0 statements (Db.migrate none)

abbrev pub on_postgres : Server → List (ℕ × Statement) → List Bool × Tables
on_postgres server statements =
    apply_all (postgres_apply server) 0 statements (Postgres.migrate none)

module _ (server : Server) where
  apply_all-IsAlike :
      (k : ℕ) (statements : List (ℕ × Statement)) (t u : Tables)
      → All (λ (now, s). IsPlain s) statements
      → IsAlike t u
      → ((apply_all (postgres_apply server) k statements u).0
          ≡ (apply_all (λ k. apply) k statements t).0)
        × IsAlike
            (apply_all (λ k. apply) k statements t).1
            (apply_all (postgres_apply server) k statements u).1
  apply_all-IsAlike k [] t u plain a = (refl, a)
  apply_all-IsAlike k ((now, s) ∷ rest) t u plain a =
      let (same, b) = apply-IsAlike server k now s t u plain.0 a in
      let (more, c) = apply_all-IsAlike (suc k) rest _ _ plain.1 b in (rw (same, more) refl, c)

  -- Where PostgreSQL returns the rows that were selected in any order, and uses any ids up, and no
  -- text of the statements and no id that is read has a U+0000, the same statements, at the same
  -- times and from new databases, succeed on PostgreSQL where they do on SQLite, and any run, node and log of a job read from PostgreSQL afterwards is what SQLite
  -- returns, and the nodes listed for a run are those of SQLite in some order.
  pub on_postgres-on_sqlite :
      (statements : List (ℕ × Statement)) (k : ℕ) (run_id id : Text)
      → IsServer server
      → All (λ (now, s). IsPlain s) statements
      → is_plain run_id ≡ true
      → is_plain id ≡ true
      → let (done, t) = on_sqlite statements in
        let (done', u) = on_postgres server statements in
        (done' ≡ done)
        × (Postgres.get_run server k run_id u ≡ Db.get_run run_id t)
        × (Postgres.get_node server k run_id id u ≡ Db.get_node run_id id t)
        × ((ms : List NodeRecord) × (Postgres.list_nodes server k run_id u ≡ some ms)
            × Perm ms (Db.list_nodes run_id t))
        × (Postgres.get_logs server k run_id id u ≡ some (Db.get_logs run_id id t))
  on_postgres-on_sqlite statements k run_id id orders plain plain_run plain_id =
      let (same, a) = apply_all-IsAlike 0 statements empty empty plain (record {
        keyed = empty-IsKeyed;
        runs = refl;
        nodes = refl;
        chunks = refl;
        ascending = tt;
        below = tt;
        counted = omega arith;
      }) in
      let t = (on_sqlite statements).1 in
      let u = (on_postgres server statements).1 in
      let (run, node, nodes, logs) = views server t u k run_id id a orders plain_run plain_id in
      (same, run, node, nodes, logs)
