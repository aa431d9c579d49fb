-- ===== src/Db.antt =====
-- internal/db: the records of db.go and the statements of sqlite.go, each on the tables that it
-- reads and writes; Db/Postgres has those of postgres.go. A time is a number of milliseconds.
pub mod Store
pub mod Keys
pub mod Sorting
pub mod Postgres
pub mod Logs
use brazier.Base.{
  ℕ, zero, suc, ◌+◌, Text, ◌==◌, Bool, true, false, ◌&&◌, ◌||◌, Option, none, some, List, [], ◌∷◌,
  ◌++◌, any, keep, ltb, leb, nat_eq, if◌then◌else◌,
}

pub data RunState : Type 0 where
  pending running success failed cancelled : RunState

pub data NodeState : Type 0 where
  pending running success failed skipped : NodeState

pub record PipelineRun : Type 0 where
  pub id : Text
  pub project : Text
  pub state : RunState
  pub created_at : ℕ
  pub updated_at : ℕ

pub record NodeRecord : Type 0 where
  pub run_id : Text
  pub node_id : Text
  pub job_id : Text
  pub state : NodeState
  pub updated_at : ℕ

pub record LogChunk : Type 0 where
  pub job_id : Text
  pub run_id : Text
  pub timestamp : ℕ
  pub line : Text
  pub stderr : Bool

-- A row of `log_chunks`: its `id`, and the columns of a chunk.
pub record LogRow : Type 0 where
  pub id : ℕ
  pub chunk : LogChunk

-- The three tables, and the next value of AUTOINCREMENT. A row stands behind the older ones.
pub record Tables : Type 0 where
  pub runs : List PipelineRun
  pub nodes : List NodeRecord
  pub log_chunks : List LogRow
  pub next_log : ℕ

abbrev pub empty : Tables
empty = record { runs = []; nodes = []; log_chunks = []; next_log = 1 }

-- CREATE TABLE IF NOT EXISTS: tables that are there stay.
abbrev pub migrate : Option Tables → Tables
migrate none = empty
migrate (some t) = t

-- What opening a database returns; where the migration fails, the connection is closed.
pub data Opened : Type 0 where
  open_failed migrate_failed : Opened
  opened : Tables → Opened

unfoldable pub open_sqlite : (opens migrates : Bool) → Option Tables → Opened
open_sqlite opens migrates t =
    if opens then (if migrates then opened (migrate t) else migrate_failed) else open_failed

abbrev pub has_run : Text → List PipelineRun → Bool
has_run id runs = any (λ r. r.id == id) runs

-- INSERT INTO pipeline_runs; `none` where the primary key is taken.
unfoldable pub create_run : PipelineRun → Tables → Option Tables
create_run run t =
    if has_run run.id t.runs then none else some (record t { runs = t.runs ++ run ∷ [] })

unfoldable pub find_run : Text → List PipelineRun → Option PipelineRun
find_run id [] = none
find_run id (r ∷ runs) = if r.id == id then some r else find_run id runs

unfoldable pub get_run : Text → Tables → Option PipelineRun
get_run id t = find_run id t.runs

unfoldable pub set_state : ℕ → Text → RunState → List PipelineRun → List PipelineRun
set_state now id state [] = []
set_state now id state (r ∷ runs) =
    (if r.id == id then record r { state = state; updated_at = now } else r)
    ∷ set_state now id state runs

-- UPDATE pipeline_runs SET state, updated_at WHERE id. No row is not an error.
unfoldable pub update_run_state : ℕ → Text → RunState → Tables → Tables
update_run_state now id state t = record t { runs = set_state now id state t.runs }

abbrev pub same_key : NodeRecord → NodeRecord → Bool
same_key m n = m.run_id == n.run_id && m.node_id == n.node_id

unfoldable pub upsert : NodeRecord → List NodeRecord → List NodeRecord
upsert n [] = n ∷ []
upsert n (m ∷ ms) = if same_key m n then n ∷ ms else m ∷ upsert n ms

-- INSERT INTO nodes … ON CONFLICT(run_id, node_id) DO UPDATE
unfoldable pub upsert_node : ℕ → NodeRecord → Tables → Tables
upsert_node now n t = record t { nodes = upsert (record n { updated_at = now }) t.nodes }

unfoldable pub find_node : Text → Text → List NodeRecord → Option NodeRecord
find_node run_id node_id [] = none
find_node run_id node_id (m ∷ ms) =
    if m.run_id == run_id && m.node_id == node_id then some m else find_node run_id node_id ms

unfoldable pub get_node : Text → Text → Tables → Option NodeRecord
get_node run_id node_id t = find_node run_id node_id t.nodes

unfoldable pub list_nodes : Text → Tables → List NodeRecord
list_nodes run_id t = keep (λ m. m.run_id == run_id) t.nodes

-- ORDER BY: a row goes behind those that it does not precede.
unfoldable pub insert_by {ℓ} : {A : Type ℓ} → (A → A → Bool) → A → List A → List A
insert_by precedes x [] = x ∷ []
insert_by precedes x (y ∷ ys) =
    let later = y ∷ insert_by precedes x ys in if precedes x y then x ∷ y ∷ ys else later

unfoldable pub order_by {ℓ} : {A : Type ℓ} → (A → A → Bool) → List A → List A
order_by precedes [] = []
order_by precedes (x ∷ xs) = insert_by precedes x (order_by precedes xs)

-- LIMIT
abbrev pub take {ℓ} : {A : Type ℓ} → ℕ → List A → List A
take zero xs = []
take (suc n) [] = []
take (suc n) (x ∷ xs) = x ∷ take n xs

abbrev pub newer : PipelineRun → PipelineRun → Bool
newer r s = leb s.created_at r.created_at

unfoldable pub list_runs : Text → ℕ → Tables → List PipelineRun
list_runs project limit t = take limit (order_by newer (keep (λ r. r.project == project) t.runs))

-- INSERT INTO log_chunks
unfoldable pub append_log : LogChunk → Tables → Tables
append_log chunk t = record t {
  log_chunks = t.log_chunks ++ record { id = t.next_log; chunk = chunk } ∷ [];
  next_log = suc t.next_log;
}

-- ORDER BY timestamp, id
abbrev pub earlier : LogRow → LogRow → Bool
earlier r s =
    ltb r.chunk.timestamp s.chunk.timestamp
    || (nat_eq r.chunk.timestamp s.chunk.timestamp && leb r.id s.id)

abbrev pub chunks_of : List LogRow → List LogChunk
chunks_of [] = []
chunks_of (r ∷ rows) = r.chunk ∷ chunks_of rows

abbrev pub of_job : Text → Text → LogRow → Bool
of_job run_id job_id r = r.chunk.run_id == run_id && r.chunk.job_id == job_id

unfoldable pub get_logs : Text → Text → Tables → List LogChunk
get_logs run_id job_id t = chunks_of (order_by earlier (keep (of_job run_id job_id) t.log_chunks))
