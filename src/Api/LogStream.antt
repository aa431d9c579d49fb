-- ===== src/Api/LogStream.antt =====
-- Log lines that are received by `SendLog`, and read back.
use mathlib.Core.List.{append_assoc, append-nil, map-append}
use brazier.Base.{
  ℕ, suc, Text, ◌==◌, ◌≡◌, ◌&&◌, refl, sym, ◌∙◌, ap, Bool, true, false, List, [], ◌∷◌, ◌++◌, keep,
  arith, if◌then◌else◌, subst, map, Bool-cases, inl, inr,
}
use brazier.Proto
use brazier.Db
use brazier.Db.{Tables, LogRow, chunks_of, of_job}
use brazier.Db.Keys.{IsKeyed, append_log-IsKeyed}
use brazier.Db.Logs.{Growing, get_logs_in_order}
use brazier.Db.Store
use brazier.Db.Store.{Env, Store}
use brazier.Pipeline.Scheduler.Refinement.{Reliable}
use brazier.Api.{stored, wire, send_log}

-- The chunk is of the job.
abbrev pub is_of : Text → Text → Proto.LogChunk → Bool
is_of run_id job_id c = c.run_id == run_id && c.job_id == job_id

-- The rows that the chunks of one job become, in the order of the list.
unfoldable lines_of : Text → Text → List Proto.LogChunk → List Db.LogChunk
lines_of run_id job_id [] = []
lines_of run_id job_id (c ∷ cs) =
    let rest = lines_of run_id job_id cs in
    if c.run_id == run_id && c.job_id == job_id then stored c ∷ rest else rest

-- The chunks of one job, in the order in which they were stored.
abbrev appended : Text → Text → Tables → List Db.LogChunk
appended run_id job_id t = chunks_of (keep (of_job run_id job_id) t.log_chunks)

chunks_of-keep-snoc :
    (run_id job_id : Text) (rows : List LogRow) (r : LogRow)
    → chunks_of (keep (of_job run_id job_id) (rows ++ r ∷ []))
      ≡ chunks_of (keep (of_job run_id job_id) rows)
        ++ (if of_job run_id job_id r then r.chunk ∷ [] else [])
chunks_of-keep-snoc run_id job_id [] r = ground arith
chunks_of-keep-snoc run_id job_id (s ∷ rows) r =
    ground (arith, chunks_of-keep-snoc run_id job_id rows r)

append-if :
    (b : Bool) (xs : List Db.LogChunk) (x : Db.LogChunk) (ys : List Db.LogChunk)
    → (xs ++ (if b then x ∷ [] else [])) ++ ys ≡ xs ++ (if b then x ∷ ys else ys)
append-if true xs x ys = append_assoc xs _ ys
append-if false xs x ys = append_assoc xs _ ys

Growing-init :
    (low : ℕ) (rows : List LogRow) (r : LogRow) → Growing low (rows ++ r ∷ []) → Growing low rows
Growing-init low [] r h = tt
Growing-init low (s ∷ rows) r h = (h.0, Growing-init s.chunk.timestamp rows r h.1)

-- A chunk that is stored and sent again is the chunk that was received.
wire-lines_of :
    (run_id job_id : Text) (cs : List Proto.LogChunk)
    → map wire (lines_of run_id job_id cs) ≡ keep (is_of run_id job_id) cs
unfolding lines_of
wire-lines_of run_id job_id [] = refl
wire-lines_of run_id job_id (c ∷ cs) = elim (Bool-cases (is_of run_id job_id c)) [
  | inl own ↦ rw own (ap (λ rest. c ∷ rest) (wire-lines_of run_id job_id cs))
  | inr other ↦ rw other (wire-lines_of run_id job_id cs)
]

module _ (env : Env) (reliable : Reliable env) where
  append_log-Reliable :
      (c : Db.LogChunk) (s : Store)
      → (Store.append_log env c s).1
        ≡ record { tables = Db.append_log c s.tables; calls = suc s.calls }
  unfolding Store.append_log Store.execute
  append_log-Reliable c s = rw (reliable s.calls)

  abbrev next : Proto.LogChunk → Store → Store
  next c s = record { tables = Db.append_log (stored c) s.tables; calls = suc s.calls }

  send_log-nil : (s : Store) → send_log env [] s ≡ s
  unfolding send_log
  send_log-nil s = refl

  send_log-cons :
      (c : Proto.LogChunk) (cs : List Proto.LogChunk) (s : Store)
      → send_log env (c ∷ cs) s ≡ send_log env cs (next c s)
  unfolding send_log
  send_log-cons c cs s = ap (send_log env cs) (append_log-Reliable (stored c) s)

  send_log-IsKeyed :
      (cs : List Proto.LogChunk) (s : Store) → IsKeyed s.tables → IsKeyed (send_log env cs s).tables
  send_log-IsKeyed [] s k = rw (send_log-nil s) k
  send_log-IsKeyed (c ∷ cs) s k =
      rw (send_log-cons c cs s)
        (send_log-IsKeyed cs (next c s) (append_log-IsKeyed (stored c) s.tables k))

  send_log-Growing :
      (cs : List Proto.LogChunk) (s : Store)
      → Growing 0 (send_log env cs s).tables.log_chunks
      → Growing 0 s.tables.log_chunks
  unfolding send_log Db.append_log
  send_log-Growing [] s h = h
  send_log-Growing (c ∷ cs) s h =
      let h' = subst (λ u. Growing 0 u.tables.log_chunks) (send_log-cons c cs s) h in
      Growing-init 0 s.tables.log_chunks _ (send_log-Growing cs (next c s) h')

  send_log-appended :
      (run_id job_id : Text) (cs : List Proto.LogChunk) (s : Store)
      → appended run_id job_id (send_log env cs s).tables
        ≡ appended run_id job_id s.tables ++ lines_of run_id job_id cs
  unfolding lines_of Db.append_log
  send_log-appended run_id job_id [] s = rw (send_log-nil s) (sym (append-nil _))
  send_log-appended run_id job_id (c ∷ cs) s =
      let rest = send_log-appended run_id job_id cs (next c s) in
      let one =
        chunks_of-keep-snoc run_id job_id s.tables.log_chunks
          (record { id = s.tables.next_log; chunk = stored c }) in
      rw (send_log-cons c cs s) (
        rest
        ∙ ap (λ xs. xs ++ lines_of run_id job_id cs) one
        ∙ append-if (of_job run_id job_id (record { id = s.tables.next_log; chunk = stored c }))
            (appended run_id job_id s.tables) (stored c) (lines_of run_id job_id cs))

  get_logs-appended :
      (run_id job_id : Text) (cs : List Proto.LogChunk) (s : Store)
      → IsKeyed s.tables
      → Growing 0 (send_log env cs s).tables.log_chunks
      → Db.get_logs run_id job_id (send_log env cs s).tables
        ≡ Db.get_logs run_id job_id s.tables ++ lines_of run_id job_id cs
  get_logs-appended run_id job_id cs s k times =
      rw
        (
          get_logs_in_order run_id job_id s.tables k (send_log-Growing cs s times),
          get_logs_in_order run_id job_id (send_log env cs s).tables (send_log-IsKeyed cs s k)
              times,
        )
        (send_log-appended run_id job_id cs s)

  -- Where no statement fails, the primary keys are unique and the times of the stored chunks do
  -- not fall, GetLogs after SendLog returns what it returned before, and then the received chunks
  -- of the job, each with its job, run, time, line and stderr flag, in the order in which they were
  -- received.
  pub get_logs-send_log :
      (run_id job_id : Text) (cs : List Proto.LogChunk) (s : Store)
      → IsKeyed s.tables
      → Growing 0 (send_log env cs s).tables.log_chunks
      → map wire (Db.get_logs run_id job_id (send_log env cs s).tables)
        ≡ map wire (Db.get_logs run_id job_id s.tables) ++ keep (is_of run_id job_id) cs
  get_logs-send_log run_id job_id cs s k times =
      ap (map wire) (get_logs-appended run_id job_id cs s k times)
      ∙ map-append wire (Db.get_logs run_id job_id s.tables) (lines_of run_id job_id cs)
      ∙ ap (λ ls. map wire (Db.get_logs run_id job_id s.tables) ++ ls)
          (wire-lines_of run_id job_id cs)
