-- ===== src/Api/Streaming.antt =====
-- What `StreamLogs` can send.
use brazier.Base.{
  ℕ, zero, suc, Text, ==_iff, ◌≡◌, Bool, List, [], ◌∷◌, ◌++◌, All, All-snoc, keep, Bool-cases, inl,
  inr, arith,
}
use brazier.Proto
use brazier.Db
use brazier.Db.{Tables, LogRow, of_job, chunks_of, earlier, order_by}
use brazier.Db.Sorting.{All-order_by}
use brazier.Db.Store
use brazier.Db.Store.{Env, Store}
use brazier.Api.{
  wire, drop, Tick, send_chunks, stream_tick, stream_logs, next_tick, run_is_over, seen, finished,
  logs_failed, send_failed,
}

abbrev IsOfJob : Text → Text → Db.LogChunk → Type 0
IsOfJob run_id job_id c = (c.run_id ≡ run_id) × (c.job_id ≡ job_id)

keep-of_job :
    (run_id job_id : Text) (rows : List LogRow)
    → All (λ r. IsOfJob run_id job_id r.chunk) (keep (of_job run_id job_id) rows)
keep-of_job run_id job_id [] = tt
keep-of_job run_id job_id (r ∷ rows) = elim (Bool-cases (of_job run_id job_id r)) [
  | inl on ↦ rw on (
    ground (arith, ==_iff r.chunk.run_id run_id, ==_iff r.chunk.job_id job_id),
    keep-of_job run_id job_id rows,
  )
  | inr off ↦ rw off (keep-of_job run_id job_id rows)
]

All-chunks_of :
    (P : Db.LogChunk → Type 0) (rows : List LogRow)
    → All (λ r. P r.chunk) rows
    → All P (chunks_of rows)
All-chunks_of P [] h = tt
All-chunks_of P (r ∷ rows) h = (h.0, All-chunks_of P rows h.1)

get_logs-IsOfJob :
    (run_id job_id : Text) (t : Tables) → All (IsOfJob run_id job_id) (Db.get_logs run_id job_id t)
unfolding Db.get_logs
get_logs-IsOfJob run_id job_id t =
    let rows = keep (of_job run_id job_id) t.log_chunks in
    All-chunks_of (IsOfJob run_id job_id) (order_by earlier rows) (
      All-order_by earlier (λ r. IsOfJob run_id job_id r.chunk) rows
        (keep-of_job run_id job_id t.log_chunks))

All-drop : (P : Db.LogChunk → Type 0) (n : ℕ) (cs : List Db.LogChunk) → All P cs → All P (drop n cs)
All-drop P zero cs h = h
All-drop P (suc n) [] h = tt
All-drop P (suc n) (c ∷ cs) h = All-drop P n cs h.1

module _ (env : Env) (takes : Proto.LogChunk → Bool) (id : Text) where
  -- Of the run, and without a job id.
  abbrev pub IsJobless : Proto.LogChunk → Type 0
  IsJobless c = (c.run_id ≡ id) × (c.job_id ≡ [])

  send_chunks-IsJobless :
      (cs : List Db.LogChunk) (out : List Proto.LogChunk)
      → All (IsOfJob id []) cs
      → All IsJobless out
      → All IsJobless (send_chunks env takes cs out).1
  unfolding send_chunks
  send_chunks-IsJobless [] out h k = k
  send_chunks-IsJobless (c ∷ cs) out h k = elim (Bool-cases (takes (wire c))) [
    | inl taken ↦
        rw taken (
          send_chunks-IsJobless cs (out ++ wire c ∷ []) h.1 (All-snoc IsJobless out (wire c) k h.0))
    | inr refused ↦ rw refused k
  ]

  stream_tick-IsJobless :
      (n : ℕ) (out : List Proto.LogChunk) (s : Store)
      → All IsJobless out
      → All IsJobless (stream_tick env takes id n out s).1
  unfolding stream_tick Store.get_logs Store.query
  stream_tick-IsJobless n out s k =
      let logs = drop n (Db.get_logs id [] s.tables) in
      let sent = send_chunks env takes logs out in
      let more : All IsJobless sent.1 =
        send_chunks-IsJobless logs out
          (All-drop (IsOfJob id []) n _ (get_logs-IsOfJob id [] s.tables)) k in
      let run = (Store.get_run env id (Store.get_logs env id [] s).1).0 in
      elim (Bool-cases (env.fails s.calls)) [
        | inl failed ↦ rw (stream_tick, Store.get_logs, Store.query, failed) k
        | inr read ↦ elim (Bool-cases sent.0) [
          | inr cut ↦ rw (stream_tick, Store.get_logs, Store.query, read, cut) more
          | inl done ↦ elim (Bool-cases (run_is_over run)) [
            | inl over ↦ rw (stream_tick, Store.get_logs, Store.query, read, done, over) more
            | inr on ↦ rw (stream_tick, Store.get_logs, Store.query, read, done, on) more
          ]
        ]
      ]

  next_tick-IsJobless :
      (loop : ℕ → ℕ → List Proto.LogChunk → Tick × List Proto.LogChunk)
      → ((calls n : ℕ) (out : List Proto.LogChunk)
          → All IsJobless out
          → All IsJobless (loop calls n out).1)
      → (tick : Tick × List Proto.LogChunk × Store) → All IsJobless tick.1
      → All IsJobless (next_tick loop tick).1
  next_tick-IsJobless loop keeps (seen m, out, s) k = keeps s.calls m out k
  next_tick-IsJobless loop keeps (finished, out, s) k = k
  next_tick-IsJobless loop keeps (logs_failed, out, s) k = k
  next_tick-IsJobless loop keeps (send_failed, out, s) k = k

  stream_logs_from :
      (ts : List Tables) (calls n : ℕ) (out : List Proto.LogChunk)
      → All IsJobless out
      → All IsJobless (stream_logs env takes id ts calls n out).1
  unfolding stream_logs
  stream_logs_from [] calls n out k = k
  stream_logs_from (t ∷ ts) calls n out k =
      next_tick-IsJobless (stream_logs env takes id ts) (stream_logs_from ts) _
        (stream_tick-IsJobless n out (record { tables = t; calls = calls }) k)

  -- Whatever statements and calls of `Send` fail, and whatever the tables hold at each tick, every
  -- chunk that `StreamLogs` sends is of the run and has the empty job id: no line that an agent
  -- has logged for a job, whose id is not empty, is among them.
  pub stream_logs-IsJobless :
      (ts : List Tables) (calls : ℕ) → All IsJobless (stream_logs env takes id ts calls 0 []).1
  stream_logs-IsJobless ts calls = stream_logs_from ts calls 0 [] tt
