-- ===== src/Api/Following.antt =====
-- `StreamLogs` over several ticks, while the log grows.
use mathlib.Core.List.{append_assoc, append-nil, map-append}
use brazier.Base.{
  ℕ, suc, Text, ◌≡◌, refl, sym, ap, Bool, true, some, List, [], ◌∷◌, ◌++◌, map, length,
  if◌then◌else◌, Bool-cases, inl, inr, ◌⊎◌,
}
use brazier.Proto
use brazier.Db
use brazier.Db.{Tables}
use brazier.Db.Store
use brazier.Db.Store.{Env, Store}
use brazier.Pipeline.Scheduler.Refinement.{Reliable}
use brazier.Api.{
  wire, drop, run_is_over, Tick, seen, finished, logs_failed, send_failed, send_chunks, stream_tick,
  stream_logs,
}

-- The chunks of a run that have no job id, which are those that `StreamLogs` reads.
abbrev pub log_of : Text → Tables → List Db.LogChunk
log_of id t = Db.get_logs id [] t

-- At each tick the log begins with what it was before.
abbrev pub Extends : Text → List Db.LogChunk → List Tables → Type 0
Extends id before [] = Unit
Extends id before (t ∷ ts) =
    ((new : List Db.LogChunk) × (log_of id t ≡ before ++ new)) × Extends id (log_of id t) ts

abbrev pub last_log : Text → List Db.LogChunk → List Tables → List Db.LogChunk
last_log id before [] = before
last_log id before (t ∷ ts) = last_log id (log_of id t) ts

-- The tables at some tick, where the run is over.
abbrev pub OverAt : Text → List Tables → List Proto.LogChunk → Type 0
OverAt id [] out = ⊥
OverAt id (t ∷ ts) out =
    ((run_is_over (Db.get_run id t) ≡ true) × (out ≡ map wire (log_of id t))) ⊎ OverAt id ts out

-- The client has got the log as it was at the last tick, or at the tick that found the run over.
abbrev pub Followed : Text → List Db.LogChunk → List Tables → Tick × List Proto.LogChunk → Type 0
Followed id before ts (seen n, out) = out ≡ map wire (last_log id before ts)
Followed id before ts (finished, out) = OverAt id ts out
Followed id before ts (logs_failed, out) = ⊥
Followed id before ts (send_failed, out) = ⊥

drop-append : (xs ys : List Db.LogChunk) → drop (length xs) (xs ++ ys) ≡ ys
drop-append [] ys = refl
drop-append (x ∷ xs) ys = drop-append xs ys

Followed-later :
    (id : Text) (before : List Db.LogChunk) (t : Tables) (ts : List Tables)
    (p : Tick × List Proto.LogChunk)
    → Followed id (log_of id t) ts p
    → Followed id before (t ∷ ts) p
Followed-later id before t ts (seen n, out) h = h
Followed-later id before t ts (finished, out) h = inr h
Followed-later id before t ts (logs_failed, out) h = h
Followed-later id before t ts (send_failed, out) h = h

module _ (env : Env) (reliable : Reliable env) (takes : Proto.LogChunk → Bool)
    (taken : (c : Proto.LogChunk) → takes c ≡ true) where
  send_chunks-append :
      (cs : List Db.LogChunk) (out : List Proto.LogChunk)
      → send_chunks env takes cs out ≡ (true, out ++ map wire cs)
  unfolding send_chunks
  send_chunks-append [] out = ap (λ (o : List Proto.LogChunk). (true, o)) (sym (append-nil out))
  send_chunks-append (c ∷ cs) out =
      rw (taken (wire c), send_chunks-append cs (out ++ wire c ∷ []))
        (ap (λ (o : List Proto.LogChunk). (true, o)) (append_assoc out _ _))

  get_logs_read :
      (id : Text) (t : Tables) (calls : ℕ)
      → Store.get_logs env id [] (record { tables = t; calls = calls })
        ≡ (some (log_of id t), record { tables = t; calls = suc calls })
  unfolding Store.get_logs Store.query
  get_logs_read id t calls = rw (reliable calls) refl

  get_run_read :
      (id : Text) (t : Tables) (calls : ℕ)
      → Store.get_run env id (record { tables = t; calls = calls })
        ≡ (Db.get_run id t, record { tables = t; calls = suc calls })
  unfolding Store.get_run Store.query
  get_run_read id t calls = rw (reliable calls) refl

  stream_tick_lem :
      (id : Text) (before new : List Db.LogChunk) (t : Tables) (calls : ℕ)
      → log_of id t ≡ before ++ new
      → stream_tick env takes id
          (length before)
          (map wire before)
          (record { tables = t; calls = calls })
        ≡ (
          if run_is_over (Db.get_run id t) then finished else seen (length (log_of id t)),
          map wire (log_of id t),
          record { tables = t; calls = suc (suc calls) },
        )
  unfolding stream_tick
  stream_tick_lem id before new t calls e =
      let sent : send_chunks env takes (drop (length before) (log_of id t)) (map wire before)
          ≡ (true, map wire (log_of id t)) =
        rw
          (
            e,
            drop-append before new,
            send_chunks-append new (map wire before),
            map-append wire before new,
          )
          refl in
      elim (Bool-cases (run_is_over (Db.get_run id t))) [
        | inl over ↦
            rw
              (
                over,
                stream_tick,
                get_logs_read id t calls,
                get_logs_read id t calls,
                get_run_read id t (suc calls),
                sent,
                over,
              )
              refl
        | inr going ↦
            rw
              (
                going,
                stream_tick,
                get_logs_read id t calls,
                get_logs_read id t calls,
                get_run_read id t (suc calls),
                sent,
                going,
              )
              refl
      ]

  stream_logs_from :
      (id : Text) (before : List Db.LogChunk) (ts : List Tables) (calls : ℕ)
      → Extends id before ts
      → Followed id before ts (stream_logs env takes id ts calls (length before) (map wire before))
  unfolding stream_logs
  stream_logs_from id before [] calls h = refl
  stream_logs_from id before (t ∷ ts) calls ((new, e), h) =
      elim (Bool-cases (run_is_over (Db.get_run id t))) [
        | inl over ↦ rw (stream_tick_lem id before new t calls e, over) (inl (over, refl))
        | inr going ↦
            rw (stream_tick_lem id before new t calls e, going)
              (Followed-later id before t ts _
                (stream_logs_from id (log_of id t) ts (suc (suc calls)) h))
      ]

  -- Where no statement fails, every `Send` succeeds, and the log of the run grows at its end only,
  -- `StreamLogs` has sent each chunk of the log as it was at the last tick once and in order; or
  -- it has stopped at a tick where the run was over, and has sent the log as it was then. The log
  -- is that of the run with an empty job id.
  pub stream_logs-Followed :
      (id : Text) (ts : List Tables) (calls : ℕ)
      → Extends id [] ts
      → Followed id [] ts (stream_logs env takes id ts calls 0 [])
  stream_logs-Followed id ts calls h = stream_logs_from id [] ts calls h
