-- ===== src/Examples/Following.antt =====
-- Logs on their way: from an agent to the master, and from the master to a client.
use brazier.Base.{
  Text, text, ◌==◌, ◌≡◌, refl, Bool, true, false, List, [], ◌∷◌, ◌++◌, All, map, arith,
}
use brazier.Proto
use brazier.Proto.{JobDispatch}
use brazier.Db
use brazier.Db.{RunState, Tables, LogChunk}
use brazier.Db.Keys.{IsKeyed}
use brazier.Db.Logs.{Growing}
use brazier.Db.Store
use brazier.Executor
use brazier.Api
use brazier.Api.{wire, run_is_over, Tick, finished, stream_logs, send_log}
use brazier.Api.Following.{Extends, Followed, stream_logs-Followed}
use brazier.Api.Streaming.{IsJobless, stream_logs-IsJobless}
use brazier.Client.{handle_job}
use brazier.Client.Jobs.{get_logs-handle_job}
use brazier.Examples.{steady, half_done, half_done-IsKeyed}
use brazier.Examples.Running.{spec, task, shell}

-- A line that has no job id.
abbrev line : Text → LogChunk
line l = record { job_id = []; run_id = text "r"; timestamp = 7; line = l; stderr = false }

abbrev at_tick : RunState → List LogChunk → Tables
at_tick state lines = record half_done {
  runs =
      record {
        id = text "r";
        project = text "org/repo";
        state = state;
        created_at = 1;
        updated_at = 1;
      }
      ∷ [];
  log_chunks = map (λ c. record { id = 1; chunk = c }) lines;
}

-- The log has one line, then two, when the run is over.
abbrev ticks : List Tables
ticks =
    at_tick RunState.running (line (text "one") ∷ [])
    ∷ at_tick RunState.success (line (text "one") ∷ line (text "two") ∷ [])
    ∷ []

following : Unit {0}
unfolding stream_logs Db.get_logs Db.order_by Db.insert_by text ◌==◌ Api.stream_tick Api.send_chunks
    Store.get_logs Store.get_run Store.query Db.get_run Db.find_run
following = tt

abbrev takes_all : Proto.LogChunk → Bool
takes_all c = true

followed :
    stream_logs steady takes_all (text "r") ticks 0 0 []
    ≡ (finished, map wire (line (text "one") ∷ line (text "two") ∷ []))
unfolding following
followed = refl

ticks-Extends : Extends (text "r") [] ticks
unfolding following
ticks-Extends = ((line (text "one") ∷ [], refl), ((line (text "two") ∷ [], refl), tt))

streaming_ticks :
    Followed (text "r") [] ticks (stream_logs steady takes_all (text "r") ticks 0 0 [])
streaming_ticks =
    stream_logs-Followed steady (λ k. refl) takes_all (λ c. refl) (text "r") ticks 0 ticks-Extends

stream_logs-IsJobless_example :
    All
      (IsJobless steady takes_all (text "r"))
      (map wire (line (text "one") ∷ line (text "two") ∷ []))
unfolding following
stream_logs-IsJobless_example = stream_logs-IsJobless steady takes_all (text "r") ticks 0

job_sent : Unit {0}
unfolding handle_job Executor.run Executor.run_from send_log Store.append_log Store.execute
    Db.append_log
job_sent = tt

no_log : Tables
no_log = record half_done { log_chunks = [] }

no_log-IsKeyed : IsKeyed no_log
unfolding no_log
no_log-IsKeyed = record {
  nodes = half_done-IsKeyed.nodes;
  runs = half_done-IsKeyed.runs;
  ascending = tt;
  below = tt;
  counted = half_done-IsKeyed.counted;
}

sent_times :
    Growing 0
      (send_log steady
        (handle_job true takes_all shell task spec).0
        (record { tables = no_log; calls = 0 })).tables.log_chunks
unfolding job_sent no_log
sent_times = (omega arith, tt)

get_logs-handle_job_example :
    map wire (
      Db.get_logs
        (text "r")
        (text "j")
        (send_log steady
          (handle_job true takes_all shell task spec).0
          (record { tables = no_log; calls = 0 })).tables)
    ≡ map wire (Db.get_logs (text "r") (text "j") no_log) ++ (Executor.run shell task spec).1
get_logs-handle_job_example =
    get_logs-handle_job steady takes_all shell task spec (record { tables = no_log; calls = 0 })
      (λ k. refl) (λ c. refl) no_log-IsKeyed sent_times
