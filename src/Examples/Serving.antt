-- ===== src/Examples/Serving.antt =====
-- Two agents, the jobs that they are given, and a log.
use brazier.Base.{
  ℕ, ◌+◌, Text, text, ◌==◌, ◌≡◌, refl, Bool, true, false, none, List, [], ◌∷◌, ◌++◌, length, arith,
  map, keep,
}
use brazier.Proto
use brazier.Proto.{AgentRegistration, JobDispatch, JobResult, pos}
use brazier.Db
use brazier.Db.Logs
use brazier.Db.Store
use brazier.Registry
use brazier.Registry.{AgentConn, Registry, dispatched, no_agents}
use brazier.Registry.Loads.{has_agent, room, AreKeyed, Dispatched, dispatch-Dispatched}
use brazier.Registry.Steps.{Step, here, later, IsSound, Steps-IsSound}
use brazier.Registry.Reconnects.{Calls, SendsElsewhere, reconnect-SendsElsewhere}
use brazier.Api.{wire, send_log, send_result}
use brazier.Api.Capacity.{Call, reported, after_calls, after_calls-room}
use brazier.Api.LogStream.{is_of, get_logs-send_log}
use brazier.Examples.{steady, world, half_done-IsKeyed}

abbrev agent : Text → ℕ → AgentRegistration
agent id capacity = record { agent_id = id; name = id; labels = []; capacity = pos capacity }

abbrev busy : AgentConn
busy = record { info = agent (text "x") 2; stream = 1; active = 1 }

abbrev idle : AgentConn
idle = record { info = agent (text "y") 1; stream = 2; active = 0 }

abbrev fleet : Registry
fleet = record { agents = busy ∷ idle ∷ []; sent = [] }

abbrev task : JobDispatch
task = record { job_id = text "lint"; run_id = text "r"; spec = none; env = [] }

abbrev takes_all : ℕ → JobDispatch → Bool
takes_all stream j = true

abbrev result : JobResult
result = record { job_id = text "lint"; run_id = text "r"; success = true; exit_code = pos 0 }

fleet-AreKeyed : AreKeyed fleet.agents
unfolding has_agent text ◌==◌
fleet-AreKeyed = (refl, (refl, tt))

-- The idle agent is chosen, although both have one place left.
running : Unit {0}
unfolding Registry.dispatch Registry.at_capacity Registry.least_loaded Registry.scan Registry.better
    Registry.modify text ◌==◌ Registry.job_done Registry.list
running = tt

second_chosen : (Registry.dispatch takes_all task fleet).1.sent ≡ (2, task) ∷ []
unfolding running
second_chosen = refl

dispatch-Dispatched_example :
    Dispatched takes_all task fleet (Registry.dispatch takes_all task fleet)
dispatch-Dispatched_example = dispatch-Dispatched takes_all task fleet fleet-AreKeyed

Steps-IsSound_example : IsSound (Registry.dispatch takes_all task fleet).1
Steps-IsSound_example =
    Steps-IsSound fleet _ (later (Step.dispatch takes_all task fleet) here)
      (record { keyed = fleet-AreKeyed; within = (omega arith, (omega arith, tt)) })

lint_absent : has_agent result.job_id fleet.agents ≡ false
unfolding has_agent text ◌==◌
lint_absent = refl

abbrev calls : List Call
calls =
    Call.dispatched takes_all task
    ∷ reported result
    ∷ Call.dispatched takes_all task
    ∷ reported result
    ∷ Call.dispatched takes_all task
    ∷ []

-- Two places, and a third job finds none although the results of both were reported.
third_lost : length (after_calls calls fleet).sent ≡ 2
unfolding running after_calls send_result
third_lost = refl

after_calls-room_example :
    room (after_calls calls fleet).agents + length (after_calls calls fleet).sent
    ≡ room fleet.agents + length fleet.sent
after_calls-room_example =
    after_calls-room calls fleet fleet-AreKeyed (tt, (lint_absent, (tt, (lint_absent, (tt, tt)))))

abbrev received : List Proto.LogChunk
received =
    record {
      job_id = text "lint";
      run_id = text "r";
      timestamp = 6;
      line = text "three";
      stderr = true;
    }
    ∷ []

received-Growing : Logs.Growing 0 (send_log steady received world.store).tables.log_chunks
unfolding send_log Store.append_log Store.execute Db.append_log
received-Growing = (omega arith, (omega arith, (omega arith, tt)))

get_logs-send_log_example :
    map wire (Db.get_logs (text "r") (text "lint") (send_log steady received world.store).tables)
    ≡ map wire (Db.get_logs (text "r") (text "lint") world.store.tables)
      ++ keep (is_of (text "r") (text "lint")) received
get_logs-send_log_example =
    get_logs-send_log steady (λ k. refl) (text "r") (text "lint") received world.store
      half_done-IsKeyed received-Growing

-- The agent x connects on stream 3, a job is dispatched, stream 1 ends, and a job is dispatched.
abbrev connected : Registry
connected = Registry.connect (agent (text "x") 2) 3 fleet

abbrev connected_served : Registry
connected_served = (Registry.dispatch takes_all task connected).1

abbrev ended : Registry
ended = Registry.disconnect (agent (text "x") 2) connected_served

reconnect-SendsElsewhere_example :
    SendsElsewhere 3 connected_served (Registry.dispatch takes_all task ended).1
reconnect-SendsElsewhere_example =
    reconnect-SendsElsewhere 3 (agent (text "x") 2) fleet connected_served
      (Registry.dispatch takes_all task ended).1 fleet-AreKeyed (refl, (refl, tt))
      (Calls.dispatch takes_all task connected Calls.here)
      (Calls.dispatch takes_all task ended Calls.here)
