-- ===== src/Api.antt =====
-- internal/api/server.go: the handlers of the two gRPC services. An error status is `none`, and
-- the state of a run is sent as its value instead of its text. What the agents do with a stream
-- is the parameter `send` of the registry.
pub mod Capacity
pub mod LogStream
pub mod Following
pub mod Streaming
use brazier.Base.{
  ℕ, zero, suc, ◌-◌, Text, text, ◌==◌, Bool, true, false, Option, none, some, List, [], ◌∷◌, ◌++◌,
  if◌then◌else◌, map, length,
}
use brazier.Proto
use brazier.Proto.{ℤ, pos, negsuc, PipelineSpec, JobResult, ListRunsRequest, WorkflowRef}
use brazier.Db
use brazier.Db.{RunState, Tables, PipelineRun, NodeRecord}
use brazier.Db.Store
use brazier.Db.Store.{Env, Store}
use brazier.Pipeline.Scheduler.{World}
use brazier.Pipeline.Manager
use brazier.Pipeline.Manager.{ok}
use brazier.Registry
use brazier.Registry.{Registry, AgentInfo}

pub record RunStatus : Type 0 where
  pub run_id : Text
  pub state : RunState
  pub nodes : List Text

abbrev pub node_ids : Option (List NodeRecord) → List Text
node_ids none = []
node_ids (some nodes) = map (λ n. n.node_id) nodes

-- `if limit <= 0 { limit = 50 }`
abbrev pub limit_of : ℤ → ℕ
limit_of (pos zero) = 50
limit_of (pos (suc n)) = suc n
limit_of (negsuc n) = 50

abbrev pub summary : PipelineRun → RunStatus
summary r = record { run_id = r.id; state = r.state; nodes = [] }

abbrev pub is_over : RunState → Bool
is_over RunState.success = true
is_over RunState.failed = true
is_over RunState.cancelled = true
is_over _ = false

abbrev pub run_is_over : Option PipelineRun → Bool
run_is_over none = false
run_is_over (some r) = is_over r.state

abbrev pub wire : Db.LogChunk → Proto.LogChunk
wire c = record {
  job_id = c.job_id;
  run_id = c.run_id;
  timestamp = c.timestamp;
  line = c.line;
  stderr = c.stderr;
}

abbrev pub stored : Proto.LogChunk → Db.LogChunk
stored c = record {
  job_id = c.job_id;
  run_id = c.run_id;
  timestamp = c.timestamp;
  line = c.line;
  stderr = c.stderr;
}

abbrev pub drop {ℓ} : {A : Type ℓ} → ℕ → List A → List A
drop zero xs = xs
drop (suc n) [] = []
drop (suc n) (x ∷ xs) = drop n xs

-- What one tick of `StreamLogs` comes to: the number of chunks seen, or the end of the call.
pub data Tick : Type 0 where
  seen : ℕ → Tick
  finished logs_failed send_failed : Tick

-- Whether the loop of `StreamLogs` goes on.
abbrev pub next_tick :
    (ℕ → ℕ → List Proto.LogChunk → Tick × List Proto.LogChunk)
    → Tick × List Proto.LogChunk × Store
    → Tick × List Proto.LogChunk
next_tick loop (seen m, out, s) = loop s.calls m out
next_tick loop (finished, out, s) = (finished, out)
next_tick loop (logs_failed, out, s) = (logs_failed, out)
next_tick loop (send_failed, out, s) = (send_failed, out)

module _ (env : Env) where
  unfoldable pub submit_pipeline :
      (run_id : Text) (now : ℕ) → PipelineSpec → World Registry → Option Text × World Registry
  submit_pipeline run_id now spec w =
      let (reply, w') = Manager.start env run_id (text "api") now spec w in
      (elim reply [ ok id ↦ some id | _ ↦ none ], w')

  unfoldable pub get_run : Text → Store → Option RunStatus × Store
  get_run id s =
      let (run, s₁) = Store.get_run env id s in
      let (nodes, s₂) = Store.list_nodes env id s₁ in
      elim run [
        | none ↦ (none, s₁)
        | some r ↦ (some (record { run_id = r.id; state = r.state; nodes = node_ids nodes }), s₂)
      ]

  unfoldable pub list_runs : ListRunsRequest → Store → Option (List RunStatus) × Store
  list_runs req s =
      let (runs, s') = Store.list_runs env req.project (limit_of req.limit) s in
      elim runs [ none ↦ (none, s') | some rs ↦ (some (map summary rs), s') ]

  unfoldable pub cancel_run : Text → Store → Bool × Store
  cancel_run id = Store.update_run_state env id RunState.cancelled

  -- The loop that sends the new chunks; false at the first `Send` that fails.
  unfoldable pub send_chunks :
      (Proto.LogChunk → Bool) → List Db.LogChunk → List Proto.LogChunk → Bool × List Proto.LogChunk
  send_chunks takes [] out = (true, out)
  send_chunks takes (c ∷ cs) out =
      let rest = send_chunks takes cs (out ++ wire c ∷ []) in
      if takes (wire c) then rest else (false, out)

  -- One tick of `StreamLogs`, with the chunks sent so far.
  unfoldable pub stream_tick :
      (Proto.LogChunk → Bool)
      → Text
      → ℕ
      → List Proto.LogChunk
      → Store
      → Tick × List Proto.LogChunk × Store
  stream_tick takes id n out s =
      let (logs, s₁) = Store.get_logs env id [] s in
      let (run, s₂) = Store.get_run env id s₁ in
      elim logs [
        | none ↦ (logs_failed, out, s₁)
        | some chunks ↦
            let (sent, out') = send_chunks takes (drop n chunks) out in
            if sent
            then (if run_is_over run
                then (finished, out', s₂)
                else (seen (length chunks), out', s₂))
            else (send_failed, out', s₁)
      ]

  -- The loop of `StreamLogs`, with the tables as they are at each tick until the context is done,
  -- the statements run so far, the chunks seen and the chunks sent.
  unfoldable pub stream_logs :
      (Proto.LogChunk → Bool)
      → Text
      → List Tables
      → (calls n : ℕ) → List Proto.LogChunk
      → Tick × List Proto.LogChunk
  stream_logs takes id [] calls n out = (seen n, out)
  stream_logs takes id (t ∷ ts) calls n out =
      next_tick (stream_logs takes id ts)
        (stream_tick takes id n out (record { tables = t; calls = calls }))

  -- `SendLog`: the chunks that are received before the stream ends. Errors are ignored.
  unfoldable pub send_log : List Proto.LogChunk → Store → Store
  send_log [] s = s
  send_log (c ∷ cs) s = send_log cs (Store.append_log env (stored c) s).1

abbrev pub list_agents : Registry → List AgentInfo
list_agents = Registry.list

abbrev pub list_workflows : List WorkflowRef
list_workflows = []

-- `GetWorkflow` always returns the error `Unimplemented`, with this text.
abbrev pub get_workflow : WorkflowRef → Text
get_workflow ref = text "workflow " ++ (ref.name ++ text " not found")

-- `Register` of the agent service, as the agent connects and as its stream ends.
abbrev pub register : Proto.AgentRegistration → ℕ → Registry → Registry
register = Registry.connect

abbrev pub unregister : Proto.AgentRegistration → Registry → Registry
unregister = Registry.disconnect

-- `SendResult` hands the id of the job to `JobDone`.
unfoldable pub send_result : JobResult → Registry → Registry
send_result result r = Registry.job_done result.job_id r
