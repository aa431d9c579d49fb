-- ===== src/Cli/Output.antt =====
-- cmd/cli/cmd: `status`, `logs` and `agent start`, and the call of the master under `run` and
-- `trigger`. What the master answers is an argument.
use brazier.Base.{ℕ, Text, text, Bool, Option, none, some, List, [], ◌∷◌, ◌++◌, if◌then◌else◌}
use brazier.Proto.{PipelineSpec, LogChunk, AgentRegistration, ℤ, pos}
use brazier.Db.{RunState}
use brazier.Api.{RunStatus}
use brazier.Cli.{log_line, new_line, auth_header, resolve_api_key}

-- `submitPipeline`: none where `dial` or the call fails; the call has the header of `authCtx`.
unfoldable pub submit_pipeline :
    {W : Type 0}
    → (dials : Text → Bool) → (call : List Text → PipelineSpec → W → Option Text × W)
    → (master_addr flag variable : Text) → PipelineSpec
    → W
    → Option Text × W
submit_pipeline dials call master_addr flag variable spec w =
    if dials master_addr
    then call (auth_header (resolve_api_key flag variable)) spec w
    else (none, w)

-- The text of a state.
abbrev pub state_text : RunState → Text
state_text RunState.pending = text "pending"
state_text RunState.running = text "running"
state_text RunState.success = text "success"
state_text RunState.failed = text "failed"
state_text RunState.cancelled = text "cancelled"

abbrev pub node_lines : List Text → Text
node_lines [] = []
node_lines (n ∷ ns) = text "  - " ++ (n ++ (new_line ++ node_lines ns))

abbrev pub nodes_part : List Text → Text
nodes_part [] = []
nodes_part (n ∷ ns) = text "Nodes:" ++ (new_line ++ node_lines (n ∷ ns))

-- `status`: what it prints for the answer of `GetRun`, or none for an error.
unfoldable pub status : Option RunStatus → Option Text
status none = none
status (some s) = some (
    text "Run:   "
    ++ (s.run_id
        ++ (new_line
            ++ (text "State: " ++ (state_text s.state ++ (new_line ++ nodes_part s.nodes))))))

-- What `stream.Recv` returns.
pub data Received : Type 0 where
  chunk : LogChunk → Received
  eof recv_failed : Received

-- The end of `logs`, or that it still reads.
pub data Ended : Type 0 where
  reading done failed : Ended

-- `logs`: what it has printed, and whether it has returned.
unfoldable pub logs : List Received → Text × Ended
logs [] = ([], reading)
logs (chunk c ∷ rest) = let (out, end) = logs rest in (log_line c ++ out, end)
logs (eof ∷ rest) = ([], done)
logs (recv_failed ∷ rest) = ([], failed)

-- The flags of `agent start`, with their defaults.
pub record AgentFlags : Type 0 where
  pub name : Text
  pub capacity : ℤ
  pub labels : List Text
  pub job_timeout : ℕ

-- `--job-timeout` is in milliseconds.
abbrev pub default_flags : AgentFlags
default_flags = record { name = []; capacity = pos 4; labels = []; job_timeout = 1800000 }

-- `agent start`: the registration it connects with and the line it prints, or none where no name
-- is given. `agent_id` is that of `newAgentID`.
unfoldable pub agent_start :
    (agent_id master_addr : Text) → AgentFlags → Option (AgentRegistration × Text)
agent_start agent_id master_addr f = elim f.name [
  | [] ↦ none
  | ◌∷◌ c cs ↦ some (
    record { agent_id = agent_id; name = c ∷ cs; labels = f.labels; capacity = f.capacity },
    text "Agent "
        ++ (agent_id ++ (text " connecting to " ++ (master_addr ++ (text "..." ++ new_line)))),
  )
]
