-- ===== src/Registry.antt =====
-- internal/registry/registry.go: the connected agents and their loads. The Go map is the list of
-- its entries, in the order in which the next `range` meets them, which the runtime chooses. A
-- stream is a number; whether `Send` succeeds on it is the parameter `send`. A capacity is an
-- `int32` of any sign. A load is a natural number in place of an `int32`: it starts at 0, is raised
-- only below the capacity, and is lowered only above 0. Log lines are left out.
pub mod Choice
pub mod Loads
pub mod Steps
pub mod Reconnects
use brazier.Base.{
  ℕ, suc, ◌-◌, Text, ◌==◌, Bool, true, false, ◌||◌, Option, none, some, List, [], ◌∷◌, ◌++◌, ltb,
  leb, if◌then◌else◌, map,
}
use brazier.Proto.{AgentRegistration, JobDispatch, JobSpec, ℤ, pos, negsuc}
use brazier.Pipeline.Scheduler.{Dispatcher}

pub record AgentConn : Type 0 where
  pub info : AgentRegistration
  pub stream : ℕ
  pub active : ℕ

-- The agents, and what was sent: each job with the stream that it was sent on.
pub record Registry : Type 0 where
  pub agents : List AgentConn
  pub sent : List (ℕ × JobDispatch)

abbrev pub new : Registry
new = record { agents = []; sent = [] }

-- `r.agents[c.info.AgentId] = c`
unfoldable pub put : AgentConn → List AgentConn → List AgentConn
put c [] = c ∷ []
put c (a ∷ agents) =
    let rest = put c agents in if a.info.agent_id == c.info.agent_id then c ∷ agents else a ∷ rest

unfoldable pub remove : Text → List AgentConn → List AgentConn
remove id [] = []
remove id (a ∷ agents) =
    let rest = remove id agents in if a.info.agent_id == id then agents else a ∷ rest

-- `Register`, before it waits for the end of the stream.
unfoldable pub connect : AgentRegistration → ℕ → Registry → Registry
connect info stream r = record r {
  agents = put (record { info = info; stream = stream; active = 0 }) r.agents;
}

-- `Register`, after the stream has ended.
unfoldable pub disconnect : AgentRegistration → Registry → Registry
disconnect info r = record r { agents = remove info.agent_id r.agents }

-- `a.active >= a.info.Capacity`
unfoldable pub at_capacity : ℤ → ℕ → Bool
at_capacity (pos c) active = leb c active
at_capacity (negsuc c) active = true

-- The body of the loop of `leastLoaded`.
unfoldable pub better : Option AgentConn → AgentConn → Option AgentConn
better best a =
    if at_capacity a.info.capacity a.active
    then best
    else elim best [ none ↦ some a | some b ↦ if ltb a.active b.active then some a else some b ]

unfoldable pub scan : Option AgentConn → List AgentConn → Option AgentConn
scan best [] = best
scan best (a ∷ agents) = scan (better best a) agents

unfoldable pub least_loaded : List AgentConn → Option AgentConn
least_loaded agents = scan none agents

-- A change of the agent that the map holds for an id, through the pointer to it.
unfoldable pub modify : Text → (ℕ → ℕ) → List AgentConn → List AgentConn
modify id f [] = []
modify id f (a ∷ agents) =
    let rest = modify id f agents in
    if a.info.agent_id == id then record a { active = f a.active } ∷ agents else a ∷ rest

pub data Reply : Type 0 where
  dispatched : Reply
  no_agents : Reply
  send_failed : Text → Reply

unfoldable pub dispatch : (ℕ → JobDispatch → Bool) → JobDispatch → Registry → Reply × Registry
dispatch send j r = elim (least_loaded r.agents) [
  | none ↦ (no_agents, r)
  | some a ↦
      if send a.stream j
      then (
        dispatched,
        record {
          agents = modify a.info.agent_id suc r.agents;
          sent = r.sent ++ (a.stream, j) ∷ [];
        },
      )
      else (send_failed a.info.agent_id, r)
]

-- `if … a.active > 0 { a.active-- }`
abbrev pub lower : ℕ → ℕ
lower n = if ltb 0 n then n - 1 else n

unfoldable pub job_done : Text → Registry → Registry
job_done id r = record r { agents = modify id lower r.agents }

pub record AgentInfo : Type 0 where
  pub agent_id : Text
  pub name : Text
  pub labels : List Text
  pub capacity : ℤ
  pub active : ℕ

abbrev pub info_of : AgentConn → AgentInfo
info_of a = record {
  agent_id = a.info.agent_id;
  name = a.info.name;
  labels = a.info.labels;
  capacity = a.info.capacity;
  active = a.active;
}

unfoldable pub list : Registry → List AgentInfo
list r = map info_of r.agents

abbrev pub is_sent : Reply → Bool
is_sent dispatched = true
is_sent _ = false

-- `registryDispatcher` of cmd/master/main.go, which the scheduler is given.
unfoldable pub registry_dispatcher : (ℕ → JobDispatch → Bool) → Dispatcher Registry
registry_dispatcher send = record {
  dispatch = λ run_id node_id spec r.
      let (reply, after) =
        dispatch send (record { job_id = node_id; run_id = run_id; spec = spec; env = [] }) r in
      (is_sent reply, after);
}
