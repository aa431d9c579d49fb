-- ===== src/Registry/Steps.antt =====
-- The registry as a state machine: whatever connects, ends, dispatches and reports, in any order.
use brazier.Base.{
  Among, ℕ, suc, Text, ◌==◌, ==_iff, ==_refl, ◌≡◌, refl, sym, ◌≤◌, Bool, true, false, List, [], ◌∷◌,
  ◌++◌, All, inl, inr, arith, Bool-cases, Option-cases, ◌||◌,
}
use brazier.Proto.{AgentRegistration, JobDispatch}
use brazier.Registry
use brazier.Registry.{
  AgentConn, Registry, Reply, dispatched, no_agents, send_failed, lower, least_loaded,
}
use brazier.Registry.Choice.{places, has_room, least_loaded-IsChoice}
use brazier.Registry.Loads.{
  has_agent, AreKeyed, Among-has_agent, modify-AreKeyed, dispatch_full, dispatch_chosen,
}

-- One step; the runtime may also choose another order of the map at any time.
pub data Step : Registry → Registry → Type 0 where
  connect :
      (info : AgentRegistration) (stream : ℕ) (r : Registry)
      → Step r (Registry.connect info stream r)
  disconnect : (info : AgentRegistration) (r : Registry) → Step r (Registry.disconnect info r)
  dispatch :
      (send : ℕ → JobDispatch → Bool) (j : JobDispatch) (r : Registry)
      → Step r (Registry.dispatch send j r).1
  job_done : (id : Text) (r : Registry) → Step r (Registry.job_done id r)
  swap :
      (before : List AgentConn) (a b : AgentConn) (agents : List AgentConn)
      (sent : List (ℕ × JobDispatch))
      → Step
          (record { agents = before ++ a ∷ b ∷ agents; sent = sent })
          (record { agents = before ++ b ∷ a ∷ agents; sent = sent })

pub data Steps : Registry → Registry → Type 0 where
  here : {r : Registry} → Steps r r
  later : {r s t : Registry} → Step r s → Steps s t → Steps r t

-- The ids are distinct, and no agent has more jobs than its capacity, or any where that is negative.
pub record IsSound (r : Registry) : Type 0 where
  pub keyed : AreKeyed r.agents
  pub within : All (λ a. a.active ≤ places a.info.capacity) r.agents

has_agent-put :
    (id : Text) (c : AgentConn) (agents : List AgentConn)
    → has_agent id (Registry.put c agents) ≡ (c.info.agent_id == id || has_agent id agents)
unfolding has_agent Registry.put
has_agent-put id c [] = refl
has_agent-put id c (a ∷ agents) =
    ground (arith, has_agent-put id c agents, ==_iff a.info.agent_id c.info.agent_id)

put-AreKeyed :
    (c : AgentConn) (agents : List AgentConn) → AreKeyed agents → AreKeyed (Registry.put c agents)
unfolding Registry.put has_agent
put-AreKeyed c [] h = (refl, tt)
put-AreKeyed c (a ∷ agents) h = elim (Bool-cases (a.info.agent_id == c.info.agent_id)) [
  | inl same ↦
      let e = (==_iff a.info.agent_id c.info.agent_id).0 same in rw same (rw (sym e) h.0, h.1)
  | inr other ↦ rw other (
    ground (
      arith,
      has_agent-put a.info.agent_id c agents,
      ==_iff a.info.agent_id c.info.agent_id,
      ==_iff c.info.agent_id a.info.agent_id,
      h.0,
    ),
    put-AreKeyed c agents h.1,
  )
]

has_agent-remove :
    (id other : Text) (agents : List AgentConn)
    → has_agent id agents ≡ false
    → has_agent id (Registry.remove other agents) ≡ false
unfolding has_agent Registry.remove
has_agent-remove id other [] h = refl
has_agent-remove id other (a ∷ agents) h = ground (arith, has_agent-remove id other agents)

remove-AreKeyed :
    (id : Text) (agents : List AgentConn) → AreKeyed agents → AreKeyed (Registry.remove id agents)
unfolding Registry.remove
remove-AreKeyed id [] h = tt
remove-AreKeyed id (a ∷ agents) h = elim (Bool-cases (a.info.agent_id == id)) [
  | inl same ↦ rw same h.1
  | inr other ↦
      rw other (has_agent-remove a.info.agent_id id agents h.0, remove-AreKeyed id agents h.1)
]

abbrev Within : AgentConn → Type 0
Within a = a.active ≤ places a.info.capacity

put-Within :
    (c : AgentConn) (agents : List AgentConn)
    → Within c
    → All Within agents
    → All Within (Registry.put c agents)
unfolding Registry.put
put-Within c [] w h = (w, tt)
put-Within c (a ∷ agents) w h = elim (Bool-cases (a.info.agent_id == c.info.agent_id)) [
  | inl same ↦ rw same (w, h.1)
  | inr other ↦ rw other (h.0, put-Within c agents w h.1)
]

remove-Within :
    (id : Text) (agents : List AgentConn)
    → All Within agents
    → All Within (Registry.remove id agents)
unfolding Registry.remove
remove-Within id [] h = tt
remove-Within id (a ∷ agents) h = elim (Bool-cases (a.info.agent_id == id)) [
  | inl same ↦ rw same h.1
  | inr other ↦ rw other (h.0, remove-Within id agents h.1)
]

lower-Within :
    (id : Text) (agents : List AgentConn)
    → All Within agents
    → All Within (Registry.modify id lower agents)
unfolding Registry.modify
lower-Within id [] h = tt
lower-Within id (a ∷ agents) h = elim (Bool-cases (a.info.agent_id == id)) [
  | inl same ↦ rw same (ground (arith, h.0), h.1)
  | inr other ↦ rw other (h.0, lower-Within id agents h.1)
]

-- The agent that takes a job has room, and it is the one that the map holds for its id.
suc-Within :
    (c : AgentConn) (agents : List AgentConn)
    → AreKeyed agents
    → Among c agents
    → has_room c ≡ true
    → All Within agents
    → All Within (Registry.modify c.info.agent_id suc agents)
unfolding Registry.modify
suc-Within c [] keyed among room h = tt
suc-Within c (a ∷ agents) keyed (inl e) room h =
    rw (sym e, ==_refl c.info.agent_id) (ground arith, h.1)
suc-Within c (a ∷ agents) keyed (inr among) room h =
    elim (Bool-cases (a.info.agent_id == c.info.agent_id)) [
      | inl same ↦
          let e = (==_iff a.info.agent_id c.info.agent_id).0 same in
          let present = Among-has_agent c agents among in let absent = keyed.0 in cc
      | inr other ↦ rw other (h.0, suc-Within c agents keyed.1 among room h.1)
    ]

has_agent-swap :
    (id : Text) (before : List AgentConn) (a b : AgentConn) (agents : List AgentConn)
    → has_agent id (before ++ b ∷ a ∷ agents) ≡ has_agent id (before ++ a ∷ b ∷ agents)
unfolding has_agent
has_agent-swap id [] a b agents = ground arith
has_agent-swap id (c ∷ before) a b agents = ground (arith, has_agent-swap id before a b agents)

swap-AreKeyed :
    (before : List AgentConn) (a b : AgentConn) (agents : List AgentConn)
    → AreKeyed (before ++ a ∷ b ∷ agents)
    → AreKeyed (before ++ b ∷ a ∷ agents)
unfolding has_agent
swap-AreKeyed [] a b agents h = (
  ground (
    arith,
    h.0,
    h.1.0,
    ==_iff a.info.agent_id b.info.agent_id,
    ==_iff b.info.agent_id a.info.agent_id,
  ),
  (ground (arith, h.0), h.1.1),
)
swap-AreKeyed (c ∷ before) a b agents h =
    (rw (has_agent-swap c.info.agent_id before a b agents) h.0, swap-AreKeyed before a b agents h.1)

swap-Within :
    (before : List AgentConn) (a b : AgentConn) (agents : List AgentConn)
    → All Within (before ++ a ∷ b ∷ agents)
    → All Within (before ++ b ∷ a ∷ agents)
swap-Within [] a b agents h = (h.1.0, (h.0, h.1.1))
swap-Within (c ∷ before) a b agents h = (h.0, swap-Within before a b agents h.1)

dispatch-IsSound :
    (send : ℕ → JobDispatch → Bool) (j : JobDispatch) (r : Registry)
    → IsSound r
    → IsSound (Registry.dispatch send j r).1
dispatch-IsSound send j r h = elim (Option-cases (least_loaded r.agents)) [
  | inl e ↦ rw (dispatch_full send j r e) h
  | inr (a, e) ↦
      let choice = rw e at (least_loaded-IsChoice r.agents) in
      elim (Bool-cases (send a.stream j)) [
        | inl taken ↦
            rw (dispatch_chosen send j r a e, taken)
              (record {
                keyed = modify-AreKeyed a.info.agent_id suc r.agents h.keyed;
                within = suc-Within a r.agents h.keyed choice.0 choice.1 h.within;
              })
        | inr lost ↦ rw (dispatch_chosen send j r a e, lost) h
      ]
]

dispatch-AreKeyed :
    (send : ℕ → JobDispatch → Bool) (j : JobDispatch) (r : Registry)
    → AreKeyed r.agents
    → AreKeyed (Registry.dispatch send j r).1.agents
dispatch-AreKeyed send j r h = elim (Option-cases (least_loaded r.agents)) [
  | inl e ↦ rw (dispatch_full send j r e) h
  | inr (a, e) ↦ elim (Bool-cases (send a.stream j)) [
    | inl taken ↦
        rw (dispatch_chosen send j r a e, taken) (modify-AreKeyed a.info.agent_id suc r.agents h)
    | inr lost ↦ rw (dispatch_chosen send j r a e, lost) h
  ]
]

-- The ids of the agents stay distinct.
pub step-AreKeyed : (r s : Registry) → Step r s → AreKeyed r.agents → AreKeyed s.agents
unfolding Registry.connect Registry.disconnect Registry.job_done
step-AreKeyed _ _ (connect info stream r) h = put-AreKeyed _ r.agents h
step-AreKeyed _ _ (disconnect info r) h = remove-AreKeyed info.agent_id r.agents h
step-AreKeyed _ _ (dispatch send j r) h = dispatch-AreKeyed send j r h
step-AreKeyed _ _ (job_done id r) h = modify-AreKeyed id lower r.agents h
step-AreKeyed _ _ (swap before a b agents sent) h = swap-AreKeyed before a b agents h

step-IsSound : (r s : Registry) → Step r s → IsSound r → IsSound s
unfolding Registry.connect Registry.disconnect Registry.job_done
step-IsSound _ _ (connect info stream r) h = record {
  keyed = put-AreKeyed _ r.agents h.keyed;
  within = put-Within _ r.agents (omega arith) h.within;
}
step-IsSound _ _ (disconnect info r) h = record {
  keyed = remove-AreKeyed info.agent_id r.agents h.keyed;
  within = remove-Within info.agent_id r.agents h.within;
}
step-IsSound _ _ (dispatch send j r) h = dispatch-IsSound send j r h
step-IsSound _ _ (job_done id r) h = record {
  keyed = modify-AreKeyed id lower r.agents h.keyed;
  within = lower-Within id r.agents h.within;
}
step-IsSound _ _ (swap before a b agents sent) h = record {
  keyed = swap-AreKeyed before a b agents h.keyed;
  within = swap-Within before a b agents h.within;
}

-- From a state with distinct ids and no agent above its capacity, as the empty registry is, every
-- sequence of connections, disconnections, dispatches and results, in whatever order the map is
-- ranged over, leads to such a state; an agent with a negative capacity counts as one with capacity
-- 0, since it has 0 jobs, and gets none.
pub Steps-IsSound : (r s : Registry) → Steps r s → IsSound r → IsSound s
Steps-IsSound r _ here h = h
Steps-IsSound r t (later {s} step steps) h = Steps-IsSound s t steps (step-IsSound r s step h)
