-- ===== src/Registry/Loads.antt =====
-- How `Dispatch` and `JobDone` change the loads of the agents.
use brazier.Base.{
  Among, ℕ, suc, ◌+◌, ◌-◌, Text, ◌==◌, ==_iff, ==_refl, ◌≡◌, refl, ap, sym, Bool, true, false, none,
  some, List, [], ◌∷◌, ◌++◌, All, inl, inr, arith, if◌then◌else◌, Bool-cases, Option-cases, ◌||◌,
}
use brazier.Proto.{JobDispatch}
use brazier.Registry
use brazier.Registry.{
  AgentConn, Registry, Reply, dispatched, no_agents, send_failed, least_loaded, lower, is_sent,
}
use brazier.Registry.Choice.{places, has_room, IsChoice, least_loaded-IsChoice}

unfoldable pub has_agent : Text → List AgentConn → Bool
has_agent id [] = false
has_agent id (a ∷ agents) = a.info.agent_id == id || has_agent id agents

-- The ids are the keys of a map.
abbrev pub AreKeyed : List AgentConn → Type 0
AreKeyed [] = Unit
AreKeyed (a ∷ agents) = (has_agent a.info.agent_id agents ≡ false) × AreKeyed agents

-- How many jobs the agents still take.
unfoldable pub room : List AgentConn → ℕ
room [] = 0
room (a ∷ agents) = (places a.info.capacity - a.active) + room agents

pub Among-has_agent :
    (a : AgentConn) (agents : List AgentConn)
    → Among a agents
    → has_agent a.info.agent_id agents ≡ true
unfolding has_agent
Among-has_agent a [] among = elim among [ ]
Among-has_agent a (b ∷ agents) (inl e) = rw (sym e, ==_refl a.info.agent_id)
Among-has_agent a (b ∷ agents) (inr among) = ground (arith, Among-has_agent a agents among)

-- The chosen agent is the one that the map holds for its id.
pub modify-Among :
    (f : ℕ → ℕ) (a : AgentConn) (agents : List AgentConn)
    → Among a agents
    → AreKeyed agents
    → room (Registry.modify a.info.agent_id f agents) + (places a.info.capacity - a.active)
      ≡ room agents + (places a.info.capacity - f a.active)
unfolding Registry.modify room
modify-Among f a [] among keyed = elim among [ ]
modify-Among f a (c ∷ agents) (inl e) keyed = rw (sym e, ==_refl a.info.agent_id) (omega arith)
modify-Among f a (c ∷ agents) (inr among) keyed =
    let present = Among-has_agent a agents among in
    let rest = modify-Among f a agents among keyed.1 in
    ground (arith, ==_iff c.info.agent_id a.info.agent_id, present, keyed.0, rest)

pub modify-absent :
    (id : Text) (f : ℕ → ℕ) (agents : List AgentConn)
    → has_agent id agents ≡ false
    → Registry.modify id f agents ≡ agents
unfolding Registry.modify has_agent
modify-absent id f [] h = refl
modify-absent id f (a ∷ agents) h = ground (arith, modify-absent id f agents)

pub has_agent-modify :
    (id other : Text) (f : ℕ → ℕ) (agents : List AgentConn)
    → has_agent other (Registry.modify id f agents) ≡ has_agent other agents
unfolding Registry.modify has_agent
has_agent-modify id other f [] = refl
has_agent-modify id other f (a ∷ agents) = ground (arith, has_agent-modify id other f agents)

pub modify-AreKeyed :
    (id : Text) (f : ℕ → ℕ) (agents : List AgentConn)
    → AreKeyed agents
    → AreKeyed (Registry.modify id f agents)
unfolding Registry.modify
modify-AreKeyed id f [] h = tt
modify-AreKeyed id f (a ∷ agents) h = elim (Bool-cases (a.info.agent_id == id)) [
  | inl same ↦ rw same h
  | inr other ↦
      rw other
        (rw (has_agent-modify id a.info.agent_id f agents) h.0, modify-AreKeyed id f agents h.1)
]

-- No room is left exactly where no agent has any.
pub room_zero : (agents : List AgentConn) → All (λ a. has_room a ≡ false) agents → room agents ≡ 0
unfolding room
room_zero [] h = refl
room_zero (a ∷ agents) h = ground (arith, room_zero agents h.1, h.0)

lower-suc : (n : ℕ) → lower (suc n) ≡ n
lower-suc n = ground arith

modify-suc-lower :
    (id : Text) (agents : List AgentConn)
    → Registry.modify id lower (Registry.modify id suc agents) ≡ agents
unfolding Registry.modify
modify-suc-lower id [] = refl
modify-suc-lower id (a ∷ agents) = elim (Bool-cases (a.info.agent_id == id)) [
  | inl same ↦ rw (same, same) (ap (λ n. record a { active = n } ∷ agents) (lower-suc a.active))
  | inr other ↦ rw (other, other) (ap (λ rest. a ∷ rest) (modify-suc-lower id agents))
]

-- What `Dispatch` does on each branch.
abbrev pub Dispatched :
    (ℕ → JobDispatch → Bool) → JobDispatch → Registry → Reply × Registry → Type 0
Dispatched send j r (no_agents, after) =
    (after ≡ r) × All (λ b. has_room b ≡ false) r.agents × (room r.agents ≡ 0)
Dispatched send j r (send_failed id, after) =
    (after ≡ r)
    × (a : AgentConn) × IsChoice r.agents (some a)
    × (a.info.agent_id ≡ id)
    × (send a.stream j ≡ false)
Dispatched send j r (dispatched, after) =
    (a : AgentConn) × IsChoice r.agents (some a)
    × (send a.stream j ≡ true)
    × (after.sent ≡ r.sent ++ (a.stream, j) ∷ [])
    × (suc (room after.agents) ≡ room r.agents)
    × ((Registry.job_done a.info.agent_id after).agents ≡ r.agents)

pub room-modify-suc :
    (a : AgentConn) (agents : List AgentConn)
    → IsChoice agents (some a)
    → AreKeyed agents
    → suc (room (Registry.modify a.info.agent_id suc agents)) ≡ room agents
room-modify-suc a agents (among, free, least) keyed =
    ground (arith, modify-Among suc a agents among keyed)

pub dispatch_full :
    (send : ℕ → JobDispatch → Bool) (j : JobDispatch) (r : Registry)
    → least_loaded r.agents ≡ none
    → Registry.dispatch send j r ≡ (no_agents, r)
unfolding Registry.dispatch
dispatch_full send j r e = rw (Registry.dispatch, e)

pub dispatch_chosen :
    (send : ℕ → JobDispatch → Bool) (j : JobDispatch) (r : Registry) (a : AgentConn)
    → least_loaded r.agents ≡ some a
    → Registry.dispatch send j r ≡ (
        if send a.stream j
        then (
          dispatched,
          record {
            agents = Registry.modify a.info.agent_id suc r.agents;
            sent = r.sent ++ (a.stream, j) ∷ [];
          },
        )
        else (send_failed a.info.agent_id, r))
unfolding Registry.dispatch
dispatch_chosen send j r a e = rw (Registry.dispatch, e)

-- Where the ids of the agents are distinct, `Dispatch` fails without a change where no agent has
-- room or the stream does not take the job; otherwise it sends the job once, to an agent that has
-- room and of which none with room has less to do, takes up one place, and `JobDone` for that
-- agent gives it back.
pub dispatch-Dispatched :
    (send : ℕ → JobDispatch → Bool) (j : JobDispatch) (r : Registry)
    → AreKeyed r.agents
    → Dispatched send j r (Registry.dispatch send j r)
unfolding Registry.job_done
dispatch-Dispatched send j r keyed = elim (Option-cases (least_loaded r.agents)) [
  | inl e ↦
      let full = rw e at (least_loaded-IsChoice r.agents) in
      rw (dispatch_full send j r e) (refl, full, room_zero r.agents full)
  | inr (a, e) ↦
      let choice = rw e at (least_loaded-IsChoice r.agents) in
      elim (Bool-cases (send a.stream j)) [
        | inl taken ↦
            rw (dispatch_chosen send j r a e, taken)
              (
                a,
                choice,
                taken,
                refl,
                room-modify-suc a r.agents choice keyed,
                modify-suc-lower a.info.agent_id r.agents,
              )
        | inr lost ↦ rw (dispatch_chosen send j r a e, lost) (refl, a, choice, refl, lost)
      ]
]
