-- ===== src/Registry/Reconnects.antt =====
-- An agent that connects again before its old stream has ended.
use mathlib.Core.List.{append_assoc, append-nil}
use brazier.Base.{
  ℕ, suc, Text, ◌==◌, ==_iff, ◌≡◌, refl, sym, ap, ◌∙◌, Bool, true, false, List, [], ◌∷◌, ◌++◌, All,
  All-append, All-Among, nat_eq, Bool-cases, Option-cases, inl, inr, arith,
}
use brazier.Proto.{AgentRegistration, JobDispatch}
use brazier.Registry
use brazier.Registry.{AgentConn, Registry, least_loaded}
use brazier.Registry.Choice.{least_loaded-IsChoice}
use brazier.Registry.Loads.{has_agent, AreKeyed, dispatch_full, dispatch_chosen}
use brazier.Registry.Steps.{Step, step-AreKeyed}

-- No agent has the stream.
abbrev pub IsUnused : ℕ → List AgentConn → Type 0
IsUnused stream agents = All (λ a. nat_eq a.stream stream ≡ false) agents

-- Calls of the registry, with any jobs, results and ends of streams, and connections on other
-- streams than `stream`.
pub data Calls (stream : ℕ) : Registry → Registry → Type 0 where
  here : {r : Registry} → Calls stream r r
  connect :
      {s : Registry} (info : AgentRegistration) (other : ℕ) (r : Registry)
      → nat_eq other stream ≡ false
      → Calls stream (Registry.connect info other r) s
      → Calls stream r s
  disconnect :
      {s : Registry} (info : AgentRegistration) (r : Registry)
      → Calls stream (Registry.disconnect info r) s
      → Calls stream r s
  dispatch :
      {s : Registry} (send : ℕ → JobDispatch → Bool) (j : JobDispatch) (r : Registry)
      → Calls stream (Registry.dispatch send j r).1 s
      → Calls stream r s
  job_done :
      {s : Registry} (id : Text) (r : Registry)
      → Calls stream (Registry.job_done id r) s
      → Calls stream r s

module _ (P : AgentConn → Type 0) where
  All-put :
      (c : AgentConn) (agents : List AgentConn) → P c → All P agents → All P (Registry.put c agents)
  unfolding Registry.put
  All-put c [] p h = (p, tt)
  All-put c (a ∷ agents) p h = elim (Bool-cases (a.info.agent_id == c.info.agent_id)) [
    | inl same ↦ rw same (p, h.1)
    | inr other ↦ rw other (h.0, All-put c agents p h.1)
  ]

  All-remove :
      (id : Text) (agents : List AgentConn) → All P agents → All P (Registry.remove id agents)
  unfolding Registry.remove
  All-remove id [] h = tt
  All-remove id (a ∷ agents) h = elim (Bool-cases (a.info.agent_id == id)) [
    | inl same ↦ rw same h.1
    | inr other ↦ rw other (h.0, All-remove id agents h.1)
  ]

  All-modify :
      (id : Text) (f : ℕ → ℕ) (agents : List AgentConn)
      → ((a : AgentConn) (n : ℕ) → P a → P (record a { active = n }))
      → All P agents
      → All P (Registry.modify id f agents)
  unfolding Registry.modify
  All-modify id f [] kept h = tt
  All-modify id f (a ∷ agents) kept h = elim (Bool-cases (a.info.agent_id == id)) [
    | inl same ↦ rw same (kept a (f a.active) h.0, h.1)
    | inr other ↦ rw other (h.0, All-modify id f agents kept h.1)
  ]

-- The ids are distinct, and only the agent with this id can have the stream.
record IsOwned (id : Text) (stream : ℕ) (agents : List AgentConn) : Type 0 where
  pub keyed : AreKeyed agents
  pub owned : All (λ a. nat_eq a.stream stream ≡ true → a.info.agent_id ≡ id) agents

remove-IsUnused :
    (id : Text) (stream : ℕ) (agents : List AgentConn)
    → has_agent id agents ≡ false
    → All (λ a. nat_eq a.stream stream ≡ true → a.info.agent_id ≡ id) agents
    → IsUnused stream agents
unfolding has_agent
remove-IsUnused id stream [] absent h = tt
remove-IsUnused id stream (a ∷ agents) absent h = (
  elim (Bool-cases (nat_eq a.stream stream)) [
    | inl same ↦ let e = (==_iff a.info.agent_id id).1 (h.0 same) in ground (arith, absent, e)
    | inr other ↦ other
  ],
  remove-IsUnused id stream agents (ground (arith, absent)) h.1,
)

IsOwned-remove :
    (id : Text) (stream : ℕ) (agents : List AgentConn)
    → IsOwned id stream agents
    → IsUnused stream (Registry.remove id agents)
unfolding Registry.remove
IsOwned-remove id stream [] h = tt
IsOwned-remove id stream (a ∷ agents) h = elim (Bool-cases (a.info.agent_id == id)) [
  | inl same ↦
      let e = (==_iff a.info.agent_id id).0 same in
      rw same (
        remove-IsUnused id stream agents (ap (λ x. has_agent x agents) (sym e) ∙ h.keyed.0)
          h.owned.1)
  | inr other ↦ rw other (
    elim (Bool-cases (nat_eq a.stream stream)) [
      | inl on ↦ let e = (==_iff a.info.agent_id id).1 (h.owned.0 on) in cc
      | inr off ↦ off
    ],
    IsOwned-remove id stream agents (record { keyed = h.keyed.1; owned = h.owned.1 }),
  )
]

connect-IsOwned :
    (info : AgentRegistration) (stream : ℕ) (agents : List AgentConn)
    → IsUnused stream agents
    → All (λ a. nat_eq a.stream stream ≡ true → a.info.agent_id ≡ info.agent_id) agents
connect-IsOwned info stream [] h = tt
connect-IsOwned info stream (a ∷ agents) h = (λ on. cc, connect-IsOwned info stream agents h.1)

-- The jobs that were sent beyond `before`, none of which is on the stream.
abbrev pub SendsElsewhere : ℕ → Registry → Registry → Type 0
SendsElsewhere stream r s =
    (more : List (ℕ × JobDispatch)) × (s.sent ≡ r.sent ++ more)
    × All (λ (t, j). nat_eq t stream ≡ false) more

module _ (stream : ℕ) where
  module _ (P : AgentConn → Type 0)
      (kept : (a : AgentConn) (n : ℕ) → P a → P (record a { active = n })) where
    dispatch-All :
        (send : ℕ → JobDispatch → Bool) (j : JobDispatch) (r : Registry)
        → All P r.agents
        → All P (Registry.dispatch send j r).1.agents
    dispatch-All send j r h = elim (Option-cases (least_loaded r.agents)) [
      | inl e ↦ rw (dispatch_full send j r e) h
      | inr (a, e) ↦ elim (Bool-cases (send a.stream j)) [
        | inl taken ↦
            rw (dispatch_chosen send j r a e, taken)
              (All-modify P a.info.agent_id suc r.agents kept h)
        | inr lost ↦ rw (dispatch_chosen send j r a e, lost) h
      ]
    ]

    Calls-All :
        (r s : Registry)
        → ((a : AgentConn) → nat_eq a.stream stream ≡ false → P a)
        → Calls stream r s
        → All P r.agents
        → All P s.agents
    unfolding Registry.connect Registry.disconnect Registry.job_done
    Calls-All r _ off here h = h
    Calls-All r s off (connect info other _ apart rest) h =
        Calls-All _ s off rest (All-put P _ r.agents (off _ apart) h)
    Calls-All r s off (disconnect info _ rest) h =
        Calls-All _ s off rest (All-remove P info.agent_id r.agents h)
    Calls-All r s off (dispatch send j _ rest) h = Calls-All _ s off rest (dispatch-All send j r h)
    Calls-All r s off (job_done id _ rest) h =
        Calls-All _ s off rest (All-modify P id Registry.lower r.agents kept h)

  Calls-AreKeyed : (r s : Registry) → Calls stream r s → AreKeyed r.agents → AreKeyed s.agents
  Calls-AreKeyed r _ here h = h
  Calls-AreKeyed r s (connect info other _ apart rest) h =
      Calls-AreKeyed _ s rest (step-AreKeyed r _ (Step.connect info other r) h)
  Calls-AreKeyed r s (disconnect info _ rest) h =
      Calls-AreKeyed _ s rest (step-AreKeyed r _ (Step.disconnect info r) h)
  Calls-AreKeyed r s (dispatch send j _ rest) h =
      Calls-AreKeyed _ s rest (step-AreKeyed r _ (Step.dispatch send j r) h)
  Calls-AreKeyed r s (job_done id _ rest) h =
      Calls-AreKeyed _ s rest (step-AreKeyed r _ (Step.job_done id r) h)

  dispatch-SendsElsewhere :
      (send : ℕ → JobDispatch → Bool) (j : JobDispatch) (r : Registry)
      → IsUnused stream r.agents
      → SendsElsewhere stream r (Registry.dispatch send j r).1
  dispatch-SendsElsewhere send j r h = elim (Option-cases (least_loaded r.agents)) [
    | inl e ↦ rw (dispatch_full send j r e) ([], sym (append-nil _), tt)
    | inr (a, e) ↦ elim (Bool-cases (send a.stream j)) [
      | inl taken ↦
          let choice = rw e at (least_loaded-IsChoice r.agents) in
          rw (dispatch_chosen send j r a e, taken)
            (
              (a.stream, j) ∷ [],
              refl,
              (All-Among (λ b. nat_eq b.stream stream ≡ false) r.agents a h choice.0, tt),
            )
      | inr lost ↦ rw (dispatch_chosen send j r a e, lost) ([], sym (append-nil _), tt)
    ]
  ]

  SendsElsewhere-trans :
      (r s t : Registry)
      → SendsElsewhere stream r s
      → SendsElsewhere stream s t
      → SendsElsewhere stream r t
  SendsElsewhere-trans r s t (xs, e, h) (ys, e', h') = (
    xs ++ ys,
    e' ∙ ap (λ zs. zs ++ ys) e ∙ append_assoc r.sent xs ys,
    All-append (λ (u, j). nat_eq u stream ≡ false) xs ys h h',
  )

  Calls-SendsElsewhere :
      (r s : Registry) → Calls stream r s → IsUnused stream r.agents → SendsElsewhere stream r s
  unfolding Registry.connect Registry.disconnect Registry.job_done
  Calls-SendsElsewhere r _ here h = ([], sym (append-nil _), tt)
  Calls-SendsElsewhere r s (connect info other _ apart rest) h =
      Calls-SendsElsewhere _ s rest
        (All-put (λ a. nat_eq a.stream stream ≡ false) _ r.agents apart h)
  Calls-SendsElsewhere r s (disconnect info _ rest) h =
      Calls-SendsElsewhere _ s rest
        (All-remove (λ a. nat_eq a.stream stream ≡ false) info.agent_id r.agents h)
  Calls-SendsElsewhere r s (dispatch send j _ rest) h =
      SendsElsewhere-trans r (Registry.dispatch send j r).1 s (dispatch-SendsElsewhere send j r h) (
        Calls-SendsElsewhere _ s rest
          (dispatch-All (λ a. nat_eq a.stream stream ≡ false) (λ a n p. p) send j r h))
  Calls-SendsElsewhere r s (job_done id _ rest) h =
      Calls-SendsElsewhere _ s rest
        (All-modify (λ a. nat_eq a.stream stream ≡ false) id Registry.lower r.agents (λ a n p. p) h)

  -- Where the ids of the agents are distinct, an agent connects on a stream that no agent has, any
  -- calls of the registry follow, then an older stream of this agent ends, and any calls follow
  -- again, none of which connects an agent on the new stream: no job that is sent after the end of
  -- the older stream is sent on the new one.
  pub reconnect-SendsElsewhere :
      (info : AgentRegistration) (r u v : Registry)
      → AreKeyed r.agents
      → IsUnused stream r.agents
      → Calls stream (Registry.connect info stream r) u
      → Calls stream (Registry.disconnect info u) v
      → SendsElsewhere stream u v
  unfolding Registry.connect Registry.disconnect
  reconnect-SendsElsewhere info r u v keyed unused before after =
      let owner =
        Calls-All (λ a. nat_eq a.stream stream ≡ true → a.info.agent_id ≡ info.agent_id)
          (λ a n p. p) _ u (λ a off on. cc) before
          (All-put (λ a. nat_eq a.stream stream ≡ true → a.info.agent_id ≡ info.agent_id)
            (record { info = info; stream = stream; active = 0 }) r.agents (λ on. refl)
            (connect-IsOwned info stream r.agents unused)) in
      let distinct =
        Calls-AreKeyed _ u before (step-AreKeyed r _ (Step.connect info stream r) keyed) in
      Calls-SendsElsewhere _ v after
        (IsOwned-remove info.agent_id stream u.agents (record { keyed = distinct; owned = owner }))
