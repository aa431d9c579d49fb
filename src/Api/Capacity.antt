-- ===== src/Api/Capacity.antt =====
-- The capacity of the agents, while jobs are dispatched and their results are reported.
use brazier.Base.{
  ℕ, suc, ◌+◌, Text, ◌≡◌, refl, ◌∙◌, ap, Bool, false, List, [], ◌∷◌, ◌++◌, All, inl, inr, arith,
  Bool-cases, Option-cases, length,
}
use brazier.Proto.{JobDispatch, JobResult}
use brazier.Registry
use brazier.Registry.{AgentConn, Registry, least_loaded, lower}
use brazier.Registry.Choice.{least_loaded-IsChoice}
use brazier.Registry.Loads.{
  has_agent, AreKeyed, room, has_agent-modify, modify-AreKeyed, modify-absent, room-modify-suc,
  dispatch_full, dispatch_chosen,
}
use brazier.Api.{send_result}

-- What happens to the registry while no agent connects or leaves.
pub data Call : Type 0 where
  dispatched : (ℕ → JobDispatch → Bool) → JobDispatch → Call
  reported : JobResult → Call

unfoldable pub after_calls : List Call → Registry → Registry
after_calls [] r = r
after_calls (dispatched send j ∷ calls) r = after_calls calls (Registry.dispatch send j r).1
after_calls (reported result ∷ calls) r = after_calls calls (send_result result r)

-- The results are of jobs whose ids are no agent's.
abbrev pub Foreign : Registry → Call → Type 0
Foreign r (dispatched send j) = Unit
Foreign r (reported result) = has_agent result.job_id r.agents ≡ false

length-snoc : {A : Type 0} (xs : List A) (x : A) → length (xs ++ x ∷ []) ≡ suc (length xs)
length-snoc [] x = refl
length-snoc (y ∷ xs) x = ground (arith, length-snoc xs x)

-- What a call keeps.
record Keeps (r s : Registry) : Type 0 where
  keyed : AreKeyed s.agents
  ids : (id : Text) → has_agent id s.agents ≡ has_agent id r.agents
  places : room s.agents + length s.sent ≡ room r.agents + length r.sent

dispatch-Keeps :
    (send : ℕ → JobDispatch → Bool) (j : JobDispatch) (r : Registry)
    → AreKeyed r.agents
    → Keeps r (Registry.dispatch send j r).1
dispatch-Keeps send j r keyed = elim (Option-cases (least_loaded r.agents)) [
  | inl e ↦ rw (dispatch_full send j r e) same
  | inr (a, e) ↦
      let choice = rw e at (least_loaded-IsChoice r.agents) in
      elim (Bool-cases (send a.stream j)) [
        | inl taken ↦
            rw (dispatch_chosen send j r a e, taken)
              (record {
                keyed = modify-AreKeyed a.info.agent_id suc r.agents keyed;
                ids = λ id. has_agent-modify a.info.agent_id id suc r.agents;
                places = ground (
                  arith,
                  room-modify-suc a r.agents choice keyed,
                  length-snoc r.sent (a.stream, j),
                );
              })
        | inr lost ↦ rw (dispatch_chosen send j r a e, lost) same
      ]
]
  where
    same : Keeps r r
    same = record { keyed = keyed; ids = λ id. refl; places = refl }

send_result_foreign :
    (result : JobResult) (r : Registry)
    → has_agent result.job_id r.agents ≡ false
    → send_result result r ≡ r
unfolding send_result Registry.job_done
send_result_foreign result r h = rw (modify-absent result.job_id lower r.agents h)

All-Foreign :
    (calls : List Call) (r s : Registry)
    → ((id : Text) → has_agent id s.agents ≡ has_agent id r.agents)
    → All (Foreign r) calls
    → All (Foreign s) calls
All-Foreign [] r s ids h = tt
All-Foreign (dispatched send j ∷ calls) r s ids h = (tt, All-Foreign calls r s ids h.1)
All-Foreign (reported result ∷ calls) r s ids h =
    (ids result.job_id ∙ h.0, All-Foreign calls r s ids h.1)

-- Where the ids of the agents are distinct, and no result has a job id that is also the id of an
-- agent, every job that was sent has taken a place for good: reporting results gives none back.
pub after_calls-room :
    (calls : List Call) (r : Registry)
    → AreKeyed r.agents
    → All (Foreign r) calls
    → room (after_calls calls r).agents + length (after_calls calls r).sent
      ≡ room r.agents + length r.sent
unfolding after_calls
after_calls-room [] r keyed foreign = refl
after_calls-room (dispatched send j ∷ calls) r keyed foreign =
    let s = (Registry.dispatch send j r).1 in
    let kept = dispatch-Keeps send j r keyed in
    after_calls-room calls s kept.keyed (All-Foreign calls r s kept.ids foreign.1) ∙ kept.places
after_calls-room (reported result ∷ calls) r keyed foreign =
    ap (λ s. room (after_calls calls s).agents + length (after_calls calls s).sent)
      (send_result_foreign result r foreign.0)
    ∙ after_calls-room calls r keyed foreign.1
