-- ===== src/Pipeline/Manager/Completion.antt =====
-- What `NodeCompleted` does to the nodes and to the run.
use brazier.Base.{
  ℕ, Text, ◌==◌, ◌≡◌, refl, Bool, true, Option, none, some, List, [], ◌∷◌, keep, any, not, arith,
  if◌then◌else◌, Bool-cases, inl, inr,
}
use brazier.Db
use brazier.Db.{
  RunState, NodeState, NodeRecord, PipelineRun, Tables, find_node, get_node, list_nodes, find_run,
}
use brazier.Bus.{Event, job_completed, job_failed, run_completed}
use brazier.Pipeline.Scheduler.{node_record}
use brazier.Pipeline.Manager.{is_terminal, is_failed, all_terminal, final_state}

-- Where every row of the run is terminal, the row of each node is.
pub all_terminal-find_node :
    (run_id : Text) (rows : List NodeRecord) (node_id : Text) (n : NodeRecord)
    → all_terminal (keep (λ m. m.run_id == run_id) rows) ≡ true
    → find_node run_id node_id rows ≡ some n
    → is_terminal n.state ≡ true
unfolding all_terminal find_node
all_terminal-find_node run_id [] node_id n h found = cc
all_terminal-find_node run_id (m ∷ rows) node_id n h found =
    elim (Bool-cases (m.run_id == run_id)) [
      | inl same ↦
          let parts = rw same at h in
          ground (arith, all_terminal-find_node run_id rows node_id n, parts)
      | inr other ↦
          let rest = rw other at h in
          ground (arith, all_terminal-find_node run_id rows node_id n rest)
    ]

-- The state that the nodes of a run give it: unchanged while one is not terminal, then failed if
-- one failed, and success otherwise.
unfoldable pub run_verdict : List NodeRecord → RunState → RunState
run_verdict rows old =
    if any (λ n. not (is_terminal n.state)) rows
    then old
    else if any (λ n. is_failed n.state) rows
    then RunState.failed
    else RunState.success

pub all_terminal-any :
    (rows : List NodeRecord) → all_terminal rows ≡ not (any (λ n. not (is_terminal n.state)) rows)
unfolding all_terminal
all_terminal-any [] = refl
all_terminal-any (n ∷ rows) = ground (arith, all_terminal-any rows)

pub final_state-any :
    (rows : List NodeRecord)
    → final_state rows
      ≡ (if any (λ n. is_failed n.state) rows then RunState.failed else RunState.success)
unfolding final_state
final_state-any [] = refl
final_state-any (n ∷ rows) = ground (arith, final_state-any rows)

abbrev pub run_state_of : Option PipelineRun → Option RunState
run_state_of none = none
run_state_of (some r) = some r.state

-- The state of a run in the database.
unfoldable pub run_state_in : Text → Tables → Option RunState
run_state_in run_id t = run_state_of (Db.get_run run_id t)

pub run_state_in-runs :
    (run_id : Text) (t u : Tables) → t.runs ≡ u.runs → run_state_in run_id t ≡ run_state_in run_id u
unfolding run_state_in Db.get_run
run_state_in-runs run_id t u e = rw e

abbrev pub with_verdict : List NodeRecord → Option RunState → Option RunState
with_verdict rows none = none
with_verdict rows (some old) = some (run_verdict rows old)

-- The rows of the run, once a node is completed.
abbrev pub rows_after : (run_id node_id : Text) → Bool → (now : ℕ) → Tables → List NodeRecord
rows_after run_id node_id success now t = Db.list_nodes run_id (
    Db.upsert_node now
      (node_record run_id node_id (if success then NodeState.success else NodeState.failed)) t)

abbrev pub completion_events : (run_id node_id : Text) → Bool → List NodeRecord → List Event
completion_events run_id node_id success rows =
    record { type = if success then job_completed else job_failed; payload = node_id }
    ∷ (if any (λ n. not (is_terminal n.state)) rows
        then []
        else record { type = run_completed; payload = run_id } ∷ [])
