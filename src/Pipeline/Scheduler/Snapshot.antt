-- ===== src/Pipeline/Scheduler/Snapshot.antt =====
-- The snapshot that `Advance` reads shows the state of each row of the run.
use brazier.Base.{Text, ◌==◌, ==_iff, ◌≡◌, refl, Option, none, some, List, [], ◌∷◌, keep, arith}
use brazier.Db.{NodeState, NodeRecord, Tables, find_node, get_node, list_nodes}
use brazier.Db.Keys.{UniqueNodes, IsKeyed}
use brazier.Pipeline.Scheduler.{state_by_id}

abbrev pub state_of : Option NodeRecord → Option NodeState
state_of none = none
state_of (some n) = some n.state

-- The state of a node in the database.
unfoldable pub state_in : Text → Text → Tables → Option NodeState
state_in run_id node_id t = state_of (get_node run_id node_id t)

abbrev rows_of : Text → List NodeRecord → List NodeRecord
rows_of run_id ns = keep (λ m. m.run_id == run_id) ns

state_by_id-absent :
    (run_id id : Text) (ns : List NodeRecord)
    → find_node run_id id ns ≡ none
    → state_by_id (rows_of run_id ns) id ≡ none
unfolding state_by_id find_node
state_by_id-absent run_id id [] h = refl
state_by_id-absent run_id id (n ∷ ns) h = ground (arith, state_by_id-absent run_id id ns)

state_by_id-rows :
    (run_id id : Text) (ns : List NodeRecord)
    → UniqueNodes ns
    → state_by_id (rows_of run_id ns) id ≡ state_of (find_node run_id id ns)
unfolding state_by_id find_node
state_by_id-rows run_id id [] u = refl
state_by_id-rows run_id id (n ∷ ns) u = ground (
  arith,
  u.0,
  state_by_id-rows run_id id ns u.1,
  state_by_id-absent run_id id ns,
  ==_iff n.run_id run_id,
  ==_iff n.node_id id,
)

pub state_by_id-list_nodes :
    (run_id id : Text) (t : Tables)
    → IsKeyed t
    → state_by_id (list_nodes run_id t) id ≡ state_in run_id id t
unfolding list_nodes state_in get_node
state_by_id-list_nodes run_id id t k = state_by_id-rows run_id id t.nodes k.nodes
