-- ===== src/Pipeline/Manager/Waiting.antt =====
-- `Advance`, where a node waits for one that has failed.
use brazier.Base.{
  Text, ◌==◌, ==_iff, ◌≡◌, refl, sym, ◌∙◌, ap, true, false, Option, some, List, [], ◌∷◌, All,
  contains, arith, Bool-cases, inl, inr,
}
use brazier.Proto.{Node, id_of, depends_on_of}
use brazier.Db
use brazier.Db.{NodeState, RunState, Tables}
use brazier.Db.Store
use brazier.Db.Store.{Env, Store}
use brazier.Pipeline.Conditions.{RunContext}
use brazier.Pipeline.Scheduler.{
  Dispatcher, World, node_record, lets_through, deps_terminal, advance_node, advance_nodes, mark,
}
use brazier.Pipeline.Scheduler.Snapshot.{state_in}
use brazier.Pipeline.Scheduler.Lifecycle.{touched_by}
use brazier.Pipeline.Scheduler.Keyed.{step_cases}

deps_terminal_failed :
    (f : Text) (deps : List Text) (state : Text → Option NodeState)
    → contains f deps ≡ true
    → state f ≡ some NodeState.failed
    → deps_terminal deps state ≡ false
unfolding deps_terminal contains
deps_terminal_failed f [] state has failed = cc
deps_terminal_failed f (dep ∷ deps) state has failed = elim (Bool-cases (f == dep)) [
  | inl same ↦
      let stuck : lets_through (state dep) ≡ false = rw (sym ((==_iff f dep).0 same), failed) in
      ground (arith, stuck)
  | inr other ↦ ground (arith, deps_terminal_failed f deps state (ground (arith, has)) failed)
]

-- Every node of the pipeline with the id `n` depends on `f`.
abbrev pub Waits : Text → Text → List Node → Type 0
Waits f n nodes = All (λ m. id_of m ≡ n → contains f (depends_on_of m) ≡ true) nodes

pub upsert_node-runs :
    (env : Env) (n : Db.NodeRecord) (s : Store)
    → (Store.upsert_node env n s).1.tables.runs ≡ s.tables.runs
unfolding Store.upsert_node Store.execute Db.upsert_node
upsert_node-runs env n s = ground arith

module _ {S : Type 0} (env : Env) (d : Dispatcher S) (run_id : Text) where
  pub advance_nodes_waiting :
      (rc : RunContext) (state : Text → Option NodeState) (f n : Text) (nodes : List Node)
      (w : World S)
      → state f ≡ some NodeState.failed
      → Waits f n nodes
      → state_in run_id n (advance_nodes env d run_id rc state nodes w).store.tables
        ≡ state_in run_id n w.store.tables
  unfolding advance_nodes
  advance_nodes_waiting rc state f n [] w failed waits = refl
  advance_nodes_waiting rc state f n (m ∷ nodes) w failed waits =
      let w' = advance_node env d run_id rc state m w in
      advance_nodes_waiting rc state f n nodes w' failed waits.1
      ∙ elim (touched_by env d run_id rc state run_id n m w) [
        | inl same ↦ same
        | inr (_, here, _, passed, _) ↦
            let stuck = deps_terminal_failed f (depends_on_of m) state (waits.0 here) failed in cc
      ]

  pub advance_nodes-runs :
      (rc : RunContext) (state : Text → Option NodeState) (nodes : List Node) (w : World S)
      → (advance_nodes env d run_id rc state nodes w).store.tables.runs ≡ w.store.tables.runs
  unfolding advance_nodes mark
  advance_nodes-runs rc state [] w = refl
  advance_nodes-runs rc state (m ∷ nodes) w =
      let w' = advance_node env d run_id rc state m w in
      advance_nodes-runs rc state nodes w' ∙ elim (step_cases env d run_id rc state m w) [
        | inl same ↦ ap (λ (s : Store). s.tables.runs) same
        | inr (s, marked) ↦
            ap (λ (s : Store). s.tables.runs) marked
            ∙ upsert_node-runs env (node_record run_id (id_of m) s) w.store
      ]
