-- ===== src/Pipeline/Manager/Idle.antt =====
-- A run of which every node is skipped.
use brazier.Base.{
  ℕ, suc, Text, ◌≡◌, refl, ◌∙◌, false, List, [], ◌∷◌, ◌++◌, All, arith, Bool-cases, inl, inr, some,
  Option,
}
use brazier.Proto.{Node, conditions_of, PipelineSpec}
use brazier.Db.{NodeState, RunState, list_nodes}
use brazier.Db.Store
use brazier.Db.Store.{Env}
use brazier.Bus.{trigger_received}
use brazier.Pipeline.Scheduler.Refinement.{advance_unread}
use brazier.Pipeline.Conditions.{RunContext, eval_conditions}
use brazier.Pipeline.Scheduler.{
  Dispatcher, World, advance, advance_node, advance_nodes, state_by_id, skip_node, mark,
}
use brazier.Pipeline.Manager
use brazier.Pipeline.Manager.{ok}
use brazier.Pipeline.Manager.Completion.{run_state_in, run_state_in-runs}
use brazier.Pipeline.Manager.Waiting.{advance_nodes-runs}
use brazier.Pipeline.Manager.Begun.{started_ok, dispatcher-start}

-- The conditions of no node hold.
abbrev pub NonePasses : RunContext → PipelineSpec → Type 0
NonePasses rc spec = All (λ n. eval_conditions (conditions_of n) rc ≡ false) spec.nodes

-- Calls of `Advance` for the run, with any failures, any dispatchers, and any contexts in which the
-- conditions of no node hold.
pub data Advances {S : Type 0} (run_id : Text) (spec : PipelineSpec)
    : World S → World S → Type 0 where
  here : {w : World S} → Advances run_id spec w w
  later :
      {v : World S} (env : Env) (d : Dispatcher S) (rc : RunContext) (w : World S)
      → NonePasses rc spec
      → Advances run_id spec (advance env d run_id rc spec w) v
      → Advances run_id spec w v

module _ {S : Type 0} (run_id : Text) where
  record IsIdle (v w : World S) : Type 0 where
    runs : w.store.tables.runs ≡ v.store.tables.runs
    dispatcher : w.dispatcher ≡ v.dispatcher
    published : w.published ≡ v.published

  IsIdle-trans : (u v w : World S) → IsIdle u v → IsIdle v w → IsIdle u w
  IsIdle-trans u v w h k = record {
    runs = k.runs ∙ h.runs;
    dispatcher = k.dispatcher ∙ h.dispatcher;
    published = k.published ∙ h.published;
  }

  module _ (env : Env) (d : Dispatcher S) (rc : RunContext) where
    advance_node_skips :
        (state : Text → Option NodeState) (n : Node) (w : World S)
        → eval_conditions (conditions_of n) rc ≡ false
        → ((advance_node env d run_id rc state n w).dispatcher ≡ w.dispatcher)
          × ((advance_node env d run_id rc state n w).published ≡ w.published)
    unfolding advance_node skip_node mark
    advance_node_skips state n w off = rw (off) (ground arith)

    advance_nodes_skips :
        (state : Text → Option NodeState) (ns : List Node) (w : World S)
        → All (λ n. eval_conditions (conditions_of n) rc ≡ false) ns
        → ((advance_nodes env d run_id rc state ns w).dispatcher ≡ w.dispatcher)
          × ((advance_nodes env d run_id rc state ns w).published ≡ w.published)
    unfolding advance_nodes
    advance_nodes_skips state [] w off = (refl, refl)
    advance_nodes_skips state (n ∷ ns) w off =
        let one = advance_node_skips state n w off.0 in
        let more = advance_nodes_skips state ns (advance_node env d run_id rc state n w) off.1 in
        (more.0 ∙ one.0, more.1 ∙ one.1)

    advance-IsIdle :
        (spec : PipelineSpec) (w : World S)
        → NonePasses rc spec
        → IsIdle w (advance env d run_id rc spec w)
    unfolding advance Store.list_nodes Store.query
    advance-IsIdle spec w off = elim (Bool-cases (env.fails w.store.calls)) [
      | inl failed ↦
          rw (advance_unread env d run_id rc spec w failed)
            (record { runs = refl; dispatcher = refl; published = refl })
      | inr read ↦
          let after = record w.store { calls = suc w.store.calls } in
          let state = state_by_id (list_nodes run_id w.store.tables) in
          let skips = advance_nodes_skips state spec.nodes (record w { store = after }) off in
          rw (advance, read, Store.list_nodes, read)
            (record {
              runs =
                  advance_nodes-runs env d run_id rc state spec.nodes (record w { store = after });
              dispatcher = skips.0;
              published = skips.1;
            })
    ]

  Advances-IsIdle : (spec : PipelineSpec) (v w : World S) → Advances run_id spec v w → IsIdle v w
  Advances-IsIdle spec v _ here = record { runs = refl; dispatcher = refl; published = refl }
  Advances-IsIdle spec v w (later env d rc _ off rest) =
      IsIdle-trans _ _ _ (advance-IsIdle env d rc spec v off) (Advances-IsIdle spec _ w rest)

  -- Where `Start` replies ok, and calls of `Advance` follow, with any failures and in any contexts in
  -- which the conditions of no node hold, no job of the run is dispatched, `trigger_received` stays
  -- its only event, and the run stays running, whatever nodes are skipped.
  pub start_idle :
      (env : Env) (project : Text) (now : ℕ) (spec : PipelineSpec) (w v : World S)
      → (Manager.start env run_id project now spec w).0 ≡ ok run_id
      → Advances run_id spec (Manager.start env run_id project now spec w).1 v
      → (run_state_in run_id v.store.tables ≡ some RunState.running)
        × (v.dispatcher ≡ w.dispatcher)
        × (v.published ≡ w.published ++ record { type = trigger_received; payload = run_id } ∷ [])
  start_idle env project now spec w v replied steps =
      let u = (Manager.start env run_id project now spec w).1 in
      let (_, running, events) = started_ok env run_id project now spec w replied in
      let idle = Advances-IsIdle spec u v steps in
      (
        run_state_in-runs run_id v.store.tables u.store.tables idle.runs ∙ running,
        idle.dispatcher ∙ dispatcher-start env run_id project now spec w,
        idle.published ∙ events,
      )
