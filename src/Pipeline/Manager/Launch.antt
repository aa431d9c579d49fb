-- ===== src/Pipeline/Manager/Launch.antt =====
-- A new run: `Start`, and the call of `Advance` behind it.
use brazier.Base.{
  All-weaken, ℕ, Text, ==_refl, ◌≡◌, refl, ◌∙◌, ap, Bool, true, false, ◌&&◌, Option, none, some,
  List, [], ◌∷◌, ◌++◌, All, keep, contains, Bool-cases, inl, inr, if◌then◌else◌,
}
use brazier.Proto.{Node, id_of, depends_on_of, conditions_of, PipelineSpec}
use brazier.Db
use brazier.Db.{NodeState, RunState, Tables}
use brazier.Db.Keys.{IsKeyed}
use brazier.Db.Store.{Env}
use brazier.Bus.{Event, trigger_received}
use brazier.Pipeline.Conditions.{RunContext, eval_conditions}
use brazier.Pipeline.Scheduler.{World, deps_terminal}
use brazier.Pipeline.Scheduler.Snapshot.{state_in}
use brazier.Pipeline.Scheduler.Refinement.{Reliable}
use brazier.Pipeline.Scheduler.Dispatches.{Request, ready, requests, announced}
use brazier.Pipeline.Scheduler.Passes.{states, ready_nodes, pass, advance_dispatches_all}
use brazier.Pipeline.Manager
use brazier.Pipeline.Manager.{
  Reply, ok, create_failed, seed_failed, update_failed, upsert_failed, list_failed, new_run,
  seed_nodes, set_running, finish_start,
}
use brazier.Pipeline.Manager.Seeding.{seeded_ids}
use brazier.Pipeline.Manager.Begun.{contains-seeded_ids, started_ok, dispatcher-start}
use brazier.Pipeline.Manager.Success.{start_succeeds}
use brazier.Pipeline.Manager.Keyed.{start-IsKeyed}

abbrev is_empty : List Text → Bool
is_empty [] = true
is_empty (t ∷ ts) = false

-- A node that waits for no other, and whose conditions hold.
abbrev pub is_root : RunContext → Node → Bool
is_root rc n = is_empty (depends_on_of n) && eval_conditions (conditions_of n) rc

keep-same : (p q : Node → Bool) (ns : List Node) → All (λ n. p n ≡ q n) ns → keep p ns ≡ keep q ns
keep-same p q [] h = refl
keep-same p q (n ∷ ns) h = rw (h.0, keep-same p q ns h.1) refl

-- The nodes of the rows are pending, and there is no other row.
abbrev IsFresh : List Text → (Text → Option NodeState) → Type 0
IsFresh ids state =
    (id : Text) → state id ≡ (if contains id ids then some NodeState.pending else none)

deps_terminal-IsFresh :
    (ids deps : List Text) (state : Text → Option NodeState)
    → IsFresh ids state
    → deps_terminal deps state ≡ is_empty deps
unfolding deps_terminal
deps_terminal-IsFresh ids [] state fresh = refl
deps_terminal-IsFresh ids (dep ∷ deps) state fresh = elim (Bool-cases (contains dep ids)) [
  | inl on ↦ rw (fresh dep, on) refl
  | inr off ↦ rw (fresh dep, off) refl
]

ready-is_root :
    (rc : RunContext) (ids : List Text) (state : Text → Option NodeState) (n : Node)
    → IsFresh ids state
    → contains (id_of n) ids ≡ true
    → ready rc state n ≡ is_root rc n
unfolding ready
ready-is_root rc ids state n fresh on =
    rw (fresh (id_of n), on, deps_terminal-IsFresh ids (depends_on_of n) state fresh) refl

module _ (env : Env) (accepts : Request → Bool) (run_id project : Text) (now : ℕ)
    (spec : PipelineSpec) (rc : RunContext) where
  abbrev pub started : World (List Request) → World (List Request)
  started w = (Manager.start env run_id project now spec w).1

  -- Where no statement fails, the id of the run is new to the runs and to the nodes, and the primary
  -- keys are unique, the call of Advance behind Start dispatches the jobs of exactly the nodes that
  -- depend on no node and whose conditions hold, in the order of the pipeline, and publishes an event
  -- for each job that was accepted, behind the event of Start.
  pub advance-start :
      (w : World (List Request))
      → Reliable env
      → IsKeyed w.store.tables
      → Db.get_run run_id w.store.tables ≡ none
      → ((id : Text) → state_in run_id id w.store.tables ≡ none)
      → let after = pass env accepts run_id rc spec (started w) in
        let sent = requests run_id (keep (is_root rc) spec.nodes) in
        (after.dispatcher ≡ w.dispatcher ++ sent)
        × (after.published
            ≡ (w.published ++ record { type = trigger_received; payload = run_id } ∷ [])
              ++ announced accepts sent)
  advance-start w reliable keyed no_run no_nodes =
      let v = started w in
      let (marks, _, events) =
        started_ok env run_id project now spec w
          (start_succeeds env run_id project now spec reliable w no_run) in
      let fresh : IsFresh (seeded_ids spec.nodes) (states env accepts run_id rc v) =
        λ id. marks run_id id ∙ rw (==_refl run_id, no_nodes id) refl in
      let roots : ready_nodes env accepts run_id rc v spec.nodes ≡ keep (is_root rc) spec.nodes =
        keep-same (ready rc (states env accepts run_id rc v)) (is_root rc) spec.nodes (
          All-weaken (λ n. contains (id_of n) (seeded_ids spec.nodes) ≡ true) _ spec.nodes
            (λ n on.
              ready-is_root rc (seeded_ids spec.nodes) (states env accepts run_id rc v) n fresh on)
            (contains-seeded_ids spec.nodes)) in
      let sends =
        advance_dispatches_all env accepts run_id rc spec v reliable
          (start-IsKeyed env run_id project now spec w keyed) in
      let made = ap (requests run_id) roots in
      (
        sends.sent
            ∙ ap
                (λ (rs : List Request).
                  rs ++ requests run_id (ready_nodes env accepts run_id rc v spec.nodes))
                (dispatcher-start env run_id project now spec w)
            ∙ ap (λ (rs : List Request). w.dispatcher ++ rs) made,
        sends.published
            ∙ ap
                (λ (es : List Event).
                  es
                  ++ announced accepts
                      (requests run_id (ready_nodes env accepts run_id rc v spec.nodes)))
                events
            ∙ ap
                (λ (rs : List Request).
                  (w.published ++ record { type = trigger_received; payload = run_id } ∷ [])
                  ++ announced accepts rs)
                made,
      )
