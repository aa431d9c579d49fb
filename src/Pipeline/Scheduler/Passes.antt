-- ===== src/Pipeline/Scheduler/Passes.antt =====
-- One call of `Advance`, two in a row, and two at the same time.
use brazier.Base.{
  All-weaken, All, Text, ==_refl, ◌≡◌, refl, ap, ◌∙◌, Bool, true, false, Option, none, some, List,
  [], ◌∷◌, ◌++◌, keep, arith, Bool-cases, inl, inr,
}
use brazier.Proto.{Node, id_of, PipelineSpec}
use brazier.Db.{NodeState}
use brazier.Db.Keys.{IsKeyed}
use brazier.Db.Store.{Env}
use brazier.Pipeline.Conditions.{RunContext}
use brazier.Pipeline.Scheduler.{World, is_pending, advance_nodes, advance}
use brazier.Pipeline.Scheduler.Steps.{shown, verdict, decided}
use brazier.Pipeline.Scheduler.Refinement.{Reliable, listed, advance-advance_nodes, advance-decided}
use brazier.Pipeline.Scheduler.Dispatches.{
  Request, recorder, ready, requests, Sends, Sends-nil, Sends-trans,
}
use brazier.Pipeline.Scheduler.Dispatches.Ready.{Sends-advance_nodes-Reliable}

abbrev pub is_decided : Option NodeState → Bool
is_decided none = false
is_decided (some s) = true

module _ (rc : RunContext) (state : Text → Option NodeState) where
  pub decided-ne-pending :
      (ns : List Node) (id : Text)
      → is_decided (decided rc state ns id) ≡ true
      → is_pending (decided rc state ns id) ≡ false
  unfolding decided verdict
  decided-ne-pending [] id h = refl
  decided-ne-pending (n ∷ ns) id h = ground (arith, decided-ne-pending ns id)

  decided_more :
      (n : Node) (ns : List Node) (id : Text)
      → is_decided (decided rc state ns id) ≡ true
      → is_decided (decided rc state (n ∷ ns) id) ≡ true
  unfolding decided
  decided_more n ns id h = ground arith

  -- A pass decides about every ready node.
  decided_at :
      (ns : List Node)
      → All (λ n. is_decided (decided rc state ns (id_of n)) ≡ true) (keep (ready rc state) ns)
  unfolding decided verdict ready
  decided_at [] = tt
  decided_at (n ∷ ns) =
      let rest =
        All-weaken _ _ (keep (ready rc state) ns) (λ m. decided_more n ns (id_of m))
          (decided_at ns) in
      elim (Bool-cases (ready rc state n)) [
        | inl yes' ↦ rw (yes', ready) (ground (arith, ==_refl (id_of n)), rest)
        | inr no' ↦ rw (no', ready) rest
      ]

module _ (env : Env) (accepts : Request → Bool) (run_id : Text) (rc : RunContext) where
  -- The states that the database holds for the run.
  abbrev pub states : World (List Request) → Text → Option NodeState
  states w id = shown env (recorder accepts) run_id run_id id w

  -- The nodes that are ready in a world.
  abbrev pub ready_nodes : World (List Request) → List Node → List Node
  ready_nodes w ns = keep (ready rc (states w)) ns

  abbrev pub pass : PipelineSpec → World (List Request) → World (List Request)
  pass spec w = advance env (recorder accepts) run_id rc spec w

  abbrev pub Requested : List Node → World (List Request) → World (List Request) → Type 0
  Requested ns = Sends env accepts run_id (requests run_id ns)

  unread : (w : World (List Request)) → Requested [] w (listed w)
  unread w = Sends-nil env accepts run_id w (listed w) refl refl

  -- Where no statement fails, `Advance` dispatches the jobs of all the ready nodes.
  pub advance_dispatches_all :
      (spec : PipelineSpec) (w : World (List Request))
      → Reliable env
      → IsKeyed w.store.tables
      → Requested (ready_nodes w spec.nodes) w (pass spec w)
  advance_dispatches_all spec w reliable keyed =
      rw
        (advance-advance_nodes env (recorder accepts) run_id rc spec w keyed
          (reliable w.store.calls))
        (Sends-trans env accepts run_id [] (requests run_id (ready_nodes w spec.nodes)) (unread w) (
          Sends-advance_nodes-Reliable env accepts run_id rc (states w) reliable spec.nodes
            (listed w)))

  -- Two calls of `Advance` at the same time, which both read before either writes.
  abbrev pub overlapping : PipelineSpec → World (List Request) → World (List Request)
  overlapping spec w =
      let both = advance_nodes env (recorder accepts) run_id rc (states w) spec.nodes in
      both (both (listed (listed w)))

  -- Two calls of `Advance` at the same time dispatch the jobs of every ready node twice, although
  -- no statement fails.
  pub advance_overlapping_dispatches_twice :
      (spec : PipelineSpec) (w : World (List Request))
      → Reliable env
      → (overlapping spec w).dispatcher
        ≡ (w.dispatcher ++ requests run_id (ready_nodes w spec.nodes))
          ++ requests run_id (ready_nodes w spec.nodes)
  advance_overlapping_dispatches_twice spec w reliable =
      let loop =
        Sends-advance_nodes-Reliable env accepts run_id rc (states w) reliable spec.nodes in
      let once = loop (listed (listed w)) in
      let twice = loop (
        advance_nodes env (recorder accepts) run_id rc (states w) spec.nodes (listed (listed w))) in
      twice.sent ∙ ap (λ l. l ++ requests run_id (ready_nodes w spec.nodes)) once.sent

  -- A second call of `Advance` behind the first finds none of the nodes ready that the first
  -- dispatched: no job is dispatched again.
  pub advance_advance_not_ready :
      (spec : PipelineSpec) (w : World (List Request))
      → Reliable env
      → IsKeyed w.store.tables
      → All (λ n. ready rc (states (pass spec w)) n ≡ false) (ready_nodes w spec.nodes)
  unfolding ready
  advance_advance_not_ready spec w reliable keyed =
      All-weaken _ _ (ready_nodes w spec.nodes)
        (λ n known.
          let after =
            advance-decided env (recorder accepts) run_id reliable rc spec w run_id (id_of n)
              keyed in
          ground
            (arith, after, ==_refl run_id, decided-ne-pending rc (states w) spec.nodes (id_of n)))
        (decided_at rc (states w) spec.nodes)
