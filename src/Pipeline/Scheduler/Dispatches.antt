-- ===== src/Pipeline/Scheduler/Dispatches.antt =====
-- Which jobs a pass of `Advance` hands to the dispatcher, seen by a dispatcher that records them.
pub mod Ready
use mathlib.Core.List.{append_assoc, append-nil, Sublist}
use brazier.Base.{
  ℕ, suc, Text, text, ◌==◌, ◌≡◌, refl, sym, ap, ◌∙◌, subst, Bool, true, false, ◌&&◌, Option, none,
  some, List, [], ◌∷◌, ◌++◌, keep, arith, if◌then◌else◌, Bool-cases, inl, inr,
}
use brazier.Proto.{
  JobSpec, Node, Kind, unset, job, stage, id_of, depends_on_of, conditions_of, kind_of, get_job,
  nodes_list, PipelineSpec,
}
use brazier.Bus.{Event, job_dispatched}
use brazier.Db.{NodeState}
use brazier.Db.Keys.{IsKeyed}
use brazier.Db.Store
use brazier.Db.Store.{Env, Store}
use brazier.Pipeline.Conditions.{RunContext, eval_conditions}
use brazier.Pipeline.Scheduler.{
  Dispatcher, World, is_pending, deps_terminal, mark, dispatch, dispatch_jobs, dispatch_kind,
  start_node, skip_node, advance_node, advance_nodes, advance,
}

-- The arguments of one call of `Dispatch`.
pub record Request : Type 0 where
  pub run_id : Text
  pub node_id : Text
  pub spec : Option JobSpec

-- The fake of scheduler_test.go: it records every call. Here it may also refuse one.
abbrev pub recorder : (Request → Bool) → Dispatcher (List Request)
recorder accepts = record {
  dispatch = λ run_id node_id spec sent.
      let r : Request = record { run_id = run_id; node_id = node_id; spec = spec } in
      (accepts r, sent ++ r ∷ []);
}

-- A node is ready if it is pending, its dependencies let it through and its conditions hold.
unfoldable pub ready : RunContext → (Text → Option NodeState) → Node → Bool
ready rc state n =
    is_pending (state (id_of n))
    && deps_terminal (depends_on_of n) state
    && eval_conditions (conditions_of n) rc

module _ (run_id : Text) where
  abbrev pub requests_of_jobs : Text → List Node → List Request
  requests_of_jobs id [] = []
  requests_of_jobs id (j ∷ jobs) =
      record { run_id = run_id; node_id = id ++ (text "/" ++ id_of j); spec = get_job j }
      ∷ requests_of_jobs id jobs

  -- The requests for a node: its job, or the jobs of its stage.
  abbrev pub requests_of_kind : Text → Kind → List Request
  requests_of_kind id unset = []
  requests_of_kind id (job spec) = record { run_id = run_id; node_id = id; spec = some spec } ∷ []
  requests_of_kind id (stage jobs) = requests_of_jobs id (nodes_list jobs)

  abbrev pub requests : List Node → List Request
  requests [] = []
  requests (n ∷ ns) = requests_of_kind (id_of n) (kind_of n) ++ requests ns

-- The events for the requests that were accepted.
abbrev pub announced : (Request → Bool) → List Request → List Event
announced accepts [] = []
announced accepts (r ∷ rs) =
    let rest = announced accepts rs in
    if accepts r then record { type = job_dispatched; payload = r.node_id } ∷ rest else rest

announced-append :
    (accepts : Request → Bool) (rs more : List Request)
    → announced accepts (rs ++ more) ≡ announced accepts rs ++ announced accepts more
announced-append accepts [] more = refl
announced-append accepts (r ∷ rs) more = ground (arith, announced-append accepts rs more)

module _ (env : Env) (accepts : Request → Bool) (run_id : Text) where
  abbrev pub Recorded : Type 0
  Recorded = World (List Request)

  -- From `w` to `w'` exactly these requests were made, and the accepted ones announced.
  pub record Sends (rs : List Request) (w w' : Recorded) : Type 0 where
    pub sent : w'.dispatcher ≡ w.dispatcher ++ rs
    pub published : w'.published ≡ w.published ++ announced accepts rs

  pub Sends-nil :
      (w w' : Recorded) → w'.dispatcher ≡ w.dispatcher → w'.published ≡ w.published → Sends [] w w'
  Sends-nil w w' e f = record {
    sent = e ∙ sym (append-nil w.dispatcher);
    published = f ∙ sym (append-nil w.published);
  }

  pub Sends-trans :
      {u v w : Recorded} (rs more : List Request)
      → Sends rs u v
      → Sends more v w
      → Sends (rs ++ more) u w
  Sends-trans {u} rs more e f = record {
    sent = f.sent ∙ ap (λ l. l ++ more) e.sent ∙ append_assoc u.dispatcher rs more;
    published =
        f.published
        ∙ ap (λ l. l ++ announced accepts more) e.published
        ∙ append_assoc u.published (announced accepts rs) (announced accepts more)
        ∙ ap (λ l. u.published ++ l) (sym (announced-append accepts rs more));
  }

  Sends-dispatch :
      (node_id : Text) (spec : Option JobSpec) (w : Recorded)
      → Sends
          (record { run_id = run_id; node_id = node_id; spec = spec } ∷ [])
          w
          (dispatch env (recorder accepts) run_id node_id spec w)
  unfolding dispatch
  Sends-dispatch node_id spec w = record {
    sent = ground arith;
    published = ground (arith, append-nil w.published);
  }

  Sends-dispatch_jobs :
      (id : Text) (jobs : List Node) (w : Recorded)
      → Sends
          (requests_of_jobs run_id id jobs)
          w
          (dispatch_jobs env (recorder accepts) run_id id jobs w)
  unfolding dispatch_jobs
  Sends-dispatch_jobs id [] w = Sends-nil w w refl refl
  Sends-dispatch_jobs id (j ∷ jobs) w =
      let node_id = id ++ (text "/" ++ id_of j) in
      Sends-trans (record { run_id = run_id; node_id = node_id; spec = get_job j } ∷ [])
        (requests_of_jobs run_id id jobs) (Sends-dispatch node_id (get_job j) w)
        (Sends-dispatch_jobs id jobs (dispatch env (recorder accepts) run_id node_id (get_job j) w))

  Sends-dispatch_kind :
      (id : Text) (kind : Kind) (w : Recorded)
      → Sends
          (requests_of_kind run_id id kind)
          w
          (dispatch_kind env (recorder accepts) run_id id kind w)
  unfolding dispatch_kind
  Sends-dispatch_kind id unset w = Sends-nil w w refl refl
  Sends-dispatch_kind id (job spec) w = Sends-dispatch id (some spec) w
  Sends-dispatch_kind id (stage jobs) w = Sends-dispatch_jobs id (nodes_list jobs) w

  -- A node is started only if its row could be marked.
  abbrev marked : Node → Recorded → Bool
  marked n w = (mark env (recorder accepts) run_id (id_of n) NodeState.running w).0

  Sends-mark :
      (node_id : Text) (state : NodeState) (w : Recorded)
      → Sends [] w (mark env (recorder accepts) run_id node_id state w).1
  unfolding mark
  Sends-mark node_id state w = Sends-nil w _ refl refl

  Sends-start_node :
      (n : Node) (w : Recorded)
      → Sends
          (if marked n w then requests_of_kind run_id (id_of n) (kind_of n) else [])
          w
          (start_node env (recorder accepts) run_id n w)
  unfolding start_node
  Sends-start_node n w =
      let w' = (mark env (recorder accepts) run_id (id_of n) NodeState.running w).1 in
      elim (Bool-cases (marked n w)) [
        | inl done ↦
            rw (done, start_node)
              (Sends-trans [] _ (Sends-mark (id_of n) NodeState.running w)
                (Sends-dispatch_kind (id_of n) (kind_of n) w'))
        | inr failed ↦ rw (failed, start_node) (Sends-mark (id_of n) NodeState.running w)
      ]
