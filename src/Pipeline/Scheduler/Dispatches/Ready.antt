-- ===== src/Pipeline/Scheduler/Dispatches/Ready.antt =====
-- A pass of `Advance` dispatches ready nodes only, and without database errors all of them.
use mathlib.Core.List.{Sublist}
use mathlib.Core.List.Sublist
use brazier.Base.{
  ◌⊎◌, Text, ◌≡◌, refl, Bool, true, false, ◌&&◌, Option, List, [], ◌∷◌, keep, arith, if◌then◌else◌,
  Bool-cases, inl, inr,
}
use brazier.Proto.{Node, id_of, kind_of}
use brazier.Db.{NodeState}
use brazier.Db.Store
use brazier.Db.Store.{Env, Store}
use brazier.Pipeline.Conditions.{RunContext}
use brazier.Pipeline.Scheduler.{mark, start_node, skip_node, advance_node, advance_nodes}
use brazier.Pipeline.Scheduler.Refinement.{Reliable}
use brazier.Pipeline.Scheduler.Dispatches.{
  Request, recorder, ready, requests_of_kind, requests, Recorded, Sends, Sends-nil, Sends-trans,
  Sends-mark, Sends-start_node, marked,
}

module _ (env : Env) (accepts : Request → Bool) (run_id : Text) (rc : RunContext)
    (state : Text → Option NodeState) where
  abbrev pass : Node → Recorded env accepts run_id → Recorded env accepts run_id
  pass n w = advance_node env (recorder accepts) run_id rc state n w

  advance_node_ready :
      (n : Node) (w : Recorded env accepts run_id)
      → ready rc state n ≡ true
      → pass n w ≡ start_node env (recorder accepts) run_id n w
  unfolding advance_node ready
  advance_node_ready n w h = ground arith

  advance_node_other :
      (n : Node) (w : Recorded env accepts run_id)
      → ready rc state n ≡ false
      → (pass n w ≡ w) ⊎ (pass n w ≡ skip_node env (recorder accepts) run_id n w)
  unfolding advance_node ready
  advance_node_other n w h = ground arith

  abbrev requests_at : Node → Recorded env accepts run_id → List Request
  requests_at n w =
      if ready rc state n && marked env accepts run_id n w
      then requests_of_kind run_id (id_of n) (kind_of n)
      else []

  Sends-advance_node :
      (n : Node) (w : Recorded env accepts run_id)
      → Sends env accepts run_id (requests_at n w) w (pass n w)
  unfolding skip_node
  Sends-advance_node n w = elim (Bool-cases (ready rc state n)) [
    | inl yes' ↦ rw (yes', advance_node_ready n w yes') (Sends-start_node env accepts run_id n w)
    | inr no' ↦ elim (advance_node_other n w no') [
      | inl same ↦ rw (no', same) (Sends-nil env accepts run_id w w refl refl)
      | inr skips ↦ rw (no', skips) (Sends-mark env accepts run_id (id_of n) NodeState.skipped w)
    ]
  ]

  -- Whatever statements fail: the requests of one pass are those of some of the ready nodes, in
  -- the order of the pipeline.
  pub Sends-advance_nodes :
      (ns : List Node) (w : Recorded env accepts run_id)
      → (started : List Node) × Sends env accepts run_id
          (requests run_id started)
          w
          (advance_nodes env (recorder accepts) run_id rc state ns w)
        × Sublist started (keep (ready rc state) ns)
  unfolding advance_nodes
  Sends-advance_nodes [] w = ([], Sends-nil env accepts run_id w w refl refl, Sublist.refl [])
  Sends-advance_nodes (n ∷ ns) w =
      let (started, sends, sub) = Sends-advance_nodes ns (pass n w) in
      let here = Sends-advance_node n w in
      elim (Bool-cases (ready rc state n)) [
        | inl yes' ↦ elim (Bool-cases (marked env accepts run_id n w)) [
          | inl done ↦ (
            n ∷ started,
            Sends-trans env accepts run_id (requests_of_kind run_id (id_of n) (kind_of n))
                (requests run_id started) (rw (yes', done) at here) sends,
            rw yes' (Sublist.cons-cons n sub),
          )
          | inr failed ↦ (
            started,
            Sends-trans env accepts run_id [] (requests run_id started) (rw (yes', failed) at here)
                sends,
            rw yes' (Sublist.cons n sub),
          )
        ]
        | inr no' ↦ (
          started,
          Sends-trans env accepts run_id [] (requests run_id started) (rw no' at here) sends,
          rw no' sub,
        )
      ]

  marked-Reliable :
      Reliable env
      → (n : Node) (w : Recorded env accepts run_id) → marked env accepts run_id n w ≡ true
  unfolding mark Store.upsert_node Store.execute
  marked-Reliable reliable n w = ground (arith, reliable w.store.calls)

  -- Without database errors they are those of all the ready nodes.
  pub Sends-advance_nodes-Reliable :
      Reliable env
      → (ns : List Node) (w : Recorded env accepts run_id)
      → Sends env accepts run_id
          (requests run_id (keep (ready rc state) ns))
          w
          (advance_nodes env (recorder accepts) run_id rc state ns w)
  unfolding advance_nodes
  Sends-advance_nodes-Reliable reliable [] w = Sends-nil env accepts run_id w w refl refl
  Sends-advance_nodes-Reliable reliable (n ∷ ns) w =
      let rest = Sends-advance_nodes-Reliable reliable ns (pass n w) in
      let here = Sends-advance_node n w in
      let kept = keep (ready rc state) ns in
      elim (Bool-cases (ready rc state n)) [
        | inl yes' ↦ rw yes' (
            Sends-trans env accepts run_id (requests_of_kind run_id (id_of n) (kind_of n))
              (requests run_id kept) (rw (yes', marked-Reliable reliable n w) at here) rest)
        | inr no' ↦
            rw no' (Sends-trans env accepts run_id [] (requests run_id kept) (rw no' at here) rest)
      ]
