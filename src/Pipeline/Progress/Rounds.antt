-- ===== src/Pipeline/Progress/Rounds.antt =====
-- Rounds of a run: after as many as the pipeline has nodes, every node is done.
use brazier.Base.{
  ℕ, zero, suc, ◌≤◌, ◌<◌, Text, ◌==◌, ==_iff, ==_refl, ◌≡◌, refl, ◌∙◌, ap, Bool, true, false, ◌&&◌,
  ◌||◌, Option, some, List, [], ◌∷◌, All, All-weaken, Among, contains, arith, ◌⊎◌, if◌then◌else◌,
  Bool-cases, inl, inr,
}
use brazier.Proto.{Node, id_of, PipelineSpec}
use brazier.Db.{NodeState}
use brazier.Db.Keys.{IsKeyed}
use brazier.Db.Store.{Env}
use brazier.Pipeline.Conditions.{RunContext}
use brazier.Pipeline.Scheduler.{Dispatcher, World, lets_through}
use brazier.Pipeline.Scheduler.Snapshot.{state_in}
use brazier.Pipeline.Scheduler.Keyed.{advance-IsKeyed}
use brazier.Pipeline.Scheduler.Refinement.{Reliable, advance-decided}
use brazier.Pipeline.TopoSort.{ok, ids_of, topo_sort}
use brazier.Pipeline.Manager.{node_completed}
use brazier.Pipeline.Manager.Runs.{node_completed_lem}
use brazier.Pipeline.Manager.Keyed.{node_completed-IsKeyed}
use brazier.Pipeline.Progress.{is_running, complete_running, round, rounds}
use brazier.Pipeline.Progress.Order.{Among-ids_of}
use brazier.Pipeline.Progress.Counting.{
  finished, after_round, pending_count, Settled, Settled-same, after_round-Settled,
  pending_count-same, pending_count-after_round, pending_count-after_round_le, through_of_count,
}

zero_or_more : (n : ℕ) → (n ≡ 0) ⊎ (0 < n)
zero_or_more zero = inl refl
zero_or_more (suc n) = inr (omega arith)

==_comm : (a b : Text) → (a == b) ≡ (b == a)
==_comm a b = elim (Bool-cases (a == b)) [
  | inl on ↦ let same = (==_iff a b).0 on in rw (same) refl
  | inr off ↦ elim (Bool-cases (b == a)) [
    | inl on ↦ let same = (==_iff b a).0 on in rw (same) refl
    | inr also ↦ rw (off, also) refl
  ]
]

All-listed : {P : Node → Type 0} (ns : List Node) → ((n : Node) → Among n ns → P n) → All P ns
All-listed [] f = tt
All-listed (n ∷ ns) f = (f n (inl refl), All-listed ns (λ m among. f m (inr among)))

-- What a completion makes of the states.
finished-completed :
    (s t : Option NodeState) (here on : Bool)
    → (here ≡ true → s ≡ t)
    → (if on
        then finished (if is_running s && here then some NodeState.success else t)
        else (if is_running s && here then some NodeState.success else t))
      ≡ (if here || on then finished t else t)
finished-completed s t false on same = elim (Bool-cases (is_running s)) [
  | inl running ↦ rw running refl
  | inr other ↦ rw other refl
]
finished-completed s t true on same = rw (same refl) (ground arith)

unfoldable pub states : {S : Type 0} → Text → World S → Text → Option NodeState
states run_id w id = state_in run_id id w.store.tables

module _ {S : Type 0} (env : Env) (d : Dispatcher S) (run_id : Text) (rc : RunContext)
    (spec : PipelineSpec) (reliable : Reliable env) where
  completed-state :
      (n : Node) (w : World S) (id : Text)
      → let v =
          if is_running (state_in run_id (id_of n) w.store.tables)
          then (node_completed env run_id (id_of n) true w).1
          else w in
        state_in run_id id v.store.tables ≡ (
          if is_running (state_in run_id (id_of n) w.store.tables) && id_of n == id
          then some NodeState.success
          else state_in run_id id w.store.tables)
  completed-state n w id =
      let (_, after, _, _) = node_completed_lem env reliable run_id (id_of n) true w run_id id in
      elim (Bool-cases (is_running (state_in run_id (id_of n) w.store.tables))) [
        | inl running ↦ rw running (after ∙ rw (==_refl run_id) refl)
        | inr other ↦ rw other refl
      ]

  complete_running-state :
      (ns : List Node) (w : World S) (id : Text)
      → state_in run_id id (complete_running env d run_id rc spec ns w).store.tables ≡ (
          if contains id (ids_of ns)
          then finished (state_in run_id id w.store.tables)
          else state_in run_id id w.store.tables)
  unfolding complete_running contains
  complete_running-state [] w id = refl
  complete_running-state (n ∷ ns) w id =
      let same : id_of n == id ≡ true
          → state_in run_id (id_of n) w.store.tables ≡ state_in run_id id w.store.tables =
        λ on. ap (λ x. state_in run_id x w.store.tables) ((==_iff (id_of n) id).0 on) in
      complete_running-state ns _ id
      ∙ rw (completed-state n w id, ==_comm id (id_of n))
          (finished-completed (state_in run_id (id_of n) w.store.tables)
            (state_in run_id id w.store.tables) (id_of n == id) (contains id (ids_of ns)) same)

  complete_running-IsKeyed :
      (ns : List Node) (w : World S)
      → IsKeyed w.store.tables
      → IsKeyed (complete_running env d run_id rc spec ns w).store.tables
  unfolding complete_running
  complete_running-IsKeyed [] w keyed = keyed
  complete_running-IsKeyed (n ∷ ns) w keyed =
      let done = node_completed-IsKeyed env run_id (id_of n) true w keyed in
      elim (Bool-cases (is_running (state_in run_id (id_of n) w.store.tables))) [
        | inl running ↦ rw (complete_running, running) (complete_running-IsKeyed ns _ done)
        | inr other ↦ rw (complete_running, other) (complete_running-IsKeyed ns w keyed)
      ]

  round-states :
      (w : World S) (id : Text)
      → IsKeyed w.store.tables
      → contains id (ids_of spec.nodes) ≡ true
      → states run_id (round env d run_id rc spec w) id
        ≡ after_round rc spec.nodes (states run_id w) id
  unfolding round states
  round-states w id keyed on =
      complete_running-state spec.nodes _ id
      ∙ rw (on, advance-decided env d run_id reliable rc spec w run_id id keyed, ==_refl run_id)
          refl

  round-IsKeyed :
      (w : World S) → IsKeyed w.store.tables → IsKeyed (round env d run_id rc spec w).store.tables
  unfolding round
  round-IsKeyed w keyed =
      complete_running-IsKeyed spec.nodes _ (advance-IsKeyed env d run_id rc spec w keyed)

  round-same :
      (w : World S)
      → IsKeyed w.store.tables
      → All
          (λ n.
            states run_id (round env d run_id rc spec w) (id_of n)
            ≡ after_round rc spec.nodes (states run_id w) (id_of n))
          spec.nodes
  round-same w keyed =
      All-weaken _ _ spec.nodes (λ n on. round-states w (id_of n) keyed on)
        (All-listed spec.nodes (λ n among. Among-ids_of n spec.nodes among))

  module _ (sorted : List Node) (accepted : topo_sort spec ≡ ok sorted) where
    round-Settled :
        (w : World S)
        → IsKeyed w.store.tables
        → Settled (states run_id w) spec.nodes
        → Settled (states run_id (round env d run_id rc spec w)) spec.nodes
    round-Settled w keyed settled =
        Settled-same (states run_id (round env d run_id rc spec w))
          (after_round rc spec.nodes (states run_id w)) spec.nodes (round-same w keyed)
          (after_round-Settled rc (states run_id w) spec sorted accepted settled)

    pending_count-round :
        (w : World S) (k : ℕ)
        → IsKeyed w.store.tables
        → Settled (states run_id w) spec.nodes
        → pending_count (states run_id w) spec.nodes ≤ suc k
        → pending_count (states run_id (round env d run_id rc spec w)) spec.nodes ≤ k
    pending_count-round w k keyed settled bound =
        let same =
          pending_count-same (states run_id (round env d run_id rc spec w))
            (after_round rc spec.nodes (states run_id w)) spec.nodes (round-same w keyed) in
        let le = pending_count-after_round_le rc (states run_id w) spec sorted accepted in
        elim (zero_or_more (pending_count (states run_id w) spec.nodes)) [
          | inl none_left ↦ rw same (omega arith)
          | inr some_left ↦
              let lt =
                pending_count-after_round rc (states run_id w) spec sorted accepted settled
                  some_left in
              rw same (omega arith)
        ]

    pub rounds-through :
        (k : ℕ) (w : World S)
        → IsKeyed w.store.tables
        → Settled (states run_id w) spec.nodes
        → pending_count (states run_id w) spec.nodes ≤ k
        → All
            (λ n. lets_through (states run_id (rounds env d run_id rc spec k w) (id_of n)) ≡ true)
            spec.nodes
    unfolding rounds
    rounds-through zero w keyed settled bound =
        through_of_count (states run_id w) spec.nodes settled (omega arith)
    rounds-through (suc k) w keyed settled bound =
        rounds-through k _ (round-IsKeyed w keyed) (round-Settled w keyed settled)
          (pending_count-round w k keyed settled bound)
