-- ===== src/Pipeline/TopoSort/Outcomes.antt =====
-- What each outcome of `TopoSort` says about the pipeline.
use brazier.Base.{
  Text, ◌≡◌, refl, subst, ◌≢◌, inl, true, none, some, List, [], ◌∷◌, All, contains, contains_self,
  contains-cons_of, arith,
}
use brazier.Proto.{Node, id_of, PipelineSpec}
use brazier.Pipeline.TopoSort.{
  Outcome, ok, cycle, unknown, out_of_fuel, by_id, visit, visit_each, ids_of, start, enough,
  topo_sort,
}
use brazier.Pipeline.TopoSort.Graph.{Depends, Reaches, IsOrdered, Distinct, by_id-ids_of, free-le}
use brazier.Pipeline.TopoSort.Visit.{
  IsSound, Called, Above, Justified, Justified-bind, AllVisited, visit_each-Works, visit-Works,
}

-- A topological order of the nodes: each stands behind its dependencies, no id stands there twice,
-- every id of the pipeline does, and each node is the one that its id names.
pub record IsTopological (nodes sorted : List Node) : Type 0 where
  pub ordered : IsOrdered [] sorted
  pub distinct : Distinct (ids_of sorted)
  pub complete : All (λ id. contains id (ids_of sorted) ≡ true) (ids_of nodes)
  pub known : All (λ n. by_id nodes (id_of n) ≡ some n) sorted

module _ (spec : PipelineSpec) where
  first_calls :
      (ids : List Text)
      → ((id : Text) → contains id ids ≡ true → contains id (ids_of spec.nodes) ≡ true)
      → All (λ id. Called spec.nodes id × Above spec.nodes [] id) ids
  unfolding contains
  first_calls [] sub = tt
  first_calls (id ∷ ids) sub = (
    (inl (by_id-ids_of spec.nodes id (sub id (contains_self id ids))), λ x on. cc),
    first_calls ids (λ e m. sub e (contains-cons_of e id ids m)),
  )

  start-IsSound : IsSound spec.nodes start
  start-IsSound = record { listed = refl; ordered = tt; known = tt; distinct = tt }

  pub topo_sort-Justified : Justified spec.nodes (IsTopological spec.nodes) (topo_sort spec)
  unfolding topo_sort
  topo_sort-Justified =
      Justified-bind spec.nodes (AllVisited spec.nodes start (ids_of spec.nodes))
        (IsTopological spec.nodes)
        (visit_each (visit spec.nodes (enough spec.nodes)) (ids_of spec.nodes) start)
        (λ s. ok s.sorted)
        (visit_each-Works spec.nodes (visit spec.nodes (enough spec.nodes)) (enough spec.nodes)
          (visit-Works spec.nodes (enough spec.nodes)) (ids_of spec.nodes) start start-IsSound
          (first_calls (ids_of spec.nodes) (λ id m. m)) (omega (arith, free-le [] spec.nodes)))
        λ s (step, all_seen). record {
          ordered = step.sound.ordered;
          distinct = step.sound.distinct;
          complete =
              subst (λ ids. All (λ id. contains id ids ≡ true) (ids_of spec.nodes))
                step.sound.listed all_seen;
          known = step.sound.known;
        }

  -- A list that `TopoSort` returns is a topological order of the pipeline's nodes.
  pub topo_sort-IsTopological :
      (sorted : List Node) → topo_sort spec ≡ ok sorted → IsTopological spec.nodes sorted
  topo_sort-IsTopological sorted e =
      subst (Justified spec.nodes (IsTopological spec.nodes)) e topo_sort-Justified

  -- The error "cycle detected" names a node that depends on itself through a chain of
  -- dependencies.
  pub topo_sort-cycle : (id : Text) → topo_sort spec ≡ cycle id → Reaches spec.nodes id id
  topo_sort-cycle id e =
      subst (Justified spec.nodes (IsTopological spec.nodes)) e topo_sort-Justified

  -- The error "unknown node" names an id that no node of the pipeline has, and that some node of
  -- the pipeline depends on.
  pub topo_sort-unknown :
      (id : Text)
      → topo_sort spec ≡ unknown id
      → (by_id spec.nodes id ≡ none) × ((a : Text) × Depends spec.nodes a id)
  topo_sort-unknown id e =
      subst (Justified spec.nodes (IsTopological spec.nodes)) e topo_sort-Justified

  pub topo_sort-ne-out_of_fuel : topo_sort spec ≢ out_of_fuel
  topo_sort-ne-out_of_fuel e =
      subst (Justified spec.nodes (IsTopological spec.nodes)) e topo_sort-Justified

  Outcome-cases :
      (r : Outcome (List Node))
      → topo_sort spec ≡ r
      → ((id : Text) → ¬ Reaches spec.nodes id id)
      → ((a b : Text) → Depends spec.nodes a b → by_id spec.nodes b ≢ none)
      → (sorted : List Node) × (topo_sort spec ≡ ok sorted)
  Outcome-cases (ok sorted) e acyclic closed = (sorted, e)
  Outcome-cases (cycle id) e acyclic closed = absurd (acyclic id (topo_sort-cycle id e))
  Outcome-cases (unknown id) e acyclic closed =
      let (missing, (a, dep)) = topo_sort-unknown id e in absurd (closed a id dep missing)
  Outcome-cases out_of_fuel e acyclic closed = absurd (topo_sort-ne-out_of_fuel e)

  -- Where no node depends on itself through a chain of dependencies and every dependency is a
  -- node, `TopoSort` terminates with a topological order.
  pub topo_sort_succeeds :
      ((id : Text) → ¬ Reaches spec.nodes id id)
      → ((a b : Text) → Depends spec.nodes a b → by_id spec.nodes b ≢ none)
      → (sorted : List Node) × (topo_sort spec ≡ ok sorted) × IsTopological spec.nodes sorted
  topo_sort_succeeds acyclic closed =
      let (sorted, e) = Outcome-cases (topo_sort spec) refl acyclic closed in
      (sorted, e, topo_sort-IsTopological sorted e)
