-- ===== src/Pipeline/TopoSort/Acyclic.antt =====
-- A pipeline that `TopoSort` accepts has no cycle.
use brazier.Base.{
  length, ◌≢◌, ◌↔◌, subst, ℕ, suc, ◌≤◌, ◌<◌, Text, ◌==◌, ==_iff, ◌≡◌, ap, ◌⊎◌, inl, inr, true,
  false, none, some, List, [], ◌∷◌, All, contains, contains-cons, arith, if◌then◌else◌, Bool-cases,
}
use brazier.Proto.{Node, id_of, depends_on_of, PipelineSpec}
use brazier.Pipeline.TopoSort.{ok, out_of_fuel, by_id, ids_of, topo_sort}
use brazier.Pipeline.TopoSort.Graph.{Depends, Reaches, direct, further, IsOrdered, All-contains}
use brazier.Pipeline.TopoSort.Outcomes.{
  IsTopological, topo_sort-IsTopological, topo_sort_succeeds, topo_sort-ne-out_of_fuel,
}

-- The place of the first node with an id.
place : Text → List Node → ℕ
place id [] = 0
place id (n ∷ ns) = if id == id_of n then 0 else suc (place id ns)

not-contains-nil : (x : Text) → ¬ (contains x [] ≡ true)
unfolding contains
not-contains-nil x h = cc

by_id-some :
    (nodes : List Node) (id : Text) (n : Node)
    → by_id nodes id ≡ some n
    → contains id (ids_of nodes) ≡ true
unfolding by_id contains
by_id-some [] id n h = cc
by_id-some (m ∷ nodes) id n h =
    ground (arith, by_id-some nodes id n, ==_iff (id_of m) id, ==_iff id (id_of m))

place-le : (id : Text) (ns : List Node) → place id ns ≤ length ns
unfolding place
place-le id [] = omega arith
place-le id (n ∷ ns) = ground (arith, place-le id ns)

contains_of_place :
    (id : Text) (ns : List Node) → place id ns < length ns → contains id (ids_of ns) ≡ true
unfolding place contains
contains_of_place id [] h = absurd (omega arith)
contains_of_place id (n ∷ ns) h = ground (arith, contains_of_place id ns)

module _ (nodes : List Node) where
  place-dep :
      (seen : List Text) (ns : List Node) (a d : Text) (n : Node)
      → IsOrdered seen ns
      → All (λ m. by_id nodes (id_of m) ≡ some m) ns
      → contains a (ids_of ns) ≡ true
      → by_id nodes a ≡ some n
      → contains d (depends_on_of n) ≡ true
      → (contains d seen ≡ true) ⊎ (place d ns < place a ns)
  unfolding place
  place-dep seen [] a d n ordered known on found dep = absurd (not-contains-nil a on)
  place-dep seen (m ∷ ns) a d n ordered known on found dep = elim (Bool-cases (a == id_of m)) [
    | inl here ↦ inl (
        All-contains (λ x. contains x seen ≡ true) (depends_on_of m) d ordered.0
          (subst (λ k. contains d (depends_on_of k) ≡ true) (same_node here) dep))
    | inr there ↦
        later (place-dep (id_of m ∷ seen) ns a d n ordered.1 known.1 (behind there) found dep) there
  ]
    where
      same_node : (a == id_of m) ≡ true → n ≡ m
      same_node here = cc (found, known.0, ap (by_id nodes) ((==_iff a (id_of m)).0 here))

      behind : (a == id_of m) ≡ false → contains a (ids_of ns) ≡ true
      behind there = elim (contains-cons a (id_of m) (ids_of ns) on) [
        | inl same ↦ cc (there, (==_iff a (id_of m)).1 same)
        | inr rest ↦ rest
      ]

      later :
          (contains d (id_of m ∷ seen) ≡ true) ⊎ (place d ns < place a ns)
          → (a == id_of m) ≡ false
          → (contains d seen ≡ true) ⊎ (place d (m ∷ ns) < place a (m ∷ ns))
      later (inl on') there = elim (contains-cons d (id_of m) seen on') [
        | inl same ↦ inr (ground (arith, (==_iff d (id_of m)).1 same))
        | inr rest ↦ inl rest
      ]
      later (inr lt) there = inr (ground arith)

  by_id_of_known :
      (id : Text) (ns : List Node)
      → All (λ m. by_id nodes (id_of m) ≡ some m) ns
      → contains id (ids_of ns) ≡ true
      → by_id nodes id ≢ none
  by_id_of_known id [] known on e = not-contains-nil id on
  by_id_of_known id (m ∷ ns) known on e = elim (contains-cons id (id_of m) (ids_of ns) on) [
    | inl same ↦ cc (known.0, ap (by_id nodes) same)
    | inr rest ↦ by_id_of_known id ns known.1 rest e
  ]

  module _ (sorted : List Node) (topological : IsTopological nodes sorted) where
    place-Depends : (a d : Text) → Depends nodes a d → place d sorted < place a sorted
    place-Depends a d dep =
        elim (place-dep [] sorted a d dep.node topological.ordered topological.known listed
          dep.found dep.named) [ inl seen ↦ absurd (not-contains-nil d seen) | inr lt ↦ lt ]
      where
        listed : contains a (ids_of sorted) ≡ true
        listed =
            All-contains (λ x. contains x (ids_of sorted) ≡ true) (ids_of nodes) a
              topological.complete (by_id-some nodes a dep.node dep.found)

    place-Reaches : (a b : Text) → Reaches nodes a b → place b sorted < place a sorted
    place-Reaches a b (direct dep) = place-Depends a b dep
    place-Reaches a b (further {b = m} r dep) =
        omega (arith, place-Reaches a m r, place-Depends m b dep)

    by_id-Depends : (a d : Text) → Depends nodes a d → by_id nodes d ≢ none
    by_id-Depends a d dep =
        by_id_of_known d sorted topological.known
          (contains_of_place d sorted (omega (arith, place-Depends a d dep, place-le a sorted)))

-- If `TopoSort` returns an order, no node depends on itself through a chain of dependencies.
topo_sort_acyclic :
    (spec : PipelineSpec) (sorted : List Node) (id : Text)
    → topo_sort spec ≡ ok sorted
    → ¬ Reaches spec.nodes id id
topo_sort_acyclic spec sorted id e r =
    absurd (
      omega
        (arith, place-Reaches spec.nodes sorted (topo_sort-IsTopological spec sorted e) id id r))

-- `TopoSort` ends on every pipeline, as the fuel never runs out; and it returns an order exactly
-- where no node depends on itself through a chain of dependencies and every dependency is a node
-- of the pipeline.
pub topo_sort-eq-ok_iff :
    (spec : PipelineSpec)
    → (topo_sort spec ≢ out_of_fuel)
      × (((sorted : List Node) × (topo_sort spec ≡ ok sorted)) ↔ (
          ((id : Text) → ¬ Reaches spec.nodes id id)
          × ((a d : Text) → Depends spec.nodes a d → by_id spec.nodes d ≢ none)))
topo_sort-eq-ok_iff spec = (
  topo_sort-ne-out_of_fuel spec,
  (
    λ (sorted, e). (
      λ id. topo_sort_acyclic spec sorted id e,
      by_id-Depends spec.nodes sorted (topo_sort-IsTopological spec sorted e),
    ),
    λ (acyclic, closed). let (sorted, e, _) = topo_sort_succeeds spec acyclic closed in (sorted, e),
  ),
)
