-- ===== src/Examples/Sorting.antt =====
-- `TopoSort` at small pipelines.
use brazier.Base.{Text, text, ◌==◌, ◌≡◌, refl, ◌≢◌, ◌↔◌, none, List, [], ◌∷◌, contains, delete}
use brazier.Proto.{Node}
use brazier.Pipeline.TopoSort.{
  ok, cycle, unknown, out_of_fuel, by_id, visit_each, leave, visit, topo_sort,
}
use brazier.Pipeline.TopoSort.Graph.{Depends, Reaches}
use brazier.Pipeline.TopoSort.Outcomes.{
  IsTopological, topo_sort-IsTopological, topo_sort-cycle, topo_sort-unknown,
}
use brazier.Pipeline.TopoSort.Acyclic.{topo_sort-eq-ok_iff}
use brazier.Examples.{build, test, lint, linear, cyclic, dangling}

running : Unit {0}
unfolding topo_sort visit visit_each leave by_id contains delete text ◌==◌
running = tt

sort_linear : topo_sort linear ≡ ok (lint ∷ test ∷ build ∷ [])
unfolding running
sort_linear = refl

sort_cyclic : topo_sort cyclic ≡ cycle (text "a")
unfolding running
sort_cyclic = refl

sort_dangling : topo_sort dangling ≡ unknown (text "z")
unfolding running
sort_dangling = refl

topo_sort-IsTopological_example : IsTopological linear.nodes (lint ∷ test ∷ build ∷ [])
topo_sort-IsTopological_example =
    topo_sort-IsTopological linear (lint ∷ test ∷ build ∷ []) sort_linear

cyclic-Reaches : Reaches cyclic.nodes (text "a") (text "a")
cyclic-Reaches = topo_sort-cycle cyclic (text "a") sort_cyclic

dangling_missing :
    (by_id dangling.nodes (text "z") ≡ none) × ((a : Text) × Depends dangling.nodes a (text "z"))
dangling_missing = topo_sort-unknown dangling (text "z") sort_dangling

topo_sort-eq-ok_iff_example :
    (topo_sort cyclic ≢ out_of_fuel)
    × (((sorted : List Node) × (topo_sort cyclic ≡ ok sorted)) ↔ (
        ((id : Text) → ¬ Reaches cyclic.nodes id id)
        × ((a d : Text) → Depends cyclic.nodes a d → by_id cyclic.nodes d ≢ none)))
topo_sort-eq-ok_iff_example = topo_sort-eq-ok_iff cyclic
