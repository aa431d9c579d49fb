-- ===== src/Pipeline/TopoSort.antt =====
-- `TopoSort` of internal/pipeline/scheduler.go: a depth-first search over the dependencies.
pub mod Graph
pub mod Visit
pub mod Outcomes
pub mod Acyclic
use brazier.Base.{
  ℕ, zero, suc, Text, ◌==◌, Bool, true, false, Option, none, some, List, [], ◌∷◌, ◌++◌, length,
  contains, delete, if◌then◌else◌,
}
use brazier.Proto.{Node, id_of, depends_on_of, PipelineSpec}

-- The maps `visited` and `inStack`, and the slice `sorted`.
pub record Search : Type 0 where
  pub visited : List Text
  pub in_stack : List Text
  pub sorted : List Node

pub data Outcome (A : Type 0) : Type 0 where
  ok : A → Outcome A
  cycle unknown : Text → Outcome A
  out_of_fuel : Outcome A

infixl 5 ◌>>=◌
abbrev pub ◌>>=◌ : {A B : Type 0} → Outcome A → (A → Outcome B) → Outcome B
ok a >>= f = f a
cycle id >>= f = cycle id
unknown id >>= f = unknown id
out_of_fuel >>= f = out_of_fuel

-- The lookup in `byID`. Of two nodes with one id the map holds the last.
unfoldable pub by_id : List Node → Text → Option Node
by_id [] id = none
by_id (n ∷ ns) id = elim (by_id ns id) [
  | some later ↦ some later
  | none ↦ if id_of n == id then some n else none
]

-- The loop `for _, x := range xs { if err := visit(x); err != nil { return err } }`.
unfoldable pub visit_each : (Text → Search → Outcome Search) → List Text → Search → Outcome Search
visit_each visit [] s = ok s
visit_each visit (id ∷ ids) s = do s' ← visit id s; visit_each visit ids s'

-- The end of `visit`, after the loop over the dependencies.
unfoldable pub leave : Text → Node → Search → Search
leave id n s = record {
  visited = s.visited ++ id ∷ [];
  in_stack = delete id s.in_stack;
  sorted = s.sorted ++ n ∷ [];
}

abbrev pub enter : Text → Search → Search
enter id s = record s { in_stack = id ∷ s.in_stack }

module _ (nodes : List Node) where
  -- The closure `visit`. The fuel bounds the depth of the calls.
  unfoldable pub visit : ℕ → Text → Search → Outcome Search
  visit zero id s = out_of_fuel
  visit (suc fuel) id s =
      let expanded : Outcome Search = elim (by_id nodes id) [
        | none ↦ unknown id
        | some n ↦ do
          s' ← visit_each (visit fuel) (depends_on_of n) (enter id s)
          ok (leave id n s')
      ] in
      if contains id s.visited then ok s else if contains id s.in_stack then cycle id else expanded

abbrev pub ids_of : List Node → List Text
ids_of [] = []
ids_of (n ∷ ns) = id_of n ∷ ids_of ns

abbrev pub start : Search
start = record { visited = []; in_stack = []; sorted = [] }

-- One call for each node on the stack, and one for an id that is not a node or is met again.
abbrev pub enough : List Node → ℕ
enough nodes = suc (length nodes)

unfoldable pub topo_sort : PipelineSpec → Outcome (List Node)
topo_sort spec = do
  s ← visit_each (visit spec.nodes (enough spec.nodes)) (ids_of spec.nodes) start
  ok s.sorted
