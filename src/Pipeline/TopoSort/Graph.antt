-- ===== src/Pipeline/TopoSort/Graph.antt =====
-- The dependency graph of a pipeline, and what a sorted list of nodes should be.
use mathlib.Core.List.{append-nil}
use brazier.Base.{
  All-weaken, Bool-cases, subst, sym, ℕ, ◌≤◌, ◌<◌, Text, ◌==◌, ==_iff, ==_refl, ◌≡◌, refl, ◌≢◌,
  true, false, not, none, some, List, [], ◌∷◌, ◌++◌, length, All, contains, count_p, arith,
  contains-append, inl, inr,
}
use brazier.Proto.{Node, id_of, depends_on_of}
use brazier.Pipeline.TopoSort.{by_id, ids_of}

module _ (nodes : List Node) where
  -- The node called `a` names `b` among its dependencies.
  pub record Depends (a b : Text) : Type 0 where
    pub node : Node
    pub found : by_id nodes a ≡ some node
    pub named : contains b (depends_on_of node) ≡ true

  -- A chain of one or more dependencies leads from `a` to `b`.
  pub data Reaches (a : Text) : Text → Type 0 where
    direct : {b : Text} → Depends a b → Reaches a b
    further : {b c : Text} → Reaches a b → Depends b c → Reaches a c

-- Each node stands behind its dependencies, or these are among the ids seen before the list.
abbrev pub IsOrdered : List Text → List Node → Type 0
IsOrdered seen [] = Unit
IsOrdered seen (n ∷ ns) =
    All (λ d. contains d seen ≡ true) (depends_on_of n) × IsOrdered (id_of n ∷ seen) ns

-- No id twice.
abbrev pub Distinct : List Text → Type 0
Distinct [] = Unit
Distinct (x ∷ xs) = (contains x xs ≡ false) × Distinct xs

pub All-contains :
    (P : Text → Type 0) (xs : List Text) (x : Text) → All P xs → contains x xs ≡ true → P x
unfolding contains
All-contains P [] x h m = cc
All-contains P (y ∷ ys) x h m = elim (Bool-cases (x == y)) [
  | inl same ↦ subst P (sym ((==_iff x y).0 same)) h.0
  | inr other ↦ All-contains P ys x h.1 (rw (other, contains) at m)
]

contains-middle :
    (x y : Text) (xs ys : List Text)
    → contains x (xs ++ y ∷ ys) ≡ true
    → contains x ((y ∷ xs) ++ ys) ≡ true
unfolding contains
contains-middle x y [] ys h = h
contains-middle x y (z ∷ xs) ys h = ground (arith, contains-middle x y xs ys)

pub IsOrdered-snoc :
    (seen : List Text) (ns : List Node) (n : Node)
    → IsOrdered seen ns
    → All (λ d. contains d (seen ++ ids_of ns) ≡ true) (depends_on_of n)
    → IsOrdered seen (ns ++ n ∷ [])
IsOrdered-snoc seen [] n h deps =
    (All-weaken _ _ (depends_on_of n) (λ d m. rw append-nil at m) deps, tt)
IsOrdered-snoc seen (m ∷ ns) n h deps = (
  h.0,
  IsOrdered-snoc (id_of m ∷ seen) ns n h.1
      (All-weaken _ _ (depends_on_of n) (λ d. contains-middle d (id_of m) seen (ids_of ns)) deps),
)

pub Distinct-snoc :
    (xs : List Text) (x : Text) → Distinct xs → contains x xs ≡ false → Distinct (xs ++ x ∷ [])
unfolding contains
Distinct-snoc [] x h absent = ground arith
Distinct-snoc (y ∷ ys) x h absent =
    ground (arith, Distinct-snoc ys x h.1, contains-append y ys (x ∷ []), ==_iff x y, ==_iff y x)

pub ids_of-snoc : (ns : List Node) (n : Node) → ids_of (ns ++ n ∷ []) ≡ ids_of ns ++ id_of n ∷ []
ids_of-snoc [] n = refl
ids_of-snoc (m ∷ ns) n = rw (ids_of-snoc ns n)

pub by_id-id_of :
    (nodes : List Node) (id : Text) (n : Node) → by_id nodes id ≡ some n → id_of n ≡ id
unfolding by_id
by_id-id_of [] id n h = cc
by_id-id_of (m ∷ nodes) id n h = ground (arith, by_id-id_of nodes id n, ==_iff (id_of m) id)

pub by_id-ids_of :
    (nodes : List Node) (id : Text) → contains id (ids_of nodes) ≡ true → by_id nodes id ≢ none
unfolding by_id contains
by_id-ids_of [] id h e = cc
by_id-ids_of (n ∷ nodes) id h e =
    ground (arith, by_id-ids_of nodes id, ==_iff (id_of n) id, ==_iff id (id_of n))

-- How many nodes are not on the stack.
abbrev pub free : List Text → List Node → ℕ
free stack nodes = count_p (λ n. not (contains (id_of n) stack)) nodes

pub free-le : (stack : List Text) (nodes : List Node) → free stack nodes ≤ length nodes
free-le stack [] = omega arith
free-le stack (n ∷ nodes) = ground (arith, free-le stack nodes)

free-enter_le :
    (id : Text) (stack : List Text) (nodes : List Node) → free (id ∷ stack) nodes ≤ free stack nodes
unfolding contains
free-enter_le id stack [] = omega arith
free-enter_le id stack (n ∷ nodes) = ground (arith, free-enter_le id stack nodes)

pub free-enter :
    (id : Text) (stack : List Text) (nodes : List Node) (n : Node)
    → by_id nodes id ≡ some n
    → contains id stack ≡ false
    → free (id ∷ stack) nodes < free stack nodes
unfolding contains by_id
free-enter id stack [] n found absent = cc
free-enter id stack (m ∷ nodes) n found absent = ground (
  arith,
  free-enter id stack nodes n,
  free-enter_le id stack nodes,
  ==_iff (id_of m) id,
  ==_refl (id_of m),
)
