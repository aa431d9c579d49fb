-- ===== src/Pipeline/Progress/Order.antt =====
-- Where some node of an accepted pipeline is pending, `Advance` decides about one.
use brazier.Base.{
  All-weaken, All-Among, Option-cases, Text, ==_refl, ◌∙◌, ◌≡◌, refl, ◌⊎◌, inl, inr, Bool, true,
  ◌||◌, Option, some, List, [], ◌∷◌, All, Among, contains, contains-cons, arith, Bool-cases,
}
use brazier.Proto.{Node, id_of, depends_on_of, PipelineSpec}
use brazier.Db.{NodeState}
use brazier.Pipeline.Scheduler.{is_pending, lets_through, deps_terminal}
use brazier.Pipeline.TopoSort.{ok, by_id, ids_of, topo_sort}
use brazier.Pipeline.TopoSort.Graph.{IsOrdered, All-contains}
use brazier.Pipeline.TopoSort.Outcomes.{topo_sort-IsTopological}

-- Not running, and not failed.
abbrev pub is_settled : Option NodeState → Bool
is_settled s = is_pending s || lets_through s

module _ (state : Text → Option NodeState) where
  deps_terminal-seen :
      (seen deps : List Text)
      → ((d : Text) → contains d seen ≡ true → lets_through (state d) ≡ true)
      → All (λ d. contains d seen ≡ true) deps
      → deps_terminal deps state ≡ true
  unfolding deps_terminal
  deps_terminal-seen seen [] through h = refl
  deps_terminal-seen seen (d ∷ deps) through h =
      rw (through d h.0, deps_terminal-seen seen deps through h.1) refl

  through-cons :
      (x : Text) (seen : List Text)
      → lets_through (state x) ≡ true
      → ((d : Text) → contains d seen ≡ true → lets_through (state d) ≡ true)
      → (d : Text) → contains d (x ∷ seen) ≡ true
      → lets_through (state d) ≡ true
  through-cons x seen here through d on = elim (contains-cons d x seen on) [
    | inl same ↦ rw (same) here
    | inr rest ↦ through d rest
  ]

  -- A node that is pending and waits for no other.
  pub record Ready (ns : List Node) : Type 0 where
    pub node : Node
    pub among : Among node ns
    pub pending : is_pending (state (id_of node)) ≡ true
    pub deps : deps_terminal (depends_on_of node) state ≡ true

  later_Ready : (n : Node) (ns : List Node) → Ready ns → Ready (n ∷ ns)
  later_Ready n ns r = record {
    node = r.node;
    among = inr r.among;
    pending = r.pending;
    deps = r.deps;
  }

  first-Ready :
      (seen : List Text) (ns : List Node)
      → IsOrdered seen ns
      → ((d : Text) → contains d seen ≡ true → lets_through (state d) ≡ true)
      → All (λ n. is_settled (state (id_of n)) ≡ true) ns
      → ((d : Text) → contains d (ids_of ns) ≡ true → lets_through (state d) ≡ true) ⊎ Ready ns
  unfolding contains
  first-Ready seen [] ordered through settled = inl (λ d on. cc)
  first-Ready seen (n ∷ ns) ordered through settled =
      elim (Bool-cases (is_pending (state (id_of n)))) [
        | inl pending ↦ inr (record {
          node = n;
          among = inl refl;
          pending = pending;
          deps = deps_terminal-seen seen (depends_on_of n) through ordered.0;
        })
        | inr other ↦
            let here : lets_through (state (id_of n)) ≡ true = ground (arith, settled.0) in
            elim (first-Ready (id_of n ∷ seen) ns ordered.1
              (through-cons (id_of n) seen here through) settled.1) [
                | inl all_through ↦ inl (through-cons (id_of n) (ids_of ns) here all_through)
                | inr r ↦ inr (later_Ready n ns r)
              ]
      ]

by_id-Among : (nodes : List Node) (id : Text) (n : Node) → by_id nodes id ≡ some n → Among n nodes
unfolding by_id
by_id-Among [] id n h = cc
by_id-Among (m ∷ nodes) id n h = elim (Option-cases (by_id nodes id)) [
  | inl missing ↦ let last = rw missing at h in inl (ground arith)
  | inr (l, found) ↦ let same = rw found at h in inr (by_id-Among nodes id n (found ∙ same))
]

pub Among-ids_of : (n : Node) (ns : List Node) → Among n ns → contains (id_of n) (ids_of ns) ≡ true
unfolding contains
Among-ids_of n [] among = elim among [ ]
Among-ids_of n (m ∷ ns) (inl same) = rw (same, ==_refl (id_of m)) refl
Among-ids_of n (m ∷ ns) (inr among) = ground (arith, Among-ids_of n ns among)

module _ (state : Text → Option NodeState) (spec : PipelineSpec) (sorted : List Node) where
  -- Where `TopoSort` accepts the pipeline, no node is running or failed, and some node is pending,
  -- there is a pending node with no dependency that it has to wait for.
  pub pending-Ready :
      (p : Node)
      → topo_sort spec ≡ ok sorted
      → All (λ n. is_settled (state (id_of n)) ≡ true) spec.nodes
      → Among p spec.nodes
      → is_pending (state (id_of p)) ≡ true
      → Ready state spec.nodes
  unfolding contains
  pending-Ready p accepted settled among pending =
      let top = topo_sort-IsTopological spec sorted accepted in
      let known : (n : Node) → by_id spec.nodes (id_of n) ≡ some n → Among n spec.nodes =
        λ n found. by_id-Among spec.nodes (id_of n) n found in
      elim (first-Ready state [] sorted top.ordered (λ d on. cc)
        (All-weaken _ _ sorted
          (λ n found.
            All-Among (λ m. is_settled (state (id_of m)) ≡ true) spec.nodes n settled
              (known n found))
          top.known)) [
            | inl through ↦
                let on =
                  All-contains (λ x. contains x (ids_of sorted) ≡ true) (ids_of spec.nodes)
                    (id_of p) top.complete (Among-ids_of p spec.nodes among) in
                let here = through (id_of p) on in ground (arith, pending, here)
            | inr r ↦ record {
              node = r.node;
              among = known r.node (
                  All-Among (λ m. by_id spec.nodes (id_of m) ≡ some m) sorted r.node top.known
                    r.among);
              pending = r.pending;
              deps = r.deps;
            }
          ]
