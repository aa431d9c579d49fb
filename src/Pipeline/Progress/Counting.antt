-- ===== src/Pipeline/Progress/Counting.antt =====
-- One round, on the states: what it makes of them, and how many nodes stay pending.
use brazier.Base.{
  ℕ, ◌≤◌, ◌<◌, Text, ==_refl, ◌≡◌, refl, ◌⊎◌, inl, inr, Bool, true, false, Option, none, some, List,
  [], ◌∷◌, All, All-weaken, Among, count_p, length, arith, Bool-cases,
}
use brazier.Proto.{Node, id_of, depends_on_of, PipelineSpec}
use brazier.Db.{NodeState}
use brazier.Pipeline.Conditions.{RunContext}
use brazier.Pipeline.Scheduler.{is_pending, lets_through, deps_terminal}
use brazier.Pipeline.Scheduler.Steps.{verdict, decided, or_else}
use brazier.Pipeline.Scheduler.Passes.{is_decided, decided-ne-pending}
use brazier.Pipeline.TopoSort.{ok, topo_sort}
use brazier.Pipeline.Progress.Order.{is_settled, Ready, pending-Ready}

abbrev pub finished : Option NodeState → Option NodeState
finished (some NodeState.running) = some NodeState.success
finished s = s

abbrev pub after_round :
    RunContext → List Node → (Text → Option NodeState) → Text → Option NodeState
after_round rc nodes state id = finished (or_else (decided rc state nodes id) (state id))

finished_settled : (s : Option NodeState) → is_settled s ≡ true → is_settled (finished s) ≡ true
finished_settled s h = ground arith

finished_pending : (s : Option NodeState) → is_pending (finished s) ≡ is_pending s
finished_pending s = ground arith

or_else_settled :
    (new old : Option NodeState)
    → (new ≡ none) ⊎ (is_settled (finished new) ≡ true)
    → is_settled old ≡ true
    → is_settled (finished (or_else new old)) ≡ true
or_else_settled none old cases h = finished_settled old h
or_else_settled (some s) old (inl none_new) h = cc
or_else_settled (some s) old (inr settled) h = settled

or_else_pending :
    (new old : Option NodeState)
    → (is_decided new ≡ true → is_pending new ≡ false)
    → is_pending (finished (or_else new old)) ≡ true
    → (is_pending old ≡ true) × (is_decided new ≡ false)
or_else_pending none old off h = (rw (finished_pending old) at h, refl)
or_else_pending (some s) old off h =
    let not_pending = off refl in let is_pending_new = rw (finished_pending (some s)) at h in cc

count_p-le :
    {A : Type 0} (p q : A → Bool) (xs : List A)
    → ((x : A) → p x ≡ true → q x ≡ true)
    → count_p p xs ≤ count_p q xs
count_p-le p q [] f = omega arith
count_p-le p q (x ∷ xs) f = ground (arith, count_p-le p q xs f, f x)

count_p-lt :
    {A : Type 0} (p q : A → Bool) (xs : List A) (x : A)
    → ((y : A) → p y ≡ true → q y ≡ true)
    → Among x xs
    → p x ≡ false
    → q x ≡ true
    → count_p p xs < count_p q xs
count_p-lt p q [] x f among off on = elim among [ ]
count_p-lt p q (y ∷ xs) x f (inl same) off on =
    let off' : p y ≡ false = rw (← same) off in
    let on' : q y ≡ true = rw (← same) on in ground (arith, count_p-le p q xs f)
count_p-lt p q (y ∷ xs) x f (inr among) off on =
    ground (arith, count_p-lt p q xs x f among off on, f y)

module _ (rc : RunContext) (state : Text → Option NodeState) where
  decided-cases :
      (ns : List Node) (id : Text)
      → (decided rc state ns id ≡ none) ⊎ (is_settled (finished (decided rc state ns id)) ≡ true)
  unfolding decided verdict
  decided-cases [] id = inl refl
  decided-cases (n ∷ ns) id = ground (arith, decided-cases ns id)

  decided_of_Ready :
      (ns : List Node) (n : Node)
      → Among n ns
      → is_pending (state (id_of n)) ≡ true
      → deps_terminal (depends_on_of n) state ≡ true
      → is_decided (decided rc state ns (id_of n)) ≡ true
  unfolding decided verdict
  decided_of_Ready [] n among pending deps = elim among [ ]
  decided_of_Ready (m ∷ ns) n (inl same) pending deps =
      rw same (ground (arith, rw same at pending, rw same at deps, ==_refl (id_of m)))
  decided_of_Ready (m ∷ ns) n (inr among) pending deps =
      ground (arith, decided_of_Ready ns n among pending deps)

  module _ (nodes : List Node) where
    after_round-settled :
        (id : Text)
        → is_settled (state id) ≡ true
        → is_settled (after_round rc nodes state id) ≡ true
    after_round-settled id h =
        or_else_settled (decided rc state nodes id) (state id) (decided-cases nodes id) h

    after_round-pending :
        (id : Text)
        → is_pending (after_round rc nodes state id) ≡ true
        → (is_pending (state id) ≡ true) × (is_decided (decided rc state nodes id) ≡ false)
    after_round-pending id h =
        or_else_pending (decided rc state nodes id) (state id)
          (decided-ne-pending rc state nodes id) h

    after_round-Ready :
        (r : Ready state nodes) → is_pending (after_round rc nodes state (id_of r.node)) ≡ false
    after_round-Ready r =
        elim (Bool-cases (is_pending (after_round rc nodes state (id_of r.node)))) [
          | inl still ↦
              let on = decided_of_Ready nodes r.node r.among r.pending r.deps in
              let off = (after_round-pending (id_of r.node) still).1 in cc
          | inr not_now ↦ not_now
        ]

-- How many nodes of the pipeline are pending.
unfoldable pub pending_count : (Text → Option NodeState) → List Node → ℕ
pending_count state nodes = count_p (λ n. is_pending (state (id_of n))) nodes

abbrev pub Settled : (Text → Option NodeState) → List Node → Type 0
Settled state nodes = All (λ n. is_settled (state (id_of n)) ≡ true) nodes

Among-of_count :
    (p : Node → Bool) (ns : List Node) → 0 < count_p p ns → (n : Node) × Among n ns × (p n ≡ true)
Among-of_count p [] h = absurd (omega arith)
Among-of_count p (n ∷ ns) h = elim (Bool-cases (p n)) [
  | inl on ↦ (n, inl refl, on)
  | inr off ↦ let (m, among, on) = Among-of_count p ns (rw off at h) in (m, inr among, on)
]

-- Both are of the states of the nodes only.
pub pending_count-same :
    (s t : Text → Option NodeState) (ns : List Node)
    → All (λ n. s (id_of n) ≡ t (id_of n)) ns
    → pending_count s ns ≡ pending_count t ns
unfolding pending_count
pending_count-same s t [] same = refl
pending_count-same s t (n ∷ ns) same = rw (same.0, pending_count-same s t ns same.1) refl

pub Settled-same :
    (s t : Text → Option NodeState) (ns : List Node)
    → All (λ n. s (id_of n) ≡ t (id_of n)) ns
    → Settled t ns
    → Settled s ns
Settled-same s t [] same h = h
Settled-same s t (n ∷ ns) same h = (rw same.0 h.0, Settled-same s t ns same.1 h.1)

-- Where no node is pending, every node is done.
pub through_of_count :
    (state : Text → Option NodeState) (ns : List Node)
    → Settled state ns
    → pending_count state ns ≡ 0
    → All (λ n. lets_through (state (id_of n)) ≡ true) ns
unfolding pending_count
through_of_count state [] settled none_left = settled
through_of_count state (n ∷ ns) settled none_left =
    elim (Bool-cases (is_pending (state (id_of n)))) [
      | inl on ↦ let counted = rw on at none_left in absurd (omega arith)
      | inr off ↦
          let here : lets_through (state (id_of n)) ≡ true = ground (arith, settled.0) in
          (here, through_of_count state ns settled.1 (rw off at none_left))
    ]

pub pending_count-length :
    (state : Text → Option NodeState) (ns : List Node) → pending_count state ns ≤ length ns
unfolding pending_count
pending_count-length state [] = omega arith
pending_count-length state (n ∷ ns) = ground (arith, pending_count-length state ns)

module _ (rc : RunContext) (state : Text → Option NodeState) (spec : PipelineSpec)
    (sorted : List Node) (accepted : topo_sort spec ≡ ok sorted) where
  pub after_round-Settled :
      Settled state spec.nodes → Settled (after_round rc spec.nodes state) spec.nodes
  after_round-Settled h =
      All-weaken _ _ spec.nodes (λ n. after_round-settled rc state spec.nodes (id_of n)) h

  pub pending_count-after_round_le :
      pending_count (after_round rc spec.nodes state) spec.nodes ≤ pending_count state spec.nodes
  unfolding pending_count
  pending_count-after_round_le =
      count_p-le (λ n. is_pending (after_round rc spec.nodes state (id_of n)))
        (λ n. is_pending (state (id_of n))) spec.nodes
        (λ n h. (after_round-pending rc state spec.nodes (id_of n) h).0)

  -- A round leaves fewer nodes pending, where some are.
  pub pending_count-after_round :
      Settled state spec.nodes
      → 0 < pending_count state spec.nodes
      → pending_count (after_round rc spec.nodes state) spec.nodes < pending_count state spec.nodes
  unfolding pending_count
  pending_count-after_round settled some_pending =
      let (p, among, pending) =
        Among-of_count (λ n. is_pending (state (id_of n))) spec.nodes some_pending in
      let r = pending-Ready state spec sorted p accepted settled among pending in
      count_p-lt (λ n. is_pending (after_round rc spec.nodes state (id_of n)))
        (λ n. is_pending (state (id_of n))) spec.nodes r.node
        (λ n h. (after_round-pending rc state spec.nodes (id_of n) h).0) r.among
        (after_round-Ready rc state spec.nodes r) r.pending
