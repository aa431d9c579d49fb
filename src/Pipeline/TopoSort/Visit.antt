-- ===== src/Pipeline/TopoSort/Visit.antt =====
-- The invariant of the depth-first search, for one call of `visit` and for its loop.
use brazier.Base.{
  contains-cons, contains_self, contains-cons_of, contains-snoc, All-snoc, contains-append_left,
  contains-last, delete-cons_self, ℕ, zero, suc, ◌<◌, Text, ◌≡◌, refl, sym, ap, ◌∙◌, subst, ◌≢◌,
  ◌⊎◌, inl, inr, true, false, none, some, List, [], ◌∷◌, All, contains, delete, arith, Bool-cases,
  Option-cases,
}
use brazier.Proto.{Node, id_of, depends_on_of}
use brazier.Pipeline.TopoSort.{
  Search, Outcome, ok, cycle, unknown, out_of_fuel, ◌>>=◌, by_id, visit, visit_each, leave, enter,
  ids_of,
}
use brazier.Pipeline.TopoSort.Graph.{
  Depends, Reaches, direct, further, IsOrdered, IsOrdered-snoc, Distinct, Distinct-snoc,
  ids_of-snoc, by_id-id_of, free, free-enter,
}

module _ (nodes : List Node) where
  pub record IsSound (s : Search) : Type 0 where
    pub listed : s.visited ≡ ids_of s.sorted
    pub ordered : IsOrdered [] s.sorted
    pub known : All (λ n. by_id nodes (id_of n) ≡ some n) s.sorted
    pub distinct : Distinct (ids_of s.sorted)

  -- `visit` is called at a node, or at a dependency of one.
  abbrev pub Called : Text → Type 0
  Called id = (by_id nodes id ≢ none) ⊎ ((a : Text) × Depends nodes a id)

  -- Every node on the stack leads to `id`.
  abbrev pub Above : List Text → Text → Type 0
  Above stack id = (x : Text) → contains x stack ≡ true → Reaches nodes x id

  -- What a successful search changes: it visits more, nothing that is on the stack, and it leaves
  -- the stack as it was.
  pub record Extends (s s' : Search) : Type 0 where
    pub sound : IsSound s'
    pub stack : s'.in_stack ≡ s.in_stack
    pub grows : (x : Text) → contains x s.visited ≡ true → contains x s'.visited ≡ true
    pub apart :
        (x : Text)
        → contains x s.in_stack ≡ true
        → contains x s'.visited ≡ true
        → contains x s.visited ≡ true

  -- The error that a search ends with is justified, and it is never the lack of fuel.
  abbrev pub Justified : {A : Type 0} → (A → Type 0) → Outcome A → Type 0
  Justified P (ok a) = P a
  Justified P (cycle x) = Reaches nodes x x
  Justified P (unknown x) = (by_id nodes x ≡ none) × ((a : Text) × Depends nodes a x)
  Justified P out_of_fuel = ⊥

  pub Justified-bind :
      {A B : Type 0} (P : A → Type 0) (Q : B → Type 0) (r : Outcome A) (f : A → Outcome B)
      → Justified P r
      → ((a : A) → P a → Justified Q (f a))
      → Justified Q (r >>= f)
  Justified-bind P Q (ok a) f p k = k a p
  Justified-bind P Q (cycle x) f p k = p
  Justified-bind P Q (unknown x) f p k = p
  Justified-bind P Q out_of_fuel f p k = p

  pub Justified-map :
      {A : Type 0} (P Q : A → Type 0) (r : Outcome A)
      → ((a : A) → P a → Q a)
      → Justified P r
      → Justified Q r
  Justified-map P Q (ok a) f p = f a p
  Justified-map P Q (cycle x) f p = p
  Justified-map P Q (unknown x) f p = p
  Justified-map P Q out_of_fuel f p = p

  Extends-refl : (s : Search) → IsSound s → Extends s s
  Extends-refl s sound = record {
    sound = sound;
    stack = refl;
    grows = λ x h. h;
    apart = λ x h k. k;
  }

  Extends-trans : {s t u : Search} → Extends s t → Extends t u → Extends s u
  Extends-trans e f = record {
    sound = f.sound;
    stack = f.stack ∙ e.stack;
    grows = λ x h. f.grows x (e.grows x h);
    apart = λ x on seen. e.apart x on (f.apart x (ap (contains x) e.stack ∙ on) seen);
  }

  abbrev Visited : Search → Text → Search → Type 0
  Visited s id s' = Extends s s' × (contains id s'.visited ≡ true)

  abbrev pub AllVisited : Search → List Text → Search → Type 0
  AllVisited s ids s' = Extends s s' × All (λ d. contains d s'.visited ≡ true) ids

  -- What `visit` is proved to do, where fewer nodes are free than the fuel counts.
  abbrev pub Works : (Text → Search → Outcome Search) → ℕ → Type 0
  Works go fuel =
      (id : Text) (s : Search)
      → IsSound s
      → Called id
      → Above s.in_stack id
      → free s.in_stack nodes < fuel
      → Justified (Visited s id) (go id s)

  pub visit_each-Works :
      (go : Text → Search → Outcome Search) (fuel : ℕ)
      → Works go fuel
      → (ids : List Text) (s : Search) → IsSound s
      → All (λ id. Called id × Above s.in_stack id) ids
      → free s.in_stack nodes < fuel
      → Justified (AllVisited s ids) (visit_each go ids s)
  unfolding visit_each
  visit_each-Works go fuel works [] s sound calls room = (Extends-refl s sound, tt)
  visit_each-Works go fuel works (id ∷ ids) s sound calls room =
      Justified-bind (Visited s id) (AllVisited s (id ∷ ids)) (go id s) (visit_each go ids)
        (works id s sound calls.0.0 calls.0.1 room)
        λ s' (step, seen).
          Justified-map (AllVisited s' ids) (AllVisited s (id ∷ ids)) (visit_each go ids s')
            (λ t (rest, all_seen). (Extends-trans step rest, (rest.grows id seen, all_seen)))
            (visit_each-Works go fuel works ids s' step.sound
              (subst (λ stack. All (λ d. Called d × Above stack d) ids) (sym step.stack) calls.1)
              (subst (λ stack. free stack nodes < fuel) (sym step.stack) room))

  -- The loop over the dependencies of `n` may call `visit` at each of them.
  calls_of_deps :
      (id : Text) (n : Node) (stack : List Text)
      → by_id nodes id ≡ some n
      → Above stack id
      → (ds : List Text) → ((d : Text) → contains d ds ≡ true → contains d (depends_on_of n) ≡ true)
      → All (λ d. Called d × Above (id ∷ stack) d) ds
  unfolding contains
  calls_of_deps id n stack found above [] sub = tt
  calls_of_deps id n stack found above (d ∷ ds) sub =
      let dep : Depends nodes id d = record {
        node = n;
        found = found;
        named = sub d (contains_self d ds);
      } in
      (
        (
          inr (id, dep),
          λ x on. elim (contains-cons x id stack on) [
            | inl same ↦ rw same (direct dep)
            | inr below ↦ further (above x below) dep
          ],
        ),
        calls_of_deps id n stack found above ds (λ e m. sub e (contains-cons_of e d ds m)),
      )

  -- Leaving a node after its dependencies keeps the invariant.
  Visited-leave :
      (id : Text) (n : Node) (s s' : Search)
      → by_id nodes id ≡ some n
      → contains id s.visited ≡ false
      → contains id s.in_stack ≡ false
      → AllVisited (enter id s) (depends_on_of n) s'
      → Visited s id (leave id n s')
  unfolding leave
  Visited-leave id n s s' found fresh off (step, deps) = (
    record {
      sound = record {
        listed = cc (step.sound.listed, named, ids_of-snoc s'.sorted n);
        ordered = IsOrdered-snoc [] s'.sorted n step.sound.ordered (
            subst (λ ids. All (λ d. contains d ids ≡ true) (depends_on_of n)) step.sound.listed
              deps);
        known =
            All-snoc (λ m. by_id nodes (id_of m) ≡ some m) s'.sorted n step.sound.known
              (rw named found);
        distinct =
            rw (ids_of-snoc, named)
              (Distinct-snoc (ids_of s'.sorted) id step.sound.distinct
                (rw step.sound.listed at unseen));
      };
      stack = ap (delete id) step.stack ∙ delete-cons_self id s.in_stack off;
      grows = λ x h. contains-append_left x s'.visited (id ∷ []) (step.grows x h);
      apart = λ x on seen. elim (contains-snoc x id s'.visited seen) [
        | inl before ↦ step.apart x (contains-cons_of x id s.in_stack on) before
        | inr same ↦ cc (off, on, ap (λ y. contains y s.in_stack) same)
      ];
    },
    contains-last id s'.visited,
  )
    where
      named : id_of n ≡ id
      named = by_id-id_of nodes id n found

      unseen : contains id s'.visited ≡ false
      unseen = elim (Bool-cases (contains id s'.visited)) [
        | inl seen ↦ cc (step.apart id (contains_self id s.in_stack) seen)
        | inr absent ↦ absent
      ]

  -- Every call of `visit` with enough fuel keeps the invariant, or ends with a justified error.
  pub visit-Works : (fuel : ℕ) → Works (visit nodes fuel) fuel
  unfolding visit
  visit-Works zero id s sound called above room = absurd (omega arith)
  visit-Works (suc fuel) id s sound called above room = elim (Bool-cases (contains id s.visited)) [
    | inl seen ↦ rw seen (Extends-refl s sound, seen)
    | inr fresh ↦ elim (Bool-cases (contains id s.in_stack)) [
      | inl on ↦ rw (fresh, on) (above id on)
      | inr off ↦ elim (Option-cases (by_id nodes id)) [
        | inl missing ↦ rw (fresh, off, missing) (missing, caller missing)
        | inr (n, found) ↦
            rw (fresh, off, found)
              (Justified-bind (AllVisited (enter id s) (depends_on_of n)) (Visited s id)
                (visit_each (visit nodes fuel) (depends_on_of n) (enter id s))
                (λ s'. ok (leave id n s'))
                (visit_each-Works (visit nodes fuel) fuel (visit-Works fuel) (depends_on_of n)
                  (enter id s)
                  (record {
                    listed = sound.listed;
                    ordered = sound.ordered;
                    known = sound.known;
                    distinct = sound.distinct;
                  })
                  (calls_of_deps id n s.in_stack found above (depends_on_of n) (λ d m. m))
                  (omega (arith, free-enter id s.in_stack nodes n found off)))
                (λ s' done. Visited-leave id n s s' found fresh off done))
      ]
    ]
  ]
    where
      caller : by_id nodes id ≡ none → (a : Text) × Depends nodes a id
      caller missing = elim called [ inl known ↦ absurd (known missing) | inr by ↦ by ]
