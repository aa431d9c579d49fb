-- ===== src/Registry/Choice.antt =====
-- Which agent `leastLoaded` chooses.
use brazier.Base.{
  Among, ℕ, ◌≡◌, ◌≤◌, Bool, true, false, Option, none, some, List, [], ◌∷◌, All, ltb, ◌⊎◌, refl,
  inl, inr, arith, leb, sym, some_inj, Bool-cases, Option-cases,
}
use brazier.Proto.{ℤ, pos, negsuc}
use brazier.Registry.{AgentConn, at_capacity, better, scan, least_loaded}

-- How many jobs at once a capacity allows: none, where it is negative.
abbrev pub places : ℤ → ℕ
places (pos c) = c
places (negsuc c) = 0

abbrev pub has_room : AgentConn → Bool
has_room a = ltb a.active (places a.info.capacity)

at_capacity-places : (c : ℤ) (n : ℕ) → at_capacity c n ≡ leb (places c) n
unfolding at_capacity
at_capacity-places (pos c) n = refl
at_capacity-places (negsuc c) n = ground arith

-- An agent is chosen only where one has room; and then it is one of them, has room, and no agent
-- with room has less to do.
abbrev pub IsChoice : List AgentConn → Option AgentConn → Type 0
IsChoice agents none = All (λ b. has_room b ≡ false) agents
IsChoice agents (some a) =
    Among a agents × (has_room a ≡ true) × All (λ b. has_room b ≡ true → a.active ≤ b.active) agents

scan-none :
    (best : Option AgentConn) (agents : List AgentConn)
    → scan best agents ≡ none
    → (best ≡ none) × All (λ b. has_room b ≡ false) agents
unfolding scan better
scan-none best [] e = (e, tt)
scan-none best (a ∷ agents) e =
    let (empty, full) = scan-none (better best a) agents e in
    (
      ground (arith, empty, at_capacity-places a.info.capacity a.active),
      (ground (arith, empty, at_capacity-places a.info.capacity a.active), full),
    )

abbrev Bound : ℕ → Option AgentConn → Type 0
Bound n none = Unit
Bound n (some d) = n ≤ d.active

abbrev From : AgentConn → Option AgentConn → List AgentConn → Type 0
From c best agents = (best ≡ some c) ⊎ (Among c agents × (has_room c ≡ true))

From-kept :
    (c a : AgentConn) (best : Option AgentConn) (agents : List AgentConn)
    → From c best agents
    → From c best (a ∷ agents)
From-kept c a best agents (inl e) = inl e
From-kept c a best agents (inr (among, room)) = inr (inr among, room)

From-taken :
    (c a : AgentConn) (best : Option AgentConn) (agents : List AgentConn)
    → has_room a ≡ true
    → From c (some a) agents
    → From c best (a ∷ agents)
From-taken c a best agents room (inl e) =
    let same = sym (some_inj e) in inr (inl same, rw same room)
From-taken c a best agents room (inr (among, r)) = inr (inr among, r)

-- One step back in the loop.
better-back :
    (best : Option AgentConn) (a c : AgentConn) (agents : List AgentConn)
    → From c (better best a) agents × Bound c.active (better best a)
    → From c best (a ∷ agents) × Bound c.active best × (has_room a ≡ true → c.active ≤ a.active)
unfolding better
better-back none a c agents (from, bound) =
    elim (Bool-cases (at_capacity a.info.capacity a.active)) [
      | inl full ↦ (
        From-kept c a none agents (rw full at from),
        tt,
        ground (arith, at_capacity-places a.info.capacity a.active),
      )
      | inr room ↦
          let bound' = rw room at bound in
          (
            From-taken c a none agents (ground (arith, at_capacity-places a.info.capacity a.active))
                (rw room at from),
            tt,
            λ h. bound',
          )
    ]
better-back (some b) a c agents (from, bound) =
    elim (Bool-cases (at_capacity a.info.capacity a.active)) [
      | inl full ↦ (
        From-kept c a (some b) agents (rw full at from),
        (rw full at bound),
        ground (arith, at_capacity-places a.info.capacity a.active),
      )
      | inr room ↦ elim (Bool-cases (ltb a.active b.active)) [
        | inl less ↦
            let bound' = rw (room, less) at bound in
            (
              From-taken c a (some b) agents
                  (ground (arith, at_capacity-places a.info.capacity a.active))
                  (rw (room, less) at from),
              ground arith,
              λ h. bound',
            )
        | inr more ↦
            let bound' = rw (room, more) at bound in
            (From-kept c a (some b) agents (rw (room, more) at from), bound', λ h. ground arith)
      ]
    ]

scan-some :
    (best : Option AgentConn) (agents : List AgentConn) (c : AgentConn)
    → scan best agents ≡ some c
    → (From c best agents × Bound c.active best)
      × All (λ b. has_room b ≡ true → c.active ≤ b.active) agents
unfolding scan
scan-some best [] c e = ((inl e, rw e (omega arith)), tt)
scan-some best (a ∷ agents) c e =
    let (back, bounds) = scan-some (better best a) agents c e in
    let (from, bound, room) = better-back best a c agents back in ((from, bound), (room, bounds))

pub least_loaded-IsChoice : (agents : List AgentConn) → IsChoice agents (least_loaded agents)
unfolding least_loaded
least_loaded-IsChoice agents = elim (Option-cases (scan none agents)) [
  | inl e ↦ rw e (scan-none none agents e).1
  | inr (c, e) ↦ rw e (chosen c (scan-some none agents c e))
]
  where
    chosen :
        (c : AgentConn)
        → (From c none agents × Unit {0})
          × All (λ b. has_room b ≡ true → c.active ≤ b.active) agents
        → IsChoice agents (some c)
    chosen c ((inl e, _), bounds) = cc
    chosen c ((inr (among, room), _), bounds) = (among, room, bounds)
