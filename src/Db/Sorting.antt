-- ===== src/Db/Sorting.antt =====
-- ORDER BY returns the same rows, in order.
use mathlib.Core.List.{Perm}
use mathlib.Core.List.Perm
use brazier.Base.{refl, ◌≡◌, Bool, true, false, List, [], ◌∷◌, All, Bool-cases, inl, inr}
use brazier.Db.{insert_by, order_by}

module _ {ℓ} {A : Type ℓ} (precedes : A → A → Bool) where
  -- No row stands before one that precedes it and that it does not precede.
  abbrev pub Ordered : List A → Type 0
  Ordered [] = Unit
  Ordered (x ∷ xs) = All (λ y. precedes x y ≡ true) xs × Ordered xs

  pub All-insert_by :
      (P : A → Type 0) (x : A) (xs : List A) → P x → All P xs → All P (insert_by precedes x xs)
  unfolding insert_by
  All-insert_by P x [] p h = (p, tt)
  All-insert_by P x (y ∷ ys) p h = elim (Bool-cases (precedes x y)) [
    | inl before ↦ rw before (p, h)
    | inr after ↦ rw after (h.0, All-insert_by P x ys p h.1)
  ]

  pub All-order_by : (P : A → Type 0) (xs : List A) → All P xs → All P (order_by precedes xs)
  unfolding order_by
  All-order_by P [] h = tt
  All-order_by P (x ∷ xs) h = All-insert_by P x (order_by precedes xs) h.0 (All-order_by P xs h.1)

  insert_by-perm : (x : A) (xs : List A) → Perm (insert_by precedes x xs) (x ∷ xs)
  unfolding insert_by
  insert_by-perm x [] = Perm.rfl
  insert_by-perm x (y ∷ ys) = elim (Bool-cases (precedes x y)) [
    | inl before ↦ rw before Perm.rfl
    | inr after ↦ rw after (Perm.trans (Perm.cons y (insert_by-perm x ys)) (Perm.swap x y ys))
  ]

  pub order_by-perm : (xs : List A) → Perm (order_by precedes xs) xs
  unfolding order_by
  order_by-perm [] = Perm.rfl
  order_by-perm (x ∷ xs) =
      Perm.trans (insert_by-perm x (order_by precedes xs)) (Perm.cons x (order_by-perm xs))

  module _ (total : (x y : A) → precedes x y ≡ false → precedes y x ≡ true)
      (transitive : (x y z : A)
        → precedes x y ≡ true
        → precedes y z ≡ true
        → precedes x z ≡ true) where
    before-All :
        (x y : A) (ys : List A)
        → precedes x y ≡ true
        → All (λ z. precedes y z ≡ true) ys
        → All (λ z. precedes x z ≡ true) ys
    before-All x y [] xy h = tt
    before-All x y (z ∷ ys) xy h = (transitive x y z xy h.0, before-All x y ys xy h.1)

    insert_by-Ordered : (x : A) (xs : List A) → Ordered xs → Ordered (insert_by precedes x xs)
    unfolding insert_by
    insert_by-Ordered x [] h = (tt, tt)
    insert_by-Ordered x (y ∷ ys) h = elim (Bool-cases (precedes x y)) [
      | inl before ↦ rw before ((before, before-All x y ys before h.0), h)
      | inr after ↦ rw after (
        All-insert_by (λ z. precedes y z ≡ true) x ys (total x y after) h.0,
        insert_by-Ordered x ys h.1,
      )
    ]

    pub order_by-Ordered : (xs : List A) → Ordered (order_by precedes xs)
    unfolding order_by
    order_by-Ordered [] = tt
    order_by-Ordered (x ∷ xs) = insert_by-Ordered x (order_by precedes xs) (order_by-Ordered xs)

  insert_by_first :
      (x : A) (xs : List A) → All (λ y. precedes x y ≡ true) xs → insert_by precedes x xs ≡ x ∷ xs
  unfolding insert_by
  insert_by_first x [] h = refl
  insert_by_first x (y ∷ ys) h = rw h.0

  -- Rows that are in order are returned as they are.
  pub order_by_of_Ordered : (xs : List A) → Ordered xs → order_by precedes xs ≡ xs
  unfolding order_by
  order_by_of_Ordered [] h = refl
  order_by_of_Ordered (x ∷ xs) h = rw (order_by_of_Ordered xs h.1) (insert_by_first x xs h.0)
