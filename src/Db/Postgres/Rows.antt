-- ===== src/Db/Postgres/Rows.antt =====
-- Rows that come in another order.
use mathlib.Core.List.{Permᴰ}
use brazier.Base.{subst, ◌≡◌, refl, ◌∙◌, Bool, true, false, List, [], ◌∷◌, All, arith}
use brazier.Db.{insert_by, order_by}

module _ {A : Type 0} where
  pub All-Permᴰ : (P : A → Type 0) (xs ys : List A) → Permᴰ xs ys → All P xs → All P ys
  All-Permᴰ P _ _ Permᴰ.nil h = h
  All-Permᴰ P (x ∷ xs) (y ∷ ys) (Permᴰ.cons same p) h = (rw (← same) h.0, All-Permᴰ P xs ys p h.1)
  All-Permᴰ P (a ∷ b ∷ xs) _ (Permᴰ.swap e f) h = (rw (← f) h.1.0, (rw (← e) h.0, h.1.1))
  All-Permᴰ P xs zs (Permᴰ.trans {l₂ = ys} p q) h = All-Permᴰ P ys zs q (All-Permᴰ P xs ys p h)

  -- No row clashes with a later one.
  abbrev pub Apart : (A → A → Bool) → List A → Type 0
  Apart clash [] = Unit
  Apart clash (x ∷ xs) = All (λ y. clash x y ≡ false) xs × Apart clash xs

  module _ (clash : A → A → Bool) (sym_clash : (x y : A) → clash x y ≡ clash y x) where
    pub Apart-Permᴰ : (xs ys : List A) → Permᴰ xs ys → Apart clash xs → Apart clash ys
    Apart-Permᴰ _ _ Permᴰ.nil h = h
    Apart-Permᴰ (x ∷ xs) (y ∷ ys) (Permᴰ.cons same p) h =
        (rw (← same) (All-Permᴰ (λ z. clash x z ≡ false) xs ys p h.0), Apart-Permᴰ xs ys p h.1)
    Apart-Permᴰ (a ∷ b ∷ xs) _ (Permᴰ.swap {a' = a'} {b' = b'} e f) h =
        subst (λ c. Apart clash (c ∷ b' ∷ xs)) f
          (subst (λ c. Apart clash (b ∷ c ∷ xs)) e ((sym_clash b a ∙ h.0.0, h.1.0), (h.0.1, h.1.1)))
    Apart-Permᴰ xs zs (Permᴰ.trans {l₂ = ys} p q) h = Apart-Permᴰ ys zs q (Apart-Permᴰ xs ys p h)

    module _ (precedes : A → A → Bool)
        (total : (x y : A) → precedes x y ≡ false → precedes y x ≡ true)
        (transitive : (x y z : A) → precedes x y ≡ true → precedes y z ≡ true → precedes x z ≡ true)
        (strict : (x y : A) → clash x y ≡ false → precedes x y ≡ true → precedes y x ≡ false) where
      insert_by_comm :
          (x y : A) (zs : List A)
          → clash x y ≡ false
          → insert_by precedes x (insert_by precedes y zs)
            ≡ insert_by precedes y (insert_by precedes x zs)
      unfolding insert_by
      insert_by_comm x y [] apart = ground (arith, total x y, strict x y apart)
      insert_by_comm x y (z ∷ zs) apart = ground (
        arith,
        insert_by_comm x y zs apart,
        total x y,
        strict x y apart,
        transitive x y z,
        transitive y x z,
      )

      -- The order of rows that do not tie is the same, in whatever order they came.
      pub order_by-Permᴰ :
          (xs ys : List A)
          → Permᴰ xs ys
          → Apart clash xs
          → order_by precedes xs ≡ order_by precedes ys
      unfolding order_by
      order_by-Permᴰ _ _ Permᴰ.nil h = refl
      order_by-Permᴰ (x ∷ xs) (y ∷ ys) (Permᴰ.cons same p) h =
          rw (same, order_by-Permᴰ xs ys p h.1) refl
      order_by-Permᴰ (a ∷ b ∷ xs) _ (Permᴰ.swap e f) h =
          rw (← e, ← f) (insert_by_comm a b (order_by precedes xs) h.0.0)
      order_by-Permᴰ xs zs (Permᴰ.trans {l₂ = ys} p q) h =
          order_by-Permᴰ xs ys p h ∙ order_by-Permᴰ ys zs q (Apart-Permᴰ xs ys p h)

  pub nil-Permᴰ : (xs ys : List A) → Permᴰ xs ys → ys ≡ [] → xs ≡ []
  nil-Permᴰ _ _ Permᴰ.nil e = refl
  nil-Permᴰ (x ∷ xs) (y ∷ ys) (Permᴰ.cons same p) e = cc
  nil-Permᴰ (a ∷ b ∷ xs) _ (Permᴰ.swap _ _) e = cc
  nil-Permᴰ xs zs (Permᴰ.trans {l₂ = ys} p q) e = nil-Permᴰ xs ys p (nil-Permᴰ ys zs q e)

  -- One row has one order.
  pub one-Permᴰ : (r : A) (xs ys : List A) → Permᴰ xs ys → ys ≡ r ∷ [] → xs ≡ r ∷ []
  one-Permᴰ r _ _ Permᴰ.nil e = e
  one-Permᴰ r (x ∷ xs) (y ∷ ys) (Permᴰ.cons same p) e =
      let first : y ≡ r = cc in
      let rest : ys ≡ [] = cc in rw (nil-Permᴰ xs ys p rest, same, first) refl
  one-Permᴰ r (a ∷ b ∷ xs) _ (Permᴰ.swap _ _) e = cc
  one-Permᴰ r xs zs (Permᴰ.trans {l₂ = ys} p q) e = one-Permᴰ r xs ys p (one-Permᴰ r ys zs q e)
