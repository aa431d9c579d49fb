-- ===== src/Base/Lists.antt =====
-- Lists by Boolean tests: sets of texts as lists, counting, and predicates on all elements.
use Prim.Native.Nat.{ℕ, suc}
use mathlib.Core.Path.{◌≡◌, refl, sym, subst}
use mathlib.Core.Logic.{◌⊎◌, inl, inr}
use mathlib.Core.Bool.{Bool, true, false, ◌&&◌, ◌||◌}
use mathlib.Core.List.{List, [], ◌∷◌, ◌++◌}
use native.Mathlib.Omega.{arith}
use brazier.Base.Tests.{if◌then◌else◌}
use brazier.Base.Strings.{Text, ◌==◌, ==_iff, ==_refl}

module _ {ℓ} {A : Type ℓ} where
  abbrev pub length : List A → ℕ
  length [] = 0
  length (x ∷ xs) = suc (length xs)

  abbrev pub All {κ} : (A → Type κ) → List A → Type κ
  All P [] = Unit
  All P (x ∷ xs) = P x × All P xs

  abbrev pub all : (A → Bool) → List A → Bool
  all p [] = true
  all p (x ∷ xs) = p x && all p xs

  abbrev pub any : (A → Bool) → List A → Bool
  any p [] = false
  any p (x ∷ xs) = p x || any p xs

  abbrev pub count_p : (A → Bool) → List A → ℕ
  count_p p [] = 0
  count_p p (x ∷ xs) = if p x then suc (count_p p xs) else count_p p xs

  abbrev pub keep : (A → Bool) → List A → List A
  keep p [] = []
  keep p (x ∷ xs) = let rest = keep p xs in if p x then x ∷ rest else rest

  pub all-append : (p : A → Bool) (xs ys : List A) → all p (xs ++ ys) ≡ (all p xs && all p ys)
  all-append p [] ys = refl
  all-append p (x ∷ xs) ys = ground (arith, all-append p xs ys)

  pub keep-append : (p : A → Bool) (xs ys : List A) → keep p (xs ++ ys) ≡ keep p xs ++ keep p ys
  keep-append p [] ys = refl
  keep-append p (x ∷ xs) ys = ground (arith, keep-append p xs ys)

-- The element stands in the list.
abbrev pub Among : {A : Type 0} → A → List A → Type 0
Among a [] = ⊥
Among a (x ∷ xs) = (a ≡ x) ⊎ Among a xs

-- A Go set `map[string]bool` as the list of its keys.
unfoldable pub contains : Text → List Text → Bool
contains x [] = false
contains x (y ∷ ys) = x == y || contains x ys

pub contains-append :
    (x : Text) (xs ys : List Text) → contains x (xs ++ ys) ≡ (contains x xs || contains x ys)
unfolding contains
contains-append x [] ys = refl
contains-append x (y ∷ xs) ys = ground (arith, contains-append x xs ys)

-- `delete(set, x)`
unfoldable pub delete : Text → List Text → List Text
delete x [] = []
delete x (y ∷ ys) = let rest = delete x ys in if x == y then rest else y ∷ rest

pub delete-absent : (x : Text) (ys : List Text) → contains x ys ≡ false → delete x ys ≡ ys
unfolding delete contains
delete-absent x [] h = refl
delete-absent x (y ∷ ys) h = ground (arith, delete-absent x ys)

pub contains-cons :
    (x y : Text) (ys : List Text) → contains x (y ∷ ys) ≡ true → (x ≡ y) ⊎ (contains x ys ≡ true)
unfolding contains
contains-cons x y ys h = ground (arith, ==_iff x y)

pub contains_self : (x : Text) (ys : List Text) → contains x (x ∷ ys) ≡ true
unfolding contains
contains_self x ys = rw (==_refl x)

pub contains-cons_of :
    (x y : Text) (ys : List Text) → contains x ys ≡ true → contains x (y ∷ ys) ≡ true
unfolding contains
contains-cons_of x y ys h = ground arith

pub contains-snoc :
    (x y : Text) (ys : List Text)
    → contains x (ys ++ y ∷ []) ≡ true
    → (contains x ys ≡ true) ⊎ (x ≡ y)
unfolding contains
contains-snoc x y ys h = ground (arith, contains-append x ys (y ∷ []), ==_iff x y)

pub All-append {ℓ κ} :
    {A : Type ℓ} (P : A → Type κ) (xs ys : List A) → All P xs → All P ys → All P (xs ++ ys)
All-append P [] ys h k = k
All-append P (x ∷ xs) ys h k = (h.0, All-append P xs ys h.1 k)

pub All-snoc {ℓ κ} :
    {A : Type ℓ} (P : A → Type κ) (xs : List A) (x : A) → All P xs → P x → All P (xs ++ x ∷ [])
All-snoc P xs x h p = All-append P xs (x ∷ []) h (p, tt)

pub contains-append_left :
    (x : Text) (xs ys : List Text) → contains x xs ≡ true → contains x (xs ++ ys) ≡ true
contains-append_left x xs ys h = ground (arith, contains-append x xs ys)

pub contains-last : (x : Text) (ys : List Text) → contains x (ys ++ x ∷ []) ≡ true
contains-last x ys = ground (arith, contains-append x ys (x ∷ []), contains_self x [])

pub delete-cons_self : (x : Text) (ys : List Text) → contains x ys ≡ false → delete x (x ∷ ys) ≡ ys
unfolding delete
delete-cons_self x ys h = rw (==_refl x) (delete-absent x ys h)

pub All-weaken {ℓ κ μ} :
    {A : Type ℓ} (P : A → Type κ) (Q : A → Type μ) (xs : List A)
    → ((x : A) → P x → Q x)
    → All P xs
    → All Q xs
All-weaken P Q [] f h = tt
All-weaken P Q (x ∷ xs) f h = (f x h.0, All-weaken P Q xs f h.1)

pub All-Among {κ} :
    {A : Type 0} (P : A → Type κ) (xs : List A) (x : A) → All P xs → Among x xs → P x
All-Among P [] x h among = elim among [ ]
All-Among P (y ∷ ys) x h (inl same) = subst P (sym same) h.0
All-Among P (y ∷ ys) x h (inr among) = All-Among P ys x h.1 among
