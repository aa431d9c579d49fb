-- ===== src/Base/Strings.antt =====
-- Texts as lists of code points, with the functions of Go's `strings` package that the program
-- calls. A Go string that is valid UTF-8 is such a list.
pub mod Affixes
pub mod Splitting
use Prim.Native.Nat.{ℕ, ◌≤◌}
use Prim.Native.Char.{code}
use Prim.Native.String.{String}
use mathlib.Core.Path.{◌≡◌, refl, ap}
use mathlib.Core.Logic.{◌↔◌}
use mathlib.Core.Bool.{Bool, true, false, ◌&&◌, ◌||◌}
use mathlib.Core.Option.{Option, none, some}
use mathlib.Core.List.{
  List, [], ◌∷◌, ◌++◌, reverse, append_assoc, append-nil, reverse-append, reverse-reverse,
}
use native.Mathlib.Omega.{arith}
use brazier.Base.Tests.{leb, nat_eq, nat_eq_iff, if◌then◌else◌}

abbrev pub Text : Type 0
Text = List ℕ

-- A quoted text, as code points.
unfoldable pub text : String → Text
text String.[] = []
text (String.◌∷◌ c s) = code c ∷ text s

infix 50 ◌==◌
unfoldable pub ◌==◌ : Text → Text → Bool
[] == [] = true
[] == (y ∷ ys) = false
(x ∷ xs) == [] = false
(x ∷ xs) == (y ∷ ys) = nat_eq x y && xs == ys

pub ==_iff : (s t : Text) → ((s == t) ≡ true) ↔ (s ≡ t)
unfolding ◌==◌
==_iff [] [] = ground arith
==_iff [] (y ∷ ys) = ground arith
==_iff (x ∷ xs) [] = ground arith
==_iff (x ∷ xs) (y ∷ ys) = ground (arith, ==_iff xs ys)

pub ==_refl : (s : Text) → (s == s) ≡ true
==_refl s = (==_iff s s).1 refl

-- `strings.CutPrefix`: what follows the prefix, if it is there.
unfoldable pub cut_prefix : Text → Text → Option Text
cut_prefix s [] = some s
cut_prefix [] (p ∷ ps) = none
cut_prefix (c ∷ s) (p ∷ ps) = if nat_eq c p then cut_prefix s ps else none

-- `strings.HasPrefix(s, prefix)`
unfoldable pub has_prefix : Text → Text → Bool
has_prefix s p = elim (cut_prefix s p) [ none ↦ false | some _ ↦ true ]

-- `strings.TrimPrefix(s, prefix)`
unfoldable pub trim_prefix : Text → Text → Text
trim_prefix s p = elim (cut_prefix s p) [ none ↦ s | some rest ↦ rest ]

-- `strings.HasSuffix(s, suffix)`
unfoldable pub has_suffix : Text → Text → Bool
has_suffix s p = has_prefix (reverse s) (reverse p)

-- `strings.TrimSuffix(s, suffix)`
unfoldable pub trim_suffix : Text → Text → Text
trim_suffix s p = reverse (trim_prefix (reverse s) (reverse p))

-- `unicode.IsSpace`
unfoldable pub is_space : ℕ → Bool
is_space c =
    (leb 9 c && leb c 13)
    || nat_eq c 32
    || nat_eq c 0x85
    || nat_eq c 0xa0
    || nat_eq c 0x1680
    || (leb 0x2000 c && leb c 0x200a)
    || nat_eq c 0x2028
    || nat_eq c 0x2029
    || nat_eq c 0x202f
    || nat_eq c 0x205f
    || nat_eq c 0x3000

unfoldable pub trim_left : Text → Text
trim_left [] = []
trim_left (c ∷ s) = if is_space c then trim_left s else c ∷ s

-- `strings.TrimSpace(s)`
unfoldable pub trim_space : Text → Text
trim_space s = reverse (trim_left (reverse (trim_left s)))

-- `strings.TrimRight(s, cutset)` for a cutset of one character
unfoldable pub trim_right : Text → ℕ → Text
trim_right [] cut = []
trim_right (c ∷ s) cut =
    let rest = trim_right s cut in
    elim rest [ [] ↦ if nat_eq c cut then [] else c ∷ [] | d ∷ t ↦ c ∷ d ∷ t ]

-- `strings.SplitN(s, sep, 2)` for a separator that is not empty: the parts around the first
-- occurrence, and `none` where Go returns the one part `s`.
unfoldable pub split_at_first : Text → Text → Option (Text × Text)
split_at_first [] sep = none
split_at_first (c ∷ s) sep =
    let later = split_at_first s sep in
    elim (cut_prefix (c ∷ s) sep) [
      | some rest ↦ some ([], rest)
      | none ↦ elim later [ none ↦ none | some (before, after) ↦ some (c ∷ before, after) ]
    ]
