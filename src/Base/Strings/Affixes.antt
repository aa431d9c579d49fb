-- ===== src/Base/Strings/Affixes.antt =====
-- What the prefix and suffix functions of `strings` decide and remove.
use mathlib.Core.Path.{◌≡◌, refl, sym, ap, ◌∙◌}
use mathlib.Core.Logic.{◌↔◌}
use mathlib.Core.Bool.{true}
use mathlib.Core.Option.{some}
use mathlib.Core.List.{[], ◌∷◌, ◌++◌, reverse, reverse-append, reverse-reverse}
use native.Mathlib.Omega.{arith}
use brazier.Base.Tests.{nat_eq_iff}
use brazier.Base.Strings.{Text, ◌==◌, cut_prefix, has_prefix, trim_prefix, has_suffix, trim_suffix}

pub ==_append : (s x y : Text) → (s ++ x == s ++ y) ≡ (x == y)
unfolding ◌==◌
==_append [] x y = refl
==_append (c ∷ s) x y = rw ((nat_eq_iff c c).1 refl) (==_append s x y)

pub cut_prefix-append : (p r : Text) → cut_prefix (p ++ r) p ≡ some r
unfolding cut_prefix
cut_prefix-append [] r = refl
cut_prefix-append (c ∷ p) r = rw ((nat_eq_iff c c).1 refl) (cut_prefix-append p r)

pub cut_prefix-eq-some : (s p r : Text) → cut_prefix s p ≡ some r → s ≡ p ++ r
unfolding cut_prefix
cut_prefix-eq-some s [] r h = cc
cut_prefix-eq-some [] (d ∷ p) r h = cc
cut_prefix-eq-some (c ∷ s) (d ∷ p) r h = ground (arith, cut_prefix-eq-some s p r)

cut_prefix-IsSome : (s p : Text) → has_prefix s p ≡ true → (r : Text) × (cut_prefix s p ≡ some r)
unfolding has_prefix
cut_prefix-IsSome s p h = ground arith

pub has_prefix_iff : (s p : Text) → (has_prefix s p ≡ true) ↔ ((r : Text) × (s ≡ p ++ r))
unfolding has_prefix
has_prefix_iff s p = (
  λ h. let (r, found) = cut_prefix-IsSome s p h in (r, cut_prefix-eq-some s p r found),
  λ (r, e). rw e (ground (arith, cut_prefix-append p r)),
)

pub trim_prefix-append : (p r : Text) → trim_prefix (p ++ r) p ≡ r
unfolding trim_prefix
trim_prefix-append p r = ground (arith, cut_prefix-append p r)

pub trim_suffix-append : (p r : Text) → trim_suffix (r ++ p) p ≡ r
unfolding trim_suffix
trim_suffix-append p r = simp (reverse-append, trim_prefix-append, reverse-reverse)

pub has_suffix_iff : (s p : Text) → (has_suffix s p ≡ true) ↔ ((r : Text) × (s ≡ r ++ p))
unfolding has_suffix
has_suffix_iff s p = (
  λ h.
      let (r, e) = (has_prefix_iff (reverse s) (reverse p)).0 h in
      (reverse r, sym (reverse-reverse s) ∙ ap reverse e ∙ simp (reverse-append, reverse-reverse)),
  λ (r, e).
      (has_prefix_iff (reverse s) (reverse p)).1 (reverse r, ap reverse e ∙ reverse-append r p),
)
