-- ===== src/Base/Strings/Splitting.antt =====
-- What `strings.SplitN(s, sep, 2)` returns.
use mathlib.Core.Path.{◌≡◌, refl}
use mathlib.Core.Logic.{◌≢◌}
use mathlib.Core.Option.{none, some}
use mathlib.Core.List.{[], ◌∷◌, ◌++◌}
use native.Mathlib.Omega.{arith}
use brazier.Base.Strings.{Text, split_at_first}
use brazier.Base.Strings.Affixes.{cut_prefix-append, cut_prefix-eq-some}

-- The two parts and the separator between them make up the text.
pub split_at_first-eq-some :
    (s sep before after : Text)
    → split_at_first s sep ≡ some (before, after)
    → s ≡ before ++ (sep ++ after)
unfolding split_at_first
split_at_first-eq-some [] sep before after h = cc
split_at_first-eq-some (c ∷ s) sep before after h =
    grind (arith, cut_prefix-eq-some, split_at_first-eq-some s)

-- Where no part is returned, the separator stands nowhere in the text.
pub split_at_first-eq-none :
    (before sep after : Text) → sep ≢ [] → split_at_first (before ++ (sep ++ after)) sep ≢ none
unfolding split_at_first
split_at_first-eq-none [] [] after ne h = ne refl
split_at_first-eq-none [] (d ∷ sep) after ne h = ground (arith, cut_prefix-append (d ∷ sep) after)
split_at_first-eq-none (c ∷ before) sep after ne h =
    ground (arith, split_at_first-eq-none before sep after ne)
