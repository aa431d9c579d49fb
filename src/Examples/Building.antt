-- ===== src/Examples/Building.antt =====
-- The SDK and the conditions at small inputs.
use brazier.Base.{
  text, ◌==◌, ◌≡◌, refl, ◌↔◌, true, false, [], ◌∷◌, map, cut_prefix, has_prefix, trim_prefix,
  has_suffix, trim_suffix, is_space, trim_left, trim_space, split_at_first,
}
use brazier.Pipeline.Conditions.{match_glob, eval_key, eval_condition, eval_conditions}
use brazier.Sdk.Conditions.{branch, tag, render, AllHold, eval_conditions-render_iff}
use brazier.Examples.{on_main}

running : Unit {0}
unfolding eval_conditions eval_condition eval_key match_glob split_at_first cut_prefix has_prefix
    trim_prefix has_suffix trim_suffix trim_space trim_left is_space text ◌==◌
running = tt

-- The cases of `TestConditionEvalBranch`, with the event of a push.
conditions_on_main :
    (eval_conditions (text "branch == main" ∷ []) on_main ≡ true)
    × (eval_conditions (text "branch == dev" ∷ []) on_main ≡ false)
    × (eval_conditions [] on_main ≡ true)
    × (eval_conditions (text "event == pull_request" ∷ text "branch == main" ∷ []) on_main ≡ false)
unfolding running
conditions_on_main = (refl, refl, refl, refl)

globs_of_tags :
    (match_glob (text "v*") (text "v1.0") ≡ true)
    × (match_glob (text "*-rc") (text "v1-rc") ≡ true)
    × (match_glob (text "v*") (text "1.0") ≡ false)
unfolding running
globs_of_tags = (refl, refl, refl)

eval_conditions-render_iff_example :
    (eval_conditions (map render (branch (text "main") ∷ tag (text "v*") ∷ [])) on_main ≡ true)
    ↔ AllHold on_main (branch (text "main") ∷ tag (text "v*") ∷ [])
eval_conditions-render_iff_example =
    eval_conditions-render_iff (branch (text "main") ∷ tag (text "v*") ∷ []) on_main
