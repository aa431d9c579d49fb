-- ===== src/Sdk/Conditions.antt =====
-- The conditions that the SDK writes are the conditions that the scheduler reads.
use brazier.Base.{
  Text, text, ◌==◌, ==_iff, cut_prefix, is_space, trim_left, trim_space, split_at_first, ◌≡◌, refl,
  ◌↔◌, [], ◌∷◌, List, true, arith, map,
}
use brazier.Pipeline.Conditions.{RunContext, match_glob, eval_key, eval_condition, eval_conditions}
use brazier.Pipeline.Conditions.Globs.{Globs, match_glob_iff}
use brazier.Sdk.{on_branch, on_tag, on_event}

-- The conditions that the SDK can build.
pub data Condition : Type 0 where
  branch tag event : Text → Condition

abbrev pub render : Condition → Text
render (branch name) = on_branch name
render (tag pattern) = on_tag pattern
render (event name) = on_event name

-- What a condition asks of a run. The scheduler trims the value, so the meaning does too.
abbrev pub Holds : RunContext → Condition → Type 0
Holds rc (branch name) = rc.branch ≡ trim_space name
Holds rc (tag pattern) = Globs (trim_space pattern) rc.tag
Holds rc (event name) = rc.event ≡ trim_space name

abbrev pub AllHold : RunContext → List Condition → Type 0
AllHold rc [] = Unit
AllHold rc (c ∷ cs) = Holds rc c × AllHold rc cs

computing : Unit {0}
unfolding on_branch on_tag on_event eval_condition eval_key split_at_first cut_prefix trim_space
    trim_left is_space text ◌==◌
computing = tt

module _ (value : Text) (rc : RunContext) where
  eval_condition-on_branch : eval_condition (on_branch value) rc ≡ (rc.branch == trim_space value)
  unfolding computing
  eval_condition-on_branch = refl

  eval_condition-on_tag : eval_condition (on_tag value) rc ≡ match_glob (trim_space value) rc.tag
  unfolding computing
  eval_condition-on_tag = refl

  eval_condition-on_event : eval_condition (on_event value) rc ≡ (rc.event == trim_space value)
  unfolding computing
  eval_condition-on_event = refl

eval_condition-render :
    (c : Condition) (rc : RunContext) → (eval_condition (render c) rc ≡ true) ↔ Holds rc c
eval_condition-render (branch name) rc =
    rw (eval_condition-on_branch name rc) (==_iff rc.branch (trim_space name))
eval_condition-render (tag pattern) rc =
    rw (eval_condition-on_tag pattern rc) (match_glob_iff (trim_space pattern) rc.tag)
eval_condition-render (event name) rc =
    rw (eval_condition-on_event name rc) (==_iff rc.event (trim_space name))

-- A node with conditions built by `OnBranch`, `OnTag` and `OnEvent` passes exactly when, for each of
-- them, the branch or the event of the run is the trimmed name, or the trimmed pattern globs the tag
-- of the run. The tag of a run that no tag has triggered is the empty text, so that `OnTag` holds
-- for it too where its pattern globs the empty text, as "*" does.
pub eval_conditions-render_iff :
    (cs : List Condition) (rc : RunContext)
    → (eval_conditions (map render cs) rc ≡ true) ↔ AllHold rc cs
unfolding eval_conditions
eval_conditions-render_iff [] rc = (λ _. tt, λ _. refl)
eval_conditions-render_iff (c ∷ cs) rc = (
  λ h. (
    (eval_condition-render c rc).0 (ground arith),
    (eval_conditions-render_iff cs rc).0 (ground arith),
  ),
  λ (here, rest).
      rw ((eval_condition-render c rc).1 here) ((eval_conditions-render_iff cs rc).1 rest),
)
