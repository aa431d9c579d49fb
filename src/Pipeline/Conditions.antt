-- ===== src/Pipeline/Conditions.antt =====
-- The conditions of a node: internal/pipeline/scheduler.go, and the `RunContext` of run.go.
pub mod Globs
use brazier.Base.{
  Text, text, ◌==◌, has_prefix, trim_prefix, has_suffix, trim_suffix, trim_space, split_at_first,
  Bool, true, false, ◌&&◌, Option, none, some, List, [], ◌∷◌, if◌then◌else◌,
}
use brazier.Proto.{Node, conditions_of}

pub record RunContext : Type 0 where
  pub branch : Text
  pub tag : Text
  pub event : Text

unfoldable pub match_glob : Text → Text → Bool
match_glob pattern s =
    if pattern == text "*"
    then true
    else if has_suffix pattern (text "*")
    then has_prefix s (trim_suffix pattern (text "*"))
    else if has_prefix pattern (text "*")
    then has_suffix s (trim_prefix pattern (text "*"))
    else pattern == s

-- The switch of `evalCondition`. A warning is logged for an unknown key.
unfoldable pub eval_key : Text → Text → RunContext → Bool
eval_key key val rc =
    if key == text "branch"
    then rc.branch == val
    else if key == text "tag"
    then match_glob val rc.tag
    else if key == text "event"
    then rc.event == val
    else false

unfoldable pub eval_condition : Text → RunContext → Bool
eval_condition cond rc = elim (split_at_first cond (text " == ")) [
  | none ↦ false
  | some (key, val) ↦ eval_key (trim_space key) (trim_space val) rc
]

unfoldable pub eval_conditions : List Text → RunContext → Bool
eval_conditions [] rc = true
eval_conditions (cond ∷ conditions) rc = eval_condition cond rc && eval_conditions conditions rc

unfoldable pub node_passes_conditions : Node → RunContext → Bool
node_passes_conditions n rc = eval_conditions (conditions_of n) rc
