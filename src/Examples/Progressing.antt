-- ===== src/Examples/Progressing.antt =====
-- Runs that come to an end, and a run that does not.
use brazier.Base.{
  text, ◌==◌, ◌≡◌, refl, true, none, some, List, [], ◌∷◌, All, contains, split_at_first, cut_prefix,
  trim_space, trim_left, is_space, delete,
}
use brazier.Proto.{node, job, id_of, PipelineSpec}
use brazier.Db
use brazier.Db.{NodeState, RunState}
use brazier.Bus.{trigger_received}
use brazier.Pipeline.Conditions.{eval_conditions, eval_condition, eval_key}
use brazier.Pipeline.Scheduler.{World, lets_through, advance}
use brazier.Pipeline.Scheduler.Dispatches.{Request, recorder}
use brazier.Pipeline.Scheduler.Snapshot.{state_in}
use brazier.Pipeline.TopoSort.{ok, topo_sort, visit, visit_each, leave, by_id}
use brazier.Pipeline.Manager
use brazier.Pipeline.Manager.Completion.{run_state_in}
use brazier.Pipeline.Manager.Idle.{NonePasses, here, later, start_idle}
use brazier.Pipeline.Manager.Success.{start_succeeds}
use brazier.Pipeline.Progress.{rounds}
use brazier.Pipeline.Progress.Finish.{start-rounds}
use brazier.Examples.{
  linear, build, test, lint, echo, spec_of, on_main, world, half_done, steady, accepts_all,
  half_done-IsKeyed,
}

no_run : Db.get_run (text "q") half_done ≡ none
unfolding Db.get_run Db.find_run text ◌==◌
no_run = refl

linear_sorted : topo_sort linear ≡ ok (lint ∷ test ∷ build ∷ [])
unfolding topo_sort visit visit_each leave by_id contains delete text ◌==◌
linear_sorted = refl

-- Three rounds for the three jobs, one after the other.
start-rounds_example :
    let started = (Manager.start steady (text "q") (text "org/repo") 3 linear world).1 in
    let after = rounds steady (recorder accepts_all) (text "q") on_main linear 3 started in
    All (λ n. lets_through (state_in (text "q") (id_of n) after.store.tables) ≡ true) linear.nodes
start-rounds_example =
    start-rounds steady (recorder accepts_all) (text "q") (text "org/repo") 3 on_main linear
      (lint ∷ test ∷ build ∷ []) world (λ k. refl) half_done-IsKeyed no_run linear_sorted

-- Two jobs for another branch, one behind the other.
abbrev release : PipelineSpec
release = spec_of (
    node (text "sign") [] (text "branch == release" ∷ []) (job echo)
    ∷ node (text "ship") (text "sign" ∷ []) (text "branch == release" ∷ []) (job echo)
    ∷ [])

on_main-NonePasses : NonePasses on_main release
unfolding eval_conditions eval_condition eval_key text split_at_first cut_prefix trim_space
    trim_left is_space ◌==◌
on_main-NonePasses = (refl, (refl, tt))

abbrev begun : World (List Request)
begun = (Manager.start steady (text "q") (text "org/repo") 3 release world).1

started_ok :
    (Manager.start steady (text "q") (text "org/repo") 3 release world).0 ≡ Manager.ok (text "q")
started_ok = start_succeeds steady (text "q") (text "org/repo") 3 release (λ k. refl) world no_run

abbrev twice : World (List Request)
twice =
    advance steady (recorder accepts_all) (text "q") on_main release
      (advance steady (recorder accepts_all) (text "q") on_main release begun)

start_idle_example :
    (run_state_in (text "q") twice.store.tables ≡ some RunState.running)
    × (twice.dispatcher ≡ [])
    × (twice.published ≡ record { type = trigger_received; payload = text "q" } ∷ [])
start_idle_example =
    start_idle (text "q") steady (text "org/repo") 3 release world twice started_ok (
      later steady (recorder accepts_all) on_main begun on_main-NonePasses (
        later steady (recorder accepts_all) on_main
          (advance steady (recorder accepts_all) (text "q") on_main release begun)
          on_main-NonePasses here))
