-- ===== src/Examples/Scheduling.antt =====
-- `Advance` and `NodeCompleted` at a run of the pipeline lint, test, build.
use brazier.Base.{text, ◌==◌, ◌≡◌, refl, false, List, ◌++◌, All, if◌then◌else◌}
use brazier.Pipeline.Scheduler.{advance}
use brazier.Pipeline.Scheduler.Steps.{shown, decided, or_else}
use brazier.Pipeline.Scheduler.Refinement.{advance-decided}
use brazier.Pipeline.Scheduler.Lifecycle.{Moves, advance-Moves}
use brazier.Pipeline.Scheduler.Dispatches.{recorder, ready, requests}
use brazier.Pipeline.Scheduler.Passes.{
  states, ready_nodes, pass, Requested, overlapping, advance_dispatches_all,
  advance_overlapping_dispatches_twice, advance_advance_not_ready,
}
use brazier.Examples.{linear, on_main, steady, world, accepts_all, half_done-IsKeyed}

advance-decided_example :
    shown steady
      (recorder accepts_all)
      (text "r")
      (text "r")
      (text "test")
      (advance steady (recorder accepts_all) (text "r") on_main linear world)
    ≡ (if text "r" == text "r"
        then or_else
            (decided on_main
              (λ i. shown steady (recorder accepts_all) (text "r") (text "r") i world)
              linear.nodes
              (text "test"))
            (shown steady (recorder accepts_all) (text "r") (text "r") (text "test") world)
        else shown steady (recorder accepts_all) (text "r") (text "r") (text "test") world)
advance-decided_example =
    advance-decided steady (recorder accepts_all) (text "r") (λ k. refl) on_main linear world
      (text "r") (text "test") half_done-IsKeyed

advance-Moves_example :
    Moves (shown steady (recorder accepts_all) (text "r") (text "r") (text "lint") world) (
      shown steady
        (recorder accepts_all)
        (text "r")
        (text "r")
        (text "lint")
        (advance steady (recorder accepts_all) (text "r") on_main linear world))
advance-Moves_example =
    advance-Moves steady (recorder accepts_all) (text "r") on_main linear world (text "r")
      (text "lint") half_done-IsKeyed

advance_dispatches_all_example :
    Requested steady accepts_all
      (text "r")
      on_main
      (ready_nodes steady accepts_all (text "r") on_main world linear.nodes)
      world
      (pass steady accepts_all (text "r") on_main linear world)
advance_dispatches_all_example =
    advance_dispatches_all steady accepts_all (text "r") on_main linear world (λ k. refl)
      half_done-IsKeyed

advance_overlapping_dispatches_twice_example :
    (overlapping steady accepts_all (text "r") on_main linear world).dispatcher
    ≡ (world.dispatcher
        ++ requests
            (text "r")
            (ready_nodes steady accepts_all (text "r") on_main world linear.nodes))
      ++ requests (text "r") (ready_nodes steady accepts_all (text "r") on_main world linear.nodes)
advance_overlapping_dispatches_twice_example =
    advance_overlapping_dispatches_twice steady accepts_all (text "r") on_main linear world
      (λ k. refl)

not_ready_again :
    All
      (λ n.
        ready on_main
          (states steady accepts_all
            (text "r")
            on_main
            (pass steady accepts_all (text "r") on_main linear world))
          n
        ≡ false)
      (ready_nodes steady accepts_all (text "r") on_main world linear.nodes)
not_ready_again =
    advance_advance_not_ready steady accepts_all (text "r") on_main linear world (λ k. refl)
      half_done-IsKeyed
