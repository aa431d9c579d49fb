-- ===== src/Examples/Blocking.antt =====
-- A run of lint, test, build in which lint has failed.
use brazier.Base.{Text, text, ◌==◌, ==_iff, ◌≡◌, refl, true, false, List, [], ◌∷◌, contains, arith}
use brazier.Db
use brazier.Db.{NodeState, RunState, Tables, find_node}
use brazier.Pipeline.Scheduler.{World, advance}
use brazier.Pipeline.Scheduler.Dispatches.{Request, recorder}
use brazier.Pipeline.Scheduler.Snapshot.{state_in}
use brazier.Pipeline.Manager.{node_completed}
use brazier.Pipeline.Manager.Completion.{run_state_in}
use brazier.Pipeline.Manager.Waiting.{Waits}
use brazier.Pipeline.Manager.Blocked.{IsBlocked, advanced, completed, here, later, Steps-IsBlocked}
use brazier.Examples.{linear, on_main, row, run, steady, accepts_all}

abbrev failed_lint : Tables
failed_lint = record {
  runs = run ∷ [];
  nodes =
      row (text "build") NodeState.pending
      ∷ row (text "test") NodeState.pending
      ∷ row (text "lint") NodeState.failed
      ∷ [];
  log_chunks = [];
  next_log = 1;
}

abbrev stuck : World (List Request)
stuck = record {
  store = record { tables = failed_lint; calls = 0 };
  dispatcher = [];
  published = [];
}

abbrev next : World (List Request)
next = advance steady (recorder accepts_all) (text "r") on_main linear stuck

abbrev last : World (List Request)
last = (node_completed steady (text "r") (text "build") true next).1

absurd_of : {A : Type 0} (id : Text) → id ≡ text "test" → id == text "test" ≡ false → A
absurd_of id same other = let equal = (==_iff id (text "test")).1 same in cc

test-Waits : Waits (text "lint") (text "test") linear.nodes
unfolding contains text ◌==◌
test-Waits = (
  λ same. absurd_of (text "build") same refl,
  (λ same. refl, (λ same. absurd_of (text "lint") same refl, tt)),
)

stuck-IsBlocked : IsBlocked (text "r") (text "lint") (text "test") stuck
unfolding find_node text ◌==◌ state_in run_state_in Db.get_node Db.get_run Db.find_run
stuck-IsBlocked = record {
  keyed = record {
    nodes = (refl, (refl, (refl, tt)));
    runs = (refl, tt);
    ascending = tt;
    below = tt;
    counted = omega arith;
  };
  failed = refl;
  waiting = refl;
  unfinished = refl;
}

differs : (text "build" == text "lint" ≡ false) × (text "build" == text "test" ≡ false)
unfolding text ◌==◌
differs = (refl, refl)

Steps-IsBlocked_example : IsBlocked (text "r") (text "lint") (text "test") last
Steps-IsBlocked_example =
    Steps-IsBlocked (text "r") (text "lint") (text "test") linear test-Waits stuck last
      (later (advanced steady (recorder accepts_all) on_main stuck)
        (later (completed steady (text "build") true next differs.0 differs.1) here))
      stuck-IsBlocked
