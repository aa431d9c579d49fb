-- ===== src/Examples/Starting.antt =====
-- Runs that are started, by hand and by a webhook.
use brazier.Base.{keep, Text, text, ◌==◌, ◌≡◌, refl, some, none, List, [], ◌∷◌, map}
use brazier.Db
use brazier.Db.{RunState}
use brazier.Bus
use brazier.Bus.{EventType, Event, trigger_received, run_completed, same_type}
use brazier.Bus.Delivery.{subscribe_all, subscribers, publish-subscribe_all}
use brazier.Pipeline.Scheduler.{advance}
use brazier.Proto.{id_of}
use brazier.Pipeline.Conditions.{eval_conditions}
use brazier.Pipeline.Scheduler.Snapshot.{state_in}
use brazier.Pipeline.Scheduler.Dispatches.{recorder, requests, announced}
use brazier.Pipeline.Scheduler.Passes.{pass}
use brazier.Pipeline.Manager.Launch.{is_root, started, advance-start}
use brazier.Pipeline.Manager
use brazier.Pipeline.Manager.{ok}
use brazier.Pipeline.Manager.Completion.{run_state_in}
use brazier.Pipeline.Manager.Starting.{Started, start-Started}
use brazier.Pipeline.Manager.Success.{start_succeeds}
use brazier.Master.{empty_spec, start_from_webhook, handle_webhook}
use brazier.Pipeline.Manager.Idle.{here, later}
use brazier.Master.Webhooks.{handle_webhook_idle}
use brazier.Examples.{linear, on_main, world, half_done, steady, accepts_all, half_done-IsKeyed}
use brazier.Examples.Admitting.{open_codecs, push, main_event, main_pushed}

start-Started_example :
    Started steady
      (text "q")
      (text "org/repo")
      3
      linear
      world
      (Manager.start steady (text "q") (text "org/repo") 3 linear world)
start-Started_example = start-Started steady (text "q") (text "org/repo") 3 linear world

no_run : Db.get_run (text "q") half_done ≡ none
unfolding Db.get_run Db.find_run text ◌==◌
no_run = refl

no_nodes : (id : Text) → state_in (text "q") id half_done ≡ none
unfolding state_in Db.get_node Db.find_node text ◌==◌
no_nodes id = refl

-- Only lint depends on no node.
roots : map id_of (keep (is_root on_main) linear.nodes) ≡ text "lint" ∷ []
unfolding eval_conditions
roots = refl

advance-start_example :
    let after =
      pass steady accepts_all
        (text "q")
        on_main
        linear
        (started steady accepts_all (text "q") (text "org/repo") 3 linear on_main world) in
    let sent = requests (text "q") (keep (is_root on_main) linear.nodes) in
    (after.dispatcher ≡ sent)
    × (after.published
        ≡ record { type = trigger_received; payload = text "q" } ∷ announced accepts_all sent)
advance-start_example =
    advance-start steady accepts_all (text "q") (text "org/repo") 3 linear on_main world (λ k. refl)
      half_done-IsKeyed no_run no_nodes

started_ok :
    (Manager.start steady (text "q") (text "org/repo") 3 empty_spec world).0 ≡ ok (text "q")
started_ok =
    start_succeeds steady (text "q") (text "org/repo") 3 empty_spec (λ k. refl) world no_run

-- One call of `Advance` after the webhook's run was started.
webhook_idle :
    let v =
      advance steady
        (recorder accepts_all)
        (text "q")
        on_main
        empty_spec
        (handle_webhook steady open_codecs (text "k") (text "q") 3 push world).2 in
    (run_state_in (text "q") v.store.tables ≡ some RunState.running)
    × (v.dispatcher ≡ [])
    × (v.published ≡ record { type = trigger_received; payload = text "q" } ∷ [])
unfolding start_from_webhook
webhook_idle =
    handle_webhook_idle (text "q") steady 3 open_codecs (text "k") push main_event world _
      main_pushed started_ok (later steady (recorder accepts_all) on_main _ tt here)

abbrev subscriptions : List (Text × List EventType)
subscriptions =
    (text "scheduler", run_completed ∷ [])
    ∷ (text "log", trigger_received ∷ run_completed ∷ trigger_received ∷ [])
    ∷ []

delivered : List (Text × Event)
delivered =
    Bus.publish (record { type = trigger_received; payload = text "q" })
      (subscribe_all subscriptions (Bus.new Text))

twice : map (λ (h, e). h) delivered ≡ text "log" ∷ text "log" ∷ []
unfolding delivered subscribe_all Bus.publish Bus.new Bus.subscribe
twice = refl

publish-subscribe_all_example :
    Bus.publish
      (record { type = trigger_received; payload = text "q" })
      (subscribe_all subscriptions (Bus.new Text))
    ≡ map
        (λ h. (h, record { type = trigger_received; payload = text "q" }))
        (subscribers trigger_received subscriptions)
publish-subscribe_all_example =
    publish-subscribe_all subscriptions (record { type = trigger_received; payload = text "q" })
