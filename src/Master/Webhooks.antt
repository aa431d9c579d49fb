-- ===== src/Master/Webhooks.antt =====
-- What becomes of a run that a webhook starts.
use brazier.Base.{ℕ, Text, ◌≡◌, some, [], ◌∷◌, ◌++◌}
use brazier.Db.{RunState}
use brazier.Db.Store.{Env}
use brazier.Bus.{trigger_received}
use brazier.Pipeline.Scheduler.{World}
use brazier.Pipeline.Manager.{ok}
use brazier.Pipeline.Manager.Completion.{run_state_in}
use brazier.Pipeline.Manager.Idle.{Advances, start_idle}
use brazier.Webhook.{TriggerEvent, Codecs, Request, serve_http}
use brazier.Master.{empty_spec, start_from_webhook, handle_webhook}

module _ {S : Type 0} (run_id : Text) where
  module _ (env : Env) (now : ℕ) where
    -- Where a request to the webhook triggers a run and `Start` replies ok, the run has no node:
    -- whatever calls of `Advance` for it follow, with any failures, no job of it is dispatched,
    -- `trigger_received` stays its only event, and it stays running.
    pub handle_webhook_idle :
        (codecs : Codecs) (secret : Text) (r : Request) (e : TriggerEvent) (w v : World S)
        → (serve_http codecs secret r).1 ≡ some e
        → (start_from_webhook env run_id now e w).0 ≡ ok run_id
        → Advances run_id empty_spec (handle_webhook env codecs secret run_id now r w).2 v
        → (run_state_in run_id v.store.tables ≡ some RunState.running)
          × (v.dispatcher ≡ w.dispatcher)
          × (v.published ≡ w.published ++ record { type = trigger_received; payload = run_id } ∷ [])
    unfolding handle_webhook start_from_webhook
    handle_webhook_idle codecs secret r e w v accepted replied steps =
        start_idle run_id env e.project now empty_spec w v replied (rw accepted at steps)
