-- ===== src/Master.antt =====
-- cmd/master/main.go: what the master builds its parts from, and what a webhook starts.
-- `registryDispatcher` is in Registry.
pub mod Webhooks
pub mod Process
use brazier.Base.{ℕ, Text, text, Option, none, some, List, [], ◌∷◌}
use brazier.Proto.{PipelineSpec}
use brazier.Db.Store.{Env}
use brazier.Pipeline.Conditions.{RunContext}
use brazier.Pipeline.Scheduler.{World}
use brazier.Pipeline.Manager
use brazier.Pipeline.Manager.{Reply}
use brazier.Config
use brazier.Config.{Files, load_optional}
use brazier.Webhook.{TriggerEvent, Codecs, Request, Status, serve_http}

-- `configPath`, from BRAZIER_CONFIG.
abbrev pub config_path : Text → Text
config_path [] = text "brazier.yaml"
config_path (c ∷ cs) = c ∷ cs

-- Which database is opened.
pub data Backend : Type 0 where
  postgres sqlite : Text → Backend

abbrev pub store_backend : (database_url sqlite_path : Text) → Backend
store_backend [] sqlite_path = sqlite sqlite_path
store_backend (c ∷ cs) sqlite_path = postgres (c ∷ cs)

-- The store that is opened for the configuration, which may not be read or parsed.
abbrev pub configured_store : (database_url : Text) → Config.Reply → Option Backend
configured_store database_url (Config.config c) = some (store_backend database_url c.db.sqlite_path)
configured_store database_url Config.read_failed = none
configured_store database_url Config.parse_failed = none

unfoldable pub chosen_store : Files → (brazier_config database_url : Text) → Option Backend
chosen_store files brazier_config database_url =
    configured_store database_url (load_optional files (config_path brazier_config))

abbrev pub context_of : TriggerEvent → RunContext
context_of e = record { branch = e.branch; tag = e.tag; event = e.event }

-- `&pb.PipelineSpec{}`
abbrev pub empty_spec : PipelineSpec
empty_spec = record { workflow = none; nodes = [] }

module _ {S : Type 0} (env : Env) where
  -- The function that `webhook.New` is given. An error of `Start` is logged. `Start` ends with
  -- `go Advance` for the returned context.
  unfoldable pub start_from_webhook :
      (run_id : Text) (now : ℕ) → TriggerEvent → World S → Reply Text × World S
  start_from_webhook run_id now e w = Manager.start env run_id e.project now empty_spec w

  -- A request to "/webhook": the status, the context of the run if one was started, and the world.
  abbrev pub run_trigger :
      (run_id : Text) (now : ℕ) → Option TriggerEvent → World S → Option RunContext × World S
  run_trigger run_id now none w = (none, w)
  run_trigger run_id now (some e) w = (some (context_of e), (start_from_webhook run_id now e w).1)

  unfoldable pub handle_webhook :
      Codecs
      → (secret run_id : Text) → (now : ℕ) → Request
      → World S
      → Status × Option RunContext × World S
  handle_webhook codecs secret run_id now r w =
      let (status, event) = serve_http codecs secret r in
      let (rc, w') = run_trigger run_id now event w in (status, rc, w')
