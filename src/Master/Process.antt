-- ===== src/Master/Process.antt =====
-- cmd/master/main.go: `main` and `run`, from the configuration to the end of the process. What
-- opening the database, listening and serving give are arguments.
use brazier.Base.{ℕ, Text, text, ◌==◌, Bool, List, [], ◌∷◌, ◌++◌, if◌then◌else◌}
use brazier.Db.{Tables, Opened, opened, open_failed, migrate_failed}
use brazier.Config
use brazier.Config.{Config, Files, load_optional}
use brazier.Master.{Backend, config_path, store_backend}

pub record Variables : Type 0 where
  pub brazier_config : Text
  pub database_url : Text
  pub github_webhook_secret : Text

-- Why `run` returns before it serves.
pub data Refusal : Type 0 where
  load_config open_db listen_grpc : Refusal

-- What is served: the tables of the store, the ports and the secret of the webhook.
pub record Service : Type 0 where
  pub tables : Tables
  pub grpc_port : Text
  pub http_port : Text
  pub webhook_secret : Text

pub data StartUp : Type 0 where
  refused : Refusal → StartUp
  serving : Service → StartUp

module _ (opens : Backend → Opened) (listens : Text → Bool) (v : Variables) where
  abbrev pub listen : Config → Tables → StartUp
  listen c t =
      if listens (text ":" ++ c.server.grpc_port)
      then serving (record {
        tables = t;
        grpc_port = c.server.grpc_port;
        http_port = c.server.http_port;
        webhook_secret = v.github_webhook_secret;
      })
      else refused listen_grpc

  abbrev pub with_store : Config → Opened → StartUp
  with_store c (opened t) = listen c t
  with_store c open_failed = refused open_db
  with_store c migrate_failed = refused open_db

  abbrev pub with_config : Config.Reply → StartUp
  with_config (Config.config c) =
      with_store c (opens (store_backend v.database_url c.db.sqlite_path))
  with_config Config.read_failed = refused load_config
  with_config Config.parse_failed = refused load_config

  unfoldable pub start_up : Files → StartUp
  start_up files = with_config (load_optional files (config_path v.brazier_config))

-- Which of the two the `select` takes: the signal, or an error of a server.
pub data Stop : Type 0 where
  interrupted serve_failed : Stop

-- What happens behind it, in order, with the deferred calls.
pub data Ending : Type 0 where
  graceful_stop shutdown close_store stop_notify : Ending

abbrev pub shut_down : Stop → List Ending
shut_down interrupted = graceful_stop ∷ shutdown ∷ close_store ∷ stop_notify ∷ []
shut_down serve_failed = close_store ∷ stop_notify ∷ []

abbrev pub exit_code : Stop → ℕ
exit_code interrupted = 0
exit_code serve_failed = 1

-- The deferred calls of a start that is refused.
abbrev pub give_up : Refusal → List Ending
give_up load_config = stop_notify ∷ []
give_up open_db = stop_notify ∷ []
give_up listen_grpc = close_store ∷ stop_notify ∷ []

-- `main`: the steps at the end, and the exit code.
abbrev pub end_of : StartUp → Stop → List Ending × ℕ
end_of (refused r) stop = (give_up r, 1)
end_of (serving s) stop = (shut_down stop, exit_code stop)

-- The mux of the HTTP server.
pub data Route : Type 0 where
  webhook healthz not_found : Route

unfoldable pub route : Text → Route
route path =
    if path == text "/webhook"
    then webhook
    else if path == text "/healthz"
    then healthz
    else not_found
