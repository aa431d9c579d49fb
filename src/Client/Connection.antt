-- ===== src/Client/Connection.antt =====
-- internal/client/agent.go: `Run` and `connect`. What the master answers to each connection, and
-- whether the context is done at each look at it, are arguments.
use brazier.Base.{Bool, true, false, List, [], ◌∷◌, ◌++◌, if◌then◌else◌}
use brazier.Proto.{JobDispatch}

-- A connection: `grpc.NewClient` or `Register` fails, or jobs are received until `Recv` fails.
pub data Connection : Type 0 where
  client_failed register_failed : Connection
  received : List JobDispatch → Connection

-- `connect`: the jobs for which it starts a goroutine of `handleJob`. It ends with an error always.
abbrev pub connect : Connection → List JobDispatch
connect client_failed = []
connect register_failed = []
connect (received jobs) = jobs

-- A turn of the loop of `Run`: whether the context is done before it, the connection, and whether
-- the context is done within the five seconds behind it.
pub record Turn : Type 0 where
  pub done_before : Bool
  pub connection : Connection
  pub done_while_waiting : Bool

-- `Run`, over the turns so far: the jobs that it started, and whether it has returned.
unfoldable pub run : List Turn → List JobDispatch × Bool
run [] = ([], false)
run (t ∷ ts) =
    let (more, returned) = run ts in
    let jobs = connect t.connection in
    if t.done_before
    then ([], true)
    else if t.done_while_waiting
    then (jobs, true)
    else (jobs ++ more, returned)
