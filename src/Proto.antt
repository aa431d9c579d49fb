-- ===== src/Proto.antt =====
-- The messages of proto/gen (pipeline.pb.go, runner.pb.go, api.pb.go) as data. A `string` field is
-- a `Text`, a `repeated` field a list, a message pointer that may be nil an `Option`, and an
-- `int32` or `int64` field that the program only counts up from 0 a natural number.
use brazier.Base.{ℕ, Text, Bool, Option, none, some, List, [], ◌∷◌}

pub record EnvVar : Type 0 where
  pub key : Text
  pub value : Text

pub record JobSpec : Type 0 where
  pub commands : List Text
  pub env : List EnvVar
  pub secrets : List Text
  pub artifact_paths : List Text

-- `Node` with its oneof `Kind`, and the `repeated Node` of a `StageSpec`.
mutual
  pub data Node : Type 0 where
    node : (id : Text) (depends_on conditions : List Text) → Kind → Node

  pub data Kind : Type 0 where
    unset : Kind
    job : JobSpec → Kind
    stage : Nodes → Kind

  pub data Nodes : Type 0 where
    nil : Nodes
    cons : Node → Nodes → Nodes

abbrev pub id_of : Node → Text
id_of (node id depends_on conditions kind) = id

abbrev pub depends_on_of : Node → List Text
depends_on_of (node id depends_on conditions kind) = depends_on

abbrev pub conditions_of : Node → List Text
conditions_of (node id depends_on conditions kind) = conditions

abbrev pub kind_of : Node → Kind
kind_of (node id depends_on conditions kind) = kind

-- `GetJob()`: nil unless the oneof holds a job.
abbrev pub get_job : Node → Option JobSpec
get_job (node id depends_on conditions unset) = none
get_job (node id depends_on conditions (job spec)) = some spec
get_job (node id depends_on conditions (stage jobs)) = none

abbrev pub nodes_list : Nodes → List Node
nodes_list nil = []
nodes_list (cons n ns) = n ∷ nodes_list ns

-- `GetStage()`, and the jobs of the stage.
abbrev pub get_stage : Node → Option (List Node)
get_stage (node id depends_on conditions unset) = none
get_stage (node id depends_on conditions (job spec)) = none
get_stage (node id depends_on conditions (stage jobs)) = some (nodes_list jobs)

pub record WorkflowRef : Type 0 where
  pub name : Text
  pub version : Text

pub record PipelineSpec : Type 0 where
  pub workflow : Option WorkflowRef
  pub nodes : List Node

pub record JobDispatch : Type 0 where
  pub job_id : Text
  pub run_id : Text
  pub spec : Option JobSpec
  pub env : List EnvVar

pub record LogChunk : Type 0 where
  pub job_id : Text
  pub run_id : Text
  pub timestamp : ℕ
  pub line : Text
  pub stderr : Bool

-- The integers of an `int32` field; `negsuc n` is -(n + 1).
pub data ℤ : Type 0 where
  pos negsuc : ℕ → ℤ

pub record AgentRegistration : Type 0 where
  pub agent_id : Text
  pub name : Text
  pub labels : List Text
  pub capacity : ℤ

pub record JobResult : Type 0 where
  pub job_id : Text
  pub run_id : Text
  pub success : Bool
  pub exit_code : ℤ

pub record ListRunsRequest : Type 0 where
  pub project : Text
  pub limit : ℤ
