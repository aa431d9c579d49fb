-- ===== src/Sdk.antt =====
-- sdk/go/brazier.go and sdk/go/workflow.go: the builders of pipelines and workflows. A builder
-- method, which changes its node in place and returns it, returns the changed value here.
pub mod Conditions
pub mod Building
pub mod Output
use mathlib.Core.List.{foldl}
use brazier.Base.{Text, text, Option, none, some, List, [], ◌∷◌, ◌++◌, map}
use brazier.Proto.{
  EnvVar, Node, node, Kind, unset, job, stage, Nodes, nil, cons, WorkflowRef, PipelineSpec,
}

-- The SDK's own `JobSpec`. A Go map is the list of its entries, in the order of its iteration.
pub record JobConfig : Type 0 where
  pub commands : List Text
  pub env : List (Text × Text)
  pub secrets : List Text
  pub artifact_paths : List Text

unfoldable pub on_branch : Text → Text
on_branch name = text "branch == " ++ name

unfoldable pub on_tag : Text → Text
on_tag pattern = text "tag == " ++ pattern

unfoldable pub on_event : Text → Text
on_event event = text "event == " ++ event

unfoldable pub new_job : Text → JobConfig → Node
new_job id spec = node id [] [] (
    job (record {
      commands = spec.commands;
      env = map (λ (k, v). record { key = k; value = v }) spec.env;
      secrets = spec.secrets;
      artifact_paths = spec.artifact_paths;
    }))

abbrev pub to_nodes : List Node → Nodes
to_nodes [] = nil
to_nodes (n ∷ ns) = cons n (to_nodes ns)

unfoldable pub new_stage : Text → List Node → Node
new_stage id jobs = node id [] [] (stage (to_nodes jobs))

-- `Node(id)` of workflow.go
unfoldable pub new_node : Text → Node
new_node id = node id [] [] unset

-- `DependsOn`, the same for jobs, stages and workflow nodes.
unfoldable pub depends_on : List Text → Node → Node
depends_on ids (node id deps conditions kind) = node id (deps ++ ids) conditions kind

-- `When`, the same for jobs, stages and workflow nodes.
unfoldable pub when : List Text → Node → Node
when more (node id deps conditions kind) = node id deps (conditions ++ more) kind

abbrev pub PipelineOption : Type 0
PipelineOption = PipelineSpec → PipelineSpec

unfoldable pub use_workflow : Text → Text → PipelineOption
use_workflow name version spec = record spec {
  workflow = some (record { name = name; version = version });
}

-- `option`, the same for jobs and stages.
unfoldable pub node_option : Node → PipelineOption
node_option n spec = record spec { nodes = spec.nodes ++ n ∷ [] }

unfoldable pub nodes : List Node → List PipelineOption
nodes ns = map node_option ns

unfoldable pub new_pipeline : List PipelineOption → PipelineSpec
new_pipeline opts = foldl (λ spec o. o spec) (record { workflow = none; nodes = [] }) opts

pub record WorkflowDag : Type 0 where
  pub name : Text
  pub version : Text
  pub nodes : List Node

abbrev pub WorkflowOption : Type 0
WorkflowOption = WorkflowDag → WorkflowDag

unfoldable pub workflow_nodes : List Node → WorkflowOption
workflow_nodes [] dag = dag
workflow_nodes (n ∷ ns) dag = workflow_nodes ns (record dag { nodes = dag.nodes ++ n ∷ [] })

unfoldable pub new_workflow : Text → Text → List WorkflowOption → WorkflowDag
new_workflow name version opts =
    foldl (λ dag o. o dag) (record { name = name; version = version; nodes = [] }) opts
