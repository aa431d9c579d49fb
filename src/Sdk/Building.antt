-- ===== src/Sdk/Building.antt =====
-- What the builders put into a pipeline and into a workflow.
use mathlib.Core.List.{append_assoc, append-nil, foldl}
use brazier.Base.{Text, ◌≡◌, ◌∙◌, some, List, [], ◌∷◌, ◌++◌}
use brazier.Proto.{Node, PipelineSpec}
use brazier.Sdk.{
  PipelineOption, use_workflow, node_option, nodes, new_pipeline, WorkflowDag, workflow_nodes,
  new_workflow,
}

foldl-nodes :
    (ns : List Node) (spec : PipelineSpec)
    → foldl (λ (s : PipelineSpec) (o : PipelineOption). o s) spec (nodes ns)
      ≡ record spec { nodes = spec.nodes ++ ns }
unfolding nodes node_option
foldl-nodes [] spec = simp append-nil
foldl-nodes (n ∷ ns) spec =
    foldl-nodes ns (record spec { nodes = spec.nodes ++ n ∷ [] }) ∙ simp append_assoc

-- A pipeline built from a workflow reference and nodes holds that reference and exactly those
-- nodes, in their order.
pub new_pipeline-nodes :
    (name version : Text) (ns : List Node)
    → new_pipeline (use_workflow name version ∷ nodes ns)
      ≡ record { workflow = some (record { name = name; version = version }); nodes = ns }
unfolding new_pipeline use_workflow
new_pipeline-nodes name version ns = foldl-nodes ns _

workflow_nodes-append :
    (ns : List Node) (dag : WorkflowDag)
    → workflow_nodes ns dag ≡ record dag { nodes = dag.nodes ++ ns }
unfolding workflow_nodes
workflow_nodes-append [] dag = simp append-nil
workflow_nodes-append (n ∷ ns) dag =
    workflow_nodes-append ns (record dag { nodes = dag.nodes ++ n ∷ [] }) ∙ simp append_assoc

-- A workflow holds its name, its version and exactly the nodes given to it, in their order, also
-- where they are given in two groups.
pub new_workflow-nodes :
    (name version : Text) (ns more : List Node)
    → new_workflow name version (workflow_nodes ns ∷ workflow_nodes more ∷ [])
      ≡ record { name = name; version = version; nodes = ns ++ more }
unfolding new_workflow
new_workflow-nodes name version ns more = simp workflow_nodes-append
