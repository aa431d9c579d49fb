-- ===== src/Examples/Launching.antt =====
-- A Brazierfile that is run by `brazier run`.
use brazier.Base.{Text, text, ◌==◌, ◌≡◌, refl, Bool, Option, none, some, List, [], ◌∷◌, ◌++◌}
use brazier.Proto.{Node, node, unset, job, stage, WorkflowRef, PipelineSpec}
use brazier.Workflow.{go, detect_brazierfile}
use brazier.Sdk.{use_workflow, nodes, new_pipeline, new_node}
use brazier.Sdk.Output.{Marshalled, bytes, error, whole}
use brazier.Cli.Local.{Inverts, run_file, run_file-nodes}

-- A format for the pipelines of one empty node, behind a workflow without a name.
abbrev refused : Marshalled
refused = error (text "format")

abbrev encode_ref : Text → Text → Text → Marshalled
encode_ref [] [] id = bytes id
encode_ref [] (c ∷ cs) id = refused
encode_ref (c ∷ cs) version id = refused

abbrev encode : Option WorkflowRef → List Node → Marshalled
encode none ns = refused
encode (some r) [] = refused
encode (some r) (n ∷ m ∷ ns) = refused
encode (some r) (node id (d ∷ ds) cs k ∷ []) = refused
encode (some r) (node id [] (c ∷ cs) k ∷ []) = refused
encode (some r) (node id [] [] (job j) ∷ []) = refused
encode (some r) (node id [] [] (stage s) ∷ []) = refused
encode (some r) (node id [] [] unset ∷ []) = encode_ref r.name r.version id

abbrev decode : Text → Option PipelineSpec
decode b = some (record {
  workflow = some (record { name = []; version = [] });
  nodes = node b [] [] unset ∷ [];
})

decode-encode_ref :
    (name version id b : Text)
    → encode_ref name version id ≡ bytes b
    → decode b
      ≡ some (record {
        workflow = some (record { name = name; version = version });
        nodes = node id [] [] unset ∷ [];
      })
decode-encode_ref [] [] id b e = let same : id ≡ b = cc in rw same refl
decode-encode_ref [] (c ∷ cs) id b e = cc
decode-encode_ref (c ∷ cs) version id b e = cc

decode-encode :
    (w : Option WorkflowRef) (ns : List Node) (b : Text)
    → encode w ns ≡ bytes b
    → decode b ≡ some (record { workflow = w; nodes = ns })
decode-encode none ns b e = cc
decode-encode (some r) [] b e = cc
decode-encode (some r) (n ∷ m ∷ ns) b e = cc
decode-encode (some r) (node id (d ∷ ds) cs k ∷ []) b e = cc
decode-encode (some r) (node id [] (c ∷ cs) k ∷ []) b e = cc
decode-encode (some r) (node id [] [] (job j) ∷ []) b e = cc
decode-encode (some r) (node id [] [] (stage s) ∷ []) b e = cc
decode-encode (some r) (node id [] [] unset ∷ []) b e = decode-encode_ref r.name r.version id b e

abbrev marshal : PipelineSpec → Marshalled
marshal p = encode p.workflow p.nodes

decode-Inverts : Inverts decode marshal
decode-Inverts p b e = decode-encode p.workflow p.nodes b e

abbrev submit : PipelineSpec → List PipelineSpec → Option Text × List PipelineSpec
submit p sent = (some (text "q"), sent ++ p ∷ [])

abbrev exists : Text → Bool
exists path = path == text "Brazierfile.go"

found : detect_brazierfile exists ≡ some (text "Brazierfile.go", go)
unfolding detect_brazierfile ◌==◌ text
found = refl

run_file-nodes_example :
    run_file submit exists marshal decode
      (λ b. whole)
      (new_pipeline (use_workflow [] [] ∷ nodes (new_node (text "lint") ∷ [])))
      []
    ≡ (
      some (text "Run started: " ++ (text "q" ++ (10 ∷ []))),
      record {
        workflow = some (record { name = []; version = [] });
        nodes = new_node (text "lint") ∷ [];
      }
          ∷ [],
    )
unfolding new_node
run_file-nodes_example =
    run_file-nodes submit exists marshal decode (λ b. whole) [] [] (new_node (text "lint") ∷ []) []
      (text "Brazierfile.go", go) found decode-Inverts
