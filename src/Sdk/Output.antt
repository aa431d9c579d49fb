-- ===== src/Sdk/Output.antt =====
-- sdk/go: `Run` and `RunWorkflow`, the last calls of a Brazierfile and of a workflow file. Which
-- bytes a message has, or why it has none, is a parameter, and so is whether the standard output
-- takes them.
use brazier.Base.{ℕ, Text, text, Option, none, some, [], ◌∷◌, ◌++◌, if◌then◌else◌, nat_eq}
use brazier.Proto.{PipelineSpec}
use brazier.Sdk.{WorkflowDag}

-- `proto.Marshal`: the bytes, or the text of the error.
pub data Marshalled : Type 0 where
  bytes error : Text → Marshalled

-- A process that has ended: its exit code, and what it wrote.
pub record ProcessExit : Type 0 where
  pub code : ℕ
  pub stdout : Text
  pub stderr : Text

abbrev pub exit_one : Text → Text → ProcessExit
exit_one label err = record { code = 1; stdout = []; stderr = label ++ (err ++ (10 ∷ [])) }

-- What `os.Stdout.Write` returns: none, or the bytes that were written before the error.
pub data Written : Type 0 where
  whole : Written
  part : Text → Text → Written

abbrev write_out : Marshalled → (marshal_label : Text) → (Text → Written) → ProcessExit
write_out (error err) label write = exit_one label err
write_out (bytes b) label write = elim (write b) [
  | whole ↦ record { code = 0; stdout = b; stderr = [] }
  | part before err ↦ record (exit_one (text "brazier: write stdout: ") err) { stdout = before }
]

unfoldable pub run : (PipelineSpec → Marshalled) → (Text → Written) → PipelineSpec → ProcessExit
run marshal write p = write_out (marshal p) (text "brazier: marshal: ") write

unfoldable pub run_workflow :
    (WorkflowDag → Marshalled) → (Text → Written) → WorkflowDag → ProcessExit
run_workflow marshal write w = write_out (marshal w) (text "brazier: marshal workflow: ") write

-- What `cmd.Run` makes of a process: its output, or an error for an exit code that is not 0.
abbrev pub output : ProcessExit → Option Text
output e = if nat_eq e.code 0 then some e.stdout else none
