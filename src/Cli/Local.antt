-- ===== src/Cli/Local.antt =====
-- `brazier run`: from the Brazierfile to the call of `SubmitPipeline`.
use brazier.Base.{Text, text, ◌≡◌, ◌∙◌, refl, ap, Bool, Option, none, some, List, [], ◌∷◌}
use brazier.Proto.{Node, PipelineSpec}
use brazier.Workflow.{Language, SpecReply, detect_brazierfile, exec_brazierfile}
use brazier.Sdk.{use_workflow, nodes, new_pipeline}
use brazier.Sdk.Building.{new_pipeline-nodes}
use brazier.Sdk.Output.{Marshalled, bytes, error, Written, whole, part, exit_one, run, output}
use brazier.Cli.{printed, run_local}

-- Reading back what was written gives the message.
abbrev pub Inverts : (Text → Option PipelineSpec) → (PipelineSpec → Marshalled) → Type 0
Inverts unmarshal marshal =
    (p : PipelineSpec) (b : Text) → marshal p ≡ bytes b → unmarshal b ≡ some p

module _ {W : Type 0} (submit : PipelineSpec → W → Option Text × W) (exists : Text → Bool)
    (marshal : PipelineSpec → Marshalled) (unmarshal : Text → Option PipelineSpec) where
  -- What `brazier run` does in the directory of a Brazierfile that ends with `Run(p)`.
  abbrev pub run_file : (Text → Written) → PipelineSpec → W → Option Text × W
  run_file write p w =
      run_local submit
        (exec_brazierfile exists (λ path lang. output (run marshal write p)) unmarshal) w

  abbrev pub outcome : Marshalled → (Text → Written) → PipelineSpec → W → Option Text × W
  outcome (error e) write p w = (none, w)
  outcome (bytes b) write p w = elim (write b) [
    | whole ↦ printed (text "Run started: ") (submit p w)
    | part before err ↦ (none, w)
  ]

  read_output : Option Text → SpecReply
  read_output none = SpecReply.exec_failed
  read_output (some stdout) = elim (unmarshal stdout) [
    | none ↦ SpecReply.unmarshal_failed
    | some s ↦ SpecReply.spec s
  ]

  exec_brazierfile-found :
      (file : Text × Language) (out : Option Text)
      → detect_brazierfile exists ≡ some file
      → exec_brazierfile exists (λ path lang. out) unmarshal ≡ read_output out
  unfolding exec_brazierfile read_output
  exec_brazierfile-found file none found = rw (exec_brazierfile, found) refl
  exec_brazierfile-found file (some stdout) found = rw (exec_brazierfile, found) refl

  written_outcome :
      (b : Text) (p : PipelineSpec) (w : W) (r : Written)
      → unmarshal b ≡ some p
      → run_local submit
          (read_output (
            output (elim r [
              | whole ↦ record { code = 0; stdout = b; stderr = [] }
              | part before err ↦ record (exit_one (text "brazier: write stdout: ") err) {
                stdout = before;
              }
            ])))
          w
        ≡ (elim r [
          | whole ↦ printed (text "Run started: ") (submit p w)
          | part before err ↦ (none, w)
        ])
  unfolding run_local read_output
  written_outcome b p w whole inverts = rw (inverts) refl
  written_outcome b p w (part before err) inverts = refl

  run_file-outcome :
      (write : Text → Written) (p : PipelineSpec) (w : W) (m : Marshalled) (file : Text × Language)
      → detect_brazierfile exists ≡ some file
      → marshal p ≡ m
      → Inverts unmarshal marshal
      → run_file write p w ≡ outcome m write p w
  unfolding run run_local read_output
  run_file-outcome write p w (error err) file found e inverts =
      rw (exec_brazierfile-found file (output (run marshal write p)) found, e) refl
  run_file-outcome write p w (bytes b) file found e inverts =
      rw (exec_brazierfile-found file (output (run marshal write p)) found, e)
        (written_outcome b p w (write b) (inverts p b e))

  -- Where a directory has a Brazierfile and unmarshalling inverts marshalling, `brazier run` on a
  -- Brazierfile that builds a pipeline from a workflow reference and nodes, and ends with `Run`,
  -- submits exactly that reference and those nodes where the pipeline is marshalled and written
  -- whole; otherwise it submits nothing and reports an error, also where a part was written.
  pub run_file-nodes :
      (write : Text → Written) (name version : Text) (ns : List Node) (w : W)
      (file : Text × Language)
      → detect_brazierfile exists ≡ some file
      → Inverts unmarshal marshal
      → let p : PipelineSpec = record {
        workflow = some (record { name = name; version = version });
        nodes = ns;
      } in
        run_file write (new_pipeline (use_workflow name version ∷ nodes ns)) w
        ≡ outcome (marshal p) write p w
  run_file-nodes write name version ns w file found inverts =
      ap (λ p. run_file write p w) (new_pipeline-nodes name version ns)
      ∙ run_file-outcome write _ w _ file found refl inverts
