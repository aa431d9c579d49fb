-- ===== src/Cli.antt =====
-- cmd/cli/cmd: what the commands send and print. Flags, connections and the reading of the
-- environment are left out: `submit` is the call of `SubmitPipeline`.
pub mod Keys
pub mod Local
pub mod Output
use brazier.Base.{
  Text, text, Bool, true, false, Option, none, some, List, [], ◌∷◌, ◌++◌, if◌then◌else◌,
}
use brazier.Proto.{PipelineSpec, LogChunk}
use brazier.Workflow.{SpecReply}

-- `resolveAPIKey`, with the flag and the variable BRAZIER_API_KEY.
abbrev pub resolve_api_key : (flag variable : Text) → Text
resolve_api_key [] variable = variable
resolve_api_key (c ∷ cs) variable = c ∷ cs

-- `authCtx`: the values of the header "authorization" of a call.
abbrev pub auth_header : Text → List Text
auth_header [] = []
auth_header (c ∷ cs) = (text "Bearer " ++ (c ∷ cs)) ∷ []

-- The spec that `trigger` submits.
abbrev pub trigger_spec : Text → PipelineSpec
trigger_spec project = record {
  workflow = some (record { name = project; version = [] });
  nodes = [];
}

abbrev pub new_line : Text
new_line = 10 ∷ []

-- What a command prints, or none for an error.
abbrev pub printed : {W : Type 0} → Text → Option Text × W → Option Text × W
printed label (none, w) = (none, w)
printed label (some run_id, w) = (some (label ++ (run_id ++ new_line)), w)

module _ {W : Type 0} (submit : PipelineSpec → W → Option Text × W) where
  -- `run`, with the outcome of `ExecBrazierfile`.
  unfoldable pub run_local : SpecReply → W → Option Text × W
  run_local (SpecReply.spec s) w = printed (text "Run started: ") (submit s w)
  run_local SpecReply.no_brazierfile w = (none, w)
  run_local SpecReply.exec_failed w = (none, w)
  run_local SpecReply.unmarshal_failed w = (none, w)

  unfoldable pub trigger : Text → W → Option Text × W
  trigger project w = printed (text "Triggered run: ") (submit (trigger_spec project) w)

-- `logs`: the line that is printed for a chunk.
unfoldable pub log_line : LogChunk → Text
log_line c =
    text "["
    ++ (c.job_id
        ++ (text "] " ++ ((if c.stderr then text "[stderr] " else []) ++ (c.line ++ new_line))))
