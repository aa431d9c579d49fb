-- ===== src/Runner.antt =====
-- internal/runner: the interface `Runner` and its two implementations, which are stubs. The text
-- of an error is `some`.
use brazier.Base.{Text, text, Option, some, ◌++◌}
use brazier.Proto.{JobDispatch}

pub record Runner : Type 0 where
  pub dispatch : JobDispatch → Option Text
  pub cancel : (job_id : Text) → Option Text

abbrev pub not_implemented : (runner job_id : Text) → Text
not_implemented runner job_id =
    runner ++ (text " runner: not implemented (job " ++ (job_id ++ text ")"))

-- `NewNomadRunner`; the address is not used.
unfoldable pub nomad_runner : (addr : Text) → Runner
nomad_runner addr = record {
  dispatch = λ job. some (not_implemented (text "nomad") job.job_id);
  cancel = λ job_id. some (not_implemented (text "nomad") job_id);
}

-- `NewK8sRunner`; the namespace and the image are not used.
unfoldable pub k8s_runner : (namespace image : Text) → Runner
k8s_runner namespace image = record {
  dispatch = λ job. some (not_implemented (text "k8s") job.job_id);
  cancel = λ job_id. some (not_implemented (text "k8s") job_id);
}
