-- ===== src/Workflow.antt =====
-- internal/workflow: the loader of workflow definitions with its cache (loader.go), and the
-- Brazierfile of a directory (executor.go). git, the processes and the file system are parameters:
-- `evaluate` is what running the file of a workflow gives at the commit that is checked out, and
-- `GitReplies` says, for each call, which git commands fail and which commit the checkout of the
-- version comes to, since a version may be a branch that moves. A commit is a number. The arguments
-- of the commands are left out.
pub mod Keys
pub mod Cache
pub mod Race
use brazier.Base.{
  ℕ, Text, text, ◌==◌, Bool, true, false, Option, none, some, List, [], ◌∷◌, ◌++◌, if◌then◌else◌,
}
use brazier.Proto.{PipelineSpec}
use brazier.Sdk.{WorkflowDag}

-- The clone of the workflows repository: whether it is there, and the commit last checked out.
pub record Clone : Type 0 where
  pub cloned : Bool
  pub head : Option ℕ

pub record Loader : Type 0 where
  pub cache : List (Text × WorkflowDag)
  pub clone : Clone

pub data Reply : Type 0 where
  dag : WorkflowDag → Reply
  clone_failed fetch_failed checkout_failed not_found exec_failed unmarshal_failed : Reply

-- What git does in one call: whether `clone` and `fetch` fail, and the commit that `checkout` of
-- the version comes to, or none where it fails.
pub record GitReplies : Type 0 where
  pub clone_fails : Bool
  pub fetch_fails : Bool
  pub checkout : Option ℕ

abbrev pub new_loader : Clone → Loader
new_loader c = record { cache = []; clone = c }

-- `name + "@" + version`
abbrev pub key : (name version : Text) → Text
key name version = name ++ (text "@" ++ version)

unfoldable pub lookup : Text → List (Text × WorkflowDag) → Option WorkflowDag
lookup k [] = none
lookup k ((j, d) ∷ cache) = if j == k then some d else lookup k cache

-- `l.cache[key] = dag`; an entry in front hides the older ones.
abbrev pub remember : Text → WorkflowDag → Loader → Loader
remember k d l = record l { cache = (k, d) ∷ l.cache }

abbrev pub check_out : Option ℕ → Clone → Option Reply × Clone
check_out none c = (some checkout_failed, c)
check_out (some commit) c = (none, record c { head = some commit })

-- `ensureRepo`: an error, or none.
unfoldable pub ensure_repo : GitReplies → Clone → Option Reply × Clone
ensure_repo git c =
    if c.cloned
    then (if git.fetch_fails then (some fetch_failed, c) else check_out git.checkout c)
    else (if git.clone_fails
        then (some clone_failed, c)
        else check_out git.checkout (record { cloned = true; head = none }))

-- `execWorkflow`, for the commit that is checked out.
abbrev pub exec_workflow : (Option ℕ → Text → Reply) → Clone → Text → Reply
exec_workflow evaluate c name = evaluate c.head name

-- The end of `Load`: only a result that is a workflow goes to the cache.
abbrev pub finish_load : Text → Reply → Loader → Reply × Loader
finish_load k (dag d) l = (dag d, remember k d l)
finish_load k clone_failed l = (clone_failed, l)
finish_load k fetch_failed l = (fetch_failed, l)
finish_load k checkout_failed l = (checkout_failed, l)
finish_load k not_found l = (not_found, l)
finish_load k exec_failed l = (exec_failed, l)
finish_load k unmarshal_failed l = (unmarshal_failed, l)

abbrev pub run_workflow :
    (Option ℕ → Text → Reply) → Text → Text → Loader → Option Reply × Clone → Reply × Loader
run_workflow evaluate k name l (some e, c) = (e, record l { clone = c })
run_workflow evaluate k name l (none, c) =
    finish_load k (exec_workflow evaluate c name) (record l { clone = c })

abbrev pub load_missing :
    (Option ℕ → Text → Reply)
    → GitReplies
    → (name version : Text) → Loader
    → Option WorkflowDag
    → Reply × Loader
load_missing evaluate git name version l (some d) = (dag d, l)
load_missing evaluate git name version l none =
    run_workflow evaluate (key name version) name l (ensure_repo git l.clone)

-- `Load`, with no other call in between.
unfoldable pub load :
    (Option ℕ → Text → Reply) → GitReplies → (name version : Text) → Loader → Reply × Loader
load evaluate git name version l =
    load_missing evaluate git name version l (lookup (key name version) l.cache)

-- The calls of `Load` do not hold the lock between the lookup and the write: where a call is.
pub data Phase : Type 0 where
  looking ensuring executing : Phase
  storing : WorkflowDag → Phase
  returned : Reply → Phase

abbrev pub after_lookup : Option WorkflowDag → Phase
after_lookup (some d) = returned (dag d)
after_lookup none = ensuring

abbrev pub after_ensure : Option Reply → Phase
after_ensure (some e) = returned e
after_ensure none = executing

abbrev pub after_exec : Reply → Phase
after_exec (dag d) = storing d
after_exec e = returned e

-- One part of a call, which no other call interrupts.
abbrev pub step_phase :
    (Option ℕ → Text → Reply) → GitReplies → (name version : Text) → Phase → Loader → Phase × Loader
step_phase evaluate git name version looking l =
    (after_lookup (lookup (key name version) l.cache), l)
step_phase evaluate git name version ensuring l =
    let (failed, c) = ensure_repo git l.clone in (after_ensure failed, record l { clone = c })
step_phase evaluate git name version executing l =
    (after_exec (exec_workflow evaluate l.clone name), l)
step_phase evaluate git name version (storing d) l =
    (returned (dag d), remember (key name version) d l)
step_phase evaluate git name version (returned r) l = (returned r, l)

-- Brazierfile.go, then Brazierfile.ts; `exists` says which files of the directory there are.
pub data Language : Type 0 where
  go ts : Language

unfoldable pub detect_brazierfile : (Text → Bool) → Option (Text × Language)
detect_brazierfile exists =
    if exists (text "Brazierfile.go")
    then some (text "Brazierfile.go", go)
    else if exists (text "Brazierfile.ts")
    then some (text "Brazierfile.ts", ts)
    else none

pub data SpecReply : Type 0 where
  spec : PipelineSpec → SpecReply
  no_brazierfile exec_failed unmarshal_failed : SpecReply

-- `ExecBrazierfile`; `run` is the output of the process, `unmarshal` that of the protobuf library.
unfoldable pub exec_brazierfile :
    (Text → Bool) → (Text → Language → Option Text) → (Text → Option PipelineSpec) → SpecReply
exec_brazierfile exists run unmarshal = elim (detect_brazierfile exists) [
  | none ↦ no_brazierfile
  | some (path, lang) ↦ elim (run path lang) [
    | none ↦ SpecReply.exec_failed
    | some stdout ↦ elim (unmarshal stdout) [ none ↦ SpecReply.unmarshal_failed | some s ↦ spec s ]
  ]
]
