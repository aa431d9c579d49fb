-- ===== src/Examples/Loading.antt =====
-- Workflows at two versions.
use brazier.Base.{
  ℕ, Text, text, ◌==◌, ◌≡◌, ◌⊎◌, refl, true, false, Option, none, some, [], ◌∷◌, arith,
}
use brazier.Sdk.{WorkflowDag}
use brazier.Workflow.{
  Loader, Reply, dag, GitReplies, new_loader, key, load, lookup, ensure_repo, returned,
}
use brazier.Workflow.Keys.{NoAt}
use brazier.Workflow.Cache.{Reached, begin, loaded, Gives, GivenBefore, load-Gives}
use brazier.Workflow.Race.{
  both_start, steps, step, with_first, with_second, overlapping, load-overlapping,
}

-- A workflow that knows its commit.
abbrev at_commit : Text → ℕ → WorkflowDag
at_commit name commit = record { name = name; version = commit ∷ []; nodes = [] }

abbrev evaluate : Option ℕ → Text → Reply
evaluate none name = Reply.not_found
evaluate (some commit) name = dag (at_commit name commit)

-- The version comes to the commit.
abbrev working : ℕ → GitReplies
working commit = record { clone_fails = false; fetch_fails = false; checkout = some commit }

abbrev offline : GitReplies
offline = record { clone_fails = true; fetch_fails = true; checkout = none }

abbrev fresh : Loader
fresh = new_loader (record { cloned = false; head = none })

abbrev ci : Text
ci = text "ci"

abbrev branch : Text
branch = text "main"

abbrev first_loaded : Loader
first_loaded = (load evaluate (working 1) ci branch fresh).1

loading : Unit {0}
unfolding load lookup ensure_repo text ◌==◌ both_start steps step with_first with_second
loading = tt

-- Once it is loaded, it is found without git.
cached : (load evaluate offline ci branch first_loaded).0 ≡ dag (at_commit ci 1)
unfolding loading
cached = refl

-- The branch has moved to another commit, and the workflow of the old one is returned.
stale : (load evaluate (working 2) ci branch first_loaded).0 ≡ dag (at_commit ci 1)
unfolding loading
stale = refl

ci-NoAt : NoAt ci
unfolding NoAt text
ci-NoAt = grind arith

once : Reached evaluate first_loaded
once = loaded (working 1) ci branch (begin (record { cloned = false; head = none })) ci-NoAt

load-Gives_example :
    ((lookup (key ci branch) first_loaded.cache ≡ some (at_commit ci 1))
      × GivenBefore evaluate once ci branch (at_commit ci 1))
    ⊎ ((lookup (key ci branch) first_loaded.cache ≡ none)
        × Gives evaluate (working 2) first_loaded ci (at_commit ci 1))
load-Gives_example = load-Gives evaluate (working 2) ci branch (at_commit ci 1) once ci-NoAt stale

load-overlapping_example :
    let after = steps evaluate ci (text "v1") (text "v2") 1 2 overlapping (both_start fresh) in
    (after.first ≡ returned (dag (at_commit ci 2)))
    × ((f : GitReplies) → (load evaluate f ci (text "v1") after.loader).0 ≡ dag (at_commit ci 2))
unfolding lookup
load-overlapping_example =
    load-overlapping evaluate ci (text "v1") (text "v2") 1 2 fresh (at_commit ci 2) refl refl refl
