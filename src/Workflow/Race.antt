-- ===== src/Workflow/Race.antt =====
-- Two calls of `Load` at once.
use brazier.Base.{
  ℕ, Text, ==_refl, ◌≡◌, refl, Bool, true, false, Option, none, some, List, [], ◌∷◌, arith,
}
use brazier.Sdk.{WorkflowDag}
use brazier.Workflow.{
  Clone, Loader, Reply, dag, GitReplies, key, lookup, ensure_repo, load, Phase, looking, returned,
  step_phase,
}

-- No git command fails, and the version comes to the commit.
abbrev working : ℕ → GitReplies
working commit = record { clone_fails = false; fetch_fails = false; checkout = some commit }

-- The phases of two calls, and the loader they share.
pub record Both : Type 0 where
  pub first : Phase
  pub second : Phase
  pub loader : Loader

unfoldable pub with_first : Both → Phase × Loader → Both
with_first b (p, l) = record b { first = p; loader = l }

unfoldable pub with_second : Both → Phase × Loader → Both
with_second b (p, l) = record b { second = p; loader = l }

unfoldable pub both_start : Loader → Both
both_start l = record { first = looking; second = looking; loader = l }

-- Both calls look; the first checks its version out, then the second; the first goes on.
abbrev pub overlapping : List Bool
overlapping = true ∷ false ∷ true ∷ false ∷ true ∷ true ∷ []

ensure_repo-working :
    (commit : ℕ) (c : Clone)
    → ensure_repo (working commit) c ≡ (none, record { cloned = true; head = some commit })
unfolding ensure_repo
ensure_repo-working commit c = ground arith

module _ (evaluate : Option ℕ → Text → Reply) (name : Text) (v w : Text) (a b : ℕ) where
  -- The next part of the first call, or of the second.
  unfoldable pub step : Bool → Both → Both
  step true s = with_first s (step_phase evaluate (working a) name v s.first s.loader)
  step false s = with_second s (step_phase evaluate (working b) name w s.second s.loader)

  unfoldable pub steps : List Bool → Both → Both
  steps [] s = s
  steps (who ∷ more) s = steps more (step who s)

  -- Where neither version is cached, no git command fails, and the checkouts of the two versions
  -- come to some commits, two calls of Load can overlap so that the call for the one version returns
  -- the workflow at the commit of the other version, and so does every later call of Load for it,
  -- whatever git does.
  pub load-overlapping :
      (l : Loader) (d : WorkflowDag)
      → lookup (key name v) l.cache ≡ none
      → lookup (key name w) l.cache ≡ none
      → evaluate (some b) name ≡ dag d
      → let after = steps overlapping (both_start l) in
        (after.first ≡ returned (dag d))
        × ((f : GitReplies) → (load evaluate f name v after.loader).0 ≡ dag d)
  unfolding load lookup both_start steps step with_first with_second
  load-overlapping l d v_missing w_missing result =
      let v_ensured = ensure_repo-working a l.clone in
      let w_ensured = ensure_repo-working b (record { cloned = true; head = some a }) in
      rw (v_missing, w_missing, v_ensured, w_ensured, result)
        (refl, λ f. rw (==_refl (key name v)) refl)
