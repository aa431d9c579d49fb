-- ===== src/Workflow/Cache.antt =====
-- What the cache of workflows holds, where one call of `Load` follows another.
use brazier.Base.{
  ℕ, false, some_inj, ◌≢◌, ◌⊎◌, Bool-cases, Option-cases, inl, inr, Text, ◌==◌, ==_iff, ◌≡◌, refl,
  sym, ◌∙◌, ap, subst, Option, none, some, List, ◌∷◌, if◌then◌else◌,
}
use brazier.Sdk.{WorkflowDag}
use brazier.Workflow.{
  Clone, Loader, Reply, dag, clone_failed, fetch_failed, checkout_failed, not_found, exec_failed,
  unmarshal_failed, GitReplies, new_loader, key, lookup, ensure_repo, finish_load, run_workflow,
  load_missing, load,
}
use brazier.Workflow.Keys.{NoAt, key-injective}

-- What `ensureRepo` comes to: an error, or the commit of the version in an updated clone.
IsCheckedOut : GitReplies → Clone → Option Reply × Clone → Type 0
IsCheckedOut git c (some e, c') = (d : WorkflowDag) → e ≢ dag d
IsCheckedOut git c (none, c') =
    ((if c.cloned then git.fetch_fails else git.clone_fails) ≡ false)
    × (commit : ℕ) × (git.checkout ≡ some commit)
    × (c'.head ≡ some commit)

ensure_repo-IsCheckedOut : (git : GitReplies) (c : Clone) → IsCheckedOut git c (ensure_repo git c)
unfolding IsCheckedOut ensure_repo
ensure_repo-IsCheckedOut git c = elim (Bool-cases c.cloned) [
  | inl cloned ↦ elim (Bool-cases git.fetch_fails) [
    | inl failed ↦ rw (cloned, failed) (λ d h. cc)
    | inr fetched ↦ elim (Option-cases git.checkout) [
      | inl failed ↦ rw (cloned, fetched, failed) (λ d h. cc)
      | inr (commit, e) ↦ rw (cloned, fetched, e) (refl, commit, refl, refl)
    ]
  ]
  | inr missing ↦ elim (Bool-cases git.clone_fails) [
    | inl failed ↦ rw (missing, failed) (λ d h. cc)
    | inr made ↦ elim (Option-cases git.checkout) [
      | inl failed ↦ rw (missing, made, failed) (λ d h. cc)
      | inr (commit, e) ↦ rw (missing, made, e) (refl, commit, refl, refl)
    ]
  ]
]

finish_load-reply : (k : Text) (r : Reply) (l : Loader) → (finish_load k r l).0 ≡ r
finish_load-reply k (dag d) l = refl
finish_load-reply k clone_failed l = refl
finish_load-reply k fetch_failed l = refl
finish_load-reply k checkout_failed l = refl
finish_load-reply k not_found l = refl
finish_load-reply k exec_failed l = refl
finish_load-reply k unmarshal_failed l = refl

-- The cache is as it was, or has the returned workflow in front.
Grows : Text → Loader → Reply × Loader → Type 0
Grows k l (r, l') =
    (l'.cache ≡ l.cache) ⊎ ((d : WorkflowDag) × (r ≡ dag d) × (l'.cache ≡ (k, d) ∷ l.cache))

finish_load-Grows : (k : Text) (r : Reply) (l : Loader) → Grows k l (finish_load k r l)
unfolding Grows
finish_load-Grows k (dag d) l = inr (d, refl, refl)
finish_load-Grows k clone_failed l = inl refl
finish_load-Grows k fetch_failed l = inl refl
finish_load-Grows k checkout_failed l = inl refl
finish_load-Grows k not_found l = inl refl
finish_load-Grows k exec_failed l = inl refl
finish_load-Grows k unmarshal_failed l = inl refl

module _ (evaluate : Option ℕ → Text → Reply) where
  -- In a call of `Load` that finds the loader `l`, the clone is made or fetched, the version is
  -- checked out, and the workflow is what its file gives at the commit that this comes to.
  pub record Gives (git : GitReplies) (l : Loader) (name : Text) (d : WorkflowDag) : Type 0 where
    pub updated : (if l.clone.cloned then git.fetch_fails else git.clone_fails) ≡ false
    pub commit : ℕ
    pub resolved : git.checkout ≡ some commit
    pub given : evaluate (some commit) name ≡ dag d

  -- The loaders after some calls of `Load`, for names without "@".
  pub data Reached : Loader → Type 0 where
    begin : (c : Clone) → Reached (new_loader c)
    loaded :
        {l : Loader} (git : GitReplies) (name version : Text)
        → Reached l
        → NoAt name
        → Reached (load evaluate git name version l).1

  -- One of the calls was for this name and version, and gave the workflow.
  unfoldable pub GivenBefore :
      {l : Loader} → Reached l → (name version : Text) → WorkflowDag → Type 0
  GivenBefore (begin c) n v d = ⊥
  GivenBefore (loaded {l} git name version before no_at) n v d =
      ((name ≡ n) × (version ≡ v) × Gives git l n d) ⊎ GivenBefore before n v d

  run_workflow-Gives :
      (git : GitReplies) (name version : Text) (l : Loader) (d : WorkflowDag)
      (ensured : Option Reply × Clone)
      → IsCheckedOut git l.clone ensured
      → (run_workflow evaluate (key name version) name l ensured).0 ≡ dag d
      → Gives git l name d
  unfolding IsCheckedOut
  run_workflow-Gives git name version l d (some e, c) fails h = absurd (fails d h)
  run_workflow-Gives git name version l d (none, c) (updated, commit, resolved, at_commit) h =
      record {
        updated = updated;
        commit = commit;
        resolved = resolved;
        given =
            ap (λ o. evaluate o name) (sym at_commit)
            ∙ sym (
                finish_load-reply (key name version) (evaluate c.head name)
                  (record l { clone = c }))
            ∙ h;
      }

  load_missing-Gives :
      (git : GitReplies) (name version : Text) (l : Loader) (d : WorkflowDag)
      → lookup (key name version) l.cache ≡ none
      → (load evaluate git name version l).0 ≡ dag d
      → Gives git l name d
  unfolding load
  load_missing-Gives git name version l d missing h =
      run_workflow-Gives git name version l d (ensure_repo git l.clone)
        (ensure_repo-IsCheckedOut git l.clone)
        (sym (ap (λ o. (load_missing evaluate git name version l o).0) missing) ∙ h)

  load-found :
      (git : GitReplies) (name version : Text) (l : Loader) (d : WorkflowDag)
      → lookup (key name version) l.cache ≡ some d
      → load evaluate git name version l ≡ (dag d, l)
  unfolding load
  load-found git name version l d found = ap (load_missing evaluate git name version l) found

  run_workflow-Grows :
      (name version : Text) (l : Loader) (ensured : Option Reply × Clone)
      → Grows (key name version) l (run_workflow evaluate (key name version) name l ensured)
  unfolding Grows
  run_workflow-Grows name version l (some e, c) = inl refl
  run_workflow-Grows name version l (none, c) =
      finish_load-Grows (key name version) (evaluate c.head name) (record l { clone = c })

  load-Grows :
      (git : GitReplies) (name version : Text) (l : Loader)
      → lookup (key name version) l.cache ≡ none
      → Grows (key name version) l (load evaluate git name version l)
  unfolding load
  load-Grows git name version l missing =
      subst (λ o. Grows (key name version) l (load_missing evaluate git name version l o))
        (sym missing) (run_workflow-Grows name version l (ensure_repo git l.clone))

  -- What is cached was given before.
  IsFaithful : {l : Loader} → Reached l → Type 0
  IsFaithful {l} reached =
      (name version : Text) (d : WorkflowDag)
      → NoAt name
      → lookup (key name version) l.cache ≡ some d
      → GivenBefore reached name version d

  lookup-front :
      (name version n v : Text) (d e : WorkflowDag) (cache : List (Text × WorkflowDag))
      → NoAt name
      → NoAt n
      → lookup (key n v) ((key name version, d) ∷ cache) ≡ some e
      → ((name ≡ n) × (version ≡ v) × (d ≡ e)) ⊎ (lookup (key n v) cache ≡ some e)
  unfolding lookup
  lookup-front name version n v d e cache no_at no_at' found =
      elim (Bool-cases (key name version == key n v)) [
        | inl same ↦
            let (names, versions) =
              key-injective name n version v no_at no_at'
                ((==_iff (key name version) (key n v)).0 same) in
            inl (names, versions, some_inj (rw same at found))
        | inr other ↦ inr (rw other at found)
      ]

  loaded-IsFaithful :
      {l : Loader} (git : GitReplies) (name version : Text) (before : Reached l) (no_at : NoAt name)
      → IsFaithful before
      → IsFaithful (loaded git name version before no_at)
  unfolding IsFaithful GivenBefore Grows
  loaded-IsFaithful {l} git name version before no_at faithful n v e no_at' found =
      elim (Option-cases (lookup (key name version) l.cache)) [
        | inr (d, cached) ↦
            let same = ap (λ p. p.1.cache) (load-found git name version l d cached) in
            inr (faithful n v e no_at' (sym (ap (lookup (key n v)) same) ∙ found))
        | inl missing ↦ elim (load-Grows git name version l missing) [
          | inl same ↦ inr (faithful n v e no_at' (sym (ap (lookup (key n v)) same) ∙ found))
          | inr (d, reply, same) ↦
              elim (lookup-front name version n v d e l.cache no_at no_at'
                (sym (ap (lookup (key n v)) same) ∙ found)) [
                  | inl (names, versions, dags) ↦ inl (
                    names,
                    versions,
                    subst (λ m. Gives git l m e) names
                        (load_missing-Gives git name version l e missing (reply ∙ ap dag dags)),
                  )
                  | inr old ↦ inr (faithful n v e no_at' old)
                ]
        ]
      ]

  Reached-IsFaithful : {l : Loader} (reached : Reached l) → IsFaithful reached
  unfolding IsFaithful lookup
  Reached-IsFaithful (begin c) = λ n v e no_at found. cc found
  Reached-IsFaithful (loaded git name version before no_at) =
      loaded-IsFaithful git name version before no_at (Reached-IsFaithful before)

  -- After any calls of Load, one after the other, whatever git does in each, a call that returns a
  -- workflow either finds it in the cache, where an earlier call for the same name and version has
  -- given it; or finds none there, and gives it itself: the clone is made, or fetched where it is
  -- there, the version is checked out, and the workflow is what the file of that name gives at the
  -- commit that this comes to. The names have no "@". A version that moves to another commit later
  -- is not looked at again.
  pub load-Gives :
      (git : GitReplies) (name version : Text) (d : WorkflowDag) {l : Loader} (reached : Reached l)
      → NoAt name
      → (load evaluate git name version l).0 ≡ dag d
      → ((lookup (key name version) l.cache ≡ some d) × GivenBefore reached name version d)
        ⊎ ((lookup (key name version) l.cache ≡ none) × Gives git l name d)
  unfolding IsFaithful
  load-Gives git name version d {l} reached no_at h =
      elim (Option-cases (lookup (key name version) l.cache)) [
        | inl missing ↦ inr (missing, load_missing-Gives git name version l d missing h)
        | inr (e, cached) ↦
            let replied = ap (λ p. p.0) (load-found git name version l e cached) in
            let same : e ≡ d = cc in
            let found = cached ∙ ap some same in
            inl (found, Reached-IsFaithful reached name version d no_at found)
      ]
