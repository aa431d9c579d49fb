-- ===== src/Db/Postgres/Reads.antt =====
-- Reading a row by its key, in whatever order the server returns rows.
use mathlib.Core.List.{Permᴰ}
use brazier.Base.{
  Text, ◌==◌, ==_iff, ◌≡◌, refl, ap, Bool, false, ◌&&◌, Option, none, some, List, [], ◌∷◌, keep,
  Bool-cases, inl, inr, arith,
}
use brazier.Db.{PipelineRun, NodeRecord, has_run, find_run, find_node}
use brazier.Db.Keys.{UniqueRuns, UniqueNodes}
use brazier.Db.Postgres.{first_row}
use brazier.Db.Postgres.Rows.{one-Permᴰ, nil-Permᴰ}

unfoldable pub rows_of : {A : Type 0} → Option A → List A
rows_of none = []
rows_of (some x) = x ∷ []

pub first_row-any_order :
    {A : Type 0} (found : Option A) (rows : List A)
    → Permᴰ rows (rows_of found)
    → first_row rows ≡ found
unfolding rows_of
first_row-any_order none rows perm = rw (nil-Permᴰ rows [] perm refl) refl
first_row-any_order (some r) rows perm = rw (one-Permᴰ r rows (r ∷ []) perm refl) refl

keep-has_run :
    (id : Text) (runs : List PipelineRun)
    → has_run id runs ≡ false
    → keep (λ r. r.id == id) runs ≡ []
keep-has_run id [] h = refl
keep-has_run id (r ∷ runs) h = ground (arith, keep-has_run id runs)

pub keep-find_run :
    (id : Text) (runs : List PipelineRun)
    → UniqueRuns runs
    → keep (λ r. r.id == id) runs ≡ rows_of (find_run id runs)
unfolding rows_of find_run
keep-find_run id [] h = refl
keep-find_run id (r ∷ runs) h = elim (Bool-cases (r.id == id)) [
  | inl here ↦
      let same = (==_iff r.id id).0 here in
      rw here (ap (λ rs. r ∷ rs) (keep-has_run id runs (rw (← same) h.0)))
  | inr other ↦ rw other (keep-find_run id runs h.1)
]

abbrev pub has_key : Text → Text → NodeRecord → Bool
has_key run_id node_id m = m.run_id == run_id && m.node_id == node_id

keep-no_node :
    (run_id node_id : Text) (ms : List NodeRecord)
    → find_node run_id node_id ms ≡ none
    → keep (has_key run_id node_id) ms ≡ []
unfolding find_node
keep-no_node run_id node_id [] h = refl
keep-no_node run_id node_id (m ∷ ms) h = ground (arith, keep-no_node run_id node_id ms)

pub keep-find_node :
    (run_id node_id : Text) (ms : List NodeRecord)
    → UniqueNodes ms
    → keep (has_key run_id node_id) ms ≡ rows_of (find_node run_id node_id ms)
unfolding rows_of find_node
keep-find_node run_id node_id [] h = refl
keep-find_node run_id node_id (m ∷ ms) h = elim (Bool-cases (has_key run_id node_id m)) [
  | inl here ↦
      let same : (m.run_id ≡ run_id) × (m.node_id ≡ node_id) =
        ground (arith, ==_iff m.run_id run_id, ==_iff m.node_id node_id) in
      rw here (ap (λ rs. m ∷ rs) (keep-no_node run_id node_id ms (rw (← same.0, ← same.1) h.0)))
  | inr other ↦ rw other (keep-find_node run_id node_id ms h.1)
]
