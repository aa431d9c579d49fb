-- ===== src/Pipeline/Manager/Creating.antt =====
-- `CreateRun`: the row of a new run.
use brazier.Base.{
  ℕ, ap, Text, ◌==◌, ==_iff, ==_refl, ◌≡◌, refl, true, false, none, some, List, [], ◌∷◌, ◌++◌,
  arith, if◌then◌else◌, Bool-cases, inl, inr, ◌⊎◌,
}
use brazier.Db
use brazier.Db.{NodeState, RunState, Tables, PipelineRun, has_run, find_run}
use brazier.Db.Store
use brazier.Db.Store.{Env, Store}

pub has_run-find_run :
    (id : Text) (runs : List PipelineRun) → has_run id runs ≡ false → find_run id runs ≡ none
unfolding find_run
has_run-find_run id [] h = refl
has_run-find_run id (r ∷ runs) h = ground (arith, has_run-find_run id runs)

pub find_run-snoc :
    (id : Text) (runs : List PipelineRun) (r : PipelineRun)
    → find_run r.id runs ≡ none
    → find_run id (runs ++ r ∷ []) ≡ (if r.id == id then some r else find_run id runs)
unfolding find_run
find_run-snoc id [] r h = refl
find_run-snoc id (x ∷ runs) r h =
    ground (arith, find_run-snoc id runs r, ==_iff x.id r.id, ==_iff x.id id, ==_iff r.id id)

-- A new last row is the one that is updated.
pub set_state-snoc :
    (now : ℕ) (state : RunState) (runs : List PipelineRun) (r : PipelineRun)
    → find_run r.id runs ≡ none
    → Db.set_state now r.id state (runs ++ r ∷ [])
      ≡ runs ++ record r { state = state; updated_at = now } ∷ []
unfolding find_run Db.set_state
set_state-snoc now state [] r h = rw (==_refl r.id) refl
set_state-snoc now state (x ∷ runs) r h = elim (Bool-cases (x.id == r.id)) [
  | inl same ↦ cc (rw same at h)
  | inr other ↦ rw other (ap (λ rest. x ∷ rest) (set_state-snoc now state runs r (rw other at h)))
]

pub create_run-cases :
    (env : Env) (r : PipelineRun) (s : Store)
    → (((Store.create_run env r s).0 ≡ false) × ((Store.create_run env r s).1.tables ≡ s.tables))
      ⊎ (((Store.create_run env r s).0 ≡ true)
          × (find_run r.id s.tables.runs ≡ none)
          × ((Store.create_run env r s).1.tables
              ≡ record s.tables { runs = s.tables.runs ++ r ∷ [] }))
unfolding Store.create_run Store.execute Db.create_run
create_run-cases env r s = elim (Bool-cases (env.fails s.calls)) [
  | inl failed ↦ rw failed (inl (refl, refl))
  | inr fine ↦ elim (Bool-cases (has_run r.id s.tables.runs)) [
    | inl taken ↦ rw (fine, taken) (inl (refl, refl))
    | inr free ↦ rw (fine, free) (inr (refl, has_run-find_run r.id s.tables.runs free, refl))
  ]
]
