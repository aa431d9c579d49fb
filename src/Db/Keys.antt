-- ===== src/Db/Keys.antt =====
-- The primary keys of the tables: what a statement does to the row of each key, and that no
-- statement makes two rows with one key.
use brazier.Base.{
  some_inj, subst, Bool-cases, inl, inr, ℕ, suc, ◌≤◌, ◌<◌, Text, ◌==◌, ==_iff, ◌≡◌, refl, Bool,
  false, ◌&&◌, ◌||◌, Option, none, some, List, [], ◌∷◌, ◌++◌, All, All-snoc, arith, if◌then◌else◌,
}
use brazier.Db.{
  RunState, PipelineRun, NodeRecord, LogChunk, LogRow, Tables, has_run, create_run, find_run,
  get_run, set_state, update_run_state, same_key, upsert, upsert_node, find_node, get_node,
  append_log,
}

abbrev pub is_key : Text → Text → NodeRecord → Bool
is_key run_id node_id n = n.run_id == run_id && n.node_id == node_id

-- After an upsert the row of the key that was written is the new one, and every other row is as
-- before.
pub find_node-upsert :
    (run_id node_id : Text) (n : NodeRecord) (ms : List NodeRecord)
    → find_node run_id node_id (upsert n ms)
      ≡ (if is_key run_id node_id n then some n else find_node run_id node_id ms)
unfolding find_node upsert
find_node-upsert run_id node_id n [] = refl
find_node-upsert run_id node_id n (m ∷ ms) = ground (
  arith,
  find_node-upsert run_id node_id n ms,
  ==_iff m.run_id n.run_id,
  ==_iff m.node_id n.node_id,
  ==_iff m.run_id run_id,
  ==_iff m.node_id node_id,
  ==_iff n.run_id run_id,
  ==_iff n.node_id node_id,
)

-- UpsertNode and GetNode: the record that was written is read back, with the time of the write,
-- and the record of every other key is not touched.
pub get_node-upsert_node :
    (now : ℕ) (run_id node_id : Text) (n : NodeRecord) (t : Tables)
    → get_node run_id node_id (upsert_node now n t) ≡ (
        if is_key run_id node_id n
        then some (record n { updated_at = now })
        else get_node run_id node_id t)
unfolding get_node upsert_node
get_node-upsert_node now run_id node_id n t =
    find_node-upsert run_id node_id (record n { updated_at = now }) t.nodes

unfoldable pub touched : ℕ → RunState → Option PipelineRun → Option PipelineRun
touched now state none = none
touched now state (some r) = some (record r { state = state; updated_at = now })

find_run-set_state :
    (now : ℕ) (id j : Text) (state : RunState) (runs : List PipelineRun)
    → find_run j (set_state now id state runs)
      ≡ (if id == j then touched now state (find_run j runs) else find_run j runs)
unfolding find_run set_state touched
find_run-set_state now id j state [] = ground arith
find_run-set_state now id j state (r ∷ runs) =
    ground
      (arith, find_run-set_state now id j state runs, ==_iff r.id id, ==_iff r.id j, ==_iff id j)

-- UpdateRunState changes the state and the time of one run and leaves every other run alone; a run
-- that does not exist is not made.
pub get_run-update_run_state :
    (now : ℕ) (id j : Text) (state : RunState) (t : Tables)
    → get_run j (update_run_state now id state t)
      ≡ (if id == j then touched now state (get_run j t) else get_run j t)
unfolding get_run update_run_state
get_run-update_run_state now id j state t = find_run-set_state now id j state t.runs

abbrev pub UniqueNodes : List NodeRecord → Type 0
UniqueNodes [] = Unit
UniqueNodes (n ∷ ns) = (find_node n.run_id n.node_id ns ≡ none) × UniqueNodes ns

abbrev pub UniqueRuns : List PipelineRun → Type 0
UniqueRuns [] = Unit
UniqueRuns (r ∷ rs) = (has_run r.id rs ≡ false) × UniqueRuns rs

-- The ids of the rows grow, from `low` on.
abbrev pub Ascending : ℕ → List LogRow → Type 0
Ascending low [] = Unit
Ascending low (r ∷ rs) = (low ≤ r.id) × Ascending (suc r.id) rs

-- The constraints of the schema.
pub record IsKeyed (t : Tables) : Type 0 where
  pub nodes : UniqueNodes t.nodes
  pub runs : UniqueRuns t.runs
  pub ascending : Ascending 1 t.log_chunks
  pub below : All (λ r. r.id < t.next_log) t.log_chunks
  pub counted : 1 ≤ t.next_log

upsert-UniqueNodes :
    (n : NodeRecord) (ms : List NodeRecord) → UniqueNodes ms → UniqueNodes (upsert n ms)
unfolding upsert find_node
upsert-UniqueNodes n [] h = (refl, tt)
upsert-UniqueNodes n (m ∷ ms) h = elim (Bool-cases (same_key m n)) [
  | inl same ↦
      rw same (ground (arith, h.0, ==_iff m.run_id n.run_id, ==_iff m.node_id n.node_id), h.1)
  | inr other ↦ rw other (
    ground (
      arith,
      find_node-upsert m.run_id m.node_id n ms,
      ==_iff m.run_id n.run_id,
      ==_iff m.node_id n.node_id,
      ==_iff n.run_id m.run_id,
      ==_iff n.node_id m.node_id,
    ),
    upsert-UniqueNodes n ms h.1,
  )
]

has_run-set_state :
    (now : ℕ) (id j : Text) (state : RunState) (runs : List PipelineRun)
    → has_run j (set_state now id state runs) ≡ has_run j runs
unfolding set_state
has_run-set_state now id j state [] = refl
has_run-set_state now id j state (r ∷ runs) = ground (arith, has_run-set_state now id j state runs)

set_state-UniqueRuns :
    (now : ℕ) (id : Text) (state : RunState) (runs : List PipelineRun)
    → UniqueRuns runs
    → UniqueRuns (set_state now id state runs)
unfolding set_state
set_state-UniqueRuns now id state [] h = tt
set_state-UniqueRuns now id state (r ∷ runs) h = (
  ground (arith, h.0, has_run-set_state now id r.id state runs),
  set_state-UniqueRuns now id state runs h.1,
)

has_run-snoc :
    (j : Text) (r : PipelineRun) (runs : List PipelineRun)
    → has_run j (runs ++ r ∷ []) ≡ (has_run j runs || r.id == j)
has_run-snoc j r [] = ground arith
has_run-snoc j r (s ∷ runs) = ground (arith, has_run-snoc j r runs)

UniqueRuns-snoc :
    (r : PipelineRun) (runs : List PipelineRun)
    → UniqueRuns runs
    → has_run r.id runs ≡ false
    → UniqueRuns (runs ++ r ∷ [])
UniqueRuns-snoc r [] h fresh = (refl, tt)
UniqueRuns-snoc r (s ∷ runs) h fresh = (
  ground (arith, h.0, has_run-snoc s.id r runs, ==_iff s.id r.id, ==_iff r.id s.id),
  UniqueRuns-snoc r runs h.1 (ground arith),
)

pub Ascending-snoc :
    (low next : ℕ) (r : LogRow) (rows : List LogRow)
    → Ascending low rows
    → All (λ x. x.id < next) rows
    → low ≤ next
    → r.id ≡ next
    → Ascending low (rows ++ r ∷ [])
Ascending-snoc low next r [] h below le e = omega arith
Ascending-snoc low next r (x ∷ rows) h below le e =
    (h.0, Ascending-snoc (suc x.id) next r rows h.1 below.1 below.0 e)

below_more :
    (next : ℕ) (rows : List LogRow) → All (λ r. r.id < next) rows → All (λ r. r.id < suc next) rows
below_more next [] h = tt
below_more next (r ∷ rows) h = (omega arith, below_more next rows h.1)

-- The statements that write.
pub data Statement : Type 0 where
  create : PipelineRun → Statement
  update : Text → RunState → Statement
  put : NodeRecord → Statement
  append : LogChunk → Statement

abbrev pub apply : ℕ → Statement → Tables → Option Tables
apply now (create run) t = create_run run t
apply now (update id state) t = some (update_run_state now id state t)
apply now (put n) t = some (upsert_node now n t)
apply now (append chunk) t = some (append_log chunk t)

pub append_log-IsKeyed : (chunk : LogChunk) (t : Tables) → IsKeyed t → IsKeyed (append_log chunk t)
unfolding append_log
append_log-IsKeyed chunk t k = record {
  nodes = k.nodes;
  runs = k.runs;
  ascending =
      Ascending-snoc 1 t.next_log (record { id = t.next_log; chunk = chunk }) t.log_chunks
        k.ascending k.below k.counted refl;
  below =
      All-snoc (λ r. r.id < suc t.next_log) t.log_chunks _
        (below_more t.next_log t.log_chunks k.below) (omega arith);
  counted = omega arith;
}

create_run-IsKeyed :
    (run : PipelineRun) (t t' : Tables) → create_run run t ≡ some t' → IsKeyed t → IsKeyed t'
unfolding create_run
create_run-IsKeyed run t t' e k = elim (Bool-cases (has_run run.id t.runs)) [
  | inl taken ↦ cc (rw (taken, create_run) at e)
  | inr fresh ↦
      let made : record t { runs = t.runs ++ run ∷ [] } ≡ t' = ground arith in
      subst IsKeyed made (record {
        nodes = k.nodes;
        runs = UniqueRuns-snoc run t.runs k.runs fresh;
        ascending = k.ascending;
        below = k.below;
        counted = k.counted;
      })
]

-- A statement that succeeds keeps the primary keys unique and the log ids growing.
pub apply-IsKeyed :
    (now : ℕ) (statement : Statement) (t t' : Tables)
    → apply now statement t ≡ some t'
    → IsKeyed t
    → IsKeyed t'
unfolding update_run_state upsert_node
apply-IsKeyed now (create run) t t' e k = create_run-IsKeyed run t t' e k
apply-IsKeyed now (update id state) t t' e k = subst IsKeyed (some_inj e) (record {
  nodes = k.nodes;
  runs = set_state-UniqueRuns now id state t.runs k.runs;
  ascending = k.ascending;
  below = k.below;
  counted = k.counted;
})
apply-IsKeyed now (put n) t t' e k = subst IsKeyed (some_inj e) (record {
  nodes = upsert-UniqueNodes (record n { updated_at = now }) t.nodes k.nodes;
  runs = k.runs;
  ascending = k.ascending;
  below = k.below;
  counted = k.counted;
})
apply-IsKeyed now (append chunk) t t' e k =
    subst IsKeyed (some_inj e) (append_log-IsKeyed chunk t k)
