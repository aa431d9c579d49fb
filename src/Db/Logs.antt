-- ===== src/Db/Logs.antt =====
-- Reading logs and runs: the order in which the rows come back.
use mathlib.Core.List.{Perm}
use brazier.Base.{
  ℕ, zero, suc, ◌≤◌, ◌<◌, Text, ◌≡◌, refl, ap, Bool, true, false, List, [], ◌∷◌, length, All, keep,
  arith, Bool-cases, inl, inr,
}
use brazier.Db.{
  PipelineRun, LogRow, Tables, earlier, newer, of_job, chunks_of, order_by, get_logs, take,
  list_runs,
}
use brazier.Db.Keys.{Ascending, IsKeyed}
use brazier.Db.Sorting.{Ordered, order_by-perm, order_by-Ordered, order_by_of_Ordered}

pub earlier_total : (r s : LogRow) → earlier r s ≡ false → earlier s r ≡ true
earlier_total r s h = ground arith

pub earlier_trans : (r s t : LogRow) → earlier r s ≡ true → earlier s t ≡ true → earlier r t ≡ true
earlier_trans r s t h k = ground arith

newer_total : (r s : PipelineRun) → newer r s ≡ false → newer s r ≡ true
newer_total r s h = ground arith

newer_trans : (r s t : PipelineRun) → newer r s ≡ true → newer s t ≡ true → newer r t ≡ true
newer_trans r s t h k = ground arith

-- GetLogs returns exactly the chunks of the job in the run, by time and then by the order in which
-- they were stored.
pub get_logs-Ordered :
    (run_id job_id : Text) (t : Tables)
    → (rows : List LogRow) × (get_logs run_id job_id t ≡ chunks_of rows)
      × Ordered earlier rows
      × Perm rows (keep (of_job run_id job_id) t.log_chunks)
unfolding get_logs
get_logs-Ordered run_id job_id t =
    let found = keep (of_job run_id job_id) t.log_chunks in
    (
      order_by earlier found,
      refl,
      order_by-Ordered earlier earlier_total earlier_trans found,
      order_by-perm earlier found,
    )

-- The timestamps do not fall, from `low` on.
abbrev pub Growing : ℕ → List LogRow → Type 0
Growing low [] = Unit
Growing low (r ∷ rs) = (low ≤ r.chunk.timestamp) × Growing r.chunk.timestamp rs

pub All-keep :
    (P : LogRow → Type 0) (p : LogRow → Bool) (rows : List LogRow)
    → All P rows
    → All P (keep p rows)
All-keep P p [] h = tt
All-keep P p (r ∷ rows) h = elim (Bool-cases (p r)) [
  | inl kept ↦ rw kept (h.0, All-keep P p rows h.1)
  | inr dropped ↦ rw dropped (All-keep P p rows h.1)
]

earlier-All :
    (r : LogRow) (low time : ℕ) (rows : List LogRow)
    → r.id < low
    → r.chunk.timestamp ≤ time
    → Ascending low rows
    → Growing time rows
    → All (λ s. earlier r s ≡ true) rows
earlier-All r low time [] below before ids times = tt
earlier-All r low time (s ∷ rows) below before ids times = (
  ground arith,
  earlier-All r (suc s.id) s.chunk.timestamp rows (omega arith) (omega arith) ids.1 times.1,
)

keep-Ordered :
    (p : LogRow → Bool) (low time : ℕ) (rows : List LogRow)
    → Ascending low rows
    → Growing time rows
    → Ordered earlier (keep p rows)
keep-Ordered p low time [] ids times = tt
keep-Ordered p low time (r ∷ rows) ids times =
    let rest = keep-Ordered p (suc r.id) r.chunk.timestamp rows ids.1 times.1 in
    elim (Bool-cases (p r)) [
      | inl kept ↦ rw kept (
        All-keep (λ s. earlier r s ≡ true) p rows
            (earlier-All r (suc r.id) r.chunk.timestamp rows (omega arith) (omega arith) ids.1
              times.1),
        rest,
      )
      | inr dropped ↦ rw dropped rest
    ]

-- Where the clocks of the agents do not run backwards, GetLogs returns the lines of a job in the
-- order in which they were appended.
pub get_logs_in_order :
    (run_id job_id : Text) (t : Tables)
    → IsKeyed t
    → Growing 0 t.log_chunks
    → get_logs run_id job_id t ≡ chunks_of (keep (of_job run_id job_id) t.log_chunks)
unfolding get_logs
get_logs_in_order run_id job_id t k times = ap chunks_of (
    order_by_of_Ordered earlier (keep (of_job run_id job_id) t.log_chunks)
      (keep-Ordered (of_job run_id job_id) 1 0 t.log_chunks k.ascending times))

take-All : (P : PipelineRun → Type 0) (n : ℕ) (rs : List PipelineRun) → All P rs → All P (take n rs)
take-All P zero rs h = tt
take-All P (suc n) [] h = tt
take-All P (suc n) (r ∷ rs) h = (h.0, take-All P n rs h.1)

take-Ordered : (n : ℕ) (rs : List PipelineRun) → Ordered newer rs → Ordered newer (take n rs)
take-Ordered zero rs h = tt
take-Ordered (suc n) [] h = tt
take-Ordered (suc n) (r ∷ rs) h = (take-All (λ s. newer r s ≡ true) n rs h.0, take-Ordered n rs h.1)

length-take : (n : ℕ) (rs : List PipelineRun) → length (take n rs) ≤ n
length-take zero rs = omega arith
length-take (suc n) [] = omega arith
length-take (suc n) (r ∷ rs) = omega (arith, length-take n rs)

-- ListRuns returns at most `limit` runs, the newest first.
pub list_runs-Ordered :
    (project : Text) (limit : ℕ) (t : Tables)
    → (length (list_runs project limit t) ≤ limit) × Ordered newer (list_runs project limit t)
unfolding list_runs
list_runs-Ordered project limit t =
    (length-take limit _, take-Ordered limit _ (order_by-Ordered newer newer_total newer_trans _))
