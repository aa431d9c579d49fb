-- ===== src/Db/Postgres/Logs.antt =====
-- The order of the chunks of a job does not depend on the ids, as long as these grow.
use mathlib.Core.List.{Permᴰ}
use mathlib.Core.List.Permᴰ
use brazier.Base.{
  ℕ, suc, ◌≤◌, Text, ◌==◌, ◌≡◌, refl, sym, ◌∙◌, ap, Bool, true, false, ◌&&◌, List, [], ◌∷◌, All,
  All-weaken, keep, nat_eq, leb, Bool-cases, inl, inr, arith,
}
use brazier.Db.{LogChunk, LogRow, insert_by, order_by, earlier, of_job, chunks_of}
use brazier.Db.Keys.{Ascending}
use brazier.Db.Logs.{earlier_total, earlier_trans, All-keep}
use brazier.Db.Sorting.{All-order_by}
use brazier.Db.Postgres.Rows.{Apart, order_by-Permᴰ}

abbrev same_id : LogRow → LogRow → Bool
same_id r s = nat_eq r.id s.id

same_id_comm : (r s : LogRow) → same_id r s ≡ same_id s r
same_id_comm r s = ground arith

earlier_strict : (r s : LogRow) → same_id r s ≡ false → earlier r s ≡ true → earlier s r ≡ false
earlier_strict r s h k = ground arith

later_ids : (low : ℕ) (rows : List LogRow) → Ascending low rows → All (λ r. low ≤ r.id) rows
later_ids low [] h = tt
later_ids low (r ∷ rows) h =
    (h.0, All-weaken _ _ rows (λ s le. omega arith) (later_ids (suc r.id) rows h.1))

keep-Apart :
    (p : LogRow → Bool) (low : ℕ) (rows : List LogRow)
    → Ascending low rows
    → Apart same_id (keep p rows)
keep-Apart p low [] h = tt
keep-Apart p low (r ∷ rows) h =
    let rest = keep-Apart p (suc r.id) rows h.1 in
    elim (Bool-cases (p r)) [
      | inl kept ↦ rw kept (
        All-weaken (λ s. suc r.id ≤ s.id) _ (keep p rows) (λ s le. ground arith)
            (All-keep (λ s. suc r.id ≤ s.id) p rows (later_ids (suc r.id) rows h.1)),
        rest,
      )
      | inr dropped ↦ rw dropped rest
    ]

-- Growing ids do not tie, so the server's own order does not show.
pub order_by-any_order :
    (p : LogRow → Bool) (low : ℕ) (rows others : List LogRow)
    → Ascending low rows
    → Permᴰ others (keep p rows)
    → order_by earlier others ≡ order_by earlier (keep p rows)
order_by-any_order p low rows others ascending perm = sym (
    order_by-Permᴰ same_id same_id_comm earlier earlier_total earlier_trans earlier_strict
      (keep p rows) others (Permᴰ.symm perm) (keep-Apart p low rows ascending))

abbrev no_later : LogChunk → LogChunk → Bool
no_later c d = leb c.timestamp d.timestamp

abbrev chunk_of_job : Text → Text → LogChunk → Bool
chunk_of_job run_id job_id c = c.run_id == run_id && c.job_id == job_id

chunks_of-insert_by :
    (r : LogRow) (rows : List LogRow)
    → All (λ s. suc r.id ≤ s.id) rows
    → chunks_of (insert_by earlier r rows) ≡ insert_by no_later r.chunk (chunks_of rows)
unfolding insert_by
chunks_of-insert_by r [] h = refl
chunks_of-insert_by r (s ∷ rows) h = ground (arith, chunks_of-insert_by r rows h.1, h.0)

chunks_of-order_by :
    (run_id job_id : Text) (low : ℕ) (rows : List LogRow)
    → Ascending low rows
    → chunks_of (order_by earlier (keep (of_job run_id job_id) rows))
      ≡ order_by no_later (keep (chunk_of_job run_id job_id) (chunks_of rows))
unfolding order_by
chunks_of-order_by run_id job_id low [] h = refl
chunks_of-order_by run_id job_id low (r ∷ rows) h =
    let rest = chunks_of-order_by run_id job_id (suc r.id) rows h.1 in
    let later =
      All-order_by earlier (λ s. suc r.id ≤ s.id) (keep (of_job run_id job_id) rows)
        (All-keep (λ s. suc r.id ≤ s.id) (of_job run_id job_id) rows
          (later_ids (suc r.id) rows h.1)) in
    elim (Bool-cases (of_job run_id job_id r)) [
      | inl kept ↦ rw kept (
          chunks_of-insert_by r (order_by earlier (keep (of_job run_id job_id) rows)) later
          ∙ ap (insert_by no_later r.chunk) rest)
      | inr dropped ↦ rw dropped rest
    ]

pub chunks_of-same :
    (run_id job_id : Text) (low : ℕ) (rows others : List LogRow)
    → Ascending low rows
    → Ascending low others
    → chunks_of rows ≡ chunks_of others
    → chunks_of (order_by earlier (keep (of_job run_id job_id) rows))
      ≡ chunks_of (order_by earlier (keep (of_job run_id job_id) others))
chunks_of-same run_id job_id low rows others h k same =
    chunks_of-order_by run_id job_id low rows h
    ∙ ap (λ cs. order_by no_later (keep (chunk_of_job run_id job_id) cs)) same
    ∙ sym (chunks_of-order_by run_id job_id low others k)
