-- ===== src/Broadcast/Batch/Numbers.antt =====
-- The numbers that the broadcast tables have given out, in the transactions of
-- src/functions/broadcast_worker.py.
use vakant.Prelude.{ℕ, ◌≡◌, ◌≤◌, refl, Option, some, List, arith, ltb, ◌∙◌, if◌then◌else◌}
use vakant.Prelude.Text.{Text}
use vakant.Broadcast.{Job, Target, Queue, job_row, update_job}
use vakant.Broadcast.Rows.{weigh, Uncounted, job_row-update_all}
use vakant.Broadcast.Batch.{
  Claim, Delivery, claim_ids, write_plans, release, write_results, any_job, add_counts,
}
use vakant.Broadcast.Batch.Claims.{Held, weigh-claim_ids}
use vakant.Broadcast.Batch.Writes.{claims_of, weigh-write_plans, weigh-release}
use vakant.Broadcast.Batch.Counters.{write_results-Uncounted}

-- A row of a job that has no number yet.
abbrev pub beyond : ℕ → Target → ℕ
beyond n t = if ltb n t.broadcast_id then 1 else 0

-- The ids of jobs and rows are ids that were given out.
abbrev pub IsNumbered : Queue → Type 0
IsNumbered q =
    ((c : ℕ) (j : Job) → job_row c q.jobs ≡ some j → c ≤ q.job_seq)
    × (weigh (beyond q.job_seq) q.targets ≡ 0)

pub IsNumbered-jobs :
    (f : List Job → List Job) (q : Queue)
    → Uncounted f
    → IsNumbered q
    → IsNumbered (record q { jobs = f q.jobs })
IsNumbered-jobs f q keeps (ids, rows) =
    (λ c j' h. let (j, found, _, _, _) = keeps q.jobs c j' h in ids c j found, rows)

pub IsNumbered-claim_ids :
    (b now : ℕ) (ks : List ℕ) (q : Queue)
    → IsNumbered q
    → IsNumbered (record q { targets = (claim_ids b now ks q.targets).1 })
IsNumbered-claim_ids b now ks q (ids, rows) =
    (ids, weigh-claim_ids b now (beyond q.job_seq) (λ t d. refl) ks q.targets ∙ rows)

pub IsNumbered-write_results :
    (b now : ℕ) (rs : List Delivery) (file_id : Option Text) (xs : List Claim) (q : Queue)
    → Held b (claims_of rs xs) q.targets
    → IsNumbered q
    → IsNumbered (write_results b now rs file_id xs q)
unfolding write_results
IsNumbered-write_results b now rs file_id xs q held (ids, rows) = (found_before, unmoved)
  where
    found_before :
        (c : ℕ) (j' : Job)
        → job_row c (write_results b now rs file_id xs q).jobs ≡ some j'
        → c ≤ q.job_seq
    found_before c j' h =
        let (j, found, _, _, _) =
          write_results-Uncounted b now rs file_id (update_job b any_job (add_counts now rs) q.jobs)
            c j' h in
        let (j0, found0, _) =
          job_row-update_all c b any_job (add_counts now rs) q.jobs j (λ x. refl) (λ x. refl)
            found in
        ids c j0 found0

    row : Delivery → ℕ
    row r = if ltb q.job_seq b then 1 else 0

    unmoved : weigh (beyond q.job_seq) (release b xs (write_plans b now rs q.targets)) ≡ 0
    unmoved =
        let released =
          weigh-release b (beyond q.job_seq) (λ t d. refl) xs (write_plans b now rs q.targets) in
        let written =
          weigh-write_plans b now (beyond q.job_seq) row row
            (λ r t mine status attempts. (rw mine refl, rw mine refl)) rs xs q.targets held in
        omega (arith, released, written, rows)
