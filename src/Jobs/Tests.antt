-- ===== src/Jobs/Tests.antt =====
-- Runs of the job queue of src/functions/bot_jobs.py, and the theorems on them.
use vakant.Prelude.{◌≡◌, ◌≢◌, refl, arith, none, some, List, [], ◌∷◌, find}
use vakant.Prelude.Text.{Text, codes, text_eq}
use vakant.Jobs.{
  Job, Table, running, stale_job_seconds, new_job, enqueue_job, find_pending_job, post_now,
  run_claimed_job, reap_stale_jobs, id_of, timed_out,
}
use vakant.Jobs.Pollers.{
  Event, enqueues, selects, takes, dies, ends, reaps, happen, history, nothing_queued, IsDistinct,
  AllTaken,
}
use vakant.Jobs.Pollers.Once.{history-IsDistinct}
use vakant.Jobs.Pending.{is_unfinished_of, find_pending_job-reap_stale_jobs}

abbrev post_kind : Text
post_kind = codes "auto_post.post_now"

-- Two pollers read the same row: the first wins it, the second does not. Its process dies, the
-- reaper fails the row, and the next job is run.
abbrev race : List Event
race =
    enqueues 1000 post_kind (codes "{}") (some 1)
    ∷ enqueues 1001 (codes "settings.reload") (codes "{}") none
    ∷ selects 0
    ∷ selects 1
    ∷ takes 0 1005
    ∷ takes 1 1005
    ∷ dies 0
    ∷ reaps 1200 stale_job_seconds
    ∷ selects 1
    ∷ takes 1 1201
    ∷ ends 1 1202 timed_out
    ∷ []

race_handed : (history race nothing_queued).handed ≡ 2 ∷ 1 ∷ []
unfolding history happen enqueue_job reap_stale_jobs run_claimed_job
race_handed = refl

history-IsDistinct_example :
    IsDistinct (history race nothing_queued).handed
    × AllTaken (history race nothing_queued).handed (history race nothing_queued).table
history-IsDistinct_example = history-IsDistinct race

abbrev left_behind : Job
left_behind = record (new_job 1000 post_kind (codes "{}") none 1) {
  status = running;
  started_at = some 1005;
}

find_pending_job-reap_stale_jobs_example :
    find_pending_job 1200 post_kind (left_behind ∷ [])
    ≡ id_of (
        find
          (is_unfinished_of post_kind)
          (reap_stale_jobs 1200 stale_job_seconds (left_behind ∷ [])).1)
find_pending_job-reap_stale_jobs_example =
    find_pending_job-reap_stale_jobs 1200 post_kind (left_behind ∷ []) (omega arith)

abbrev crowded : Table
crowded = record { jobs = left_behind ∷ []; job_seq = 1 }

posted : (post_now 1200 post_kind (codes "{}") (some 7) crowded).0 ≢ none
unfolding post_now find_pending_job enqueue_job text_eq
posted e = cc
