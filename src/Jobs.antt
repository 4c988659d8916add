-- ===== src/Jobs.antt =====
-- The job queue of the bot, src/functions/bot_jobs.py over the table `bot_jobs`
-- (src/db/migrations/m010_bot_jobs_autopost.py), with the route that fills it,
-- webapp/routers/admin_autopost.py.
--
-- The rows are in the order of their ids, oldest first. An UPDATE changes every row that its
-- WHERE takes, and its rowcount is their number. JSON stays text: what the codec does is left to
-- the caller. Times are unix seconds.
pub mod Pollers
pub mod Pending
mod Tests
use vakant.Prelude.{
  ℕ, ◌+◌, Bool, true, false, ◌&&◌, ◌||◌, not, Option, none, some, List, [], ◌∷◌, ◌++◌, map, length,
  keep, find, take, ltb, leb, ◌==◌, if◌then◌else◌, or_default, is_none, ◌≡◌, refl, Bool-cases, inl,
  inr, ap,
}
use vakant.Prelude.Text.{Text, codes, text_eq}

-- `bot_jobs.status`
pub data Status : Type 0 where
  queued running done failed : Status

-- A row of `bot_jobs`.
pub record Job : Type 0 where
  pub id : ℕ
  pub kind : Text
  pub payload_json : Text
  pub status : Status
  pub result_json : Option Text
  pub error : Option Text
  pub created_by : Option ℕ
  pub created_at : ℕ
  pub started_at : Option ℕ
  pub finished_at : Option ℕ

-- The table, with its AUTOINCREMENT counter.
pub record Table : Type 0 where
  pub jobs : List Job
  pub job_seq : ℕ

abbrev pub job_timeout_seconds : ℕ
job_timeout_seconds = 120

abbrev pub stale_job_seconds : ℕ
stale_job_seconds = job_timeout_seconds + 30

abbrev pub is_queued : Job → Bool
is_queued j = elim j.status [ queued ↦ true | _ ↦ false ]

abbrev pub is_running : Job → Bool
is_running j = elim j.status [ running ↦ true | _ ↦ false ]

-- `PENDING_STATUSES`
abbrev pub is_unfinished : Job → Bool
is_unfinished j = is_queued j || is_running j

-- `UPDATE bot_jobs SET ... WHERE test`, and its rowcount
abbrev pub update : (Job → Bool) → (Job → Job) → List Job → List Job
update test f [] = []
update test f (j ∷ js) = (if test j then f j else j) ∷ update test f js

abbrev pub rowcount : (Job → Bool) → List Job → ℕ
rowcount test js = length (keep test js)

abbrev pub new_job : ℕ → Text → Text → Option ℕ → ℕ → Job
new_job now kind payload_json created_by id = record {
  id = id;
  kind = kind;
  payload_json = payload_json;
  status = queued;
  result_json = none;
  error = none;
  created_by = created_by;
  created_at = now;
  started_at = none;
  finished_at = none;
}

-- `enqueue_job`: the id of the new row
unfoldable pub enqueue_job : ℕ → Text → Text → Option ℕ → Table → ℕ × Table
enqueue_job now kind payload_json created_by t = (
  t.job_seq + 1,
  record t {
    jobs = t.jobs ++ new_job now kind payload_json created_by (t.job_seq + 1) ∷ [];
    job_seq = t.job_seq + 1;
  },
)

-- `status = 'running' AND COALESCE(started_at, 0) < now - STALE_JOB_SECONDS`, in integers
abbrev pub is_dead_claim : ℕ → Job → Bool
is_dead_claim now j = is_running j && ltb (or_default 0 j.started_at + stale_job_seconds) now

abbrev pub still_pending : ℕ → Text → Job → Bool
still_pending now kind j = text_eq j.kind kind && is_unfinished j && not (is_dead_claim now j)

abbrev pub id_of : Option Job → Option ℕ
id_of none = none
id_of (some j) = some j.id

-- `find_pending_job`
unfoldable pub find_pending_job : ℕ → Text → List Job → Option ℕ
find_pending_job now kind js = id_of (find (still_pending now kind) js)

-- `post_now`: the id of the job that is on its way, or none and the id of a new one. The 409 is
-- the first case.
abbrev pub post_unless : Option ℕ → ℕ → Text → Text → Option ℕ → Table → Option ℕ × Table
post_unless (some pending) now kind payload_json created_by t = (none, t)
post_unless none now kind payload_json created_by t =
    let (id, t') = enqueue_job now kind payload_json created_by t in (some id, t')

unfoldable pub post_now : ℕ → Text → Text → Option ℕ → Table → Option ℕ × Table
post_now now kind payload_json created_by t =
    post_unless (find_pending_job now kind t.jobs) now kind payload_json created_by t

-- The SELECT of `claim_next_job`.
abbrev pub next_queued : List Job → Option Job
next_queued js = find is_queued js

-- ... and its UPDATE, in a transaction of its own: whether the poller won the row
abbrev pub claimable : ℕ → Job → Bool
claimable id j = (j.id == id) && is_queued j

abbrev pub claimed_row : ℕ → Job → Job
claimed_row now j = record j { status = running; started_at = some now }

abbrev pub claim : ℕ → ℕ → List Job → Bool × List Job
claim now id js = (rowcount (claimable id) js == 1, update (claimable id) (claimed_row now) js)

-- What comes of the handler of a job: its result in JSON, or an exception.
pub data Answer : Type 0 where
  unknown_kind timed_out was_cancelled : Answer
  returned : Text → Answer
  raised : Text → Answer

abbrev pub fail_with : ℕ → Text → Job → Job
fail_with now error j = record j { status = failed; error = some error; finished_at = some now }

abbrev pub done_with : ℕ → Text → Job → Job
done_with now result j = record j {
  status = done;
  result_json = some result;
  finished_at = some now;
}

-- A cancellation is recorded only on a row that is still running, any other end on the row.
abbrev pub is_recorded : Answer → ℕ → Job → Bool
is_recorded was_cancelled id j = (j.id == id) && is_running j
is_recorded _ id j = j.id == id

abbrev pub recorded : Answer → ℕ → Job → Job
recorded unknown_kind now j = fail_with now (codes "unknown job kind: " ++ j.kind) j
recorded timed_out now j = fail_with now (codes "timeout") j
recorded was_cancelled now j = fail_with now (codes "cancelled") j
recorded (returned result) now j = done_with now result j
recorded (raised message) now j = fail_with now (take 2000 message) j

-- `run_claimed_job`, from how its handler ended
unfoldable pub run_claimed_job : Answer → ℕ → ℕ → List Job → List Job
run_claimed_job answer now id js = update (is_recorded answer id) (recorded answer now) js

-- `status = 'running' AND (started_at IS NULL OR started_at < now - older_than)`
abbrev pub started_before : ℕ → ℕ → Option ℕ → Bool
started_before now older_than none = true
started_before now older_than (some at) = ltb (at + older_than) now

abbrev pub is_stale : ℕ → ℕ → Job → Bool
is_stale now older_than j = is_running j && started_before now older_than j.started_at

-- `reap_stale_jobs`: how many it failed
unfoldable pub reap_stale_jobs : ℕ → ℕ → List Job → ℕ × List Job
reap_stale_jobs now older_than js = (
  rowcount (is_stale now older_than) js,
  update (is_stale now older_than) (fail_with now (codes "stale: worker died")) js,
)
