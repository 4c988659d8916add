-- ===== src/Broadcast/Worker.antt =====
-- The worker, src/functions/broadcast_worker.py: `run_broadcast`, batch
-- by batch. The token bucket only spaces the sends, and is left out.
pub mod Runs
pub mod Spends
pub mod Ends
pub mod Stops
use vakant.Prelude.{
  ℕ, zero, suc, ◌+◌, ◌-◌, Bool, true, false, not, ◌&&◌, ◌||◌, Option, none, some, List, [], ◌∷◌,
  ltb, leb, ◌==◌, any, keep, map, ◌++◌, if◌then◌else◌, or_default, is_none,
}
use vakant.Prelude.Text.{Text}
use vakant.Broadcast.{
  Status, draft, queued, running, paused, cancelled, done, rejected, Job, Progress, is_pending,
  is_sending, ErrorKind, flood, Target, Queue, job_row, update_job,
}
use vakant.Broadcast.Control.{Action, set_broadcast_state}
use vakant.Broadcast.Outcome.{
  SendError, Sending, delivered, delivered_unparsed, error_of, failure_of, pause_for, remaining,
}
use vakant.Broadcast.Batch.{
  pending, sending, due, Claim, claim_batch, Delivery, write_results, any_job,
}

-- How a call of Telegram ends: with the file id of the answer, with an exception and its message,
-- or cut off by the cancellation of the worker.
pub data Reply : Type 0 where
  accepted : Option Text → Reply
  raised : SendError → Text → Reply
  interrupted : Reply

-- An action of an admin, at a time and on a job.
pub record Act : Type 0 where
  pub at : ℕ
  pub job : ℕ
  pub action : Action

unfoldable pub act_all : List Act → Queue → Queue
act_all [] q = q
act_all (a ∷ acts) q = act_all acts (set_broadcast_state a.at a.job a.action q).1

-- What the worker meets in a batch: the clock at its claim, at each send and at its write, the
-- answers of Telegram by recipient, the lower case of `str.lower`, the tries of its write that run
-- into a lock, whether it is cancelled during the write, and what admins do to the jobs between
-- its claim and its write.
pub record Weather : Type 0 where
  pub now : ℕ
  pub telegram : ℕ → Reply
  pub clock : ℕ → ℕ
  pub lowered : Text → Text
  pub wrote_at : ℕ
  pub locked : ℕ → Bool
  pub cut_off : Bool
  pub meanwhile : List Act

-- The end of the loop over a batch. The pause that a flood sets is waited out before the next.
pub record Round : Type 0 where
  pub results : List Delivery
  pub released : List Claim
  pub file_id : Option Text
  pub cancelled : Bool

abbrev pub seconds_of : Sending → ℕ
seconds_of (error_of flood message seconds) = or_default 0 seconds
seconds_of _ = 0

-- `pause.pause_for(...)` if the answer is a flood
abbrev pub pause_after : Sending → ℕ → ℕ → ℕ
pause_after (error_of flood message seconds) now until = pause_for now (or_default 0 seconds) until
pause_after _ now until = until

-- The file id that later sends of the job reuse: the first new one, if the job had none.
abbrev pub next_file_id : Bool → Sending → Option Text → Option Text
next_file_id true answer file_id = file_id
next_file_id false (delivered (some new)) none = some new
next_file_id false _ file_id = file_id

abbrev pub add_result : Delivery → Round → Round
add_result r round = record round { results = r ∷ round.results }

abbrev pub give_back : Option Text → List Claim → Bool → Round
give_back file_id xs was_cancelled = record {
  results = [];
  released = xs;
  file_id = file_id;
  cancelled = was_cancelled;
}

-- A reply to the send to the first recipient: the cancellation of the worker gives the rest back.
abbrev pub after_reply :
    Weather → Option Text → Claim → List Claim → (Sending → Round) → Reply → Round
after_reply w file_id x xs rest (accepted file) =
    add_result (record { claim = x; answer = delivered file }) (rest (delivered file))
after_reply w file_id x xs rest (raised e message) =
    add_result (record { claim = x; answer = failure_of w.lowered e message })
      (rest (failure_of w.lowered e message))
after_reply w file_id x xs rest interrupted = give_back file_id (x ∷ xs) true

-- The loop over the claimed recipients: a pause gives the rest back.
unfoldable pub send_batch : Weather → Bool → ℕ → Option Text → List Claim → Round
send_batch w has_file until file_id [] = give_back file_id [] false
send_batch w has_file until file_id (x ∷ xs) =
    let rest = λ (answer : Sending).
      send_batch w has_file (pause_after answer (w.clock x.user_id) until)
        (next_file_id has_file answer file_id) xs in
    if ltb 0 (remaining (w.clock x.user_id) until)
    then give_back file_id (x ∷ xs) false
    else after_reply w file_id x xs rest (w.telegram x.user_id)

-- How many times the write is tried: once, and after each of `WRITE_RETRY_DELAYS`.
abbrev pub write_tries : ℕ
write_tries = 4

-- `_write_results_retrying`: none if no try goes through, and the error goes on
unfoldable pub retrying : (ℕ → Bool) → ℕ → Queue → Queue → Option Queue
retrying locked zero written q = none
retrying locked (suc tries) written q =
    let later = retrying locked tries written q in if locked tries then later else some written

abbrev pub is_active : Status → Bool
is_active queued = true
is_active running = true
is_active _ = false

abbrev pub is_queued : Job → Bool
is_queued j = elim j.status [ queued ↦ true | _ ↦ false ]

abbrev pub start : ℕ → Job → Job
start now j = record j { status = running; started_at = some (or_default now j.started_at) }

-- `_finish_done`
abbrev pub finish_done : ℕ → ℕ → List Job → List Job
finish_done now b js =
    update_job b (λ j. is_active j.status) (λ j. record j { status = done; finished_at = some now })
      js

-- `_finish` of a cancelled job
abbrev pub finish_cancelled : ℕ → ℕ → List Job → List Job
finish_cancelled now b js =
    update_job b any_job (λ j. record j { status = cancelled; finished_at = some now }) js

-- `_remaining`: a row that is pending or claimed is left
abbrev pub left_over : ℕ → List Target → Bool
left_over b ts = any (λ t. (t.broadcast_id == b) && (pending t.status || sending t.status)) ts

-- How a round of `run_broadcast` ends: the loop goes on, it returns, or an exception goes on.
pub data Verdict : Type 0 where
  go_on returned failed_write stopped : Verdict

abbrev pub with_jobs : (List Job → List Job) → Queue → Queue
with_jobs f q = record q { jobs = f q.jobs }

-- What the write of a round left: without one, the claims stay as they are. A cancellation during
-- the write is held until it is done (`_complete_despite_cancel`).
abbrev pub settled : Bool → Bool → Queue → Option Queue → Verdict × Queue
settled was_cancelled cut_off ready none = (if was_cancelled then stopped else failed_write, ready)
settled was_cancelled cut_off ready (some written) =
    (if was_cancelled || cut_off then stopped else go_on, written)

abbrev pub settle_round : Weather → ℕ → Round → Queue → Verdict × Queue
settle_round w b round q =
    let ready = act_all w.meanwhile q in
    let written = write_results b w.wrote_at round.results round.file_id round.released ready in
    settled round.cancelled w.cut_off ready (retrying w.locked write_tries written ready)

-- One round of the loop of `run_broadcast`: the verdict, the sends that were answered, and the
-- tables.
pub record Step : Type 0 where
  pub verdict : Verdict
  pub sends : List Delivery
  pub queue : Queue

abbrev pub idle : Queue → Step
idle q = record { verdict = returned; sends = []; queue = q }

-- With nothing claimed, a job that has no row left is done.
abbrev pub nothing_claimed : ℕ → ℕ → Queue → Queue
nothing_claimed now b q = if left_over b q.targets then q else with_jobs (finish_done now b) q

-- The rest of a round, with what it claimed.
abbrev pub worked : Weather → ℕ → Bool → List Claim → Queue → Step
worked w b has_file [] q = idle (nothing_claimed w.now b q)
worked w b has_file (x ∷ xs) q =
    let round = send_batch w has_file 0 none (x ∷ xs) in
    let (verdict, q') = settle_round w b round q in
    (record { verdict = verdict; sends = round.results; queue = q' })

abbrev pub work_batch : Weather → ℕ → ℕ → Job → Queue → Step
work_batch w b limit j q =
    let q1 = with_jobs (update_job b is_queued (start w.now)) q in
    let (claimed, ts) = claim_batch b w.now limit q1.targets in
    worked w b (not (is_none j.media_file_id)) claimed (record q1 { targets = ts })

-- A round of a job, by the status that it read.
abbrev pub batch_of : Weather → ℕ → ℕ → Job → Queue → Status → Step
batch_of w b limit j q cancelled = idle (with_jobs (finish_cancelled w.now b) q)
batch_of w b limit j q queued = work_batch w b limit j q
batch_of w b limit j q running = work_batch w b limit j q
batch_of w b limit j q draft = idle q
batch_of w b limit j q paused = idle q
batch_of w b limit j q done = idle q
batch_of w b limit j q rejected = idle q

-- `pause.wait()` has let any earlier pause run out.
unfoldable pub run_batch : Weather → ℕ → ℕ → Queue → Step
run_batch w b limit q = elim (job_row b q.jobs) [
  | none ↦ idle q
  | some j ↦ batch_of w b limit j q j.status
]

abbrev pub batch_size : ℕ
batch_size = 20

-- A round, then the later ones if the loop goes on.
abbrev pub then_run : Verdict → Step → Step → Step
then_run go_on s later = record later { sends = s.sends ++ later.sends }
then_run returned s later = s
then_run failed_write s later = s
then_run stopped s later = s

-- `run_broadcast`, at most `fuel` rounds (`max_batches`), in the weather of each
unfoldable pub run_broadcast : ℕ → (ℕ → Weather) → ℕ → Queue → Step
run_broadcast zero weather b q = record { verdict = go_on; sends = []; queue = q }
run_broadcast (suc fuel) weather b q =
    let s = run_batch (weather fuel) b batch_size q in
    let later = run_broadcast fuel weather b s.queue in then_run s.verdict s later
