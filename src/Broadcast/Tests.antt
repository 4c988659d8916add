-- ===== src/Broadcast/Tests.antt =====
-- Runs of the broadcast queue on small tables, and the theorems of the queue at concrete inputs.
use vakant.Prelude.{
  ℕ, ◌+◌, ◌*◌, ◌≡◌, ◌≢◌, ◌≤◌, ◌<◌, refl, true, false, Option, none, some, List, [], ◌∷◌, arith,
  length, ◌==◌, if◌then◌else◌, ◌↔◌, ◌⊎◌,
}
use vakant.Prelude.Text.{codes, after_prefix}
use vakant.Broadcast.{
  is_sent, is_pending, text, everyone, Audience, Job, Target, Recipient, Queue, target_row, job_row,
}
use vakant.Broadcast.Outcome.{
  forbidden, retry_after, failure_of, plan_outcome, classify_error, backoff_seconds, occurs,
  pause_for, max_retry_after_seconds, max_attempts,
}
use vakant.Broadcast.Outcome.Retries.{plan_outcome-failure_of}
use vakant.Broadcast.Targets.Chosen.{HasRow, Somewhere, Reaches, queue_broadcast_audience}
use vakant.Broadcast.Targets.{
  new_job, Draft, queue_broadcast, materialize_targets, is_recipient, in_segment, insert_targets,
}
use vakant.Broadcast.Control.{pause, set_broadcast_state, new_status, allowed}
use vakant.Broadcast.Batch.{
  claim_ids, insert_id, sort_ids, write_plans, release, write_results, hopeless, ended,
  content_ended,
}
use vakant.Broadcast.Batch.Budget.{budget}
use vakant.Broadcast.Batch.Counters.{IsCounted}
use vakant.Broadcast.Worker.{
  Reply, accepted, raised, Weather, go_on, returned, is_active, run_broadcast, run_batch,
  send_batch, retrying, act_all,
}
use vakant.Broadcast.Worker.Ends.{run_broadcast_ends, run_broadcast-returned}
use vakant.Broadcast.Worker.Stops.{run_broadcast-set_broadcast_state}
use vakant.Broadcast.History.{Event, creates, queues, runs, resets, history, no_broadcasts}
use vakant.Broadcast.History.Counters.{history-IsCounted}
use vakant.Broadcast.History.Final.{history-Stays}

abbrev reader : ℕ → Recipient
reader k = record {
  user_id = k;
  lang = some (codes "uz");
  region = none;
  user_pro = some 0;
  blocked = some 0;
  banned = some 0;
  last_seen_at = none;
  date = none;
}

abbrev readers : List Recipient
readers = reader 1 ∷ (reader 2 ∷ (reader 3 ∷ []))

abbrev all_of_them : Audience
all_of_them = record { segment = everyone; exclude_blocked = true }

abbrev news : Draft
news = record {
  actor_id = 9;
  kind = text;
  text = some (codes "news");
  media_path = none;
  target = all_of_them;
}

-- The second recipient has blocked the bot, the third meets a flood.
abbrev telegram : ℕ → Reply
telegram k =
    if k == 2
    then raised forbidden (codes "Forbidden")
    else if k == 3
    then raised (retry_after 30) (codes "Flood")
    else accepted none

abbrev calm : ℕ → Weather
calm n = record {
  now = 1000;
  telegram = telegram;
  clock = λ k. 1000;
  lowered = λ s. s;
  wrote_at = 1001;
  locked = λ tries. false;
  cut_off = false;
  meanwhile = [];
}

abbrev sent_out : List Event
sent_out = creates 990 news ∷ (queues 995 [] 1 ∷ (runs 1 calm 1 ∷ []))

abbrev queued_news : Queue
queued_news = history (creates 990 news ∷ (queues 995 [] 1 ∷ [])) (no_broadcasts readers)

abbrev after_one : Queue
after_one = history sent_out (no_broadcasts readers)

sent_once : length (run_broadcast 5 calm 1 queued_news).sends ≡ 3
unfolding history run_broadcast run_batch send_batch claim_ids insert_id sort_ids write_plans
    release retrying act_all write_results plan_outcome failure_of classify_error backoff_seconds
    hopeless occurs ended content_ended queue_broadcast materialize_targets is_recipient in_segment
    insert_targets pause_for set_broadcast_state allowed new_status after_prefix
sent_once = refl

-- The counters of a job, as digits.
abbrev shown : Option Job → ℕ
shown none = 0
shown (some j) = j.sent + 10 * j.blocked + 100 * j.failed

job_done : shown (job_row 1 after_one.jobs) ≡ 11
unfolding history run_broadcast run_batch send_batch claim_ids insert_id sort_ids write_plans
    release retrying act_all write_results plan_outcome failure_of classify_error backoff_seconds
    hopeless occurs ended content_ended queue_broadcast materialize_targets is_recipient in_segment
    insert_targets pause_for set_broadcast_state allowed new_status after_prefix
job_done = refl

history-IsCounted_example : IsCounted (history sent_out (no_broadcasts readers))
history-IsCounted_example = history-IsCounted sent_out readers

abbrev first_row : Target
first_row = record {
  broadcast_id = 1;
  user_id = 1;
  status = is_sent;
  error = none;
  error_kind = none;
  attempts = 1;
  next_attempt_at = none;
  sent_at = some 1001;
  claimed_at = none;
  last_attempt_at = some 1001;
}

abbrev later_on : List Event
later_on = resets 5000 ∷ (queues 5001 [] 1 ∷ (runs 9 calm 1 ∷ []))

first_row_sent : target_row 1 1 after_one.targets ≡ some first_row
unfolding history run_broadcast run_batch send_batch claim_ids insert_id sort_ids write_plans
    release retrying act_all write_results plan_outcome failure_of classify_error backoff_seconds
    hopeless occurs ended content_ended queue_broadcast materialize_targets is_recipient in_segment
    insert_targets pause_for set_broadcast_state allowed new_status after_prefix
first_row_sent = refl

history-Stays_example : target_row 1 1 (history later_on after_one).targets ≡ some first_row
history-Stays_example = history-Stays 1 1 first_row later_on after_one refl first_row_sent

enough_rounds : budget queued_news.targets < 19
unfolding history run_broadcast run_batch send_batch claim_ids insert_id sort_ids write_plans
    release retrying act_all write_results plan_outcome failure_of classify_error backoff_seconds
    hopeless occurs ended content_ended queue_broadcast materialize_targets is_recipient in_segment
    insert_targets pause_for set_broadcast_state allowed new_status after_prefix
enough_rounds = omega arith

run_broadcast_ends_example : (run_broadcast 19 calm 1 queued_news).verdict ≢ go_on
run_broadcast_ends_example = run_broadcast_ends 19 calm 1 queued_news enough_rounds

run_returned : (run_broadcast 5 calm 1 queued_news).verdict ≡ returned
unfolding history run_broadcast run_batch send_batch claim_ids insert_id sort_ids write_plans
    release retrying act_all write_results plan_outcome failure_of classify_error backoff_seconds
    hopeless occurs ended content_ended queue_broadcast materialize_targets is_recipient in_segment
    insert_targets pause_for set_broadcast_state allowed new_status after_prefix
run_returned = refl

run_broadcast-returned_example :
    budget (run_broadcast 5 calm 1 queued_news).queue.targets
      + length (run_broadcast 5 calm 1 queued_news).sends
    ≤ budget queued_news.targets
run_broadcast-returned_example = run_broadcast-returned 5 calm 1 queued_news run_returned

pause_taken : (set_broadcast_state 996 1 pause queued_news).0 ≢ none
unfolding history run_broadcast run_batch send_batch claim_ids insert_id sort_ids write_plans
    release retrying act_all write_results plan_outcome failure_of classify_error backoff_seconds
    hopeless occurs ended content_ended queue_broadcast materialize_targets is_recipient in_segment
    insert_targets pause_for set_broadcast_state allowed new_status after_prefix
pause_taken e = cc

pause_stops : is_active (new_status pause) ≡ false
unfolding new_status
pause_stops = refl

run_broadcast-set_broadcast_state_example :
    ((run_broadcast 5 calm 1 (set_broadcast_state 996 1 pause queued_news).1).sends ≡ [])
    × ((run_broadcast 5 calm 1 (set_broadcast_state 996 1 pause queued_news).1).queue.targets
        ≡ queued_news.targets)
run_broadcast-set_broadcast_state_example =
    run_broadcast-set_broadcast_state 996 1 pause queued_news 5 calm pause_taken pause_stops

flood_pending :
    (plan_outcome (failure_of (λ s. s) (retry_after 30) (codes "Flood")) 0 1000).status ≡ is_pending
unfolding history run_broadcast run_batch send_batch claim_ids insert_id sort_ids write_plans
    release retrying act_all write_results plan_outcome failure_of classify_error backoff_seconds
    hopeless occurs ended content_ended queue_broadcast materialize_targets is_recipient in_segment
    insert_targets pause_for set_broadcast_state allowed new_status after_prefix
flood_pending = refl

plan_outcome-failure_of_example :
    (d : ℕ) × ((plan_outcome
        (failure_of (λ s. s) (retry_after 30) (codes "Flood"))
        0
        1000).next_attempt_at
      ≡ some (1000 + d))
    × (10 ≤ d)
    × (d ≤ max_retry_after_seconds)
    × (0 + 1 < max_attempts)
plan_outcome-failure_of_example =
    plan_outcome-failure_of (λ s. s) (retry_after 30) (codes "Flood") 0 1000 flood_pending

abbrev created_news : Queue
created_news = history (creates 990 news ∷ []) (no_broadcasts readers)

abbrev news_job : Job
news_job = new_job 990 1 news

news_job_found : job_row 1 created_news.jobs ≡ some news_job
unfolding history
news_job_found = refl

news_queued : queue_broadcast 995 [] 1 created_news ≡ some (3, queued_news)
unfolding history queue_broadcast materialize_targets is_recipient in_segment insert_targets
news_queued = refl

queue_broadcast_audience_example : HasRow 1 2 queued_news.targets ↔ (
    HasRow 1 2 created_news.targets
    ⊎ Somewhere (λ u. Reaches 995 [] news_job.target u × (u.user_id ≡ 2)) created_news.users)
queue_broadcast_audience_example =
    queue_broadcast_audience 995 [] 1 created_news queued_news 3 news_job 2 news_job_found
      news_queued
