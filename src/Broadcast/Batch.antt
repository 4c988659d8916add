-- ===== src/Broadcast/Batch.antt =====
-- The two transactions of a batch, src/functions/broadcast_worker.py: `_claim_with_attempts` takes
-- rows that are due, `_write_results` puts down what became of them.
pub mod Claims
pub mod Writes
pub mod Counters
pub mod Final
pub mod Budget
pub mod Numbers
use vakant.Prelude.{
  ℕ, zero, suc, ◌+◌, ◌*◌, Bool, true, false, not, ◌&&◌, ◌||◌, Option, none, some, List, [], ◌∷◌,
  ltb, leb, ◌==◌, any, keep, take, map, if◌then◌else◌, or_default, is_none,
}
use vakant.Prelude.Text.{Text, codes}
use vakant.Broadcast.{
  Status, queued, running, paused, rejected, Job, Progress, is_pending, is_sending, is_sent,
  is_failed, is_blocked, ErrorKind, Target, Recipient, Queue, job_row, update_job, target_row,
  update_target,
}
use vakant.Broadcast.Outcome.{
  Sending, delivered, delivered_unparsed, error_of, is_content, Plan, plan_outcome,
}

abbrev pub pending : Progress → Bool
pending is_pending = true
pending _ = false

abbrev pub sending : Progress → Bool
sending is_sending = true
sending _ = false

-- `t.status = 'pending' AND (t.next_attempt_at IS NULL OR t.next_attempt_at <= ?)`
abbrev pub due : ℕ → Target → Bool
due now t = pending t.status && elim t.next_attempt_at [ none ↦ true | some at ↦ leb at now ]

unfoldable pub insert_id : ℕ → List ℕ → List ℕ
insert_id k [] = k ∷ []
insert_id k (x ∷ xs) = if leb k x then k ∷ (x ∷ xs) else x ∷ insert_id k xs

-- `ORDER BY t.user_id`
unfoldable pub sort_ids : List ℕ → List ℕ
sort_ids [] = []
sort_ids (k ∷ ks) = insert_id k (sort_ids ks)

-- The user ids of `select_pending`.
abbrev pub select_pending : ℕ → ℕ → ℕ → List Target → List ℕ
select_pending b now limit ts =
    take limit (sort_ids (map (λ t. t.user_id) (keep (λ t. (t.broadcast_id == b) && due now t) ts)))

-- A claimed recipient, with the attempts made so far.
pub record Claim : Type 0 where
  pub user_id : ℕ
  pub attempts : ℕ

abbrev pub claim_row : ℕ → Target → Target
claim_row now t = record t { status = is_sending; claimed_at = some now }

-- The claim of the rows with these ids, one by one, as `RETURNING` lists them: a row that is not
-- due is not one of those that were selected.
unfoldable pub claim_ids : ℕ → ℕ → List ℕ → List Target → List Claim × List Target
claim_ids b now [] ts = ([], ts)
claim_ids b now (k ∷ ks) ts =
    let taken = claim_ids b now ks (update_target b k (due now) (claim_row now) ts) in
    let skipped = claim_ids b now ks ts in
    elim (target_row b k ts) [
      | none ↦ skipped
      | some t ↦
          if due now t
          then (record { user_id = k; attempts = t.attempts } ∷ taken.0, taken.1)
          else skipped
    ]

-- `_claim_with_attempts`
abbrev pub claim_batch : ℕ → ℕ → ℕ → List Target → List Claim × List Target
claim_batch b now limit ts = claim_ids b now (select_pending b now limit ts) ts

-- What became of a claimed recipient.
pub record Delivery : Type 0 where
  pub claim : Claim
  pub answer : Sending

abbrev pub plan_of : ℕ → Delivery → Plan
plan_of now r = plan_outcome r.answer r.claim.attempts now

abbrev pub planned_row : ℕ → Plan → Target → Target
planned_row now p t = record t {
  status = p.status;
  error = p.error;
  error_kind = p.error_kind;
  attempts = p.attempts;
  next_attempt_at = p.next_attempt_at;
  sent_at = p.sent_at;
  claimed_at = none;
  last_attempt_at = some now;
}

abbrev pub any_target : Target → Bool
any_target t = true

-- The `executemany` over the planned results.
unfoldable pub write_plans : ℕ → ℕ → List Delivery → List Target → List Target
write_plans b now [] ts = ts
write_plans b now (r ∷ rs) ts =
    write_plans b now rs
      (update_target b r.claim.user_id any_target (planned_row now (plan_of now r)) ts)

abbrev pub release_row : Target → Target
release_row t = record t { status = is_pending; claimed_at = none }

abbrev pub is_claimed : Target → Bool
is_claimed t = sending t.status

-- Released rows go back to `pending` untouched.
unfoldable pub release : ℕ → List Claim → List Target → List Target
release b [] ts = ts
release b (x ∷ xs) ts = release b xs (update_target b x.user_id is_claimed release_row ts)

abbrev pub same_progress : Progress → Progress → Bool
same_progress is_pending is_pending = true
same_progress is_sending is_sending = true
same_progress is_sent is_sent = true
same_progress is_failed is_failed = true
same_progress is_blocked is_blocked = true
same_progress _ _ = false

-- How many of the planned results end in a status.
unfoldable pub ended : Progress → ℕ → List Delivery → ℕ
ended s now [] = 0
ended s now (r ∷ rs) = (if same_progress (plan_of now r).status s then 1 else 0) + ended s now rs

-- `r["kind"] in CONTENT_KINDS`
abbrev pub content_answer : Sending → Bool
content_answer (error_of kind message seconds) = is_content kind
content_answer _ = false

unfoldable pub content_ended : ℕ → List Delivery → ℕ
content_ended now [] = 0
content_ended now (r ∷ rs) =
    (if same_progress (plan_of now r).status is_failed && content_answer r.answer then 1 else 0)
    + content_ended now rs

-- The ids of the results that end in a status.
abbrev pub ids_ended : Progress → ℕ → List Delivery → List ℕ
ids_ended s now rs =
    map (λ r. r.claim.user_id) (keep (λ r. same_progress (plan_of now r).status s) rs)

-- `UPDATE users SET blocked = ? WHERE user_id IN (...) AND blocked != ?`; a NULL is not `!=`
abbrev pub set_blocked : ℕ → List ℕ → Recipient → Recipient
set_blocked flag ids u =
    if any (λ k. k == u.user_id) ids && not (is_none u.blocked)
    then record u { blocked = some flag }
    else u

abbrev pub add_counts : ℕ → List Delivery → Job → Job
add_counts now rs j = record j {
  sent = j.sent + ended is_sent now rs;
  failed = j.failed + ended is_failed now rs;
  blocked = j.blocked + ended is_blocked now rs;
  content_failed = j.content_failed + content_ended now rs;
}

abbrev pub early_abort_min_failures : ℕ
early_abort_min_failures = 200

abbrev pub abortable : Status → Bool
abortable queued = true
abortable running = true
abortable paused = true
abortable _ = false

-- The condition of the early abort, with `EARLY_ABORT_RATIO` as 95 of 100.
unfoldable pub hopeless : Job → Bool
hopeless j =
    abortable j.status
    && leb early_abort_min_failures j.content_failed
    && leb (95 * (j.sent + j.content_failed)) (100 * j.content_failed)

abbrev pub content_rejected : Text
content_rejected = codes "content_rejected"

abbrev pub reject : ℕ → Job → Job
reject now j = record j { status = rejected; error = some content_rejected; finished_at = some now }

abbrev pub no_file_id : Job → Bool
no_file_id j = is_none j.media_file_id

abbrev pub any_job : Job → Bool
any_job j = true

-- The abort, tried only when a result of this batch failed for its content.
abbrev pub abort_if : ℕ → List Delivery → ℕ → List Job → List Job
abort_if now rs b js =
    if ltb 0 (content_ended now rs) then update_job b hopeless (reject now) js else js

abbrev pub keep_file_id : Option Text → ℕ → List Job → List Job
keep_file_id none b js = js
keep_file_id (some file_id) b js =
    update_job b no_file_id (λ j. record j { media_file_id = some file_id }) js

-- `_write_results`, when its transaction goes through
unfoldable pub write_results : ℕ → ℕ → List Delivery → Option Text → List Claim → Queue → Queue
write_results b now rs file_id released q = record q {
  targets = release b released (write_plans b now rs q.targets);
  users =
      map
        (λ u.
          set_blocked 0 (ids_ended is_sent now rs) (set_blocked 1 (ids_ended is_blocked now rs) u))
        q.users;
  jobs =
      keep_file_id file_id b (abort_if now rs b (update_job b any_job (add_counts now rs) q.jobs));
}
