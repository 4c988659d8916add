-- ===== src/Broadcast/Worker/Runs.antt =====
-- What each transaction of a round keeps, the whole round keeps (`run_broadcast` of
-- src/functions/broadcast_worker.py).
use vakant.Prelude.{
  ℕ, zero, suc, ◌≡◌, refl, Bool, not, Option, none, some, List, [], ◌∷◌, ltb, Bool-cases,
  Option-cases, inl, inr, ◌⊎◌, sym, ◌∙◌, ap, subst, is_none,
}
use vakant.Broadcast.{
  Status, draft, queued, running, paused, cancelled, done, rejected, Job, Queue, job_row,
  update_job,
}
use vakant.Prelude.Text.{Text}
use vakant.Broadcast.Control.{Action, set_broadcast_state, set_broadcast_state_cases, moved_job}
use vakant.Broadcast.Outcome.{Sending, remaining}
use vakant.Broadcast.Batch.{Claim, claim_ids, select_pending, Delivery, write_results, any_job}
use vakant.Broadcast.Batch.Claims.{Held, claim_ids-Held}
use vakant.Broadcast.Batch.Writes.{claims_of}
use vakant.Broadcast.Rows.{Uncounted, update_job-Uncounted}
use vakant.Broadcast.Worker.{
  Reply, accepted, raised, interrupted, Act, act_all, Weather, Round, pause_after, next_file_id,
  after_reply, send_batch, write_tries, retrying, is_active, is_queued, start, left_over, Verdict,
  go_on, returned, failed_write, stopped, with_jobs, settle_round, Step, worked, batch_of, then_run,
  nothing_claimed, work_batch, run_batch, batch_size, run_broadcast,
}

after_reply_claims :
    (w : Weather) (file_id : Option Text) (x : Claim) (xs : List Claim) (rest : Sending → Round)
    → ((answer : Sending) → claims_of (rest answer).results (rest answer).released ≡ xs)
    → (reply : Reply)
    → claims_of
        (after_reply w file_id x xs rest reply).results
        (after_reply w file_id x xs rest reply).released
      ≡ x ∷ xs
after_reply_claims w file_id x xs rest answered (accepted file) = ap (λ ys. x ∷ ys) (answered _)
after_reply_claims w file_id x xs rest answered (raised e message) = ap (λ ys. x ∷ ys) (answered _)
after_reply_claims w file_id x xs rest answered interrupted = refl

-- A batch answers or gives back what it claimed, in that order.
pub send_batch_claims :
    (w : Weather) (has_file : Bool) (until : ℕ) (file_id : Option Text) (xs : List Claim)
    → claims_of
        (send_batch w has_file until file_id xs).results
        (send_batch w has_file until file_id xs).released
      ≡ xs
unfolding send_batch
send_batch_claims w has_file until file_id [] = refl
send_batch_claims w has_file until file_id (x ∷ xs) =
    elim (Bool-cases (ltb 0 (remaining (w.clock x.user_id) until))) [
      | inl waits ↦ rw (waits, send_batch) refl
      | inr open_now ↦
          rw (open_now, send_batch)
            (after_reply_claims w file_id x xs
              (λ answer.
                send_batch w has_file (pause_after answer (w.clock x.user_id) until)
                  (next_file_id has_file answer file_id) xs)
              (λ answer.
                send_batch_claims w has_file (pause_after answer (w.clock x.user_id) until)
                  (next_file_id has_file answer file_id) xs)
              (w.telegram x.user_id))
    ]

pub retrying_cases :
    (locked : ℕ → Bool) (tries : ℕ) (written q : Queue)
    → (retrying locked tries written q ≡ none) ⊎ (retrying locked tries written q ≡ some written)
unfolding retrying
retrying_cases locked zero written q = inl refl
retrying_cases locked (suc tries) written q = elim (Bool-cases (locked tries)) [
  | inl busy ↦ elim (retrying_cases locked tries written q) [
    | inl never ↦ inl (rw busy never)
    | inr goes ↦ inr (rw busy goes)
  ]
  | inr free_now ↦ inr (rw free_now refl)
]

pub set_broadcast_state_targets :
    (now b : ℕ) (act : Action) (q : Queue) → (set_broadcast_state now b act q).1.targets ≡ q.targets
set_broadcast_state_targets now b act q = elim (set_broadcast_state_cases now b act q) [
  | inl same ↦ rw same refl
  | inr moves ↦ rw moves refl
]

pub act_all_targets : (acts : List Act) (q : Queue) → (act_all acts q).targets ≡ q.targets
unfolding act_all
act_all_targets [] q = refl
act_all_targets (a ∷ acts) q =
    act_all_targets acts _ ∙ set_broadcast_state_targets a.at a.job a.action q

-- A property of the tables that every transaction of a round keeps.
module _ (P : Queue → Type 0)
    (on_jobs : (f : List Job → List Job) (q : Queue) → Uncounted f → P q → P (with_jobs f q))
    (on_claim : (b now : ℕ) (ks : List ℕ) (q : Queue)
      → P q
      → P (record q { targets = (claim_ids b now ks q.targets).1 }))
    (on_write : (b now : ℕ) (rs : List Delivery) (file_id : Option Text) (xs : List Claim)
        (q : Queue)
      → Held b (claims_of rs xs) q.targets
      → P q
      → P (write_results b now rs file_id xs q)) where
  on_update :
      (b : ℕ) (test : Job → Bool) (f : Job → Job) (q : Queue)
      → ((j : Job)
          → ((f j).id ≡ j.id)
            × ((f j).sent ≡ j.sent)
            × ((f j).failed ≡ j.failed)
            × ((f j).blocked ≡ j.blocked))
      → P q
      → P (with_jobs (update_job b test f) q)
  on_update b test f q keeps p =
      on_jobs (update_job b test f) q (update_job-Uncounted b test f keeps) p

  act_all_kept : (acts : List Act) (q : Queue) → P q → P (act_all acts q)
  unfolding act_all
  act_all_kept [] q p = p
  act_all_kept (a ∷ acts) q p =
      act_all_kept acts _ (elim (set_broadcast_state_cases a.at a.job a.action q) [
        | inl same ↦ rw same p
        | inr moves ↦
            rw moves
              (on_update a.job _ (moved_job a.at a.action) q (λ j. (refl, refl, refl, refl)) p)
      ])

  settle_round_kept :
      (w : Weather) (b : ℕ) (round : Round) (q : Queue)
      → Held b (claims_of round.results round.released) q.targets
      → P q
      → P (settle_round w b round q).1
  settle_round_kept w b round q held p =
      let p' = act_all_kept w.meanwhile q p in
      let same = act_all_targets w.meanwhile q in
      let ready = act_all w.meanwhile q in
      let written = write_results b w.wrote_at round.results round.file_id round.released ready in
      elim (retrying_cases w.locked write_tries written ready) [
        | inl never ↦ rw (never, settle_round) p'
        | inr goes ↦
            rw (goes, settle_round)
              (on_write b w.wrote_at round.results round.file_id round.released ready (rw same held)
                p')
      ]

  nothing_claimed_kept : (now b : ℕ) (q : Queue) → P q → P (nothing_claimed now b q)
  nothing_claimed_kept now b q p = elim (Bool-cases (left_over b q.targets)) [
    | inl some_left ↦ rw (some_left, nothing_claimed) p
    | inr none_left ↦
        rw (none_left, nothing_claimed)
          (on_update b (λ j. is_active j.status)
            (λ j. record j { status = done; finished_at = some now }) q
            (λ j. (refl, refl, refl, refl)) p)
  ]

  worked_kept :
      (w : Weather) (b : ℕ) (has_file : Bool) (claimed : List Claim) (q : Queue)
      → Held b claimed q.targets
      → P q
      → P (worked w b has_file claimed q).queue
  worked_kept w b has_file [] q held p = nothing_claimed_kept w.now b q p
  worked_kept w b has_file (x ∷ xs) q held p =
      settle_round_kept w b (send_batch w has_file 0 none (x ∷ xs)) q
        (subst (λ ys. Held b ys q.targets) (sym (send_batch_claims w has_file 0 none (x ∷ xs)))
          held)
        p

  work_batch_kept :
      (w : Weather) (b limit : ℕ) (j : Job) (q : Queue) → P q → P (work_batch w b limit j q).queue
  work_batch_kept w b limit j q p =
      let ks = select_pending b w.now limit q.targets in
      let q1 = with_jobs (update_job b is_queued (start w.now)) q in
      let p1 = on_update b is_queued (start w.now) q (λ x. (refl, refl, refl, refl)) p in
      let p2 = on_claim b w.now ks q1 p1 in
      worked_kept w b (not (is_none j.media_file_id)) (claim_ids b w.now ks q.targets).0 _
        (claim_ids-Held b w.now ks q.targets) p2

  pub run_batch_kept :
      (w : Weather) (b limit : ℕ) (q : Queue) → P q → P (run_batch w b limit q).queue
  unfolding run_batch
  run_batch_kept w b limit q p = elim (Option-cases (job_row b q.jobs)) [
    | inl missing ↦ rw (missing, run_batch) p
    | inr (j, found) ↦ rw (found, run_batch) (by_status j j.status)
  ]
    where
      by_status : (j : Job) (s : Status) → P (batch_of w b limit j q s).queue
      by_status j cancelled =
          on_update b any_job (λ x. record x { status = cancelled; finished_at = some w.now }) q
            (λ x. (refl, refl, refl, refl)) p
      by_status j queued = work_batch_kept w b limit j q p
      by_status j running = work_batch_kept w b limit j q p
      by_status j draft = p
      by_status j paused = p
      by_status j done = p
      by_status j rejected = p

  then_run_kept :
      (v : Verdict) (s later : Step) → P s.queue → P later.queue → P (then_run v s later).queue
  then_run_kept go_on s later p p' = p'
  then_run_kept returned s later p p' = p
  then_run_kept failed_write s later p p' = p
  then_run_kept stopped s later p p' = p

  pub run_broadcast_kept :
      (fuel : ℕ) (weather : ℕ → Weather) (b : ℕ) (q : Queue)
      → P q
      → P (run_broadcast fuel weather b q).queue
  unfolding run_broadcast
  run_broadcast_kept zero weather b q p = p
  run_broadcast_kept (suc fuel) weather b q p =
      let p1 = run_batch_kept (weather fuel) b batch_size q p in
      then_run_kept (run_batch (weather fuel) b batch_size q).verdict _ _ p1
        (run_broadcast_kept fuel weather b _ p1)
