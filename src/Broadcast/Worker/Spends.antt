-- ===== src/Broadcast/Worker/Spends.antt =====
-- What one round of `run_broadcast` (src/functions/broadcast_worker.py) uses up of the sends that its
-- recipients may still take.
use vakant.Prelude.{
  ℕ, ◌+◌, ◌≡◌, ◌≤◌, refl, Bool, true, false, not, ◌||◌, Option, none, some, List, [], ◌∷◌, arith,
  ltb, length, Bool-cases, Option-cases, if◌then◌else◌, inl, inr, sym, ◌∙◌, ap, subst, is_none,
}
use vakant.Prelude.Text.{Text}
use vakant.Broadcast.{
  Status, draft, queued, running, paused, cancelled, done, rejected, Job, Queue, job_row,
}
use vakant.Broadcast.Outcome.{remaining, Sending}
use vakant.Broadcast.Batch.{Claim, claim_ids, select_pending, write_results}
use vakant.Broadcast.Batch.Claims.{Held, claim_ids-Held}
use vakant.Broadcast.Batch.Writes.{claims_of}
use vakant.Broadcast.Batch.Budget.{budget, budget-claim_ids, budget-write_results}
use vakant.Broadcast.Worker.{
  Reply, accepted, raised, interrupted, act_all, Weather, Round, send_batch, write_tries, go_on,
  returned, failed_write, stopped, settle_round, Step, nothing_claimed, left_over, worked,
  work_batch, batch_of, run_batch, pause_after, next_file_id, after_reply, settled,
}
use vakant.Broadcast.Worker.Runs.{send_batch_claims, retrying_cases, act_all_targets}

-- A batch that is not cut off sends at least to its first recipient.
send_batch_first :
    (w : Weather) (has_file : Bool) (file_id : Option Text) (x : Claim) (xs : List Claim)
    → (send_batch w has_file 0 file_id (x ∷ xs)).cancelled ≡ false
    → 1 ≤ length (send_batch w has_file 0 file_id (x ∷ xs)).results
unfolding send_batch
send_batch_first w has_file file_id x xs h =
    let no_pause : ltb 0 (remaining (w.clock x.user_id) 0) ≡ false = no_wait (w.clock x.user_id) in
    let rest = λ (answer : Sending).
      send_batch w has_file (pause_after answer (w.clock x.user_id) 0)
        (next_file_id has_file answer file_id) xs in
    rw (no_pause, send_batch) (sends rest (w.telegram x.user_id) (rw (no_pause, send_batch) at h))
  where
    no_wait : (now : ℕ) → ltb 0 (remaining now 0) ≡ false
    no_wait now = ground arith

    sends :
        (rest : Sending → Round) (reply : Reply)
        → (after_reply w file_id x xs rest reply).cancelled ≡ false
        → 1 ≤ length (after_reply w file_id x xs rest reply).results
    sends rest (accepted file) e = omega arith
    sends rest (raised er message) e = omega arith
    sends rest interrupted e = cc

verdict_written : (c cut : Bool) → (if c || cut then stopped else go_on) ≡ go_on → c ≡ false
verdict_written true cut e = cc
verdict_written false cut e = refl

verdict_unwritten : (c : Bool) → (if c then stopped else failed_write) ≡ go_on → ⊥
verdict_unwritten true e = cc
verdict_unwritten false e = cc

settle_round_spends :
    (w : Weather) (b : ℕ) (round : Round) (q : Queue)
    → Held b (claims_of round.results round.released) q.targets
    → (settle_round w b round q).0 ≡ go_on
    → (round.cancelled ≡ false)
      × (budget (settle_round w b round q).1.targets + length round.results ≤ budget q.targets)
settle_round_spends w b round q held h =
    let ready = act_all w.meanwhile q in
    let same = act_all_targets w.meanwhile q in
    let written = write_results b w.wrote_at round.results round.file_id round.released ready in
    elim (retrying_cases w.locked write_tries written ready) [
      | inl never ↦ absurd (verdict_unwritten round.cancelled (rw (never, settle_round) at h))
      | inr goes ↦
          let used =
            budget-write_results b w.wrote_at round.results round.file_id round.released ready
              (rw same held) in
          rw (goes, settle_round)
            (
              verdict_written round.cancelled w.cut_off (rw (goes, settle_round) at h),
              subst (λ ts. budget written.targets + length round.results ≤ budget ts) same used,
            )
    ]

-- A round that goes on has sent, and what it sent is used up.
abbrev pub Spends : Step → ℕ → Type 0
Spends s before = (1 ≤ length s.sends) × (budget s.queue.targets + length s.sends ≤ before)

worked-Spends :
    (w : Weather) (b : ℕ) (has_file : Bool) (claimed : List Claim) (q : Queue)
    → Held b claimed q.targets
    → (worked w b has_file claimed q).verdict ≡ go_on
    → Spends (worked w b has_file claimed q) (budget q.targets)
worked-Spends w b has_file [] q held h = cc
worked-Spends w b has_file (x ∷ xs) q held h =
    let round = send_batch w has_file 0 none (x ∷ xs) in
    let (whole, used) =
      settle_round_spends w b round q
        (subst (λ ys. Held b ys q.targets) (sym (send_batch_claims w has_file 0 none (x ∷ xs)))
          held)
        h in
    (send_batch_first w has_file none x xs whole, used)

work_batch-Spends :
    (w : Weather) (b limit : ℕ) (j : Job) (q : Queue)
    → (work_batch w b limit j q).verdict ≡ go_on
    → Spends (work_batch w b limit j q) (budget q.targets)
work_batch-Spends w b limit j q h =
    let ks = select_pending b w.now limit q.targets in
    let (first, used) =
      worked-Spends w b (not (is_none j.media_file_id)) (claim_ids b w.now ks q.targets).0 _
        (claim_ids-Held b w.now ks q.targets) h in
    (first, omega (arith, used, budget-claim_ids b w.now ks q.targets))

pub run_batch-Spends :
    (w : Weather) (b limit : ℕ) (q : Queue)
    → (run_batch w b limit q).verdict ≡ go_on
    → Spends (run_batch w b limit q) (budget q.targets)
unfolding run_batch
run_batch-Spends w b limit q h = elim (Option-cases (job_row b q.jobs)) [
  | inl missing ↦ absurd (stays (rw (missing, run_batch) at h))
  | inr (j, found) ↦ rw (found, run_batch) (by_status j j.status (rw (found, run_batch) at h))
]
  where
    stays : returned ≡ go_on → ⊥
    stays e = cc

    by_status :
        (j : Job) (s : Status)
        → (batch_of w b limit j q s).verdict ≡ go_on
        → Spends (batch_of w b limit j q s) (budget q.targets)
    by_status j queued e = work_batch-Spends w b limit j q e
    by_status j running e = work_batch-Spends w b limit j q e
    by_status j cancelled e = cc
    by_status j draft e = cc
    by_status j paused e = cc
    by_status j done e = cc
    by_status j rejected e = cc

settled_returned :
    (c cut : Bool) (ready : Queue) (o : Option Queue) → (settled c cut ready o).0 ≡ returned → ⊥
settled_returned true cut ready none e = cc
settled_returned true cut ready (some q) e = cc
settled_returned false cut ready none e = cc
settled_returned false true ready (some q) e = cc
settled_returned false false ready (some q) e = cc

-- A round that returns has sent nothing.
abbrev pub Rests : Step → ℕ → Type 0
Rests s before = (length s.sends ≡ 0) × (budget s.queue.targets ≡ before)

nothing_claimed_targets : (now b : ℕ) (q : Queue) → (nothing_claimed now b q).targets ≡ q.targets
nothing_claimed_targets now b q = elim (Bool-cases (left_over b q.targets)) [
  | inl some_left ↦ rw (some_left, nothing_claimed) refl
  | inr none_left ↦ rw (none_left, nothing_claimed) refl
]

worked-Rests :
    (w : Weather) (b : ℕ) (has_file : Bool) (claimed : List Claim) (q : Queue)
    → (worked w b has_file claimed q).verdict ≡ returned
    → Rests (worked w b has_file claimed q) (budget q.targets)
worked-Rests w b has_file [] q h = (refl, ap budget (nothing_claimed_targets w.now b q))
worked-Rests w b has_file (x ∷ xs) q h = absurd (settled_returned _ _ _ _ h)

batch_of-Rests :
    (w : Weather) (b limit : ℕ) (j : Job) (q : Queue) (s : Status)
    → (batch_of w b limit j q s).verdict ≡ returned
    → Rests (batch_of w b limit j q s) (budget q.targets)
batch_of-Rests w b limit j q queued e =
    let (silent, same) = worked-Rests w b _ _ _ e in
    (silent, same ∙ budget-claim_ids b w.now (select_pending b w.now limit q.targets) q.targets)
batch_of-Rests w b limit j q running e =
    let (silent, same) = worked-Rests w b _ _ _ e in
    (silent, same ∙ budget-claim_ids b w.now (select_pending b w.now limit q.targets) q.targets)
batch_of-Rests w b limit j q cancelled e = (refl, refl)
batch_of-Rests w b limit j q draft e = (refl, refl)
batch_of-Rests w b limit j q paused e = (refl, refl)
batch_of-Rests w b limit j q done e = (refl, refl)
batch_of-Rests w b limit j q rejected e = (refl, refl)

pub run_batch-Rests :
    (w : Weather) (b limit : ℕ) (q : Queue)
    → (run_batch w b limit q).verdict ≡ returned
    → Rests (run_batch w b limit q) (budget q.targets)
unfolding run_batch
run_batch-Rests w b limit q h = elim (Option-cases (job_row b q.jobs)) [
  | inl missing ↦ rw (missing, run_batch) (refl, refl)
  | inr (j, found) ↦
      rw (found, run_batch) (batch_of-Rests w b limit j q j.status (rw (found, run_batch) at h))
]
