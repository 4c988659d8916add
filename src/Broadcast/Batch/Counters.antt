-- ===== src/Broadcast/Batch/Counters.antt =====
-- The counters of a job in src/functions/broadcast_worker.py against the rows of its recipients.
use vakant.Prelude.{
  ℕ, ◌+◌, ◌≡◌, refl, true, false, ◌&&◌, Option, none, some, List, [], ◌∷◌, arith, ltb, ◌==◌,
  Bool-cases, if◌then◌else◌, inl, inr, sym, ◌∙◌, ap,
}
use vakant.Prelude.Text.{Text}
use vakant.Broadcast.{
  Job, Progress, is_pending, is_sending, is_sent, is_failed, is_blocked, Target, Queue, job_row,
  update_job,
}
use vakant.Broadcast.Rows.{weigh, Uncounted, update_job-Uncounted, job_row-update_all}
use vakant.Broadcast.Batch.{
  Claim, claim_ids, claim_row, due, Delivery, plan_of, planned_row, write_plans, release,
  same_progress, ended, add_counts, abort_if, keep_file_id, write_results, any_job, content_ended,
  hopeless, reject, no_file_id, pending, sending, is_claimed, release_row,
}
use vakant.Broadcast.Batch.Claims.{Held, weigh-claim_ids}
use vakant.Broadcast.Batch.Writes.{claims_of, total, weigh-write_plans, weigh-release}

abbrev pub in_status : Progress → ℕ → Target → ℕ
in_status s c t = if (t.broadcast_id == c) && same_progress t.status s then 1 else 0

-- How many recipients of a job are in a status.
abbrev pub tally : Progress → ℕ → List Target → ℕ
tally s c ts = weigh (in_status s c) ts

-- Each counter of a job is the number of its recipients that ended that way.
abbrev pub IsCounted : Queue → Type 0
IsCounted q =
    (c : ℕ) (j : Job)
    → job_row c q.jobs ≡ some j
    → (j.sent ≡ tally is_sent c q.targets)
      × (j.failed ≡ tally is_failed c q.targets)
      × (j.blocked ≡ tally is_blocked c q.targets)

-- The statuses in which a row has ended.
module _ (s : Progress) (not_pending : same_progress is_pending s ≡ false)
    (not_sending : same_progress is_sending s ≡ false) where
  pending_open : (p : Progress) → pending p ≡ true → same_progress p s ≡ false
  pending_open is_pending e = not_pending
  pending_open is_sending e = cc
  pending_open is_sent e = cc
  pending_open is_failed e = cc
  pending_open is_blocked e = cc

  sending_open : (p : Progress) → sending p ≡ true → same_progress p s ≡ false
  sending_open is_sending e = not_sending
  sending_open is_pending e = cc
  sending_open is_sent e = cc
  sending_open is_failed e = cc
  sending_open is_blocked e = cc

  pub not_in_status : (c : ℕ) (t : Target) → same_progress t.status s ≡ false → in_status s c t ≡ 0
  not_in_status c t e = elim (Bool-cases (t.broadcast_id == c)) [
    | inl mine ↦ rw mine (rw e refl)
    | inr other ↦ rw other refl
  ]

  claimed_same :
      (c now : ℕ) (t : Target)
      → due now t ≡ true
      → in_status s c (claim_row now t) ≡ in_status s c t
  claimed_same c now t d =
      not_in_status c (claim_row now t) not_sending
      ∙ sym (not_in_status c t (pending_open t.status (ground (arith, d))))

  pub released_same :
      (c : ℕ) (t : Target) → is_claimed t ≡ true → in_status s c (release_row t) ≡ in_status s c t
  released_same c t d =
      not_in_status c (release_row t) not_pending
      ∙ sym (not_in_status c t (sending_open t.status d))

  pub tally-claim_ids :
      (c b now : ℕ) (ks : List ℕ) (ts : List Target)
      → tally s c (claim_ids b now ks ts).1 ≡ tally s c ts
  tally-claim_ids c b now ks ts = weigh-claim_ids b now (in_status s c) (claimed_same c now) ks ts

  abbrev ends : ℕ → ℕ → ℕ → Delivery → ℕ
  ends c b now r = if (b == c) && same_progress (plan_of now r).status s then 1 else 0

  total_zero : (rs : List Delivery) → total (λ r. 0) rs ≡ 0
  total_zero [] = refl
  total_zero (r ∷ rs) = omega (arith, total_zero rs)

  total_ended :
      (c b now : ℕ) (rs : List Delivery)
      → total (ends c b now) rs ≡ (if b == c then ended s now rs else 0)
  unfolding ended
  total_ended c b now [] = elim (Bool-cases (b == c)) [
    | inl mine ↦ rw mine refl
    | inr other ↦ rw other refl
  ]
  total_ended c b now (r ∷ rs) =
      let rest = total_ended c b now rs in
      elim (Bool-cases (b == c)) [
        | inl mine ↦ ground (arith, rest, mine)
        | inr other ↦ ground (arith, rest, other)
      ]

  pub tally-write_results :
      (c b now : ℕ) (rs : List Delivery) (xs : List Claim) (ts : List Target)
      → Held b (claims_of rs xs) ts
      → tally s c (release b xs (write_plans b now rs ts))
        ≡ tally s c ts + (if b == c then ended s now rs else 0)
  tally-write_results c b now rs xs ts held =
      let released =
        weigh-release b (in_status s c) (released_same c) xs (write_plans b now rs ts) in
      let written =
        weigh-write_plans b now (in_status s c) (λ r. 0) (ends c b now) rows rs xs ts held in
      omega (arith, released, written, total_zero rs, total_ended c b now rs)
    where
      rows :
          (r : Delivery) (t : Target)
          → t.broadcast_id ≡ b
          → t.status ≡ is_sending
          → t.attempts ≡ r.claim.attempts
          → (in_status s c t ≡ 0)
            × (in_status s c (planned_row now (plan_of now r) t) ≡ ends c b now r)
      rows r t mine status attempts =
          (not_in_status c t (sending_open t.status (rw status refl)), rw mine refl)

pub write_results-Uncounted :
    (b now : ℕ) (rs : List Delivery) (file_id : Option Text)
    → Uncounted (λ js. keep_file_id file_id b (abort_if now rs b js))
write_results-Uncounted b now rs file_id js c j' h =
    let (j1, found1, s1, f1, b1) = kept file_id (abort_if now rs b js) c j' h in
    let (j2, found2, s2, f2, b2) = aborts js c j1 found1 in (j2, found2, s1 ∙ s2, f1 ∙ f2, b1 ∙ b2)
  where
    kept : (file_id : Option Text) → Uncounted (keep_file_id file_id b)
    kept none js c j' h = (j', h, refl, refl, refl)
    kept (some f) js c j' h =
        update_job-Uncounted b no_file_id (λ j. record j { media_file_id = some f })
          (λ j. (refl, refl, refl, refl)) js c j' h

    aborts : Uncounted (abort_if now rs b)
    aborts js c j' h = elim (Bool-cases (ltb 0 (content_ended now rs))) [
      | inl some_failed ↦
          update_job-Uncounted b hopeless (reject now) (λ j. (refl, refl, refl, refl)) js c j'
            (ground (arith, h, some_failed))
      | inr none_failed ↦ (j', ground (arith, h, none_failed), refl, refl, refl)
    ]

pub IsCounted-jobs :
    (f : List Job → List Job) (q : Queue)
    → Uncounted f
    → IsCounted q
    → IsCounted (record q { jobs = f q.jobs })
IsCounted-jobs f q keeps counted c j' h =
    let (j, found, s, n, bl) = keeps q.jobs c j' h in
    let (s0, n0, bl0) = counted c j found in (s ∙ s0, n ∙ n0, bl ∙ bl0)

pub IsCounted-claim_ids :
    (b now : ℕ) (ks : List ℕ) (q : Queue)
    → IsCounted q
    → IsCounted (record q { targets = (claim_ids b now ks q.targets).1 })
IsCounted-claim_ids b now ks q counted c j h =
    let (s, n, bl) = counted c j h in
    (
      s ∙ sym (tally-claim_ids is_sent refl refl c b now ks q.targets),
      n ∙ sym (tally-claim_ids is_failed refl refl c b now ks q.targets),
      bl ∙ sym (tally-claim_ids is_blocked refl refl c b now ks q.targets),
    )

pub IsCounted-write_results :
    (b now : ℕ) (rs : List Delivery) (file_id : Option Text) (xs : List Claim) (q : Queue)
    → Held b (claims_of rs xs) q.targets
    → IsCounted q
    → IsCounted (write_results b now rs file_id xs q)
unfolding write_results
IsCounted-write_results b now rs file_id xs q held counted c j' h =
    let counting = update_job b any_job (add_counts now rs) q.jobs in
    let (j, found, s, n, bl) = write_results-Uncounted b now rs file_id counting c j' h in
    let (j0, found0, how) =
      job_row-update_all c b any_job (add_counts now rs) q.jobs j (λ x. refl) (λ x. refl) found in
    let (s0, n0, bl0) = counted c j0 found0 in
    let sent_now = tally-write_results is_sent refl refl c b now rs xs q.targets held in
    let failed_now = tally-write_results is_failed refl refl c b now rs xs q.targets held in
    let blocked_now = tally-write_results is_blocked refl refl c b now rs xs q.targets held in
    let (s1, n1, bl1) = counts_of c j j0 how in
    (
      omega (arith, s, s0, s1, sent_now),
      omega (arith, n, n0, n1, failed_now),
      omega (arith, bl, bl0, bl1, blocked_now),
    )
  where
    counts_of :
        (c : ℕ) (j j0 : Job)
        → j ≡ (if c == b then add_counts now rs j0 else j0)
        → (j.sent ≡ j0.sent + (if b == c then ended is_sent now rs else 0))
          × (j.failed ≡ j0.failed + (if b == c then ended is_failed now rs else 0))
          × (j.blocked ≡ j0.blocked + (if b == c then ended is_blocked now rs else 0))
    counts_of c j j0 how = elim (Bool-cases (c == b)) [
      | inl mine ↦
          let e : j ≡ add_counts now rs j0 = ground (arith, how, mine) in
          let swapped : (b == c) ≡ true = ground (arith, mine) in
          rw swapped (ap (λ x. x.sent) e, ap (λ x. x.failed) e, ap (λ x. x.blocked) e)
      | inr other ↦
          let e : j ≡ j0 = ground (arith, how, other) in
          let swapped : (b == c) ≡ false = ground (arith, other) in
          rw swapped (
            ground (arith, ap (λ x. x.sent) e),
            ground (arith, ap (λ x. x.failed) e),
            ground (arith, ap (λ x. x.blocked) e),
          )
    ]
