-- ===== src/Broadcast/History/Counters.antt =====
-- The counters of every job against its recipients, whatever happens.
use vakant.Prelude.{
  ℕ, ◌+◌, ◌≡◌, ◌≤◌, ◌<◌, refl, true, false, some, List, [], ◌∷◌, arith, ltb, ◌==◌, ◌∙◌, ap, sym,
  inl, inr, if◌then◌else◌, Bool-cases, map,
}
use vakant.Broadcast.{
  Job, Progress, is_pending, is_sending, is_sent, is_failed, is_blocked, Target, Queue, Recipient,
  job_row, update_job,
}
use vakant.Broadcast.Rows.{weigh, weigh-map, Uncounted, update_job-Uncounted}
use vakant.Broadcast.Targets.{
  Draft, new_job, new_target, insert_targets, create_broadcast, queue_broadcast, any_job,
}
use vakant.Broadcast.Targets.Inserts.{weigh-insert_targets, queue_broadcast_cases}
use vakant.Broadcast.Control.{set_broadcast_state_cases, moved_job}
use vakant.Broadcast.Batch.{same_progress}
use vakant.Broadcast.Batch.Counters.{
  in_status, tally, not_in_status, released_same, IsCounted, IsCounted-jobs, IsCounted-claim_ids,
  IsCounted-write_results,
}
use vakant.Broadcast.Batch.Numbers.{
  beyond, IsNumbered, IsNumbered-jobs, IsNumbered-claim_ids, IsNumbered-write_results,
}
use vakant.Broadcast.Worker.{}
use vakant.Broadcast.Picker.{reset_stale_claims, reset_row, is_stale}
use vakant.Broadcast.Worker.Runs.{run_broadcast_kept}
use vakant.Broadcast.History.{
  Event, creates, queues, moves, runs, resets, happen, or_same, history, no_broadcasts,
}

-- No row of a job beyond the numbers is in a status.
tally-beyond :
    (s : Progress) (c n : ℕ) (ts : List Target) → n < c → weigh (beyond n) ts ≡ 0 → tally s c ts ≡ 0
tally-beyond s c n [] later h = refl
tally-beyond s c n (t ∷ ts) later h =
    let rest = tally-beyond s c n ts later (omega (arith, h)) in
    elim (Bool-cases (t.broadcast_id == c)) [
      | inr other ↦ rw other (omega (arith, rest))
      | inl mine ↦ absurd (numbered mine)
    ]
  where
    numbered : (t.broadcast_id == c) ≡ true → ⊥
    numbered mine = let e : t.broadcast_id ≡ c = ground (arith, mine) in ground (arith, e, later, h)

-- The counters and the numbers together.
abbrev pub IsSound : Queue → Type 0
IsSound q = IsCounted q × IsNumbered q

-- Rows that weigh the same for every count keep the tables sound.
IsSound-targets :
    (q : Queue) (ts : List Target)
    → ((s : Progress)
        → same_progress is_pending s ≡ false
        → same_progress is_sending s ≡ false
        → (c : ℕ) → tally s c ts ≡ tally s c q.targets)
    → weigh (beyond q.job_seq) ts ≡ weigh (beyond q.job_seq) q.targets
    → IsSound q
    → IsSound (record q { targets = ts })
IsSound-targets q ts same numbers (counted, (ids, rows)) = (by_row, (ids, numbers ∙ rows))
  where
    by_row : IsCounted (record q { targets = ts })
    by_row c j h =
        let (s, n, bl) = counted c j h in
        (
          s ∙ sym (same is_sent refl refl c),
          n ∙ sym (same is_failed refl refl c),
          bl ∙ sym (same is_blocked refl refl c),
        )

IsSound-jobs :
    (f : List Job → List Job) (q : Queue)
    → Uncounted f
    → IsSound q
    → IsSound (record q { jobs = f q.jobs })
IsSound-jobs f q keeps (counted, numbered) =
    (IsCounted-jobs f q keeps counted, IsNumbered-jobs f q keeps numbered)

beyond_next : (n : ℕ) (ts : List Target) → weigh (beyond n) ts ≡ 0 → weigh (beyond (n + 1)) ts ≡ 0
beyond_next n [] h = refl
beyond_next n (t ∷ ts) h =
    let rest = beyond_next n ts (omega (arith, h)) in
    elim (Bool-cases (ltb n t.broadcast_id)) [
      | inl high ↦ absurd (numbered high)
      | inr low ↦
          let lower : ltb (n + 1) t.broadcast_id ≡ false = ground (arith, low) in
          rw lower (omega (arith, rest))
    ]
  where
    numbered : ltb n t.broadcast_id ≡ true → ⊥
    numbered high = ground (arith, high, h)

IsSound-create_broadcast :
    (now : ℕ) (x : Draft) (q : Queue) → IsSound q → IsSound (create_broadcast now x q).1
IsSound-create_broadcast now x q (counted, (ids, rows)) =
    (by_row, (numbered, beyond_next q.job_seq q.targets rows))
  where
    none_yet : (s : Progress) (c : ℕ) → ((q.job_seq + 1) == c) ≡ true → 0 ≡ tally s c q.targets
    none_yet s c mine = sym (tally-beyond s c q.job_seq q.targets (ground (arith, mine)) rows)

    by_row : IsCounted (create_broadcast now x q).1
    by_row c j h = elim (Bool-cases ((q.job_seq + 1) == c)) [
      | inr other ↦ counted c j (ground (arith, h, other))
      | inl mine ↦
          let e : new_job now (q.job_seq + 1) x ≡ j = ground (arith, h, mine) in
          (
            sym (ap (λ y. y.sent) e) ∙ none_yet is_sent c mine,
            sym (ap (λ y. y.failed) e) ∙ none_yet is_failed c mine,
            sym (ap (λ y. y.blocked) e) ∙ none_yet is_blocked c mine,
          )
    ]

    numbered :
        (c : ℕ) (j : Job) → job_row c (create_broadcast now x q).1.jobs ≡ some j → c ≤ q.job_seq + 1
    numbered c j h = elim (Bool-cases ((q.job_seq + 1) == c)) [
      | inl mine ↦ ground (arith, mine)
      | inr other ↦ let below = ids c j (ground (arith, h, other)) in omega (arith, below)
    ]

IsSound-queue_broadcast :
    (now : ℕ) (admin_ids : List ℕ) (b : ℕ) (q : Queue)
    → IsSound q
    → IsSound (or_same q (queue_broadcast now admin_ids b q))
IsSound-queue_broadcast now admin_ids b q (counted, (ids, rows)) =
    elim (queue_broadcast_cases now admin_ids b q) [
      | inl missing ↦ rw missing (counted, (ids, rows))
      | inr (j, found, goes) ↦ rw goes (
          IsSound-jobs (update_job b any_job _)
            (record q { targets = insert_targets b _ q.targets })
            (update_job-Uncounted b any_job _ (λ x. (refl, refl, refl, refl)))
            (IsSound-targets q (insert_targets b _ q.targets)
              (λ s not_pending not_sending c.
                weigh-insert_targets (in_status s c) b _ q.targets
                  (λ k. not_in_status s not_pending not_sending c (new_target b k) not_pending))
              (weigh-insert_targets (beyond q.job_seq) b _ q.targets (λ k. known b (ids b j found)))
              (counted, (ids, rows))))
    ]
  where
    known : (c : ℕ) → c ≤ q.job_seq → ◌≡◌ {A = ℕ} (if ltb q.job_seq c then 1 else 0) 0
    known c h = ground (arith, h)

IsSound-reset_stale_claims : (now : ℕ) (q : Queue) → IsSound q → IsSound (reset_stale_claims now q)
IsSound-reset_stale_claims now q p =
    IsSound-targets q (map (reset_row now) q.targets)
      (λ s not_pending not_sending c.
        weigh-map (in_status s c) (reset_row now) q.targets (unpaid s not_pending not_sending c))
      (weigh-map (beyond q.job_seq) (reset_row now) q.targets number) p
  where
    unpaid :
        (s : Progress)
        → same_progress is_pending s ≡ false
        → same_progress is_sending s ≡ false
        → (c : ℕ) (t : Target) → in_status s c (reset_row now t) ≡ in_status s c t
    unpaid s not_pending not_sending c t = elim (Bool-cases (is_stale now t)) [
      | inr held ↦ rw held refl
      | inl stale ↦ rw stale (released_same s not_pending not_sending c t (ground (arith, stale)))
    ]

    number : (t : Target) → beyond q.job_seq (reset_row now t) ≡ beyond q.job_seq t
    number t = elim (Bool-cases (is_stale now t)) [
      | inl stale ↦ rw stale refl
      | inr held ↦ rw held refl
    ]

happen-IsSound : (e : Event) (q : Queue) → IsSound q → IsSound (happen e q)
happen-IsSound (creates now x) q p = IsSound-create_broadcast now x q p
happen-IsSound (queues now admin_ids b) q p = IsSound-queue_broadcast now admin_ids b q p
happen-IsSound (moves now b action) q p = elim (set_broadcast_state_cases now b action q) [
  | inl same ↦ rw same p
  | inr moved ↦ rw moved (
      IsSound-jobs _ q
        (update_job-Uncounted b _ (moved_job now action) (λ j. (refl, refl, refl, refl))) p)
]
happen-IsSound (runs fuel weather b) q (counted, numbered) = (
  run_broadcast_kept IsCounted IsCounted-jobs IsCounted-claim_ids IsCounted-write_results fuel
      weather b q counted,
  run_broadcast_kept IsNumbered IsNumbered-jobs IsNumbered-claim_ids IsNumbered-write_results fuel
      weather b q numbered,
)
happen-IsSound (resets now) q p = IsSound-reset_stale_claims now q p

history-IsSound : (events : List Event) (q : Queue) → IsSound q → IsSound (history events q)
unfolding history
history-IsSound [] q p = p
history-IsSound (e ∷ events) q p = history-IsSound events _ (happen-IsSound e q p)

-- However jobs are created, queued, moved by admins, run and reset, and whatever Telegram answers
-- and whichever writes fail, each counter of each job is the number of its recipients in that status.
pub history-IsCounted :
    (events : List Event) (users : List Recipient)
    → IsCounted (history events (no_broadcasts users))
history-IsCounted events users =
    (history-IsSound events (no_broadcasts users) ((λ c j h. cc), ((λ c j h. cc), refl))).0
