-- ===== src/Broadcast/Batch/Budget.antt =====
-- How many sends a row may still take, by `MAX_ATTEMPTS` of src/functions/broadcast_worker.py.
use vakant.Prelude.{
  ℕ, suc, ◌+◌, ◌-◌, ◌≡◌, ◌≤◌, refl, true, Option, List, [], ◌∷◌, arith, length, inl, inr,
}
use vakant.Prelude.Text.{Text}
use vakant.Broadcast.{
  Progress, is_pending, is_sending, is_sent, is_failed, is_blocked, Target, Queue,
}
use vakant.Broadcast.Rows.{weigh}
use vakant.Broadcast.Batch.{
  Claim, claim_ids, claim_row, due, Delivery, pending, sending, plan_of, planned_row, write_results,
  release_row, is_claimed, write_plans,
}
use vakant.Broadcast.Outcome.Retries.{plan_outcome_cases}
use vakant.Broadcast.Batch.Claims.{Held, weigh-claim_ids}
use vakant.Broadcast.Batch.Writes.{claims_of, total, weigh-write_plans, weigh-release}

-- A row that has not ended: at least one send, and one for each attempt that is left.
abbrev pub budget_of : Progress → ℕ → ℕ
budget_of is_pending attempts = suc (5 - attempts)
budget_of is_sending attempts = suc (5 - attempts)
budget_of _ attempts = 0

abbrev pub row_budget : Target → ℕ
row_budget t = budget_of t.status t.attempts

-- The sends that all the rows together may still take.
abbrev pub budget : List Target → ℕ
budget ts = weigh row_budget ts

spent : ℕ → Delivery → ℕ
spent now r = budget_of (plan_of now r).status (plan_of now r).attempts

-- A planned result leaves less than the row had.
spent_less : (now : ℕ) (r : Delivery) → suc (spent now r) ≤ suc (5 - r.claim.attempts)
unfolding spent
spent_less now r =
    let (counted, how) = plan_outcome_cases r.answer r.claim.attempts now in
    elim how [
      | inl e ↦ rw e (omega arith)
      | inr (inl e) ↦ rw e (omega arith)
      | inr (inr (inl e)) ↦ rw e (omega arith)
      | inr (inr (inr (e, fewer))) ↦ rw e (omega (arith, counted, fewer))
    ]

claimed_same :
    (now : ℕ) (t : Target) → due now t ≡ true → row_budget (claim_row now t) ≡ row_budget t
claimed_same now t d = same t.status (ground (arith, d))
  where
    same : (p : Progress) → pending p ≡ true → suc (5 - t.attempts) ≡ budget_of p t.attempts
    same is_pending e = refl
    same is_sending e = cc
    same is_sent e = cc
    same is_failed e = cc
    same is_blocked e = cc

released_same : (t : Target) → is_claimed t ≡ true → row_budget (release_row t) ≡ row_budget t
released_same t d = same t.status d
  where
    same : (p : Progress) → sending p ≡ true → suc (5 - t.attempts) ≡ budget_of p t.attempts
    same is_sending e = refl
    same is_pending e = cc
    same is_sent e = cc
    same is_failed e = cc
    same is_blocked e = cc

pub budget-claim_ids :
    (b now : ℕ) (ks : List ℕ) (ts : List Target) → budget (claim_ids b now ks ts).1 ≡ budget ts
budget-claim_ids b now ks ts = weigh-claim_ids b now row_budget (claimed_same now) ks ts

total_spent :
    (now : ℕ) (rs : List Delivery)
    → total (spent now) rs + length rs ≤ total (λ r. suc (5 - r.claim.attempts)) rs
total_spent now [] = omega arith
total_spent now (r ∷ rs) = omega (arith, total_spent now rs, spent_less now r)

-- Each answer that is written uses up one of the sends that were left.
pub budget-write_results :
    (b now : ℕ) (rs : List Delivery) (file_id : Option Text) (xs : List Claim) (q : Queue)
    → Held b (claims_of rs xs) q.targets
    → budget (write_results b now rs file_id xs q).targets + length rs ≤ budget q.targets
unfolding spent write_results
budget-write_results b now rs file_id xs q held =
    let released = weigh-release b row_budget released_same xs (write_plans b now rs q.targets) in
    let written =
      weigh-write_plans b now row_budget (λ r. suc (5 - r.claim.attempts)) (spent now) rows rs xs
        q.targets held in
    omega (arith, released, written, total_spent now rs)
  where
    rows :
        (r : Delivery) (t : Target)
        → t.broadcast_id ≡ b
        → t.status ≡ is_sending
        → t.attempts ≡ r.claim.attempts
        → (row_budget t ≡ suc (5 - r.claim.attempts))
          × (row_budget (planned_row now (plan_of now r) t) ≡ spent now r)
    rows r t mine status attempts = (rw status (rw attempts refl), refl)
