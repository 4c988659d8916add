-- ===== src/Broadcast/Batch/Final.antt =====
-- A row that has ended, in the transactions of src/functions/broadcast_worker.py.
use vakant.Prelude.{ℕ, ◌≡◌, refl, Bool, true, false, Option, some, List}
use vakant.Prelude.Text.{Text}
use vakant.Broadcast.{
  Progress, is_pending, is_sending, is_sent, is_failed, is_blocked, Target, Queue, target_row,
}
use vakant.Broadcast.Batch.{Claim, claim_ids, Delivery, pending, sending, write_results}
use vakant.Broadcast.Batch.Claims.{Held, claim_ids_kept}
use vakant.Broadcast.Batch.Writes.{claims_of, write_plans_kept, release_kept}

-- A recipient that was reached, failed or blocked is never sent to again.
abbrev pub ended_row : Progress → Bool
ended_row is_pending = false
ended_row is_sending = false
ended_row is_sent = true
ended_row is_failed = true
ended_row is_blocked = true

-- The row of a recipient, once it has ended.
abbrev pub Stays : ℕ → ℕ → Target → Queue → Type 0
Stays c k t q = target_row c k q.targets ≡ some t

not_pending : (p : Progress) → ended_row p ≡ true → pending p ≡ false
not_pending is_pending e = cc
not_pending is_sending e = refl
not_pending is_sent e = refl
not_pending is_failed e = refl
not_pending is_blocked e = refl

pub not_sending : (p : Progress) → ended_row p ≡ true → sending p ≡ false
not_sending is_pending e = refl
not_sending is_sending e = cc
not_sending is_sent e = refl
not_sending is_failed e = refl
not_sending is_blocked e = refl

module _ (c k : ℕ) (t : Target) (has_ended : ended_row t.status ≡ true) where
  pub claim_ids-Stays :
      (b now : ℕ) (ks : List ℕ) (q : Queue)
      → Stays c k t q
      → Stays c k t (record q { targets = (claim_ids b now ks q.targets).1 })
  claim_ids-Stays b now ks q h =
      claim_ids_kept b now ks c k q.targets t h (rw (not_pending t.status has_ended) refl)

  pub write_results-Stays :
      (b now : ℕ) (rs : List Delivery) (file_id : Option Text) (xs : List Claim) (q : Queue)
      → Held b (claims_of rs xs) q.targets
      → Stays c k t q
      → Stays c k t (write_results b now rs file_id xs q)
  unfolding write_results
  write_results-Stays b now rs file_id xs q held h =
      let off = not_sending t.status has_ended in
      release_kept b xs _ c k t (write_plans_kept b now rs xs q.targets c k t held h off) off
