-- ===== src/Broadcast/History/Final.antt =====
-- A recipient that has ended, whatever happens next.
use vakant.Prelude.{ℕ, ◌≡◌, refl, true, some, List, [], ◌∷◌, ◌∙◌, ap, inl, inr, Bool-cases}
use vakant.Broadcast.{Target, Queue, target_row}
use vakant.Broadcast.Rows.{target_row-map}
use vakant.Broadcast.Targets.Inserts.{insert_targets_kept, queue_broadcast_cases}
use vakant.Broadcast.Batch.Final.{
  ended_row, Stays, not_sending, claim_ids-Stays, write_results-Stays,
}
use vakant.Broadcast.Worker.{}
use vakant.Broadcast.Picker.{reset_row, is_stale}
use vakant.Broadcast.Worker.Runs.{run_broadcast_kept, set_broadcast_state_targets}
use vakant.Broadcast.History.{Event, creates, queues, moves, runs, resets, happen, history}

module _ (c k : ℕ) (t : Target) (has_ended : ended_row t.status ≡ true) where
  same_id : (now : ℕ) (x : Target) → (reset_row now x).broadcast_id ≡ x.broadcast_id
  same_id now x = elim (Bool-cases (is_stale now x)) [
    | inl stale ↦ rw stale refl
    | inr held ↦ rw held refl
  ]

  same_user : (now : ℕ) (x : Target) → (reset_row now x).user_id ≡ x.user_id
  same_user now x = elim (Bool-cases (is_stale now x)) [
    | inl stale ↦ rw stale refl
    | inr held ↦ rw held refl
  ]

  happen-Stays : (e : Event) (q : Queue) → Stays c k t q → Stays c k t (happen e q)
  happen-Stays (creates now x) q h = h
  happen-Stays (queues now admin_ids b) q h = elim (queue_broadcast_cases now admin_ids b q) [
    | inl missing ↦ rw missing h
    | inr (j, found, goes) ↦ rw goes (insert_targets_kept b _ c k q.targets t h)
  ]
  happen-Stays (moves now b action) q h = rw (set_broadcast_state_targets now b action q) h
  happen-Stays (runs fuel weather b) q h =
      run_broadcast_kept (Stays c k t) (λ f q keeps p. p) (claim_ids-Stays c k t has_ended)
        (λ b now rs file_id xs q held p.
          write_results-Stays c k t has_ended b now rs file_id xs q held p)
        fuel weather b q h
  happen-Stays (resets now) q h =
      target_row-map c k (reset_row now) q.targets t (same_id now) (same_user now) h
      ∙ ap (λ x. some x) fresh
    where
      fresh : reset_row now t ≡ t
      fresh = rw (not_sending t.status has_ended) refl

-- A recipient that was reached, failed or blocked stays exactly as it is, whatever happens next: it
-- is never claimed or sent to again for this job.
pub history-Stays :
    (c k : ℕ) (t : Target) (events : List Event) (q : Queue)
    → ended_row t.status ≡ true
    → target_row c k q.targets ≡ some t
    → target_row c k (history events q).targets ≡ some t
unfolding history
history-Stays c k t [] q has_ended h = h
history-Stays c k t (e ∷ events) q has_ended h =
    history-Stays c k t events _ has_ended (happen-Stays c k t has_ended e q h)
