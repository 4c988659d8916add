-- ===== src/Broadcast/Control.antt =====
-- The transitions of a job, src/functions/broadcast_control.py.
use vakant.Prelude.{
  ℕ, ◌≢◌, ◌≡◌, refl, ◌⊎◌, inl, inr, Bool-cases, Option-cases, Bool, true, false, Option, none, some,
  if◌then◌else◌,
}
use vakant.Broadcast.Rows.{job_row-update_self}
use vakant.Broadcast.{
  Status, draft, queued, running, paused, cancelled, Job, Queue, job_row, update_job,
}

-- The actions of `TRANSITIONS`; a route checks the name before.
pub data Action : Type 0 where
  pause resume cancel : Action

-- `TRANSITIONS`: the statuses that an action may start from
unfoldable pub allowed : Action → Status → Bool
allowed pause queued = true
allowed pause running = true
allowed resume paused = true
allowed cancel draft = true
allowed cancel queued = true
allowed cancel running = true
allowed cancel paused = true
allowed _ _ = false

-- ... and the status that it sets
unfoldable pub new_status : Action → Status
new_status pause = paused
new_status resume = queued
new_status cancel = cancelled

abbrev pub finished_by : Action → ℕ → Option ℕ → Option ℕ
finished_by cancel now finished = some now
finished_by pause now finished = finished
finished_by resume now finished = finished

abbrev pub moved_job : ℕ → Action → Job → Job
moved_job now action x = record x {
  status = new_status action;
  finished_at = finished_by action now x.finished_at;
}

-- `set_broadcast_state`: the old and the new status, or none
unfoldable pub set_broadcast_state : ℕ → ℕ → Action → Queue → Option (Status × Status) × Queue
unfolding allowed
set_broadcast_state now b action q = elim (job_row b q.jobs) [
  | none ↦ (none, q)
  | some j ↦
      if allowed action j.status
      then (
        some (j.status, new_status action),
        record q {
          jobs = update_job b (λ x. allowed action x.status) (moved_job now action) q.jobs;
        },
      )
      else (none, q)
]

pub set_broadcast_state_cases :
    (now b : ℕ) (action : Action) (q : Queue)
    → ((set_broadcast_state now b action q).1 ≡ q)
      ⊎ ((set_broadcast_state now b action q).1 ≡ record q {
        jobs = update_job b (λ x. allowed action x.status) (moved_job now action) q.jobs;
      })
unfolding set_broadcast_state
set_broadcast_state_cases now b action q = elim (Option-cases (job_row b q.jobs)) [
  | inl missing ↦ inl (rw (missing, set_broadcast_state) refl)
  | inr (j, found) ↦ elim (Bool-cases (allowed action j.status)) [
    | inl may ↦ inr (rw (found, set_broadcast_state) (rw may refl))
    | inr may_not ↦ inl (rw (found, set_broadcast_state) (rw may_not refl))
  ]
]

-- An action that is taken leaves the job in its new status, and the recipients as they are.
pub set_broadcast_state_taken :
    (now b : ℕ) (action : Action) (q : Queue)
    → (set_broadcast_state now b action q).0 ≢ none
    → (j : Job) × (job_row b (set_broadcast_state now b action q).1.jobs ≡ some j)
      × (j.status ≡ new_status action)
      × ((set_broadcast_state now b action q).1.targets ≡ q.targets)
unfolding set_broadcast_state
set_broadcast_state_taken now b action q taken = elim (Option-cases (job_row b q.jobs)) [
  | inl missing ↦ absurd (taken (rw (missing, set_broadcast_state) refl))
  | inr (j, found) ↦ elim (Bool-cases (allowed action j.status)) [
    | inr may_not ↦ absurd (taken (rw (found, set_broadcast_state) (rw may_not refl)))
    | inl may ↦ (
      moved_job now action j,
      rw (found, set_broadcast_state)
          (rw may (
            job_row-update_self b (λ x. allowed action x.status) (moved_job now action) q.jobs j
              (λ x. refl) found may)),
      refl,
      rw (found, set_broadcast_state) (rw may refl),
    )
  ]
]
