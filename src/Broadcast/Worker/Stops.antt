-- ===== src/Broadcast/Worker/Stops.antt =====
-- A job that an admin paused or cancelled, when the worker gets to it: `set_broadcast_state` of
-- src/functions/broadcast_control.py and `run_broadcast` of broadcast_worker.py.
use vakant.Prelude.{ℕ, zero, suc, ◌≡◌, ◌≢◌, refl, false, none, some, [], ◌∙◌}
use vakant.Broadcast.{
  Status, draft, queued, running, paused, cancelled, done, rejected, Job, Queue, job_row,
}
use vakant.Broadcast.Control.{Action, new_status, set_broadcast_state, set_broadcast_state_taken}
use vakant.Broadcast.Worker.{
  Weather, returned, is_active, Step, batch_of, run_batch, batch_size, run_broadcast,
}

-- A run that sends to nobody.
abbrev Silent : Step → Queue → Type 0
Silent s q = (s.sends ≡ []) × (s.queue.targets ≡ q.targets)

batch_of-Silent :
    (w : Weather) (b limit : ℕ) (j : Job) (q : Queue) (s : Status)
    → is_active s ≡ false
    → (Silent (batch_of w b limit j q s) q) × ((batch_of w b limit j q s).verdict ≡ returned)
batch_of-Silent w b limit j q queued off = cc
batch_of-Silent w b limit j q running off = cc
batch_of-Silent w b limit j q cancelled off = ((refl, refl), refl)
batch_of-Silent w b limit j q draft off = ((refl, refl), refl)
batch_of-Silent w b limit j q paused off = ((refl, refl), refl)
batch_of-Silent w b limit j q done off = ((refl, refl), refl)
batch_of-Silent w b limit j q rejected off = ((refl, refl), refl)

run_batch-Silent :
    (w : Weather) (b limit : ℕ) (q : Queue) (j : Job)
    → job_row b q.jobs ≡ some j
    → is_active j.status ≡ false
    → (Silent (run_batch w b limit q) q) × ((run_batch w b limit q).verdict ≡ returned)
unfolding run_batch
run_batch-Silent w b limit q j found off =
    rw (found, run_batch) (batch_of-Silent w b limit j q j.status off)

run_broadcast-Silent :
    (fuel : ℕ) (weather : ℕ → Weather) (b : ℕ) (q : Queue) (j : Job)
    → job_row b q.jobs ≡ some j
    → is_active j.status ≡ false
    → Silent (run_broadcast fuel weather b q) q
unfolding run_broadcast
run_broadcast-Silent zero weather b q j found off = (refl, refl)
run_broadcast-Silent (suc fuel) weather b q j found off =
    let (silent, ends) = run_batch-Silent (weather fuel) b batch_size q j found off in
    rw ends silent

-- Once a pause or a cancellation of a job was taken, a run of the job, of any length and in any
-- weather, sends to nobody and leaves every recipient as it was.
pub run_broadcast-set_broadcast_state :
    (now b : ℕ) (action : Action) (q : Queue) (fuel : ℕ) (weather : ℕ → Weather)
    → (set_broadcast_state now b action q).0 ≢ none
    → is_active (new_status action) ≡ false
    → ((run_broadcast fuel weather b (set_broadcast_state now b action q).1).sends ≡ [])
      × ((run_broadcast fuel weather b (set_broadcast_state now b action q).1).queue.targets
          ≡ q.targets)
run_broadcast-set_broadcast_state now b action q fuel weather taken off =
    let (j, found, moved, same) = set_broadcast_state_taken now b action q taken in
    let (silent, kept) =
      run_broadcast-Silent fuel weather b (set_broadcast_state now b action q).1 j found
        (rw moved off) in
    (silent, kept ∙ same)
