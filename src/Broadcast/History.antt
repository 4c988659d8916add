-- ===== src/Broadcast/History.antt =====
-- What may happen to the broadcast tables, in any order: a job is created or queued, an admin moves
-- it, the worker runs it, and stale claims are reset (src/functions/broadcast_worker.py and
-- broadcast_control.py).
pub mod Counters
pub mod Final
use vakant.Prelude.{ℕ, Option, none, some, List, [], ◌∷◌}
use vakant.Broadcast.{Queue, Recipient}
use vakant.Broadcast.Targets.{Draft, create_broadcast, queue_broadcast}
use vakant.Broadcast.Control.{Action, set_broadcast_state}
use vakant.Broadcast.Worker.{Weather, run_broadcast}
use vakant.Broadcast.Picker.{reset_stale_claims}

pub data Event : Type 0 where
  creates : ℕ → Draft → Event
  queues : ℕ → List ℕ → ℕ → Event
  moves : ℕ → ℕ → Action → Event
  runs : ℕ → (ℕ → Weather) → ℕ → Event
  resets : ℕ → Event

abbrev pub or_same : Queue → Option (ℕ × Queue) → Queue
or_same q none = q
or_same q (some (total, q')) = q'

abbrev pub happen : Event → Queue → Queue
happen (creates now x) q = (create_broadcast now x q).1
happen (queues now admin_ids b) q = or_same q (queue_broadcast now admin_ids b q)
happen (moves now b action) q = (set_broadcast_state now b action q).1
happen (runs fuel weather b) q = (run_broadcast fuel weather b q).queue
happen (resets now) q = reset_stale_claims now q

unfoldable pub history : List Event → Queue → Queue
history [] q = q
history (e ∷ es) q = history es (happen e q)

-- The tables before the first broadcast.
abbrev pub no_broadcasts : List Recipient → Queue
no_broadcasts users = record { jobs = []; job_seq = 0; targets = []; users = users }
