-- ===== src/Broadcast/Picker.antt =====
-- Which job the worker takes, and the claims of a worker that died: `_next_broadcast_id` and
-- `reset_stale_claims` of src/functions/broadcast_worker.py.
use vakant.Prelude.{
  ℕ, ◌+◌, Bool, true, not, ◌&&◌, ◌||◌, Option, none, some, List, [], ◌∷◌, ltb, ◌==◌, any, keep, map,
  if◌then◌else◌,
}
use vakant.Broadcast.{Job, is_pending, Target, Queue}
use vakant.Broadcast.Batch.{sending, due}
use vakant.Broadcast.Worker.{is_active, left_over}

abbrev pub stale_claim_seconds : ℕ
stale_claim_seconds = 600

-- A claim from before the cutoff, or with no time.
abbrev pub is_stale : ℕ → Target → Bool
is_stale now t =
    sending t.status
    && elim t.claimed_at [ none ↦ true | some at ↦ ltb (at + stale_claim_seconds) now ]

abbrev pub reset_row : ℕ → Target → Target
reset_row now t = if is_stale now t then record t { status = is_pending; claimed_at = none } else t

-- `reset_stale_claims`
abbrev pub reset_stale_claims : ℕ → Queue → Queue
reset_stale_claims now q = record q { targets = map (reset_row now) q.targets }

-- What the picker asks of a job.
abbrev pub can_progress : ℕ → List Target → Job → Bool
can_progress now ts j =
    is_active j.status
    && (any (λ t. (t.broadcast_id == j.id) && due now t) ts || not (left_over j.id ts))

unfoldable pub oldest : List Job → Option ℕ
oldest [] = none
oldest (j ∷ js) = elim (oldest js) [
  | none ↦ some j.id
  | some b ↦ if ltb b j.id then some b else some j.id
]

-- `_next_broadcast_id`: `ORDER BY b.id LIMIT 1`
pub next_broadcast_id : ℕ → Queue → Option ℕ
next_broadcast_id now q = oldest (keep (can_progress now q.targets) q.jobs)
