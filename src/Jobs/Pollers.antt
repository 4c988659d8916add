-- ===== src/Jobs/Pollers.antt =====
-- Pollers that race for the rows of `bot_jobs` (src/functions/bot_jobs.py): `bot_jobs_loop` in
-- several processes, with the transactions of each in any order.
pub mod Once
use vakant.Prelude.{
  ℕ, ◌+◌, ◌≡◌, ◌≤◌, refl, Bool, true, false, ◌&&◌, Option, none, some, List, [], ◌∷◌, ◌++◌, any,
  length, keep, subst, ◌==◌, if◌then◌else◌, arith, Bool-cases, Option-cases, inl, inr,
}
use vakant.Prelude.Text.{Text, codes}
use vakant.Jobs.{
  Job, Table, is_queued, update, enqueue_job, next_queued, claimable, claimed_row, claim, Answer,
  recorded, is_recorded, run_claimed_job, reap_stale_jobs, rowcount, unknown_kind, timed_out,
  was_cancelled, returned, raised, is_stale, fail_with,
}

-- Where a poller of `bot_jobs_loop` stands: between two rounds, after the SELECT of
-- `claim_next_job`, or with a row that it won.
pub data Poller : Type 0 where
  waiting : Poller
  read : ℕ → Poller
  working : ℕ → Poller

-- The table, the pollers, and the ids of the jobs that were handed to `run_claimed_job`, the last
-- one first.
pub record System : Type 0 where
  pub table : Table
  pub pollers : ℕ → Poller
  pub handed : List ℕ

-- What may happen next. A poller dies with its process at any point.
pub data Event : Type 0 where
  enqueues : ℕ → Text → Text → Option ℕ → Event
  selects : ℕ → Event
  takes : ℕ → ℕ → Event
  dies : ℕ → Event
  ends : ℕ → ℕ → Answer → Event
  reaps : ℕ → ℕ → Event

abbrev pub set_poller : ℕ → Poller → (ℕ → Poller) → ℕ → Poller
set_poller p x pollers i = if i == p then x else pollers i

abbrev pub with_jobs : List Job → System → System
with_jobs js s = record s { table = record s.table { jobs = js } }

abbrev pub moves_to : ℕ → Poller → System → System
moves_to p x s = record s { pollers = set_poller p x s.pollers }

abbrev pub selected : ℕ → Option Job → System → System
selected p none s = moves_to p waiting s
selected p (some j) s = moves_to p (read j.id) s

-- Only a poller that won goes on to `run_claimed_job`.
abbrev pub claimed : ℕ → ℕ → Bool × List Job → System → System
claimed p id (won, js) s =
    if won
    then record (moves_to p (working id) (with_jobs js s)) { handed = id ∷ s.handed }
    else moves_to p waiting (with_jobs js s)

abbrev pub selects_by : ℕ → Poller → System → System
selects_by p waiting s = selected p (next_queued s.table.jobs) s
selects_by p (read id) s = s
selects_by p (working id) s = s

abbrev pub claims_by : ℕ → ℕ → Poller → System → System
claims_by p now (read id) s = claimed p id (claim now id s.table.jobs) s
claims_by p now waiting s = s
claims_by p now (working id) s = s

abbrev pub ends_by : ℕ → ℕ → Answer → Poller → System → System
ends_by p now answer (working id) s =
    moves_to p waiting (with_jobs (run_claimed_job answer now id s.table.jobs) s)
ends_by p now answer waiting s = s
ends_by p now answer (read id) s = s

unfoldable pub happen : Event → System → System
happen (enqueues now kind payload_json created_by) s = record s {
  table = (enqueue_job now kind payload_json created_by s.table).1;
}
happen (selects p) s = selects_by p (s.pollers p) s
happen (takes p now) s = claims_by p now (s.pollers p) s
happen (dies p) s = moves_to p waiting s
happen (ends p now answer) s = ends_by p now answer (s.pollers p) s
happen (reaps now older_than) s = with_jobs (reap_stale_jobs now older_than s.table.jobs).1 s

unfoldable pub history : List Event → System → System
history [] s = s
history (e ∷ es) s = history es (happen e s)

abbrev pub nothing_queued : System
nothing_queued = record {
  table = record { jobs = []; job_seq = 0 };
  pollers = λ p. waiting;
  handed = [];
}

-- A job that no poller can claim any more.
pub record IsTaken (id : ℕ) (t : Table) : Type 0 where
  pub unclaimable : any (claimable id) t.jobs ≡ false
  pub seen : id ≤ t.job_seq

abbrev pub AllTaken : List ℕ → Table → Type 0
AllTaken [] t = Unit
AllTaken (id ∷ ids) t = IsTaken id t × AllTaken ids t

-- Every row has an id that the counter gave.
abbrev pub AllSeen : List Job → ℕ → Type 0
AllSeen [] n = Unit
AllSeen (j ∷ js) n = (j.id ≤ n) × AllSeen js n

-- Every id stands once in the list.
abbrev pub IsDistinct : List ℕ → Type 0
IsDistinct [] = Unit
IsDistinct (id ∷ ids) = (any (λ i. i == id) ids ≡ false) × IsDistinct ids
