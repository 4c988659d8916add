-- ===== src/Jobs/Pending.antt =====
-- The pending jobs of a kind and the reaper, src/functions/bot_jobs.py: `find_pending_job` and
-- `reap_stale_jobs`.
use vakant.Prelude.{
  ℕ, ◌+◌, ◌≡◌, ◌<◌, refl, Bool, true, ◌&&◌, Option, none, some, List, [], ◌∷◌, find, ltb,
  or_default, if◌then◌else◌, arith, Bool-cases, inl, inr, ◌∙◌, ap, sym, ◌++◌, ◌≢◌, Option-cases,
}
use vakant.Prelude.Text.{Text, codes, text_eq, text_eq_refl}
use vakant.Jobs.{
  Job, Status, queued, running, done, failed, is_unfinished, still_pending, is_stale,
  started_before, stale_job_seconds, id_of, fail_with, find_pending_job, reap_stale_jobs, new_job,
  post_now, enqueue_job, Table,
}

-- A pending job is found without a look at its age.
abbrev pub is_unfinished_of : Text → Job → Bool
is_unfinished_of kind j = text_eq j.kind kind && is_unfinished j

-- From the first 150 seconds of unix time on, the two tests of age agree on a running row.
stale-dead :
    (now : ℕ) (at : Option ℕ)
    → stale_job_seconds < now
    → ltb (or_default 0 at + stale_job_seconds) now ≡ started_before now stale_job_seconds at
stale-dead now none late = ground (arith, late)
stale-dead now (some at) late = refl

abbrev reaped : ℕ → Job → Job
reaped now j =
    if is_stale now stale_job_seconds j then fail_with now (codes "stale: worker died") j else j

-- A row after the reaper is unfinished exactly if it was pending before.
reaped-pending_by :
    (now : ℕ) (kind : Text) (j : Job) (status : Status)
    → j.status ≡ status
    → stale_job_seconds < now
    → is_unfinished_of kind (reaped now j) ≡ still_pending now kind j
reaped-pending_by now kind j queued e late = ground (arith, e)
reaped-pending_by now kind j done e late = ground (arith, e)
reaped-pending_by now kind j failed e late = ground (arith, e)
reaped-pending_by now kind j running e late = ground (arith, e, stale-dead now j.started_at late)

reaped-pending :
    (now : ℕ) (kind : Text) (j : Job)
    → stale_job_seconds < now
    → is_unfinished_of kind (reaped now j) ≡ still_pending now kind j
reaped-pending now kind j late = reaped-pending_by now kind j j.status refl late

reaped-id : (now : ℕ) (j : Job) → (reaped now j).id ≡ j.id
reaped-id now j = elim (Bool-cases (is_stale now stale_job_seconds j)) [
  | inl old ↦ rw old refl
  | inr young ↦ rw young refl
]

-- `find_pending_job` skips the claims of dead processes: from the first 150 seconds of unix time
-- on, it answers as a search of the queued and running rows does after `reap_stale_jobs`.
pub find_pending_job-reap_stale_jobs :
    (now : ℕ) (kind : Text) (js : List Job)
    → stale_job_seconds < now
    → find_pending_job now kind js
      ≡ id_of (find (is_unfinished_of kind) (reap_stale_jobs now stale_job_seconds js).1)
unfolding find_pending_job reap_stale_jobs
find_pending_job-reap_stale_jobs now kind [] late = refl
find_pending_job-reap_stale_jobs now kind (j ∷ js) late =
    let same = reaped-pending now kind j late in
    elim (Bool-cases (still_pending now kind j)) [
      | inl hit ↦ rw (hit, same ∙ hit) (ap some (sym (reaped-id now j)))
      | inr missed ↦ rw (missed, same ∙ missed) (find_pending_job-reap_stale_jobs now kind js late)
    ]

find-append_one :
    (p : Job → Bool) (js : List Job) (j : Job)
    → p j ≡ true
    → (x : Job) × (find p (js ++ j ∷ []) ≡ some x)
find-append_one p [] j h = (j, rw h refl)
find-append_one p (x ∷ js) j h = elim (Bool-cases (p x)) [
  | inl hit ↦ (x, rw hit refl)
  | inr missed ↦ let (y, e) = find-append_one p js j h in (y, rw missed e)
]

pending-new :
    (now' now : ℕ) (kind payload_json : Text) (created_by : Option ℕ) (id : ℕ)
    → still_pending now' kind (new_job now kind payload_json created_by id) ≡ true
pending-new now' now kind payload_json created_by id = rw (text_eq_refl kind) refl

-- While the job that a first call of `post_now` queued waits, a second call is refused, whenever
-- it comes, and changes nothing.
pub post_now-post_now :
    (now now' : ℕ) (kind payload_json payload_json' : Text) (by by' : Option ℕ) (t : Table)
    → (post_now now kind payload_json by t).0 ≢ none
    → post_now now' kind payload_json' by' (post_now now kind payload_json by t).1
      ≡ (none, (post_now now kind payload_json by t).1)
unfolding post_now find_pending_job enqueue_job
post_now-post_now now now' kind payload_json payload_json' by by' t posted =
    elim (Option-cases (find (still_pending now kind) t.jobs)) [
      | inr (j, found) ↦ absurd (posted (rw (found, post_now) refl))
      | inl free ↦
          let (x, again) =
            find-append_one (still_pending now' kind) t.jobs
              (new_job now kind payload_json by (t.job_seq + 1))
              (pending-new now' now kind payload_json by (t.job_seq + 1)) in
          rw (free, post_now) (rw again refl)
    ]
