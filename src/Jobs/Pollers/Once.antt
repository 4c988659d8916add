-- ===== src/Jobs/Pollers/Once.antt =====
-- A job of src/functions/bot_jobs.py is handed out once, whatever the pollers do.
use vakant.Prelude.{
  ℕ, ◌+◌, ◌≡◌, ◌≤◌, refl, Bool, true, false, Option, none, some, List, [], ◌∷◌, ◌++◌, any, subst,
  ◌==◌, arith, Bool-cases, inl, inr,
}
use vakant.Prelude.Text.{Text, codes}
use vakant.Jobs.{
  Job, Table, is_queued, update, enqueue_job, next_queued, claimable, claimed_row, claim, Answer,
  recorded, is_recorded, run_claimed_job, reap_stale_jobs, rowcount, unknown_kind, timed_out,
  was_cancelled, returned, raised, is_stale, fail_with,
}
use vakant.Jobs.Pollers.{
  Poller, waiting, read, working, System, Event, enqueues, selects, takes, dies, ends, reaps,
  with_jobs, moves_to, selected, claimed, selects_by, claims_by, ends_by, happen, history,
  nothing_queued, AllTaken, AllSeen, IsDistinct,
}

record IsSound (s : System) : Type 0 where
  distinct : IsDistinct s.handed
  taken : AllTaken s.handed s.table
  rows : AllSeen s.table.jobs s.table.job_seq

-- An UPDATE that leaves no row queued makes no row claimable, and gives no new ids.
claimable-update :
    (id : ℕ) (test : Job → Bool) (f : Job → Job) (js : List Job)
    → ((j : Job) → is_queued (f j) ≡ false)
    → any (claimable id) js ≡ false
    → any (claimable id) (update test f js) ≡ false
claimable-update id test f [] never h = refl
claimable-update id test f (j ∷ js) never h = elim (Bool-cases (test j)) [
  | inl hit ↦ rw (hit, never j) (ground (arith, h, claimable-update id test f js never))
  | inr missed ↦ rw missed (ground (arith, h, claimable-update id test f js never))
]

AllSeen-update :
    (n : ℕ) (test : Job → Bool) (f : Job → Job) (js : List Job)
    → ((j : Job) → (f j).id ≡ j.id)
    → AllSeen js n
    → AllSeen (update test f js) n
AllSeen-update n test f [] keeps h = tt
AllSeen-update n test f (j ∷ js) keeps (first, rest) = elim (Bool-cases (test j)) [
  | inl hit ↦ (rw hit (rw (keeps j) first), AllSeen-update n test f js keeps rest)
  | inr missed ↦ (rw missed first, AllSeen-update n test f js keeps rest)
]

AllTaken-update :
    (test : Job → Bool) (f : Job → Job) (ids : List ℕ) (t : Table)
    → ((j : Job) → is_queued (f j) ≡ false)
    → AllTaken ids t
    → AllTaken ids (record t { jobs = update test f t.jobs })
AllTaken-update test f [] t never h = tt
AllTaken-update test f (id ∷ ids) t never (first, rest) = (
  record {
    unclaimable = claimable-update id test f t.jobs never first.unclaimable;
    seen = first.seen;
  },
  AllTaken-update test f ids t never rest,
)

-- A row that the UPDATE of a claim took is not claimable again.
claimable-claim :
    (id now : ℕ) (js : List Job)
    → any (claimable id) (update (claimable id) (claimed_row now) js) ≡ false
claimable-claim id now [] = refl
claimable-claim id now (j ∷ js) = elim (Bool-cases (claimable id j)) [
  | inl hit ↦ rw hit (ground (arith, claimable-claim id now js))
  | inr missed ↦ rw missed (rw missed (claimable-claim id now js))
]

-- A claim that took a row found one.
rowcount-any : (test : Job → Bool) (js : List Job) → any test js ≡ false → rowcount test js ≡ 0
rowcount-any test [] h = refl
rowcount-any test (j ∷ js) h = elim (Bool-cases (test j)) [
  | inl hit ↦ ground (arith, h, hit)
  | inr missed ↦ rw missed (rowcount-any test js (ground (arith, h, missed)))
]

claim-fresh :
    (id : ℕ) (ids : List ℕ) (t : Table)
    → (rowcount (claimable id) t.jobs == 1) ≡ true
    → AllTaken ids t
    → any (λ i. i == id) ids ≡ false
claim-fresh id [] t won h = refl
claim-fresh id (i ∷ ids) t won (first, rest) = elim (Bool-cases (i == id)) [
  | inl same ↦
      let e : i ≡ id = ground (arith, same) in
      let none_left : rowcount (claimable id) t.jobs ≡ 0 =
        rowcount-any (claimable id) t.jobs
          (subst (λ k. any (claimable k) t.jobs ≡ false) e first.unclaimable) in
      absurd (ground (arith, won, none_left))
  | inr other ↦ rw other (claim-fresh id ids t won rest)
]

-- The id that a claim takes is in the table.
claim-seen :
    (id n : ℕ) (js : List Job) → (rowcount (claimable id) js == 1) ≡ true → AllSeen js n → id ≤ n
claim-seen id n [] won h = absurd (ground (arith, won))
claim-seen id n (j ∷ js) won (first, rest) = elim (Bool-cases (claimable id j)) [
  | inl hit ↦ ground (arith, hit, first)
  | inr missed ↦ claim-seen id n js (ground (arith, won, missed)) rest
]

any-append_one :
    (test : Job → Bool) (js : List Job) (j : Job)
    → any test js ≡ false
    → test j ≡ false
    → any test (js ++ j ∷ []) ≡ false
any-append_one test [] j h off = rw off refl
any-append_one test (x ∷ js) j h off = elim (Bool-cases (test x)) [
  | inl hit ↦ ground (arith, h, hit)
  | inr missed ↦ rw missed (any-append_one test js j (ground (arith, h, missed)) off)
]

AllSeen-append_one :
    (n : ℕ) (js : List Job) (j : Job) → AllSeen js n → j.id ≡ n + 1 → AllSeen (js ++ j ∷ []) (n + 1)
AllSeen-append_one n [] j h e = (omega (arith, e), tt)
AllSeen-append_one n (x ∷ js) j (first, rest) e =
    (omega (arith, first), AllSeen-append_one n js j rest e)

AllTaken-enqueue_job :
    (now : ℕ) (kind payload_json : Text) (created_by : Option ℕ) (ids : List ℕ) (t : Table)
    → AllTaken ids t
    → AllTaken ids (enqueue_job now kind payload_json created_by t).1
unfolding enqueue_job
AllTaken-enqueue_job now kind payload_json created_by [] t h = tt
AllTaken-enqueue_job now kind payload_json created_by (id ∷ ids) t (first, rest) = (
  record {
    unclaimable =
        any-append_one (claimable id) t.jobs _ first.unclaimable (ground (arith, first.seen));
    seen = omega (arith, first.seen);
  },
  AllTaken-enqueue_job now kind payload_json created_by ids t rest,
)

enqueue_job-AllSeen :
    (now : ℕ) (kind payload_json : Text) (created_by : Option ℕ) (t : Table)
    → AllSeen t.jobs t.job_seq
    → AllSeen
        (enqueue_job now kind payload_json created_by t).1.jobs
        (enqueue_job now kind payload_json created_by t).1.job_seq
unfolding enqueue_job
enqueue_job-AllSeen now kind payload_json created_by t h =
    AllSeen-append_one t.job_seq t.jobs _ h refl

recorded-not_queued :
    (answer : Answer) (now : ℕ) (j : Job) → is_queued (recorded answer now j) ≡ false
recorded-not_queued unknown_kind now j = refl
recorded-not_queued timed_out now j = refl
recorded-not_queued was_cancelled now j = refl
recorded-not_queued (returned result) now j = refl
recorded-not_queued (raised message) now j = refl

recorded-id : (answer : Answer) (now : ℕ) (j : Job) → (recorded answer now j).id ≡ j.id
recorded-id unknown_kind now j = refl
recorded-id timed_out now j = refl
recorded-id was_cancelled now j = refl
recorded-id (returned result) now j = refl
recorded-id (raised message) now j = refl

-- An UPDATE after which no row that it took is queued.
IsSound-update :
    (test : Job → Bool) (f : Job → Job) (s : System)
    → ((j : Job) → is_queued (f j) ≡ false)
    → ((j : Job) → (f j).id ≡ j.id)
    → IsSound s
    → IsSound (with_jobs (update test f s.table.jobs) s)
IsSound-update test f s never keeps h = record {
  distinct = h.distinct;
  taken = AllTaken-update test f s.handed s.table never h.taken;
  rows = AllSeen-update s.table.job_seq test f s.table.jobs keeps h.rows;
}

-- The invariant is on the table and the ids.
IsSound-moves_to : (p : ℕ) (x : Poller) (s : System) → IsSound s → IsSound (moves_to p x s)
IsSound-moves_to p x s h = record { distinct = h.distinct; taken = h.taken; rows = h.rows }

IsSound-claim :
    (p now id : ℕ) (s : System) → IsSound s → IsSound (claimed p id (claim now id s.table.jobs) s)
IsSound-claim p now id s h =
    let after = IsSound-update (claimable id) (claimed_row now) s (λ j. refl) (λ j. refl) h in
    elim (Bool-cases (rowcount (claimable id) s.table.jobs == 1)) [
      | inr lost ↦ rw lost (IsSound-moves_to p waiting _ after)
      | inl won ↦ rw won record {
        distinct = (claim-fresh id s.handed s.table won h.taken, h.distinct);
        taken = (
          record {
            unclaimable = claimable-claim id now s.table.jobs;
            seen = claim-seen id s.table.job_seq s.table.jobs won h.rows;
          },
          after.taken,
        );
        rows = after.rows;
      }
    ]

selected-IsSound :
    (p : ℕ) (found : Option Job) (s : System) → IsSound s → IsSound (selected p found s)
selected-IsSound p none s h = IsSound-moves_to p waiting s h
selected-IsSound p (some j) s h = IsSound-moves_to p (read j.id) s h

selects_by-IsSound : (p : ℕ) (x : Poller) (s : System) → IsSound s → IsSound (selects_by p x s)
selects_by-IsSound p waiting s h = selected-IsSound p (next_queued s.table.jobs) s h
selects_by-IsSound p (read id) s h = h
selects_by-IsSound p (working id) s h = h

claims_by-IsSound :
    (p now : ℕ) (x : Poller) (s : System) → IsSound s → IsSound (claims_by p now x s)
claims_by-IsSound p now (read id) s h = IsSound-claim p now id s h
claims_by-IsSound p now waiting s h = h
claims_by-IsSound p now (working id) s h = h

ends_by-IsSound :
    (p now : ℕ) (answer : Answer) (x : Poller) (s : System)
    → IsSound s
    → IsSound (ends_by p now answer x s)
unfolding run_claimed_job
ends_by-IsSound p now answer (working id) s h = IsSound-moves_to p waiting _ (
    IsSound-update (is_recorded answer id) (recorded answer now) s (recorded-not_queued answer now)
      (recorded-id answer now) h)
ends_by-IsSound p now answer waiting s h = h
ends_by-IsSound p now answer (read id) s h = h

happen-IsSound : (e : Event) (s : System) → IsSound s → IsSound (happen e s)
unfolding happen reap_stale_jobs
happen-IsSound (enqueues now kind payload_json created_by) s h = record {
  distinct = h.distinct;
  taken = AllTaken-enqueue_job now kind payload_json created_by s.handed s.table h.taken;
  rows = enqueue_job-AllSeen now kind payload_json created_by s.table h.rows;
}
happen-IsSound (selects p) s h = selects_by-IsSound p (s.pollers p) s h
happen-IsSound (takes p now) s h = claims_by-IsSound p now (s.pollers p) s h
happen-IsSound (dies p) s h = IsSound-moves_to p waiting s h
happen-IsSound (ends p now answer) s h = ends_by-IsSound p now answer (s.pollers p) s h
happen-IsSound (reaps now older_than) s h =
    IsSound-update (is_stale now older_than) (fail_with now (codes "stale: worker died")) s
      (λ j. refl) (λ j. refl) h

history-IsSound : (es : List Event) (s : System) → IsSound s → IsSound (history es s)
unfolding history
history-IsSound [] s h = h
history-IsSound (e ∷ es) s h = history-IsSound es (happen e s) (happen-IsSound e s h)

-- From an empty table, whatever the pollers of any number of processes do, in any order, a job is
-- handed to `run_claimed_job` once at most, and no row of a job that was handed out is queued
-- again.
pub history-IsDistinct :
    (es : List Event)
    → IsDistinct (history es nothing_queued).handed
      × AllTaken (history es nothing_queued).handed (history es nothing_queued).table
history-IsDistinct es =
    let h = history-IsSound es nothing_queued (record { distinct = tt; taken = tt; rows = tt }) in
    (h.distinct, h.taken)
