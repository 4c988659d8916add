-- ===== src/Broadcast/Targets/Inserts.antt =====
-- What `materialize_targets` and `queue_broadcast` of src/functions/broadcast_worker.py leave.
use vakant.Prelude.{
  ℕ, ◌≡◌, refl, true, none, some, List, [], ◌∷◌, arith, keep, Bool-cases, Option-cases, inl, inr,
  ◌⊎◌, subst, ◌∙◌,
}
use vakant.Broadcast.{
  queued, Job, Target, Recipient, Queue, is_target, job_row, update_job, target_row,
}
use vakant.Broadcast.Rows.{weigh}
use vakant.Broadcast.Targets.{
  is_recipient, new_target, insert_target, insert_targets, materialize_targets, queue_broadcast,
  any_job, targets_of,
}

pub weigh-insert_target :
    (g : Target → ℕ) (b k : ℕ) (ts : List Target)
    → g (new_target b k) ≡ 0
    → weigh g (insert_target b k ts) ≡ weigh g ts
weigh-insert_target g b k ts weightless = elim (Option-cases (target_row b k ts)) [
  | inl missing ↦ rw (missing, insert_target) (rw weightless (omega arith))
  | inr (t, found) ↦ rw (found, insert_target) refl
]

pub weigh-insert_targets :
    (g : Target → ℕ) (b : ℕ) (us : List Recipient) (ts : List Target)
    → ((k : ℕ) → g (new_target b k) ≡ 0)
    → weigh g (insert_targets b us ts) ≡ weigh g ts
unfolding insert_targets
weigh-insert_targets g b [] ts weightless = refl
weigh-insert_targets g b (u ∷ us) ts weightless =
    weigh-insert_targets g b us _ weightless
    ∙ weigh-insert_target g b u.user_id ts (weightless u.user_id)

-- An insert keeps each row that is there.
insert_target_kept :
    (b k c j : ℕ) (ts : List Target) (t : Target)
    → target_row c j ts ≡ some t
    → target_row c j (insert_target b k ts) ≡ some t
insert_target_kept b k c j ts t h = elim (Option-cases (target_row b k ts)) [
  | inr (x, found) ↦ rw (found, insert_target) h
  | inl missing ↦
      rw (missing, insert_target)
        (elim (Bool-cases (is_target c j (new_target b k))) [
          | inr other ↦ rw other h
          | inl mine ↦ absurd (taken mine missing)
        ])
]
  where
    taken : is_target c j (new_target b k) ≡ true → target_row b k ts ≡ none → ⊥
    taken mine missing =
        let e1 : b ≡ c = ground (arith, mine) in
        let e2 : k ≡ j = ground (arith, mine) in
        let again : target_row c j ts ≡ none =
          subst (λ m. target_row m j ts ≡ none) e1
            (subst (λ n. target_row b n ts ≡ none) e2 missing) in
        cc

pub insert_targets_kept :
    (b : ℕ) (us : List Recipient) (c j : ℕ) (ts : List Target) (t : Target)
    → target_row c j ts ≡ some t
    → target_row c j (insert_targets b us ts) ≡ some t
unfolding insert_targets
insert_targets_kept b [] c j ts t h = h
insert_targets_kept b (u ∷ us) c j ts t h =
    insert_targets_kept b us c j _ t (insert_target_kept b u.user_id c j ts t h)

-- `queue_broadcast` of a job that is there.
abbrev pub queued_tables : ℕ → List ℕ → ℕ → Job → Queue → Queue
queued_tables now admin_ids b j q = record q {
  jobs =
      update_job b any_job
        (λ x. record x {
          status = queued;
          total =
              targets_of b
                (insert_targets b (keep (is_recipient now admin_ids j.target) q.users) q.targets);
          error = none;
        })
        q.jobs;
  targets = insert_targets b (keep (is_recipient now admin_ids j.target) q.users) q.targets;
}

pub queue_broadcast_cases :
    (now : ℕ) (admin_ids : List ℕ) (b : ℕ) (q : Queue)
    → (queue_broadcast now admin_ids b q ≡ none)
      ⊎ ((j : Job) × (job_row b q.jobs ≡ some j)
          × (queue_broadcast now admin_ids b q
              ≡ some (
                targets_of b (queued_tables now admin_ids b j q).targets,
                queued_tables now admin_ids b j q,
              )))
unfolding queue_broadcast materialize_targets
queue_broadcast_cases now admin_ids b q = elim (Option-cases (job_row b q.jobs)) [
  | inl missing ↦ inl (rw (missing, queue_broadcast) refl)
  | inr (j, found) ↦ inr (j, found, rw (found, queue_broadcast) refl)
]
