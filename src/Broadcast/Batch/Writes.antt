-- ===== src/Broadcast/Batch/Writes.antt =====
-- What `_write_results` of src/functions/broadcast_worker.py does to the rows that its batch holds,
-- and to the others.
use vakant.Prelude.{
  ℕ, ◌+◌, ◌≡◌, ◌≢◌, refl, true, false, ◌&&◌, some, List, [], ◌∷◌, arith, ◌==◌, All, sym, ◌∙◌, ap,
}
use vakant.Broadcast.{Target, is_sending, target_row, update_target}
use vakant.Broadcast.Rows.{
  weigh, weigh-update, weigh-update_same, target_row-update_kept, target_row-key,
}
use vakant.Broadcast.Outcome.{Plan}
use vakant.Broadcast.Batch.{
  Claim, Delivery, plan_of, planned_row, any_target, write_plans, release, release_row, is_claimed,
  sending,
}
use vakant.Broadcast.Batch.Claims.{Held}

-- The claims that a batch has answered, then those it gives back.
abbrev pub claims_of : List Delivery → List Claim → List Claim
claims_of [] xs = xs
claims_of (r ∷ rs) xs = r.claim ∷ claims_of rs xs

abbrev pub total : (Delivery → ℕ) → List Delivery → ℕ
total g [] = 0
total g (r ∷ rs) = g r + total g rs

module _ (b now : ℕ) where
  same_key_id : (k j : ℕ) → ((b == b) && (j == k)) ≡ true → j ≡ k
  same_key_id k j e = ground (arith, e)

  Held-update :
      (k : ℕ) (p : Plan) (xs : List Claim) (ts : List Target)
      → All (λ (y : Claim). y.user_id ≢ k) xs
      → Held b xs ts
      → Held b xs (update_target b k any_target (planned_row now p) ts)
  Held-update k p [] ts others held = tt
  Held-update k p (x ∷ xs) ts (differs, others) ((t, found, status, attempts), once, held) =
      ((t, kept, status, attempts), once, Held-update k p xs ts others held)
    where
      kept : target_row b x.user_id (update_target b k any_target (planned_row now p) ts) ≡ some t
      kept =
          target_row-update_kept b k any_target (planned_row now p) b x.user_id ts t (λ y. refl)
            (λ y. refl) found (λ e. absurd (differs (same_key_id k x.user_id e)))

  -- The sum after the write, when each row had `before` and gets `after`.
  pub weigh-write_plans :
      (g : Target → ℕ) (before after : Delivery → ℕ)
      → ((r : Delivery) (t : Target)
          → t.broadcast_id ≡ b
          → t.status ≡ is_sending
          → t.attempts ≡ r.claim.attempts
          → (g t ≡ before r) × (g (planned_row now (plan_of now r) t) ≡ after r))
      → (rs : List Delivery) (xs : List Claim) (ts : List Target) → Held b (claims_of rs xs) ts
      → weigh g (write_plans b now rs ts) + total before rs ≡ weigh g ts + total after rs
  unfolding write_plans
  weigh-write_plans g before after rows [] xs ts held = refl
  weigh-write_plans g before after rows (r ∷ rs) xs ts ((t, found, status, attempts), once, held) =
      let ts' = update_target b r.claim.user_id any_target (planned_row now (plan_of now r)) ts in
      let mine : t.broadcast_id ≡ b = ground (arith, target_row-key b r.claim.user_id ts t found) in
      let (had, gets) = rows r t mine status attempts in
      let moved : weigh g ts' + g t ≡ weigh g ts + g (planned_row now (plan_of now r) t) =
        weigh-update b r.claim.user_id any_target (planned_row now (plan_of now r)) g ts t found
          refl in
      let later =
        weigh-write_plans g before after rows rs xs ts'
          (Held-update r.claim.user_id (plan_of now r) (claims_of rs xs) ts once held) in
      omega (arith, moved, later, had, gets)

  -- A row that is not being sent is not touched.
  pub write_plans_kept :
      (rs : List Delivery) (xs : List Claim) (ts : List Target) (c j : ℕ) (t : Target)
      → Held b (claims_of rs xs) ts
      → target_row c j ts ≡ some t
      → sending t.status ≡ false
      → target_row c j (write_plans b now rs ts) ≡ some t
  unfolding write_plans
  write_plans_kept [] xs ts c j t held h off = h
  write_plans_kept (r ∷ rs) xs ts c j t ((x, found, status, attempts), once, held) h off =
      write_plans_kept rs xs _ c j t
        (Held-update r.claim.user_id (plan_of now r) (claims_of rs xs) ts once held)
        (target_row-update_kept b r.claim.user_id any_target (planned_row now (plan_of now r)) c j
          ts t (λ y. refl) (λ y. refl) h (λ e. absurd (mine c j h e)))
        off
    where
      mine :
          (c j : ℕ) → target_row c j ts ≡ some t → ((c == b) && (j == r.claim.user_id)) ≡ true → ⊥
      mine c j p e =
          let e1 : c ≡ b = ground (arith, e) in
          let e2 : j ≡ r.claim.user_id = ground (arith, e) in
          let same : some x ≡ some t =
            sym found
            ∙ ap (λ n. target_row b n ts) (sym e2)
            ∙ ap (λ n. target_row n j ts) (sym e1)
            ∙ p in
          ground (arith, same, status, off)

pub weigh-release :
    (b : ℕ) (g : Target → ℕ)
    → ((t : Target) → is_claimed t ≡ true → g (release_row t) ≡ g t)
    → (xs : List Claim) (ts : List Target) → weigh g (release b xs ts) ≡ weigh g ts
unfolding release
weigh-release b g same [] ts = refl
weigh-release b g same (x ∷ xs) ts =
    weigh-release b g same xs _ ∙ weigh-update_same b x.user_id is_claimed release_row g ts same

pub release_kept :
    (b : ℕ) (xs : List Claim) (ts : List Target) (c j : ℕ) (t : Target)
    → target_row c j ts ≡ some t
    → sending t.status ≡ false
    → target_row c j (release b xs ts) ≡ some t
unfolding release
release_kept b [] ts c j t h off = h
release_kept b (x ∷ xs) ts c j t h off =
    release_kept b xs _ c j t
      (target_row-update_kept b x.user_id is_claimed release_row c j ts t (λ y. refl) (λ y. refl) h
        (λ e. off))
      off
