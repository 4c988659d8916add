-- ===== src/Broadcast/Batch/Claims.antt =====
-- What a claim holds (`_claim_with_attempts` of src/functions/broadcast_worker.py), until its batch
-- is written.
use vakant.Prelude.{
  ℕ, ◌≡◌, ◌≢◌, refl, true, false, some, List, [], ◌∷◌, inl, inr, arith, All, Bool-cases,
  Option-cases, ◌⊎◌, ◌∙◌, subst,
}
use vakant.Broadcast.{Target, is_sending, target_row, update_target}
use vakant.Broadcast.Rows.{
  weigh, weigh-update_same, target_row-update_self, target_row-update_kept, target_row-key,
}
use vakant.Broadcast.Batch.{due, Claim, claim_row, claim_ids}

-- The claims of a batch: each row is being sent, has the attempts of its claim, and is claimed once.
abbrev pub Held : ℕ → List Claim → List Target → Type 0
Held b [] ts = Unit
Held b (x ∷ xs) ts =
    ((t : Target) × (target_row b x.user_id ts ≡ some t)
      × (t.status ≡ is_sending)
      × (t.attempts ≡ x.attempts))
    × All (λ (y : Claim). y.user_id ≢ x.user_id) xs
    × Held b xs ts

module _ (b now : ℕ) where
  claim_kept :
      (k c j : ℕ) (ts : List Target) (t : Target)
      → target_row c j ts ≡ some t
      → due now t ≡ false
      → target_row c j (update_target b k (due now) (claim_row now) ts) ≡ some t
  claim_kept k c j ts t h d =
      target_row-update_kept b k (due now) (claim_row now) c j ts t (λ x. refl) (λ x. refl) h
        (λ e. d)

  claim_ids_none : (ts : List Target) → claim_ids b now [] ts ≡ ([], ts)
  unfolding claim_ids
  claim_ids_none ts = refl

  -- A claim of the next id skips it, or takes its row.
  claim_ids_next :
      (k : ℕ) (ks : List ℕ) (ts : List Target)
      → (claim_ids b now (k ∷ ks) ts ≡ claim_ids b now ks ts)
        ⊎ ((t : Target) × (target_row b k ts ≡ some t)
            × (due now t ≡ true)
            × (claim_ids b now (k ∷ ks) ts ≡ (
              record { user_id = k; attempts = t.attempts }
                  ∷ (claim_ids b now ks (update_target b k (due now) (claim_row now) ts)).0,
              (claim_ids b now ks (update_target b k (due now) (claim_row now) ts)).1,
            )))
  unfolding claim_ids
  claim_ids_next k ks ts = elim (Option-cases (target_row b k ts)) [
    | inl missing ↦ inl (rw (missing, claim_ids) refl)
    | inr (x, found) ↦ elim (Bool-cases (due now x)) [
      | inr early ↦ inl (rw (found, claim_ids) (rw early refl))
      | inl ready ↦ inr (x, found, ready, rw (found, claim_ids) (rw ready refl))
    ]
  ]

  -- A row that is not due is not touched by a claim.
  pub claim_ids_kept :
      (ks : List ℕ) (c j : ℕ) (ts : List Target) (t : Target)
      → target_row c j ts ≡ some t
      → due now t ≡ false
      → target_row c j (claim_ids b now ks ts).1 ≡ some t
  claim_ids_kept [] c j ts t h d = rw (claim_ids_none ts) h
  claim_ids_kept (k ∷ ks) c j ts t h d = elim (claim_ids_next k ks ts) [
    | inl skips ↦ rw skips (claim_ids_kept ks c j ts t h d)
    | inr (x, found, ready, takes) ↦
        rw takes (claim_ids_kept ks c j _ t (claim_kept k c j ts t h d) d)
  ]

  claim_ids_other :
      (ks : List ℕ) (k : ℕ) (ts : List Target) (t : Target)
      → target_row b k ts ≡ some t
      → due now t ≡ false
      → All (λ (y : Claim). y.user_id ≢ k) (claim_ids b now ks ts).0
  claim_ids_other [] k ts t h d = rw (claim_ids_none ts) tt
  claim_ids_other (i ∷ ks) k ts t h d = elim (claim_ids_next i ks ts) [
    | inl skips ↦ rw skips (claim_ids_other ks k ts t h d)
    | inr (x, found, ready, takes) ↦ rw takes (
      λ e. differs (subst (λ n. target_row b n ts ≡ some x) e found) ready,
      claim_ids_other ks k _ t (claim_kept i b k ts t h d) d,
    )
  ]
    where
      differs : {x : Target} → target_row b k ts ≡ some x → due now x ≡ true → ⊥
      differs p q = ground (arith, p, q, h, d)

  pub claim_ids-Held :
      (ks : List ℕ) (ts : List Target) → Held b (claim_ids b now ks ts).0 (claim_ids b now ks ts).1
  claim_ids-Held [] ts = rw (claim_ids_none ts) tt
  claim_ids-Held (k ∷ ks) ts = elim (claim_ids_next k ks ts) [
    | inl skips ↦ rw skips (claim_ids-Held ks ts)
    | inr (x, found, ready, takes) ↦
        let taken : target_row b k (update_target b k (due now) (claim_row now) ts)
            ≡ some (claim_row now x) =
          target_row-update_self b k (due now) (claim_row now) ts x found ready
            (target_row-key b k ts x found) in
        rw takes (
          (claim_row now x, claim_ids_kept ks b k _ (claim_row now x) taken refl, refl, refl),
          claim_ids_other ks k _ (claim_row now x) taken refl,
          claim_ids-Held ks _,
        )
  ]

  -- What a claim does not change in a row, it does not change in a sum.
  pub weigh-claim_ids :
      (g : Target → ℕ)
      → ((t : Target) → due now t ≡ true → g (claim_row now t) ≡ g t)
      → (ks : List ℕ) (ts : List Target) → weigh g (claim_ids b now ks ts).1 ≡ weigh g ts
  weigh-claim_ids g same [] ts = rw (claim_ids_none ts) refl
  weigh-claim_ids g same (k ∷ ks) ts = elim (claim_ids_next k ks ts) [
    | inl skips ↦ rw skips (weigh-claim_ids g same ks ts)
    | inr (x, found, ready, takes) ↦
        rw takes
          (weigh-claim_ids g same ks _ ∙ weigh-update_same b k (due now) (claim_row now) g ts same)
  ]
