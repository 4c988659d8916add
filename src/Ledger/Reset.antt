-- ===== src/Ledger/Reset.antt =====
-- `reset_user` (webapp/core/ledger.py) while other connections commit between its SELECT and its
-- conditional UPDATE.
use vakant.Prelude.{
  ℕ, zero, suc, ◌<◌, ◌≤◌, ◌≡◌, refl, ◌⊎◌, true, false, Option, some, inl, inr, ltb, arith,
  Bool-cases, Option-cases,
}
use vakant.Prelude.Int.{ℤ, pos, neg, abs, eqb_ℤ, int_laws, neg_parts, eq_of_parts}
use vakant.Prelude.Text.{Text}
use vakant.Db.{User, admin_reset, Db, Conn, balance_of, put_user}
use vakant.Db.Exec.{
  Result, ok, err, value_error, continue, update_user, update_user_missing, update_user_done,
  update_user_refused,
}
use vakant.Ledger.{
  Receipt, cleared, is_pro, check_amount, insert_tx, record_reset, reset_rounds, reset_user,
  reset_entry, add_tx, max_amount,
}
use vakant.Ledger.Moves.{IsMove}

-- The tables after some of the commits of other connections.
pub data Drift (between : ℕ → Db → Db) : Db → Db → Type 0 where
  stay : {d : Db} → Drift between d d
  drift : (i : ℕ) {d d' : Db} → Drift between (between i d) d' → Drift between d d'

abbrev cleared_db : ℕ → ℕ → Option ℕ → Option Text → User → Db → Db
cleared_db now k actor memo u d =
    add_tx now (reset_entry k actor memo (neg (balance_of u)))
      (record d { users = put_user k (cleared u) d.users })

-- What a call of `reset_user` has done. A success moved exactly the balance that the user had at
-- the moment of the UPDATE, and left 0 and no Pro.
pub record IsReset (k : ℕ) (amount : ℤ) (d d' : Db) : Type 0 where
  pub move : IsMove k admin_reset amount d d'
  pub zero_after : balance_of move.after ≡ pos 0
  pub not_pro : is_pro move.after ≡ false

abbrev pub Resets : (ℕ → Db → Db) → ℕ → Conn → Result Receipt × Conn → Type 0
Resets between k c (ok r, c') = (d : Db) × Drift between c.live d × IsReset k r.amount d c'.live
Resets between k c (err e, c') =
    Drift between c.saved c'.saved × ((e ≡ value_error) ⊎ Drift between c.live c'.live)

cleared-IsReset :
    (now k : ℕ) (actor : Option ℕ) (memo : Option Text) (u : User) (d : Db)
    → d.users k ≡ some u
    → IsReset k (neg (balance_of u)) d (cleared_db now k actor memo u d)
cleared-IsReset now k actor memo u d found = record {
  move = record {
    before = u;
    after = cleared u;
    row = _;
    found = found;
    users = refl;
    rows = refl;
    next_id = refl;
    row_id = refl;
    owner = refl;
    row_kind = refl;
    row_amount = refl;
    row_balance = refl;
    moved = omega int_laws;
    orders = refl;
  };
  zero_after = refl;
  not_pro = refl;
}

module _ (between : ℕ → Db → Db) (now k : ℕ) (actor : Option ℕ) (memo : Option Text) where
  -- A drift before the call.
  drifted :
      (i : ℕ) (c : Conn) (out : Result Receipt × Conn)
      → Resets between k (record { saved = between i c.saved; live = between i c.live }) out
      → Resets between k c out
  drifted i c (ok r, c') (d, moved, done) = (d, drift i moved, done)
  drifted i c (err e, c') (back, inl bad) = (drift i back, inl bad)
  drifted i c (err e, c') (back, inr moved) = (drift i back, inr (drift i moved))

  -- The round whose UPDATE matched.
  record_reset-Resets :
      (u : User) (balance : ℤ) (c : Conn)
      → c.live.users k ≡ some u
      → balance_of u ≡ balance
      → Resets between k c (
          record_reset now k actor memo balance
            (record c { live = record c.live { users = put_user k (cleared u) c.live.users } }))
  unfolding record_reset check_amount insert_tx
  record_reset-Resets u balance c found same =
      elim (Bool-cases (ltb max_amount (abs (neg balance)))) [
        | inl big ↦ rw big (stay, inl refl)
        | inr fine ↦
            rw fine (rw (← same) (c.live, stay, cleared-IsReset now k actor memo u c.live found))
      ]

  -- One round, from what the UPDATE found.
  round-Resets :
      (rounds : ℕ) (balance : ℤ) (c : Conn)
      → ((c' : Conn) → Resets between k c' (reset_rounds rounds between now k actor memo c'))
      → Resets between k c (
          continue
            (elim [
              | true ↦ record_reset now k actor memo balance
              | false ↦ reset_rounds rounds between now k actor memo
            ])
            (update_user k (λ u. eqb_ℤ (balance_of u) balance) cleared c))
  round-Resets rounds balance c again = elim (Option-cases (c.live.users k)) [
    | inl missing ↦ rw (update_user_missing _ _ _ c missing) (again c)
    | inr (u, found) ↦ elim (Bool-cases (eqb_ℤ (balance_of u) balance)) [
      | inl same ↦ rw (update_user_done _ _ _ c u found same) (
          record_reset-Resets u balance c found
            (eq_of_parts (balance_of u) balance (ground (arith, same))))
      | inr other ↦ rw (update_user_refused _ _ _ c u found other) (again c)
    ]
  ]

  rounds-Resets :
      (rounds : ℕ) (c : Conn) → Resets between k c (reset_rounds rounds between now k actor memo c)
  unfolding reset_rounds
  rounds-Resets zero c = (stay, inr stay)
  rounds-Resets (suc rounds) c = elim (Option-cases (c.live.users k)) [
    | inl missing ↦ rw missing (stay, inr stay)
    | inr (u, found) ↦ rw found (
        drifted rounds c _ (
          round-Resets rounds (balance_of u)
            (record { saved = between rounds c.saved; live = between rounds c.live })
            (rounds-Resets rounds)))
  ]

  -- Whatever is committed meanwhile, a reset that returns has moved exactly the balance that the
  -- user had at that moment, to 0 and no Pro; one that raises anything but the refusal of an
  -- amount out of bounds has changed nothing.
  pub reset_user-Resets : (c : Conn) → Resets between k c (reset_user between now k actor memo c)
  unfolding reset_user
  reset_user-Resets c = rounds-Resets 5 c

-- With nothing committed meanwhile, for a user that is there.
module _ (now k : ℕ) (actor : Option ℕ) (memo : Option Text) (c : Conn) (u : User)
    (found : c.live.users k ≡ some u) where
  first_round :
      reset_user (λ _ d. d) now k actor memo c
      ≡ record_reset now k actor memo
          (balance_of u)
          (record c { live = record c.live { users = put_user k (cleared u) c.live.users } })
  unfolding reset_user reset_rounds
  first_round = rw found (
      rw (
        update_user_done k (λ v. eqb_ℤ (balance_of v) (balance_of u)) cleared c u found
          (ground arith)))

  -- An undisturbed reset of a balance within the bounds returns.
  pub reset_user_returns :
      abs (balance_of u) ≤ max_amount
      → (r : Receipt) × ((reset_user (λ _ d. d) now k actor memo c).0 ≡ ok r)
  reset_user_returns small =
      rw first_round
        (unfold record_reset check_amount insert_tx in rw (within (balance_of u) small) (_, refl))
    where
      within : (b : ℤ) → abs b ≤ max_amount → ltb max_amount (abs (neg b)) ≡ false
      within b h = ground (arith, neg_parts b)

  -- A balance above `MAX_AMOUNT` cannot be reset: `_check_amount` refuses its negation.
  pub reset_user_too_large :
      max_amount < abs (balance_of u)
      → (reset_user (λ _ d. d) now k actor memo c).0 ≡ err value_error
  reset_user_too_large large =
      rw first_round (unfold record_reset check_amount in rw (beyond (balance_of u) large))
    where
      beyond : (b : ℤ) → max_amount < abs b → ltb max_amount (abs (neg b)) ≡ true
      beyond b h = ground (arith, neg_parts b)
