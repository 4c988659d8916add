-- ===== src/Ledger/Activation.antt =====
-- `activate_pro` (webapp/core/ledger.py) on every branch: the charge and the flag move together.
use vakant.Prelude.{
  ℕ, ◌+◌, ◌∷◌, none, ◌≡◌, refl, true, false, some, inl, inr, ltb, arith, Bool-cases, Option-cases,
}
use vakant.Prelude.Int.{ℤ, pos, ◌-ℤ◌, ◌≤ℤ◌, abs, neg, ltb_ℤ}
use vakant.Db.{pro_activation, User, Db, Conn, balance_of, put_user, put_user_self}
use vakant.Db.Exec.{
  Result, ok, err, update_user, update_user_missing, update_user_done, update_user_refused,
}
use vakant.Ledger.{
  Receipt, check_amount, refuse_activation, charge, may_activate, insert_tx, activate_pro,
  max_amount, is_pro,
}

-- The tables after the activation of the user `u`: the price has left the balance, the flag is set,
-- and one new row says so, under the next id.
abbrev pub activated : ℕ → ℕ → ℤ → User → Db → Db
activated now k price u d = record d {
  users =
      put_user k (record u { user_balance = some (balance_of u -ℤ price); user_pro = some 1 })
        d.users;
  txs =
      record {
        id = d.tx_seq + 1;
        user_id = k;
        kind = pro_activation;
        amount = neg price;
        balance_after = balance_of u -ℤ price;
        price_snapshot = some price;
        actor_id = none;
        note = none;
        created_at = now;
        reference = none;
      }
      ∷ d.txs;
  tx_seq = d.tx_seq + 1;
}

-- What a call of `activate_pro` has done, by how it ended.
abbrev pub Activates : ℕ → ℕ → ℤ → Conn → Result Receipt × Conn → Type 0
Activates now k price c (ok r, c') =
    (u : User) × (c.live.users k ≡ some u)
    × (is_pro u ≡ false)
    × (pos 0 ≤ℤ price)
    × (price ≤ℤ balance_of u)
    × (c' ≡ record c { live = activated now k price u c.live })
    × (r.balance_after ≡ balance_of u -ℤ price)
Activates now k price c (err e, c') = c' ≡ c

module _ (now k : ℕ) (price : ℤ) (c : Conn) where
  module _ (fine : ltb max_amount (abs price) ≡ false) (sign : ltb_ℤ price (pos 0) ≡ false) where
    activation_done :
        (u : User)
        → c.live.users k ≡ some u
        → may_activate price u ≡ true
        → activate_pro now k price c ≡ (
          ok (record {
            balance_after = balance_of u -ℤ price;
            tx_id = c.live.tx_seq + 1;
            amount = neg price;
          }),
          record c { live = activated now k price u c.live },
        )
    unfolding activate_pro check_amount insert_tx
    activation_done u found fits = rw fine (
        rw sign (
          rw (update_user_done k (may_activate price) (charge price) c u found fits)
            (ground (arith, put_user_self k (charge price u) c.live.users))))

    activation_refused :
        update_user k (may_activate price) (charge price) c ≡ (ok false, c)
        → Activates now k price c (activate_pro now k price c)
    unfolding activate_pro check_amount refuse_activation
    activation_refused same = rw fine (
        rw sign (
          rw same (elim (Option-cases (c.live.users k)) [
            | inl missing ↦ rw missing refl
            | inr (u, found) ↦ rw found refl
          ])))

    checked-Activates : Activates now k price c (activate_pro now k price c)
    checked-Activates = elim (Option-cases (c.live.users k)) [
      | inl missing ↦ activation_refused (update_user_missing _ _ _ c missing)
      | inr (u, found) ↦ elim (Bool-cases (may_activate price u)) [
        | inl fits ↦
            rw (activation_done u found fits)
              (u, found, ground arith, ground arith, ground arith, refl, refl)
        | inr short ↦ activation_refused (update_user_refused _ _ _ c u found short)
      ]
    ]

  -- Whatever the call: on success the user was not Pro and could pay, and exactly the price has
  -- left the balance, the flag is set and one row is written; on a refusal nothing has changed.
  pub activate_pro-Activates : Activates now k price c (activate_pro now k price c)
  activate_pro-Activates = elim (Bool-cases (ltb max_amount (abs price))) [
    | inl big ↦ unfold activate_pro check_amount in rw big refl
    | inr fine ↦ elim (Bool-cases (ltb_ℤ price (pos 0))) [
      | inl negative ↦ unfold activate_pro check_amount in rw fine (rw negative refl)
      | inr sign ↦ checked-Activates fine sign
    ]
  ]
