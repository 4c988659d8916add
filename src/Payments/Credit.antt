-- ===== src/Payments/Credit.antt =====
-- Turning a paid order into balance: `credit_topup` and `settle_order` of
-- webapp/payments/service.py.
pub mod Sums
pub mod Steps
pub mod Settle
pub mod Returns
use vakant.Prelude.{
  ℕ, Bool, true, false, Option, none, some, [], ◌∷◌, ◌++◌, ltb, ◌==◌, if◌then◌else◌, or_default,
}
use vakant.Prelude.Int.{ℤ, pos}
use vakant.Prelude.Text.{Text, codes, decimal}
use vakant.Db.{Db, Conn, Order, State, paid, cancelled, topup, topup_bonus}
use vakant.Db.Rows.{row, update_row, changed}
use vakant.Db.Exec.{
  Result, ok, err, Exec, Exc, integrity_error, assertion_error, pure, raise, gets, ◌>>=◌, ◌>>◌,
  modify, commit, rollback, or_rollback,
}
use vakant.Ledger.{Receipt, Change, apply_balance_change}
use vakant.Payments.Config.{payment_bonus_amount}
use vakant.Payments.Orders.{
  Status, settled, already_paid, now_cancelled, not_found, is_cancelled, can_close, find_order,
}

abbrev pub topup_change : Order → Text → Text → Change
topup_change o reference memo = record {
  user_id = o.user_id;
  amount = pos o.amount_soum;
  kind = topup;
  actor_id = none;
  note = some memo;
  price_snapshot = none;
  require_sufficient = false;
  reference = some reference;
}

abbrev pub bonus_change : Order → ℕ → ℕ → Change
bonus_change o percent bonus = record {
  user_id = o.user_id;
  amount = pos bonus;
  kind = topup_bonus;
  actor_id = none;
  note = some (decimal percent ++ codes "%");
  price_snapshot = none;
  require_sufficient = false;
  reference = some (codes "payment-bonus:" ++ o.id);
}

-- What a SAVEPOINT that `c` opened keeps of a call, with the bonus and the balance that follow:
-- an IntegrityError drops the call's writes, any other exception goes on.
unfoldable pub after_savepoint : Conn → ℕ → ℤ → Result Receipt × Conn → Result (ℕ × ℤ) × Conn
after_savepoint c bonus before (ok r, c') = (ok (bonus, r.balance_after), c')
after_savepoint c bonus before (err integrity_error, c') =
    (ok (0, before), record c' { live = c.live })
after_savepoint c bonus before (err e, c') = (err e, c')

-- The bonus of `credit_topup`, in its SAVEPOINT; the balance after the top-up is `before`.
unfoldable pub credit_bonus : ℕ → Order → ℕ → ℤ → Exec (ℕ × ℤ)
unfolding after_savepoint
credit_bonus now o percent before c =
    let bonus = payment_bonus_amount o.amount_soum percent in
    if ltb 0 bonus
    then after_savepoint c bonus before (apply_balance_change now (bonus_change o percent bonus) c)
    else (ok (0, before), c)

abbrev pub with_bonus : ℕ → ℕ → Order → Order
with_bonus percent bonus o = record o { bonus_percent = percent; bonus_amount = bonus }

abbrev pub any_order : Order → Bool
any_order o = true

-- `credit_topup`
unfoldable pub credit_topup : ℕ → Order → Text → Text → Exec (ℕ × ℤ)
credit_topup now o reference memo = do
  result ← apply_balance_change now (topup_change o reference memo)
  percent ← gets (λ d. or_default 0 d.payment_bonus_percent)
  credited ← credit_bonus now o percent result.balance_after
  modify (λ d. record d {
    orders =
        update_row o.id any_order (with_bonus (if credited.0 == 0 then 0 else percent) credited.0)
          d.orders;
  })
  pure credited

abbrev pub settle : ℕ → ℕ → Order → Order
settle now perform_time o = record o {
  state = paid;
  click_card_token = none;
  perform_time = perform_time;
  create_time = if o.create_time == 0 then perform_time else o.create_time;
  updated_at = now;
}

-- `f"click:{order.provider_txn or order.id}"`
abbrev pub click_reference : Order → Text
click_reference o =
    codes "click:" ++ elim o.provider_txn [ none ↦ o.id | some [] ↦ o.id | some (c ∷ t) ↦ c ∷ t ]

settle_status : Option Order → Status
settle_status none = not_found
settle_status (some o) = if is_cancelled o.state then now_cancelled else already_paid

-- What `settle_order` does once its UPDATE has moved the order to `paid`.
pub credit_settled : ℕ → Text → Exec (Status × Option Order)
credit_settled now i = do
  found ← gets (find_order i)
  elim found [
    | none ↦ raise assertion_error
    | some o ↦ do
      credit_topup now o (click_reference o) (codes "click")
      commit
      final ← gets (find_order i)
      pure (settled, final)
  ]

-- `settle_order`
pub settle_order : ℕ → Text → ℕ → Exec (Status × Option Order)
unfolding settle_status
settle_order now i perform_time = or_rollback (do
  updated ← gets (λ d. changed i can_close d.orders)
  modify (λ d. record d { orders = update_row i can_close (settle now perform_time) d.orders })
  elim updated [
    | false ↦ do rollback; found ← gets (find_order i); pure (settle_status found, found)
    | true ↦ credit_settled now i
  ])
