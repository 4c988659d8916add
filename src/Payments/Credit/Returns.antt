-- ===== src/Payments/Credit/Returns.antt =====
-- A payment that can be credited is: `settle_order` (webapp/payments/service.py) does return.
use vakant.Prelude.{
  ℕ, ◌≤◌, ◌≡◌, refl, inl, inr, true, false, Option, some, ltb, or_default, arith, ◌∙◌, Bool-cases,
  take,
}
use vakant.Prelude.Int.{ℤ, pos, abs, ◌+ℤ◌}
use vakant.Prelude.Text.{Text, codes}
use vakant.Db.{Db, Conn, User, Order, fresh, topup, topup_bonus, balance_of, put_user_self}
use vakant.Db.Rows.{row, changed, row-update_row_self}
use vakant.Db.Exec.{ok}
use vakant.Ledger.{max_amount, clashes, entry_of, referenced, add_balance}
use vakant.Ledger.Changes.{applied, change_applied, known_kind}
use vakant.Payments.Config.{payment_bonus_amount}
use vakant.Payments.Config.Inputs.{payment_bonus_amount_bounds}
use vakant.Payments.Orders.{settled, can_close, find_order}
use vakant.Payments.Orders.States.{IsOrderId, find_order-row}
use vakant.Payments.Credit.{
  topup_change, bonus_change, credit_bonus, after_savepoint, credit_topup, settle, settle_order,
  credit_settled, click_reference,
}
use vakant.Payments.Credit.Settle.{marked}

module _ (now : ℕ) (o : Order) (small : o.amount_soum ≤ max_amount) where
  -- The bonus never stops a top-up: a reference that is taken only drops the bonus.
  credit_bonus_returns :
      (percent : ℕ) (before : ℤ) (c : Conn) (u : User)
      → c.live.users o.user_id ≡ some u
      → (out : ℕ × ℤ) × (c' : Conn) × (credit_bonus now o percent before c ≡ (ok out, c'))
  unfolding credit_bonus after_savepoint
  credit_bonus_returns percent before c u found =
      let bonus = payment_bonus_amount o.amount_soum percent in
      let ch = bonus_change o percent bonus in
      let (k, good) = known_kind topup_bonus (λ e. cc) in
      let fine : ltb max_amount (abs (pos bonus)) ≡ false =
        ground (arith, payment_bonus_amount_bounds o.amount_soum percent) in
      elim (Bool-cases (ltb 0 bonus)) [
        | inl given ↦ rw given (
            rw (change_applied now ch c fine k good u found refl)
              (elim (Bool-cases (clashes (entry_of ch (balance_of u +ℤ pos bonus)) c.live.txs)) [
                | inl clash ↦ rw clash (_, _, refl)
                | inr free ↦ rw free (_, _, refl)
              ]))
        | inr none_given ↦ rw none_given (_, _, refl)
      ]

  credit_topup_returns :
      (reference memo : Text) (c : Conn) (u : User)
      → c.live.users o.user_id ≡ some u
      → referenced topup (take 200 reference) c.live.txs ≡ false
      → (out : ℕ × ℤ) × (c' : Conn) × (credit_topup now o reference memo c ≡ (ok out, c'))
  unfolding credit_topup
  credit_topup_returns reference memo c u found free =
      let ch = topup_change o reference memo in
      let (k, good) = known_kind topup (λ e. cc) in
      let fine : ltb max_amount (abs (pos o.amount_soum)) ≡ false = ground (arith, small) in
      let c1 : Conn = record c { live = applied now ch u c.live } in
      let percent = or_default 0 c.live.payment_bonus_percent in
      let (out, c2, e) =
        credit_bonus_returns percent (balance_of u +ℤ pos o.amount_soum) c1
          (add_balance (pos o.amount_soum) u)
          (put_user_self o.user_id (add_balance (pos o.amount_soum) u) c.live.users) in
      rw (change_applied now ch c fine k good u found refl) (rw free (rw e (_, _, refl)))

-- An open order under an id as `uuid4` writes it, of at most MAX_AMOUNT and of a user that is
-- there, whose reference no top-up has, settles.
pub settle_order_returns :
    (now : ℕ) (i : Text) (time : ℕ) (d : Db) (o : Order) (u : User)
    → IsOrderId i
    → row i d.orders ≡ some o
    → can_close o ≡ true
    → o.amount_soum ≤ max_amount
    → d.users o.user_id ≡ some u
    → referenced topup (take 200 (click_reference o)) d.txs ≡ false
    → (final : Option Order) × ((settle_order now i time (fresh d)).0 ≡ ok (settled, final))
unfolding settle_order credit_settled
settle_order_returns now i time d o u good found was_open small there free =
    let there' : find_order i (marked now i time d) ≡ some (settle now time o) =
      find_order-row i (marked now i time d) good
      ∙ row-update_row_self i can_close (settle now time) d.orders o found was_open refl in
    let (out, c', e) =
      credit_topup_returns now (settle now time o) small (click_reference (settle now time o))
        (codes "click") (record { saved = d; live = marked now i time d }) u there free in
    let open_order : changed i can_close d.orders ≡ true = ground (arith, found, was_open) in
    rw open_order (rw there' (rw e (_, refl)))
