-- ===== src/Payments/Books/Settling.antt =====
-- Settling, binding and cancelling an order keep the books (webapp/payments/service.py).
use vakant.Prelude.{
  ℕ, ◌+◌, ◌≡◌, refl, Bool, true, false, some, ◌==◌, if◌then◌else◌, arith, ap, ◌∙◌, sym, subst,
}
use vakant.Prelude.Int.{ℤ, pos, ◌+ℤ◌, int_laws}
use vakant.Prelude.Text.{Text}
use vakant.Db.{Db, Conn, Order, State, created, pending, paid, cancelled}
use vakant.Db.Rows.{row, update_row, row-id, row-update_row_self}
use vakant.Payments.Orders.{is_open, is_paid, can_close}
use vakant.Payments.Orders.States.{with_row}
use vakant.Payments.Credit.{settle, with_bonus, any_order}
use vakant.Payments.Credit.Settle.{IsSettled, marked}
use vakant.Payments.Credit.Sums.{
  order_sum, paid_amount, paid_bonus, order_sum-update_row, order_sum-update_row_same,
}
use vakant.Payments.Books.{
  IsBooked, with_orders-IsLedger, Credits-IsLedger, Credits-orders, Credits-topups, Credits-bonuses,
}

pub open-unpaid : (s : State) → is_open s ≡ true → is_paid s ≡ false
open-unpaid created h = refl
open-unpaid pending h = refl
open-unpaid paid h = cc
open-unpaid cancelled h = cc

-- An update of open orders that leaves them unpaid keeps the books.
pub with_row-IsBooked :
    (i : Text) (test : Order → Bool) (f : Order → Order) (d : Db)
    → ((o : Order)
        → test o ≡ true
        → ((f o).user_id ≡ o.user_id) × (is_paid (f o).state ≡ false) × (is_paid o.state ≡ false))
    → IsBooked d
    → IsBooked (with_row i test f d)
with_row-IsBooked i test f d unpaid h = record {
  ledger = with_orders-IsLedger d (with_row i test f) refl refl refl h.ledger;
  topups = λ k.
      h.topups k
      ∙ ap pos (
          sym (
            order_sum-update_row_same paid_amount k i test f d.orders
              (λ o t. ((unpaid o t).0, ground (arith, (unpaid o t).1, (unpaid o t).2)))));
  bonuses = λ k.
      h.bonuses k
      ∙ ap pos (
          sym (
            order_sum-update_row_same paid_bonus k i test f d.orders
              (λ o t. ((unpaid o t).0, ground (arith, (unpaid o t).1, (unpaid o t).2)))));
}

module _ (now : ℕ) (i : Text) (time : ℕ) (d : Db) (c' : Conn) (s : IsSettled now i time d c') where
  bought : Order
  bought = settle now time s.order

  settled_row : row s.order.id (marked now i time d).orders ≡ some bought
  unfolding bought
  settled_row =
      subst (λ j. row j (marked now i time d).orders ≡ some bought)
        (sym (row-id i d.orders s.order s.found))
        (row-update_row_self i can_close (settle now time) d.orders s.order s.found s.was_open refl)

  pub final_orders :
      c'.live.orders
      ≡ update_row s.order.id any_order
          (with_bonus s.credited.percent s.bonus)
          (marked now i time d).orders
  final_orders =
      Credits-orders (settle now time s.order) s.bonus (marked now i time d) c'.live s.credited

  -- The sums over the orders, before and after.
  amounts :
      (k : ℕ)
      → order_sum paid_amount k c'.live.orders
        ≡ order_sum paid_amount k d.orders
          + (if s.order.user_id == k then s.order.amount_soum else 0)
  unfolding bought
  amounts k =
      let mid = (marked now i time d).orders in
      let f = with_bonus s.credited.percent s.bonus in
      rw final_orders (
        omega (
          arith,
          order_sum-update_row_same paid_amount k s.order.id any_order f mid (λ o t. (refl, refl)),
          order_sum-update_row paid_amount k i can_close (settle now time) d.orders s.order s.found
              s.was_open refl,
          nothing (s.order.user_id == k),
        ))
    where
      nothing : (b : Bool) → (if b then paid_amount s.order else 0) ≡ 0
      nothing b = ground (arith, open-unpaid s.order.state s.was_open)

  bonus_sums :
      (k : ℕ)
      → order_sum paid_bonus k c'.live.orders
        ≡ order_sum paid_bonus k d.orders + (if s.order.user_id == k then s.bonus else 0)
  unfolding bought
  bonus_sums k =
      let mid = (marked now i time d).orders in
      let f = with_bonus s.credited.percent s.bonus in
      rw final_orders (
        omega (
          arith,
          order_sum-update_row paid_bonus k s.order.id any_order f mid bought settled_row refl refl,
          order_sum-update_row paid_bonus k i can_close (settle now time) d.orders s.order s.found
              s.was_open refl,
          nothing (s.order.user_id == k),
        ))
    where
      nothing : (b : Bool) → (if b then paid_bonus s.order else 0) ≡ 0
      nothing b = ground (arith, open-unpaid s.order.state s.was_open)

  -- A settlement books the payment on both sides.
  pub IsSettled-IsBooked : IsBooked d → IsBooked c'.live
  IsSettled-IsBooked h = record {
    ledger =
        Credits-IsLedger (settle now time s.order) s.bonus (marked now i time d) c'.live s.credited
          (with_orders-IsLedger d (marked now i time) refl refl refl h.ledger);
    topups = λ k.
        Credits-topups (settle now time s.order) s.bonus (marked now i time d) c'.live s.credited k
        ∙ added (if s.order.user_id == k then s.order.amount_soum else 0) (h.topups k) (amounts k);
    bonuses = λ k.
        Credits-bonuses (settle now time s.order) s.bonus (marked now i time d) c'.live s.credited k
        ∙ added (if s.order.user_id == k then s.bonus else 0) (h.bonuses k) (bonus_sums k);
  }
    where
      added : {a : ℤ} {m n : ℕ} (x : ℕ) → a ≡ pos m → n ≡ m + x → a +ℤ pos x ≡ pos n
      added x p q = rw (p, q) (omega int_laws)
