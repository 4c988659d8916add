-- ===== src/Payments/Paynet/Books.antt =====
-- The books under webapp/payments/paynet.py: a Paynet payment is booked on both sides.
use vakant.Prelude.{ℕ, ◌+◌, ◌≡◌, refl, ◌∷◌, ◌==◌, if◌then◌else◌, ◌∙◌}
use vakant.Prelude.Int.{ℤ, pos, ◌+ℤ◌, int_laws}
use vakant.Prelude.Text.{Text, text_eq_refl}
use vakant.Db.{Db, Conn, Order}
use vakant.Payments.Credit.{with_bonus}
use vakant.Payments.Credit.Sums.{order_sum, paid_amount, paid_bonus}
use vakant.Payments.Books.{
  IsBooked, with_orders-IsLedger, Credits-IsLedger, Credits-orders, Credits-topups, Credits-bonuses,
}
use vakant.Payments.Shop.{Clock}
use vakant.Payments.Paynet.Methods.Performs.{IsPerformed, bought, inserted}

module _ (t : Clock) (i : Text) (txn k amount : ℕ) (d : Db) (c' : Conn)
    (p : IsPerformed t i txn k amount d c') where
  final_order : Order
  final_order = with_bonus p.credited.percent p.bonus (bought t i txn k amount d)

  final_orders : c'.live.orders ≡ final_order ∷ d.orders
  unfolding final_order
  final_orders =
      Credits-orders (bought t i txn k amount d) p.bonus (inserted t i txn k amount d) c'.live
        p.credited
      ∙ rw (text_eq_refl i) refl

  -- A performed transaction keeps the books.
  pub IsPerformed-IsBooked : IsBooked d → IsBooked c'.live
  unfolding final_order
  IsPerformed-IsBooked h = record {
    ledger =
        Credits-IsLedger (bought t i txn k amount d) p.bonus (inserted t i txn k amount d) c'.live
          p.credited (with_orders-IsLedger d (inserted t i txn k amount) refl refl refl h.ledger);
    topups = λ j.
        Credits-topups (bought t i txn k amount d) p.bonus (inserted t i txn k amount d) c'.live
          p.credited j
        ∙ rw final_orders
            (added (if k == j then amount else 0) (order_sum paid_amount j d.orders) (h.topups j));
    bonuses = λ j.
        Credits-bonuses (bought t i txn k amount d) p.bonus (inserted t i txn k amount d) c'.live
          p.credited j
        ∙ rw final_orders
            (added (if k == j then p.bonus else 0) (order_sum paid_bonus j d.orders) (h.bonuses j));
  }
    where
      added : {a : ℤ} (x m : ℕ) → a ≡ pos m → a +ℤ pos x ≡ pos (x + m)
      added x m e = rw e (omega int_laws)
