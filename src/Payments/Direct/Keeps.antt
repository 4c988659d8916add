-- ===== src/Payments/Direct/Keeps.antt =====
-- Calls of webapp/payments/service.py that keep the books of the shop, and how they compose.
use vakant.Prelude.{ℕ, ◌≡◌, refl, Bool, Option, none, some, ap, ◌∙◌, sym}
use vakant.Prelude.Int.{pos}
use vakant.Prelude.Text.{Text}
use vakant.Db.{Db, Conn, Order, State, created, pending, paid, cancelled}
use vakant.Db.Exec.{Result, ok, err, ◌>>=◌, Exec, Exc, raise, guard, continue}
use vakant.Payments.Books.{IsBooked, with_orders-IsLedger}
use vakant.Payments.Orders.{find_user_order}
use vakant.Payments.Orders.States.{with_row}
use vakant.Payments.Credit.Sums.{paid_amount, paid_bonus, order_sum-update_row_same}
use vakant.Payments.Merchant.{Sent, accepted}
use vakant.Payments.Direct.{
  hit_limit, count, window_of, load_payable_order, payable, accept, state_of, payable_in,
}

-- The books of what is committed and of what the connection sees.
unfoldable pub Booked : Conn → Type 0
Booked c = IsBooked c.saved × IsBooked c.live

-- A call that keeps both, however it ends.
unfoldable pub Keeps : {A : Type 0} → Exec A → Type 0
Keeps m = (c : Conn) → Booked c → Booked (m c).1

pub continue-Booked :
    {A B : Type 0} (f : A → Exec B) (out : Result A × Conn)
    → ((a : A) → Keeps (f a))
    → Booked out.1
    → Booked (continue f out).1
unfolding Keeps
continue-Booked f (ok a, c) next h = next a c h
continue-Booked f (err e, c) next h = h

pub >>=-Keeps :
    {A B : Type 0} (m : Exec A) (f : A → Exec B)
    → Keeps m
    → ((a : A) → Keeps (f a))
    → Keeps (m >>= f)
unfolding Keeps
>>=-Keeps m f first next c h = continue-Booked f (m c) next (first c h)

-- An update that leaves the users, the states and the amounts of the orders keeps the books.
pub same_sums-IsBooked :
    (i : Text) (test : Order → Bool) (f : Order → Order) (d : Db)
    → ((o : Order)
        → ((f o).user_id ≡ o.user_id)
          × ((f o).state ≡ o.state)
          × ((f o).amount_soum ≡ o.amount_soum)
          × ((f o).bonus_amount ≡ o.bonus_amount))
    → IsBooked d
    → IsBooked (with_row i test f d)
same_sums-IsBooked i test f d same h = record {
  ledger = with_orders-IsLedger d (with_row i test f) refl refl refl h.ledger;
  topups = λ k.
      h.topups k
      ∙ ap pos (
          sym (
            order_sum-update_row_same paid_amount k i test f d.orders
              (λ o t. ((same o).0, amount o))));
  bonuses = λ k.
      h.bonuses k
      ∙ ap pos (
          sym (
            order_sum-update_row_same paid_bonus k i test f d.orders
              (λ o t. ((same o).0, bonus o))));
}
  where
    amount : (o : Order) → paid_amount (f o) ≡ paid_amount o
    amount o = rw (same o).1 (rw (same o).2 refl)

    bonus : (o : Order) → paid_bonus (f o) ≡ paid_bonus o
    bonus o = rw (same o).1 (rw (same o).3 refl)

pub hit_limit-Keeps :
    (now : ℕ) (bucket : Text) (limit window : ℕ) → Keeps (hit_limit now bucket limit window)
unfolding Keeps hit_limit Booked
hit_limit-Keeps now bucket limit window c (saved, live) = (counted, counted)
  where
    counted :
        IsBooked
          (record c.live { rate_limits = count bucket (window_of now window) c.live.rate_limits })
    counted = record {
      ledger =
          with_orders-IsLedger c.live
            (λ d. record d { rate_limits = count bucket (window_of now window) d.rate_limits }) refl
            refl refl live.ledger;
      topups = live.topups;
      bonuses = live.bonuses;
    }

pub payable_in-Keeps : (s : State) (o : Order) → Keeps (payable_in s o)
unfolding Keeps
payable_in-Keeps paid o c h = h
payable_in-Keeps cancelled o c h = h
payable_in-Keeps created o c h = h
payable_in-Keeps pending o c h = h

pub payable-Keeps : (o : Option Order) → Keeps (payable o)
unfolding Keeps
payable-Keeps none c h = h
payable-Keeps (some o) c h = payable_in-Keeps o.state o c h

pub load_payable_order-Keeps : (k : ℕ) (i : Text) → Keeps (load_payable_order k i)
unfolding Keeps load_payable_order
load_payable_order-Keeps k i c h = payable-Keeps (find_user_order k i c.live) c h

pub accept-Keeps : {A : Type 0} (s : Sent A) → Keeps (accept s)
unfolding Keeps
accept-Keeps (accepted a) c h = h
accept-Keeps (Sent.refused e) c h = h

pub raise-Keeps : (A : Type 0) (e : Exc) → Keeps (raise {A = A} e)
unfolding Keeps
raise-Keeps A e c h = h

pub state_of-Keeps : (k : ℕ) (i : Text) → Keeps (state_of k i)
unfolding Keeps state_of
state_of-Keeps k i c h = h

pub guard-Keeps : (b : Bool) (e : Exc) → Keeps (guard b e)
unfolding Keeps
guard-Keeps b e c h = h
