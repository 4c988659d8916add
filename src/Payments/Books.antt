-- ===== src/Payments/Books.antt =====
-- The books of the shop: what the ledger says was topped up is what the orders say was paid.
pub mod Settling
use vakant.Prelude.{
  ℕ, ◌+◌, ◌≡◌, refl, ◌⊎◌, inl, inr, Bool, true, false, ◌&&◌, ◌==◌, if◌then◌else◌, arith, ap, ◌∙◌,
  sym, subst, Bool-cases,
}
use vakant.Prelude.Int.{ℤ, pos, ◌+ℤ◌, int_laws, +ℤ_parts}
use vakant.Db.{Db, Order, Kind, topup, topup_bonus}
use vakant.Db.Rows.{update_row}
use vakant.Ledger.{kind_code}
use vakant.Ledger.Moves.{IsMove}
use vakant.Ledger.Balance.{IsLedger, IsMove-IsLedger}
use vakant.Payments.Credit.{with_bonus, any_order}
use vakant.Payments.Credit.Steps.{Credits}
use vakant.Payments.Credit.Sums.{
  order_sum, paid_amount, paid_bonus, kind_sum, kind_sum-own, kind_sum-other, kind_sum-none,
}

-- Every user's top-ups in the ledger are the amounts of the user's paid orders, the bonuses are
-- those that the orders name, and the ledger is in order.
pub record IsBooked (d : Db) : Type 0 where
  pub ledger : IsLedger d
  pub topups : (k : ℕ) → kind_sum topup k d.txs ≡ pos (order_sum paid_amount k d.orders)
  pub bonuses : (k : ℕ) → kind_sum topup_bonus k d.txs ≡ pos (order_sum paid_bonus k d.orders)

-- The ledger does not read the orders.
pub with_orders-IsLedger :
    (d : Db) (f : Db → Db)
    → (f d).users ≡ d.users
    → (f d).txs ≡ d.txs
    → (f d).tx_seq ≡ d.tx_seq
    → IsLedger d
    → IsLedger (f d)
with_orders-IsLedger d f users txs seq h = record {
  balanced = record { at = λ k u e. rw txs (h.balanced.at k u (rw users at e)) };
  ordered = rw txs (rw seq h.ordered);
}

module _ (o : Order) (bonus : ℕ) (d d' : Db) (credits : Credits o bonus d d') where
  pub Credits-IsLedger : IsLedger d → IsLedger d'
  Credits-IsLedger h =
      let mid = IsMove-IsLedger o.user_id credits.topped h in
      let final : IsLedger credits.final = elim credits.extra [
        | inl (none_given, same) ↦ rw same mid
        | inr m ↦ IsMove-IsLedger o.user_id m mid
      ] in
      rw credits.stored
        (record { balanced = record { at = final.balanced.at }; ordered = final.ordered })

  pub Credits-orders :
      d'.orders ≡ update_row o.id any_order (with_bonus credits.percent bonus) d.orders
  Credits-orders =
      let mid : credits.final.orders ≡ credits.mid.orders = elim credits.extra [
        | inl (none_given, same) ↦ rw same
        | inr m ↦ m.orders
      ] in
      rw credits.stored (rw (mid ∙ credits.topped.orders))

  pub Credits-topups :
      (k : ℕ)
      → kind_sum topup k d'.txs
        ≡ kind_sum topup k d.txs +ℤ pos (if o.user_id == k then o.amount_soum else 0)
  Credits-topups k =
      let last : kind_sum topup k credits.final.txs ≡ kind_sum topup k credits.mid.txs =
        elim credits.extra [
          | inl (none_given, same) ↦ rw same
          | inr m ↦ kind_sum-other topup k o.user_id refl m
        ] in
      rw credits.stored (last ∙ kind_sum-own topup k o.user_id o.amount_soum credits.topped)

  pub Credits-bonuses :
      (k : ℕ)
      → kind_sum topup_bonus k d'.txs
        ≡ kind_sum topup_bonus k d.txs +ℤ pos (if o.user_id == k then bonus else 0)
  Credits-bonuses k =
      let first : kind_sum topup_bonus k credits.mid.txs ≡ kind_sum topup_bonus k d.txs =
        kind_sum-other topup_bonus k o.user_id refl credits.topped in
      let added = pos (if o.user_id == k then bonus else 0) in
      let last : kind_sum topup_bonus k credits.final.txs
          ≡ kind_sum topup_bonus k credits.mid.txs +ℤ added =
        elim credits.extra [
          | inl (none_given, same) ↦
              rw same
                (kind_sum-none topup_bonus k credits.mid.txs (o.user_id == k) bonus none_given)
          | inr m ↦ kind_sum-own topup_bonus k o.user_id bonus m
        ] in
      rw credits.stored (last ∙ ap (λ a. a +ℤ added) first)
