-- ===== src/Payments/Orders/States.antt =====
-- What `attach_transaction` and `cancel_order` (webapp/payments/service.py) do to an order.
use vakant.Prelude.{
  ℕ, ◌≡◌, refl, ◌⊎◌, Bool, true, false, Option, none, some, inl, inr, Bool-cases, ap, ◌∙◌,
}
use vakant.Prelude.Int.{ℤ}
use vakant.Prelude.Text.{Text}
use vakant.Db.{Db, Conn, Order, fresh}
use vakant.Db.Rows.{row, update_row, changed, changed-row, update_row_refused, row-update_row_self}
use vakant.Db.Exec.{Result, ok, err}
use vakant.Payments.Config.{is_uuid, lower}
use vakant.Payments.Orders.{
  Status, now_cancelled, find_order, attachable, attach, attach_clashes, attach_transaction,
  closed_under, can_close, cancel, cancel_status, cancel_order, is_paid,
}

-- An order id as `uuid4` writes it.
abbrev pub IsOrderId : Text → Type 0
IsOrderId i = (is_uuid i ≡ true) × (lower i ≡ i)

pub find_order-row : (i : Text) (d : Db) → IsOrderId i → find_order i d ≡ row i d.orders
unfolding find_order
find_order-row i d h = rw h.0 (ap (λ j. row j d.orders) h.1)

abbrev pub with_row : Text → (Order → Bool) → (Order → Order) → Db → Db
with_row i test f d = record d { orders = update_row i test f d.orders }

pub with_row_refused :
    (i : Text) (test : Order → Bool) (f : Order → Order) (d : Db)
    → changed i test d.orders ≡ false
    → with_row i test f d ≡ d
with_row_refused i test f d h =
    ap (λ os. record d { orders = os }) (update_row_refused i test f d.orders h)

-- An order that was updated as an open one, and committed.
pub record IsUpdated (i : Text) (test : Order → Bool) (f : Order → Order) (d : Db) (c' : Conn)
    : Type 0 where
  pub order : Order
  pub found : row i d.orders ≡ some order
  pub passed : test order ≡ true
  pub result : c' ≡ fresh (with_row i test f d)

-- What a call of `attach_transaction` has done: it bound the order, and no other order of the
-- provider had the transaction; or it changed nothing.
abbrev pub Attaches : ℕ → Text → Text → ℕ → Db → Result Bool × Conn → Type 0
Attaches now i txn time d (ok true, c') =
    (IsUpdated i (attachable txn) (attach now txn time) d c' × (attach_clashes i txn d ≡ false))
    ⊎ ((c' ≡ fresh d) × (closed_under txn (find_order i d) ≡ true))
Attaches now i txn time d (ok false, c') = c' ≡ fresh d
Attaches now i txn time d (err e, c') = ⊥

module _ (now : ℕ) (i txn : Text) (time : ℕ) (d : Db) where
  answered-Attaches :
      (b : Bool) → closed_under txn (find_order i d) ≡ b → Attaches now i txn time d (ok b, fresh d)
  answered-Attaches true e = inr (refl, e)
  answered-Attaches false e = refl

  -- Whatever is in the tables, a call binds an open order to a transaction that no other order of
  -- the provider has, and commits; or it changes nothing, and says yes only if the order was closed
  -- under that transaction.
  pub attach_transaction-Attaches :
      Attaches now i txn time d (attach_transaction now i txn time (fresh d))
  unfolding attach_transaction
  attach_transaction-Attaches = elim (Bool-cases (attach_clashes i txn d)) [
    | inl clash ↦ rw clash refl
    | inr free ↦ rw free (elim (Bool-cases (changed i (attachable txn) d.orders)) [
      | inl updated ↦
          let (o, found, passed) = changed-row i (attachable txn) d.orders updated in
          rw updated
            (inl (record { order = o; found = found; passed = passed; result = refl }, free))
      | inr kept ↦ rw kept (
          rw (update_row_refused i (attachable txn) (attach now txn time) d.orders kept)
            (answered-Attaches _ refl))
    ])
  ]

-- What a call of `cancel_order` has done.
abbrev pub Cancels : ℕ → Text → ℕ → Option ℤ → Db → Result (Status × Option Order) × Conn → Type 0
Cancels now i time reason d (ok (now_cancelled, o), c') =
    IsUpdated i can_close (cancel now time reason) d c'
Cancels now i time reason d (ok (_, o), c') = c' ≡ fresh d
Cancels now i time reason d (err e, c') = ⊥

module _ (now : ℕ) (i : Text) (time : ℕ) (reason : Option ℤ) (d : Db) where
  kept-Cancels :
      (found : Option Order)
      → Cancels now i time reason d (ok (cancel_status false found, found), fresh d)
  unfolding cancel_status
  kept-Cancels none = refl
  kept-Cancels (some o) = elim (Bool-cases (is_paid o.state)) [
    | inl done ↦ rw done
    | inr gone ↦ rw gone
  ]

  -- A cancellation, under an id as `uuid4` writes it, closes an open order and commits, or changes
  -- nothing: a paid order stays paid.
  pub cancel_order-Cancels :
      IsOrderId i → Cancels now i time reason d (cancel_order now i time reason (fresh d))
  unfolding cancel_order
  cancel_order-Cancels h = elim (Bool-cases (changed i can_close d.orders)) [
    | inl updated ↦
        let (o, found, passed) = changed-row i can_close d.orders updated in
        let there : find_order i (with_row i can_close (cancel now time reason) d)
            ≡ some (cancel now time reason o) =
          find_order-row i (with_row i can_close (cancel now time reason) d) h
          ∙ row-update_row_self i can_close (cancel now time reason) d.orders o found passed refl in
        rw updated (
          rw there (
            unfold cancel_status in
            record { order = o; found = found; passed = passed; result = refl }))
    | inr kept ↦ rw kept (
        rw (update_row_refused i can_close (cancel now time reason) d.orders kept)
          (kept-Cancels (find_order i d)))
  ]
