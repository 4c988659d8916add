-- ===== src/Payments/Credit/Settle.antt =====
-- `settle_order` (webapp/payments/service.py): all of a payment, once, or nothing.
use vakant.Prelude.{ℕ, ◌≡◌, refl, true, Option, none, some, inl, inr, Bool-cases, ◌∙◌, subst}
use vakant.Prelude.Int.{ℤ}
use vakant.Prelude.Text.{Text, codes}
use vakant.Db.{Db, Conn, Order, fresh}
use vakant.Db.Rows.{row, update_row, changed, changed-row, row-update_row_self}
use vakant.Db.Exec.{Result, ok, err, rolled_back, continue, pure, gets, commit, ◌>>=◌, ◌>>◌}
use vakant.Payments.Orders.States.{IsOrderId, find_order-row}
use vakant.Payments.Orders.{Status, settled, can_close, is_cancelled, find_order}
use vakant.Payments.Credit.{
  settle, settle_order, settle_status, credit_settled, credit_topup, click_reference,
}
use vakant.Payments.Credit.Steps.{Credits, credit_topup-Credits, credit_topup-KeepsSaved}

-- The tables once the order `i` is marked as paid.
abbrev pub marked : ℕ → Text → ℕ → Db → Db
marked now i time d = record d { orders = update_row i can_close (settle now time) d.orders }

-- A settlement: the order was open, it is paid now, its amount and its bonus are credited, and
-- all of it is committed.
pub record IsSettled (now : ℕ) (i : Text) (time : ℕ) (d : Db) (c' : Conn) : Type 0 where
  pub order : Order
  pub bonus : ℕ
  pub found : row i d.orders ≡ some order
  pub was_open : can_close order ≡ true
  pub credited : Credits (settle now time order) bonus (marked now i time d) c'.live
  pub committed : c'.saved ≡ c'.live

-- What a call of `settle_order` on a connection with no open transaction has done.
abbrev pub Settles : ℕ → Text → ℕ → Db → Result (Status × Option Order) × Conn → Type 0
Settles now i time d (ok (settled, o), c') = IsSettled now i time d c'
Settles now i time d (ok (_, o), c') = c' ≡ fresh d
Settles now i time d (err e, c') = c' ≡ fresh d

module _ (now : ℕ) (i : Text) (time : ℕ) (d : Db) where
  refused-Settles :
      (found : Option Order) → Settles now i time d (ok (settle_status found, found), fresh d)
  unfolding settle_status
  refused-Settles none = refl
  refused-Settles (some o) = elim (Bool-cases (is_cancelled o.state)) [
    | inl gone ↦ rw gone
    | inr kept ↦ rw kept
  ]

  abbrev opened : Conn
  opened = record { saved = d; live = marked now i time d }

  -- After the UPDATE of an open order, from how its top-up ended.
  credited-Settles :
      (o : Order)
      → row i d.orders ≡ some o
      → can_close o ≡ true
      → (out : Result (ℕ × ℤ) × Conn)
      → credit_topup now
          (settle now time o)
          (click_reference (settle now time o))
          (codes "click")
          opened
        ≡ out
      → Settles now i time d (
          rolled_back
            (continue (λ _. do commit; final ← gets (find_order i); pure (settled, final)) out))
  credited-Settles o found was_open (ok x, c') e =
      let memo = codes "click" in
      let (credited, same) =
        credit_topup-Credits now (settle now time o) (click_reference (settle now time o)) memo
          opened x c' e in
      record {
        order = o;
        bonus = x.0;
        found = found;
        was_open = was_open;
        credited = credited;
        committed = refl;
      }
  credited-Settles o found was_open (err x, c') e =
      let same : c'.saved ≡ d =
        subst (λ (r : Result (ℕ × ℤ) × Conn). r.1.saved ≡ d) e
          (credit_topup-KeepsSaved now (settle now time o) (click_reference (settle now time o))
            (codes "click") opened) in
      rw same

  pub settle_order-Settles : IsOrderId i → Settles now i time d (settle_order now i time (fresh d))
  unfolding settle_order credit_settled
  settle_order-Settles h = elim (Bool-cases (changed i can_close d.orders)) [
    | inl open_order ↦
        let (o, found, was_open) = changed-row i can_close d.orders open_order in
        let there : find_order i (marked now i time d) ≡ some (settle now time o) =
          find_order-row i (marked now i time d) h
          ∙ row-update_row_self i can_close (settle now time) d.orders o found was_open refl in
        rw open_order (rw there (credited-Settles o found was_open _ refl))
    | inr closed ↦ rw closed (refused-Settles (find_order i d))
  ]
