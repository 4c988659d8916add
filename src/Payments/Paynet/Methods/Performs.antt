-- ===== src/Payments/Paynet/Methods/Performs.antt =====
-- `perform_transaction` (webapp/payments/paynet.py): a transaction is credited whole and once.
use vakant.Prelude.{
  ℕ, ◌+◌, ◌≡◌, refl, Bool, true, false, none, some, ◌++◌, inl, inr, arith, Bool-cases, Option-cases,
  ◌∙◌, subst, ◌==◌, or_default,
}
use vakant.Prelude.Int.{ℤ}
use vakant.Prelude.Text.{Text, codes, decimal, text_eq_refl}
use vakant.Db.{Db, Conn, User, Order, fresh}
use vakant.Db.Rows.{row}
use vakant.Db.Exec.{
  Result, ok, err, Exc, integrity_error, rpc_error, transaction_exists, client_not_found,
  client_blocked, continue, pure, commit, ◌>>◌,
}
use vakant.Payments.Orders.{add_order, find_order}
use vakant.Payments.Orders.States.{IsOrderId, find_order-row}
use vakant.Payments.Credit.{credit_topup, with_bonus}
use vakant.Payments.Credit.Steps.{Credits, credit_topup-Credits, credit_topup-KeepsSaved}
use vakant.Payments.Books.{Credits-orders}
use vakant.Payments.Shop.{Clock}
use vakant.Payments.Paynet.Methods.{
  payer_or_error, find_paid, paid_order, provider_trn_id, insert_clashes, credit_transaction,
  after_credit, write_transaction,
}

abbrev pub bought : Clock → Text → ℕ → ℕ → ℕ → Db → Order
bought t i txn k amount d = paid_order t.now_ms i k amount txn (d.order_seq + 1)

-- The tables with the new order.
abbrev pub inserted : Clock → Text → ℕ → ℕ → ℕ → Db → Db
inserted t i txn k amount d = add_order (paid_order t.now_ms i k amount txn) d

-- A payment: the transaction was new, its payer is there and not banned, the order is in the
-- tables as paid, its amount and its bonus are credited, and all of it is committed.
pub record IsPerformed (t : Clock) (i : Text) (txn k amount : ℕ) (d : Db) (c' : Conn) : Type 0 where
  pub payer : User
  pub bonus : ℕ
  pub was_new : find_paid txn d ≡ none
  pub there : d.users k ≡ some payer
  pub not_banned : or_default 0 payer.banned ≡ 0
  pub free_id : row i d.orders ≡ none
  pub credited : Credits (bought t i txn k amount d) bonus (inserted t i txn k amount d) c'.live
  pub committed : c' ≡ fresh c'.live

-- What a write of a transaction on a connection with no open transaction has done.
abbrev pub Writes : Clock → Text → ℕ → ℕ → ℕ → Db → Result (ℕ × ℤ) × Conn → Type 0
Writes t i txn k amount d (ok r, c') =
    IsPerformed t i txn k amount d c' × (r.0 ≡ provider_trn_id (d.order_seq + 1))
Writes t i txn k amount d (err e, c') = c' ≡ fresh d

module _ (t : Clock) (i : Text) (txn k amount : ℕ) (d : Db) where
  -- Whatever was raised, the tables are those from before.
  dropped-Writes :
      (e : Exc) (c' : Conn)
      → c'.saved ≡ d
      → Writes t i txn k amount d (after_credit txn (err e, c'))
  unfolding after_credit
  dropped-Writes integrity_error c' same = rw same refl
  dropped-Writes e c' same = rw same refl

  abbrev opened : Conn
  opened = record { saved = d; live = inserted t i txn k amount d }

  abbrev reference : Text
  reference = codes "paynet:" ++ decimal txn

  -- After the INSERT, from how the top-up ended.
  credited-Writes :
      (u : User)
      → find_paid txn d ≡ none
      → d.users k ≡ some u
      → or_default 0 u.banned ≡ 0
      → row i d.orders ≡ none
      → (out : Result (ℕ × ℤ) × Conn)
      → credit_topup t.now (bought t i txn k amount d) reference (codes "paynet") opened ≡ out
      → Writes t i txn k amount d (
          after_credit txn (
            continue
              (λ credited. do commit; pure (provider_trn_id (d.order_seq + 1), credited.1))
              out))
  unfolding after_credit
  credited-Writes u was_new there banned free (ok x, c') e =
      let (credited, same) =
        credit_topup-Credits t.now (bought t i txn k amount d) reference (codes "paynet") opened x
          c' e in
      (
        record {
          payer = u;
          bonus = x.0;
          was_new = was_new;
          there = there;
          not_banned = banned;
          free_id = free;
          credited = credited;
          committed = refl;
        },
        refl,
      )
  credited-Writes u was_new there banned free (err x, c') e = dropped-Writes x c' (
      subst (λ (r : Result (ℕ × ℤ) × Conn). r.1.saved ≡ d) e
        (credit_topup-KeepsSaved t.now (bought t i txn k amount d) reference (codes "paynet")
          opened))

  new_row :
      IsOrderId i → find_order i (inserted t i txn k amount d) ≡ some (bought t i txn k amount d)
  new_row h = find_order-row i (inserted t i txn k amount d) h ∙ rw (text_eq_refl i) refl

  -- With the lock or without, a transaction is written whole, for a payer that may pay and under
  -- an id that no paid order has, or nothing is.
  pub write_transaction-Writes :
      (locked : Bool)
      → IsOrderId i
      → Writes t i txn k amount d (write_transaction locked t i txn k amount (fresh d))
  unfolding write_transaction credit_transaction payer_or_error
  write_transaction-Writes false h = refl
  write_transaction-Writes true h = elim (Option-cases (find_paid txn d)) [
    | inr (x, twin) ↦ rw twin (dropped-Writes (rpc_error transaction_exists) (fresh d) refl)
    | inl was_new ↦ rw was_new (elim (Option-cases (d.users k)) [
      | inl missing ↦ rw missing (dropped-Writes (rpc_error client_not_found) (fresh d) refl)
      | inr (u, there) ↦ rw there (elim (Bool-cases (or_default 0 u.banned == 0)) [
        | inr blocked ↦ rw blocked (dropped-Writes (rpc_error client_blocked) (fresh d) refl)
        | inl welcome ↦ rw welcome (elim (Bool-cases (insert_clashes i txn d)) [
          | inl clash ↦ rw clash (dropped-Writes integrity_error (fresh d) refl)
          | inr free ↦ rw free (
              rw (new_row h)
                (credited-Writes u was_new there (ground (arith, welcome)) (unused free) _ refl))
        ])
      ])
    ])
  ]
    where
      unused : insert_clashes i txn d ≡ false → row i d.orders ≡ none
      unused free = elim (Option-cases (row i d.orders)) [
        | inl none_there ↦ none_there
        | inr (o, found) ↦ absurd (ground (arith, found, free))
      ]

-- Once a payment is in, its transaction is found, as the row that was written.
pub find_paid-IsPerformed :
    (t : Clock) (i : Text) (txn k amount : ℕ) (d : Db) (c' : Conn)
    → IsPerformed t i txn k amount d c'
    → (o : Order) × (find_paid txn c'.live ≡ some o)
      × (o.seq ≡ d.order_seq + 1)
      × (o.perform_time ≡ t.now_ms)
unfolding find_paid
find_paid-IsPerformed t i txn k amount d c' p = (
  with_bonus p.credited.percent p.bonus (bought t i txn k amount d),
  rw
      (Credits-orders (bought t i txn k amount d) p.bonus (inserted t i txn k amount d) c'.live
        p.credited)
      (rw (text_eq_refl i) (rw (text_eq_refl (decimal txn)) refl)),
  refl,
  refl,
)

-- A transaction that is found is never credited again.
pub write_transaction_twin :
    (t : Clock) (i : Text) (txn k amount : ℕ) (c : Conn) (o : Order)
    → find_paid txn c.live ≡ some o
    → write_transaction true t i txn k amount c
      ≡ (err (rpc_error transaction_exists), record c { live = c.saved })
unfolding write_transaction credit_transaction after_credit
write_transaction_twin t i txn k amount c o found = rw found refl
