-- ===== src/Payments/Shop/Answers.antt =====
-- What `_handle` (webapp/payments/shop.py) does to the tables: at most one step of one order.
use vakant.Prelude.{
  ℕ, ◌≡◌, refl, inl, inr, Bool, true, false, not, ◌&&◌, Option, some, arith, Bool-cases,
  Option-cases, if◌then◌else◌, ap, ◌∙◌, subst, sym, is_none, ◌==◌,
}
use vakant.Prelude.Int.{ℤ}
use vakant.Prelude.Text.{Text, codes, text_eq}
use vakant.Db.{Db, Conn, Order, fresh}
use vakant.Db.Rows.{row, row-id}
use vakant.Db.Exec.{Result, ok, err, Result-cases, continue, pure, gets, ◌>>=◌}
use vakant.Payments.Config.{is_uuid, lower, order_id_from_ref, order_prefix}
use vakant.Payments.Config.Ids.{lower_idem, is_uuid-lower}
use vakant.Prelude.Text.{after_prefix}
use vakant.Payments.Orders.{
  Status, settled, already_paid, now_cancelled, already_cancelled, still_paid, not_found,
  find_order, attachable, attach, attach_transaction, can_close, cancel, cancel_order, is_paid,
  is_cancelled, check_click_complete, Mismatch,
}
use vakant.Payments.Orders.States.{
  IsOrderId, find_order-row, IsUpdated, Attaches, attach_transaction-Attaches, Cancels,
  cancel_order-Cancels, with_row,
}
use vakant.Payments.Credit.{settle_order}
use vakant.Payments.Credit.Settle.{IsSettled, Settles, settle_order-Settles}
use vakant.Payments.Shop.Runtime.{Python}
use vakant.Payments.Shop.{
  Params, Reply, Clock, click_update_failed, reply, prepare_reply, settle_reply, cancel_code,
  reason_of, trans_id, lacks_txn, prepare, complete, handle_order, click_order, handle, get_text,
  number_at, js_number, is_negative, amount_matches,
}

-- One step of the orders: none, a binding to a transaction, a cancellation or a settlement.
pub data Moved (d : Db) (d' : Db) : Type 0 where
  same : d' ≡ d → Moved d d'
  bound :
      (now : ℕ) (i txn : Text) (time : ℕ)
      → IsUpdated i (attachable txn) (attach now txn time) d (fresh d')
      → Moved d d'
  called_off :
      (now : ℕ) (i : Text) (time : ℕ) (reason : Option ℤ)
      → IsUpdated i can_close (cancel now time reason) d (fresh d')
      → Moved d d'
  paid_up : (now : ℕ) (i : Text) (time : ℕ) → IsSettled now i time d (fresh d') → Moved d d'

-- A call that returned has made one step and committed it; one that raised has changed nothing.
abbrev pub Done : Db → Result Reply × Conn → Type 0
Done d (ok r, c) = (d' : Db) × (c ≡ fresh d') × Moved d d'
Done d (err e, c) = c ≡ fresh d

IsUpdated-fresh :
    {i : Text} {test : Order → Bool} {f : Order → Order} {d : Db} {c : Conn}
    → IsUpdated i test f d c
    → IsUpdated i test f d (fresh (with_row i test f d))
IsUpdated-fresh u = record { order = u.order; found = u.found; passed = u.passed; result = refl }

module _ (py : Python) (t : Clock) (p : Params) (o : Order) (d : Db) where
  attached-Done :
      (out : Result Bool × Conn)
      → Attaches t.now o.id (trans_id p) t.now_ms d out
      → Done d (
          continue
            (λ attached. elim attached [
              | false ↦ pure (reply py p click_update_failed)
              | true ↦ do prepared ← gets (find_order o.id); pure (prepare_reply py p prepared)
            ])
            out)
  attached-Done (ok false, c) a = (d, a, same refl)
  attached-Done (ok true, c) (inl (u, free)) =
      (_, u.result, bound t.now o.id (trans_id p) t.now_ms (IsUpdated-fresh u))
  attached-Done (ok true, c) (inr (kept, _)) = (d, kept, same refl)
  attached-Done (err e, c) a = absurd a

  prepare-Done : Done d (prepare py t p o (fresh d))
  unfolding prepare
  prepare-Done = elim (Bool-cases (is_paid o.state)) [
    | inl done ↦ rw done (d, refl, same refl)
    | inr open_order ↦ rw open_order (
        attached-Done (attach_transaction t.now o.id (trans_id p) t.now_ms (fresh d))
          (attach_transaction-Attaches t.now o.id (trans_id p) t.now_ms d))
  ]

  cancelled-Done :
      (reason : Option ℤ) (out : Result (Status × Option Order) × Conn)
      → Cancels t.now o.id t.now_ms reason d out
      → Done d (continue (λ answer. pure (reply py p (cancel_code answer.0))) out)
  cancelled-Done reason (ok (now_cancelled, x), c) u =
      (_, u.result, called_off t.now o.id t.now_ms reason (IsUpdated-fresh u))
  cancelled-Done reason (ok (settled, x), c) a = (d, a, same refl)
  cancelled-Done reason (ok (already_paid, x), c) a = (d, a, same refl)
  cancelled-Done reason (ok (already_cancelled, x), c) a = (d, a, same refl)
  cancelled-Done reason (ok (still_paid, x), c) a = (d, a, same refl)
  cancelled-Done reason (ok (not_found, x), c) a = (d, a, same refl)
  cancelled-Done reason (err e, c) a = absurd a

  settled-Done :
      (time : ℕ) (out : Result (Status × Option Order) × Conn)
      → Settles t.now o.id time d out
      → Done d (continue (λ answer. pure (settle_reply py p o answer.0)) out)
  settled-Done time (ok (settled, x), c) s =
      let e : c ≡ fresh c.live =
        ap (λ saved. record { saved = saved; live = c.live }) s.committed in
      (c.live, e, paid_up t.now o.id time (subst (IsSettled t.now o.id time d) e s))
  settled-Done time (ok (now_cancelled, x), c) a = (d, a, same refl)
  settled-Done time (ok (already_paid, x), c) a = (d, a, same refl)
  settled-Done time (ok (already_cancelled, x), c) a = (d, a, same refl)
  settled-Done time (ok (still_paid, x), c) a = (d, a, same refl)
  settled-Done time (ok (not_found, x), c) a = (d, a, same refl)
  settled-Done time (err e, c) a = a

  complete-Done : IsOrderId o.id → Done d (complete py t p o (fresh d))
  unfolding complete
  complete-Done h =
      let click_error = number_at py (codes "error") p in
      elim (Bool-cases (is_negative click_error && lacks_txn o.provider_txn)) [
        | inl unprepared ↦ rw unprepared (d, refl, same refl)
        | inr prepared ↦ rw prepared (elim (Bool-cases (not (is_none mismatch))) [
          | inl wrong ↦ rw wrong (d, refl, same refl)
          | inr right ↦ rw right (elim (Bool-cases (is_negative click_error)) [
            | inl failed ↦ rw failed (elim (Result-cases (reason_of click_error)) [
              | inl (e, overflow) ↦ rw overflow refl
              | inr (reason, known) ↦ rw known (
                  cancelled-Done (some reason)
                    (cancel_order t.now o.id t.now_ms (some reason) (fresh d))
                    (cancel_order-Cancels t.now o.id t.now_ms (some reason) d h))
            ])
            | inr fine ↦ rw fine (
                settled-Done time (settle_order t.now o.id time (fresh d))
                  (settle_order-Settles t.now o.id time d h))
          ])
        ])
      ]
    where
      mismatch : Option Mismatch
      mismatch =
          check_click_complete o (py.strip (get_text (codes "merchant_prepare_id") p))
            (get_text (codes "click_trans_id") p)

      time : ℕ
      time = if o.perform_time == 0 then t.now_ms else o.perform_time

  handle_order-Done : IsOrderId o.id → Done d (handle_order py t p o (fresh d))
  unfolding handle_order
  handle_order-Done h =
      elim (Bool-cases
        (not (amount_matches (js_number py (get_text (codes "amount") p)) o.amount_soum))) [
          | inl other_amount ↦ rw other_amount (d, refl, same refl)
          | inr right_amount ↦ rw right_amount (elim (Bool-cases (is_cancelled o.state)) [
            | inl gone ↦ rw gone (d, refl, same refl)
            | inr there ↦
                rw there (elim (Bool-cases (text_eq (get_text (codes "action") p) (codes "0"))) [
                  | inl preparing ↦ rw preparing prepare-Done
                  | inr not_preparing ↦
                      rw not_preparing
                        (elim (Bool-cases (text_eq (get_text (codes "action") p) (codes "1"))) [
                          | inl completing ↦ rw completing (complete-Done h)
                          | inr neither ↦ rw neither (d, refl, same refl)
                        ])
                ])
          ])
        ]

-- The ids that the callback looks up are in lower case.
order_id_from_ref-IsOrderId : (raw i : Text) → order_id_from_ref raw ≡ some i → IsOrderId i
unfolding order_id_from_ref
order_id_from_ref-IsOrderId raw i h = elim (Option-cases (after_prefix order_prefix raw)) [
  | inl foreign ↦ absurd (ground (arith, foreign, h))
  | inr (x, ours) ↦ elim (Bool-cases (is_uuid x)) [
    | inl fits ↦
        let e : i ≡ lower x = ground (arith, ours, fits, h) in
        rw e (is_uuid-lower x fits, lower_idem x)
    | inr bad ↦ absurd (ground (arith, ours, bad, h))
  ]
]

pub click_order-row :
    (p : Params) (d : Db) (o : Order)
    → click_order p d ≡ some o
    → (row o.id d.orders ≡ some o) × IsOrderId o.id
unfolding click_order
click_order-row p d o h =
    elim (Option-cases (order_id_from_ref (get_text (codes "merchant_trans_id") p))) [
      | inl foreign ↦ absurd (ground (arith, foreign, h))
      | inr (i, ours) ↦ elim (Option-cases (find_order i d)) [
        | inl missing ↦ absurd (ground (arith, ours, missing, h))
        | inr (x, found) ↦
            let good : IsOrderId i = order_id_from_ref-IsOrderId _ i ours in
            let e : x ≡ o = ground (arith, ours, found, h) in
            let here : row i d.orders ≡ some o =
              sym (find_order-row i d good) ∙ found ∙ ap some e in
            let same_id : o.id ≡ i = row-id i d.orders o here in
            (
              subst (λ j. row j d.orders ≡ some o) (sym same_id) here,
              subst IsOrderId (sym same_id) good,
            )
      ]
    ]

module _ (py : Python) (t : Clock) (p : Params) (d : Db) where
  -- Whatever the parameters, `_handle` makes at most one step of one order, committed; if it
  -- raises, nothing has changed.
  pub handle-Done : Done d (handle py t p (fresh d))
  unfolding handle
  handle-Done = elim (Option-cases (click_order p d)) [
    | inl missing ↦ rw missing (d, refl, same refl)
    | inr (o, found) ↦ rw found (handle_order-Done py t p o d (click_order-row p d o found).1)
  ]
