-- ===== src/Payments/Orders.antt =====
-- Orders and their state machine, webapp/payments/service.py. `now` is `int(time.time())`.
pub mod States
pub mod Bindings
use vakant.Prelude.{
  ℕ, ◌+◌, ◌*◌, ◌/◌, Bool, true, false, not, ◌&&◌, ◌||◌, Option, none, some, List, ◌∷◌, ltb, ◌==◌,
  any, keep, take, if◌then◌else◌, or_default, is_none, min, max,
}
use vakant.Prelude.Int.{ℤ, pos, pos_part}
use vakant.Prelude.Text.{Text, codes, text_eq, is_number, int_of}
use vakant.Db.{Db, Order, Provider, click, paynet, State, created, pending, paid, cancelled, Method}
use vakant.Db.Rows.{row, update_row, changed}
use vakant.Db.Exec.{
  Exec, integrity_error, assertion_error, api_error, topup_amount_invalid, pure, raise, gets, ◌>>=◌,
  ◌>>◌, modify, commit, rollback, guard,
}
use vakant.Payments.Config.{topup_amount_valid, is_uuid, lower}

abbrev pub same_provider : Provider → Provider → Bool
same_provider click click = true
same_provider paynet paynet = true
same_provider _ _ = false

-- `state IN ('created', 'pending')`
abbrev pub is_open : State → Bool
is_open created = true
is_open pending = true
is_open _ = false

abbrev pub is_paid : State → Bool
is_paid paid = true
is_paid _ = false

abbrev pub is_cancelled : State → Bool
is_cancelled cancelled = true
is_cancelled _ = false

abbrev pub text_is : Option Text → Text → Bool
text_is none t = false
text_is (some s) t = text_eq s t

-- The unique index on `(provider, provider_txn)`, against the other rows.
unfoldable pub taken : Provider → Text → Text → List Order → Bool
taken p txn i =
    any (λ o. same_provider o.provider p && text_is o.provider_txn txn && not (text_eq o.id i))

-- `find_order`
unfoldable pub find_order : Text → Db → Option Order
find_order i d = if is_uuid i then row (lower i) d.orders else none

-- `find_user_order`: a foreign order reads like a missing one
unfoldable pub find_user_order : ℕ → Text → Db → Option Order
unfolding find_order
find_user_order k i d = elim (find_order i d) [
  | none ↦ none
  | some o ↦ if o.user_id == k then some o else none
]

-- The amount of a request: what `float` makes of it. A finite value is a fraction.
pub data Amount : Type 0 where
  finite : Bool → ℕ → ℕ → Amount
  not_finite : Amount

-- Rounded half away from zero; a negative or missing amount is none that a top-up can have.
unfoldable pub rounded : Amount → Option ℕ
rounded (finite negative num den) =
    let n = (2 * num + den) / (2 * den) in
    if negative then (if n == 0 then some 0 else none) else some n
rounded not_finite = none

abbrev pub new_order : ℕ → Text → ℕ → ℕ → Option Method → ℕ → Order
new_order seq i k amount method now = record {
  seq = seq;
  id = i;
  user_id = k;
  provider = click;
  amount_soum = amount;
  state = created;
  provider_txn = none;
  prepare_id = none;
  create_time = 0;
  perform_time = 0;
  cancel_time = 0;
  cancel_reason = none;
  click_method = method;
  click_invoice_id = none;
  click_card_token = none;
  click_payment_id = none;
  bonus_percent = 0;
  bonus_amount = 0;
  created_at = now;
  updated_at = now;
}

abbrev pub add_order : (ℕ → Order) → Db → Db
add_order o d = record d { orders = o (d.order_seq + 1) ∷ d.orders; order_seq = d.order_seq + 1 }

abbrev pub valid_topup : Option ℕ → Bool
valid_topup none = false
valid_topup (some n) = topup_amount_valid n

-- The order that was written, as it is read back.
abbrev pub or_assert : Option Order → Exec Order
or_assert none = raise assertion_error
or_assert (some o) = pure o

abbrev pub insert_order : Text → (ℕ → Order) → Exec Order
insert_order i o = do modify (add_order o); commit; or_assert (← gets (find_order i))

-- `create_order`, under the fresh id `i` that `uuid4` gave
unfoldable pub create_order : ℕ → Text → ℕ → Amount → Option Method → Exec Order
create_order now i k amount method = do
  guard (valid_topup (rounded amount)) (api_error topup_amount_invalid)
  let value = or_default 0 (rounded amount)
  guard (is_none (← gets (λ d. row i d.orders))) integrity_error
  insert_order i (λ seq. new_order seq i k value method now)

-- The rows `WHERE user_id = ?` of `list_orders`. `created_at` never decreases with `seq`, and the
-- newest rows stand first.
pub list_orders : ℕ → ℤ → Db → List Order
list_orders k limit d =
    take (max 1 (min (pos_part limit) 100)) (keep (λ o. o.user_id == k) d.orders)

abbrev pub attachable : Text → Order → Bool
attachable txn o = is_open o.state && (is_none o.provider_txn || text_is o.provider_txn txn)

abbrev pub attach : ℕ → Text → ℕ → Order → Order
attach now txn create_time o = record o {
  provider_txn = some txn;
  state = pending;
  create_time = create_time;
  prepare_id = some (or_default o.seq o.prepare_id);
  updated_at = now;
}

-- An order that was already closed under this transaction.
abbrev pub closed_under : Text → Option Order → Bool
closed_under txn none = false
closed_under txn (some o) = (is_paid o.state || is_cancelled o.state) && text_is o.provider_txn txn

-- Whether the UPDATE of `attach_transaction` meets the unique index.
abbrev pub attach_clashes : Text → Text → Db → Bool
attach_clashes i txn d = elim (row i d.orders) [
  | none ↦ false
  | some o ↦ attachable txn o && taken o.provider txn i d.orders
]

-- `attach_transaction`
pub attach_transaction : ℕ → Text → Text → ℕ → Exec Bool
unfolding find_order
attach_transaction now i txn create_time = do
  clash ← gets (attach_clashes i txn)
  elim clash [
    | true ↦ rollback >> pure false
    | false ↦ do
      updated ← gets (λ d. changed i (attachable txn) d.orders)
      modify (λ d. record d {
        orders = update_row i (attachable txn) (attach now txn create_time) d.orders;
      })
      commit
      elim updated [ true ↦ pure true | false ↦ gets (λ d. closed_under txn (find_order i d)) ]
  ]

-- `check_click_complete`, on the stripped `merchant_prepare_id` and the `click_trans_id`; the
-- notes for the error -6
pub data Mismatch : Type 0 where
  not_prepared wrong_prepare_id wrong_trans_id : Mismatch

pub check_click_complete : Order → Text → Text → Option Mismatch
check_click_complete o sent trans_id = elim o.provider_txn [
  | none ↦ some not_prepared
  | some txn ↦ elim o.prepare_id [
    | none ↦ some not_prepared
    | some prepare_id ↦
        if text_eq txn (codes "")
        then some not_prepared
        else if not (is_number sent && int_of sent == prepare_id)
        then some wrong_prepare_id
        else if not (text_eq txn trans_id)
        then some wrong_trans_id
        else none
  ]
]

abbrev pub cancel : ℕ → ℕ → Option ℤ → Order → Order
cancel now cancel_time reason o = record o {
  state = cancelled;
  cancel_time = cancel_time;
  cancel_reason = reason;
  click_card_token = none;
  updated_at = now;
}

-- How `settle_order` and `cancel_order` answer.
pub data Status : Type 0 where
  settled already_paid now_cancelled already_cancelled still_paid not_found : Status

cancel_status : Bool → Option Order → Status
cancel_status updated none = not_found
cancel_status true (some o) = now_cancelled
cancel_status false (some o) = if is_paid o.state then still_paid else already_cancelled

abbrev pub can_close : Order → Bool
can_close o = is_open o.state

-- `cancel_order`
pub cancel_order : ℕ → Text → ℕ → Option ℤ → Exec (Status × Option Order)
unfolding cancel_status
cancel_order now i cancel_time reason = do
  updated ← gets (λ d. changed i can_close d.orders)
  modify
      (λ d. record d { orders = update_row i can_close (cancel now cancel_time reason) d.orders })
  commit
  found ← gets (find_order i)
  pure (cancel_status updated found, found)
