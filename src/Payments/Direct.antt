-- ===== src/Payments/Direct.antt =====
-- The direct Click methods of webapp/payments/service.py, by card and by phone, with the limits on
-- their use. `meanwhile` is what other connections commit while Click is called.
pub mod Limits
pub mod Keeps
pub mod Books
pub mod Tests
use vakant.Prelude.{
  ℕ, ◌+◌, ◌-◌, ◌%◌, Bool, true, false, not, ◌&&◌, Option, none, some, List, [], ◌∷◌, ◌++◌, ltb,
  ◌==◌, if◌then◌else◌, or_default,
}
use vakant.Prelude.Text.{Text, codes, text_eq, decimal}
use vakant.Db.{Db, Hits, Order, State, Method, card, phone, created, pending, paid, cancelled}
use vakant.Db.Rows.{row, update_row, changed}
use vakant.Db.Exec.{
  ApiCode, order_not_found, order_already_paid, order_cancelled, order_state_changed,
  card_token_missing, payments_disabled, validation, click_unavailable, click_declined,
  rate_limited, Exec, Exc, api_error, pure, raise, gets, ◌>>=◌, ◌>>◌, modify, others, commit,
  rollback, guard,
}
use vakant.Payments.Config.{
  Digits, normalize_card_number, normalize_sms_code, normalize_phone, Expiry, mmyy, refused,
  parse_expiry, click_order_ref,
}
use vakant.Payments.Orders.{is_open, text_is, find_user_order}
use vakant.Payments.Merchant.{
  Failure, unavailable, config, declined, unknown, ClickMerchantError, Sent, accepted,
}

-- `INSERT ... ON CONFLICT DO UPDATE SET hits = hits + 1`
unfoldable pub count : Text → ℕ → List Hits → List Hits
count bucket start [] = record { bucket = bucket; window_start = start; hits = 1 } ∷ []
count bucket start (h ∷ hs) =
    if text_eq h.bucket bucket && h.window_start == start
    then record h { hits = h.hits + 1 } ∷ hs
    else h ∷ count bucket start hs

unfoldable pub hits_of : Text → ℕ → List Hits → ℕ
hits_of bucket start [] = 0
hits_of bucket start (h ∷ hs) =
    if text_eq h.bucket bucket && h.window_start == start then h.hits else hits_of bucket start hs

abbrev pub window_of : ℕ → ℕ → ℕ
window_of now window = now - now % window

-- `hit_limit`
pub hit_limit : ℕ → Text → ℕ → ℕ → Exec (Unit {0})
hit_limit now bucket limit window = do
  let start = window_of now window
  modify (λ d. record d { rate_limits = count bucket start d.rate_limits })
  hits ← gets (λ d. hits_of bucket start d.rate_limits)
  commit
  guard (not (ltb limit hits)) (api_error (rate_limited (start + window - now)))

abbrev pub payable_in : State → Order → Exec Order
payable_in paid o = raise (api_error order_already_paid)
payable_in cancelled o = raise (api_error order_cancelled)
payable_in created o = pure o
payable_in pending o = pure o

abbrev pub payable : Option Order → Exec Order
payable none = raise (api_error order_not_found)
payable (some o) = payable_in o.state o

-- `_load_payable_order`
pub load_payable_order : ℕ → Text → Exec Order
load_payable_order k i = do payable (← gets (find_user_order k i))

-- `_merchant_error`
pub merchant_error : ClickMerchantError → Exc
merchant_error e = elim e.failure [
  | unavailable ↦ api_error click_unavailable
  | config ↦ api_error click_unavailable
  | declined ↦ api_error click_declined
  | unknown ↦ api_error click_declined
]

-- A call of Click that has to go through.
abbrev pub accept : {A : Type 0} → Sent A → Exec A
accept (accepted a) = pure a
accept (Sent.refused e) = raise (merchant_error e)

-- The answers of `_state_of`; a missing order reads as one that is pending.
pub data OrderStatus : Type 0 where
  is_pending is_paid is_cancelled : OrderStatus

abbrev pub status_of : Option Order → OrderStatus
status_of none = is_pending
status_of (some o) = elim o.state [
  | paid ↦ is_paid
  | cancelled ↦ is_cancelled
  | created ↦ is_pending
  | pending ↦ is_pending
]

pub state_of : ℕ → Text → Exec OrderStatus
state_of k i = gets (λ d. status_of (find_user_order k i d))

-- `UPDATE payment_orders SET ... WHERE id = ? AND user_id = ? AND ...`, and whether a row changed
abbrev pub update_order : Text → (Order → Bool) → (Order → Order) → Exec Bool
update_order i test f = do
  updated ← gets (λ d. changed i test d.orders)
  modify (λ d. record d { orders = update_row i test f d.orders })
  pure updated

-- Click's Merchant API, on an order: what each call of it answers.
pub record Merchant : Type 0 where
  pub request_card_token : Text → Text → Order → Sent (Text × Text)
  pub verify_card_token : Text → Text → Order → Sent (Unit {0})
  pub pay_with_card_token : Text → ℕ → Text → Sent ℕ
  pub create_invoice : Text → ℕ → Text → Sent ℕ

module _ (py : Digits) (click : Merchant) (enabled : Bool) (meanwhile : ℕ → Db → Db) (now k : ℕ)
    (i : Text) where
  abbrev pub limited : Text → ℕ → ℕ → Exec (Unit {0})
  limited bucket limit window = hit_limit now bucket limit window

  abbrev pub of_user : Text → Text
  of_user name = name ++ decimal k

  abbrev pub own_open : Order → Bool
  own_open o = o.user_id == k && is_open o.state

  -- The token is kept with the order, which takes the card method.
  abbrev pub keep_token : Order → Text × Text → Exec Text
  keep_token o token = do
    others (meanwhile 0)
    saved ← update_order o.id own_open (λ x. record x {
      click_method = some card;
      click_card_token = some token.0;
      updated_at = now;
    })
    commit
    guard saved (api_error order_state_changed)
    pure token.1

  abbrev pub bind_card : Text → Text → Exec Text
  bind_card number expiry = do
    limited (of_user (codes "click-card:u:")) 6 3600
    o ← load_payable_order k i
    limited (codes "click-card:o:" ++ o.id) 3 900
    token ← accept (click.request_card_token number expiry o)
    keep_token o token

  abbrev pub with_expiry : Text → Expiry → Exec Text
  with_expiry number (refused reason) = raise (api_error validation)
  with_expiry number (mmyy expiry) = bind_card number expiry

  abbrev pub with_number : Expiry → Option Text → Exec Text
  with_number expiry none = raise (api_error validation)
  with_number expiry (some number) = with_expiry number expiry

  -- `start_card_payment`, in the month `this_month` of `this_year`; it returns the masked phone
  pub start_card_payment : ℕ → ℕ → Text → Text → Exec Text
  start_card_payment this_year this_month card_number expire_date = do
    guard enabled (api_error payments_disabled)
    with_number (parse_expiry py this_year this_month expire_date)
        (normalize_card_number py card_number)

  -- What the answer to the payment makes of it: an unknown outcome leaves the order as it is.
  abbrev pub paid_with : Order → Sent ℕ → Exec OrderStatus
  paid_with o (Sent.refused e) =
      if e.outcome_unknown then state_of k o.id else raise (merchant_error e)
  paid_with o (accepted payment_id) = do
    others (meanwhile 1)
    update_order o.id (λ x. x.user_id == k)
        (λ x. record x { click_payment_id = some payment_id; updated_at = now })
    commit
    state_of k o.id

  -- What `confirm_card_payment` does once it has tried to claim the token.
  abbrev pub pay_claimed : Order → Text → Bool → Exec OrderStatus
  pay_claimed o token false = state_of k o.id
  pay_claimed o token true =
      paid_with o (click.pay_with_card_token token o.amount_soum (click_order_ref o.id))

  -- `not order.click_card_token`
  abbrev pub token_of : Option Text → Option Text
  token_of none = none
  token_of (some []) = none
  token_of (some (c ∷ s)) = some (c ∷ s)

  -- The claim: only the connection whose UPDATE changes the row submits the payment.
  abbrev pub claims : Text → Order → Bool
  claims token o = own_open o && text_is o.click_card_token token

  abbrev pub claim : Order → Order
  claim o = record o { click_card_token = none; updated_at = now }

  abbrev pub claim_token : Order → Text → Exec OrderStatus
  claim_token o token = do
    others (meanwhile 0)
    claimed ← update_order o.id (claims token) claim
    commit
    pay_claimed o token claimed

  abbrev pub pay_with : Text → Order → Option Text → Exec OrderStatus
  pay_with code o none = raise (api_error card_token_missing)
  pay_with code o (some token) = do
    limited (codes "click-verify:o:" ++ o.id) 5 900
    accept (click.verify_card_token token code o)
    claim_token o token

  abbrev pub with_code : Option Text → Exec OrderStatus
  with_code none = raise (api_error validation)
  with_code (some code) = do
    limited (of_user (codes "click-verify:u:")) 15 900
    o ← load_payable_order k i
    pay_with code o (token_of o.click_card_token)

  -- `confirm_card_payment`
  pub confirm_card_payment : Text → Exec OrderStatus
  confirm_card_payment sms_code = do
    guard enabled (api_error payments_disabled)
    with_code (normalize_sms_code py sms_code)

  abbrev pub keep_invoice : Order → ℕ → Exec (Unit {0})
  keep_invoice o invoice = do
    others (meanwhile 0)
    update_order o.id own_open (λ x. record x {
      click_method = some phone;
      click_invoice_id = some invoice;
      updated_at = now;
    })
    commit

  abbrev pub with_phone : (Text → Text) → Option Text → Exec (Unit {0})
  with_phone phone_key none = raise (api_error validation)
  with_phone phone_key (some normalized) = do
    limited (of_user (codes "click-invoice:u:")) 5 3600
    o ← load_payable_order k i
    limited (codes "click-invoice:o:" ++ o.id) 3 900
    limited (codes "click-invoice:p:" ++ phone_key normalized) 5 86_400
    invoice ← accept (click.create_invoice normalized o.amount_soum (click_order_ref o.id))
    keep_invoice o invoice

  -- `send_click_invoice`, with the key that `_phone_key` makes of the number
  pub send_click_invoice : (Text → Text) → Text → Exec (Unit {0})
  send_click_invoice phone_key number = do
    guard enabled (api_error payments_disabled)
    with_phone phone_key (normalize_phone py number)
