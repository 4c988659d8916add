-- ===== src/Payments/History.antt =====
-- Whatever reaches the payments of webapp/payments, in any order: new orders, Click's callbacks, the
-- requests of Paynet and the direct Click methods, which let others in while Click is called.
use vakant.Prelude.{
  ℕ, ◌+◌, ◌≡◌, refl, Bool, Option, none, some, List, [], ◌∷◌, All, or_default, is_none, ap, ◌∙◌,
  arith, ◌==◌, Bool-cases, inl, inr,
}
use vakant.Prelude.Int.{pos}
use vakant.Prelude.Text.{Text}
use vakant.Db.{Db, fresh, Order, Method, created}
use vakant.Db.Rows.{row}
use vakant.Db.Exec.{Exec, guard, api_error, topup_amount_invalid, integrity_error}
use vakant.Payments.Books.{IsBooked, with_orders-IsLedger}
use vakant.Payments.Credit.Sums.{order_sum, paid_amount, paid_bonus}
use vakant.Payments.Orders.{
  Amount, rounded, valid_topup, new_order, add_order, or_assert, insert_order, create_order,
}
use vakant.Payments.Config.{Digits}
use vakant.Payments.Orders.States.{IsOrderId}
use vakant.Payments.Shop.Runtime.{Python}
use vakant.Payments.Shop.Callback.{Incoming, callbacks, callbacks-IsBooked}
use vakant.Payments.Paynet.Access.{Encodings, AuthFails}
use vakant.Payments.Paynet.{Clockwork, PaynetConfig}
use vakant.Payments.Paynet.Envelope.{Request}
use vakant.Payments.Paynet.Envelope.Requests.{requests, requests-IsBooked}
use vakant.Payments.Direct.{Merchant, start_card_payment, confirm_card_payment, send_click_invoice}
use vakant.Payments.Direct.Keeps.{Booked, Keeps, >>=-Keeps, guard-Keeps}
use vakant.Payments.Direct.Books.{
  start_card_payment-Keeps, confirm_card_payment-Keeps, send_click_invoice-Keeps,
}

-- The code outside the repository, and the settings.
pub record World : Type 0 where
  pub python : Python
  pub digits : Digits
  pub encodings : Encodings
  pub clockwork : Clockwork
  pub credentials : Option (Text × Text)
  pub paynet : Option PaynetConfig

-- A call that lets nobody in between: a new order, a callback, or a request with the failures of
-- logins that its process remembers.
pub data Event : Type 0 where
  orders : ℕ → Text → ℕ → Amount → Option Method → Event
  calls_back : Incoming → Event
  asks : AuthFails → Request → Event

abbrev pub happen : World → Event → Db → Db
happen w (orders now i k amount method) d = (create_order now i k amount method (fresh d)).1.saved
happen w (calls_back x) d = callbacks w.python w.credentials (x ∷ []) d
happen w (asks fails r) d = (requests w.encodings w.clockwork w.paynet (r ∷ []) (fails, d)).1

unfoldable pub history : World → List Event → Db → Db
history w [] d = d
history w (e ∷ es) d = history w es (happen w e d)

-- The ids of orders in requests are written as `uuid4` writes them.
abbrev pub WellNamed : Event → Type 0
WellNamed (asks fails r) = IsOrderId r.order_id
WellNamed (orders now i k amount method) = Unit
WellNamed (calls_back x) = Unit

-- A new order is not paid, so the books stay as they are.
add_order-IsBooked :
    (o : ℕ → Order) (d : Db)
    → ((n : ℕ) → (o n).state ≡ created)
    → IsBooked d
    → IsBooked (add_order o d)
add_order-IsBooked o d is_new h = record {
  ledger = with_orders-IsLedger d (add_order o) refl refl refl h.ledger;
  topups = λ k. h.topups k ∙ ap pos (unpaid k paid_amount (rw (is_new (d.order_seq + 1)) refl));
  bonuses = λ k. h.bonuses k ∙ ap pos (unpaid k paid_bonus (rw (is_new (d.order_seq + 1)) refl));
}
  where
    unpaid :
        (k : ℕ) (f : Order → ℕ)
        → f (o (d.order_seq + 1)) ≡ 0
        → order_sum f k d.orders ≡ order_sum f k (o (d.order_seq + 1) ∷ d.orders)
    unpaid k f e = elim (Bool-cases ((o (d.order_seq + 1)).user_id == k)) [
      | inl mine ↦ rw mine (omega (arith, e))
      | inr other ↦ rw other (omega arith)
    ]

or_assert-Keeps : (o : Option Order) → Keeps (or_assert o)
unfolding Keeps
or_assert-Keeps none c h = h
or_assert-Keeps (some o) c h = h

insert_order-Keeps :
    (i : Text) (o : ℕ → Order) → ((n : ℕ) → (o n).state ≡ created) → Keeps (insert_order i o)
unfolding Keeps Booked
insert_order-Keeps i o is_new c (saved, live) =
    let added = add_order-IsBooked o c.live is_new live in or_assert-Keeps _ _ (added, added)

absent-Keeps : (i : Text) → Keeps (λ c. guard (is_none (row i c.live.orders)) integrity_error c)
unfolding Keeps
absent-Keeps i c h = h

create_order-Keeps :
    (now : ℕ) (i : Text) (k : ℕ) (amount : Amount) (method : Option Method)
    → Keeps (create_order now i k amount method)
unfolding create_order
create_order-Keeps now i k amount method =
    >>=-Keeps _ _ (guard-Keeps (valid_topup (rounded amount)) (api_error topup_amount_invalid))
      (λ _. >>=-Keeps _ _ (absent-Keeps i) (λ _.
        insert_order-Keeps i (λ seq. new_order seq i k (or_default 0 (rounded amount)) method now)
          (λ n. refl)))

-- What a call that keeps the books leaves committed.
saved-IsBooked :
    {A : Type 0} (m : Exec A) (d : Db) → Keeps m → IsBooked d → IsBooked (m (fresh d)).1.saved
unfolding Keeps Booked
saved-IsBooked m d keeps h = (keeps (fresh d) (h, h)).0

happen-IsBooked :
    (w : World) (e : Event) (d : Db) → WellNamed e → IsBooked d → IsBooked (happen w e d)
happen-IsBooked w (orders now i k amount method) d named h =
    saved-IsBooked (create_order now i k amount method) d (create_order-Keeps now i k amount method)
      h
happen-IsBooked w (calls_back x) d named h = callbacks-IsBooked w.python w.credentials (x ∷ []) d h
happen-IsBooked w (asks fails r) d named h =
    requests-IsBooked w.encodings w.clockwork w.paynet (r ∷ []) fails d (named, tt) h

history-IsBooked :
    (w : World) (es : List Event) (d : Db)
    → All WellNamed es
    → IsBooked d
    → IsBooked (history w es d)
unfolding history
history-IsBooked w [] d named h = h
history-IsBooked w (e ∷ es) d (n, named) h =
    history-IsBooked w es _ named (happen-IsBooked w e d n h)

-- A call of one of the direct methods, of a user for an order, with what happens during each call of
-- Click.
pub record Caller : Type 0 where
  pub click : Merchant
  pub enabled : Bool
  pub now : ℕ
  pub user_id : ℕ
  pub order_id : Text
  pub meanwhile : ℕ → List Event

pub data Step : Type 0 where
  at_once : Event → Step
  starts_card : Caller → ℕ → ℕ → Text → Text → Step
  confirms_card : Caller → Text → Step
  sends_invoice : Caller → (Text → Text) → Text → Step

abbrev pub entering : World → Caller → ℕ → Db → Db
entering w x n d = history w (x.meanwhile n) d

-- A call that raises is rolled back to what it has committed.
abbrev pub take_step : World → Step → Db → Db
take_step w (at_once e) d = happen w e d
take_step w (starts_card x year month number expiry) d =
    (start_card_payment w.digits x.click x.enabled (entering w x) x.now x.user_id x.order_id year
      month number expiry (fresh d)).1.saved
take_step w (confirms_card x code) d =
    (confirm_card_payment w.digits x.click x.enabled (entering w x) x.now x.user_id x.order_id code
      (fresh d)).1.saved
take_step w (sends_invoice x phone_key number) d =
    (send_click_invoice w.digits x.click x.enabled (entering w x) x.now x.user_id x.order_id
      phone_key number (fresh d)).1.saved

unfoldable pub steps : World → List Step → Db → Db
steps w [] d = d
steps w (s ∷ ss) d = steps w ss (take_step w s d)

abbrev pub WellNamedCaller : Caller → Type 0
WellNamedCaller x = (n : ℕ) → All WellNamed (x.meanwhile n)

abbrev pub WellNamedStep : Step → Type 0
WellNamedStep (at_once e) = WellNamed e
WellNamedStep (starts_card x year month number expiry) = WellNamedCaller x
WellNamedStep (confirms_card x code) = WellNamedCaller x
WellNamedStep (sends_invoice x phone_key number) = WellNamedCaller x

take_step-IsBooked :
    (w : World) (s : Step) (d : Db) → WellNamedStep s → IsBooked d → IsBooked (take_step w s d)
take_step-IsBooked w (at_once e) d named h = happen-IsBooked w e d named h
take_step-IsBooked w (starts_card x year month number expiry) d named h =
    saved-IsBooked _ d
      (start_card_payment-Keeps w.digits x.click x.enabled (entering w x) x.now x.user_id x.order_id
        (λ n d. history-IsBooked w (x.meanwhile n) d (named n)) year month number expiry)
      h
take_step-IsBooked w (confirms_card x code) d named h =
    saved-IsBooked _ d
      (confirm_card_payment-Keeps w.digits x.click x.enabled (entering w x) x.now x.user_id
        x.order_id (λ n d. history-IsBooked w (x.meanwhile n) d (named n)) code)
      h
take_step-IsBooked w (sends_invoice x phone_key number) d named h =
    saved-IsBooked _ d
      (send_click_invoice-Keeps w.digits x.click x.enabled (entering w x) x.now x.user_id x.order_id
        (λ n d. history-IsBooked w (x.meanwhile n) d (named n)) phone_key number)
      h

-- From tables whose books are in order, whatever happens: orders are made, Click and Paynet call, users
-- pay by card or ask for an invoice, with any of the former going on during the calls of Click. Every
-- user's top-ups and bonuses in the ledger stay those of the user's paid orders, and every balance
-- stays the sum of its rows. (Order ids in Paynet's requests are written as `uuid4` writes them.)
pub steps-IsBooked :
    (w : World) (ss : List Step) (d : Db)
    → All WellNamedStep ss
    → IsBooked d
    → IsBooked (steps w ss d)
unfolding steps
steps-IsBooked w [] d named h = h
steps-IsBooked w (s ∷ ss) d (n, named) h =
    steps-IsBooked w ss _ named (take_step-IsBooked w s d n h)
