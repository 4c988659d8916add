-- ===== src/Payments/Direct/Books.antt =====
-- The direct Click methods of webapp/payments/service.py keep the books of the shop.
use vakant.Prelude.{
  ℕ, ◌≡◌, refl, Bool, true, false, Option, none, some, ◌++◌, ◌==◌, Bool-cases, inl, inr,
}
use vakant.Prelude.Text.{Text, codes}
use vakant.Db.{Db, Conn, Order, card, phone}
use vakant.Db.Rows.{changed}
use vakant.Db.Exec.{
  api_error, payments_disabled, validation, card_token_missing, order_state_changed, pure, guard,
}
use vakant.Payments.Books.{IsBooked}
use vakant.Payments.Orders.States.{with_row}
use vakant.Payments.Config.{
  Digits, normalize_card_number, normalize_sms_code, normalize_phone, Expiry, mmyy, refused,
  parse_expiry, click_order_ref,
}
use vakant.Payments.Merchant.{Sent, accepted}
use vakant.Payments.Direct.{
  Merchant, of_user, own_open, keep_token, claim_token, keep_invoice, bind_card, with_expiry,
  with_number, paid_with, token_of, pay_with, with_code, with_phone, start_card_payment,
  confirm_card_payment, send_click_invoice, claims, claim, pay_claimed,
}
use vakant.Payments.Direct.Keeps.{
  Booked, Keeps, >>=-Keeps, same_sums-IsBooked, hit_limit-Keeps, load_payable_order-Keeps,
  accept-Keeps, raise-Keeps, state_of-Keeps, guard-Keeps, continue-Booked,
}

module _ (py : Digits) (click : Merchant) (enabled : Bool) (meanwhile : ℕ → Db → Db) (now k : ℕ)
    (i : Text) (others_keep : (n : ℕ) (d : Db) → IsBooked d → IsBooked (meanwhile n d)) where
  -- What others commit, then an update of an order of the user, committed.
  update-Keeps :
      (n : ℕ) (j : Text) (test : Order → Bool) (f : Order → Order) (c : Conn)
      → ((o : Order)
          → ((f o).user_id ≡ o.user_id)
            × ((f o).state ≡ o.state)
            × ((f o).amount_soum ≡ o.amount_soum)
            × ((f o).bonus_amount ≡ o.bonus_amount))
      → Booked c
      → Booked (record {
        saved = with_row j test f (meanwhile n c.live);
        live = with_row j test f (meanwhile n c.live);
      })
  unfolding Booked
  update-Keeps n j test f c same (saved, live) =
      let kept =
        same_sums-IsBooked j test f (meanwhile n c.live) same (others_keep n c.live live) in
      (kept, kept)

  keep_token-Keeps :
      (o : Order) (token : Text × Text)
      → Keeps (keep_token py click enabled meanwhile now k i o token)
  unfolding Keeps
  keep_token-Keeps o token c h =
      let own = own_open py click enabled meanwhile now k i in
      let take = λ (x : Order). (record x {
        click_method = some card;
        click_card_token = some token.0;
        updated_at = now;
      }) in
      let after = with_row o.id own take (meanwhile 0 c.live) in
      continue-Booked {A = Unit} {B = Text} (λ _. pure token.1)
        (guard (changed o.id own (meanwhile 0 c.live).orders) (api_error order_state_changed)
          (record { saved = after; live = after }))
        (λ _ c' h'. h') (update-Keeps 0 o.id own take c (λ x. (refl, refl, refl, refl)) h)

  bind_card-Keeps :
      (number expiry : Text) → Keeps (bind_card py click enabled meanwhile now k i number expiry)
  bind_card-Keeps number expiry =
      >>=-Keeps _ _
        (hit_limit-Keeps now (of_user py click enabled meanwhile now k i (codes "click-card:u:")) 6
          3600)
        (λ _. >>=-Keeps _ _ (load_payable_order-Keeps k i) (λ o.
          >>=-Keeps _ _ (hit_limit-Keeps now (codes "click-card:o:" ++ o.id) 3 900) (λ _.
            >>=-Keeps _ _ (accept-Keeps (click.request_card_token number expiry o))
              (keep_token-Keeps o))))

  with_expiry-Keeps :
      (number : Text) (e : Expiry) → Keeps (with_expiry py click enabled meanwhile now k i number e)
  with_expiry-Keeps number (refused reason) = raise-Keeps _ (api_error validation)
  with_expiry-Keeps number (mmyy expiry) = bind_card-Keeps number expiry

  with_number-Keeps :
      (e : Expiry) (o : Option Text) → Keeps (with_number py click enabled meanwhile now k i e o)
  with_number-Keeps e none = raise-Keeps _ (api_error validation)
  with_number-Keeps e (some number) = with_expiry-Keeps number e

  pub start_card_payment-Keeps :
      (this_year this_month : ℕ) (card_number expire_date : Text)
      → Keeps (
          start_card_payment py click enabled meanwhile now k i this_year this_month card_number
            expire_date)
  unfolding start_card_payment
  start_card_payment-Keeps this_year this_month card_number expire_date =
      >>=-Keeps _ _ (guard-Keeps enabled (api_error payments_disabled)) (λ _.
        with_number-Keeps (parse_expiry py this_year this_month expire_date)
          (normalize_card_number py card_number))

  paid_with-Keeps :
      (o : Order) (s : Sent ℕ) → Keeps (paid_with py click enabled meanwhile now k i o s)
  unfolding Keeps
  paid_with-Keeps o (accepted payment_id) c h = state_of-Keeps k o.id _ (
      update-Keeps 1 o.id (λ x. x.user_id == k)
        (λ x. record x { click_payment_id = some payment_id; updated_at = now }) c
        (λ x. (refl, refl, refl, refl)) h)
  paid_with-Keeps o (Sent.refused e) c h = elim (Bool-cases e.outcome_unknown) [
    | inl lost ↦ rw lost (state_of-Keeps k o.id c h)
    | inr known ↦ rw known h
  ]

  pay_claimed-Keeps :
      (o : Order) (token : Text) (b : Bool)
      → Keeps (pay_claimed py click enabled meanwhile now k i o token b)
  pay_claimed-Keeps o token false = state_of-Keeps k o.id
  pay_claimed-Keeps o token true =
      paid_with-Keeps o (click.pay_with_card_token token o.amount_soum (click_order_ref o.id))

  claim_token-Keeps :
      (o : Order) (token : Text) → Keeps (claim_token py click enabled meanwhile now k i o token)
  unfolding Keeps
  claim_token-Keeps o token c h =
      pay_claimed-Keeps o token
        (changed o.id (claims py click enabled meanwhile now k i token) (meanwhile 0 c.live).orders)
        _
        (update-Keeps 0 o.id (claims py click enabled meanwhile now k i token)
          (claim py click enabled meanwhile now k i) c (λ x. (refl, refl, refl, refl)) h)

  pay_with-Keeps :
      (code : Text) (o : Order) (t : Option Text)
      → Keeps (pay_with py click enabled meanwhile now k i code o t)
  pay_with-Keeps code o none = raise-Keeps _ (api_error card_token_missing)
  pay_with-Keeps code o (some token) =
      >>=-Keeps _ _ (hit_limit-Keeps now (codes "click-verify:o:" ++ o.id) 5 900) (λ _.
        >>=-Keeps _ _ (accept-Keeps (click.verify_card_token token code o))
          (λ _. claim_token-Keeps o token))

  with_code-Keeps : (o : Option Text) → Keeps (with_code py click enabled meanwhile now k i o)
  with_code-Keeps none = raise-Keeps _ (api_error validation)
  with_code-Keeps (some code) =
      >>=-Keeps _ _
        (hit_limit-Keeps now (of_user py click enabled meanwhile now k i (codes "click-verify:u:"))
          15 900)
        (λ _. >>=-Keeps _ _ (load_payable_order-Keeps k i) (λ o.
          pay_with-Keeps code o (token_of py click enabled meanwhile now k i o.click_card_token)))

  pub confirm_card_payment-Keeps :
      (sms_code : Text) → Keeps (confirm_card_payment py click enabled meanwhile now k i sms_code)
  unfolding confirm_card_payment
  confirm_card_payment-Keeps sms_code =
      >>=-Keeps _ _ (guard-Keeps enabled (api_error payments_disabled))
        (λ _. with_code-Keeps (normalize_sms_code py sms_code))

  keep_invoice-Keeps :
      (o : Order) (invoice : ℕ) → Keeps (keep_invoice py click enabled meanwhile now k i o invoice)
  unfolding Keeps
  keep_invoice-Keeps o invoice c h =
      update-Keeps 0 o.id (own_open py click enabled meanwhile now k i)
        (λ x. record x {
          click_method = some phone;
          click_invoice_id = some invoice;
          updated_at = now;
        })
        c (λ x. (refl, refl, refl, refl)) h

  with_phone-Keeps :
      (phone_key : Text → Text) (o : Option Text)
      → Keeps (with_phone py click enabled meanwhile now k i phone_key o)
  with_phone-Keeps phone_key none = raise-Keeps _ (api_error validation)
  with_phone-Keeps phone_key (some normalized) =
      >>=-Keeps _ _
        (hit_limit-Keeps now (of_user py click enabled meanwhile now k i (codes "click-invoice:u:"))
          5 3600)
        (λ _. >>=-Keeps _ _ (load_payable_order-Keeps k i) (λ o.
          >>=-Keeps _ _ (hit_limit-Keeps now (codes "click-invoice:o:" ++ o.id) 3 900) (λ _.
            >>=-Keeps _ _
              (hit_limit-Keeps now (codes "click-invoice:p:" ++ phone_key normalized) 5 86_400)
              (λ _.
                >>=-Keeps _ _
                  (accept-Keeps
                    (click.create_invoice normalized o.amount_soum (click_order_ref o.id)))
                  (keep_invoice-Keeps o)))))

  pub send_click_invoice-Keeps :
      (phone_key : Text → Text) (number : Text)
      → Keeps (send_click_invoice py click enabled meanwhile now k i phone_key number)
  unfolding send_click_invoice
  send_click_invoice-Keeps phone_key number =
      >>=-Keeps _ _ (guard-Keeps enabled (api_error payments_disabled))
        (λ _. with_phone-Keeps phone_key (normalize_phone py number))
