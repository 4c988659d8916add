-- ===== src/Payments/HistoryTests.antt =====
-- What reaches webapp/payments on the shop of one order, and the theorem on its books.
use vakant.Prelude.{true, some, List, [], ◌∷◌}
use vakant.Prelude.Text.{codes}
use vakant.Payments.Books.{IsBooked}
use vakant.Payments.Merchant.{accepted}
use vakant.Payments.Direct.{Merchant}
use vakant.Payments.History.{
  World, asks, Caller, Step, at_once, starts_card, confirms_card, sends_invoice, steps,
  steps-IsBooked,
}
use vakant.Payments.Config.Tests.{ascii_digits}
use vakant.Payments.Tests.{order_id, shop, shop-IsBooked, credentials, python}
use vakant.Payments.PaynetTests.{encodings, request, settings, new_id-IsOrderId}
use vakant.Payments.PaynetTests

abbrev world : World
world = record {
  python = python;
  digits = ascii_digits;
  encodings = encodings;
  clockwork = PaynetTests.python;
  credentials = credentials;
  paynet = some settings;
}

abbrev click : Merchant
click = record {
  request_card_token = λ number expiry o. accepted (codes "token", codes "99890*****67");
  verify_card_token = λ token code o. accepted tt;
  pay_with_card_token = λ token amount reference. accepted 900;
  create_invoice = λ number amount reference. accepted 901;
}

-- While Click checks the card, it calls back and Paynet asks.
abbrev caller : Caller
caller = record {
  click = click;
  enabled = true;
  now = 1000;
  user_id = 7;
  order_id = order_id;
  meanwhile = λ n. asks [] request ∷ [];
}

abbrev visits : List Step
visits =
    starts_card caller 2026 11 (codes "8600120000000000") (codes "1230")
    ∷ (confirms_card caller (codes "123456")
        ∷ (at_once (asks [] request) ∷ (sends_invoice caller (λ s. s) (codes "998901234567") ∷ [])))

steps-IsBooked_example : IsBooked (steps world visits shop)
steps-IsBooked_example =
    steps-IsBooked world visits shop
      (
        (λ n. (new_id-IsOrderId, tt)),
        ((λ n. (new_id-IsOrderId, tt)), (new_id-IsOrderId, ((λ n. (new_id-IsOrderId, tt)), tt))),
      )
      shop-IsBooked
