-- ===== src/Payments/PaynetTests.antt =====
-- Runs of the Paynet endpoint, webapp/payments/paynet.py, and the theorems at work on them.
use vakant.Prelude.{ℕ, ◌≡◌, refl, true, some, [], ◌∷◌, subst, or_default}
use vakant.Prelude.Int.{ℤ, pos, ◌+ℤ◌}
use vakant.Prelude.Text.{
  Text, codes, text_eq, is_number, all_digits, int_of, int_from, decimal, decimal_from,
  after_prefix,
}
use vakant.Db.{Conn, fresh, put_user}
use vakant.Db.Exec.{Result, ok, err, rpc_error, transaction_exists, update_user}
use vakant.Ledger.{apply_balance_change, check_amount, check_kind, insert_tx, referenced}
use vakant.Payments.Config.{payment_bonus_amount, is_uuid, lower, all_hex}
use vakant.Payments.Orders.{taken, find_order}
use vakant.Payments.Orders.States.{IsOrderId}
use vakant.Payments.Credit.{credit_topup, credit_bonus, after_savepoint}
use vakant.Payments.Tests.{shop, clock}
use vakant.Payments.Paynet.Document.{Json, whole, text, object, Members, no_members, member}
use vakant.Payments.Paynet.{
  PaynetConfig, Clockwork, require, check_service, fields_of, parse_payer, parse_transaction_id,
  parse_amount_soum,
}
use vakant.Payments.Paynet.Access.{Encodings, partition, authorized}
use vakant.Payments.Paynet.Methods.{
  Answer, performed, find_paid, payer_or_error, credit_transaction, after_credit, write_transaction,
  perform_transaction,
}
use vakant.Payments.Paynet.Methods.Performs.{Writes, IsPerformed, write_transaction-Writes}
use vakant.Payments.Paynet.Methods.Twice.{Performs, perform_transaction_again}
use vakant.Payments.Paynet.Envelope.{parsed, Request, handle_request}
use vakant.Payments.Paynet.Envelope.Requests.{
  IsServed, handle_request-IsServed, handle_request_unauthorized,
}

abbrev pub python : Clockwork
python = record {
  strip = λ s. s;
  mask_name = λ s. or_default (codes "Bandlik") s;
  date_of = λ n. decimal n;
  seconds_of = λ s. some (pos 1);
}

abbrev pub settings : PaynetConfig
settings = record {
  username = codes "u";
  password = codes "p";
  service_ids = 5 ∷ [];
  client_param = codes "client_id";
}

abbrev new_id : Text
new_id = codes "0b22b2c3-2222-4222-8222-222222222222"

pub new_id-IsOrderId : IsOrderId new_id
unfolding is_uuid lower all_hex
new_id-IsOrderId = (refl, refl)

-- 5,000 so'm, in tiyin, for the user 7 under the transaction 12
abbrev payment : Members
payment = member (codes "serviceId") (whole (pos 5)) (
    member (codes "transactionId") (text (codes "0012")) (
      member (codes "amount") (whole (pos 500_000)) (
        member (codes "timestamp") (text (codes "2026-01-02 03:04:05")) (
          member (codes "fields")
            (object (member (codes "client_id") (text (codes "vk-7")) no_members)) no_members))))

-- The connection after the payment.
abbrev paid_conn : Conn
paid_conn = (perform_transaction python settings clock true new_id payment (fresh shop)).1

abbrev answer : Answer
answer = performed (codes "100") 1_000_000_002 (codes "vk-7") (pos 5500)

-- The payment is answered with the balance that has the bonus of 10 percent in it.
payment_run :
    perform_transaction python settings clock true new_id payment (fresh shop)
    ≡ (ok answer, paid_conn)
unfolding perform_transaction require check_service fields_of parse_payer parse_transaction_id
    parse_amount_soum write_transaction credit_transaction after_credit payer_or_error find_paid
    taken find_order is_uuid lower all_hex credit_topup credit_bonus after_savepoint
    apply_balance_change check_amount check_kind insert_tx referenced update_user put_user
    payment_bonus_amount text_eq is_number all_digits int_of int_from decimal decimal_from
    after_prefix ◌+ℤ◌
payment_run = refl

perform_transaction_again_example :
    perform_transaction python settings clock true new_id payment (fresh paid_conn.live)
    ≡ (err (rpc_error transaction_exists), fresh paid_conn.live)
perform_transaction_again_example =
    perform_transaction_again python settings payment clock clock true new_id new_id shop paid_conn
      answer new_id-IsOrderId payment_run

-- The same payment from where its parameters are read.
abbrev written : Result (ℕ × ℤ) × Conn
written = write_transaction true clock new_id 12 7 5000 (fresh shop)

written_run : written ≡ (ok (1_000_000_002, pos 5500), written.1)
unfolding write_transaction credit_transaction after_credit payer_or_error find_paid taken
    find_order is_uuid lower all_hex credit_topup credit_bonus after_savepoint apply_balance_change
    check_amount check_kind insert_tx referenced update_user put_user payment_bonus_amount text_eq
    decimal decimal_from ◌+ℤ◌
written_run = refl

written-IsPerformed : IsPerformed clock new_id 12 7 5000 shop written.1
written-IsPerformed =
    (subst (Writes clock new_id 12 7 5000 shop) written_run
      (write_transaction-Writes clock new_id 12 7 5000 shop true new_id-IsOrderId)).0

abbrev document : Json
document = object (
    member (codes "jsonrpc") (text (codes "2.0")) (
      member (codes "id") (whole (pos 1)) (
        member (codes "method") (text (codes "PerformTransaction"))
          (member (codes "params") (object payment) no_members))))

abbrev pub encodings : Encodings
encodings = record { strip = λ s. s; lowered = λ s. s; b64decode = λ s. some s; digest = λ s. s }

abbrev pub request : Request
request = record {
  is_post = true;
  ip = codes "10.0.0.1";
  authorization = some (codes "basic u:p");
  body = parsed document;
  clock = clock;
  started = 100;
  locked = true;
  order_id = new_id;
  writable = true;
  noted = (some new_id, some (codes "12"));
}

abbrev stranger : Request
stranger = record request { authorization = some (codes "basic u:q") }

request_authorized : authorized encodings request.authorization settings ≡ true
unfolding authorized partition text_eq
request_authorized = refl

handle_request-IsServed_example :
    IsServed shop (handle_request encodings python (some settings) request [] (fresh shop)).1
handle_request-IsServed_example =
    handle_request-IsServed encodings python request new_id-IsOrderId shop (some settings) []

handle_request_unauthorized_example :
    (handle_request encodings python (some settings) stranger [] (fresh shop)).1 ≡ fresh shop
unfolding authorized partition text_eq
handle_request_unauthorized_example =
    handle_request_unauthorized encodings python settings stranger [] (fresh shop) refl
