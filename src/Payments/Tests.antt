-- ===== src/Payments/Tests.antt =====
-- Runs of webapp/payments on a shop with one order, and the theorems at work on them.
use vakant.Prelude.{
  ◌≡◌, ◌≢◌, refl, true, false, Option, some, none, List, [], ◌∷◌, ◌==◌, if◌then◌else◌, arith, ◌++◌,
}
use vakant.Prelude.Int.{pos}
use vakant.Prelude.Text.{Text, codes, text_eq, is_number, int_of}
use vakant.Db.{User, Db, fresh, Order}
use vakant.Db.Rows.{row}
use vakant.Db.Exec.{ok, compare_digest}
use vakant.Ledger.{referenced}
use vakant.Payments.Config.{is_uuid, lower, click_order_ref, order_id_from_ref, all_hex}
use vakant.Payments.Config.Inputs.{order_id_from_ref-click_order_ref}
use vakant.Payments.Orders.{settled, new_order, attach_transaction}
use vakant.Payments.Orders.States.{IsOrderId}
use vakant.Payments.Orders.Bindings.{Binds, attach_transaction-Binds}
use vakant.Payments.Credit.{settle_order, settle}
use vakant.Payments.Credit.Returns.{settle_order_returns}
use vakant.Payments.Books.{IsBooked}
use vakant.Payments.Shop.Runtime.{Python, nan, finite}
use vakant.Payments.Shop.{Params, get, Clock, click_signature_valid, handle, handle_click}
use vakant.Payments.Shop.Answers.{Done, handle-Done}
use vakant.Payments.Shop.Callback.{
  Incoming, IsTurnedAway, handle_click_forged, callbacks, callbacks-closed,
}

abbrev pub user : User
user = record { first_name = none; user_balance = some (pos 0); user_pro = none; banned = none }

abbrev pub order_id : Text
order_id = codes "0a11b2c3-1111-4111-8111-111111111111"

abbrev pub order : Order
order = new_order 1 order_id 7 5000 none 1

abbrev pub shop : Db
shop = record {
  users = λ k. if k == 7 then some user else none;
  txs = [];
  tx_seq = 0;
  orders = order ∷ [];
  order_seq = 1;
  payment_bonus_percent = some 10;
  rate_limits = [];
  payment_events = [];
}

pub order_id-IsOrderId : IsOrderId order_id
unfolding is_uuid lower all_hex
order_id-IsOrderId = (refl, refl)

pub shop-IsBooked : IsBooked shop
shop-IsBooked = record {
  ledger = record { balanced = record { at = λ k u e. ground (arith, e) }; ordered = tt };
  topups = λ k. ground arith;
  bonuses = λ k. ground arith;
}

-- Python, as far as plain decimal numbers go.
abbrev pub python : Python
python = record {
  float = λ t. if is_number t then finite false (int_of t) 1 else nan;
  strip = λ t. t;
  lowered = λ t. t;
  md5 = λ t. t;
}

abbrev pub clock : Clock
clock = record { now = 100; now_ms = 100_000 }

-- A callback of the service 5 under the secret `s`.
abbrev signed : Text → Text → Params
signed action sign =
    (codes "click_trans_id", codes "90")
    ∷ ((codes "service_id", codes "5")
        ∷ ((codes "merchant_trans_id", codes "vk-" ++ order_id)
            ∷ ((codes "merchant_prepare_id", codes "1")
                ∷ ((codes "amount", codes "5000")
                    ∷ ((codes "action", action)
                        ∷ ((codes "error", codes "0")
                            ∷ ((codes "sign_time", codes "now")
                                ∷ ((codes "sign_string", sign) ∷ []))))))))

abbrev prepare_call : Params
prepare_call = signed (codes "0") (codes "905svk-" ++ order_id ++ codes "50000now")

abbrev complete_call : Params
complete_call = signed (codes "1") (codes "905svk-" ++ order_id ++ codes "150001now")

abbrev incoming : List Incoming
incoming =
    record { writable = true; clock = clock; params = prepare_call }
    ∷ (record { writable = false; clock = clock; params = complete_call } ∷ [])

abbrev pub credentials : Option (Text × Text)
credentials = some (codes "5", codes "s")

prepare_call_signed : click_signature_valid python prepare_call (codes "s") ≡ ok true
unfolding click_signature_valid compare_digest text_eq get
prepare_call_signed = refl

complete_call_signed : click_signature_valid python complete_call (codes "s") ≡ ok true
unfolding click_signature_valid compare_digest text_eq get
complete_call_signed = refl

abbrev paid_order : Order
paid_order = settle 50 50_000 order

abbrev paid_shop : Db
paid_shop = record shop { orders = paid_order ∷ [] }

callbacks-closed_example :
    row order_id (callbacks python credentials incoming paid_shop).orders ≡ some paid_order
unfolding text_eq
callbacks-closed_example =
    callbacks-closed python credentials incoming paid_shop order_id paid_order refl refl

abbrev forged_call : Params
forged_call = signed (codes "1") (codes "905?vk-" ++ order_id ++ codes "150001now")

forged_call_invalid : click_signature_valid python forged_call (codes "s") ≢ ok true
unfolding click_signature_valid compare_digest text_eq get
forged_call_invalid e = cc

handle_click_forged_example :
    ((handle_click python credentials true clock forged_call (fresh shop)).1 ≡ fresh shop)
    × IsTurnedAway python forged_call
        (codes "s")
        (handle_click python credentials true clock forged_call (fresh shop)).0
handle_click_forged_example =
    handle_click_forged python (codes "5") (codes "s") true clock forged_call (fresh shop)
      forged_call_invalid

settle_order_returns_example :
    (final : Option Order) × ((settle_order 100 order_id 100_000 (fresh shop)).0
      ≡ ok (settled, final))
unfolding text_eq referenced
settle_order_returns_example =
    settle_order_returns 100 order_id 100_000 shop order user order_id-IsOrderId refl refl
      (ground arith) refl refl

attach_transaction-Binds_example :
    Binds 100 order_id
      (codes "90")
      100_000
      shop
      (attach_transaction 100 order_id (codes "90") 100_000 (fresh shop))
attach_transaction-Binds_example = attach_transaction-Binds 100 order_id (codes "90") 100_000 shop

handle-Done_example : Done shop (handle python clock complete_call (fresh shop))
handle-Done_example = handle-Done python clock complete_call shop

order_id_from_ref-click_order_ref_example :
    order_id_from_ref (click_order_ref order_id) ≡ some (lower order_id)
order_id_from_ref-click_order_ref_example =
    order_id_from_ref-click_order_ref order_id order_id-IsOrderId.0
