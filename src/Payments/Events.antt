-- ===== src/Payments/Events.antt =====
-- The webhook trail: `record_payment_event` and `_clip` of webapp/payments/service.py.
use vakant.Prelude.{ℕ, Bool, Option, none, some, [], ◌∷◌, take, or_default, if◌then◌else◌}
use vakant.Prelude.Int.{ℤ}
use vakant.Prelude.Text.{Text, codes}
use vakant.Db.{Db, Provider, PaymentEvent}
use vakant.Db.Exec.{Exec, ◌>>◌, modify, commit, rollback}

-- `_clip`
abbrev pub clip : Option Text → Option Text
clip none = none
clip (some []) = none
clip (some (c ∷ s)) = some (take 200 (c ∷ s))

abbrev pub event_of : ℕ → Provider → Text → Option Text → Option Text → ℤ → PaymentEvent
event_of now provider method order_id txn code = record {
  provider = provider;
  method = or_default (codes "?") (clip (some method));
  order_id = clip order_id;
  provider_txn = clip txn;
  response_code = code;
  received_at = now;
}

abbrev pub add_event : PaymentEvent → Db → Db
add_event e d = record d { payment_events = e ∷ d.payment_events }

-- `record_payment_event`: `writable` says whether the INSERT and the COMMIT go through; if not,
-- the exception is caught and the connection rolled back.
unfoldable pub record_payment_event :
    Bool → ℕ → Provider → Text → Option Text → Option Text → ℤ → Exec (Unit {0})
record_payment_event writable now provider method order_id txn code =
    if writable
    then modify (add_event (event_of now provider method order_id txn code)) >> commit
    else rollback
