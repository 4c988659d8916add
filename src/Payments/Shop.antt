-- ===== src/Payments/Shop.antt =====
-- The Click Shop API callback, webapp/payments/shop.py. The texts of `error_note` are left out.
pub mod Runtime
pub mod Answers
pub mod Callback
use Runtime.{Python, Float, nan, infinite, finite}
use vakant.Prelude.{
  ℕ, suc, ◌+◌, ◌*◌, ◌/◌, Bool, true, false, not, ◌&&◌, ◌||◌, Option, none, some, List, [], ◌∷◌,
  ◌++◌, ltb, leb, ◌==◌, if◌then◌else◌, or_default, is_none,
}
use vakant.Prelude.Int.{ℤ, pos, negsuc, neg}
use vakant.Prelude.Text.{Text, codes, text_eq, every, decimal}
use vakant.Db.{Db, Conn, Order, click}
use vakant.Db.Exec.{
  Result, ok, err, Exec, value_error, pure, raise, lift, rollback, gets, ◌>>=◌, ◌>>◌,
  compare_digest,
}
use vakant.Payments.Config.{order_id_from_ref}
use vakant.Payments.Orders.{
  Status, settled, already_paid, now_cancelled, already_cancelled, still_paid, not_found,
  find_order, is_paid, is_cancelled, same_provider, attach_transaction, check_click_complete,
  cancel_order,
}
use vakant.Payments.Credit.{settle_order}
use vakant.Payments.Events.{record_payment_event}

pub data ClickCode : Type 0 where
  click_ok click_sign click_amount click_action click_already_paid click_no_user : ClickCode
  click_no_txn click_update_failed click_bad_request click_cancelled : ClickCode

abbrev pub click_code : ClickCode → ℤ
click_code click_ok = pos 0
click_code click_sign = negsuc 0
click_code click_amount = negsuc 1
click_code click_action = negsuc 2
click_code click_already_paid = negsuc 3
click_code click_no_user = negsuc 4
click_code click_no_txn = negsuc 5
click_code click_update_failed = negsuc 6
click_code click_bad_request = negsuc 7
click_code click_cancelled = negsuc 8

-- `dict[str, str]`
abbrev pub Params : Type 0
Params = List (Text × Text)

-- `p.get(key)`
unfoldable pub get : Text → Params → Option Text
get key [] = none
get key ((k, v) ∷ p) = if text_eq k key then some v else get key p

-- `p.get(key) or ""`
abbrev pub get_text : Text → Params → Text
get_text key p = or_default [] (get key p)

-- A JSON or form value, by what `normalize_params` makes of it.
pub data Raw : Type 0 where
  null : Raw
  boolean : Bool → Raw
  whole : ℤ → Raw
  other : Text → Raw

abbrev pub text_of_int : ℤ → Text
text_of_int (pos n) = decimal n
text_of_int (negsuc n) = codes "-" ++ decimal (suc n)

unfoldable pub normalize_params : List (Text × Raw) → Params
normalize_params [] = []
normalize_params ((k, null) ∷ raw) = normalize_params raw
normalize_params ((k, boolean b) ∷ raw) =
    (k, if b then codes "true" else codes "false") ∷ normalize_params raw
normalize_params ((k, whole n) ∷ raw) = (k, text_of_int n) ∷ normalize_params raw
normalize_params ((k, other t) ∷ raw) = (k, t) ∷ normalize_params raw

-- The dictionary of an answer.
pub record Reply : Type 0 where
  pub click_trans_id : ℤ
  pub merchant_trans_id : Text
  pub error : ClickCode
  pub merchant_confirm_id : Option ℕ
  pub merchant_prepare_id : Option ℕ

-- `int(x)` of a finite float
abbrev trunc : Bool → ℕ → ℕ → ℤ
trunc negative num den = if negative then neg (pos (num / den)) else pos (num / den)

-- `int(amount + 0.5) == order.amount_soum`
pub amount_matches : Float → ℕ → Bool
amount_matches nan a = false
amount_matches (infinite negative) a = false
amount_matches (finite negative num den) a =
    if negative then a == 0 && ltb (2 * num) (3 * den) else (2 * num + den) / (2 * den) == a

abbrev pub is_negative : Float → Bool
is_negative nan = false
is_negative (infinite negative) = negative
is_negative (finite negative num den) = negative && ltb 0 num

-- The clock of a call: `int(time.time())` and `int(time.time() * 1000)`.
pub record Clock : Type 0 where
  pub now : ℕ
  pub now_ms : ℕ

-- `not order.provider_txn`
abbrev pub lacks_txn : Option Text → Bool
lacks_txn none = true
lacks_txn (some []) = true
lacks_txn (some (x ∷ s)) = false

cancel_code : Status → ClickCode
cancel_code still_paid = click_already_paid
cancel_code _ = click_cancelled

-- `int(click_error)`; an infinite one raises OverflowError
reason_of : Float → Result ℤ
reason_of (finite negative num den) = ok (trunc negative num den)
reason_of _ = err value_error

abbrev click_signed : Text → Params → Text
click_signed secret_key p =
    get_text (codes "click_trans_id") p
    ++ get_text (codes "service_id") p
    ++ secret_key
    ++ get_text (codes "merchant_trans_id") p
    ++ (if text_eq (get_text (codes "action") p) (codes "1")
        then get_text (codes "merchant_prepare_id") p
        else [])
    ++ get_text (codes "amount") p
    ++ get_text (codes "action") p
    ++ get_text (codes "sign_time") p

-- `str(p.get("click_trans_id"))`
abbrev trans_id : Params → Text
trans_id p = or_default (codes "None") (get (codes "click_trans_id") p)

pub click_order : Params → Db → Option Order
click_order p d = elim (order_id_from_ref (get_text (codes "merchant_trans_id") p)) [
  | none ↦ none
  | some i ↦ elim (find_order i d) [
    | none ↦ none
    | some o ↦ if same_provider o.provider click then some o else none
  ]
]

method_of : Params → Text
method_of p =
    if text_eq (get_text (codes "action") p) (codes "0")
    then codes "prepare"
    else if text_eq (get_text (codes "action") p) (codes "1")
    then codes "complete"
    else codes "action:" ++ get_text (codes "action") p

is_complete : Params → Bool
is_complete p =
    not (text_eq (get_text (codes "click_trans_id") p) [])
    && not (text_eq (get_text (codes "merchant_trans_id") p) [])
    && not (text_eq (get_text (codes "sign_string") p) [])

module _ (py : Python) where
  -- `_js_number`
  unfoldable pub js_number : Text → Float
  js_number value = elim (py.strip value) [ [] ↦ finite false 0 1 | c ∷ s ↦ py.float (c ∷ s) ]

  -- `str.encode` raises UnicodeEncodeError, a ValueError, on a surrogate.
  unfoldable pub click_signature_valid : Params → Text → Result Bool
  click_signature_valid p [] = ok false
  click_signature_valid p (c ∷ s) =
      let signed = click_signed (c ∷ s) p in
      if every (λ x. not (leb 55_296 x && leb x 57_343)) signed
      then compare_digest (py.md5 signed) (py.lowered (get_text (codes "sign_string") p))
      else err value_error

  -- The echoed transaction of `reply`: `int(trans)` of a finite number, else 0.
  echoed : Float → ℤ
  echoed nan = pos 0
  echoed (infinite negative) = pos 0
  echoed (finite negative num den) = trunc negative num den

  -- `p.get(key) or 0` as a number
  abbrev number_at : Text → Params → Float
  number_at key p = elim (get_text key p) [ [] ↦ js_number (codes "0") | c ∷ s ↦ js_number (c ∷ s) ]

  pub reply_with : Params → ClickCode → Option ℕ → Option ℕ → Reply
  unfolding echoed
  reply_with p error confirm prepare = record {
    click_trans_id = echoed (number_at (codes "click_trans_id") p);
    merchant_trans_id = get_text (codes "merchant_trans_id") p;
    error = error;
    merchant_confirm_id = confirm;
    merchant_prepare_id = prepare;
  }

  -- `reply` with no extra fields
  abbrev pub reply : Params → ClickCode → Reply
  reply p error = reply_with p error none none

  prepare_reply : Params → Option Order → Reply
  prepare_reply p none = reply p click_update_failed
  prepare_reply p (some o) = elim o.prepare_id [
    | none ↦ reply p click_update_failed
    | some k ↦ if k == 0 then reply p click_update_failed else reply_with p click_ok none (some k)
  ]

  -- The branch `action == "0"` of `_handle`.
  pub prepare : Clock → Params → Order → Exec Reply
  unfolding prepare_reply
  prepare t p o = if is_paid o.state then pure (reply p click_already_paid) else do
    attached ← attach_transaction t.now o.id (trans_id p) t.now_ms
    elim attached [
      | false ↦ pure (reply p click_update_failed)
      | true ↦ do prepared ← gets (find_order o.id); pure (prepare_reply p prepared)
    ]

  settle_reply : Params → Order → Status → Reply
  settle_reply p o now_cancelled = reply p click_cancelled
  settle_reply p o already_paid = reply p click_already_paid
  settle_reply p o not_found = reply p click_no_user
  settle_reply p o _ = reply_with p click_ok o.prepare_id o.prepare_id

  -- The branch `action == "1"` of `_handle`.
  pub complete : Clock → Params → Order → Exec Reply
  unfolding cancel_code settle_reply reason_of
  complete t p o =
      let click_error = number_at (codes "error") p in
      let mismatch =
        check_click_complete o (py.strip (get_text (codes "merchant_prepare_id") p))
          (get_text (codes "click_trans_id") p) in
      if is_negative click_error && lacks_txn o.provider_txn
      then pure (reply p click_cancelled)
      else if not (is_none mismatch)
      then pure (reply p click_no_txn)
      else if is_negative click_error
      then (do
        reason ← lift (reason_of click_error)
        answer ← cancel_order t.now o.id t.now_ms (some reason)
        pure (reply p (cancel_code answer.0)))
      else (do
        answer ← settle_order t.now o.id (if o.perform_time == 0 then t.now_ms else o.perform_time)
        pure (settle_reply p o answer.0))

  -- `_handle`, once the order is found to be one of Click's
  pub handle_order : Clock → Params → Order → Exec Reply
  handle_order t p o =
      if not (amount_matches (js_number (get_text (codes "amount") p)) o.amount_soum)
      then pure (reply p click_amount)
      else if is_cancelled o.state
      then pure (reply p click_cancelled)
      else if text_eq (get_text (codes "action") p) (codes "0")
      then prepare t p o
      else if text_eq (get_text (codes "action") p) (codes "1")
      then complete t p o
      else pure (reply p click_action)

  -- `_handle`
  pub handle : Clock → Params → Exec Reply
  unfolding click_order
  handle t p = do
    found ← gets (click_order p)
    elim found [ none ↦ pure (reply p click_no_user) | some o ↦ handle_order t p o ]

  -- `except Exception`: roll back and answer -7
  caught : Params → Result Reply × Conn → Reply × Conn
  caught p (ok r, c) = (r, c)
  caught p (err e, c) = (reply p click_update_failed, record c { live = c.saved })

  -- Logic and trail of a callback whose signature holds.
  pub answered : Bool → Clock → Params → Conn → Reply × Conn
  unfolding caught method_of
  answered writable t p c =
      let (r, c') = caught p (handle t p c) in
      let (done, c'') =
        record_payment_event writable t.now click (method_of p) (get (codes "merchant_trans_id") p)
          (get (codes "click_trans_id") p) (click_code r.error) c' in
      (r, c'')

  -- What follows the check of the signature; what it raises is not caught.
  abbrev pub checked : Bool → Clock → Params → Conn → Result Bool → Result Reply × Conn
  checked writable t p c (err e) = (err e, c)
  checked writable t p c (ok false) = (ok (reply p click_sign), c)
  checked writable t p c (ok true) = let out = answered writable t p c in (ok out.0, out.1)

  -- `handle_click`, from the credentials (the service id and the secret) and the parameters
  pub handle_click : Option (Text × Text) → Bool → Clock → Params → Conn → Result Reply × Conn
  unfolding is_complete
  handle_click none writable t p c = (ok (reply [] click_bad_request), c)
  handle_click (some (service_id, secret)) writable t p c =
      if not (is_complete p)
      then (ok (reply p click_bad_request), c)
      else if not (text_eq (get_text (codes "service_id") p) service_id)
      then (ok (reply p click_sign), c)
      else checked writable t p c (click_signature_valid p secret)
