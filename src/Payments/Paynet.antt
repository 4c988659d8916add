-- ===== src/Payments/Paynet.antt =====
-- The Paynet provider endpoint, webapp/payments/paynet.py: the rules on parameters and the five
-- methods. What a method notes in `ctx` for the trail is left out.
pub mod Document
pub mod Methods
pub mod Statement
pub mod Books
pub mod Access
pub mod Envelope
use Document.{Json, null, boolean, whole, real, text, array, object, Members, lookup, at}
use vakant.Prelude.{
  ℕ, ◌+◌, ◌*◌, ◌/◌, ◌%◌, Bool, true, false, not, ◌&&◌, ◌||◌, Option, none, some, List, [], ◌∷◌,
  ◌++◌, ltb, leb, ◌==◌, any, find, keep, take, length, map, if◌then◌else◌, or_default, is_none,
}
use vakant.Prelude.Int.{ℤ, pos, negsuc, neg, leb_ℤ, ltb_ℤ}
use vakant.Prelude.Text.{Text, codes, text_eq, is_digit, is_number, int_of, decimal, after_prefix}
use vakant.Db.{Db, Conn, User, Order, paynet, paid, by_paynet}
use vakant.Db.Rows.{row}
use vakant.Db.Exec.{
  RpcCode, invalid_params, cannot_cancel, transaction_exists, transaction_not_found,
  client_not_found, service_not_found, client_format, client_missing, bad_amount, bad_date,
  amount_too_large, client_blocked, Result, ok, err, Exec, Exc, rpc_error, integrity_error,
  assertion_error, operational_error, runtime_error, pure, raise, lift, gets, ◌>>=◌, ◌>>◌, modify,
  commit, guard,
}
use vakant.Payments.Config.{min_topup_soum, max_topup_soum, paynet_trn_offset}
use vakant.Payments.Orders.{
  same_provider, is_paid, text_is, taken, new_order, add_order, find_order,
}
use vakant.Payments.Credit.{credit_topup}
use vakant.Payments.Shop.{Clock, text_of_int}
use vakant.Payments.Shop.Runtime.{Float, nan, infinite, finite}

-- `PaynetConfig`
pub record PaynetConfig : Type 0 where
  pub username : Text
  pub password : Text
  pub service_ids : List ℕ
  pub client_param : Text

-- What the methods use of Python: `str.strip`; `str.split` with `str.upper` in `mask_name`; the
-- conversions between Tashkent time and unix seconds of `datetime`.
pub record Clockwork : Type 0 where
  pub strip : Text → Text
  pub mask_name : Option Text → Text
  pub date_of : ℕ → Text
  pub seconds_of : Text → Option ℤ

abbrev pub max_safe_integer : ℕ
max_safe_integer = 9_007_199_254_740_991

abbrev pub statement_max_rows : ℕ
statement_max_rows = 100_000

-- `raise RpcError(code)`
abbrev pub refuse : {A : Type 0} → RpcCode → Result A
refuse code = err (rpc_error code)

-- `_require`
unfoldable pub require : List Text → Members → Result (Unit {0})
require [] params = ok tt
require (name ∷ names) params =
    if is_none (lookup name params) then refuse invalid_params else require names params

abbrev pub service_text : Json → Option Text
service_text (whole n) = some (text_of_int n)
service_text (text t) = some t
service_text _ = none

-- `_check_service`
unfoldable pub check_service : Clockwork → PaynetConfig → Json → Result (Unit {0})
check_service py cfg value = elim (service_text value) [
  | none ↦ refuse invalid_params
  | some raw ↦
      let t = py.strip raw in
      if not (is_number t) || ltb 18 (length t)
      then refuse service_not_found
      else if any (λ i. i == int_of t) cfg.service_ids
      then ok tt
      else refuse service_not_found
]

-- `_fields`
unfoldable pub fields_of : Members → Result Members
fields_of params = elim (at (codes "fields") params) [
  | object fields ↦ ok fields
  | _ ↦ refuse invalid_params
]

-- What follows the first of `PAYNET_PAYER_PREFIXES` that fits.
abbrev pub payer_digits : Text → Option Text
payer_digits raw = elim (after_prefix (codes "vk-") raw) [
  | none ↦ after_prefix (codes "vk_") raw
  | some digits ↦ some digits
]

abbrev pub payer_of : Text → Result (ℕ × Text)
payer_of raw = elim (payer_digits raw) [
  | none ↦ refuse client_format
  | some digits ↦
      if not (is_number digits) || ltb 18 (length digits)
      then refuse client_format
      else ok (int_of digits, raw)
]

-- `parse_payer`
unfoldable pub parse_payer : Members → Text → Result (ℕ × Text)
parse_payer fields param = elim (lookup param fields) [
  | none ↦ refuse client_missing
  | some null ↦ refuse client_missing
  | some (text []) ↦ refuse client_missing
  | some (text (c ∷ s)) ↦ payer_of (c ∷ s)
  | some _ ↦ refuse client_format
]

-- A text of at most 40 digits.
abbrev pub number_of : Text → Option ℤ
number_of t = if not (is_number t) || ltb 40 (length t) then none else some (pos (int_of t))

abbrev pub transaction_number : Json → Option ℤ
transaction_number (text t) = number_of t
transaction_number (whole n) = some n
transaction_number _ = none

-- `parse_transaction_id`
unfoldable pub parse_transaction_id : Json → Result ℕ
parse_transaction_id value = elim (transaction_number value) [
  | none ↦ refuse invalid_params
  | some (negsuc n) ↦ refuse invalid_params
  | some (pos n) ↦ if ltb n 1 || ltb max_safe_integer n then refuse invalid_params else ok n
]

abbrev pub tiyin_of : Json → Option ℤ
tiyin_of (whole n) = some n
tiyin_of (real (finite negative num den)) =
    if num % den == 0
    then some (if negative then neg (pos (num / den)) else pos (num / den))
    else none
tiyin_of (text t) = number_of t
tiyin_of _ = none

-- `parse_amount_soum`
unfoldable pub parse_amount_soum : Json → Result ℕ
parse_amount_soum value = elim (tiyin_of value) [
  | none ↦ refuse bad_amount
  | some (negsuc n) ↦ refuse bad_amount
  | some (pos n) ↦
      if n == 0 || not (n % 100 == 0)
      then refuse bad_amount
      else if ltb (n / 100) min_topup_soum
      then refuse bad_amount
      else if ltb max_topup_soum (n / 100)
      then refuse amount_too_large
      else ok (n / 100)
]
