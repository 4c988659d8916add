-- ===== src/Payments/Paynet/Envelope.antt =====
-- The JSON-RPC envelope of webapp/payments/paynet.py, from the HTTP request to the answer.
pub mod Requests
use vakant.Prelude.{
  ℕ, suc, ◌+◌, ◌-◌, Bool, true, false, not, ◌&&◌, ◌||◌, Option, none, some, List, [], ◌∷◌, ◌++◌,
  ltb, leb, ◌==◌, length, if◌then◌else◌, or_default, is_none,
}
use vakant.Prelude.Int.{ℤ, pos, negsuc}
use vakant.Prelude.Text.{Text, codes, text_eq}
use vakant.Db.{Conn, paynet}
use vakant.Db.Exec.{
  RpcCode, parse_error, invalid_request, method_not_found, invalid_params, internal_error,
  method_not_allowed, cannot_cancel, transaction_exists, transaction_not_found, client_not_found,
  service_not_found, client_format, client_missing, bad_credentials, bad_amount, bad_date,
  amount_too_large, client_blocked, Result, ok, err, Exec, rpc_error, raise,
}
use vakant.Payments.Events.{record_payment_event}
use vakant.Payments.Shop.{Clock}
use vakant.Payments.Shop.Runtime.{Float, nan, infinite, finite}
use vakant.Payments.Paynet.Document.{
  Json, null, boolean, whole, real, text, array, object, Members, lookup, at,
}
use vakant.Payments.Paynet.{PaynetConfig, Clockwork}
use vakant.Payments.Paynet.Access.{
  Encodings, authorized, AuthFails, auth_blocked, note_auth_failure,
}
use vakant.Payments.Paynet.Methods.{
  Answer, get_information, perform_transaction, check_transaction, cancel_transaction,
}
use vakant.Payments.Paynet.Statement.{get_statement}

abbrev pub rpc_code : RpcCode → ℤ
rpc_code parse_error = negsuc 32_699
rpc_code invalid_request = negsuc 32_599
rpc_code method_not_found = negsuc 32_600
rpc_code invalid_params = negsuc 32_601
rpc_code internal_error = negsuc 32_602
rpc_code method_not_allowed = negsuc 32_299
rpc_code cannot_cancel = pos 77
rpc_code transaction_exists = pos 201
rpc_code transaction_not_found = pos 203
rpc_code client_not_found = pos 302
rpc_code service_not_found = pos 305
rpc_code client_format = pos 401
rpc_code client_missing = pos 411
rpc_code bad_credentials = pos 412
rpc_code bad_amount = pos 413
rpc_code bad_date = pos 414
rpc_code amount_too_large = pos 415
rpc_code client_blocked = pos 501

-- What `_read_body` and `json.loads` make of a body.
pub data Body : Type 0 where
  too_large malformed : Body
  parsed : Json → Body

-- `_valid_id`
abbrev pub valid_id : Json → Bool
valid_id (text t) = true
valid_id (whole n) = true
valid_id (real (finite negative num den)) = true
valid_id _ = false

-- The `id` to echo, once it is known.
abbrev pub rpc_id : Body → Option Json
rpc_id (parsed (object doc)) = let i = at (codes "id") doc in if valid_id i then some i else none
rpc_id _ = none

abbrev pub is_text : Text → Json → Bool
is_text t (text s) = text_eq s t
is_text t _ = false

-- The method and the parameters of a valid request.
abbrev pub method_and_params : Json → Json → Option (Text × Members)
method_and_params (text name) (object params) = some (name, params)
method_and_params _ _ = none

pub request_of : Json → Option (Text × Members)
request_of (object doc) =
    if is_text (codes "2.0") (at (codes "jsonrpc") doc) && valid_id (at (codes "id") doc)
    then method_and_params (at (codes "method") doc) (at (codes "params") doc)
    else none
request_of _ = none

module _ (py : Clockwork) (cfg : PaynetConfig) (t : Clock) (locked : Bool) (i : Text) where
  -- `METHODS.get(name)`
  pub handler : Text → Option (Members → Exec Answer)
  handler name =
      if text_eq name (codes "GetInformation")
      then some (get_information py cfg t)
      else if text_eq name (codes "PerformTransaction")
      then some (perform_transaction py cfg t locked i)
      else if text_eq name (codes "CheckTransaction")
      then some (check_transaction py cfg t)
      else if text_eq name (codes "CancelTransaction")
      then some (cancel_transaction py cfg t)
      else if text_eq name (codes "GetStatement")
      then some (get_statement py cfg)
      else none

  pub call_method : Text → Members → Exec Answer
  unfolding handler
  call_method name params = elim (handler name) [
    | none ↦ raise (rpc_error method_not_found)
    | some method ↦ method params
  ]

  -- `_dispatch`
  pub dispatch : Body → Exec Answer
  dispatch too_large = raise (rpc_error invalid_request)
  dispatch malformed = raise (rpc_error parse_error)
  dispatch (parsed doc) = elim (request_of doc) [
    | none ↦ raise (rpc_error invalid_request)
    | some (name, params) ↦ call_method name params
  ]

  -- `ctx["method"]`
  method_noted : Body → Text
  method_noted (parsed doc) = elim (request_of doc) [
    | none ↦ codes "invalid"
    | some (name, _) ↦ if is_none (handler name) then codes "invalid" else name
  ]
  method_noted _ = codes "invalid"

-- The body of an answer: a result, or the code of an error.
pub data Outcome : Type 0 where
  result : Answer → Outcome
  failure : RpcCode → Outcome

abbrev pub code_of : Outcome → ℤ
code_of (result a) = pos 0
code_of (failure code) = rpc_code code

-- The `except` clauses of `handle_request`.
caught : Result Answer × Conn → Outcome × Conn
caught (ok a, c) = (result a, c)
caught (err (rpc_error code), c) = (failure code, c)
caught (err e, c) = (failure internal_error, record c { live = c.saved })

-- The HTTP request, with what `client_ip` and the headers say of it, and what the environment
-- decides: the lock of PerformTransaction, the id that `uuid4` gives, whether the trail can be
-- written, and the order id and the transaction that the method noted in `ctx` for the trail.
pub record Request : Type 0 where
  pub is_post : Bool
  pub ip : Text
  pub authorization : Option Text
  pub body : Body
  pub clock : Clock
  pub started : ℕ
  pub locked : Bool
  pub order_id : Text
  pub writable : Bool
  pub noted : Option Text × Option Text

pub data Response : Type 0 where
  unauthorized : Response
  answered : Option Json → Outcome → Response

module _ (en : Encodings) (py : Clockwork) where
  -- An authorized request: dispatch and trail.
  pub serve : PaynetConfig → Request → Conn → Response × Conn
  unfolding caught method_noted
  serve cfg r c =
      let (out, c') = caught (dispatch py cfg r.clock r.locked r.order_id r.body c) in
      let (_, c'') =
        record_payment_event r.writable r.clock.now paynet
          (method_noted py cfg r.clock r.locked r.order_id r.body) r.noted.0 r.noted.1 (code_of out)
          c' in
      (answered (rpc_id r.body) out, c'')

  abbrev pub admitted : PaynetConfig → Request → AuthFails → Conn → (Response × AuthFails) × Conn
  admitted cfg r fails c =
      if not (authorized en r.authorization cfg)
      then ((unauthorized, note_auth_failure r.ip r.started fails), c)
      else (let (x, c') = serve cfg r c in ((x, fails), c'))

  -- With the credentials of the environment, if they are set.
  pub configured : Option PaynetConfig → Request → AuthFails → Conn → (Response × AuthFails) × Conn
  configured none r fails c = ((unauthorized, fails), c)
  configured (some cfg) r fails c =
      let (blocked, fails') = auth_blocked r.ip r.started fails in
      if blocked then ((unauthorized, fails'), c) else admitted cfg r fails' c

  -- `handle_request`
  pub handle_request :
      Option PaynetConfig → Request → AuthFails → Conn → (Response × AuthFails) × Conn
  unfolding configured
  handle_request cfg r fails c =
      if not r.is_post
      then ((answered none (failure method_not_allowed), fails), c)
      else configured cfg r fails c
