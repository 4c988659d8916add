-- ===== src/Payments/Paynet/Methods.antt =====
-- The five methods of webapp/payments/paynet.py. What they note in `ctx` for the trail is left out.
pub mod Reads
pub mod Twice
pub mod Performs
use vakant.Prelude.{
  ℕ, ◌+◌, ◌*◌, ◌/◌, ◌%◌, Bool, true, false, not, ◌&&◌, ◌||◌, Option, none, some, List, [], ◌∷◌,
  ◌++◌, ltb, leb, ◌==◌, any, find, keep, take, length, map, if◌then◌else◌, or_default, is_none,
}
use vakant.Prelude.Int.{ℤ, pos, negsuc, leb_ℤ}
use vakant.Prelude.Text.{Text, codes, is_digit, int_of, decimal}
use vakant.Db.{Db, Conn, User, Order, balance_of, paynet, paid, by_paynet}
use vakant.Db.Rows.{row}
use vakant.Db.Exec.{
  cannot_cancel, transaction_exists, transaction_not_found, client_not_found, bad_date,
  client_blocked, Result, ok, err, Exec, rpc_error, integrity_error, assertion_error,
  operational_error, runtime_error, pure, raise, lift, gets, ◌>>=◌, ◌>>◌, modify, commit, guard,
}
use vakant.Payments.Config.{paynet_trn_offset}
use vakant.Payments.Orders.{
  same_provider, is_paid, text_is, taken, new_order, add_order, find_order,
}
use vakant.Payments.Credit.{credit_topup}
use vakant.Payments.Shop.{Clock}
use vakant.Payments.Paynet.Document.{Json, text, Members, at}
use vakant.Payments.Paynet.{
  PaynetConfig, Clockwork, statement_max_rows, refuse, require, check_service, fields_of,
  parse_payer, parse_transaction_id, parse_amount_soum,
}

-- `_payer_or_error`
unfoldable pub payer_or_error : ℕ → Exec User
payer_or_error k = do
  found ← gets (λ d. d.users k)
  elim found [
    | none ↦ raise (rpc_error client_not_found)
    | some u ↦ do guard (or_default 0 u.banned == 0) (rpc_error client_blocked); pure u
  ]

abbrev pub paid_under : ℕ → Order → Bool
paid_under txn o =
    same_provider o.provider paynet && text_is o.provider_txn (decimal txn) && is_paid o.state

-- `_find_paid`
unfoldable pub find_paid : ℕ → Db → Option Order
find_paid txn d = find (paid_under txn) d.orders

-- `_provider_trn_id`
abbrev pub provider_trn_id : ℕ → ℕ
provider_trn_id seq = paynet_trn_offset + seq

-- The results of the methods.
pub record Statement : Type 0 where
  pub amount : ℕ
  pub transaction_id : ℕ
  pub provider_trn_id : ℕ
  pub timestamp : Text

pub data Answer : Type 0 where
  information : Text → Text → ℤ → Answer
  performed : Text → ℕ → Text → ℤ → Answer
  transaction_state : ℕ → ℕ → Text → Answer
  statements : List Statement → Answer

-- The row that `perform_transaction` inserts.
abbrev pub paid_order : ℕ → Text → ℕ → ℕ → ℕ → ℕ → Order
paid_order now_ms i k amount txn seq =
    record (new_order seq i k amount (some by_paynet) (now_ms / 1000)) {
      provider = paynet;
      state = paid;
      provider_txn = some (decimal txn);
      create_time = now_ms;
      perform_time = now_ms;
    }

-- Whether the INSERT meets a unique index, of the ids or of the transactions.
abbrev pub insert_clashes : Text → ℕ → Db → Bool
insert_clashes i txn d = not (is_none (row i d.orders)) || taken paynet (decimal txn) i d.orders

-- The `try` block of `perform_transaction`, for the order id `i` that `uuid4` gave: the id that
-- Paynet is told, and the balance.
unfoldable pub credit_transaction : Clock → Text → ℕ → ℕ → ℕ → Exec (ℕ × ℤ)
credit_transaction t i txn k amount = do
  guard (is_none (← gets (find_paid txn))) (rpc_error transaction_exists)
  payer_or_error k
  guard (not (← gets (insert_clashes i txn))) integrity_error
  modify (add_order (paid_order t.now_ms i k amount txn))
  found ← gets (find_order i)
  elim found [
    | none ↦ raise assertion_error
    | some o ↦ do
      credited ← credit_topup t.now o (codes "paynet:" ++ decimal txn) (codes "paynet")
      commit
      pure (provider_trn_id o.seq, credited.1)
  ]

-- ... and its `except` clauses: an IntegrityError reads like the twin that it met.
unfoldable pub after_credit : ℕ → Result (ℕ × ℤ) × Conn → Result (ℕ × ℤ) × Conn
after_credit txn (ok r, c) = (ok r, c)
after_credit txn (err integrity_error, c) = (
  err (if is_none (find_paid txn c.saved) then integrity_error else rpc_error transaction_exists),
  record c { live = c.saved },
)
after_credit txn (err e, c) = (err e, record c { live = c.saved })

-- From BEGIN IMMEDIATE on. It holds SQLite's write lock, or raises when the lock is not to be had.
unfoldable pub write_transaction : Bool → Clock → Text → ℕ → ℕ → ℕ → Exec (ℕ × ℤ)
unfolding credit_transaction after_credit
write_transaction locked t i txn k amount c =
    if locked
    then after_credit txn (credit_transaction t i txn k amount c)
    else (err operational_error, c)

-- A template of digits `d` and of what stands between them.
abbrev shaped : Text → Text → Bool
shaped [] [] = true
shaped (p ∷ ps) (c ∷ s) = (if p == b'd' then is_digit c else p == c) && shaped ps s
shaped _ _ = false

module _ (py : Clockwork) where
  -- `format_time`
  abbrev pub format_time : ℕ → Text
  format_time ms = py.date_of (ms / 1000)

  abbrev pub time_of : Text → Result ℤ
  time_of t =
      if not (shaped (codes "dddd-dd-dd dd:dd:dd") t)
      then refuse bad_date
      else elim (py.seconds_of t) [ none ↦ refuse bad_date | some seconds ↦ ok seconds ]

  -- `parse_time`
  unfoldable pub parse_time : Json → Result ℤ
  parse_time (text t) = time_of t
  parse_time _ = refuse bad_date

module _ (py : Clockwork) (cfg : PaynetConfig) (t : Clock) where
  pub get_information : Members → Exec Answer
  get_information params = do
    lift (require (codes "serviceId" ∷ (codes "fields" ∷ [])) params)
    fields ← lift (fields_of params)
    lift (check_service py cfg (at (codes "serviceId") params))
    payer ← lift (parse_payer fields cfg.client_param)
    u ← payer_or_error payer.0
    pure (information (format_time py t.now_ms) (py.mask_name u.first_name) (balance_of u))

  -- `locked`: BEGIN IMMEDIATE got the lock within `PERFORM_LOCK_WAIT_MS`
  unfoldable pub perform_transaction : Bool → Text → Members → Exec Answer
  perform_transaction locked i params = do
    lift (
        require
          (codes "amount" ∷ (codes "serviceId" ∷ (codes "transactionId" ∷ (codes "fields" ∷ []))))
          params)
    fields ← lift (fields_of params)
    lift (check_service py cfg (at (codes "serviceId") params))
    txn ← lift (parse_transaction_id (at (codes "transactionId") params))
    payer ← lift (parse_payer fields cfg.client_param)
    amount ← lift (parse_amount_soum (at (codes "amount") params))
    credited ← write_transaction locked t i txn payer.0 amount
    pure (performed (format_time py t.now_ms) credited.0 payer.1 credited.1)

  abbrev pub state_of : Option Order → Answer
  state_of none = transaction_state 3 0 (format_time py t.now_ms)
  state_of (some o) = transaction_state 1 (provider_trn_id o.seq) (format_time py o.perform_time)

  pub check_transaction : Members → Exec Answer
  check_transaction params = do
    lift (require (codes "serviceId" ∷ (codes "transactionId" ∷ (codes "timestamp" ∷ []))) params)
    lift (check_service py cfg (at (codes "serviceId") params))
    txn ← lift (parse_transaction_id (at (codes "transactionId") params))
    lift (parse_time py (at (codes "timestamp") params))
    found ← gets (find_paid txn)
    pure (state_of found)

  pub cancel_transaction : Members → Exec Answer
  cancel_transaction params = do
    lift (require (codes "serviceId" ∷ (codes "transactionId" ∷ (codes "timestamp" ∷ []))) params)
    lift (check_service py cfg (at (codes "serviceId") params))
    txn ← lift (parse_transaction_id (at (codes "transactionId") params))
    found ← gets (find_paid txn)
    raise (rpc_error (if is_none found then transaction_not_found else cannot_cancel))
