-- ===== src/Payments/Paynet/Statement.antt =====
-- `get_statement` of webapp/payments/paynet.py.
use vakant.Prelude.{
  ℕ, ◌+◌, ◌*◌, Bool, true, false, not, ◌&&◌, ◌||◌, none, some, List, [], ◌∷◌, ltb, leb, ◌==◌, any,
  keep, take, length, if◌then◌else◌,
}
use vakant.Prelude.Int.{ℤ, pos, negsuc, ltb_ℤ}
use vakant.Prelude.Text.{codes, is_number, int_of}
use vakant.Db.{Order, paynet}
use vakant.Db.Exec.{
  bad_date, Result, ok, err, Exec, rpc_error, value_error, runtime_error, pure, lift, gets, ◌>>=◌,
  ◌>>◌, guard,
}
use vakant.Payments.Orders.{same_provider, is_paid}
use vakant.Payments.Paynet.Document.{Members, at}
use vakant.Payments.Paynet.{PaynetConfig, Clockwork, statement_max_rows, require, check_service}
use vakant.Payments.Paynet.Methods.{
  provider_trn_id, Statement, Answer, statements, format_time, parse_time,
}

-- `perform_time BETWEEN start * 1000 AND end * 1000 + 999`
abbrev pub in_range : ℤ → ℤ → ℕ → Bool
in_range start end time =
    elim start [ pos s ↦ leb (s * 1000) time | negsuc s ↦ true ]
    && elim end [ pos e ↦ leb time (e * 1000 + 999) | negsuc e ↦ false ]

abbrev pub stated : ℤ → ℤ → Order → Bool
stated start end o =
    same_provider o.provider paynet && is_paid o.state && in_range start end o.perform_time

-- `CAST(provider_txn AS INTEGER)`
abbrev pub txn_number : Order → ℕ
txn_number o = elim o.provider_txn [ none ↦ 0 | some txn ↦ int_of txn ]

-- `ORDER BY perform_time, CAST(provider_txn AS INTEGER)`
abbrev pub precedes : Order → Order → Bool
precedes a b =
    ltb a.perform_time b.perform_time
    || (a.perform_time == b.perform_time && leb (txn_number a) (txn_number b))

unfoldable pub insert_by : Order → List Order → List Order
insert_by o [] = o ∷ []
insert_by o (x ∷ xs) = if precedes o x then o ∷ (x ∷ xs) else x ∷ insert_by o xs

unfoldable pub sort_by_time : List Order → List Order
sort_by_time [] = []
sort_by_time (o ∷ os) = insert_by o (sort_by_time os)

module _ (py : Clockwork) where
  statement_of : ℕ → Order → Statement
  statement_of txn o = record {
    amount = o.amount_soum * 100;
    transaction_id = txn;
    provider_trn_id = provider_trn_id o.seq;
    timestamp = format_time py o.perform_time;
  }

  -- `int(row["provider_txn"])`
  abbrev pub number_in : Order → Result ℕ
  number_in o = elim o.provider_txn [
    | none ↦ err value_error
    | some txn ↦ if is_number txn then ok (int_of txn) else err value_error
  ]

  abbrev pub malformed : List ℕ → ℕ → Order → Bool
  malformed seen txn o = ltb txn 1 || any (λ s. s == txn) seen || o.amount_soum == 0

  -- The loop over the rows, from the transactions that it has seen.
  pub statements_of : List ℕ → List Order → Result (List Statement)
  unfolding statement_of
  statements_of seen [] = ok []
  statements_of seen (o ∷ os) = elim (number_in o) [
    | err e ↦ err e
    | ok txn ↦
        let rest = statements_of (txn ∷ seen) os in
        if malformed seen txn o
        then err runtime_error
        else elim rest [ err e ↦ err e | ok more ↦ ok (statement_of txn o ∷ more) ]
  ]

  unfoldable pub get_statement : PaynetConfig → Members → Exec Answer
  get_statement cfg params = do
    lift (require (codes "serviceId" ∷ (codes "dateFrom" ∷ (codes "dateTo" ∷ []))) params)
    lift (check_service py cfg (at (codes "serviceId") params))
    start ← lift (parse_time py (at (codes "dateFrom") params))
    end ← lift (parse_time py (at (codes "dateTo") params))
    guard (not (ltb_ℤ end start)) (rpc_error bad_date)
    rows ←
        gets (λ d. take (statement_max_rows + 1) (sort_by_time (keep (stated start end) d.orders)))
    guard (not (ltb statement_max_rows (length rows))) runtime_error
    listed ← lift (statements_of [] rows)
    pure (statements listed)
