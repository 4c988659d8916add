-- ===== src/Payments/Paynet/Methods/Reads.antt =====
-- The methods of webapp/payments/paynet.py that write nothing.
use vakant.Prelude.{
  ℕ, ap, ◌+◌, ◌≡◌, refl, not, List, [], ◌∷◌, ◌==◌, inl, inr, Bool-cases, Option-cases, take, keep,
  length, ltb, or_default,
}
use vakant.Prelude.Int.{ltb_ℤ}
use vakant.Prelude.Text.{codes}
use vakant.Prelude.Text.{Text}
use vakant.Db.{User, Conn, Order, balance_of}
use vakant.Payments.Paynet.Methods.Twice.{cancel_transaction_refuses}
use vakant.Db.Exec.{
  ok, err, continue, runtime_error, Result, Result-cases, Reads, lift, guard, pure, ◌>>=◌, ◌>>◌,
}
use vakant.Payments.Shop.{Clock}
use vakant.Payments.Paynet.Document.{Members, at}
use vakant.Payments.Paynet.{
  PaynetConfig, Clockwork, statement_max_rows, require, fields_of, check_service, parse_payer,
  parse_transaction_id,
}
use vakant.Payments.Paynet.Methods.{
  Answer, information, statements, format_time, payer_or_error, parse_time, get_information,
  check_transaction, cancel_transaction,
}
use vakant.Payments.Paynet.Statement.{get_statement, stated, sort_by_time, statements_of}

pub payer_or_error-Reads : (k : ℕ) → Reads (payer_or_error k)
unfolding payer_or_error
payer_or_error-Reads k c = elim (Option-cases (c.live.users k)) [
  | inl missing ↦ rw missing refl
  | inr (u, there) ↦ rw there (elim (Bool-cases (or_default 0 u.banned == 0)) [
    | inl welcome ↦ rw welcome refl
    | inr blocked ↦ rw blocked refl
  ])
]

module _ (py : Clockwork) (cfg : PaynetConfig) (params : Members) (c : Conn) where
  pub get_information-Reads : (t : Clock) → (get_information py cfg t params c).1 ≡ c
  unfolding get_information
  get_information-Reads t =
      elim (Result-cases (require (codes "serviceId" ∷ (codes "fields" ∷ [])) params)) [
        | inl (e, bad) ↦ rw bad refl
        | inr (whole, goodwhole) ↦ rw goodwhole (elim (Result-cases (fields_of params)) [
          | inl (e, bad) ↦ rw bad refl
          | inr (fields, goodfields) ↦
              rw goodfields
                (elim (Result-cases (check_service py cfg (at (codes "serviceId") params))) [
                  | inl (e, bad) ↦ rw bad refl
                  | inr (ours, goodours) ↦
                      rw goodours (elim (Result-cases (parse_payer fields cfg.client_param)) [
                        | inl (e, bad) ↦ rw bad refl
                        | inr (payer, goodpayer) ↦ rw goodpayer (
                            read_payer payer.0 payer.1 (payer_or_error payer.0 c)
                              (payer_or_error-Reads payer.0 c))
                      ])
                ])
        ])
      ]
    where
      read_payer :
          (k : ℕ) (name : Text) (out : Result User × Conn)
          → out.1 ≡ c
          → (continue
              (λ (u : User).
                pure (
                  information (format_time py t.now_ms) (py.mask_name u.first_name) (balance_of u)))
              out).1
            ≡ c
      read_payer k name (ok u, c') e = e
      read_payer k name (err x, c') e = e

  pub check_transaction-Reads : (t : Clock) → (check_transaction py cfg t params c).1 ≡ c
  unfolding check_transaction
  check_transaction-Reads t =
      elim (Result-cases
        (require (codes "serviceId" ∷ (codes "transactionId" ∷ (codes "timestamp" ∷ []))) params)) [
          | inl (e, bad) ↦ rw bad refl
          | inr (whole, goodwhole) ↦
              rw goodwhole
                (elim (Result-cases (check_service py cfg (at (codes "serviceId") params))) [
                  | inl (e, bad) ↦ rw bad refl
                  | inr (ours, goodours) ↦
                      rw goodours
                        (elim (Result-cases
                          (parse_transaction_id (at (codes "transactionId") params))) [
                            | inl (e, bad) ↦ rw bad refl
                            | inr (txn, goodtxn) ↦
                                rw goodtxn
                                  (elim (Result-cases
                                    (parse_time py (at (codes "timestamp") params))) [
                                      | inl (e, bad) ↦ rw bad refl
                                      | inr (seconds, goodseconds) ↦ rw goodseconds (refl)
                                    ])
                          ])
                ])
        ]

  pub cancel_transaction-Reads : (t : Clock) → (cancel_transaction py cfg t params c).1 ≡ c
  cancel_transaction-Reads t =
      let (e, same) = cancel_transaction_refuses py cfg params t c in
      ap (λ (x : Result Answer × Conn). x.1) same

  pub get_statement-Reads : (get_statement py cfg params c).1 ≡ c
  unfolding get_statement
  get_statement-Reads =
      elim (Result-cases
        (require (codes "serviceId" ∷ (codes "dateFrom" ∷ (codes "dateTo" ∷ []))) params)) [
          | inl (e, bad) ↦ rw bad refl
          | inr (whole, goodwhole) ↦
              rw goodwhole
                (elim (Result-cases (check_service py cfg (at (codes "serviceId") params))) [
                  | inl (e, bad) ↦ rw bad refl
                  | inr (ours, goodours) ↦
                      rw goodours
                        (elim (Result-cases (parse_time py (at (codes "dateFrom") params))) [
                          | inl (e, bad) ↦ rw bad refl
                          | inr (start, goodstart) ↦
                              rw goodstart
                                (elim (Result-cases (parse_time py (at (codes "dateTo") params))) [
                                  | inl (e, bad) ↦ rw bad refl
                                  | inr (end, goodend) ↦
                                      rw goodend (elim (Bool-cases (ltb_ℤ end start)) [
                                        | inl backwards ↦ rw backwards refl
                                        | inr forwards ↦ rw forwards (
                                            listed_rows (
                                              take (statement_max_rows + 1) (
                                                sort_by_time
                                                  (keep (stated start end) c.live.orders))))
                                      ])
                                ])
                        ])
                ])
        ]
    where
      listed_rows :
          (rows : List Order)
          → ((do
            guard (not (ltb statement_max_rows (length rows))) runtime_error
            listed ← lift (statements_of py [] rows)
            pure (statements listed))
              c).1
            ≡ c
      listed_rows rows = elim (Bool-cases (ltb statement_max_rows (length rows))) [
        | inl many ↦ rw many refl
        | inr few ↦ rw few (elim (Result-cases (statements_of py [] rows)) [
          | inl (e, bad) ↦ rw bad refl
          | inr (out, good) ↦ rw good refl
        ])
      ]
