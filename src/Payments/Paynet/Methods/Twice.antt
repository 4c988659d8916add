-- ===== src/Payments/Paynet/Methods/Twice.antt =====
-- What the Paynet methods (webapp/payments/paynet.py) answer about a transaction, before and after
-- it is performed.
use vakant.Prelude.{ℕ, ◌+◌, ◌≡◌, refl, Bool, true, some, [], ◌∷◌, inl, inr, ap, ◌∙◌, subst, sym}
use vakant.Prelude.Int.{ℤ}
use vakant.Prelude.Text.{Text, codes}
use vakant.Db.{Db, Conn, fresh}
use vakant.Db.Exec.{
  Result, ok, err, Exc, rpc_error, transaction_exists, Result-cases, >>=-ok, lift, continue, pure,
}
use vakant.Payments.Orders.States.{IsOrderId}
use vakant.Payments.Shop.{Clock}
use vakant.Payments.Paynet.Document.{Members, at}
use vakant.Payments.Paynet.{
  PaynetConfig, Clockwork, require, check_service, fields_of, parse_payer, parse_transaction_id,
  parse_amount_soum,
}
use vakant.Payments.Paynet.Methods.{
  Answer, information, performed, statements, transaction_state, find_paid, provider_trn_id,
  format_time, perform_transaction, check_transaction, cancel_transaction, parse_time,
}
use vakant.Payments.Paynet.Methods.Performs.{
  IsPerformed, Writes, write_transaction-Writes, find_paid-IsPerformed, write_transaction_twin,
}

-- What a call of PerformTransaction on a connection with no open transaction has done.
abbrev pub Performs : Clock → Text → Members → Db → Result Answer × Conn → Type 0
Performs t i params d (ok (performed timestamp trn payer balance), c') =
    (txn k amount : ℕ) × (parse_transaction_id (at (codes "transactionId") params) ≡ ok txn)
    × (parse_amount_soum (at (codes "amount") params) ≡ ok amount)
    × IsPerformed t i txn k amount d c'
    × (trn ≡ provider_trn_id (d.order_seq + 1))
Performs t i params d (ok _, c') = ⊥
Performs t i params d (err e, c') = c' ≡ fresh d

module _ (py : Clockwork) (cfg : PaynetConfig) (t : Clock) (locked : Bool) (i : Text)
    (params : Members) (d : Db) where
  written-Performs :
      (txn k amount : ℕ) (payer : Text) (out : Result (ℕ × ℤ) × Conn)
      → parse_transaction_id (at (codes "transactionId") params) ≡ ok txn
      → parse_amount_soum (at (codes "amount") params) ≡ ok amount
      → Writes t i txn k amount d out
      → Performs t i params d
          (continue (λ (r : ℕ × ℤ). pure (performed (format_time py t.now_ms) r.0 payer r.1)) out)
  written-Performs txn k amount payer (ok r, c') e f w = (txn, k, amount, e, f, w.0, w.1)
  written-Performs txn k amount payer (err x, c') e f w = w

  pub perform_transaction-Performs :
      IsOrderId i → Performs t i params d (perform_transaction py cfg t locked i params (fresh d))
  unfolding perform_transaction
  perform_transaction-Performs h =
      elim (Result-cases (
        require
          (codes "amount" ∷ (codes "serviceId" ∷ (codes "transactionId" ∷ (codes "fields" ∷ []))))
          params)) [
            | inl (e, bad) ↦ rw bad refl
            | inr (_, whole) ↦ rw whole (elim (Result-cases (fields_of params)) [
              | inl (e, bad) ↦ rw bad refl
              | inr (fields, good) ↦
                  rw good
                    (elim (Result-cases (check_service py cfg (at (codes "serviceId") params))) [
                      | inl (e, bad) ↦ rw bad refl
                      | inr (_, ours) ↦
                          rw ours
                            (elim (Result-cases
                              (parse_transaction_id (at (codes "transactionId") params))) [
                                | inl (e, bad) ↦ rw bad refl
                                | inr (txn, named) ↦
                                    rw named
                                      (elim (Result-cases (parse_payer fields cfg.client_param)) [
                                        | inl (e, bad) ↦ rw bad refl
                                        | inr (payer, known) ↦
                                            rw known
                                              (elim (Result-cases
                                                (parse_amount_soum (at (codes "amount") params))) [
                                                  | inl (e, bad) ↦ rw bad refl
                                                  | inr (amount, priced) ↦ rw priced (
                                                      written-Performs txn payer.0 amount payer.1 _
                                                        named priced
                                                        (write_transaction-Writes t i txn payer.0
                                                          amount d locked h))
                                                ])
                                      ])
                              ])
                    ])
            ])
          ]

-- A pure step that did not raise.
lift-ok :
    {A : Type 0} (r : Result A) (a : A) (c c1 : Conn)
    → lift r c ≡ (ok a, c1)
    → (r ≡ ok a) × (c1 ≡ c)
lift-ok {A = A} r a c c1 e =
    (ap (λ (x : Result A × Conn). x.0) e, sym (ap (λ (x : Result A × Conn). x.1) e))

module _ (py : Clockwork) (cfg : PaynetConfig) (params : Members) where
  -- The parameters of PerformTransaction are read as these.
  record IsRead (txn k amount : ℕ) (payer : Text) (fields : Members) : Type 0 where
    pub whole :
        require
          (codes "amount" ∷ (codes "serviceId" ∷ (codes "transactionId" ∷ (codes "fields" ∷ []))))
          params
        ≡ ok tt
    pub grouped : fields_of params ≡ ok fields
    pub ours : check_service py cfg (at (codes "serviceId") params) ≡ ok tt
    pub named : parse_transaction_id (at (codes "transactionId") params) ≡ ok txn
    pub known : parse_payer fields cfg.client_param ≡ ok (k, payer)
    pub priced : parse_amount_soum (at (codes "amount") params) ≡ ok amount

  perform_transaction-IsRead :
      (t : Clock) (locked : Bool) (i : Text) (c c' : Conn) (answer : Answer)
      → perform_transaction py cfg t locked i params c ≡ (ok answer, c')
      → (txn k amount : ℕ) × (payer : Text) × (fields : Members) × IsRead txn k amount payer fields
  unfolding perform_transaction
  perform_transaction-IsRead t locked i c c' answer h =
      let (_, c1, e1, h1) =
        >>=-ok
          (lift (
            require
              (codes "amount"
                ∷ (codes "serviceId" ∷ (codes "transactionId" ∷ (codes "fields" ∷ []))))
              params))
          _ c answer c' h in
      let (fields, c2, e2, h2) = >>=-ok (lift (fields_of params)) _ c1 answer c' h1 in
      let (_, c3, e3, h3) =
        >>=-ok (lift (check_service py cfg (at (codes "serviceId") params))) _ c2 answer c' h2 in
      let (txn, c4, e4, h4) =
        >>=-ok (lift (parse_transaction_id (at (codes "transactionId") params))) _ c3 answer c'
          h3 in
      let (payer, c5, e5, h5) =
        >>=-ok (lift (parse_payer fields cfg.client_param)) _ c4 answer c' h4 in
      let (amount, c6, e6, h6) =
        >>=-ok (lift (parse_amount_soum (at (codes "amount") params))) _ c5 answer c' h5 in
      (
        txn,
        payer.0,
        amount,
        payer.1,
        fields,
        record {
          whole = (lift-ok _ _ c c1 e1).0;
          grouped = (lift-ok _ _ c1 c2 e2).0;
          ours = (lift-ok _ _ c2 c3 e3).0;
          named = (lift-ok _ _ c3 c4 e4).0;
          known = (lift-ok _ _ c4 c5 e5).0;
          priced = (lift-ok _ _ c5 c6 e6).0;
        },
      )

  -- Sent again with the same parameters, on a fresh connection to the tables that it left and
  -- whatever the new order id, a transaction that was performed (under an id as `uuid4` writes it)
  -- is refused as one that exists, and nothing changes.
  pub perform_transaction_again :
      (t t' : Clock) (locked : Bool) (i i' : Text) (d : Db) (c' : Conn) (answer : Answer)
      → IsOrderId i
      → perform_transaction py cfg t locked i params (fresh d) ≡ (ok answer, c')
      → perform_transaction py cfg t' true i' params (fresh c'.live)
        ≡ (err (rpc_error transaction_exists), fresh c'.live)
  unfolding perform_transaction
  perform_transaction_again t t' locked i i' d c' (performed timestamp trn name balance) good h =
      let (txn, k, amount, payer, fields, x) =
        perform_transaction-IsRead t locked i (fresh d) c' _ h in
      let (txn', k', amount', e, f, done, g) =
        subst (Performs t i params d) h
          (perform_transaction-Performs py cfg t locked i params d good) in
      let same : txn' ≡ txn = ok_inj (sym e ∙ x.named) in
      let (o, found, _, _) = find_paid-IsPerformed t i txn' k' amount' d c' done in
      rw x.whole (
        rw x.grouped (
          rw x.ours (
            rw x.named (
              rw x.known (
                rw x.priced (
                  rw
                    (write_transaction_twin t' i' txn k amount (fresh c'.live) o
                      (subst (λ n. find_paid n c'.live ≡ some o) same found))
                    refl))))))
    where
      ok_inj : {m n : ℕ} → ok m ≡ ok n → m ≡ n
      ok_inj p = cc
  perform_transaction_again t t' locked i i' d c' (transaction_state a b s) good h = absurd (
      subst (Performs t i params d) h
        (perform_transaction-Performs py cfg t locked i params d good))
  perform_transaction_again t t' locked i i' d c' (information a b s) good h = absurd (
      subst (Performs t i params d) h
        (perform_transaction-Performs py cfg t locked i params d good))
  perform_transaction_again t t' locked i i' d c' (statements a) good h = absurd (
      subst (Performs t i params d) h
        (perform_transaction-Performs py cfg t locked i params d good))

  -- CancelTransaction never returns, and changes nothing: with well-formed parameters it says
  -- whether there was a payment to cancel.
  pub cancel_transaction_refuses :
      (t : Clock) (c : Conn) → (e : Exc) × (cancel_transaction py cfg t params c ≡ (err e, c))
  unfolding cancel_transaction
  cancel_transaction_refuses t c =
      elim (Result-cases
        (require (codes "serviceId" ∷ (codes "transactionId" ∷ (codes "timestamp" ∷ []))) params)) [
          | inl (e, bad) ↦ rw bad (e, refl)
          | inr (_, whole) ↦
              rw whole (elim (Result-cases (check_service py cfg (at (codes "serviceId") params))) [
                | inl (e, bad) ↦ rw bad (e, refl)
                | inr (_, ours) ↦
                    rw ours
                      (elim (Result-cases
                        (parse_transaction_id (at (codes "transactionId") params))) [
                          | inl (e, bad) ↦ rw bad (e, refl)
                          | inr (txn, named) ↦ rw named (_, refl)
                        ])
              ])
        ]

  -- A CheckTransaction with well-formed parameters that names a performed transaction answers 1,
  -- with the id and the time of its payment, and changes nothing.
  pub check_transaction_performed :
      (t t' : Clock) (i : Text) (txn k amount : ℕ) (d : Db) (c' : Conn) (seconds : ℤ)
      → IsPerformed t i txn k amount d c'
      → require (codes "serviceId" ∷ (codes "transactionId" ∷ (codes "timestamp" ∷ []))) params
        ≡ ok tt
      → check_service py cfg (at (codes "serviceId") params) ≡ ok tt
      → parse_transaction_id (at (codes "transactionId") params) ≡ ok txn
      → parse_time py (at (codes "timestamp") params) ≡ ok seconds
      → check_transaction py cfg t' params c' ≡ (
        ok (transaction_state 1 (provider_trn_id (d.order_seq + 1)) (format_time py t.now_ms)),
        c',
      )
  unfolding check_transaction
  check_transaction_performed t t' i txn k amount d c' seconds p whole ours named dated =
      let (o, found, seq, time) = find_paid-IsPerformed t i txn k amount d c' p in
      rw whole (rw ours (rw named (rw dated (rw found (rw seq (rw time refl))))))
