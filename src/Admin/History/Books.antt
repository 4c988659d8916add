-- ===== src/Admin/History/Books.antt =====
-- The wallet under the requests of webapp/routers/admin_users.py: every balance stays the sum of the
-- rows of webapp/core/ledger.py.
use vakant.Prelude.{
  ℕ, ◌≡◌, refl, true, false, Option, none, some, List, [], ◌∷◌, Bool-cases, inl, inr, sym, ◌∙◌,
  ◌==◌, ==_iff, ◌≢◌, arith,
}
use vakant.Prelude.Int.{ℤ}
use vakant.Prelude.Text.{Text, codes}
use vakant.Db.{User, Db, Conn, fresh, put_user, put_user_self, put_user_ne, balance_of}
use vakant.Db.Exec.{Result, ok, err}
use vakant.Ledger.{Receipt, Change, apply_balance_change}
use vakant.Ledger
use vakant.Ledger.Balance.{IsLedger, sum_of, closed, call, call-IsLedger, change, reset}
use vakant.Admin.{Panel, Claim}
use vakant.Admin.Requests.{
  Server, Outcome, credit_of, balance_moved, after_claim, balance_transaction, log_admin_action,
  balance_action,
}
use vakant.Admin.Requests.Claims.{
  Claiming, won, replays, conflicts, claim_idempotency, store_response,
}
use vakant.Admin.Requests.Passes.{Leaves}
use vakant.Admin.Accounts.{
  ProRequest, BanRequest, ledger_closed, pro_finished, pro_until_of, pro_written, pro_applied,
  pro_change, pro_user, pro_updated, banned_user, ban_updated, sessions_revoked,
}
use vakant.Admin.History.Keeps.{Keeps, ask-keeps}
use vakant.Admin.History.{Call, Ask, balance, pro, ban, revoke, ask, history, undisturbed}

abbrev InOrder : Panel → Type 0
InOrder p = IsLedger p.db

-- A change of the other columns of a user.
IsLedger-put_user :
    (k : ℕ) (u v : User) (d : Db)
    → d.users k ≡ some u
    → balance_of v ≡ balance_of u
    → IsLedger d
    → IsLedger (record d { users = put_user k v d.users })
IsLedger-put_user k u v d found same h = record {
  balanced = record { at = at };
  ordered = h.ordered;
}
  where
    put_user-at : (j : ℕ) → (j == k) ≡ true → put_user k v d.users j ≡ some v
    put_user-at j here = rw ((==_iff j k).0 here) (put_user_self k v d.users)

    apart : (j : ℕ) → (j == k) ≡ false → j ≢ k
    apart j there e = ground (arith, there, e)

    at : (j : ℕ) (w : User) → put_user k v d.users j ≡ some w → balance_of w ≡ sum_of j d.txs
    at j w e = elim (Bool-cases (j == k)) [
      | inl here ↦
          let e1 : ◌≡◌ {A = Option User} (some v) (some w) = sym (put_user-at j here) ∙ e in
          let is_v : v ≡ w = cc in
          let key : j ≡ k = (==_iff j k).0 here in
          rw (sym is_v) (same ∙ rw key (h.balanced.at k u found))
      | inr there ↦ h.balanced.at j w (sym (put_user_ne k v d.users j (apart j there)) ∙ e)
    ]

balance_moved-InOrder :
    (now b k : ℕ) (amount : ℤ) (after : Outcome → List Claim) (p : Panel)
    (out : Result Receipt × Conn)
    → InOrder p
    → IsLedger (closed out)
    → InOrder (balance_moved now b k amount after p out).1
balance_moved-InOrder now b k amount after p (ok r, c) h h' = h'
balance_moved-InOrder now b k amount after p (err e, c) h h' = h

module _ (server : Server) where
  after_claim-InOrder :
      (now b k : ℕ) (amount : ℤ) (memo : Option Text) (key : Text) (p : Panel) (x : Claiming)
      → InOrder p
      → InOrder (after_claim server now b k amount memo key p x).1
  unfolding call
  after_claim-InOrder now b k amount memo key p (won rows) h =
      balance_moved-InOrder now b k amount
        (λ o. store_response b balance_action key (server.dumps o) rows) p
        (apply_balance_change now (credit_of k amount memo b) (fresh p.db)) h
        (call-IsLedger p.db h (change now (credit_of k amount memo b)))
  after_claim-InOrder now b k amount memo key p (replays json) h = h
  after_claim-InOrder now b k amount memo key p conflicts h = h

  balance_transaction-InOrder :
      (now b k : ℕ) (amount : ℤ) (memo key : Option Text) (p : Panel)
      → InOrder p
      → InOrder (balance_transaction server now b k amount memo key p).1
  unfolding call
  balance_transaction-InOrder now b k amount memo none p h =
      balance_moved-InOrder now b k amount (λ o. p.idempotency) p
        (apply_balance_change now (credit_of k amount memo b) (fresh p.db)) h
        (call-IsLedger p.db h (change now (credit_of k amount memo b)))
  balance_transaction-InOrder now b k amount memo (some key) p h =
      after_claim-InOrder now b k amount memo key p
        (claim_idempotency now b balance_action key k (server.digest k amount memo) p.idempotency) h

ledger_closed-InOrder :
    (finish : Panel → Panel) (p : Panel) (d : Db) (out : Result Receipt × Conn)
    → ((q : Panel) → (finish q).db ≡ q.db)
    → InOrder p
    → IsLedger (closed out)
    → InOrder (ledger_closed finish p out).1
ledger_closed-InOrder finish p d (ok r, c) same h h' = rw (same (record p { db = c.live })) h'
ledger_closed-InOrder finish p d (err e, c) same h h' = h

pro_updated-InOrder :
    (now b k : ℕ) (body : ProRequest) (memo : Option Text) (p : Panel) (o : Option User)
    → p.db.users k ≡ o
    → InOrder p
    → InOrder (pro_updated now b k body memo p o).1
unfolding call
pro_updated-InOrder now b k body memo p none found h = h
pro_updated-InOrder now b k body memo p (some u) found h =
    ledger_closed-InOrder (pro_finished now b k (pro_until_of now body.enabled body.days)) p p.db
      (pro_applied now b k body.enabled memo p.db u) (λ q. refl) h
      (call-IsLedger (pro_written k u body.enabled p.db)
        (IsLedger-put_user k u (pro_user body.enabled u) p.db found refl h)
        (change now (pro_change k b body.enabled memo)))

ban_updated-InOrder :
    (now b k : ℕ) (body : BanRequest) (reason : Option Text) (p : Panel) (o : Option User)
    → p.db.users k ≡ o
    → InOrder p
    → InOrder (ban_updated now b k body reason p o).1
ban_updated-InOrder now b k body reason p none found h = h
ban_updated-InOrder now b k body reason p (some u) found h =
    let kept = IsLedger-put_user k u (banned_user body.banned u) p.db found refl h in
    elim (Bool-cases body.banned) [
      | inl banned ↦ rw banned (rw banned at kept)
      | inr free ↦ rw free (rw free at kept)
    ]

sessions_revoked-InOrder :
    (now b k : ℕ) (p : Panel) (o : Option User)
    → InOrder p
    → InOrder (sessions_revoked now b k p o).1
sessions_revoked-InOrder now b k p none h = h
sessions_revoked-InOrder now b k p (some u) h = h

module _ (server : Server) where
  transactions-InOrder :
      (x : Call) (p : Panel) (h : InOrder p) (a : Ask) → Keeps server InOrder x p h a
  unfolding Keeps Leaves call
  transactions-InOrder x p h (balance header body) =
      λ memo key. balance_transaction-InOrder server x.at x.by.user_id x.on body.amount memo key p h
  transactions-InOrder x p h (pro body) =
      λ memo. pro_updated-InOrder x.at x.by.user_id x.on body memo p (p.db.users x.on) refl h
  transactions-InOrder x p h (Ask.reset user_id body_note) = λ memo.
      ledger_closed-InOrder (log_admin_action x.at x.by.user_id (codes "users.reset") x.on) p p.db
        (Ledger.reset_user undisturbed x.at x.on (some x.by.user_id) memo (fresh p.db)) (λ q. refl)
        h (call-IsLedger p.db h (reset x.at x.on (some x.by.user_id) memo))
  transactions-InOrder x p h (ban body) =
      λ reason. ban_updated-InOrder x.at x.by.user_id x.on body reason p (p.db.users x.on) refl h
  transactions-InOrder x p h (revoke user_id) =
      sessions_revoked-InOrder x.at x.by.user_id x.on p (p.db.users x.on) h

  -- From a wallet in order, whatever admins do through these routes, every balance is still the sum
  -- of the ledger's rows of its user, and the rows stand in the order of their ids.
  pub history-IsLedger :
      (xs : List (Call × Ask)) (p : Panel) → IsLedger p.db → IsLedger (history server xs p).db
  unfolding history
  history-IsLedger [] p h = h
  history-IsLedger ((x, a) ∷ xs) p h =
      history-IsLedger xs (ask server x a p)
        (ask-keeps server InOrder x p h a (transactions-InOrder x p h a))
