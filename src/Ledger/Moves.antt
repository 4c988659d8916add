-- ===== src/Ledger/Moves.antt =====
-- What every successful operation of webapp/core/ledger.py is: one move of a user's balance with
-- the one row that records it, and the rest of the tables as they were.
use vakant.Prelude.{ℕ, ◌+◌, ◌≡◌, refl, some, ◌∷◌}
use vakant.Prelude.Int.{ℤ, ◌+ℤ◌, ◌-ℤ◌, neg, int_laws}
use vakant.Db.{User, Kind, pro_activation, Tx, Db, Conn, balance_of, put_user}
use vakant.Db.Exec.{ok}
use vakant.Ledger.{Receipt, Change, apply_balance_change, activate_pro}
use vakant.Ledger.Changes.{Applies, apply_balance_change-Applies}
use vakant.Ledger.Activation.{Activates, activate_pro-Activates}

pub record IsMove (k : ℕ) (kind : Kind) (amount : ℤ) (d d' : Db) : Type 0 where
  pub before : User
  pub after : User
  pub row : Tx
  pub found : d.users k ≡ some before
  pub users : d'.users ≡ put_user k after d.users
  pub rows : d'.txs ≡ row ∷ d.txs
  pub next_id : d'.tx_seq ≡ d.tx_seq + 1
  pub row_id : row.id ≡ d.tx_seq + 1
  pub owner : row.user_id ≡ k
  pub row_kind : row.kind ≡ kind
  pub row_amount : row.amount ≡ amount
  pub row_balance : row.balance_after ≡ balance_of after
  pub moved : balance_of after ≡ balance_of before +ℤ amount
  pub orders : d'.orders ≡ d.orders

module _ (now : ℕ) where
  pub Applies-IsMove :
      (ch : Change) (c c' : Conn) (r : Receipt)
      → Applies now ch c (ok r, c')
      → IsMove ch.user_id ch.kind ch.amount c.live c'.live
  Applies-IsMove ch c c' r (u, found, same, after, bound) = rw same (record {
    before = u;
    after = record u { user_balance = some (balance_of u +ℤ ch.amount) };
    row = _;
    found = found;
    users = refl;
    rows = refl;
    next_id = refl;
    row_id = refl;
    owner = refl;
    row_kind = refl;
    row_amount = refl;
    row_balance = refl;
    moved = refl;
    orders = refl;
  })

  pub apply_balance_change-IsMove :
      (ch : Change) (c : Conn) (r : Receipt)
      → (apply_balance_change now ch c).0 ≡ ok r
      → IsMove ch.user_id ch.kind ch.amount c.live (apply_balance_change now ch c).1.live
  apply_balance_change-IsMove ch c r e =
      Applies-IsMove ch c _ r (rw e at (apply_balance_change-Applies now ch c))

  pub Activates-IsMove :
      (k : ℕ) (price : ℤ) (c c' : Conn) (r : Receipt)
      → Activates now k price c (ok r, c')
      → IsMove k pro_activation (neg price) c.live c'.live
  Activates-IsMove k price c c' r (u, found, new, sign, cover, same, after) = rw same (record {
    before = u;
    after = record u { user_balance = some (balance_of u -ℤ price); user_pro = some 1 };
    row = _;
    found = found;
    users = refl;
    rows = refl;
    next_id = refl;
    row_id = refl;
    owner = refl;
    row_kind = refl;
    row_amount = refl;
    row_balance = refl;
    moved = omega int_laws;
    orders = refl;
  })

  pub activate_pro-IsMove :
      (k : ℕ) (price : ℤ) (c : Conn) (r : Receipt)
      → (activate_pro now k price c).0 ≡ ok r
      → IsMove k pro_activation (neg price) c.live (activate_pro now k price c).1.live
  activate_pro-IsMove k price c r e =
      Activates-IsMove k price c _ r (rw e at (activate_pro-Activates now k price c))
