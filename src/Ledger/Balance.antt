-- ===== src/Ledger/Balance.antt =====
-- The invariants that webapp/core/ledger.py states in its docstring, over every sequence of its
-- operations, each committed by its caller or rolled back.
use vakant.Prelude.{
  ℕ, ◌+◌, ◌<◌, ◌≡◌, refl, Option, some, List, [], ◌∷◌, ◌==◌, ==_iff, ap, subst, if◌then◌else◌,
  arith, Bool-cases, inl, inr,
}
use vakant.Prelude.Int.{ℤ, pos, ◌+ℤ◌, +ℤ_comm, int_laws}
use vakant.Prelude.Text.{Text}
use vakant.Db.{User, Kind, Tx, Db, Conn, fresh, balance_of, put_user}
use vakant.Db.Exec.{Result, ok, err, Exec}
use vakant.Ledger.{Receipt, Change, apply_balance_change, activate_pro, reset_user}
use vakant.Ledger.Changes.{Applies, apply_balance_change-Applies}
use vakant.Ledger.Activation.{Activates, activate_pro-Activates}
use vakant.Ledger.Moves.{Applies-IsMove, Activates-IsMove, IsMove}
use vakant.Ledger.Reset.{Drift, stay, drift, Resets, reset_user-Resets}

-- `SUM(amount)` over the rows of a user.
abbrev pub sum_of : ℕ → List Tx → ℤ
sum_of k [] = pos 0
sum_of k (t ∷ ts) = (if t.user_id == k then t.amount else pos 0) +ℤ sum_of k ts

-- Every balance is the sum of its rows.
pub record IsBalanced (d : Db) : Type 0 where
  pub at : (k : ℕ) (u : User) → d.users k ≡ some u → balance_of u ≡ sum_of k d.txs

-- The rows stand newest first, under ids that were handed out once.
abbrev pub Descends : ℕ → List Tx → Type 0
Descends top [] = Unit
Descends top (t ∷ ts) = (t.id < top) × (0 < t.id) × Descends t.id ts

abbrev pub IsOrdered : Db → Type 0
IsOrdered d = Descends (d.tx_seq + 1) d.txs

-- One row for one move keeps the sums of all users.
balance_step :
    (k j : ℕ) (before after u : User) (row : Tx) (users : ℕ → Option User) (txs : List Tx)
    → users k ≡ some before
    → row.user_id ≡ k
    → balance_of after ≡ balance_of before +ℤ row.amount
    → balance_of before ≡ sum_of k txs
    → ((v : User) → users j ≡ some v → balance_of v ≡ sum_of j txs)
    → put_user k after users j ≡ some u
    → balance_of u ≡ sum_of j (row ∷ txs)
unfolding put_user
balance_step k j before after u row users txs found owner moved was other e =
    elim (Bool-cases (j == k)) [
      | inl same ↦ ground (
        arith,
        same,
        ap (λ i. sum_of i txs) ((==_iff j k).0 same),
        +ℤ_comm (balance_of before) row.amount,
      )
      | inr differs ↦ ground (arith, differs, other u, zero_add (sum_of j txs))
    ]
  where
    zero_add : (a : ℤ) → pos 0 +ℤ a ≡ a
    zero_add a = omega int_laws

pub IsMove-IsBalanced :
    (k : ℕ) {kind : Kind} {amount : ℤ} {d d' : Db}
    → IsMove k kind amount d d'
    → IsBalanced d
    → IsBalanced d'
IsMove-IsBalanced k {d = d} m h = record {
  at = λ j u e. rw m.rows (
      balance_step k j m.before m.after u m.row d.users d.txs m.found m.owner
        (rw m.row_amount m.moved) (h.at k m.before m.found) (h.at j) (rw m.users at e));
}

pub IsMove-IsOrdered :
    {k : ℕ} {kind : Kind} {amount : ℤ} {d d' : Db}
    → IsMove k kind amount d d'
    → IsOrdered d
    → IsOrdered d'
IsMove-IsOrdered m h =
    rw m.rows (rw m.next_id (omega (arith, m.row_id), omega (arith, m.row_id), rw m.row_id h))

-- A call of the ledger, at a time.
pub data Call : Type 0 where
  change : ℕ → Change → Call
  activate : ℕ → ℕ → ℤ → Call
  reset : ℕ → ℕ → Option ℕ → Option Text → Call

abbrev undisturbed : ℕ → Db → Db
undisturbed i d = d

unfoldable pub call : Call → Exec Receipt
call (change now ch) = apply_balance_change now ch
call (activate now k price) = activate_pro now k price
call (reset now k actor memo) = reset_user undisturbed now k actor memo

-- The caller commits what returned, and rolls back what raised.
abbrev pub closed : Result Receipt × Conn → Db
closed (ok r, c) = c.live
closed (err e, c) = c.saved

unfoldable pub run : List Call → Db → Db
unfolding call
run [] d = d
run (x ∷ xs) d = run xs (closed (call x (fresh d)))

pub record IsLedger (d : Db) : Type 0 where
  pub balanced : IsBalanced d
  pub ordered : IsOrdered d

pub IsMove-IsLedger :
    (k : ℕ) {kind : Kind} {amount : ℤ} {d d' : Db}
    → IsMove k kind amount d d'
    → IsLedger d
    → IsLedger d'
IsMove-IsLedger k m h = record {
  balanced = IsMove-IsBalanced k m h.balanced;
  ordered = IsMove-IsOrdered m h.ordered;
}

Drift-stay : {d d' : Db} → Drift undisturbed d d' → d ≡ d'
Drift-stay stay = refl
Drift-stay (drift i m) = Drift-stay m

-- One call, by how it ended.
module _ (d : Db) (h : IsLedger d) where
  change-IsLedger :
      (now : ℕ) (ch : Change) (out : Result Receipt × Conn)
      → Applies now ch (fresh d) out
      → IsLedger (closed out)
  change-IsLedger now ch (ok r, c') a =
      IsMove-IsLedger ch.user_id (Applies-IsMove now ch (fresh d) c' r a) h
  change-IsLedger now ch (err x, c') a = rw a.0 h

  activate-IsLedger :
      (now k : ℕ) (price : ℤ) (out : Result Receipt × Conn)
      → Activates now k price (fresh d) out
      → IsLedger (closed out)
  activate-IsLedger now k price (ok r, c') a =
      IsMove-IsLedger k (Activates-IsMove now k price (fresh d) c' r a) h
  activate-IsLedger now k price (err x, c') a = rw a h

  reset-IsLedger :
      (k : ℕ) (out : Result Receipt × Conn)
      → Resets undisturbed k (fresh d) out
      → IsLedger (closed out)
  reset-IsLedger k (ok r, c') (d', moved, done) =
      IsMove-IsLedger k done.move (subst IsLedger (Drift-stay moved) h)
  reset-IsLedger k (err x, c') (back, _) = subst IsLedger (Drift-stay back) h

  pub call-IsLedger : (x : Call) → IsLedger (closed (call x (fresh d)))
  unfolding call
  call-IsLedger (change now ch) = change-IsLedger now ch _ (apply_balance_change-Applies now ch _)
  call-IsLedger (activate now k price) =
      activate-IsLedger now k price _ (activate_pro-Activates now k price _)
  call-IsLedger (reset now k actor memo) =
      reset-IsLedger k _ (reset_user-Resets undisturbed now k actor memo _)

-- From a ledger in order, after any calls, each committed or rolled back, every balance is still the sum of its rows, and
-- the rows stand in the order of their ids.
pub run-IsLedger : (xs : List Call) (d : Db) → IsLedger d → IsLedger (run xs d)
unfolding run
run-IsLedger [] d h = h
run-IsLedger (x ∷ xs) d h = run-IsLedger xs (closed (call x (fresh d))) (call-IsLedger d h x)
