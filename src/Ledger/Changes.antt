-- ===== src/Ledger/Changes.antt =====
-- `apply_balance_change` and `activate_pro` (webapp/core/ledger.py), branch by branch: a refusal
-- writes nothing, and a success writes the new balance and one row that agrees with it.
use mathlib.Core.Option
use vakant.Prelude.{
  take, ◌∷◌, ℕ, ◌+◌, ◌≤◌, ◌≡◌, ◌≢◌, refl, true, false, some, inl, ◌==◌, ltb, if◌then◌else◌, inr,
  arith, Bool-cases, Option-cases,
}
use vakant.Prelude.Int.{◌+ℤ◌, abs}
use vakant.Db.{Kind, unknown, User, Db, Conn, balance_of, put_user, put_user_self}
use vakant.Db.Exec.{
  Result, ok, err, integrity_error, Result-cases, update_user, update_user_missing,
  update_user_done, update_user_refused,
}
use vakant.Ledger.{
  Entry, Change, Receipt, check_amount, check_kind, refuse_change, add_balance, covered, entry_of,
  add_tx, clashes, insert_tx, apply_balance_change, max_amount,
}

-- The tables after a change of the user `u` that was not refused: the balance moved by the amount,
-- and one new row says so, under the next id.
abbrev pub applied : ℕ → Change → User → Db → Db
applied now ch u d = record d {
  users =
      put_user ch.user_id (record u { user_balance = some (balance_of u +ℤ ch.amount) }) d.users;
  txs =
      record {
        id = d.tx_seq + 1;
        user_id = ch.user_id;
        kind = ch.kind;
        amount = ch.amount;
        balance_after = balance_of u +ℤ ch.amount;
        price_snapshot = ch.price_snapshot;
        actor_id = ch.actor_id;
        note = Option.map (take 500) ch.note;
        created_at = now;
        reference = Option.map (take 200) ch.reference;
      }
      ∷ d.txs;
  tx_seq = d.tx_seq + 1;
}

-- What a call of `apply_balance_change` has done, by how it ended.
abbrev pub Applies : ℕ → Change → Conn → Result Receipt × Conn → Type 0
Applies now ch c (ok r, c') =
    (u : User) × (c.live.users ch.user_id ≡ some u)
    × (c' ≡ record c { live = applied now ch u c.live })
    × (r.balance_after ≡ balance_of u +ℤ ch.amount)
    × (abs ch.amount ≤ max_amount)
Applies now ch c (err e, c') = (c'.saved ≡ c.saved) × (e ≢ integrity_error → c' ≡ c)

==_refl : (n : ℕ) → (n == n) ≡ true
==_refl n = ground arith

-- `_insert_tx` raises on a clash, and else adds the row under the next id.
insert_tx_lem :
    (now : ℕ) (e : Entry) (c : Conn)
    → insert_tx now e c ≡ (
        if clashes e c.live.txs
        then (err integrity_error, c)
        else (ok (c.live.tx_seq + 1), record c { live = add_tx now e c.live }))
unfolding insert_tx
insert_tx_lem now e c = elim (Bool-cases (clashes e c.live.txs)) [
  | inl clash ↦ rw clash
  | inr free ↦ rw free
]

abbrev pub receipt_of : Change → User → Db → Receipt
receipt_of ch u d = record {
  balance_after = balance_of u +ℤ ch.amount;
  tx_id = d.tx_seq + 1;
  amount = ch.amount;
}

abbrev pub raised : ℕ → Change → User → Db → Db
raised now ch u d = record d { users = put_user ch.user_id (add_balance ch.amount u) d.users }

module _ (now : ℕ) (ch : Change) (c : Conn) (fine : ltb max_amount (abs ch.amount) ≡ false)
    (k : Kind) (good : check_kind ch.kind ≡ ok k) (u : User)
    (found : c.live.users ch.user_id ≡ some u) (fits : covered ch u ≡ true) where
  pub change_applied : apply_balance_change now ch c ≡ (
      if clashes (entry_of ch (balance_of u +ℤ ch.amount)) c.live.txs
      then (err integrity_error, record c { live = raised now ch u c.live })
      else (ok (receipt_of ch u c.live), record c { live = applied now ch u c.live }))
  unfolding apply_balance_change check_amount
  change_applied = rw fine (
      rw good (
        rw (update_user_done ch.user_id (covered ch) (add_balance ch.amount) c u found fits) (
          ground (
            arith,
            put_user_self ch.user_id (add_balance ch.amount u) c.live.users,
            insert_tx_lem now (entry_of ch (balance_of u +ℤ ch.amount))
                (record c { live = raised now ch u c.live }),
          ))))

  change_applied-Applies : Applies now ch c (apply_balance_change now ch c)
  change_applied-Applies =
      rw change_applied
        (elim (Bool-cases (clashes (entry_of ch (balance_of u +ℤ ch.amount)) c.live.txs)) [
          | inl clash ↦ rw clash (refl, λ h. absurd (h refl))
          | inr free ↦ rw free (u, found, refl, refl, ground (arith, fine))
        ])

pub known_kind : (q : Kind) → q ≢ unknown → (k : Kind) × (check_kind q ≡ ok k)
unfolding check_kind
known_kind unknown h = absurd (h refl)
known_kind q h = (q, refl)

module _ (now : ℕ) (ch : Change) (c : Conn) where
  -- Each of the refusals that come before any write.
  change_refused :
      (k : Kind)
      → ltb max_amount (abs ch.amount) ≡ false
      → check_kind ch.kind ≡ ok k
      → update_user ch.user_id (covered ch) (add_balance ch.amount) c ≡ (ok false, c)
      → Applies now ch c (apply_balance_change now ch c)
  unfolding apply_balance_change check_amount refuse_change
  change_refused k fine good same = rw fine (
      rw good (
        rw same (elim (Option-cases (c.live.users ch.user_id)) [
          | inl missing ↦ rw missing (refl, λ _. refl)
          | inr (u, found) ↦ rw found (refl, λ _. refl)
        ])))

  -- Whatever the call, a success is one balance change of the user with one row that records it;
  -- a refusal, but for a reference that is taken, leaves the connection as it was.
  pub apply_balance_change-Applies : Applies now ch c (apply_balance_change now ch c)
  apply_balance_change-Applies = elim (Bool-cases (ltb max_amount (abs ch.amount))) [
    | inl big ↦ unfold apply_balance_change check_amount in rw big (refl, λ _. refl)
    | inr fine ↦ elim (Result-cases (check_kind ch.kind)) [
      | inl (e, bad) ↦
          unfold apply_balance_change check_amount in rw fine (rw bad (refl, λ _. refl))
      | inr (k, good) ↦ elim (Option-cases (c.live.users ch.user_id)) [
        | inl missing ↦ change_refused k fine good (update_user_missing _ _ _ c missing)
        | inr (u, found) ↦ elim (Bool-cases (covered ch u)) [
          | inl fits ↦ change_applied-Applies now ch c fine k good u found fits
          | inr short ↦ change_refused k fine good (update_user_refused _ _ _ c u found short)
        ]
      ]
    ]
  ]
