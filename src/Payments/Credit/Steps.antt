-- ===== src/Payments/Credit/Steps.antt =====
-- What a `credit_topup` that returned has done to the tables.
use vakant.Prelude.{
  ℕ, ◌≡◌, refl, ◌⊎◌, inl, inr, ◌==◌, ltb, if◌then◌else◌, or_default, arith, Bool-cases, ap, ◌∙◌,
  subst,
}
use vakant.Prelude.Int.{ℤ, pos}
use vakant.Prelude.Text.{Text}
use vakant.Db.{Db, Conn, Order, topup, topup_bonus}
use vakant.Db.Rows.{update_row}
use vakant.Db.Exec.{
  Result, ok, err, integrity_error, value_error, ledger_error, assertion_error, type_error,
  operational_error, runtime_error, user_not_found, already_pro, insufficient_balance, rpc_error,
  api_error, >>=-ok, KeepsSaved, >>=-KeepsSaved,
}
use vakant.Ledger.{Receipt, Change, apply_balance_change}
use vakant.Ledger.Changes.{Applies, apply_balance_change-Applies}
use vakant.Ledger.Moves.{IsMove, Applies-IsMove}
use vakant.Payments.Config.{payment_bonus_amount}
use vakant.Payments.Credit.{
  topup_change, bonus_change, credit_bonus, after_savepoint, credit_topup, with_bonus, any_order,
}

-- The top-up of the order's amount, then the bonus or nothing, then the bonus on the order.
pub record Credits (o : Order) (bonus : ℕ) (d d' : Db) : Type 0 where
  pub percent : ℕ
  pub mid : Db
  pub final : Db
  pub topped : IsMove o.user_id topup (pos o.amount_soum) d mid
  pub extra : ((bonus ≡ 0) × (final ≡ mid)) ⊎ IsMove o.user_id topup_bonus (pos bonus) mid final
  pub stored :
      d'
      ≡ record final { orders = update_row o.id any_order (with_bonus percent bonus) final.orders }

-- A balance change that returned, as a move on the live tables.
pub change-IsMove :
    (now : ℕ) (ch : Change) (c c' : Conn) (r : Receipt)
    → apply_balance_change now ch c ≡ (ok r, c')
    → IsMove ch.user_id ch.kind ch.amount c.live c'.live × (c'.saved ≡ c.saved)
change-IsMove now ch c c' r e =
    let a : Applies now ch c (ok r, c') =
      subst (Applies now ch c) e (apply_balance_change-Applies now ch c) in
    (Applies-IsMove now ch c c' r a, ap (λ (x : Conn). x.saved) (a.2))

-- The bonus in its SAVEPOINT: all of it, or none of its writes.
abbrev BonusDone : Order → Conn → ℕ × ℤ → Conn → Type 0
BonusDone o c out c' =
    (((out.0 ≡ 0) × (c'.live ≡ c.live)) ⊎ IsMove o.user_id topup_bonus (pos out.0) c.live c'.live)
    × (c'.saved ≡ c.saved)

savepoint_done :
    (now : ℕ) (o : Order) (percent bonus : ℕ) (before : ℤ) (c : Conn) (r : Result Receipt × Conn)
    → apply_balance_change now (bonus_change o percent bonus) c ≡ r
    → (out : ℕ × ℤ) (c' : Conn) → after_savepoint c bonus before r ≡ (ok out, c')
    → BonusDone o c out c'
unfolding after_savepoint
savepoint_done now o percent bonus before c (ok r, c1) e out c' h =
    let (moved, same) = change-IsMove now (bonus_change o percent bonus) c c1 r e in
    let p : c' ≡ c1 = cc in
    let q : out.0 ≡ bonus = ground (arith, h) in rw p (rw q (inr moved, same))
savepoint_done now o percent bonus before c (err integrity_error, c1) e out c' h =
    let a : Applies now (bonus_change o percent bonus) c (err integrity_error, c1) =
      subst (Applies now (bonus_change o percent bonus) c) e
        (apply_balance_change-Applies now (bonus_change o percent bonus) c) in
    let p : c' ≡ record c1 { live = c.live } = cc in
    let q : out.0 ≡ 0 = ground (arith, h) in rw p (inl (q, refl), a.0)
savepoint_done now o percent bonus before c (err value_error, c1) e out c' h = cc
savepoint_done now o percent bonus before c (err ledger_error, c1) e out c' h = cc
savepoint_done now o percent bonus before c (err assertion_error, c1) e out c' h = cc
savepoint_done now o percent bonus before c (err type_error, c1) e out c' h = cc
savepoint_done now o percent bonus before c (err operational_error, c1) e out c' h = cc
savepoint_done now o percent bonus before c (err runtime_error, c1) e out c' h = cc
savepoint_done now o percent bonus before c (err (user_not_found k), c1) e out c' h = cc
savepoint_done now o percent bonus before c (err (already_pro k), c1) e out c' h = cc
savepoint_done now o percent bonus before c (err (insufficient_balance a b), c1) e out c' h = cc
savepoint_done now o percent bonus before c (err (rpc_error x), c1) e out c' h = cc
savepoint_done now o percent bonus before c (err (api_error x), c1) e out c' h = cc

credit_bonus_done :
    (now : ℕ) (o : Order) (percent : ℕ) (before : ℤ) (c : Conn) (out : ℕ × ℤ) (c' : Conn)
    → credit_bonus now o percent before c ≡ (ok out, c')
    → BonusDone o c out c'
unfolding credit_bonus
credit_bonus_done now o percent before c out c' h =
    let bonus = payment_bonus_amount o.amount_soum percent in
    elim (Bool-cases (ltb 0 bonus)) [
      | inl some_bonus ↦
          savepoint_done now o percent bonus before c _ refl out c' (rw some_bonus at h)
      | inr no_bonus ↦
          let h' : ◌≡◌ {A = Result (ℕ × ℤ) × Conn} (ok (0, before), c) (ok out, c') =
            rw no_bonus at h in
          let p : c' ≡ c = cc in
          let q : out.0 ≡ 0 = ground (arith, h') in rw p (inl (q, refl), refl)
    ]

module _ (o : Order) (c c1 c2 : Conn) (credited : ℕ × ℤ) (shown : ℕ) (out : ℕ × ℤ) (c' : Conn)
    (first : IsMove o.user_id topup (pos o.amount_soum) c.live c1.live × (c1.saved ≡ c.saved))
    (second : BonusDone o c1 credited c2) where
  stored_bonus : Conn
  stored_bonus = record c2 {
    live = record c2.live {
      orders = update_row o.id any_order (with_bonus shown credited.0) c2.live.orders;
    };
  }

  credited_stored :
      ◌≡◌ {A = Result (ℕ × ℤ) × Conn} (ok credited, stored_bonus) (ok out, c')
      → Credits o out.0 c.live c'.live × (c'.saved ≡ c.saved)
  unfolding stored_bonus
  credited_stored e =
      let p : out.0 ≡ credited.0 = ground (arith, e) in
      let q : c' ≡ stored_bonus = cc in
      rw q (
        rw p (
          record {
            percent = shown;
            mid = c1.live;
            final = c2.live;
            topped = first.0;
            extra = second.0;
            stored = refl;
          },
          second.1 ∙ first.1,
        ))

-- A top-up that returned has credited the amount once, and the bonus that it reports.
pub credit_topup-Credits :
    (now : ℕ) (o : Order) (reference memo : Text) (c : Conn) (out : ℕ × ℤ) (c' : Conn)
    → credit_topup now o reference memo c ≡ (ok out, c')
    → Credits o out.0 c.live c'.live × (c'.saved ≡ c.saved)
unfolding credit_topup stored_bonus
credit_topup-Credits now o reference memo c out c' h =
    let (r, c1, e1, h1) =
      >>=-ok (apply_balance_change now (topup_change o reference memo)) _ c out c' h in
    let percent = or_default 0 c1.live.payment_bonus_percent in
    let (credited, c2, e2, h2) =
      >>=-ok (credit_bonus now o percent r.balance_after) _ c1 out c' h1 in
    credited_stored o c c1 c2 credited (if credited.0 == 0 then 0 else percent) out c'
      (change-IsMove now (topup_change o reference memo) c c1 r e1)
      (credit_bonus_done now o percent r.balance_after c1 credited c2 e2) h2

change_saved :
    (now : ℕ) (ch : Change) (c : Conn) (out : Result Receipt × Conn)
    → Applies now ch c out
    → out.1.saved ≡ c.saved
change_saved now ch c (ok r, c') a = ap (λ (x : Conn). x.saved) a.2
change_saved now ch c (err e, c') a = a.0

pub apply_balance_change-KeepsSaved :
    (now : ℕ) (ch : Change) → KeepsSaved (apply_balance_change now ch)
apply_balance_change-KeepsSaved now ch c =
    change_saved now ch c (apply_balance_change now ch c) (apply_balance_change-Applies now ch c)

savepoint_saved :
    (c : Conn) (bonus : ℕ) (before : ℤ) (r : Result Receipt × Conn)
    → (after_savepoint c bonus before r).1.saved ≡ r.1.saved
unfolding after_savepoint
savepoint_saved c bonus before (ok r, c1) = refl
savepoint_saved c bonus before (err integrity_error, c1) = refl
savepoint_saved c bonus before (err _, c1) = refl

credit_bonus-KeepsSaved :
    (now : ℕ) (o : Order) (percent : ℕ) (before : ℤ)
    → KeepsSaved (credit_bonus now o percent before)
unfolding credit_bonus
credit_bonus-KeepsSaved now o percent before c =
    let bonus = payment_bonus_amount o.amount_soum percent in
    elim (Bool-cases (ltb 0 bonus)) [
      | inl some_bonus ↦ rw some_bonus (
          savepoint_saved c bonus before (apply_balance_change now (bonus_change o percent bonus) c)
          ∙ apply_balance_change-KeepsSaved now (bonus_change o percent bonus) c)
      | inr no_bonus ↦ rw no_bonus
    ]

-- Whether it returns or raises, a top-up commits nothing.
pub credit_topup-KeepsSaved :
    (now : ℕ) (o : Order) (reference memo : Text) → KeepsSaved (credit_topup now o reference memo)
unfolding credit_topup
credit_topup-KeepsSaved now o reference memo =
    >>=-KeepsSaved (apply_balance_change now (topup_change o reference memo)) _
      (apply_balance_change-KeepsSaved now (topup_change o reference memo))
      (λ r c.
        >>=-KeepsSaved
          (credit_bonus now o (or_default 0 c.live.payment_bonus_percent) r.balance_after) _
          (credit_bonus-KeepsSaved now o (or_default 0 c.live.payment_bonus_percent)
            r.balance_after)
          (λ credited c'. refl) c)
