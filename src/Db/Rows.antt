-- ===== src/Db/Rows.antt =====
-- The statements on `payment_orders` that select or update one row by its unique id.
use vakant.Prelude.{
  ◌≡◌, ◌≢◌, refl, Bool, true, false, Option, none, some, List, [], ◌∷◌, inl, inr, arith,
  if◌then◌else◌, Bool-cases, Option-cases, All,
}
use vakant.Prelude.Text.{Text, text_eq, text_eq_iff}
use vakant.Db.{Order}

-- `SELECT ... FROM payment_orders WHERE id = ?`
abbrev pub row : Text → List Order → Option Order
row i [] = none
row i (o ∷ os) = if text_eq o.id i then some o else row i os

-- `UPDATE payment_orders SET ... WHERE id = ? AND test`: the new rows
abbrev pub update_row : Text → (Order → Bool) → (Order → Order) → List Order → List Order
update_row i test f [] = []
update_row i test f (o ∷ os) =
    if text_eq o.id i then (if test o then f o else o) ∷ os else o ∷ update_row i test f os

-- ... and whether a row changed
abbrev pub changed : Text → (Order → Bool) → List Order → Bool
changed i test os = elim (row i os) [ none ↦ false | some o ↦ test o ]

pub row-id : (i : Text) (os : List Order) (o : Order) → row i os ≡ some o → o.id ≡ i
row-id i [] o h = cc
row-id i (x ∷ os) o h = ground (arith, row-id i os o, text_eq_iff x.id i)

-- An update that its test refuses changes nothing.
pub update_row_refused :
    (i : Text) (test : Order → Bool) (f : Order → Order) (os : List Order)
    → changed i test os ≡ false
    → update_row i test f os ≡ os
update_row_refused i test f [] h = refl
update_row_refused i test f (x ∷ os) h = ground (arith, update_row_refused i test f os)

pub changed-row :
    (i : Text) (test : Order → Bool) (os : List Order)
    → changed i test os ≡ true
    → (o : Order) × (row i os ≡ some o) × (test o ≡ true)
changed-row i test os h = elim (Option-cases (row i os)) [
  | inl missing ↦ absurd (ground (arith, missing, h))
  | inr (o, found) ↦ (o, found, ground (arith, found, h))
]

pub All-update_row {κ} :
    (P : Order → Type κ) (i : Text) (test : Order → Bool) (f : Order → Order) (os : List Order)
    → ((o : Order) → test o ≡ true → P o → P (f o))
    → All P os
    → All P (update_row i test f os)
All-update_row P i test f [] keeps a = tt
All-update_row P i test f (x ∷ os) keeps a = elim (Bool-cases (text_eq x.id i)) [
  | inl here ↦ rw here (elim (Bool-cases (test x)) [
    | inl passes ↦ rw passes (keeps x passes a.0, a.1)
    | inr fails ↦ rw fails a
  ])
  | inr there ↦ rw there (a.0, All-update_row P i test f os keeps a.1)
]

module _ (i : Text) (test : Order → Bool) (f : Order → Order) where
  pub row-update_row_self :
      (os : List Order) (o : Order)
      → row i os ≡ some o
      → test o ≡ true
      → (f o).id ≡ o.id
      → row i (update_row i test f os) ≡ some (f o)
  row-update_row_self [] o h t p = cc
  row-update_row_self (x ∷ os) o h t p = elim (Bool-cases (text_eq x.id i)) [
    | inl here ↦
        let e : x ≡ o = ground (arith, h, here) in rw here (rw e (rw t (rw p (rw (← e) (rw here)))))
    | inr there ↦ rw there (rw there (row-update_row_self os o (ground (arith, h, there)) t p))
  ]

  pub row-update_row_ne :
      (j : Text) (os : List Order)
      → j ≢ i
      → ((o : Order) → (f o).id ≡ o.id)
      → row j (update_row i test f os) ≡ row j os
  row-update_row_ne j [] n p = refl
  row-update_row_ne j (x ∷ os) n p =
      ground (arith, p x, row-update_row_ne j os n p, text_eq_iff x.id i, text_eq_iff x.id j)
