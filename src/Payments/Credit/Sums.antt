-- ===== src/Payments/Credit/Sums.antt =====
-- Sums over the rows of a user, and what one move or one updated order does to them.
use vakant.Prelude.{
  ℕ, ◌+◌, ◌≡◌, refl, Bool, true, false, ◌&&◌, some, List, [], ◌∷◌, inl, inr, arith, ◌==◌,
  if◌then◌else◌, Bool-cases, ap, sym, ◌∙◌,
}
use vakant.Prelude.Int.{ℤ, pos, ◌+ℤ◌, +ℤ_comm, int_laws}
use vakant.Prelude.Text.{Text, text_eq}
use vakant.Db.{Db, Tx, Order, Kind}
use vakant.Db.Rows.{row, update_row}
use vakant.Ledger.{kind_code}
use vakant.Ledger.Moves.{IsMove}
use vakant.Payments.Orders.{is_paid}

-- `SUM(f)` over the orders of a user.
abbrev pub order_sum : (Order → ℕ) → ℕ → List Order → ℕ
order_sum f k [] = 0
order_sum f k (o ∷ os) = (if o.user_id == k then f o else 0) + order_sum f k os

abbrev pub paid_amount : Order → ℕ
paid_amount o = if is_paid o.state then o.amount_soum else 0

abbrev pub paid_bonus : Order → ℕ
paid_bonus o = if is_paid o.state then o.bonus_amount else 0

-- `SUM(amount)` over the ledger rows of a user and a kind.
abbrev pub kind_sum : Kind → ℕ → List Tx → ℤ
kind_sum q k [] = pos 0
kind_sum q k (t ∷ ts) =
    (if (t.user_id == k) && (kind_code t.kind == kind_code q) then t.amount else pos 0)
    +ℤ kind_sum q k ts

module _ (f : Order → ℕ) (k : ℕ) (i : Text) (test : Order → Bool) (g : Order → Order) where
  pub order_sum-update_row :
      (os : List Order) (o : Order)
      → row i os ≡ some o
      → test o ≡ true
      → (g o).user_id ≡ o.user_id
      → order_sum f k (update_row i test g os) + (if o.user_id == k then f o else 0)
        ≡ order_sum f k os + (if o.user_id == k then f (g o) else 0)
  order_sum-update_row [] o h t p = cc
  order_sum-update_row (x ∷ os) o h t p = elim (Bool-cases (text_eq x.id i)) [
    | inl here ↦
        let e : x ≡ o = ground (arith, h, here) in rw here (rw e (rw t (rw p (omega arith))))
    | inr there ↦ rw there (omega (arith, order_sum-update_row os o (ground (arith, h, there)) t p))
  ]

  -- Where an update cannot change what is summed, it changes no sum.
  pub order_sum-update_row_same :
      (os : List Order)
      → ((o : Order) → test o ≡ true → ((g o).user_id ≡ o.user_id) × (f (g o) ≡ f o))
      → order_sum f k (update_row i test g os) ≡ order_sum f k os
  order_sum-update_row_same [] same = refl
  order_sum-update_row_same (x ∷ os) same = elim (Bool-cases (text_eq x.id i)) [
    | inl here ↦ rw here (elim (Bool-cases (test x)) [
      | inl passes ↦ rw passes (rw (same x passes).1 (rw (same x passes).0))
      | inr fails ↦ rw fails
    ])
    | inr there ↦ rw there (omega (arith, order_sum-update_row_same os same))
  ]

-- One move adds its amount to the sum of its user and kind, and to no other.
pub kind_sum-IsMove :
    (q : Kind) (j k : ℕ) {kind : Kind} {amount : ℤ} {d d' : Db}
    → IsMove k kind amount d d'
    → kind_sum q j d'.txs
      ≡ kind_sum q j d.txs
        +ℤ (if (k == j) && (kind_code kind == kind_code q) then amount else pos 0)
kind_sum-IsMove q j k {kind} {amount} {d = d} m = rw m.rows (
    rw m.owner (
      rw m.row_kind (
        rw m.row_amount (
          +ℤ_comm (if (k == j) && (kind_code kind == kind_code q) then amount else pos 0)
            (kind_sum q j d.txs)))))

add_zero : (a : ℤ) → a +ℤ pos 0 ≡ a
add_zero a = omega int_laws

pub kind_sum-own :
    (q : Kind) (j k n : ℕ) {d d' : Db}
    → IsMove k q (pos n) d d'
    → kind_sum q j d'.txs ≡ kind_sum q j d.txs +ℤ pos (if k == j then n else 0)
kind_sum-own q j k n {d = d} m =
    kind_sum-IsMove q j k m ∙ ap (λ a. kind_sum q j d.txs +ℤ a) (both (k == j) (kind_code q))
  where
    both : (b : Bool) (c : ℕ) → (if b && (c == c) then pos n else pos 0) ≡ pos (if b then n else 0)
    both b c = ground arith

pub kind_sum-other :
    (q : Kind) (j k : ℕ) {kind : Kind} {amount : ℤ} {d d' : Db}
    → (kind_code kind == kind_code q) ≡ false
    → IsMove k kind amount d d'
    → kind_sum q j d'.txs ≡ kind_sum q j d.txs
kind_sum-other q j k {kind} {amount} {d = d} h m =
    kind_sum-IsMove q j k m
    ∙ ap (λ a. kind_sum q j d.txs +ℤ a) (neither (k == j) (kind_code kind == kind_code q) h)
    ∙ add_zero (kind_sum q j d.txs)
  where
    neither : (b c : Bool) → c ≡ false → (if b && c then amount else pos 0) ≡ pos 0
    neither b c e = ground (arith, e)

pub kind_sum-none :
    (q : Kind) (k : ℕ) (ts : List Tx) (b : Bool) (n : ℕ)
    → n ≡ 0
    → kind_sum q k ts ≡ kind_sum q k ts +ℤ pos (if b then n else 0)
kind_sum-none q k ts b n h =
    sym (ap (λ a. kind_sum q k ts +ℤ pos a) (ground (arith, h)) ∙ add_zero (kind_sum q k ts))
