-- ===== src/Ledger/Page.antt =====
-- The cursor of `list_transactions` (webapp/core/ledger.py): pages neither overlap nor skip rows.
use vakant.Prelude.{
  ℕ, zero, suc, ◌+◌, ◌≤◌, ◌<◌, ◌≡◌, refl, ap, ◌∙◌, Bool, true, ◌&&◌, Option, none, some, List, [],
  ◌∷◌, ◌==◌, arith, Bool-cases, inl, inr, All, keep, take, drop, length, length-take, ltb,
}
use vakant.Prelude.Int.{ℤ}
use vakant.Db.{Tx, Db}
use vakant.Ledger.{page_size, listed, list_transactions}
use vakant.Ledger.Balance.{Descends, IsOrdered}

-- The last row of a page, whose id is the next cursor.
abbrev pub last : List Tx → Option Tx
last [] = none
last (t ∷ []) = some t
last (t ∷ (s ∷ ts)) = last (s ∷ ts)

abbrev below : ℕ → Tx → Bool
below b t = ltb t.id b

Descends-weaken : {a b : ℕ} (ts : List Tx) → a ≤ b → Descends a ts → Descends b ts
Descends-weaken [] h d = tt
Descends-weaken (t ∷ ts) h d = (omega arith, d.1, d.2)

Descends-keep :
    (p : Tx → Bool) (top : ℕ) (ts : List Tx) → Descends top ts → Descends top (keep p ts)
Descends-keep p top [] d = tt
Descends-keep p top (t ∷ ts) d = elim (Bool-cases (p t)) [
  | inl yes' ↦ rw yes' (d.0, d.1, Descends-keep p t.id ts d.2)
  | inr no' ↦ rw no' (Descends-weaken (keep p ts) (omega arith) (Descends-keep p t.id ts d.2))
]

keep-below_all : (b : ℕ) (ts : List Tx) → Descends b ts → keep (below b) ts ≡ ts
keep-below_all b [] d = refl
keep-below_all b (t ∷ ts) d =
    ground (arith, keep-below_all b ts (Descends-weaken ts (omega arith) d.2))

last-lt :
    (top n : ℕ) (ts : List Tx) (t : Tx) → Descends top ts → last (take n ts) ≡ some t → t.id < top
last-lt top zero ts t d e = cc
last-lt top (suc n) [] t d e = cc
last-lt top (suc zero) (x ∷ ts) t d e = ground arith
last-lt top (suc (suc n)) (x ∷ []) t d e = ground arith
last-lt top (suc (suc n)) (x ∷ (y ∷ ts)) t d e =
    omega (arith, last-lt x.id (suc n) (y ∷ ts) t d.2 e)

-- What lies below the last row of the first `n` is what follows them.
keep-below-last :
    (top n : ℕ) (ts : List Tx) (t : Tx)
    → Descends top ts
    → last (take n ts) ≡ some t
    → keep (below t.id) ts ≡ drop n ts
keep-below-last top zero ts t d e = cc
keep-below-last top (suc n) [] t d e = cc
keep-below-last top (suc zero) (x ∷ ts) t d e = ground (arith, e, keep-below_all x.id ts d.2)
keep-below-last top (suc (suc n)) (x ∷ []) t d e = ground arith
keep-below-last top (suc (suc n)) (x ∷ (y ∷ ts)) t d e =
    ground
      (arith, last-lt x.id (suc n) (y ∷ ts) t d.2 e, keep-below-last x.id (suc n) (y ∷ ts) t d.2 e)

last-keep :
    (p : Tx → Bool) (n : ℕ) (ts : List Tx) (t : Tx)
    → All (λ x. p x ≡ true) ts
    → last (take n ts) ≡ some t
    → p t ≡ true
last-keep p zero ts t a e = cc
last-keep p (suc n) [] t a e = cc
last-keep p (suc zero) (x ∷ ts) t a e = ground (arith, a.0)
last-keep p (suc (suc n)) (x ∷ []) t a e = ground (arith, a.0)
last-keep p (suc (suc n)) (x ∷ (y ∷ ts)) t a e = last-keep p (suc n) (y ∷ ts) t a.1 e

All-keep : (p : Tx → Bool) (ts : List Tx) → All (λ x. p x ≡ true) (keep p ts)
All-keep p [] = tt
All-keep p (t ∷ ts) = elim (Bool-cases (p t)) [
  | inl passes ↦ rw passes (passes, All-keep p ts)
  | inr fails ↦ rw fails (All-keep p ts)
]

last_pos :
    (top n : ℕ) (ts : List Tx) (t : Tx) → Descends top ts → last (take n ts) ≡ some t → 0 < t.id
last_pos top zero ts t d e = cc
last_pos top (suc n) [] t d e = cc
last_pos top (suc zero) (x ∷ ts) t d e = ground (arith, d.1)
last_pos top (suc (suc n)) (x ∷ []) t d e = ground (arith, d.1)
last_pos top (suc (suc n)) (x ∷ (y ∷ ts)) t d e = last_pos x.id (suc n) (y ∷ ts) t d.2 e

-- A cursor taken from a listed row narrows the listing to the rows below it.
listed_cursor :
    (k : ℕ) (before : Option ℕ) (t x : Tx)
    → 0 < t.id
    → listed k before t ≡ true
    → listed k (some t.id) x ≡ (listed k before x && below t.id x)
listed_cursor k none t x h l = ground (arith, h, l)
listed_cursor k (some b) t x h l = ground (arith, h, l)

keep-keep :
    (p q r : Tx → Bool) (ts : List Tx)
    → ((x : Tx) → r x ≡ (p x && q x))
    → keep r ts ≡ keep q (keep p ts)
keep-keep p q r [] h = refl
keep-keep p q r (t ∷ ts) h = ground (arith, h t, keep-keep p q r ts h)

-- In an ordered ledger, the page asked for with the last id of a page as its cursor holds exactly
-- the rows that follow that page: none is listed twice and none is skipped.
pub list_transactions_next :
    (k : ℕ) (before : Option ℕ) (limit limit' : ℤ) (d : Db) (t : Tx)
    → IsOrdered d
    → last (list_transactions k before limit d) ≡ some t
    → list_transactions k (some t.id) limit' d
      ≡ take (page_size limit') (drop (page_size limit) (keep (listed k before) d.txs))
unfolding list_transactions
list_transactions_next k before limit limit' d t o e =
    let rows = keep (listed k before) d.txs in
    let sorted = Descends-keep (listed k before) (d.tx_seq + 1) d.txs o in
    ap (take (page_size limit')) (
      keep-keep (listed k before) (below t.id) (listed k (some t.id)) d.txs (λ x.
        listed_cursor k before t x (last_pos _ (page_size limit) rows t sorted e) (
          last-keep (listed k before) (page_size limit) rows t (All-keep (listed k before) d.txs)
            e))
      ∙ keep-below-last (d.tx_seq + 1) (page_size limit) rows t sorted e)

All-take {κ} : (P : Tx → Type κ) (n : ℕ) (ts : List Tx) → All P ts → All P (take n ts)
All-take P zero ts a = tt
All-take P (suc n) [] a = tt
All-take P (suc n) (t ∷ ts) a = (a.0, All-take P n ts a.1)

own_rows :
    (k : ℕ) (before : Option ℕ) (ts : List Tx)
    → All (λ x. x.user_id ≡ k) (keep (listed k before) ts)
own_rows k before [] = tt
own_rows k before (t ∷ ts) = elim (Bool-cases (t.user_id == k)) [
  | inl mine ↦ ground (arith, mine, own_rows k before ts)
  | inr other ↦ rw other (own_rows k before ts)
]

-- Whatever limit is asked for, a page has at most 50 rows, all of them the user's own.
pub list_transactions_own :
    (k : ℕ) (before : Option ℕ) (limit : ℤ) (d : Db)
    → (length (list_transactions k before limit d) ≤ 50)
      × All (λ x. x.user_id ≡ k) (list_transactions k before limit d)
unfolding list_transactions
list_transactions_own k before limit d =
    let rows = keep (listed k before) d.txs in
    (
      omega (arith, length-take (page_size limit) rows),
      All-take (λ x. x.user_id ≡ k) (page_size limit) rows (own_rows k before d.txs),
    )
