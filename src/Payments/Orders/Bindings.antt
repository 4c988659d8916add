-- ===== src/Payments/Orders/Bindings.antt =====
-- `attach_transaction` of webapp/payments/service.py, in terms of the rows: which order it binds, and
-- what it leaves.
use vakant.Prelude.{
  ℕ, ◌≡◌, ◌≢◌, refl, ◌⊎◌, inl, inr, Bool, true, false, not, ◌&&◌, ◌||◌, Option, none, some, List,
  [], ◌∷◌, All, or_default, Bool-cases, subst, Option-cases, ap, sym, ◌∙◌, is_none,
}
use vakant.Prelude.Text.{Text, text_eq, text_eq_iff, text_eq_refl}
use vakant.Db.{
  Db, Conn, Order, Provider, click, paynet, State, created, pending, paid, cancelled, fresh,
}
use vakant.Db.Rows.{row, update_row, row-update_row_self, row-update_row_ne}
use vakant.Db.Exec.{Result, ok, err}
use vakant.Payments.Orders.{
  same_provider, is_open, is_paid, is_cancelled, text_is, taken, find_order, attachable, attach,
  closed_under, attach_clashes, attach_transaction,
}
use vakant.Payments.Orders.States.{IsUpdated, Attaches, attach_transaction-Attaches}

-- The order is bound: it was open, and bound to no other transaction; no other order of its provider
-- has this one; it is pending under it now, with its first prepare id, and committed; the other
-- orders and the other tables are as they were.
pub record IsBound (now : ℕ) (i txn : Text) (time : ℕ) (d : Db) (c' : Conn) : Type 0 where
  pub before : Order
  pub found : row i d.orders ≡ some before
  pub was_open : (before.state ≡ created) ⊎ (before.state ≡ pending)
  pub was_free : (before.provider_txn ≡ none) ⊎ (before.provider_txn ≡ some txn)
  pub alone :
      All (λ x. (x.id ≡ i) ⊎ (x.provider ≢ before.provider) ⊎ (x.provider_txn ≢ some txn)) d.orders
  pub after :
      row i c'.saved.orders
      ≡ some (record before {
        provider_txn = some txn;
        state = pending;
        create_time = time;
        prepare_id = some (or_default before.seq before.prepare_id);
        updated_at = now;
      })
  pub others : (j : Text) → (j ≡ i) ⊎ (row j c'.saved.orders ≡ row j d.orders)
  pub committed : c' ≡ fresh (record d { orders = c'.saved.orders })

-- The order was closed under the transaction before, and nothing has changed.
pub record WasBound (i txn : Text) (d : Db) (c' : Conn) : Type 0 where
  pub order : Order
  pub found : find_order i d ≡ some order
  pub closed : (order.state ≡ paid) ⊎ (order.state ≡ cancelled)
  pub under : order.provider_txn ≡ some txn
  pub same : c' ≡ fresh d

-- What a call has done, by its answer.
abbrev pub Binds : ℕ → Text → Text → ℕ → Db → Result Bool × Conn → Type 0
Binds now i txn time d (ok true, c') = IsBound now i txn time d c' ⊎ WasBound i txn d c'
Binds now i txn time d (ok false, c') = c' ≡ fresh d
Binds now i txn time d (err e, c') = ⊥

open_state : (s : State) → is_open s ≡ true → (s ≡ created) ⊎ (s ≡ pending)
open_state created h = inl refl
open_state pending h = inr refl
open_state paid h = cc
open_state cancelled h = cc

closed_state : (s : State) → (is_paid s || is_cancelled s) ≡ true → (s ≡ paid) ⊎ (s ≡ cancelled)
closed_state created h = cc
closed_state pending h = cc
closed_state paid h = inl refl
closed_state cancelled h = inr refl

text_is-some : (o : Option Text) (t : Text) → text_is o t ≡ true → o ≡ some t
text_is-some none t h = cc
text_is-some (some s) t h = ap some ((text_eq_iff s t).0 h)

free_txn :
    (o : Option Text) (t : Text) → (is_none o || text_is o t) ≡ true → (o ≡ none) ⊎ (o ≡ some t)
free_txn none t h = inl refl
free_txn (some s) t h = inr (text_is-some (some s) t h)

same_provider_refl : (p : Provider) → same_provider p p ≡ true
same_provider_refl click = refl
same_provider_refl paynet = refl

-- The parts of a conjunction.
and_parts : (a b : Bool) → (a && b) ≡ true → (a ≡ true) × (b ≡ true)
and_parts true true h = (refl, refl)
and_parts true false h = cc
and_parts false b h = cc

other_provider : (a p : Provider) → same_provider a p ≡ false → a ≢ p
other_provider a p differs e =
    let same = subst (λ x. same_provider x p ≡ false) e differs in
    absurd (apart (sym (same_provider_refl p) ∙ same))
  where
    apart : true ≡ false → ⊥
    apart h = cc

other_text : (o : Option Text) (t : Text) → text_is o t ≡ false → o ≢ some t
other_text o t differs e =
    let same = subst (λ x. text_is x t ≡ false) e differs in
    absurd (apart (sym (text_eq_refl t) ∙ same))
  where
    apart : true ≡ false → ⊥
    apart h = cc

-- How a row stays clear of the unique index.
clear_of : (a b c : Bool) → (a && b && not c) ≡ false → (a ≡ false) ⊎ ((b ≡ false) ⊎ (c ≡ true))
clear_of false b c h = inl refl
clear_of true false c h = inr (inl refl)
clear_of true true true h = inr (inr refl)
clear_of true true false h = cc

taken-alone :
    (p : Provider) (txn i : Text) (os : List Order)
    → taken p txn i os ≡ false
    → All (λ x. (x.id ≡ i) ⊎ (x.provider ≢ p) ⊎ (x.provider_txn ≢ some txn)) os
unfolding taken
taken-alone p txn i [] h = tt
taken-alone p txn i (x ∷ os) h = elim (Bool-cases (clashes x)) [
  | inl hit ↦ absurd (apart (rw hit at h))
  | inr miss ↦ (
    elim (clear_of (same_provider x.provider p) (text_is x.provider_txn txn) (text_eq x.id i)
        miss) [
          | inl other ↦ inr (inl (other_provider x.provider p other))
          | inr (inl free) ↦ inr (inr (other_text x.provider_txn txn free))
          | inr (inr same) ↦ inl ((text_eq_iff x.id i).0 same)
        ],
    taken-alone p txn i os (rw miss at h),
  )
]
  where
    clashes : Order → Bool
    clashes y = same_provider y.provider p && text_is y.provider_txn txn && not (text_eq y.id i)

    apart : true ≡ false → ⊥
    apart e = cc

module _ (now : ℕ) (i txn : Text) (time : ℕ) (d : Db) where
  updated-IsBound :
      (c' : Conn)
      → IsUpdated i (attachable txn) (attach now txn time) d c'
      → attach_clashes i txn d ≡ false
      → IsBound now i txn time d c'
  updated-IsBound c' u free =
      let (opened, unbound) = and_parts _ _ u.passed in
      let untaken : taken u.order.provider txn i d.orders ≡ false =
        rw u.passed at (rw (u.found, attach_clashes) at free) in
      let rows : c'.saved.orders ≡ update_row i (attachable txn) (attach now txn time) d.orders =
        ap (λ c. c.saved.orders) u.result in
      record {
        before = u.order;
        found = u.found;
        was_open = open_state u.order.state opened;
        was_free = free_txn u.order.provider_txn txn unbound;
        alone = taken-alone u.order.provider txn i d.orders untaken;
        after =
            ap (row i) rows
            ∙ row-update_row_self i (attachable txn) (attach now txn time) d.orders u.order u.found
                u.passed refl;
        others = λ j. elim (Bool-cases (text_eq j i)) [
          | inl same ↦ inl ((text_eq_iff j i).0 same)
          | inr differs ↦
              let other : j ≢ i = λ e. other_text (some j) i differs (ap some e) in
              inr (
                ap (row j) rows
                ∙ row-update_row_ne i (attachable txn) (attach now txn time) j d.orders other
                    (λ x. refl))
        ];
        committed = u.result ∙ ap (λ os. fresh (record d { orders = os })) (sym rows);
      }

  closed-WasBound :
      (c' : Conn) → c' ≡ fresh d → closed_under txn (find_order i d) ≡ true → WasBound i txn d c'
  closed-WasBound c' same h = elim (Option-cases (find_order i d)) [
    | inl missing ↦ absurd (apart (rw missing at h))
    | inr (o, found) ↦
        let (done, under) = and_parts _ _ (rw found at h) in
        record {
          order = o;
          found = found;
          closed = closed_state o.state done;
          under = text_is-some o.provider_txn txn under;
          same = same;
        }
  ]
    where
      apart : false ≡ true → ⊥
      apart e = cc

  attach-Binds :
      (r : Result Bool) (c' : Conn)
      → Attaches now i txn time d (r, c')
      → Binds now i txn time d (r, c')
  attach-Binds (ok true) c' (inl (u, free)) = inl (updated-IsBound c' u free)
  attach-Binds (ok true) c' (inr (same, h)) = inr (closed-WasBound c' same h)
  attach-Binds (ok false) c' h = h
  attach-Binds (err e) c' h = h

  -- Whatever is in the tables, a call that says yes has bound the order: it was open, bound to no
  -- other transaction, and no other order of its provider had this one; it is pending under it,
  -- with its first prepare id, and committed, and the other orders and tables are as they were. Or
  -- the order was paid or cancelled under this transaction already, and nothing changed. A call
  -- that says no changes nothing.
  pub attach_transaction-Binds :
      Binds now i txn time d (attach_transaction now i txn time (fresh d))
  attach_transaction-Binds = attach-Binds _ _ (attach_transaction-Attaches now i txn time d)
