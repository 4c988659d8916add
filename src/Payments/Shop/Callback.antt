-- ===== src/Payments/Shop/Callback.antt =====
-- The whole Click callback (`handle_click` of webapp/payments/shop.py), one call and any sequence.
use vakant.Prelude.{
  ◌≡◌, ◌≢◌, refl, ◌⊎◌, inl, inr, Bool, true, false, not, Option, none, some, List, [], ◌∷◌, arith,
  Bool-cases, ap, ◌∙◌, subst, sym,
}
use vakant.Prelude.Text.{Text, codes, text_eq}
use vakant.Db.{Db, Conn, Order, fresh, click, PaymentEvent}
use vakant.Db.Rows.{row, row-id, row-update_row_ne}
use vakant.Db.Exec.{Result, ok, err}
use vakant.Payments.Orders.{is_open, can_close, attachable, attach, cancel}
use vakant.Payments.Credit.{settle, with_bonus, any_order}
use vakant.Payments.Credit.Settle.{marked}
use vakant.Payments.Books.{IsBooked}
use vakant.Payments.Books.Settling.{
  with_row-IsBooked, open-unpaid, IsSettled-IsBooked, final_orders,
}
use vakant.Payments.Events.{record_payment_event, add_event}
use vakant.Payments.Shop.Runtime.{Python}
use vakant.Payments.Shop.{
  Params, Reply, Clock, click_bad_request, click_sign, click_code, reply_with, handle, caught,
  method_of, answered, get, get_text, is_complete, click_signature_valid, checked, handle_click,
}
use vakant.Payments.Shop.Answers.{Moved, same, bound, called_off, paid_up, Done, handle-Done}

pub Moved-IsBooked : {d d' : Db} → Moved d d' → IsBooked d → IsBooked d'
Moved-IsBooked (same e) h = rw e h
Moved-IsBooked {d} {d'} (bound now i txn time u) h =
    subst IsBooked (sym (ap (λ (c : Conn). c.live) u.result)) (
      with_row-IsBooked i (attachable txn) (attach now txn time) d
        (λ o t. (refl, refl, open-unpaid o.state (ground (arith, t)))) h)
Moved-IsBooked {d} {d'} (called_off now i time reason u) h =
    subst IsBooked (sym (ap (λ (c : Conn). c.live) u.result)) (
      with_row-IsBooked i can_close (cancel now time reason) d
        (λ o t. (refl, refl, open-unpaid o.state t)) h)
Moved-IsBooked {d} {d'} (paid_up now i time s) h = IsSettled-IsBooked now i time d (fresh d') s h

-- An open order is not one that is closed.
closed-ne :
    (i j : Text) (os : List Order) (o x : Order)
    → row i os ≡ some x
    → is_open x.state ≡ true
    → row j os ≡ some o
    → is_open o.state ≡ false
    → j ≢ i
closed-ne i j os o x found was_open there closed e =
    let twice : row i os ≡ some o = subst (λ k. row k os ≡ some o) e there in
    ground (arith, found, twice, was_open, closed)

-- A step leaves a paid or cancelled order as it is, for good.
pub Moved-closed :
    {d d' : Db} (j : Text) (o : Order)
    → Moved d d'
    → row j d.orders ≡ some o
    → is_open o.state ≡ false
    → row j d'.orders ≡ some o
Moved-closed j o (same e) there closed = rw e there
Moved-closed {d} {d'} j o (bound now i txn time u) there closed =
    subst (λ (c : Conn). row j c.live.orders ≡ some o) (sym u.result)
      (row-update_row_ne i (attachable txn) (attach now txn time) j d.orders
          (closed-ne i j d.orders o u.order u.found (ground (arith, u.passed)) there closed)
          (λ y. refl)
        ∙ there)
Moved-closed {d} {d'} j o (called_off now i time reason u) there closed =
    subst (λ (c : Conn). row j c.live.orders ≡ some o) (sym u.result)
      (row-update_row_ne i can_close (cancel now time reason) j d.orders
          (closed-ne i j d.orders o u.order u.found u.passed there closed) (λ y. refl)
        ∙ there)
Moved-closed {d} {d'} j o (paid_up now i time s) there closed =
    let x = s.order in
    let differs : j ≢ i = closed-ne i j d.orders o x s.found s.was_open there closed in
    let differs' : j ≢ x.id = λ e. differs (e ∙ row-id i d.orders x s.found) in
    subst (λ os. row j os ≡ some o) (sym (final_orders now i time d (fresh d') s))
      (row-update_row_ne x.id any_order (with_bonus s.credited.percent s.bonus) j
          (marked now i time d).orders differs' (λ y. refl)
        ∙ row-update_row_ne i can_close (settle now time) j d.orders differs (λ y. refl)
        ∙ there)

-- The trail does not touch the books.
pub add_event-IsBooked : (e : PaymentEvent) (d : Db) → IsBooked d → IsBooked (add_event e d)
add_event-IsBooked e d h = record {
  ledger = record { balanced = record { at = h.ledger.balanced.at }; ordered = h.ledger.ordered };
  topups = h.topups;
  bonuses = h.bonuses;
}

-- A connection with no open transaction whose tables are reached by one step of one order, and
-- perhaps one more row of the trail.
pub record IsAnswer (d : Db) (c : Conn) : Type 0 where
  pub tables : Db
  pub moved : Moved d tables
  pub outcome : (c ≡ fresh tables) ⊎ ((e : PaymentEvent) × (c ≡ fresh (add_event e tables)))

module _ (py : Python) (writable : Bool) (t : Clock) (p : Params) (d : Db) where
  trailed :
      (r : Reply) (tables : Db)
      → Moved d tables
      → IsAnswer d
          (record_payment_event writable t.now click
            (method_of p)
            (get (codes "merchant_trans_id") p)
            (get (codes "click_trans_id") p)
            (click_code r.error)
            (fresh tables)).1
  unfolding record_payment_event
  trailed r tables m = elim (Bool-cases writable) [
    | inl works ↦ rw works (record { tables = tables; moved = m; outcome = inr (_, refl) })
    | inr broken ↦ rw broken (record { tables = tables; moved = m; outcome = inl refl })
  ]

  caught-Moved :
      (out : Result Reply × Conn)
      → Done d out
      → (tables : Db) × ((caught py p out).1 ≡ fresh tables) × Moved d tables
  unfolding caught
  caught-Moved (ok r, c) done = done
  caught-Moved (err e, c) back = (d, ap (λ (x : Conn). record x { live = x.saved }) back, same refl)

  answered-IsAnswer : IsAnswer d (answered py writable t p (fresh d)).1
  unfolding answered
  answered-IsAnswer =
      let (tables, clean, moved) = caught-Moved (handle py t p (fresh d)) (handle-Done py t p d) in
      rw clean (trailed (caught py p (handle py t p (fresh d))).0 tables moved)

  checked-IsAnswer : (v : Result Bool) → IsAnswer d (checked py writable t p (fresh d) v).1
  checked-IsAnswer (err e) = record { tables = d; moved = same refl; outcome = inl refl }
  checked-IsAnswer (ok false) = record { tables = d; moved = same refl; outcome = inl refl }
  checked-IsAnswer (ok true) = answered-IsAnswer

  -- Without the credentials, the fields, the service id or the signature, nothing changes; with
  -- them at most one step of one order is made and committed, and the trail gains a row.
  pub handle_click-IsAnswer :
      (creds : Option (Text × Text)) → IsAnswer d (handle_click py creds writable t p (fresh d)).1
  unfolding handle_click
  handle_click-IsAnswer none = record { tables = d; moved = same refl; outcome = inl refl }
  handle_click-IsAnswer (some (service_id, secret)) =
      let untouched : IsAnswer d (fresh d) = record {
        tables = d;
        moved = same refl;
        outcome = inl refl;
      } in
      elim (Bool-cases (not (is_complete p))) [
        | inl partial ↦ rw partial untouched
        | inr whole ↦
            rw whole
              (elim (Bool-cases (not (text_eq (get_text (codes "service_id") p) service_id))) [
                | inl foreign ↦ rw foreign untouched
                | inr ours ↦ rw ours (checked-IsAnswer (click_signature_valid py p secret))
              ])
      ]

-- How a callback is turned away: with the error -8 or -1, or by what the check of the signature
-- raised.
abbrev pub IsTurnedAway : Python → Params → Text → Result Reply → Type 0
IsTurnedAway py p secret (ok r) = (r.error ≡ click_bad_request) ⊎ (r.error ≡ click_sign)
IsTurnedAway py p secret (err e) = click_signature_valid py p secret ≡ err e

checked-IsTurnedAway :
    (py : Python) (writable : Bool) (t : Clock) (p : Params) (secret : Text) (c : Conn)
    → (v : Result Bool) → click_signature_valid py p secret ≡ v
    → v ≢ ok true
    → ((checked py writable t p c v).1 ≡ c)
      × IsTurnedAway py p secret (checked py writable t p c v).0
unfolding reply_with
checked-IsTurnedAway py writable t p secret c (err e) says forged = (refl, says)
checked-IsTurnedAway py writable t p secret c (ok false) says forged = (refl, inr refl)
checked-IsTurnedAway py writable t p secret c (ok true) says forged = absurd (forged refl)

-- A callback whose signature does not hold changes nothing at all: it is answered with the error -8
-- or -1, or it fails with what the check of its signature raised.
pub handle_click_forged :
    (py : Python) (service_id secret : Text) (writable : Bool) (t : Clock) (p : Params) (c : Conn)
    → click_signature_valid py p secret ≢ ok true
    → ((handle_click py (some (service_id, secret)) writable t p c).1 ≡ c)
      × IsTurnedAway py p secret (handle_click py (some (service_id, secret)) writable t p c).0
unfolding handle_click reply_with
handle_click_forged py service_id secret writable t p c forged =
    elim (Bool-cases (not (is_complete p))) [
      | inl partial ↦ rw partial (refl, inl refl)
      | inr whole ↦
          rw whole (elim (Bool-cases (not (text_eq (get_text (codes "service_id") p) service_id))) [
            | inl foreign ↦ rw foreign (refl, inr refl)
            | inr ours ↦ rw ours (
                checked-IsTurnedAway py writable t p secret c (click_signature_valid py p secret)
                  refl forged)
          ])
    ]

-- A callback as it comes in: with the clock, and whether the trail can be written.
pub record Incoming : Type 0 where
  pub writable : Bool
  pub clock : Clock
  pub params : Params

-- The tables after a sequence of callbacks, each on a connection of its own.
pub callbacks : Python → Option (Text × Text) → List Incoming → Db → Db
callbacks py creds [] d = d
callbacks py creds (x ∷ xs) d =
    callbacks py creds xs (handle_click py creds x.writable x.clock x.params (fresh d)).1.live

IsAnswer-IsBooked : (d : Db) (c : Conn) → IsAnswer d c → IsBooked d → IsBooked c.live
IsAnswer-IsBooked d c a h = elim a.outcome [
  | inl e ↦ rw e (Moved-IsBooked a.moved h)
  | inr (x, e) ↦ rw e (add_event-IsBooked x a.tables (Moved-IsBooked a.moved h))
]

IsAnswer-closed :
    (d : Db) (c : Conn) (j : Text) (o : Order)
    → IsAnswer d c
    → row j d.orders ≡ some o
    → is_open o.state ≡ false
    → row j c.live.orders ≡ some o
IsAnswer-closed d c j o a there closed = elim a.outcome [
  | inl e ↦ rw e (Moved-closed j o a.moved there closed)
  | inr (x, e) ↦ rw e (Moved-closed j o a.moved there closed)
]

module _ (py : Python) (creds : Option (Text × Text)) where
  -- Whatever Click, or anyone else, sends, from tables whose books are in order: every user's top-ups and bonuses in the ledger stay
  -- those of the user's paid orders, and every balance stays the sum of its rows.
  pub callbacks-IsBooked :
      (xs : List Incoming) (d : Db) → IsBooked d → IsBooked (callbacks py creds xs d)
  unfolding callbacks
  callbacks-IsBooked [] d h = h
  callbacks-IsBooked (x ∷ xs) d h =
      callbacks-IsBooked xs _
        (IsAnswer-IsBooked d _ (handle_click-IsAnswer py x.writable x.clock x.params d creds) h)

  -- A paid or cancelled order is final under any sequence of callbacks.
  pub callbacks-closed :
      (xs : List Incoming) (d : Db) (j : Text) (o : Order)
      → row j d.orders ≡ some o
      → is_open o.state ≡ false
      → row j (callbacks py creds xs d).orders ≡ some o
  unfolding callbacks
  callbacks-closed [] d j o there closed = there
  callbacks-closed (x ∷ xs) d j o there closed =
      callbacks-closed xs _ j o
        (IsAnswer-closed d _ j o (handle_click-IsAnswer py x.writable x.clock x.params d creds)
          there closed)
        closed
