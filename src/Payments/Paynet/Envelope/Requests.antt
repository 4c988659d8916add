-- ===== src/Payments/Paynet/Envelope/Requests.antt =====
-- The whole Paynet endpoint (`handle_request` of webapp/payments/paynet.py), one request and any
-- sequence, with the Click callbacks between them.
use vakant.Prelude.{
  ℕ, ◌≡◌, refl, ◌⊎◌, inl, inr, Bool, true, false, not, Option, none, some, List, [], ◌∷◌,
  Bool-cases, Option-cases, if◌then◌else◌, ap, All,
}
use vakant.Prelude.Text.{Text, codes, text_eq}
use vakant.Db.{Db, Conn, fresh, paynet, PaymentEvent}
use vakant.Payments.Paynet.Methods.Reads.{
  get_information-Reads, check_transaction-Reads, cancel_transaction-Reads, get_statement-Reads,
}
use vakant.Db.Exec.{rpc_error, method_not_allowed, Result, ok, err, Exec, Reads}
use vakant.Payments.Orders.States.{IsOrderId}
use vakant.Payments.Books.{IsBooked}
use vakant.Payments.Events.{record_payment_event, add_event}
use vakant.Payments.Shop.{Clock}
use vakant.Payments.Shop.Callback.{add_event-IsBooked}
use vakant.Payments.Paynet.Document.{Members}
use vakant.Payments.Paynet.{PaynetConfig, Clockwork}
use vakant.Payments.Paynet.Access.{Encodings, authorized, AuthFails, auth_blocked}
use vakant.Payments.Paynet.Methods.{Answer, performed}
use vakant.Payments.Paynet.Methods.Performs.{IsPerformed}
use vakant.Payments.Paynet.Methods.Twice.{Performs, perform_transaction-Performs}
use vakant.Payments.Paynet.Books.{IsPerformed-IsBooked}
use vakant.Payments.Paynet.Envelope.{
  Body, Outcome, request_of, handler, call_method, dispatch, caught, code_of, Request, Response,
  answered, failure, serve, configured, handle_request, too_large, malformed, parsed,
}

-- One step of the tables under a Paynet call: none, or one performed transaction.
pub data Paid (d : Db) (d' : Db) : Type 0 where
  same : d' ≡ d → Paid d d'
  performed_one :
      (t : Clock) (i : Text) (txn k amount : ℕ)
      → IsPerformed t i txn k amount d (fresh d')
      → Paid d d'

pub Paid-IsBooked : {d d' : Db} → Paid d d' → IsBooked d → IsBooked d'
Paid-IsBooked (same e) h = rw e h
Paid-IsBooked {d} {d'} (performed_one t i txn k amount p) h =
    IsPerformed-IsBooked t i txn k amount d (fresh d') p h

-- The connection is left with no open transaction.
abbrev pub Left : Db → Conn → Type 0
Left d c = (d' : Db) × (c ≡ fresh d') × Paid d d'

IsPerformed-fresh :
    {t : Clock} {i : Text} {txn k amount : ℕ} {d : Db} {c : Conn}
    → IsPerformed t i txn k amount d c
    → IsPerformed t i txn k amount d (fresh c.live)
IsPerformed-fresh p = record {
  payer = p.payer;
  bonus = p.bonus;
  was_new = p.was_new;
  there = p.there;
  not_banned = p.not_banned;
  free_id = p.free_id;
  credited = p.credited;
  committed = refl;
}

Performs-Left :
    (t : Clock) (i : Text) (params : Members) (d : Db) (out : Result Answer × Conn)
    → Performs t i params d out
    → Left d out.1
Performs-Left t i params d (ok (performed s trn payer balance), c) (txn, k, amount, e, f, p, g) =
    (c.live, p.committed, performed_one t i txn k amount (IsPerformed-fresh p))
Performs-Left t i params d (err e, c) back = (d, back, same refl)
Performs-Left t i params d (ok _, c) x = absurd x

Reads-Left : (m : Exec Answer) → Reads m → (d : Db) → Left d (m (fresh d)).1
Reads-Left m reads d = (d, reads (fresh d), same refl)

-- An authorized call leaves one step of the tables, committed, and perhaps a row of the trail.
pub record IsServed (d : Db) (c : Conn) : Type 0 where
  pub tables : Db
  pub paid : Paid d tables
  pub outcome : (c ≡ fresh tables) ⊎ ((e : PaymentEvent) × (c ≡ fresh (add_event e tables)))

untouched : (d : Db) → IsServed d (fresh d)
untouched d = record { tables = d; paid = same refl; outcome = inl refl }

module _ (py : Clockwork) (cfg : PaynetConfig) (t : Clock) (locked : Bool) (i : Text)
    (good : IsOrderId i) (d : Db) where
  -- Whatever the method asked for.
  method-Left :
      (name : Text) (params : Members)
      → Left d (call_method py cfg t locked i name params (fresh d)).1
  unfolding call_method handler
  method-Left name params = elim (Bool-cases (text_eq name (codes "GetInformation"))) [
    | inl a ↦
        rw (a, call_method, handler) (d, get_information-Reads py cfg params (fresh d) t, same refl)
    | inr a ↦
        rw (a, call_method, handler)
          (elim (Bool-cases (text_eq name (codes "PerformTransaction"))) [
            | inl b ↦ rw b (
                Performs-Left t i params d _
                  (perform_transaction-Performs py cfg t locked i params d good))
            | inr b ↦ rw b (elim (Bool-cases (text_eq name (codes "CheckTransaction"))) [
              | inl e ↦ rw e (d, check_transaction-Reads py cfg params (fresh d) t, same refl)
              | inr e ↦ rw e (elim (Bool-cases (text_eq name (codes "CancelTransaction"))) [
                | inl f ↦ rw f (d, cancel_transaction-Reads py cfg params (fresh d) t, same refl)
                | inr f ↦ rw f (elim (Bool-cases (text_eq name (codes "GetStatement"))) [
                  | inl g ↦ rw g (d, get_statement-Reads py cfg params (fresh d), same refl)
                  | inr g ↦ rw g (d, refl, same refl)
                ])
              ])
            ])
          ])
  ]

  dispatch-Left : (body : Body) → Left d (dispatch py cfg t locked i body (fresh d)).1
  unfolding dispatch
  dispatch-Left too_large = (d, refl, same refl)
  dispatch-Left malformed = (d, refl, same refl)
  dispatch-Left (parsed doc) = elim (Option-cases (request_of doc)) [
    | inl invalid ↦ rw (invalid, dispatch) (d, refl, same refl)
    | inr ((name, params), valid) ↦ rw (valid, dispatch) (method-Left name params)
  ]

caught-Left : (d : Db) (out : Result Answer × Conn) → Left d out.1 → Left d (caught out).1
unfolding caught
caught-Left d (ok a, c) l = l
caught-Left d (err (rpc_error code), c) l = l
caught-Left d (err e, c) (d', clean, paid) =
    (d', ap (λ (x : Conn). record x { live = x.saved }) clean, paid)

module _ (en : Encodings) (py : Clockwork) (r : Request) (good : IsOrderId r.order_id)
    (d : Db) where
  trailed :
      (method : Text) (out : Outcome) (c : Conn)
      → Left d c
      → IsServed d
          (record_payment_event r.writable r.clock.now paynet method r.noted.0 r.noted.1
            (code_of out)
            c).1
  unfolding record_payment_event
  trailed method out c (d', clean, paid) = elim (Bool-cases r.writable) [
    | inl works ↦ rw works (rw clean (record { tables = d'; paid = paid; outcome = inr (_, refl) }))
    | inr broken ↦ rw broken (rw clean (record { tables = d'; paid = paid; outcome = inl refl }))
  ]

  serve-IsServed : (cfg : PaynetConfig) → IsServed d (serve en py cfg r (fresh d)).1
  unfolding serve
  serve-IsServed cfg =
      let out = dispatch py cfg r.clock r.locked r.order_id r.body (fresh d) in
      trailed _ (caught out).0 (caught out).1
        (caught-Left d out (dispatch-Left py cfg r.clock r.locked r.order_id good d r.body))

  configured-IsServed :
      (settings : Option PaynetConfig) (fails : AuthFails)
      → IsServed d (configured en py settings r fails (fresh d)).1
  unfolding configured
  configured-IsServed none fails = untouched d
  configured-IsServed (some cfg) fails = elim (Bool-cases (auth_blocked r.ip r.started fails).0) [
    | inl blocked ↦ rw blocked (untouched d)
    | inr allowed ↦ rw allowed (elim (Bool-cases (authorized en r.authorization cfg)) [
      | inr refused ↦ rw refused (untouched d)
      | inl welcome ↦ rw welcome (serve-IsServed cfg)
    ])
  ]

  -- Whoever calls, under an order id as `uuid4` writes it, a request makes at most one step of the tables, a performed transaction, and
  -- commits it whole, with at most one row of the trail.
  pub handle_request-IsServed :
      (settings : Option PaynetConfig) (fails : AuthFails)
      → IsServed d (handle_request en py settings r fails (fresh d)).1
  unfolding handle_request
  handle_request-IsServed settings fails =
      by_method (answered none (failure method_not_allowed), fails)
        (configured en py settings r fails (fresh d)) r.is_post (configured-IsServed settings fails)
    where
      by_method :
          (x : Response × AuthFails) (y : (Response × AuthFails) × Conn) (b : Bool)
          → IsServed d y.1
          → IsServed d (if not b then (x, fresh d) else y).1
      by_method x y true s = s
      by_method x y false s = untouched d

-- A sequence of requests, each on a connection of its own, with the failures that are remembered.
pub requests :
    Encodings → Clockwork → Option PaynetConfig → List Request → AuthFails × Db → AuthFails × Db
requests en py settings [] (fails, d) = (fails, d)
requests en py settings (r ∷ rs) (fails, d) =
    let ((_, fails'), c) = handle_request en py settings r fails (fresh d) in
    requests en py settings rs (fails', c.live)

IsServed-IsBooked : (d : Db) (c : Conn) → IsServed d c → IsBooked d → IsBooked c.live
IsServed-IsBooked d c s h = elim s.outcome [
  | inl e ↦ rw e (Paid-IsBooked s.paid h)
  | inr (x, e) ↦ rw e (add_event-IsBooked x s.tables (Paid-IsBooked s.paid h))
]

-- Whatever is sent to the Paynet endpoint, under order ids as `uuid4` writes them, and from tables
-- whose books are in order: every user's
-- top-ups and bonuses in the ledger stay those of the user's paid orders, and every balance stays
-- the sum of its rows.
pub requests-IsBooked :
    (en : Encodings) (py : Clockwork) (settings : Option PaynetConfig) (rs : List Request)
    (fails : AuthFails) (d : Db)
    → All (λ (r : Request). IsOrderId r.order_id) rs
    → IsBooked d
    → IsBooked (requests en py settings rs (fails, d)).1
unfolding requests
requests-IsBooked en py settings [] fails d good h = h
requests-IsBooked en py settings (r ∷ rs) fails d (g, good) h =
    requests-IsBooked en py settings rs _ _ good
      (IsServed-IsBooked d _ (handle_request-IsServed en py r g d settings fails) h)

-- Without a valid login nothing in the tables changes.
pub handle_request_unauthorized :
    (en : Encodings) (py : Clockwork) (cfg : PaynetConfig) (r : Request) (fails : AuthFails)
    (c : Conn)
    → authorized en r.authorization cfg ≡ false
    → (handle_request en py (some cfg) r fails c).1 ≡ c
unfolding handle_request configured
handle_request_unauthorized en py cfg r fails c refused = elim (Bool-cases r.is_post) [
  | inr wrong ↦ rw wrong refl
  | inl post ↦ rw post (elim (Bool-cases (auth_blocked r.ip r.started fails).0) [
    | inl blocked ↦ rw blocked refl
    | inr allowed ↦ rw allowed (rw refused refl)
  ])
]
