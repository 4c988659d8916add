-- ===== src/Admin/History/Survival.antt =====
-- A claim of an idempotency key outlasts any requests within its 24 hours
-- (webapp/routers/admin_users.py, `_claim_idempotency`).
use vakant.Prelude.{
  ℕ, ◌+◌, ◌≡◌, ◌≤◌, refl, Bool, true, false, ◌&&◌, Option, none, some, List, [], ◌∷◌, find, All,
  ltb, ◌==◌, arith, Bool-cases, inl, inr, sym, ap, ◌∙◌, subst,
}
use vakant.Prelude.Int.{ℤ}
use vakant.Prelude.Text.{Text, codes, text_eq, text_eq_refl, text_eq_iff}
use vakant.Db.{User, Conn, fresh}
use vakant.Db.Exec.{Result, ok, err}
use vakant.Ledger.{Receipt, apply_balance_change}
use vakant.Ledger
use vakant.Admin.{Panel, Claim}
use vakant.Admin.Requests.Claims.{
  idempotency_ttl_seconds, is_claim, purge, new_claim, Claiming, won, replays, conflicts,
  response_of, claim_found, claim_idempotency, store_response,
}
use vakant.Admin.Requests.{
  Server, balance_action, Outcome, balance_moved, after_claim, balance_transaction,
  log_admin_action,
}
use vakant.Admin.Requests.Passes.{Leaves}
use vakant.Admin.Accounts.{
  ledger_closed, pro_finished, pro_until_of, pro_applied, pro_updated, ban_updated,
  sessions_revoked, BanRequest, ProRequest,
}
use vakant.Admin.History.Keeps.{Keeps, ask-keeps}
use vakant.Admin.History.{Call, Ask, balance, pro, reset, ban, revoke, ask, history, undisturbed}

-- The claim of a key that stands in the table.
abbrev pub Holds : ℕ → Text → Claim → List Claim → Type 0
Holds actor_id key c rows = find (is_claim actor_id balance_action key) rows ≡ some c

-- A claim within its 24 hours is not purged.
pub purge-found :
    (test : Claim → Bool) (now : ℕ) (c : Claim) (rows : List Claim)
    → find test rows ≡ some c
    → now ≤ c.created_at + idempotency_ttl_seconds
    → find test (purge now rows) ≡ some c
purge-found test now c [] h fresh_yet = cc
purge-found test now c (x ∷ xs) h fresh_yet = elim (Bool-cases (test x)) [
  | inl mine ↦
      let same : x ≡ c = ground (arith, h, mine) in
      let young : ltb (c.created_at + idempotency_ttl_seconds) now ≡ false =
        ground (arith, fresh_yet) in
      rw same (rw young (rw (subst (λ y. test y ≡ true) same mine) refl))
  | inr other ↦
      let rest = purge-found test now c xs (rw other at h) fresh_yet in
      elim (Bool-cases (ltb (x.created_at + idempotency_ttl_seconds) now)) [
        | inl old ↦ rw old rest
        | inr young ↦ rw young (rw other rest)
      ]
]

pub is_claim_self :
    (now actor_id : ℕ) (action key : Text) (k : ℕ) (body_hash : Text)
    → is_claim actor_id action key (new_claim now actor_id action key k body_hash) ≡ true
is_claim_self now actor_id action key k body_hash =
    rw (text_eq_refl action) (rw (text_eq_refl key) (ground arith))

same_rows : {xs ys : List Claim} → won xs ≡ won ys → ys ≡ xs
same_rows e = cc

-- What a claim ends in, with the rows in which it looked.
pub claim_found-won :
    (new : Claim) (body_hash : Text) (rows rows' : List Claim) (o : Option Claim)
    → claim_found new body_hash rows o ≡ won rows'
    → (o ≡ none) × (rows' ≡ new ∷ rows)
claim_found-won new body_hash rows rows' none h = (refl, same_rows h)
claim_found-won new body_hash rows rows' (some c) h =
    absurd (answers (text_eq c.body_hash body_hash) c.response_json h)
  where
    answers : (b : Bool) (r : Option Text) → response_of b r ≡ won rows' → ⊥
    answers true (some json) h = cc
    answers true none h = cc
    answers false r h = cc

claim_parts :
    (actor_id a : ℕ) (u v : Bool)
    → ((actor_id == a) && (u && v)) ≡ true
    → (actor_id ≡ a) × (v ≡ true)
claim_parts actor_id a true true h = (ground (arith, h), refl)
claim_parts actor_id a true false h = absurd (ground (arith, h))
claim_parts actor_id a false v h = absurd (ground (arith, h))

-- Two keys that take one claim are the same key.
same_key :
    (a b : ℕ) (s t : Text) (c : Claim)
    → is_claim a balance_action s c ≡ true
    → is_claim b balance_action t c ≡ true
    → is_claim a balance_action s ≡ is_claim b balance_action t
same_key a b s t c h h' =
    let (ha, hs) =
      claim_parts c.actor_id a (text_eq c.action balance_action) (text_eq c.idem_key s) h in
    let (hb, ht) =
      claim_parts c.actor_id b (text_eq c.action balance_action) (text_eq c.idem_key t) h' in
    let same_actor : a ≡ b = sym ha ∙ hb in
    let same_text : s ≡ t =
      sym ((text_eq_iff c.idem_key s).0 hs) ∙ (text_eq_iff c.idem_key t).0 ht in
    ap (λ (x : ℕ). is_claim x balance_action s) same_actor
    ∙ ap (λ (x : Text). is_claim b balance_action x) same_text

module _ (server : Server) (actor_id : ℕ) (key : Text) (c : Claim) where
  abbrev HoldsIn : Panel → Type 0
  HoldsIn p = Holds actor_id key c p.idempotency

  -- A request that wins another key leaves the claim.
  won-Holds :
      (now b : ℕ) (t json : Text) (k : ℕ) (body_hash : Text) (rows rows' : List Claim)
      → Holds actor_id key c rows
      → now ≤ c.created_at + idempotency_ttl_seconds
      → claim_idempotency now b balance_action t k body_hash rows ≡ won rows'
      → Holds actor_id key c (store_response b balance_action t json rows')
  unfolding claim_idempotency
  won-Holds now b t json k body_hash rows rows' h young wins =
      let new = new_claim now b balance_action t k body_hash in
      let (free, made) =
        claim_found-won new body_hash (purge now rows) rows'
          (find (is_claim b balance_action t) (purge now rows)) wins in
      let still = purge-found (is_claim actor_id balance_action key) now c rows h young in
      elim (Bool-cases (is_claim actor_id balance_action key new)) [
        | inl mine ↦
            let same =
              same_key actor_id b key t new mine
                (is_claim_self now b balance_action t k body_hash) in
            absurd (
              taken
                (sym free ∙ ap (λ (p : Claim → Bool). find p (purge now rows)) (sym same) ∙ still))
        | inr other ↦
            rw made (rw (is_claim_self now b balance_action t k body_hash) (rw other still))
      ]
    where
      taken : ◌≡◌ {A = Option Claim} none (some c) → ⊥
      taken e = cc

  balance_moved-Holds :
      (now b k : ℕ) (amount : ℤ) (after : Outcome → List Claim) (p : Panel)
      (out : Result Receipt × Conn)
      → HoldsIn p
      → ((o : Outcome) → Holds actor_id key c (after o))
      → HoldsIn (balance_moved now b k amount after p out).1
  balance_moved-Holds now b k amount after p (ok r, q) h h' = h' _
  balance_moved-Holds now b k amount after p (err e, q) h h' = h

  after_claim-Holds :
      (now b k : ℕ) (amount : ℤ) (memo : Option Text) (t : Text) (p : Panel) (x : Claiming)
      → HoldsIn p
      → now ≤ c.created_at + idempotency_ttl_seconds
      → claim_idempotency now b balance_action t k (server.digest k amount memo) p.idempotency ≡ x
      → HoldsIn (after_claim server now b k amount memo t p x).1
  after_claim-Holds now b k amount memo t p (won rows) h young wins =
      balance_moved-Holds now b k amount _ p _ h (λ o.
        won-Holds now b t (server.dumps o) k (server.digest k amount memo) p.idempotency rows h
          young wins)
  after_claim-Holds now b k amount memo t p (replays json) h young wins = h
  after_claim-Holds now b k amount memo t p conflicts h young wins = h

  balance_transaction-Holds :
      (now b k : ℕ) (amount : ℤ) (memo : Option Text) (t : Option Text) (p : Panel)
      → HoldsIn p
      → now ≤ c.created_at + idempotency_ttl_seconds
      → HoldsIn (balance_transaction server now b k amount memo t p).1
  balance_transaction-Holds now b k amount memo none p h young =
      balance_moved-Holds now b k amount _ p _ h (λ o. h)
  balance_transaction-Holds now b k amount memo (some t) p h young =
      after_claim-Holds now b k amount memo t p _ h young refl

  ledger_closed-Holds :
      (finish : Panel → Panel) (p : Panel) (out : Result Receipt × Conn)
      → ((q : Panel) → (finish q).idempotency ≡ q.idempotency)
      → HoldsIn p
      → HoldsIn (ledger_closed finish p out).1
  ledger_closed-Holds finish p (ok r, q) same h = rw (same (record p { db = q.live })) h
  ledger_closed-Holds finish p (err e, q) same h = h

  pro_updated-Holds :
      (now b k : ℕ) (body : ProRequest) (memo : Option Text) (p : Panel) (o : Option User)
      → HoldsIn p
      → HoldsIn (pro_updated now b k body memo p o).1
  pro_updated-Holds now b k body memo p none h = h
  pro_updated-Holds now b k body memo p (some u) h =
      ledger_closed-Holds (pro_finished now b k (pro_until_of now body.enabled body.days)) p
        (pro_applied now b k body.enabled memo p.db u) (λ q. refl) h

  ban_updated-Holds :
      (now b k : ℕ) (body : BanRequest) (reason : Option Text) (p : Panel) (o : Option User)
      → HoldsIn p
      → HoldsIn (ban_updated now b k body reason p o).1
  ban_updated-Holds now b k body reason p none h = h
  ban_updated-Holds now b k body reason p (some u) h = elim (Bool-cases body.banned) [
    | inl banned ↦ rw banned h
    | inr free ↦ rw free h
  ]

  sessions_revoked-Holds :
      (now b k : ℕ) (p : Panel) (o : Option User)
      → HoldsIn p
      → HoldsIn (sessions_revoked now b k p o).1
  sessions_revoked-Holds now b k p none h = h
  sessions_revoked-Holds now b k p (some u) h = h

  transactions-Holds :
      (x : Call) (p : Panel) (h : HoldsIn p)
      → x.at ≤ c.created_at + idempotency_ttl_seconds
      → (a : Ask) → Keeps server HoldsIn x p h a
  unfolding Keeps Leaves
  transactions-Holds x p h young (balance header body) =
      λ memo t. balance_transaction-Holds x.at x.by.user_id x.on body.amount memo t p h young
  transactions-Holds x p h young (pro body) =
      λ memo. pro_updated-Holds x.at x.by.user_id x.on body memo p (p.db.users x.on) h
  transactions-Holds x p h young (reset user_id body_note) = λ memo.
      ledger_closed-Holds (log_admin_action x.at x.by.user_id (codes "users.reset") x.on) p
        (Ledger.reset_user undisturbed x.at x.on (some x.by.user_id) memo (fresh p.db)) (λ q. refl)
        h
  transactions-Holds x p h young (ban body) =
      λ reason. ban_updated-Holds x.at x.by.user_id x.on body reason p (p.db.users x.on) h
  transactions-Holds x p h young (revoke user_id) =
      sessions_revoked-Holds x.at x.by.user_id x.on p (p.db.users x.on) h

  pub history-Holds :
      (xs : List (Call × Ask)) (p : Panel)
      → All (λ x. x.0.at ≤ c.created_at + idempotency_ttl_seconds) xs
      → HoldsIn p
      → HoldsIn (history server xs p)
  unfolding history
  history-Holds [] p young h = h
  history-Holds ((x, a) ∷ xs) p young h =
      history-Holds xs (ask server x a p) young.1
        (ask-keeps server HoldsIn x p h a (transactions-Holds x p h young.0 a))
