-- ===== src/Admin/History/Replays.antt =====
-- A balance request that is sent again under its idempotency key
-- (webapp/routers/admin_users.py, `_claim_idempotency`).
use vakant.Prelude.{
  ℕ, ◌+◌, ◌≡◌, ◌≤◌, refl, true, false, not, Option, none, some, List, ◌∷◌, find, All, ◌==◌,
  Bool-cases, inl, inr, sym, ap, ◌∙◌,
}
use vakant.Prelude.Int.{ℤ, pos, eqb_ℤ}
use vakant.Prelude.Text.{Text, strip, text_eq_refl}
use vakant.Db.{Conn}
use vakant.Db.Exec.{Result, ok, err}
use vakant.Ledger.{Receipt}
use vakant.Admin.{Panel, Claim}
use vakant.Admin.Roles.{target_admin_role, outranks_or_equals}
use vakant.Admin.Sessions.{Actor}
use vakant.Admin.Requests.Claims.{
  idempotency_ttl_seconds, is_claim, purge, new_claim, Claiming, won, replays, conflicts,
  response_of, claim_found, claim_idempotency, store_response,
}
use vakant.Admin.Requests.{
  Reply, answered, replayed, clean_note, is_key, idempotency_key, Server, BalanceRequest,
  is_balance_request, balance_action, Outcome, outcome_of, balance_moved, after_claim,
  balance_transaction, change_user_balance,
}
use vakant.Admin.Requests.Passes.{
  when-answered, with_note-answered, with_key-answered, guarded-answered, when-pass, with_note-pass,
  with_key-pass, guarded-pass,
}
use vakant.Admin.History.{Call, Ask, history}
use vakant.Admin.History.Survival.{
  Holds, purge-found, is_claim_self, claim_found-won, history-Holds,
}

-- What a balance request that was answered had passed.
record IsPassed (server : Server) (actor : Actor) (seen : Panel) (k : ℕ) (header : Option Text)
    (body : BalanceRequest) : Type 0 where
  accepted : is_balance_request body ≡ true
  same_user : (body.user_id == k) ≡ true
  moves : not (eqb_ℤ body.amount (pos 0)) ≡ true
  memo : Option Text
  noted : clean_note body.note ≡ some memo
  key : Option Text
  keyed : idempotency_key header ≡ some key

module _ (server : Server) (k : ℕ) (header : Option Text) (body : BalanceRequest) where
  change_user_balance-answered :
      (now : ℕ) (actor : Actor) (seen : Panel) (p q : Panel) (out : Outcome)
      → change_user_balance server now actor seen k header body p ≡ (answered out, q)
      → (passed : IsPassed server actor seen k header body) × (balance_transaction server now
            actor.user_id k body.amount passed.memo passed.key p
          ≡ (answered out, q))
  unfolding change_user_balance
  change_user_balance-answered now actor seen p q out h =
      let (accepted, h1) = when-answered p out q _ _ _ h in
      let (same_user, h2) = when-answered p out q _ _ _ h1 in
      let (moves, h3) = when-answered p out q _ _ _ h2 in
      let (memo, noted, h4) = with_note-answered p out q _ _ h3 in
      let (key, keyed, h5) = with_key-answered p out q _ _ h4 in
      let (_, h6) = guarded-answered p out q _ _ _ h5 in
      (
        record {
          accepted = accepted;
          same_user = same_user;
          moves = moves;
          memo = memo;
          noted = noted;
          key = key;
          keyed = keyed;
        },
        h6,
      )

  -- A request like it passes again, of the same admin.
  change_user_balance-passed :
      (now : ℕ) (actor actor' : Actor) (seen seen' : Panel) (p : Panel)
      → (passed : IsPassed server actor seen k header body)
      → outranks_or_equals (target_admin_role server.admin_ids k seen') actor'.role ≡ false
      → change_user_balance server now actor' seen' k header body p
        ≡ balance_transaction server now actor'.user_id k body.amount passed.memo passed.key p
  unfolding change_user_balance
  change_user_balance-passed now actor actor' seen seen' p passed below =
      when-pass p _ _ _ passed.accepted
      ∙ when-pass p _ _ _ passed.same_user
      ∙ when-pass p _ _ _ passed.moves
      ∙ with_note-pass p _ passed.memo _ passed.noted
      ∙ with_key-pass p _ passed.key _ passed.keyed
      ∙ guarded-pass p _ _ _ below

-- The claim that an answered request left.
record IsStored (server : Server) (now actor_id k : ℕ) (amount : ℤ) (memo : Option Text)
    (key : Text) (out : Outcome) (q : Panel) : Type 0 where
  claim : Claim
  held : Holds actor_id key claim q.idempotency
  created : claim.created_at ≡ now
  stored : claim.response_json ≡ some (server.dumps out)
  hashed : claim.body_hash ≡ server.digest k amount memo

module _ (server : Server) (actor_id k : ℕ) (amount : ℤ) (memo : Option Text) (key : Text) where
  balance_moved-IsStored :
      (now : ℕ) (rows rows' : List Claim) (p q : Panel) (out : Outcome)
      (end : Result Receipt × Conn)
      → rows' ≡ new_claim now actor_id balance_action key k (server.digest k amount memo) ∷ rows
      → balance_moved now actor_id k amount
          (λ o. store_response actor_id balance_action key (server.dumps o) rows')
          p
          end
        ≡ (answered out, q)
      → IsStored server now actor_id k amount memo key out q
  balance_moved-IsStored now rows rows' p q out (ok r, c) made h =
      let same_out : outcome_of k amount r ≡ out = answered_out h in
      let same_claims : store_response actor_id balance_action key
            (server.dumps (outcome_of k amount r)) rows'
          ≡ q.idempotency =
        ap (λ x. x.1.idempotency) h in
      let mine = is_claim_self now actor_id balance_action key k (server.digest k amount memo) in
      record {
        claim = record (new_claim now actor_id balance_action key k (server.digest k amount memo)) {
          response_json = some (server.dumps (outcome_of k amount r));
        };
        held = rw⁻¹ same_claims (rw made (rw mine (rw mine refl)));
        created = refl;
        stored = ap (λ o. some (server.dumps o)) same_out;
        hashed = refl;
      }
    where
      answered_out :
          {a b : Outcome} {p1 p2 : Panel}
          → ◌≡◌ {A = Reply Outcome × Panel} (answered a, p1) (answered b, p2)
          → a ≡ b
      answered_out e = cc
  balance_moved-IsStored now rows rows' p q out (err e, c) made h = cc

  after_claim-IsStored :
      (now : ℕ) (rows : List Claim) (p q : Panel) (out : Outcome) (x : Claiming)
      → claim_found
          (new_claim now actor_id balance_action key k (server.digest k amount memo))
          (server.digest k amount memo)
          rows
          (find (is_claim actor_id balance_action key) rows)
        ≡ x
      → after_claim server now actor_id k amount memo key p x ≡ (answered out, q)
      → IsStored server now actor_id k amount memo key out q
  after_claim-IsStored now rows p q out (won rows') e h =
      balance_moved-IsStored now rows rows' p q out _
        (claim_found-won _ _ rows rows' (find (is_claim actor_id balance_action key) rows) e).1 h
  after_claim-IsStored now rows p q out (replays json) e h = cc
  after_claim-IsStored now rows p q out conflicts e h = cc

  balance_transaction-IsStored :
      (now : ℕ) (p q : Panel) (out : Outcome)
      → balance_transaction server now actor_id k amount memo (some key) p ≡ (answered out, q)
      → IsStored server now actor_id k amount memo key out q
  unfolding claim_idempotency
  balance_transaction-IsStored now p q out h =
      after_claim-IsStored now (purge now p.idempotency) p q out _ refl h

  -- A held claim with a response is answered from it, and nothing is written.
  balance_transaction-replayed :
      (now' : ℕ) (c : Claim) (out : Outcome) (q : Panel)
      → ((o : Outcome) → server.loads (server.dumps o) ≡ o)
      → Holds actor_id key c q.idempotency
      → now' ≤ c.created_at + idempotency_ttl_seconds
      → c.response_json ≡ some (server.dumps out)
      → c.body_hash ≡ server.digest k amount memo
      → balance_transaction server now' actor_id k amount memo (some key) q ≡ (replayed out, q)
  unfolding claim_idempotency
  balance_transaction-replayed now' c out q codec held young stored hashed =
      rw
        (
          purge-found (is_claim actor_id balance_action key) now' c q.idempotency held young,
          claim_found,
        )
        (rw hashed (
          rw (text_eq_refl (server.digest k amount memo))
            (rw (stored, response_of) (ap (λ o. (replayed o, q)) (codec out)))))

idempotency_key-some :
    (raw : Text) (key : Option Text)
    → idempotency_key (some raw) ≡ some key
    → (t : Text) × (key ≡ some t)
unfolding idempotency_key
idempotency_key-some raw key h = elim (Bool-cases (is_key (strip raw))) [
  | inl good ↦ (strip raw, key_of (rw good at h))
  | inr bad ↦ absurd (no_key (rw bad at h))
]
  where
    key_of : {o k : Option Text} → ◌≡◌ {A = Option (Option Text)} (some o) (some k) → k ≡ o
    key_of e = cc

    no_key : ◌≡◌ {A = Option (Option Text)} none (some key) → ⊥
    no_key e = cc

-- Once a balance request with an idempotency key was answered, the same request of the same admin
-- under the same key gets the same answer, and writes nothing: whatever requests any admins made
-- in between, as long as all of this is within 24 hours and the guard lets the admin through. The
-- codec of the stored response reads back what it wrote.
pub change_user_balance-replayed :
    (server : Server) (now now' : ℕ) (actor actor' : Actor) (seen seen' : Panel) (k : ℕ)
    (raw : Text) (body : BalanceRequest) (p q : Panel) (out : Outcome) (between : List (Call × Ask))
    → ((o : Outcome) → server.loads (server.dumps o) ≡ o)
    → change_user_balance server now actor seen k (some raw) body p ≡ (answered out, q)
    → All (λ x. x.0.at ≤ now + idempotency_ttl_seconds) between
    → now' ≤ now + idempotency_ttl_seconds
    → actor'.user_id ≡ actor.user_id
    → outranks_or_equals (target_admin_role server.admin_ids k seen') actor'.role ≡ false
    → change_user_balance server now' actor' seen' k (some raw) body (history server between q)
      ≡ (replayed out, history server between q)
change_user_balance-replayed server now now' actor actor' seen seen' k raw body p q out between
      codec first young again same below =
    let (passed, answer) =
      change_user_balance-answered server k (some raw) body now actor seen p q out first in
    let (key, is_text) = idempotency_key-some raw passed.key passed.keyed in
    let stored =
      balance_transaction-IsStored server actor.user_id k body.amount passed.memo key now p q out
        (rw is_text at answer) in
    let held =
      history-Holds server actor.user_id key stored.claim between q
        (rw (sym stored.created) at young) stored.held in
    change_user_balance-passed server k (some raw) body now' actor actor' seen seen'
      (history server between q) passed below
    ∙ rw same (
        rw is_text (
          balance_transaction-replayed server actor.user_id k body.amount passed.memo key now'
            stored.claim out (history server between q) codec held
            (rw (sym stored.created) at again) stored.stored stored.hashed))
