-- ===== src/Admin/Requests.antt =====
-- The mutations of webapp/routers/admin_users.py on the wallet and the account of a user: the
-- balance, Pro, a reset, a ban and the end of all sessions. `seen` is the panel as the guard on the
-- target read it, before the transaction; the actor is what `require_role` granted.
pub mod Claims
pub mod Passes
use vakant.Prelude.{
  ℕ, ◌+◌, ◌*◌, Bool, true, false, not, ◌&&◌, ◌||◌, Option, none, some, List, [], ◌∷◌, length, keep,
  take, ltb, leb, ◌==◌, if◌then◌else◌, or_default, is_none,
}
use vakant.Prelude.Int.{ℤ, pos, abs, ltb_ℤ, eqb_ℤ}
use vakant.Prelude.Text.{Text, codes, strip, is_empty, is_digit}
use vakant.Db.{User, Db, Conn, fresh, put_user, admin_credit, adjustment}
use vakant.Db.Exec.{
  Result, ok, err, Exc, value_error, user_not_found, insufficient_balance, already_pro,
  ledger_error,
}
use vakant.Ledger.{Receipt, Change, apply_balance_change, max_amount}
use vakant.Ledger
use vakant.Admin.{Panel, Session, Handoff, Claim, AuditRow}
use vakant.Admin.Roles.{Role, role_rank, outranks_or_equals, target_admin_role}
use vakant.Admin.Sessions.{Actor}
use vakant.Admin.Requests.Claims.{
  Claiming, won, replays, conflicts, claim_idempotency, store_response,
}

-- What a handler raises: the codes of webapp/core/errors.py, or an exception that it lets through.
pub data Refusal : Type 0 where
  validation_error : Text → Refusal
  cannot_target_admin : Role → Refusal
  insufficient : ℤ → ℤ → Refusal
  not_found upstream_error idempotency_conflict : Refusal
  uncaught : Exc → Refusal

pub data Reply (A : Type 0) : Type 0 where
  answered replayed : A → Reply A
  declined : Refusal → Reply A

-- `BalanceResponse`; the other responses are what the request asked for, with the row's id.
pub record Outcome : Type 0 where
  pub user_id : ℕ
  pub amount : ℤ
  pub new_balance : ℤ
  pub tx_id : ℕ

abbrev pub max_note : ℕ
max_note = 500

-- `_clean_note`: none for the 400
abbrev pub clean_text : Text → Option (Option Text)
clean_text note =
    if is_empty note
    then some none
    else if ltb max_note (length note)
    then none
    else some (some note)

unfoldable pub clean_note : Option Text → Option (Option Text)
clean_note none = some none
clean_note (some note) = clean_text (strip note)

-- `_IDEMPOTENCY_KEY_RE`
abbrev pub is_key_char : ℕ → Bool
is_key_char c =
    is_digit c
    || (leb 65 c && leb c 90)
    || (leb 97 c && leb c 122)
    || (c == 95)
    || (c == 46)
    || (c == 58)
    || (c == 45)

abbrev pub all_key_chars : Text → Bool
all_key_chars [] = true
all_key_chars (c ∷ s) = is_key_char c && all_key_chars s

abbrev pub is_key : Text → Bool
is_key s = leb 8 (length s) && leb (length s) 128 && all_key_chars s

-- `_idempotency_key`: none for the 400
unfoldable pub idempotency_key : Option Text → Option (Option Text)
idempotency_key none = some none
idempotency_key (some raw) = if is_key (strip raw) then some (some (strip raw)) else none

-- `_raise_ledger_error`, and what is not a `LedgerError`
abbrev pub ledger_refusal : Exc → Refusal
ledger_refusal (insufficient_balance required balance) = insufficient required balance
ledger_refusal (user_not_found k) = not_found
ledger_refusal (already_pro k) = upstream_error
ledger_refusal ledger_error = upstream_error
ledger_refusal e = uncaught e

-- The balance route also answers a `ValueError`.
abbrev pub balance_refusal : Exc → Refusal
balance_refusal value_error = validation_error (codes "amount")
balance_refusal e = ledger_refusal e

module _ {A : Type 0} where
  -- `_guard_target`, before the rest of a handler
  unfoldable pub guarded : Option Role → Role → Panel → Reply A × Panel → Reply A × Panel
  guarded none actor_role p rest = rest
  guarded (some role) actor_role p rest =
      if outranks_or_equals (some role) actor_role
      then (declined (cannot_target_admin role), p)
      else rest

  unfoldable pub when : Bool → Refusal → Panel → Reply A × Panel → Reply A × Panel
  when true e p rest = rest
  when false e p rest = (declined e, p)

  unfoldable pub with_note :
      Option (Option Text) → Panel → (Option Text → Reply A × Panel) → Reply A × Panel
  with_note none p rest = (declined (validation_error (codes "note")), p)
  with_note (some note) p rest = rest note

  unfoldable pub with_key :
      Option (Option Text) → Panel → (Option Text → Reply A × Panel) → Reply A × Panel
  with_key none p rest = (declined (validation_error (codes "idempotency_key")), p)
  with_key (some key) p rest = rest key

-- `log_admin_action`
abbrev pub log_admin_action : ℕ → ℕ → Text → ℕ → Panel → Panel
log_admin_action now actor_id action k p = record p {
  audit =
      record { actor_id = actor_id; action = action; target_id = k; created_at = now } ∷ p.audit;
}

abbrev pub note_fits : Option Text → Bool
note_fits none = true
note_fits (some note) = leb (length note) max_note

-- `BalanceRequest`, with its bounds
pub record BalanceRequest : Type 0 where
  pub user_id : ℕ
  pub amount : ℤ
  pub note : Option Text

abbrev pub is_balance_request : BalanceRequest → Bool
is_balance_request body =
    ltb 0 body.user_id && leb (abs body.amount) max_amount && note_fits body.note

-- What the server works with: `ADMIN_IDS`, `json.dumps` and `json.loads` of a response, and the
-- SHA-256 of the canonical JSON of a balance request's fields.
pub record Server : Type 0 where
  pub admin_ids : ℕ → Bool
  pub dumps : Outcome → Text
  pub loads : Text → Outcome
  pub digest : ℕ → ℤ → Option Text → Text

abbrev pub balance_action : Text
balance_action = codes "users.balance"

abbrev pub credit_of : ℕ → ℤ → Option Text → ℕ → Change
credit_of k amount note actor_id = record {
  user_id = k;
  amount = amount;
  kind = admin_credit;
  actor_id = some actor_id;
  note = note;
  price_snapshot = none;
  require_sufficient = ltb_ℤ amount (pos 0);
  reference = none;
}

abbrev pub outcome_of : ℕ → ℤ → Receipt → Outcome
outcome_of k amount r = record {
  user_id = k;
  amount = amount;
  new_balance = r.balance_after;
  tx_id = r.tx_id;
}

-- The end of the balance route: an exception drops the whole transaction, the claim included.
abbrev pub balance_moved :
    ℕ → ℕ → ℕ → ℤ → (Outcome → List Claim) → Panel → Result Receipt × Conn → Reply Outcome × Panel
balance_moved now actor_id k amount claims_after p (ok r, c) = (
  answered (outcome_of k amount r),
  log_admin_action now actor_id balance_action k
      (record p { db = c.live; idempotency = claims_after (outcome_of k amount r) }),
)
balance_moved now actor_id k amount claims_after p (err e, c) = (declined (balance_refusal e), p)

module _ (server : Server) where
  abbrev pub after_claim :
      ℕ → ℕ → ℕ → ℤ → Option Text → Text → Panel → Claiming → Reply Outcome × Panel
  after_claim now actor_id k amount memo key p (won rows) =
      balance_moved now actor_id k amount
        (λ outcome. store_response actor_id balance_action key (server.dumps outcome) rows) p
        (apply_balance_change now (credit_of k amount memo actor_id) (fresh p.db))
  after_claim now actor_id k amount memo key p (replays json) = (replayed (server.loads json), p)
  after_claim now actor_id k amount memo key p conflicts = (declined idempotency_conflict, p)

  -- The transaction of `change_user_balance`, with a key or without.
  abbrev pub balance_transaction :
      ℕ → ℕ → ℕ → ℤ → Option Text → Option Text → Panel → Reply Outcome × Panel
  balance_transaction now actor_id k amount memo none p =
      balance_moved now actor_id k amount (λ outcome. p.idempotency) p
        (apply_balance_change now (credit_of k amount memo actor_id) (fresh p.db))
  balance_transaction now actor_id k amount memo (some key) p =
      after_claim now actor_id k amount memo key p (
        claim_idempotency now actor_id balance_action key k (server.digest k amount memo)
          p.idempotency)

  unfoldable pub change_user_balance :
      ℕ → Actor → Panel → ℕ → Option Text → BalanceRequest → Panel → Reply Outcome × Panel
  unfolding clean_note idempotency_key
  change_user_balance now actor seen k header body p =
      when (is_balance_request body) (validation_error (codes "body")) p (
        when (body.user_id == k) (validation_error (codes "user_id")) p (
          when (not (eqb_ℤ body.amount (pos 0))) (validation_error (codes "amount")) p (
            with_note (clean_note body.note) p λ note. with_key (idempotency_key header) p λ key.
              guarded (target_admin_role server.admin_ids k seen) actor.role p
                (balance_transaction now actor.user_id k body.amount note key p))))
