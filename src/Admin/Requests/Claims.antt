-- ===== src/Admin/Requests/Claims.antt =====
-- The claims of idempotency keys: `_claim_idempotency` and `_store_idempotent_response` of
-- webapp/routers/admin_users.py over the table `admin_idempotency`
-- (src/db/migrations/m018_admin_idempotency.py).
use vakant.Prelude.{
  ℕ, ◌+◌, ◌*◌, Bool, true, false, not, ◌&&◌, Option, none, some, List, ◌∷◌, find, keep,
  update_first, ltb, ◌==◌,
}
use vakant.Prelude.Text.{Text, text_eq}
use vakant.Admin.{Claim}

abbrev pub idempotency_ttl_seconds : ℕ
idempotency_ttl_seconds = 24 * 60 * 60

-- The primary key of the table.
abbrev pub is_claim : ℕ → Text → Text → Claim → Bool
is_claim actor_id action key c =
    (c.actor_id == actor_id) && (text_eq c.action action && text_eq c.idem_key key)

-- `DELETE ... WHERE created_at < now - IDEMPOTENCY_TTL_SECONDS`, in integers
abbrev pub purge : ℕ → List Claim → List Claim
purge now rows = keep (λ c. not (ltb (c.created_at + idempotency_ttl_seconds) now)) rows

abbrev pub new_claim : ℕ → ℕ → Text → Text → ℕ → Text → Claim
new_claim now actor_id action key k body_hash = record {
  actor_id = actor_id;
  action = action;
  idem_key = key;
  target_id = k;
  body_hash = body_hash;
  response_json = none;
  created_at = now;
}

-- The claim is new, with the rows that it leaves, or the key has a response, or it is of another
-- request.
pub data Claiming : Type 0 where
  won : List Claim → Claiming
  replays : Text → Claiming
  conflicts : Claiming

abbrev pub response_of : Bool → Option Text → Claiming
response_of true (some json) = replays json
response_of true none = conflicts
response_of false response = conflicts

abbrev pub claim_found : Claim → Text → List Claim → Option Claim → Claiming
claim_found new body_hash rows none = won (new ∷ rows)
claim_found new body_hash rows (some c) =
    response_of (text_eq c.body_hash body_hash) c.response_json

-- `_claim_idempotency`
unfoldable pub claim_idempotency : ℕ → ℕ → Text → Text → ℕ → Text → List Claim → Claiming
claim_idempotency now actor_id action key k body_hash rows =
    claim_found (new_claim now actor_id action key k body_hash) body_hash (purge now rows)
      (find (is_claim actor_id action key) (purge now rows))

-- `_store_idempotent_response`
abbrev pub store_response : ℕ → Text → Text → Text → List Claim → List Claim
store_response actor_id action key json rows =
    update_first (is_claim actor_id action key) (λ c. record c { response_json = some json }) rows
