-- ===== src/Admin/Sessions.antt =====
-- Who may act in the panel: webapp/core/session.py and the Bearer branch of webapp/core/auth.py,
-- with `require_admin` and `require_role`. `X-Telegram-Init-Data` is never read by these.
pub mod Grants
use vakant.Prelude.{
  ℕ, ◌+◌, Bool, true, false, not, Option, none, some, List, [], ◌∷◌, find, keep, leb, ◌==◌,
  if◌then◌else◌, or_default,
}
use vakant.Prelude.Int.{ℤ, pos, leb_ℤ}
use vakant.Prelude.Text.{Text, codes, text_eq, after_prefix, strip, is_empty}
use vakant.Db.{User, Db}
use vakant.Admin.{Panel, Session, AdminRow}
use vakant.Admin.Roles.{Role, role_rank, resolve_admin_role, is_banned}

-- The dictionary in a session token: `sid` as text, and `exp` if `int` takes it; a missing `exp`
-- is 0.
pub record Payload : Type 0 where
  pub sid : Option Text
  pub exp : Option ℤ

-- The codes of webapp/core/errors.py that an admin route answers.
pub data AuthError : Type 0 where
  auth_required session_expired admin_required user_banned : AuthError

pub data Checked {ℓ} (A : Type ℓ) : Type ℓ where
  granted : A → Checked A
  refused : AuthError → Checked A

pub record Actor : Type 0 where
  pub user_id : ℕ
  pub role : Role

abbrev pub unexpired : ℕ → Payload → Option ℤ → Option Payload
unexpired now payload none = none
unexpired now payload (some exp) = if leb_ℤ exp (pos now) then none else some payload

-- The row of a session, and its user, if both exist.
abbrev pub session_row : Text → List Session → Option Session
session_row sid rows = find (λ s. text_eq s.token sid) rows

abbrev pub without_session : Text → List Session → List Session
without_session sid rows = keep (λ s. not (text_eq s.token sid)) rows

abbrev pub user_of_row : Session → Option User → Option ℕ
user_of_row s none = none
user_of_row s (some u) = some s.user_id

abbrev pub loaded : ℕ → Text → Panel → Option Session → Option ℕ × Panel
loaded now sid p none = (none, p)
loaded now sid p (some s) =
    if leb s.expires_at now
    then (none, record p { sessions = without_session sid p.sessions })
    else (user_of_row s (p.db.users s.user_id), p)

-- `load_session_user`: the id of the user of the row; an expired row is deleted
unfoldable pub load_session_user : ℕ → Text → Panel → Option ℕ × Panel
load_session_user now sid p = loaded now sid p (session_row sid p.sessions)

-- `create_session`: the row, for the session id that `secrets` made
unfoldable pub create_session : ℕ → ℕ → Text → ℕ → Panel → Panel
create_session ttl now sid k p = record p {
  sessions =
      record { token = sid; user_id = k; created_at = now; expires_at = now + ttl } ∷ p.sessions;
}

-- The settings, with `jws.verify` under the secret and `json.loads`, which give the payload of a
-- token that was signed with it.
pub record Settings : Type 0 where
  pub verified : Text → Option Payload
  pub admin_ids : ℕ → Bool

module _ (env : Settings) where
  -- `decode_session_token`: none for the ValueError
  abbrev pub decode : ℕ → Option Payload → Option Payload
  decode now none = none
  decode now (some payload) = unexpired now payload payload.exp

  unfoldable pub decode_session_token : ℕ → Text → Option Payload
  decode_session_token now token = decode now (env.verified token)

  abbrev pub session_of : Option Payload → Text
  session_of none = []
  session_of (some payload) = strip (or_default [] payload.sid)

  abbrev pub found_user : Option ℕ × Panel → Checked ℕ × Panel
  found_user (none, p) = (refused session_expired, p)
  found_user (some k, p) = (granted k, p)

  -- The Bearer branch of `_resolve`, on the token; a session without an id is expired.
  abbrev pub user_of_token : ℕ → Text → Panel → Checked ℕ × Panel
  user_of_token now token p =
      let sid = session_of (decode_session_token now (strip token)) in
      if is_empty sid
      then (refused session_expired, p)
      else found_user (load_session_user now sid p)

  abbrev pub with_role : ℕ → Option Role × Panel → Checked Actor × Panel
  with_role k (none, p) = (refused admin_required, p)
  with_role k (some role, p) =
      if is_banned k p.db
      then (refused user_banned, p)
      else (granted (record { user_id = k; role = role }), p)

  abbrev pub admit : ℕ → Checked ℕ × Panel → Checked Actor × Panel
  admit now (refused e, p) = (refused e, p)
  admit now (granted k, p) = with_role k (resolve_admin_role env.admin_ids now k p)

  abbrev pub bearer : ℕ → Panel → Option Text → Checked Actor × Panel
  bearer now p none = (refused auth_required, p)
  bearer now p (some token) = admit now (user_of_token now token p)

  -- `require_admin`, from the header `Authorization`
  unfoldable pub require_admin : ℕ → Text → Panel → Checked Actor × Panel
  require_admin now authorization p = bearer now p (after_prefix (codes "Bearer ") authorization)

  abbrev pub ranked : Role → Checked Actor × Panel → Checked Actor × Panel
  ranked min_role (refused e, p) = (refused e, p)
  ranked min_role (granted actor, p) =
      if leb (role_rank min_role) (role_rank actor.role)
      then (granted actor, p)
      else (refused admin_required, p)

  -- `require_role`
  unfoldable pub require_role : Role → ℕ → Text → Panel → Checked Actor × Panel
  require_role min_role now authorization p = ranked min_role (require_admin now authorization p)
