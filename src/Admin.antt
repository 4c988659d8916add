-- ===== src/Admin.antt =====
-- The admin panel's tables (src/db/migrations/m002, m003, m018) beside those of the wallet: the admins,
-- the sessions of the Mini App, the claims of idempotency keys and the audit log, with the parts of
-- webapp/core/auth.py, webapp/core/session.py and webapp/routers/admin_users.py that read them.
--
-- A `Panel` is what is committed. A request's transaction holds SQLite's write lock from its first
-- write on, so it is one function on it. Times are unix seconds.
pub mod Roles
pub mod Sessions
pub mod Requests
pub mod Accounts
pub mod History
pub mod Bans
pub mod Confirm
mod Tests
mod ConfirmTests
use vakant.Prelude.{ℕ, Option, List, Bool, some, none}
use vakant.Prelude.Text.{Text}
use vakant.Db.{Db}

-- A row of `admins`, without who added it.
pub record AdminRow : Type 0 where
  pub user_id : ℕ
  pub role : Text
  pub added_at : ℕ
  pub disabled : Option ℕ

-- A row of `webapp_sessions`.
pub record Session : Type 0 where
  pub token : Text
  pub user_id : ℕ
  pub created_at : ℕ
  pub expires_at : ℕ

-- A row of `bot_handoff_tokens`, the columns that a revocation reads.
pub record Handoff : Type 0 where
  pub user_id : ℕ
  pub used : ℕ

-- A row of `admin_idempotency`.
pub record Claim : Type 0 where
  pub actor_id : ℕ
  pub action : Text
  pub idem_key : Text
  pub target_id : ℕ
  pub body_hash : Text
  pub response_json : Option Text
  pub created_at : ℕ

-- A row of `admin_audit_log`, without the payload and the address.
pub record AuditRow : Type 0 where
  pub actor_id : ℕ
  pub action : Text
  pub target_id : ℕ
  pub created_at : ℕ

-- The tables, newest rows first. `admins` is none before the migrations have run.
pub record Panel : Type 0 where
  pub db : Db
  pub pro_until : ℕ → Option ℕ
  pub bot_links_before : ℕ → Option ℕ
  pub banned_reason : ℕ → Option Text
  pub admins : Option (List AdminRow)
  pub sessions : List Session
  pub handoffs : List Handoff
  pub idempotency : List Claim
  pub audit : List AuditRow
