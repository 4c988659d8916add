-- ===== src/Admin/History.antt =====
-- Any sequence of the admins' requests of webapp/routers/admin_users.py.
pub mod Keeps
pub mod Survival
pub mod Replays
pub mod Books
pub mod Guard
use vakant.Prelude.{ℕ, Option, List, [], ◌∷◌}
use vakant.Prelude.Text.{Text}
use vakant.Db.{Db}
use vakant.Admin.{Panel}
use vakant.Admin.Sessions.{Actor}
use vakant.Admin.Requests.{Server, BalanceRequest, change_user_balance}
use vakant.Admin.Accounts.{
  ProRequest, BanRequest, set_user_pro, reset_user, set_user_ban, revoke_user_sessions,
}

-- A request at a time, of an admin, with the panel that the guard read, on a user.
pub record Call : Type 0 where
  pub at : ℕ
  pub by : Actor
  pub seen : Panel
  pub on : ℕ

pub data Ask : Type 0 where
  balance : Option Text → BalanceRequest → Ask
  pro : ProRequest → Ask
  reset : ℕ → Option Text → Ask
  ban : BanRequest → Ask
  revoke : ℕ → Ask

-- The requests come one after the other.
abbrev pub undisturbed : ℕ → Db → Db
undisturbed i d = d

module _ (server : Server) where
  abbrev pub ask : Call → Ask → Panel → Panel
  ask c (balance header body) p = (change_user_balance server c.at c.by c.seen c.on header body p).1
  ask c (pro body) p = (set_user_pro server.admin_ids c.at c.by c.seen c.on body p).1
  ask c (reset user_id memo) p =
      (reset_user server.admin_ids c.at c.by c.seen c.on undisturbed user_id memo p).1
  ask c (ban body) p = (set_user_ban server.admin_ids c.at c.by c.seen c.on body p).1
  ask c (revoke user_id) p =
      (revoke_user_sessions server.admin_ids c.at c.by c.seen c.on user_id p).1

  unfoldable pub history : List (Call × Ask) → Panel → Panel
  history [] p = p
  history ((c, a) ∷ asks) p = history asks (ask c a p)
