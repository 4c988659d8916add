-- ===== src/Admin/Accounts.antt =====
-- The other mutations of webapp/routers/admin_users.py: `set_user_pro`, `reset_user`,
-- `set_user_ban` and `revoke_user_sessions`, each guarded on its target. `seen` is the panel as the
-- guard read it.
use vakant.Prelude.{
  ℕ, ◌+◌, ◌*◌, Bool, true, false, not, ◌&&◌, Option, none, some, List, keep, length, take, ltb, leb,
  ◌==◌, ◌||◌, if◌then◌else◌, or_default, is_none,
}
use vakant.Prelude.Int.{pos}
use vakant.Prelude.Text.{Text, codes}
use vakant.Db.{User, Db, Conn, fresh, put_user, adjustment}
use vakant.Db.Exec.{Result, ok, err}
use vakant.Ledger.{Receipt, Change, apply_balance_change}
use vakant.Ledger
use vakant.Admin.{Panel, Session, Handoff}
use vakant.Admin.Roles.{target_admin_role}
use vakant.Admin.Sessions.{Actor}
use vakant.Admin.Requests.{
  Reply, answered, declined, validation_error, not_found, ledger_refusal, max_note, guarded, when,
  with_note, note_fits, clean_note, log_admin_action,
}

-- An assignment to a column of the row `k`.
abbrev pub set_column : {A : Type 0} → ℕ → A → (ℕ → A) → ℕ → A
set_column k a column j = if j == k then a else column j

abbrev pub max_pro_days : ℕ
max_pro_days = 3650

-- `ProRequest`
pub record ProRequest : Type 0 where
  pub enabled : Bool
  pub days : Option ℕ
  pub note : Option Text

abbrev pub days_fit : Option ℕ → Bool
days_fit none = true
days_fit (some days) = leb 1 days && leb days max_pro_days

abbrev pub is_pro_request : ProRequest → Bool
is_pro_request body = days_fit body.days && note_fits body.note

abbrev pub pro_until_of : ℕ → Bool → Option ℕ → Option ℕ
pro_until_of now true (some days) = some (now + days * 86400)
pro_until_of now true none = none
pro_until_of now false days = none

abbrev pub pro_user : Bool → User → User
pro_user enabled u = record u { user_pro = some (if enabled then 1 else 0) }

-- The row of the ledger that records the change: `note or "pro grant"`, of no amount.
abbrev pub pro_note : Bool → Option Text → Text
pro_note enabled note = or_default (codes (if enabled then "pro grant" else "pro revoke")) note

abbrev pub pro_change : ℕ → ℕ → Bool → Option Text → Change
pro_change k actor_id enabled note = record {
  user_id = k;
  amount = pos 0;
  kind = adjustment;
  actor_id = some actor_id;
  note = some (take max_note (pro_note enabled note));
  price_snapshot = none;
  require_sufficient = false;
  reference = none;
}

-- The end of a route on the ledger: the row's id, or what it raises.
abbrev pub ledger_closed : (Panel → Panel) → Panel → Result Receipt × Conn → Reply ℕ × Panel
ledger_closed finish p (ok r, c) = (answered r.tx_id, finish (record p { db = c.live }))
ledger_closed finish p (err e, c) = (declined (ledger_refusal e), p)

abbrev pub pro_finished : ℕ → ℕ → ℕ → Option ℕ → Panel → Panel
pro_finished now actor_id k until p =
    log_admin_action now actor_id (codes "users.pro") k
      (record p { pro_until = set_column k until p.pro_until })

-- The UPDATE of `set_user_pro`, then the ledger.
abbrev pub pro_written : ℕ → User → Bool → Db → Db
pro_written k u enabled d = record d { users = put_user k (pro_user enabled u) d.users }

abbrev pub pro_applied : ℕ → ℕ → ℕ → Bool → Option Text → Db → User → Result Receipt × Conn
pro_applied now actor_id k enabled memo d u =
    apply_balance_change now (pro_change k actor_id enabled memo)
      (fresh (pro_written k u enabled d))

abbrev pub pro_updated :
    ℕ → ℕ → ℕ → ProRequest → Option Text → Panel → Option User → Reply ℕ × Panel
pro_updated now actor_id k body memo p none = (declined not_found, p)
pro_updated now actor_id k body memo p (some u) =
    ledger_closed (pro_finished now actor_id k (pro_until_of now body.enabled body.days)) p
      (pro_applied now actor_id k body.enabled memo p.db u)

-- `BanRequest`
pub record BanRequest : Type 0 where
  pub banned : Bool
  pub reason : Option Text

-- `_revoke_sessions`: how many sessions it ended
abbrev pub unused_handoff : ℕ → Handoff → Bool
unused_handoff k h = (h.user_id == k) && (h.used == 0)

abbrev pub sessions_of : ℕ → List Session → List Session
sessions_of k rows = keep (λ s. s.user_id == k) rows

abbrev pub revoke_sessions : ℕ → ℕ → Panel → Panel
revoke_sessions now k p = record p {
  bot_links_before = set_column k (some now) p.bot_links_before;
  sessions = keep (λ s. not (s.user_id == k)) p.sessions;
  handoffs = keep (λ h. not (unused_handoff k h)) p.handoffs;
}

abbrev pub banned_user : Bool → User → User
banned_user banned u = record u { banned = some (if banned then 1 else 0) }

abbrev pub with_ban : ℕ → BanRequest → Option Text → User → Panel → Panel
with_ban k body reason u p = record p {
  db = record p.db { users = put_user k (banned_user body.banned u) p.db.users };
  banned_reason = set_column k (if body.banned then reason else none) p.banned_reason;
}

abbrev pub ban_updated :
    ℕ → ℕ → ℕ → BanRequest → Option Text → Panel → Option User → Reply ℕ × Panel
ban_updated now actor_id k body reason p none = (declined not_found, p)
ban_updated now actor_id k body reason p (some u) =
    let q = with_ban k body reason u p in
    if body.banned
    then (
      answered (length (sessions_of k p.sessions)),
      log_admin_action now actor_id (codes "users.ban") k (revoke_sessions now k q),
    )
    else (answered 0, log_admin_action now actor_id (codes "users.ban") k q)

abbrev pub sessions_revoked : ℕ → ℕ → ℕ → Panel → Option User → Reply ℕ × Panel
sessions_revoked now actor_id k p none = (declined not_found, p)
sessions_revoked now actor_id k p (some u) = (
  answered (length (sessions_of k p.sessions)),
  log_admin_action now actor_id (codes "users.sessions_revoke") k (revoke_sessions now k p),
)

module _ (admin_ids : ℕ → Bool) (now : ℕ) (actor : Actor) (seen : Panel) (k : ℕ) where
  unfoldable pub set_user_pro : ProRequest → Panel → Reply ℕ × Panel
  unfolding clean_note
  set_user_pro body p = when (is_pro_request body) (validation_error (codes "body")) p (
      with_note (clean_note body.note) p λ memo.
        when (body.enabled || is_none body.days) (validation_error (codes "days")) p (
          guarded (target_admin_role admin_ids k seen) actor.role p
            (pro_updated now actor.user_id k body memo p (p.db.users k))))

  -- `between` is what other connections commit between the reads and the writes of the ledger's
  -- rounds.
  unfoldable pub reset_user : (ℕ → Db → Db) → ℕ → Option Text → Panel → Reply ℕ × Panel
  unfolding clean_note
  reset_user between user_id body_note p =
      when (ltb 0 user_id && note_fits body_note) (validation_error (codes "body")) p (
        when (user_id == k) (validation_error (codes "user_id")) p (
          with_note (clean_note body_note) p λ memo.
            guarded (target_admin_role admin_ids k seen) actor.role p (
              ledger_closed (log_admin_action now actor.user_id (codes "users.reset") k) p
                (Ledger.reset_user between now k (some actor.user_id) memo (fresh p.db)))))

  unfoldable pub set_user_ban : BanRequest → Panel → Reply ℕ × Panel
  unfolding clean_note
  set_user_ban body p = when (note_fits body.reason) (validation_error (codes "body")) p (
      with_note (clean_note body.reason) p λ reason.
        guarded (target_admin_role admin_ids k seen) actor.role p
          (ban_updated now actor.user_id k body reason p (p.db.users k)))

  unfoldable pub revoke_user_sessions : ℕ → Panel → Reply ℕ × Panel
  revoke_user_sessions user_id p = when (ltb 0 user_id) (validation_error (codes "body")) p (
      when (user_id == k) (validation_error (codes "user_id")) p (
        guarded (target_admin_role admin_ids k seen) actor.role p
          (sessions_revoked now actor.user_id k p (p.db.users k))))
