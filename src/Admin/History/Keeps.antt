-- ===== src/Admin/History/Keeps.antt =====
-- A predicate of the panel that holds before a request of webapp/routers/admin_users.py holds after
-- it if the request's transaction keeps it.
use vakant.Prelude.{ℕ, Option, some}
use vakant.Prelude.Text.{Text, codes}
use vakant.Db.{fresh}
use vakant.Ledger.{Receipt}
use vakant.Ledger
use vakant.Admin.{Panel}
use vakant.Admin.Requests.{
  Server, BalanceRequest, balance_transaction, change_user_balance, log_admin_action,
}
use vakant.Admin.Requests.Passes.{
  Leaves, when-Leaves, with_note-Leaves, with_key-Leaves, guarded-Leaves,
}
use vakant.Admin.Accounts.{
  ProRequest, BanRequest, ledger_closed, pro_updated, ban_updated, sessions_revoked, set_user_pro,
  reset_user, set_user_ban, revoke_user_sessions,
}
use vakant.Admin.History.{Call, Ask, balance, pro, reset, ban, revoke, ask, undisturbed}

module _ {ℓ} (server : Server) (P : Panel → Type ℓ) (x : Call) (p : Panel) (before : P p) where
  -- What each transaction has to keep.
  unfoldable pub Keeps : Ask → Type ℓ
  Keeps (balance header body) =
      (memo key : Option Text)
      → Leaves P (balance_transaction server x.at x.by.user_id x.on body.amount memo key p)
  Keeps (pro body) =
      (memo : Option Text)
      → Leaves P (pro_updated x.at x.by.user_id x.on body memo p (p.db.users x.on))
  Keeps (reset user_id body_note) =
      (memo : Option Text)
      → Leaves P (
          ledger_closed (log_admin_action x.at x.by.user_id (codes "users.reset") x.on) p
            (Ledger.reset_user undisturbed x.at x.on (some x.by.user_id) memo (fresh p.db)))
  Keeps (ban body) =
      (reason : Option Text)
      → Leaves P (ban_updated x.at x.by.user_id x.on body reason p (p.db.users x.on))
  Keeps (revoke user_id) = Leaves P (sessions_revoked x.at x.by.user_id x.on p (p.db.users x.on))

  balance-Leaves :
      (header : Option Text) (body : BalanceRequest)
      → Keeps (balance header body)
      → Leaves P (change_user_balance server x.at x.by x.seen x.on header body p)
  unfolding Keeps change_user_balance
  balance-Leaves header body after = when-Leaves P p before _ _ _ (
      when-Leaves P p before _ _ _ (
        when-Leaves P p before _ _ _ (
          with_note-Leaves P p before _ _ λ memo.
            with_key-Leaves P p before _ _
              λ key. guarded-Leaves P p before _ _ _ (after memo key))))

  pro-Leaves :
      (body : ProRequest)
      → Keeps (pro body)
      → Leaves P (set_user_pro server.admin_ids x.at x.by x.seen x.on body p)
  unfolding Keeps set_user_pro
  pro-Leaves body after = when-Leaves P p before _ _ _ (
      with_note-Leaves P p before _ _
        λ memo. when-Leaves P p before _ _ _ (guarded-Leaves P p before _ _ _ (after memo)))

  reset-Leaves :
      (user_id : ℕ) (body_note : Option Text)
      → Keeps (reset user_id body_note)
      → Leaves P (reset_user server.admin_ids x.at x.by x.seen x.on undisturbed user_id body_note p)
  unfolding Keeps reset_user
  reset-Leaves user_id body_note after = when-Leaves P p before _ _ _ (
      when-Leaves P p before _ _ _
        (with_note-Leaves P p before _ _ λ memo. guarded-Leaves P p before _ _ _ (after memo)))

  ban-Leaves :
      (body : BanRequest)
      → Keeps (ban body)
      → Leaves P (set_user_ban server.admin_ids x.at x.by x.seen x.on body p)
  unfolding Keeps set_user_ban
  ban-Leaves body after =
      when-Leaves P p before _ _ _
        (with_note-Leaves P p before _ _ λ reason. guarded-Leaves P p before _ _ _ (after reason))

  revoke-Leaves :
      (user_id : ℕ)
      → Keeps (revoke user_id)
      → Leaves P (revoke_user_sessions server.admin_ids x.at x.by x.seen x.on user_id p)
  unfolding Keeps revoke_user_sessions
  revoke-Leaves user_id after =
      when-Leaves P p before _ _ _
        (when-Leaves P p before _ _ _ (guarded-Leaves P p before _ _ _ after))

  pub ask-keeps : (a : Ask) → Keeps a → P (ask server x a p)
  unfolding Leaves
  ask-keeps (balance header body) after = balance-Leaves header body after
  ask-keeps (pro body) after = pro-Leaves body after
  ask-keeps (reset user_id body_note) after = reset-Leaves user_id body_note after
  ask-keeps (ban body) after = ban-Leaves body after
  ask-keeps (revoke user_id) after = revoke-Leaves user_id after
