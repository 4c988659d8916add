-- ===== src/Admin/History/Guard.antt =====
-- The guard on targets, `_guard_target` of webapp/routers/admin_users.py, over every request.
use vakant.Prelude.{ℕ, ◌≡◌, refl, true, Option}
use vakant.Prelude.Text.{Text}
use vakant.Admin.{Panel}
use vakant.Admin.Roles.{target_admin_role, outranks_or_equals}
use vakant.Admin.Requests.{Server, BalanceRequest, change_user_balance}
use vakant.Admin.Requests.Passes.{
  Leaves, when-Leaves, with_note-Leaves, with_key-Leaves, guarded-stops,
}
use vakant.Admin.Accounts.{
  ProRequest, BanRequest, set_user_pro, reset_user, set_user_ban, revoke_user_sessions,
}
use vakant.Admin.History.{Call, Ask, balance, pro, reset, ban, revoke, ask, undisturbed}

module _ (server : Server) (x : Call) (p : Panel)
    (above : outranks_or_equals (target_admin_role server.admin_ids x.on x.seen) x.by.role
      ≡ true) where
  abbrev Same : Panel → Type 0
  Same q = q ≡ p

  balance-Same :
      (header : Option Text) (body : BalanceRequest)
      → Leaves Same (change_user_balance server x.at x.by x.seen x.on header body p)
  unfolding change_user_balance
  balance-Same header body = when-Leaves Same p refl _ _ _ (
      when-Leaves Same p refl _ _ _ (
        when-Leaves Same p refl _ _ _ (
          with_note-Leaves Same p refl _ _
            λ memo. with_key-Leaves Same p refl _ _ λ key. guarded-stops p _ _ _ above)))

  pro-Same :
      (body : ProRequest) → Leaves Same (set_user_pro server.admin_ids x.at x.by x.seen x.on body p)
  unfolding set_user_pro
  pro-Same body = when-Leaves Same p refl _ _ _ (
      with_note-Leaves Same p refl _ _
        λ memo. when-Leaves Same p refl _ _ _ (guarded-stops p _ _ _ above))

  reset-Same :
      (user_id : ℕ) (body_note : Option Text)
      → Leaves Same
          (reset_user server.admin_ids x.at x.by x.seen x.on undisturbed user_id body_note p)
  unfolding reset_user
  reset-Same user_id body_note = when-Leaves Same p refl _ _ _ (
      when-Leaves Same p refl _ _ _
        (with_note-Leaves Same p refl _ _ λ memo. guarded-stops p _ _ _ above))

  ban-Same :
      (body : BanRequest) → Leaves Same (set_user_ban server.admin_ids x.at x.by x.seen x.on body p)
  unfolding set_user_ban
  ban-Same body =
      when-Leaves Same p refl _ _ _
        (with_note-Leaves Same p refl _ _ λ reason. guarded-stops p _ _ _ above)

  revoke-Same :
      (user_id : ℕ)
      → Leaves Same (revoke_user_sessions server.admin_ids x.at x.by x.seen x.on user_id p)
  unfolding revoke_user_sessions
  revoke-Same user_id =
      when-Leaves Same p refl _ _ _ (when-Leaves Same p refl _ _ _ (guarded-stops p _ _ _ above))

  -- A request on a user whose role, as the guard read it, ranks with the actor's or above, writes
  -- nothing, whichever of the routes it takes.
  pub ask_outranked : (a : Ask) → ask server x a p ≡ p
  unfolding Leaves
  ask_outranked (balance header body) = balance-Same header body
  ask_outranked (pro body) = pro-Same body
  ask_outranked (reset user_id body_note) = reset-Same user_id body_note
  ask_outranked (ban body) = ban-Same body
  ask_outranked (revoke user_id) = revoke-Same user_id
