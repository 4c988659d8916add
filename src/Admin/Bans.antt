-- ===== src/Admin/Bans.antt =====
-- What a ban does to the Mini App: `set_user_ban` of webapp/routers/admin_users.py, then
-- `require_role` of webapp/core/auth.py.
use vakant.Prelude.{
  ℕ, ◌≡◌, ◌≢◌, refl, Bool, true, false, not, Option, none, some, List, [], ◌∷◌, any, keep, ◌==◌,
  Bool-cases, inl, inr, ap, sym, ◌∙◌, subst,
}
use vakant.Prelude.Text.{Text}
use vakant.Db.{User, Db, put_user, put_user_self}
use vakant.Admin.{Panel, Session}
use vakant.Admin.Roles.{Role, is_banned}
use vakant.Admin.Sessions.{Actor, granted, Settings, require_role}
use vakant.Admin.Sessions.Grants.{require_role-IsGranted}
use vakant.Admin.Requests.{answered}
use vakant.Admin.Requests.Passes.{when-answered, with_note-answered, guarded-answered}
use vakant.Admin.Accounts.{BanRequest, banned_user, ban_updated, set_user_ban}

-- No session of the user is left.
keep-others :
    (k : ℕ) (rows : List Session)
    → any (λ s. s.user_id == k) (keep (λ s. not (s.user_id == k)) rows) ≡ false
keep-others k [] = refl
keep-others k (s ∷ rows) = elim (Bool-cases (s.user_id == k)) [
  | inl his ↦ rw his (keep-others k rows)
  | inr other ↦ rw other (rw other (keep-others k rows))
]

-- What an answered ban left.
record IsOut (k : ℕ) (q : Panel) : Type 0 where
  banned : is_banned k q.db ≡ true
  gone : any (λ s. s.user_id == k) q.sessions ≡ false

ban_updated-IsOut :
    (now b k : ℕ) (body : BanRequest) (reason : Option Text) (p : Panel) (o : Option User) (n : ℕ)
    (q : Panel)
    → body.banned ≡ true
    → ban_updated now b k body reason p o ≡ (answered n, q)
    → IsOut k q
unfolding is_banned
ban_updated-IsOut now b k body reason p none n q on h = cc
ban_updated-IsOut now b k body reason p (some u) n q on h =
    let users : put_user k (banned_user true u) p.db.users ≡ q.db.users =
      ap (λ x. x.1.db.users) (rw on at h) in
    let sessions : keep (λ s. not (s.user_id == k)) p.sessions ≡ q.sessions =
      ap (λ x. x.1.sessions) (rw on at h) in
    let row : q.db.users k ≡ some (banned_user true u) =
      ap (λ (f : ℕ → Option User). f k) (sym users)
      ∙ put_user_self k (banned_user true u) p.db.users in
    record {
      banned = rw (row, is_banned) refl;
      gone =
          subst (λ rows. any (λ s. s.user_id == k) rows ≡ false) sessions
            (keep-others k p.sessions);
    }

set_user_ban-IsOut :
    (admin_ids : ℕ → Bool) (now : ℕ) (actor : Actor) (seen : Panel) (k : ℕ) (body : BanRequest)
    (p q : Panel) (n : ℕ)
    → body.banned ≡ true
    → set_user_ban admin_ids now actor seen k body p ≡ (answered n, q)
    → IsOut k q
unfolding set_user_ban
set_user_ban-IsOut admin_ids now actor seen k body p q n on h =
    let (_, h1) = when-answered p n q _ _ _ h in
    let (reason, _, h2) = with_note-answered p n q _ _ h1 in
    let (_, h3) = guarded-answered p n q _ _ _ h2 in
    ban_updated-IsOut now actor.user_id k body reason p (p.db.users k) n q on h3

banned_by : (k : ℕ) (d d' : Db) → d.users k ≡ d'.users k → is_banned k d ≡ is_banned k d'
unfolding is_banned
banned_by k d d' e = rw (e, is_banned) refl

-- After an answered ban, as long as the table of users stays as the ban left it, a request that
-- `require_role` grants is not of the banned user: at any time, with any header, whatever sessions
-- are made and whatever role the panel gives.
pub set_user_ban-require_role :
    (env : Settings) (now now' : ℕ) (actor actor' : Actor) (seen : Panel) (k : ℕ)
    (body : BanRequest) (p q later later' : Panel) (n : ℕ) (min_role : Role) (authorization : Text)
    → body.banned ≡ true
    → set_user_ban env.admin_ids now actor seen k body p ≡ (answered n, q)
    → later.db.users ≡ q.db.users
    → require_role env min_role now' authorization later ≡ (granted actor', later')
    → actor'.user_id ≢ k
set_user_ban-require_role env now now' actor actor' seen k body p q later later' n min_role
      authorization on h same grants is_him =
    let out = set_user_ban-IsOut env.admin_ids now actor seen k body p q n on h in
    let fine =
      (require_role-IsGranted env min_role now' authorization later actor' later' grants).0 in
    let free : is_banned k later.db ≡ false =
      subst (λ j. is_banned j later.db ≡ false) is_him fine.not_banned in
    clash
      (sym (banned_by k later.db q.db (ap (λ (f : ℕ → Option User). f k) same) ∙ out.banned) ∙ free)
  where
    clash : true ≡ false → ⊥
    clash e = cc
