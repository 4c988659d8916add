-- ===== src/Admin/Sessions/Grants.antt =====
-- What a granted admin request has shown (webapp/core/auth.py and webapp/core/session.py).
use vakant.Prelude.{
  ℕ, ◌≡◌, ◌≤◌, ◌<◌, refl, false, Option, none, some, [], leb, or_default, Bool-cases, Option-cases,
  inl, inr, arith, sym, ap, ◌∙◌, subst, leb→le,
}
use vakant.Prelude.Int.{ℤ, pos, leb_ℤ}
use vakant.Prelude.Text.{Text, codes, after_prefix, strip, is_empty}
use vakant.Admin.{Panel, Session}
use vakant.Admin.Roles.{Role, role_rank, resolve_admin_role, resolve_admin_role-db, is_banned}
use vakant.Admin.Sessions.{
  Payload, Checked, AuthError, granted, refused, Actor, Settings, session_row, loaded,
  load_session_user, decode, unexpired, decode_session_token, session_of, found_user, user_of_token,
  with_role, admit, bearer, require_admin, ranked, require_role,
}

-- A session of the user that is in the table and has not run out.
pub record HasSession (now : ℕ) (sid : Text) (k : ℕ) (p : Panel) : Type 0 where
  pub session : Session
  pub found : session_row sid p.sessions ≡ some session
  pub owned : session.user_id ≡ k
  pub live : now < session.expires_at

loaded-granted :
    (now : ℕ) (sid : Text) (p : Panel) (row : Option Session) (k : ℕ) (p' : Panel)
    → session_row sid p.sessions ≡ row
    → loaded now sid p row ≡ (some k, p')
    → HasSession now sid k p × (p' ≡ p)
loaded-granted now sid p none k p' e h = cc
loaded-granted now sid p (some s) k p' e h = elim (Bool-cases (leb s.expires_at now)) [
  | inl over ↦ absurd (none_some (ap (λ x. x.0) (rw over at h)))
  | inr live ↦ elim (Option-cases (p.db.users s.user_id)) [
    | inl missing ↦ absurd (none_some (ap (λ x. x.0) (rw missing at (rw live at h))))
    | inr (u, there) ↦
        let out : (some s.user_id, p) ≡ (some k, p') = rw there at (rw live at h) in
        (
          record {
            session = s;
            found = e;
            owned = some_inj (ap (λ x. x.0) out);
            live = late s.expires_at live;
          },
          sym (ap (λ x. x.1) out),
        )
  ]
]
  where
    late : (n : ℕ) → leb n now ≡ false → now < n
    late n h = ground (arith, h)

    none_some : {k : ℕ} → ◌≡◌ {A = Option ℕ} none (some k) → ⊥
    none_some e = cc

    some_inj : {j k : ℕ} → ◌≡◌ {A = Option ℕ} (some j) (some k) → j ≡ k
    some_inj e = cc

module _ (env : Settings) where
  -- A token that was signed with the secret, and has not run out.
  pub record IsSigned (now : ℕ) (token : Text) (payload : Payload) : Type 0 where
    pub signed : env.verified token ≡ some payload
    pub exp : ℤ
    pub expires : payload.exp ≡ some exp
    pub in_time : leb_ℤ exp (pos now) ≡ false

  pub decode-some :
      (now : ℕ) (token : Text) (payload : Payload)
      → decode_session_token env now token ≡ some payload
      → IsSigned now token payload
  unfolding decode_session_token
  decode-some now token payload h = elim (Option-cases (env.verified token)) [
    | inl bad ↦ absurd (not_none (rw (bad, decode) at h))
    | inr (found, signed) ↦ elim (Option-cases found.exp) [
      | inl unread ↦ absurd (not_none (rw (unread, unexpired) at (rw (signed, decode) at h)))
      | inr (exp, expires) ↦ elim (Bool-cases (leb_ℤ exp (pos now))) [
        | inl over ↦
            absurd (not_none (rw over at (rw (expires, unexpired) at (rw (signed, decode) at h))))
        | inr alive ↦
            let out : some found ≡ some payload =
              rw alive at (rw (expires, unexpired) at (rw (signed, decode) at h)) in
            let same : found ≡ payload = cc in
            record {
              signed = signed ∙ out;
              exp = exp;
              expires = ap (λ (x : Payload). x.exp) (sym same) ∙ expires;
              in_time = alive;
            }
      ]
    ]
  ]
    where
      not_none : ◌≡◌ {A = Option Payload} none (some payload) → ⊥
      not_none e = cc

  found_user-granted :
      (r : Option ℕ × Panel) (k : ℕ) (p' : Panel)
      → found_user env r ≡ (granted k, p')
      → r ≡ (some k, p')
  found_user-granted (none, p) k p' h = cc
  found_user-granted (some j, p) k p' h = cc

  -- What a request for the user of a token has shown.
  pub record HasIdentity (now : ℕ) (token : Text) (k : ℕ) (p : Panel) : Type 0 where
    pub payload : Payload
    pub signed : IsSigned now (strip token) payload
    pub session : HasSession now (strip (or_default [] payload.sid)) k p

  not_granted :
      {A : Type 0} {e : AuthError} {a : A} {p p' : Panel}
      → ◌≡◌ {A = Checked A × Panel} (refused e, p) (granted a, p')
      → ⊥
  not_granted h = cc

  user_of_token-granted :
      (now : ℕ) (token : Text) (p : Panel) (k : ℕ) (p' : Panel)
      → user_of_token env now token p ≡ (granted k, p')
      → HasIdentity now token k p × (p' ≡ p)
  unfolding load_session_user
  user_of_token-granted now token p k p' h =
      elim (Option-cases (decode_session_token env now (strip token))) [
        | inl bad ↦ absurd (not_granted (rw (bad, session_of) at h))
        | inr (payload, good) ↦ elim (Bool-cases (is_empty (strip (or_default [] payload.sid)))) [
          | inl empty ↦ absurd (not_granted (rw empty at (rw (good, session_of) at h)))
          | inr named ↦
              let out =
                found_user-granted (load_session_user now (strip (or_default [] payload.sid)) p) k
                  p' (rw named at (rw (good, session_of) at h)) in
              let (session, same) =
                loaded-granted now (strip (or_default [] payload.sid)) p
                  (session_row (strip (or_default [] payload.sid)) p.sessions) k p' refl out in
              (
                record {
                  payload = payload;
                  signed = decode-some now (strip token) payload good;
                  session = session;
                },
                same,
              )
        ]
      ]

  -- What a granted request has shown: a Bearer token of a live session, the role of its user, and
  -- that no ban stands.
  pub record IsGranted (now : ℕ) (authorization : Text) (actor : Actor) (p : Panel) : Type 0 where
    pub token : Text
    pub is_bearer : after_prefix (codes "Bearer ") authorization ≡ some token
    pub identity : HasIdentity now token actor.user_id p
    pub role : (resolve_admin_role env.admin_ids now actor.user_id p).0 ≡ some actor.role
    pub not_banned : is_banned actor.user_id p.db ≡ false

  with_role-granted :
      (k : ℕ) (r : Option Role) (q : Panel) (actor : Actor) (p' : Panel)
      → with_role env k (r, q) ≡ (granted actor, p')
      → (actor.user_id ≡ k) × (r ≡ some actor.role) × (is_banned k q.db ≡ false)
  with_role-granted k none q actor p' h = absurd (not_granted h)
  with_role-granted k (some role) q actor p' h = elim (Bool-cases (is_banned k q.db)) [
    | inl banned ↦ absurd (not_granted (rw banned at h))
    | inr fine ↦
        let out : ◌≡◌ {A = Checked Actor × Panel} (granted (record { user_id = k; role = role }), q)
            (granted actor, p') =
          rw fine at h in
        let same : record { user_id = k; role = role } ≡ actor = cc in
        (ap (λ (a : Actor). a.user_id) (sym same), ap (λ (a : Actor). some a.role) same, fine)
  ]

  require_admin-granted :
      (now : ℕ) (authorization : Text) (p : Panel) (actor : Actor) (p' : Panel)
      → require_admin env now authorization p ≡ (granted actor, p')
      → IsGranted now authorization actor p
  unfolding require_admin
  require_admin-granted now authorization p actor p' h =
      elim (Option-cases (after_prefix (codes "Bearer ") authorization)) [
        | inl anonymous ↦ absurd (not_granted (rw (anonymous, bearer) at h))
        | inr (token, is_bearer) ↦
            let_in token is_bearer (user_of_token env now token p) refl
              (rw (is_bearer, bearer) at h)
      ]
    where
      let_in :
          (token : Text)
          → after_prefix (codes "Bearer ") authorization ≡ some token
          → (r : Checked ℕ × Panel) → user_of_token env now token p ≡ r
          → admit env now r ≡ (granted actor, p')
          → IsGranted now authorization actor p
      let_in token is_bearer (refused e, q) from out = absurd (not_granted out)
      let_in token is_bearer (granted k, q) from out =
          let (identity, same) = user_of_token-granted now token p k q from in
          let (who, role, fine) =
            with_role-granted k (resolve_admin_role env.admin_ids now k q).0
              (resolve_admin_role env.admin_ids now k q).1 actor p' out in
          record {
            token = token;
            is_bearer = is_bearer;
            identity = subst (λ j. HasIdentity now token j p) (sym who) identity;
            role =
                subst (λ j. (resolve_admin_role env.admin_ids now j p).0 ≡ some actor.role)
                  (sym who)
                  (subst (λ x. (resolve_admin_role env.admin_ids now k x).0 ≡ some actor.role) same
                    role);
            not_banned =
                subst (λ j. is_banned j p.db ≡ false) (sym who)
                  (subst (λ d. is_banned k d ≡ false)
                    (resolve_admin_role-db env.admin_ids now k q ∙ ap (λ (x : Panel). x.db) same)
                    fine);
          }

  ranked-granted :
      (min_role : Role) (out : Checked Actor) (q : Panel) (actor : Actor) (p' : Panel)
      → ranked env min_role (out, q) ≡ (granted actor, p')
      → ◌≡◌ {A = Checked Actor × Panel} (out, q) (granted actor, p')
        × (role_rank min_role ≤ role_rank actor.role)
  ranked-granted min_role (refused e) q actor p' h = absurd (not_granted h)
  ranked-granted min_role (granted a) q actor p' h =
      elim (Bool-cases (leb (role_rank min_role) (role_rank a.role))) [
        | inr below ↦ absurd (not_granted (rw below at h))
        | inl high ↦
            let out : ◌≡◌ {A = Checked Actor × Panel} (granted a, q) (granted actor, p') =
              rw high at h in
            let same : a ≡ actor = cc in
            (
              out,
              subst (λ (x : Actor). role_rank min_role ≤ role_rank x.role) same (leb→le _ _ high),
            )
      ]

  -- A request that `require_role` grants carries a Bearer token that was signed with the secret and
  -- has not run out, of a session in the table that has not run out either. The actor is the user
  -- of that session, with the role that the panel gives them now, which is at least the role asked
  -- for, and is not banned.
  pub require_role-IsGranted :
      (min_role : Role) (now : ℕ) (authorization : Text) (p : Panel) (actor : Actor) (p' : Panel)
      → require_role env min_role now authorization p ≡ (granted actor, p')
      → IsGranted now authorization actor p × (role_rank min_role ≤ role_rank actor.role)
  unfolding require_role
  require_role-IsGranted min_role now authorization p actor p' h =
      let (out, high) =
        ranked-granted min_role (require_admin env now authorization p).0
          (require_admin env now authorization p).1 actor p' h in
      (require_admin-granted now authorization p actor p' out, high)
