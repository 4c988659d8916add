-- ===== src/Web/Limiter.antt =====
-- The keys of the rate limits, webapp/core/limiter.py. Session tokens are decoded as in
-- webapp/core/session.py, and initData is verified as in webapp/core/telegram_auth.py.
use vakant.Prelude.{
  ℕ, ◌≡◌, ◌≢◌, ◌⊎◌, refl, Option, none, some, [], ◌∷◌, ◌++◌, ◌==◌, if◌then◌else◌, or_default,
  Option-cases, Bool-cases, inl, inr, sym, arith, subst,
}
use vakant.Prelude.Text.{Text, codes, decimal, after_prefix, strip, is_empty}
use vakant.Db.Exec.{Result, ok, err}
use vakant.Web.InitData.{
  Telegram, verify_webapp_init_data, IsInitData, verify_webapp_init_data-IsInitData,
}
use vakant.Admin.Sessions.{Payload, Settings, decode_session_token}
use vakant.Admin.Sessions.Grants.{IsSigned, decode-some}

-- The settings under which session tokens verify, and those under which initData does.
pub record Verifiers : Type 0 where
  pub settings : Settings
  pub telegram : Telegram

-- A request: what `request.state` holds, the two headers, and the address.
pub record Request : Type 0 where
  pub cached : Option Text
  pub user_id : Option ℕ
  pub authorization : Text
  pub init_data : Text
  pub ip : Text

module _ (v : Verifiers) (now : ℕ) where
  abbrev pub session_key : Text → Option Text
  session_key [] = none
  session_key (c ∷ s) = some (codes "sess:" ++ (c ∷ s))

  abbrev pub payload_key : Option Payload → Option Text
  payload_key none = none
  payload_key (some payload) = session_key (strip (or_default [] payload.sid))

  abbrev pub token_key : Text → Option Text
  token_key [] = none
  token_key (c ∷ s) = payload_key (decode_session_token v.settings now (c ∷ s))

  abbrev pub bearer_key : Option Text → Option Text
  bearer_key none = none
  bearer_key (some token) = token_key (strip token)

  -- `_verified_session_key`
  unfoldable pub verified_session_key : Text → Option Text
  verified_session_key authorization = bearer_key (after_prefix (codes "Bearer ") authorization)

  abbrev pub user_key : Text → Option ℕ → Option Text
  user_key kind none = none
  user_key kind (some user_id) = if user_id == 0 then none else some (kind ++ decimal user_id)

  -- The id of the user that was verified; none for an exception as well.
  abbrev pub user_of : Result (Option Text) → Option ℕ
  user_of (ok (some user)) = v.telegram.user_id user
  user_of (ok none) = none
  user_of (err e) = none

  -- `_verified_init_data_key`
  unfoldable pub verified_init_data_key : Text → Option Text
  verified_init_data_key [] = none
  verified_init_data_key (c ∷ s) =
      if is_empty v.telegram.token
      then none
      else user_key (codes "tg:") (user_of (verify_webapp_init_data v.telegram now (c ∷ s)))

  -- `a or b`
  abbrev pub first_of : Option Text → Option Text → Option Text
  first_of none key = key
  first_of (some key) other = some key

  -- `_identity_key`
  unfoldable pub identity_key : Request → Option Text
  identity_key r =
      first_of (user_key (codes "u:") r.user_id) (
        first_of (verified_session_key r.authorization)
          (verified_init_data_key (strip r.init_data)))

  abbrev pub keyed : Request → Option Text → Text × Request
  keyed r (some key) = (key, r)
  keyed r none =
      let key = or_default (codes "ip:" ++ r.ip) (identity_key r) in
      (key, record r { cached = some key })

  -- `rate_limit_key`, and what it leaves in `request.state`
  unfoldable pub rate_limit_key : Request → Text × Request
  rate_limit_key r = keyed r r.cached

  -- The key of the user that the server has resolved.
  pub record IsUserKey (r : Request) (key : Text) : Type 0 where
    pub user_id : ℕ
    pub known : r.user_id ≡ some user_id
    pub some_user : user_id ≢ 0
    pub same : key ≡ codes "u:" ++ decimal user_id

  -- The key of the session of the caller's own Bearer token, which the server has signed and which
  -- has not run out.
  pub record IsSessionKey (r : Request) (key : Text) : Type 0 where
    pub token : Text
    pub payload : Payload
    pub sent : after_prefix (codes "Bearer ") r.authorization ≡ some token
    pub signed : IsSigned v.settings now (strip token) payload
    pub named : strip (or_default [] payload.sid) ≢ []
    pub same : key ≡ codes "sess:" ++ strip (or_default [] payload.sid)

  -- The key of the user of the caller's own initData, which Telegram has signed for the bot.
  pub record IsInitDataKey (r : Request) (key : Text) : Type 0 where
    pub user_id : ℕ
    pub user : Text
    pub verified : IsInitData v.telegram now (strip r.init_data) user
    pub has_id : v.telegram.user_id user ≡ some user_id
    pub some_user : user_id ≢ 0
    pub same : key ≡ codes "tg:" ++ decimal user_id

  abbrev pub IsVerified : Request → Text → Type 0
  IsVerified r key =
      IsUserKey r key ⊎ (IsSessionKey r key ⊎ (IsInitDataKey r key ⊎ (key ≡ codes "ip:" ++ r.ip)))

  none-some : {k : Text} → ◌≡◌ {A = Option Text} none (some k) → ⊥
  none-some e = cc

  session_key-some :
      (sid key : Text) → session_key sid ≡ some key → (sid ≢ []) × (key ≡ codes "sess:" ++ sid)
  session_key-some [] key h = absurd (none-some h)
  session_key-some (c ∷ s) key h = (λ e. cc, cc)

  token_key-some :
      (r : Request) (raw token key : Text)
      → after_prefix (codes "Bearer ") r.authorization ≡ some raw
      → strip raw ≡ token
      → token_key token ≡ some key
      → IsSessionKey r key
  token_key-some r raw [] key bearer stripped h = absurd (none-some h)
  token_key-some r raw (c ∷ s) key bearer stripped h =
      elim (Option-cases (decode_session_token v.settings now (c ∷ s))) [
        | inl bad ↦ absurd (none-some (rw (bad, payload_key) at h))
        | inr (payload, good) ↦
            let (named, same) =
              session_key-some (strip (or_default [] payload.sid)) key
                (rw (good, payload_key) at h) in
            record {
              token = raw;
              payload = payload;
              sent = bearer;
              signed =
                  subst (λ t. IsSigned v.settings now t payload) (sym stripped)
                    (decode-some v.settings now (c ∷ s) payload good);
              named = named;
              same = same;
            }
      ]

  bearer_key-some :
      (r : Request) (sent : Option Text) (key : Text)
      → after_prefix (codes "Bearer ") r.authorization ≡ sent
      → bearer_key sent ≡ some key
      → IsSessionKey r key
  bearer_key-some r none key bearer h = absurd (none-some h)
  bearer_key-some r (some token) key bearer h =
      token_key-some r token (strip token) key bearer refl h

  user_key-some :
      (kind : Text) (user_id : Option ℕ) (key : Text)
      → user_key kind user_id ≡ some key
      → (k : ℕ) × (user_id ≡ some k) × (k ≢ 0) × (key ≡ kind ++ decimal k)
  user_key-some kind none key h = absurd (none-some h)
  user_key-some kind (some k) key h = elim (Bool-cases (k == 0)) [
    | inl nobody ↦ absurd (none-some (rw nobody at h))
    | inr somebody ↦ (k, refl, ground (arith, somebody), sym (some_parts (rw somebody at h)))
  ]
    where
      some_parts : {a b : Text} → some a ≡ some b → a ≡ b
      some_parts e = cc

  user_of-some :
      (sent : Text) (out : Result (Option Text)) (k : ℕ)
      → verify_webapp_init_data v.telegram now sent ≡ out
      → user_of out ≡ some k
      → (user : Text) × IsInitData v.telegram now sent user × (v.telegram.user_id user ≡ some k)
  user_of-some sent (err e) k says h = absurd (no_id h)
    where
      no_id : ◌≡◌ {A = Option ℕ} none (some k) → ⊥
      no_id e = cc
  user_of-some sent (ok none) k says h = absurd (no_id h)
    where
      no_id : ◌≡◌ {A = Option ℕ} none (some k) → ⊥
      no_id e = cc
  user_of-some sent (ok (some user)) k says h =
      (user, verify_webapp_init_data-IsInitData v.telegram now sent user says, h)

  verified_init_data_key-some :
      (r : Request) (sent key : Text)
      → strip r.init_data ≡ sent
      → verified_init_data_key sent ≡ some key
      → IsInitDataKey r key
  unfolding verified_init_data_key
  verified_init_data_key-some r [] key stripped h = absurd (none-some h)
  verified_init_data_key-some r (c ∷ s) key stripped h =
      elim (Bool-cases (is_empty v.telegram.token)) [
        | inl off ↦ absurd (none-some (rw off at h))
        | inr on ↦
            let (k, good, somebody, same) =
              user_key-some (codes "tg:") (user_of (verify_webapp_init_data v.telegram now (c ∷ s)))
                key (rw on at h) in
            let (user, verified, has_id) = user_of-some (c ∷ s) _ k refl good in
            record {
              user_id = k;
              user = user;
              verified = subst (λ t. IsInitData v.telegram now t user) (sym stripped) verified;
              has_id = has_id;
              some_user = somebody;
              same = same;
            }
      ]

  -- Whichever of the three keys comes first, or that of the address.
  first-IsVerified :
      (r : Request) (known session init_data : Option Text)
      → ((key : Text) → known ≡ some key → IsUserKey r key)
      → ((key : Text) → session ≡ some key → IsSessionKey r key)
      → ((key : Text) → init_data ≡ some key → IsInitDataKey r key)
      → IsVerified r
          (or_default (codes "ip:" ++ r.ip) (first_of known (first_of session init_data)))
  first-IsVerified r (some key) session init_data f g h = inl (f key refl)
  first-IsVerified r none (some key) init_data f g h = inr (inl (g key refl))
  first-IsVerified r none none (some key) f g h = inr (inr (inl (h key refl)))
  first-IsVerified r none none none f g h = inr (inr (inr refl))

  identity_key-IsVerified :
      (r : Request) → IsVerified r (or_default (codes "ip:" ++ r.ip) (identity_key r))
  unfolding identity_key verified_session_key
  identity_key-IsVerified r =
      first-IsVerified r (user_key (codes "u:") r.user_id) (verified_session_key r.authorization)
        (verified_init_data_key (strip r.init_data)) (λ key h. known key h)
        (λ key h. bearer_key-some r _ key refl h)
        (λ key h. verified_init_data_key-some r _ key refl h)
    where
      known : (key : Text) → user_key (codes "u:") r.user_id ≡ some key → IsUserKey r key
      known key h =
          let (k, good, somebody, same) = user_key-some (codes "u:") r.user_id key h in
          record { user_id = k; known = good; some_user = somebody; same = same }

-- The first key of a request names nobody but whom the server has verified: the user that it has
-- resolved, the session of the caller's own Bearer token, if it was signed with the secret and has
-- not run out, the user of the caller's own initData, if Telegram signed it for the bot and made it
-- within the window, or else the address. Asked again, at any time, the key is the same.
pub rate_limit_key-IsVerified :
    (v : Verifiers) (now later : ℕ) (r : Request)
    → r.cached ≡ none
    → IsVerified v now r (rate_limit_key v now r).0
      × ((rate_limit_key v later (rate_limit_key v now r).1).0 ≡ (rate_limit_key v now r).0)
unfolding rate_limit_key
rate_limit_key-IsVerified v now later r first =
    subst
      (λ cached.
        IsVerified v now r (keyed v now r cached).0
        × ((rate_limit_key v later (keyed v now r cached).1).0 ≡ (keyed v now r cached).0))
      (sym first) (identity_key-IsVerified v now r, refl)
