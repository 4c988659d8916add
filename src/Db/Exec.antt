-- ===== src/Db/Exec.antt =====
-- Coroutines over a connection: a call returns or raises, and what it wrote stays in the open
-- transaction either way until `commit` or `rollback`.
use vakant.Prelude.{
  ℕ, ◌≡◌, refl, ◌∙◌, ◌⊎◌, inl, inr, Bool, true, false, none, some, if◌then◌else◌, ◌&&◌, ltb,
}
use vakant.Prelude.Int.{ℤ}
use vakant.Prelude.Text.{Text, text_eq, every}
use vakant.Db.{Db, Conn, User, put_user}

-- `RpcError` of webapp/payments/paynet.py, by the names of its codes
pub data RpcCode : Type 0 where
  parse_error invalid_request method_not_found invalid_params internal_error : RpcCode
  method_not_allowed cannot_cancel transaction_exists transaction_not_found : RpcCode
  client_not_found service_not_found client_format client_missing : RpcCode
  bad_credentials bad_amount bad_date amount_too_large client_blocked : RpcCode

-- The codes of webapp/core/errors.py that the payments raise.
pub data ApiCode : Type 0 where
  topup_amount_invalid order_not_found order_already_paid order_cancelled : ApiCode
  order_state_changed card_token_missing payments_disabled validation : ApiCode
  click_unavailable click_declined : ApiCode
  rate_limited : ℕ → ApiCode

-- The exceptions that the modelled code raises.
pub data Exc : Type 0 where
  value_error : Exc
  integrity_error : Exc
  ledger_error : Exc
  assertion_error type_error : Exc
  operational_error runtime_error : Exc
  user_not_found : ℕ → Exc
  already_pro : ℕ → Exc
  insufficient_balance : ℤ → ℤ → Exc
  rpc_error : RpcCode → Exc
  api_error : ApiCode → Exc

pub data Result {ℓ} (A : Type ℓ) : Type ℓ where
  ok : A → Result A
  err : Exc → Result A

-- `hmac.compare_digest` of two texts: it takes ASCII ones only.
unfoldable pub compare_digest : Text → Text → Result Bool
compare_digest s t =
    if every (λ c. ltb c 128) s && every (λ c. ltb c 128) t
    then ok (text_eq s t)
    else err type_error

abbrev pub Exec : Type 0 → Type 0
Exec A = Conn → Result A × Conn

module _ {A : Type 0} where
  abbrev pub pure : A → Exec A
  pure a c = (ok a, c)

  abbrev pub raise : Exc → Exec A
  raise e c = (err e, c)

  abbrev pub lift : Result A → Exec A
  lift r c = (r, c)

  -- a SELECT
  abbrev pub gets : (Db → A) → Exec A
  gets f c = (ok (f c.live), c)

-- what follows a call, from how the call ended
abbrev pub continue : {A B : Type 0} → (A → Exec B) → Result A × Conn → Result B × Conn
continue f (ok a, c) = f a c
continue f (err e, c) = (err e, c)

infixl 5 ◌>>=◌ ◌>>◌
abbrev pub ◌>>=◌ : {A B : Type 0} → Exec A → (A → Exec B) → Exec B
◌>>=◌ m f c = continue f (m c)

abbrev pub ◌>>◌ : {A B : Type 0} → Exec A → Exec B → Exec B
m >> k = m >>= λ _. k

-- a statement that writes
abbrev pub modify : (Db → Db) → Exec (Unit {0})
modify f c = (ok tt, record c { live = f c.live })

-- what other connections commit meanwhile
abbrev pub others : (Db → Db) → Exec (Unit {0})
others f c = (ok tt, record { saved = f c.saved; live = f c.live })

abbrev pub commit : Exec (Unit {0})
commit c = (ok tt, record c { saved = c.live })

abbrev pub rollback : Exec (Unit {0})
rollback c = (ok tt, record c { live = c.saved })

abbrev pub guard : Bool → Exc → Exec (Unit {0})
guard b e c = (if b then ok tt else err e, c)

-- `try: m  except Exception: await db.rollback(); raise`
abbrev pub rolled_back : {A : Type 0} → Result A × Conn → Result A × Conn
rolled_back (ok a, c) = (ok a, c)
rolled_back (err e, c) = (err e, record c { live = c.saved })

abbrev pub or_rollback : {A : Type 0} → Exec A → Exec A
or_rollback m c = rolled_back (m c)

-- `UPDATE users SET ... WHERE user_id = ? AND test`; whether a row changed
unfoldable pub update_user : ℕ → (User → Bool) → (User → User) → Exec Bool
update_user k test f c = elim (c.live.users k) [
  | none ↦ (ok false, c)
  | some u ↦
      if test u
      then (ok true, record c { live = record c.live { users = put_user k (f u) c.live.users } })
      else (ok false, c)
]

pub Result-cases {ℓ} :
    {A : Type ℓ} (r : Result A) → ((e : Exc) × (r ≡ err e)) ⊎ ((a : A) × (r ≡ ok a))
Result-cases (ok a) = inr (a, refl)
Result-cases (err e) = inl (e, refl)

module _ (k : ℕ) (test : User → Bool) (f : User → User) (c : Conn) where
  pub update_user_missing : c.live.users k ≡ none → update_user k test f c ≡ (ok false, c)
  unfolding update_user
  update_user_missing h = rw (h, update_user)

  pub update_user_refused :
      (u : User) → c.live.users k ≡ some u → test u ≡ false → update_user k test f c ≡ (ok false, c)
  unfolding update_user
  update_user_refused u h p = rw (h, update_user, p)

  pub update_user_done :
      (u : User)
      → c.live.users k ≡ some u
      → test u ≡ true
      → update_user k test f c
        ≡ (ok true, record c { live = record c.live { users = put_user k (f u) c.live.users } })
  unfolding update_user
  update_user_done u h p = rw (h, update_user, p)

-- What a sequence that returned went through.
continue-ok :
    {A B : Type 0} (f : A → Exec B) (out : Result A × Conn) (b : B) (c' : Conn)
    → continue f out ≡ (ok b, c')
    → (a : A) × (c : Conn) × (out ≡ (ok a, c)) × (f a c ≡ (ok b, c'))
continue-ok f (ok a, c) b c' h = (a, c, refl, h)
continue-ok f (err e, c) b c' h = cc

pub >>=-ok :
    {A B : Type 0} (m : Exec A) (f : A → Exec B) (c : Conn) (b : B) (c' : Conn)
    → (m >>= f) c ≡ (ok b, c')
    → (a : A) × (c1 : Conn) × (m c ≡ (ok a, c1)) × (f a c1 ≡ (ok b, c'))
>>=-ok m f c b c' h = continue-ok f (m c) b c' h

-- A call that neither commits nor sees others commit.
abbrev pub KeepsSaved : {A : Type 0} → Exec A → Type 0
KeepsSaved m = (c : Conn) → (m c).1.saved ≡ c.saved

continue-KeepsSaved :
    {A B : Type 0} (f : A → Exec B) (out : Result A × Conn)
    → ((a : A) → KeepsSaved (f a))
    → (continue f out).1.saved ≡ out.1.saved
continue-KeepsSaved f (ok a, c) k = k a c
continue-KeepsSaved f (err e, c) k = refl

pub >>=-KeepsSaved :
    {A B : Type 0} (m : Exec A) (f : A → Exec B)
    → KeepsSaved m
    → ((a : A) → KeepsSaved (f a))
    → KeepsSaved (m >>= f)
>>=-KeepsSaved m f km kf c = continue-KeepsSaved f (m c) kf ∙ km c

-- A call that writes nothing.
abbrev pub Reads : {A : Type 0} → Exec A → Type 0
Reads m = (c : Conn) → (m c).1 ≡ c
