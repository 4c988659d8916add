-- ===== src/Web/InitData.antt =====
-- `verify_webapp_init_data` of webapp/core/telegram_auth.py: which user the signed initData of a
-- Mini App names.
use vakant.Prelude.{
  ℕ, ◌+◌, ◌≡◌, refl, Bool, true, false, not, Option, none, some, List, [], ◌∷◌, ◌++◌, ◌==◌, ltb,
  keep, if◌then◌else◌, or_default, Bool-cases, inl, inr, ap, sym, ◌∙◌,
}
use vakant.Prelude.Int.{ℤ, pos, ◌+ℤ◌, ltb_ℤ}
use vakant.Prelude.Text.{Text, codes, text_eq}
use vakant.Db.Exec.{Exc, Result, ok, err, compare_digest}
use vakant.Admin.Confirm.{compare_digest-eq}

abbrev pub Fields : Type 0
Fields = List (Text × Text)

-- The bot token and `INIT_DATA_MAX_AGE`; `dict(parse_qsl(...))`; the HMAC-SHA256 in hex under the
-- key that the bot token gives; `int`; the `id` of a user in JSON, if there is one that `int` takes;
-- and whether `time.time()` has a fraction of a second.
pub record Telegram : Type 0 where
  pub token : Text
  pub window : ℕ
  pub parsed : Text → Fields
  pub mac : Text → Text → Text
  pub int : Text → Option ℤ
  pub user_id : Text → Option ℕ
  pub fraction : Bool

-- `parsed.get(key)`
unfoldable pub field : Text → Fields → Option Text
field key [] = none
field key ((k, v) ∷ fields) = if text_eq k key then some v else field key fields

-- What `parsed.pop("hash", "")` leaves.
abbrev pub signed_fields : Fields → Fields
signed_fields fields = keep (λ f. not (text_eq f.0 (codes "hash"))) fields

-- The order of texts.
abbrev pub text_before : Text → Text → Bool
text_before s [] = false
text_before [] (b ∷ t) = true
text_before (a ∷ s) (b ∷ t) = let rest = text_before s t in if a == b then rest else ltb a b

abbrev pub insert_field : Text × Text → Fields → Fields
insert_field f [] = f ∷ []
insert_field f (g ∷ fields) =
    let rest = insert_field f fields in if text_before g.0 f.0 then g ∷ rest else f ∷ (g ∷ fields)

-- `sorted(parsed.items())`; the keys of a dictionary differ.
abbrev pub sorted : Fields → Fields
sorted [] = []
sorted (f ∷ fields) = insert_field f (sorted fields)

-- `data_check_string`
abbrev pub check_string : Fields → Text
check_string [] = []
check_string (f ∷ []) = f.0 ++ 61 ∷ f.1
check_string (f ∷ (g ∷ fields)) = f.0 ++ 61 ∷ (f.1 ++ 10 ∷ check_string (g ∷ fields))

module _ (tg : Telegram) (now : ℕ) where
  abbrev pub auth_date : Option Text → Option ℤ
  auth_date none = some (pos 0)
  auth_date (some s) = tg.int s

  -- `age > window`
  abbrev pub too_old : ℤ → Bool
  too_old auth = ltb_ℤ (auth +ℤ pos tg.window) (pos (now + (if tg.fraction then 1 else 0)))

  -- `age < -window`
  abbrev pub too_new : ℤ → Bool
  too_new auth = ltb_ℤ (pos (now + tg.window)) auth

  abbrev pub in_window : Fields → Option ℤ → Option Text
  in_window fields none = none
  in_window fields (some auth) =
      if too_old auth
      then none
      else if too_new auth
      then none
      else some (or_default (codes "{}") (field (codes "user") fields))

  abbrev pub dated : Fields → Result Bool → Result (Option Text)
  dated fields (err e) = err e
  dated fields (ok false) = ok none
  dated fields (ok true) = ok (in_window fields (auth_date (field (codes "auth_date") fields)))

  abbrev pub signature_of : Fields → Text
  signature_of fields = tg.mac tg.token (check_string (sorted (signed_fields fields)))

  abbrev pub verify_fields : Fields → Text → Result (Option Text)
  verify_fields fields [] = ok none
  verify_fields fields (c ∷ s) =
      dated (signed_fields fields) (compare_digest (signature_of fields) (c ∷ s))

  -- `verify_webapp_init_data`, to the text of the user
  unfoldable pub verify_webapp_init_data : Text → Result (Option Text)
  verify_webapp_init_data sent =
      let fields = tg.parsed sent in
      verify_fields fields (or_default [] (field (codes "hash") fields))

  -- InitData that Telegram has signed for the bot, with a date no further from now than the window
  -- allows.
  pub record IsInitData (sent user : Text) : Type 0 where
    pub auth : ℤ
    pub signed : field (codes "hash") (tg.parsed sent) ≡ some (signature_of (tg.parsed sent))
    pub made : auth_date (field (codes "auth_date") (signed_fields (tg.parsed sent))) ≡ some auth
    pub not_old : too_old auth ≡ false
    pub not_new : too_new auth ≡ false
    pub of_user :
        or_default (codes "{}") (field (codes "user") (signed_fields (tg.parsed sent))) ≡ user

  no_user : {user : Text} → ◌≡◌ {A = Option Text} none (some user) → ⊥
  no_user e = cc

  no_answer : {user : Text} → ◌≡◌ {A = Result (Option Text)} (ok none) (ok (some user)) → ⊥
  no_answer e = cc

  no_error : {e : Exc} {user : Text} → ◌≡◌ {A = Result (Option Text)} (err e) (ok (some user)) → ⊥
  no_error e = cc

  some_parts : {a b : Text} → some a ≡ some b → a ≡ b
  some_parts e = cc

  answer_parts : {a b : Option Text} → ok a ≡ ok b → a ≡ b
  answer_parts e = cc

  in_window-IsInitData :
      (sent user : Text)
      → field (codes "hash") (tg.parsed sent) ≡ some (signature_of (tg.parsed sent))
      → (made : Option ℤ)
      → auth_date (field (codes "auth_date") (signed_fields (tg.parsed sent))) ≡ made
      → in_window (signed_fields (tg.parsed sent)) made ≡ some user
      → IsInitData sent user
  in_window-IsInitData sent user signed none e h = absurd (no_user h)
  in_window-IsInitData sent user signed (some auth) e h = elim (Bool-cases (too_old auth)) [
    | inl old ↦ absurd (no_user (rw old at h))
    | inr not_old ↦ elim (Bool-cases (too_new auth)) [
      | inl new ↦ absurd (no_user (rw new at (rw not_old at h)))
      | inr not_new ↦ record {
        auth = auth;
        signed = signed;
        made = e;
        not_old = not_old;
        not_new = not_new;
        of_user = some_parts (rw not_new at (rw not_old at h));
      }
    ]
  ]

  dated-IsInitData :
      (sent user hash : Text)
      → field (codes "hash") (tg.parsed sent) ≡ some hash
      → (v : Result Bool) → compare_digest (signature_of (tg.parsed sent)) hash ≡ v
      → dated (signed_fields (tg.parsed sent)) v ≡ ok (some user)
      → IsInitData sent user
  dated-IsInitData sent user hash there (err x) e h = absurd (no_error h)
  dated-IsInitData sent user hash there (ok false) e h = absurd (no_answer h)
  dated-IsInitData sent user hash there (ok true) e h =
      in_window-IsInitData sent user (there ∙ ap some (sym (compare_digest-eq _ _ e))) _ refl
        (answer_parts h)

  fields-IsInitData :
      (sent user : Text) (found : Option Text)
      → field (codes "hash") (tg.parsed sent) ≡ found
      → verify_fields (tg.parsed sent) (or_default [] found) ≡ ok (some user)
      → IsInitData sent user
  fields-IsInitData sent user none e h = absurd (no_answer h)
  fields-IsInitData sent user (some []) e h = absurd (no_answer h)
  fields-IsInitData sent user (some (c ∷ s)) e h = dated-IsInitData sent user (c ∷ s) e _ refl h

  pub verify_webapp_init_data-IsInitData :
      (sent user : Text) → verify_webapp_init_data sent ≡ ok (some user) → IsInitData sent user
  unfolding verify_webapp_init_data
  verify_webapp_init_data-IsInitData sent user h = fields-IsInitData sent user _ refl h
