-- ===== src/Admin/Confirm.antt =====
-- Confirmation tokens, webapp/core/confirm.py: a token `<exp>.<mac>` confirms one action of one
-- admin with one set of parameters.
use vakant.Prelude.{
  ℕ, suc, ◌+◌, ◌≡◌, ◌≤◌, ◌<◌, refl, arith, Bool, true, false, not, ◌&&◌, Option, none, some, [],
  ◌∷◌, ◌++◌, ◌==◌, if◌then◌else◌, or_default, leb, ltb, ◌||◌, ◌⊎◌, sym, ap, ◌∙◌, ◌≢◌, length,
  length-append, Bool-cases, inl, inr,
}
use vakant.Db.Exec.{Result, ok, err, type_error, compare_digest}
use vakant.Prelude.Int.{ℤ, pos, negsuc, leb_ℤ, ltb_ℤ}
use vakant.Prelude.Text.{
  Text, text_eq, text_eq_refl, text_eq_iff, decimal, decimal_injective, is_digit, is_space, strip,
  strip_clean, every, every-append, every_weaker, every-decimal, partition, partition-append,
  is_empty,
}

-- `str(exp)` of an integer
abbrev pub printed : ℤ → Text
printed (pos n) = decimal n
printed (negsuc n) = 45 ∷ decimal (n + 1)

-- Python's `int` of a text, `json.dumps` of a dictionary as `canonical_params` calls it, `json.loads`,
-- the empty dictionary, the HMAC-SHA256 in hex under `WEBAPP_SECRET`, and `confirm_ttl`.
pub record Signer (Params : Type 0) : Type 0 where
  pub int : Text → Option ℤ
  pub dumps : Params → Text
  pub loads : Text → Option Params
  pub empty : Params
  pub mac : Text → Text
  pub confirm_ttl : ℕ

module _ {Params : Type 0} (signer : Signer Params) where
  -- `canonical_params`, of `params or {}`
  abbrev pub canonical_params : Option Params → Text
  canonical_params params = signer.dumps (or_default signer.empty params)

  abbrev pub message : ℕ → Text → Text → ℤ → Text
  message actor_id action params exp =
      decimal actor_id ++ 124 ∷ (action ++ 124 ∷ (params ++ 124 ∷ printed exp))

  -- `_sign`
  abbrev pub sign : ℕ → Text → Option Params → ℤ → Text
  sign actor_id action params exp =
      signer.mac (message actor_id action (canonical_params params) exp)

  unfoldable pub issue_confirm_token : ℕ → ℕ → Text → Option Params → Text
  issue_confirm_token now actor_id action params =
      decimal (now + signer.confirm_ttl)
      ++ 46 ∷ sign actor_id action params (pos (now + signer.confirm_ttl))

  -- The test of the expiry, then the MAC.
  abbrev pub verify_exp : ℕ → ℕ → Text → Option Params → Text → Option ℤ → Result Bool
  verify_exp now actor_id action params signature none = ok false
  verify_exp now actor_id action params signature (some exp) =
      if leb_ℤ exp (pos now)
      then ok false
      else if ltb_ℤ (pos (now + signer.confirm_ttl + 5)) exp
      then ok false
      else compare_digest (sign actor_id action params exp) signature

  abbrev pub verify_parts : ℕ → ℕ → Text → Option Params → Option (Text × Text) → Result Bool
  verify_parts now actor_id action params none = ok false
  verify_parts now actor_id action params (some (exp, signature)) =
      verify_exp now actor_id action params signature (signer.int exp)

  unfoldable pub verify_confirm_token : ℕ → Text → ℕ → Text → Option Params → Result Bool
  verify_confirm_token now token actor_id action params =
      verify_parts now actor_id action params (partition 46 (strip token))

  -- `require_confirmation`, from the header and the parameters in the body: false where it answers
  -- 403
  unfoldable pub require_confirmation : ℕ → Text → ℕ → Text → Option Params → Result Bool
  require_confirmation now header actor_id action params =
      if is_empty (strip header)
      then ok false
      else verify_confirm_token now (strip header) actor_id action params

abbrev pub is_hex : ℕ → Bool
is_hex c = is_digit c || (leb 97 c && leb c 102)

-- What is documented of `int`, of JSON, and of a MAC in hex.
pub record IsSigner {Params : Type 0} (signer : Signer Params) : Type 0 where
  pub int_decimal : (n : ℕ) → signer.int (decimal n) ≡ some (pos n)
  pub loads_dumps : (p : Params) → signer.loads (signer.dumps p) ≡ some p
  pub hex : (m : Text) → every is_hex (signer.mac m) ≡ true

hex_no_space : (c : ℕ) → is_hex c ≡ true → not (is_space c) ≡ true
unfolding is_space
hex_no_space c h = ground (arith, h)

compare_digest_refl : (s : Text) → every is_hex s ≡ true → compare_digest s s ≡ ok true
unfolding compare_digest
compare_digest_refl s h =
    let ascii = every_weaker is_hex (λ c. ltb c 128) s (λ c x. ground (arith, x)) h in
    rw ascii (ap ok (text_eq_refl s))

pub compare_digest-eq : (s t : Text) → compare_digest s t ≡ ok true → s ≡ t
unfolding compare_digest
compare_digest-eq s t h = elim (Bool-cases (every (λ c. ltb c 128) s && every (λ c. ltb c 128) t)) [
  | inl ascii ↦ (text_eq_iff s t).0 (ok_parts (rw ascii at h))
  | inr other ↦ absurd (not_ok (rw other at h))
]
  where
    ok_parts : {a b : Bool} → ok a ≡ ok b → a ≡ b
    ok_parts e = cc

    not_ok : err type_error ≡ ok true → ⊥
    not_ok e = cc

digit_no_space : (c : ℕ) → is_digit c ≡ true → not (is_space c) ≡ true
unfolding is_space
digit_no_space c h = ground (arith, h)

pair_parts :
    {s s' t t' : Text}
    → ◌≡◌ {A = Option (Text × Text)} (some (s, t)) (some (s', t'))
    → (s ≡ s') × (t ≡ t')
pair_parts e = (cc, cc)

-- The texts before the first bar agree, and those after it.
bar_parts :
    (s s' t t' : Text)
    → every (λ c. not (c == 124)) s ≡ true
    → every (λ c. not (c == 124)) s' ≡ true
    → s ++ 124 ∷ t ≡ s' ++ 124 ∷ t'
    → (s ≡ s') × (t ≡ t')
bar_parts s s' t t' bare bare' e =
    pair_parts (
      sym (partition-append 124 s t bare) ∙ ap (partition 124) e ∙ partition-append 124 s' t' bare')

append_long : (c : ℕ) (s t : Text) → t ≢ c ∷ (s ++ t)
append_long c s t e =
    let n : length t ≡ suc (length (s ++ t)) = ap length e in
    absurd (omega (arith, n, length-append s t))

append_cancel : (s s' t : Text) → s ++ t ≡ s' ++ t → s ≡ s'
append_cancel [] [] t e = refl
append_cancel [] (c ∷ s') t e = absurd (append_long c s' t e)
append_cancel (c ∷ s) [] t e = absurd (append_long c s t (sym e))
append_cancel (c ∷ s) (d ∷ s') t e =
    let (head, tail) = cons_parts c d (s ++ t) (s' ++ t) e in
    rw head (ap (λ x. d ∷ x) (append_cancel s s' t tail))
  where
    cons_parts : (c d : ℕ) (u v : Text) → c ∷ u ≡ d ∷ v → (c ≡ d) × (u ≡ v)
    cons_parts c d u v e = (cc, cc)

-- The message of a token says the admin, the action and the parameters.
message_injective :
    (a b : ℕ) (action action' params params' exp : Text)
    → every (λ c. not (c == 124)) action ≡ true
    → every (λ c. not (c == 124)) action' ≡ true
    → decimal a ++ 124 ∷ (action ++ 124 ∷ (params ++ 124 ∷ exp))
      ≡ decimal b ++ 124 ∷ (action' ++ 124 ∷ (params' ++ 124 ∷ exp))
    → (a ≡ b) × (action ≡ action') × (params ≡ params')
message_injective a b action action' params params' exp bare bare' e =
    let bars = λ (n : ℕ).
      every_weaker is_digit (λ c. not (c == 124)) (decimal n) (λ c h. ground (arith, h))
        (every-decimal n) in
    let (actors, rest) = bar_parts (decimal a) (decimal b) _ _ (bars a) (bars b) e in
    let (actions, ends) = bar_parts action action' _ _ bare bare' rest in
    (decimal_injective actors, actions, append_cancel params params' (124 ∷ exp) ends)

dot_clean :
    (s : Text)
    → every (λ c. not (is_space c)) s ≡ true
    → every (λ c. not (is_space c)) (46 ∷ s) ≡ true
unfolding is_space
dot_clean s h = h

module _ {Params : Type 0} (signer : Signer Params) (sound : IsSigner signer) where
  -- An issued token comes apart into what it was made of.
  issue_confirm_token-parts :
      (now actor_id : ℕ) (action : Text) (params : Option Params)
      → partition 46 (strip (issue_confirm_token signer now actor_id action params))
        ≡ some (
          decimal (now + signer.confirm_ttl),
          sign signer actor_id action params (pos (now + signer.confirm_ttl)),
        )
  unfolding issue_confirm_token
  issue_confirm_token-parts now actor_id action params =
      let exp = now + signer.confirm_ttl in
      let digits = every-decimal exp in
      let clean =
        every-append (λ c. not (is_space c)) (decimal exp)
          (46 ∷ sign signer actor_id action params (pos exp))
          (every_weaker is_digit (λ c. not (is_space c)) (decimal exp) digit_no_space digits)
          (dot_clean (sign signer actor_id action params (pos exp)) (
            every_weaker is_hex (λ c. not (is_space c))
              (sign signer actor_id action params (pos exp)) hex_no_space (sound.hex _))) in
      ap (partition 46) (strip_clean _ clean)
      ∙ partition-append 46 (decimal exp) (sign signer actor_id action params (pos exp)) (
          every_weaker is_digit (λ c. not (c == 46)) (decimal exp) (λ c h. ground (arith, h))
            digits)

  verify_issued :
      (now now' a b : ℕ) (action action' : Text) (params params' : Option Params)
      → verify_confirm_token signer now'
          (issue_confirm_token signer now a action params)
          b
          action'
          params'
        ≡ verify_exp signer now' b action' params'
            (sign signer a action params (pos (now + signer.confirm_ttl)))
            (some (pos (now + signer.confirm_ttl)))
  unfolding verify_confirm_token
  verify_issued now now' a b action action' params params' =
      ap (verify_parts signer now' b action' params')
        (issue_confirm_token-parts now a action params)
      ∙ ap
          (verify_exp signer now' b action' params'
            (sign signer a action params (pos (now + signer.confirm_ttl))))
          (sound.int_decimal (now + signer.confirm_ttl))

  -- A token confirms the action that it was issued for, to the admin it was issued to, with the
  -- same parameters, until it expires, where the MAC is written in hex digits and `int` reads back
  -- what `str` printed.
  pub verify_confirm_token-issue_confirm_token :
      (now now' actor_id : ℕ) (action : Text) (params : Option Params)
      → now ≤ now'
      → now' < now + signer.confirm_ttl
      → verify_confirm_token signer now'
          (issue_confirm_token signer now actor_id action params)
          actor_id
          action
          params
        ≡ ok true
  verify_confirm_token-issue_confirm_token now now' actor_id action params later before =
      let early : leb_ℤ (pos (now + signer.confirm_ttl)) (pos now') ≡ false =
        ground (arith, before) in
      let near : ltb_ℤ (pos (now' + signer.confirm_ttl + 5)) (pos (now + signer.confirm_ttl))
          ≡ false =
        ground (arith, later) in
      verify_issued now now' actor_id actor_id action action params params
      ∙ rw early (rw near (compare_digest_refl _ (sound.hex _)))

  verify_exp-mac :
      (now b : ℕ) (action : Text) (params : Option Params) (signature : Text) (exp : ℤ)
      → verify_exp signer now b action params signature (some exp) ≡ ok true
      → sign signer b action params exp ≡ signature
  verify_exp-mac now b action params signature exp h = elim (Bool-cases (leb_ℤ exp (pos now))) [
    | inl over ↦ absurd (false_true (rw over at h))
    | inr early ↦ elim (Bool-cases (ltb_ℤ (pos (now + signer.confirm_ttl + 5)) exp)) [
      | inl far ↦ absurd (false_true (rw far at (rw early at h)))
      | inr near ↦ compare_digest-eq _ _ (rw near at (rw early at h))
    ]
  ]
    where
      false_true : ok false ≡ ok true → ⊥
      false_true e = cc

  dumps_injective : (p q : Params) → signer.dumps p ≡ signer.dumps q → p ≡ q
  dumps_injective p q e =
      some_parts (sym (sound.loads_dumps p) ∙ ap signer.loads e ∙ sound.loads_dumps q)
    where
      some_parts : some p ≡ some q → p ≡ q
      some_parts h = cc

  -- Where a token confirms an action, to some admin, at some time, with some parameters, either it
  -- was issued for this action, to this admin, with these parameters (none count as the empty
  -- dictionary), or the message that it was issued for and the one that it confirms are two texts
  -- with the same MAC. The names of the actions have no bar, the MAC is written in hex digits, and
  -- `int` and `json.loads` read back what `str` and `json.dumps` wrote.
  pub verify_confirm_token_bound :
      (now now' a b : ℕ) (action action' : Text) (params params' : Option Params)
      → every (λ c. not (c == 124)) action ≡ true
      → every (λ c. not (c == 124)) action' ≡ true
      → verify_confirm_token signer now'
          (issue_confirm_token signer now a action params)
          b
          action'
          params'
        ≡ ok true
      → let exp = pos (now + signer.confirm_ttl) in
        let issued = message signer a action (canonical_params signer params) exp in
        let confirmed = message signer b action' (canonical_params signer params') exp in
        ((a ≡ b)
          × (action ≡ action')
          × (or_default signer.empty params ≡ or_default signer.empty params'))
        ⊎ ((issued ≢ confirmed) × (signer.mac issued ≡ signer.mac confirmed))
  verify_confirm_token_bound now now' a b action action' params params' bare bare' h =
      let exp = pos (now + signer.confirm_ttl) in
      let issued = message signer a action (canonical_params signer params) exp in
      let confirmed = message signer b action' (canonical_params signer params') exp in
      let same_mac : signer.mac issued ≡ signer.mac confirmed = sym (
        verify_exp-mac now' b action' params' (sign signer a action params exp) exp
          (sym (verify_issued now now' a b action action' params params') ∙ h)) in
      elim (Bool-cases (text_eq issued confirmed)) [
        | inl same ↦
            let (actors, actions, texts) =
              message_injective a b action action' (canonical_params signer params)
                (canonical_params signer params') (printed exp) bare bare'
                ((text_eq_iff issued confirmed).0 same) in
            inl (actors, actions, dumps_injective _ _ texts)
        | inr differs ↦
            inr (λ e. false_true (sym differs ∙ (text_eq_iff issued confirmed).1 e), same_mac)
      ]
    where
      false_true : false ≡ true → ⊥
      false_true e = cc
