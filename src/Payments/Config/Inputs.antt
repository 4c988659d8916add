-- ===== src/Payments/Config/Inputs.antt =====
-- What the input rules of webapp/payments/config.py let through.
use vakant.Prelude.{
  ℕ, ◌+◌, ◌*◌, ◌≤◌, ◌≡◌, refl, ◌∙◌, sym, subst, Bool, true, some, [], ◌∷◌, ◌++◌, ◌==◌, arith,
  Bool-cases, Option-cases, inl, inr, length, keep,
}
use vakant.Prelude.Text.{Text, codes, after_prefix, after_prefix-append}
use vakant.Payments.Config.{
  payment_bonus_amount, click_order_ref, order_id_from_ref, order_prefix, is_uuid, lower, Digits,
  digits_of, normalize_phone, mmyy, expiry_of, parse_expiry,
}

-- A bonus is at most half of the amount, and is that of the percent within its bounds.
pub payment_bonus_amount_bounds :
    (amount percent : ℕ)
    → (payment_bonus_amount amount percent * 2 ≤ amount)
      × (payment_bonus_amount amount percent * 100 ≤ amount * percent)
unfolding payment_bonus_amount
payment_bonus_amount_bounds amount percent = ground (arith, at_most_half percent)
  where
    at_most_half : (p : ℕ) → p ≤ 50 → amount * p ≤ amount * 50
    at_most_half p h = grind arith

-- The reference that Click is given leads back to the order id, in lower case.
pub order_id_from_ref-click_order_ref :
    (i : Text) → is_uuid i ≡ true → order_id_from_ref (click_order_ref i) ≡ some (lower i)
unfolding order_id_from_ref click_order_ref
order_id_from_ref-click_order_ref i h = ground (arith, after_prefix-append order_prefix i, h)

module _ (py : Digits) where
  keep-keep_self : (p : ℕ → Bool) (s : Text) → keep p (keep p s) ≡ keep p s
  keep-keep_self p [] = refl
  keep-keep_self p (c ∷ s) = ground (arith, keep-keep_self p s)

  after_prefix-eq : (p s r : Text) → after_prefix p s ≡ some r → s ≡ p ++ r
  unfolding after_prefix
  after_prefix-eq [] s r h = ground arith
  after_prefix-eq (c ∷ p) [] r h = cc
  after_prefix-eq (c ∷ p) (x ∷ s) r h = ground (arith, after_prefix-eq p s r)

  -- Digits in front of a text of digits are kept.
  keep-998 :
      (s : Text)
      → keep py.is_decimal (codes "998" ++ keep py.is_decimal s)
        ≡ codes "998" ++ keep py.is_decimal s
  keep-998 s =
      ground (arith, (py.ascii 57 refl).0, (py.ascii 56 refl).0, keep-keep_self py.is_decimal s)

  normalize_full :
      (x r : Text)
      → keep py.is_decimal x ≡ codes "998" ++ r
      → length r ≡ 9
      → normalize_phone py x ≡ some (codes "998" ++ r)
  unfolding normalize_phone after_prefix
  normalize_full x r h nine = rw h (ground (arith, nine))

  -- An accepted phone number is `998` and nine digits, and normalising it again changes nothing.
  pub normalize_phone_stable :
      (s q : Text)
      → normalize_phone py s ≡ some q
      → (r : Text) × (q ≡ codes "998" ++ r) × (length r ≡ 9) × (normalize_phone py q ≡ some q)
  unfolding normalize_phone
  normalize_phone_stable s q h = elim (Bool-cases (length (keep py.is_decimal s) == 9)) [
    | inl bare ↦
        let d = keep py.is_decimal s in
        let e : q ≡ codes "998" ++ d = ground (arith, h, bare) in
        (
          d,
          e,
          ground (arith, bare),
          subst (λ x. normalize_phone py x ≡ some x) (sym e)
              (normalize_full (codes "998" ++ d) d (keep-998 s) (ground (arith, bare))),
        )
    | inr long ↦ elim (Option-cases (after_prefix (codes "998") (keep py.is_decimal s))) [
      | inl other ↦ absurd (ground (arith, h, long, other))
      | inr (r, full) ↦
          let d = keep py.is_decimal s in
          let nine : length r ≡ 9 = ground (arith, h, long, full) in
          let e : q ≡ d = ground (arith, h, long, full) in
          let split : d ≡ codes "998" ++ r = after_prefix-eq (codes "998") d r full in
          (
            r,
            e ∙ split,
            nine,
            subst (λ x. normalize_phone py x ≡ some x) (sym (e ∙ split))
                (normalize_full (codes "998" ++ r) r
                  (subst (λ x. keep py.is_decimal x ≡ x) split (keep-keep_self py.is_decimal s))
                  nine),
          )
    ]
  ]

  -- An accepted expiry is the text of four digits itself, its month is a month, and that month is
  -- not over.
  pub parse_expiry_sound :
      (this_year this_month : ℕ) (s q : Text)
      → parse_expiry py this_year this_month s ≡ mmyy q
      → (a b c d : ℕ) × (q ≡ a ∷ (b ∷ (c ∷ (d ∷ []))))
        × (q ≡ digits_of py s)
        × (1 ≤ py.value a * 10 + py.value b)
        × (py.value a * 10 + py.value b ≤ 12)
        × (this_year * 12 + this_month
            ≤ (2000 + (py.value c * 10 + py.value d)) * 12 + (py.value a * 10 + py.value b))
  unfolding parse_expiry
  parse_expiry_sound this_year this_month s q h = go (digits_of py s) h
    where
      go :
          (t : Text)
          → expiry_of py this_year this_month t ≡ mmyy q
          → (a b c d : ℕ) × (q ≡ a ∷ (b ∷ (c ∷ (d ∷ []))))
            × (q ≡ t)
            × (1 ≤ py.value a * 10 + py.value b)
            × (py.value a * 10 + py.value b ≤ 12)
            × (this_year * 12 + this_month
                ≤ (2000 + (py.value c * 10 + py.value d)) * 12 + (py.value a * 10 + py.value b))
      go (a ∷ (b ∷ (c ∷ (d ∷ [])))) e = (
        a,
        b,
        c,
        d,
        ground (arith, e),
        ground (arith, e),
        ground (arith, e),
        ground (arith, e),
        ground (arith, e),
      )
      go [] e = cc
      go (a ∷ []) e = cc
      go (a ∷ (b ∷ [])) e = cc
      go (a ∷ (b ∷ (c ∷ []))) e = cc
      go (a ∷ (b ∷ (c ∷ (d ∷ (f ∷ t))))) e = cc
