-- ===== src/Payments/Config.antt =====
-- Limits and input rules, webapp/payments/config.py.
pub mod Inputs
pub mod Ids
pub mod Settings
pub mod Tests
use vakant.Prelude.{
  ℕ, ◌+◌, ◌*◌, ◌/◌, ◌<◌, ◌≡◌, Bool, true, false, ◌&&◌, ◌||◌, Option, none, some, List, [], ◌∷◌,
  ◌++◌, ltb, leb, ◌==◌, if◌then◌else◌, length, take, drop, keep,
}
use vakant.Prelude.Text.{Text, codes, after_prefix, is_digit, decimal}

abbrev pub min_topup_soum : ℕ
min_topup_soum = 1_000

abbrev pub max_topup_soum : ℕ
max_topup_soum = 10_000_000

abbrev pub payment_bonus_max : ℕ
payment_bonus_max = 50

pub topup_amount_valid : ℕ → Bool
topup_amount_valid amount = leb min_topup_soum amount && leb amount max_topup_soum

-- On amounts and percents that are not negative, as the columns hold them.
unfoldable pub payment_bonus_amount : ℕ → ℕ → ℕ
payment_bonus_amount amount percent =
    if amount == 0
    then 0
    else if percent == 0 || ltb payment_bonus_max percent
    then 0
    else amount * percent / 100

abbrev pub order_prefix : Text
order_prefix = codes "vk-"

unfoldable pub click_order_ref : Text → Text
click_order_ref order_id = order_prefix ++ order_id

abbrev pub is_hex_or_dash : ℕ → Bool
is_hex_or_dash c =
    is_digit c || (leb b'a' c && leb c b'f') || (leb b'A' c && leb c b'F') || c == b'-'

unfoldable pub all_hex : Text → Bool
all_hex [] = true
all_hex (c ∷ s) = is_hex_or_dash c && all_hex s

abbrev pub starts_newline : Text → Bool
starts_newline [] = false
starts_newline (c ∷ s) = c == 10

-- `UUID_RE.match`; Python's `$` also lets one newline stand at the end
unfoldable pub is_uuid : Text → Bool
unfolding all_hex
is_uuid s =
    all_hex (take 36 s) && (length s == 36 || (length s == 37 && starts_newline (drop 36 s)))

-- `str.lower()` on what `UUID_RE` lets through
abbrev pub lower_code : ℕ → ℕ
lower_code c = if leb b'A' c && leb c b'Z' then c + 32 else c

unfoldable pub lower : Text → Text
lower [] = []
lower (c ∷ s) = lower_code c ∷ lower s

unfoldable pub order_id_from_ref : Text → Option Text
unfolding is_uuid
order_id_from_ref raw = elim (after_prefix order_prefix raw) [
  | none ↦ none
  | some order_id ↦ if is_uuid order_id then some (lower order_id) else none
]

-- The result of `parse_expiry`: the text `MMYY`, or the reason.
pub data Refusal : Type 0 where
  required format month expired : Refusal

pub data Expiry : Type 0 where
  mmyy : Text → Expiry
  refused : Refusal → Expiry

-- What Python's `re` and `int` know of decimal digits beyond ASCII.
pub record Digits : Type 0 where
  pub is_decimal : ℕ → Bool
  pub value : ℕ → ℕ
  pub value_lt : (c : ℕ) → is_decimal c ≡ true → value c < 10
  pub ascii : (c : ℕ) → is_digit c ≡ true → (is_decimal c ≡ true) × (value c + 48 ≡ c)

module _ (py : Digits) where
  unfoldable pub digits_of : Text → Text
  digits_of s = keep py.is_decimal s

  unfoldable pub normalize_card_number : Text → Option Text
  unfolding digits_of
  normalize_card_number s =
      let d = digits_of s in if leb 16 (length d) && leb (length d) 19 then some d else none

  unfoldable pub normalize_sms_code : Text → Option Text
  unfolding digits_of
  normalize_sms_code s =
      let d = digits_of s in if leb 4 (length d) && leb (length d) 8 then some d else none

  -- `re.fullmatch(r"998\d{9}", d)` of a text of digits
  unfoldable pub normalize_phone : Text → Option Text
  unfolding digits_of
  normalize_phone s =
      let d = digits_of s in
      if length d == 9 then some (codes "998" ++ d) else elim (after_prefix (codes "998") d) [
        | none ↦ none
        | some rest ↦ if length rest == 9 then some d else none
      ]

  -- The four digits of a date, against the month and the year of today.
  expiry_of : ℕ → ℕ → Text → Expiry
  expiry_of this_year this_month (a ∷ (b ∷ (c ∷ (d ∷ [])))) =
      let m = py.value a * 10 + py.value b in
      let y = 2000 + (py.value c * 10 + py.value d) in
      if ltb m 1 || ltb 12 m
      then refused month
      else if ltb (y * 12 + m) (this_year * 12 + this_month)
      then refused expired
      else mmyy (a ∷ (b ∷ (c ∷ (d ∷ []))))
  expiry_of this_year this_month [] = refused required
  expiry_of this_year this_month _ = refused format

  unfoldable pub parse_expiry : ℕ → ℕ → Text → Expiry
  unfolding expiry_of digits_of
  parse_expiry this_year this_month s = expiry_of this_year this_month (digits_of s)

abbrev pub paynet_trn_offset : ℕ
paynet_trn_offset = 1_000_000_000

unfoldable pub paynet_payer_id : ℕ → Text
paynet_payer_id user_id = order_prefix ++ decimal user_id
