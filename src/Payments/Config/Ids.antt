-- ===== src/Payments/Config/Ids.antt =====
-- Order ids in lower case (`UUID_RE` of webapp/payments/config.py).
use vakant.Prelude.{ℕ, zero, suc, ◌≡◌, refl, ap, true, [], ◌∷◌, ◌==◌, arith, length, take, drop}
use vakant.Prelude.Text.{Text}
use vakant.Payments.Config.{is_hex_or_dash, all_hex, is_uuid, lower, starts_newline, lower_code}

lower_code_idem : (c : ℕ) → lower_code (lower_code c) ≡ lower_code c
lower_code_idem c = ground arith

lower_code-hex : (c : ℕ) → is_hex_or_dash c ≡ true → is_hex_or_dash (lower_code c) ≡ true
lower_code-hex c h = ground arith

lower_code_newline : (c : ℕ) → (lower_code c == 10) ≡ (c == 10)
lower_code_newline c = ground arith

pub lower_idem : (s : Text) → lower (lower s) ≡ lower s
unfolding lower
lower_idem [] = refl
lower_idem (c ∷ s) = cc (lower_code_idem c, lower_idem s)

take-lower : (n : ℕ) (s : Text) → take n (lower s) ≡ lower (take n s)
unfolding lower
take-lower zero s = refl
take-lower (suc n) [] = refl
take-lower (suc n) (c ∷ s) = ap (◌∷◌ (lower_code c)) (take-lower n s)

drop-lower : (n : ℕ) (s : Text) → drop n (lower s) ≡ lower (drop n s)
unfolding lower
drop-lower zero s = refl
drop-lower (suc n) [] = refl
drop-lower (suc n) (c ∷ s) = drop-lower n s

length-lower : (s : Text) → length (lower s) ≡ length s
unfolding lower
length-lower [] = refl
length-lower (c ∷ s) = ap suc (length-lower s)

all_hex-lower : (s : Text) → all_hex s ≡ true → all_hex (lower s) ≡ true
unfolding lower all_hex
all_hex-lower [] h = refl
all_hex-lower (c ∷ s) h = ground (arith, lower_code-hex c, all_hex-lower s, h)

starts_newline-lower : (s : Text) → starts_newline (lower s) ≡ starts_newline s
unfolding lower
starts_newline-lower [] = refl
starts_newline-lower (c ∷ s) = lower_code_newline c

pub is_uuid-lower : (s : Text) → is_uuid s ≡ true → is_uuid (lower s) ≡ true
unfolding is_uuid
is_uuid-lower s h = rw (take-lower 36 s) (
    rw length-lower (
      rw (drop-lower 36 s)
        (ground (arith, all_hex-lower (take 36 s), starts_newline-lower (drop 36 s), h))))
