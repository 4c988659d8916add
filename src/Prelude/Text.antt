-- ===== src/Prelude/Text.antt =====
-- Python's `str` as the list of its code points: comparison, prefixes and decimal digits.
use Prim.Native.Char.{code}
use Prim.Native.String.{String}
use Prim.Native.Nat.{ℕ, zero, suc, ◌+◌, ◌-◌, ◌*◌, ◌/◌, ◌%◌, ◌≤◌}
use mathlib.Core.Path.{◌≡◌, refl, ap, ◌∙◌, sym}
use mathlib.Core.Logic.{◌↔◌}
use mathlib.Core.Bool.{Bool, true, false, not, ◌&&◌, ◌||◌}
use mathlib.Core.List.{List, [], ◌∷◌, ◌++◌}
use mathlib.Core.Option.{Option, none, some}
use native.Mathlib.Omega.{arith}
use vakant.Prelude.Tests.{ltb, leb, ◌==◌, if◌then◌else◌}

abbrev pub Text : Type 0
Text = List ℕ

-- A literal: the code points of a native string.
abbrev pub codes : String → Text
codes String.[] = []
codes (String.◌∷◌ c s) = code c ∷ codes s

unfoldable pub text_eq : Text → Text → Bool
text_eq [] [] = true
text_eq (a ∷ s) (b ∷ t) = (a == b) && text_eq s t
text_eq _ _ = false

eq_of_text_eq : (s t : Text) → text_eq s t ≡ true → s ≡ t
unfolding text_eq
eq_of_text_eq [] [] h = refl
eq_of_text_eq (a ∷ s) (b ∷ t) h = ground (arith, eq_of_text_eq s t)
eq_of_text_eq [] (b ∷ t) h = cc
eq_of_text_eq (a ∷ s) [] h = cc

pub text_eq_refl : (s : Text) → text_eq s s ≡ true
unfolding text_eq
text_eq_refl [] = refl
text_eq_refl (a ∷ s) = ground (arith, text_eq_refl s)

pub text_eq_iff : (s t : Text) → (text_eq s t ≡ true) ↔ (s ≡ t)
text_eq_iff s t = (eq_of_text_eq s t, λ p. rw p (text_eq_refl t))

-- `s.startswith(prefix)`, with the rest `s[len(prefix):]`
unfoldable pub after_prefix : Text → Text → Option Text
after_prefix [] s = some s
after_prefix (p ∷ ps) [] = none
after_prefix (p ∷ ps) (c ∷ s) = if p == c then after_prefix ps s else none

pub after_prefix-append : (p s : Text) → after_prefix p (p ++ s) ≡ some s
unfolding after_prefix
after_prefix-append [] s = refl
after_prefix-append (c ∷ p) s = ground (arith, after_prefix-append p s)

abbrev pub is_digit : ℕ → Bool
is_digit c = leb 48 c && leb c 57

unfoldable pub all_digits : Text → Bool
all_digits [] = true
all_digits (c ∷ s) = is_digit c && all_digits s

-- `s.isascii() and s.isdigit()`: at least one digit, and nothing else
unfoldable pub is_number : Text → Bool
unfolding all_digits
is_number [] = false
is_number (c ∷ s) = all_digits (c ∷ s)

-- `int(s)` of ASCII digits
unfoldable pub int_from : ℕ → Text → ℕ
int_from n [] = n
int_from n (c ∷ s) = int_from (n * 10 + (c - 48)) s

unfoldable pub int_of : Text → ℕ
unfolding int_from
int_of = int_from 0

-- `str(n)`. Each round divides by ten, so `n` rounds are enough.
unfoldable pub decimal_from : ℕ → ℕ → Text → Text
decimal_from zero n out = (48 + n % 10) ∷ out
decimal_from (suc fuel) n out =
    let more = decimal_from fuel (n / 10) ((48 + n % 10) ∷ out) in
    if ltb n 10 then (48 + n) ∷ out else more

unfoldable pub decimal : ℕ → Text
unfolding decimal_from
decimal n = decimal_from n n []

int_from-decimal_from :
    (fuel n : ℕ) (out : Text) → n ≤ fuel → int_from 0 (decimal_from fuel n out) ≡ int_from n out
unfolding decimal_from int_from
int_from-decimal_from zero n out h = ap (λ k. int_from k out) (omega arith)
int_from-decimal_from (suc fuel) n out h = ground (
  arith,
  int_from-decimal_from fuel (n / 10) ((48 + n % 10) ∷ out),
  ap (λ k. int_from k out) (digit_of_number n),
  ap (λ k. int_from k out) (last_digit n),
)
  where
    digit_of_number : (m : ℕ) → 0 * 10 + (48 + m - 48) ≡ m
    digit_of_number m = omega arith

    last_digit : (m : ℕ) → m / 10 * 10 + (48 + m % 10 - 48) ≡ m
    last_digit m = omega arith

-- `int(str(n))` is `n`.
pub int_of-decimal : (n : ℕ) → int_of (decimal n) ≡ n
unfolding int_of decimal
int_of-decimal n = int_from-decimal_from n n [] (omega arith)

pub decimal_injective : {m n : ℕ} → decimal m ≡ decimal n → m ≡ n
decimal_injective {m} {n} p = sym (int_of-decimal m) ∙ ap int_of p ∙ int_of-decimal n

-- `str.isspace` of one character
unfoldable pub is_space : ℕ → Bool
is_space c =
    (leb 9 c && leb c 13)
    || (leb 28 c && leb c 32)
    || (c == 133)
    || (c == 160)
    || (c == 5760)
    || (leb 8192 c && leb c 8202)
    || (c == 8232)
    || (c == 8233)
    || (c == 8239)
    || (c == 8287)
    || (c == 12288)

abbrev pub is_empty : Text → Bool
is_empty [] = true
is_empty (c ∷ s) = false

unfoldable pub strip_start : Text → Text
unfolding is_space
strip_start [] = []
strip_start (c ∷ s) = let rest = strip_start s in if is_space c then rest else c ∷ s

unfoldable pub strip_end : Text → Text
unfolding is_space
strip_end [] = []
strip_end (c ∷ s) = let rest = strip_end s in if is_space c && is_empty rest then [] else c ∷ rest

-- `s.strip()`
abbrev pub strip : Text → Text
strip s = strip_end (strip_start s)

-- A test of every character.
abbrev pub every : (ℕ → Bool) → Text → Bool
every p [] = true
every p (c ∷ s) = p c && every p s

pub every-append :
    (p : ℕ → Bool) (s t : Text) → every p s ≡ true → every p t ≡ true → every p (s ++ t) ≡ true
every-append p [] t h h' = h'
every-append p (c ∷ s) t h h' = ground (arith, h, every-append p s t, h')

pub every_weaker :
    (p q : ℕ → Bool) (s : Text)
    → ((c : ℕ) → p c ≡ true → q c ≡ true)
    → every p s ≡ true
    → every q s ≡ true
every_weaker p q [] step h = refl
every_weaker p q (c ∷ s) step h = ground (arith, h, step c, every_weaker p q s step)

every-decimal_from :
    (fuel n : ℕ) (out : Text)
    → every is_digit out ≡ true
    → every is_digit (decimal_from fuel n out) ≡ true
unfolding decimal_from
every-decimal_from zero n out h = ground (arith, h)
every-decimal_from (suc fuel) n out h =
    ground (arith, h, every-decimal_from fuel (n / 10) ((48 + n % 10) ∷ out))

-- `str(n)` has digits only.
pub every-decimal : (n : ℕ) → every is_digit (decimal n) ≡ true
unfolding decimal
every-decimal n = every-decimal_from n n [] refl

strip_start_clean : (s : Text) → every (λ c. not (is_space c)) s ≡ true → strip_start s ≡ s
unfolding strip_start
strip_start_clean [] h = refl
strip_start_clean (c ∷ s) h = ground (arith, h)

strip_end_clean : (s : Text) → every (λ c. not (is_space c)) s ≡ true → strip_end s ≡ s
unfolding strip_end
strip_end_clean [] h = refl
strip_end_clean (c ∷ s) h = ground (arith, h, strip_end_clean s)

-- A text without white space is not stripped.
pub strip_clean : (s : Text) → every (λ c. not (is_space c)) s ≡ true → strip s ≡ s
strip_clean s h = ap strip_end (strip_start_clean s h) ∙ strip_end_clean s h

-- `s.partition(c)`: what is before and after the first `c`, none without one
abbrev pub add_before : ℕ → Option (Text × Text) → Option (Text × Text)
add_before c none = none
add_before c (some (s, t)) = some (c ∷ s, t)

unfoldable pub partition : ℕ → Text → Option (Text × Text)
partition c [] = none
partition c (x ∷ s) = let rest = partition c s in if x == c then some ([], s) else add_before x rest

pub partition-append :
    (c : ℕ) (s t : Text)
    → every (λ x. not (x == c)) s ≡ true
    → partition c (s ++ c ∷ t) ≡ some (s, t)
unfolding partition
partition-append c [] t h = ground arith
partition-append c (x ∷ s) t h = ground (arith, h, partition-append c s t)
