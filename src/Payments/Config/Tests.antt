-- ===== src/Payments/Config/Tests.antt =====
-- Runs of the input rules of webapp/payments/config.py on ASCII digits, and the theorems on them.
use vakant.Prelude.{◌-◌, arith}
use vakant.Prelude.Text.{Text, codes, is_digit}
use vakant.Payments.Config.{Digits}

abbrev pub ascii_digits : Digits
ascii_digits = record {
  is_decimal = is_digit;
  value = λ c. c - 48;
  value_lt = λ c h. ground (arith, h);
  ascii = λ c h. (h, ground (arith, h));
}

abbrev phone : Text
phone = codes "+998 90 123-45-67"
