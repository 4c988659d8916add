-- ===== src/Admin/ConfirmTests.antt =====
-- A confirmation token of webapp/core/confirm.py, and the theorems on it.
use vakant.Prelude.{ℕ, ◌+◌, ◌%◌, ◌≡◌, ◌≢◌, ◌⊎◌, refl, arith, true, [], ◌∷◌, some, ap}
use vakant.Prelude.Int.{pos}
use vakant.Prelude.Text.{
  Text, codes, text_eq, strip_start, strip_end, is_space, every, partition, decimal, decimal_from,
  int_of, int_from, int_of-decimal,
}
use vakant.Db.Exec.{ok, compare_digest}
use vakant.Admin.Confirm.{
  Signer, IsSigner, is_hex, message, issue_confirm_token, verify_confirm_token,
  verify_confirm_token-issue_confirm_token, verify_confirm_token_bound,
}

-- A signer whose MAC is the last digit of each code point of the message.
abbrev digits_text : Text → Text
digits_text [] = []
digits_text (c ∷ s) = (48 + c % 10) ∷ digits_text s

digits_hex : (s : Text) → every is_hex (digits_text s) ≡ true
digits_hex [] = refl
digits_hex (c ∷ s) = ground (arith, digits_hex s)

-- Its parameters are an amount, written in digits.
abbrev signer : Signer ℕ
signer = record {
  int = λ s. some (pos (int_of s));
  dumps = decimal;
  loads = λ s. some (int_of s);
  empty = 0;
  mac = digits_text;
  confirm_ttl = 60;
}

signer_sound : IsSigner signer
signer_sound = record {
  int_decimal = λ n. ap (λ m. some (pos m)) (int_of-decimal n);
  loads_dumps = λ n. ap some (int_of-decimal n);
  hex = digits_hex;
}

verify_confirm_token-issue_confirm_token_example :
    verify_confirm_token signer 1030
      (issue_confirm_token signer 1000 1 (codes "users.balance") (some 700))
      1
      (codes "users.balance")
      (some 700)
    ≡ ok true
verify_confirm_token-issue_confirm_token_example =
    verify_confirm_token-issue_confirm_token signer signer_sound 1000 1030 1 (codes "users.balance")
      (some 700) (omega arith) (omega arith)

token_valid :
    verify_confirm_token signer 1030
      (issue_confirm_token signer 1000 1 (codes "users.balance") (some 700))
      1
      (codes "users.balance")
      (some 700)
    ≡ ok true
unfolding verify_confirm_token issue_confirm_token decimal decimal_from strip_start strip_end
    is_space partition int_of int_from text_eq compare_digest
token_valid = refl

abbrev signed_message : Text
signed_message = message signer 1 (codes "users.balance") (decimal 700) (pos 1060)

verify_confirm_token_bound_example :
    ((◌≡◌ {A = ℕ} 1 1) × (codes "users.balance" ≡ codes "users.balance") × (◌≡◌ {A = ℕ} 700 700))
    ⊎ ((signed_message ≢ signed_message)
        × (digits_text signed_message ≡ digits_text signed_message))
verify_confirm_token_bound_example =
    verify_confirm_token_bound signer signer_sound 1000 1030 1 1 (codes "users.balance")
      (codes "users.balance") (some 700) (some 700) refl refl token_valid
