-- ===== src/Ledger/Tests.antt =====
-- Runs of webapp/core/ledger.py on a wallet of one user, and the theorems at work on them.
use vakant.Prelude.{
  ℕ, true, false, ◌≡◌, refl, some, none, List, [], ◌∷◌, ◌==◌, if◌then◌else◌, arith, length,
}
use vakant.Prelude.Int.{pos, negsuc, neg, ◌+ℤ◌, ◌-ℤ◌}
use vakant.Db.{User, topup, referral_reward, adjustment, Tx, Db, fresh, put_user}
use vakant.Db.Exec.{err, value_error, update_user}
use vakant.Ledger.{
  Change, check_amount, check_kind, insert_tx, apply_balance_change, activate_pro, reset_user,
}
use vakant.Ledger.Changes.{Applies, apply_balance_change-Applies}
use vakant.Ledger.Activation.{Activates, activate_pro-Activates}
use vakant.Ledger.Reset.{Resets, reset_user-Resets, reset_user_too_large}
use vakant.Ledger.Balance.{Call, change, activate, reset, call, run, IsLedger, run-IsLedger}

abbrev user : User
user = record { first_name = none; user_balance = some (pos 0); user_pro = none; banned = none }

abbrev rich : User
rich = record user { user_balance = some (pos 100_000_001) }

abbrev wallet : Db
wallet = record {
  users = λ k. if k == 7 then some user else none;
  txs = [];
  tx_seq = 0;
  orders = [];
  order_seq = 0;
  payment_bonus_percent = none;
  rate_limits = [];
  payment_events = [];
}

abbrev overfull : Db
overfull = record wallet { users = λ k. if k == 7 then some rich else none }

abbrev credit : Change
credit = record {
  user_id = 7;
  amount = pos 500;
  kind = referral_reward;
  actor_id = none;
  note = none;
  price_snapshot = none;
  require_sufficient = false;
  reference = none;
}

abbrev debit : Change
debit = record credit { amount = negsuc 599; kind = adjustment; require_sufficient = true }

abbrev calls : List Call
calls = change 1 credit ∷ (change 2 debit ∷ (activate 3 7 (pos 300) ∷ (reset 4 7 none none ∷ [])))

-- The debit of 600 is refused; the other three calls leave three rows.
calls_amounts : length (run calls wallet).txs ≡ 3
unfolding run call reset_user put_user apply_balance_change activate_pro check_amount check_kind
    insert_tx update_user neg ◌+ℤ◌ ◌-ℤ◌
calls_amounts = refl

wallet-IsLedger : IsLedger wallet
wallet-IsLedger = record { balanced = record { at = λ k u e. ground (arith, e) }; ordered = tt }

run-IsLedger_example : IsLedger (run calls wallet)
run-IsLedger_example = run-IsLedger calls wallet wallet-IsLedger

apply_balance_change-Applies_example :
    Applies 2 debit (fresh wallet) (apply_balance_change 2 debit (fresh wallet))
apply_balance_change-Applies_example = apply_balance_change-Applies 2 debit (fresh wallet)

activate_pro-Activates_example :
    Activates 1 7 (pos 0) (fresh wallet) (activate_pro 1 7 (pos 0) (fresh wallet))
activate_pro-Activates_example = activate_pro-Activates 1 7 (pos 0) (fresh wallet)

-- Between the first SELECT and its UPDATE another connection makes the user rich.
abbrev meanwhile : ℕ → Db → Db
meanwhile i d =
    if i == 4
    then record d { users = put_user 7 (record user { user_balance = some (pos 40) }) d.users }
    else d

reset_user-Resets_example :
    Resets meanwhile 7 (fresh wallet) (reset_user meanwhile 1 7 none none (fresh wallet))
reset_user-Resets_example = reset_user-Resets meanwhile 1 7 none none (fresh wallet)

reset_user_too_large_example :
    (reset_user (λ _ d. d) 1 7 none none (fresh overfull)).0 ≡ err value_error
reset_user_too_large_example =
    reset_user_too_large 1 7 none none (fresh overfull) rich refl (ground arith)

abbrev row_of : ℕ → Tx
row_of i = record {
  id = i;
  user_id = 7;
  kind = topup;
  amount = pos 10;
  balance_after = pos 10;
  price_snapshot = none;
  actor_id = none;
  note = none;
  created_at = 1;
  reference = none;
}

abbrev history : Db
history = record wallet { txs = row_of 3 ∷ (row_of 2 ∷ (row_of 1 ∷ [])); tx_seq = 3 }
