-- ===== src/Ledger.antt =====
-- The wallet ledger, webapp/core/ledger.py: each change of `users.user_balance` that the web app
-- makes, with its row. The bot pays referral rewards by an UPDATE of its own
-- (src/middleware/middlewares.py), which is not modelled.
-- A caller commits or rolls back. `now` is `int(time.time())`.
pub mod Changes
pub mod Activation
pub mod Moves
pub mod Balance
pub mod Reset
pub mod Page
pub mod Tests
use Prim.Native.Nat.{min, max}
use mathlib.Core.Option
use vakant.Prelude.{
  ℕ, zero, suc, ◌+◌, Bool, true, false, not, ◌&&◌, Option, none, some, List, ◌∷◌, ltb, leb, ◌==◌,
  any, keep, take, if◌then◌else◌, or_default,
}
use vakant.Prelude.Int.{ℤ, pos, ◌+ℤ◌, ◌-ℤ◌, neg, abs, ltb_ℤ, leb_ℤ, eqb_ℤ, pos_part}
use vakant.Prelude.Text.{Text, text_eq}
use vakant.Db.{
  User, Kind, pro_activation, referral_reward, admin_credit, admin_reset, adjustment, topup,
  topup_bonus, unknown, Tx, Db, balance_of,
}
use vakant.Db.Exec.{
  Result, ok, err, Exec, value_error, integrity_error, ledger_error, user_not_found, already_pro,
  insufficient_balance, pure, raise, lift, gets, ◌>>=◌, ◌>>◌, modify, others, guard, update_user,
}

abbrev pub max_amount : ℕ
max_amount = 100_000_000

-- `_check_amount`
unfoldable pub check_amount : ℤ → Result ℤ
check_amount amount = if ltb max_amount (abs amount) then err value_error else ok amount

-- `_check_kind`: membership in `KINDS`
unfoldable pub check_kind : Kind → Result Kind
check_kind unknown = err value_error
check_kind k = ok k

abbrev pub kind_code : Kind → ℕ
kind_code pro_activation = 0
kind_code referral_reward = 1
kind_code admin_credit = 2
kind_code admin_reset = 3
kind_code adjustment = 4
kind_code topup = 5
kind_code topup_bonus = 6
kind_code unknown = 7

-- `COALESCE(user_pro, 0) != 0`
abbrev pub is_pro : User → Bool
is_pro u = not (or_default 0 u.user_pro == 0)

-- `_current_balance`
abbrev pub current_balance : ℕ → Db → Option (ℤ × Bool)
current_balance k d = Option.map (λ u. (balance_of u, is_pro u)) (d.users k)

-- The arguments of `_insert_tx`.
pub record Entry : Type 0 where
  pub user_id : ℕ
  pub kind : Kind
  pub amount : ℤ
  pub balance_after : ℤ
  pub actor_id : Option ℕ
  pub note : Option Text
  pub price_snapshot : Option ℤ
  pub reference : Option Text

-- The unique index on `(kind, reference)`: some row has both.
unfoldable pub referenced : Kind → Text → List Tx → Bool
referenced k r = any (λ t.
    kind_code t.kind == kind_code k && elim t.reference [ none ↦ false | some q ↦ text_eq q r ])

abbrev pub clashes : Entry → List Tx → Bool
clashes e txs = elim e.reference [ none ↦ false | some r ↦ referenced e.kind (take 200 r) txs ]

-- The row that `_insert_tx` writes under the id `i`.
abbrev pub tx_of : ℕ → ℕ → Entry → Tx
tx_of now i e = record {
  id = i;
  user_id = e.user_id;
  kind = e.kind;
  amount = e.amount;
  balance_after = e.balance_after;
  price_snapshot = e.price_snapshot;
  actor_id = e.actor_id;
  note = Option.map (take 500) e.note;
  created_at = now;
  reference = Option.map (take 200) e.reference;
}

abbrev pub add_tx : ℕ → Entry → Db → Db
add_tx now e d = record d { txs = tx_of now (d.tx_seq + 1) e ∷ d.txs; tx_seq = d.tx_seq + 1 }

-- `_insert_tx`
unfoldable pub insert_tx : ℕ → Entry → Exec ℕ
insert_tx now e = do
  guard (not (← gets (λ d. clashes e d.txs))) integrity_error
  modify (add_tx now e)
  gets (λ d. d.tx_seq)

-- The dictionary that the operations return.
pub record Receipt : Type 0 where
  pub balance_after : ℤ
  pub tx_id : ℕ
  pub amount : ℤ

-- The keyword arguments of `apply_balance_change`.
pub record Change : Type 0 where
  pub user_id : ℕ
  pub amount : ℤ
  pub kind : Kind
  pub actor_id : Option ℕ
  pub note : Option Text
  pub price_snapshot : Option ℤ
  pub require_sufficient : Bool
  pub reference : Option Text

abbrev pub add_balance : ℤ → User → User
add_balance amount u = record u { user_balance = some (balance_of u +ℤ amount) }

-- The condition of the UPDATE: it holds unless the change must be covered and is not.
abbrev pub covered : Change → User → Bool
covered c u =
    if c.require_sufficient && ltb_ℤ c.amount (pos 0)
    then leb_ℤ (neg c.amount) (balance_of u)
    else true

-- What the operations read after a write: `state[0] if state else 0`.
abbrev pub balance_after_of : ℕ → Db → ℤ
balance_after_of k d = elim (d.users k) [ none ↦ pos 0 | some u ↦ balance_of u ]

abbrev pub entry_of : Change → ℤ → Entry
entry_of c after = record {
  user_id = c.user_id;
  kind = c.kind;
  amount = c.amount;
  balance_after = after;
  actor_id = c.actor_id;
  note = c.note;
  price_snapshot = c.price_snapshot;
  reference = c.reference;
}

-- Both refusals when no row was updated.
refuse_change : Change → Option (ℤ × Bool) → Exec Receipt
refuse_change c none = raise (user_not_found c.user_id)
refuse_change c (some (balance, _)) = raise (insufficient_balance (neg c.amount) balance)

unfoldable pub apply_balance_change : ℕ → Change → Exec Receipt
unfolding check_amount check_kind refuse_change
apply_balance_change now c = do
  lift (check_amount c.amount)
  lift (check_kind c.kind)
  updated ← update_user c.user_id (covered c) (add_balance c.amount)
  elim updated [
    | true ↦ do
      after ← gets (balance_after_of c.user_id)
      tx_id ← insert_tx now (entry_of c after)
      pure (record { balance_after = after; tx_id = tx_id; amount = c.amount })
    | false ↦ do refuse_change c (← gets (current_balance c.user_id))
  ]

abbrev pub charge : ℤ → User → User
charge price u = record u { user_balance = some (balance_of u -ℤ price); user_pro = some 1 }

abbrev pub may_activate : ℤ → User → Bool
may_activate price u = not (is_pro u) && leb_ℤ price (balance_of u)

refuse_activation : ℕ → ℤ → Option (ℤ × Bool) → Exec Receipt
refuse_activation k price none = raise (user_not_found k)
refuse_activation k price (some (balance, pro)) =
    raise (if pro then already_pro k else insufficient_balance price balance)

abbrev pub activation_entry : ℕ → ℤ → ℤ → Entry
activation_entry k price after = record {
  user_id = k;
  kind = pro_activation;
  amount = neg price;
  balance_after = after;
  actor_id = none;
  note = none;
  price_snapshot = some price;
  reference = none;
}

pub activate_pro : ℕ → ℕ → ℤ → Exec Receipt
unfolding check_amount refuse_activation
activate_pro now k price = do
  lift (check_amount price)
  guard (not (ltb_ℤ price (pos 0))) value_error
  updated ← update_user k (may_activate price) (charge price)
  elim updated [
    | true ↦ do
      after ← gets (balance_after_of k)
      tx_id ← insert_tx now (activation_entry k price after)
      pure (record { balance_after = after; tx_id = tx_id; amount = neg price })
    | false ↦ do refuse_activation k price (← gets (current_balance k))
  ]

abbrev pub cleared : User → User
cleared u = record u { user_balance = some (pos 0); user_pro = some 0 }

abbrev pub reset_entry : ℕ → Option ℕ → Option Text → ℤ → Entry
reset_entry k actor memo amount = record {
  user_id = k;
  kind = admin_reset;
  amount = amount;
  balance_after = pos 0;
  actor_id = actor;
  note = memo;
  price_snapshot = none;
  reference = none;
}

-- The rest of a round of `reset_user` once its UPDATE changed the row.
record_reset : ℕ → ℕ → Option ℕ → Option Text → ℤ → Exec Receipt
unfolding check_amount
record_reset now k actor memo balance = do
  amount ← lift (check_amount (neg balance))
  tx_id ← insert_tx now (reset_entry k actor memo amount)
  pure (record { balance_after = pos 0; tx_id = tx_id; amount = neg balance })

-- `between i` is what other connections commit between the SELECT and the UPDATE of a round.
reset_rounds : ℕ → (ℕ → Db → Db) → ℕ → ℕ → Option ℕ → Option Text → Exec Receipt
unfolding record_reset
reset_rounds zero between now k actor memo = raise ledger_error
reset_rounds (suc rounds) between now k actor memo = do
  state ← gets (current_balance k)
  elim state [
    | none ↦ raise (user_not_found k)
    | some (balance, _) ↦ do
      others (between rounds)
      updated ← update_user k (λ u. eqb_ℤ (balance_of u) balance) cleared
      elim updated [
        | true ↦ record_reset now k actor memo balance
        | false ↦ reset_rounds rounds between now k actor memo
      ]
  ]

pub reset_user : (ℕ → Db → Db) → ℕ → ℕ → Option ℕ → Option Text → Exec Receipt
unfolding reset_rounds
reset_user = reset_rounds 5

-- `max(1, min(int(limit), 50))`
abbrev pub page_size : ℤ → ℕ
page_size limit = max 1 (min (pos_part limit) 50)

-- `WHERE user_id = ? [AND id < ?]`; a cursor of 0 is no cursor
abbrev pub listed : ℕ → Option ℕ → Tx → Bool
listed k before t =
    (t.user_id == k) && elim before [ none ↦ true | some b ↦ if b == 0 then true else ltb t.id b ]

-- The rows of `txs` stand newest first, which is `ORDER BY id DESC`.
pub list_transactions : ℕ → Option ℕ → ℤ → Db → List Tx
list_transactions k before limit d = take (page_size limit) (keep (listed k before) d.txs)
