-- ===== src/Db.antt =====
-- The SQLite tables that the wallet and the payments share (src/db/migrations/m004, m020, m027),
-- and the connection on which `aiosqlite` runs them.
--
-- A unique column is a key: a table of users is a function of the key, and an `UPDATE ... WHERE
-- id = ?` of an order touches the first row with that id. Columns that may be NULL are options.
-- SQLite's 64-bit integers and Python's integers are read as unbounded ones.
pub mod Rows
pub mod Exec
use vakant.Prelude.{
  ℕ, ◌≡◌, ◌≢◌, arith, Bool, Option, List, [], none, some, ◌==◌, if◌then◌else◌, or_default,
}
use vakant.Prelude.Int.{ℤ, pos}
use vakant.Prelude.Text.{Text}

-- A row of `users`, the columns that the wallet reads.
pub record User : Type 0 where
  pub first_name : Option Text
  pub user_balance : Option ℤ
  pub user_pro : Option ℕ
  pub banned : Option ℕ

-- `KINDS`; `unknown` is any other string
pub data Kind : Type 0 where
  pro_activation referral_reward admin_credit admin_reset adjustment topup topup_bonus : Kind
  unknown : Kind

-- A row of `wallet_transactions`.
pub record Tx : Type 0 where
  pub id : ℕ
  pub user_id : ℕ
  pub kind : Kind
  pub amount : ℤ
  pub balance_after : ℤ
  pub price_snapshot : Option ℤ
  pub actor_id : Option ℕ
  pub note : Option Text
  pub created_at : ℕ
  pub reference : Option Text

pub data Provider : Type 0 where
  click paynet : Provider

pub data State : Type 0 where
  created pending paid cancelled : State

-- `click_method`
pub data Method : Type 0 where
  page card phone app by_paynet : Method

-- `Order`, a row of `payment_orders`. The column `purpose` is always 'topup' and is left out.
pub record Order : Type 0 where
  pub seq : ℕ
  pub id : Text
  pub user_id : ℕ
  pub provider : Provider
  pub amount_soum : ℕ
  pub state : State
  pub provider_txn : Option Text
  pub prepare_id : Option ℕ
  pub create_time : ℕ
  pub perform_time : ℕ
  pub cancel_time : ℕ
  pub cancel_reason : Option ℤ
  pub click_method : Option Method
  pub click_invoice_id : Option ℕ
  pub click_card_token : Option Text
  pub click_payment_id : Option ℕ
  pub bonus_percent : ℕ
  pub bonus_amount : ℕ
  pub created_at : ℕ
  pub updated_at : ℕ

-- A counter of `payment_rate_limits`.
pub record Hits : Type 0 where
  pub bucket : Text
  pub window_start : ℕ
  pub hits : ℕ

-- A row of `payment_events`, without the payload.
pub record PaymentEvent : Type 0 where
  pub provider : Provider
  pub method : Text
  pub order_id : Option Text
  pub provider_txn : Option Text
  pub response_code : ℤ
  pub received_at : ℕ

-- The tables, newest rows first, with the AUTOINCREMENT counters.
pub record Db : Type 0 where
  pub users : ℕ → Option User
  pub txs : List Tx
  pub tx_seq : ℕ
  pub orders : List Order
  pub order_seq : ℕ
  pub payment_bonus_percent : Option ℕ
  pub rate_limits : List Hits
  pub payment_events : List PaymentEvent

-- A connection: what is committed, and what this connection sees.
pub record Conn : Type 0 where
  pub saved : Db
  pub live : Db

-- A connection with no open transaction.
abbrev pub fresh : Db → Conn
fresh d = record { saved = d; live = d }

-- `COALESCE(user_balance, 0)`
abbrev pub balance_of : User → ℤ
balance_of u = or_default (pos 0) u.user_balance

unfoldable pub put_user : ℕ → User → (ℕ → Option User) → ℕ → Option User
put_user k u users j = if j == k then some u else users j

pub put_user_self : (k : ℕ) (u : User) (users : ℕ → Option User) → put_user k u users k ≡ some u
unfolding put_user
put_user_self k u users = ground arith

pub put_user_ne :
    (k : ℕ) (u : User) (users : ℕ → Option User) (j : ℕ) → j ≢ k → put_user k u users j ≡ users j
unfolding put_user
put_user_ne k u users j h = ground arith
