-- ===== src/Admin/Tests.antt =====
-- Runs of the panel's requests (webapp/routers/admin_users.py, webapp/core/auth.py), and the
-- theorems on them.
use vakant.Prelude.{
  ℕ, zero, suc, ◌≡◌, ◌≢◌, ◌≤◌, refl, arith, Bool, true, false, Option, none, some, List, [], ◌∷◌,
  ◌==◌, if◌then◌else◌,
}
use vakant.Prelude.Int.{ℤ, pos, negsuc, ◌+ℤ◌}
use vakant.Prelude.Text.{Text, codes, text_eq, after_prefix, strip_start, strip_end, is_space}
use vakant.Db.{User, Db, put_user, balance_of}
use vakant.Db.Exec.{update_user}
use vakant.Ledger.{apply_balance_change, check_amount, check_kind, insert_tx, referenced}
use vakant.Ledger.Balance.{IsLedger}
use vakant.Admin.{Panel, AdminRow}
use vakant.Admin.Roles.{
  moderator, admin, owner, role_rank, known_role, has_enabled_owner, admin_row, role_in_table,
  resolve_admin_role, target_admin_role, outranks_or_equals, is_banned,
  target_admin_role-resolve_admin_role, resolve_admin_role_table,
}
use vakant.Admin.Sessions.{
  Settings, Actor, granted, decode_session_token, load_session_user, require_admin, require_role,
}
use vakant.Admin.Sessions.Grants.{IsGranted, require_role-IsGranted}
use vakant.Admin.Requests.Claims.{claim_idempotency}
use vakant.Admin.Requests.{
  answered, replayed, Server, BalanceRequest, Outcome, guarded, when, with_note, with_key,
  clean_note, idempotency_key, change_user_balance,
}
use vakant.Admin.Accounts.{BanRequest, set_user_ban}
use vakant.Admin.History.{Call, Ask, balance, pro, ban, ask, history}
use vakant.Admin.History.Replays.{change_user_balance-replayed}
use vakant.Admin.History.Books.{history-IsLedger}
use vakant.Admin.History.Guard.{ask_outranked}
use vakant.Admin.Bans.{set_user_ban-require_role}

abbrev plain_user : User
plain_user = record {
  first_name = none;
  user_balance = some (pos 0);
  user_pro = none;
  banned = none;
}

abbrev three_users : ℕ → Option User
three_users k = if k == 1 then some plain_user else if k == 5 then some plain_user else none

abbrev no_rows : Db
no_rows = record {
  users = three_users;
  txs = [];
  tx_seq = 0;
  orders = [];
  order_seq = 0;
  payment_bonus_percent = none;
  rate_limits = [];
  payment_events = [];
}

abbrev staff : List AdminRow
staff =
    record { user_id = 1; role = codes "owner"; added_at = 10; disabled = some 0 }
    ∷ record { user_id = 2; role = codes "admin"; added_at = 11; disabled = some 1 }
    ∷ []

abbrev office : Panel
office = record {
  db = no_rows;
  pro_until = λ k. none;
  bot_links_before = λ k. none;
  banned_reason = λ k. none;
  admins = some staff;
  sessions =
      record { token = codes "s1"; user_id = 1; created_at = 900; expires_at = 5000 }
      ∷ record { token = codes "s5"; user_id = 5; created_at = 900; expires_at = 5000 }
      ∷ [];
  handoffs = [];
  idempotency = [];
  audit = [];
}

abbrev named_ids : ℕ → Bool
named_ids k = k == 2

target_admin_role-resolve_admin_role_example :
    target_admin_role named_ids 2 office ≡ (resolve_admin_role named_ids 1000 2 office).0
target_admin_role-resolve_admin_role_example =
    target_admin_role-resolve_admin_role named_ids 1000 2 office

staff_owned : has_enabled_owner staff ≡ true
unfolding text_eq
staff_owned = refl

resolve_admin_role_table_example :
    resolve_admin_role named_ids 1000 2 office ≡ (role_in_table (admin_row 2 staff), office)
resolve_admin_role_table_example =
    resolve_admin_role_table named_ids 1000 2 office staff refl staff_owned

-- A codec in which a token is the session's id, valid until 4000.
abbrev env : Settings
env = record {
  verified = λ token. some (record { sid = some token; exp = some (pos 4000) });
  admin_ids = named_ids;
}

abbrev boss : Actor
boss = record { user_id = 1; role = owner }

boss_granted : require_role env admin 1000 (codes "Bearer s1") office ≡ (granted boss, office)
unfolding require_role require_admin decode_session_token load_session_user resolve_admin_role
    is_banned known_role text_eq after_prefix strip_start strip_end is_space
boss_granted = refl

require_role-IsGranted_example :
    IsGranted env 1000 (codes "Bearer s1") boss office × (role_rank admin ≤ role_rank boss.role)
require_role-IsGranted_example =
    require_role-IsGranted env admin 1000 (codes "Bearer s1") office boss office boss_granted

-- A codec that writes the numbers of an outcome.
abbrev signed : ℤ → Text → Text
signed (pos n) s = 0 ∷ n ∷ s
signed (negsuc n) s = 1 ∷ n ∷ s

abbrev number : ℕ → ℕ → ℤ
number zero n = pos n
number (suc s) n = negsuc n

abbrev written : Outcome → Text
written o = o.user_id ∷ o.tx_id ∷ signed o.amount (signed o.new_balance [])

abbrev nothing : Outcome
nothing = record { user_id = 0; amount = pos 0; new_balance = pos 0; tx_id = 0 }

abbrev read : Text → Outcome
read (k ∷ i ∷ s ∷ a ∷ t ∷ b ∷ []) = record {
  user_id = k;
  amount = number s a;
  new_balance = number t b;
  tx_id = i;
}
read _ = nothing

read_back :
    (k i : ℕ) (a b : ℤ)
    → read (k ∷ i ∷ signed a (signed b []))
      ≡ record { user_id = k; amount = a; new_balance = b; tx_id = i }
read_back k i (pos n) (pos m) = refl
read_back k i (pos n) (negsuc m) = refl
read_back k i (negsuc n) (pos m) = refl
read_back k i (negsuc n) (negsuc m) = refl

read-written : (o : Outcome) → read (written o) ≡ o
read-written o = read_back o.user_id o.tx_id o.amount o.new_balance

abbrev server : Server
server = record {
  admin_ids = named_ids;
  dumps = written;
  loads = read;
  digest = λ k amount note. k ∷ signed amount [];
}

abbrev gift : BalanceRequest
gift = record { user_id = 5; amount = pos 700; note = some (codes "gift") }

abbrev key : Text
key = codes "key-00000001"

abbrev answer : Outcome
answer = record { user_id = 5; amount = pos 700; new_balance = pos 700; tx_id = 1 }

abbrev after_gift : Panel
after_gift = (change_user_balance server 1000 boss office 5 (some key) gift office).1

gift_pays :
    change_user_balance server 1000 boss office 5 (some key) gift office
    ≡ (answered answer, after_gift)
unfolding change_user_balance when with_note with_key guarded clean_note idempotency_key strip_start
    strip_end is_space target_admin_role known_role text_eq claim_idempotency apply_balance_change
    check_amount check_kind update_user put_user insert_tx referenced ◌+ℤ◌
gift_pays = refl

boss_above : outranks_or_equals (target_admin_role named_ids 5 office) boss.role ≡ false
unfolding target_admin_role known_role text_eq
boss_above = refl

abbrev ban_five : BanRequest
ban_five = record { banned = true; reason = some (codes "spam") }

abbrev by_boss : ℕ → ℕ → Call
by_boss now k = record { at = now; by = boss; seen = office; on = k }

-- A second gift under another key, a Pro grant and a ban.
abbrev busy : List (Call × Ask)
busy =
    (by_boss 1100 5, balance (some (codes "key-00000002")) gift)
    ∷ (by_boss 1200 5, pro (record { enabled = true; days = some 30; note = none }))
    ∷ (by_boss 1300 5, ban ban_five)
    ∷ []

change_user_balance-replayed_example :
    change_user_balance server 2000 boss office 5 (some key) gift (history server busy after_gift)
    ≡ (replayed answer, history server busy after_gift)
change_user_balance-replayed_example =
    change_user_balance-replayed server 1000 2000 boss boss office office 5 key gift office
      after_gift answer busy read-written gift_pays (omega arith, (omega arith, (omega arith, tt)))
      (omega arith) refl boss_above

office_balanced : IsLedger office.db
office_balanced = record { balanced = record { at = even }; ordered = tt }
  where
    even : (k : ℕ) (u : User) → three_users k ≡ some u → balance_of u ≡ pos 0
    even k u h = ground (arith, h)

history-IsLedger_example : IsLedger (history server busy office).db
history-IsLedger_example = history-IsLedger server busy office office_balanced

abbrev helper : Actor
helper = record { user_id = 3; role = moderator }

abbrev on_owner : Call
on_owner = record { at = 1000; by = helper; seen = office; on = 1 }

owner_above :
    outranks_or_equals
      (target_admin_role server.admin_ids on_owner.on on_owner.seen)
      on_owner.by.role
    ≡ true
unfolding target_admin_role known_role text_eq
owner_above = refl

ask_outranked_example : ask server on_owner (ban ban_five) office ≡ office
ask_outranked_example = ask_outranked server on_owner office owner_above (ban ban_five)

abbrev after_ban : Panel
after_ban = (set_user_ban named_ids 1000 boss office 5 ban_five office).1

five_banned : set_user_ban named_ids 1000 boss office 5 ban_five office ≡ (answered 1, after_ban)
unfolding set_user_ban when with_note guarded clean_note strip_start strip_end is_space
    target_admin_role known_role text_eq put_user
five_banned = refl

-- The boss still gets in.
boss_stays : require_role env admin 1100 (codes "Bearer s1") after_ban ≡ (granted boss, after_ban)
unfolding set_user_ban when with_note guarded clean_note strip_start strip_end is_space
    target_admin_role known_role text_eq put_user require_role require_admin decode_session_token
    load_session_user resolve_admin_role is_banned after_prefix
boss_stays = refl

set_user_ban-require_role_example : boss.user_id ≢ 5
set_user_ban-require_role_example =
    set_user_ban-require_role env 1000 1100 boss boss office 5 ban_five office after_ban after_ban
      after_ban 1 admin (codes "Bearer s1") refl five_banned refl boss_stays
