-- ===== src/Admin/Roles.antt =====
-- The roles of admins: `resolve_admin_role`, `is_banned` and `require_role` of webapp/core/auth.py,
-- and their read-only twin `target_admin_role` with the guard on targets of
-- webapp/routers/admin_users.py.
use vakant.Prelude.{
  ◌∙◌, ℕ, ◌≡◌, refl, Bool, true, false, not, ◌&&◌, Option, none, some, List, ◌∷◌, any, find, leb,
  ◌==◌, if◌then◌else◌, or_default, Bool-cases, inl, inr, sym,
}
use vakant.Prelude.Text.{Text, codes, text_eq}
use vakant.Db.{Db}
use vakant.Admin.{AdminRow, Panel}

-- `ROLES`
pub data Role : Type 0 where
  viewer moderator admin owner : Role

-- `_ROLE_RANK`
abbrev pub role_rank : Role → ℕ
role_rank viewer = 0
role_rank moderator = 1
role_rank admin = 2
role_rank owner = 3

-- A name in `ROLES`.
unfoldable pub known_role : Text → Option Role
known_role role =
    if text_eq role (codes "owner")
    then some owner
    else if text_eq role (codes "admin")
    then some admin
    else if text_eq role (codes "moderator")
    then some moderator
    else if text_eq role (codes "viewer")
    then some viewer
    else none

-- `role if role in ROLES else "viewer"`
abbrev pub role_of : Text → Role
role_of role = or_default viewer (known_role role)

-- `int(row["disabled"] or 0)`, as a truth value
abbrev pub is_disabled : AdminRow → Bool
is_disabled r = not (or_default 0 r.disabled == 0)

abbrev pub is_enabled_owner : AdminRow → Bool
is_enabled_owner r = text_eq r.role (codes "owner") && (or_default 1 r.disabled == 0)

-- `has_enabled_owner`
abbrev pub has_enabled_owner : List AdminRow → Bool
has_enabled_owner rows = any is_enabled_owner rows

-- `SELECT role, disabled FROM admins WHERE user_id = ?`
abbrev pub admin_row : ℕ → List AdminRow → Option AdminRow
admin_row k rows = find (λ r. r.user_id == k) rows

-- The role of a row: an explicit revocation wins.
abbrev pub row_role : AdminRow → Option Role
row_role r = if is_disabled r then none else some (role_of r.role)

abbrev pub owner_row : ℕ → ℕ → AdminRow
owner_row now k = record { user_id = k; role = codes "owner"; added_at = now; disabled = some 0 }

-- `ADMIN_IDS` makes owners as long as no owner is enabled.
abbrev pub bootstraps : (ℕ → Bool) → ℕ → List AdminRow → Bool
bootstraps admin_ids k rows = admin_ids k && not (has_enabled_owner rows)

abbrev pub resolve_unlisted : Bool → ℕ → ℕ → List AdminRow → Panel → Option Role × Panel
resolve_unlisted true now k rows p =
    (some owner, record p { admins = some (owner_row now k ∷ rows) })
resolve_unlisted false now k rows p = (none, p)

abbrev pub resolve_row :
    (ℕ → Bool) → ℕ → ℕ → List AdminRow → Panel → Option AdminRow → Option Role × Panel
resolve_row admin_ids now k rows p (some r) = (row_role r, p)
resolve_row admin_ids now k rows p none =
    resolve_unlisted (bootstraps admin_ids k rows) now k rows p

-- Before the migrations, the list of the environment stands alone.
abbrev pub env_role : (ℕ → Bool) → ℕ → Option Role
env_role admin_ids k = if admin_ids k then some owner else none

abbrev pub resolve_in : (ℕ → Bool) → ℕ → ℕ → Panel → Option (List AdminRow) → Option Role × Panel
resolve_in admin_ids now k p none = (env_role admin_ids k, p)
resolve_in admin_ids now k p (some rows) = resolve_row admin_ids now k rows p (admin_row k rows)

-- `resolve_admin_role`
unfoldable pub resolve_admin_role : (ℕ → Bool) → ℕ → ℕ → Panel → Option Role × Panel
resolve_admin_role admin_ids now k p = resolve_in admin_ids now k p p.admins

-- The rule again, as `target_admin_role` writes it.
abbrev pub target_row_role : (ℕ → Bool) → ℕ → List AdminRow → Option AdminRow → Option Role
target_row_role admin_ids k rows (some r) =
    if or_default 0 r.disabled == 0 then some (or_default viewer (known_role r.role)) else none
target_row_role admin_ids k rows none =
    if has_enabled_owner rows then none else if admin_ids k then some owner else none

abbrev pub target_role_in : (ℕ → Bool) → ℕ → Option (List AdminRow) → Option Role
target_role_in admin_ids k none = if admin_ids k then some owner else none
target_role_in admin_ids k (some rows) = target_row_role admin_ids k rows (admin_row k rows)

-- `target_admin_role`
unfoldable pub target_admin_role : (ℕ → Bool) → ℕ → Panel → Option Role
target_admin_role admin_ids k p = target_role_in admin_ids k p.admins

-- `outranks_or_equals`
abbrev pub outranks_or_equals : Option Role → Role → Bool
outranks_or_equals none actor_role = false
outranks_or_equals (some role) actor_role = leb (role_rank actor_role) (role_rank role)

-- `is_banned`, in a database that has the column
unfoldable pub is_banned : ℕ → Db → Bool
is_banned k d = elim (d.users k) [ none ↦ false | some u ↦ not (or_default 0 u.banned == 0) ]

unlisted-role :
    (b : Bool) (now k : ℕ) (rows : List AdminRow) (p : Panel)
    → (resolve_unlisted b now k rows p).0 ≡ (if b then some owner else none)
unlisted-role true now k rows p = refl
unlisted-role false now k rows p = refl

listed-role :
    (r : AdminRow)
    → row_role r ≡ (
        if or_default 0 r.disabled == 0 then some (or_default viewer (known_role r.role)) else none)
listed-role r = elim (Bool-cases (or_default 0 r.disabled == 0)) [
  | inl on ↦ rw on refl
  | inr off ↦ rw off refl
]

bootstrapped-role :
    (listed owned : Bool)
    → ◌≡◌ {A = Option Role}
        (if listed && not owned then some owner else none)
        (if owned then none else if listed then some owner else none)
bootstrapped-role true true = refl
bootstrapped-role true false = refl
bootstrapped-role false true = refl
bootstrapped-role false false = refl

row-role :
    (admin_ids : ℕ → Bool) (now k : ℕ) (rows : List AdminRow) (p : Panel) (r : Option AdminRow)
    → (resolve_row admin_ids now k rows p r).0 ≡ target_row_role admin_ids k rows r
row-role admin_ids now k rows p (some r) = listed-role r
row-role admin_ids now k rows p none =
    unlisted-role (bootstraps admin_ids k rows) now k rows p
    ∙ bootstrapped-role (admin_ids k) (has_enabled_owner rows)

roles_agree :
    (admin_ids : ℕ → Bool) (now k : ℕ) (p : Panel) (table : Option (List AdminRow))
    → target_role_in admin_ids k table ≡ (resolve_in admin_ids now k p table).0
roles_agree admin_ids now k p none = refl
roles_agree admin_ids now k p (some rows) = sym (row-role admin_ids now k rows p (admin_row k rows))

-- The two copies of the rule agree: `target_admin_role` gives the role of anyone that
-- `resolve_admin_role` gives.
pub target_admin_role-resolve_admin_role :
    (admin_ids : ℕ → Bool) (now k : ℕ) (p : Panel)
    → target_admin_role admin_ids k p ≡ (resolve_admin_role admin_ids now k p).0
unfolding target_admin_role resolve_admin_role
target_admin_role-resolve_admin_role admin_ids now k p = roles_agree admin_ids now k p p.admins

abbrev pub role_in_table : Option AdminRow → Option Role
role_in_table none = none
role_in_table (some r) = row_role r

table_only :
    (admin_ids : ℕ → Bool) (now k : ℕ) (p : Panel) (rows : List AdminRow) (r : Option AdminRow)
    → has_enabled_owner rows ≡ true
    → resolve_row admin_ids now k rows p r ≡ (role_in_table r, p)
table_only admin_ids now k p rows (some r) owned = refl
table_only admin_ids now k p rows none owned = elim (Bool-cases (admin_ids k)) [
  | inl listed ↦ rw (listed, owned) refl
  | inr unlisted ↦ rw unlisted refl
]

in_table :
    (admin_ids : ℕ → Bool) (now k : ℕ) (p : Panel) (table : Option (List AdminRow))
    (rows : List AdminRow)
    → table ≡ some rows
    → has_enabled_owner rows ≡ true
    → resolve_in admin_ids now k p table ≡ (role_in_table (admin_row k rows), p)
in_table admin_ids now k p none rows e owned = cc
in_table admin_ids now k p (some found) rows e owned =
    let same : found ≡ rows = cc in
    rw same (table_only admin_ids now k p rows (admin_row k rows) owned)

-- Once an owner is enabled in the table, the table alone says who is an admin: `ADMIN_IDS` makes no
-- difference, and nothing is written.
pub resolve_admin_role_table :
    (admin_ids : ℕ → Bool) (now k : ℕ) (p : Panel) (rows : List AdminRow)
    → p.admins ≡ some rows
    → has_enabled_owner rows ≡ true
    → resolve_admin_role admin_ids now k p ≡ (role_in_table (admin_row k rows), p)
unfolding resolve_admin_role
resolve_admin_role_table admin_ids now k p rows migrated owned =
    in_table admin_ids now k p p.admins rows migrated owned

-- Asking for a role leaves the wallet as it is.
unlisted-db :
    (b : Bool) (now k : ℕ) (rows : List AdminRow) (p : Panel)
    → (resolve_unlisted b now k rows p).1.db ≡ p.db
unlisted-db true now k rows p = refl
unlisted-db false now k rows p = refl

row-db :
    (admin_ids : ℕ → Bool) (now k : ℕ) (rows : List AdminRow) (p : Panel) (r : Option AdminRow)
    → (resolve_row admin_ids now k rows p r).1.db ≡ p.db
row-db admin_ids now k rows p (some r) = refl
row-db admin_ids now k rows p none = unlisted-db (bootstraps admin_ids k rows) now k rows p

in-db :
    (admin_ids : ℕ → Bool) (now k : ℕ) (p : Panel) (table : Option (List AdminRow))
    → (resolve_in admin_ids now k p table).1.db ≡ p.db
in-db admin_ids now k p none = refl
in-db admin_ids now k p (some rows) = row-db admin_ids now k rows p (admin_row k rows)

pub resolve_admin_role-db :
    (admin_ids : ℕ → Bool) (now k : ℕ) (p : Panel)
    → (resolve_admin_role admin_ids now k p).1.db ≡ p.db
unfolding resolve_admin_role
resolve_admin_role-db admin_ids now k p = in-db admin_ids now k p p.admins
