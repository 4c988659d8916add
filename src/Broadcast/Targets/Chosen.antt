-- ===== src/Broadcast/Targets/Chosen.antt =====
-- Who `queue_broadcast` of src/functions/broadcast_worker.py sends to.
use vakant.Prelude.{
  ℕ, ◌≡◌, refl, Bool, true, false, not, ◌&&◌, ◌||◌, Option, none, some, List, [], ◌∷◌, arith, ◌==◌,
  any, keep, Bool-cases, Option-cases, if◌then◌else◌, inl, inr, ap, ◌∙◌, sym, subst, is_none, ◌⊎◌,
  ◌↔◌, ◌+◌, ◌-◌, ◌*◌, ◌≤◌, max, leb, ==_iff,
}
use vakant.Prelude.Text.{Text, text_eq_iff}
use vakant.Broadcast.{
  Job, Target, Recipient, Queue, is_target, job_row, target_row, Segment, everyone, pro, free,
  test_admins, lang, region, active_days, Audience,
}
use vakant.Broadcast.Targets.{
  is_number, is_text, seen_at, in_segment, is_recipient, new_target, insert_target, insert_targets,
  queue_broadcast,
}
use vakant.Broadcast.Targets.Inserts.{queued_tables, queue_broadcast_cases}

-- That an element of a list has a property.
abbrev pub Somewhere : {A : Type 0} → (A → Type 0) → List A → Type 0
Somewhere P [] = ⊥
Somewhere P (x ∷ xs) = P x ⊎ Somewhere P xs

-- The row of a user in a job.
abbrev pub HasRow : ℕ → ℕ → List Target → Type 0
HasRow b k ts = (t : Target) × (target_row b k ts ≡ some t)

-- Whether a user is a recipient of a job.
abbrev pub has_row : ℕ → ℕ → List Target → Bool
has_row b k ts = not (is_none (target_row b k ts))

has_row_iff : (b k : ℕ) (ts : List Target) → (has_row b k ts ≡ true) ↔ HasRow b k ts
has_row_iff b k ts = elim (Option-cases (target_row b k ts)) [
  | inl missing ↦ (λ h. absurd (apart (rw missing at h)), λ h. absurd (gone (sym missing ∙ h.1)))
  | inr (t, found) ↦ (λ h. (t, found), λ h. rw found refl)
]
  where
    apart : false ≡ true → ⊥
    apart e = cc

    gone : {t : Target} → ◌≡◌ {A = Option Target} none (some t) → ⊥
    gone e = cc

has_row-insert_target :
    (b j k : ℕ) (ts : List Target)
    → has_row b k (insert_target b j ts) ≡ (has_row b k ts || (j == k))
has_row-insert_target b j k ts = elim (Option-cases (target_row b j ts)) [
  | inl missing ↦
      rw (missing, insert_target)
        (elim (Bool-cases (j == k)) [
          | inl mine ↦
              let new_here : is_target b k (new_target b j) ≡ true = ground (arith, mine) in
              rw new_here (rw mine (or_true (has_row b k ts)))
          | inr other ↦
              let not_here : is_target b k (new_target b j) ≡ false = ground (arith, other) in
              rw not_here (rw other (or_false (has_row b k ts)))
        ])
  | inr (t, found) ↦
      rw (found, insert_target)
        (elim (Bool-cases (j == k)) [
          | inl mine ↦
              let e : j ≡ k = ground (arith, mine) in
              let there : target_row b k ts ≡ some t =
                subst (λ n. target_row b n ts ≡ some t) e found in
              rw there refl
          | inr other ↦ rw other (or_false (has_row b k ts))
        ])
]
  where
    or_true : (x : Bool) → true ≡ (x || true)
    or_true true = refl
    or_true false = refl

    or_false : (x : Bool) → x ≡ (x || false)
    or_false true = refl
    or_false false = refl

has_row-insert_targets :
    (b k : ℕ) (us : List Recipient) (ts : List Target)
    → has_row b k (insert_targets b us ts) ≡ (has_row b k ts || any (λ u. u.user_id == k) us)
unfolding insert_targets
has_row-insert_targets b k [] ts = or_none (has_row b k ts)
  where
    or_none : (x : Bool) → x ≡ (x || false)
    or_none true = refl
    or_none false = refl
has_row-insert_targets b k (u ∷ us) ts =
    has_row-insert_targets b k us _
    ∙ ap (λ x. x || any (λ v. v.user_id == k) us) (has_row-insert_target b u.user_id k ts)
    ∙ or_assoc (has_row b k ts) (u.user_id == k) (any (λ v. v.user_id == k) us)
  where
    or_assoc : (x y z : Bool) → ((x || y) || z) ≡ (x || (if y then true else z))
    or_assoc true y z = refl
    or_assoc false true z = refl
    or_assoc false false z = refl

any-keep :
    (r : Recipient → Bool) (k : ℕ) (us : List Recipient)
    → any (λ u. u.user_id == k) (keep r us) ≡ any (λ u. r u && (u.user_id == k)) us
any-keep r k [] = refl
any-keep r k (u ∷ us) =
    let rest = any-keep r k us in
    elim (Bool-cases (r u)) [ inl taken ↦ rw taken (rw rest refl) | inr left ↦ rw left rest ]

-- Who a segment means, at the time `now`.
abbrev pub InSegment : ℕ → List ℕ → Segment → Recipient → Type 0
InSegment now admin_ids everyone u = Unit
InSegment now admin_ids pro u = u.user_pro ≡ some 1
InSegment now admin_ids free u = (u.user_pro ≡ none) ⊎ (u.user_pro ≡ some 0)
InSegment now admin_ids test_admins u = Somewhere (λ a. a ≡ u.user_id) admin_ids
InSegment now admin_ids (lang code) u = u.lang ≡ some code
InSegment now admin_ids (region code) u = u.region ≡ some code
InSegment now admin_ids (active_days days) u = now ≤ seen_at u + max 1 days * 86_400

-- Who an audience means: the users of its segment that are not banned, and have not blocked the bot
-- or are not left out for it.
abbrev pub Reaches : ℕ → List ℕ → Audience → Recipient → Type 0
Reaches now admin_ids audience u =
    InSegment now admin_ids audience.segment u
    × ((audience.exclude_blocked ≡ false) ⊎ ((u.blocked ≡ none) ⊎ (u.blocked ≡ some 0)))
    × ((u.banned ≡ none) ⊎ (u.banned ≡ some 0))

and_iff :
    {P Q : Type 0} (a b : Bool) → ((a ≡ true) ↔ P) → ((b ≡ true) ↔ Q) → ((a && b) ≡ true) ↔ (P × Q)
and_iff true b f g = (λ h. (f.0 refl, g.0 h), λ h. g.1 h.1)
and_iff false b f g = (λ h. cc, λ h. f.1 h.0)

choice_iff :
    {P Q : Type 0} (a b : Bool)
    → ((a ≡ true) ↔ P)
    → ((b ≡ true) ↔ Q)
    → ((if a then true else b) ≡ true) ↔ (P ⊎ Q)
choice_iff true b f g = (λ h. inl (f.0 refl), λ h. refl)
choice_iff false b f g =
    (λ h. inr (g.0 h), λ h. elim h [ inl x ↦ absurd (apart (f.1 x)) | inr y ↦ g.1 y ])
  where
    apart : false ≡ true → ⊥
    apart e = cc

or_iff :
    {P Q : Type 0} (a b : Bool) → ((a ≡ true) ↔ P) → ((b ≡ true) ↔ Q) → ((a || b) ≡ true) ↔ (P ⊎ Q)
or_iff true b f g = choice_iff true b f g
or_iff false b f g = choice_iff false b f g

unless_iff :
    {P : Type 0} (asked b : Bool)
    → ((b ≡ true) ↔ P)
    → ((if asked then b else true) ≡ true) ↔ ((asked ≡ false) ⊎ P)
unless_iff false b f = (λ h. inl refl, λ h. refl)
unless_iff true b f = (λ h. inr (f.0 h), λ h. elim h [ inl e ↦ absurd (apart e) | inr x ↦ f.1 x ])
  where
    apart : true ≡ false → ⊥
    apart e = cc

number_zero : (o : Option ℕ) → (is_number 0 o ≡ true) ↔ ((o ≡ none) ⊎ (o ≡ some 0))
number_zero none = (λ h. inl refl, λ h. refl)
number_zero (some n) =
    (λ h. inr (ap some (ground (arith, h))), λ h. elim h [ inl e ↦ cc | inr e ↦ zero_of n e ])
  where
    zero_of : (n : ℕ) → ◌≡◌ {A = Option ℕ} (some n) (some 0) → (n == 0) ≡ true
    zero_of n e = let same : n ≡ 0 = cc in ground (arith, same)

number_one : (o : Option ℕ) → (is_number 1 o ≡ true) ↔ (o ≡ some 1)
number_one none = (λ h. cc, λ e. cc)
number_one (some n) = (λ h. ap some (ground (arith, h)), λ e. one_of n e)
  where
    one_of : (n : ℕ) → ◌≡◌ {A = Option ℕ} (some n) (some 1) → (n == 1) ≡ true
    one_of n e = let same : n ≡ 1 = cc in ground (arith, same)

is_text_iff : (s : Text) (o : Option Text) → (is_text s o ≡ true) ↔ (o ≡ some s)
is_text_iff s none = (λ h. cc, λ e. cc)
is_text_iff s (some t) =
    (λ h. ap some ((text_eq_iff t s).0 h), λ e. let same : t ≡ s = cc in (text_eq_iff t s).1 same)

any_iff :
    {A : Type 0} (test : A → Bool) (P : A → Type 0) (xs : List A)
    → ((x : A) → (test x ≡ true) ↔ P x)
    → (any test xs ≡ true) ↔ Somewhere P xs
any_iff test P [] each = (λ h. cc, λ h. absurd h)
any_iff test P (x ∷ xs) each = choice_iff (test x) (any test xs) (each x) (any_iff test P xs each)

in_segment_iff :
    (now : ℕ) (admin_ids : List ℕ) (segment : Segment) (u : Recipient)
    → (in_segment now admin_ids segment u ≡ true) ↔ InSegment now admin_ids segment u
unfolding in_segment
in_segment_iff now admin_ids everyone u = (λ h. tt, λ h. refl)
in_segment_iff now admin_ids pro u = number_one u.user_pro
in_segment_iff now admin_ids free u = number_zero u.user_pro
in_segment_iff now admin_ids test_admins u =
    any_iff (λ a. a == u.user_id) (λ a. a ≡ u.user_id) admin_ids (λ a. ==_iff a u.user_id)
in_segment_iff now admin_ids (lang code) u = is_text_iff code u.lang
in_segment_iff now admin_ids (region code) u = is_text_iff code u.region
in_segment_iff now admin_ids (active_days days) u =
    (λ h. since (max 1 days * 86_400) (seen_at u) h, λ h. until (max 1 days * 86_400) (seen_at u) h)
  where
    since : (n seen : ℕ) → leb (now - n) seen ≡ true → now ≤ seen + n
    since n seen h = ground (arith, h)

    until : (n seen : ℕ) → now ≤ seen + n → leb (now - n) seen ≡ true
    until n seen h = ground (arith, h)

is_recipient-Reaches :
    (now : ℕ) (admin_ids : List ℕ) (audience : Audience) (u : Recipient)
    → (is_recipient now admin_ids audience u ≡ true) ↔ Reaches now admin_ids audience u
unfolding is_recipient
is_recipient-Reaches now admin_ids audience u =
    let asked = if audience.exclude_blocked then is_number 0 u.blocked else true in
    let both =
      and_iff (in_segment now admin_ids audience.segment u && asked) (is_number 0 u.banned)
        (and_iff (in_segment now admin_ids audience.segment u) asked
          (in_segment_iff now admin_ids audience.segment u)
          (unless_iff audience.exclude_blocked (is_number 0 u.blocked) (number_zero u.blocked)))
        (number_zero u.banned) in
    (
      λ h. let ((segment, reachable), welcome) = both.0 h in (segment, reachable, welcome),
      λ h. let (segment, reachable, welcome) = h in both.1 ((segment, reachable), welcome),
    )

-- A job that is queued has a row for a user exactly if it had one before, or the user is in the
-- table and the audience of the job means them: in its segment, not banned, and not one that
-- blocked the bot unless those are asked for.
pub queue_broadcast_audience :
    (now : ℕ) (admin_ids : List ℕ) (b : ℕ) (q q' : Queue) (total : ℕ) (j : Job) (k : ℕ)
    → job_row b q.jobs ≡ some j
    → queue_broadcast now admin_ids b q ≡ some (total, q')
    → HasRow b k q'.targets ↔ (
        HasRow b k q.targets
        ⊎ Somewhere (λ u. Reaches now admin_ids j.target u × (u.user_id ≡ k)) q.users)
queue_broadcast_audience now admin_ids b q q' total j k found goes =
    elim (queue_broadcast_cases now admin_ids b q) [
      | inl fails ↦ absurd (clash (sym fails ∙ goes))
      | inr (x, found', does) ↦
          let same_job : x ≡ j = ground (arith, found', found) in
          let same_answer = sym does ∙ goes in
          let same_tables : queued_tables now admin_ids b x q ≡ q' = ground (arith, same_answer) in
          let rows : has_row b k q'.targets ≡ chosen j =
            subst (λ r. has_row b k r.targets ≡ chosen j) same_tables
              (subst (λ y. has_row b k (queued_tables now admin_ids b x q).targets ≡ chosen y)
                same_job (rows_of x)) in
          let seen = has_row_iff b k q'.targets in
          let picked : (chosen j ≡ true) ↔ (HasRow b k q.targets ⊎ Somewhere (means j) q.users) =
            or_iff (has_row b k q.targets) (any (takes j) q.users) (has_row_iff b k q.targets) (
              any_iff (takes j) (means j) q.users (λ u.
                and_iff (is_recipient now admin_ids j.target u) (u.user_id == k)
                  (is_recipient-Reaches now admin_ids j.target u) (==_iff u.user_id k))) in
          (λ h. picked.0 (sym rows ∙ seen.1 h), λ h. seen.0 (rows ∙ picked.1 h))
    ]
  where
    takes : Job → Recipient → Bool
    takes y u = is_recipient now admin_ids y.target u && (u.user_id == k)

    means : Job → Recipient → Type 0
    means y u = Reaches now admin_ids y.target u × (u.user_id ≡ k)

    chosen : Job → Bool
    chosen y = has_row b k q.targets || any (takes y) q.users

    rows_of : (y : Job) → has_row b k (queued_tables now admin_ids b y q).targets ≡ chosen y
    rows_of y =
        has_row-insert_targets b k (keep (is_recipient now admin_ids y.target) q.users) q.targets
        ∙ ap (λ z. has_row b k q.targets || z)
            (any-keep (is_recipient now admin_ids y.target) k q.users)

    clash : ◌≡◌ {A = Option (ℕ × Queue)} none (some (total, q')) → ⊥
    clash e = cc
