-- ===== src/Broadcast/Rows.antt =====
-- The statements on one row of the broadcast tables: what they leave, find and count.
use vakant.Prelude.{
  ℕ, ◌+◌, ◌≡◌, refl, Bool, true, false, ◌&&◌, some, List, [], ◌∷◌, inl, inr, arith, ◌==◌,
  if◌then◌else◌, Bool-cases, ◌⊎◌, map, ap, ◌∙◌,
}
use vakant.Broadcast.{Job, Target, is_target, job_row, update_job, target_row, update_target}

-- A weight of each row, summed.
abbrev pub weigh : (Target → ℕ) → List Target → ℕ
weigh g [] = 0
weigh g (t ∷ ts) = g t + weigh g ts

module _ (b k : ℕ) (test : Target → Bool) (f : Target → Target) where
  -- An update of a row moves the sum by what it does to the row.
  pub weigh-update :
      (g : Target → ℕ) (ts : List Target) (t : Target)
      → target_row b k ts ≡ some t
      → test t ≡ true
      → weigh g (update_target b k test f ts) + g t ≡ weigh g ts + g (f t)
  weigh-update g [] t h p = cc
  weigh-update g (x ∷ ts) t h p = elim (Bool-cases (is_target b k x)) [
    | inl here ↦ let e : x ≡ t = ground (arith, h, here) in rw here (rw e (rw p (omega arith)))
    | inr there ↦ rw there (omega (arith, weigh-update g ts t (ground (arith, h, there)) p))
  ]

  pub weigh-update_same :
      (g : Target → ℕ) (ts : List Target)
      → ((t : Target) → test t ≡ true → g (f t) ≡ g t)
      → weigh g (update_target b k test f ts) ≡ weigh g ts
  weigh-update_same g [] same = refl
  weigh-update_same g (x ∷ ts) same = elim (Bool-cases (is_target b k x)) [
    | inl here ↦ rw here (elim (Bool-cases (test x)) [
      | inl passes ↦ rw passes (rw (same x passes) refl)
      | inr fails ↦ rw fails refl
    ])
    | inr there ↦ rw there (omega (arith, weigh-update_same g ts same))
  ]

  pub target_row-update_self :
      (ts : List Target) (t : Target)
      → target_row b k ts ≡ some t
      → test t ≡ true
      → is_target b k (f t) ≡ true
      → target_row b k (update_target b k test f ts) ≡ some (f t)
  target_row-update_self [] t h p s = cc
  target_row-update_self (x ∷ ts) t h p s = elim (Bool-cases (is_target b k x)) [
    | inl here ↦ let e : x ≡ t = ground (arith, h, here) in rw here (rw e (rw p (rw s refl)))
    | inr there ↦ rw there (rw there (target_row-update_self ts t (ground (arith, h, there)) p s))
  ]

  -- A row that the test refuses, or of another key, is still found.
  pub target_row-update_kept :
      (c j : ℕ) (ts : List Target) (t : Target)
      → ((x : Target) → (f x).broadcast_id ≡ x.broadcast_id)
      → ((x : Target) → (f x).user_id ≡ x.user_id)
      → target_row c j ts ≡ some t
      → (((c == b) && (j == k)) ≡ true → test t ≡ false)
      → target_row c j (update_target b k test f ts) ≡ some t
  target_row-update_kept c j [] t keeps_b keeps_k h off = cc
  target_row-update_kept c j (x ∷ ts) t keeps_b keeps_k h off =
      elim (Bool-cases (is_target b k x)) [
        | inr there ↦ rw there (elim (Bool-cases (is_target c j x)) [
          | inl mine ↦ rw mine (ground (arith, h, mine))
          | inr other ↦
              rw other
                (target_row-update_kept c j ts t keeps_b keeps_k (ground (arith, h, other)) off)
        ])
        | inl here ↦ rw here (elim (Bool-cases (is_target c j x)) [
          | inl mine ↦
              let e : x ≡ t = ground (arith, h, mine) in
              let refuses : test t ≡ false = off (same_key x.broadcast_id x.user_id here mine) in
              rw e (rw refuses (ground (arith, h, mine, e)))
          | inr other ↦ rw (other_key x other) (ground (arith, h, other))
        ])
      ]
    where
      same_key :
          (y z : ℕ)
          → ((y == b) && (z == k)) ≡ true
          → ((y == c) && (z == j)) ≡ true
          → ((c == b) && (j == k)) ≡ true
      same_key y z p q = ground (arith, p, q)

      other_key :
          (x : Target) → is_target c j x ≡ false → is_target c j (if test x then f x else x) ≡ false
      other_key x o = elim (Bool-cases (test x)) [
        | inl passes ↦ rw passes (rw (keeps_b x) (rw (keeps_k x) o))
        | inr fails ↦ rw fails o
      ]

pub weigh-map :
    (g : Target → ℕ) (f : Target → Target) (ts : List Target)
    → ((t : Target) → g (f t) ≡ g t)
    → weigh g (map f ts) ≡ weigh g ts
weigh-map g f [] same = refl
weigh-map g f (t ∷ ts) same = omega (arith, same t, weigh-map g f ts same)

pub target_row-map :
    (b k : ℕ) (f : Target → Target) (ts : List Target) (t : Target)
    → ((x : Target) → (f x).broadcast_id ≡ x.broadcast_id)
    → ((x : Target) → (f x).user_id ≡ x.user_id)
    → target_row b k ts ≡ some t
    → target_row b k (map f ts) ≡ some (f t)
target_row-map b k f [] t keeps_b keeps_k h = cc
target_row-map b k f (x ∷ ts) t keeps_b keeps_k h =
    let stays : is_target b k (f x) ≡ is_target b k x = rw (keeps_b x) (rw (keeps_k x) refl) in
    elim (Bool-cases (is_target b k x)) [
      | inl here ↦
          let e : x ≡ t = ground (arith, h, here) in
          rw (stays ∙ here) (ap (λ (y : Target). some (f y)) e)
      | inr there ↦
          rw (stays ∙ there) (target_row-map b k f ts t keeps_b keeps_k (ground (arith, h, there)))
    ]

pub target_row-key :
    (b k : ℕ) (ts : List Target) (t : Target) → target_row b k ts ≡ some t → is_target b k t ≡ true
target_row-key b k [] t h = cc
target_row-key b k (x ∷ ts) t h = ground (arith, h, target_row-key b k ts t)

-- What a row of a job after an update was before it.
pub job_row-update :
    (c b : ℕ) (test : Job → Bool) (f : Job → Job) (js : List Job) (j' : Job)
    → ((j : Job) → (f j).id ≡ j.id)
    → job_row c (update_job b test f js) ≡ some j'
    → (j : Job) × (job_row c js ≡ some j) × ((j' ≡ j) ⊎ ((c ≡ b) × (j' ≡ f j)))
job_row-update c b test f [] j' keeps h = cc
job_row-update c b test f (x ∷ js) j' keeps h = elim (Bool-cases (x.id == b)) [
  | inl here ↦ elim (Bool-cases (test x)) [
    | inl passes ↦ elim (Bool-cases (x.id == c)) [
      | inl mine ↦ (
        x,
        ground (arith, mine),
        inr (ground (arith, here, mine), ground (arith, h, here, passes, mine, keeps x)),
      )
      | inr other ↦
          let found : job_row c js ≡ some j' = ground (arith, h, here, passes, other, keeps x) in
          (j', rw other found, inl refl)
    ]
    | inr fails ↦ (j', ground (arith, h, here, fails), inl refl)
  ]
  | inr there ↦ elim (Bool-cases (x.id == c)) [
    | inl mine ↦ (j', ground (arith, h, there, mine), inl refl)
    | inr other ↦
        let (j, found, how) =
          job_row-update c b test f js j' keeps (ground (arith, h, there, other)) in
        (j, rw other found, how)
  ]
]

-- The same for an update without a test.
pub job_row-update_all :
    (c b : ℕ) (test : Job → Bool) (f : Job → Job) (js : List Job) (j' : Job)
    → ((j : Job) → (f j).id ≡ j.id)
    → ((j : Job) → test j ≡ true)
    → job_row c (update_job b test f js) ≡ some j'
    → (j : Job) × (job_row c js ≡ some j) × (j' ≡ (if c == b then f j else j))
job_row-update_all c b test f [] j' keeps passes h = cc
job_row-update_all c b test f (x ∷ js) j' keeps passes h = elim (Bool-cases (x.id == b)) [
  | inl here ↦ elim (Bool-cases (x.id == c)) [
    | inl mine ↦ (x, ground (arith, mine), ground (arith, h, here, mine, passes x, keeps x))
    | inr other ↦
        let apart : (c == b) ≡ false = ground (arith, here, other) in
        let found : job_row c js ≡ some j' = ground (arith, h, here, passes x, other, keeps x) in
        (j', rw other found, rw apart refl)
  ]
  | inr there ↦ elim (Bool-cases (x.id == c)) [
    | inl mine ↦
        let apart : (c == b) ≡ false = ground (arith, there, mine) in
        (j', ground (arith, h, there, mine), rw apart refl)
    | inr other ↦
        let (j, found, how) =
          job_row-update_all c b test f js j' keeps passes (ground (arith, h, there, other)) in
        (j, rw other found, how)
  ]
]

-- A statement on the jobs that leaves their counters.
abbrev pub Uncounted : (List Job → List Job) → Type 0
Uncounted f =
    (js : List Job) (c : ℕ) (j' : Job)
    → job_row c (f js) ≡ some j'
    → (j : Job) × (job_row c js ≡ some j)
      × (j'.sent ≡ j.sent)
      × (j'.failed ≡ j.failed)
      × (j'.blocked ≡ j.blocked)

pub update_job-Uncounted :
    (b : ℕ) (test : Job → Bool) (f : Job → Job)
    → ((j : Job)
        → ((f j).id ≡ j.id)
          × ((f j).sent ≡ j.sent)
          × ((f j).failed ≡ j.failed)
          × ((f j).blocked ≡ j.blocked))
    → Uncounted (update_job b test f)
update_job-Uncounted b test f keeps js c j' h =
    let (j, found, how) = job_row-update c b test f js j' (λ j. (keeps j).0) h in
    elim how [
      | inl e ↦ (j, found, ap (λ x. x.sent) e, ap (λ x. x.failed) e, ap (λ x. x.blocked) e)
      | inr (_, e) ↦
          let (_, s, n, bl) = keeps j in
          (j, found, ap (λ x. x.sent) e ∙ s, ap (λ x. x.failed) e ∙ n, ap (λ x. x.blocked) e ∙ bl)
    ]

pub job_row-update_self :
    (b : ℕ) (test : Job → Bool) (f : Job → Job) (js : List Job) (j : Job)
    → ((x : Job) → (f x).id ≡ x.id)
    → job_row b js ≡ some j
    → test j ≡ true
    → job_row b (update_job b test f js) ≡ some (f j)
job_row-update_self b test f [] j keeps h p = cc
job_row-update_self b test f (x ∷ js) j keeps h p = elim (Bool-cases (x.id == b)) [
  | inr there ↦
      rw there (rw there (job_row-update_self b test f js j keeps (ground (arith, h, there)) p))
  | inl here ↦
      let e : x ≡ j = ground (arith, h, here) in
      let stays : ((f j).id == b) ≡ true = ground (arith, keeps j, ap (λ y. y.id) e, here) in
      rw here (rw e (rw p (rw stays refl)))
]
