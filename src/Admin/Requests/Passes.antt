-- ===== src/Admin/Requests/Passes.antt =====
-- The checks before a mutation of webapp/routers/admin_users.py: what a request that passed them
-- has, and what a request that did not leaves as it was.
use vakant.Prelude.{◌≡◌, refl, Bool, true, false, Option, none, some, Bool-cases, inl, inr}
use vakant.Prelude.Text.{Text}
use vakant.Admin.{Panel}
use vakant.Admin.Roles.{Role, outranks_or_equals}
use vakant.Admin.Requests.{Refusal, Reply, answered, declined, guarded, when, with_note, with_key}

module _ {A : Type 0} where
  not_answered :
      {e : Refusal} {a : A} {p q : Panel}
      → ◌≡◌ {A = Reply A × Panel} (declined e, p) (answered a, q)
      → ⊥
  not_answered h = cc

  -- What a request left satisfies the predicate.
  unfoldable pub Leaves {ℓ} : (Panel → Type ℓ) → Reply A × Panel → Type ℓ
  Leaves P out = P out.1

  module _ {ℓ} (P : Panel → Type ℓ) (p : Panel) (before : P p) where
    pub when-Leaves :
        (b : Bool) (e : Refusal) (rest : Reply A × Panel)
        → Leaves P rest
        → Leaves P (when b e p rest)
    unfolding when Leaves
    when-Leaves true e rest after = after
    when-Leaves false e rest after = before

    pub with_note-Leaves :
        (o : Option (Option Text)) (rest : Option Text → Reply A × Panel)
        → ((memo : Option Text) → Leaves P (rest memo))
        → Leaves P (with_note o p rest)
    unfolding with_note Leaves
    with_note-Leaves none rest after = before
    with_note-Leaves (some memo) rest after = after memo

    pub with_key-Leaves :
        (o : Option (Option Text)) (rest : Option Text → Reply A × Panel)
        → ((key : Option Text) → Leaves P (rest key))
        → Leaves P (with_key o p rest)
    unfolding with_key Leaves
    with_key-Leaves none rest after = before
    with_key-Leaves (some key) rest after = after key

    pub guarded-Leaves :
        (o : Option Role) (actor_role : Role) (rest : Reply A × Panel)
        → Leaves P rest
        → Leaves P (guarded o actor_role p rest)
    unfolding guarded Leaves
    guarded-Leaves none actor_role rest after = after
    guarded-Leaves (some role) actor_role rest after =
        elim (Bool-cases (outranks_or_equals (some role) actor_role)) [
          | inl above ↦ rw above before
          | inr below ↦ rw below after
        ]

  module _ (p : Panel) (a : A) (q : Panel) where
    pub when-answered :
        (b : Bool) (e : Refusal) (rest : Reply A × Panel)
        → when b e p rest ≡ (answered a, q)
        → (b ≡ true) × (rest ≡ (answered a, q))
    unfolding when
    when-answered true e rest h = (refl, h)
    when-answered false e rest h = absurd (not_answered h)

    pub with_note-answered :
        (o : Option (Option Text)) (rest : Option Text → Reply A × Panel)
        → with_note o p rest ≡ (answered a, q)
        → (memo : Option Text) × (o ≡ some memo) × (rest memo ≡ (answered a, q))
    unfolding with_note
    with_note-answered none rest h = absurd (not_answered h)
    with_note-answered (some memo) rest h = (memo, refl, h)

    pub with_key-answered :
        (o : Option (Option Text)) (rest : Option Text → Reply A × Panel)
        → with_key o p rest ≡ (answered a, q)
        → (key : Option Text) × (o ≡ some key) × (rest key ≡ (answered a, q))
    unfolding with_key
    with_key-answered none rest h = absurd (not_answered h)
    with_key-answered (some key) rest h = (key, refl, h)

    pub guarded-answered :
        (o : Option Role) (actor_role : Role) (rest : Reply A × Panel)
        → guarded o actor_role p rest ≡ (answered a, q)
        → (outranks_or_equals o actor_role ≡ false) × (rest ≡ (answered a, q))
    unfolding guarded
    guarded-answered none actor_role rest h = (refl, h)
    guarded-answered (some role) actor_role rest h =
        elim (Bool-cases (outranks_or_equals (some role) actor_role)) [
          | inl above ↦ absurd (not_answered (rw above at h))
          | inr below ↦ (below, rw below at h)
        ]

  module _ (p : Panel) where
    pub when-pass :
        (b : Bool) (e : Refusal) (rest : Reply A × Panel) → b ≡ true → when b e p rest ≡ rest
    unfolding when
    when-pass true e rest h = refl
    when-pass false e rest h = cc

    pub with_note-pass :
        (o : Option (Option Text)) (memo : Option Text) (rest : Option Text → Reply A × Panel)
        → o ≡ some memo
        → with_note o p rest ≡ rest memo
    unfolding with_note
    with_note-pass none memo rest h = cc
    with_note-pass (some found) memo rest h = let same : found ≡ memo = cc in rw same refl

    pub with_key-pass :
        (o : Option (Option Text)) (key : Option Text) (rest : Option Text → Reply A × Panel)
        → o ≡ some key
        → with_key o p rest ≡ rest key
    unfolding with_key
    with_key-pass none key rest h = cc
    with_key-pass (some found) key rest h = let same : found ≡ key = cc in rw same refl

    pub guarded-pass :
        (o : Option Role) (actor_role : Role) (rest : Reply A × Panel)
        → outranks_or_equals o actor_role ≡ false
        → guarded o actor_role p rest ≡ rest
    unfolding guarded
    guarded-pass none actor_role rest h = refl
    guarded-pass (some role) actor_role rest h = rw h refl

    -- A target that ranks with the actor or above stops the request.
    pub guarded-stops :
        (o : Option Role) (actor_role : Role) (rest : Reply A × Panel)
        → outranks_or_equals o actor_role ≡ true
        → Leaves (λ q. q ≡ p) (guarded o actor_role p rest)
    unfolding guarded Leaves
    guarded-stops none actor_role rest h = cc
    guarded-stops (some role) actor_role rest h = rw h refl
