-- ===== src/Cache/Latest.antt =====
-- The dictionary of src/functions/cache.py against the map of everything that was set.
use vakant.Prelude.{
  ℕ, zero, suc, ◌+◌, ◌-◌, ◌*◌, ◌/◌, ◌≡◌, ◌≤◌, refl, Bool, true, false, not, none, some, List, [],
  ◌∷◌, ◌++◌, arith, ltb, leb, length, length-append, length-keep-le, find, find-test, keep, drop,
  All, Bool-cases, Option-cases, inl, inr, sym, subst,
}
use vakant.Prelude.Text.{Text, text_eq, text_eq_iff, text_eq_refl}
use vakant.Cache.{
  Entry, has_key, entry_of, delete, put_last, mem_get, mem_evict, mem_set, Call, gets, sets, calls,
  remember, remember_all,
}

module _ {ℓ κ} {A : Type ℓ} (P : A → Type κ) where
  All-keep : (p : A → Bool) (xs : List A) → All P xs → All P (keep p xs)
  All-keep p [] h = tt
  All-keep p (x ∷ xs) (hx, h) = elim (Bool-cases (p x)) [
    | inl stays ↦ rw (stays, keep) (hx, All-keep p xs h)
    | inr goes ↦ rw (goes, keep) (All-keep p xs h)
  ]

  All-drop : (n : ℕ) (xs : List A) → All P xs → All P (drop n xs)
  All-drop zero xs h = h
  All-drop (suc n) [] h = tt
  All-drop (suc n) (x ∷ xs) (hx, h) = All-drop n xs h

  All-append : (xs ys : List A) → All P xs → All P ys → All P (xs ++ ys)
  All-append [] ys h h' = h'
  All-append (x ∷ xs) ys (hx, h) h' = (hx, All-append xs ys h h')

  find-All : (p : A → Bool) (xs : List A) (x : A) → find p xs ≡ some x → All P xs → P x
  find-All p [] x e h = cc
  find-All p (y ∷ ys) x e (hy, h) = elim (Bool-cases (p y)) [
    | inl here ↦ subst P (ground (arith, e, here)) hy
    | inr there ↦ find-All p ys x (ground (arith, e, there)) h
  ]

length-drop : {A : Type 0} (n : ℕ) (xs : List A) → length (drop n xs) ≡ length xs - n
length-drop zero xs = omega arith
length-drop (suc n) [] = omega arith
length-drop (suc n) (x ∷ xs) = omega (arith, length-drop n xs)

text_eq_swap : (s t : Text) → text_eq s t ≡ false → text_eq t s ≡ false
text_eq_swap s t h = elim (Bool-cases (text_eq t s)) [
  | inr differs ↦ differs
  | inl same ↦ absurd (clash ((text_eq_iff t s).0 same))
]
  where
    clash : t ≡ s → ⊥
    clash e =
        let r : text_eq s t ≡ true = subst (λ u. text_eq s u ≡ true) (sym e) (text_eq_refl s) in
        ground (arith, r, h)

module _ {A : Type 0} where
  -- Each entry is the last one that was set under its key.
  abbrev IsLast : List (Entry A) → Entry A → Type 0
  IsLast known e = entry_of e.key known ≡ some e

  abbrev Latest : List (Entry A) → List (Entry A) → Type 0
  Latest known es = All (IsLast known) es

  delete-Latest :
      (n : Entry A) (known es : List (Entry A))
      → Latest known es
      → Latest (n ∷ known) (delete n.key es)
  delete-Latest n known [] h = tt
  delete-Latest n known (e ∷ es) (he, h) = elim (Bool-cases (has_key n.key e)) [
    | inl same ↦ rw (same, delete) (delete-Latest n known es h)
    | inr other ↦
        rw (other, delete) (rw (text_eq_swap n.key e.key other) he, delete-Latest n known es h)
  ]

  put_last-Latest :
      (n : Entry A) (known es : List (Entry A))
      → Latest known es
      → Latest (n ∷ known) (put_last n es)
  put_last-Latest n known es h =
      All-append (IsLast (n ∷ known)) (delete n.key es) (n ∷ []) (delete-Latest n known es h)
        (rw (text_eq_refl n.key) refl, tt)

  mem_set-Latest :
      (max_entries now ttl : ℕ) (k : Text) (v : A) (known es : List (Entry A))
      → Latest known es
      → Latest (remember (sets now k v ttl) known) (mem_set max_entries now k v ttl es)
  unfolding mem_set mem_evict
  mem_set-Latest max_entries now ttl k v known es h =
      let n : Entry A = record { key = k; value = v; expires_at = now + ttl } in
      let kept = put_last-Latest n known es h in
      elim (Bool-cases (ltb max_entries (length (put_last n es)))) [
        | inl over ↦
            rw (over, mem_set)
              (All-drop (IsLast (n ∷ known)) _ _
                (All-keep (IsLast (n ∷ known)) _ (put_last n es) kept))
        | inr within ↦ rw (within, mem_set) kept
      ]

  mem_get-Latest :
      (now : ℕ) (k : Text) (known es : List (Entry A))
      → Latest known es
      → Latest known (mem_get now k es).1
  unfolding mem_get
  mem_get-Latest now k known es h = elim (Option-cases (entry_of k es)) [
    | inl missing ↦ rw (missing, mem_get) h
    | inr (e, found) ↦
        rw (found, mem_get)
          (elim (Bool-cases (ltb e.expires_at now)) [
            | inl expired ↦ rw expired (All-keep (IsLast known) _ es h)
            | inr fresh ↦ rw fresh (
                All-append (IsLast known) (delete e.key es) (e ∷ [])
                  (All-keep (IsLast known) _ es h)
                  (find-All (IsLast known) (has_key k) es e found h, tt))
          ])
  ]

  -- A call keeps the bound: a found entry only moves, and a full dictionary is cut back.
  mem_set_bound :
      (max_entries now ttl : ℕ) (k : Text) (v : A) (es : List (Entry A))
      → length (mem_set max_entries now k v ttl es) ≤ max_entries
  unfolding mem_set mem_evict
  mem_set_bound max_entries now ttl k v es =
      let n : Entry A = record { key = k; value = v; expires_at = now + ttl } in
      elim (Bool-cases (ltb max_entries (length (put_last n es)))) [
        | inr within ↦ rw (within, mem_set) (ground (arith, within))
        | inl over ↦
            rw (over, mem_set) (cut (keep (λ e. not (leb e.expires_at now)) (put_last n es)))
      ]
    where
      cut :
          (fresh : List (Entry A))
          → length (drop (length fresh - max_entries * 9 / 10) fresh) ≤ max_entries
      cut fresh = omega (arith, length-drop (length fresh - max_entries * 9 / 10) fresh)

  length-delete :
      (k : Text) (es : List (Entry A)) (e : Entry A)
      → entry_of k es ≡ some e
      → length (delete k es) + 1 ≤ length es
  length-delete k [] e h = cc
  length-delete k (x ∷ es) e h = elim (Bool-cases (has_key k x)) [
    | inl here ↦ rw (here, delete) (omega (arith, length-keep-le (λ y. not (has_key k y)) es))
    | inr there ↦
        rw (there, delete) (omega (arith, length-delete k es e (ground (arith, h, there))))
  ]

  mem_get_bound :
      (max_entries now : ℕ) (k : Text) (es : List (Entry A))
      → length es ≤ max_entries
      → length (mem_get now k es).1 ≤ max_entries
  unfolding mem_get
  mem_get_bound max_entries now k es h = elim (Option-cases (entry_of k es)) [
    | inl missing ↦ rw (missing, mem_get) h
    | inr (e, found) ↦
        rw (found, mem_get)
          (elim (Bool-cases (ltb e.expires_at now)) [
            | inl expired ↦ rw expired (omega (arith, h, length-delete k es e found))
            | inr fresh ↦
                let same_key : text_eq k e.key ≡ true = find-test (has_key k) es e found in
                let shorter : length (delete e.key es) + 1 ≤ length es =
                  length-delete e.key es e (
                    subst (λ j. entry_of j es ≡ some e) ((text_eq_iff k e.key).0 same_key) found) in
                rw fresh (omega (arith, h, shorter, length-append (delete e.key es) (e ∷ [])))
          ])
  ]

  calls-Latest :
      (max_entries : ℕ) (cs : List (Call A)) (known es : List (Entry A))
      → Latest known es
      → length es ≤ max_entries
      → Latest (remember_all cs known) (calls max_entries cs es)
        × (length (calls max_entries cs es) ≤ max_entries)
  unfolding calls remember_all
  calls-Latest max_entries [] known es h bound = (h, bound)
  calls-Latest max_entries (gets now k ∷ cs) known es h bound =
      calls-Latest max_entries cs known _ (mem_get-Latest now k known es h)
        (mem_get_bound max_entries now k es bound)
  calls-Latest max_entries (sets now k v ttl ∷ cs) known es h bound =
      calls-Latest max_entries cs _ _ (mem_set-Latest max_entries now ttl k v known es h)
        (mem_set_bound max_entries now ttl k v es)

  got :
      (now : ℕ) (k : Text) (v : A) (known es : List (Entry A))
      → Latest known es
      → (mem_get now k es).0 ≡ some v
      → (e : Entry A) × (entry_of k known ≡ some e) × (e.value ≡ v) × (now ≤ e.expires_at)
  unfolding mem_get
  got now k v known es h g = elim (Option-cases (entry_of k es)) [
    | inl missing ↦ absurd (nothing (rw (missing, mem_get) at g))
    | inr (e, found) ↦
        let same_key : k ≡ e.key = (text_eq_iff k e.key).0 (find-test (has_key k) es e found) in
        let last : entry_of k known ≡ some e =
          subst (λ j. entry_of j known ≡ some e) (sym same_key)
            (find-All (IsLast known) (has_key k) es e found h) in
        let g' = rw (found, mem_get) at g in
        elim (Bool-cases (ltb e.expires_at now)) [
          | inl expired ↦ absurd (nothing (rw expired at g'))
          | inr fresh ↦ (e, last, ground (arith, rw fresh at g'), ground (arith, fresh))
        ]
  ]
    where
      nothing : none ≡ some v → ⊥
      nothing e = cc

  -- After any calls on an empty dictionary, a value that it gives for a key is the one that was last
  -- set under that key and has not expired, as the map of all that was set has it; and the dictionary
  -- is within its bound.
  pub mem_get-calls :
      (max_entries : ℕ) (cs : List (Call A)) (now : ℕ) (k : Text) (v : A)
      → (mem_get now k (calls max_entries cs [])).0 ≡ some v
      → ((e : Entry A) × (entry_of k (remember_all cs []) ≡ some e)
          × (e.value ≡ v)
          × (now ≤ e.expires_at))
        × (length (calls max_entries cs []) ≤ max_entries)
  mem_get-calls max_entries cs now k v g =
      let (latest, bound) = calls-Latest max_entries cs [] [] tt (omega arith) in
      (got now k v (remember_all cs []) (calls max_entries cs []) latest g, bound)
