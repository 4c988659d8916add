-- ===== src/Cache/Tests.antt =====
-- Runs of the dictionary of src/functions/cache.py, and its theorem at a concrete input.
use vakant.Prelude.{ℕ, ◌≡◌, ◌≤◌, refl, none, some, List, [], ◌∷◌, length}
use vakant.Prelude.Text.{codes, text_eq}
use vakant.Cache.{
  Entry, entry_of, mem_get, mem_set, mem_evict, Call, gets, sets, calls, remember_all,
}
use vakant.Cache.Latest.{mem_get-calls}

-- The key `a` is set twice, and three keys are more than the bound of two.
abbrev searches : List (Call ℕ)
searches =
    sets 0 (codes "a") 1 100
    ∷ (sets 1 (codes "b") 2 100
        ∷ (gets 2 (codes "b") ∷ (sets 3 (codes "a") 5 100 ∷ (sets 4 (codes "c") 3 100 ∷ []))))

last_kept : (mem_get 5 (codes "c") (calls 2 searches [])).0 ≡ some 3
unfolding calls mem_get mem_set mem_evict text_eq
last_kept = refl

oldest_gone : (mem_get 5 (codes "b") (calls 2 searches [])).0 ≡ none
unfolding calls mem_get mem_set mem_evict text_eq
oldest_gone = refl

mem_get-calls_example :
    ((e : Entry ℕ) × (entry_of (codes "c") (remember_all searches []) ≡ some e)
      × (e.value ≡ 3)
      × (5 ≤ e.expires_at))
    × (length (calls 2 searches []) ≤ 2)
mem_get-calls_example = mem_get-calls 2 searches 5 (codes "c") 3 last_kept
