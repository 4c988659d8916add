-- ===== src/Cache.antt =====
-- The search cache, src/functions/cache.py: the bounded dictionary that stands in for Redis, and
-- cache_get and cache_set with what Redis answers as an argument.
--
-- The dictionary keeps its entries from the least to the most recently used. Times are whole
-- seconds of the monotonic clock.
pub mod Latest
mod Tests
use vakant.Prelude.{
  ℕ, ◌+◌, ◌-◌, ◌*◌, ◌/◌, Bool, true, false, not, Option, none, some, List, [], ◌∷◌, ◌++◌, ltb, leb,
  length, find, keep, drop, if◌then◌else◌,
}
use vakant.Prelude.Text.{Text, text_eq}

-- An entry of `_mem_cache`.
pub record Entry (A : Type 0) : Type 0 where
  pub key : Text
  pub value : A
  pub expires_at : ℕ

module _ {A : Type 0} where
  abbrev pub has_key : Text → Entry A → Bool
  has_key k e = text_eq k e.key

  -- `_mem_cache.get(key)`
  abbrev pub entry_of : Text → List (Entry A) → Option (Entry A)
  entry_of k es = find (has_key k) es

  -- `del _mem_cache[key]`
  abbrev pub delete : Text → List (Entry A) → List (Entry A)
  delete k es = keep (λ e. not (has_key k e)) es

  -- An entry that stands last, alone under its key.
  abbrev pub put_last : Entry A → List (Entry A) → List (Entry A)
  put_last e es = delete e.key es ++ (e ∷ [])

  -- `_mem_get`, on the entry that was found: an expired one is deleted, another moves to the end
  abbrev pub found_entry : ℕ → Text → List (Entry A) → Option (Entry A) → Option A × List (Entry A)
  found_entry now k es none = (none, es)
  found_entry now k es (some e) =
      if ltb e.expires_at now then (none, delete k es) else (some e.value, put_last e es)

  pub mem_get : ℕ → Text → List (Entry A) → Option A × List (Entry A)
  mem_get now k es = found_entry now k es (entry_of k es)

  -- `_mem_evict`: the expired entries go, then the oldest, down to nine tenths of the bound
  pub mem_evict : ℕ → ℕ → List (Entry A) → List (Entry A)
  mem_evict max_entries now es =
      let fresh = keep (λ e. not (leb e.expires_at now)) es in
      drop (length fresh - max_entries * 9 / 10) fresh

  -- `_mem_set`
  pub mem_set : ℕ → ℕ → Text → A → ℕ → List (Entry A) → List (Entry A)
  mem_set max_entries now k v ttl es =
      let es' = put_last (record { key = k; value = v; expires_at = now + ttl }) es in
      if ltb max_entries (length es') then mem_evict max_entries now es' else es'

-- What Redis answers to a get: nothing, because it is down or the command fails, no value, a value, or
-- a text that is no JSON.
pub data Answer (A : Type 0) : Type 0 where
  unreachable no_value bad_json : Answer A
  value_of : A → Answer A

module _ {A : Type 0} where
  -- `cache_get`
  abbrev pub cache_get : Answer A → ℕ → Text → List (Entry A) → Option A × List (Entry A)
  cache_get unreachable now k es = mem_get now k es
  cache_get no_value now k es = (none, es)
  cache_get bad_json now k es = (none, es)
  cache_get (value_of v) now k es = (some v, es)

  -- `cache_set`: the dictionary is written only when Redis did not take the value
  abbrev pub cache_set : Bool → ℕ → ℕ → Text → A → ℕ → List (Entry A) → List (Entry A)
  cache_set true max_entries now k v ttl es = es
  cache_set false max_entries now k v ttl es = mem_set max_entries now k v ttl es

-- A call of the dictionary, at a time.
pub data Call (A : Type 0) : Type 0 where
  gets : ℕ → Text → Call A
  sets : ℕ → Text → A → ℕ → Call A

module _ {A : Type 0} where
  abbrev pub call : ℕ → Call A → List (Entry A) → List (Entry A)
  call max_entries (gets now k) es = (mem_get now k es).1
  call max_entries (sets now k v ttl) es = mem_set max_entries now k v ttl es

  unfoldable pub calls : ℕ → List (Call A) → List (Entry A) → List (Entry A)
  calls max_entries [] es = es
  calls max_entries (c ∷ cs) es = calls max_entries cs (call max_entries c es)

  -- The unbounded map that the dictionary stands for: each set is remembered, the last one first.
  abbrev pub remember : Call A → List (Entry A) → List (Entry A)
  remember (gets now k) es = es
  remember (sets now k v ttl) es = record { key = k; value = v; expires_at = now + ttl } ∷ es

  unfoldable pub remember_all : List (Call A) → List (Entry A) → List (Entry A)
  remember_all [] es = es
  remember_all (c ∷ cs) es = remember_all cs (remember c es)
