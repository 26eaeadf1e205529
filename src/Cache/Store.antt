-- ===== src/Cache/Store.antt =====
-- The in-process cache with expiry (internal/cache/cache.go). Times are nanoseconds; each operation
-- takes the time at which it runs.
use routewerk.Prelude.{String, Bool, List, [], Option, none, some, ℕ, length, if◌then◌else◌}
use routewerk.Prelude.Int.{ℤ, ◌+ℤ◌, ltb_ℤ}
use routewerk.Prelude.Maps.{lookup, insert, delete}

pub record Entry (V : Type 0) : Type 0 where
  pub value : V
  pub expires_at : ℤ

module _ {V : Type 0} where
  abbrev pub is_expired : ℤ → Entry V → Bool
  is_expired now e = ltb_ℤ e.expires_at now

  -- Get: the value, and the entries after an expired one is evicted.
  unfoldable pub get : ℤ → String → List (String × Entry V) → Option V × List (String × Entry V)
  get now key entries = elim (lookup key entries) [
    | none ↦ (none, entries)
    | some e ↦ if is_expired now e then (none, delete key entries) else (some e.value, entries)
  ]

  abbrev pub entry_at : ℤ → ℤ → V → Entry V
  entry_at ttl now value = record { value = value; expires_at = now +ℤ ttl }

  unfoldable pub set : ℤ → ℤ → String → V → List (String × Entry V) → List (String × Entry V)
  set ttl now key value entries = insert key (entry_at ttl now value) entries

  unfoldable pub invalidate : String → List (String × Entry V) → List (String × Entry V)
  invalidate key entries = delete key entries

  unfoldable pub invalidate_all : List (String × Entry V) → List (String × Entry V)
  invalidate_all entries = []

  -- Len
  abbrev pub entry_count : List (String × Entry V) → ℕ
  entry_count entries = length entries
