-- ===== src/Cache/Freshness.antt =====
-- What the cache (internal/cache/cache.go) answers after any sequence of operations.
use routewerk.Prelude.{
  ◌≡◌, refl, sym, ◌∙◌, ◌⊎◌, inl, inr, String, str_eq, eq_iff, true, List, [], ◌∷◌, Option, none,
  some, arith, Bool-cases, Option-cases, if◌then◌else◌,
}
use mathlib.Core.Path.{subst}
use routewerk.Prelude.Int.{ℤ, ◌≤ℤ◌}
use routewerk.Prelude.Maps.{lookup, lookup-insert, lookup-delete}
use routewerk.Cache.Store.{Entry, is_expired, get, entry_at, set, invalidate, invalidate_all}

-- A call of the cache.
pub data Call (V : Type 0) : Type 0 where
  got : ℤ → String → Call V
  stored : ℤ → String → V → Call V
  dropped : String → Call V
  cleared : Call V

module _ {V : Type 0} where
  -- The value of an entry that has not expired.
  abbrev pub fresh : ℤ → Option (Entry V) → Option V
  fresh now none = none
  fresh now (some e) = if is_expired now e then none else some e.value

  -- No Get ran later than `now`.
  abbrev pub IsUpTo : ℤ → List (Call V) → Type 0
  IsUpTo now [] = Unit
  IsUpTo now (got at k ∷ calls) = (at ≤ℤ now) × IsUpTo now calls
  IsUpTo now (stored at k value ∷ calls) = IsUpTo now calls
  IsUpTo now (dropped k ∷ calls) = IsUpTo now calls
  IsUpTo now (cleared ∷ calls) = IsUpTo now calls

  -- The entry held is the one set last, or that one has expired and was evicted.
  abbrev Agrees : ℤ → Option (Entry V) → Option (Entry V) → Type 0
  Agrees now held last =
      (held ≡ last)
      ⊎ ((held ≡ none) × ((e : Entry V) × (last ≡ some e) × (is_expired now e ≡ true)))

  Agrees-get :
      (now at : ℤ) (k key : String) (entries : List (String × Entry V)) (last : Option (Entry V))
      → at ≤ℤ now
      → Agrees now (lookup key entries) last
      → Agrees now (lookup key (get at k entries).1) last
  unfolding get
  Agrees-get now at k key entries last l a = elim (Option-cases (lookup k entries)) [
    | inl n ↦ rw (n, get) a
    | inr (e, n) ↦ elim (Bool-cases (is_expired at e)) [
      | inr x ↦ rw (n, x, get) a
      | inl x ↦ elim (Bool-cases (str_eq k key)) [
        | inr d ↦ rw (n, x, get, lookup-delete k key entries, d) a
        | inl d ↦
            rw (n, x, get, lookup-delete k key entries, d)
              (elim a [
                | inl q ↦
                    let same : k ≡ key = ground (arith, d, eq_iff k key) in
                    let held : lookup key entries ≡ some e =
                      subst (λ z. lookup z entries ≡ some e) same n in
                    inr (refl, (e, sym q ∙ held, ground (arith, x, l)))
                | inr y ↦ inr (refl, y.1)
              ])
      ]
    ]
  ]

  fresh_of :
      (now : ℤ) (key : String) (entries : List (String × Entry V)) (last : Option (Entry V))
      → lookup key entries ≡ last
      → (get now key entries).0 ≡ fresh now last
  unfolding get
  fresh_of now key entries none q = rw (q, get)
  fresh_of now key entries (some e) q = elim (Bool-cases (is_expired now e)) [
    | inl x ↦ rw (q, x, get)
    | inr x ↦ rw (q, x, get)
  ]

module _ {V : Type 0} (ttl : ℤ) where
  abbrev pub perform : Call V → List (String × Entry V) → List (String × Entry V)
  perform (got now key) entries = (get now key entries).1
  perform (stored now key value) entries = set ttl now key value entries
  perform (dropped key) entries = invalidate key entries
  perform cleared entries = invalidate_all entries

  -- The entries after the calls, the last one first.
  abbrev pub after : List (Call V) → List (String × Entry V)
  after [] = []
  after (c ∷ calls) = perform c (after calls)

  -- The entry that the last Set of a key made, unless it was invalidated since.
  abbrev pub last_set : String → List (Call V) → Option (Entry V)
  last_set key [] = none
  last_set key (got now k ∷ calls) = last_set key calls
  last_set key (stored now k value ∷ calls) =
      let earlier = last_set key calls in
      if str_eq k key then some (entry_at ttl now value) else earlier
  last_set key (dropped k ∷ calls) =
      let earlier = last_set key calls in if str_eq k key then none else earlier
  last_set key (cleared ∷ calls) = none

  Agrees-after :
      (now : ℤ) (key : String) (calls : List (Call V))
      → IsUpTo now calls
      → Agrees now (lookup key (after calls)) (last_set key calls)
  unfolding set invalidate invalidate_all lookup
  Agrees-after now key [] h = inl refl
  Agrees-after now key (got at k ∷ calls) h =
      Agrees-get now at k key (after calls) (last_set key calls) h.0
        (Agrees-after now key calls h.1)
  Agrees-after now key (stored at k value ∷ calls) h = elim (Bool-cases (str_eq k key)) [
    | inl e ↦ rw (lookup-insert k key (entry_at ttl at value) (after calls), e) (inl refl)
    | inr e ↦
        rw (lookup-insert k key (entry_at ttl at value) (after calls), e)
          (Agrees-after now key calls h)
  ]
  Agrees-after now key (dropped k ∷ calls) h = elim (Bool-cases (str_eq k key)) [
    | inl e ↦ rw (lookup-delete k key (after calls), e) (inl refl)
    | inr e ↦ rw (lookup-delete k key (after calls), e) (Agrees-after now key calls h)
  ]
  Agrees-after now key (cleared ∷ calls) h = inl refl

  -- Get answers what was last set under the key, if that was not invalidated since and has not
  -- expired, after any calls none of which is a Get at a later time.
  pub get-last_set :
      (now : ℤ) (key : String) (calls : List (Call V))
      → IsUpTo now calls
      → (get now key (after calls)).0 ≡ fresh now (last_set key calls)
  unfolding get
  get-last_set now key calls h = elim (Agrees-after now key calls h) [
    | inl q ↦ fresh_of now key (after calls) (last_set key calls) q
    | inr (n, (e, q, x)) ↦ rw (n, q, x, get)
  ]
