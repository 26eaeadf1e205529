-- ===== src/RateLimit/Entries.antt =====
-- The map of windows of the rate limiter (internal/middleware/security.go).
use routewerk.Prelude.{
  ◌+◌, ◌≤◌, ◌<◌, ◌≡◌, inl, inr, String, str_eq, eq_iff, Bool, true, false, ◌||◌, List, [], ◌∷◌,
  some, arith, ltb, length, keep, All, Bool-cases,
}
use routewerk.Prelude.Maps.{lookup, insert, delete}
use routewerk.RateLimit.Limiter.{ClientWindow, oldest_from}

abbrev pub Entries : Type 0
Entries = List (String × ClientWindow)

abbrev pub AreNamed : Entries → Type 0
AreNamed entries = All (λ (e : String × ClientWindow). str_eq e.0 "" ≡ false) entries

pub length-keep-le :
    (p : String × ClientWindow → Bool) (entries : Entries)
    → length (keep p entries) ≤ length entries
unfolding keep
length-keep-le p [] = omega arith
length-keep-le p (e ∷ entries) = ground (arith, length-keep-le p entries)

pub length-insert-le :
    (key : String) (cw : ClientWindow) (entries : Entries)
    → length (insert key cw entries) ≤ length entries + 1
unfolding insert
length-insert-le key cw [] = omega arith
length-insert-le key cw (e ∷ entries) = ground (arith, length-insert-le key cw entries)

pub length-insert :
    (key : String) (cw old : ClientWindow) (entries : Entries)
    → lookup key entries ≡ some old
    → length (insert key cw entries) ≡ length entries
unfolding insert lookup
length-insert key cw old [] h = cc
length-insert key cw old (e ∷ entries) h = ground (arith, h, length-insert key cw old entries)

pub insert-AreNamed :
    (key : String) (cw : ClientWindow) (entries : Entries)
    → str_eq key "" ≡ false
    → AreNamed entries
    → AreNamed (insert key cw entries)
unfolding insert
insert-AreNamed key cw [] k n = (k, tt)
insert-AreNamed key cw (e ∷ entries) k n = elim (Bool-cases (str_eq e.0 key)) [
  | inl t ↦ rw (t, insert) (k, n.1)
  | inr t ↦ rw (t, insert) (n.0, insert-AreNamed key cw entries k n.1)
]

pub delete-AreNamed :
    (key : String) (entries : Entries) → AreNamed entries → AreNamed (delete key entries)
unfolding delete
delete-AreNamed key [] n = tt
delete-AreNamed key (e ∷ entries) n = elim (Bool-cases (str_eq e.0 key)) [
  | inl t ↦ rw (t, delete) (delete-AreNamed key entries n.1)
  | inr t ↦ rw (t, delete) (n.0, delete-AreNamed key entries n.1)
]

pub length-delete-le :
    (key : String) (entries : Entries) → length (delete key entries) ≤ length entries
unfolding delete
length-delete-le key [] = omega arith
length-delete-le key (e ∷ entries) = ground (arith, length-delete-le key entries)

-- Whether some entry has a key.
unfoldable pub has : String → Entries → Bool
has key [] = false
has key (e ∷ entries) = let later = has key entries in str_eq e.0 key || later

pub length-delete-lt :
    (key : String) (entries : Entries)
    → has key entries ≡ true
    → length (delete key entries) < length entries
unfolding delete has
length-delete-lt key [] h = cc
length-delete-lt key (e ∷ entries) h = elim (Bool-cases (str_eq e.0 key)) [
  | inl t ↦ ground (arith, t, length-delete-le key entries)
  | inr t ↦ ground (arith, t, length-delete-lt key entries (ground (arith, h, t)))
]

pub has_self : (e : String × ClientWindow) (rest : Entries) → has e.0 (e ∷ rest) ≡ true
unfolding has
has_self e rest = ground (arith, eq_iff e.0 e.0)

-- The oldest entry is the first or one of the others.
pub has-oldest_from :
    (best : String × ClientWindow) (rest : Entries)
    → has (oldest_from best rest).0 (best ∷ rest) ≡ true
unfolding oldest_from has
has-oldest_from best [] = has_self best []
has-oldest_from best (e ∷ rest) = elim (Bool-cases (ltb e.1.window_start best.1.window_start)) [
  | inl l ↦ ground (arith, l, has-oldest_from e rest)
  | inr l ↦ ground (arith, l, has-oldest_from best rest)
]

pub named_has :
    (key : String) (entries : Entries)
    → AreNamed entries
    → has key entries ≡ true
    → str_eq key "" ≡ false
unfolding has
named_has key [] n h = cc
named_has key (e ∷ entries) n h = elim (Bool-cases (str_eq e.0 key)) [
  | inl t ↦ ground (arith, t, n.0, eq_iff e.0 key)
  | inr t ↦ named_has key entries n.1 (ground (arith, h, t))
]
