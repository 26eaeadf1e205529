-- ===== src/Sse/Distinct.antt =====
-- Lists of pairs of a topic and a channel (internal/sse/hub.go) in which no channel stands twice.
use routewerk.Prelude.{
  ℕ, ◌≡◌, inl, inr, String, Bool, true, false, not, List, [], ◌∷◌, ◌++◌, arith, ◌==◌, keep, All,
  All-append, All-imp, All-keep, Bool-cases,
}
use routewerk.Sse.Hub.{is_entry, is_registered}

-- No channel is registered twice.
abbrev pub IsDistinct : List (String × ℕ) → Type 0
IsDistinct [] = Unit {0}
IsDistinct (e ∷ rest) = All (λ (x : String × ℕ). (e.1 == x.1) ≡ false) rest × IsDistinct rest

pub IsDistinct-append :
    (entries : List (String × ℕ)) (e : String × ℕ)
    → IsDistinct entries
    → All (λ (x : String × ℕ). (e.1 == x.1) ≡ false) entries
    → IsDistinct (entries ++ e ∷ [])
IsDistinct-append [] e d a = (tt, tt)
IsDistinct-append (x ∷ entries) e d a = (
  All-append _ entries (e ∷ []) d.0 (ground (arith, a.0), tt),
  IsDistinct-append entries e d.1 a.1,
)

pub keep-IsDistinct :
    (p : String × ℕ → Bool) (entries : List (String × ℕ))
    → IsDistinct entries
    → IsDistinct (keep p entries)
unfolding keep
keep-IsDistinct p [] d = tt
keep-IsDistinct p (x ∷ entries) d = elim (Bool-cases (p x)) [
  | inl e ↦ rw (e, keep) (All-keep _ p entries d.0, keep-IsDistinct p entries d.1)
  | inr e ↦ rw (e, keep) (keep-IsDistinct p entries d.1)
]

-- Removing the one entry of a channel leaves entries of other channels.
pub registered-apart :
    (a ch : ℕ) (topic : String) (entries : List (String × ℕ))
    → All (λ (x : String × ℕ). (a == x.1) ≡ false) entries
    → is_registered topic ch entries ≡ true
    → (a == ch) ≡ false
unfolding is_registered
registered-apart a ch topic [] d r = cc
registered-apart a ch topic (e ∷ rest) d r = elim (Bool-cases (is_entry topic ch e)) [
  | inl t ↦ ground (arith, t, d.0)
  | inr t ↦ registered-apart a ch topic rest d.1 (ground (arith, r, t))
]

pub removed-apart :
    (ch : ℕ) (topic : String) (entries : List (String × ℕ))
    → IsDistinct entries
    → is_registered topic ch entries ≡ true
    → All (λ (x : String × ℕ). (ch == x.1) ≡ false) (keep (λ e. not (is_entry topic ch e)) entries)
unfolding is_registered keep
removed-apart ch topic [] d r = tt
removed-apart ch topic (e ∷ rest) d r = elim (Bool-cases (is_entry topic ch e)) [
  | inl t ↦ rw (t, keep) (All-keep _ _ rest (All-imp _ _ (λ x a. ground (arith, a, t)) rest d.0))
  | inr t ↦
      let r' : is_registered topic ch rest ≡ true = ground (arith, r, t) in
      rw (t, keep)
        (
          ground (arith, registered-apart e.1 ch topic rest d.0 r'),
          removed-apart ch topic rest d.1 r',
        )
]
