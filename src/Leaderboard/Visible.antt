-- ===== src/Leaderboard/Visible.antt =====
-- What the list queries of a leaderboard (ListByCompetition of internal/repository/competition_attempt.go
-- and competition_registration.go) leave of the tables.
use mathlib.Core.Path.{subst}
use routewerk.Prelude.{
  ◌≤◌, ◌≡◌, refl, sym, ap, ◌∙◌, String, str_eq, eq_iff, Bool, true, false, List, [], ◌∷◌, ◌++◌, map,
  none, some, inl, inr, arith, All, All-append, All-imp, keep, length, length-append, Bool-cases,
}
use routewerk.Scoring.Sort.{slice_stable-All}
use routewerk.Attempts.Types.{Attempt as Row}
use routewerk.Leaderboard.Types.{Registration, is_active}
use routewerk.Leaderboard.Queries.{is_in, is_joined, list_registrations, list_attempts}
use routewerk.Leaderboard.Grouping.{own_attempts, last_with}

-- The primary key: no two registrations have the same id.
abbrev pub IsKeyed : List Registration → Type 0
IsKeyed [] = Unit {0}
IsKeyed (r ∷ regs) = All (λ (x : Registration). str_eq r.id x.id ≡ false) regs × IsKeyed regs

length-copies : {A : Type 0} (a : Row) (xs : List A) → length (map (λ x. a) xs) ≡ length xs
length-copies a [] = refl
length-copies a (x ∷ xs) = omega (arith, length-copies a xs)

All-copies : {A : Type 0} (P : Row → Type 0) (a : Row) (xs : List A) → P a → All P (map (λ x. a) xs)
All-copies P a [] h = tt
All-copies P a (x ∷ xs) h = (h, All-copies P a xs h)

own_attempts-append :
    (id : String) (xs ys : List Row)
    → own_attempts id (xs ++ ys) ≡ own_attempts id xs ++ own_attempts id ys
unfolding keep
own_attempts-append id [] ys = refl
own_attempts-append id (x ∷ xs) ys = ground (arith, own_attempts-append id xs ys)

own_attempts-copies :
    {A : Type 0} (id : String) (a : Row) (xs : List A)
    → str_eq a.registration_id id ≡ false
    → own_attempts id (map (λ x. a) xs) ≡ []
unfolding keep
own_attempts-copies id a [] e = refl
own_attempts-copies id a (x ∷ xs) e = ground (arith, e, own_attempts-copies id a xs e)

last_with-other :
    (x : Registration) (regs : List Registration)
    → All (λ (y : Registration). str_eq x.id y.id ≡ false) regs
    → last_with x.id regs ≡ none
unfolding last_with
last_with-other x [] h = refl
last_with-other x (y ∷ regs) h =
    ground (arith, last_with-other x regs h.1, h.0, eq_iff x.id y.id, eq_iff y.id x.id)

-- Each registration is the one that its id finds.
IsKeyed-last_with :
    (regs : List Registration)
    → IsKeyed regs
    → All (λ (r : Registration). last_with r.id regs ≡ some r) regs
unfolding last_with
IsKeyed-last_with [] u = tt
IsKeyed-last_with (x ∷ regs) u = (
  ground (arith, last_with-other x regs u.0, eq_iff x.id x.id),
  All-imp _ _ (λ r e. ground (arith, e)) regs (IsKeyed-last_with regs u.1),
)

All-kept :
    {A : Type 0} (P : A → Type 0) (p : A → Bool) (xs : List A)
    → All P xs
    → All (λ x. (p x ≡ true) × P x) (keep p xs)
unfolding keep
All-kept P p [] h = tt
All-kept P p (x ∷ xs) h = elim (Bool-cases (p x)) [
  | inl e ↦ rw (e, keep) ((e, h.0), All-kept P p xs h.1)
  | inr e ↦ rw (e, keep) (All-kept P p xs h.1)
]

module _ (c k : String) where
  joined-other :
      (a : Row) (x : Registration) (regs : List Registration)
      → str_eq x.id a.registration_id ≡ true
      → All (λ (y : Registration). str_eq x.id y.id ≡ false) regs
      → (keep (is_joined c k a) regs ≡ []) × (last_with a.registration_id regs ≡ none)
  unfolding keep last_with
  joined-other a x [] e h = (refl, refl)
  joined-other a x (y ∷ regs) e h = ground (
    arith,
    joined-other a x regs e h.1,
    h.0,
    eq_iff x.id a.registration_id,
    eq_iff y.id a.registration_id,
    eq_iff x.id y.id,
  )

  joined-own :
      (a : Row) (r : Registration) (regs : List Registration)
      → IsKeyed regs
      → last_with a.registration_id regs ≡ some r
      → is_in c k r ≡ true
      → is_active r ≡ true
      → keep (is_joined c k a) regs ≡ r ∷ []
  unfolding keep last_with
  joined-own a r [] u e i l = cc
  joined-own a r (x ∷ regs) u e i l = elim (Bool-cases (str_eq x.id a.registration_id)) [
    | inl q ↦
        let o = joined-other a x regs q u.0 in
        let same : x ≡ r = ground (arith, e, q, o.1) in
        let i' : is_in c k x ≡ true = subst (λ y. is_in c k y ≡ true) (sym same) i in
        let l' : is_active x ≡ true = subst (λ y. is_active y ≡ true) (sym same) l in
        let kept : keep (is_joined c k a) (x ∷ regs) ≡ x ∷ [] = ground (arith, q, i', l', o.0) in
        kept ∙ ap (λ y. y ∷ []) same
    | inr q ↦ ground (arith, e, q, joined-own a r regs u.1)
  ]

  joined-le :
      (a : Row) (regs : List Registration) → IsKeyed regs → length (keep (is_joined c k a) regs) ≤ 1
  unfolding keep
  joined-le a [] u = omega arith
  joined-le a (x ∷ regs) u = elim (Bool-cases (str_eq x.id a.registration_id)) [
    | inl q ↦ ground (arith, q, (joined-other a x regs q u.0).0)
    | inr q ↦ ground (arith, q, joined-le a regs u.1)
  ]

  -- Of an active registration in the competition and category, the query lists every attempt, once
  -- and in the order of the table.
  pub own_attempts-list_attempts :
      (regs : List Registration) (r : Registration) (id : String) (rows : List Row)
      → IsKeyed regs
      → last_with id regs ≡ some r
      → is_in c k r ≡ true
      → is_active r ≡ true
      → own_attempts id (list_attempts c k regs rows) ≡ own_attempts id rows
  unfolding list_attempts keep
  own_attempts-list_attempts regs r id [] u e i l = refl
  own_attempts-list_attempts regs r id (a ∷ rows) u e i l =
      let later = own_attempts-list_attempts regs r id rows u e i l in
      let split =
        own_attempts-append id (map (λ x. a) (keep (is_joined c k a) regs))
          (list_attempts c k regs rows) in
      elim (Bool-cases (str_eq a.registration_id id)) [
        | inl q ↦
            let same : a.registration_id ≡ id = ground (arith, q, eq_iff a.registration_id id) in
            let once = joined-own a r regs u (ap (λ x. last_with x regs) same ∙ e) i l in
            ground (arith, split, once, q, later)
        | inr q ↦
            ground
              (arith, split, own_attempts-copies id a (keep (is_joined c k a) regs) q, q, later)
      ]

  -- The query makes no row and doubles none.
  pub length-list_attempts-le :
      (regs : List Registration) (rows : List Row)
      → IsKeyed regs
      → length (list_attempts c k regs rows) ≤ length rows
  unfolding list_attempts
  length-list_attempts-le regs [] u = omega arith
  length-list_attempts-le regs (a ∷ rows) u = omega (
    arith,
    length-append (map (λ x. a) (keep (is_joined c k a) regs)) (list_attempts c k regs rows),
    length-copies a (keep (is_joined c k a) regs),
    joined-le a regs u,
    length-list_attempts-le regs rows u,
  )

  pub All-list_attempts :
      (P : Row → Type 0) (regs : List Registration) (rows : List Row)
      → All P rows
      → All P (list_attempts c k regs rows)
  unfolding list_attempts
  All-list_attempts P regs [] h = tt
  All-list_attempts P regs (a ∷ rows) h =
      All-append P (map (λ x. a) (keep (is_joined c k a) regs)) (list_attempts c k regs rows)
        (All-copies P a (keep (is_joined c k a) regs) h.0) (All-list_attempts P regs rows h.1)

  -- What the list of registrations leaves: registrations in the competition and category, each found
  -- by its id.
  pub list_registrations-found :
      (regs : List Registration)
      → IsKeyed regs
      → All
          (λ (r : Registration). (is_in c k r ≡ true) × (last_with r.id regs ≡ some r))
          (list_registrations c k regs)
  list_registrations-found regs u =
      slice_stable-All _ _ (keep (is_in c k) regs)
        (All-kept _ (is_in c k) regs (IsKeyed-last_with regs u))
