-- ===== src/Leaderboard/Staleness.antt =====
-- How old an answer of GetLeaderboard (internal/handler/comp_leaderboard.go) can be, with requests that
-- overlap.
use mathlib.Core.Path.{subst}
use routewerk.Prelude.{
  ℕ, ◌≡◌, refl, sym, ap, ◌∙◌, ◌⊎◌, inl, inr, String, str_eq, List, [], ◌∷◌, Option, none, some,
  ◌==◌, Option-cases, arith, Bool-cases,
}
use routewerk.Leaderboard.BoardCache.{LeaderboardCache, get, put}
use routewerk.Leaderboard.Endpoint.{
  ReadFaults, Clock, Answer, ok_board, bad_request, not_found, internal_error, Reads, Setting,
  Board, get_leaderboard,
}
use routewerk.Leaderboard.Answers.{IsComputed, Answers, get_leaderboard-cases}
use routewerk.Leaderboard.CacheLaws.{SameLength, get-empty, get-invalidate, get-put}
use routewerk.Leaderboard.Overlap.{
  Pending, Event, asks, stores, drops, State, pended, built_by, step, after, AreIds, HasBuilt,
  IsRecent,
}

module _ (s : Setting) where
  -- What a request holds it has computed.
  built_by-IsComputed :
      (faults : ReadFaults) (clock : Clock) (c k : String) (t : Reads s.fl.F)
      (cache : LeaderboardCache (Board s)) (hit : Option (Board s)) (p : Pending (Board s))
      → get clock.asked c k cache ≡ hit
      → (answer : Answer (Board s)) → (get_leaderboard s faults clock c k t cache).1 ≡ answer
      → built_by s c k hit answer ≡ some p
      → (c ≡ p.competition_id) × (k ≡ p.category_id) × IsComputed s c k t clock p.board
  built_by-IsComputed faults clock c k t cache (some hit) p g answer a e =
      absurd (ground (arith, e))
  built_by-IsComputed faults clock c k t cache none p g not_found a e = absurd (ground (arith, e))
  built_by-IsComputed faults clock c k t cache none p g internal_error a e =
      absurd (ground (arith, e))
  built_by-IsComputed faults clock c k t cache none p g (bad_request m) a e =
      absurd (ground (arith, e))
  built_by-IsComputed faults clock c k t cache none p g (ok_board b) a e =
      elim (subst (Answers s faults clock c k t cache _) a
        (get_leaderboard-cases s faults clock c k t cache)).1 [
          | inl h ↦ absurd (ground (arith, g, h.0))
          | inr h ↦
              let q : ◌≡◌ {A = Pending (Board s)}
                  (record { competition_id = c; category_id = k; board = b }) p =
                ground (arith, e) in
              (
                ap (λ (x : Pending (Board s)). x.competition_id) q,
                ap (λ (x : Pending (Board s)). x.category_id) q,
                subst (IsComputed s c k t clock) (ap (λ (x : Pending (Board s)). x.board) q) h.1,
              )
        ]

  moved :
      (c k c' k' : String) (b : Board s) (clock : Clock) (t : Reads s.fl.F)
      → c' ≡ c
      → k' ≡ k
      → IsComputed s c' k' t clock b
      → IsComputed s c k t clock b
  moved c k c' k' b clock t p q h =
      subst (λ x. IsComputed s c x t clock b) q (subst (λ x. IsComputed s x k' t clock b) p h)

  -- A board in the hands of a request was built by it.
  pending-HasBuilt :
      (c : String) (n : ℕ) (p : Pending (Board s)) (events : List (Event s))
      → AreIds s c events
      → (after s events).pending n ≡ some p
      → SameLength p.competition_id c × HasBuilt s n p.competition_id p.category_id p.board events
  unfolding after
  pending-HasBuilt c n p [] l e = absurd (ground (arith, e))
  pending-HasBuilt c n p (drops c' ∷ earlier) l e = pending-HasBuilt c n p earlier l.1 e
  pending-HasBuilt c n p (stores m at ∷ earlier) l e =
      elim (Option-cases ((after s earlier).pending m)) [
        | inl x ↦ pending-HasBuilt c n p earlier l (ground (arith, e, x))
        | inr (q, x) ↦ elim (Bool-cases (n == m)) [
          | inl y ↦ absurd (ground (arith, e, x, y))
          | inr y ↦ pending-HasBuilt c n p earlier l (ground (arith, e, x, y))
        ]
      ]
  pending-HasBuilt c n p (asks m faults clock c' k' t ∷ earlier) l e = elim (Bool-cases (n == m)) [
    | inr y ↦ let r = pending-HasBuilt c n p earlier l.1 (ground (arith, e, y)) in (r.0, inr r.1)
    | inl y ↦
        let cache = (after s earlier).cache in
        let (x, z, h) =
          built_by-IsComputed faults clock c' k' t cache (get clock.asked c' k' cache) p refl
            (get_leaderboard s faults clock c' k' t cache).1 refl (ground (arith, e, y)) in
        (
          subst (λ i. SameLength i c) x l.0,
          inl (
            ground (arith, y),
            x,
            z,
            moved p.competition_id p.category_id c' k' p.board clock t x z h,
          ),
        )
  ]

  get-after :
      (now : ℕ) (c k : String) (b : Board s) (events : List (Event s))
      → AreIds s c events
      → get now c k (after s events).cache ≡ some b
      → IsRecent s now c k b events
  unfolding after
  get-after now c k b [] l e =
      let never : none ≡ some b = sym (get-empty now c k) ∙ e in absurd (ground (arith, never))
  get-after now c k b (drops c' ∷ earlier) l e =
      let kept = get-invalidate now c c' k (after s earlier).cache l.0 in
      elim (Bool-cases (str_eq c' c)) [
        | inl q ↦ absurd (ground (arith, e, kept, q))
        | inr q ↦ (q, get-after now c k b earlier l.1 (ground (arith, e, kept, q)))
      ]
  get-after now c k b (asks m faults clock c' k' t ∷ earlier) l e =
      get-after now c k b earlier l.1 e
  get-after now c k b (stores n at ∷ earlier) l e =
      elim (Option-cases ((after s earlier).pending n)) [
        | inl x ↦ inr (
            get-after now c k b earlier l (
              subst (λ (st : State s). get now c k st.cache ≡ some b)
                (none_held n at (after s earlier) x) e))
        | inr (p, x) ↦
            let (same, built) = pending-HasBuilt c n p earlier l x in
            elim (get-put now at c p.competition_id k p.category_id p.board b
              (after s earlier).cache same
              (subst (λ (st : State s). get now c k st.cache ≡ some b)
                (some_held n at (after s earlier) p x) e)) [
                  | inl (y, z, w, m) ↦ inl (
                    subst (λ i. HasBuilt s n i k b earlier) y
                        (subst (λ i. HasBuilt s n p.competition_id i b earlier) z
                          (subst (λ i. HasBuilt s n p.competition_id p.category_id i earlier)
                            (sym w) built)),
                    m,
                  )
                  | inr before ↦ inr (get-after now c k b earlier l before)
                ]
      ]
    where
      none_held : (n at : ℕ) (st : State s) → st.pending n ≡ none → step s (stores n at) st ≡ st
      none_held n at st x = ground (arith, x)

      some_held :
          (n at : ℕ) (st : State s) (p : Pending (Board s))
          → st.pending n ≡ some p
          → step s (stores n at) st
            ≡ pended s n none
                (record st { cache = put at p.competition_id p.category_id p.board st.cache })
      some_held n at st p x = ground (arith, x)

  -- Whatever requests and writers came before or are under way, and whatever is written between two
  -- queries of a request, a board that GetLeaderboard answers is computed from what the queries of this
  -- request found, or is one that a request, which had computed it from what its own queries found,
  -- has put into the cache no more than two seconds ago and since the boards of the competition were
  -- last dropped. Competition ids are of one length, as UUIDs are.
  pub get_leaderboard-IsRecent :
      (faults : ReadFaults) (clock : Clock) (c k : String) (t : Reads s.fl.F) (b : Board s)
      (events : List (Event s))
      → AreIds s c events
      → (get_leaderboard s faults clock c k t (after s events).cache).1 ≡ ok_board b
      → IsComputed s c k t clock b ⊎ IsRecent s clock.asked c k b events
  get_leaderboard-IsRecent faults clock c k t b events l e =
      elim (subst (Answers s faults clock c k t (after s events).cache _) e
        (get_leaderboard-cases s faults clock c k t (after s events).cache)).1 [
          | inl h ↦ inr (get-after clock.asked c k b events l h.0)
          | inr h ↦ inl h.1
        ]
