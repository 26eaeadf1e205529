-- ===== src/Leaderboard/Answers.antt =====
-- Every branch of GetLeaderboard (internal/handler/comp_leaderboard.go).
use mathlib.Core.Path.{subst}
use routewerk.Prelude.{
  ◌≡◌, refl, sym, ◌⊎◌, inl, inr, String, str_eq, Bool, true, false, not, ◌&&◌, ◌||◌, List, none,
  some, arith, Bool-cases, Option-cases,
}
use routewerk.Leaderboard.Types.{Competition, LeaderboardEntry}
use routewerk.Leaderboard.Queries.{find_competition, list_events}
use routewerk.Leaderboard.BoardCache.{LeaderboardCache, get, put}
use routewerk.Leaderboard.Endpoint.{
  ReadFaults, is_empty, Clock, Built, built, comp_not_found, build_failed, Answer, ok_board,
  bad_request, not_found, internal_error, Setting, Board, Reads, entries_of_reads, board_of,
  answer_of, build_for, build_leaderboard, get_leaderboard,
}

module _ (s : Setting) (comp_id category_id : String) (t : Reads s.fl.F) where
  -- The board is that of what the queries found: the competition exists and its entries are those of entries_of_reads.
  pub record IsComputed (clock : Clock) (board : Board s) : Type 0 where
    pub comp : Competition
    pub entries : List (LeaderboardEntry s.P s.U)
    pub found : find_competition comp_id t.for_competition.competitions ≡ some comp
    pub aggregated : entries_of_reads s comp comp_id category_id t ≡ some entries
    pub assembled : board ≡ board_of s comp comp_id category_id clock.stamped entries

  -- The competition exists, and the scorer fails on its rows.
  pub record Unscored : Type 0 where
    pub comp : Competition
    pub found : find_competition comp_id t.for_competition.competitions ≡ some comp
    pub failed : entries_of_reads s comp comp_id category_id t ≡ none

module _ (s : Setting) (faults : ReadFaults) (clock : Clock) (comp_id category_id : String)
    (t : Reads s.fl.F) (cache : LeaderboardCache (Board s)) where
  open s use {is_uuid}

  -- A read that the request needs fails.
  abbrev pub read_fails : Bool
  read_fails =
      faults.competition_fails
      || faults.events_fail
      || (not (is_empty (list_events comp_id t.for_events.events)) && faults.problems_fail)
      || faults.registrations_fail
      || faults.attempts_fail

  -- What a result of buildLeaderboard tells.
  abbrev pub Explains : LeaderboardCache (Board s) → Built (Board s) → Type 0
  Explains cache' (built board) =
      ((get clock.asked comp_id category_id cache ≡ some board) × (cache' ≡ cache))
      ⊎ ((get clock.asked comp_id category_id cache ≡ none)
          × IsComputed s comp_id category_id t clock board
          × (read_fails ≡ false)
          × (cache' ≡ put clock.stored comp_id category_id board cache))
  Explains cache' comp_not_found =
      (cache' ≡ cache)
      × (find_competition comp_id t.for_competition.competitions ≡ none)
      × (get clock.asked comp_id category_id cache ≡ none)
  Explains cache' build_failed =
      (cache' ≡ cache)
      × ((read_fails ≡ true) ⊎ Unscored s comp_id category_id t)
      × (get clock.asked comp_id category_id cache ≡ none)

  explained :
      (r r' : LeaderboardCache (Board s) × Built (Board s))
      → r ≡ r'
      → Explains r'.0 r'.1
      → Explains r.0 r.1
  explained r r' e h =
      subst (λ (x : LeaderboardCache (Board s) × Built (Board s)). Explains x.0 x.1) (sym e) h

  build_for-Explains :
      (comp : Competition)
      → get clock.asked comp_id category_id cache ≡ none
      → find_competition comp_id t.for_competition.competitions ≡ some comp
      → faults.competition_fails ≡ false
      → let r = build_for s faults clock comp comp_id category_id t cache in Explains r.0 r.1
  unfolding build_for
  build_for-Explains comp g f x = elim (Bool-cases read_fails) [
    | inl b ↦ explained _ (cache, build_failed) (ground (arith, b, x)) (refl, inl b, g)
    | inr b ↦ elim (Option-cases (entries_of_reads s comp comp_id category_id t)) [
      | inl n ↦
          explained _ (cache, build_failed) (ground (arith, b, n))
            (refl, inr (record { comp = comp; found = f; failed = n }), g)
      | inr (es, n) ↦
          let board = board_of s comp comp_id category_id clock.stamped es in
          explained _ (put clock.stored comp_id category_id board cache, built board)
            (ground (arith, b, n))
            (inr (
              g,
              record { comp = comp; entries = es; found = f; aggregated = n; assembled = refl },
              b,
              refl,
            ))
    ]
  ]

  pub build_leaderboard-Explains :
      let r = build_leaderboard s faults clock comp_id category_id t cache in Explains r.0 r.1
  unfolding build_leaderboard
  build_leaderboard-Explains = elim (Option-cases (get clock.asked comp_id category_id cache)) [
    | inr (b, g) ↦ explained _ (cache, built b) (ground (arith, g)) (inl (g, refl))
    | inl g ↦ elim (Bool-cases faults.competition_fails) [
      | inl x ↦
          explained _ (cache, build_failed) (ground (arith, g, x))
            (refl, inl (ground (arith, x)), g)
      | inr x ↦ elim (Option-cases (find_competition comp_id t.for_competition.competitions)) [
        | inl n ↦ explained _ (cache, comp_not_found) (ground (arith, g, x, n)) (refl, n, g)
        | inr (comp, n) ↦
            explained _ (build_for s faults clock comp comp_id category_id t cache)
              (ground (arith, g, x, n)) (build_for-Explains comp g n x)
      ]
    ]
  ]

  -- The ids of the request pass the guards.
  abbrev pub is_well_formed : Bool
  is_well_formed = is_uuid comp_id && (str_eq category_id "" || is_uuid category_id)

  -- What an answer tells of the request, the tables and the cache.
  abbrev pub Answers : LeaderboardCache (Board s) → Answer (Board s) → Type 0
  Answers cache' (ok_board board) = (is_well_formed ≡ true) × Explains cache' (built board)
  Answers cache' (bad_request m) = (is_well_formed ≡ false) × (cache' ≡ cache)
  Answers cache' not_found = (is_well_formed ≡ true) × Explains cache' comp_not_found
  Answers cache' internal_error = (is_well_formed ≡ true) × Explains cache' build_failed

  of_built :
      (r : LeaderboardCache (Board s) × Built (Board s))
      → is_well_formed ≡ true
      → Explains r.0 r.1
      → Answers r.0 (answer_of s r.1)
  of_built (c, built b) w h = (w, h)
  of_built (c, comp_not_found) w h = (w, h)
  of_built (c, build_failed) w h = (w, h)

  answered :
      (r r' : LeaderboardCache (Board s) × Answer (Board s))
      → r ≡ r'
      → Answers r'.0 r'.1
      → Answers r.0 r.1
  answered r r' e h =
      subst (λ (x : LeaderboardCache (Board s) × Answer (Board s)). Answers x.0 x.1) (sym e) h

  -- GetLeaderboard on every branch, each query at the tables that it finds.
  pub get_leaderboard-cases :
      let r = get_leaderboard s faults clock comp_id category_id t cache in Answers r.0 r.1
  unfolding get_leaderboard
  get_leaderboard-cases = elim (Bool-cases (is_uuid comp_id)) [
    | inr u ↦
        answered _ (cache, bad_request "invalid competition id") (ground (arith, u))
          (ground (arith, u), refl)
    | inl u ↦ elim (Bool-cases (not (str_eq category_id "") && not (is_uuid category_id))) [
      | inl v ↦
          answered _ (cache, bad_request "invalid category id") (ground (arith, u, v))
            (ground (arith, u, v), refl)
      | inr v ↦
          let r = build_leaderboard s faults clock comp_id category_id t cache in
          answered _ (r.0, answer_of s r.1) (ground (arith, u, v))
            (of_built r (ground (arith, u, v)) build_leaderboard-Explains)
    ]
  ]

  -- What a request does to the cache.
  pub cache-get_leaderboard :
      let r = get_leaderboard s faults clock comp_id category_id t cache in
      (r.0 ≡ cache)
      ⊎ ((board : Board s) × IsComputed s comp_id category_id t clock board
          × (r.0 ≡ put clock.stored comp_id category_id board cache))
  cache-get_leaderboard =
      let r = get_leaderboard s faults clock comp_id category_id t cache in
      of_answer r.0 r.1 get_leaderboard-cases
    where
      of_answer :
          (c : LeaderboardCache (Board s)) (a : Answer (Board s))
          → Answers c a
          → (c ≡ cache)
            ⊎ ((board : Board s) × IsComputed s comp_id category_id t clock board
                × (c ≡ put clock.stored comp_id category_id board cache))
      of_answer c (ok_board b) (w, inl h) = inl h.1
      of_answer c (ok_board b) (w, inr h) = inr (b, h.1, h.3)
      of_answer c (bad_request m) h = inl h.1
      of_answer c not_found h = inl h.1.0
      of_answer c internal_error h = inl h.1.0
