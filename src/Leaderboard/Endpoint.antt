-- ===== src/Leaderboard/Endpoint.antt =====
-- buildLeaderboard and GetLeaderboard (internal/handler/comp_leaderboard.go): the cache, the reads and
-- the answer.
use routewerk.Prelude.{
  ℕ, String, str_eq, Bool, true, false, not, ◌&&◌, List, [], ◌∷◌, map, Option, none, some,
  if◌then◌else◌,
}
use routewerk.Scoring.Float.{Float64}
use routewerk.Scoring.Registry.{Scorer}
use routewerk.Leaderboard.Types.{Competition, Problem, LeaderboardEntry, Leaderboard, Tables}
use routewerk.Leaderboard.Queries.{
  find_competition, list_events, list_problems_for_events, list_registrations, list_attempts,
}
use routewerk.Leaderboard.Board.{aggregate_leaderboard}
use routewerk.Leaderboard.BoardCache.{LeaderboardCache, get, put}

-- Which reads the database fails.
pub record ReadFaults : Type 0 where
  pub competition_fails : Bool
  pub events_fail : Bool
  pub problems_fail : Bool
  pub registrations_fail : Bool
  pub attempts_fail : Bool

-- ListProblemsForEvents asks nothing for no events.
abbrev pub is_empty : {A : Type 0} → List A → Bool
is_empty [] = true
is_empty (x ∷ xs) = false

-- What `time.Now()` gives when the cache is asked, when the board is stamped, and when it is put.
pub record Clock : Type 0 where
  pub asked : ℕ
  pub stamped : ℕ
  pub stored : ℕ

pub data Built (B : Type 0) : Type 0 where
  built : B → Built B
  comp_not_found : Built B
  build_failed : Built B

pub data Answer (B : Type 0) : Type 0 where
  ok_board : B → Answer B
  bad_request : String → Answer B
  not_found : Answer B
  internal_error : Answer B

-- What does not depend on the request: uuid.Parse, float32, the order of problems, the registry.
pub record Setting : Type 1 where
  pub fl : Float64
  pub P : Type 0
  pub U : Type 0
  pub is_uuid : String → Bool
  pub uuid_of : String → U
  pub to_float32 : fl.F → P
  pub precedes : Problem fl.F → Problem fl.F → Bool
  pub registry : List (String × Scorer fl.F)

-- The tables as each of the five queries finds them: other requests may write between two queries.
pub record Reads (F : Type 0) : Type 0 where
  pub for_competition : Tables F
  pub for_events : Tables F
  pub for_problems : Tables F
  pub for_registrations : Tables F
  pub for_attempts : Tables F

-- The queries when nobody writes between them.
abbrev pub at_once : {F : Type 0} → Tables F → Reads F
at_once t = record {
  for_competition = t;
  for_events = t;
  for_problems = t;
  for_registrations = t;
  for_attempts = t;
}

module _ (s : Setting) where
  open s use {fl, P, U, is_uuid, uuid_of, to_float32, precedes, registry}
  open fl use {F}

  abbrev pub Board : Type 0
  Board = Leaderboard P U

  -- The entries for a competition and category, over what the queries list.
  unfoldable pub entries_of_reads :
      Competition → String → String → Reads F → Option (List (LeaderboardEntry P U))
  entries_of_reads comp competition_id category_id t =
      aggregate_leaderboard to_float32 uuid_of registry comp
        (list_registrations competition_id category_id t.for_registrations.registrations)
        (list_problems_for_events precedes
          (map (λ e. e.id) (list_events competition_id t.for_events.events))
          t.for_problems.problems)
        (list_attempts competition_id category_id t.for_attempts.registrations
          t.for_attempts.attempts)

  -- The same when all queries find the same tables.
  unfoldable pub entries_of :
      Competition → String → String → Tables F → Option (List (LeaderboardEntry P U))
  unfolding entries_of_reads
  entries_of comp competition_id category_id t =
      entries_of_reads comp competition_id category_id (at_once t)

  abbrev pub board_of : Competition → String → String → ℕ → List (LeaderboardEntry P U) → Board
  board_of comp competition_id category_id now entries = record {
    competition_id = uuid_of competition_id;
    category_id = if str_eq category_id "" then none else some (uuid_of category_id);
    scoring_rule = comp.scoring_rule;
    generated_at = now;
    entries = entries;
  }

  -- The part of buildLeaderboard after the competition is found.
  unfoldable pub build_for :
      ReadFaults
      → Clock
      → Competition
      → String
      → String
      → Reads F
      → LeaderboardCache Board
      → LeaderboardCache Board × Built Board
  build_for faults clock comp competition_id category_id t cache =
      if faults.events_fail
      then (cache, build_failed)
      else if not (is_empty (list_events competition_id t.for_events.events))
          && faults.problems_fail
      then (cache, build_failed)
      else if faults.registrations_fail
      then (cache, build_failed)
      else if faults.attempts_fail
      then (cache, build_failed)
      else elim (entries_of_reads comp competition_id category_id t) [
        | none ↦ (cache, build_failed)
        | some entries ↦
            let board = board_of comp competition_id category_id clock.stamped entries in
            (put clock.stored competition_id category_id board cache, built board)
      ]

  unfoldable pub build_leaderboard :
      ReadFaults
      → Clock
      → String
      → String
      → Reads F
      → LeaderboardCache Board
      → LeaderboardCache Board × Built Board
  unfolding build_for
  build_leaderboard faults clock competition_id category_id t cache =
      elim (get clock.asked competition_id category_id cache) [
        | some cached ↦ (cache, built cached)
        | none ↦
            if faults.competition_fails
            then (cache, build_failed)
            else elim (find_competition competition_id t.for_competition.competitions) [
              | none ↦ (cache, comp_not_found)
              | some comp ↦ build_for faults clock comp competition_id category_id t cache
            ]
      ]

  abbrev pub answer_of : Built Board → Answer Board
  answer_of (built board) = ok_board board
  answer_of comp_not_found = not_found
  answer_of build_failed = internal_error

  unfoldable pub get_leaderboard :
      ReadFaults
      → Clock
      → String
      → String
      → Reads F
      → LeaderboardCache Board
      → LeaderboardCache Board × Answer Board
  unfolding build_leaderboard
  get_leaderboard faults clock competition_id category_id t cache =
      let (cache', result) = build_leaderboard faults clock competition_id category_id t cache in
      if not (is_uuid competition_id)
      then (cache, bad_request "invalid competition id")
      else if not (str_eq category_id "") && not (is_uuid category_id)
      then (cache, bad_request "invalid category id")
      else (cache', answer_of result)
