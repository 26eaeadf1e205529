-- ===== src/Leaderboard/Tests.antt =====
-- The theorems on internal/handler/comp_leaderboard.go at concrete tables: two climbers, one of whom has
-- withdrawn, and a problem that both have climbed.
use routewerk.Prelude.{
  ℕ, ◌+◌, ◌*◌, ◌≡◌, refl, ◌⊎◌, String, str_eq, true, false, ◌||◌, List, [], ◌∷◌, Option, none, some,
  arith, ltb, ◌==◌, keep,
}
use routewerk.Prelude.Int.{pos, pos_part, ltb_ℤ, add64}
use routewerk.Prelude.Maps.{lookup, insert}
use routewerk.Attempts.Types.{Attempt as Row}
use routewerk.Attempts.Sound.{IsSoundState}
use routewerk.Scoring.Float.{Float64}
use routewerk.Scoring.Registry.{Scorer, top_zone, fixed, decay, register, registered}
use routewerk.Leaderboard.Types.{Competition, Registration, LeaderboardEntry, Tables}
use routewerk.Scoring.Types.{new_score}
use routewerk.Scoring.Scorer.{index_problems}
use routewerk.Scoring.Rank.{assign_standard_ranks}
use routewerk.Scoring.Sort.{slice_stable}
use routewerk.Scoring.TopZone
use routewerk.Leaderboard.Board.{
  aggregate_leaderboard, score_all, index_attempts, to_entries, index_registrations,
}
use routewerk.Leaderboard.BoardCache.{key, get, put, invalidate}
use routewerk.Leaderboard.Queries.{
  find_competition, list_problems_for_events, is_among, list_attempts,
}
use routewerk.Leaderboard.Contract.{top_zone-IsScorer}
use routewerk.Leaderboard.Standing.{IsLeaderboard, aggregate_leaderboard-IsLeaderboard}
use routewerk.Leaderboard.Ranking.{IsTopZoneBoard}
use routewerk.Leaderboard.Endpoint.{
  ReadFaults, Clock, ok_board, Setting, Board, at_once, entries_of, entries_of_reads, board_of,
  build_for, build_leaderboard, get_leaderboard,
}
use routewerk.Leaderboard.Answers.{IsComputed, Answers, get_leaderboard-cases}
use routewerk.Leaderboard.Overlap.{Event, asks, stores, drops, after, IsRecent}
use routewerk.Leaderboard.Staleness.{get_leaderboard-IsRecent}
use routewerk.Leaderboard.FromTables.{
  listed_registrations, listed_problems, entries_of-aggregate_leaderboard,
  entries_of-IsTopZoneBoard,
}

-- Whole numbers in place of float64.
abbrev whole : Float64
whole = record {
  F = ℕ;
  zero = 0;
  one = 1;
  of_int = pos_part;
  add = λ a b. a + b;
  mul = λ a b. a * b;
  div = λ a b. a;
  eq = λ a b. a == b;
  gt = λ a b. ltb b a;
}

abbrev the_registry : List (String × Scorer ℕ)
the_registry =
    ("decay", decay whole (λ raw. none) (λ raw. none))
    ∷ ("fixed", fixed whole (λ raw. none) (λ raw. none))
    ∷ ("top_zone", top_zone whole (λ raw. none) (λ raw. none))
    ∷ []

the_registry-registered : registered whole (λ raw. none) (λ raw. none) ≡ some the_registry
unfolding registered register lookup insert
the_registry-registered = refl

abbrev gym : Setting
gym = record {
  fl = whole;
  P = ℕ;
  U = String;
  is_uuid = λ id. str_eq id "c1" || str_eq id "k1";
  uuid_of = λ id. id;
  to_float32 = λ x. x;
  precedes = λ a b. ltb_ℤ a.sort_order b.sort_order;
  registry = the_registry;
}

abbrev cup : Competition
cup = record { id = "c1"; location_id = "l1"; scoring_rule = "top_zone"; scoring_config = [] }

abbrev registration : String → Option ℕ → ℕ → Registration
registration id withdrawn_at created_at = record {
  id = id;
  competition_id = "c1";
  category_id = "k1";
  display_name = id;
  bib_number = none;
  withdrawn_at = withdrawn_at;
  created_at = created_at;
}

abbrev attempt : String → ℕ → Row
attempt registration_id tries = record {
  id = registration_id;
  registration_id = registration_id;
  problem_id = "p1";
  state = record {
    attempts = pos tries;
    zone_attempts = some (pos 1);
    zone_reached = true;
    top_reached = true;
    notes = none;
  };
  logged_at = 1;
  updated_at = 1;
  verified_by = none;
  verified_at = none;
}

abbrev tables : Tables ℕ
tables = record {
  competitions = cup ∷ [];
  events = record { id = "e1"; competition_id = "c1"; sequence = pos 1 } ∷ [];
  problems =
      record {
        id = "p1";
        event_id = "e1";
        label = "one";
        points = none;
        zone_points = none;
        sort_order = pos 1;
      }
      ∷ [];
  registrations = registration "anna" none 1 ∷ registration "bert" (some 7) 2 ∷ [];
  attempts = attempt "anna" 3 ∷ attempt "bert" 1 ∷ [];
}

abbrev no_faults : ReadFaults
no_faults = record {
  competition_fails = false;
  events_fail = false;
  problems_fail = false;
  registrations_fail = false;
  attempts_fail = false;
}

abbrev clock : ℕ → Clock
clock now = record { asked = now; stamped = now; stored = now }

entries_of-aggregate_leaderboard_example :
    entries_of gym cup "c1" "k1" tables
    ≡ aggregate_leaderboard
        (λ x. x)
        (λ id. id)
        the_registry
        cup
        (listed_registrations gym "c1" "k1" tables)
        (listed_problems gym "c1" "k1" tables)
        tables.attempts
entries_of-aggregate_leaderboard_example =
    entries_of-aggregate_leaderboard gym cup "c1" "k1" tables ((refl, tt), (tt, tt))

abbrev anna_entry : LeaderboardEntry ℕ String
anna_entry = record {
  rank = pos 1;
  registration_id = "anna";
  display_name = "anna";
  bib_number = none;
  category_id = some "k1";
  points = 0;
  tops = pos 1;
  zones = pos 1;
  attempts_to_top = pos 3;
  attempts_to_zone = pos 1;
}

anna-IsSoundState : IsSoundState (attempt "anna" 3).state
anna-IsSoundState = ground arith

bert-IsSoundState : IsSoundState (attempt "bert" 1).state
bert-IsSoundState = ground arith

entries_of-IsTopZoneBoard_example :
    (entries : List (LeaderboardEntry ℕ String)) × (entries_of gym cup "c1" "k1" tables
      ≡ some entries)
    × IsTopZoneBoard whole
        (λ raw. none)
        (λ raw. none)
        (λ x. x)
        (λ id. id)
        cup
        (listed_registrations gym "c1" "k1" tables)
        (listed_problems gym "c1" "k1" tables)
        tables.attempts
        entries
entries_of-IsTopZoneBoard_example =
    entries_of-IsTopZoneBoard gym cup "c1" "k1" tables ((refl, tt), (tt, tt)) (λ raw. none)
      (λ raw. none) the_registry-registered refl (anna-IsSoundState, (bert-IsSoundState, tt))
      (omega arith)

board-computed :
    aggregate_leaderboard
      (λ x. x)
      (λ id. id)
      the_registry
      cup
      tables.registrations
      tables.problems
      tables.attempts
    ≡ some (anna_entry ∷ [])
unfolding aggregate_leaderboard score_all index_attempts to_entries index_registrations lookup
    insert TopZone.score TopZone.score_loop TopZone.score_round TopZone.rank assign_standard_ranks
    slice_stable new_score add64 index_problems
board-computed = refl

aggregate_leaderboard-IsLeaderboard_example :
    IsLeaderboard
      (λ x. x)
      (λ id. id)
      (top_zone whole (λ raw. none) (λ raw. none))
      cup
      tables.registrations
      tables.problems
      tables.attempts
      (anna_entry ∷ [])
unfolding lookup
aggregate_leaderboard-IsLeaderboard_example =
    aggregate_leaderboard-IsLeaderboard (λ x. x) (λ id. id) the_registry
      (top_zone whole (λ raw. none) (λ raw. none)) cup tables.registrations tables.problems
      tables.attempts (anna_entry ∷ []) refl (top_zone-IsScorer whole (λ raw. none) (λ raw. none))
      board-computed

get_leaderboard-cases_example :
    let r = get_leaderboard gym no_faults (clock 5) "c1" "k1" (at_once tables) [] in
    Answers gym no_faults (clock 5) "c1" "k1" (at_once tables) [] r.0 r.1
get_leaderboard-cases_example =
    get_leaderboard-cases gym no_faults (clock 5) "c1" "k1" (at_once tables) []

-- A writer drops the boards between the queries of a request and its put; a second later, a request is
-- answered from the cache.
abbrev events : List (Event gym)
events = stores 0 5 ∷ drops "c1" ∷ asks 0 no_faults (clock 5) "c1" "k1" (at_once tables) ∷ []

abbrev anna_board : Board gym
anna_board = board_of gym cup "c1" "k1" 5 (anna_entry ∷ [])

cached :
    (get_leaderboard gym no_faults
      (clock 1_000_000_005)
      "c1"
      "k1"
      (at_once tables)
      (after gym events).cache).1
    ≡ ok_board anna_board
unfolding after get_leaderboard build_leaderboard build_for entries_of_reads find_competition
    list_problems_for_events is_among list_attempts keep key get put invalidate
    aggregate_leaderboard score_all index_attempts to_entries index_registrations lookup insert
    TopZone.score TopZone.score_loop TopZone.score_round TopZone.rank assign_standard_ranks
    slice_stable new_score add64 index_problems
cached = refl

get_leaderboard-IsRecent_example :
    IsComputed gym "c1" "k1" (at_once tables) (clock 1_000_000_005) anna_board
    ⊎ IsRecent gym 1_000_000_005 "c1" "k1" anna_board events
get_leaderboard-IsRecent_example =
    get_leaderboard-IsRecent gym no_faults (clock 1_000_000_005) "c1" "k1" (at_once tables)
      anna_board events (refl, (refl, tt)) cached
