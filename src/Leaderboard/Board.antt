-- ===== src/Leaderboard/Board.antt =====
-- aggregateLeaderboard (internal/handler/comp_leaderboard.go), over any registry of scorers.
use routewerk.Prelude.{ℕ, String, List, [], ◌∷◌, ◌++◌, map, Option, none, some, if◌then◌else◌}
use routewerk.Prelude.Maps.{lookup, insert}
use routewerk.Attempts.Types.{Attempt as Row}
use routewerk.Scoring.Types.{Attempt, ClimberScore, RankedScore, Problem as ScorerProblem}
use routewerk.Scoring.Registry.{Scorer, get_scorer}
use routewerk.Leaderboard.Types.{Competition, Registration, is_active, Problem, LeaderboardEntry}

-- The scorer's view of a row.
abbrev pub to_scorer_attempt : Row → Attempt
to_scorer_attempt a = record {
  registration_id = a.registration_id;
  problem_id = a.problem_id;
  attempts = a.attempts;
  zone_attempts = a.zone_attempts;
  zone_reached = a.zone_reached;
  top_reached = a.top_reached;
}

-- A missing key of a Go map of slices reads as the empty slice.
abbrev pub or_empty {ℓ} : {A : Type ℓ} → Option (List A) → List A
or_empty none = []
or_empty (some as') = as'

abbrev pub AttemptIndex : Type 0
AttemptIndex = List (String × List Attempt)

-- The loop that fills attemptsByReg.
unfoldable pub index_attempts : List Row → AttemptIndex → AttemptIndex
index_attempts [] index = index
index_attempts (a ∷ rest) index = index_attempts rest (
    insert a.registration_id (or_empty (lookup a.registration_id index) ++ to_scorer_attempt a ∷ [])
      index)

abbrev pub to_scorer_problem : {F : Type 0} → Problem F → ScorerProblem F
to_scorer_problem p = record {
  id = p.id;
  label = p.label;
  points = p.points;
  zone_points = p.zone_points;
  sort_order = p.sort_order;
}

-- The loop that fills regByID: of two registrations with an id, the later one stays.
unfoldable pub index_registrations :
    List Registration → List (String × Registration) → List (String × Registration)
index_registrations [] index = index
index_registrations (r ∷ rest) index = index_registrations rest (insert r.id r index)

module _ {F : Type 0} where
  -- The loop that scores the active registrations; `none` is a scorer's error.
  unfoldable pub score_all :
      Scorer F
      → AttemptIndex
      → List (ScorerProblem F)
      → List ℕ
      → List Registration
      → Option (List (ClimberScore F))
  score_all scorer index problems config [] = some []
  score_all scorer index problems config (r ∷ rest) =
      let others = score_all scorer index problems config rest in
      if is_active r
      then elim (scorer.score r.id (or_empty (lookup r.id index)) problems config) [
        | none ↦ none
        | some s ↦ elim others [ none ↦ none | some ss ↦ some (s ∷ ss) ]
      ]
      else others

  -- `uuid_of` is uuid.Parse with its error dropped: the zero UUID for a text that is none.
  module _ {P U : Type 0} (to_float32 : F → P) (uuid_of : String → U) where
    abbrev pub to_entry : RankedScore F → Registration → LeaderboardEntry P U
    to_entry rs reg = record {
      rank = rs.rank;
      registration_id = uuid_of rs.score.registration_id;
      display_name = reg.display_name;
      bib_number = reg.bib_number;
      category_id = some (uuid_of reg.category_id);
      points = to_float32 rs.score.points;
      tops = rs.score.tops;
      zones = rs.score.zones;
      attempts_to_top = rs.score.attempts_to_top;
      attempts_to_zone = rs.score.attempts_to_zone;
    }

    -- The last loop: a score without a registration is skipped.
    unfoldable pub to_entries :
        List (String × Registration) → List (RankedScore F) → List (LeaderboardEntry P U)
    to_entries index [] = []
    to_entries index (rs ∷ rest) =
        let others = to_entries index rest in
        elim (lookup rs.score.registration_id index) [
          | none ↦ others
          | some reg ↦ to_entry rs reg ∷ others
        ]

    unfoldable pub aggregate_leaderboard :
        List (String × Scorer F)
        → Competition
        → List Registration
        → List (Problem F)
        → List Row
        → Option (List (LeaderboardEntry P U))
    aggregate_leaderboard registry comp regs problems attempts =
        elim (get_scorer comp.scoring_rule registry) [
          | none ↦ some []
          | some scorer ↦
              elim (score_all scorer (index_attempts attempts []) (map to_scorer_problem problems)
                comp.scoring_config regs) [
                  | none ↦ none
                  | some scores ↦ some (
                      to_entries (index_registrations regs [])
                        (scorer.rank scores comp.scoring_config))
                ]
        ]
