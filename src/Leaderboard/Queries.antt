-- ===== src/Leaderboard/Queries.antt =====
-- The list queries behind a leaderboard (internal/repository/competition.go,
-- competition_registration.go and competition_attempt.go). A query is the meaning of its SQL; rows
-- that ORDER BY leaves tied are taken in the order of the table.
use routewerk.Prelude.{
  String, str_eq, Bool, false, ◌&&◌, ◌||◌, List, [], ◌∷◌, ◌++◌, map, Option, none, some, ltb, keep,
  if◌then◌else◌,
}
use routewerk.Prelude.Int.{ltb_ℤ}
use routewerk.Scoring.Sort.{slice_stable}
use routewerk.Attempts.Types.{Attempt as Row}
use routewerk.Leaderboard.Types.{Competition, Event, Problem, Registration, is_active}

-- CompetitionRepo.GetByID
unfoldable pub find_competition : String → List Competition → Option Competition
find_competition id [] = none
find_competition id (c ∷ rest) =
    let later = find_competition id rest in if str_eq c.id id then some c else later

-- ListEvents
abbrev pub list_events : String → List Event → List Event
list_events competition_id events =
    slice_stable (λ a b. ltb_ℤ a.sequence b.sequence)
      (keep (λ e. str_eq e.competition_id competition_id) events)

unfoldable pub is_among : String → List String → Bool
is_among id [] = false
is_among id (x ∷ xs) = str_eq x id || is_among id xs

-- ListProblemsForEvents; `precedes` is the order by event, sort order and label, of which the last
-- depends on the collation of the database.
unfoldable pub list_problems_for_events :
    {F : Type 0}
    → (Problem F → Problem F → Bool)
    → List String
    → List (Problem F)
    → List (Problem F)
list_problems_for_events precedes [] problems = []
list_problems_for_events precedes (id ∷ ids) problems =
    slice_stable precedes (keep (λ p. is_among p.event_id (id ∷ ids)) problems)

-- `competition_id = $1`, and `category_id = $2` unless the category is empty.
abbrev pub is_in : String → String → Registration → Bool
is_in competition_id category_id r =
    str_eq r.competition_id competition_id
    && (str_eq category_id "" || str_eq r.category_id category_id)

-- CompetitionRegistrationRepo.ListByCompetition, which keeps withdrawn registrations.
abbrev pub list_registrations : String → String → List Registration → List Registration
list_registrations competition_id category_id regs =
    slice_stable (λ a b. ltb a.created_at b.created_at)
      (keep (is_in competition_id category_id) regs)

-- `JOIN competition_registrations r ON r.id = a.registration_id` with the conditions on `r`.
abbrev pub is_joined : String → String → Row → Registration → Bool
is_joined competition_id category_id a r =
    str_eq r.id a.registration_id && is_in competition_id category_id r && is_active r

-- CompetitionAttemptRepo.ListByCompetition: a row for every pair that the join finds.
unfoldable pub list_attempts : String → String → List Registration → List Row → List Row
list_attempts competition_id category_id regs [] = []
list_attempts competition_id category_id regs (a ∷ rest) =
    map (λ r. a) (keep (is_joined competition_id category_id a) regs)
    ++ list_attempts competition_id category_id regs rest
