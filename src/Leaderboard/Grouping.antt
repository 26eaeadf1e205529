-- ===== src/Leaderboard/Grouping.antt =====
-- What the two indexes of aggregateLeaderboard (internal/handler/comp_leaderboard.go) hold.
use mathlib.Core.List.{append-nil, append_assoc}
use routewerk.Prelude.{
  ◌≡◌, refl, sym, ◌∙◌, String, str_eq, eq_iff, List, [], ◌∷◌, ◌++◌, map, Option, none, some, arith,
  keep, if◌then◌else◌,
}
use routewerk.Prelude.Maps.{lookup, insert, lookup-insert}
use routewerk.Attempts.Types.{Attempt as Row}
use routewerk.Scoring.Types.{Attempt}
use routewerk.Leaderboard.Types.{Registration}
use routewerk.Leaderboard.Board.{
  to_scorer_attempt, or_empty, AttemptIndex, index_attempts, index_registrations,
}

-- What a scorer should see of a row: its keys, and the counts and flags of its state.
abbrev pub counted : Row → Attempt
counted row = record {
  registration_id = row.registration_id;
  problem_id = row.problem_id;
  attempts = row.state.attempts;
  zone_attempts = row.state.zone_attempts;
  zone_reached = row.state.zone_reached;
  top_reached = row.state.top_reached;
}

-- The attempts of one climber, in the order of the rows.
abbrev pub own_attempts : String → List Row → List Attempt
own_attempts id attempts = map counted (keep (λ a. str_eq a.registration_id id) attempts)

own_attempts-index :
    (id : String) (attempts : List Row) (index : AttemptIndex)
    → or_empty (lookup id (index_attempts attempts index))
      ≡ or_empty (lookup id index) ++ own_attempts id attempts
unfolding index_attempts keep
own_attempts-index id [] index = sym (append-nil _)
own_attempts-index id (a ∷ rest) index =
    let added = or_empty (lookup a.registration_id index) ++ to_scorer_attempt a ∷ [] in
    own_attempts-index id rest (insert a.registration_id added index)
    ∙ ground (
      arith,
      lookup-insert a.registration_id id added index,
      eq_iff a.registration_id id,
      append_assoc (or_empty (lookup a.registration_id index)) (to_scorer_attempt a ∷ [])
          (own_attempts id rest),
    )

pub or_empty-index_attempts :
    (id : String) (attempts : List Row)
    → or_empty (lookup id (index_attempts attempts [])) ≡ own_attempts id attempts
unfolding lookup
or_empty-index_attempts id attempts = own_attempts-index id attempts []

-- The last registration with an id.
unfoldable pub last_with : String → List Registration → Option Registration
last_with id [] = none
last_with id (r ∷ rest) =
    let later = last_with id rest in
    elim later [ none ↦ if str_eq r.id id then some r else none | some l ↦ some l ]

pub lookup-index_registrations :
    (id : String) (regs : List Registration) (index : List (String × Registration))
    → lookup id (index_registrations regs index)
      ≡ (elim (last_with id regs) [ none ↦ lookup id index | some r ↦ some r ])
unfolding index_registrations last_with
lookup-index_registrations id [] index = refl
lookup-index_registrations id (r ∷ rest) index =
    ground (
      arith,
      lookup-index_registrations id rest (insert r.id r index),
      lookup-insert r.id id r index,
    )
