-- ===== src/Leaderboard/Types.antt =====
-- The data of internal/handler/comp_leaderboard.go: the parts of the records of
-- internal/model/competition.go that it reads, and those of internal/api/api.gen.go that it answers.
use routewerk.Prelude.{ℕ, String, Bool, true, false, List, Option, none, some}
use routewerk.Prelude.Int.{ℤ}
use routewerk.Attempts.Types.{Attempt as Row}

-- The parts of model.Competition that the leaderboard and the staff endpoints read; the config is
-- JSON text.
pub record Competition : Type 0 where
  pub id : String
  pub location_id : String
  pub scoring_rule : String
  pub scoring_config : List ℕ

-- model.CompetitionEvent, as far as its id and order.
pub record Event : Type 0 where
  pub id : String
  pub competition_id : String
  pub sequence : ℤ

-- model.CompetitionRegistration, without the waiver and the payment.
pub record Registration : Type 0 where
  pub id : String
  pub competition_id : String
  pub category_id : String
  pub display_name : String
  pub bib_number : Option ℤ
  pub withdrawn_at : Option ℕ
  pub created_at : ℕ

abbrev pub is_active : Registration → Bool
is_active reg = elim reg.withdrawn_at [ none ↦ true | some t ↦ false ]

-- model.CompetitionProblem
pub record Problem (F : Type 0) : Type 0 where
  pub id : String
  pub event_id : String
  pub label : String
  pub points : Option F
  pub zone_points : Option F
  pub sort_order : ℤ

-- api.LeaderboardEntry; `P` stands for float32 and `U` for uuid.UUID.
pub record LeaderboardEntry (P U : Type 0) : Type 0 where
  pub rank : ℤ
  pub registration_id : U
  pub display_name : String
  pub bib_number : Option ℤ
  pub category_id : Option U
  pub points : P
  pub tops : ℤ
  pub zones : ℤ
  pub attempts_to_top : ℤ
  pub attempts_to_zone : ℤ

-- api.Leaderboard
pub record Leaderboard (P U : Type 0) : Type 0 where
  pub competition_id : U
  pub category_id : Option U
  pub scoring_rule : String
  pub generated_at : ℕ
  pub entries : List (LeaderboardEntry P U)

-- The tables that a leaderboard is read from.
pub record Tables (F : Type 0) : Type 0 where
  pub competitions : List Competition
  pub events : List Event
  pub problems : List (Problem F)
  pub registrations : List Registration
  pub attempts : List Row
