-- ===== src/Scoring/Types.antt =====
-- The data of internal/service/competition/scorer.go. `F` stands for Go's float64 and `ℤ` for `int`;
-- a nil pointer is `none`.
use routewerk.Prelude.{String, Bool, List, [], Option}
use routewerk.Prelude.Int.{ℤ, pos}

pub record Attempt : Type 0 where
  pub registration_id : String
  pub problem_id : String
  pub attempts : ℤ
  pub zone_attempts : Option ℤ
  pub zone_reached : Bool
  pub top_reached : Bool

pub record Problem (F : Type 0) : Type 0 where
  pub id : String
  pub label : String
  pub points : Option F
  pub zone_points : Option F
  pub sort_order : ℤ

pub record ProblemScore (F : Type 0) : Type 0 where
  pub problem_id : String
  pub attempts : ℤ
  pub zone_attempts : Option ℤ
  pub points : F
  pub top_reached : Bool
  pub zone_reached : Bool
  pub sort_order : ℤ

-- `Detail` is never set by the code and is left out.
pub record ClimberScore (F : Type 0) : Type 0 where
  pub registration_id : String
  pub points : F
  pub tops : ℤ
  pub zones : ℤ
  pub attempts_to_top : ℤ
  pub attempts_to_zone : ℤ
  pub per_problem : List (ProblemScore F)

pub record RankedScore (F : Type 0) : Type 0 where
  pub score : ClimberScore F
  pub rank : ℤ

-- `ClimberScore{RegistrationID: id}`, the other fields at Go's zero values.
unfoldable pub new_score : {F : Type 0} → F → String → ClimberScore F
new_score zero id = record {
  registration_id = id;
  points = zero;
  tops = pos 0;
  zones = pos 0;
  attempts_to_top = pos 0;
  attempts_to_zone = pos 0;
  per_problem = [];
}
