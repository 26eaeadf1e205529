-- ===== src/Scoring/Scorer.antt =====
-- The helpers of internal/service/competition/helpers.go that the scorers share, and the part of
-- their loops that is the same in the three.
use mathlib.Core.List.{foldl}
use routewerk.Prelude.{String, List, [], ◌∷◌, ◌++◌, Option, none, some, if◌then◌else◌, ℕ}
use routewerk.Prelude.Int.{ℤ, pos, add64}
use routewerk.Prelude.Maps.{insert}
use routewerk.Scoring.Types.{Attempt, Problem, ProblemScore, ClimberScore}

-- indexProblems: later problems replace earlier ones of the same id.
unfoldable pub index_problems : {F : Type 0} → List (Problem F) → List (String × Problem F)
unfolding insert
index_problems problems = foldl (λ out p. insert p.id p out) [] problems

abbrev pub deref_int_or : Option ℤ → ℤ → ℤ
deref_int_or none fallback = fallback
deref_int_or (some v) fallback = v

abbrev pub deref_float_or : {F : Type 0} → Option F → F → F
deref_float_or none fallback = fallback
deref_float_or (some v) fallback = v

-- parseConfig: an empty payload is the zero value; otherwise json.Unmarshal decides, `none` being
-- its error.
abbrev pub parse_config : {C : Type 0} → (List ℕ → Option C) → C → List ℕ → Option C
parse_config unmarshal zero [] = some zero
parse_config unmarshal zero (b ∷ raw) = unmarshal (b ∷ raw)

-- The row that each scorer builds before it looks at the result.
abbrev pub problem_score : {F : Type 0} → F → Attempt → Problem F → ProblemScore F
problem_score zero a p = record {
  problem_id = a.problem_id;
  attempts = a.attempts;
  zone_attempts = a.zone_attempts;
  points = zero;
  top_reached = a.top_reached;
  zone_reached = a.zone_reached;
  sort_order = p.sort_order;
}

-- `if a.TopReached { score.Tops++; score.AttemptsToTop += a.Attempts }`
abbrev pub count_top : {F : Type 0} → Attempt → ClimberScore F → ClimberScore F
count_top a score =
    if a.top_reached
    then record score {
      tops = add64 score.tops (pos 1);
      attempts_to_top = add64 score.attempts_to_top a.attempts;
    }
    else score

-- `if a.ZoneReached { score.Zones++; if a.ZoneAttempts != nil { … } }`
abbrev pub count_zone : {F : Type 0} → Attempt → ClimberScore F → ClimberScore F
count_zone a score =
    if a.zone_reached
    then record score {
      zones = add64 score.zones (pos 1);
      attempts_to_zone = elim a.zone_attempts [
        | none ↦ score.attempts_to_zone
        | some z ↦ add64 score.attempts_to_zone z
      ];
    }
    else score

abbrev pub append_problem : {F : Type 0} → ProblemScore F → ClimberScore F → ClimberScore F
append_problem ps score = record score { per_problem = score.per_problem ++ ps ∷ [] }
