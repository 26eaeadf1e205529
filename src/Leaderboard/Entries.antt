-- ===== src/Leaderboard/Entries.antt =====
-- What the entries of aggregateLeaderboard (internal/handler/comp_leaderboard.go) say of whom.
use mathlib.Core.List.{Perm}
use routewerk.Prelude.{
  ℕ, ◌≡◌, refl, sym, ◌∙◌, ap, inl, inr, String, List, [], ◌∷◌, map, Option, some, arith, keep, All,
  Bool-cases, Option-cases,
}
use routewerk.Prelude.Maps.{lookup}
use routewerk.Attempts.Types.{Attempt as Row}
use routewerk.Scoring.Types.{Attempt, ClimberScore, Problem as ScorerProblem}
use routewerk.Scoring.Registry.{Scorer}
use routewerk.Scoring.Standings.{scores_of}
use routewerk.Leaderboard.Types.{Registration, is_active, Problem}
use routewerk.Leaderboard.Board.{to_scorer_problem, or_empty, index_attempts, score_all}
use routewerk.Leaderboard.Grouping.{own_attempts, or_empty-index_attempts, last_with}

-- What the contract of Scorer promises: Score keeps the registration's id, and Rank neither loses
-- nor makes up a climber.
pub record IsScorer {F : Type 0} (s : Scorer F) : Type 1 where
  pub keeps_id :
      (id : String) (attempts : List Attempt) (problems : List (ScorerProblem F)) (config : List ℕ)
      (score : ClimberScore F)
      → s.score id attempts problems config ≡ some score
      → score.registration_id ≡ id
  pub keeps_climbers :
      (scores : List (ClimberScore F)) (config : List ℕ)
      → Perm (scores_of (s.rank scores config)) scores
  pub keeps_each :
      (P : ClimberScore F → Type 0) (scores : List (ClimberScore F)) (config : List ℕ)
      → All P scores
      → All P (scores_of (s.rank scores config))

-- Every active registration, and no other, has its own attempts scored, in the order of registration.
abbrev pub AreScores :
    {F : Type 0}
    → Scorer F
    → List Row
    → List (Problem F)
    → List ℕ
    → List Registration
    → List (ClimberScore F)
    → Type 0
AreScores scorer attempts problems config [] [] = Unit {0}
AreScores scorer attempts problems config [] (s ∷ ss) = ⊥
AreScores scorer attempts problems config (r ∷ regs) [] = ⊥
AreScores scorer attempts problems config (r ∷ regs) (s ∷ ss) =
    (scorer.score r.id (own_attempts r.id attempts) (map to_scorer_problem problems) config
      ≡ some s)
    × AreScores scorer attempts problems config regs ss

-- The registration of a score is among the registrations.
abbrev pub IsKnown : {F : Type 0} → List Registration → ClimberScore F → Type 0
IsKnown regs s = (r : Registration) × (last_with s.registration_id regs ≡ some r)

module _ {F : Type 0} (scorer : Scorer F) (attempts : List Row) (problems : List (Problem F))
    (config : List ℕ) where
  abbrev pub score_of_registration : Registration → Option (ClimberScore F)
  score_of_registration r =
      scorer.score r.id (or_empty (lookup r.id (index_attempts attempts [])))
        (map to_scorer_problem problems) config

  abbrev pub scores_of_registrations : List Registration → Option (List (ClimberScore F))
  scores_of_registrations regs =
      score_all scorer (index_attempts attempts []) (map to_scorer_problem problems) config regs

  pub score_all-AreScores :
      (regs : List Registration) (scores : List (ClimberScore F))
      → scores_of_registrations regs ≡ some scores
      → AreScores scorer attempts problems config (keep is_active regs) scores
  unfolding score_all keep
  score_all-AreScores [] [] e = tt
  score_all-AreScores [] (s ∷ ss) e = cc
  score_all-AreScores (r ∷ regs) scores e = elim (Bool-cases (is_active r)) [
    | inr a ↦ rw (a, keep) (score_all-AreScores regs scores (ground (arith, e, a)))
    | inl a ↦ elim (Option-cases (score_of_registration r)) [
      | inl n ↦ absurd (ground (arith, e, a, n))
      | inr (s, n) ↦ elim (Option-cases (scores_of_registrations regs)) [
        | inl m ↦ absurd (ground (arith, e, a, n, m))
        | inr (ss, m) ↦
            let q : s ∷ ss ≡ scores = ground (arith, e, a, n, m) in
            rw (a, keep, sym q)
              (
                ap (λ x. scorer.score r.id x (map to_scorer_problem problems) config)
                      (sym (or_empty-index_attempts r.id attempts))
                    ∙ n,
                score_all-AreScores regs ss m,
              )
      ]
    ]
  ]

  pub AreScores-ids :
      IsScorer scorer
      → {U : Type 0} (f : String → U) (regs : List Registration) (scores : List (ClimberScore F))
      → AreScores scorer attempts problems config regs scores
      → map (λ (s : ClimberScore F). f s.registration_id) scores
        ≡ map (λ (r : Registration). f r.id) regs
  AreScores-ids l f [] [] h = refl
  AreScores-ids l f [] (s ∷ ss) h = absurd h
  AreScores-ids l f (r ∷ regs) [] h = absurd h
  AreScores-ids l f (r ∷ regs) (s ∷ ss) h =
      cc (l.keeps_id r.id _ _ _ s h.0, AreScores-ids l f regs ss h.1)

  pub AreScores-IsKnown :
      IsScorer scorer
      → (all regs : List Registration) (scores : List (ClimberScore F))
      → All (λ (r : Registration). (x : Registration) × (last_with r.id all ≡ some x)) regs
      → AreScores scorer attempts problems config regs scores
      → All (IsKnown all) scores
  AreScores-IsKnown l all [] [] k h = tt
  AreScores-IsKnown l all [] (s ∷ ss) k h = absurd h
  AreScores-IsKnown l all (r ∷ regs) [] k h = absurd h
  AreScores-IsKnown l all (r ∷ regs) (s ∷ ss) k h = (
    (k.0.0, ap (λ x. last_with x all) (l.keeps_id r.id _ _ _ s h.0) ∙ k.0.1),
    AreScores-IsKnown l all regs ss k.1 h.1,
  )
