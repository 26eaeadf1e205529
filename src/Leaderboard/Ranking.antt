-- ===== src/Leaderboard/Ranking.antt =====
-- aggregateLeaderboard (internal/handler/comp_leaderboard.go) under top_zone, from the rows of the
-- attempt table to the ranks.
use mathlib.Core.Path.{subst}
use routewerk.Prelude.{
  ℕ, ◌<◌, ◌≡◌, refl, sym, String, List, [], ◌∷◌, map, Option, some, inl, inr, arith, All, All-imp,
  keep, length, Bool-cases,
}
use routewerk.Prelude.Maps.{lookup}
use routewerk.Attempts.Types.{Attempt as Row}
use routewerk.Attempts.Sound.{IsSoundState}
use routewerk.Scoring.Types.{Attempt, ClimberScore, Problem as ScorerProblem}
use routewerk.Scoring.Float.{Float64}
use routewerk.Scoring.Scorer.{index_problems}
use routewerk.Scoring.TopZone
use routewerk.Scoring.TopZone.{cmp_top_zone}
use routewerk.Scoring.Points.{FixedConfig, DecayConfig}
use routewerk.Scoring.Registry.{Scorer, top_zone, registered, get_scorer, registered_lem}
use routewerk.Scoring.Standings.{IsRanking, IsScorable, score_of, scored-IsRanking}
use routewerk.Leaderboard.Types.{Competition, Registration, is_active, Problem, LeaderboardEntry}
use routewerk.Leaderboard.Board.{
  to_scorer_problem, or_empty, index_attempts, index_registrations, score_all, to_entries,
  aggregate_leaderboard,
}
use routewerk.Leaderboard.Grouping.{own_attempts}
use routewerk.Leaderboard.Standing.{AreEntries, IsLeaderboard, aggregate_leaderboard-IsLeaderboard}
use routewerk.Leaderboard.Entries.{AreScores}
use routewerk.Leaderboard.Contract.{top_zone-IsScorer}
use routewerk.Leaderboard.Bounds.{IsSmall, own_attempts-IsSmall, own_rows-Fits}

-- The active climbers, each with the own attempts, in the order of registration.
abbrev pub climbers_of : List Registration → List Row → List (String × List Attempt)
climbers_of regs rows =
    map (λ (r : Registration). (r.id, own_attempts r.id rows)) (keep is_active regs)

module _ {F : Type 0} (zero : F) (problems : List (Problem F)) (rows : List Row)
    (sound : All (λ (r : Row). IsSoundState r.state) rows) (few : length rows < 4_294_967_296) where
  all-IsScorable :
      (regs : List Registration)
      → All
          (IsScorable zero (map to_scorer_problem problems))
          (map (λ (r : Registration). (r.id, own_attempts r.id rows)) regs)
  all-IsScorable [] = tt
  all-IsScorable (r ∷ regs) = (
    record {
      attempts_sound =
          All-imp IsSmall _ (λ a h. h.sound) (own_attempts r.id rows)
            (own_attempts-IsSmall r.id rows sound);
      sums_fit =
          own_rows-Fits zero (index_problems (map to_scorer_problem problems)) r.id rows sound few;
    },
    all-IsScorable regs,
  )

module _ (fl : Float64) (unmarshal_fixed : List ℕ → Option (FixedConfig fl.F))
    (unmarshal_decay : List ℕ → Option (DecayConfig fl.F)) where
  open fl use {F, zero}

  abbrev scorer : Scorer F
  scorer = top_zone fl unmarshal_fixed unmarshal_decay

  AreScores-eq :
      (rows : List Row) (problems : List (Problem F)) (config : List ℕ) (regs : List Registration)
      (scores : List (ClimberScore F))
      → AreScores scorer rows problems config regs scores
      → scores
        ≡ map
            (score_of zero (map to_scorer_problem problems))
            (map (λ (r : Registration). (r.id, own_attempts r.id rows)) regs)
  AreScores-eq rows problems config [] [] h = refl
  AreScores-eq rows problems config [] (s ∷ ss) h = absurd h
  AreScores-eq rows problems config (r ∷ regs) [] h = absurd h
  AreScores-eq rows problems config (r ∷ regs) (s ∷ ss) h =
      let e : TopZone.score zero r.id (own_attempts r.id rows) (map to_scorer_problem problems)
          ≡ s =
        ground (arith, h.0) in
      cc (e, AreScores-eq rows problems config regs ss h.1)

  score_all-returns :
      (index : List (String × List Attempt)) (problems : List (ScorerProblem F)) (config : List ℕ)
      (regs : List Registration)
      → (scores : List (ClimberScore F)) × (score_all scorer index problems config regs
          ≡ some scores)
  unfolding score_all
  score_all-returns index problems config [] = ([], refl)
  score_all-returns index problems config (r ∷ regs) =
      let (ss, e) = score_all-returns index problems config regs in
      elim (Bool-cases (is_active r)) [
        | inl a ↦ (
          TopZone.score zero r.id (or_empty (lookup r.id index)) problems ∷ ss,
          rw (e, a, score_all) refl,
        )
        | inr a ↦ (ss, rw (e, a, score_all) refl)
      ]

  get-top_zone :
      (registry : List (String × Scorer F)) (rule : String)
      → registered fl unmarshal_fixed unmarshal_decay ≡ some registry
      → rule ≡ "top_zone"
      → get_scorer rule registry ≡ some scorer
  get-top_zone registry rule e q =
      let (registry', e', found) = registered_lem fl unmarshal_fixed unmarshal_decay in
      let same : registry' ≡ registry = ground (arith, e, e') in
      subst (λ r. get_scorer rule r ≡ some scorer) same
        (subst (λ name. get_scorer name registry' ≡ some scorer) (sym q) (found "top_zone"))

  module _ {P U : Type 0} (to_float32 : F → P) (uuid_of : String → U) where
    -- The leaderboard of top_zone: that of the active registrations, in the order and with the ranks of
    -- a ranking of their scores.
    pub record IsTopZoneBoard (comp : Competition) (regs : List Registration)
        (problems : List (Problem F)) (rows : List Row) (entries : List (LeaderboardEntry P U))
        : Type 0 where
      pub leaderboard : IsLeaderboard to_float32 uuid_of scorer comp regs problems rows entries
      pub shown :
          AreEntries to_float32 uuid_of regs
            (TopZone.rank
              (map (score_of zero (map to_scorer_problem problems)) (climbers_of regs rows)))
            entries
      pub ranking :
          IsRanking cmp_top_zone
            (map (score_of zero (map to_scorer_problem problems)) (climbers_of regs rows))
            (TopZone.rank
              (map (score_of zero (map to_scorer_problem problems)) (climbers_of regs rows)))

    -- Under top_zone, over fewer than 2^32 rows with sound states, aggregateLeaderboard returns a
    -- leaderboard, which shows the scores of the active registrations as a ranking.
    pub aggregate_leaderboard-IsTopZoneBoard :
        (registry : List (String × Scorer F)) (comp : Competition) (regs : List Registration)
        (problems : List (Problem F)) (rows : List Row)
        → registered fl unmarshal_fixed unmarshal_decay ≡ some registry
        → comp.scoring_rule ≡ "top_zone"
        → All (λ (r : Row). IsSoundState r.state) rows
        → length rows < 4_294_967_296
        → (entries : List (LeaderboardEntry P U)) × (aggregate_leaderboard to_float32 uuid_of
              registry comp regs problems rows
            ≡ some entries)
          × IsTopZoneBoard comp regs problems rows entries
    unfolding aggregate_leaderboard
    aggregate_leaderboard-IsTopZoneBoard registry comp regs problems rows g rule sound few =
        let found = get-top_zone registry comp.scoring_rule g rule in
        let (scores, e) =
          score_all-returns (index_attempts rows []) (map to_scorer_problem problems)
            comp.scoring_config regs in
        let entries : List (LeaderboardEntry P U) =
          to_entries to_float32 uuid_of (index_registrations regs []) (TopZone.rank scores) in
        let returned : aggregate_leaderboard to_float32 uuid_of registry comp regs problems rows
            ≡ some entries =
          rw (found, e, aggregate_leaderboard) refl in
        let board =
          aggregate_leaderboard-IsLeaderboard to_float32 uuid_of registry scorer comp regs problems
            rows entries found (top_zone-IsScorer fl unmarshal_fixed unmarshal_decay) returned in
        (
          entries,
          returned,
          record {
            leaderboard = board;
            shown =
                subst (λ ss. AreEntries to_float32 uuid_of regs (TopZone.rank ss) entries)
                  (AreScores-eq rows problems comp.scoring_config (keep is_active regs) board.scores
                    board.scored)
                  board.shown;
            ranking =
                scored-IsRanking zero (map to_scorer_problem problems) (climbers_of regs rows)
                  (all-IsScorable zero problems rows sound few (keep is_active regs));
          },
        )
