-- ===== src/Leaderboard/Standing.antt =====
-- aggregateLeaderboard (internal/handler/comp_leaderboard.go) as a whole: who stands in it, where, and
-- with what.
use mathlib.Core.List.{Perm}
use mathlib.Core.List.Perm
use mathlib.Core.Path.{subst}
use routewerk.Prelude.{
  ◌≡◌, refl, sym, inl, inr, String, str_eq, eq_iff, Bool-cases, List, [], ◌∷◌, map, some, arith,
  keep, All, All-imp, All-keep, Option-cases,
}
use routewerk.Prelude.Maps.{lookup}
use routewerk.Attempts.Types.{Attempt as Row}
use routewerk.Scoring.Types.{ClimberScore, RankedScore}
use routewerk.Scoring.Registry.{Scorer, get_scorer}
use routewerk.Scoring.Standings.{scores_of}
use routewerk.Leaderboard.Types.{Competition, Registration, is_active, Problem, LeaderboardEntry}
use routewerk.Leaderboard.Board.{
  to_scorer_problem, index_attempts, index_registrations, score_all, to_entry, to_entries,
  aggregate_leaderboard,
}
use routewerk.Leaderboard.Grouping.{last_with, lookup-index_registrations}
use routewerk.Leaderboard.Entries.{
  IsScorer, AreScores, score_all-AreScores, AreScores-ids, AreScores-IsKnown, IsKnown,
}

-- The entry of a ranked score and a registration, field by field.
pub record IsEntryOf {F P U : Type 0} (to_float32 : F → P) (uuid_of : String → U)
    (rs : RankedScore F) (r : Registration) (e : LeaderboardEntry P U) : Type 0 where
  pub its_registration : r.id ≡ rs.score.registration_id
  pub rank_shown : e.rank ≡ rs.rank
  pub id_shown : e.registration_id ≡ uuid_of rs.score.registration_id
  pub name_shown : e.display_name ≡ r.display_name
  pub bib_shown : e.bib_number ≡ r.bib_number
  pub category_shown : e.category_id ≡ some (uuid_of r.category_id)
  pub points_shown : e.points ≡ to_float32 rs.score.points
  pub tops_shown : e.tops ≡ rs.score.tops
  pub zones_shown : e.zones ≡ rs.score.zones
  pub attempts_to_top_shown : e.attempts_to_top ≡ rs.score.attempts_to_top
  pub attempts_to_zone_shown : e.attempts_to_zone ≡ rs.score.attempts_to_zone

last_with-id :
    (id : String) (regs : List Registration) (r : Registration)
    → last_with id regs ≡ some r
    → r.id ≡ id
unfolding last_with
last_with-id id [] r e = absurd (ground (arith, e))
last_with-id id (x ∷ regs) r e = elim (Option-cases (last_with id regs)) [
  | inr (l, n) ↦ last_with-id id regs r (ground (arith, e, n))
  | inl n ↦ elim (Bool-cases (str_eq x.id id)) [
    | inr d ↦ absurd (ground (arith, e, n, d))
    | inl d ↦
        let q : x ≡ r = ground (arith, e, n, d) in
        subst (λ (y : Registration). y.id ≡ id) q (ground (arith, d, eq_iff x.id id))
  ]
]

module _ {F P U : Type 0} (to_float32 : F → P) (uuid_of : String → U) where
  -- Entry by entry: the ranked score, with the data of the registration that has its id.
  abbrev pub AreEntries :
      List Registration → List (RankedScore F) → List (LeaderboardEntry P U) → Type 0
  AreEntries regs [] [] = Unit {0}
  AreEntries regs [] (e ∷ es) = ⊥
  AreEntries regs (rs ∷ ranked) [] = ⊥
  AreEntries regs (rs ∷ ranked) (e ∷ es) =
      ((r : Registration) × (last_with rs.score.registration_id regs ≡ some r)
        × IsEntryOf to_float32 uuid_of rs r e)
      × AreEntries regs ranked es

  lookup-known :
      (regs : List Registration) (id : String) (r : Registration)
      → last_with id regs ≡ some r
      → lookup id (index_registrations regs []) ≡ some r
  lookup-known regs id r e = ground (arith, e, lookup-index_registrations id regs [])

  to_entry-IsEntryOf :
      (rs : RankedScore F) (r : Registration)
      → r.id ≡ rs.score.registration_id
      → IsEntryOf to_float32 uuid_of rs r (to_entry to_float32 uuid_of rs r)
  to_entry-IsEntryOf rs r q = record {
    its_registration = q;
    rank_shown = refl;
    id_shown = refl;
    name_shown = refl;
    bib_shown = refl;
    category_shown = refl;
    points_shown = refl;
    tops_shown = refl;
    zones_shown = refl;
    attempts_to_top_shown = refl;
    attempts_to_zone_shown = refl;
  }

  to_entries-AreEntries :
      (regs : List Registration) (ranked : List (RankedScore F))
      → All (IsKnown regs) (scores_of ranked)
      → AreEntries regs ranked (to_entries to_float32 uuid_of (index_registrations regs []) ranked)
  unfolding to_entries
  to_entries-AreEntries regs [] k = tt
  to_entries-AreEntries regs (rs ∷ ranked) k =
      rw (lookup-known regs rs.score.registration_id k.0.0 k.0.1, to_entries)
        (
          (
            k.0.0,
            k.0.1,
            to_entry-IsEntryOf rs k.0.0 (last_with-id rs.score.registration_id regs k.0.0 k.0.1),
          ),
          to_entries-AreEntries regs ranked k.1,
        )

  AreEntries-ids :
      (regs : List Registration) (ranked : List (RankedScore F))
      (entries : List (LeaderboardEntry P U))
      → AreEntries regs ranked entries
      → map (λ (e : LeaderboardEntry P U). e.registration_id) entries
        ≡ map (λ (s : ClimberScore F). uuid_of s.registration_id) (scores_of ranked)
  AreEntries-ids regs [] [] h = refl
  AreEntries-ids regs [] (e ∷ es) h = absurd h
  AreEntries-ids regs (rs ∷ ranked) [] h = absurd h
  AreEntries-ids regs (rs ∷ ranked) (e ∷ es) h =
      cc (h.0.2.id_shown, AreEntries-ids regs ranked es h.1)

all_known :
    (regs : List Registration)
    → All (λ (r : Registration). (x : Registration) × (last_with r.id regs ≡ some x)) regs
unfolding last_with
all_known [] = tt
all_known (r ∷ regs) = (
  elim (Option-cases (last_with r.id regs)) [
    | inl n ↦ (r, ground (arith, n, eq_iff r.id r.id))
    | inr (l, n) ↦ (l, ground (arith, n))
  ],
  All-imp _ _ (λ x k. (k.0, ground (arith, k.1))) regs (all_known regs),
)

-- A leaderboard: the scores of the active registrations, ranked by the scorer, shown in that order
-- with the data of their registrations, and every active registration exactly once.
pub record IsLeaderboard {F P U : Type 0} (to_float32 : F → P) (uuid_of : String → U)
    (scorer : Scorer F) (comp : Competition) (regs : List Registration)
    (problems : List (Problem F)) (attempts : List Row) (entries : List (LeaderboardEntry P U))
    : Type 0 where
  pub scores : List (ClimberScore F)
  pub scored : AreScores scorer attempts problems comp.scoring_config (keep is_active regs) scores
  pub shown : AreEntries to_float32 uuid_of regs (scorer.rank scores comp.scoring_config) entries
  pub everyone :
      Perm
        (map (λ (e : LeaderboardEntry P U). e.registration_id) entries)
        (map (λ (r : Registration). uuid_of r.id) (keep is_active regs))

-- Under a registered scorer that keeps its contract, what aggregateLeaderboard returns is a
-- leaderboard of the active registrations: each exactly once, by the score of its own attempts, in the
-- order of the scorer, and with entries that are, field by field, the ranked score and the
-- registration that has its id.
pub aggregate_leaderboard-IsLeaderboard :
    {F P U : Type 0} (to_float32 : F → P) (uuid_of : String → U)
    (registry : List (String × Scorer F)) (scorer : Scorer F) (comp : Competition)
    (regs : List Registration) (problems : List (Problem F)) (attempts : List Row)
    (entries : List (LeaderboardEntry P U))
    → get_scorer comp.scoring_rule registry ≡ some scorer
    → IsScorer scorer
    → aggregate_leaderboard to_float32 uuid_of registry comp regs problems attempts ≡ some entries
    → IsLeaderboard to_float32 uuid_of scorer comp regs problems attempts entries
unfolding aggregate_leaderboard
aggregate_leaderboard-IsLeaderboard {F = F} {P = P} {U = U} to_float32 uuid_of registry scorer comp
      regs problems attempts entries g l e =
    elim (Option-cases (
      score_all scorer (index_attempts attempts []) (map to_scorer_problem problems)
        comp.scoring_config regs)) [
          | inl n ↦ absurd (ground (arith, e, g, n))
          | inr (scores, n) ↦
              let q : to_entries to_float32 uuid_of (index_registrations regs [])
                    (scorer.rank scores comp.scoring_config)
                  ≡ entries =
                ground (arith, e, g, n) in
              subst (IsLeaderboard to_float32 uuid_of scorer comp regs problems attempts) q
                (of_scores scores n)
        ]
  where
    of_scores :
        (scores : List (ClimberScore F))
        → score_all scorer
            (index_attempts attempts [])
            (map to_scorer_problem problems)
            comp.scoring_config
            regs
          ≡ some scores
        → IsLeaderboard to_float32 uuid_of scorer comp regs problems attempts (
            to_entries to_float32 uuid_of
              (index_registrations regs [])
              (scorer.rank scores comp.scoring_config))
    of_scores scores n =
        let scored =
          score_all-AreScores scorer attempts problems comp.scoring_config regs scores n in
        let known =
          AreScores-IsKnown scorer attempts problems comp.scoring_config l regs
            (keep is_active regs) scores (All-keep _ is_active regs (all_known regs)) scored in
        let shown =
          to_entries-AreEntries to_float32 uuid_of regs (scorer.rank scores comp.scoring_config)
            (l.keeps_each (IsKnown regs) scores comp.scoring_config known) in
        record {
          scores = scores;
          scored = scored;
          shown = shown;
          everyone =
              subst
                (λ ids.
                  Perm
                    (map (λ (x : LeaderboardEntry P U). x.registration_id)
                      (to_entries to_float32 uuid_of (index_registrations regs [])
                        (scorer.rank scores comp.scoring_config)))
                    ids)
                (AreScores-ids scorer attempts problems comp.scoring_config l uuid_of
                  (keep is_active regs) scores scored)
                (subst
                  (λ ids. Perm ids (map (λ (s : ClimberScore F). uuid_of s.registration_id) scores))
                  (sym (AreEntries-ids to_float32 uuid_of regs _ _ shown))
                  (Perm.map (λ (s : ClimberScore F). uuid_of s.registration_id)
                    (l.keeps_climbers scores comp.scoring_config)));
        }
