-- ===== src/Leaderboard/FromTables.antt =====
-- The board of GetLeaderboard (internal/handler/comp_leaderboard.go), from the tables to the ranks.
use routewerk.Prelude.{
  ℕ, ◌<◌, ◌≡◌, refl, sym, ◌∙◌, String, true, List, [], ◌∷◌, map, Option, some, inl, inr, arith, All,
  All-imp, length, Bool-cases, Option-cases,
}
use routewerk.Prelude.Maps.{lookup}
use routewerk.Attempts.Types.{Attempt as Row}
use routewerk.Attempts.Sound.{IsSoundState}
use routewerk.Scoring.Types.{Problem as ScorerProblem}
use routewerk.Scoring.Points.{FixedConfig, DecayConfig}
use routewerk.Scoring.Registry.{Scorer, registered, get_scorer}
use routewerk.Leaderboard.Types.{
  Competition, Registration, is_active, Problem, LeaderboardEntry, Tables,
}
use routewerk.Leaderboard.Queries.{
  list_events, list_problems_for_events, list_registrations, list_attempts,
}
use routewerk.Leaderboard.Board.{
  to_scorer_problem, or_empty, index_attempts, score_all, aggregate_leaderboard,
}
use routewerk.Leaderboard.Grouping.{own_attempts, or_empty-index_attempts}
use routewerk.Leaderboard.Endpoint.{Setting, entries_of, entries_of_reads}
use routewerk.Leaderboard.Ranking.{IsTopZoneBoard, aggregate_leaderboard-IsTopZoneBoard}
use routewerk.Leaderboard.Visible.{IsKeyed, own_attempts-list_attempts, list_registrations-found}

-- Two lists of rows give every active registration the same attempts.
abbrev AgreeOn : List Row → List Row → List Registration → Type 0
AgreeOn xs ys regs =
    All (λ (r : Registration). is_active r ≡ true → own_attempts r.id xs ≡ own_attempts r.id ys)
      regs

module _ {F : Type 0} (xs ys : List Row) where
  score_all-same :
      (scorer : Scorer F) (problems : List (ScorerProblem F)) (config : List ℕ)
      (regs : List Registration)
      → AgreeOn xs ys regs
      → score_all scorer (index_attempts xs []) problems config regs
        ≡ score_all scorer (index_attempts ys []) problems config regs
  unfolding score_all
  score_all-same scorer problems config [] h = refl
  score_all-same scorer problems config (r ∷ regs) h = elim (Bool-cases (is_active r)) [
    | inl a ↦
        let own : or_empty (lookup r.id (index_attempts xs []))
            ≡ or_empty (lookup r.id (index_attempts ys [])) =
          or_empty-index_attempts r.id xs ∙ h.0 a ∙ sym (or_empty-index_attempts r.id ys) in
        ground (arith, a, own, score_all-same scorer problems config regs h.1)
    | inr a ↦ ground (arith, a, score_all-same scorer problems config regs h.1)
  ]

  aggregate_leaderboard-same :
      {P U : Type 0} (to_float32 : F → P) (uuid_of : String → U)
      (registry : List (String × Scorer F)) (comp : Competition) (regs : List Registration)
      (problems : List (Problem F))
      → AgreeOn xs ys regs
      → aggregate_leaderboard to_float32 uuid_of registry comp regs problems xs
        ≡ aggregate_leaderboard to_float32 uuid_of registry comp regs problems ys
  unfolding aggregate_leaderboard
  aggregate_leaderboard-same to_float32 uuid_of registry comp regs problems h =
      elim (Option-cases (get_scorer comp.scoring_rule registry)) [
        | inl n ↦ rw (n, aggregate_leaderboard) refl
        | inr (scorer, n) ↦
            rw
              (
                n,
                score_all-same scorer (map to_scorer_problem problems) comp.scoring_config regs h,
                aggregate_leaderboard,
              )
              refl
      ]

module _ (s : Setting) (c k : String) (t : Tables s.fl.F) where
  abbrev pub listed_registrations : List Registration
  listed_registrations = list_registrations c k t.registrations

  abbrev pub listed_problems : List (Problem s.fl.F)
  listed_problems =
      list_problems_for_events s.precedes (map (λ e. e.id) (list_events c t.events)) t.problems

module _ (s : Setting) (comp : Competition) (c k : String) (t : Tables s.fl.F)
    (keyed : IsKeyed t.registrations) where
  -- The join of the attempts with the registrations hides nothing: the entries are those over the
  -- whole table of attempts.
  pub entries_of-aggregate_leaderboard :
      entries_of s comp c k t
      ≡ aggregate_leaderboard s.to_float32 s.uuid_of s.registry comp
          (listed_registrations s c k t)
          (listed_problems s c k t)
          t.attempts
  unfolding entries_of entries_of_reads
  entries_of-aggregate_leaderboard =
      aggregate_leaderboard-same (list_attempts c k t.registrations t.attempts) t.attempts
        s.to_float32 s.uuid_of s.registry comp (listed_registrations s c k t)
        (listed_problems s c k t)
        (All-imp _ _
          (λ r h a.
            own_attempts-list_attempts c k t.registrations r r.id t.attempts keyed h.1 h.0 a)
          (listed_registrations s c k t) (list_registrations-found c k t.registrations keyed))

  -- Under top_zone, over keyed registrations and fewer than 2^32 attempts with sound states, the
  -- entries exist, and are a ranking of the active registrations by all their attempts.
  pub entries_of-IsTopZoneBoard :
      (unmarshal_fixed : List ℕ → Option (FixedConfig s.fl.F))
      (unmarshal_decay : List ℕ → Option (DecayConfig s.fl.F))
      → registered s.fl unmarshal_fixed unmarshal_decay ≡ some s.registry
      → comp.scoring_rule ≡ "top_zone"
      → All (λ (r : Row). IsSoundState r.state) t.attempts
      → length t.attempts < 4_294_967_296
      → (entries : List (LeaderboardEntry s.P s.U)) × (entries_of s comp c k t ≡ some entries)
        × IsTopZoneBoard s.fl unmarshal_fixed unmarshal_decay s.to_float32 s.uuid_of comp
            (listed_registrations s c k t)
            (listed_problems s c k t)
            t.attempts
            entries
  entries_of-IsTopZoneBoard uf ud g rule sound few =
      let (entries, e, board) =
        aggregate_leaderboard-IsTopZoneBoard s.fl uf ud s.to_float32 s.uuid_of s.registry comp
          (listed_registrations s c k t) (listed_problems s c k t) t.attempts g rule sound few in
      (entries, entries_of-aggregate_leaderboard ∙ e, board)
