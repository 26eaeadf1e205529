-- ===== src/Scoring/Registry.antt =====
-- The registry of scorers by name (internal/service/competition/scorer.go).
use routewerk.Prelude.{
  ℕ, ◌≡◌, refl, String, str_eq, Bool, true, false, ◌||◌, inl, inr, List, [], map, Option, none,
  some, arith, Bool-cases, Option-cases, if◌then◌else◌,
}
use routewerk.Prelude.Maps.{lookup, insert, lookup-insert}
use routewerk.Scoring.Types.{Attempt, Problem, ClimberScore, RankedScore}
use routewerk.Scoring.Float.{Float64}
use routewerk.Scoring.Points.{
  FixedConfig, DecayConfig, fixed_score, decay_score, rank_by_points_desc_attempts_asc,
}
use routewerk.Scoring.TopZone

-- `none` is an error.
pub record Scorer (F : Type 0) : Type 0 where
  pub name : String
  pub score : String → List Attempt → List (Problem F) → List ℕ → Option (ClimberScore F)
  pub rank : List (ClimberScore F) → List ℕ → List (RankedScore F)

-- Register; `none` is a panic.
unfoldable pub register :
    {F : Type 0} → Scorer F → List (String × Scorer F) → Option (List (String × Scorer F))
register s registry =
    if str_eq s.name ""
    then none
    else elim (lookup s.name registry) [ some dup ↦ none | none ↦ some (insert s.name s registry) ]

-- Get
abbrev pub get_scorer : {F : Type 0} → String → List (String × Scorer F) → Option (Scorer F)
get_scorer name registry = lookup name registry

abbrev pub names : {F : Type 0} → List (String × Scorer F) → List String
names registry = map (λ x. x.0) registry

module _ (fl : Float64) (unmarshal_fixed : List ℕ → Option (FixedConfig fl.F))
    (unmarshal_decay : List ℕ → Option (DecayConfig fl.F)) where
  open fl use {F, zero}

  abbrev pub top_zone : Scorer F
  top_zone = record {
    name = "top_zone";
    score = λ id attempts problems raw. some (TopZone.score zero id attempts problems);
    rank = λ scores raw. TopZone.rank scores;
  }

  abbrev pub fixed : Scorer F
  fixed = record {
    name = "fixed";
    score = fixed_score fl unmarshal_fixed;
    rank = λ scores raw. rank_by_points_desc_attempts_asc fl scores;
  }

  abbrev pub decay : Scorer F
  decay = record {
    name = "decay";
    score = decay_score fl unmarshal_decay;
    rank = λ scores raw. rank_by_points_desc_attempts_asc fl scores;
  }

  -- The three init functions, in the order of their files.
  unfoldable pub registered : Option (List (String × Scorer F))
  registered = elim (register decay []) [
    | none ↦ none
    | some r ↦ elim (register fixed r) [ none ↦ none | some r' ↦ register top_zone r' ]
  ]

  -- The three scorers register without a panic, and Get finds each of them by its name and no other.
  pub registered_lem :
      (registry : List (String × Scorer F)) × (registered ≡ some registry)
      × ((name : String)
          → get_scorer name registry ≡ (
              if str_eq "decay" name
              then some decay
              else if str_eq "fixed" name
              then some fixed
              else if str_eq "top_zone" name
              then some top_zone
              else none))
  unfolding registered register lookup insert
  registered_lem = (_, refl, λ name. refl)

-- A name that Register refuses: an empty one, or one that is registered.
abbrev pub is_refused : {F : Type 0} → String → List (String × Scorer F) → Bool
is_refused name registry =
    str_eq name "" || elim (lookup name registry) [ none ↦ false | some s ↦ true ]

-- What a call of Register comes to, at every name.
abbrev pub Registers :
    {F : Type 0}
    → Scorer F
    → List (String × Scorer F)
    → Option (List (String × Scorer F))
    → String
    → Type 0
Registers s registry none name = is_refused s.name registry ≡ true
Registers s registry (some registry') name =
    (is_refused s.name registry ≡ false)
    × (get_scorer name registry'
        ≡ (if str_eq s.name name then some s else get_scorer name registry))

-- Register panics exactly for an empty or a used name; otherwise Get finds the scorer under its name,
-- and under every other name what it found before.
pub register-get_scorer :
    {F : Type 0} (s : Scorer F) (registry : List (String × Scorer F)) (name : String)
    → Registers s registry (register s registry) name
unfolding register
register-get_scorer s registry name = elim (Bool-cases (str_eq s.name "")) [
  | inl e ↦ rw (e, register) (ground (arith, e))
  | inr e ↦ elim (Option-cases (lookup s.name registry)) [
    | inr (d, f) ↦ rw (e, f, register) (ground (arith, f))
    | inl f ↦ rw (e, f, register) (ground (arith, e, f), lookup-insert s.name name s registry)
  ]
]
