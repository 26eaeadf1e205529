-- ===== src/Attempts/Sound.antt =====
-- The invariant of the attempt tables under climber actions (computeNewState and applyOne of
-- internal/handler/comp_action.go): a top implies the zone, and the zone's attempts are among the
-- attempts.
use routewerk.Prelude.{
  ℕ, ◌+◌, ◌≤◌, ◌<◌, ◌≡◌, sym, inl, inr, String, str_eq, eq_iff, Bool, true, false, ◌&&◌, List, [],
  ◌∷◌, Option, none, some, arith, All, Bool-cases, Option-cases,
}
use mathlib.Core.Path.{subst}
use routewerk.Prelude.Int.{ℤ, pos, negsuc, pos_part, neg_part, add64, add64-pos}
use routewerk.Attempts.Types.{
  AttemptState, zero_state, Snapshot, absent, holds, malformed, Attempt, AttemptLog, Db,
  ApplyActionInput,
}
use routewerk.Attempts.Store.{get, latest_of, is_later, latest_log_for_attempt, fits_columns}
use routewerk.Attempts.Transaction.{Changes}
use routewerk.Attempts.Action.{
  ActionType, increment, zone, top, undo, reset, other, ActionItem, Conditions, Step, done, next,
  errored, is_undo, compute_new_state, current_state, restore_latest, new_state, apply_one,
}
use routewerk.Attempts.Apply.{row_of, state_in, apply_one-cases, input_to}

-- The zone flag and the attempts that it took.
abbrev pub ZoneAgrees : Option ℤ → Bool → ℤ → Type 0
ZoneAgrees none reached attempts = reached ≡ false
ZoneAgrees (some z) reached attempts =
    (reached ≡ true) × (neg_part z ≡ 0) × (1 ≤ pos_part z) × (pos_part z ≤ pos_part attempts)

pub record IsSoundState (s : AttemptState) : Type 0 where
  pub not_negative : neg_part s.attempts ≡ 0
  pub small : pos_part s.attempts < 2_147_483_648
  pub zone_agrees : ZoneAgrees s.zone_attempts s.zone_reached s.attempts
  pub top_zone : s.top_reached ≡ true → s.zone_reached ≡ true

zero_state-IsSoundState : IsSoundState zero_state
zero_state-IsSoundState = ground arith

add64-one :
    (n : ℤ) → neg_part n ≡ 0 → pos_part n < 2_147_483_648 → add64 n (pos 1) ≡ pos (pos_part n + 1)
add64-one (pos n) h k = add64-pos n 1 (omega arith)
add64-one (negsuc n) h k = absurd (omega arith)

-- An action other than undo takes a sound state to a sound state, if the columns can hold it.
pub compute_new_state-IsSoundState :
    (s t : AttemptState) (a : ActionType)
    → IsSoundState s
    → compute_new_state s a ≡ some t
    → fits_columns t ≡ true
    → IsSoundState t
unfolding compute_new_state
compute_new_state-IsSoundState s t increment h e f =
    ground (arith, add64-one s.attempts h.not_negative h.small)
compute_new_state-IsSoundState s t zone h e f = ground arith
compute_new_state-IsSoundState s t top h e f = ground arith
compute_new_state-IsSoundState s t reset h e f = ground arith
compute_new_state-IsSoundState s t undo h e f = cc
compute_new_state-IsSoundState s t (other x) h e f = cc

abbrev pub SoundSnapshot : Snapshot → Type 0
SoundSnapshot absent = Unit {0}
SoundSnapshot (holds s) = IsSoundState s
SoundSnapshot malformed = Unit {0}

-- Every state that a climber's pair is in and every logged state is sound.
pub record IsSoundDb (db : Db) : Type 0 where
  pub states : (r p : String) → IsSoundState (state_in r p db)
  pub entries : All (λ (l : AttemptLog). SoundSnapshot l.before × SoundSnapshot l.after) db.log

latest_of-SoundSnapshot :
    (id : String) (log : List AttemptLog) {l : AttemptLog}
    → All (λ (m : AttemptLog). SoundSnapshot m.before × SoundSnapshot m.after) log
    → latest_of id log ≡ some l
    → SoundSnapshot l.before
unfolding latest_of
latest_of-SoundSnapshot id [] h e = cc
latest_of-SoundSnapshot id (m ∷ log) {l = l} h e = elim (Bool-cases (str_eq m.attempt_id id)) [
  | inl k ↦ elim (Option-cases (latest_of id log)) [
    | inl n ↦
        let q : m ≡ l = ground (arith, e, k, n) in
        subst (λ (y : AttemptLog). SoundSnapshot y.before) q h.0.0
    | inr (x, n) ↦ elim (Bool-cases (is_later x m)) [
      | inl t ↦ latest_of-SoundSnapshot id log {l = l} h.1 (ground (arith, e, k, n, t))
      | inr t ↦
          let q : m ≡ l = ground (arith, e, k, n, t) in
          subst (λ (y : AttemptLog). SoundSnapshot y.before) q h.0.0
    ]
  ]
  | inr k ↦ latest_of-SoundSnapshot id log {l = l} h.1 (ground (arith, e, k))
]

-- The state that a snapshot restores to, if it does.
abbrev restored : Snapshot → Step
restored absent = next zero_state
restored (holds s) = next s
restored malformed = done errored

restored-IsSoundState :
    (b : Snapshot) (t : AttemptState) → SoundSnapshot b → restored b ≡ next t → IsSoundState t
restored-IsSoundState absent t h e =
    let q : zero_state ≡ t = ground arith in subst IsSoundState q zero_state-IsSoundState
restored-IsSoundState (holds s) t h e = let q : s ≡ t = ground arith in subst IsSoundState q h
restored-IsSoundState malformed t h e = cc

restore_latest-IsSoundState :
    (c : Conditions) (a : ActionItem) (row : Attempt) (db : Db) (t : AttemptState)
    → IsSoundDb db
    → restore_latest c a row db ≡ next t
    → IsSoundState t
unfolding restore_latest latest_log_for_attempt
restore_latest-IsSoundState c a row db t h e = elim (Option-cases (latest_of row.id db.log)) [
  | inl n ↦ absurd (ground (arith, e, n))
  | inr (l, n) ↦
      restored-IsSoundState l.before t (latest_of-SoundSnapshot row.id db.log {l = l} h.entries n)
        (ground (arith, e, n))
]

new_state-IsSoundState :
    (c : Conditions) (a : ActionItem) (row : Option Attempt) (db : Db) (t : AttemptState)
    → IsSoundDb db
    → IsSoundState (current_state row)
    → new_state c a row db ≡ next t
    → fits_columns t ≡ true
    → IsSoundState t
unfolding new_state
new_state-IsSoundState c a row db t h s e f = elim (Bool-cases (is_undo a.type)) [
  | inl u ↦ elim (Option-cases row) [
    | inl n ↦ absurd (ground (arith, e, u, n))
    | inr (r, n) ↦ restore_latest-IsSoundState c a r db t h (ground (arith, e, u, n))
  ]
  | inr u ↦ elim (Option-cases (compute_new_state (current_state row) a.type)) [
    | inl n ↦ absurd (ground (arith, e, u, n))
    | inr (x, n) ↦
        compute_new_state-IsSoundState (current_state row) t a.type s (ground (arith, e, u, n)) f
  ]
]

-- What a fresh application has written is sound.
module _ (i : ApplyActionInput) (now : ℕ) (db db' : Db) (ch : Changes i now db db') where
  Changes-states :
      ((r p : String) → IsSoundState (state_in r p db))
      → IsSoundState i.new_state
      → (r p : String) → IsSoundState (state_in r p db')
  Changes-states h s r p = elim (Bool-cases (str_eq i.registration_id r && str_eq i.problem_id p)) [
    | inl k ↦
        let e : i.registration_id ≡ r = ground (arith, k, eq_iff i.registration_id r) in
        let d : i.problem_id ≡ p = ground (arith, k, eq_iff i.problem_id p) in
        rw (sym e, sym d, ch.written, ch.new_state_kept) s
    | inr k ↦ rw (ch.untouched r p k) (h r p)
  ]

  Changes-IsSoundDb :
      IsSoundDb db
      → SoundSnapshot i.before_json
      → SoundSnapshot i.after_json
      → IsSoundState i.new_state
      → IsSoundDb db'
  Changes-IsSoundDb h b a s = record {
    states = Changes-states h.states s;
    entries = rw (ch.logged, ch.before_kept, ch.after_kept) ((b, a), h.entries);
  }

-- Whatever fails around it, an action leaves sound tables sound: in every attempt and in every
-- logged snapshot the count is not negative and fits int4, a top implies the zone, the zone is
-- reached exactly when its attempt is recorded, and that attempt is one of those counted.
pub apply_one-IsSoundDb :
    (c : Conditions) (registration_id actor problem_id : String) (action : ActionItem) (db : Db)
    → IsSoundDb db
    → IsSoundDb (apply_one c registration_id actor problem_id action db).0
apply_one-IsSoundDb c registration_id actor problem_id action db h =
    elim (apply_one-cases c registration_id actor problem_id action db) [
      | inl (same, n) ↦ subst IsSoundDb (sym same) h
      | inr w ↦
          let row : Option Attempt = row_of (get registration_id problem_id db) in
          let s : IsSoundState (current_state row) = h.states registration_id problem_id in
          let t : IsSoundState w.target =
            new_state-IsSoundState c action row db w.target h s w.from_row w.write.state_fits in
          let i : ApplyActionInput =
            input_to c registration_id actor problem_id action db row w.target in
          subst IsSoundDb (sym w.tables) (Changes-IsSoundDb i c.now db _ w.write.changes h s t t)
    ]
