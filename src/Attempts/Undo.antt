-- ===== src/Attempts/Undo.antt =====
-- Undo (applyOne of internal/handler/comp_action.go over the attempt log): what it restores.
use routewerk.Prelude.{
  refl, ap, List, [], ◌∷◌, ℕ, ◌≤◌, ◌≡◌, sym, ◌∙◌, inl, inr, String, true, false, arith,
}
use mathlib.Core.Path.{subst}
use routewerk.Prelude.Lists.{All-imp}
use routewerk.Attempts.Types.{AttemptState, holds, Attempt, AttemptLog, Db, ok, ApplyActionInput}
use routewerk.Attempts.Store.{get, latest_log_for_attempt, key_taken, fits_columns}
use routewerk.Attempts.Rows.{IsClocked, latest_of-new}
use routewerk.Attempts.Transaction.{Changes}
use routewerk.Attempts.Action.{
  ActionItem, undo, Outcome, Conditions, next, new_state, restore_latest, apply_one,
}
use routewerk.Attempts.Apply.{
  state_in, row_of, is_fresh, IsClean, IsFreshApplication, input_to, apply_one-cases,
  apply_one-clean,
}

-- The latest entry of the attempt that was just written is the one just logged.
pub latest-Changes :
    (now : ℕ) (db db' : Db) (i : ApplyActionInput) (h : Changes i now db db')
    → IsClocked now db
    → latest_log_for_attempt h.row.id db' ≡ ok h.entry
unfolding latest_log_for_attempt
latest-Changes now db db' i h k =
    ground (arith, h.logged, h.of_row, latest_of-new now db h.entry k h.at_now h.next_id)

pub IsClocked-Changes :
    (now later : ℕ) (db db' : Db) (i : ApplyActionInput)
    → Changes i now db db'
    → IsClocked now db
    → now ≤ later
    → IsClocked later db'
IsClocked-Changes now later db db' i h k le =
    rw (h.logged, h.advanced)
      (
        (omega (arith, h.at_now), omega (arith, h.next_id)),
        All-imp _ _ (λ l b. (omega (arith, b), omega (arith, b))) db.log k,
      )

pub undo-new_state :
    (c : Conditions) (u : ActionItem) (registration_id problem_id : String) (db : Db)
    (row : Attempt) (entry : AttemptLog) (s : AttemptState)
    → u.type ≡ undo
    → c.latest_fails ≡ false
    → get registration_id problem_id db ≡ ok row
    → latest_log_for_attempt row.id db ≡ ok entry
    → entry.before ≡ holds s
    → new_state c u (row_of (get registration_id problem_id db)) db ≡ next s
unfolding new_state restore_latest
undo-new_state c u registration_id problem_id db row entry s t l g n b = ground arith

-- A fresh application, seen at the tables that it leads to.
pub changes_of :
    (c : Conditions) (registration_id actor problem_id : String) (a : ActionItem) (db : Db)
    → let result = apply_one c registration_id actor problem_id a db in
      (f : IsFreshApplication c registration_id actor problem_id a db
        (row_of (get registration_id problem_id db))
        result)
      → Changes
          (input_to c registration_id actor problem_id a db
            (row_of (get registration_id problem_id db))
            f.target)
          c.now
          db
          result.0
changes_of c registration_id actor problem_id a db f =
    subst (Changes _ c.now db) (sym f.tables) f.write.changes

pub state_in-Changes :
    (now : ℕ) (db db' : Db) (i : ApplyActionInput)
    → Changes i now db db'
    → state_in i.registration_id i.problem_id db' ≡ i.new_state
state_in-Changes now db db' i h = ground (arith, h.written, h.new_state_kept)

-- A fresh application of `a`, and then an undo of it.
module _ (c c' : Conditions) (registration_id actor actor' problem_id : String) (a u : ActionItem)
    (db : Db) where
  abbrev pub first : Db × Outcome
  first = apply_one c registration_id actor problem_id a db

  abbrev pub second : Db × Outcome
  second = apply_one c' registration_id actor' problem_id u first.0

  abbrev IsFreshFirst : Type 0
  IsFreshFirst =
      IsFreshApplication c registration_id actor problem_id a db
        (row_of (get registration_id problem_id db)) first

  undo_step :
      (f : IsFreshFirst)
      → IsClocked c.now db
      → u.type ≡ undo
      → c'.latest_fails ≡ false
      → new_state c' u (row_of (get registration_id problem_id first.0)) first.0
        ≡ next (state_in registration_id problem_id db)
  undo_step f k t l =
      let h = changes_of c registration_id actor problem_id a db f in
      undo-new_state c' u registration_id problem_id first.0 h.row h.entry _ t l h.written
        (latest-Changes c.now db first.0 _ h k) h.before_kept

  fresh_application : is_fresh first.1 ≡ true → IsFreshFirst
  fresh_application e = elim (apply_one-cases c registration_id actor problem_id a db) [
    | inl (t, n) ↦ cc
    | inr f ↦ f
  ]

  -- An undo right after an action that was applied afresh is itself applied, and takes the problem
  -- back to the state before that action, provided that the log's times and ids lie behind the
  -- action's, no query of the undo fails, its key is new and the old state fits the columns.
  pub undo-restores :
      IsClocked c.now db
      → is_fresh first.1 ≡ true
      → u.type ≡ undo
      → IsClean c'
      → key_taken u.idempotency_key first.0.log ≡ false
      → fits_columns (state_in registration_id problem_id db) ≡ true
      → (is_fresh second.1 ≡ true)
        × (state_in registration_id problem_id second.0 ≡ state_in registration_id problem_id db)
  undo-restores k e t clean free fits =
      let n = undo_step (fresh_application e) k t clean.latest_works in
      let g = apply_one-clean c' registration_id actor' problem_id u first.0 _ n clean fits free in
      let h = changes_of c' registration_id actor' problem_id u first.0 g in
      (g.fresh, state_in-Changes c'.now first.0 second.0 _ h ∙ cc (g.from_row, n))

-- A run of undos of one climber on one problem, each with what surrounds it.
unfoldable pub undo_all : String → String → String → List (Conditions × ActionItem) → Db → Db
undo_all registration_id actor problem_id [] db = db
undo_all registration_id actor problem_id ((c, u) ∷ us) db =
    undo_all registration_id actor problem_id us
      (apply_one c registration_id actor problem_id u db).0

-- The undos come in order of time from `now`, with new keys, and no statement of theirs fails.
abbrev pub AreUndos : String → String → String → ℕ → List (Conditions × ActionItem) → Db → Type 0
AreUndos registration_id actor problem_id now [] db = Unit {0}
AreUndos registration_id actor problem_id now ((c, u) ∷ us) db =
    (now ≤ c.now)
    × (u.type ≡ undo)
    × IsClean c
    × (key_taken u.idempotency_key db.log ≡ false)
    × AreUndos registration_id actor problem_id c.now us
        (apply_one c registration_id actor problem_id u db).0

-- One of two states, which change places at each element of a list.
abbrev pub alternate {ℓ κ} : {A : Type ℓ} {B : Type κ} → List A → B → B → B
alternate [] last other = last
alternate (x ∷ xs) last other = alternate xs other last

module _ (registration_id actor problem_id : String) where
  -- However many undos follow an action that was applied afresh, the problem is in the state after the
  -- action if their number is even and in the state before it if it is odd: an undo never goes a step
  -- further back. The log must lie behind the action, the undos must come in order of time, with new
  -- keys and no failure, and both states must fit the columns.
  pub undo_all-alternate :
      (c : Conditions) (a : ActionItem) (us : List (Conditions × ActionItem)) (db : Db)
      → let result = apply_one c registration_id actor problem_id a db in
        IsClocked c.now db
        → is_fresh result.1 ≡ true
        → AreUndos registration_id actor problem_id c.now us result.0
        → fits_columns (state_in registration_id problem_id db) ≡ true
        → fits_columns (state_in registration_id problem_id result.0) ≡ true
        → state_in registration_id problem_id
            (undo_all registration_id actor problem_id us result.0)
          ≡ alternate us
              (state_in registration_id problem_id result.0)
              (state_in registration_id problem_id db)
  unfolding undo_all
  undo_all-alternate c a [] db k e undos fits fits' = refl
  undo_all-alternate c a ((c', u) ∷ us) db k e (le, t, clean, free, undos) fits fits' =
      let db1 : Db = (apply_one c registration_id actor problem_id a db).0 in
      let h =
        changes_of c registration_id actor problem_id a db
          (fresh_application c c' registration_id actor actor problem_id a u db e) in
      let (fresh, back) =
        undo-restores c c' registration_id actor actor problem_id a u db k e t clean free fits in
      undo_all-alternate c' u us db1 (IsClocked-Changes c.now c'.now db db1 _ h k le) fresh undos
        fits' (ap (λ s. fits_columns s) back ∙ fits)
      ∙ ap (λ s. alternate us s (state_in registration_id problem_id db1)) back
