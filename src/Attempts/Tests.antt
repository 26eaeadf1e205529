-- ===== src/Attempts/Tests.antt =====
-- The theorems on climber actions at concrete tables and requests.
use routewerk.Prelude.{
  ℕ, ◌≡◌, refl, ◌⊎◌, String, true, false, List, [], ◌∷◌, none, some, arith, All, map, length,
}
use routewerk.Prelude.Int.{pos, add64}
use routewerk.Prelude.Maps.{lookup}
use routewerk.Attempts.Types.{AttemptState, zero_state, Db, holds, Faults, ApplyActionInput}
use routewerk.Attempts.Store.{
  get, find_attempt, find_key, get_log_by_idempotency_key, latest_of, latest_log_for_attempt,
  upsert, key_taken, apply_action, fits_columns,
}
use routewerk.Attempts.Transaction.{IsApplied, IsRolledBack, apply_action-atomic}
use routewerk.Attempts.Action.{
  ActionItem, ActionType, increment, top, undo, Outcome, ActionApplied, Conditions,
  compute_new_state, restore_latest, new_state, replay_if_cached, answer, apply_to, apply_one,
}
use routewerk.Attempts.Submit.{
  Batch, Event, Problem, start, touch, apply_fresh, submit_one, submit_loop, live, found, Request,
  submit_actions,
}
use routewerk.Attempts.Apply.{
  row_of, state_in, is_fresh, IsClean, IsFreshApplication, IsUnchanged, apply_one-cases,
}
use routewerk.Attempts.Undo.{first, second, undo-restores, undo_all, undo_all-alternate}
use routewerk.Attempts.Idempotent.{submit_loop-resend}
use routewerk.Attempts.Sound.{
  IsSoundState, IsSoundDb, compute_new_state-IsSoundState, apply_one-IsSoundDb,
}
use routewerk.Attempts.Request.{
  IsRefused, IsAccepted, submit_actions-cases, submit_actions-IsSoundDb,
}

abbrev empty : Db
empty = record { attempts = []; log = []; next_log_id = 1 }

empty-IsSoundDb : IsSoundDb empty
unfolding get find_attempt
empty-IsSoundDb = record { states = λ r p. ground arith; entries = tt }

abbrev no_faults : Faults
no_faults = record {
  begin_fails = false;
  upsert_fails = false;
  append_fails = false;
  commit_fails = false;
}

-- No failure, at a time.
abbrev at_time : ℕ → Conditions
at_time now = record {
  replay_fails = false;
  get_fails = false;
  latest_fails = false;
  tx = no_faults;
  reread_fails = false;
  fresh_id = "row";
  now = now;
}

abbrev action : String → ActionType → ActionItem
action key type = record { idempotency_key = some key; problem_id = "p1"; type = type }

abbrev top_input : ApplyActionInput
top_input = record {
  registration_id = "anna";
  problem_id = "p1";
  new_state = record zero_state { attempts = pos 1 };
  action = "increment";
  actor_user_id = some "user";
  idempotency_key = some "k1";
  before_json = holds zero_state;
  after_json = holds (record zero_state { attempts = pos 1 });
}

apply_action-atomic_example :
    IsRolledBack empty (apply_action no_faults "row" 5 top_input empty)
    ⊎ IsApplied top_input 5 empty (apply_action no_faults "row" 5 top_input empty)
apply_action-atomic_example = apply_action-atomic no_faults "row" 5 top_input empty

apply_one-cases_example :
    IsUnchanged
      (at_time 5)
      "anna"
      "user"
      "p1"
      (action "k1" top)
      empty
      (apply_one (at_time 5) "anna" "user" "p1" (action "k1" top) empty)
    ⊎ IsFreshApplication
        (at_time 5)
        "anna"
        "user"
        "p1"
        (action "k1" top)
        empty
        (row_of (get "anna" "p1" empty))
        (apply_one (at_time 5) "anna" "user" "p1" (action "k1" top) empty)
apply_one-cases_example = apply_one-cases (at_time 5) "anna" "user" "p1" (action "k1" top) empty

apply_one-IsSoundDb_example :
    IsSoundDb (apply_one (at_time 5) "anna" "user" "p1" (action "k1" top) empty).0
apply_one-IsSoundDb_example =
    apply_one-IsSoundDb (at_time 5) "anna" "user" "p1" (action "k1" top) empty empty-IsSoundDb

-- One attempt, which flashes the problem.
abbrev one_attempt : AttemptState
one_attempt = record zero_state { attempts = pos 1 }

abbrev flashed : AttemptState
flashed = record {
  attempts = pos 1;
  zone_attempts = some (pos 1);
  zone_reached = true;
  top_reached = true;
  notes = none;
}

one_attempt-IsSoundState : IsSoundState one_attempt
one_attempt-IsSoundState = ground arith

top_flashes : compute_new_state one_attempt top ≡ some flashed
unfolding compute_new_state
top_flashes = refl

compute_new_state-IsSoundState_example : IsSoundState flashed
compute_new_state-IsSoundState_example =
    compute_new_state-IsSoundState one_attempt flashed top one_attempt-IsSoundState top_flashes refl

clean : (now : ℕ) → IsClean (at_time now)
clean now = record {
  get_works = refl;
  latest_works = refl;
  begin_works = refl;
  upsert_works = refl;
  append_works = refl;
  commit_works = refl;
}

abbrev after_increment : Db
after_increment =
    (first (at_time 5) (at_time 6) "anna" "user" "user" "p1" (action "k1" increment)
      (action "k2" undo) empty).0

first_fresh :
    is_fresh
      (first
        (at_time 5)
        (at_time 6)
        "anna"
        "user"
        "user"
        "p1"
        (action "k1" increment)
        (action "k2" undo)
        empty).1
    ≡ true
unfolding get find_attempt find_key upsert key_taken apply_action compute_new_state new_state answer
    apply_to apply_one add64 restore_latest latest_log_for_attempt latest_of
first_fresh = refl

key_new : key_taken (some "k2") after_increment.log ≡ false
unfolding get find_attempt find_key upsert key_taken apply_action compute_new_state new_state answer
    apply_to apply_one add64 restore_latest latest_log_for_attempt latest_of
key_new = refl

start_fits : fits_columns (state_in "anna" "p1" empty) ≡ true
unfolding get find_attempt
start_fits = refl

undo-restores_example :
    (is_fresh
        (second
          (at_time 5)
          (at_time 6)
          "anna"
          "user"
          "user"
          "p1"
          (action "k1" increment)
          (action "k2" undo)
          empty).1
      ≡ true)
    × (state_in "anna" "p1"
          (second
            (at_time 5)
            (at_time 6)
            "anna"
            "user"
            "user"
            "p1"
            (action "k1" increment)
            (action "k2" undo)
            empty).0
        ≡ state_in "anna" "p1" empty)
undo-restores_example =
    undo-restores (at_time 5) (at_time 6) "anna" "user" "user" "p1" (action "k1" increment)
      (action "k2" undo) empty tt first_fresh refl (clean 6) key_new start_fits

abbrev after_undo : Db × Outcome
after_undo =
    second (at_time 5) (at_time 6) "anna" "user" "user" "p1" (action "k1" increment)
      (action "k2" undo) empty

second_fresh : is_fresh after_undo.1 ≡ true
unfolding get find_attempt find_key upsert key_taken apply_action compute_new_state new_state answer
    apply_to apply_one add64 restore_latest latest_log_for_attempt latest_of
second_fresh = refl

third_key_new : key_taken (some "k3") after_undo.0.log ≡ false
unfolding get find_attempt find_key upsert key_taken apply_action compute_new_state new_state answer
    apply_to apply_one add64 restore_latest latest_log_for_attempt latest_of
third_key_new = refl

increment_fits : fits_columns (state_in "anna" "p1" after_increment) ≡ true
unfolding get find_attempt find_key upsert key_taken apply_action compute_new_state new_state answer
    apply_to apply_one add64 restore_latest latest_log_for_attempt latest_of
increment_fits = refl

abbrev two_undos : List (Conditions × ActionItem)
two_undos = (at_time 6, action "k2" undo) ∷ (at_time 7, action "k3" undo) ∷ []

undo_all-alternate_example :
    state_in "anna" "p1" (undo_all "anna" "user" "p1" two_undos after_increment)
    ≡ state_in "anna" "p1" after_increment
undo_all-alternate_example =
    undo_all-alternate "anna" "user" "p1" (at_time 5) (action "k1" increment) two_undos empty tt
      first_fresh
      (omega arith, refl, clean 6, key_new, (omega arith, refl, clean 7, third_key_new, tt))
      start_fits increment_fits

abbrev league_night : Event
league_night = record { id = "e1"; ends_at = 100 }

abbrev slab : Problem
slab = record { id = "p1"; event_id = "e1" }

abbrev batch : Batch
batch = record {
  registration_id = "anna";
  actor = "user";
  now = 5;
  event_by_id = ("e1", league_night) ∷ [];
  problem_by_id = ("p1", slab) ∷ [];
}

abbrev two_actions : List (Conditions × ActionItem)
two_actions = (at_time 5, action "k1" increment) ∷ (at_time 6, action "k2" top) ∷ []

abbrev once_more : Conditions × ActionItem → Conditions
once_more p = at_time 9

none_rejected : (submit_loop batch two_actions (start empty)).rejected ≡ []
unfolding get find_attempt find_key upsert key_taken apply_action compute_new_state new_state answer
    apply_to apply_one add64 restore_latest latest_log_for_attempt latest_of submit_loop submit_one
    apply_fresh lookup replay_if_cached get_log_by_idempotency_key touch
none_rejected = refl

submit_loop-resend_example :
    let s = submit_loop batch two_actions (start empty) in
    let t = submit_loop batch (map (λ p. (once_more p, p.1)) two_actions) (start s.db) in
    (t.db ≡ s.db)
    × (t.rejected ≡ [])
    × All (λ (x : ActionApplied). x.replayed ≡ true) t.applied
    × (length t.applied ≡ length two_actions)
submit_loop-resend_example =
    submit_loop-resend batch batch empty two_actions once_more ((("k1", refl)), (("k2", refl), tt))
      none_rejected (λ p. refl)

abbrev request : Request
request = record {
  comp_id_valid = true;
  comp = found live;
  caller_id = "user";
  registration = found (record { id = "anna"; withdrawn_at = none });
  body = some two_actions;
  events = some (league_night ∷ []);
  problems = some (slab ∷ []);
  now = 5;
  snapshot_fails = λ id. false;
}

submit_actions-cases_example :
    IsRefused request empty (submit_actions request empty)
    ⊎ IsAccepted request empty (submit_actions request empty)
submit_actions-cases_example = submit_actions-cases request empty

submit_actions-IsSoundDb_example : IsSoundDb (submit_actions request empty).0
submit_actions-IsSoundDb_example = submit_actions-IsSoundDb request empty empty-IsSoundDb
