-- ===== src/Attempts/Request.antt =====
-- SubmitActions (internal/handler/comp_action.go) as a whole: what its guards let through, that each
-- action is answered, and that the tables stay sound.
use routewerk.Prelude.{
  ◌+◌, ◌≤◌, ◌≡◌, refl, sym, ◌⊎◌, inl, inr, str_eq, Bool, true, false, not, ◌&&◌, Option, none, List,
  some, arith, ltb, ◌==◌, length, Bool-cases, Option-cases,
}
use mathlib.Core.Path.{subst}
use routewerk.Attempts.Types.{Db}
use routewerk.Attempts.Action.{ActionItem, Conditions}
use routewerk.Attempts.Submit.{
  index_events, index_problems, Batch, Event, Problem, start, CompStatus, accepts_actions, Lookup,
  found, Registration, is_active, Request, Reply, Response, success, bad_request, not_found,
  forbidden, unauthorized, internal_error, missing, broken, process, submit_for, submit_as,
  submit_actions,
}
use routewerk.Attempts.Sound.{IsSoundDb}
use routewerk.Attempts.Turns.{
  submit_loop-answered, IsWritten, same, All-Memᴰ, submit_loop-IsWritten, IsWritten-IsSoundDb,
}

-- The batch of a request: its registration and caller, and the events and problems of the competition.
abbrev pub batch_of : Request → Registration → List Event → List Problem → Batch
batch_of r reg events problems = record {
  registration_id = reg.id;
  actor = r.caller_id;
  now = r.now;
  event_by_id = index_events events;
  problem_by_id = index_problems problems;
}

-- The guards of the request, and that the batch was then processed.
pub record IsAccepted (r : Request) (db : Db) (result : Db × Reply × Bool) : Type 0 where
  pub status : CompStatus
  pub registration : Registration
  pub actions : List (Conditions × ActionItem)
  pub response : Response
  pub events : List Event
  pub problems : List Problem
  pub id_valid : r.comp_id_valid ≡ true
  pub comp_found : r.comp ≡ found status
  pub accepting : accepts_actions status ≡ true
  pub signed_in : str_eq r.caller_id "" ≡ false
  pub registered : r.registration ≡ found registration
  pub active : is_active registration ≡ true
  pub parsed : r.body ≡ some actions
  pub not_empty : 1 ≤ length actions
  pub at_most : length actions ≤ 50
  pub events_read : r.events ≡ some events
  pub problems_read : r.problems ≡ some problems
  pub reply : result.1 ≡ success response
  pub each_answered : length response.applied + length response.rejected ≡ length actions
  pub announced : result.2 ≡ ltb 0 (length response.applied)
  pub written : IsWritten (batch_of r registration events problems) actions db result.0

abbrev does_accept : Lookup CompStatus → Bool
does_accept (found status) = accepts_actions status
does_accept missing = false
does_accept broken = false

abbrev is_registered : Lookup Registration → Bool
is_registered (found reg) = is_active reg
is_registered missing = false
is_registered broken = false

abbrev is_sized : Option (List (Conditions × ActionItem)) → Bool
is_sized none = false
is_sized (some actions) = ltb 0 (length actions) && not (ltb 50 (length actions))

abbrev is_read {ℓ} : {A : Type ℓ} → Option A → Bool
is_read none = false
is_read (some a) = true

-- The guards of a request, in one test.
abbrev pub passes : Request → Bool
passes r =
    r.comp_id_valid
    && does_accept r.comp
    && not (str_eq r.caller_id "")
    && is_registered r.registration
    && is_sized r.body
    && is_read r.events
    && is_read r.problems

-- A refusal: some guard fails, an error is replied, the tables are as they were, and nothing is
-- announced.
abbrev pub IsRefused : Request → Db → Db × Reply × Bool → Type 0
IsRefused r db result =
    (passes r ≡ false)
    × (result.0 ≡ db)
    × (result.2 ≡ false)
    × ((response : Response) → ¬ (result.1 ≡ success response))

module _ (r : Request) (db : Db) where
  refused :
      (result : Db × Reply × Bool) (reply : Reply)
      → result ≡ (db, reply, false)
      → passes r ≡ false
      → ((response : Response) → ¬ (reply ≡ success response))
      → IsRefused r db result
  refused result reply e p h = subst (IsRefused r db) (sym e) (p, refl, refl, h)

  -- The guards before the body was read.
  record IsAdmitted (reg : Registration) (status : CompStatus) : Type 0 where
    admitted_id : r.comp_id_valid ≡ true
    admitted_status : r.comp ≡ found status
    admitted_accepting : accepts_actions status ≡ true
    admitted_caller : str_eq r.caller_id "" ≡ false
    admitted_registration : r.registration ≡ found reg
    admitted_active : is_active reg ≡ true

  abbrev Answers : Db × Reply × Bool → Type 0
  Answers result = IsRefused r db result ⊎ IsAccepted r db result

  process-IsAccepted :
      (reg : Registration) (status : CompStatus) (actions : List (Conditions × ActionItem))
      (events : List Event) (problems : List Problem)
      → IsAdmitted reg status
      → r.body ≡ some actions
      → (length actions == 0) ≡ false
      → ltb 50 (length actions) ≡ false
      → r.events ≡ some events
      → r.problems ≡ some problems
      → IsAccepted r db (process r reg events problems actions db)
  unfolding process
  process-IsAccepted reg status actions events problems g e n m v q = record {
    status = status;
    registration = reg;
    actions = actions;
    response = _;
    events = events;
    problems = problems;
    id_valid = g.admitted_id;
    comp_found = g.admitted_status;
    accepting = g.admitted_accepting;
    signed_in = g.admitted_caller;
    registered = g.admitted_registration;
    active = g.admitted_active;
    parsed = e;
    not_empty = ground (arith, n);
    at_most = ground (arith, m);
    events_read = v;
    problems_read = q;
    reply = refl;
    each_answered =
        omega (arith, submit_loop-answered (batch_of r reg events problems) actions (start db));
    announced = refl;
    written =
        submit_loop-IsWritten (batch_of r reg events problems) actions actions db (start db)
          (All-Memᴰ actions) same;
  }

  submit_for-cases :
      (reg : Registration) (status : CompStatus)
      → IsAdmitted reg status
      → IsRefused r db (submit_for r reg db) ⊎ IsAccepted r db (submit_for r reg db)
  unfolding submit_for
  submit_for-cases reg status g = elim (Option-cases r.body) [
    | inl e ↦ inl (refused _ bad_request (ground arith) (ground arith) (ground arith))
    | inr (actions, e) ↦ elim (Bool-cases (length actions == 0)) [
      | inl n ↦ inl (refused _ bad_request (ground arith) (ground arith) (ground arith))
      | inr n ↦ elim (Bool-cases (ltb 50 (length actions))) [
        | inl m ↦ inl (refused _ bad_request (ground arith) (ground arith) (ground arith))
        | inr m ↦ elim (Option-cases r.events) [
          | inl v ↦ inl (refused _ internal_error (ground arith) (ground arith) (ground arith))
          | inr (events, v) ↦ elim (Option-cases r.problems) [
            | inl p ↦ inl (refused _ internal_error (ground arith) (ground arith) (ground arith))
            | inr (problems, p) ↦
                let came : submit_for r reg db ≡ process r reg events problems actions db =
                  ground arith in
                subst Answers (sym came)
                  (inr (process-IsAccepted reg status actions events problems g e n m v p))
          ]
        ]
      ]
    ]
  ]

pub Lookup-cases :
    {A : Type 0} (l : Lookup A) → ((a : A) × (l ≡ found a)) ⊎ ((l ≡ missing) ⊎ (l ≡ broken))
Lookup-cases (found a) = inl (a, refl)
Lookup-cases missing = inr (inl refl)
Lookup-cases broken = inr (inr refl)

submit_as-cases :
    (r : Request) (db : Db) (status : CompStatus)
    → r.comp_id_valid ≡ true
    → r.comp ≡ found status
    → accepts_actions status ≡ true
    → str_eq r.caller_id "" ≡ false
    → Answers r db (submit_as r db)
unfolding submit_as
submit_as-cases r db status i e a s = elim (Lookup-cases r.registration) [
  | inr (inl g) ↦ inl (refused r db _ forbidden (ground arith) (ground arith) (ground arith))
  | inr (inr g) ↦ inl (refused r db _ internal_error (ground arith) (ground arith) (ground arith))
  | inl (reg, g) ↦ elim (Bool-cases (is_active reg)) [
    | inr k ↦ inl (refused r db _ forbidden (ground arith) (ground arith) (ground arith))
    | inl k ↦
        let came : submit_as r db ≡ submit_for r reg db = ground arith in
        let admitted : IsAdmitted r db reg status = record {
          admitted_id = i;
          admitted_status = e;
          admitted_accepting = a;
          admitted_caller = s;
          admitted_registration = g;
          admitted_active = k;
        } in
        subst (Answers r db) (sym came) (submit_for-cases r db reg status admitted)
  ]
]

-- A request that fails a guard changes nothing, announces nothing and gets no success. Any other passed
-- every guard (the id of the competition, its status, sign-in, an active registration, a body of 1 to
-- 50 actions, the reads of its events and problems), gets one answer per action, is announced exactly if
-- something was applied, and has changed the tables by applyOne alone, for its own registration and
-- caller, by actions of its body, on problems of the competition whose event has not ended.
pub submit_actions-cases :
    (r : Request) (db : Db)
    → IsRefused r db (submit_actions r db) ⊎ IsAccepted r db (submit_actions r db)
unfolding submit_actions submit_as
submit_actions-cases r db = elim (Bool-cases r.comp_id_valid) [
  | inr i ↦ inl (refused r db _ bad_request (ground arith) (ground arith) (ground arith))
  | inl i ↦ elim (Lookup-cases r.comp) [
    | inr (inl e) ↦ inl (refused r db _ not_found (ground arith) (ground arith) (ground arith))
    | inr (inr e) ↦ inl (refused r db _ internal_error (ground arith) (ground arith) (ground arith))
    | inl (status, e) ↦ elim (Bool-cases (accepts_actions status)) [
      | inr a ↦ inl (refused r db _ forbidden (ground arith) (ground arith) (ground arith))
      | inl a ↦ elim (Bool-cases (str_eq r.caller_id "")) [
        | inl s ↦ inl (refused r db _ unauthorized (ground arith) (ground arith) (ground arith))
        | inr s ↦
            let came : submit_actions r db ≡ submit_as r db = ground arith in
            subst (Answers r db) (sym came) (submit_as-cases r db status i e a s)
      ]
    ]
  ]
]

-- Every request leaves sound tables sound.
pub submit_actions-IsSoundDb :
    (r : Request) (db : Db) → IsSoundDb db → IsSoundDb (submit_actions r db).0
submit_actions-IsSoundDb r db h = elim (submit_actions-cases r db) [
  | inl n ↦ subst IsSoundDb (sym n.1) h
  | inr a ↦ IsWritten-IsSoundDb _ a.actions db _ a.written h
]
