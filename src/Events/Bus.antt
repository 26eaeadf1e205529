-- ===== src/Events/Bus.antt =====
-- memoryBus (internal/event/memory.go) as interleaved steps: a publisher holds its copy of the
-- subscriptions and handles the next one at a step, and a worker or an overflow goroutine takes a step
-- when its task has run. Which publisher, worker or goroutine takes a step is its place in a list; a
-- step that nobody can take changes nothing. A handler is opaque: it returns, and its error is logged.
use routewerk.Prelude.{
  ℕ, zero, suc, ◌+◌, ◌-◌, String, Bool, List, [], ◌∷◌, ◌++◌, Option, none, some, ltb, ◌==◌, length,
  if◌then◌else◌,
}
use routewerk.Prelude.Maps.{lookup, insert}

abbrev pub event_worker_count : ℕ
event_worker_count = 8

abbrev pub event_queue_size : ℕ
event_queue_size = 256

pub record Event (P : Type 0) : Type 0 where
  pub event_type : String
  pub payload : P

pub record Subscription (H : Type 0) : Type 0 where
  pub handler : H
  pub is_sync : Bool

-- The run of a handler on an event.
pub record Task (P H : Type 0) : Type 0 where
  pub event : Event P
  pub subscription : Subscription H

-- A call of Publish: its event, and the subscriptions that are left of its loop.
pub record Publisher (P H : Type 0) : Type 0 where
  pub event : Event P
  pub subs : List (Subscription H)

-- `wg` counts the tasks that have not run; `at_work` has those that workers hold, `overflow` those of
-- the goroutines started on a full queue, and `ran` all that have run, the latest first.
pub record MemoryBus (P H : Type 0) : Type 0 where
  pub subscribers : List (String × List (Subscription H))
  pub publishers : List (Publisher P H)
  pub tasks : List (Task P H)
  pub at_work : List (Task P H)
  pub overflow : List (Task P H)
  pub ran : List (Task P H)
  pub wg : ℕ

-- The element at a place, and the others.
unfoldable pub pick {ℓ} : {A : Type ℓ} → ℕ → List A → Option (A × List A)
pick k [] = none
pick zero (x ∷ xs) = some (x, xs)
pick (suc k) (x ∷ xs) = elim (pick k xs) [ none ↦ none | some r ↦ some (r.0, x ∷ r.1) ]

module _ {P H : Type 0} where
  -- NewMemoryBus
  abbrev pub new_memory_bus : MemoryBus P H
  new_memory_bus = record {
    subscribers = [];
    publishers = [];
    tasks = [];
    at_work = [];
    overflow = [];
    ran = [];
    wg = 0;
  }

  -- `b.subscribers[eventType]`
  abbrev pub subs_of : String → MemoryBus P H → List (Subscription H)
  subs_of event_type b = elim (lookup event_type b.subscribers) [ none ↦ [] | some subs ↦ subs ]

  unfoldable pub subscribe : String → H → Bool → MemoryBus P H → MemoryBus P H
  subscribe event_type handler sync b = record b {
    subscribers =
        insert event_type
          (subs_of event_type b ++ record { handler = handler; is_sync = sync } ∷ []) b.subscribers;
  }

  -- Publish up to its loop: the copy of the subscriptions.
  unfoldable pub begin : Event P → MemoryBus P H → MemoryBus P H
  begin e b = record b {
    publishers = record { event = e; subs = subs_of e.event_type b } ∷ b.publishers;
  }

  -- The loop body of Publish for an asynchronous handler.
  unfoldable pub enqueue : Task P H → MemoryBus P H → MemoryBus P H
  enqueue task b =
      if ltb (length b.tasks) event_queue_size
      then record b { tasks = b.tasks ++ task ∷ []; wg = b.wg + 1 }
      else record b { overflow = task ∷ b.overflow; wg = b.wg + 1 }

  -- The loop body of Publish.
  unfoldable pub dispatch : Task P H → MemoryBus P H → MemoryBus P H
  dispatch task b =
      let queued = enqueue task b in
      if task.subscription.is_sync then record b { ran = task ∷ b.ran } else queued

  -- One round of the loop of the publisher at a place, or its return.
  unfoldable pub advance : ℕ → MemoryBus P H → MemoryBus P H
  advance k b = elim (pick k b.publishers) [
    | none ↦ b
    | some (p, others) ↦ elim p.subs [
      | [] ↦ record b { publishers = others }
      | sub ∷ subs ↦
          dispatch (record { event = p.event; subscription = sub })
            (record b { publishers = record { event = p.event; subs = subs } ∷ others })
    ]
  ]

  -- An idle worker receives the oldest task.
  unfoldable pub take_task : MemoryBus P H → MemoryBus P H
  take_task b = elim b.tasks [
    | [] ↦ b
    | task ∷ tasks ↦
        if ltb (length b.at_work) event_worker_count
        then record b { tasks = tasks; at_work = task ∷ b.at_work }
        else b
  ]

  -- The task of the worker at a place has run.
  unfoldable pub finish_task : ℕ → MemoryBus P H → MemoryBus P H
  finish_task k b = elim (pick k b.at_work) [
    | none ↦ b
    | some (task, others) ↦ record b { at_work = others; ran = task ∷ b.ran; wg = b.wg - 1 }
  ]

  -- The task of the overflow goroutine at a place has run.
  unfoldable pub finish_overflow : ℕ → MemoryBus P H → MemoryBus P H
  finish_overflow k b = elim (pick k b.overflow) [
    | none ↦ b
    | some (task, others) ↦ record b { overflow = others; ran = task ∷ b.ran; wg = b.wg - 1 }
  ]

  -- Whether Shutdown returns nil, before its context ends.
  abbrev pub is_drained : MemoryBus P H → Bool
  is_drained b = b.wg == 0

pub data Step (P H : Type 0) : Type 0 where
  subscribes : String → H → Bool → Step P H
  begins : Event P → Step P H
  advances : ℕ → Step P H
  takes : Step P H
  finishes : ℕ → Step P H
  finishes_overflow : ℕ → Step P H

module _ {P H : Type 0} where
  abbrev pub step : Step P H → MemoryBus P H → MemoryBus P H
  step (subscribes event_type handler sync) b = subscribe event_type handler sync b
  step (begins e) b = begin e b
  step (advances k) b = advance k b
  step takes b = take_task b
  step (finishes k) b = finish_task k b
  step (finishes_overflow k) b = finish_overflow k b

  unfoldable pub run : List (Step P H) → MemoryBus P H → MemoryBus P H
  run [] b = b
  run (s ∷ steps) b = run steps (step s b)
