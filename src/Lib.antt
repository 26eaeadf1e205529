-- ===== src/Lib.antt =====
-- A verification library for routewerk, a server for climbing gyms. It covers the scoring of
-- competitions, the endpoint by which climbers log their attempts, the leaderboard, the staff endpoints of
-- an attempt, the checks of membership, the job queue, roles and permissions, the TTL cache, the hub
-- that streams live updates, the event bus, and the rate limiter.
--
-- Parts and files:
--
-- - Prelude: the native numbers' Boolean tests, Go's `int` as a 64-bit ℤ that wraps around
--   (Prelude.Int: add64, sub64), lists, and maps with string keys as association lists.
-- - Scoring: internal/service/competition. Types has the records of scorer.go; Scorer, Rank, TopZone
--   and Points translate helpers.go, topzone.go, fixed.go and decay.go function by function
--   (`cmpTopZone` is `cmp_top_zone`, `assignStandardRanks` is `assign_standard_ranks`). Sort is
--   sort.SliceStable as stable insertion: a stable sort by a weak order has only one result.
--   Float64 is an interface (Float), since float64 is not part of the checker; fixed and decay
--   take it as a parameter. Standing, ThreeWay, CountBack, TopOrder, PointsOrder, Tally, TopScore,
--   PointsScore, DecayScore and Standings hold the lemmas and theorems. Registry has the registry of scorers and
--   the three that register.
-- - Attempts: internal/repository/competition_attempt.go and internal/handler/comp_action.go. Types
--   and Store have the rows of the two tables and the queries over them: a query is the meaning of
--   its SQL, and a transaction that fails leaves the tables as they were. `Faults` and `Conditions`
--   say which statements fail, so that every error path is a value. Action translates applyOne and
--   computeNewState, Submit translates SubmitActions: its guards, the loop over the batch, the
--   replay of used keys and the snapshots. Rows, Transaction, Apply, Undo, Logged, Idempotent, Sound,
--   Turns and Request hold the lemmas and theorems.
-- - Leaderboard: internal/handler/comp_leaderboard.go, and the list queries of internal/repository that
--   it reads. Types has the records; Board translates aggregateLeaderboard over any registry of
--   scorers; Queries has GetByID, ListEvents, ListProblemsForEvents and the two ListByCompetition;
--   BoardCache has leaderboardCache; Endpoint has buildLeaderboard and GetLeaderboard, with the reads
--   that fail, the tables that each query finds and the times as inputs, and uuid.Parse, the conversion
--   to float32 and the order of problems as parameters: one request with no other between its get and
--   its put. Overlap has requests and writers that overlap, the get with the queries, the put and the
--   invalidation being steps of their own. CacheLaws, Grouping, Entries, Standing, Contract, Bounds,
--   Ranking, Visible, FromTables, Answers and Staleness hold the lemmas and theorems.
-- - Authz: internal/middleware/authz.go. Middleware has the tables of locations and memberships, the two
--   queries for the highest membership, and the four checks; Highest holds the theorems.
-- - Staff: internal/handler/comp_verify.go. Endpoints has VerifyAttempt and OverrideAttempt, with loadComp
--   of internal/handler/comp_events.go and requireCompRole of internal/handler/comp.go; Cases,
--   Override, Verify and Reverted hold the lemmas and theorems.
-- - Jobs: internal/jobs/queue.go. Queue has the jobs table, Enqueue, processOne with its claim and its
--   two ends, one tick of the reaper, and the loop of a polling tick (`drain`); Rows, Claim, Backoff,
--   Budget and Drain hold the lemmas and theorems. How a handler ends, which statements fail and which
--   rows other workers have locked are inputs of a round; the conversion of a float64 to int64 is a
--   parameter, since Go leaves it open outside of int64. A round is that of one worker: no other
--   worker, no reaper and no job that its own handler enqueues comes between its claim and its end.
-- - Rbac: internal/rbac/rbac.go. Matrix has the roles, their ranks, the permission matrix and the
--   functions over them; Access holds the theorems.
-- - Cache: internal/cache/cache.go. Store has the operations of the TTL cache over the entries, each at
--   the time at which it runs; Freshness compares them with a specification over the calls alone. An
--   operation is taken as one step; the race between the Load and the Delete of an expired entry is
--   left out.
-- - Sse: internal/sse/hub.go. Hub has its methods as steps over the subscribers and the channels with
--   their buffers, a panic being `none`; Distinct, Channels, Safe and Delivery hold the lemmas and
--   theorems.
-- - Events: internal/event/memory.go. Bus has the subscriptions, the publishers in their loops, the queue
--   of tasks, the workers and the overflow goroutines, and their steps in any order; Sums, Moves,
--   Quiet and Delivery hold the lemmas and theorems.
-- - RateLimit: RateLimiter of internal/middleware/security.go. Limiter has its operations, each at the
--   time at which it runs; Entries, Bounded, Live and Budget hold the lemmas and theorems.
--
-- How they interact: the action endpoint writes the attempt rows and busts the cache of boards; the
-- leaderboard reads the rows of a competition, groups them by climber and gives them to the scorer of
-- the competition, which the registry finds by name. That rows are sound, which the theorems on scores
-- and boards ask for, is what the theorems on the action endpoint keep. The staff endpoints write the
-- same rows, after a check of membership and role, and bust the same cache. The hub carries changes of a board to
-- those who watch it; the event bus carries events of the server to handlers, in the request or outside;
-- the rate limiter stands before the handlers.
--
-- Bounds: all loops are structural but that of a polling tick, which is on fuel: one more than the
-- attempts that pending jobs have left is enough. A Go `int` wraps at 64 bits; the attempt columns are
-- int4, and a write that does not fit fails. The attempts of a job and its limit are counted exactly, as
-- are the requests of a window; a job's backoff and the count of new keys wrap at 64 bits. A channel
-- of the hub buffers 16 frames, the bus queues 256 tasks for 8 workers, and the rate limiter keeps
-- 10,000 windows. Times are numbers. Ids are strings, and a UUID is its canonical text. The fields that
-- nothing here reads are left out.
--
-- Not modelled: float64 arithmetic beyond its interface; JSON text: a snapshot is absent, a state or
-- malformed, and a malformed one is read as the zero state, where json.Unmarshal keeps the fields that
-- did decode (this server writes no such snapshot), and a scorer's config is what json.Unmarshal makes
-- of it, a parameter; a commit that fails at the client but has happened in the database; the gaps that
-- a rollback leaves in the log's id sequence, since ids only order the log; concurrent requests between
-- the statements of one action, but for a key that is found taken at the write; two calls of the hub's
-- Publish that interleave, which the read lock allows: each call is one step; a read of the leaderboard's
-- tables within one query is of one moment; logging; and the rest of the server.
pub mod Prelude
pub mod Scoring
pub mod Sse
pub mod Staff
pub mod Attempts
pub mod Authz
pub mod Leaderboard
pub mod Events
pub mod Jobs
pub mod RateLimit
pub mod Rbac
pub mod Cache
