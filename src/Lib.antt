-- ===== src/Lib.antt =====
-- The comment service of this repository: it lists the comments of a published social media post, page
-- by page, over a snapshot of what the provider has, and publishes replies, each at most once for the
-- idempotency key that the client sends.
--
-- The parts, and the files that model them:
-- - src/shared/types.ts and the data of src/comments/contracts.ts: Shared/Types. src/shared/errors.ts:
--   Shared/Errors. src/shared/validation.ts: Shared/Validation. src/shared/identifiers.ts:
--   Shared/Identifiers, over Shared/Date, which models JavaScript's Date for the ISO format.
--   src/shared/cursor.ts: Shared/Cursor. Strings are Shared/Text, lists of UTF-16 code units.
-- - The ports of src/comments/contracts.ts and requireCapability of
--   src/platforms/provider-registry.ts: Comments/Contracts. What the service relies on of them is
--   stated in Comments/Laws, in the terms of Comments/Observation.
-- - src/comments/comment-service.ts: Comments/Service/Reply (replyToComment), Comments/Service/Replay
--   (replay, recover), Comments/Service/Listing (listComments, stale) and Comments/Service/Hydration
--   (needsHydration, runHydration, joinHydration, hydrate, fetchPage), each over any ports.
-- - src/repositories/in-memory.ts: Repositories/TenantScoped, Repositories/InMemory (the state of the
--   three repositories) and, below it, Comments, Posts and Operations, a module a class.
-- - src/repositories/database.ts, the tables of migrations and src/repositories/postgres.ts:
--   Repositories/Postgres, and below it Operations, Posts and Comments, a module a class, with the SQL
--   statements as functions of the rows (those for comments are in Statements). Changes and its
--   children are the specification of the tables: the statements that write, and what they leave.
-- - callProvider and its policies, of src/shared/observability.ts: Platforms/Retry. The adapter between
--   the service and a provider's client, src/platforms/adaptive-provider.ts: Platforms/Adaptive. How
--   long a call takes is given with the call; when it takes as long as the budget, it is in time.
--   src/platforms/fixture-provider.ts, the client of both compositions: Platforms/Fixture.
-- - src/api/routes.ts: Api, the two routes and the handler of errors, for requests that have passed the
--   framework's check of the schema.
-- - Composition wires the service to the in-memory repositories and to any provider adapters, and
--   Composition/Postgres to the PostgreSQL ones, as src/index.ts does. chooseComposition of that file
--   is Composition/Startup, createDemoApplication is Composition/Demo. Comments/Service/Requests runs
--   sequences of requests over any ports one after another; in Comments/Interference, other requests
--   call the same ports between the calls of one.
--
-- A method that may throw is an action: it takes the state and returns a result and the state, which
-- is kept when it throws. try and catch are the action catch of Shared/Exec. The service reaches the
-- state only through its ports, so its functions are the same over any implementation. Date.now() and
-- crypto.randomUUID() draw from two arbitrary sequences, and a theorem that needs new identifiers
-- says so.
--
-- A transaction that throws restores the tables, but not the sources of instants and identifiers. What
-- PostgreSQL decides itself is a parameter, Engine: how it reads a uuid and an instant, and in which
-- order it returns rows that are not ordered. An error of the server is a foreign error with its
-- SQLSTATE. A statement sees the rows of the tenant only, as the policies of the tables and the
-- conditions of the statements both say; the constraints of a table see all rows.
--
-- Recursion follows the data, but for six functions. The loops of runHydration and of callProvider
-- test their counters as the source does, so they end by themselves; as recursions they also count the
-- turns that are left, twenty and one less than the attempts of the policy, and more turns make no
-- difference (Comments/Service/Hydration/Bounds, Platforms/Retry/Attempts). The walks
-- through the pages of a post, read_all and read_pages, take a number of pages, of which one more than
-- there are comments is enough. The digits of a number are at most one more than the number. The years
-- of a date are counted within one cycle of 400.
--
-- Not modelled: log records, metrics and the texts of messages, which no behaviour reads; the
-- checks of a value's JavaScript type that the types make always true; readings of the clock for
-- durations. HMAC, JSON and base64url are parameters. What a request that joins a running hydration
-- gets from it is an argument of listComments. The connection to the database does not fail, and texts
-- have neither the character 0 nor unpaired surrogates, which PostgreSQL does not store.
-- src/api/schemas.ts and the process entry points have no counterpart here.
pub mod Base
pub mod Shared
pub mod Repositories
pub mod Comments
pub mod Platforms
pub mod Composition
pub mod Api
mod Tests
