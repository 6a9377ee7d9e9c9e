-- ===== src/Repositories/Postgres.antt =====
-- src/repositories/database.ts and the tables of migrations: what the three repositories of
-- src/repositories/postgres.ts keep, and the transaction in which each of their methods runs.
pub mod Operations
pub mod Posts
pub mod Statements
pub mod Comments
pub mod Changes
use social_comments_service.Base.{
  Bool, List, Option, [], false, if◌then◌else◌, none, some, ℕ, ◌+◌, ◌/◌, ◌∷◌,
}
use social_comments_service.Comments.Service.Reply.{request_fingerprint}
use social_comments_service.Repositories.InMemory.{Sources}
use social_comments_service.Shared.Date.{to_iso_string}
use social_comments_service.Shared.Errors.{Thrown, foreign}
use social_comments_service.Shared.Exec.{Exec, Result, err, lift, ok, ◌>>=◌}
use social_comments_service.Shared.Text.{Text, units}
use social_comments_service.Shared.Types.{Platform, ReplyOperationStatus}

-- What a query for comments returns: `parent_comment_id` is the join's answer.
pub record CommentRow : Type 0 where
  pub id : Text
  pub post_id : Text
  pub platform : Platform
  pub author_external_id : Text
  pub author_display_name : Text
  pub body : Text
  pub external_comment_id : Text
  pub parent_comment_id : Option Text
  pub external_parent_comment_id : Option Text
  pub published_at : ℕ
  pub updated_at : ℕ

-- What PostgreSQL decides itself: how it reads a text as a `uuid`, whose canonical text the column
-- keeps, and as a `timestamptz`, whose microseconds it keeps, counted from the start of the year 0;
-- and in which order a query without `order by` returns its rows.
pub record Engine : Type 0 where
  pub uuid_in : Text → Option Text
  pub timestamptz_in : Text → Option ℕ
  pub arrange : List CommentRow → List CommentRow

-- The columns of the tables that a query names. A text is stored as it is sent.
pub record SocialAccountTuple : Type 0 where
  pub id : Text
  pub account_id : Text
  pub platform : Platform
  pub credential_reference : Text

pub record PostTuple : Type 0 where
  pub id : Text
  pub account_id : Text
  pub social_account_id : Text
  pub external_post_id : Text
  pub status : Text
  pub published_at : Option ℕ
  pub provider_cursor : Option Text
  pub provider_exhausted : Bool
  pub provider_completed_at : Option ℕ

pub record CommentTuple : Type 0 where
  pub id : Text
  pub account_id : Text
  pub post_id : Text
  pub social_account_id : Text
  pub external_comment_id : Text
  pub external_parent_comment_id : Option Text
  pub author_external_id : Text
  pub author_display_name : Text
  pub body : Text
  pub published_at : ℕ
  pub updated_at : ℕ

pub record OperationRow : Type 0 where
  pub id : Text
  pub account_id : Text
  pub comment_id : Text
  pub idempotency_key : Text
  pub request_fingerprint : Text
  pub status : ReplyOperationStatus
  pub resulting_comment_id : Option Text
  pub failure_code : Option Text
  pub lease_expires_at : ℕ
  pub external_reply_id : Option Text
  pub created_at : ℕ
  pub completed_at : Option ℕ

pub record Tables : Type 0 where
  pub accounts : List Text
  pub social_accounts : List SocialAccountTuple
  pub posts : List PostTuple
  pub comments : List CommentTuple
  pub reply_operations : List OperationRow

-- The tables, the clock and generator of the process, and the texts that `gen_random_uuid()`
-- returns one after the other.
pub record Database : Type 0 where
  pub tables : Tables
  pub sources : Sources
  pub generated : ℕ → Text
  pub generations : ℕ

-- An error of the server, by its SQLSTATE.
abbrev pub database_error : Text → Thrown
database_error sqlstate =
    foreign (record { validation = false; status_code = none; code = some sqlstate })

abbrev pub invalid_text_representation : Thrown
invalid_text_representation = database_error (units "22P02")

abbrev pub unique_violation : Thrown
unique_violation = database_error (units "23505")

abbrev pub foreign_key_violation : Thrown
foreign_key_violation = database_error (units "23503")

abbrev pub or_error {ℓ} : {A : Type ℓ} → Thrown → Option A → Result A
or_error e none = err e
or_error e (some a) = ok a

-- A parameter where a `uuid` or a `timestamptz` is expected.
abbrev pub as_uuid : Engine → Text → Result Text
as_uuid e s = or_error invalid_text_representation (e.uuid_in s)

abbrev pub as_timestamptz : Engine → Text → Result ℕ
as_timestamptz e s = or_error (database_error (units "22007")) (e.timestamptz_in s)

abbrev pub nullable : {A : Type 0} → (Text → Result A) → Option Text → Result (Option A)
nullable f none = ok none
nullable f (some s) = elim (f s) [ err e ↦ err e | ok a ↦ ok (some a) ]

-- A chain of results.
unfoldable pub collect : {A B : Type 0} → Result A → (A → Result B) → Result B
collect (err e) f = err e
collect (ok a) f = f a

-- `new Date(column).toISOString()`: the driver hands over a `Date`, which has milliseconds.
unfoldable pub iso_of : ℕ → Text
iso_of microseconds = to_iso_string (microseconds / 1000)

abbrev pub when_committed : {A : Type 0} → Tables → Result A × Database → Result A × Database
when_committed before (ok a, db) = (ok a, db)
when_committed before (err e, db) = (err e, record db { tables = before })

-- `withTenant`: what throws is rolled back. Each statement of a transaction compares the account,
-- as a `uuid`, with that of every row that it reads or writes; the policies of the tables make the
-- same test. It is read here, as the first statement would.
unfoldable pub with_tenant :
    {A : Type 0} → Engine → Text → (Text → Exec Database A) → Exec Database A
with_tenant e account_id run db =
    when_committed db.tables ((lift (as_uuid e account_id) >>= run) db)

-- The first row that a query returns.
unfoldable pub find_where : {A : Type 0} → (A → Bool) → List A → Option A
find_where p [] = none
find_where p (a ∷ rest) = if p a then some a else find_where p rest

-- `update … where`
unfoldable pub map_where : {A : Type 0} → (A → Bool) → (A → A) → List A → List A
map_where p f [] = []
map_where p f (a ∷ rest) = (if p a then f a else a) ∷ map_where p f rest

-- `new Date()` and `crypto.randomUUID()` of the process.
unfoldable pub db_read_clock : Exec Database ℕ
db_read_clock db = (
  ok (db.sources.clock db.sources.reads),
  record db { sources = record db.sources { reads = db.sources.reads + 1 } },
)

unfoldable pub db_random_uuid : Exec Database Text
db_random_uuid db = (
  ok (db.sources.uuids db.sources.draws),
  record db { sources = record db.sources { draws = db.sources.draws + 1 } },
)

-- `gen_random_uuid()`, the default of a comment's identifier.
unfoldable pub gen_random_uuid : Exec Database Text
gen_random_uuid db =
    (ok (db.generated db.generations), record db { generations = db.generations + 1 })
