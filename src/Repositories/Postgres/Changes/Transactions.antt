-- ===== src/Repositories/Postgres/Changes/Transactions.antt =====
-- What every statement of a transaction keeps, the transaction keeps, rolled back or committed.
use social_comments_service.Base.{◌≡◌}
use social_comments_service.Comments.Invariants.{
  Keeps, Keeps-bind, Keeps-bind-lift, Keeps-if, Keeps-lift, Keeps-pure, Keeps-throw,
}
use social_comments_service.Repositories.Postgres.{
  Database, Engine, Tables, as_uuid, db_random_uuid, db_read_clock, gen_random_uuid, when_committed,
  with_tenant,
}
use social_comments_service.Repositories.Postgres.Changes.{Changes}
use social_comments_service.Shared.Exec.{Exec, Result, err, gets, ok}
use social_comments_service.Shared.Text.{Text}

-- The database whose tables are reached by changes.
abbrev pub IsReached : (Text → Type 0) → Tables → Database → Type 0
IsReached T s₀ db = Changes T s₀ db.tables

module _ {T : Text → Type 0} {s₀ : Tables} where
  committed :
      {A : Type 0} (before : Tables) (x : Result A × Database)
      → Changes T s₀ before
      → Changes T s₀ x.1.tables
      → Changes T s₀ (when_committed before x).1.tables
  committed before (ok a, db) p q = q
  committed before (err e, db) p q = p

  pub with_tenant-Keeps :
      {A : Type 0} (e : Engine) (account_id : Text) (run : Text → Exec Database A)
      → ((t : Text) → as_uuid e account_id ≡ ok t → Keeps (IsReached T s₀) (run t))
      → Keeps (IsReached T s₀) (with_tenant e account_id run)
  unfolding with_tenant
  with_tenant-Keeps e account_id run k = record {
    kept =
        λ db p. committed db.tables _ p ((Keeps-bind-lift (as_uuid e account_id) run k).kept db p);
  }

  -- A query leaves the tables as they are.
  pub gets-Keeps : {A : Type 0} (f : Database → A) → Keeps (IsReached T s₀) (gets f)
  unfolding gets
  gets-Keeps f = record { kept = λ db p. p }

  pub db_read_clock-Keeps : Keeps (IsReached T s₀) db_read_clock
  unfolding db_read_clock
  db_read_clock-Keeps = record { kept = λ db p. p }

  pub db_random_uuid-Keeps : Keeps (IsReached T s₀) db_random_uuid
  unfolding db_random_uuid
  db_random_uuid-Keeps = record { kept = λ db p. p }

  pub gen_random_uuid-Keeps : Keeps (IsReached T s₀) gen_random_uuid
  unfolding gen_random_uuid
  gen_random_uuid-Keeps = record { kept = λ db p. p }

pub ruleset transaction_rules = (
  Keeps-pure, Keeps-throw, Keeps-lift, Keeps-if, Keeps-bind, gets-Keeps, db_read_clock-Keeps,
  gen_random_uuid-Keeps,
)
