-- ===== src/Composition/Postgres/Reached.antt =====
-- What any requests may do to the tables of the PostgreSQL composition.
use social_comments_service.Base.{All, All-map, List, Option, Option-cases, inl, inr, ◌≡◌}
use social_comments_service.Comments.Contracts.{Config, Provider}
use social_comments_service.Comments.Invariants.{Keeps, PortsKeep, ProviderKeeps}
use social_comments_service.Comments.Service.Requests.{Request, context_of, respond_all}
use social_comments_service.Comments.Service.Requests.Kept.{respond_all-Keeps}
use social_comments_service.Composition.Postgres.{
  Deployment, ask_provider, deployed, deployed_registry, on_database, on_provider, postgres_ports,
}
use social_comments_service.Repositories.Postgres.{Database, Engine, Tables, as_uuid}
use social_comments_service.Repositories.Postgres.Changes.{Changes, unchanged}
use social_comments_service.Repositories.Postgres.Changes.Comments.{
  insert_published_reply-Keeps, select_by_id-Keeps, select_external_id-Keeps, select_page-Keeps,
  select_published-Keeps, select_reply-Keeps, update_snapshot-Keeps, upsert_comments-Keeps,
}
use social_comments_service.Repositories.Postgres.Changes.Operations.{
  insert_claim-Keeps, select_by_idempotency_key-Keeps, set_completed-Keeps, set_failed-Keeps,
  set_published-Keeps, set_unknown-Keeps,
}
use social_comments_service.Repositories.Postgres.Changes.Transactions.{
  IsReached, db_random_uuid-Keeps, db_read_clock-Keeps,
}
use social_comments_service.Shared.Exec.{Exec, ok}
use social_comments_service.Shared.Text.{Text}
use social_comments_service.Shared.Types.{Platform, TenantContext}

module _ {S : Type 0} (e : Engine) (providers : Platform → Option (Provider S)) (T : Text → Type 0)
    (s₀ : Tables) where
  abbrev pub IsDeployed : Deployment S → Type 0
  IsDeployed w = Changes T s₀ w.database.tables

  on_database-IsDeployed :
      {A : Type 0} (f : Exec Database A)
      → Keeps (IsReached T s₀) f
      → Keeps IsDeployed (on_database f)
  unfolding on_database
  on_database-IsDeployed f k = record { kept = λ w p. k.kept w.database p }

  deployed_registry-IsDeployed :
      (p : Platform) (r : Provider (Deployment S))
      → deployed_registry providers p ≡ ok r
      → ProviderKeeps IsDeployed r
  unfolding deployed_registry on_provider ask_provider
  deployed_registry-IsDeployed p r h = elim (Option-cases (providers p)) [
    | inl x ↦ absurd (cc (rw (x, deployed_registry) at h))
    | inr (q, x) ↦
        let same : deployed q ≡ r = cc (rw (x, deployed_registry) at h) in
        rw (← same) (record {
          list_page = λ q'. record { kept = λ w s. s };
          publish_reply = λ c. record { kept = λ w s. s };
        })
  ]

  pub postgres-PortsKeep :
      (c : TenantContext)
      → ((t : Text) → as_uuid e c.account_id ≡ ok t → T t)
      → PortsKeep IsDeployed (postgres_ports e providers) c
  postgres-PortsKeep c own = record {
    list_by_post = λ q. on_database-IsDeployed _ (select_page-Keeps e c own q);
    find_by_id = λ i. on_database-IsDeployed _ (select_by_id-Keeps e c own i);
    find_reply_by_external_id = λ i x. on_database-IsDeployed _ (select_reply-Keeps e c own i x);
    resolve_external_id = λ i. on_database-IsDeployed _ (select_external_id-Keeps e c own i);
    store_published_reply = λ o. on_database-IsDeployed _ (insert_published_reply-Keeps e c own o);
    upsert_many = λ os. on_database-IsDeployed _ (upsert_comments-Keeps e c own os);
    find_published_by_id = λ i. on_database-IsDeployed _ (select_published-Keeps e c own i);
    save_snapshot_state = λ i s x. on_database-IsDeployed _ (update_snapshot-Keeps e c own i s x);
    find_by_idempotency_key =
        λ k. on_database-IsDeployed _ (select_by_idempotency_key-Keeps e c own k);
    claim = λ o. on_database-IsDeployed _ (insert_claim-Keeps e c own o);
    record_published = λ i x. on_database-IsDeployed _ (set_published-Keeps e c own i x);
    complete = λ i x. on_database-IsDeployed _ (set_completed-Keeps e c own i x);
    fail = λ i x. on_database-IsDeployed _ (set_failed-Keeps e c own i x);
    mark_unknown = λ i x. on_database-IsDeployed _ (set_unknown-Keeps e c own i x);
    provider_of = deployed_registry-IsDeployed;
    now = on_database-IsDeployed _ db_read_clock-Keeps;
    random_uuid = on_database-IsDeployed _ db_random_uuid-Keeps;
  }

-- The requests of a tenant of `T`, by how the database reads its account.
abbrev pub AreOf : Engine → (Text → Type 0) → List Request → Type 0
AreOf e T rs = All (λ r. (t : Text) → as_uuid e (context_of r).account_id ≡ ok t → T t) rs

module _ {S : Type 0} (e : Engine) (config : Config)
    (providers : Platform → Option (Provider S)) where
  -- Any sequence of requests, answered or refused, takes the tables by changes for the tenants that
  -- sent them: a granted claim of a free key, a move of an operation in its state machine, a new
  -- comment, an edit of a comment's text or parent, or a saved snapshot.
  pub respond_all-Changes :
      (T : Text → Type 0) (rs : List Request) (w : Deployment S)
      → AreOf e T rs
      → Changes T w.database.tables
          (respond_all (postgres_ports e providers) config rs w).database.tables
  respond_all-Changes T rs w own =
      respond_all-Keeps (IsDeployed e providers T w.database.tables) _ config rs w
        (All-map rs (λ r. postgres-PortsKeep e providers T w.database.tables (context_of r)) own)
        unchanged
