-- ===== src/Composition/Postgres/Lawful.antt =====
-- The PostgreSQL composition meets the laws of the ports. A key is taken while a row holds it, for
-- the account as the database reads it.
use social_comments_service.Base.{
  List, Option, Option-cases, arith, inl, inr, length, refl, some, sym, true, ◌∙◌, ◌≡◌, ◌≤◌,
}
use social_comments_service.Comments.Contracts.{Config, Provider}
use social_comments_service.Comments.Invariants.{Keeps}
use social_comments_service.Comments.Laws.{PortLaws, ProviderLaws}
use social_comments_service.Comments.Observation.{IsQuiet, IsSingle, Observation}
use social_comments_service.Comments.Service.Requests.{Request, published_for}
use social_comments_service.Comments.Service.Requests.Once.{published_for_le_one}
use social_comments_service.Composition.Postgres.{
  Deployment, ask_provider, deployed, deployed_registry, on_database, on_provider, postgres_ports,
}
use social_comments_service.Repositories.Postgres.{Database, Engine, OperationRow, Tables, as_uuid}
use social_comments_service.Repositories.Postgres.Changes.{unchanged}
use social_comments_service.Repositories.Postgres.Changes.Comments.{
  insert_published_reply-Keeps, select_by_id-Keeps, select_external_id-Keeps, select_page-Keeps,
  select_published-Keeps, select_reply-Keeps, update_snapshot-Keeps, upsert_comments-Keeps,
}
use social_comments_service.Repositories.Postgres.Changes.Followed.{Changes-key}
use social_comments_service.Repositories.Postgres.Changes.Granted.{insert_claim-granted}
use social_comments_service.Repositories.Postgres.Changes.Operations.{
  insert_claim-Keeps, select_by_idempotency_key-Keeps, set_completed-Keeps, set_failed-Keeps,
  set_published-Keeps, set_unknown-Keeps,
}
use social_comments_service.Repositories.Postgres.Changes.Transactions.{
  IsReached, db_random_uuid-Keeps, db_read_clock-Keeps,
}
use social_comments_service.Repositories.Postgres.Operations.{insert_claim, operation_by_key}
use social_comments_service.Shared.Exec.{Exec, ok, ok_injective}
use social_comments_service.Shared.Text.{Text}
use social_comments_service.Shared.Types.{
  ObservedComment, Platform, ProviderReplyCommand, ReplyOperation, ReplyOperationClaim,
  TenantContext,
}

abbrev pub KeyHeld : Engine → Tables → Text → Text → Type 0
KeyHeld e s a k =
    (t : Text) × (row : OperationRow) × (as_uuid e a ≡ ok t) × (operation_by_key s t k ≡ some row)

-- The tenants of any requests.
abbrev pub AnyTenant : Text → Type 0
AnyTenant t = Unit {0}

any_tenant :
    (e : Engine) (c : TenantContext) (t : Text) → as_uuid e c.account_id ≡ ok t → AnyTenant t
any_tenant e c t x = tt

module _ {S : Type 0} (e : Engine) where
  abbrev pub deployment_observation : Observation (Deployment S)
  deployment_observation = record {
    IsTaken = λ a k w. KeyHeld e w.database.tables a k;
    publications = λ w. length w.published;
  }

  on_database-IsQuiet :
      {A : Type 0} (f : Exec Database A)
      → ((s₀ : Tables) → Keeps (IsReached AnyTenant s₀) f)
      → IsQuiet deployment_observation (on_database f)
  unfolding on_database
  on_database-IsQuiet f kept = record {
    keeps = λ w a k (t, row, x, h).
        let (row', h', _) =
          Changes-key t k row ((kept w.database.tables).kept w.database unchanged) h in
        (t, row', x, h');
    silent = λ w. refl;
  }

  on_provider-IsQuiet : {A : Type 0} (f : Exec S A) → IsQuiet deployment_observation (on_provider f)
  unfolding on_provider
  on_provider-IsQuiet f = record { keeps = λ w a k t. t; silent = λ w. refl }

  ask_provider-IsSingle :
      (f : ProviderReplyCommand → Exec S ObservedComment) (c : ProviderReplyCommand)
      → IsSingle deployment_observation (ask_provider f c)
  unfolding ask_provider
  ask_provider-IsSingle f c = record { keeps = λ w a k t. t; single = λ w. omega arith }

  deployed_registry-ProviderLaws :
      (providers : Platform → Option (Provider S)) (p : Platform) (r : Provider (Deployment S))
      → deployed_registry providers p ≡ ok r
      → ProviderLaws deployment_observation r
  unfolding deployed_registry
  deployed_registry-ProviderLaws providers p r h = elim (Option-cases (providers p)) [
    | inl x ↦ absurd (cc (rw (x, deployed_registry) at h))
    | inr (q, x) ↦
        let same : deployed q ≡ r = cc (rw (x, deployed_registry) at h) in
        rw (← same) (record {
          list_page = λ y. on_provider-IsQuiet (q.list_page y);
          publish_reply = λ c. ask_provider-IsSingle q.publish_reply c;
        })
  ]

  -- A granted claim takes a key that was free.
  insert_claim_takes :
      (c : TenantContext) (o : ReplyOperation) (w : Deployment S) (g : ReplyOperationClaim)
      → (on_database (insert_claim e c o) w).0 ≡ ok g
      → g.claimed ≡ true
      → KeyHeld e
          (on_database (insert_claim e c o) w).1.database.tables
          c.account_id
          o.idempotency_key
        × ¬ KeyHeld e w.database.tables c.account_id o.idempotency_key
  unfolding on_database
  insert_claim_takes c o w g h granted =
      let (t, row, x, free, held) = insert_claim-granted e c o w.database g h granted in
      (
        (t, row, x, held),
        λ (u, other, y, taken).
            let same : t ≡ u = ok_injective t u (sym x ∙ y) in cc (rw (same) at free, taken),
      )

  -- The PostgreSQL repositories and any registered providers satisfy the laws of the ports: nothing
  -- but a provider's publication is seen as one, no call releases a key, and a claim is granted for
  -- a free key only and takes it.
  pub postgres-PortLaws :
      (providers : Platform → Option (Provider S))
      → PortLaws deployment_observation (postgres_ports e providers)
  postgres-PortLaws providers = record {
    list_by_post = λ c q. on_database-IsQuiet _ (λ s. select_page-Keeps e c (any_tenant e c) q);
    find_by_id = λ c i. on_database-IsQuiet _ (λ s. select_by_id-Keeps e c (any_tenant e c) i);
    find_reply_by_external_id =
        λ c i x. on_database-IsQuiet _ (λ s. select_reply-Keeps e c (any_tenant e c) i x);
    resolve_external_id =
        λ c i. on_database-IsQuiet _ (λ s. select_external_id-Keeps e c (any_tenant e c) i);
    store_published_reply =
        λ c o. on_database-IsQuiet _ (λ s. insert_published_reply-Keeps e c (any_tenant e c) o);
    upsert_many =
        λ c os. on_database-IsQuiet _ (λ s. upsert_comments-Keeps e c (any_tenant e c) os);
    find_published_by_id =
        λ c i. on_database-IsQuiet _ (λ s. select_published-Keeps e c (any_tenant e c) i);
    save_snapshot_state =
        λ c i x y. on_database-IsQuiet _ (λ s. update_snapshot-Keeps e c (any_tenant e c) i x y);
    find_by_idempotency_key =
        λ c k. on_database-IsQuiet _ (λ s. select_by_idempotency_key-Keeps e c (any_tenant e c) k);
    claim = λ c o. on_database-IsQuiet _ (λ s. insert_claim-Keeps e c (any_tenant e c) o);
    record_published =
        λ c i x. on_database-IsQuiet _ (λ s. set_published-Keeps e c (any_tenant e c) i x);
    complete = λ c i x. on_database-IsQuiet _ (λ s. set_completed-Keeps e c (any_tenant e c) i x);
    fail = λ c i x. on_database-IsQuiet _ (λ s. set_failed-Keeps e c (any_tenant e c) i x);
    mark_unknown = λ c i x. on_database-IsQuiet _ (λ s. set_unknown-Keeps e c (any_tenant e c) i x);
    provider_of = deployed_registry-ProviderLaws providers;
    now = on_database-IsQuiet _ (λ s. db_read_clock-Keeps);
    random_uuid = on_database-IsQuiet _ (λ s. db_random_uuid-Keeps);
    claim_takes = insert_claim_takes;
  }

  -- Over the PostgreSQL composition too, the requests with one key of a tenant ask the providers
  -- for one publication at most, however often they are sent, whatever other requests come between
  -- and whatever the database refuses.
  pub published_at_most_once :
      (config : Config) (providers : Platform → Option (Provider S)) (a k : Text)
      (rs : List Request) (w : Deployment S)
      → published_for (postgres_ports e providers) config (λ w. length w.published) a k rs w ≤ 1
  published_at_most_once config providers =
      published_for_le_one _ (postgres-PortLaws providers) config
