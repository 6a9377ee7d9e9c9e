-- ===== src/Composition/Postgres.antt =====
-- The wiring of `createPostgresApplication` of src/index.ts: the service over the three PostgreSQL
-- repositories and a registry of provider adapters.
pub mod Reached
pub mod Lawful
pub mod Kept
use social_comments_service.Base.{List, Option, none, some, ◌∷◌}
use social_comments_service.Comments.Contracts.{Ports, Provider}
use social_comments_service.Comments.Service.Reply.{publish}
use social_comments_service.Repositories.InMemory.Operations.Lifecycle.{published}
use social_comments_service.Repositories.Postgres.{Database, Engine, db_random_uuid, db_read_clock}
use social_comments_service.Repositories.Postgres.Comments.{
  insert_published_reply, select_by_id, select_external_id, select_page, select_reply,
  upsert_comments,
}
use social_comments_service.Repositories.Postgres.Operations.{
  insert_claim, select_by_idempotency_key, set_completed, set_failed, set_published, set_unknown,
}
use social_comments_service.Repositories.Postgres.Posts.{select_published, update_snapshot}
use social_comments_service.Shared.Errors.{ServiceErrorCode, ServiceErrorReason, plain_error}
use social_comments_service.Shared.Exec.{Exec, Result, err, ok}
use social_comments_service.Shared.Types.{ObservedComment, Platform, ProviderReplyCommand}

pub record Deployment (S : Type 0) : Type 0 where
  pub database : Database
  pub client : S
  -- Every publication that a provider was asked for, the latest first.
  pub published : List ProviderReplyCommand

module _ {S : Type 0} where
  unfoldable pub on_database : {A : Type 0} → Exec Database A → Exec (Deployment S) A
  on_database m w = let (r, database) = m w.database in (r, record w { database = database })

  unfoldable pub on_provider : {A : Type 0} → Exec S A → Exec (Deployment S) A
  on_provider m w = let (r, client) = m w.client in (r, record w { client = client })

  unfoldable pub ask_provider :
      (ProviderReplyCommand → Exec S ObservedComment)
      → ProviderReplyCommand
      → Exec (Deployment S) ObservedComment
  unfolding on_provider
  ask_provider publish c w = on_provider (publish c) (record w { published = c ∷ w.published })

  abbrev pub deployed : Provider S → Provider (Deployment S)
  deployed p = record {
    platform = p.platform;
    capabilities = p.capabilities;
    list_page = λ q. on_provider (p.list_page q);
    publish_reply = ask_provider p.publish_reply;
  }

  unfoldable pub deployed_registry :
      (Platform → Option (Provider S)) → Platform → Result (Provider (Deployment S))
  deployed_registry providers platform = elim (providers platform) [
    | none ↦ err (
        plain_error ServiceErrorCode.unsupported_capability
          ServiceErrorReason.platform_not_configured 422)
    | some p ↦ ok (deployed p)
  ]

  abbrev pub postgres_ports : Engine → (Platform → Option (Provider S)) → Ports (Deployment S)
  postgres_ports e providers = record {
    list_by_post = λ c q. on_database (select_page e c q);
    find_by_id = λ c i. on_database (select_by_id e c i);
    find_reply_by_external_id = λ c i x. on_database (select_reply e c i x);
    resolve_external_id = λ c i. on_database (select_external_id e c i);
    store_published_reply = λ c o. on_database (insert_published_reply e c o);
    upsert_many = λ c os. on_database (upsert_comments e c os);
    find_published_by_id = λ c i. on_database (select_published e c i);
    save_snapshot_state = λ c i s x. on_database (update_snapshot e c i s x);
    find_by_idempotency_key = λ c k. on_database (select_by_idempotency_key e c k);
    claim = λ c o. on_database (insert_claim e c o);
    record_published = λ c i x. on_database (set_published e c i x);
    complete = λ c i x. on_database (set_completed e c i x);
    fail = λ c i x. on_database (set_failed e c i x);
    mark_unknown = λ c i x. on_database (set_unknown e c i x);
    provider_of = deployed_registry providers;
    now = on_database db_read_clock;
    random_uuid = on_database db_random_uuid;
  }
