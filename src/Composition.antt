-- ===== src/Composition.antt =====
-- The wiring of src/index.ts for the in-memory composition: the service over the three in-memory
-- repositories, and a registry of provider adapters whose clients keep a state of their own.
pub mod Lawful
pub mod Keeping
pub mod Requests
pub mod Steps
pub mod Outcomes
pub mod Answers
pub mod Isolation
pub mod Formed
pub mod Hydrated
pub mod Sound
pub mod Recorded
pub mod Demo
pub mod Postgres
pub mod Startup
use social_comments_service.Base.{List, Option, none, some, ◌∷◌}
use social_comments_service.Comments.Contracts.{Ports, Provider}
use social_comments_service.Comments.Service.Reply.{publish}
use social_comments_service.Repositories.InMemory.{Memory, random_uuid, read_clock}
use social_comments_service.Repositories.InMemory.Comments.{
  find_by_id, find_reply_by_external_id, list_by_post, resolve_external_id, store_published_reply,
  upsert_many,
}
use social_comments_service.Repositories.InMemory.Operations.{
  claim, complete, fail, find_by_idempotency_key, mark_unknown, record_published,
}
use social_comments_service.Repositories.InMemory.Operations.Lifecycle.{published}
use social_comments_service.Repositories.InMemory.Posts.{find_published_by_id, save_snapshot_state}
use social_comments_service.Shared.Errors.{ServiceErrorCode, ServiceErrorReason, plain_error}
use social_comments_service.Shared.Exec.{Exec, Result, err, ok}
use social_comments_service.Shared.Types.{ObservedComment, Platform, ProviderReplyCommand}

pub record World (S : Type 0) : Type 0 where
  pub memory : Memory
  pub client : S
  -- Every publication that a provider was asked for, the latest first.
  pub published : List ProviderReplyCommand

module _ {S : Type 0} where
  unfoldable pub on_memory : {A : Type 0} → Exec Memory A → Exec (World S) A
  on_memory m w = let (r, memory) = m w.memory in (r, record w { memory = memory })

  unfoldable pub on_client : {A : Type 0} → Exec S A → Exec (World S) A
  on_client m w = let (r, client) = m w.client in (r, record w { client = client })

  unfoldable pub ask_to_publish :
      (ProviderReplyCommand → Exec S ObservedComment)
      → ProviderReplyCommand
      → Exec (World S) ObservedComment
  unfolding on_client
  ask_to_publish publish c w = on_client (publish c) (record w { published = c ∷ w.published })

  abbrev pub in_world : Provider S → Provider (World S)
  in_world p = record {
    platform = p.platform;
    capabilities = p.capabilities;
    list_page = λ q. on_client (p.list_page q);
    publish_reply = ask_to_publish p.publish_reply;
  }

  -- `InMemoryPlatformProviderRegistry.get` of src/platforms/provider-registry.ts.
  unfoldable pub registered :
      (Platform → Option (Provider S)) → Platform → Result (Provider (World S))
  registered providers platform = elim (providers platform) [
    | none ↦ err (
        plain_error ServiceErrorCode.unsupported_capability
          ServiceErrorReason.platform_not_configured 422)
    | some p ↦ ok (in_world p)
  ]

  abbrev pub in_memory_ports : (Platform → Option (Provider S)) → Ports (World S)
  in_memory_ports providers = record {
    list_by_post = λ c q. on_memory (list_by_post c q);
    find_by_id = λ c i. on_memory (find_by_id c i);
    find_reply_by_external_id = λ c i e. on_memory (find_reply_by_external_id c i e);
    resolve_external_id = λ c i. on_memory (resolve_external_id c i);
    store_published_reply = λ c o. on_memory (store_published_reply c o);
    upsert_many = λ c os. on_memory (upsert_many c os);
    find_published_by_id = λ c i. on_memory (find_published_by_id c i);
    save_snapshot_state = λ c i s e. on_memory (save_snapshot_state c i s e);
    find_by_idempotency_key = λ c k. on_memory (find_by_idempotency_key c k);
    claim = λ c o. on_memory (claim c o);
    record_published = λ c i e. on_memory (record_published c i e);
    complete = λ c i e. on_memory (complete c i e);
    fail = λ c i e. on_memory (fail c i e);
    mark_unknown = λ c i e. on_memory (mark_unknown c i e);
    provider_of = registered providers;
    now = on_memory read_clock;
    random_uuid = on_memory random_uuid;
  }
