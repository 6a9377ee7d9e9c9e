-- ===== src/Composition/Formed.antt =====
-- Every world that requests lead to has well-formed rows of comments.
use social_comments_service.Base.{All-of, List, Option}
use social_comments_service.Comments.Contracts.{Config, Provider}
use social_comments_service.Comments.Invariants.{PortsKeep}
use social_comments_service.Comments.Service.Requests.{Request, context_of}
use social_comments_service.Comments.Service.Requests.Kept.{respond_all-Keeps}
use social_comments_service.Composition.{World, in_memory_ports}
use social_comments_service.Composition.Keeping.{on_memory-Keeps, registered-ProviderKeeps}
use social_comments_service.Composition.Requests.{handle_requests}
use social_comments_service.Repositories.InMemory.Comments.{
  find_by_id, find_reply_by_external_id, resolve_external_id,
}
use social_comments_service.Repositories.InMemory.Comments.Growth.{
  store_published_reply-Grows, upsert_many-Grows,
}
use social_comments_service.Repositories.InMemory.Comments.Stores.{IsWellFormed}
use social_comments_service.Repositories.InMemory.Formed.{
  Grows-IsWellFormed, claim-IsWellFormed, complete-IsWellFormed, fail-IsWellFormed,
  list_by_post-IsWellFormed, mark_unknown-IsWellFormed, random_uuid-IsWellFormed, read-IsWellFormed,
  read_clock-IsWellFormed, record_published-IsWellFormed, save_snapshot_state-IsWellFormed,
}
use social_comments_service.Repositories.InMemory.Operations.{find_by_idempotency_key}
use social_comments_service.Repositories.InMemory.Posts.{find_published_by_id}
use social_comments_service.Shared.Types.{Platform, TenantContext}

module _ {S : Type 0} (providers : Platform → Option (Provider S)) where
  abbrev pub IsFormed : World S → Type 0
  IsFormed w = IsWellFormed w.memory

  pub in_memory-PortsKeep-IsFormed :
      (c : TenantContext) → PortsKeep IsFormed (in_memory_ports providers) c
  unfolding find_by_id find_reply_by_external_id resolve_external_id find_published_by_id
      find_by_idempotency_key
  in_memory-PortsKeep-IsFormed c = record {
    list_by_post = λ q. on_memory-Keeps _ (list_by_post-IsWellFormed c q);
    find_by_id = λ i. on_memory-Keeps _ (read-IsWellFormed _);
    find_reply_by_external_id = λ i e. on_memory-Keeps _ (read-IsWellFormed _);
    resolve_external_id = λ i. on_memory-Keeps _ (read-IsWellFormed _);
    store_published_reply =
        λ o. on_memory-Keeps _ (Grows-IsWellFormed _ (store_published_reply-Grows c o));
    upsert_many = λ os. on_memory-Keeps _ (Grows-IsWellFormed _ (upsert_many-Grows c os));
    find_published_by_id = λ i. on_memory-Keeps _ (read-IsWellFormed _);
    save_snapshot_state = λ i s e. on_memory-Keeps _ (save_snapshot_state-IsWellFormed c i s e);
    find_by_idempotency_key = λ k. on_memory-Keeps _ (read-IsWellFormed _);
    claim = λ o. on_memory-Keeps _ (claim-IsWellFormed c o);
    record_published = λ i e. on_memory-Keeps _ (record_published-IsWellFormed c i e);
    complete = λ i e. on_memory-Keeps _ (complete-IsWellFormed c i e);
    fail = λ i e. on_memory-Keeps _ (fail-IsWellFormed c i e);
    mark_unknown = λ i e. on_memory-Keeps _ (mark_unknown-IsWellFormed c i e);
    provider_of = registered-ProviderKeeps providers IsWellFormed;
    now = on_memory-Keeps _ read_clock-IsWellFormed;
    random_uuid = on_memory-Keeps _ random_uuid-IsWellFormed;
  }

module _ {S : Type 0} (config : Config) (providers : Platform → Option (Provider S)) where
  -- Whatever requests are made, answered or refused, the rows of comments stay well formed: an
  -- external identifier names one row, the row that has it, and a row stands under its own
  -- identifier.
  pub handle_requests-IsWellFormed :
      (rs : List Request) (w : World S)
      → IsWellFormed w.memory
      → IsWellFormed (handle_requests config providers rs w).memory
  handle_requests-IsWellFormed rs w p =
      respond_all-Keeps (IsFormed providers) _ config rs w
        (All-of rs (λ r. in_memory-PortsKeep-IsFormed providers (context_of r))) p
