-- ===== src/Composition/Isolation.antt =====
-- The tenants of the in-memory composition do not see one another.
use social_comments_service.Base.{All, All-map, List, Option, false, ◌≡◌}
use social_comments_service.Comments.Contracts.{Config, Provider}
use social_comments_service.Comments.Invariants.{PortsKeep}
use social_comments_service.Comments.Service.Requests.{Request, context_of}
use social_comments_service.Comments.Service.Requests.Kept.{respond_all-Keeps}
use social_comments_service.Composition.{World, in_memory_ports}
use social_comments_service.Composition.Keeping.{on_memory-Keeps, registered-ProviderKeeps}
use social_comments_service.Composition.Requests.{handle_requests}
use social_comments_service.Repositories.InMemory.{Memory}
use social_comments_service.Repositories.InMemory.Comments.{
  find_by_id, find_reply_by_external_id, resolve_external_id,
}
use social_comments_service.Repositories.InMemory.Operations.{find_by_idempotency_key}
use social_comments_service.Repositories.InMemory.Posts.{find_published_by_id}
use social_comments_service.Repositories.InMemory.Tenants.{
  SeenAlike, SeenAlike-refl, claim-SeenAlike, complete-SeenAlike, fail-SeenAlike,
  list_by_post-SeenAlike, mark_unknown-SeenAlike, random_uuid-SeenAlike, read-SeenAlike,
  read_clock-SeenAlike, record_published-SeenAlike, save_snapshot_state-SeenAlike,
  store_published_reply-SeenAlike, upsert_many-SeenAlike,
}
use social_comments_service.Shared.Text.{Text, text_eq}
use social_comments_service.Shared.Types.{Platform, TenantContext}

module _ {S : Type 0} (providers : Platform → Option (Provider S)) (b : Text) (m₀ : Memory) where
  -- The world in which a tenant sees what it saw.
  abbrev pub LooksSame : World S → Type 0
  LooksSame w = SeenAlike b m₀ w.memory

  in_memory-PortsKeep :
      (c : TenantContext)
      → text_eq c.account_id b ≡ false
      → PortsKeep LooksSame (in_memory_ports providers) c
  unfolding find_by_id find_reply_by_external_id resolve_external_id find_published_by_id
      find_by_idempotency_key
  in_memory-PortsKeep c other = record {
    list_by_post = λ q. on_memory-Keeps _ (list_by_post-SeenAlike c other q);
    find_by_id = λ i. on_memory-Keeps _ (read-SeenAlike _);
    find_reply_by_external_id = λ i e. on_memory-Keeps _ (read-SeenAlike _);
    resolve_external_id = λ i. on_memory-Keeps _ (read-SeenAlike _);
    store_published_reply = λ o. on_memory-Keeps _ (store_published_reply-SeenAlike c other o);
    upsert_many = λ os. on_memory-Keeps _ (upsert_many-SeenAlike c other os);
    find_published_by_id = λ i. on_memory-Keeps _ (read-SeenAlike _);
    save_snapshot_state = λ i s e. on_memory-Keeps _ (save_snapshot_state-SeenAlike c other i s e);
    find_by_idempotency_key = λ k. on_memory-Keeps _ (read-SeenAlike _);
    claim = λ o. on_memory-Keeps _ (claim-SeenAlike c other o);
    record_published = λ i e. on_memory-Keeps _ (record_published-SeenAlike c other i e);
    complete = λ i e. on_memory-Keeps _ (complete-SeenAlike c other i e);
    fail = λ i e. on_memory-Keeps _ (fail-SeenAlike c other i e);
    mark_unknown = λ i e. on_memory-Keeps _ (mark_unknown-SeenAlike c other i e);
    provider_of = registered-ProviderKeeps providers (SeenAlike b m₀);
    now = on_memory-Keeps _ read_clock-SeenAlike;
    random_uuid = on_memory-Keeps _ random_uuid-SeenAlike;
  }

-- The tenant of a request.
abbrev pub tenant_of : Request → Text
tenant_of r = (context_of r).account_id

module _ {S : Type 0} (config : Config) (providers : Platform → Option (Provider S))
    (b : Text) where
  -- Any sequence of requests of other tenants, answered or refused, leaves a tenant's comments,
  -- external identifiers, snapshots, operations and keys as they were.
  pub tenants_isolated :
      (rs : List Request) (w : World S)
      → All (λ r. text_eq (tenant_of r) b ≡ false) rs
      → SeenAlike b w.memory (handle_requests config providers rs w).memory
  tenants_isolated rs w others =
      respond_all-Keeps (LooksSame providers b w.memory) _ config rs w
        (All-map rs (λ r. in_memory-PortsKeep providers b w.memory (context_of r)) others)
        (SeenAlike-refl b w.memory)
