-- ===== src/Composition/Sound.antt =====
-- What any requests leave in the in-memory repositories: well-formed rows of comments, and
-- operations under their own identifiers.
use social_comments_service.Base.{All-of, List, Option, ap, sym, ◌∙◌}
use social_comments_service.Comments.Contracts.{Config, Provider}
use social_comments_service.Comments.Invariants.{Keeps, PortsKeep}
use social_comments_service.Comments.Service.Requests.{Request, context_of}
use social_comments_service.Comments.Service.Requests.Kept.{respond_all-Keeps}
use social_comments_service.Composition.{World, in_memory_ports, on_memory}
use social_comments_service.Composition.Formed.{handle_requests-IsWellFormed}
use social_comments_service.Composition.Keeping.{on_memory-Keeps, registered-ProviderKeeps}
use social_comments_service.Composition.Requests.{handle_requests}
use social_comments_service.Repositories.InMemory.{Memory}
use social_comments_service.Repositories.InMemory.Comments.Stores.{IsWellFormed}
use social_comments_service.Repositories.InMemory.Operations.Answered.{
  HasOwnIds, claim-HasOwnIds, complete-HasOwnIds, fail-HasOwnIds, mark_unknown-HasOwnIds,
  record_published-HasOwnIds,
}
use social_comments_service.Repositories.InMemory.Separation.{
  LeavesOperations, find_by_id-LeavesOperations, find_by_idempotency_key-LeavesOperations,
  find_published_by_id-LeavesOperations, find_reply_by_external_id-LeavesOperations,
  list_by_post-LeavesOperations, random_uuid-LeavesOperations, read_clock-LeavesOperations,
  resolve_external_id-LeavesOperations, save_snapshot_state-LeavesOperations,
  store_published_reply-LeavesOperations, upsert_many-LeavesOperations,
}
use social_comments_service.Repositories.TenantScoped.{get}
use social_comments_service.Shared.Exec.{Exec}
use social_comments_service.Shared.Types.{Platform, TenantContext}

-- The memory after any requests: rows of comments are well formed, and operations stand under their
-- own identifiers.
abbrev pub IsSound : Memory → Type 0
IsSound m = IsWellFormed m × HasOwnIds m

abbrev HasOwned : {S : Type 0} → World S → Type 0
HasOwned w = HasOwnIds w.memory

pub LeavesOperations-HasOwnIds :
    {A : Type 0} (f : Exec Memory A) → LeavesOperations f → Keeps HasOwnIds f
LeavesOperations-HasOwnIds f l = record {
  kept = λ m h a id o r. h a id o (ap (λ t. get t a id) (sym (l.operations m)) ∙ r);
}

module _ {S : Type 0} (providers : Platform → Option (Provider S)) (c : TenantContext) where
  owned-Keeps :
      {A : Type 0} (f : Exec Memory A) → LeavesOperations f → Keeps (HasOwned {S = S}) (on_memory f)
  owned-Keeps f l = on_memory-Keeps f (LeavesOperations-HasOwnIds f l)

  in_memory-PortsKeep-HasOwned : PortsKeep (HasOwned {S = S}) (in_memory_ports providers) c
  in_memory-PortsKeep-HasOwned = record {
    list_by_post = λ q. owned-Keeps _ (list_by_post-LeavesOperations c q);
    find_by_id = λ i. owned-Keeps _ (find_by_id-LeavesOperations c i);
    find_reply_by_external_id =
        λ i e. owned-Keeps _ (find_reply_by_external_id-LeavesOperations c i e);
    resolve_external_id = λ i. owned-Keeps _ (resolve_external_id-LeavesOperations c i);
    store_published_reply = λ o. owned-Keeps _ (store_published_reply-LeavesOperations c o);
    upsert_many = λ os. owned-Keeps _ (upsert_many-LeavesOperations c os);
    find_published_by_id = λ i. owned-Keeps _ (find_published_by_id-LeavesOperations c i);
    save_snapshot_state = λ i s e. owned-Keeps _ (save_snapshot_state-LeavesOperations c i s e);
    find_by_idempotency_key = λ k. owned-Keeps _ (find_by_idempotency_key-LeavesOperations c k);
    claim = λ o. on_memory-Keeps _ (claim-HasOwnIds c o);
    record_published = λ i e. on_memory-Keeps _ (record_published-HasOwnIds c i e);
    complete = λ i e. on_memory-Keeps _ (complete-HasOwnIds c i e);
    fail = λ i e. on_memory-Keeps _ (fail-HasOwnIds c i e);
    mark_unknown = λ i e. on_memory-Keeps _ (mark_unknown-HasOwnIds c i e);
    provider_of = registered-ProviderKeeps providers HasOwnIds;
    now = owned-Keeps _ read_clock-LeavesOperations;
    random_uuid = owned-Keeps _ random_uuid-LeavesOperations;
  }

module _ {S : Type 0} (config : Config) (providers : Platform → Option (Provider S)) where
  pub handle_requests-IsSound :
      (rs : List Request) (w : World S)
      → IsSound w.memory
      → IsSound (handle_requests config providers rs w).memory
  handle_requests-IsSound rs w (p, h) = (
    handle_requests-IsWellFormed config providers rs w p,
    respond_all-Keeps HasOwned _ config rs w
        (All-of rs (λ r. in_memory-PortsKeep-HasOwned providers (context_of r))) h,
  )
