-- ===== src/Composition/Lawful.antt =====
-- The in-memory composition meets the laws of the ports.
-- A key is taken while the index binds it to a valid operation.
use social_comments_service.Base.{
  Bool, Option, Option-cases, ap, arith, inl, inr, length, refl, true, ◌∙◌, ◌≡◌,
}
use social_comments_service.Comments.Contracts.{Provider}
use social_comments_service.Comments.Laws.{PortLaws, ProviderLaws}
use social_comments_service.Comments.Observation.{IsQuiet, IsSingle, Observation}
use social_comments_service.Composition.{
  World, ask_to_publish, in_memory_ports, in_world, on_client, on_memory, registered,
}
use social_comments_service.Repositories.InMemory.{Memory}
use social_comments_service.Repositories.InMemory.Operations.{claim}
use social_comments_service.Repositories.InMemory.Operations.Claims.{claim_granted}
use social_comments_service.Repositories.InMemory.Operations.History.{
  Effect-IsBound_some, IsBound, IsBound-find,
}
use social_comments_service.Repositories.InMemory.Operations.Lifecycle.{
  Effect, claim-Effect, complete-Effect, fail-Effect, mark_unknown-Effect, record_published-Effect,
}
use social_comments_service.Repositories.InMemory.Separation.{
  LeavesOperations, find_by_id-LeavesOperations, find_by_idempotency_key-LeavesOperations,
  find_published_by_id-LeavesOperations, find_reply_by_external_id-LeavesOperations,
  list_by_post-LeavesOperations, random_uuid-LeavesOperations, read_clock-LeavesOperations,
  resolve_external_id-LeavesOperations, save_snapshot_state-LeavesOperations,
  store_published_reply-LeavesOperations, upsert_many-LeavesOperations,
}
use social_comments_service.Shared.Exec.{Exec, ok}
use social_comments_service.Shared.Text.{Text}
use social_comments_service.Shared.Types.{
  ObservedComment, Platform, ProviderReplyCommand, ReplyOperation, ReplyOperationClaim,
  TenantContext,
}

abbrev pub KeyTaken : Memory → Text → Text → Type 0
KeyTaken m a k = (id : Text) × (o : ReplyOperation) × IsBound m a k id o

module _ {S : Type 0} where
  abbrev pub world_observation : Observation (World S)
  world_observation = record {
    IsTaken = λ a k w. KeyTaken w.memory a k;
    publications = λ w. length w.published;
  }

  module _ {A : Type 0} where
    on_memory-IsQuiet :
        (f : Exec Memory A)
        → ((m : Memory) (a k : Text) → KeyTaken m a k → KeyTaken (f m).1 a k)
        → IsQuiet world_observation (on_memory f)
    unfolding on_memory
    on_memory-IsQuiet f h = record { keeps = λ w a k t. h w.memory a k t; silent = λ w. refl }

    LeavesOperations-IsQuiet :
        (f : Exec Memory A) → LeavesOperations f → IsQuiet world_observation (on_memory f)
    LeavesOperations-IsQuiet f p = on_memory-IsQuiet f λ m a k (id, o, b). (
      id,
      o,
      record {
        key = rw (p.claimed_keys m) b.key;
        row = rw (p.operations m) b.row;
        valid = b.valid;
      },
    )

    Effect-IsQuiet :
        (f : Exec Memory A)
        → ((m : Memory) → Effect (λ a i. Unit) m (f m).1)
        → IsQuiet world_observation (on_memory f)
    Effect-IsQuiet f e =
        on_memory-IsQuiet f
          λ m a k (id, o, b). let (o', b') = Effect-IsBound_some a k id o (e m) b in (id, o', b')

    on_client-IsQuiet : (f : Exec S A) → IsQuiet world_observation (on_client f)
    unfolding on_client
    on_client-IsQuiet f = record { keeps = λ w a k t. t; silent = λ w. refl }

  ask_to_publish-IsSingle :
      (f : ProviderReplyCommand → Exec S ObservedComment) (c : ProviderReplyCommand)
      → IsSingle world_observation (ask_to_publish f c)
  unfolding ask_to_publish
  ask_to_publish-IsSingle f c = record { keeps = λ w a k t. t; single = λ w. omega arith }

  registered-ProviderLaws :
      (providers : Platform → Option (Provider S)) (p : Platform) (r : Provider (World S))
      → registered providers p ≡ ok r
      → ProviderLaws world_observation r
  unfolding registered
  registered-ProviderLaws providers p r h = elim (Option-cases (providers p)) [
    | inl e ↦ absurd (cc (rw (e, registered) at h))
    | inr (q, e) ↦
        let same : in_world q ≡ r = cc (rw (e, registered) at h) in
        rw (← same) (record {
          list_page = λ x. on_client-IsQuiet (q.list_page x);
          publish_reply = λ c. ask_to_publish-IsSingle q.publish_reply c;
        })
  ]

  claim_takes :
      (c : TenantContext) (o : ReplyOperation) (w : World S) (g : ReplyOperationClaim)
      → (on_memory (claim c o) w).0 ≡ ok g
      → g.claimed ≡ true
      → KeyTaken (on_memory (claim c o) w).1.memory c.account_id o.idempotency_key
        × ¬ KeyTaken w.memory c.account_id o.idempotency_key
  unfolding on_memory
  claim_takes c o w g h t =
      let answered : (claim c o w.memory).0
          ≡ ok (record { operation = g.operation; claimed = true }) =
        h ∙ ap (λ (b : Bool). ok (record { operation = g.operation; claimed = b })) t in
      let whole : claim c o w.memory
          ≡ (ok (record { operation = g.operation; claimed = true }), (claim c o w.memory).1) =
        λ i. (answered i, (claim c o w.memory).1) in
      let (bound, _, free) = claim_granted c o w.memory (claim c o w.memory).1 g.operation whole in
      ((o.id, g.operation, bound), λ (id, p, b). cc (free, IsBound-find b))

  -- The in-memory repositories and any registered providers satisfy the laws of the ports:
  -- nothing but a provider's publication is seen as one, no call releases a key, and a claim is
  -- granted for a free key only and takes it.
  pub in_memory-PortLaws :
      (providers : Platform → Option (Provider S))
      → PortLaws world_observation (in_memory_ports providers)
  in_memory-PortLaws providers = record {
    list_by_post = λ c q. LeavesOperations-IsQuiet _ (list_by_post-LeavesOperations c q);
    find_by_id = λ c i. LeavesOperations-IsQuiet _ (find_by_id-LeavesOperations c i);
    find_reply_by_external_id =
        λ c i e. LeavesOperations-IsQuiet _ (find_reply_by_external_id-LeavesOperations c i e);
    resolve_external_id =
        λ c i. LeavesOperations-IsQuiet _ (resolve_external_id-LeavesOperations c i);
    store_published_reply =
        λ c o. LeavesOperations-IsQuiet _ (store_published_reply-LeavesOperations c o);
    upsert_many = λ c os. LeavesOperations-IsQuiet _ (upsert_many-LeavesOperations c os);
    find_published_by_id =
        λ c i. LeavesOperations-IsQuiet _ (find_published_by_id-LeavesOperations c i);
    save_snapshot_state =
        λ c i s e. LeavesOperations-IsQuiet _ (save_snapshot_state-LeavesOperations c i s e);
    find_by_idempotency_key =
        λ c k. LeavesOperations-IsQuiet _ (find_by_idempotency_key-LeavesOperations c k);
    claim = λ c o. Effect-IsQuiet _ (λ m. claim-Effect c o m tt);
    record_published = λ c i e. Effect-IsQuiet _ (record_published-Effect c i e);
    complete = λ c i e. Effect-IsQuiet _ (complete-Effect c i e);
    fail = λ c i e. Effect-IsQuiet _ (fail-Effect c i e);
    mark_unknown = λ c i e. Effect-IsQuiet _ (mark_unknown-Effect c i e);
    provider_of = registered-ProviderLaws providers;
    now = LeavesOperations-IsQuiet _ read_clock-LeavesOperations;
    random_uuid = LeavesOperations-IsQuiet _ random_uuid-LeavesOperations;
    claim_takes = claim_takes;
  }
