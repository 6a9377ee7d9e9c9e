-- ===== src/Composition/Recorded.antt =====
-- Over the in-memory composition, a reply that is answered is the one that its key has recorded.
use social_comments_service.Base.{
  List, Option, Option-cases, ap, inl, inr, none, some, subst, sym, ◌∙◌, ◌≡◌,
}
use social_comments_service.Comments.Contracts.{Config, Provider}
use social_comments_service.Comments.Ensures.{Ensures, Ensures-weaken}
use social_comments_service.Comments.Invariants.{Keeps}
use social_comments_service.Comments.Service.Reply.{reply_to_comment}
use social_comments_service.Comments.Service.Reply.Recorded.{
  Found, FoundIf, Records, Replayed, reply_to_comment-Records,
}
use social_comments_service.Comments.Service.Requests.{Request}
use social_comments_service.Composition.{World, in_memory_ports, on_memory}
use social_comments_service.Composition.Keeping.{
  on_memory-Ensures, on_memory-Keeps, registered-ProviderKeeps,
}
use social_comments_service.Composition.Requests.{handle_requests}
use social_comments_service.Composition.Sound.{
  IsSound, LeavesOperations-HasOwnIds, handle_requests-IsSound,
}
use social_comments_service.Repositories.InMemory.{Memory}
use social_comments_service.Repositories.InMemory.Comments.{
  find_by_id, find_reply_by_external_id, resolve_external_id, to_comment, to_comment_or_null,
}
use social_comments_service.Repositories.InMemory.Comments.Complete.{to_comment-id}
use social_comments_service.Repositories.InMemory.Comments.Stores.{IsWellFormed}
use social_comments_service.Repositories.InMemory.Formed.{
  claim-IsWellFormed, random_uuid-IsWellFormed, read_clock-IsWellFormed,
}
use social_comments_service.Repositories.InMemory.Operations.{
  by_idempotency_key, claim, find_by_idempotency_key,
}
use social_comments_service.Repositories.InMemory.Operations.Answered.{
  IsAnswered, claim-HasOwnIds, claim-finds, complete-IsAnswered, found-IsBound,
  record_published-claimed_keys,
}
use social_comments_service.Repositories.InMemory.Posts.{find_published_by_id}
use social_comments_service.Repositories.InMemory.Separation.{
  LeavesOperations, find_by_id-LeavesOperations, find_published_by_id-LeavesOperations,
  random_uuid-LeavesOperations, read_clock-LeavesOperations, resolve_external_id-LeavesOperations,
  store_published_reply-LeavesOperations,
}
use social_comments_service.Repositories.TenantScoped.{get}
use social_comments_service.Shared.Exec.{Exec, Result-cases, ok}
use social_comments_service.Shared.Text.{Text}
use social_comments_service.Shared.Types.{Comment, Platform, ReplyOperation, TenantContext}

module _ {S : Type 0} where
  abbrev Holds : World S → Type 0
  Holds w = IsSound w.memory

module _ (c : TenantContext) (key : Text) where
  abbrev IsBoundTo : Text → Memory → Type 0
  IsBoundTo id m = get m.claimed_keys c.account_id key ≡ some id

  abbrev Answered : Text → Memory → Type 0
  Answered = IsAnswered c.account_id key

  found-Found :
      (m : Memory) (o : ReplyOperation)
      → IsSound m
      → by_idempotency_key m c.account_id key ≡ ok (some o)
      → Found IsSound IsBoundTo Answered o m
  found-Found m o (w, h) e =
      let (id, b) = found-IsBound m c.account_id key o e in
      ((w, h), b.key ∙ ap (λ t. some t) (sym (h c.account_id id o b.row)), λ s i r. (o, e, s, r))

  find_by_idempotency_key-Found :
      Ensures IsSound (FoundIf IsSound IsBoundTo Answered) (find_by_idempotency_key c key)
  unfolding find_by_idempotency_key
  find_by_idempotency_key-Found = record {
    leaves = λ m r h e.
        elim r
            as (λ x.
              by_idempotency_key m c.account_id key ≡ ok x
              → FoundIf IsSound IsBoundTo Answered x m) [
                | none ↦ λ f. h
                | some o ↦ λ f. found-Found m o h f
              ]
          e;
  }

  claim-Found :
      (o : ReplyOperation)
      → o.idempotency_key ≡ key
      → Ensures IsSound (λ g. Found IsSound IsBoundTo Answered g.operation) (claim c o)
  claim-Found o same = record {
    leaves = λ m g (w, h) e.
        found-Found (claim c o m).1 g.operation
          ((claim-IsWellFormed c o).kept m w, (claim-HasOwnIds c o).kept m h)
          (subst (λ k. by_idempotency_key (claim c o m).1 c.account_id k ≡ ok (some g.operation))
            same (claim-finds c o m g e));
  }

  find_by_id-Answered :
      (i : Text)
      → Ensures
          (λ m. IsSound m × Answered i m)
          (Replayed IsSound IsBoundTo Answered)
          (find_by_id c i)
  unfolding find_by_id
  find_by_id-Answered i = record {
    leaves = λ m r ((w, h), answered) e. elim (Option-cases (get m.by_id c.account_id i)) [
      | inl x ↦
          let missed : none ≡ r = cc (rw x at e) in
          subst (λ z. Replayed IsSound IsBoundTo Answered z m) missed (w, h)
      | inr (s, x) ↦ elim (Result-cases (to_comment m c.account_id s)) [
        | inl (f, y) ↦ absurd (cc (rw (x, to_comment_or_null, y) at e))
        | inr (d, y) ↦
            let shown : some d ≡ r = cc (rw (x, to_comment_or_null, y) at e) in
            let same : i ≡ d.id =
              sym (to_comment-id m c.account_id s d y ∙ (w.names c.account_id i s x).0) in
            subst (λ z. Replayed IsSound IsBoundTo Answered z m) shown
              (subst (λ j. Answered j m) same answered)
      ]
    ];
  }

module _ {S : Type 0} (providers : Platform → Option (Provider S)) (c : TenantContext)
    (key : Text) where
  quiet-Keeps :
      {A : Type 0} (f : Exec Memory A)
      → Keeps IsWellFormed f
      → LeavesOperations f
      → Keeps (Holds {S = S}) (on_memory f)
  quiet-Keeps f k l =
      on_memory-Keeps f
        (record { kept = λ m (w, h). (k.kept m w, (LeavesOperations-HasOwnIds f l).kept m h) })

  bound-Keeps :
      {A : Type 0} (id : Text) (f : Exec Memory A)
      → ((m : Memory) → (f m).1.claimed_keys ≡ m.claimed_keys)
      → Keeps (λ (w : World S). IsBoundTo c key id w.memory) (on_memory f)
  bound-Keeps id f same =
      on_memory-Keeps f (record { kept = λ m b. ap (λ t. get t c.account_id key) (same m) ∙ b })

  found_in_world :
      (r : Option ReplyOperation) (w : World S)
      → FoundIf IsSound (IsBoundTo c key) (Answered c key) r w.memory
      → FoundIf Holds (λ id v. IsBoundTo c key id v.memory) (λ i v. Answered c key i v.memory) r w
  found_in_world none w h = h
  found_in_world (some o) w h = h

  replayed_in_world :
      (r : Option Comment) (w : World S)
      → Replayed IsSound (IsBoundTo c key) (Answered c key) r w.memory
      → Replayed Holds (λ id v. IsBoundTo c key id v.memory) (λ i v. Answered c key i v.memory) r w
  replayed_in_world none w h = h
  replayed_in_world (some x) w h = h

  in_memory-Records :
      Records
        (Holds {S = S})
        (λ id w. IsBoundTo c key id w.memory)
        (λ i w. Answered c key i w.memory)
        (in_memory_ports providers)
        c
        key
  unfolding find_by_id find_published_by_id resolve_external_id find_reply_by_external_id on_memory
  in_memory-Records = record {
    find_by_idempotency_key =
        Ensures-weaken _ found_in_world (on_memory-Ensures _ (find_by_idempotency_key-Found c key));
    claim = λ o same. on_memory-Ensures _ (claim-Found c key o same);
    find_by_id =
        λ i. Ensures-weaken _ replayed_in_world (on_memory-Ensures _ (find_by_id-Answered c key i));
    complete = λ id i. on_memory-Ensures _ (complete-IsAnswered c key id i);
    reads_held = λ i.
        quiet-Keeps (find_by_id c i) (record { kept = λ m h. h }) (find_by_id-LeavesOperations c i);
    post_held = λ i.
        quiet-Keeps (find_published_by_id c i) (record { kept = λ m h. h })
          (find_published_by_id-LeavesOperations c i);
    external_held = λ i.
        quiet-Keeps (resolve_external_id c i) (record { kept = λ m h. h })
          (resolve_external_id-LeavesOperations c i);
    uuid_held = quiet-Keeps _ random_uuid-IsWellFormed random_uuid-LeavesOperations;
    now_held = quiet-Keeps _ read_clock-IsWellFormed read_clock-LeavesOperations;
    reply_found = λ id i e. record { kept = λ w h. h };
    record_bound = λ id e. bound-Keeps id _ (record_published-claimed_keys c id e);
    store_bound =
        λ id o. bound-Keeps id _ (store_published_reply-LeavesOperations c o).claimed_keys;
    publish_bound = λ id platform p command r.
        (registered-ProviderKeeps providers (IsBoundTo c key id) platform p r).publish_reply
          command;
  }

module _ {S : Type 0} (config : Config) (providers : Platform → Option (Provider S)) where
  -- A reply that is answered is recorded, whatever requests came before: if replyToComment returns
  -- a comment, newly published, replayed or recovered, then the key finds a completed operation
  -- whose resulting comment is that comment.
  pub reply_to_comment-IsAnswered :
      (rs : List Request) (w : World S) (c : TenantContext) (comment_id body key : Text)
      (x : Comment)
      → IsSound w.memory
      → (reply_to_comment
          (in_memory_ports providers)
          config
          c
          comment_id
          body
          key
          (handle_requests config providers rs w)).0
        ≡ ok x
      → IsAnswered c.account_id key x.id
          (reply_to_comment
            (in_memory_ports providers)
            config
            c
            comment_id
            body
            key
            (handle_requests config providers rs w)).1.memory
  reply_to_comment-IsAnswered rs w c comment_id body key x sound e =
      (reply_to_comment-Records (in_memory_ports providers) c key
          (in_memory-Records providers c key) config comment_id body).leaves
        (handle_requests config providers rs w) x
        (handle_requests-IsSound config providers rs w sound) e
