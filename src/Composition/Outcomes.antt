-- ===== src/Composition/Outcomes.antt =====
-- How a granted claim ends, over the in-memory composition.
use social_comments_service.Base.{
  Option, [], ap, arith, inl, inr, refl, some, some_injective, sym, true, ◌∙◌, ◌∷◌, ◌≡◌,
}
use social_comments_service.Comments.Contracts.{Provider}
use social_comments_service.Comments.Returns.{Returns, Returns-bind}
use social_comments_service.Comments.Service.Reply.{
  Target, orphan, proves_rejection, publish, refuse,
}
use social_comments_service.Composition.{
  World, ask_to_publish, in_memory_ports, in_world, on_client, on_memory,
}
use social_comments_service.Composition.Steps.{
  IsOpen, IsSettled, IsUnknown, Settles, Steps, Steps-bind, Steps-catch, bind-IsOpen,
}
use social_comments_service.Repositories.InMemory.{Memory}
use social_comments_service.Repositories.InMemory.Comments.Shown.{store_published_reply-shown}
use social_comments_service.Repositories.InMemory.Operations.{mark_unknown, record_published}
use social_comments_service.Repositories.InMemory.Operations.Cases.{update_cases}
use social_comments_service.Repositories.InMemory.Operations.Settles.{
  IsPendingAt, complete_accepts, done, lost, mark_unknown_accepts,
}
use social_comments_service.Repositories.InMemory.Separation.{
  store_published_reply-LeavesOperations,
}
use social_comments_service.Repositories.TenantScoped.{get}
use social_comments_service.Repositories.TenantScoped.Laws.{get-set_self}
use social_comments_service.Shared.Errors.{ServiceErrorCode, Thrown, code_text, to_failure_code}
use social_comments_service.Shared.Exec.{Exec, catch, err, ok, pure, ◌>>=◌, ◌>>◌}
use social_comments_service.Shared.Text.{Text, is_non_empty_string, is_space, trim_start}
use social_comments_service.Shared.Types.{
  Comment, ObservedComment, Platform, ProviderReplyCommand, PublishedPost, ReplyOperation,
  TenantContext, pending,
}

code_text-shown : (code : ServiceErrorCode) → is_non_empty_string (code_text code) ≡ true
unfolding is_non_empty_string trim_start is_space
code_text-shown code = ground arith

in_world-Returns :
    {S A : Type 0} {P : A → Type 0} (m : Exec Memory A)
    → Returns P m
    → Returns P (on_memory {S = S} m)
unfolding on_memory
in_world-Returns m r = record { at = λ w a e. r.at w.memory a e }

module _ {S : Type 0} (providers : Platform → Option (Provider S)) (c : TenantContext)
    (id : Text) where
  -- Marking a pending operation unknown succeeds.
  mark_unknown-IsUnknown :
      (code : ServiceErrorCode) (w : World S)
      → IsOpen c id w
      → (u : ReplyOperation) × (w' : World S) × ((in_memory_ports providers).mark_unknown c id
            (code_text code)
            w
          ≡ (ok (some u), w'))
        × IsUnknown w'.memory c.account_id id
  unfolding on_memory IsOpen
  mark_unknown-IsUnknown code w (o, h) =
      let now = w.memory.sources.clock w.memory.sources.reads in
      let run = mark_unknown_accepts c id w.memory o h (code_text code) (code_text-shown code) in
      (
        lost c id w.memory o h (code_text code) now,
        record w { memory = (mark_unknown c id (code_text code) w.memory).1 },
        rw (run),
        (
          lost c id w.memory o h (code_text code) now,
          rw (run) (
              get-set_self w.memory.operations c.account_id id
                (lost c id w.memory o h (code_text code) now)),
          refl,
        ),
      )

  refuse_step :
      (e : Thrown) (w : World S)
      → IsOpen c id w
      → ((refuse (in_memory_ports providers) c id e w).0 ≡ err e)
        × IsUnknown (refuse (in_memory_ports providers) c id e w).1.memory c.account_id id
  unfolding refuse proves_rejection ◌>>=◌
  refuse_step e w h =
      let (u, w', r, k) = mark_unknown-IsUnknown (to_failure_code e) w h in rw (r) (refl, k)

  orphan_step :
      (e : Thrown) (w : World S)
      → IsOpen c id w
      → ((orphan (in_memory_ports providers) c id e w).0 ≡ err e)
        × IsUnknown (orphan (in_memory_ports providers) c id e w).1.memory c.account_id id
  unfolding orphan ◌>>=◌
  orphan_step e w h =
      let (u, w', r, k) = mark_unknown-IsUnknown ServiceErrorCode.reply_outcome_unknown w h in
      rw (r) (refl, k)

  -- The provider's answer, or its failure.
  publish_step :
      (p : Provider S) (command : ProviderReplyCommand)
      → Steps c id
          (λ _. Unit {0})
          (catch (ask_to_publish p.publish_reply command) (refuse (in_memory_ports providers) c id))
  unfolding ask_to_publish on_client IsOpen
  publish_step p command = Steps-catch c id _ _ (λ w h. h) (record { at = λ w a e. tt }) refuse_step

  -- The external identifier is recorded, or the call throws and changes nothing.
  record_step :
      (i : Text) (w : World S)
      → IsOpen c id w
      → IsOpen c id ((in_memory_ports providers).record_published c id i w).1
  unfolding on_memory record_published IsOpen
  record_step i w (o, h) =
      elim (update_cases c id (λ p. record p { external_reply_id = some i }) (pending ∷ [])
        w.memory) [
          | inl (e, r) ↦ rw (r) (o, h)
          | inr (p, row, t, v, r) ↦ rw (r) (
            record p { external_reply_id = some i },
            record {
              row =
                  get-set_self w.memory.operations c.account_id id
                    (record p { external_reply_id = some i });
              pending_status =
                  ap (λ q. q.status) (some_injective (sym row ∙ h.row)) ∙ h.pending_status;
              valid = v;
            },
          )
        ]

  store_step :
      (reply : ObservedComment) (w : World S)
      → IsOpen c id w
      → IsOpen c id ((in_memory_ports providers).store_published_reply c reply w).1
  unfolding on_memory IsOpen
  store_step reply w (o, h) = (
    o,
    record {
      row =
          ap (λ t. get t c.account_id id)
            ((store_published_reply-LeavesOperations c reply).operations w.memory)
          ∙ h.row;
      pending_status = h.pending_status;
      valid = h.valid;
    },
  )

  keep_step :
      (reply : ObservedComment)
      → Steps c id
          (λ s. is_non_empty_string s.id ≡ true)
          (catch
            (do
              (in_memory_ports providers).record_published c id reply.external_id
              (in_memory_ports providers).store_published_reply c reply)
            (orphan (in_memory_ports providers) c id))
  keep_step reply =
      Steps-catch c id _ _
        (λ w h. bind-IsOpen c id _ _ (record_step reply.external_id) (λ _. store_step reply) w h)
        (Returns-bind _ _ λ _. in_world-Returns _ (store_published_reply-shown c reply)) orphan_step

  complete_step :
      (s : Comment)
      → is_non_empty_string s.id ≡ true
      → Settles c id (do (in_memory_ports providers).complete c id s.id; pure s)
  unfolding ◌>>=◌ on_memory IsOpen
  complete_step s n = record {
    at = λ w (o, h).
        let now = w.memory.sources.clock w.memory.sources.reads in
        rw (complete_accepts c id w.memory o h s.id n) (
          inl (
            s,
            done c id w.memory o h s.id now,
            refl,
            get-set_self w.memory.operations c.account_id id (done c id w.memory o h s.id now),
            refl,
            refl,
          ));
  }

  -- What a request finds for a comment of a platform with an adapter.
  abbrev pub target_of : Comment → PublishedPost → Text → Provider S → Target (World S)
  target_of comment its_post external_id p = record {
    comment = comment;
    post = its_post;
    parent_external_comment_id = external_id;
    provider = in_world p;
  }

  -- Over the in-memory composition, whose `complete` and `markUnknown` accept every valid pending
  -- operation, a granted claim is settled. If the operation is pending and valid, then after the
  -- publication, whether the provider publishes or throws and whatever the storage of the reply
  -- refuses, either the stored reply is returned and the operation is completed with it, or the
  -- request throws and the operation is unknown.
  pub publish_settles :
      (comment : Comment) (its_post : PublishedPost) (external_id : Text) (p : Provider S)
      (body : Text) (w : World S) (o : ReplyOperation)
      → IsPendingAt w.memory c.account_id id o
      → IsSettled
          (publish
            (in_memory_ports providers)
            c
            (target_of comment its_post external_id p)
            body
            id
            w).1.memory
          c.account_id
          id
          (publish
            (in_memory_ports providers)
            c
            (target_of comment its_post external_id p)
            body
            id
            w).0
  unfolding publish IsOpen
  publish_settles comment its_post external_id p body w o h =
      (Steps-bind c id _ _ (publish_step p _)
          (λ reply _. Steps-bind c id _ _ (keep_step reply) complete_step)).at
        w (o, h)
