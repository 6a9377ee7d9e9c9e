-- ===== src/Comments/Service/Reply/Recorded.antt =====
-- What `replyToComment` of src/comments/comment-service.ts has recorded when it answers.
use social_comments_service.Base.{Option, none, refl, some, ◌≡◌}
use social_comments_service.Comments.Contracts.{Config, Ports, Provider}
use social_comments_service.Comments.Ensures.{
  Ensures, Ensures-bind, Ensures-catch, Ensures-either, Ensures-given, Ensures-lift,
  Ensures-of_Keeps, Ensures-of_Returns, Ensures-pure, Ensures-start, Ensures-throw,
}
use social_comments_service.Comments.Invariants.{Keeps, Keeps-bind, Keeps-lift}
use social_comments_service.Comments.Returns.{Returns, Returns-bind, Returns-throw}
use social_comments_service.Comments.Service.Replay.{
  by_status, completed_reply, expire, reconcile, recover, recover_from, replay, replay_previous,
}
use social_comments_service.Comments.Service.Reply.{
  Target, conflict, find_target, new_operation, or_throw, orphan, publish, refuse, reply_to_comment,
  reply_unless, request_fingerprint, start_reply,
}
use social_comments_service.Shared.Errors.{Thrown}
use social_comments_service.Shared.Exec.{ok}
use social_comments_service.Shared.Text.{Text}
use social_comments_service.Shared.Types.{
  Comment, ObservedComment, Platform, ProviderReplyCommand, ReplyOperation, ReplyOperationStatus,
  TenantContext, completed, failed, pending, unknown,
}

module _ {W : Type 0} (Holds : W → Type 0) (Bound Answered : Text → W → Type 0) where
  -- What a repository says that finds an operation under the key: the key is bound to it, and a
  -- completed operation answers with its comment.
  abbrev pub Found : ReplyOperation → W → Type 0
  Found o w =
      Holds w
      × Bound o.id w
      × (o.status ≡ completed → (i : Text) → o.resulting_comment_id ≡ some i → Answered i w)

  abbrev pub FoundIf : Option ReplyOperation → W → Type 0
  FoundIf none w = Holds w
  FoundIf (some o) w = Found o w

  -- After `replay`: the comment that it gives back is the one that was recorded.
  abbrev pub Replayed : Option Comment → W → Type 0
  Replayed none w = Holds w
  Replayed (some x) w = Answered x.id w

-- The ports where the operation of one key is known: `Holds` is what the repositories keep, `Bound`
-- says which operation has the key, and `Answered` that it is completed with a comment.
pub record Records {W : Type 0} (Holds : W → Type 0) (Bound Answered : Text → W → Type 0)
    (ports : Ports W) (c : TenantContext) (key : Text) : Type 0 where
  pub find_by_idempotency_key :
      Ensures Holds (FoundIf Holds Bound Answered) (ports.find_by_idempotency_key c key)
  pub claim :
      (o : ReplyOperation)
      → o.idempotency_key ≡ key
      → Ensures Holds (λ g. Found Holds Bound Answered g.operation) (ports.claim c o)
  pub find_by_id :
      (i : Text)
      → Ensures (λ w. Holds w × Answered i w) (Replayed Holds Bound Answered) (ports.find_by_id c i)
  pub complete : (id i : Text) → Ensures (Bound id) (λ o. Answered i) (ports.complete c id i)
  pub reads_held : (i : Text) → Keeps Holds (ports.find_by_id c i)
  pub post_held : (i : Text) → Keeps Holds (ports.find_published_by_id c i)
  pub external_held : (i : Text) → Keeps Holds (ports.resolve_external_id c i)
  pub uuid_held : Keeps Holds ports.random_uuid
  pub now_held : Keeps Holds ports.now
  pub reply_found :
      (id i e : Text) → Keeps (λ w. Holds w × Bound id w) (ports.find_reply_by_external_id c i e)
  pub record_bound : (id e : Text) → Keeps (Bound id) (ports.record_published c id e)
  pub store_bound :
      (id : Text) (o : ObservedComment) → Keeps (Bound id) (ports.store_published_reply c o)
  pub publish_bound :
      (id : Text) (platform : Platform) (p : Provider W) (command : ProviderReplyCommand)
      → ports.provider_of platform ≡ ok p
      → Keeps (Bound id) (p.publish_reply command)

module _ {W : Type 0} {Holds : W → Type 0} {Bound Answered : Text → W → Type 0} (ports : Ports W)
    (c : TenantContext) (key : Text) (laws : Records Holds Bound Answered ports c key) where
  expire-Records :
      (o : ReplyOperation) → Ensures Holds (Replayed Holds Bound Answered) (expire ports c o)
  unfolding expire
  expire-Records o = Ensures-bind _ _ (Ensures-of_Keeps _ laws.now_held) λ now.
      Ensures-either _ _ _ (Ensures-pure _ (λ w h. h))
        (Ensures-of_Returns _ (Returns-bind _ _ λ u. Returns-throw _))

  reconcile-Records :
      (o : ReplyOperation) (stored : Option Comment)
      → Ensures
          (λ w. Holds w × Bound o.id w)
          (Replayed Holds Bound Answered)
          (reconcile ports c o stored)
  unfolding reconcile
  reconcile-Records o none = Ensures-start _ (λ w (x, y). x) (expire-Records o)
  reconcile-Records o (some x) =
      Ensures-bind _ _ (Ensures-start _ (λ w (x, y). y) (laws.complete o.id x.id))
        λ done. Ensures-pure _ (λ w h. h)

  recover-Records :
      (o : ReplyOperation) (external : Option Text)
      → Ensures
          (λ w. Holds w × Bound o.id w)
          (Replayed Holds Bound Answered)
          (recover_from ports c o external)
  unfolding recover_from
  recover-Records o none = Ensures-start _ (λ w (x, y). x) (expire-Records o)
  recover-Records o (some e) =
      Ensures-bind _ _ (Ensures-of_Keeps _ (laws.reply_found o.id o.comment_id e))
        (reconcile-Records o)

  completed_reply-Records :
      (o : ReplyOperation) (i : Option Text)
      → o.status ≡ completed
      → o.resulting_comment_id ≡ i
      → Ensures
          (Found Holds Bound Answered o)
          (Replayed Holds Bound Answered)
          (completed_reply ports c i)
  completed_reply-Records o none s e = Ensures-pure _ (λ w (x, y, z). x)
  completed_reply-Records o (some i) s e =
      Ensures-start _ (λ w (x, y, z). (x, z s i e)) (laws.find_by_id i)

  by_status-Records :
      (o : ReplyOperation) (s : ReplyOperationStatus)
      → o.status ≡ s
      → Ensures
          (Found Holds Bound Answered o)
          (Replayed Holds Bound Answered)
          (by_status ports c o s)
  unfolding recover
  by_status-Records o completed e = completed_reply-Records o o.resulting_comment_id e refl
  by_status-Records o failed e = Ensures-throw _
  by_status-Records o unknown e = Ensures-throw _
  by_status-Records o pending e =
      Ensures-start _ (λ w (x, y, z). (x, y)) (recover-Records o o.external_reply_id)

  replay-Records :
      (o : ReplyOperation) (fingerprint : Text)
      → Ensures
          (Found Holds Bound Answered o)
          (Replayed Holds Bound Answered)
          (replay ports c o fingerprint)
  unfolding replay
  replay-Records o fingerprint =
      Ensures-either _ _ _ (Ensures-throw _) (by_status-Records o o.status refl)

  refuse-throws : (id : Text) (e : Thrown) → Returns (λ a. ⊥) (refuse ports c id e)
  unfolding refuse
  refuse-throws id e = Returns-bind _ _ λ u. Returns-throw e

  orphan-throws : (id : Text) (e : Thrown) → Returns (λ a. ⊥) (orphan ports c id e)
  unfolding orphan
  orphan-throws id e = Returns-bind _ _ λ u. Returns-throw e

  -- The provider of a target is one that the registry has.
  abbrev IsRegistered : Target W → Type 0
  IsRegistered t = (platform : Platform) × (ports.provider_of platform ≡ ok t.provider)

  publish-Records :
      (t : Target W) (body id : Text)
      → IsRegistered t
      → Ensures (Bound id) (λ x. Answered x.id) (publish ports c t body id)
  unfolding publish
  publish-Records t body id (platform, r) =
      Ensures-bind _ _
        (Ensures-catch _ _ (Ensures-of_Keeps _ (laws.publish_bound id platform t.provider _ r))
          (refuse-throws id))
        λ reply.
          Ensures-bind _ _
            (Ensures-catch _ _
              (Ensures-of_Keeps _ (
                Keeps-bind _ _ (laws.record_bound id reply.external_id)
                  λ u. laws.store_bound id reply))
              (orphan-throws id))
            λ stored. Ensures-bind _ _ (laws.complete id stored.id) λ o. Ensures-pure _ (λ w h. h)

  or_throw-Ensures :
      {A : Type 0} (e : Thrown) (o : Option A) → Ensures Holds (λ a w. Holds w) (or_throw ports e o)
  or_throw-Ensures e none = Ensures-throw e
  or_throw-Ensures e (some a) = Ensures-pure a (λ w h. h)

  find_target-Records :
      (comment_id : Text)
      → Ensures Holds (λ t w. Holds w × IsRegistered t) (find_target ports c comment_id)
  unfolding find_target
  find_target-Records comment_id =
      Ensures-bind _ _ (Ensures-of_Keeps _ (laws.reads_held comment_id)) λ found.
        Ensures-bind _ _ (or_throw-Ensures _ found) λ comment.
          Ensures-either _ _ _ (Ensures-throw _) (
            Ensures-bind _ _ (Ensures-of_Keeps _ (laws.post_held comment.post_id)) λ post_record.
              Ensures-bind _ _ (or_throw-Ensures _ post_record) λ post_found.
                Ensures-bind _ _ (Ensures-of_Keeps _ (laws.external_held comment_id)) λ external.
                  Ensures-bind _ _ (or_throw-Ensures _ external) λ parent.
                    Ensures-bind _ _ (Ensures-lift (ports.provider_of comment.platform)) λ p.
                      Ensures-given _ λ r.
                        Ensures-bind _ _ (Ensures-of_Keeps _ (Keeps-lift _))
                          λ u. Ensures-pure _ (λ w h. (h, (comment.platform, r))))

  replay_previous-Records :
      (previous : Option ReplyOperation) (fingerprint : Text)
      → Ensures
          (FoundIf Holds Bound Answered previous)
          (Replayed Holds Bound Answered)
          (replay_previous ports c previous fingerprint)
  replay_previous-Records none fingerprint = Ensures-pure none (λ w h. h)
  replay_previous-Records (some o) fingerprint = replay-Records o fingerprint

  conflict-Records :
      (r : Option Comment)
      → Ensures (Replayed Holds Bound Answered r) (λ x. Answered x.id) (conflict ports r)
  conflict-Records none = Ensures-throw _
  conflict-Records (some x) = Ensures-pure x (λ w h. h)

  module _ (config : Config) where
    start_reply-Records :
        (comment_id body fingerprint : Text)
        → Ensures Holds
            (λ x. Answered x.id)
            (start_reply ports config c comment_id body key fingerprint)
    unfolding start_reply
    start_reply-Records comment_id body fingerprint =
        Ensures-bind _ _ (find_target-Records comment_id) λ t. Ensures-given _ λ r.
          Ensures-bind _ _ (Ensures-of_Keeps _ laws.now_held) λ now.
            Ensures-bind _ _ (Ensures-of_Keeps _ laws.uuid_held) λ id.
              Ensures-bind _ _
                (laws.claim (new_operation ports id comment_id key fingerprint now) refl)
                λ g.
                  Ensures-either _ _ _
                    (Ensures-start _ (λ w (x, y, z). y) (publish-Records t body g.operation.id r))
                    (Ensures-bind _ _ (replay-Records g.operation fingerprint) conflict-Records)

    reply_unless-Records :
        (comment_id body fingerprint : Text) (r : Option Comment)
        → Ensures
            (Replayed Holds Bound Answered r)
            (λ x. Answered x.id)
            (reply_unless ports config c comment_id body key fingerprint r)
    unfolding reply_unless
    reply_unless-Records comment_id body fingerprint none =
        start_reply-Records comment_id body fingerprint
    reply_unless-Records comment_id body fingerprint (some x) = Ensures-pure x (λ w h. h)

    -- A reply that is answered is recorded: the operation of its key is completed with it.
    pub reply_to_comment-Records :
        (comment_id body : Text)
        → Ensures Holds (λ x. Answered x.id) (reply_to_comment ports config c comment_id body key)
    unfolding reply_to_comment reply_unless
    reply_to_comment-Records comment_id body =
        Ensures-bind _ _ (Ensures-of_Keeps _ (Keeps-lift _)) λ u.
          Ensures-bind _ _ laws.find_by_idempotency_key λ previous.
            Ensures-bind _ _
              (replay_previous-Records previous (request_fingerprint config comment_id body))
              (reply_unless-Records comment_id body _)
