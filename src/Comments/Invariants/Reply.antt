-- ===== src/Comments/Invariants/Reply.antt =====
-- The reply path keeps what its ports keep.
use social_comments_service.Base.{Option, none, refl, some, ◌≡◌}
use social_comments_service.Comments.Contracts.{Config, Ports}
use social_comments_service.Comments.Invariants.{
  Keeps, Keeps-bind, Keeps-bind_of, Keeps-catch, Keeps-if, Keeps-lift, Keeps-pure, Keeps-throw,
  PortsKeep, ProviderKeeps, keeps_rules,
}
use social_comments_service.Comments.Returns.{
  Returns, Returns-bind, Returns-bind-lift, Returns-if, Returns-pure, Returns-throw,
}
use social_comments_service.Comments.Service.Replay.{
  by_status, expire, reconcile, recover, recover_from, replay, replay_previous,
}
use social_comments_service.Comments.Service.Reply.{
  Target, conflict, find_target, or_throw, orphan, publish, refuse, reply_to_comment, reply_unless,
  start_reply,
}
use social_comments_service.Shared.Errors.{Thrown}
use social_comments_service.Shared.Text.{Text}
use social_comments_service.Shared.Types.{
  Comment, ReplyOperation, ReplyOperationStatus, TenantContext, completed, failed, pending, unknown,
}

module _ {W : Type 0} {P : W → Type 0} (ports : Ports W) (c : TenantContext)
    (laws : PortsKeep P ports c) where
  expire-Keeps : (o : ReplyOperation) → Keeps P (expire ports c o)
  unfolding expire
  expire-Keeps o = Keeps-bind _ _ laws.now λ now.
      Keeps-if _ _ _ (Keeps-pure _) (Keeps-bind _ _ (laws.mark_unknown _ _) (λ u. Keeps-throw _))

  reconcile-Keeps :
      (o : ReplyOperation) (found : Option Comment) → Keeps P (reconcile ports c o found)
  unfolding reconcile
  reconcile-Keeps o none = expire-Keeps o
  reconcile-Keeps o (some comment) = search (keeps_rules, laws.complete)

  recover_from-Keeps : (o : ReplyOperation) (e : Option Text) → Keeps P (recover_from ports c o e)
  unfolding recover_from
  recover_from-Keeps o none = expire-Keeps o
  recover_from-Keeps o (some e) =
      search (keeps_rules, laws.find_reply_by_external_id, reconcile-Keeps)

  by_status-Keeps :
      (o : ReplyOperation) (r : Option Text) (s : ReplyOperationStatus)
      → o.resulting_comment_id ≡ r
      → Keeps P (by_status ports c o s)
  unfolding recover
  by_status-Keeps o none completed e = rw e (Keeps-pure none)
  by_status-Keeps o (some i) completed e = rw e (laws.find_by_id i)
  by_status-Keeps o r failed e = Keeps-throw _
  by_status-Keeps o r unknown e = Keeps-throw _
  by_status-Keeps o r pending e = recover_from-Keeps o o.external_reply_id

  replay-Keeps : (o : ReplyOperation) (f : Text) → Keeps P (replay ports c o f)
  unfolding replay
  replay-Keeps o f =
      Keeps-if _ _ _ (Keeps-throw _) (by_status-Keeps o o.resulting_comment_id o.status refl)

  replay_previous-Keeps :
      (o : Option ReplyOperation) (f : Text) → Keeps P (replay_previous ports c o f)
  replay_previous-Keeps none f = Keeps-pure none
  replay_previous-Keeps (some o) f = replay-Keeps o f

  refuse-Keeps : (i : Text) (e : Thrown) → Keeps P (refuse ports c i e)
  unfolding refuse
  refuse-Keeps i e = search (keeps_rules, laws.fail, laws.mark_unknown)

  orphan-Keeps : (i : Text) (e : Thrown) → Keeps P (orphan ports c i e)
  unfolding orphan
  orphan-Keeps i e = search (keeps_rules, laws.mark_unknown)

  publish-Keeps :
      (t : Target W) (b i : Text) → ProviderKeeps P t.provider → Keeps P (publish ports c t b i)
  unfolding publish
  publish-Keeps t b i p =
      Keeps-bind _ _ (Keeps-catch _ _ (p.publish_reply _) (refuse-Keeps i)) λ reply. search (
        keeps_rules, orphan-Keeps, laws.record_published, laws.store_published_reply, laws.complete,
      )

  pub or_throw-Keeps : {A : Type 0} (e : Thrown) (a : Option A) → Keeps P (or_throw ports e a)
  or_throw-Keeps e none = Keeps-throw e
  or_throw-Keeps e (some a) = Keeps-pure a

  find_target-Keeps : (i : Text) → Keeps P (find_target ports c i)
  unfolding find_target
  find_target-Keeps i =
      search
        (
          keeps_rules, laws.find_by_id, laws.find_published_by_id, laws.resolve_external_id,
          or_throw-Keeps,
        )
        depth 20

  abbrev KeepsAt : Target W → Type 0
  KeepsAt t = ProviderKeeps P t.provider

  find_target-Returns_keeping : (i : Text) → Returns KeepsAt (find_target ports c i)
  unfolding find_target
  find_target-Returns_keeping i = Returns-bind _ _ λ found. Returns-bind _ _ λ comment.
      Returns-if _ _ _ (Returns-throw _) (
        Returns-bind _ _ λ record'. Returns-bind _ _ λ post. Returns-bind _ _ λ external.
          Returns-bind _ _ λ parent.
            Returns-bind-lift _ _
              λ provider e. Returns-bind _ _ λ u. Returns-pure _ (laws.provider_of _ _ e))

  conflict-Keeps : (r : Option Comment) → Keeps P (conflict ports r)
  conflict-Keeps (some r) = Keeps-pure r
  conflict-Keeps none = Keeps-throw _

  module _ (config : Config) (comment_id body key : Text) where
    start_reply-Keeps : (f : Text) → Keeps P (start_reply ports config c comment_id body key f)
    unfolding start_reply
    start_reply-Keeps f =
        Keeps-bind_of _ _ (find_target-Keeps comment_id) (find_target-Returns_keeping comment_id)
          λ t p. Keeps-bind _ _ laws.now λ now. Keeps-bind _ _ laws.random_uuid λ id.
            Keeps-bind _ _ (laws.claim _) λ g.
              Keeps-if _ _ _ (publish-Keeps t body g.operation.id p)
                (Keeps-bind _ _ (replay-Keeps g.operation f) conflict-Keeps)

    reply_unless-Keeps :
        (f : Text) (r : Option Comment)
        → Keeps P (reply_unless ports config c comment_id body key f r)
    unfolding reply_unless
    reply_unless-Keeps f (some r) = Keeps-pure r
    reply_unless-Keeps f none = start_reply-Keeps f

    -- Whatever the ports keep in a tenant's context, a request of the tenant to reply keeps, on
    -- every path, errors included.
    pub reply_to_comment-Keeps : Keeps P (reply_to_comment ports config c comment_id body key)
    unfolding reply_to_comment
    reply_to_comment-Keeps = Keeps-bind _ _ (Keeps-lift _) λ u.
        Keeps-bind _ _ (laws.find_by_idempotency_key key) λ previous.
          Keeps-bind _ _ (replay_previous-Keeps previous _)
            λ replayed. reply_unless-Keeps _ replayed
