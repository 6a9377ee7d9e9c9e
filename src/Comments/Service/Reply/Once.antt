-- ===== src/Comments/Service/Reply/Once.antt =====
-- One idempotency key publishes at most one reply, behind any ports that meet their laws.
use social_comments_service.Base.{
  Bool-cases, Option, if◌then◌else◌, inl, inr, none, refl, some, ◌≡◌,
}
use social_comments_service.Comments.Contracts.{Config, Ports}
use social_comments_service.Comments.Laws.{PortLaws, ProviderLaws}
use social_comments_service.Comments.Observation.{
  IsQuiet, IsQuiet-IsSingle, IsQuiet-IsTracked, IsQuiet-bind, IsQuiet-if, IsQuiet-lift,
  IsQuiet-pure, IsQuiet-throw, IsSingle, IsSingle-bind, IsSingle-catch, IsTracked, IsTracked-bind,
  IsTracked-bind_of, IsTracked-bind_taking, Observation, quiet_rules,
}
use social_comments_service.Comments.Returns.{
  Returns, Returns-bind, Returns-bind-lift, Returns-if, Returns-pure, Returns-throw,
}
use social_comments_service.Comments.Service.Replay.{
  by_status, expire, reconcile, recover, recover_from, replay, replay_previous,
}
use social_comments_service.Comments.Service.Reply.{
  Target, conflict, find_target, new_operation, or_throw, orphan, publish, refuse, reply_to_comment,
  reply_unless, start_reply,
}
use social_comments_service.Shared.Errors.{Thrown}
use social_comments_service.Shared.Exec.{Exec, ◌>>=◌}
use social_comments_service.Shared.Text.{Text}
use social_comments_service.Shared.Types.{
  Comment, ReplyOperation, ReplyOperationClaim, ReplyOperationStatus, TenantContext, completed,
  failed, pending, unknown,
}

module _ {W : Type 0} {v : Observation W} (ports : Ports W) (laws : PortLaws v ports) where
  expire-IsQuiet : (c : TenantContext) (o : ReplyOperation) → IsQuiet v (expire ports c o)
  unfolding expire
  expire-IsQuiet c o = IsQuiet-bind _ _ laws.now (λ n.
      IsQuiet-if _ _ _ (IsQuiet-pure _)
        (IsQuiet-bind _ _ (laws.mark_unknown c _ _) (λ u. IsQuiet-throw _)))

  reconcile-IsQuiet :
      (c : TenantContext) (o : ReplyOperation) (found : Option Comment)
      → IsQuiet v (reconcile ports c o found)
  unfolding reconcile
  reconcile-IsQuiet c o none = expire-IsQuiet c o
  reconcile-IsQuiet c o (some comment) = search (quiet_rules, laws.complete)

  recover_from-IsQuiet :
      (c : TenantContext) (o : ReplyOperation) (e : Option Text)
      → IsQuiet v (recover_from ports c o e)
  unfolding recover_from
  recover_from-IsQuiet c o none = expire-IsQuiet c o
  recover_from-IsQuiet c o (some e) =
      search (quiet_rules, laws.find_reply_by_external_id, reconcile-IsQuiet)

  by_status-IsQuiet :
      (c : TenantContext) (o : ReplyOperation) (r : Option Text) (s : ReplyOperationStatus)
      → o.resulting_comment_id ≡ r
      → IsQuiet v (by_status ports c o s)
  unfolding recover
  by_status-IsQuiet c o none completed e = rw e (IsQuiet-pure none)
  by_status-IsQuiet c o (some i) completed e = rw e (laws.find_by_id c i)
  by_status-IsQuiet c o r failed e = IsQuiet-throw _
  by_status-IsQuiet c o r unknown e = IsQuiet-throw _
  by_status-IsQuiet c o r pending e = recover_from-IsQuiet c o o.external_reply_id

  pub replay-IsQuiet :
      (c : TenantContext) (o : ReplyOperation) (f : Text) → IsQuiet v (replay ports c o f)
  unfolding replay
  replay-IsQuiet c o f =
      IsQuiet-if _ _ _ (IsQuiet-throw _)
        (by_status-IsQuiet c o o.resulting_comment_id o.status refl)

  refuse-IsQuiet : (c : TenantContext) (i : Text) (e : Thrown) → IsQuiet v (refuse ports c i e)
  unfolding refuse
  refuse-IsQuiet c i e = search (quiet_rules, laws.fail, laws.mark_unknown)

  orphan-IsQuiet : (c : TenantContext) (i : Text) (e : Thrown) → IsQuiet v (orphan ports c i e)
  unfolding orphan
  orphan-IsQuiet c i e = search (quiet_rules, laws.mark_unknown)

  publish-IsSingle :
      (c : TenantContext) (t : Target W) (b i : Text)
      → ProviderLaws v t.provider
      → IsSingle v (publish ports c t b i)
  unfolding publish
  publish-IsSingle c t b i p =
      IsSingle-bind _ _ (IsSingle-catch _ _ (p.publish_reply _) (refuse-IsQuiet c i)) λ reply.
        search (
          quiet_rules, orphan-IsQuiet, laws.record_published, laws.store_published_reply,
          laws.complete,
        )

  pub or_throw-IsQuiet : {A : Type 0} (e : Thrown) (a : Option A) → IsQuiet v (or_throw ports e a)
  or_throw-IsQuiet e none = IsQuiet-throw e
  or_throw-IsQuiet e (some a) = IsQuiet-pure a

  find_target-IsQuiet : (c : TenantContext) (i : Text) → IsQuiet v (find_target ports c i)
  unfolding find_target
  find_target-IsQuiet c i =
      search
        (
          quiet_rules, laws.find_by_id, laws.find_published_by_id, laws.resolve_external_id,
          or_throw-IsQuiet,
        )
        depth 20

  abbrev HasLaws : Target W → Type 0
  HasLaws t = ProviderLaws v t.provider

  find_target-Returns : (c : TenantContext) (i : Text) → Returns HasLaws (find_target ports c i)
  unfolding find_target
  find_target-Returns c i = Returns-bind _ _ λ found. Returns-bind _ _ λ comment.
      Returns-if _ _ _ (Returns-throw _) (
        Returns-bind _ _ λ record'. Returns-bind _ _ λ post. Returns-bind _ _ λ external.
          Returns-bind _ _ λ parent.
            Returns-bind-lift _ _
              λ provider e. Returns-bind _ _ λ u. Returns-pure _ (laws.provider_of _ _ e))

  conflict-IsQuiet : (r : Option Comment) → IsQuiet v (conflict ports r)
  conflict-IsQuiet (some r) = IsQuiet-pure r
  conflict-IsQuiet none = IsQuiet-throw _

  -- What follows a claim, whatever it answered.
  abbrev after_claim : TenantContext → Target W → Text → Text → ReplyOperationClaim → Exec W Comment
  after_claim c t body fingerprint g =
      if g.claimed
      then publish ports c t body g.operation.id
      else (replay ports c g.operation fingerprint >>= conflict ports)

  module _ (c : TenantContext) (t : Target W) (body fingerprint : Text)
      (p : ProviderLaws v t.provider) where
    after_claim-IsSingle :
        (g : ReplyOperationClaim) → IsSingle v (after_claim c t body fingerprint g)
    after_claim-IsSingle g = elim (Bool-cases g.claimed) [
      | inl e ↦ rw e (publish-IsSingle c t body g.operation.id p)
      | inr e ↦ rw e (
          IsQuiet-IsSingle _
            (IsQuiet-bind _ _ (replay-IsQuiet c g.operation fingerprint) conflict-IsQuiet))
    ]

    -- A publication follows a granted claim only, and that has taken the key.
    claim_then-IsTracked :
        (o : ReplyOperation)
        → IsTracked v c.account_id o.idempotency_key
            (ports.claim c o >>= after_claim c t body fingerprint)
    claim_then-IsTracked o =
        IsTracked-bind_taking _ _ (laws.claim c o) after_claim-IsSingle λ w g e.
          elim (Bool-cases g.claimed) [
            | inl yes' ↦ inl (laws.claim_takes c o w g e yes')
            | inr no' ↦ inr (
                rw no'
                  (IsQuiet-bind _ _ (replay-IsQuiet c g.operation fingerprint) conflict-IsQuiet))
          ]

  module _ (config : Config) (c : TenantContext) (comment_id body key : Text) where
    start_reply-IsTracked :
        (fingerprint : Text)
        → IsTracked v c.account_id key (start_reply ports config c comment_id body key fingerprint)
    unfolding start_reply
    start_reply-IsTracked fingerprint =
        IsTracked-bind_of _ _ (find_target-IsQuiet c comment_id) (find_target-Returns c comment_id)
          λ t p. IsTracked-bind _ _ laws.now λ now. IsTracked-bind _ _ laws.random_uuid λ id.
            claim_then-IsTracked c t body fingerprint p
              (new_operation ports id comment_id key fingerprint now)

    replay_previous-IsQuiet :
        (o : Option ReplyOperation) (fingerprint : Text)
        → IsQuiet v (replay_previous ports c o fingerprint)
    replay_previous-IsQuiet none fingerprint = IsQuiet-pure none
    replay_previous-IsQuiet (some o) fingerprint = replay-IsQuiet c o fingerprint

    reply_unless-IsTracked :
        (fingerprint : Text) (r : Option Comment)
        → IsTracked v c.account_id key
            (reply_unless ports config c comment_id body key fingerprint r)
    unfolding reply_unless
    reply_unless-IsTracked fingerprint (some r) = IsQuiet-IsTracked _ _ _ (IsQuiet-pure r)
    reply_unless-IsTracked fingerprint none = start_reply-IsTracked fingerprint

    -- One request publishes at most one reply; it does so only if its key is free, and then its key
    -- is taken afterwards.
    pub reply_to_comment-IsTracked :
        IsTracked v c.account_id key (reply_to_comment ports config c comment_id body key)
    unfolding reply_to_comment
    reply_to_comment-IsTracked = IsTracked-bind _ _ (IsQuiet-lift _) λ u.
        IsTracked-bind _ _ (laws.find_by_idempotency_key c key) λ previous.
          IsTracked-bind _ _ (replay_previous-IsQuiet previous _)
            λ replayed. reply_unless-IsTracked _ replayed
