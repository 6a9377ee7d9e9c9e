-- ===== src/Comments/Interference/Laws.antt =====
-- A request among others publishes as it does alone.
use social_comments_service.Base.{List, [], arith, refl, subst, true, ◌∷◌, ◌≡◌}
use social_comments_service.Comments.Contracts.{Config, Ports, Provider}
use social_comments_service.Comments.Interference.{
  Shared, Turn, interfered, interfered_ports, interfered_provider, interfered_result, next_state,
}
use social_comments_service.Comments.Laws.{PortLaws, ProviderLaws}
use social_comments_service.Comments.Observation.{IsQuiet, IsSingle, IsTracked, Observation}
use social_comments_service.Comments.Service.Reply.{reply_to_comment}
use social_comments_service.Comments.Service.Reply.Once.{reply_to_comment-IsTracked}
use social_comments_service.Shared.Exec.{Exec, Result, err, ok, ok_injective}
use social_comments_service.Shared.Text.{Text}
use social_comments_service.Shared.Types.{ReplyOperation, ReplyOperationClaim, TenantContext}

-- What a request may gain by a call that takes a key, and then keeps.
pub record Gain {W : Type 0} (v : Observation W) : Type 1 where
  pub Has : Text → Text → List (W × W) → Type 0
  pub kept : (a k : Text) (step : W × W) (h : List (W × W)) → Has a k h → Has a k (step ∷ h)
  pub won :
      (a k : Text) (b s : W) (h : List (W × W))
      → ¬ v.IsTaken a k b
      → v.IsTaken a k s
      → Has a k ((b, s) ∷ h)

module _ {W : Type 0} {v : Observation W} (g : Gain v) where
  abbrev pub shared_observation : Observation (Shared v)
  shared_observation = record {
    IsTaken = λ a k w. v.IsTaken a k w.state × g.Has a k w.history;
    publications = λ w. w.own;
  }

  next_state-keeps :
      (w : W) (turns : List (Turn v)) (a k : Text)
      → v.IsTaken a k w
      → v.IsTaken a k (next_state w turns)
  next_state-keeps w [] a k t = t
  next_state-keeps w (turn ∷ _) a k t = turn.keeps w a k t

  interfered-IsQuiet :
      {A : Type 0} (m : Exec W A) → IsQuiet v m → IsQuiet shared_observation (interfered {v = v} m)
  unfolding interfered
  interfered-IsQuiet m q = record {
    keeps = λ w a k (t, has).
        (q.keeps _ a k (next_state-keeps w.state w.turns a k t), g.kept a k _ _ has);
    silent = λ w. omega (arith, q.silent (next_state w.state w.turns));
  }

  interfered-IsSingle :
      {A : Type 0} (m : Exec W A)
      → IsSingle v m
      → IsSingle shared_observation (interfered {v = v} m)
  unfolding interfered
  interfered-IsSingle m q = record {
    keeps = λ w a k (t, has).
        (q.keeps _ a k (next_state-keeps w.state w.turns a k t), g.kept a k _ _ has);
    single = λ w. omega (arith, q.single (next_state w.state w.turns));
  }

  interfered_provider-ProviderLaws :
      (p : Provider W) → ProviderLaws v p → ProviderLaws shared_observation (interfered_provider p)
  interfered_provider-ProviderLaws p laws = record {
    list_page = λ q. interfered-IsQuiet _ (laws.list_page q);
    publish_reply = λ c. interfered-IsSingle _ (laws.publish_reply c);
  }

  interfered_result-ProviderLaws :
      (p : Result (Provider W)) (r : Provider (Shared v))
      → ((q : Provider W) → p ≡ ok q → ProviderLaws v q)
      → interfered_result p ≡ ok r
      → ProviderLaws shared_observation r
  interfered_result-ProviderLaws (err e) r laws h = absurd (cc)
  interfered_result-ProviderLaws (ok p) r laws h =
      subst (ProviderLaws shared_observation) (ok_injective _ r h)
        (interfered_provider-ProviderLaws p (laws p refl))

  module _ (ports : Ports W) (laws : PortLaws v ports) where
    interfered_claim_takes :
        (c : TenantContext) (o : ReplyOperation) (w : Shared v) (r : ReplyOperationClaim)
        → (interfered {v = v} (ports.claim c o) w).0 ≡ ok r
        → r.claimed ≡ true
        → shared_observation.IsTaken c.account_id o.idempotency_key
            (interfered (ports.claim c o) w).1
          × ¬ shared_observation.IsTaken c.account_id o.idempotency_key w
    unfolding interfered
    interfered_claim_takes c o w r h t =
        let (taken, free) = laws.claim_takes c o (next_state w.state w.turns) r h t in
        (
          (taken, g.won c.account_id o.idempotency_key _ _ w.history free taken),
          λ (held, _). free (next_state-keeps w.state w.turns _ _ held),
        )

    interfered-PortLaws : PortLaws shared_observation (interfered_ports {v = v} ports)
    interfered-PortLaws = record {
      list_by_post = λ c q. interfered-IsQuiet _ (laws.list_by_post c q);
      find_by_id = λ c i. interfered-IsQuiet _ (laws.find_by_id c i);
      find_reply_by_external_id =
          λ c i e. interfered-IsQuiet _ (laws.find_reply_by_external_id c i e);
      resolve_external_id = λ c i. interfered-IsQuiet _ (laws.resolve_external_id c i);
      store_published_reply = λ c o. interfered-IsQuiet _ (laws.store_published_reply c o);
      upsert_many = λ c os. interfered-IsQuiet _ (laws.upsert_many c os);
      find_published_by_id = λ c i. interfered-IsQuiet _ (laws.find_published_by_id c i);
      save_snapshot_state = λ c i s e. interfered-IsQuiet _ (laws.save_snapshot_state c i s e);
      find_by_idempotency_key = λ c k. interfered-IsQuiet _ (laws.find_by_idempotency_key c k);
      claim = λ c o. interfered-IsQuiet _ (laws.claim c o);
      record_published = λ c i e. interfered-IsQuiet _ (laws.record_published c i e);
      complete = λ c i e. interfered-IsQuiet _ (laws.complete c i e);
      fail = λ c i e. interfered-IsQuiet _ (laws.fail c i e);
      mark_unknown = λ c i e. interfered-IsQuiet _ (laws.mark_unknown c i e);
      provider_of =
          λ p r h. interfered_result-ProviderLaws (ports.provider_of p) r (laws.provider_of p) h;
      now = interfered-IsQuiet _ laws.now;
      random_uuid = interfered-IsQuiet _ laws.random_uuid;
      claim_takes = interfered_claim_takes;
    }

    pub reply-IsTracked_among_others :
        (config : Config) (c : TenantContext) (comment_id body key : Text)
        → IsTracked shared_observation c.account_id key
            (reply_to_comment (interfered_ports ports) config c comment_id body key)
    reply-IsTracked_among_others config c comment_id body key =
        reply_to_comment-IsTracked _ interfered-PortLaws config c comment_id body key
