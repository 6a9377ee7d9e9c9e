-- ===== src/Comments/Laws.antt =====
-- The laws that the reply path relies on, of any implementation of the ports: nothing but a
-- provider's publication is seen as one, no call releases a key, and a claim is granted for a
-- free key only and takes it.
use social_comments_service.Base.{List, true, ◌≡◌}
use social_comments_service.Comments.Contracts.{Ports, Provider}
use social_comments_service.Comments.Observation.{IsQuiet, IsSingle, Observation}
use social_comments_service.Shared.Exec.{ok}
use social_comments_service.Shared.Text.{Text}
use social_comments_service.Shared.Types.{
  ListCommentsQuery, ObservedComment, Platform, PostSnapshotState, ProviderListCommentsQuery,
  ProviderReplyCommand, ReplyOperation, ReplyOperationClaim, TenantContext,
}

pub record ProviderLaws {W : Type 0} (v : Observation W) (p : Provider W) : Type 0 where
  pub list_page : (q : ProviderListCommentsQuery) → IsQuiet v (p.list_page q)
  pub publish_reply : (c : ProviderReplyCommand) → IsSingle v (p.publish_reply c)

pub record PortLaws {W : Type 0} (v : Observation W) (ports : Ports W) : Type 0 where
  pub list_by_post :
      (c : TenantContext) (q : ListCommentsQuery) → IsQuiet v (ports.list_by_post c q)
  pub find_by_id : (c : TenantContext) (i : Text) → IsQuiet v (ports.find_by_id c i)
  pub find_reply_by_external_id :
      (c : TenantContext) (i e : Text) → IsQuiet v (ports.find_reply_by_external_id c i e)
  pub resolve_external_id :
      (c : TenantContext) (i : Text) → IsQuiet v (ports.resolve_external_id c i)
  pub store_published_reply :
      (c : TenantContext) (o : ObservedComment) → IsQuiet v (ports.store_published_reply c o)
  pub upsert_many :
      (c : TenantContext) (os : List ObservedComment) → IsQuiet v (ports.upsert_many c os)
  pub find_published_by_id :
      (c : TenantContext) (i : Text) → IsQuiet v (ports.find_published_by_id c i)
  pub save_snapshot_state :
      (c : TenantContext) (i : Text) (s e : PostSnapshotState)
      → IsQuiet v (ports.save_snapshot_state c i s e)
  pub find_by_idempotency_key :
      (c : TenantContext) (k : Text) → IsQuiet v (ports.find_by_idempotency_key c k)
  pub claim : (c : TenantContext) (o : ReplyOperation) → IsQuiet v (ports.claim c o)
  pub record_published : (c : TenantContext) (i e : Text) → IsQuiet v (ports.record_published c i e)
  pub complete : (c : TenantContext) (i e : Text) → IsQuiet v (ports.complete c i e)
  pub fail : (c : TenantContext) (i e : Text) → IsQuiet v (ports.fail c i e)
  pub mark_unknown : (c : TenantContext) (i e : Text) → IsQuiet v (ports.mark_unknown c i e)
  pub provider_of : (p : Platform) (r : Provider W) → ports.provider_of p ≡ ok r → ProviderLaws v r
  pub now : IsQuiet v ports.now
  pub random_uuid : IsQuiet v ports.random_uuid
  pub claim_takes :
      (c : TenantContext) (o : ReplyOperation) (w : W) (g : ReplyOperationClaim)
      → (ports.claim c o w).0 ≡ ok g
      → g.claimed ≡ true
      → v.IsTaken c.account_id o.idempotency_key (ports.claim c o w).1
        × ¬ v.IsTaken c.account_id o.idempotency_key w
