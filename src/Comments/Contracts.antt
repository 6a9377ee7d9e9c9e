-- ===== src/Comments/Contracts.antt =====
-- src/comments/contracts.ts: the ports through which the service reaches storage and providers. A
-- port's method is an action on whatever state its implementation keeps.
use social_comments_service.Base.{Bool, List, Option, any, if◌then◌else◌, ℕ}
use social_comments_service.Shared.Cursor.{Codec}
use social_comments_service.Shared.Errors.{ServiceErrorCode, ServiceErrorReason, plain_error}
use social_comments_service.Shared.Exec.{Exec, Result, err, ok}
use social_comments_service.Shared.Text.{Text}
use social_comments_service.Shared.Types.{
  Comment, CommentPage, ListCommentsQuery, ObservedComment, Platform, PostSnapshotState,
  ProviderCapability, ProviderCommentPage, ProviderListCommentsQuery, ProviderReplyCommand,
  PublishedPostRecord, ReplyOperation, ReplyOperationClaim, TenantContext, capability_eq,
}

pub record Provider (W : Type 0) : Type 0 where
  pub platform : Platform
  pub capabilities : List ProviderCapability
  pub list_page : ProviderListCommentsQuery → Exec W ProviderCommentPage
  pub publish_reply : ProviderReplyCommand → Exec W ObservedComment

pub record Ports (W : Type 0) : Type 0 where
  -- `CommentRepository`
  pub list_by_post : TenantContext → ListCommentsQuery → Exec W CommentPage
  pub find_by_id : TenantContext → Text → Exec W (Option Comment)
  pub find_reply_by_external_id : TenantContext → Text → Text → Exec W (Option Comment)
  pub resolve_external_id : TenantContext → Text → Exec W (Option Text)
  pub store_published_reply : TenantContext → ObservedComment → Exec W Comment
  pub upsert_many : TenantContext → List ObservedComment → Exec W (List Comment)
  -- `PostRepository`
  pub find_published_by_id : TenantContext → Text → Exec W (Option PublishedPostRecord)
  pub save_snapshot_state :
      TenantContext → Text → PostSnapshotState → PostSnapshotState → Exec W Bool
  -- `ReplyOperationRepository`
  pub find_by_idempotency_key : TenantContext → Text → Exec W (Option ReplyOperation)
  pub claim : TenantContext → ReplyOperation → Exec W ReplyOperationClaim
  pub record_published : TenantContext → Text → Text → Exec W ReplyOperation
  pub complete : TenantContext → Text → Text → Exec W ReplyOperation
  pub fail : TenantContext → Text → Text → Exec W ReplyOperation
  pub mark_unknown : TenantContext → Text → Text → Exec W (Option ReplyOperation)
  -- `PlatformProviderRegistry`
  pub provider_of : Platform → Result (Provider W)
  -- `Date.now()` and `crypto.randomUUID()`
  pub now : Exec W ℕ
  pub random_uuid : Exec W Text

-- What the service is composed with: the fingerprint's key and function, the snapshot's lifetime
-- in seconds if one is configured, and the encoding of cursors.
pub record Config : Type 0 where
  pub hmac_sha256 : Text → Text → Text
  pub fingerprint_secret : Text
  pub snapshot_lifetime_seconds : Option ℕ
  pub codec : Codec

-- `requireCapability` of src/platforms/provider-registry.ts.
unfoldable pub require_capability :
    {W : Type 0} → Provider W → ProviderCapability → Result (Unit {0})
require_capability p c =
    if any (capability_eq c) p.capabilities
    then ok tt
    else err (
        plain_error ServiceErrorCode.unsupported_capability
          ServiceErrorReason.capability_unsupported 422)
