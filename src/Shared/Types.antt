-- ===== src/Shared/Types.antt =====
-- src/shared/types.ts and the data of src/comments/contracts.ts. An optional field and a nullable
-- one are both `Option`; a promise is the value it resolves to.
use social_comments_service.Base.{Bool, List, Option, arith, true, ℕ, ◌==◌, ◌≡◌}
use social_comments_service.Shared.Text.{Text}

pub data Platform : Type 0 where
  facebook instagram linkedin x youtube : Platform

pub record ExternalAuthor : Type 0 where
  pub id : Text
  pub display_name : Text
  pub profile_url : Option Text

pub record Comment : Type 0 where
  pub id : Text
  pub post_id : Text
  pub platform : Platform
  pub author : ExternalAuthor
  pub body : Text
  pub parent_comment_id : Option Text
  pub parent_unresolved : Bool
  pub published_at : Text
  pub updated_at : Text

pub record ObservedComment : Type 0 where
  pub post_id : Text
  pub platform : Platform
  pub author : ExternalAuthor
  pub body : Text
  pub published_at : Text
  pub updated_at : Text
  pub external_id : Text
  pub external_parent_comment_id : Option Text

pub record CommentKeyset : Type 0 where
  pub published_at : Text
  pub id : Text

pub record Pagination : Type 0 where
  pub next_cursor : Option Text
  pub has_more : Bool

-- The request identifier serves the log records alone.
pub record TenantContext : Type 0 where
  pub account_id : Text

pub record SocialConnection : Type 0 where
  pub social_account_id : Text
  pub platform : Platform
  pub credential_reference : Text

pub record PublishedPost : Type 0 where
  pub id : Text
  pub account_id : Text
  pub platform : Platform
  pub external_post_id : Text
  pub published_at : Text
  pub connection : SocialConnection

pub data ReplyOperationStatus : Type 0 where
  pending completed failed unknown : ReplyOperationStatus

pub record ReplyOperation : Type 0 where
  pub id : Text
  pub account_id : Text
  pub comment_id : Text
  pub idempotency_key : Text
  pub request_fingerprint : Text
  pub status : ReplyOperationStatus
  pub resulting_comment_id : Option Text
  pub failure_code : Option Text
  pub lease_expires_at : Text
  pub external_reply_id : Option Text
  pub created_at : Text
  pub completed_at : Option Text

pub record ListCommentsQuery : Type 0 where
  pub post_id : Text
  pub platform : Platform
  pub after : Option CommentKeyset
  pub limit : ℕ

pub record CommentPage : Type 0 where
  pub items : List Comment
  pub has_more : Bool

pub record ReplyToCommentCommand : Type 0 where
  pub comment_id : Text
  pub body : Text
  pub idempotency_key : Text

pub record PostSnapshotState : Type 0 where
  pub provider_cursor : Option Text
  pub exhausted : Bool
  pub completed_at : Option Text

pub record PublishedPostRecord : Type 0 where
  pub post : PublishedPost
  pub snapshot : PostSnapshotState

pub record ListCommentsResult : Type 0 where
  pub items : List Comment
  pub pagination : Pagination
  pub synced_at : Option Text

pub record ReplyOperationClaim : Type 0 where
  pub operation : ReplyOperation
  pub claimed : Bool

pub record ProviderListCommentsQuery : Type 0 where
  pub post : PublishedPost
  pub connection : SocialConnection
  pub provider_cursor : Option Text
  pub limit : ℕ

pub record ProviderCommentPage : Type 0 where
  pub items : List ObservedComment
  pub next_provider_cursor : Option Text
  pub has_more : Bool

pub record ProviderReplyCommand : Type 0 where
  pub post : PublishedPost
  pub connection : SocialConnection
  pub parent_external_comment_id : Text
  pub body : Text

pub data ProviderCapability : Type 0 where
  list_comments reply_to_comment : ProviderCapability

-- `===` on the union types.
abbrev pub platform_index : Platform → ℕ
platform_index facebook = 0
platform_index instagram = 1
platform_index linkedin = 2
platform_index Platform.x = 3
platform_index youtube = 4

unfoldable pub platform_eq : Platform → Platform → Bool
platform_eq p q = platform_index p == platform_index q

abbrev pub status_index : ReplyOperationStatus → ℕ
status_index pending = 0
status_index completed = 1
status_index failed = 2
status_index unknown = 3

unfoldable pub status_eq : ReplyOperationStatus → ReplyOperationStatus → Bool
status_eq s t = status_index s == status_index t

abbrev pub capability_index : ProviderCapability → ℕ
capability_index list_comments = 0
capability_index reply_to_comment = 1

unfoldable pub capability_eq : ProviderCapability → ProviderCapability → Bool
capability_eq a b = capability_index a == capability_index b

pub platform_eq_sound : (p q : Platform) → platform_eq p q ≡ true → p ≡ q
unfolding platform_eq
platform_eq_sound p q h = ground arith
