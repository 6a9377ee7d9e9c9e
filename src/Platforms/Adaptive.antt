-- ===== src/Platforms/Adaptive.antt =====
-- `AdaptiveProviderAdapter` of src/platforms/adaptive-provider.ts. The log of retries is left out.
pub mod Faithful
use social_comments_service.Base.{
  Bool, List, Option, any, if◌then◌else◌, is_none, none, not, some, ℕ, ◌&&◌, ◌||◌,
}
use social_comments_service.Comments.Contracts.{Provider}
use social_comments_service.Comments.Service.Listing.{list_comments}
use social_comments_service.Comments.Service.Reply.{reply_to_comment}
use social_comments_service.Platforms.Retry.{Operation, ProviderRetryPolicies, call_provider}
use social_comments_service.Shared.Errors.{
  ServiceErrorCode, ServiceErrorReason, plain_error, provider_error_thrown,
}
use social_comments_service.Shared.Exec.{
  Exec, Result, err, lift, map_result, ok, pure, throw, ◌>>=◌, ◌>>◌,
}
use social_comments_service.Shared.Text.{Text, is_non_empty_string}
use social_comments_service.Shared.Types.{
  ObservedComment, Platform, ProviderCapability, ProviderCommentPage, ProviderListCommentsQuery,
  ProviderReplyCommand, PublishedPost, SocialConnection, capability_eq, platform_eq,
}
use social_comments_service.Shared.Validation.{validate_observed_comment}

pub record ExternalCommentRecord : Type 0 where
  pub external_id : Text
  pub author_id : Text
  pub author_name : Text
  pub author_profile_url : Option Text
  pub body : Text
  pub parent_external_id : Option Text
  pub published_at : Text
  pub updated_at : Text

pub record ProviderPage : Type 0 where
  pub items : List ExternalCommentRecord
  pub next_cursor : Option Text
  pub has_more : Bool

pub record ClientListQuery : Type 0 where
  pub connection : SocialConnection
  pub external_post_id : Text
  pub cursor : Option Text
  pub limit : ℕ

pub record ClientReplyCommand : Type 0 where
  pub connection : SocialConnection
  pub external_post_id : Text
  pub external_comment_id : Text
  pub body : Text

-- `ProviderClient`, on a state of its own.
pub record ProviderClient (S : Type 0) : Type 0 where
  pub list_comments : ClientListQuery → Operation S ProviderPage
  pub reply_to_comment : ClientReplyCommand → Operation S ExternalCommentRecord

pub record AdaptiveProviderAdapter (S : Type 0) : Type 0 where
  pub platform : Platform
  pub client : ProviderClient S
  pub capabilities : List ProviderCapability
  pub policies : ProviderRetryPolicies

abbrev or_fallback : Option Text → Option Text → Option Text
or_fallback none fallback = fallback
or_fallback (some a) fallback = some a

-- What `toObserved` makes of a record, before it is validated.
abbrev pub observation_of :
    Platform → ExternalCommentRecord → PublishedPost → Option Text → ObservedComment
observation_of platform reported on_post fallback_parent_external_id = record {
  post_id = on_post.id;
  platform = platform;
  author = record {
    id = reported.author_id;
    display_name = reported.author_name;
    profile_url = reported.author_profile_url;
  };
  body = reported.body;
  published_at = reported.published_at;
  updated_at = reported.updated_at;
  external_id = reported.external_id;
  external_parent_comment_id = or_fallback reported.parent_external_id fallback_parent_external_id;
}

abbrev after_validation : {A : Type 0} → A → Result (Unit {0}) → Result A
after_validation a (ok _) = ok a
after_validation a (err e) = err e

-- `toObserved`
unfoldable pub to_observed :
    Platform → PublishedPost → Option Text → ExternalCommentRecord → Result ObservedComment
to_observed platform on_post fallback reported =
    after_validation (observation_of platform reported on_post fallback)
      (validate_observed_comment (observation_of platform reported on_post fallback))

module _ {S : Type 0} (adapter : AdaptiveProviderAdapter S) where
  -- `supports`
  unfoldable pub supports : ProviderCapability → Result (Unit {0})
  supports capability =
      if any (capability_eq capability) adapter.capabilities
      then ok tt
      else err (
          plain_error ServiceErrorCode.unsupported_capability
            ServiceErrorReason.capability_unsupported 422)

  -- `authorised`
  unfoldable pub authorised : SocialConnection → Result SocialConnection
  authorised connection =
      if not (is_non_empty_string connection.credential_reference)
        || not (is_non_empty_string connection.social_account_id)
      then err provider_error_thrown
      else if not (platform_eq connection.platform adapter.platform)
      then err provider_error_thrown
      else ok connection

  -- `listComments`
  unfoldable pub adapter_list_comments : ProviderListCommentsQuery → Exec S ProviderCommentPage
  adapter_list_comments query = do
    lift (supports ProviderCapability.list_comments)
    connection ← lift (authorised query.connection)
    page ←
        call_provider
          (adapter.client.list_comments (record {
            connection = connection;
            external_post_id = query.post.external_post_id;
            cursor = query.provider_cursor;
            limit = query.limit;
          }))
          adapter.policies.read
    if page.has_more && is_none page.next_cursor then throw provider_error_thrown else do
      items ← lift (map_result (to_observed adapter.platform query.post none) page.items)
      pure (record {
        items = items;
        next_provider_cursor = page.next_cursor;
        has_more = page.has_more;
      })

  -- `replyToComment`
  unfoldable pub adapter_reply_to_comment : ProviderReplyCommand → Exec S ObservedComment
  adapter_reply_to_comment command = do
    lift (supports ProviderCapability.reply_to_comment)
    connection ← lift (authorised command.connection)
    reported ←
        call_provider
          (adapter.client.reply_to_comment (record {
            connection = connection;
            external_post_id = command.post.external_post_id;
            external_comment_id = command.parent_external_comment_id;
            body = command.body;
          }))
          adapter.policies.write
    lift (
        to_observed adapter.platform command.post (some command.parent_external_comment_id)
          reported)

  -- The adapter as the service sees it.
  abbrev pub provider_of : Provider S
  provider_of = record {
    platform = adapter.platform;
    capabilities = adapter.capabilities;
    list_page = adapter_list_comments;
    publish_reply = adapter_reply_to_comment;
  }
