-- ===== src/Api.antt =====
-- src/api/routes.ts: the two routes and the handler of errors. A request comes here after the
-- framework has checked it against the route's schema; log records are left out.
pub mod Refusals
use social_comments_service.Base.{
  Bool, List, Option, [], false, if◌then◌else◌, leb, ltb, map, none, not, or_else, some, true, ℕ,
  ◌&&◌, ◌+◌, ◌/◌, ◌==◌, ◌||◌, ◌∷◌,
}
use social_comments_service.Comments.Contracts.{Config, Ports}
use social_comments_service.Comments.Service.Hydration.{JoinOutcome}
use social_comments_service.Comments.Service.Listing.{answer, list_comments}
use social_comments_service.Comments.Service.Reply.{reply_to_comment}
use social_comments_service.Platforms.Retry.{rate_limit_of}
use social_comments_service.Shared.Errors.{
  ServiceErrorCode, ServiceErrorReason, Thrown, domain_validation, foreign, service,
}
use social_comments_service.Shared.Exec.{Exec, Result, err, ok}
use social_comments_service.Shared.Identifiers.{is_uuid}
use social_comments_service.Shared.Text.{Text, is_non_empty_string, units}
use social_comments_service.Shared.Types.{
  Comment, ExternalAuthor, ListCommentsResult, Pagination, Platform, TenantContext,
}

abbrev pub default_limit : ℕ
default_limit = 25

-- What `serializeComment` lets a client see.
pub record PublicComment : Type 0 where
  pub id : Text
  pub post_id : Text
  pub platform : Platform
  pub author : ExternalAuthor
  pub body : Text
  pub parent_comment_id : Option Text
  pub published_at : Text
  pub updated_at : Text

abbrev pub serialize_comment : Comment → PublicComment
serialize_comment c = record {
  id = c.id;
  post_id = c.post_id;
  platform = c.platform;
  author = c.author;
  body = c.body;
  parent_comment_id = c.parent_comment_id;
  published_at = c.published_at;
  updated_at = c.updated_at;
}

-- The answer to a failed request; the header `retry-after` is in seconds.
pub record ErrorAnswer : Type 0 where
  pub status : ℕ
  pub answer_code : ServiceErrorCode
  pub answer_reason : ServiceErrorReason
  pub retry_after : Option ℕ

pub data Response : Type 0 where
  listed : List PublicComment → Pagination → Option Text → Response
  replied : PublicComment → Response
  failed_with : ErrorAnswer → Response

abbrev pub plain_answer : ℕ → ServiceErrorCode → ServiceErrorReason → ErrorAnswer
plain_answer n c r = record { status = n; answer_code = c; answer_reason = r; retry_after = none }

-- `Math.ceil(retryAfterMs / 1000)`
abbrev pub ceil_seconds : ℕ → ℕ
ceil_seconds ms = (ms + 999) / 1000

-- `applyRetryAfter`
unfoldable pub retry_after_of : Thrown → Option ℕ
retry_after_of error = elim (rate_limit_of error) [
  | some (some ms) ↦ some (ceil_seconds ms)
  | _ ↦ none
]

-- `fastifyCode.startsWith('FST_ERR_CTP_')`
unfoldable pub starts_with : Text → Text → Bool
starts_with [] s = true
starts_with (a ∷ p) [] = false
starts_with (a ∷ p) (b ∷ s) = a == b && starts_with p s

abbrev is_parser_failure : Option Text → Bool
is_parser_failure none = false
is_parser_failure (some code) = starts_with (units "FST_ERR_CTP_") code

abbrev transport_reason : ℕ → Option Text → ServiceErrorReason
transport_reason status code =
    if status == 413
    then ServiceErrorReason.request_body_too_large
    else if status == 415 || is_parser_failure code
    then ServiceErrorReason.request_body_malformed
    else ServiceErrorReason.request_validation_failed

-- `transportFailure`
unfoldable pub transport_failure : Option ℕ → Option Text → Option ErrorAnswer
transport_failure none code = none
transport_failure (some status) code =
    if ltb status 400 || leb 500 status
    then none
    else some (plain_answer status ServiceErrorCode.invalid_request (transport_reason status code))

abbrev invalid_request_answer : ErrorAnswer
invalid_request_answer =
    plain_answer 400 ServiceErrorCode.invalid_request ServiceErrorReason.request_validation_failed

abbrev pub internal_answer : ErrorAnswer
internal_answer = plain_answer 500 ServiceErrorCode.internal_error ServiceErrorReason.internal_error

-- The handler that `setErrorHandler` is given.
unfoldable pub answer_of : Thrown → ErrorAnswer
answer_of (service e) = record {
  status = e.status_code;
  answer_code = e.code;
  answer_reason = e.reason;
  retry_after = retry_after_of (service e);
}
answer_of (domain_validation code) = invalid_request_answer
answer_of (foreign e) =
    if e.validation
    then invalid_request_answer
    else or_else (transport_failure e.status_code e.code) internal_answer

abbrev respond : {A : Type 0} → (A → Response) → Result A → Response
respond f (ok a) = f a
respond f (err e) = failed_with (answer_of e)

module _ {W : Type 0} where
  abbrev pub refuse_with : ErrorAnswer → W → Response × W
  refuse_with answer w = (failed_with answer, w)

  abbrev run_handler : {A : Type 0} → (A → Response) → Exec W A → W → Response × W
  run_handler f m w = (respond f (m w).0, (m w).1)

  -- The hook `onRequest`: the header `x-account-id` is the tenant.
  unfoldable pub with_account_context :
      Option Text → (TenantContext → W → Response × W) → W → Response × W
  with_account_context none handler =
      refuse_with (
        plain_answer 401 ServiceErrorCode.unauthenticated
          ServiceErrorReason.missing_account_context)
  with_account_context (some account_id) handler =
      if not (is_uuid account_id)
      then refuse_with (
          plain_answer 401 ServiceErrorCode.unauthenticated
            ServiceErrorReason.missing_account_context)
      else handler (record { account_id = account_id })

  module _ (ports : Ports W) (config : Config) where
    abbrev list_response : ListCommentsResult → Response
    list_response r = listed (map serialize_comment r.items) r.pagination r.synced_at

    -- GET /v2/posts/:postId/comments
    unfoldable pub get_comments :
        Option Text → Text → Option ℕ → Option Text → Option JoinOutcome → W → Response × W
    get_comments account_header post_id limit cursor in_flight =
        with_account_context account_header λ context. run_handler list_response (
          list_comments ports config context post_id
            (record { limit = or_else limit default_limit; cursor = cursor }) in_flight)

    abbrev pub missing_key : ErrorAnswer
    missing_key =
        plain_answer 400 ServiceErrorCode.invalid_request ServiceErrorReason.idempotency_key_missing

    abbrev reply_response : Comment → Response
    reply_response c = replied (serialize_comment c)

    abbrev pub reply_with_key : Text → Text → Option Text → TenantContext → W → Response × W
    reply_with_key comment_id body none context = refuse_with missing_key
    reply_with_key comment_id body (some key) context =
        if not (is_non_empty_string key)
        then refuse_with missing_key
        else run_handler reply_response (reply_to_comment ports config context comment_id body key)

    -- POST /v2/comments/:commentId/replies. The schema of the route requires the key's header, so the
    -- framework itself answers a request that has none; the handler tests for it all the same.
    unfoldable pub post_reply : Option Text → Text → Text → Option Text → W → Response × W
    post_reply account_header comment_id body key =
        with_account_context account_header (reply_with_key comment_id body key)
