-- ===== src/Shared/Errors.antt =====
-- src/shared/errors.ts. The messages for people are left out; a subclass is the class and the
-- fields that it adds.
use social_comments_service.Base.{Bool, Option, ℕ}
use social_comments_service.Shared.Text.{Text, units}

pub data ServiceErrorCode : Type 0 where
  unauthenticated forbidden post_not_found comment_not_found idempotency_conflict : ServiceErrorCode
  reply_outcome_unknown reply_depth_exceeded unsupported_capability : ServiceErrorCode
  provider_rate_limited provider_error provider_unavailable invalid_cursor : ServiceErrorCode
  invalid_request route_not_found internal_error : ServiceErrorCode

pub data ServiceErrorReason : Type 0 where
  missing_account_context account_not_permitted post_not_found : ServiceErrorReason
  comment_not_found idempotency_key_body_mismatch idempotency_key_in_flight : ServiceErrorReason
  idempotency_key_failed reply_outcome_unknown reply_depth_exceeded : ServiceErrorReason
  capability_unsupported platform_not_configured provider_rate_limited : ServiceErrorReason
  provider_upstream_error provider_cursor_rejected provider_unavailable : ServiceErrorReason
  cursor_not_issued_by_service request_validation_failed : ServiceErrorReason
  idempotency_key_missing request_body_too_large request_body_malformed : ServiceErrorReason
  route_not_found reply_not_stored stored_record_invalid internal_error : ServiceErrorReason

pub data RecordKind : Type 0 where
  comment_record reply_operation_record : RecordKind

pub data ErrorClass : Type 0 where
  plain_service_error not_found_error reply_outcome_unknown_error : ErrorClass
  reply_depth_exceeded_error provider_unavailable_error provider_upstream_error : ErrorClass
  provider_cursor_rejected_error : ErrorClass
  stored_record_invalid_error : RecordKind → Option Text → ErrorClass
  provider_rate_limit_error : Option ℕ → ErrorClass

pub record ServiceError : Type 0 where
  pub code : ServiceErrorCode
  pub reason : ServiceErrorReason
  pub status_code : ℕ
  pub class : ErrorClass

-- `DomainValidationCode` of src/shared/validation.ts.
pub data DomainValidationCode : Type 0 where
  invalid_comment invalid_list_comments_query invalid_pagination : DomainValidationCode
  invalid_reply_command invalid_reply_operation : DomainValidationCode

-- A value thrown by code that is not this service's: what the error handler reads of it.
pub record ForeignError : Type 0 where
  pub validation : Bool
  pub status_code : Option ℕ
  pub code : Option Text

pub data Thrown : Type 0 where
  service : ServiceError → Thrown
  domain_validation : DomainValidationCode → Thrown
  foreign : ForeignError → Thrown

abbrev pub plain_error : ServiceErrorCode → ServiceErrorReason → ℕ → Thrown
plain_error c r n =
    service (record { code = c; reason = r; status_code = n; class = plain_service_error })

abbrev pub post_not_found_thrown : Thrown
post_not_found_thrown = service (record {
  code = ServiceErrorCode.post_not_found;
  reason = ServiceErrorReason.post_not_found;
  status_code = 404;
  class = not_found_error;
})

abbrev pub comment_not_found_thrown : Thrown
comment_not_found_thrown = service (record {
  code = ServiceErrorCode.comment_not_found;
  reason = ServiceErrorReason.comment_not_found;
  status_code = 404;
  class = not_found_error;
})

abbrev pub reply_outcome_unknown_thrown : Thrown
reply_outcome_unknown_thrown = service (record {
  code = ServiceErrorCode.reply_outcome_unknown;
  reason = ServiceErrorReason.reply_outcome_unknown;
  status_code = 409;
  class = reply_outcome_unknown_error;
})

abbrev pub stored_record_invalid_thrown : RecordKind → Option Text → Thrown
stored_record_invalid_thrown kind id = service (record {
  code = ServiceErrorCode.internal_error;
  reason = ServiceErrorReason.stored_record_invalid;
  status_code = 500;
  class = stored_record_invalid_error kind id;
})

abbrev pub reply_depth_exceeded_thrown : Thrown
reply_depth_exceeded_thrown = service (record {
  code = ServiceErrorCode.reply_depth_exceeded;
  reason = ServiceErrorReason.reply_depth_exceeded;
  status_code = 422;
  class = reply_depth_exceeded_error;
})

abbrev pub provider_unavailable_thrown : Thrown
provider_unavailable_thrown = service (record {
  code = ServiceErrorCode.provider_unavailable;
  reason = ServiceErrorReason.provider_unavailable;
  status_code = 503;
  class = provider_unavailable_error;
})

abbrev pub provider_error_thrown : Thrown
provider_error_thrown = service (record {
  code = ServiceErrorCode.provider_error;
  reason = ServiceErrorReason.provider_upstream_error;
  status_code = 502;
  class = ErrorClass.provider_upstream_error;
})

abbrev pub provider_cursor_rejected_thrown : Thrown
provider_cursor_rejected_thrown = service (record {
  code = ServiceErrorCode.provider_error;
  reason = ServiceErrorReason.provider_cursor_rejected;
  status_code = 502;
  class = provider_cursor_rejected_error;
})

abbrev pub provider_rate_limit_thrown : Option ℕ → Thrown
provider_rate_limit_thrown retry_after_ms = service (record {
  code = ServiceErrorCode.provider_rate_limited;
  reason = ServiceErrorReason.provider_rate_limited;
  status_code = 429;
  class = provider_rate_limit_error retry_after_ms;
})

-- `toFailureCode`
unfoldable pub to_failure_code : Thrown → ServiceErrorCode
to_failure_code (service e) = e.code
to_failure_code _ = ServiceErrorCode.provider_error

-- A code as the contract spells it, which is how an operation stores it.
abbrev pub code_text : ServiceErrorCode → Text
code_text ServiceErrorCode.unauthenticated = units "UNAUTHENTICATED"
code_text ServiceErrorCode.forbidden = units "FORBIDDEN"
code_text ServiceErrorCode.post_not_found = units "POST_NOT_FOUND"
code_text ServiceErrorCode.comment_not_found = units "COMMENT_NOT_FOUND"
code_text ServiceErrorCode.idempotency_conflict = units "IDEMPOTENCY_CONFLICT"
code_text ServiceErrorCode.reply_outcome_unknown = units "REPLY_OUTCOME_UNKNOWN"
code_text ServiceErrorCode.reply_depth_exceeded = units "REPLY_DEPTH_EXCEEDED"
code_text ServiceErrorCode.unsupported_capability = units "UNSUPPORTED_CAPABILITY"
code_text ServiceErrorCode.provider_rate_limited = units "PROVIDER_RATE_LIMITED"
code_text ServiceErrorCode.provider_error = units "PROVIDER_ERROR"
code_text ServiceErrorCode.provider_unavailable = units "PROVIDER_UNAVAILABLE"
code_text ServiceErrorCode.invalid_cursor = units "INVALID_CURSOR"
code_text ServiceErrorCode.invalid_request = units "INVALID_REQUEST"
code_text ServiceErrorCode.route_not_found = units "ROUTE_NOT_FOUND"
code_text ServiceErrorCode.internal_error = units "INTERNAL_ERROR"
