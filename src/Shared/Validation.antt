-- ===== src/Shared/Validation.antt =====
-- src/shared/validation.ts. A check of a field's JavaScript type that the types of the model make
-- always true (a boolean is a boolean, a limit is an integer) has no counterpart here.
-- `isPlatform` and the check of a status, over the lists that the source tests.
use social_comments_service.Base.{
  Bool, List, Option, [], any, false, if◌then◌else◌, is_none, is_some, leb, none, not, some, true,
  ◌&&◌, ◌∷◌,
}
use social_comments_service.Shared.Errors.{
  DomainValidationCode, RecordKind, Thrown, comment_record, domain_validation, invalid_comment,
  invalid_list_comments_query, invalid_pagination, invalid_reply_command, invalid_reply_operation,
  reply_operation_record, stored_record_invalid_thrown,
}
use social_comments_service.Shared.Exec.{Result, err, ok}
use social_comments_service.Shared.Text.{Text, is_non_empty_string, is_nullable_non_empty_string}
use social_comments_service.Shared.Types.{
  Comment, CommentKeyset, ExternalAuthor, ListCommentsQuery, ObservedComment, Pagination, Platform,
  ReplyOperation, ReplyOperationStatus, ReplyToCommentCommand, completed, facebook, failed,
  instagram, linkedin, pending, platform_eq, status_eq, unknown, youtube,
}

abbrev platforms : List Platform
platforms = facebook ∷ instagram ∷ linkedin ∷ Platform.x ∷ youtube ∷ []

unfoldable pub is_platform : Platform → Bool
is_platform p = any (platform_eq p) platforms

abbrev reply_operation_statuses : List ReplyOperationStatus
reply_operation_statuses = pending ∷ completed ∷ failed ∷ unknown ∷ []

unfoldable pub is_reply_operation_status : ReplyOperationStatus → Bool
is_reply_operation_status s = any (status_eq s) reply_operation_statuses

unfoldable pub is_valid_author : ExternalAuthor → Bool
is_valid_author a =
    is_non_empty_string a.id
    && is_non_empty_string a.display_name
    && is_nullable_non_empty_string a.profile_url

-- The condition under which `validateComment` does not throw.
unfoldable pub is_valid_comment : Comment → Bool
is_valid_comment c =
    is_non_empty_string c.id
    && is_non_empty_string c.post_id
    && is_platform c.platform
    && is_valid_author c.author
    && is_non_empty_string c.body
    && is_nullable_non_empty_string c.parent_comment_id
    && not (is_some c.parent_comment_id && c.parent_unresolved)
    && is_non_empty_string c.published_at
    && is_non_empty_string c.updated_at

abbrev reject_unless : Bool → DomainValidationCode → Result (Unit {0})
reject_unless true code = ok tt
reject_unless false code = err (domain_validation code)

unfoldable pub validate_comment : Comment → Result (Unit {0})
validate_comment c = reject_unless (is_valid_comment c) invalid_comment

unfoldable pub is_valid_observed_comment : ObservedComment → Bool
is_valid_observed_comment o =
    is_non_empty_string o.post_id
    && is_platform o.platform
    && is_valid_author o.author
    && is_non_empty_string o.body
    && is_non_empty_string o.published_at
    && is_non_empty_string o.updated_at
    && is_non_empty_string o.external_id
    && is_nullable_non_empty_string o.external_parent_comment_id

unfoldable pub validate_observed_comment : ObservedComment → Result (Unit {0})
validate_observed_comment o = reject_unless (is_valid_observed_comment o) invalid_comment

unfoldable pub is_valid_reply_operation : ReplyOperation → Bool
is_valid_reply_operation o =
    is_non_empty_string o.id
    && is_non_empty_string o.account_id
    && is_non_empty_string o.comment_id
    && is_non_empty_string o.idempotency_key
    && is_non_empty_string o.request_fingerprint
    && is_reply_operation_status o.status
    && is_nullable_non_empty_string o.resulting_comment_id
    && is_nullable_non_empty_string o.failure_code
    && is_non_empty_string o.lease_expires_at
    && is_nullable_non_empty_string o.external_reply_id
    && is_non_empty_string o.created_at
    && is_nullable_non_empty_string o.completed_at

unfoldable pub validate_reply_operation : ReplyOperation → Result (Unit {0})
validate_reply_operation o = reject_unless (is_valid_reply_operation o) invalid_reply_operation

-- `asStoredRecordFault`: the record is named only by an identifier that is not blank.
unfoldable pub as_stored_record_fault : RecordKind → Text → Thrown
as_stored_record_fault kind id =
    stored_record_invalid_thrown kind (if is_non_empty_string id then some id else none)

abbrev pub rethrow_as {ℓ} : {A : Type ℓ} → Thrown → A → Result (Unit {0}) → Result A
rethrow_as fault a (ok _) = ok a
rethrow_as fault a (err _) = err fault

unfoldable pub assert_stored_comment : Comment → Result Comment
assert_stored_comment c =
    rethrow_as (as_stored_record_fault comment_record c.id) c (validate_comment c)

unfoldable pub assert_stored_reply_operation : ReplyOperation → Result ReplyOperation
assert_stored_reply_operation o =
    rethrow_as (as_stored_record_fault reply_operation_record o.id) o (validate_reply_operation o)

unfoldable pub validate_pagination : Pagination → Result (Unit {0})
validate_pagination p =
    reject_unless
      (is_nullable_non_empty_string p.next_cursor && not (p.has_more && is_none p.next_cursor))
      invalid_pagination

unfoldable pub is_valid_keyset : Option CommentKeyset → Bool
is_valid_keyset none = true
is_valid_keyset (some k) = is_non_empty_string k.published_at && is_non_empty_string k.id

unfoldable pub validate_list_comments_query : ListCommentsQuery → Result (Unit {0})
validate_list_comments_query q =
    reject_unless
      (is_non_empty_string q.post_id
        && is_platform q.platform
        && is_valid_keyset q.after
        && leb 1 q.limit)
      invalid_list_comments_query

unfoldable pub validate_reply_to_comment_command : ReplyToCommentCommand → Result (Unit {0})
validate_reply_to_comment_command c =
    reject_unless
      (is_non_empty_string c.comment_id
        && is_non_empty_string c.body
        && is_non_empty_string c.idempotency_key)
      invalid_reply_command
