-- ===== src/Comments/Service/Reply.antt =====
-- `replyToComment` of src/comments/comment-service.ts. The records and counters that it writes to the
-- logger and the metrics are left out.
pub mod Once
pub mod Refusals
pub mod Recorded
use social_comments_service.Base.{
  Bool, List, Option, [], any, if◌then◌else◌, is_some, none, some, ℕ, ◌++◌, ◌+◌, ◌||◌, ◌∷◌,
}
use social_comments_service.Comments.Contracts.{Config, Ports, Provider, require_capability}
use social_comments_service.Comments.Service.Replay.{key_conflict, replay, replay_previous}
use social_comments_service.Shared.Date.{to_iso_string}
use social_comments_service.Shared.Errors.{
  ServiceErrorCode, ServiceErrorReason, Thrown, code_text, comment_not_found_thrown,
  post_not_found_thrown, reply_depth_exceeded_thrown, to_failure_code,
}
use social_comments_service.Shared.Exec.{Exec, catch, lift, pure, throw, ◌>>=◌, ◌>>◌}
use social_comments_service.Shared.Text.{Text, text_eq}
use social_comments_service.Shared.Types.{
  Comment, ObservedComment, ProviderCapability, PublishedPost, ReplyOperation, TenantContext,
  pending,
}
use social_comments_service.Shared.Validation.{validate_reply_to_comment_command}

abbrev pub reply_lease_ms : ℕ
reply_lease_ms = 120000

-- `CODES_PROVING_REJECTION`
abbrev codes_proving_rejection : List Text
codes_proving_rejection = []

unfoldable pub proves_rejection : ServiceErrorCode → Bool
proves_rejection code = any (text_eq (code_text code)) codes_proving_rejection

unfoldable pub request_fingerprint : Config → Text → Text → Text
request_fingerprint config comment_id body =
    config.hmac_sha256 config.fingerprint_secret (comment_id ++ b':' ∷ body)

-- A target that may be answered: the comment and its post, the external identifier of the
-- comment, and the provider.
pub record Target (W : Type 0) : Type 0 where
  pub comment : Comment
  pub post : PublishedPost
  pub parent_external_comment_id : Text
  pub provider : Provider W

module _ {W : Type 0} (ports : Ports W) where
  abbrev pub or_throw : {A : Type 0} → Thrown → Option A → Exec W A
  or_throw e none = throw e
  or_throw e (some a) = pure a

  unfoldable pub find_target : TenantContext → Text → Exec W (Target W)
  find_target context comment_id = do
    found ← ports.find_by_id context comment_id
    comment ← or_throw comment_not_found_thrown found
    if is_some comment.parent_comment_id || comment.parent_unresolved
        then throw reply_depth_exceeded_thrown
        else do
          post_record ← ports.find_published_by_id context comment.post_id
          post_found ← or_throw post_not_found_thrown post_record
          external ← ports.resolve_external_id context comment_id
          parent_external_comment_id ← or_throw comment_not_found_thrown external
          provider ← lift (ports.provider_of comment.platform)
          lift (require_capability provider ProviderCapability.reply_to_comment)
          pure (record {
            comment = comment;
            post = post_found.post;
            parent_external_comment_id = parent_external_comment_id;
            provider = provider;
          })

  -- The operation that `claim` is given.
  abbrev pub new_operation : Text → Text → Text → Text → ℕ → ReplyOperation
  new_operation id comment_id idempotency_key fingerprint now = record {
    id = id;
    account_id = [];
    comment_id = comment_id;
    idempotency_key = idempotency_key;
    request_fingerprint = fingerprint;
    status = pending;
    resulting_comment_id = none;
    failure_code = none;
    lease_expires_at = to_iso_string (now + reply_lease_ms);
    external_reply_id = none;
    created_at = to_iso_string now;
    completed_at = none;
  }

  -- The provider's failure, recorded before it is thrown on.
  unfoldable pub refuse : TenantContext → Text → Thrown → Exec W ObservedComment
  unfolding proves_rejection
  refuse context operation_id error =
      let code = to_failure_code error in
      if proves_rejection code
      then (do ports.fail context operation_id (code_text code); throw error)
      else (do ports.mark_unknown context operation_id (code_text code); throw error)

  -- A published reply that could not be stored. The failure of `markUnknown` is swallowed.
  unfoldable pub orphan : TenantContext → Text → Thrown → Exec W Comment
  orphan context operation_id error = do
    catch
        (do
          ports.mark_unknown context operation_id (code_text ServiceErrorCode.reply_outcome_unknown)
          pure tt)
        (λ _. pure tt)
    throw error

  -- Everything after a granted claim.
  unfoldable pub publish : TenantContext → Target W → Text → Text → Exec W Comment
  unfolding refuse orphan
  publish context target body operation_id = do
    reply ←
        catch
          (target.provider.publish_reply (record {
            post = target.post;
            connection = target.post.connection;
            parent_external_comment_id = target.parent_external_comment_id;
            body = body;
          }))
          (refuse context operation_id)
    stored ←
        catch
          (do
            ports.record_published context operation_id reply.external_id
            ports.store_published_reply context reply)
          (orphan context operation_id)
    ports.complete context operation_id stored.id
    pure stored

  -- A claim that another request holds.
  abbrev pub conflict : Option Comment → Exec W Comment
  conflict (some replayed) = pure replayed
  conflict none = throw (key_conflict ServiceErrorReason.idempotency_key_in_flight)

  module _ (config : Config) where
    unfoldable pub start_reply : TenantContext → Text → Text → Text → Text → Exec W Comment
    unfolding find_target publish
    start_reply context comment_id body idempotency_key fingerprint = do
      target ← find_target context comment_id
      now ← ports.now
      id ← ports.random_uuid
      granted ← ports.claim context (new_operation id comment_id idempotency_key fingerprint now)
      if granted.claimed
          then publish context target body granted.operation.id
          else do replayed ← replay ports context granted.operation fingerprint; conflict replayed

    unfoldable pub reply_unless :
        TenantContext → Text → Text → Text → Text → Option Comment → Exec W Comment
    unfolding start_reply
    reply_unless context comment_id body idempotency_key fingerprint (some replayed) = pure replayed
    reply_unless context comment_id body idempotency_key fingerprint none =
        start_reply context comment_id body idempotency_key fingerprint

    unfoldable pub reply_to_comment : TenantContext → Text → Text → Text → Exec W Comment
    unfolding reply_unless
    reply_to_comment context comment_id body idempotency_key = do
      lift (
          validate_reply_to_comment_command
            (record { comment_id = comment_id; body = body; idempotency_key = idempotency_key }))
      let fingerprint = request_fingerprint config comment_id body
      previous ← ports.find_by_idempotency_key context idempotency_key
      replayed ← replay_previous ports context previous fingerprint
      reply_unless context comment_id body idempotency_key fingerprint replayed
