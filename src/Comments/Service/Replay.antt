-- ===== src/Comments/Service/Replay.antt =====
-- `replay` and `recover` of src/comments/comment-service.ts: what a request finds of an earlier one
-- with its key.
use social_comments_service.Base.{
  Bool, Option, false, if◌then◌else◌, length, ltb, none, not, some, ℕ, ◌==◌,
}
use social_comments_service.Comments.Contracts.{Ports}
use social_comments_service.Shared.Date.{parse_date}
use social_comments_service.Shared.Errors.{
  ServiceErrorCode, ServiceErrorReason, Thrown, code_text, plain_error,
  reply_outcome_unknown_thrown,
}
use social_comments_service.Shared.Exec.{Exec, pure, throw, ◌>>=◌, ◌>>◌}
use social_comments_service.Shared.Text.{Text, text_eq}
use social_comments_service.Shared.Types.{
  Comment, ReplyOperation, ReplyOperationStatus, TenantContext, completed, failed, pending, unknown,
}

-- A digest is hexadecimal, so its bytes are its units.
unfoldable pub fingerprints_match : Text → Text → Bool
fingerprints_match stored computed =
    if not (length stored == length computed) then false else text_eq stored computed

abbrev pub key_conflict : ServiceErrorReason → Thrown
key_conflict reason = plain_error ServiceErrorCode.idempotency_conflict reason 409

-- `Date.parse(lease) > Date.now()`, false for NaN.
unfoldable pub lease_is_live : Text → ℕ → Bool
lease_is_live lease now = elim (parse_date lease) [ none ↦ false | some t ↦ ltb now t ]

module _ {W : Type 0} (ports : Ports W) where
  -- The end of `recover`, once the reply is known not to be stored.
  unfoldable pub expire : TenantContext → ReplyOperation → Exec W (Option Comment)
  expire context operation = do
    now ← ports.now
    if lease_is_live operation.lease_expires_at now then pure none else do
      ports.mark_unknown context operation.id (code_text ServiceErrorCode.reply_outcome_unknown)
      throw reply_outcome_unknown_thrown

  -- The reply that the recorded identifier names, if it is stored.
  unfoldable pub reconcile :
      TenantContext → ReplyOperation → Option Comment → Exec W (Option Comment)
  unfolding expire
  reconcile context operation none = expire context operation
  reconcile context operation (some comment) = do
    ports.complete context operation.id comment.id
    pure (some comment)

  unfoldable pub recover_from :
      TenantContext → ReplyOperation → Option Text → Exec W (Option Comment)
  unfolding expire reconcile
  recover_from context operation none = expire context operation
  recover_from context operation (some external_id) = do
    stored ← ports.find_reply_by_external_id context operation.comment_id external_id
    reconcile context operation stored

  unfoldable pub recover : TenantContext → ReplyOperation → Exec W (Option Comment)
  unfolding recover_from
  recover context operation = recover_from context operation operation.external_reply_id

  -- What `replay` does with a completed operation whose reply is stored no more: it falls through
  -- the other tests and returns null.
  abbrev pub completed_reply : TenantContext → Option Text → Exec W (Option Comment)
  completed_reply context none = pure none
  completed_reply context (some id) = ports.find_by_id context id

  abbrev pub by_status :
      TenantContext → ReplyOperation → ReplyOperationStatus → Exec W (Option Comment)
  by_status context operation completed = completed_reply context operation.resulting_comment_id
  by_status context operation failed =
      throw (key_conflict ServiceErrorReason.idempotency_key_failed)
  by_status context operation unknown = throw reply_outcome_unknown_thrown
  by_status context operation pending = recover context operation

  unfoldable pub replay : TenantContext → ReplyOperation → Text → Exec W (Option Comment)
  replay context operation fingerprint =
      if not (fingerprints_match operation.request_fingerprint fingerprint)
      then throw (key_conflict ServiceErrorReason.idempotency_key_body_mismatch)
      else by_status context operation operation.status

  -- The first part: an earlier request with this key.
  abbrev pub replay_previous :
      TenantContext → Option ReplyOperation → Text → Exec W (Option Comment)
  replay_previous context none fingerprint = pure none
  replay_previous context (some previous) fingerprint = replay context previous fingerprint
