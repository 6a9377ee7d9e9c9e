-- ===== src/Repositories/InMemory/Operations.antt =====
-- `InMemoryReplyOperationRepository` of src/repositories/in-memory.ts.
pub mod Cases
pub mod Settles
pub mod Lifecycle
pub mod History
pub mod Claims
pub mod Answered
use social_comments_service.Base.{
  Bool, List, Option, [], any, false, if◌then◌else◌, none, not, some, true, ◌∷◌,
}
use social_comments_service.Repositories.InMemory.{Memory, read_clock}
use social_comments_service.Repositories.TenantScoped.{get, set}
use social_comments_service.Shared.Date.{to_iso_string}
use social_comments_service.Shared.Errors.{
  ServiceErrorCode, ServiceErrorReason, Thrown, internal_error, plain_error,
}
use social_comments_service.Shared.Exec.{Exec, Result, err, gets, lift, ok, pure, ◌>>=◌, ◌>>◌}
use social_comments_service.Shared.Text.{Text}
use social_comments_service.Shared.Types.{
  ReplyOperation, ReplyOperationClaim, ReplyOperationStatus, TenantContext, completed, failed,
  pending, status_eq, unknown,
}
use social_comments_service.Shared.Validation.{assert_stored_reply_operation}

abbrev pub find_operation : Memory → Text → Option Text → Result (Option ReplyOperation)
find_operation m account_id none = ok none
find_operation m account_id (some id) = elim (get m.operations account_id id) [
  | none ↦ ok none
  | some operation ↦ elim (assert_stored_reply_operation operation) [
    | err e ↦ err e
    | ok o ↦ ok (some o)
  ]
]

unfoldable pub by_idempotency_key : Memory → Text → Text → Result (Option ReplyOperation)
by_idempotency_key m account_id key =
    find_operation m account_id (get m.claimed_keys account_id key)

unfoldable pub find_by_idempotency_key : TenantContext → Text → Exec Memory (Option ReplyOperation)
find_by_idempotency_key context key m = (by_idempotency_key m context.account_id key, m)

-- The argument of `claim` lacks the account, which comes from the context.
abbrev pub with_account : Text → ReplyOperation → ReplyOperation
with_account account_id o = record o { account_id = account_id }

unfoldable pub claim : TenantContext → ReplyOperation → Exec Memory ReplyOperationClaim
claim context operation = do
  existing ← find_by_idempotency_key context operation.idempotency_key
  elim existing [
    | some o ↦ pure (record { operation = o; claimed = false })
    | none ↦ do
      stored ← lift (assert_stored_reply_operation (with_account context.account_id operation))
      (λ m. (
        ok (record { operation = stored; claimed = true }),
        record m {
          claimed_keys =
              set m.claimed_keys context.account_id operation.idempotency_key operation.id;
          operations = set m.operations context.account_id operation.id stored;
        },
      ))
  ]

-- What `update` throws when the operation is not in a state that it accepts.
abbrev pub not_in_state : Thrown
not_in_state = plain_error ServiceErrorCode.internal_error ServiceErrorReason.internal_error 500

unfoldable pub update :
    TenantContext
    → Text
    → (ReplyOperation → ReplyOperation)
    → List ReplyOperationStatus
    → Exec Memory ReplyOperation
update context operation_id changes from_statuses m =
    elim (get m.operations context.account_id operation_id) [
      | none ↦ (err not_in_state, m)
      | some operation ↦
          if not (any (status_eq operation.status) from_statuses)
          then (err not_in_state, m)
          else elim (assert_stored_reply_operation (changes operation)) [
            | err e ↦ (err e, m)
            | ok updated ↦ (
              ok updated,
              record m { operations = set m.operations context.account_id operation_id updated },
            )
          ]
    ]

unfoldable pub record_published : TenantContext → Text → Text → Exec Memory ReplyOperation
record_published context operation_id external_reply_id =
    update context operation_id (λ o. record o { external_reply_id = some external_reply_id })
      (pending ∷ [])

abbrev pub is_pending : Option ReplyOperation → Bool
is_pending none = false
is_pending (some o) = status_eq o.status pending

unfoldable pub mark_unknown : TenantContext → Text → Text → Exec Memory (Option ReplyOperation)
mark_unknown context operation_id failure_code = do
  operation ← gets (λ m. get m.operations context.account_id operation_id)
  if not (is_pending operation) then pure none else do
    now ← read_clock
    updated ←
        update context operation_id
          (λ o. record o {
            status = unknown;
            failure_code = some failure_code;
            completed_at = some (to_iso_string now);
          })
          (pending ∷ [])
    pure (some updated)

unfoldable pub complete : TenantContext → Text → Text → Exec Memory ReplyOperation
complete context operation_id comment_id = do
  now ← read_clock
  update context operation_id
      (λ o. record o {
        status = completed;
        resulting_comment_id = some comment_id;
        completed_at = some (to_iso_string now);
      })
      (pending ∷ unknown ∷ [])

unfoldable pub fail : TenantContext → Text → Text → Exec Memory ReplyOperation
fail context operation_id failure_code = do
  now ← read_clock
  update context operation_id
      (λ o. record o {
        status = failed;
        failure_code = some failure_code;
        completed_at = some (to_iso_string now);
      })
      (pending ∷ [])
