-- ===== src/Repositories/Postgres/Operations.antt =====
-- `PostgresReplyOperationRepository` of src/repositories/postgres.ts.
use mathlib.Core.Option
use social_comments_service.Base.{
  Bool, List, Option, [], any, false, if◌then◌else◌, none, not, some, true, ◌&&◌, ◌∷◌,
}
use social_comments_service.Repositories.InMemory.Operations.{not_in_state}
use social_comments_service.Repositories.Postgres.{
  Database, Engine, OperationRow, Tables, as_timestamptz, as_uuid, collect, db_read_clock,
  find_where, foreign_key_violation, iso_of, map_where, nullable, or_error, unique_violation,
  with_tenant,
}
use social_comments_service.Shared.Date.{to_iso_string}
use social_comments_service.Shared.Errors.{
  ServiceErrorCode, ServiceErrorReason, Thrown, plain_error,
}
use social_comments_service.Shared.Exec.{Exec, Result, err, gets, lift, ok, pure, ◌>>=◌}
use social_comments_service.Shared.Text.{Text, text_eq}
use social_comments_service.Shared.Types.{
  ReplyOperation, ReplyOperationClaim, ReplyOperationStatus, TenantContext, completed, failed,
  pending, status_eq, unknown,
}
use social_comments_service.Shared.Validation.{assert_stored_reply_operation}

-- `toOperation`
unfoldable pub to_operation : OperationRow → Result ReplyOperation
to_operation row = assert_stored_reply_operation (record {
  id = row.id;
  account_id = row.account_id;
  comment_id = row.comment_id;
  idempotency_key = row.idempotency_key;
  request_fingerprint = row.request_fingerprint;
  status = row.status;
  resulting_comment_id = row.resulting_comment_id;
  failure_code = row.failure_code;
  lease_expires_at = iso_of row.lease_expires_at;
  external_reply_id = row.external_reply_id;
  created_at = iso_of row.created_at;
  completed_at = Option.map iso_of row.completed_at;
})

abbrev pub to_operation_or_null : Option OperationRow → Result (Option ReplyOperation)
to_operation_or_null none = ok none
to_operation_or_null (some row) = elim (to_operation row) [ err e ↦ err e | ok o ↦ ok (some o) ]

abbrev pub holds_key : Text → Text → OperationRow → Bool
holds_key tenant key row = text_eq row.account_id tenant && text_eq row.idempotency_key key

unfoldable pub operation_by_key : Tables → Text → Text → Option OperationRow
unfolding find_where
operation_by_key s tenant key = find_where (holds_key tenant key) s.reply_operations

-- The foreign key of a nullable column to a comment, of whatever tenant.
abbrev pub has_comment : Tables → Option Text → Bool
has_comment s none = true
has_comment s (some id) = any (λ c. text_eq c.id id) s.comments

abbrev pub in_state : Text → Text → List ReplyOperationStatus → OperationRow → Bool
in_state tenant operation_id from_statuses row =
    text_eq row.id operation_id
    && text_eq row.account_id tenant
    && any (status_eq row.status) from_statuses

-- The foreign keys of a row.
abbrev pub has_references : Tables → OperationRow → Bool
has_references s row =
    any (text_eq row.account_id) s.accounts
    && has_comment s (some row.comment_id)
    && has_comment s row.resulting_comment_id

-- A row whose key is free, under the other constraints of the table.
unfoldable pub store_operation : OperationRow → Exec Database (Option OperationRow)
store_operation row db =
    if any (λ o. text_eq o.id row.id) db.tables.reply_operations
    then (err unique_violation, db)
    else if not (has_references db.tables row)
    then (err foreign_key_violation, db)
    else (
      ok (some row),
      record db {
        tables = record db.tables { reply_operations = row ∷ db.tables.reply_operations };
      },
    )

-- `insert … on conflict (account_id, idempotency_key) do nothing returning`: the row, if its key was
-- free.
unfoldable pub insert_operation : OperationRow → Exec Database (Option OperationRow)
insert_operation row db = elim (operation_by_key db.tables row.account_id row.idempotency_key) [
  | some _ ↦ (ok none, db)
  | none ↦ store_operation row db
]

abbrev pub claim_row : Thrown
claim_row = plain_error ServiceErrorCode.internal_error ServiceErrorReason.internal_error 500

-- What `claim` answers with when the key was taken, or the row that it inserted.
unfoldable pub answer_claim : Text → Text → Option OperationRow → Exec Database ReplyOperationClaim
answer_claim tenant key (some row) = do
  o ← lift (to_operation row)
  pure (record { operation = o; claimed = true })
answer_claim tenant key none = do
  existing ← gets (λ db. operation_by_key db.tables tenant key)
  current ← lift (or_error claim_row existing)
  o ← lift (to_operation current)
  pure (record { operation = o; claimed = false })

-- `update reply_operations … where id = … and account_id = … and status = any(…) returning`, with
-- the foreign key of the resulting comment.
unfoldable pub update_operations :
    Text
    → Text
    → List ReplyOperationStatus
    → (OperationRow → OperationRow)
    → Exec Database (Option OperationRow)
update_operations tenant operation_id from_statuses change db =
    elim (find_where (in_state tenant operation_id from_statuses) db.tables.reply_operations) [
      | none ↦ (ok none, db)
      | some row ↦
          if not (has_comment db.tables (change row).resulting_comment_id)
          then (err foreign_key_violation, db)
          else (
            ok (some (change row)),
            record db {
              tables = record db.tables {
                reply_operations =
                    map_where (in_state tenant operation_id from_statuses) change
                      db.tables.reply_operations;
              };
            },
          )
    ]

-- What an update that must have found its operation returns.
abbrev pub updated_operation : Option OperationRow → Exec Database ReplyOperation
updated_operation row = do found ← lift (or_error not_in_state row); lift (to_operation found)

module _ (e : Engine) where
  unfoldable pub select_by_idempotency_key :
      TenantContext → Text → Exec Database (Option ReplyOperation)
  select_by_idempotency_key context key = with_tenant e context.account_id λ tenant. do
    row ← gets (λ db. operation_by_key db.tables tenant key)
    lift (to_operation_or_null row)

  -- The parameters of the insertion, as the columns read them.
  unfoldable pub operation_row : Text → ReplyOperation → Result OperationRow
  operation_row tenant o = collect (as_uuid e o.id) λ id.
      collect (as_uuid e o.comment_id) λ comment_id.
        collect (nullable (as_uuid e) o.resulting_comment_id) λ resulting_comment_id.
          collect (as_timestamptz e o.lease_expires_at) λ lease_expires_at.
            collect (as_timestamptz e o.created_at) λ created_at.
              collect (nullable (as_timestamptz e) o.completed_at) λ completed_at. ok (record {
                id = id;
                account_id = tenant;
                comment_id = comment_id;
                idempotency_key = o.idempotency_key;
                request_fingerprint = o.request_fingerprint;
                status = o.status;
                resulting_comment_id = resulting_comment_id;
                failure_code = o.failure_code;
                lease_expires_at = lease_expires_at;
                external_reply_id = o.external_reply_id;
                created_at = created_at;
                completed_at = completed_at;
              })

  unfoldable pub insert_claim : TenantContext → ReplyOperation → Exec Database ReplyOperationClaim
  insert_claim context operation = with_tenant e context.account_id λ tenant. do
    row ← lift (operation_row tenant operation)
    inserted ← insert_operation row
    answer_claim tenant operation.idempotency_key inserted

  unfoldable pub set_published : TenantContext → Text → Text → Exec Database ReplyOperation
  set_published context operation_id external_reply_id = with_tenant e context.account_id λ tenant.
      do
        id ← lift (as_uuid e operation_id)
        row ←
            update_operations tenant id (pending ∷ [])
              (λ o. record o { external_reply_id = some external_reply_id })
        updated_operation row

  unfoldable pub set_completed : TenantContext → Text → Text → Exec Database ReplyOperation
  set_completed context operation_id comment_id = do
    now ← db_read_clock
    with_tenant e context.account_id λ tenant. do
      id ← lift (as_uuid e operation_id)
      resulting ← lift (as_uuid e comment_id)
      completed_at ← lift (as_timestamptz e (to_iso_string now))
      row ← update_operations tenant id (pending ∷ unknown ∷ []) (λ o. record o {
        resulting_comment_id = some resulting;
        status = completed;
        completed_at = some completed_at;
      })
      updated_operation row

  unfoldable pub set_failed : TenantContext → Text → Text → Exec Database ReplyOperation
  set_failed context operation_id failure_code = do
    now ← db_read_clock
    with_tenant e context.account_id λ tenant. do
      id ← lift (as_uuid e operation_id)
      completed_at ← lift (as_timestamptz e (to_iso_string now))
      row ← update_operations tenant id (pending ∷ []) (λ o. record o {
        resulting_comment_id = none;
        status = failed;
        failure_code = some failure_code;
        completed_at = some completed_at;
      })
      updated_operation row

  unfoldable pub set_unknown : TenantContext → Text → Text → Exec Database (Option ReplyOperation)
  set_unknown context operation_id failure_code = with_tenant e context.account_id λ tenant. do
    now ← db_read_clock
    id ← lift (as_uuid e operation_id)
    completed_at ← lift (as_timestamptz e (to_iso_string now))
    row ← update_operations tenant id (pending ∷ []) (λ o. record o {
      status = unknown;
      failure_code = some failure_code;
      completed_at = some completed_at;
    })
    lift (to_operation_or_null row)
