-- ===== src/Repositories/InMemory/Operations/Cases.antt =====
-- What each method of the operation repository does to the stored operations: nothing, or one
-- valid change of one operation.
use social_comments_service.Base.{
  Bool-cases, List, Option-cases, any, arith, inl, inr, some, true, ◌≡◌, ◌⊎◌,
}
use social_comments_service.Repositories.InMemory.{Memory}
use social_comments_service.Repositories.InMemory.Operations.{not_in_state, update}
use social_comments_service.Repositories.TenantScoped.{get, set}
use social_comments_service.Shared.Errors.{Thrown, reply_operation_record}
use social_comments_service.Shared.Exec.{err, ok}
use social_comments_service.Shared.Text.{Text}
use social_comments_service.Shared.Types.{
  ReplyOperation, ReplyOperationStatus, TenantContext, status_eq,
}
use social_comments_service.Shared.Validation.{
  as_stored_record_fault, assert_stored_reply_operation, is_valid_reply_operation,
  validate_reply_operation,
}

pub assert_stored_reply_operation_ok :
    {o p : ReplyOperation}
    → assert_stored_reply_operation o ≡ ok p
    → (p ≡ o) × (is_valid_reply_operation o ≡ true)
unfolding assert_stored_reply_operation validate_reply_operation
assert_stored_reply_operation_ok h = ground arith

pub assert_stored_reply_operation_valid :
    (o : ReplyOperation)
    → is_valid_reply_operation o ≡ true
    → assert_stored_reply_operation o ≡ ok o
unfolding assert_stored_reply_operation validate_reply_operation
assert_stored_reply_operation_valid o h = rw h

module _ (context : TenantContext) (id : Text) (changes : ReplyOperation → ReplyOperation)
    (from : List ReplyOperationStatus) (m : Memory) where
  abbrev pub Refused : Type 0
  Refused = (e : Thrown) × (update context id changes from m ≡ (err e, m))

  abbrev pub Moved : Type 0
  Moved =
      (o : ReplyOperation) × (get m.operations context.account_id id ≡ some o)
      × (any (status_eq o.status) from ≡ true)
      × (is_valid_reply_operation (changes o) ≡ true)
      × (update context id changes from m ≡ (
        ok (changes o),
        record m { operations = set m.operations context.account_id id (changes o) },
      ))

  pub update_cases : Refused ⊎ Moved
  unfolding update assert_stored_reply_operation validate_reply_operation
  update_cases = elim (Option-cases (get m.operations context.account_id id)) [
    | inl e ↦ inl (not_in_state, rw (e, update))
    | inr (o, e) ↦ elim (Bool-cases (any (status_eq o.status) from)) [
      | inl t ↦ elim (Bool-cases (is_valid_reply_operation (changes o))) [
        | inl v ↦ inr (o, e, t, v, ground arith)
        | inr v ↦ inl (
          as_stored_record_fault reply_operation_record (changes o).id,
          rw (e, update, t, v, assert_stored_reply_operation),
        )
      ]
      | inr t ↦ inl (not_in_state, rw (e, update, t))
    ]
  ]
