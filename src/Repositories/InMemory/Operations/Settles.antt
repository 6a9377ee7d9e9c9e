-- ===== src/Repositories/InMemory/Operations/Settles.antt =====
-- Moves of a pending operation that cannot be refused.
use social_comments_service.Base.{List, [], any, arith, some, true, ℕ, ◌∷◌, ◌≡◌}
use social_comments_service.Repositories.InMemory.{Memory, read_clock}
use social_comments_service.Repositories.InMemory.Operations.{
  complete, is_pending, mark_unknown, update,
}
use social_comments_service.Repositories.InMemory.Operations.Cases.{
  assert_stored_reply_operation_valid,
}
use social_comments_service.Repositories.TenantScoped.{get, set}
use social_comments_service.Shared.Date.{to_iso_string}
use social_comments_service.Shared.Date.Texts.{to_iso_string-shown}
use social_comments_service.Shared.Exec.{ok, ◌>>=◌}
use social_comments_service.Shared.Text.{Text, is_non_empty_string, is_nullable_non_empty_string}
use social_comments_service.Shared.Types.{
  ReplyOperation, ReplyOperationStatus, TenantContext, completed, pending, status_eq, unknown,
}
use social_comments_service.Shared.Validation.{is_reply_operation_status, is_valid_reply_operation}

-- A tenant's operation that is stored, valid and pending.
pub record IsPendingAt (m : Memory) (a id : Text) (o : ReplyOperation) : Type 0 where
  pub row : get m.operations a id ≡ some o
  pub pending_status : o.status ≡ pending
  pub valid : is_valid_reply_operation o ≡ true

any_status : (s : ReplyOperationStatus) → is_reply_operation_status s ≡ true
unfolding is_reply_operation_status status_eq
any_status s = ground arith

shown : (t : Text) → is_non_empty_string t ≡ true → is_nullable_non_empty_string (some t) ≡ true
unfolding is_nullable_non_empty_string
shown t h = h

module _ (context : TenantContext) (id : Text) (m : Memory) (o : ReplyOperation)
    (h : IsPendingAt m context.account_id id o) where
  pub update_accepts :
      (change : ReplyOperation → ReplyOperation) (from : List ReplyOperationStatus)
      → any (status_eq o.status) from ≡ true
      → is_valid_reply_operation (change o) ≡ true
      → update context id change from m ≡ (
        ok (change o),
        record m { operations = set m.operations context.account_id id (change o) },
      )
  unfolding update
  update_accepts change from f v =
      rw (h.row, update, f, assert_stored_reply_operation_valid (change o) v)

  -- What `markUnknown` and `complete` make of the operation at an instant.
  abbrev pub lost : Text → ℕ → ReplyOperation
  lost code now = record o {
    status = unknown;
    failure_code = some code;
    completed_at = some (to_iso_string now);
  }

  abbrev pub done : Text → ℕ → ReplyOperation
  done comment_id now = record o {
    status = completed;
    resulting_comment_id = some comment_id;
    completed_at = some (to_iso_string now);
  }

  lost-valid :
      (code : Text) (now : ℕ)
      → is_non_empty_string code ≡ true
      → is_valid_reply_operation (lost code now) ≡ true
  unfolding is_valid_reply_operation
  lost-valid code now c = ground (
    arith,
    any_status unknown,
    shown code c,
    shown (to_iso_string now) (to_iso_string-shown now),
    h.valid,
  )

  done-valid :
      (i : Text) (now : ℕ)
      → is_non_empty_string i ≡ true
      → is_valid_reply_operation (done i now) ≡ true
  unfolding is_valid_reply_operation
  done-valid i now c = ground (
    arith,
    any_status completed,
    shown i c,
    shown (to_iso_string now) (to_iso_string-shown now),
    h.valid,
  )

module _ (context : TenantContext) (id : Text) (m : Memory) (o : ReplyOperation)
    (h : IsPendingAt m context.account_id id o) where
  read_clock-IsPendingAt : IsPendingAt (read_clock m).1 context.account_id id o
  unfolding read_clock
  read_clock-IsPendingAt = record {
    row = h.row;
    pending_status = h.pending_status;
    valid = h.valid;
  }

  pending_row : status_eq o.status pending ≡ true
  unfolding status_eq
  pending_row = rw (h.pending_status)

  is_pending_now : any (status_eq o.status) (pending ∷ []) ≡ true
  unfolding status_eq
  is_pending_now = rw (h.pending_status)

  may_complete : any (status_eq o.status) (pending ∷ unknown ∷ []) ≡ true
  unfolding status_eq
  may_complete = rw (h.pending_status)

  -- `markUnknown` succeeds, with any code that is not blank.
  pub mark_unknown_accepts :
      (code : Text)
      → is_non_empty_string code ≡ true
      → mark_unknown context id code m ≡ (
        ok (some (lost context id m o h code (m.sources.clock m.sources.reads))),
        record (read_clock m).1 {
          operations =
              set m.operations context.account_id id
                (lost context id m o h code (m.sources.clock m.sources.reads));
        },
      )
  unfolding mark_unknown ◌>>=◌ read_clock
  mark_unknown_accepts code c =
      rw (h.row, is_pending, pending_row)
        (rw (
          update_accepts context id (read_clock m).1 o read_clock-IsPendingAt
            (λ p. record p {
              status = unknown;
              failure_code = some code;
              completed_at = some (to_iso_string (m.sources.clock m.sources.reads));
            })
            (pending ∷ []) is_pending_now (lost-valid context id m o h code _ c)))

  -- So does `complete`, with any identifier that is not blank.
  pub complete_accepts :
      (i : Text)
      → is_non_empty_string i ≡ true
      → complete context id i m ≡ (
        ok (done context id m o h i (m.sources.clock m.sources.reads)),
        record (read_clock m).1 {
          operations =
              set m.operations context.account_id id
                (done context id m o h i (m.sources.clock m.sources.reads));
        },
      )
  unfolding complete ◌>>=◌ read_clock
  complete_accepts i c =
      update_accepts context id (read_clock m).1 o read_clock-IsPendingAt
        (λ p. record p {
          status = completed;
          resulting_comment_id = some i;
          completed_at = some (to_iso_string (m.sources.clock m.sources.reads));
        })
        (pending ∷ unknown ∷ []) may_complete (done-valid context id m o h i _ c)
