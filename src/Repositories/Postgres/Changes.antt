-- ===== src/Repositories/Postgres/Changes.antt =====
-- What the statements of src/repositories/postgres.ts may do to the tables: the state machine of an
-- operation, and the changes of a transaction.
pub mod Transactions
pub mod Operations
pub mod Comments
pub mod Lookups
pub mod Followed
pub mod Granted
pub mod Rows
use social_comments_service.Base.{List, Option, any, false, none, some, true, ℕ, ◌∷◌, ◌≡◌, ◌⊎◌}
use social_comments_service.Repositories.Postgres.{
  CommentTuple, OperationRow, Tables, find_where, map_where,
}
use social_comments_service.Repositories.Postgres.Operations.{in_state, operation_by_key}
use social_comments_service.Repositories.Postgres.Posts.{stands_as, with_snapshot}
use social_comments_service.Repositories.Postgres.Statements.{
  has_identity, is_overwritten, overwrite,
}
use social_comments_service.Shared.Text.{Text, text_eq}
use social_comments_service.Shared.Types.{
  PostSnapshotState, ReplyOperationStatus, completed, failed, pending, unknown,
}

-- A move of an operation, which keeps what it was claimed for.
pub data Moves : OperationRow → OperationRow → Type 0 where
  publishes :
      (o : OperationRow) (x : Text)
      → o.status ≡ pending
      → Moves o (record o { external_reply_id = some x })
  completes :
      (o : OperationRow) (c : Text) (t : ℕ)
      → (o.status ≡ pending) ⊎ (o.status ≡ unknown)
      → Moves o
          (record o { resulting_comment_id = some c; status = completed; completed_at = some t })
  fails :
      (o : OperationRow) (code : Text) (t : ℕ)
      → o.status ≡ pending
      → Moves o (record o {
        resulting_comment_id = none;
        status = failed;
        failure_code = some code;
        completed_at = some t;
      })
  loses :
      (o : OperationRow) (code : Text) (t : ℕ)
      → o.status ≡ pending
      → Moves o (record o { status = unknown; failure_code = some code; completed_at = some t })

module _ (T : Text → Type 0) where
  -- One statement that writes, for a tenant of `T`.
  pub data Change : Tables → Tables → Type 0 where
    claims :
        {s s' : Tables} (row : OperationRow)
        → T row.account_id
        → operation_by_key s row.account_id row.idempotency_key ≡ none
        → s' ≡ record s { reply_operations = row ∷ s.reply_operations }
        → Change s s'
    moves :
        {s s' : Tables} (t id : Text) (from : List ReplyOperationStatus)
        (change : OperationRow → OperationRow)
        → T t
        → ((o : OperationRow) → in_state t id from o ≡ true → Moves o (change o))
        → s'
          ≡ record s { reply_operations = map_where (in_state t id from) change s.reply_operations }
        → Change s s'
    adds :
        {s s' : Tables} (c : CommentTuple)
        → T c.account_id
        → find_where (has_identity c.social_account_id c.external_comment_id) s.comments ≡ none
        → any (λ d. text_eq d.id c.id) s.comments ≡ false
        → s' ≡ record s { comments = c ∷ s.comments }
        → Change s s'
    edits :
        {s s' : Tables} (c : CommentTuple)
        → T c.account_id
        → s' ≡ record s { comments = map_where (is_overwritten c) (overwrite c) s.comments }
        → Change s s'
    saves :
        {s s' : Tables} (t id : Text) (expected state : PostSnapshotState) (at : Option ℕ)
        → T t
        → s' ≡ record s {
          posts = map_where (stands_as t id expected) (with_snapshot state at) s.posts;
        }
        → Change s s'

  -- Any number of them.
  pub data Changes (s : Tables) : Tables → Type 0 where
    unchanged : Changes s s
    changed : {u v : Tables} → Changes s u → Change u v → Changes s v
