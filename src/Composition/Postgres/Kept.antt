-- ===== src/Composition/Postgres/Kept.antt =====
-- What requests leave of the rows of the PostgreSQL composition.
use social_comments_service.Base.{All, All-of, List, Option, some, ◌≡◌, ◌≢◌}
use social_comments_service.Comments.Contracts.{Config, Provider}
use social_comments_service.Comments.Service.Requests.{Request, context_of, respond_all}
use social_comments_service.Composition.Postgres.{Deployment, postgres_ports}
use social_comments_service.Composition.Postgres.Lawful.{AnyTenant}
use social_comments_service.Composition.Postgres.Reached.{respond_all-Changes}
use social_comments_service.Repositories.Postgres.{
  CommentTuple, Engine, OperationRow, Tables, as_uuid,
}
use social_comments_service.Repositories.Postgres.Changes.{Changes}
use social_comments_service.Repositories.Postgres.Changes.Followed.{
  Changes-key, Follows-SameClaim, Follows-final, HasOutcome, SameClaim,
}
use social_comments_service.Repositories.Postgres.Changes.Rows.{
  Changes-SameRows, Changes-comment, SameComment, SameRows, comment_by_id,
}
use social_comments_service.Repositories.Postgres.Operations.{operation_by_key}
use social_comments_service.Shared.Exec.{ok}
use social_comments_service.Shared.Text.{Text}
use social_comments_service.Shared.Types.{Platform}

module _ {S : Type 0} (e : Engine) (config : Config)
    (providers : Platform → Option (Provider S)) where
  module _ (rs : List Request) (w : Deployment S) where
    abbrev pub tables_before : Tables
    tables_before = w.database.tables

    abbrev pub tables_after : Tables
    tables_after = (respond_all (postgres_ports e providers) config rs w).database.tables

    reached : Changes AnyTenant tables_before tables_after
    reached = respond_all-Changes e config providers AnyTenant rs w (All-of rs (λ r t x. tt))

    -- Whatever requests are made, a claimed key is held by the operation that it was claimed for:
    -- its tenant, comment, fingerprint, lease and creation are as they were, and a completed or
    -- failed one is unchanged.
    pub operation_kept :
        (a k : Text) (row : OperationRow)
        → operation_by_key tables_before a k ≡ some row
        → (row' : OperationRow) × (operation_by_key tables_after a k ≡ some row')
          × SameClaim row row'
          × (HasOutcome row → row' ≡ row)
    operation_kept a k row h =
        let (row', g, f) = Changes-key a k row reached h in
        (row', g, Follows-SameClaim f, Follows-final f)

    -- Whatever requests are made, a stored comment stays stored, and only its text, its author's
    -- name, its parent and the instant of its update may change: it keeps its identifiers, its
    -- tenant, its post, its connection, its author and its instant of publication.
    pub comment_kept :
        (id : Text) (c : CommentTuple)
        → comment_by_id tables_before id ≡ some c
        → (c' : CommentTuple) × (comment_by_id tables_after id ≡ some c') × SameComment c c'
    comment_kept id c h = Changes-comment id c reached h

    -- Requests of other tenants, answered or refused, leave the posts, comments and operations of
    -- a tenant as they were.
    pub rows_isolated :
        (b : Text)
        → All (λ r. (t : Text) → as_uuid e (context_of r).account_id ≡ ok t → t ≢ b) rs
        → SameRows b tables_before tables_after
    rows_isolated b others =
        Changes-SameRows b (λ t other. other)
          (respond_all-Changes e config providers (λ t. t ≢ b) rs w others)
