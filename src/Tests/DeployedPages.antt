-- ===== src/Tests/DeployedPages.antt =====
-- Pages of the PostgreSQL repository at the sample, with a second comment whose instant has a
-- fraction of a millisecond.
use social_comments_service.Base.{[], arith, none, refl, some, ◌∷◌, ◌≡◌}
use social_comments_service.Repositories.Postgres.{CommentRow, CommentTuple, Database, as_uuid}
use social_comments_service.Repositories.Postgres.Comments.{
  insert_published_reply, page_of_rows, select_page,
}
use social_comments_service.Repositories.Postgres.Comments.Continues.{
  IsCursorExact, keyset_of_row, select_page-continues,
}
use social_comments_service.Repositories.Postgres.Comments.Ordering.{AreDistinctBy}
use social_comments_service.Repositories.Postgres.Comments.Repeats.{
  IsCursorRounded, select_page-repeats,
}
use social_comments_service.Repositories.Postgres.Comments.Replies.{
  AddsAtMost, insert_published_reply-AddsAtMost,
}
use social_comments_service.Repositories.Postgres.Statements.{rows_behind}
use social_comments_service.Shared.Exec.{ok}
use social_comments_service.Shared.Identifiers.{is_issued_timestamp}
use social_comments_service.Shared.Text.{text_eq, units}
use social_comments_service.Shared.Types.{
  ListCommentsQuery, ObservedComment, TenantContext, facebook,
}
use social_comments_service.Tests.Deployed.{
  account_a, database, deployed_program, engine, post_a, stored_comment, tables,
}
use social_comments_service.Tests.Sample.{author}

abbrev second_comment : CommentTuple
second_comment = record stored_comment {
  id = units "2b1f8f5c-0d2e-4d64-9d5f-91a0c0f1b112";
  external_comment_id = units "e3";
  published_at = 63951340021120456;
}

abbrev two_comments : Database
two_comments = record database {
  tables = record tables { comments = stored_comment ∷ second_comment ∷ [] };
}

abbrev row_of : CommentTuple → CommentRow
row_of c = record {
  id = c.id;
  post_id = c.post_id;
  platform = facebook;
  author_external_id = c.author_external_id;
  author_display_name = c.author_display_name;
  body = c.body;
  external_comment_id = c.external_comment_id;
  parent_comment_id = none;
  external_parent_comment_id = c.external_parent_comment_id;
  published_at = c.published_at;
  updated_at = c.updated_at;
}

abbrev query_behind : CommentTuple → ListCommentsQuery
query_behind c = record {
  post_id = post_a;
  platform = facebook;
  after = some (keyset_of_row (row_of c));
  limit = 1;
}

abbrev context_a : TenantContext
context_a = record { account_id = account_a }

tenant_read : as_uuid engine account_a ≡ ok account_a
unfolding deployed_program
tenant_read = refl

post_read : as_uuid engine post_a ≡ ok post_a
unfolding deployed_program
post_read = refl

two_rows :
    rows_behind two_comments.tables account_a post_a facebook none
    ≡ row_of stored_comment ∷ row_of second_comment ∷ []
unfolding deployed_program mathlib.Core.Option.bind
two_rows = refl

distinct_comments : AreDistinctBy (λ c. c.id) two_comments.tables.comments
unfolding text_eq
distinct_comments = ((refl, tt), (tt, tt))

first_exact : IsCursorExact engine (row_of stored_comment)
unfolding deployed_program is_issued_timestamp
first_exact = record { issued = refl; identified = refl; instant = refl; identifier = refl }

select_page-continues_example :
    select_page engine context_a (query_behind stored_comment) two_comments
    ≡ (page_of_rows 1 (row_of second_comment ∷ []), two_comments)
select_page-continues_example =
    select_page-continues engine context_a (query_behind stored_comment) two_comments account_a
      post_a tenant_read post_read [] (row_of stored_comment) (row_of second_comment ∷ [])
      distinct_comments first_exact refl two_rows

second_rounded : IsCursorRounded engine (row_of second_comment)
unfolding deployed_program is_issued_timestamp
second_rounded = record { issued = refl; identified = refl; instant = refl; identifier = refl }

select_page-repeats_example :
    select_page engine context_a (query_behind second_comment) two_comments
    ≡ (page_of_rows 1 (row_of second_comment ∷ []), two_comments)
select_page-repeats_example =
    select_page-repeats engine context_a (query_behind second_comment) two_comments account_a post_a
      tenant_read post_read (row_of stored_comment ∷ []) (row_of second_comment) []
      distinct_comments second_rounded (omega arith) (omega arith, tt) refl two_rows

abbrev observed_reply : ObservedComment
observed_reply = record {
  post_id = post_a;
  platform = facebook;
  author = author;
  body = units "Thanks";
  published_at = units "2026-01-02T00:00:00.000Z";
  updated_at = units "2026-01-02T00:00:00.000Z";
  external_id = units "e2";
  external_parent_comment_id = some (units "e1");
}

insert_published_reply-AddsAtMost_example :
    AddsAtMost observed_reply tables
      (insert_published_reply engine context_a observed_reply database).1.tables
insert_published_reply-AddsAtMost_example =
    insert_published_reply-AddsAtMost engine context_a observed_reply database
