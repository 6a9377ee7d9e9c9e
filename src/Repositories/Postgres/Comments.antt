-- ===== src/Repositories/Postgres/Comments.antt =====
-- `PostgresCommentRepository` of src/repositories/postgres.ts: the methods.
pub mod Ordering
pub mod Pages
pub mod Continues
pub mod Repeats
pub mod Replies
use mathlib.Core.Option
use social_comments_service.Base.{
  Bool, List, Option, [], any, false, if◌then◌else◌, length, ltb, none, not, some, take, ℕ, ◌&&◌,
  ◌+◌, ◌∷◌,
}
use social_comments_service.Repositories.Postgres.{
  CommentRow, Database, Engine, PostTuple, as_timestamptz, as_uuid, collect, find_where,
  gen_random_uuid, or_error, with_tenant,
}
use social_comments_service.Repositories.Postgres.Posts.{post_of}
use social_comments_service.Repositories.Postgres.Statements.{
  ReadObservation, add_unless_there, comment_of_row, comment_of_row_or_null, deduped, first_row,
  is_of_sibling, is_of_target, is_unissued, rows_behind, select_comments, tuple_of, upsert_rows,
}
use social_comments_service.Shared.Errors.{
  ServiceErrorCode, ServiceErrorReason, Thrown, plain_error,
}
use social_comments_service.Shared.Exec.{
  Exec, Result, err, gets, lift, map_result, ok, pure, throw, ◌>>=◌, ◌>>◌,
}
use social_comments_service.Shared.Identifiers.{is_uuid}
use social_comments_service.Shared.Text.{Text, text_eq}
use social_comments_service.Shared.Types.{
  Comment, CommentKeyset, CommentPage, ListCommentsQuery, ObservedComment, TenantContext,
}

abbrev pub post_not_found : Thrown
post_not_found = plain_error ServiceErrorCode.post_not_found ServiceErrorReason.post_not_found 404

abbrev pub reply_not_stored : Thrown
reply_not_stored =
    plain_error ServiceErrorCode.internal_error ServiceErrorReason.reply_not_stored 500

abbrev pub to_page : List CommentRow → Bool → Result CommentPage
to_page rows has_more = elim (map_result comment_of_row rows) [
  | err e ↦ err e
  | ok items ↦ ok (record { items = items; has_more = has_more })
]

abbrev pub page_of_rows : ℕ → List CommentRow → Result CommentPage
page_of_rows limit rows = to_page (take limit rows) (ltb limit (length rows))

-- The row that the insertion of a reply adds, if it adds one.
abbrev pub insert_at : Text → ReadObservation → Option PostTuple → Exec Database (Option Text)
insert_at tenant r none = pure none
insert_at tenant r (some p) = do id ← gen_random_uuid; add_unless_there (tuple_of tenant p r id)

unfoldable pub insert_reply : Text → ReadObservation → Exec Database (Option Text)
insert_reply tenant r = do
  post ← gets (λ db. find_where (post_of tenant r.post_id) db.tables.posts)
  insert_at tenant r post

-- `readBack`
unfoldable pub read_back : Text → ReadObservation → Option Text → Exec Database (Option CommentRow)
read_back tenant r id = gets λ db. first_row (
    select_comments db.tables tenant (λ c.
      elim id [
        | none ↦ text_eq c.external_comment_id r.observed.external_id
        | some i ↦ text_eq c.id i
      ]
      && is_of_target db.tables tenant r.post_id c))

-- The identifier was there, or the post is not the tenant's.
unfoldable pub existing_or_refuse : Text → ReadObservation → Exec Database Comment
existing_or_refuse tenant r = do
  existing ← read_back tenant r none
  row ← lift (or_error post_not_found existing)
  if text_eq row.body r.observed.body then lift (comment_of_row row) else throw reply_not_stored

abbrev pub inserted_row : Text → ReadObservation → Option CommentRow → Exec Database Comment
inserted_row tenant r none = existing_or_refuse tenant r
inserted_row tenant r (some found) = lift (comment_of_row found)

unfoldable pub inserted_or_existing : Text → ReadObservation → Option Text → Exec Database Comment
inserted_or_existing tenant r none = existing_or_refuse tenant r
inserted_or_existing tenant r (some id) = do
  row ← read_back tenant r (some id)
  inserted_row tenant r row

module _ (e : Engine) where
  abbrev pub read_position : Option CommentKeyset → Result (Option (ℕ × Text))
  read_position none = ok none
  read_position (some k) =
      collect (as_timestamptz e k.published_at)
        λ t. collect (as_uuid e k.id) λ id. ok (some (t, id))

  -- One row more than the limit tells whether there is more.
  unfoldable pub select_page_rows : Text → ListCommentsQuery → Exec Database CommentPage
  select_page_rows tenant query = do
    post_id ← lift (as_uuid e query.post_id)
    position ← lift (read_position query.after)
    rows ← gets (λ db.
        take (query.limit + 1) (rows_behind db.tables tenant post_id query.platform position))
    lift (page_of_rows query.limit rows)

  unfoldable pub select_page : TenantContext → ListCommentsQuery → Exec Database CommentPage
  select_page context query =
      if is_unissued query.after
      then pure (record { items = []; has_more = false })
      else with_tenant e context.account_id λ tenant. select_page_rows tenant query

  unfoldable pub select_by_id : TenantContext → Text → Exec Database (Option Comment)
  select_by_id context comment_id =
      if not (is_uuid comment_id)
      then pure none
      else with_tenant e context.account_id λ tenant. do
        id ← lift (as_uuid e comment_id)
        rows ← gets (λ db. select_comments db.tables tenant (λ c. text_eq c.id id))
        lift (comment_of_row_or_null (first_row rows))

  unfoldable pub select_reply : TenantContext → Text → Text → Exec Database (Option Comment)
  select_reply context sibling_comment_id external_id =
      if not (is_uuid sibling_comment_id)
      then pure none
      else with_tenant e context.account_id λ tenant. do
        id ← lift (as_uuid e sibling_comment_id)
        rows ← gets (λ db.
            select_comments db.tables tenant (λ c.
              text_eq c.external_comment_id external_id && is_of_sibling db.tables tenant id c))
        lift (comment_of_row_or_null (first_row rows))

  unfoldable pub select_external_id : TenantContext → Text → Exec Database (Option Text)
  select_external_id context comment_id =
      if not (is_uuid comment_id)
      then pure none
      else with_tenant e context.account_id λ tenant. do
        id ← lift (as_uuid e comment_id)
        gets (λ db.
            Option.map (λ c. c.external_comment_id)
              (find_where (λ c. text_eq c.id id && text_eq c.account_id tenant) db.tables.comments))

  unfoldable pub read_observation : ObservedComment → Result ReadObservation
  read_observation o = collect (as_timestamptz e o.published_at) λ published_at.
      collect (as_timestamptz e o.updated_at) λ updated_at. collect (as_uuid e o.post_id) λ post_id.
        ok (record {
          observed = o;
          post_id = post_id;
          published_at = published_at;
          updated_at = updated_at;
        })

  -- The batch after the first observation's post, which scopes the rows read back.
  unfoldable pub upsert_batch : Text → List ReadObservation → Exec Database (List Comment)
  upsert_batch tenant [] = pure []
  upsert_batch tenant (r ∷ rs) = do
    stored ← upsert_rows tenant (r ∷ rs)
    if ltb (length stored) (length (r ∷ rs)) then throw post_not_found else do
      rows ← gets (λ db. e.arrange (
          select_comments db.tables tenant (λ c.
            any (λ x. text_eq c.external_comment_id x.observed.external_id) (r ∷ rs)
            && is_of_target db.tables tenant r.post_id c)))
      lift (map_result comment_of_row rows)

  unfoldable pub upsert_comments :
      TenantContext → List ObservedComment → Exec Database (List Comment)
  upsert_comments context [] = pure []
  upsert_comments context (o ∷ os) = with_tenant e context.account_id λ tenant. do
    batch ← lift (map_result read_observation (deduped (o ∷ os)))
    upsert_batch tenant batch

  unfoldable pub insert_published_reply : TenantContext → ObservedComment → Exec Database Comment
  insert_published_reply context reply = with_tenant e context.account_id λ tenant. do
    r ← lift (read_observation reply)
    inserted ← insert_reply tenant r
    inserted_or_existing tenant r inserted
