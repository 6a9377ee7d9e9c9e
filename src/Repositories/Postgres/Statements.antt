-- ===== src/Repositories/Postgres/Statements.antt =====
-- The statements of `PostgresCommentRepository` of src/repositories/postgres.ts, as functions of the
-- rows. Only the rows of the tenant are seen, save by the constraints of a table.
use mathlib.Core.Option
use social_comments_service.Base.{
  Bool, List, Option, [], any, false, if◌then◌else◌, is_none, is_some, ltb, none, not, some, true,
  ℕ, ◌&&◌, ◌++◌, ◌==◌, ◌||◌, ◌∷◌,
}
use social_comments_service.Repositories.InMemory.Comments.{keep_if}
use social_comments_service.Repositories.Postgres.{
  CommentRow, CommentTuple, Database, PostTuple, Tables, database_error, find_where,
  gen_random_uuid, iso_of, map_where, unique_violation,
}
use social_comments_service.Repositories.Postgres.Posts.{connection_of, post_of}
use social_comments_service.Repositories.TenantScoped.{Entries, entry_values, insert}
use social_comments_service.Shared.Exec.{Exec, Result, err, gets, ok, pure, ◌>>=◌}
use social_comments_service.Shared.Identifiers.{is_issued_timestamp, is_uuid}
use social_comments_service.Shared.Text.{Text, text_eq, text_lt, units}
use social_comments_service.Shared.Types.{
  Comment, CommentKeyset, ObservedComment, Platform, platform_eq,
}
use social_comments_service.Shared.Validation.{assert_stored_comment}

-- `toComment`
unfoldable pub comment_of_row : CommentRow → Result Comment
comment_of_row row = assert_stored_comment (record {
  id = row.id;
  post_id = row.post_id;
  platform = row.platform;
  author = record {
    id = row.author_external_id;
    display_name = row.author_display_name;
    profile_url = none;
  };
  body = row.body;
  parent_comment_id = row.parent_comment_id;
  parent_unresolved = is_some row.external_parent_comment_id && is_none row.parent_comment_id;
  published_at = iso_of row.published_at;
  updated_at = iso_of row.updated_at;
})

abbrev pub comment_of_row_or_null : Option CommentRow → Result (Option Comment)
comment_of_row_or_null none = ok none
comment_of_row_or_null (some row) = elim (comment_of_row row) [ err e ↦ err e | ok c ↦ ok (some c) ]

-- The row that the key `(social_account_id, external_comment_id)` names.
abbrev pub has_identity : Text → Text → CommentTuple → Bool
has_identity social_account_id external_id c =
    text_eq c.social_account_id social_account_id && text_eq c.external_comment_id external_id

-- The left join with the parent, of the rows that the tenant may see.
abbrev pub parent_of : Tables → Text → CommentTuple → Option CommentTuple
parent_of s tenant c = Option.bind c.external_parent_comment_id λ external_id.
    find_where (λ p. has_identity c.social_account_id external_id p && text_eq p.account_id tenant)
      s.comments

-- `commentColumns` of `commentSource`, for one row.
unfoldable pub joined : Tables → Text → CommentTuple → Option CommentRow
unfolding find_where
joined s tenant c = Option.bind (find_where (post_of tenant c.post_id) s.posts) λ p.
    Option.bind (connection_of s tenant p.social_account_id) λ a. some (record {
      id = c.id;
      post_id = c.post_id;
      platform = a.platform;
      author_external_id = c.author_external_id;
      author_display_name = c.author_display_name;
      body = c.body;
      external_comment_id = c.external_comment_id;
      parent_comment_id = Option.map (λ p. p.id) (parent_of s tenant c);
      external_parent_comment_id = c.external_parent_comment_id;
      published_at = c.published_at;
      updated_at = c.updated_at;
    })

unfoldable pub collect_some : {A B : Type 0} → (A → Option B) → List A → List B
collect_some f [] = []
collect_some f (a ∷ rest) = elim (f a) [
  | none ↦ collect_some f rest
  | some b ↦ b ∷ collect_some f rest
]

-- `select commentColumns commentSource where …` of the tenant's rows.
unfoldable pub select_comments : Tables → Text → (CommentTuple → Bool) → List CommentRow
unfolding collect_some
select_comments s tenant p =
    collect_some (joined s tenant) (keep_if (λ c. text_eq c.account_id tenant && p c) s.comments)

abbrev pub first_row : List CommentRow → Option CommentRow
first_row [] = none
first_row (row ∷ rows) = some row

-- `(c.published_at, c.id) > (published_at, id)`
unfoldable pub is_behind : ℕ → Text → CommentRow → Bool
is_behind published_at id row =
    ltb published_at row.published_at || (row.published_at == published_at && text_lt id row.id)

abbrev pub is_behind_position : Option (ℕ × Text) → CommentRow → Bool
is_behind_position none row = true
is_behind_position (some (published_at, id)) row = is_behind published_at id row

-- `order by c.published_at asc, c.id asc`
unfoldable pub insert_row : CommentRow → List CommentRow → List CommentRow
insert_row r [] = r ∷ []
insert_row r (s ∷ rows) =
    let behind = insert_row r rows in
    if is_behind r.published_at r.id s then r ∷ s ∷ rows else s ∷ behind

unfoldable pub order_rows : List CommentRow → List CommentRow
unfolding insert_row is_behind
order_rows [] = []
order_rows (r ∷ rows) = insert_row r (order_rows rows)

-- The rows behind a position that the query for a page selects, in order and before its limit.
unfoldable pub rows_behind : Tables → Text → Text → Platform → Option (ℕ × Text) → List CommentRow
unfolding order_rows select_comments
rows_behind s tenant post_id platform position = order_rows (
    keep_if (λ r. platform_eq r.platform platform && is_behind_position position r)
      (select_comments s tenant (λ c. text_eq c.post_id post_id)))

-- A keyset that names no row gives an empty page.
abbrev pub is_unissued : Option CommentKeyset → Bool
is_unissued none = false
is_unissued (some k) = not (is_uuid k.id) || not (is_issued_timestamp k.published_at)

-- The Map of `upsertMany`: the last observation of an external identifier, where the first stood.
unfoldable pub last_by_external_id :
    List ObservedComment → Entries ObservedComment → Entries ObservedComment
last_by_external_id [] m = m
last_by_external_id (o ∷ os) m = last_by_external_id os (insert o.external_id o m)

unfoldable pub deduped : List ObservedComment → List ObservedComment
unfolding last_by_external_id
deduped observed = entry_values (last_by_external_id observed [])

-- A row of the insertion, with the columns read.
pub record ReadObservation : Type 0 where
  pub observed : ObservedComment
  pub post_id : Text
  pub published_at : ℕ
  pub updated_at : ℕ

-- What is inserted for an observation of a post.
abbrev pub tuple_of : Text → PostTuple → ReadObservation → Text → CommentTuple
tuple_of tenant p r id = record {
  id = id;
  account_id = tenant;
  post_id = p.id;
  social_account_id = p.social_account_id;
  external_comment_id = r.observed.external_id;
  external_parent_comment_id = r.observed.external_parent_comment_id;
  author_external_id = r.observed.author.id;
  author_display_name = r.observed.author.display_name;
  body = r.observed.body;
  published_at = r.published_at;
  updated_at = r.updated_at;
}

-- The columns that a conflict overwrites.
abbrev pub overwrite : CommentTuple → CommentTuple → CommentTuple
overwrite excluded c = record c {
  body = excluded.body;
  author_display_name = excluded.author_display_name;
  external_parent_comment_id = excluded.external_parent_comment_id;
  updated_at = excluded.updated_at;
}

-- The row that a conflict overwrites.
abbrev pub is_overwritten : CommentTuple → CommentTuple → Bool
is_overwritten c x =
    has_identity c.social_account_id c.external_comment_id x && text_eq x.account_id c.account_id

-- A new row, whose identifier must be free.
unfoldable pub add_comment : CommentTuple → Exec Database Text
add_comment c db =
    if any (λ d. text_eq d.id c.id) db.tables.comments
    then (err unique_violation, db)
    else (ok c.id, record db { tables = record db.tables { comments = c ∷ db.tables.comments } })

-- `on conflict … do update`. A conflicting row of another tenant fails the policy of the table.
unfoldable pub add_or_overwrite : CommentTuple → Exec Database Text
add_or_overwrite c db =
    elim (find_where (has_identity c.social_account_id c.external_comment_id) db.tables.comments) [
      | none ↦ add_comment c db
      | some d ↦
          if not (text_eq d.account_id c.account_id)
          then (err (database_error (units "42501")), db)
          else (
            ok d.id,
            record db {
              tables = record db.tables {
                comments = map_where (is_overwritten c) (overwrite c) db.tables.comments;
              };
            },
          )
    ]

-- `on conflict … do nothing`
unfoldable pub add_unless_there : CommentTuple → Exec Database (Option Text)
add_unless_there c db =
    elim (find_where (has_identity c.social_account_id c.external_comment_id) db.tables.comments) [
      | some _ ↦ (ok none, db)
      | none ↦ (add_comment c >>= λ id. pure (some id)) db
    ]

-- The insertion of one observation: no row, if its post is not the tenant's.
abbrev pub upsert_at : Text → ReadObservation → Option PostTuple → Exec Database (List Text)
upsert_at tenant r none = pure []
upsert_at tenant r (some p) = do
  id ← gen_random_uuid
  stored ← add_or_overwrite (tuple_of tenant p r id)
  pure (stored ∷ [])

unfoldable pub upsert_row : Text → ReadObservation → Exec Database (List Text)
upsert_row tenant r = do
  post ← gets (λ db. find_where (post_of tenant r.post_id) db.tables.posts)
  upsert_at tenant r post

unfoldable pub upsert_rows : Text → List ReadObservation → Exec Database (List Text)
upsert_rows tenant [] = pure []
upsert_rows tenant (r ∷ rs) = do
  stored ← upsert_row tenant r
  rest ← upsert_rows tenant rs
  pure (stored ++ rest)

-- `c.social_account_id = (select target.social_account_id from posts target where …)`
abbrev pub is_of_target : Tables → Text → Text → CommentTuple → Bool
is_of_target s tenant post_id c = elim (find_where (post_of tenant post_id) s.posts) [
  | none ↦ false
  | some p ↦ text_eq c.social_account_id p.social_account_id
]

abbrev pub is_of_sibling : Tables → Text → Text → CommentTuple → Bool
is_of_sibling s tenant sibling_id c =
    elim (find_where (λ d. text_eq d.id sibling_id && text_eq d.account_id tenant) s.comments) [
      | none ↦ false
      | some d ↦ text_eq c.social_account_id d.social_account_id
    ]
