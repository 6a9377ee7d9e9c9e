-- ===== src/Repositories/Postgres/Posts.antt =====
-- `PostgresPostRepository` of src/repositories/postgres.ts.
use mathlib.Core.Option
use social_comments_service.Base.{Bool, Option, any, if◌then◌else◌, none, not, some, ℕ, ◌&&◌}
use social_comments_service.Repositories.InMemory.Posts.{bool_eq, nullable_eq}
use social_comments_service.Repositories.Postgres.{
  Database, Engine, PostTuple, SocialAccountTuple, Tables, as_timestamptz, as_uuid, find_where,
  iso_of, map_where, nullable, with_tenant,
}
use social_comments_service.Shared.Date.{to_iso_string}
use social_comments_service.Shared.Exec.{Exec, gets, lift, ok, pure, ◌>>=◌}
use social_comments_service.Shared.Identifiers.{is_uuid}
use social_comments_service.Shared.Text.{Text, text_eq, units}
use social_comments_service.Shared.Types.{
  Platform, PostSnapshotState, PublishedPostRecord, TenantContext,
}

-- The row of a query for a post: the post with its connection.
pub record PostRow : Type 0 where
  pub id : Text
  pub account_id : Text
  pub platform : Platform
  pub external_post_id : Text
  pub published_at : Option ℕ
  pub social_account_id : Text
  pub credential_reference : Text
  pub provider_cursor : Option Text
  pub provider_exhausted : Bool
  pub provider_completed_at : Option ℕ

-- `new Date(null)` is the start of the year 1970.
abbrev pub iso_of_nullable : Option ℕ → Text
iso_of_nullable none = to_iso_string 62167219200000
iso_of_nullable (some t) = iso_of t

abbrev pub post_of : Text → Text → PostTuple → Bool
post_of tenant id p = text_eq p.id id && text_eq p.account_id tenant

-- `join social_accounts sa on sa.id = …`, of the rows that the tenant may see.
abbrev pub connection_of : Tables → Text → Text → Option SocialAccountTuple
connection_of s tenant id =
    find_where (λ a. text_eq a.id id && text_eq a.account_id tenant) s.social_accounts

unfoldable pub select_post : Tables → Text → Text → Option PostRow
unfolding find_where
select_post s tenant id =
    Option.bind
      (find_where (λ p. post_of tenant id p && text_eq p.status (units "published")) s.posts)
      λ p. Option.bind (connection_of s tenant p.social_account_id) λ a. some (record {
        id = p.id;
        account_id = p.account_id;
        platform = a.platform;
        external_post_id = p.external_post_id;
        published_at = p.published_at;
        social_account_id = a.id;
        credential_reference = a.credential_reference;
        provider_cursor = p.provider_cursor;
        provider_exhausted = p.provider_exhausted;
        provider_completed_at = p.provider_completed_at;
      })

abbrev pub to_published_record : PostRow → PublishedPostRecord
to_published_record row = record {
  post = record {
    id = row.id;
    account_id = row.account_id;
    platform = row.platform;
    external_post_id = row.external_post_id;
    published_at = iso_of_nullable row.published_at;
    connection = record {
      social_account_id = row.social_account_id;
      platform = row.platform;
      credential_reference = row.credential_reference;
    };
  };
  snapshot = record {
    provider_cursor = row.provider_cursor;
    exhausted = row.provider_exhausted;
    completed_at = Option.map iso_of row.provider_completed_at;
  };
}

-- The condition of the update: the post stands as the caller read it.
abbrev pub stands_as : Text → Text → PostSnapshotState → PostTuple → Bool
stands_as tenant id expected p =
    post_of tenant id p
    && nullable_eq p.provider_cursor expected.provider_cursor
    && bool_eq p.provider_exhausted expected.exhausted

abbrev pub with_snapshot : PostSnapshotState → Option ℕ → PostTuple → PostTuple
with_snapshot state completed_at p = record p {
  provider_cursor = state.provider_cursor;
  provider_exhausted = state.exhausted;
  provider_completed_at = completed_at;
}

module _ (e : Engine) where
  unfoldable pub select_published :
      TenantContext → Text → Exec Database (Option PublishedPostRecord)
  select_published context post_id =
      if not (is_uuid post_id)
      then pure none
      else with_tenant e context.account_id λ tenant. do
        id ← lift (as_uuid e post_id)
        row ← gets (λ db. select_post db.tables tenant id)
        pure (Option.map to_published_record row)

  unfoldable pub update_snapshot :
      TenantContext → Text → PostSnapshotState → PostSnapshotState → Exec Database Bool
  update_snapshot context post_id state expected = with_tenant e context.account_id λ tenant. do
    id ← lift (as_uuid e post_id)
    completed_at ← lift (nullable (as_timestamptz e) state.completed_at)
    (λ db. (
      ok (any (stands_as tenant id expected) db.tables.posts),
      record db {
        tables = record db.tables {
          posts =
              map_where (stands_as tenant id expected) (with_snapshot state completed_at)
                db.tables.posts;
        };
      },
    ))
