-- ===== src/Tests/Deployed.antt =====
-- Two tenants with a post each, behind the PostgreSQL composition.
use social_comments_service.Base.{
  List, Option, [], false, if◌then◌else◌, none, some, true, ℕ, ◌*◌, ◌++◌, ◌+◌, ◌∷◌,
}
use social_comments_service.Comments.Contracts.{Provider}
use social_comments_service.Comments.Service.Requests.{
  Request, published_for, replies, respond, respond_all,
}
use social_comments_service.Composition.Postgres.{
  Deployment, ask_provider, deployed_registry, on_database, on_provider,
}
use social_comments_service.Repositories.Postgres.{
  CommentTuple, Database, Engine, PostTuple, Tables, collect, db_random_uuid, db_read_clock,
  find_where, gen_random_uuid, iso_of, map_where, with_tenant,
}
use social_comments_service.Repositories.Postgres.Comments.{
  existing_or_refuse, insert_published_reply, insert_reply, inserted_or_existing, read_back,
  read_observation, select_by_id, select_external_id, select_page, select_page_rows, select_reply,
  upsert_batch, upsert_comments,
}
use social_comments_service.Repositories.Postgres.Operations.{
  answer_claim, insert_claim, insert_operation, operation_by_key, operation_row,
  select_by_idempotency_key, set_completed, set_failed, set_published, set_unknown, store_operation,
  to_operation, update_operations,
}
use social_comments_service.Repositories.Postgres.Posts.{
  select_post, select_published, update_snapshot,
}
use social_comments_service.Repositories.Postgres.Statements.{
  add_comment, add_or_overwrite, add_unless_there, collect_some, comment_of_row, deduped,
  insert_row, is_behind, joined, last_by_external_id, order_rows, rows_behind, select_comments,
  upsert_row, upsert_rows,
}
use social_comments_service.Shared.Date.{parse_date, to_iso_string}
use social_comments_service.Shared.Exec.{ok}
use social_comments_service.Shared.Identifiers.{is_uuid}
use social_comments_service.Shared.Text.{Text, units}
use social_comments_service.Shared.Types.{Platform, ProviderCapability, facebook}
use social_comments_service.Tests.Sample.{author, program}

abbrev pub account_a : Text
account_a = units "2b1f8f5c-0d2e-4d64-9d5f-91a0c0f1b001"

abbrev pub account_b : Text
account_b = units "7c3d9e10-4a5b-4c6d-8e9f-01a2b3c4d005"

abbrev pub post_a : Text
post_a = units "2b1f8f5c-0d2e-4d64-9d5f-91a0c0f1b002"

abbrev pub connection_a : Text
connection_a = units "2b1f8f5c-0d2e-4d64-9d5f-91a0c0f1b011"

abbrev pub comment_a : Text
comment_a = units "2b1f8f5c-0d2e-4d64-9d5f-91a0c0f1b111"

-- An engine that takes the shapes that the service issues.
abbrev pub uuid_shape : Text → Option Text
uuid_shape s = if is_uuid s then some s else none

abbrev pub microseconds : Option ℕ → Option ℕ
microseconds none = none
microseconds (some t) = some (t * 1000)

abbrev pub engine : Engine
engine = record {
  uuid_in = uuid_shape;
  timestamptz_in = λ s. microseconds (parse_date s);
  arrange = λ rows. rows;
}

abbrev pub stored_comment : CommentTuple
stored_comment = record {
  id = comment_a;
  account_id = account_a;
  post_id = post_a;
  social_account_id = connection_a;
  external_comment_id = units "e1";
  external_parent_comment_id = none;
  author_external_id = units "w";
  author_display_name = units "Wim";
  body = units "Hi";
  published_at = 63951340020120000;
  updated_at = 63951340020120000;
}

abbrev pub stored_post : PostTuple
stored_post = record {
  id = post_a;
  account_id = account_a;
  social_account_id = connection_a;
  external_post_id = units "xp";
  status = units "published";
  published_at = some 63951340020000000;
  provider_cursor = none;
  provider_exhausted = true;
  provider_completed_at = some 63951340020120000;
}

abbrev pub tables : Tables
tables = record {
  accounts = account_a ∷ account_b ∷ [];
  social_accounts =
      record {
        id = connection_a;
        account_id = account_a;
        platform = facebook;
        credential_reference = units "cr";
      }
      ∷ [];
  posts = stored_post ∷ [];
  comments = stored_comment ∷ [];
  reply_operations = [];
}

abbrev pub numbered : Text → ℕ → Text
numbered prefix n = prefix ++ (b'0' + n) ∷ []

abbrev pub database : Database
database = record {
  tables = tables;
  sources = record {
    clock = λ n. 63951340020120 + n;
    uuids = numbered (units "2b1f8f5c-0d2e-4d64-9d5f-91a0c0f1b22");
    reads = 0;
    draws = 0;
  };
  generated = numbered (units "2b1f8f5c-0d2e-4d64-9d5f-91a0c0f1b33");
  generations = 0;
}

abbrev pub deployment : Deployment (Unit {0})
deployment = record { database = database; client = tt; published = [] }

abbrev pub publisher : Provider (Unit {0})
publisher = record {
  platform = facebook;
  capabilities = ProviderCapability.list_comments ∷ ProviderCapability.reply_to_comment ∷ [];
  list_page = λ q s. (ok (record { items = []; next_provider_cursor = none; has_more = false }), s);
  publish_reply = λ c s. (
    ok (record {
      post_id = post_a;
      platform = facebook;
      author = author;
      body = c.body;
      published_at = units "2026-01-02T00:00:00.000Z";
      updated_at = units "2026-01-02T00:00:00.000Z";
      external_id = units "e2";
      external_parent_comment_id = some c.parent_external_comment_id;
    }),
    s,
  );
}

abbrev pub publishers : Platform → Option (Provider (Unit {0}))
publishers p = some publisher

abbrev pub reply_a : Request
reply_a = replies (record { account_id = account_a }) comment_a (units "Thanks") (units "k1")

abbrev pub deployed_requests : List Request
deployed_requests = reply_a ∷ reply_a ∷ []

-- Opening this runs the repositories too.
unfoldable pub deployed_program : Unit {0}
unfolding program respond_all respond published_for on_database on_provider ask_provider
    deployed_registry with_tenant find_where map_where collect iso_of db_read_clock db_random_uuid
    gen_random_uuid to_operation operation_by_key store_operation insert_operation
    select_by_idempotency_key operation_row answer_claim insert_claim update_operations
    set_published set_completed set_failed set_unknown select_post select_published update_snapshot
    comment_of_row joined collect_some select_comments is_behind insert_row order_rows rows_behind
    last_by_external_id deduped add_comment add_or_overwrite add_unless_there upsert_row upsert_rows
    select_page select_page_rows select_by_id select_reply select_external_id read_observation
    upsert_batch upsert_comments insert_reply read_back existing_or_refuse inserted_or_existing
    insert_published_reply is_uuid parse_date to_iso_string
deployed_program = tt
