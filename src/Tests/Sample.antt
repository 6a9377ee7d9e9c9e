-- ===== src/Tests/Sample.antt =====
-- A post with one comment at the provider, behind the in-memory composition.
use social_comments_service.Base.{
  Option, String, [], ap, arith, false, none, some, ℕ, ◌++◌, ◌+◌, ◌∷◌, ◌≡◌,
}
use social_comments_service.Comments.Contracts.{Config, Provider, require_capability}
use social_comments_service.Comments.Service.Hydration.{
  hydrate, join_hydration, needs_hydration, run_hydration,
}
use social_comments_service.Comments.Service.Listing.{
  is_older, list_comments, snapshot_lifetime_ms, stale,
}
use social_comments_service.Comments.Service.Replay.{
  fingerprints_match, lease_is_live, recover, replay,
}
use social_comments_service.Comments.Service.Reply.{
  proves_rejection, reply_to_comment, request_fingerprint,
}
use social_comments_service.Comments.Service.Requests.{
  Request, lists, published_for, replies, respond, respond_all,
}
use social_comments_service.Composition.{World, ask_to_publish, on_client, on_memory, registered}
use social_comments_service.Repositories.InMemory.{Sources, empty_memory, random_uuid, read_clock}
use social_comments_service.Repositories.InMemory.Comments.{
  compare_keyset, existing_reply, find_by_id, find_index, find_reply_by_external_id, insert_sorted,
  keep_if, list_by_post, ordered_comments, page_of, reply_row, resolve_external_id, sort_by_keyset,
  store, store_all, store_published_reply, to_comment, upsert_many,
}
use social_comments_service.Repositories.InMemory.Operations.{
  by_idempotency_key, claim, complete, fail, find_by_idempotency_key, mark_unknown,
  record_published, update,
}
use social_comments_service.Repositories.InMemory.Posts.{
  find_published_by_id, nullable_eq, published_record, same_position, save_snapshot_state,
}
use social_comments_service.Repositories.TenantScoped.{
  entry_values, get, insert, lookup, scope, set, values,
}
use social_comments_service.Shared.Cursor.{decode_cursor, encode_cursor}
use social_comments_service.Shared.Date.{parse_date, to_iso_string}
use social_comments_service.Shared.Errors.{to_failure_code}
use social_comments_service.Shared.Exec.{map_result, ok, ◌>>=◌}
use social_comments_service.Shared.Identifiers.{is_issued_timestamp}
use social_comments_service.Shared.Text.{
  Text, is_non_empty_string, is_nullable_non_empty_string, text_eq, text_lt, units,
}
use social_comments_service.Shared.Types.{
  ExternalAuthor, ObservedComment, Platform, ProviderCapability, PublishedPost, SocialConnection,
  TenantContext, capability_eq, facebook, platform_eq, status_eq,
}
use social_comments_service.Shared.Validation.{
  as_stored_record_fault, assert_stored_comment, assert_stored_reply_operation, is_platform,
  is_reply_operation_status, is_valid_author, is_valid_comment, is_valid_keyset,
  is_valid_observed_comment, is_valid_reply_operation, validate_comment,
  validate_list_comments_query, validate_observed_comment, validate_pagination,
  validate_reply_operation, validate_reply_to_comment_command,
}

abbrev pub account : TenantContext
account = record { account_id = units "a1" }

abbrev pub connection : SocialConnection
connection = record {
  social_account_id = units "s1";
  platform = facebook;
  credential_reference = units "cr";
}

abbrev pub post : PublishedPost
post = record {
  id = units "p1";
  account_id = units "a1";
  platform = facebook;
  external_post_id = units "xp";
  published_at = units "2026-01-01T00:00:00.000Z";
  connection = connection;
}

abbrev pub author : ExternalAuthor
author = record { id = units "w"; display_name = units "Wim"; profile_url = none }

abbrev pub observed : String → String → Option Text → ObservedComment
observed external_id body parent = record {
  post_id = units "p1";
  platform = facebook;
  author = author;
  body = units body;
  published_at = units "2026-01-02T00:00:00.000Z";
  updated_at = units "2026-01-02T00:00:00.000Z";
  external_id = units external_id;
  external_parent_comment_id = parent;
}

abbrev pub provider : Provider (Unit {0})
provider = record {
  platform = facebook;
  capabilities = ProviderCapability.list_comments ∷ ProviderCapability.reply_to_comment ∷ [];
  list_page = λ q s. (
    ok (record {
      items = observed "e1" "Hi" none ∷ [];
      next_provider_cursor = none;
      has_more = false;
    }),
    s,
  );
  publish_reply = λ c s. (ok (observed "e2" "Thanks" (some c.parent_external_comment_id)), s);
}

abbrev pub providers : Platform → Option (Provider (Unit {0}))
providers p = some provider

abbrev pub sources : Sources
sources = record {
  clock = λ n. 63951340020120 + n;
  uuids = λ n. b'u' ∷ (b'0' + n) ∷ [];
  reads = 0;
  draws = 0;
}

second : Text → ℕ
second (a ∷ b ∷ s) = b
second _ = 0

pub uuids_distinct : (i j : ℕ) → sources.uuids i ≡ sources.uuids j → i ≡ j
unfolding second
uuids_distinct i j h = omega (arith, ap second h)

abbrev pub config : Config
config = record {
  hmac_sha256 = λ secret message. secret ++ message;
  fingerprint_secret = units "k";
  snapshot_lifetime_seconds = none;
  codec = record { to_text = λ j. units "cursor"; from_text = λ t. none };
}

abbrev pub world : World (Unit {0})
world = record {
  memory = empty_memory sources ((units "p1", post) ∷ []);
  client = tt;
  published = [];
}

abbrev pub read_first : Request
read_first = lists account (units "p1") (record { limit = 10; cursor = none }) none

abbrev pub reply_once : Request
reply_once = replies account (units "u0") (units "Thanks") (units "k1")

-- Opening this runs the whole service.
unfoldable pub program : Unit {0}
unfolding respond_all respond published_for list_comments stale hydrate require_capability
    run_hydration reply_to_comment needs_hydration join_hydration on_memory on_client ask_to_publish
    registered fingerprints_match request_fingerprint lease_is_live replay recover list_by_post
    ordered_comments page_of find_index sort_by_keyset keep_if map_result to_comment find_by_id
    find_reply_by_external_id reply_row resolve_external_id store store_all upsert_many
    store_published_reply existing_reply find_published_by_id published_record nullable_eq
    save_snapshot_state same_position by_idempotency_key find_by_idempotency_key claim update
    record_published mark_unknown complete fail read_clock random_uuid get set scope lookup insert
    values entry_values text_eq platform_eq status_eq capability_eq is_non_empty_string
    is_nullable_non_empty_string is_platform is_reply_operation_status is_valid_author
    is_valid_comment validate_comment is_valid_observed_comment validate_observed_comment
    is_valid_reply_operation validate_reply_operation as_stored_record_fault assert_stored_comment
    assert_stored_reply_operation validate_pagination is_valid_keyset validate_list_comments_query
    validate_reply_to_comment_command decode_cursor encode_cursor to_failure_code to_iso_string
    parse_date is_issued_timestamp proves_rejection is_older snapshot_lifetime_ms compare_keyset
    insert_sorted text_lt ◌>>=◌
program = tt
