-- ===== src/Tests/Fixture.antt =====
-- Three comments of a post behind pages of two.
use social_comments_service.Base.{List, [], arith, length, none, refl, some, suc, true, ◌∷◌, ◌≡◌}
use social_comments_service.Platforms.Adaptive.{ClientListQuery, ExternalCommentRecord}
use social_comments_service.Platforms.Fixture.{
  Base64, FixtureProviderClient, digits, fixture_list_comments, fixture_page, parse_offset,
  read_digits, record_connection, string_of,
}
use social_comments_service.Platforms.Fixture.Walk.{
  listed_comments, read_pages, read_pages-listed_comments,
}
use social_comments_service.Repositories.TenantScoped.{lookup}
use social_comments_service.Shared.Exec.{◌>>=◌}
use social_comments_service.Shared.Text.{
  Text, is_non_empty_string, is_space, text_eq, trim_start, units,
}
use social_comments_service.Tests.Sample.{connection}

-- A codec that changes nothing.
abbrev identity : Base64
identity = record { to_base64url = λ s. s; from_base64url = λ s. s }

abbrev external : Text → ExternalCommentRecord
external s = record {
  external_id = s;
  author_id = units "a";
  author_name = units "Ada";
  author_profile_url = none;
  body = units "Hi";
  parent_external_id = none;
  published_at = units "2026-01-02T00:00:00.000Z";
  updated_at = units "2026-01-02T00:00:00.000Z";
}

abbrev three : List ExternalCommentRecord
three = external (units "1") ∷ external (units "2") ∷ external (units "3") ∷ []

abbrev stocked : FixtureProviderClient
stocked = record {
  comments_by_post = (units "p", three) ∷ [];
  max_page_size = 2;
  now = λ n. units "2026-01-03T00:00:00.000Z";
  reply_count = 0;
  connections = [];
}

abbrev first_query : ClientListQuery
first_query = record {
  connection = connection;
  external_post_id = units "p";
  cursor = none;
  limit = 5;
}

printed : string_of 1207 ≡ units "1207"
unfolding digits
printed = refl

lenient : (parse_offset (units " +12x") ≡ 12) × (parse_offset (units "-3") ≡ 0)
unfolding parse_offset trim_start read_digits is_space
lenient = (refl, refl)

shown : is_non_empty_string connection.credential_reference ≡ true
unfolding is_non_empty_string trim_start is_space
shown = refl

-- What the two calls find, the second behind the cursor of the first.
collected : read_pages identity 2 first_query stocked ≡ some three
unfolding read_pages fixture_list_comments fixture_page record_connection ◌>>=◌ is_non_empty_string
    lookup text_eq parse_offset digits read_digits
collected = refl

read_pages-listed_comments_example :
    read_pages identity (suc (length (listed_comments first_query stocked))) first_query stocked
    ≡ some (listed_comments first_query stocked)
read_pages-listed_comments_example =
    read_pages-listed_comments identity (λ n. refl) first_query stocked shown (omega arith)
      (omega arith) refl
