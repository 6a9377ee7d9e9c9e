-- ===== src/Platforms/Fixture.antt =====
-- src/platforms/fixture-provider.ts: the deterministic client that both compositions use.
pub mod Decimal
pub mod Walk
use social_comments_service.Base.{
  Bool, List, Option, [], all, drop, false, if◌then◌else◌, leb, length, ltb, min, none, or_else,
  some, suc, take, zero, ℕ, ◌%◌, ◌&&◌, ◌*◌, ◌++◌, ◌+◌, ◌-◌, ◌/◌, ◌==◌, ◌∷◌,
}
use social_comments_service.Platforms.Adaptive.{
  ClientListQuery, ClientReplyCommand, ExternalCommentRecord, ProviderPage,
}
use social_comments_service.Repositories.TenantScoped.{Entries, lookup}
use social_comments_service.Shared.Errors.{Thrown, foreign}
use social_comments_service.Shared.Exec.{Exec, err, gets, ok, ◌>>=◌, ◌>>◌}
use social_comments_service.Shared.Text.{Text, is_non_empty_string, trim_start, units}
use social_comments_service.Shared.Types.{SocialConnection}

-- `String(n)`: the digits of a number, at most as many as the fuel; `suc n` is enough for `n`.
unfoldable pub digits : ℕ → ℕ → Text
digits zero n = []
digits (suc f) n =
    let front = digits f (n / 10) in
    if ltb n 10 then (b'0' + n) ∷ [] else front ++ (b'0' + n % 10) ∷ []

abbrev pub string_of : ℕ → Text
string_of n = digits (suc n) n

abbrev pub is_digit : ℕ → Bool
is_digit c = leb b'0' c && leb c b'9'

-- The number that the digits at the start of a text add to what was read.
unfoldable pub read_digits : ℕ → Text → ℕ
read_digits n [] = n
read_digits n (c ∷ s) =
    let longer = read_digits (n * 10 + (c - b'0')) s in if is_digit c then longer else n

-- An offset from `Number.parseInt(s, 10)`: one that is no number, or below 0, is 0.
abbrev pub unsigned : Text → ℕ
unsigned s = read_digits 0 s

abbrev pub signed : Text → ℕ
signed [] = 0
signed (c ∷ s) = if c == b'-' then 0 else if c == b'+' then unsigned s else unsigned (c ∷ s)

unfoldable pub parse_offset : Text → ℕ
parse_offset s = signed (trim_start s)

-- `Buffer.from(s, 'utf8').toString('base64url')` and its reverse.
pub record Base64 : Type 0 where
  pub to_base64url : Text → Text
  pub from_base64url : Text → Text

pub record FixtureProviderClient : Type 0 where
  pub comments_by_post : Entries (List ExternalCommentRecord)
  pub max_page_size : ℕ
  -- What `now()` returns at each reply.
  pub now : ℕ → Text
  pub reply_count : ℕ
  -- Every connection that the client was called with, the latest first.
  pub connections : List SocialConnection

-- `assertAuthorised` throws a plain `Error`.
abbrev pub without_credential : Thrown
without_credential = foreign (record { validation = false; status_code = none; code = none })

unfoldable pub record_connection : SocialConnection → Exec FixtureProviderClient (Unit {0})
record_connection connection s =
    if is_non_empty_string connection.credential_reference
    then (ok tt, record s { connections = connection ∷ s.connections })
    else (err without_credential, s)

module _ (base64 : Base64) where
  abbrev pub encode_offset : ℕ → Text
  encode_offset n = base64.to_base64url (string_of n)

  abbrev pub decode_offset : Option Text → ℕ
  decode_offset none = 0
  decode_offset (some cursor) = parse_offset (base64.from_base64url cursor)

  -- The page of a post's comments at an offset.
  unfoldable pub fixture_page : List ExternalCommentRecord → ℕ → ℕ → ProviderPage
  fixture_page all offset size =
      let items = take size (drop offset all) in
      let next_offset = offset + length items in
      let has_more = ltb next_offset (length all) in
      record {
        items = items;
        next_cursor = if has_more then some (encode_offset next_offset) else none;
        has_more = has_more;
      }

  unfoldable pub fixture_list_comments : ClientListQuery → Exec FixtureProviderClient ProviderPage
  fixture_list_comments query = do
    record_connection query.connection
    gets (λ s.
        fixture_page (or_else (lookup query.external_post_id s.comments_by_post) [])
          (decode_offset query.cursor) (min query.limit s.max_page_size))

-- `${externalCommentId}-reply-${replyCount}`, with the count already raised.
unfoldable pub fixture_reply_to_comment :
    ClientReplyCommand → Exec FixtureProviderClient ExternalCommentRecord
unfolding digits
fixture_reply_to_comment command = do
  record_connection command.connection
  (λ s. (
    ok (record {
      external_id = command.external_comment_id ++ units "-reply-" ++ string_of (s.reply_count + 1);
      author_id = units "fixture-account";
      author_name = units "Blotato";
      author_profile_url = none;
      body = command.body;
      parent_external_id = some command.external_comment_id;
      published_at = s.now s.reply_count;
      updated_at = s.now s.reply_count;
    }),
    record s { reply_count = s.reply_count + 1 },
  ))
