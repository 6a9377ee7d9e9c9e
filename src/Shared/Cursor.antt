-- ===== src/Shared/Cursor.antt =====
-- src/shared/cursor.ts. JSON and base64url are the parameter `Codec`; the checks of what was
-- decoded are the source's.
pub mod Trip
use social_comments_service.Base.{
  Bool, Option, false, if◌then◌else◌, none, some, true, ℕ, ◌&&◌, ◌==◌,
}
use social_comments_service.Shared.Errors.{
  ServiceErrorCode, ServiceErrorReason, Thrown, plain_error,
}
use social_comments_service.Shared.Exec.{Result, err, ok}
use social_comments_service.Shared.Identifiers.{is_issued_timestamp}
use social_comments_service.Shared.Text.{Text, is_non_empty_string, text_eq, units}
use social_comments_service.Shared.Types.{CommentKeyset}

mutual
  -- What `JSON.parse` returns. A number is a natural one or some other.
  pub data Json : Type 0 where
    json_null json_true json_false json_other_number : Json
    json_number : ℕ → Json
    json_string : Text → Json
    json_array : JsonItems → Json
    json_object : JsonFields → Json

  pub data JsonItems : Type 0 where
    no_items : JsonItems
    item : Json → JsonItems → JsonItems

  pub data JsonFields : Type 0 where
    no_fields : JsonFields
    field : Text → Json → JsonFields → JsonFields

-- `Buffer.from(JSON.stringify(_), 'utf8').toString('base64url')`, and `JSON.parse` of the decoded
-- text, `none` where it throws.
pub record Codec : Type 0 where
  pub to_text : Json → Text
  pub from_text : Text → Option Json

pub record CommentCursor : Type 0 where
  pub after : Option CommentKeyset
  pub partial_run : Bool

abbrev pub empty_cursor : CommentCursor
empty_cursor = record { after = none; partial_run = false }

abbrev position_json : Option CommentKeyset → Json
position_json none = json_null
position_json (some k) =
    json_array (item (json_string k.published_at) (item (json_string k.id) no_items))

abbrev run_field : Bool → JsonFields
run_field true = field (units "r") (json_number 1) no_fields
run_field false = no_fields

-- The payload of `encodeCursor`.
abbrev pub cursor_payload : CommentCursor → Json
cursor_payload c = json_object (field (units "a") (position_json c.after) (run_field c.partial_run))

unfoldable pub encode_cursor : Codec → CommentCursor → Text
encode_cursor codec c = codec.to_text (cursor_payload c)

abbrev pub invalid_cursor_thrown : Thrown
invalid_cursor_thrown =
    plain_error ServiceErrorCode.invalid_cursor ServiceErrorReason.cursor_not_issued_by_service 400

unfoldable pub json_lookup : Text → JsonFields → Option Json
json_lookup k no_fields = none
json_lookup k (field j v fs) = if text_eq j k then some v else json_lookup k fs

-- `payload.r === 1`
abbrev is_one : Option Json → Bool
is_one (some (json_number n)) = n == 1
is_one _ = false

-- `isKeysetTuple`, on two texts.
abbrev pub is_keyset : Text → Text → Bool
is_keyset published_at id =
    is_non_empty_string published_at && is_issued_timestamp published_at && is_non_empty_string id

unfoldable pub decode_position : Option Json → Bool → Result CommentCursor
decode_position (some json_null) r = ok (record { after = none; partial_run = r })
decode_position (some (json_array (item (json_string p) (item (json_string i) no_items)))) r =
    if is_keyset p i
    then ok (record { after = some (record { published_at = p; id = i }); partial_run = r })
    else err invalid_cursor_thrown
decode_position _ r = err invalid_cursor_thrown

unfoldable pub decode_payload : Option Json → Result CommentCursor
unfolding json_lookup decode_position
decode_payload (some (json_object fs)) =
    decode_position (json_lookup (units "a") fs) (is_one (json_lookup (units "r") fs))
decode_payload _ = err invalid_cursor_thrown

unfoldable pub decode_cursor : Codec → Option Text → Result CommentCursor
unfolding decode_payload
decode_cursor codec none = ok empty_cursor
decode_cursor codec (some value) = decode_payload (codec.from_text value)
