-- ===== src/Tests/Cursors.antt =====
-- Cursors at the sample.
use social_comments_service.Base.{refl, some, true, ◌≡◌}
use social_comments_service.Shared.Cursor.{
  Codec, CommentCursor, cursor_payload, decode_cursor, encode_cursor,
}
use social_comments_service.Shared.Cursor.Trip.{
  HasPosition, IsIssued, decode_cursor-HasPosition, decode_cursor-encode_cursor,
}
use social_comments_service.Shared.Exec.{ok}
use social_comments_service.Shared.Text.{units}
use social_comments_service.Shared.Types.{CommentKeyset}
use social_comments_service.Tests.Sample.{program}

abbrev position : CommentKeyset
position = record { published_at = units "2026-01-02T00:00:00.000Z"; id = units "u0" }

abbrev cursor : CommentCursor
cursor = record { after = some position; partial_run = true }

-- A codec that reads back the payload of this cursor.
abbrev codec : Codec
codec = record { to_text = λ j. units "c"; from_text = λ t. some (cursor_payload cursor) }

issued : IsIssued cursor
unfolding program
issued = refl

decode_cursor-encode_cursor_example :
    decode_cursor codec (some (encode_cursor codec cursor)) ≡ ok cursor
decode_cursor-encode_cursor_example = decode_cursor-encode_cursor codec cursor refl issued

decoded : decode_cursor codec (some (units "c")) ≡ ok cursor
unfolding program
decoded = refl

decode_cursor-HasPosition_example : HasPosition cursor
decode_cursor-HasPosition_example =
    decode_cursor-HasPosition codec (some (units "c")) cursor decoded
