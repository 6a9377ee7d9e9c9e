-- ===== src/Shared/Cursor/Trip.antt =====
-- What `encodeCursor` issues, `decodeCursor` reads back; what it reads, the service could issue.
use social_comments_service.Base.{
  Bool, Option, Option-cases, arith, false, inl, inr, none, refl, some, some_injective, subst, sym,
  true, ℕ, ◌≡◌,
}
use social_comments_service.Shared.Cursor.{
  Codec, CommentCursor, Json, cursor_payload, decode_cursor, decode_payload, decode_position,
  empty_cursor, encode_cursor, is_keyset, json_lookup, json_object,
}
use social_comments_service.Shared.Date.{parse_date, to_iso_string}
use social_comments_service.Shared.Exec.{ok, ok_injective}
use social_comments_service.Shared.Identifiers.{is_issued_timestamp}
use social_comments_service.Shared.Text.{Text, is_non_empty_string, text_eq}
use social_comments_service.Shared.Text.Order.{text_eq_sound}
use social_comments_service.Shared.Types.{CommentKeyset}

-- A cursor that the service issues: its position, if it has one, is an issued instant and an
-- identifier that is not blank.
abbrev pub IsIssued : CommentCursor → Type 0
IsIssued c = elim c.after [ none ↦ Unit {0} | some k ↦ is_keyset k.published_at k.id ≡ true ]

-- The codec gives back what it was given.
abbrev pub ReadsBack : Codec → Json → Type 0
ReadsBack codec j = codec.from_text (codec.to_text j) ≡ some j

decode_payload-cursor_payload :
    (after : Option CommentKeyset) (partial_run : Bool)
    → IsIssued (record { after = after; partial_run = partial_run })
    → decode_payload (some (cursor_payload (record { after = after; partial_run = partial_run })))
      ≡ ok (record { after = after; partial_run = partial_run })
unfolding decode_payload decode_position json_lookup text_eq
decode_payload-cursor_payload none true h = refl
decode_payload-cursor_payload none false h = refl
decode_payload-cursor_payload (some k) true h = rw (h)
decode_payload-cursor_payload (some k) false h = rw (h)

-- `decodeCursor` reads back what `encodeCursor` wrote, for a cursor whose position, if it has
-- one, is an issued instant and an identifier that is not blank, with a codec that gives back
-- this payload.
pub decode_cursor-encode_cursor :
    (codec : Codec) (c : CommentCursor)
    → ReadsBack codec (cursor_payload c)
    → IsIssued c
    → decode_cursor codec (some (encode_cursor codec c)) ≡ ok c
unfolding decode_cursor encode_cursor
decode_cursor-encode_cursor codec c r h =
    rw (r) (decode_payload-cursor_payload c.after c.partial_run h)

-- A position that a comment of the service can have: its instant is one that is printed in the ISO
-- format, and its identifier is not blank.
abbrev pub IsPosition : CommentKeyset → Type 0
IsPosition k = ((t : ℕ) × (k.published_at ≡ to_iso_string t)) × (is_non_empty_string k.id ≡ true)

abbrev pub HasPosition : CommentCursor → Type 0
HasPosition c = (k : CommentKeyset) → c.after ≡ some k → IsPosition k

issued_instant : (s : Text) → is_issued_timestamp s ≡ true → (t : ℕ) × (s ≡ to_iso_string t)
unfolding is_issued_timestamp
issued_instant s h = elim (Option-cases (parse_date s)) [
  | inl e ↦ absurd (cc (rw (is_issued_timestamp, e) at h))
  | inr (t, e) ↦ (t, sym (text_eq_sound (to_iso_string t) s (rw (is_issued_timestamp, e) at h)))
]

is_keyset-IsPosition :
    (p i : Text) → is_keyset p i ≡ true → IsPosition (record { published_at = p; id = i })
is_keyset-IsPosition p i h =
    let issued : is_issued_timestamp p ≡ true = ground (arith, h) in
    let shown : is_non_empty_string i ≡ true = ground (arith, h) in (issued_instant p issued, shown)

decode_position-IsIssued :
    (j : Option Json) (r : Bool) (c : CommentCursor) → decode_position j r ≡ ok c → IsIssued c
unfolding decode_position
decode_position-IsIssued j r c h = ground arith

decode_payload-IsIssued :
    (j : Option Json) (c : CommentCursor) → decode_payload j ≡ ok c → IsIssued c
unfolding decode_payload
decode_payload-IsIssued (some (json_object fs)) c h = decode_position-IsIssued _ _ c h
decode_payload-IsIssued _ c h = absurd (cc h)

decode_cursor-IsIssued :
    (codec : Codec) (value : Option Text) (c : CommentCursor)
    → decode_cursor codec value ≡ ok c
    → IsIssued c
unfolding decode_cursor
decode_cursor-IsIssued codec none c h = subst IsIssued (ok_injective empty_cursor c h) tt
decode_cursor-IsIssued codec (some v) c h = decode_payload-IsIssued (codec.from_text v) c h

IsIssued-HasPosition :
    (after : Option CommentKeyset) (r : Bool)
    → IsIssued (record { after = after; partial_run = r })
    → HasPosition (record { after = after; partial_run = r })
IsIssued-HasPosition none r h k e = absurd (cc e)
IsIssued-HasPosition (some j) r h k e =
    subst IsPosition (some_injective e) (is_keyset-IsPosition j.published_at j.id h)

-- A cursor that `decodeCursor` accepts, from whatever text, has no position, or one whose instant is
-- the text that toISOString prints for some instant, and whose identifier is not blank.
pub decode_cursor-HasPosition :
    (codec : Codec) (value : Option Text) (c : CommentCursor)
    → decode_cursor codec value ≡ ok c
    → HasPosition c
decode_cursor-HasPosition codec value c h =
    IsIssued-HasPosition c.after c.partial_run (decode_cursor-IsIssued codec value c h)
