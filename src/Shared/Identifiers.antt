-- ===== src/Shared/Identifiers.antt =====
-- src/shared/identifiers.ts: the shapes of the identifiers and instants that the service issues.
pub mod Shape
use social_comments_service.Base.{
  Bool, [], false, leb, none, refl, some, suc, true, zero, ℕ, ◌&&◌, ◌==◌, ◌||◌, ◌∷◌, ◌≡◌,
}
use social_comments_service.Shared.Date.{parse_date, to_iso_string}
use social_comments_service.Shared.Text.{Text, text_eq, units}

abbrev pub is_hex : ℕ → Bool
is_hex c = (leb b'0' c && leb c b'9') || (leb b'a' c && leb c b'f') || (leb b'A' c && leb c b'F')

-- `[0-9a-f]{n}` with the flag `i`, then the rest of the pattern.
unfoldable pub hex_run : ℕ → (Text → Bool) → Text → Bool
hex_run zero rest s = rest s
hex_run (suc n) rest [] = false
hex_run (suc n) rest (c ∷ s) = is_hex c && hex_run n rest s

unfoldable pub dash_then : (Text → Bool) → Text → Bool
dash_then rest [] = false
dash_then rest (c ∷ s) = c == b'-' && rest s

abbrev pub at_end : Text → Bool
at_end [] = true
at_end (_ ∷ _) = false

-- `isUuid`
unfoldable pub is_uuid : Text → Bool
unfolding hex_run dash_then
is_uuid = hex_run 8 (
    dash_then
      (hex_run 4 (dash_then (hex_run 4 (dash_then (hex_run 4 (dash_then (hex_run 12 at_end))))))))

-- `isIssuedTimestamp`: the shape is part of `parse_date`.
unfoldable pub is_issued_timestamp : Text → Bool
unfolding parse_date
is_issued_timestamp s = elim (parse_date s) [ none ↦ false | some t ↦ text_eq (to_iso_string t) s ]

uuid_test : is_uuid (units "2b1f8f5c-0d2e-4d64-9D5F-91a0c0f1b002") ≡ true
unfolding is_uuid
uuid_test = refl

issued_test :
    (is_issued_timestamp (units "2026-02-28T23:59:59.999Z") ≡ true)
    × (is_issued_timestamp (units "2026-02-30T00:00:00.000Z") ≡ false)
    × (is_issued_timestamp (units "2026-8") ≡ false)
unfolding is_issued_timestamp to_iso_string text_eq
issued_test = (refl, refl, refl)

date_test : parse_date (units "2026-07-15T13:07:00.120Z") ≡ some 63951340020120
unfolding parse_date
date_test = refl

iso_test : to_iso_string 63951340020120 ≡ units "2026-07-15T13:07:00.120Z"
unfolding to_iso_string
iso_test = refl
