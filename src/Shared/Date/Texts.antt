-- ===== src/Shared/Date/Texts.antt =====
-- The texts of instants.
use social_comments_service.Base.{
  Bool-cases, arith, false, inl, inr, ltb, refl, true, ℕ, ◌++◌, ◌/◌, ◌∷◌, ◌≡◌,
}
use social_comments_service.Shared.Date.{digit, four_digits, to_iso_string, year_text}
use social_comments_service.Shared.Text.{Text, is_non_empty_string, is_space, trim_start}

-- A text that starts with no space is not blank.
starts_shown : (c : ℕ) (s : Text) → is_space c ≡ false → is_non_empty_string (c ∷ s) ≡ true
unfolding is_non_empty_string trim_start
starts_shown c s h = rw (h, is_non_empty_string, trim_start)

digit_shown : (n : ℕ) → is_space (digit n) ≡ false
unfolding is_space
digit_shown n = ground arith

year_text_shown : (y : ℕ) (s : Text) → is_non_empty_string (year_text y ++ s) ≡ true
unfolding year_text four_digits is_space
year_text_shown y s = elim (Bool-cases (ltb y 10000)) [
  | inl short ↦ rw (short) (starts_shown (digit (y / 1000)) _ (digit_shown (y / 1000)))
  | inr long ↦ rw (long) (starts_shown b'+' _ refl)
]

-- No instant is written as a blank text.
pub to_iso_string-shown : (t : ℕ) → is_non_empty_string (to_iso_string t) ≡ true
unfolding to_iso_string
to_iso_string-shown t = year_text_shown _ _
