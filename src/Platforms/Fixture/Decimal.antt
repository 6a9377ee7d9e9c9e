-- ===== src/Platforms/Fixture/Decimal.antt =====
-- A printed offset is read back.
use social_comments_service.Base.{
  All, Bool-cases, List, [], arith, false, inl, inr, ltb, ltb→lt, refl, subst, suc, sym, true, zero,
  ℕ, ◌%◌, ◌*◌, ◌++◌, ◌+◌, ◌-◌, ◌/◌, ◌<◌, ◌==◌, ◌∙◌, ◌∷◌, ◌≡◌,
}
use social_comments_service.Platforms.Fixture.{
  digits, is_digit, parse_offset, read_digits, string_of,
}
use social_comments_service.Shared.Text.{Text, is_space, trim_start}

read_digits-append :
    (n d : ℕ) (s : Text)
    → All (λ c. is_digit c ≡ true) s
    → is_digit d ≡ true
    → read_digits n (s ++ d ∷ []) ≡ read_digits n s * 10 + (d - b'0')
unfolding read_digits
read_digits-append n d [] h k = rw k refl
read_digits-append n d (c ∷ s) (x, h) k = rw x (read_digits-append (n * 10 + (c - b'0')) d s h k)

digit_lem : (n : ℕ) → is_digit (b'0' + n % 10) ≡ true
digit_lem n = ground arith

small_digit : (n : ℕ) → n < 10 → is_digit (b'0' + n) ≡ true
small_digit n h = ground arith

All-append_one :
    {A : Type 0} (P : A → Type 0) (xs : List A) (a : A) → All P xs → P a → All P (xs ++ a ∷ [])
All-append_one P [] a h p = (p, tt)
All-append_one P (x ∷ xs) a (q, h) p = (q, All-append_one P xs a h p)

digits-All : (f n : ℕ) → All (λ c. is_digit c ≡ true) (digits f n)
unfolding digits
digits-All zero n = tt
digits-All (suc f) n = elim (Bool-cases (ltb n 10)) [
  | inl x ↦ rw x (small_digit n (ltb→lt n 10 x), tt)
  | inr x ↦ rw x (
      All-append_one (λ c. is_digit c ≡ true) (digits f (n / 10)) (b'0' + n % 10)
        (digits-All f (n / 10)) (digit_lem n))
]

one_digit : (n : ℕ) → n < 10 → read_digits 0 ((b'0' + n) ∷ []) ≡ n
unfolding read_digits
one_digit n h = rw (small_digit n h) (omega arith)

pub read_digits-digits : (f n : ℕ) → n < f → read_digits 0 (digits f n) ≡ n
unfolding digits
read_digits-digits zero n h = absurd (omega arith)
read_digits-digits (suc f) n h = elim (Bool-cases (ltb n 10)) [
  | inl x ↦ rw x (one_digit n (ltb→lt n 10 x))
  | inr x ↦ rw x (
      read_digits-append 0 (b'0' + n % 10) (digits f (n / 10)) (digits-All f (n / 10)) (digit_lem n)
      ∙ rw (read_digits-digits f (n / 10) (ground arith)) (omega arith))
]

-- A printed number begins with a digit.
digits-shape : (f n : ℕ) → (c : ℕ) × (s : Text) × (digits (suc f) n ≡ c ∷ s)
unfolding digits
digits-shape zero n = elim (Bool-cases (ltb n 10)) [
  | inl x ↦ (b'0' + n, [], rw x refl)
  | inr x ↦ (b'0' + n % 10, [], rw x refl)
]
digits-shape (suc f) n = elim (Bool-cases (ltb n 10)) [
  | inl x ↦ (b'0' + n, [], rw x refl)
  | inr x ↦
      let (c, s, e) = digits-shape f (n / 10) in (c, s ++ (b'0' + n % 10) ∷ [], rw x (rw e refl))
]

shown_digit : (c : ℕ) → is_digit c ≡ true → is_space c ≡ false
unfolding is_space
shown_digit c h = ground arith

not_a_sign : (c d : ℕ) → is_digit c ≡ true → d < b'0' → (c == d) ≡ false
not_a_sign c d h k = ground arith

parse_offset-digit_first :
    (c : ℕ) (s : Text) → is_digit c ≡ true → parse_offset (c ∷ s) ≡ read_digits 0 (c ∷ s)
unfolding parse_offset trim_start
parse_offset-digit_first c s h =
    rw (shown_digit c h, not_a_sign c b'-' h (omega arith), not_a_sign c b'+' h (omega arith)) refl

pub parse_offset-string_of : (n : ℕ) → parse_offset (string_of n) ≡ n
parse_offset-string_of n =
    let (c, s, e) = digits-shape n n in
    rw e (
      parse_offset-digit_first c s
        (subst (λ t. All (λ c. is_digit c ≡ true) t) e (digits-All (suc n) n)).0
      ∙ rw (sym e) (read_digits-digits (suc n) n (omega arith)))
