-- ===== src/Shared/Identifiers/Shape.antt =====
-- The shape of a UUID in src/shared/identifiers.ts, without its pattern.
use social_comments_service.Base.{
  All, Bool, [], all, ap, arith, length, refl, subst, suc, sym, true, zero, ℕ, ◌++◌, ◌∙◌, ◌∷◌, ◌≡◌,
  ◌≤◌, ◌⊎◌,
}
use social_comments_service.Shared.Identifiers.{at_end, dash_then, hex_run, is_hex, is_uuid}
use social_comments_service.Shared.Text.{Text}

abbrev pub IsHexDigit : ℕ → Type 0
IsHexDigit c = ((b'0' ≤ c) × (c ≤ b'9')) ⊎ (((b'a' ≤ c) × (c ≤ b'f')) ⊎ ((b'A' ≤ c) × (c ≤ b'F')))

-- So many hexadecimal digits.
abbrev pub IsGroup : ℕ → Text → Type 0
IsGroup n s = (length s ≡ n) × All IsHexDigit s

-- Groups of 8, 4, 4, 4 and 12 hexadecimal digits, with a hyphen between each two.
abbrev pub IsUuid : Text → Type 0
IsUuid s =
    (a : Text) × (b : Text) × (c : Text) × (d : Text) × (e : Text) × (s
      ≡ a ++ b'-' ∷ (b ++ b'-' ∷ (c ++ b'-' ∷ (d ++ b'-' ∷ e))))
    × IsGroup 8 a
    × IsGroup 4 b
    × IsGroup 4 c
    × IsGroup 4 d
    × IsGroup 12 e

is_hex-IsHexDigit : (c : ℕ) → is_hex c ≡ true → IsHexDigit c
is_hex-IsHexDigit c h = ground (arith, h)

hex_run-IsGroup :
    (n : ℕ) (rest : Text → Bool) (s : Text)
    → hex_run n rest s ≡ true
    → (a : Text) × (r : Text) × (s ≡ a ++ r) × IsGroup n a × (rest r ≡ true)
unfolding hex_run
hex_run-IsGroup zero rest s h = ([], s, refl, (refl, tt), h)
hex_run-IsGroup (suc n) rest [] h = absurd (cc h)
hex_run-IsGroup (suc n) rest (c ∷ s) h =
    let digit : is_hex c ≡ true = ground (arith, h) in
    let more : hex_run n rest s ≡ true = ground (arith, h) in
    let (a, r, e, (l, all), k) = hex_run-IsGroup n rest s more in
    (c ∷ a, r, ap (λ t. c ∷ t) e, (ap suc l, (is_hex-IsHexDigit c digit, all)), k)

dash_then-hyphen :
    (rest : Text → Bool) (s : Text)
    → dash_then rest s ≡ true
    → (r : Text) × (s ≡ b'-' ∷ r) × (rest r ≡ true)
unfolding dash_then
dash_then-hyphen rest [] h = absurd (cc h)
dash_then-hyphen rest (c ∷ s) h =
    let hyphen : c ≡ b'-' = ground (arith, h) in
    let more : rest s ≡ true = ground (arith, h) in (s, ap (λ x. x ∷ s) hyphen, more)

IsGroup-then_hyphen :
    (n : ℕ) (rest : Text → Bool) (s : Text)
    → hex_run n (dash_then rest) s ≡ true
    → (a : Text) × (r : Text) × (s ≡ a ++ b'-' ∷ r) × IsGroup n a × (rest r ≡ true)
IsGroup-then_hyphen n rest s h =
    let (a, r, e, g, k) = hex_run-IsGroup n (dash_then rest) s h in
    let (t, f, l) = dash_then-hyphen rest r k in (a, t, e ∙ ap (λ x. a ++ x) f, g, l)

append_nil : (s : Text) → s ++ [] ≡ s
append_nil [] = refl
append_nil (c ∷ s) = ap (λ t. c ∷ t) (append_nil s)

at_end-nil : (s : Text) → at_end s ≡ true → s ≡ []
at_end-nil [] h = refl
at_end-nil (c ∷ s) h = absurd (cc h)

last-IsGroup : (n : ℕ) (s : Text) → hex_run n at_end s ≡ true → IsGroup n s
last-IsGroup n s h =
    let (a, r, e, g, k) = hex_run-IsGroup n at_end s h in
    let all : a ≡ s = sym (append_nil a) ∙ ap (λ t. a ++ t) (sym (at_end-nil r k)) ∙ sym e in
    subst (IsGroup n) all g

-- What the pattern matches has the shape.
pub is_uuid-IsUuid : (s : Text) → is_uuid s ≡ true → IsUuid s
unfolding is_uuid
is_uuid-IsUuid s h =
    let (a, r₁, e₁, ga, h₁) = IsGroup-then_hyphen 8 _ s h in
    let (b, r₂, e₂, gb, h₂) = IsGroup-then_hyphen 4 _ r₁ h₁ in
    let (c, r₃, e₃, gc, h₃) = IsGroup-then_hyphen 4 _ r₂ h₂ in
    let (d, e, e₄, gd, h₄) = IsGroup-then_hyphen 4 _ r₃ h₃ in
    let shape =
      e₁
      ∙ ap (λ x. a ++ b'-' ∷ x) (e₂ ∙ ap (λ x. b ++ b'-' ∷ x) (e₃ ∙ ap (λ x. c ++ b'-' ∷ x) e₄)) in
    (a, b, c, d, e, shape, ga, gb, gc, gd, last-IsGroup 12 e h₄)
