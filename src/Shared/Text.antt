-- ===== src/Shared/Text.antt =====
-- A JavaScript string: its UTF-16 code units. `trim`, `===`, `<` and `.length` are those of the
-- language, which compares strings unit by unit.
pub mod Order
use Prim.Native.Char.{code}
use Prim.Native.String
use social_comments_service.Base.{
  Bool, List, Option, String, [], false, if◌then◌else◌, leb, ltb, none, some, true, ℕ, ◌&&◌, ◌==◌,
  ◌||◌, ◌∷◌,
}

abbrev pub Text : Type 0
Text = List ℕ

-- The units of a literal of the Basic Multilingual Plane.
abbrev pub units : String → Text
units String.[] = []
units (String.◌∷◌ c s) = code c ∷ units s

-- `a === b`
unfoldable pub text_eq : Text → Text → Bool
text_eq [] [] = true
text_eq (a ∷ s) (b ∷ t) = a == b && text_eq s t
text_eq _ _ = false

-- `a < b`
unfoldable pub text_lt : Text → Text → Bool
text_lt [] [] = false
text_lt [] (b ∷ t) = true
text_lt (a ∷ s) [] = false
text_lt (a ∷ s) (b ∷ t) = if a == b then text_lt s t else ltb a b

-- White space and line terminators, as `trim` removes them.
unfoldable pub is_space : ℕ → Bool
is_space c =
    (leb 0x09 c && leb c 0x0d)
    || c == 0x20
    || c == 0xa0
    || c == 0x1680
    || (leb 0x2000 c && leb c 0x200a)
    || c == 0x2028
    || c == 0x2029
    || c == 0x202f
    || c == 0x205f
    || c == 0x3000
    || c == 0xfeff

unfoldable pub trim_start : Text → Text
unfolding is_space
trim_start [] = []
trim_start (c ∷ s) = let rest = trim_start s in if is_space c then rest else c ∷ s

-- A text is all space exactly when trimming its start leaves nothing; what `trim` cuts from the
-- end does not bear on that.
unfoldable pub is_non_empty_string : Text → Bool
unfolding trim_start
is_non_empty_string s = elim (trim_start s) [ [] ↦ false | c ∷ r ↦ true ]

unfoldable pub is_nullable_non_empty_string : Option Text → Bool
unfolding is_non_empty_string
is_nullable_non_empty_string none = true
is_nullable_non_empty_string (some s) = is_non_empty_string s
