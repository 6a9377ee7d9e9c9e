-- ===== src/Shared/Date.antt =====
-- The parts of JavaScript's `Date` that the source uses. An instant is a number of milliseconds
-- from the start of the year 0, so that every text of the ISO format has one; the source only
-- compares instants and subtracts them, which another origin does not change.
pub mod Texts
use social_comments_service.Base.{
  Bool, List, Option, [], all, if◌then◌else◌, leb, ltb, none, not, some, suc, zero, ℕ, ◌%◌, ◌&&◌,
  ◌*◌, ◌++◌, ◌+◌, ◌-◌, ◌/◌, ◌==◌, ◌||◌, ◌∷◌,
}
use social_comments_service.Shared.Text.{Text}

unfoldable pub is_leap : ℕ → Bool
is_leap y = y % 4 == 0 && (not (y % 100 == 0) || y % 400 == 0)

unfoldable pub year_days : ℕ → ℕ
unfolding is_leap
year_days y = if is_leap y then 366 else 365

unfoldable pub month_lengths : ℕ → List ℕ
unfolding is_leap
month_lengths y =
    31 ∷ (if is_leap y then 29 else 28) ∷ 31 ∷ 30 ∷ 31 ∷ 30 ∷ 31 ∷ 31 ∷ 30 ∷ 31 ∷ 30 ∷ 31 ∷ []

-- The year that holds a day, and the day's number in it.
unfoldable pub split_years : ℕ → ℕ → ℕ → ℕ × ℕ
split_years zero y d = (y, d)
split_years (suc f) y d =
    let later = split_years f (y + 1) (d - year_days y) in
    if ltb d (year_days y) then (y, d) else later

unfoldable pub split_months : List ℕ → ℕ → ℕ → ℕ × ℕ
split_months [] m d = (m, d)
split_months (n ∷ ns) m d =
    let later = split_months ns (m + 1) (d - n) in if ltb d n then (m, d) else later

abbrev pub digit : ℕ → ℕ
digit n = b'0' + n % 10

unfoldable pub two_digits : ℕ → Text
two_digits n = digit (n / 10) ∷ digit n ∷ []

unfoldable pub three_digits : ℕ → Text
unfolding two_digits
three_digits n = digit (n / 100) ∷ two_digits n

unfoldable pub four_digits : ℕ → Text
unfolding three_digits
four_digits n = digit (n / 1000) ∷ three_digits n

-- From the year 10000 on the format has a sign and six digits.
unfoldable pub year_text : ℕ → Text
unfolding four_digits
year_text y =
    if ltb y 10000
    then four_digits y
    else b'+' ∷ digit (y / 100000) ∷ digit (y / 10000) ∷ four_digits y

abbrev pub day_text : ℕ × ℕ → ℕ → Text
day_text (m, d) time =
    b'-' ∷ two_digits (m + 1)
    ++ b'-' ∷ two_digits (d + 1)
    ++ b'T' ∷ two_digits (time / 3600000)
    ++ b':' ∷ two_digits (time / 60000 % 60)
    ++ b':' ∷ two_digits (time / 1000 % 60)
    ++ b'.' ∷ three_digits (time % 1000)
    ++ b'Z' ∷ []

abbrev pub date_text : ℕ × ℕ → ℕ → Text
date_text (y, d) time = year_text y ++ day_text (split_months (month_lengths y) 0 d) time

-- `new Date(t).toISOString()`; 146097 days are 400 years.
unfoldable pub to_iso_string : ℕ → Text
unfolding year_text three_digits split_years split_months year_days month_lengths
to_iso_string t =
    let day = t / 86400000 in
    date_text (split_years 400 (day / 146097 * 400) (day % 146097)) (t % 86400000)

abbrev is_digit : ℕ → Bool
is_digit c = leb b'0' c && leb c b'9'

abbrev value2 : ℕ → ℕ → ℕ
value2 a b = 10 * (a - b'0') + (b - b'0')

-- `issuedTimestampShape`: the fields of `dddd-dd-ddTdd:dd:dd.dddZ`.
pub record Fields : Type 0 where
  pub year : ℕ
  pub month : ℕ
  pub day : ℕ
  pub hour : ℕ
  pub minute : ℕ
  pub second : ℕ
  pub milli : ℕ

unfoldable pub iso_fields : Text → Option Fields
iso_fields
      (y1 ∷ y2 ∷ y3 ∷ y4 ∷ s1 ∷ m1 ∷ m2 ∷ s2 ∷ d1 ∷ d2 ∷ s3 ∷ h1 ∷ h2 ∷ s4 ∷ i1 ∷ i2 ∷ s5 ∷ c1 ∷ c2
        ∷ s6 ∷ f1 ∷ f2 ∷ f3 ∷ s7 ∷ []) =
    if all is_digit
        (y1 ∷ y2 ∷ y3 ∷ y4 ∷ m1 ∷ m2 ∷ d1 ∷ d2 ∷ h1 ∷ h2 ∷ i1 ∷ i2 ∷ c1 ∷ c2 ∷ f1 ∷ f2 ∷ f3 ∷ [])
      && s1 == b'-'
      && s2 == b'-'
      && s3 == b'T'
      && s4 == b':'
      && s5 == b':'
      && s6 == b'.'
      && s7 == b'Z'
    then some (record {
      year = 100 * value2 y1 y2 + value2 y3 y4;
      month = value2 m1 m2;
      day = value2 d1 d2;
      hour = value2 h1 h2;
      minute = value2 i1 i2;
      second = value2 c1 c2;
      milli = 10 * value2 f1 f2 + (f3 - b'0');
    })
    else none
iso_fields _ = none

-- The fields name an instant of the calendar. A day past the month's end, and hour 24, which the
-- constructor of `Date` may still take, are written back as another day.
abbrev nth_or_zero : List ℕ → ℕ → ℕ
nth_or_zero [] n = 0
nth_or_zero (x ∷ xs) zero = x
nth_or_zero (x ∷ xs) (suc n) = nth_or_zero xs n

unfoldable pub names_instant : Fields → Bool
unfolding month_lengths
names_instant f =
    leb 1 f.month
    && leb f.month 12
    && leb 1 f.day
    && leb f.day (nth_or_zero (month_lengths f.year) (f.month - 1))
    && ltb f.hour 24
    && ltb f.minute 60
    && ltb f.second 60

abbrev sum_first : ℕ → List ℕ → ℕ
sum_first zero xs = 0
sum_first (suc n) [] = 0
sum_first (suc n) (x ∷ xs) = x + sum_first n xs

-- The days before a year: 365 each, and one for each leap year among them.
unfoldable pub days_before_year : ℕ → ℕ
days_before_year y = 365 * y + (y + 3) / 4 + (y + 399) / 400 - (y + 99) / 100

unfoldable pub instant_of : Fields → ℕ
unfolding days_before_year month_lengths
instant_of f =
    (days_before_year f.year + sum_first (f.month - 1) (month_lengths f.year) + (f.day - 1))
      * 86400000
    + f.hour * 3600000
    + f.minute * 60000
    + f.second * 1000
    + f.milli

-- `Date.parse`, `none` for NaN, on the one format that the service writes; what it does on another
-- text is the engine's choice.
unfoldable pub parse_date : Text → Option ℕ
unfolding iso_fields names_instant instant_of
parse_date s = elim (iso_fields s) [
  | none ↦ none
  | some f ↦ if names_instant f then some (instant_of f) else none
]
