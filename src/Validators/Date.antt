-- ===== src/Validators/Date.antt =====
-- InputValidator.validate_date and validate_time, with datetime's calendar. Today is an argument.
use korail_ktx_macro_telegra.Common.{
  ℕ, zero, suc, ◌+◌, ◌/◌, ◌%◌, Bool, not, ◌&&◌, ◌||◌, Option, none, some, [], ◌∷◌, leb, ltb, ◌==◌,
  if◌then◌else◌, length,
}
use korail_ktx_macro_telegra.Text.{Text, Unicode, is_empty, strip, all_digits, to_int, before}
use korail_ktx_macro_telegra.Validators.{
  Reason, missing, not_digits, wrong_length, bad_year, bad_month, bad_day, no_such_date, in_past,
  too_far, bad_hours, bad_minutes,
}

pub record Day : Type 0 where
  pub year : ℕ
  pub month : ℕ
  pub day : ℕ

unfoldable pub is_leap : ℕ → Bool
is_leap y = (y % 4 == 0) && (not (y % 100 == 0) || (y % 400 == 0))

unfoldable pub days_in : ℕ → ℕ → ℕ
unfolding is_leap
days_in y m =
    if m == 2
    then (if is_leap y then 29 else 28)
    else if (m == 4) || (m == 6) || (m == 9) || (m == 11)
    then 30
    else 31

-- datetime(year, month, day) raises ValueError where this is false.
unfoldable pub is_real : Day → Bool
unfolding days_in
is_real d = leb 1 d.month && leb d.month 12 && leb 1 d.day && leb d.day (days_in d.year d.month)

unfoldable pub next_day : Day → Day
unfolding days_in
next_day d =
    if ltb d.day (days_in d.year d.month)
    then record d { day = d.day + 1 }
    else if ltb d.month 12
    then record d { month = d.month + 1; day = 1 }
    else record { year = d.year + 1; month = 1; day = 1 }

-- `+ timedelta(days=n)`
unfoldable pub add_days : ℕ → Day → Day
unfolding next_day
add_days zero d = d
add_days (suc n) d = add_days n (next_day d)

-- A digit of `n` as a character
unfoldable pub digit_of : ℕ → ℕ
digit_of n = 48 + n % 10

-- strftime("%Y%m%d")
unfoldable pub written : Day → Text
unfolding digit_of
written d =
    digit_of (d.year / 1000)
    ∷ digit_of (d.year / 100)
    ∷ digit_of (d.year / 10)
    ∷ digit_of d.year
    ∷ digit_of (d.month / 10)
    ∷ digit_of d.month
    ∷ digit_of (d.day / 10)
    ∷ digit_of d.day
    ∷ []

unfoldable pub day_with : Option ℕ → Option ℕ → Option ℕ → Option Day
day_with (some y) (some m) (some d) = some (record { year = y; month = m; day = d })
day_with _ _ _ = none

-- The three int(...) of a text of eight characters; none where one raises ValueError
unfoldable pub read_day : Unicode → Text → Option Day
unfolding to_int day_with
read_day u (a ∷ b ∷ c ∷ d ∷ e ∷ f ∷ g ∷ h ∷ []) =
    day_with (to_int u (a ∷ b ∷ c ∷ d ∷ [])) (to_int u (e ∷ f ∷ [])) (to_int u (g ∷ h ∷ []))
read_day u _ = none

-- The tests on the three numbers
unfoldable pub day_reason : Option Day → Option Reason
unfolding is_real
day_reason none = some no_such_date
day_reason (some d) =
    if ltb d.year 2020 || ltb 2100 d.year
    then some (bad_year d.year)
    else if ltb d.month 1 || ltb 12 d.month
    then some (bad_month d.month)
    else if ltb d.day 1 || ltb 31 d.day
    then some (bad_day d.day)
    else if is_real d
    then none
    else some no_such_date

-- The tests on the text itself, once its numbers passed
unfoldable pub window_reason : Day → Text → Option Reason
unfolding written before add_days
window_reason today s =
    if before s (written today)
    then some in_past
    else if before (written (add_days 365 today)) s
    then some too_far
    else none

-- The first of two tests to fail says why.
unfoldable pub first_reason : Option Reason → Option Reason → Option Reason
first_reason none rest = rest
first_reason (some why) rest = some why

unfoldable pub date_reason : Unicode → Day → Text → Option Reason
unfolding all_digits read_day day_reason window_reason
date_reason u today s =
    if is_empty s
    then some missing
    else if not (all_digits u s)
    then some not_digits
    else if not (length s == 8)
    then some wrong_length
    else first_reason (day_reason (read_day u s)) (window_reason today s)

unfoldable pub validate_date : Unicode → Day → Text → Option Reason
unfolding date_reason strip
validate_date u today s = if is_empty s then some missing else date_reason u today (strip u s)

pub record Clock : Type 0 where
  pub hours : ℕ
  pub minutes : ℕ

unfoldable pub clock_with : Option ℕ → Option ℕ → Option Clock
clock_with (some h) (some m) = some (record { hours = h; minutes = m })
clock_with _ _ = none

unfoldable pub read_clock : Unicode → Text → Option Clock
unfolding to_int clock_with
read_clock u (a ∷ b ∷ c ∷ d ∷ []) = clock_with (to_int u (a ∷ b ∷ [])) (to_int u (c ∷ d ∷ []))
read_clock u _ = none

unfoldable pub clock_reason : Option Clock → Option Reason
clock_reason none = some no_such_date
clock_reason (some t) =
    if ltb 23 t.hours
    then some (bad_hours t.hours)
    else if ltb 59 t.minutes
    then some (bad_minutes t.minutes)
    else none

unfoldable pub time_reason : Unicode → Text → Option Reason
unfolding all_digits read_clock clock_reason
time_reason u s =
    if is_empty s
    then some missing
    else if not (all_digits u s)
    then some not_digits
    else if not (length s == 4)
    then some wrong_length
    else clock_reason (read_clock u s)

unfoldable pub validate_time : Unicode → Text → Option Reason
unfolding time_reason strip
validate_time u s = if is_empty s then some missing else time_reason u (strip u s)
