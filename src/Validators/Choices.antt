-- ===== src/Validators/Choices.antt =====
-- The answers to a question with a few choices: yes or no, the railway, the numbered choices, the
-- number of passengers, and the password. Operator.from_answer is in models/operator.py.
use korail_ktx_macro_telegra.Common.{
  ℕ, Bool, not, ◌||◌, Option, none, some, List, [], ◌∷◌, ltb, ◌==◌, if◌then◌else◌, length, any,
}
use korail_ktx_macro_telegra.Text.{Text, Unicode, is_empty, one_of, strip, all_digits, to_int}
use korail_ktx_macro_telegra.Payment.{Operator, korail, srt}
use korail_ktx_macro_telegra.Validators.{
  Reason, missing, not_digits, bad_choice, too_short, too_long, too_few, too_many, bad_character,
}

-- What an answer to a yes/no question was.
pub data Answer : Type 0 where
  yes : Answer
  no : Answer
  unclear : Reason → Answer

-- "Y", "예", "YES", "네", "ㅇ"
abbrev pub yes_words : List Text
yes_words = (89 ∷ []) ∷ (50696 ∷ []) ∷ (89 ∷ 69 ∷ 83 ∷ []) ∷ (45348 ∷ []) ∷ (12615 ∷ []) ∷ []

-- "N", "아니오", "NO", "아니요", "ㄴ"
abbrev pub no_words : List Text
no_words =
    (78 ∷ [])
    ∷ (50500 ∷ 45768 ∷ 50724 ∷ [])
    ∷ (78 ∷ 79 ∷ [])
    ∷ (50500 ∷ 45768 ∷ 50836 ∷ [])
    ∷ (12596 ∷ [])
    ∷ []

-- The tests on the answer in capitals
unfoldable pub yes_no_of : Text → Answer
yes_no_of s =
    if is_empty s
    then unclear missing
    else if ltb 10 (length s)
    then unclear too_long
    else if one_of s yes_words
    then yes
    else if one_of s no_words
    then no
    else unclear bad_choice

unfoldable pub validate_yes_no : Unicode → Text → Answer
unfolding yes_no_of strip
validate_yes_no u s = if is_empty s then unclear missing else yes_no_of (u.upper (strip u s))

-- The keys of ANSWER_ALIASES that stand for Korail: "korail", "코레일", "ktx"
abbrev pub korail_aliases : List Text
korail_aliases =
    (107 ∷ 111 ∷ 114 ∷ 97 ∷ 105 ∷ 108 ∷ [])
    ∷ (53076 ∷ 47112 ∷ 51068 ∷ [])
    ∷ (107 ∷ 116 ∷ 120 ∷ [])
    ∷ []

-- Those that stand for SRT: "srt", "sr", "에스알티", "수서고속철도"
abbrev pub srt_aliases : List Text
srt_aliases =
    (115 ∷ 114 ∷ 116 ∷ [])
    ∷ (115 ∷ 114 ∷ [])
    ∷ (50640 ∷ 49828 ∷ 50508 ∷ 54000 ∷ [])
    ∷ (49688 ∷ 49436 ∷ 44256 ∷ 49549 ∷ 52384 ∷ 46020 ∷ [])
    ∷ []

unfoldable pub operator_named : Text → Option Operator
operator_named s =
    if one_of s korail_aliases then some korail else if one_of s srt_aliases then some srt else none

unfoldable pub from_answer : Unicode → Text → Option Operator
unfolding operator_named strip
from_answer u s = operator_named (u.lower (strip u s))

unfoldable pub validate_operator_choice : Unicode → Text → Option Reason
unfolding from_answer strip
validate_operator_choice u s =
    if is_empty (strip u s)
    then some missing
    else elim (from_answer u s) [ none ↦ some bad_choice | some _ ↦ none ]

-- "1", "2" and so on
abbrev pub one_two : List Text
one_two = (49 ∷ []) ∷ (50 ∷ []) ∷ []

abbrev pub one_to_four : List Text
one_to_four = (49 ∷ []) ∷ (50 ∷ []) ∷ (51 ∷ []) ∷ (52 ∷ []) ∷ []

-- The body that the validators of a numbered choice share, on the trimmed text
unfoldable pub choice_reason : Unicode → List Text → Text → Option Reason
unfolding all_digits
choice_reason u choices s =
    if is_empty s
    then some missing
    else if not (all_digits u s)
    then some not_digits
    else if one_of s choices
    then none
    else some bad_choice

unfoldable pub validate_train_type_choice : Unicode → Text → Option Reason
unfolding choice_reason strip
validate_train_type_choice u s =
    if is_empty s then some missing else choice_reason u one_two (strip u s)

unfoldable pub validate_special_option_choice : Unicode → Text → Option Reason
unfolding choice_reason strip
validate_special_option_choice u s =
    if is_empty s then some missing else choice_reason u one_to_four (strip u s)

unfoldable pub validate_seat_strategy_choice : Unicode → Text → Option Reason
unfolding choice_reason strip
validate_seat_strategy_choice u s =
    if is_empty s then some missing else choice_reason u one_two (strip u s)

unfoldable pub count_reason : Option ℕ → Option Reason
count_reason none = some bad_choice
count_reason (some n) = if ltb n 1 then some too_few else if ltb 9 n then some too_many else none

unfoldable pub passengers_reason : Unicode → Text → Option Reason
unfolding count_reason all_digits to_int
passengers_reason u s =
    if is_empty s
    then some missing
    else if not (all_digits u s)
    then some not_digits
    else count_reason (to_int u s)

unfoldable pub validate_passenger_count : Unicode → Text → Option Reason
unfolding passengers_reason strip
validate_passenger_count u s = if is_empty s then some missing else passengers_reason u (strip u s)

-- A line feed, a carriage return or a tab
unfoldable pub breaks_line : ℕ → Bool
breaks_line c = (c == 10) || (c == 13) || (c == 9)

unfoldable pub validate_password : Text → Option Reason
unfolding breaks_line
validate_password s =
    if is_empty s
    then some missing
    else if ltb (length s) 4
    then some too_short
    else if ltb 50 (length s)
    then some too_long
    else if any breaks_line s
    then some bad_character
    else none
