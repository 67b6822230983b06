-- ===== src/Validators/Tests.antt =====
-- Runs of the validators, and instances of their theorems.
use korail_ktx_macro_telegra.Validators.PhoneForm.{normalize-idempotent, validate_phone-normalize}
use korail_ktx_macro_telegra.Validators.Calendar.{validate_date_lem}
use korail_ktx_macro_telegra.Common.{arith, none, refl, some, ◌∷◌, ◌≡◌, []}
use korail_ktx_macro_telegra.Payment.{srt}
use korail_ktx_macro_telegra.Text.{Text}
use korail_ktx_macro_telegra.Text.Samples.{ascii, ascii-IsUnicode}
use korail_ktx_macro_telegra.Validators.{in_past, too_many}
use korail_ktx_macro_telegra.Validators.Choices.{
  from_answer, validate_passenger_count, validate_yes_no, yes,
}
use korail_ktx_macro_telegra.Validators.Date.{
  Day, add_days, first_reason, is_real, validate_date, written,
}
use korail_ktx_macro_telegra.Validators.Phone.{normalize_phone_number, validate_phone_number}

-- "010 1234.5678"
abbrev typed_number : Text
typed_number = 48 ∷ 49 ∷ 48 ∷ 32 ∷ 49 ∷ 50 ∷ 51 ∷ 52 ∷ 46 ∷ 53 ∷ 54 ∷ 55 ∷ 56 ∷ []

-- "010-1234-5678"
abbrev hyphened_number : Text
hyphened_number = 48 ∷ 49 ∷ 48 ∷ 45 ∷ 49 ∷ 50 ∷ 51 ∷ 52 ∷ 45 ∷ 53 ∷ 54 ∷ 55 ∷ 56 ∷ []

typed_number_normal : normalize_phone_number ascii typed_number ≡ some hyphened_number
unfolding normalize_phone_number
typed_number_normal = refl

normalize-idempotent_example : normalize_phone_number ascii hyphened_number ≡ some hyphened_number
normalize-idempotent_example =
    normalize-idempotent ascii ascii-IsUnicode typed_number hyphened_number typed_number_normal

validate_phone-normalize_example : validate_phone_number ascii typed_number ≡ none
unfolding normalize_phone_number
validate_phone-normalize_example =
    (validate_phone-normalize ascii ascii-IsUnicode typed_number).1 refl

abbrev some_day : Day
some_day = record { year = 2026; month = 11; day = 26 }

abbrev leap_day : Day
leap_day = record { year = 2028; month = 2; day = 29 }

-- The 29th of February is taken from the day a year before on.
validate_date_lem_example :
    validate_date ascii (record { year = 2027; month = 3; day = 1 }) (written leap_day) ≡ none
unfolding is_real add_days
validate_date_lem_example =
    (validate_date_lem ascii ascii-IsUnicode (record { year = 2027; month = 3; day = 1 }) leap_day
        refl (omega arith) (omega arith, omega arith, omega arith)).1
      (refl, omega arith, omega arith, omega arith, omega arith)

yesterday_refused :
    validate_date ascii some_day (written (record { year = 2026; month = 11; day = 25 }))
    ≡ some in_past
unfolding validate_date first_reason
yesterday_refused = refl

-- "2026" and a wide "１１２５": the day before, and taken
wide_yesterday_taken :
    validate_date ascii some_day (50 ∷ 48 ∷ 50 ∷ 54 ∷ 65297 ∷ 65297 ∷ 65298 ∷ 65301 ∷ []) ≡ none
unfolding validate_date first_reason
wide_yesterday_taken = refl

-- " 1430"
abbrev half_past_two : Text
half_past_two = 32 ∷ 49 ∷ 52 ∷ 51 ∷ 48 ∷ []

too_many_passengers : validate_passenger_count ascii (49 ∷ 48 ∷ []) ≡ some too_many
unfolding validate_passenger_count
too_many_passengers = refl

-- " yes"
yes_in_small_letters : validate_yes_no ascii (32 ∷ 121 ∷ 101 ∷ 115 ∷ []) ≡ yes
unfolding validate_yes_no
yes_in_small_letters = refl

sr_is_srt : from_answer ascii (115 ∷ 114 ∷ []) ≡ some srt
unfolding from_answer
sr_is_srt = refl
