-- ===== src/Validators/Phone.antt =====
-- InputValidator.normalize_phone_number and validate_phone_number.
use korail_ktx_macro_telegra.Common.{
  ℕ, Bool, not, ◌&&◌, ◌||◌, Option, none, some, [], ◌∷◌, leb, ◌==◌, if◌then◌else◌, is_some, keep,
}
use korail_ktx_macro_telegra.Text.{Text, Unicode, is_empty, all, strip}
use korail_ktx_macro_telegra.Validators.{Reason, missing, not_digits, wrong_form}

-- A character of the class [0-9\s.\-()+]
unfoldable pub is_phone_character : Unicode → ℕ → Bool
is_phone_character u c =
    (leb 48 c && leb c 57)
    || u.is_space c
    || (c == 46)
    || (c == 45)
    || (c == 40)
    || (c == 41)
    || (c == 43)

-- `re.fullmatch(r"[0-9\s.\-()+]+", phone)`
unfoldable pub is_phone_text : Unicode → Text → Bool
unfolding is_phone_character
is_phone_text u s = not (is_empty s) && all (is_phone_character u) s

-- The ten or eleven digits in groups, after the test that they start with "01"
unfoldable pub hyphenated : Text → Option Text
hyphenated (a ∷ b ∷ c ∷ d ∷ e ∷ f ∷ g ∷ h ∷ i ∷ j ∷ k ∷ []) =
    if (a == 48) && (b == 49)
    then some (a ∷ b ∷ c ∷ 45 ∷ d ∷ e ∷ f ∷ g ∷ 45 ∷ h ∷ i ∷ j ∷ k ∷ [])
    else none
hyphenated (a ∷ b ∷ c ∷ d ∷ e ∷ f ∷ g ∷ h ∷ i ∷ j ∷ []) =
    if (a == 48) && (b == 49)
    then some (a ∷ b ∷ c ∷ 45 ∷ d ∷ e ∷ f ∷ 45 ∷ g ∷ h ∷ i ∷ j ∷ [])
    else none
hyphenated _ = none

unfoldable pub normalize_phone_number : Unicode → Text → Option Text
unfolding is_phone_text strip hyphenated
normalize_phone_number u phone =
    if is_empty phone
    then none
    else if is_phone_text u (strip u phone)
    then hyphenated (keep u.is_digit phone)
    else none

unfoldable pub validate_phone_number : Unicode → Text → Option Reason
unfolding normalize_phone_number is_phone_text strip
validate_phone_number u phone =
    if is_empty phone || is_empty (strip u phone)
    then some missing
    else if not (is_phone_text u (strip u phone))
    then some not_digits
    else if is_some (normalize_phone_number u (strip u phone))
    then none
    else some wrong_form
