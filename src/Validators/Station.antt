-- ===== src/Validators/Station.antt =====
-- InputValidator.validate_station_name and Operator.serves. The list of SR comes with its client
-- library and Korail's is fetched, so both are parameters; the suggestions of a reason are left out.
use korail_ktx_macro_telegra.Common.{
  ℕ, Bool, true, false, not, ◌&&◌, ◌||◌, Option, none, some, List, [], ◌∷◌, ltb, ◌==◌,
  if◌then◌else◌, length, any, keep,
}
use korail_ktx_macro_telegra.Text.{Text, Unicode, is_empty, one_of, all, strip}
use korail_ktx_macro_telegra.Payment.{Operator, korail, srt}
use korail_ktx_macro_telegra.Validators.{
  Reason, missing, has_suffix, too_short, too_long, bad_character, not_served, no_such_station,
}

-- SRT_STATIONS and is_valid_station
pub record Stations : Type 0 where
  pub srt_stations : List Text
  pub is_valid_station : Text → Bool

unfoldable pub serves : Unicode → Stations → Operator → Text → Option Bool
unfolding strip
serves u known korail s = none
serves u known srt s = some (one_of (strip u s) known.srt_stations)

-- " ", "-", "(", ")" and the letters ㄱㄴㄷㄹㅁㅂㅅㅇㅈㅊㅋㅌㅍㅎ
abbrev pub allowed_marks : List ℕ
allowed_marks =
    32 ∷ 45 ∷ 40 ∷ 41 ∷ 12593 ∷ 12596 ∷ 12599 ∷ 12601 ∷ 12609 ∷ 12610 ∷ 12613 ∷ 12615 ∷ 12616
    ∷ 12618 ∷ 12619 ∷ 12620 ∷ 12621 ∷ 12622 ∷ []

unfoldable pub is_station_character : Unicode → ℕ → Bool
is_station_character u c = u.is_alnum c || any (λ m. c == m) allowed_marks

-- `station.replace(" ", "").replace("-", "")`
unfoldable pub without_marks : Text → Text
without_marks s = keep (λ c. not ((c == 32) || (c == 45))) s

-- str.isalnum, which is false for the empty text
unfoldable pub is_plain : Unicode → Text → Bool
unfolding without_marks
is_plain u s = not (is_empty (without_marks s)) && all u.is_alnum (without_marks s)

-- The list of the railway is asked last.
unfoldable pub served_reason : Stations → Option Bool → Text → Option Reason
served_reason known (some true) s = none
served_reason known (some false) s = some not_served
served_reason known none s = if known.is_valid_station s then none else some no_such_station

unfoldable pub station_reason : Unicode → Stations → Operator → Text → Option Reason
unfolding serves is_station_character is_plain served_reason
station_reason u known op s =
    if is_empty s
    then some missing
    else if any (λ c. c == 50669) s
    then some has_suffix
    else if ltb (length s) 2
    then some too_short
    else if ltb 10 (length s)
    then some too_long
    else if not (is_plain u s) && not (all (is_station_character u) s)
    then some bad_character
    else served_reason known (serves u known op s) s

unfoldable pub validate_station_name : Unicode → Stations → Operator → Text → Option Reason
unfolding station_reason strip
validate_station_name u known op s =
    if is_empty s then some missing else station_reason u known op (strip u s)
