-- ===== src/Conversation/Moment.antt =====
-- ConversationHandler.parse_start_time: reading when a search should start. A moment is a day with
-- an hour and a minute; `datetime` is Python's calendar.
use korail_ktx_macro_telegra.Common.{
  ◌&&◌, ◌*◌, ◌+◌, ◌==◌, Bool, Option, keep, leb, ltb, none, not, some, ◌||◌, ℕ, ◌∷◌, if◌then◌else◌,
  [],
}
use korail_ktx_macro_telegra.Conversation.{Time}
use korail_ktx_macro_telegra.Text.{Text, Unicode, all_digits, to_int}
use korail_ktx_macro_telegra.Validators.Date.{Day, is_real, next_day}

-- `time > now`, of two moments at the start of their minutes
unfoldable pub later : Time → Time → Bool
later t now =
    let a = t.date.year * 10000 + t.date.month * 100 + t.date.day in
    let b = now.date.year * 10000 + now.date.month * 100 + now.date.day in
    ltb b a || ((a == b) && ltb (now.hour * 60 + now.minute) (t.hour * 60 + t.minute))

-- datetime(...), none where it raises ValueError. Its years are 1 to 9999.
unfoldable pub moment : ℕ → ℕ → ℕ → ℕ → ℕ → Option Time
unfolding is_real
moment y m d h minute =
    let date : Day = record { year = y; month = m; day = d } in
    if leb 1 y && leb y 9999 && is_real date && leb h 23 && leb minute 59
    then some (record { date = date; hour = h; minute = minute })
    else none

-- ":", "-" and "/" are dropped, and white space: what `replace`, `strip` and `split` leave.
unfoldable pub only_digits : Unicode → Text → Text
only_digits u s = keep (λ c. not ((c == 58) || (c == 45) || (c == 47) || u.is_space c)) s

abbrev pub two : Unicode → ℕ → ℕ → Option ℕ
two u a b = to_int u (a ∷ b ∷ [])

-- "HHMM": the next time that the clock reads it
unfoldable pub next_time : Time → Option ℕ → Option ℕ → Option Time
unfolding later moment next_day
next_time now (some h) (some m) = elim (moment now.date.year now.date.month now.date.day h m) [
  | none ↦ none
  | some t ↦ if later t now then some t else some (record t { date = next_day t.date })
]
next_time now _ _ = none

-- "MMDDHHMM": this year, or the next one for a moment that has gone by
unfoldable pub next_date : Time → Option ℕ → Option ℕ → Option ℕ → Option ℕ → Option Time
unfolding later moment
next_date now (some m) (some d) (some h) (some minute) = elim (moment now.date.year m d h minute) [
  | none ↦ none
  | some t ↦ if later t now then some t else moment (now.date.year + 1) m d h minute
]
next_date now _ _ _ _ = none

unfoldable pub full_date : Option ℕ → Option ℕ → Option ℕ → Option ℕ → Option ℕ → Option Time
unfolding moment
full_date (some y) (some m) (some d) (some h) (some minute) = moment y m d h minute
full_date _ _ _ _ _ = none

-- The three lengths that are read
unfoldable pub read_moment : Unicode → Time → Text → Option Time
unfolding next_time next_date full_date to_int
read_moment u now (a ∷ b ∷ c ∷ d ∷ []) = next_time now (two u a b) (two u c d)
read_moment u now (a ∷ b ∷ c ∷ d ∷ e ∷ f ∷ g ∷ h ∷ []) =
    next_date now (two u a b) (two u c d) (two u e f) (two u g h)
read_moment u now (a ∷ b ∷ c ∷ d ∷ e ∷ f ∷ g ∷ h ∷ i ∷ j ∷ k ∷ l ∷ []) =
    full_date (to_int u (a ∷ b ∷ c ∷ d ∷ [])) (two u e f) (two u g h) (two u i j) (two u k l)
read_moment u now _ = none

unfoldable pub parse_start_time : Unicode → Time → Text → Option Time
unfolding only_digits read_moment all_digits
parse_start_time u now text =
    let digits = only_digits u text in
    if all_digits u digits then read_moment u now digits else none
