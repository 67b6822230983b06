-- ===== src/Validators/Calendar.antt =====
-- Which dates are accepted.
use korail_ktx_macro_telegra.Common.{
  ℕ, zero, suc, ◌+◌, ◌-◌, ◌*◌, ◌/◌, ◌%◌, ◌≤◌, ◌<◌, true, false, Option, none, some, [], ◌∷◌, ◌≡◌,
  ◌↔◌, refl, sym, ◌∙◌, ap, arith, ltb, ◌==◌, if◌then◌else◌, length, All, inl, inr, Bool-cases,
}
use korail_ktx_macro_telegra.Text.{
  Text, Unicode, IsUnicode, is_empty, strip, all_digits, read, to_int, before,
}
use korail_ktx_macro_telegra.Text.Strip.{strip_id}
use korail_ktx_macro_telegra.Validators.{Reason}
use korail_ktx_macro_telegra.Validators.Date.{
  Day, days_in, is_real, next_day, add_days, digit_of, written, read_day, day_with, day_reason,
  window_reason, date_reason, validate_date, first_reason,
}

-- The number of a day whose digits are those of its text
abbrev pub number : Day → ℕ
number d = d.year * 10000 + d.month * 100 + d.day

abbrev IsWritable : Day → Type 0
IsWritable d = (d.year < 10000) × (d.month < 100) × (d.day < 100)

-- The number that the digits of a text make after those of `n`
abbrev value : ℕ → Text → ℕ
value n [] = n
value n (c ∷ s) = value (n * 10 + (c - 48)) s

abbrev IsDigits : Text → Type 0
IsDigits s = All (λ c. (48 ≤ c) × (c ≤ 57)) s

value-less :
    (s t : Text) (n m : ℕ)
    → IsDigits s
    → IsDigits t
    → length s ≡ length t
    → n < m
    → value n s < value m t
value-less [] [] n m hs ht l less = less
value-less [] (d ∷ t) n m hs ht l less = absurd (omega arith)
value-less (c ∷ s) [] n m hs ht l less = absurd (omega arith)
value-less (c ∷ s) (d ∷ t) n m hs ht l less =
    let a = hs.0 in
    let b = ht.0 in
    value-less s t (n * 10 + (c - 48)) (m * 10 + (d - 48)) hs.1 ht.1 (omega arith) (omega arith)

-- Texts of digits of one length are ordered as their numbers.
before-value :
    (s t : Text) (n : ℕ)
    → IsDigits s
    → IsDigits t
    → length s ≡ length t
    → before s t ≡ ltb (value n s) (value n t)
unfolding before
before-value [] [] n hs ht l = ground arith
before-value [] (d ∷ t) n hs ht l = absurd (omega arith)
before-value (c ∷ s) [] n hs ht l = absurd (omega arith)
before-value (c ∷ s) (d ∷ t) n hs ht l = elim (Bool-cases (c == d)) [
  | inl e ↦
      let k : c ≡ d = ground arith in
      rw (e, sym k) (before-value s t (n * 10 + (c - 48)) hs.1 ht.1 (omega arith))
  | inr e ↦ elim (Bool-cases (ltb c d)) [
    | inl f ↦
        let a = hs.0 in
        let b = ht.0 in
        let k =
          value-less s t (n * 10 + (c - 48)) (n * 10 + (d - 48)) hs.1 ht.1 (omega arith)
            (ground arith) in
        rw (e, f) (ground arith)
    | inr f ↦
        let a = hs.0 in
        let b = ht.0 in
        let k =
          value-less t s (n * 10 + (d - 48)) (n * 10 + (c - 48)) ht.1 hs.1 (omega arith)
            (ground arith) in
        rw (e, f) (ground arith)
  ]
]

digit_range : (n : ℕ) → (48 ≤ digit_of n) × (digit_of n ≤ 57)
unfolding digit_of
digit_range n = (omega arith, omega arith)

digit_value : (n : ℕ) → digit_of n - 48 ≡ n % 10
unfolding digit_of
digit_value n = omega arith

IsDigits-written : (d : Day) → IsDigits (written d)
unfolding written
IsDigits-written d = (
  digit_range (d.year / 1000),
  (
    digit_range (d.year / 100),
    (
      digit_range (d.year / 10),
      (
        digit_range (d.year),
        (
          digit_range (d.month / 10),
          (digit_range (d.month), (digit_range (d.day / 10), (digit_range (d.day), tt))),
        ),
      ),
    ),
  ),
)

value-written : (d : Day) → IsWritable d → value 0 (written d) ≡ number d
unfolding written
value-written d h =
    rw
      (
        digit_value (d.year / 1000),
        digit_value (d.year / 100),
        digit_value (d.year / 10),
        digit_value (d.year),
        digit_value (d.month / 10),
        digit_value (d.month),
        digit_value (d.day / 10),
        digit_value (d.day),
      )
      (omega (arith, h.0, h.1))

before-written :
    (d e : Day)
    → IsWritable d
    → IsWritable e
    → before (written d) (written e) ≡ ltb (number d) (number e)
unfolding written
before-written d e hd he =
    before-value (written d) (written e) 0 (IsDigits-written d) (IsDigits-written e) refl
    ∙ rw (value-written d hd, value-written e he) refl

read-digit :
    (u : Unicode)
    → IsUnicode u
    → (n k : ℕ) (s : Text) → read u n (digit_of k ∷ s) ≡ read u (n * 10 + k % 10) s
unfolding read digit_of
read-digit u h n k s = rw (digit_of, h.ascii_value (k % 10) (omega arith), read)

is_digit-digit : (u : Unicode) → IsUnicode u → (k : ℕ) → u.is_digit (digit_of k) ≡ true
unfolding digit_of
is_digit-digit u h k = h.ascii_digit (k % 10) (omega arith)

day_with_parts :
    (y m n : ℕ) (d : Day)
    → y ≡ d.year
    → m ≡ d.month
    → n ≡ d.day
    → day_with (some y) (some m) (some n) ≡ some d
unfolding day_with
day_with_parts y m n d a b c = rw (a, b, c)

-- The numbers read from the text of a day are those of the day.
read_day-written :
    (u : Unicode) → IsUnicode u → (d : Day) → IsWritable d → read_day u (written d) ≡ some d
unfolding read read_day to_int written
read_day-written u h d w =
    rw
      (
        read-digit u h 0 (d.year / 1000),
        read-digit u h _ (d.year / 100),
        read-digit u h _ (d.year / 10),
        read-digit u h _ d.year,
        read-digit u h 0 (d.month / 10),
        read-digit u h _ d.month,
        read-digit u h 0 (d.day / 10),
        read-digit u h _ d.day,
      )
      (day_with_parts _ _ _ d (omega (arith, w.0)) (omega (arith, w.1)) (omega (arith, w.1)))

all_digits-written : (u : Unicode) → IsUnicode u → (d : Day) → all_digits u (written d) ≡ true
unfolding all_digits written
all_digits-written u h d = rw (
  is_digit-digit u h (d.year / 1000),
  is_digit-digit u h (d.year / 100),
  is_digit-digit u h (d.year / 10),
  is_digit-digit u h d.year,
  is_digit-digit u h (d.month / 10),
  is_digit-digit u h d.month,
  is_digit-digit u h (d.day / 10),
  is_digit-digit u h d.day,
)

strip-written : (u : Unicode) → IsUnicode u → (d : Day) → strip u (written d) ≡ written d
unfolding written
strip-written u h d =
    let no_space = (λ (k : ℕ). h.digit_no_space (digit_of k) (is_digit-digit u h k)) in
    strip_id u (written d) (
      no_space (d.year / 1000),
      (
        no_space (d.year / 100),
        (
          no_space (d.year / 10),
          (
            no_space (d.year),
            (
              no_space (d.month / 10),
              (no_space (d.month), (no_space (d.day / 10), (no_space (d.day), tt))),
            ),
          ),
        ),
      ),
    )

next_day-IsReal : (d : Day) → is_real d ≡ true → is_real (next_day d) ≡ true
unfolding is_real next_day days_in
next_day-IsReal d h = ground arith

add_days-is_real : (n : ℕ) (d : Day) → is_real d ≡ true → is_real (add_days n d) ≡ true
unfolding add_days
add_days-is_real zero d h = h
add_days-is_real (suc n) d h = add_days-is_real n (next_day d) (next_day-IsReal d h)

year-next_day : (d : Day) → (next_day d).year ≤ d.year + 1
unfolding next_day
year-next_day d = ground arith

year-add_days : (n : ℕ) (d : Day) → (add_days n d).year ≤ d.year + n
unfolding add_days
year-add_days zero d = omega arith
year-add_days (suc n) d = omega (arith, year-add_days n (next_day d), year-next_day d)

real-IsWritable : (d : Day) → is_real d ≡ true → d.year < 10000 → IsWritable d
unfolding is_real days_in
real-IsWritable d h y = ground arith

real-range :
    (d : Day) → is_real d ≡ true → (1 ≤ d.month) × (d.month ≤ 12) × (1 ≤ d.day) × (d.day ≤ 31)
unfolding is_real days_in
real-range d h = ground arith

day_reason_lem :
    (d : Day)
    → (day_reason (some d) ≡ none) ↔ ((is_real d ≡ true) × (2020 ≤ d.year) × (d.year ≤ 2100))
unfolding day_reason
day_reason_lem d = ground (arith, real-range d)

in_window :
    (n from to : ℕ) (early late : Reason)
    → ((if ltb n from then some early else if ltb to n then some late else none) ≡ none)
      ↔ ((from ≤ n) × (n ≤ to))
in_window n from to early late = ground arith

window_reason_lem :
    (today d : Day)
    → IsWritable today
    → IsWritable (add_days 365 today)
    → IsWritable d
    → (window_reason today (written d) ≡ none)
      ↔ ((number today ≤ number d) × (number d ≤ number (add_days 365 today)))
unfolding window_reason
window_reason_lem today d wt wl w =
    rw (before-written d today w wt, before-written (add_days 365 today) d wl w)
      (in_window (number d) (number today) (number (add_days 365 today)) _ _)

both_none :
    (why rest : Option Reason) → (first_reason why rest ≡ none) ↔ ((why ≡ none) × (rest ≡ none))
unfolding first_reason
both_none none rest = ((λ e. (refl, e)), (λ e. e.1))
both_none (some r) rest = ((λ e. absurd (ground arith)), (λ e. absurd (ground arith)))

reason_of_digits :
    (u : Unicode) (today : Day) (s : Text)
    → is_empty s ≡ false
    → all_digits u s ≡ true
    → length s ≡ 8
    → date_reason u today s ≡ first_reason (day_reason (read_day u s)) (window_reason today s)
unfolding date_reason
reason_of_digits u today s a b c = rw (a, b, c)

date_reason-written :
    (u : Unicode)
    → IsUnicode u
    → (today d : Day) → IsWritable d
    → date_reason u today (written d)
      ≡ first_reason (day_reason (some d)) (window_reason today (written d))
unfolding written
date_reason-written u h today d w =
    reason_of_digits u today (written d) refl (all_digits-written u h d) refl
    ∙ ap (λ o. first_reason (day_reason o) (window_reason today (written d)))
        (read_day-written u h d w)

iff_along {ℓ} : {A : Type ℓ} {P : Type 0} (x y z : A) → x ≡ y → ((y ≡ z) ↔ P) → (x ≡ z) ↔ P
iff_along x y z e h = rw e h

-- A day is accepted as a date exactly when it exists, its year is from 2020 to 2100, and it is not
-- before today and at most 365 days after it. `today` exists, in a year before 9000.
pub validate_date_lem :
    (u : Unicode)
    → IsUnicode u
    → (today d : Day) → is_real today ≡ true
    → today.year < 9000
    → IsWritable d
    → (validate_date u today (written d) ≡ none) ↔ (
        (is_real d ≡ true)
        × (2020 ≤ d.year)
        × (d.year ≤ 2100)
        × (number today ≤ number d)
        × (number d ≤ number (add_days 365 today)))
unfolding validate_date written
validate_date_lem u h today d real year w =
    let last = add_days 365 today in
    let wt = real-IsWritable today real (omega (arith, year)) in
    let wl =
      real-IsWritable last (add_days-is_real 365 today real)
        (omega (arith, year, year-add_days 365 today)) in
    let a = day_reason_lem d in
    let b = window_reason_lem today d wt wl w in
    let k = both_none (day_reason (some d)) (window_reason today (written d)) in
    iff_along _ _ none
      (ap (date_reason u today) (strip-written u h d) ∙ date_reason-written u h today d w)
      (
        (λ e. let p = a.0 (k.0 e).0 in let q = b.0 (k.0 e).1 in (p.0, p.1, p.2, q.0, q.1)),
        (λ e. k.1 (a.1 (e.0, e.1, e.2), b.1 (e.3, e.4))),
      )
