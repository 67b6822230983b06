-- ===== src/Validators/Bounds.antt =====
-- What an accepted time, number of passengers or numbered choice is.
use korail_ktx_macro_telegra.Common.{
  ℕ, ◌≤◌, Bool, true, false, not, Option, none, some, List, ◌≡◌, refl, arith, if◌then◌else◌,
}
use korail_ktx_macro_telegra.Text.{Text, Unicode, is_empty, strip, all_digits, to_int, one_of}
use korail_ktx_macro_telegra.Validators.{Reason}
use korail_ktx_macro_telegra.Validators.Choices.{
  one_to_four, choice_reason, count_reason, passengers_reason, validate_passenger_count,
  validate_special_option_choice,
}

refused :
    (b : Bool) (why : Reason) (rest : Option Reason)
    → (if b then some why else rest) ≡ none
    → (b ≡ false) × (rest ≡ none)
refused true why rest e = absurd (ground arith)
refused false why rest e = (refl, e)

count_range : (o : Option ℕ) → count_reason o ≡ none → (n : ℕ) × (o ≡ some n) × (1 ≤ n) × (n ≤ 9)
unfolding count_reason
count_range none e = absurd (ground arith)
count_range (some n) e = (n, refl, ground arith, ground arith)

-- An accepted number of passengers is read as a number from 1 to 9.
pub validate_passenger_count_lem :
    (u : Unicode) (s : Text)
    → validate_passenger_count u s ≡ none
    → (n : ℕ) × (to_int u (strip u s) ≡ some n) × (1 ≤ n) × (n ≤ 9)
unfolding validate_passenger_count passengers_reason
validate_passenger_count_lem u s e =
    let a = refused (is_empty s) _ _ e in
    let b = refused (is_empty (strip u s)) _ _ a.1 in
    let c = refused (not (all_digits u (strip u s))) _ _ b.1 in
    count_range (to_int u (strip u s)) c.1

-- A choice that was accepted is one of the choices offered.
choice_offered :
    (u : Unicode) (choices : List Text) (s : Text)
    → choice_reason u choices s ≡ none
    → one_of s choices ≡ true
unfolding choice_reason
choice_offered u choices s e = ground arith

pub special_option_offered :
    (u : Unicode) (s : Text)
    → validate_special_option_choice u s ≡ none
    → one_of (strip u s) one_to_four ≡ true
unfolding validate_special_option_choice
special_option_offered u s e =
    choice_offered u one_to_four (strip u s) (refused (is_empty s) _ _ e).1
