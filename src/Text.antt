-- ===== src/Text.antt =====
-- Texts of the source: a text is the list of its code points. What Python's own tables say of a
-- character is a parameter, `Unicode`; the str methods that the validators call stand here.
mod Tests
pub mod Strip
pub mod Samples
use korail_ktx_macro_telegra.Common.{
  ℕ, ◌+◌, ◌*◌, ◌-◌, ◌≤◌, Bool, true, false, ◌&&◌, ◌||◌, Option, none, some, List, [], ◌∷◌, ◌≡◌, leb,
  ltb, ◌==◌, if◌then◌else◌, ◌≤◌,
}

abbrev pub Text : Type 0
Text = List ℕ

-- str.isdigit, the digit that int() reads (none where int() raises), str.isspace, str.isalnum,
-- str.upper and str.lower.
pub record Unicode : Type 0 where
  pub is_digit : ℕ → Bool
  pub digit : ℕ → Option ℕ
  pub is_space : ℕ → Bool
  pub is_alnum : ℕ → Bool
  pub upper : Text → Text
  pub lower : Text → Text

-- What the documentation of Python says of these tables.
pub record IsUnicode (u : Unicode) : Type 0 where
  pub digit_below : (c d : ℕ) → u.digit c ≡ some d → d ≤ 9
  pub ascii_digit : (d : ℕ) → d ≤ 9 → u.is_digit (48 + d) ≡ true
  pub ascii_value : (d : ℕ) → d ≤ 9 → u.digit (48 + d) ≡ some d
  pub digit_no_space : (c : ℕ) → u.is_digit c ≡ true → u.is_space c ≡ false
  pub hyphen_no_space : u.is_space 45 ≡ false
  pub mark_no_digit :
      (c : ℕ)
      → ((c == 46) || (c == 45) || (c == 40) || (c == 41) || (c == 43)) ≡ true
      → u.is_digit c ≡ false

abbrev pub is_empty : Text → Bool
is_empty [] = true
is_empty (_ ∷ _) = false

-- `s in [...]` for a list of texts
abbrev pub same : Text → Text → Bool
same [] [] = true
same [] (_ ∷ _) = false
same (_ ∷ _) [] = false
same (a ∷ s) (b ∷ t) = (a == b) && same s t

abbrev pub one_of : Text → List Text → Bool
one_of s [] = false
one_of s (t ∷ ts) = if same s t then true else one_of s ts

-- `all(p(c) for c in s)`
abbrev pub all : (ℕ → Bool) → Text → Bool
all p [] = true
all p (c ∷ s) = p c && all p s

unfoldable pub trim_start : (ℕ → Bool) → Text → Text
trim_start sp [] = []
trim_start sp (c ∷ s) = if sp c then trim_start sp s else c ∷ s

unfoldable pub trim_end : (ℕ → Bool) → Text → Text
trim_end sp [] = []
trim_end sp (c ∷ s) = let rest = trim_end sp s in if is_empty rest && sp c then [] else c ∷ rest

-- str.strip
unfoldable pub strip : Unicode → Text → Text
unfolding trim_start trim_end
strip u s = trim_end u.is_space (trim_start u.is_space s)

-- str.isdigit, which is false for the empty text
unfoldable pub all_digits : Unicode → Text → Bool
all_digits u [] = false
all_digits u (c ∷ s) = u.is_digit c && all u.is_digit s

-- int(s) after the digits read so far; none where int raises ValueError
unfoldable pub read : Unicode → ℕ → Text → Option ℕ
read u n [] = some n
read u n (c ∷ s) = elim (u.digit c) [ none ↦ none | some d ↦ read u (n * 10 + d) s ]

unfoldable pub to_int : Unicode → Text → Option ℕ
unfolding read
to_int u [] = none
to_int u (c ∷ s) = read u 0 (c ∷ s)

-- `s < t`
unfoldable pub before : Text → Text → Bool
before s [] = false
before [] (_ ∷ _) = true
before (a ∷ s) (b ∷ t) = if a == b then before s t else ltb a b
