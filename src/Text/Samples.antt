-- ===== src/Text/Samples.antt =====
-- Tables of characters for tests: the ASCII characters, and the wide digits ０ to ９.
use native.Mathlib.Omega.{arith}
use korail_ktx_macro_telegra.Common.{
  ◌&&◌, ◌-◌, ◌==◌, Option, arith, leb, none, refl, some, ◌||◌, ℕ, ◌∷◌, if◌then◌else◌, [],
}
use korail_ktx_macro_telegra.Text.{Text, Unicode, IsUnicode}

abbrev pub ascii_digit_of : ℕ → Option ℕ
ascii_digit_of c =
    if leb 48 c && leb c 57
    then some (c - 48)
    else if leb 65296 c && leb c 65305
    then some (c - 65296)
    else none

-- One letter at a time, the ASCII ones only
abbrev pub capital : Text → Text
capital [] = []
capital (c ∷ s) = (if leb 97 c && leb c 122 then c - 32 else c) ∷ capital s

abbrev pub ascii : Unicode
ascii = record {
  is_digit = λ c. (leb 48 c && leb c 57) || (leb 65296 c && leb c 65305);
  digit = ascii_digit_of;
  is_space = λ c. (leb 9 c && leb c 13) || (c == 32);
  is_alnum = λ c. (leb 48 c && leb c 57) || (leb 97 c && leb c 122) || leb 44032 c;
  upper = capital;
  lower = λ s. s;
}

pub ascii-IsUnicode : IsUnicode ascii
ascii-IsUnicode = record {
  digit_below = λ c d e. ground arith;
  ascii_digit = λ d h. ground arith;
  ascii_value = λ d h. ground arith;
  digit_no_space = λ c h. ground arith;
  hyphen_no_space = refl;
  mark_no_digit = λ c h. ground arith;
}
