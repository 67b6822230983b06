-- ===== src/Validators/PhoneForm.antt =====
-- The canonical form of a phone number.
use korail_ktx_macro_telegra.Common.{
  ℕ, ◌+◌, ◌-◌, Bool, true, false, ◌&&◌, Option, none, some, [], ◌∷◌, ◌++◌, ◌≡◌, ◌↔◌, refl, sym, ◌∙◌,
  ap, ◌⊎◌, inl, inr, arith, leb, ◌==◌, if◌then◌else◌, is_some, keep, All, All-map, All-append,
  Bool-cases, some_inj,
}
use korail_ktx_macro_telegra.Text.{Text, Unicode, IsUnicode, is_empty, all, strip}
use korail_ktx_macro_telegra.Text.Strip.{keep-strip, strip_id, strip_twice}
use korail_ktx_macro_telegra.Validators.Phone.{
  is_phone_character, is_phone_text, hyphenated, normalize_phone_number, validate_phone_number,
}

abbrev IsAscii : ℕ → Type 0
IsAscii c = (leb 48 c && leb c 57) ≡ true

-- A digit or a hyphen
abbrev IsMark : ℕ → Type 0
IsMark c = IsAscii c ⊎ (c ≡ 45)

ascii_is_digit : (u : Unicode) → IsUnicode u → (c : ℕ) → IsAscii c → u.is_digit c ≡ true
ascii_is_digit u h c a =
    let k : 48 + (c - 48) ≡ c = ground arith in
    ap u.is_digit (sym k) ∙ h.ascii_digit (c - 48) (ground arith)

mark_no_space : (u : Unicode) → IsUnicode u → (c : ℕ) → IsMark c → u.is_space c ≡ false
mark_no_space u h c (inl a) = h.digit_no_space c (ascii_is_digit u h c a)
mark_no_space u h c (inr e) = ap u.is_space e ∙ h.hyphen_no_space

all-true : (p : ℕ → Bool) (s : Text) → All (λ c. p c ≡ true) s → all p s ≡ true
all-true p [] h = refl
all-true p (c ∷ s) h = rw (h.0, all-true p s h.1)

true-all : (p : ℕ → Bool) (s : Text) → all p s ≡ true → All (λ c. p c ≡ true) s
true-all p [] h = tt
true-all p (c ∷ s) h = elim (Bool-cases (p c)) [
  | inl e ↦ (e, true-all p s (rw e at h))
  | inr e ↦ absurd (ground arith)
]

mark_character : (u : Unicode) (c : ℕ) → IsMark c → is_phone_character u c ≡ true
unfolding is_phone_character
mark_character u c (inl a) = rw a
mark_character u c (inr e) = rw e (ground arith)

-- A digit among the characters that a number may be typed with is an ASCII digit.
character_digit :
    (u : Unicode)
    → IsUnicode u
    → (c : ℕ) → is_phone_character u c ≡ true
    → u.is_digit c ≡ true
    → IsAscii c
unfolding is_phone_character
character_digit u h c p d = ground (arith, h.digit_no_space c, h.mark_no_digit c)

keep-IsAscii :
    (u : Unicode)
    → IsUnicode u
    → (s : Text) → All (λ c. is_phone_character u c ≡ true) s
    → All IsAscii (keep u.is_digit s)
keep-IsAscii u h [] p = tt
keep-IsAscii u h (c ∷ s) p = elim (Bool-cases (u.is_digit c)) [
  | inl e ↦ rw e (character_digit u h c p.0 e, keep-IsAscii u h s p.1)
  | inr e ↦ rw e (keep-IsAscii u h s p.1)
]

keep_all : (u : Unicode) → IsUnicode u → (s : Text) → All IsAscii s → keep u.is_digit s ≡ s
keep_all u h [] a = refl
keep_all u h (c ∷ s) a = rw (ascii_is_digit u h c a.0, keep_all u h s a.1)

-- A hyphen after digits is dropped.
keep_group :
    (u : Unicode)
    → IsUnicode u
    → (s t : Text) → All IsAscii s
    → keep u.is_digit (s ++ 45 ∷ t) ≡ s ++ keep u.is_digit t
keep_group u h [] t a = rw (h.mark_no_digit 45 (ground arith))
keep_group u h (c ∷ s) t a = rw (ascii_is_digit u h c a.0, keep_group u h s t a.1)

abbrev grouped : Text → Text → Text → Text
grouped a b c = a ++ 45 ∷ (b ++ 45 ∷ c)

grouped-IsMark :
    (a b c : Text) → All IsAscii a → All IsAscii b → All IsAscii c → All IsMark (grouped a b c)
grouped-IsMark a b c ha hb hc =
    let marks = (λ (s : Text) (p : All IsAscii s). All-map IsAscii IsMark s (λ _ q. inl q) p) in
    All-append IsMark a (45 ∷ (b ++ 45 ∷ c)) (marks a ha)
      (inr refl, All-append IsMark b (45 ∷ c) (marks b hb) (inr refl, marks c hc))

keep-grouped :
    (u : Unicode)
    → IsUnicode u
    → (a b c : Text) → All IsAscii a
    → All IsAscii b
    → All IsAscii c
    → keep u.is_digit (grouped a b c) ≡ a ++ (b ++ c)
keep-grouped u h a b c ha hb hc =
    rw (keep_group u h a (b ++ 45 ∷ c) ha, keep_group u h b c hb, keep_all u h c hc)

-- A nonempty text of digits and hyphens is normalised to the groups of its digits.
normalize-marks :
    (u : Unicode)
    → IsUnicode u
    → (s : Text) → is_empty s ≡ false
    → All IsMark s
    → normalize_phone_number u s ≡ hyphenated (keep u.is_digit s)
unfolding normalize_phone_number is_phone_text
normalize-marks u h s e m = rw (
  e,
  strip_id u s (All-map IsMark (λ c. u.is_space c ≡ false) s (mark_no_space u h) m),
  e,
  all-true (is_phone_character u) s (All-map IsMark _ s (mark_character u) m),
)

-- Three groups of digits are normalised to the groups of their digits.
normalize-grouped :
    (u : Unicode)
    → IsUnicode u
    → (a b c : Text) → All IsAscii a
    → All IsAscii b
    → All IsAscii c
    → is_empty (grouped a b c) ≡ false
    → normalize_phone_number u (grouped a b c) ≡ hyphenated (a ++ (b ++ c))
normalize-grouped u h a b c ha hb hc e =
    normalize-marks u h (grouped a b c) e (grouped-IsMark a b c ha hb hc)
    ∙ ap hyphenated (keep-grouped u h a b c ha hb hc)

-- A guarded result that is there is the guarded value.
given {ℓ} :
    {A : Type ℓ} (b : Bool) (x q : A) → (if b then some x else none) ≡ some q → (b ≡ true) × (x ≡ q)
given true x q e = (refl, some_inj e)
given false x q e = absurd (ground arith)

-- What `hyphenated` returns is normalised to itself.
hyphenated_again :
    (u : Unicode)
    → IsUnicode u
    → (s q : Text) → All IsAscii s
    → hyphenated s ≡ some q
    → normalize_phone_number u q ≡ some q
unfolding hyphenated
hyphenated_again u h [] q l e = absurd (ground arith)
hyphenated_again u h (a ∷ []) q l e = absurd (ground arith)
hyphenated_again u h (a ∷ b ∷ []) q l e = absurd (ground arith)
hyphenated_again u h (a ∷ b ∷ c ∷ []) q l e = absurd (ground arith)
hyphenated_again u h (a ∷ b ∷ c ∷ d ∷ []) q l e = absurd (ground arith)
hyphenated_again u h (a ∷ b ∷ c ∷ d ∷ f ∷ []) q l e = absurd (ground arith)
hyphenated_again u h (a ∷ b ∷ c ∷ d ∷ f ∷ g ∷ []) q l e = absurd (ground arith)
hyphenated_again u h (a ∷ b ∷ c ∷ d ∷ f ∷ g ∷ i ∷ []) q l e = absurd (ground arith)
hyphenated_again u h (a ∷ b ∷ c ∷ d ∷ f ∷ g ∷ i ∷ j ∷ []) q l e = absurd (ground arith)
hyphenated_again u h (a ∷ b ∷ c ∷ d ∷ f ∷ g ∷ i ∷ j ∷ k ∷ []) q l e = absurd (ground arith)
hyphenated_again u h (a ∷ b ∷ c ∷ d ∷ f ∷ g ∷ i ∷ j ∷ k ∷ m ∷ []) q l e =
    let z =
      given ((a == 48) && (b == 49))
        (grouped (a ∷ b ∷ c ∷ []) (d ∷ f ∷ g ∷ []) (i ∷ j ∷ k ∷ m ∷ [])) q e in
    rw (sym z.1) (
      normalize-grouped u h (a ∷ b ∷ c ∷ []) (d ∷ f ∷ g ∷ []) (i ∷ j ∷ k ∷ m ∷ [])
        (l.0, (l.1.0, (l.1.1.0, tt))) (l.1.1.1.0, (l.1.1.1.1.0, (l.1.1.1.1.1.0, tt)))
        (l.1.1.1.1.1.1.0, (l.1.1.1.1.1.1.1.0, (l.1.1.1.1.1.1.1.1.0, (l.1.1.1.1.1.1.1.1.1.0, tt))))
        refl
      ∙ rw z.0)
hyphenated_again u h (a ∷ b ∷ c ∷ d ∷ f ∷ g ∷ i ∷ j ∷ k ∷ m ∷ n ∷ []) q l e =
    let z =
      given ((a == 48) && (b == 49))
        (grouped (a ∷ b ∷ c ∷ []) (d ∷ f ∷ g ∷ i ∷ []) (j ∷ k ∷ m ∷ n ∷ [])) q e in
    rw (sym z.1) (
      normalize-grouped u h (a ∷ b ∷ c ∷ []) (d ∷ f ∷ g ∷ i ∷ []) (j ∷ k ∷ m ∷ n ∷ [])
        (l.0, (l.1.0, (l.1.1.0, tt)))
        (l.1.1.1.0, (l.1.1.1.1.0, (l.1.1.1.1.1.0, (l.1.1.1.1.1.1.0, tt))))
        (
          l.1.1.1.1.1.1.1.0,
          (l.1.1.1.1.1.1.1.1.0, (l.1.1.1.1.1.1.1.1.1.0, (l.1.1.1.1.1.1.1.1.1.1.0, tt))),
        )
        refl
      ∙ rw z.0)
hyphenated_again u h (a ∷ b ∷ c ∷ d ∷ f ∷ g ∷ i ∷ j ∷ k ∷ m ∷ n ∷ o ∷ p) q l e =
    absurd (ground arith)

given_twice {ℓ} :
    {A : Type ℓ} (b c : Bool) (x : Option A) (q : A)
    → (if b then none else if c then x else none) ≡ some q
    → (c ≡ true) × (x ≡ some q)
given_twice true c x q e = absurd (ground arith)
given_twice false true x q e = (refl, e)
given_twice false false x q e = absurd (ground arith)

and-right : (b c : Bool) → (b && c) ≡ true → c ≡ true
and-right true c h = h
and-right false c h = absurd (ground arith)

normalize-strip :
    (u : Unicode)
    → IsUnicode u
    → (phone : Text) → normalize_phone_number u (strip u phone) ≡ normalize_phone_number u phone
unfolding normalize_phone_number is_phone_text
normalize-strip u h [] = ap (normalize_phone_number u) (strip_id u [] tt)
normalize-strip u h (c ∷ s) =
    rw (strip_twice u (c ∷ s), keep-strip u u.is_digit (c ∷ s) h.digit_no_space) (ground arith)

-- A number that was normalised is in the form that normalising leaves alone.
pub normalize-idempotent :
    (u : Unicode)
    → IsUnicode u
    → (phone q : Text) → normalize_phone_number u phone ≡ some q
    → normalize_phone_number u q ≡ some q
unfolding normalize_phone_number is_phone_text
normalize-idempotent u h phone q e =
    let typed = strip u phone in
    let z = given_twice (is_empty phone) (is_phone_text u typed) _ q e in
    let marks = true-all (is_phone_character u) typed (and-right _ _ z.0) in
    let kept = keep-strip u u.is_digit phone h.digit_no_space in
    hyphenated_again u h (keep u.is_digit phone) q (rw (sym kept) (keep-IsAscii u h typed marks))
      z.1

-- A number is accepted exactly when it can be normalised.
pub validate_phone-normalize :
    (u : Unicode)
    → IsUnicode u
    → (phone : Text)
    → (validate_phone_number u phone ≡ none) ↔ (is_some (normalize_phone_number u phone) ≡ true)
unfolding validate_phone_number normalize_phone_number is_phone_text
validate_phone-normalize u h phone = rw (normalize-strip u h phone) (ground arith)
