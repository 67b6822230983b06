-- ===== src/Text/Strip.antt =====
-- What str.strip leaves alone.
use korail_ktx_macro_telegra.Common.{
  ℕ, Bool, true, false, ◌&&◌, [], ◌∷◌, ◌≡◌, refl, ◌∙◌, ap, inl, inr, arith, if◌then◌else◌, keep,
  All, Bool-cases,
}
use korail_ktx_macro_telegra.Text.{Text, Unicode, is_empty, trim_start, trim_end, strip}

keep-trim_start :
    (sp p : ℕ → Bool) (s : Text)
    → ((c : ℕ) → p c ≡ true → sp c ≡ false)
    → keep p (trim_start sp s) ≡ keep p s
unfolding trim_start
keep-trim_start sp p [] h = refl
keep-trim_start sp p (c ∷ s) h = ground (arith, h c, keep-trim_start sp p s h)

keep-trim_end :
    (sp p : ℕ → Bool) (s : Text)
    → ((c : ℕ) → p c ≡ true → sp c ≡ false)
    → keep p (trim_end sp s) ≡ keep p s
unfolding trim_end
keep-trim_end sp p [] h = refl
keep-trim_end sp p (c ∷ s) h =
    elim (trim_end sp s)
        as (λ r.
          keep p r ≡ keep p s
          → keep p (if is_empty r && sp c then [] else c ∷ r) ≡ keep p (c ∷ s)) [
            | [] ↦ λ e. ground (arith, h c)
            | d ∷ r ↦ λ e. ground arith
          ]
      (keep-trim_end sp p s h)

-- Characters that are no spaces are all kept.
pub keep-strip :
    (u : Unicode) (p : ℕ → Bool) (s : Text)
    → ((c : ℕ) → p c ≡ true → u.is_space c ≡ false)
    → keep p (strip u s) ≡ keep p s
unfolding strip
keep-strip u p s h =
    keep-trim_end u.is_space p (trim_start u.is_space s) h ∙ keep-trim_start u.is_space p s h

trim_end_id : (sp : ℕ → Bool) (s : Text) → All (λ c. sp c ≡ false) s → trim_end sp s ≡ s
unfolding trim_end
trim_end_id sp [] h = refl
trim_end_id sp (c ∷ s) h = rw (trim_end_id sp s h.1, h.0) (ground arith)

trim_start_id : (sp : ℕ → Bool) (s : Text) → All (λ c. sp c ≡ false) s → trim_start sp s ≡ s
unfolding trim_start
trim_start_id sp [] h = refl
trim_start_id sp (c ∷ s) h = rw h.0

pub strip_id : (u : Unicode) (s : Text) → All (λ c. u.is_space c ≡ false) s → strip u s ≡ s
unfolding strip
strip_id u s h =
    ap (trim_end u.is_space) (trim_start_id u.is_space s h) ∙ trim_end_id u.is_space s h

trim_end_kept :
    (sp : ℕ → Bool) (c : ℕ) (s : Text) → sp c ≡ false → trim_end sp (c ∷ s) ≡ c ∷ trim_end sp s
unfolding trim_end
trim_end_kept sp c s h = ground arith

trim_end_twice : (sp : ℕ → Bool) (s : Text) → trim_end sp (trim_end sp s) ≡ trim_end sp s
unfolding trim_end
trim_end_twice sp [] = refl
trim_end_twice sp (c ∷ s) =
    elim (trim_end sp s)
        as (λ r.
          trim_end sp r ≡ r
          → trim_end sp (if is_empty r && sp c then [] else c ∷ r)
            ≡ (if is_empty r && sp c then [] else c ∷ r)) [
              | [] ↦ λ e. elim (Bool-cases (sp c)) [ inl h ↦ rw h | inr h ↦ rw h rw h ]
              | d ∷ r ↦ λ e. rw e
            ]
      (trim_end_twice sp s)

trimmed_twice :
    (sp : ℕ → Bool) (s : Text)
    → trim_end sp (trim_start sp (trim_end sp (trim_start sp s))) ≡ trim_end sp (trim_start sp s)
unfolding trim_start trim_end
trimmed_twice sp [] = refl
trimmed_twice sp (c ∷ s) = elim (Bool-cases (sp c)) [
  | inl h ↦ rw h (trimmed_twice sp s)
  | inr h ↦
      rw (h, trim_end_kept sp c s h, h, trim_end_kept sp c (trim_end sp s) h, trim_end_twice sp s)
]

pub strip_twice : (u : Unicode) (s : Text) → strip u (strip u s) ≡ strip u s
unfolding strip
strip_twice u s = trimmed_twice u.is_space s
