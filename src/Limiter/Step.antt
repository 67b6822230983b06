-- ===== src/Limiter/Step.antt =====
-- One call of the limiter: what is dropped from a deque, and what a call leaves in it while fewer
-- callers are on record than the limit.
use korail_ktx_macro_telegra.Common.{
  ℕ, ◌+◌, suc, ◌≤◌, ◌<◌, ◌≡◌, refl, Bool, some, List, [], ◌∷◌, ◌++◌, arith, ltb, ◌==◌,
  if◌then◌else◌, length, All, count_if,
}
use korail_ktx_macro_telegra.Common.Dict.{Dict, lookup, insert, lookup-insert}
use korail_ktx_macro_telegra.Limiter.{RateLimiter, drop_old, recent, tidied, allow}

module _ (window : ℕ) where
  pub drop_old-drop_old :
      {c t : ℕ} (l : List ℕ) → c ≤ t → drop_old window t (drop_old window c l) ≡ drop_old window t l
  unfolding drop_old
  drop_old-drop_old [] h = refl
  drop_old-drop_old (x ∷ l) h = ground (arith, drop_old-drop_old l h)

  pub drop_old-append :
      {c t : ℕ} (l : List ℕ)
      → c ≤ t
      → drop_old window t (drop_old window c l ++ c ∷ []) ≡ drop_old window t (l ++ c ∷ [])
  unfolding drop_old
  drop_old-append [] h = refl
  drop_old-append (x ∷ l) h = ground (arith, drop_old-append l h)

-- The times rise, from `lo` on.
abbrev pub Ascending : ℕ → List ℕ → Type 0
Ascending lo [] = Unit
Ascending lo (h ∷ hs) = (lo ≤ h) × Ascending h hs

pub Ascending-append :
    (lo c : ℕ) (l : List ℕ)
    → Ascending lo l
    → lo ≤ c
    → All (λ h. h ≤ c) l
    → Ascending lo (l ++ c ∷ [])
Ascending-append lo c [] a h b = (h, tt)
Ascending-append lo c (x ∷ l) a h b = (a.0, Ascending-append x c l a.1 b.0 b.1)

-- In the window that ends at `t`.
abbrev pub in_window : ℕ → ℕ → ℕ → Bool
in_window window t h = ltb t (h + window)

module _ (window t : ℕ) where
  pub count_all :
      (lo : ℕ) (l : List ℕ)
      → Ascending lo l
      → t < lo + window
      → count_if (in_window window t) l ≡ length l
  count_all lo [] a h = refl
  count_all lo (x ∷ l) a h = ground (arith, count_all x l a.1)

  pub length-drop_old :
      (lo : ℕ) (l : List ℕ)
      → Ascending lo l
      → length (drop_old window t l) ≡ count_if (in_window window t) l
  unfolding drop_old
  length-drop_old lo [] a = refl
  length-drop_old lo (x ∷ l) a = ground (arith, length-drop_old x l a.1, count_all x l a.1)

pub length-insert :
    (key : ℕ) (v : List ℕ) (d : Dict (List ℕ)) → length (insert key v d) ≤ suc (length d)
unfolding insert
length-insert key v [] = omega arith
length-insert key v (e ∷ d) = ground (arith, length-insert key v d)

pub tidied_uncrowded :
    (k c : ℕ) (r : RateLimiter)
    → length r.hits < r.limit
    → tidied k c r ≡ insert k (recent k c r) r.hits
tidied_uncrowded k c r few = unfold tidied in ground (arith, length-insert k (recent k c r) r.hits)

module _ (k c : ℕ) (r : RateLimiter) where
  pub granted-allow : (allow k c r).0 ≡ ltb (length (recent k c r)) r.limit
  unfolding allow
  granted-allow = ground arith

  pub window-allow : (allow k c r).1.window ≡ r.window
  unfolding allow
  window-allow = ground arith

  pub limit-allow : (allow k c r).1.limit ≡ r.limit
  unfolding allow
  limit-allow = ground arith

  pub lookup-allow :
      (j : ℕ)
      → length r.hits < r.limit
      → lookup j (allow k c r).1.hits ≡ (
          if k == j
          then some (if (allow k c r).0 then recent k c r ++ c ∷ [] else recent k c r)
          else lookup j r.hits)
  lookup-allow j few =
      unfold allow in
      rw (tidied_uncrowded k c r few) (
        ground (
          arith,
          lookup-insert k j (recent k c r) r.hits,
          lookup-insert k k (recent k c r) r.hits,
          lookup-insert k j (recent k c r ++ c ∷ []) (insert k (recent k c r) r.hits),
        ))

pub recent-some :
    (key t : ℕ) (r : RateLimiter) (hs : List ℕ)
    → lookup key r.hits ≡ some hs
    → recent key t r ≡ drop_old r.window t hs
unfolding recent
recent-some key t r hs e = ground arith

pub recent_same :
    (key t : ℕ) (r r' : RateLimiter)
    → lookup key r'.hits ≡ lookup key r.hits
    → r'.window ≡ r.window
    → recent key t r' ≡ recent key t r
unfolding recent
recent_same key t r r' e w = ground arith

pub length-drop_old_le : (window t : ℕ) (l : List ℕ) → length (drop_old window t l) ≤ length l
unfolding drop_old
length-drop_old_le window t [] = omega arith
length-drop_old_le window t (x ∷ l) = ground (arith, length-drop_old_le window t l)
