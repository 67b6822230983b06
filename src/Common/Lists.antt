-- ===== src/Common/Lists.antt =====
-- Lists measured by native numbers, predicates on all entries, and Python's stable `sorted`.
use Prim.Native.Nat.{ℕ, suc, ◌+◌}
use mathlib.Core.Path.{◌≡◌, refl, sym, ◌∙◌}
use mathlib.Core.Logic.{◌⊎◌, inl, inr}
use mathlib.Core.Logic.Or
use mathlib.Core.Bool.{Bool, true, false, false≢true}
use mathlib.Core.List.{List, [], ◌∷◌, ◌++◌, Mem, mem-cons, map}
use native.Mathlib.Omega.{arith}
use korail_ktx_macro_telegra.Common.Tests.{leb, if◌then◌else◌, Bool-cases}

module _ {ℓ} {A : Type ℓ} where
  abbrev pub length : List A → ℕ
  length [] = 0
  length (x ∷ xs) = suc (length xs)

  -- `sum(1 for x in xs if p(x))`
  abbrev pub count_if : (A → Bool) → List A → ℕ
  count_if p [] = 0
  count_if p (x ∷ xs) = (if p x then 1 else 0) + count_if p xs

  -- `any(p(x) for x in xs)`
  abbrev pub any : (A → Bool) → List A → Bool
  any p [] = false
  any p (x ∷ xs) = if p x then true else any p xs

  -- `[x for x in xs if p(x)]`
  abbrev pub keep : (A → Bool) → List A → List A
  keep p [] = []
  keep p (x ∷ xs) = if p x then x ∷ keep p xs else keep p xs

  pub length-append : (xs ys : List A) → length (xs ++ ys) ≡ length xs + length ys
  length-append [] ys = omega arith
  length-append (x ∷ xs) ys = omega (arith, length-append xs ys)

  pub length-keep : (p : A → Bool) (xs : List A) → length (keep p xs) ≡ count_if p xs
  length-keep p [] = refl
  length-keep p (x ∷ xs) = ground (arith, length-keep p xs)

  pub count_if-append :
      (p : A → Bool) (xs ys : List A) → count_if p (xs ++ ys) ≡ count_if p xs + count_if p ys
  count_if-append p [] ys = omega arith
  count_if-append p (x ∷ xs) ys = omega (arith, count_if-append p xs ys)

  pub keep-append : (p : A → Bool) (xs ys : List A) → keep p (xs ++ ys) ≡ keep p xs ++ keep p ys
  keep-append p [] ys = refl
  keep-append p (x ∷ xs) ys = ground (arith, keep-append p xs ys)

  -- `sorted(xs, key=...)`: equal keys keep their order.
  abbrev pub insert_by : (A → ℕ) → A → List A → List A
  insert_by key x [] = x ∷ []
  insert_by key x (y ∷ ys) = if leb (key x) (key y) then x ∷ y ∷ ys else y ∷ insert_by key x ys

  abbrev pub sort_by : (A → ℕ) → List A → List A
  sort_by key [] = []
  sort_by key (x ∷ xs) = insert_by key x (sort_by key xs)

  pub count_if-insert_by :
      (key : A → ℕ) (p : A → Bool) (x : A) (ys : List A)
      → count_if p (insert_by key x ys) ≡ (if p x then 1 else 0) + count_if p ys
  count_if-insert_by key p x [] = ground arith
  count_if-insert_by key p x (y ∷ ys) = ground (arith, count_if-insert_by key p x ys)

  -- Sorting keeps every count.
  pub count_if-sort_by :
      (key : A → ℕ) (p : A → Bool) (xs : List A) → count_if p (sort_by key xs) ≡ count_if p xs
  count_if-sort_by key p [] = refl
  count_if-sort_by key p (x ∷ xs) =
      omega (arith, count_if-insert_by key p x (sort_by key xs), count_if-sort_by key p xs)

abbrev pub All {ℓ κ} : {A : Type ℓ} → (A → Type κ) → List A → Type κ
All P [] = Unit
All P (x ∷ xs) = P x × All P xs

module _ {ℓ κ} {A : Type ℓ} (P : A → Type κ) where
  pub All-append : (xs ys : List A) → All P xs → All P ys → All P (xs ++ ys)
  All-append [] ys hx hy = hy
  All-append (x ∷ xs) ys hx hy = (hx.0, All-append xs ys hx.1 hy)

  All-if :
      (b : Bool) (x : A) (xs : List A)
      → (b ≡ true → P x)
      → All P xs
      → All P (if b then x ∷ xs else xs)
  All-if true x xs h t = (h refl, t)
  All-if false x xs h t = t

  pub All-keep : (p : A → Bool) (xs : List A) → ((x : A) → p x ≡ true → P x) → All P (keep p xs)
  All-keep p [] h = tt
  All-keep p (x ∷ xs) h = All-if (p x) x (keep p xs) (h x) (All-keep p xs h)

module _ {ℓ κ υ} {A : Type ℓ} (P : A → Type κ) (Q : A → Type υ) where
  pub All-map : (xs : List A) → ((x : A) → P x → Q x) → All P xs → All Q xs
  All-map [] f h = tt
  All-map (x ∷ xs) f h = (f x h.0, All-map xs f h.1)

  All-if_both : (b : Bool) (x : A) (xs : List A) → Q x → All Q xs → All Q (if b then x ∷ xs else xs)
  All-if_both true x xs h t = (h, t)
  All-if_both false x xs h t = t

  pub All-keep_of_All :
      (p : A → Bool) (xs : List A) → ((x : A) → P x → Q x) → All P xs → All Q (keep p xs)
  All-keep_of_All p [] f h = tt
  All-keep_of_All p (x ∷ xs) f h =
      All-if_both (p x) x (keep p xs) (f x h.0) (All-keep_of_All p xs f h.1)

-- What holds of the entries that pass a test holds of every entry, given the test.
pub All-of-keep {ℓ κ} :
    {A : Type ℓ} (P : A → Type κ) (p : A → Bool) (xs : List A)
    → All P (keep p xs)
    → All (λ x. p x ≡ true → P x) xs
All-of-keep P p [] h = tt
All-of-keep P p (x ∷ xs) h = elim (Bool-cases (p x)) [
  | inl e ↦ let k : All P (x ∷ keep p xs) = rw e at h in ((λ _. k.0), All-of-keep P p xs k.1)
  | inr e ↦ ((λ e'. absurd (false≢true (sym e ∙ e'))), All-of-keep P p xs (rw e at h))
]

pub All-Mem {ℓ} : {A : Type ℓ} (xs : List A) → All (λ x. Mem x xs) xs
All-Mem [] = tt
All-Mem (x ∷ xs) = (
  mem-cons.1 (Or.inl refl),
  All-map (λ y. Mem y xs) (λ y. Mem y (x ∷ xs)) xs (λ y m. mem-cons.1 (Or.inr m)) (All-Mem xs),
)

module _ {ℓ} {A : Type ℓ} where
  length-insert_by :
      (key : A → ℕ) (x : A) (ys : List A) → length (insert_by key x ys) ≡ suc (length ys)
  length-insert_by key x [] = refl
  length-insert_by key x (y ∷ ys) = ground (arith, length-insert_by key x ys)

  pub length-sort_by : (key : A → ℕ) (xs : List A) → length (sort_by key xs) ≡ length xs
  length-sort_by key [] = refl
  length-sort_by key (x ∷ xs) =
      omega (arith, length-insert_by key x (sort_by key xs), length-sort_by key xs)

pub length-map {ℓ κ} :
    {A : Type ℓ} {B : Type κ} (xs : List A) (f : A → B) → length (map f xs) ≡ length xs
length-map [] f = refl
length-map (x ∷ xs) f = omega (arith, length-map xs f)

-- The two lists have one length, and their entries are related one by one.
abbrev pub All2 {ℓ} : {A : Type ℓ} → (A → A → Type 0) → List A → List A → Type 0
All2 R [] [] = Unit
All2 R [] (y ∷ ys) = ⊥
All2 R (x ∷ xs) [] = ⊥
All2 R (x ∷ xs) (y ∷ ys) = R x y × All2 R xs ys

pub List-cases {ℓ} :
    {A : Type ℓ} (xs : List A) → (xs ≡ []) ⊎ ((x : A) × (l : List A) × (xs ≡ x ∷ l))
List-cases [] = inl refl
List-cases (x ∷ xs) = inr (x, xs, refl)
