-- ===== src/Common/Dict.antt =====
-- A Python dict, or the Redis keys with one prefix, as an association list. A key occurs once in
-- what these operations build; `erase` drops every entry of the key.
use Prim.Native.Nat.{ℕ}
use mathlib.Core.Path.{◌≡◌, refl}
use mathlib.Core.Option.{Option, none, some}
use mathlib.Core.List.{List, [], ◌∷◌}
use native.Mathlib.Omega.{arith}
use korail_ktx_macro_telegra.Common.Tests.{◌==◌, if◌then◌else◌}

abbrev pub Dict {ℓ} : Type ℓ → Type ℓ
Dict V = List (ℕ × V)

module _ {ℓ} {V : Type ℓ} where
  unfoldable pub lookup : ℕ → Dict V → Option V
  lookup k [] = none
  lookup k ((j, v) ∷ d) = if j == k then some v else lookup k d

  -- `d.pop(k, None)`, and Redis DEL
  unfoldable pub erase : ℕ → Dict V → Dict V
  erase k [] = []
  erase k ((j, v) ∷ d) = if j == k then erase k d else (j, v) ∷ erase k d

  -- `d[k] = v`, and Redis SET: an entry keeps its place, a new one comes last.
  unfoldable pub insert : ℕ → V → Dict V → Dict V
  insert k v [] = (k, v) ∷ []
  insert k v ((j, w) ∷ d) = if j == k then (k, v) ∷ d else (j, w) ∷ insert k v d

  abbrev pub values : Dict V → List V
  values [] = []
  values ((_, v) ∷ d) = v ∷ values d

  abbrev pub keys : Dict V → List ℕ
  keys [] = []
  keys ((k, _) ∷ d) = k ∷ keys d

  pub lookup-insert :
      (k j : ℕ) (v : V) (d : Dict V)
      → lookup j (insert k v d) ≡ (if k == j then some v else lookup j d)
  unfolding lookup insert
  lookup-insert k j v [] = refl
  lookup-insert k j v ((i, w) ∷ d) = ground (arith, lookup-insert k j v d)

  pub lookup-erase :
      (k j : ℕ) (d : Dict V) → lookup j (erase k d) ≡ (if k == j then none else lookup j d)
  unfolding lookup erase
  lookup-erase k j [] = ground arith
  lookup-erase k j ((i, w) ∷ d) = ground (arith, lookup-erase k j d)

  pub lookup-insert_self : (k : ℕ) (v : V) (d : Dict V) → lookup k (insert k v d) ≡ some v
  lookup-insert_self k v d = ground (arith, lookup-insert k k v d)

  pub lookup-insert_eq : {k j : ℕ} (v : V) (d : Dict V) → k ≡ j → lookup j (insert k v d) ≡ some v
  lookup-insert_eq {k} {j} v d e = ground (arith, lookup-insert k j v d)

  pub lookup-erase_self : (k : ℕ) (d : Dict V) → lookup k (erase k d) ≡ none
  lookup-erase_self k d = ground (arith, lookup-erase k k d)

pub ruleset dict_laws = (lookup-insert, lookup-erase)

-- No key occurs twice.
abbrev pub IsDistinct {ℓ} : {V : Type ℓ} → Dict V → Type ℓ
IsDistinct [] = Unit
IsDistinct ((k, v) ∷ d) = (lookup k d ≡ none) × IsDistinct d
