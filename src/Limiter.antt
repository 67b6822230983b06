-- ===== src/Limiter.antt =====
-- The class RateLimiter of src/korail_bot/api/mini_app_auth.py. Callers are numbered, and a moment
-- is a whole number of seconds. `allow` holds the lock throughout, so one call is one step.
-- `h <= moment - window` is written `h + window <= moment`, since a difference stops at 0 here.
pub mod Step
pub mod Window
pub mod Crowded
mod Tests
use korail_ktx_macro_telegra.Common.{
  ℕ, ◌+◌, Bool, true, false, ◌||◌, ◌&&◌, Option, none, some, List, [], ◌∷◌, ◌++◌, leb, ltb, ◌==◌,
  if◌then◌else◌, length, is_some,
}
use korail_ktx_macro_telegra.Common.Dict.{Dict, lookup, insert}

pub record RateLimiter : Type 0 where
  pub limit : ℕ
  pub window : ℕ
  pub hits : Dict (List ℕ)

-- `while hits and hits[0] <= cutoff: hits.popleft()`
unfoldable pub drop_old : ℕ → ℕ → List ℕ → List ℕ
drop_old window now [] = []
drop_old window now (h ∷ hs) = if leb (h + window) now then drop_old window now hs else h ∷ hs

-- `not hits or hits[-1] <= cutoff`
unfoldable pub is_idle : ℕ → ℕ → List ℕ → Bool
is_idle window now [] = true
is_idle window now (h ∷ []) = leb (h + window) now
is_idle window now (h ∷ g ∷ hs) = is_idle window now (g ∷ hs)

unfoldable pub forget_idle : ℕ → ℕ → Dict (List ℕ) → Dict (List ℕ)
unfolding is_idle
forget_idle window now [] = []
forget_idle window now ((k, hs) ∷ d) =
    if is_idle window now hs then forget_idle window now d else (k, hs) ∷ forget_idle window now d

abbrev pub is_nil : List ℕ → Bool
is_nil [] = true
is_nil (_ ∷ _) = false

-- The caller's deque once the old hits are gone: an empty one for a new caller.
unfoldable pub recent : ℕ → ℕ → RateLimiter → List ℕ
unfolding drop_old
recent key now r = elim (lookup key r.hits) [ none ↦ [] | some hs ↦ drop_old r.window now hs ]

-- The deques of all callers, after the idle ones may have been forgotten.
unfoldable pub tidied : ℕ → ℕ → RateLimiter → Dict (List ℕ)
unfolding recent forget_idle
tidied key now r =
    let held = insert key (recent key now r) r.hits in
    if is_nil (recent key now r) && ltb r.limit (length held)
    then forget_idle r.window now held
    else held

-- `hits.append(moment)` reaches the limiter only while the deque is still in its dict.
unfoldable pub allow : ℕ → ℕ → RateLimiter → Bool × RateLimiter
allow key now r =
    let hs = recent key now r in
    let held = tidied key now r in
    if leb r.limit (length hs) then (false, record r { hits = held }) else (
      true,
      record r {
        hits = if is_some (lookup key held) then insert key (hs ++ now ∷ []) held else held;
      },
    )
