-- ===== src/Limiter/Crowded.antt =====
-- With as many callers in the window as the limit, a caller that is not among them is not limited.
use korail_ktx_macro_telegra.Common.{
  ℕ, suc, ◌≤◌, ◌<◌, ◌≡◌, refl, true, false, none, List, [], ◌∷◌, arith, length, All,
}
use korail_ktx_macro_telegra.Common.Dict.{Dict, lookup, insert}
use korail_ktx_macro_telegra.Limiter.{RateLimiter, is_idle, forget_idle, recent, tidied, allow}

module _ (key now : ℕ) where
  -- Every caller on record has a hit in the window.
  abbrev pub AllLive : ℕ → Dict (List ℕ) → Type 0
  AllLive window d = All (λ e. is_idle window now e.1 ≡ false) d

  forget_idle-insert :
      (window : ℕ) (d : Dict (List ℕ))
      → lookup key d ≡ none
      → AllLive window d
      → forget_idle window now (insert key [] d) ≡ d
  unfolding lookup insert forget_idle
  forget_idle-insert window [] fresh live = refl
  forget_idle-insert window ((k, hs) ∷ d) fresh live = ground (arith, forget_idle-insert window d)

  length-insert_new :
      (v : List ℕ) (d : Dict (List ℕ))
      → lookup key d ≡ none
      → length (insert key v d) ≡ suc (length d)
  unfolding lookup insert
  length-insert_new v [] fresh = refl
  length-insert_new v ((k, hs) ∷ d) fresh = ground (arith, length-insert_new v d)

  -- When the limit is at least 1 and at least as many callers are on record, all with a hit in the
  -- window, a request of a caller who is not on record is allowed and leaves the limiter as it was:
  -- it is not counted, so that caller is allowed however often it asks.
  pub allow_uncounted :
      (r : RateLimiter)
      → 0 < r.limit
      → r.limit ≤ length r.hits
      → lookup key r.hits ≡ none
      → AllLive r.window r.hits
      → allow key now r ≡ (true, r)
  unfolding allow tidied recent
  allow_uncounted r some_limit crowded fresh live =
      ground (arith, length-insert_new [] r.hits, forget_idle-insert r.window r.hits fresh live)
