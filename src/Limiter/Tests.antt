-- ===== src/Limiter/Tests.antt =====
-- Runs of the limiter, and instances of its theorems.
use korail_ktx_macro_telegra.Common.{◌≤◌, ◌≡◌, refl, true, false, ℕ, [], ◌∷◌, arith, ltb, count_if}
use korail_ktx_macro_telegra.Common.Dict.{lookup, insert}
use korail_ktx_macro_telegra.Limiter.{RateLimiter, allow, recent, tidied, is_idle}
use korail_ktx_macro_telegra.Limiter.Step.{in_window}
use korail_ktx_macro_telegra.Limiter.Window.{
  Calls, run, allowed_times, new_limiter, allow_sliding_window,
}
use korail_ktx_macro_telegra.Limiter.Crowded.{allow_uncounted}

-- Caller 4 asks three times within ten seconds of a limit of two.
abbrev requests : Calls
requests = (4, 1) ∷ (4, 3) ∷ (4, 5) ∷ []

third_refused : (allow 4 5 (run requests (new_limiter 2 10))).0 ≡ false
unfolding allow run new_limiter recent tidied lookup insert
third_refused = refl

later_allowed : (allow 4 11 (run requests (new_limiter 2 10))).0 ≡ true
unfolding allow run new_limiter recent tidied lookup insert
later_allowed = refl

allow_sliding_window_example :
    let seen : ℕ = count_if (in_window 10 6) (allowed_times 4 requests [] (new_limiter 2 10)) in
    ((allow 4 6 (run requests (new_limiter 2 10))).0 ≡ ltb seen 2) × (seen ≤ 2)
unfolding allow run new_limiter recent tidied lookup insert
allow_sliding_window_example = allow_sliding_window 2 10 4 6 requests (omega arith)

-- Two callers, both in the window, of a limiter whose limit is two.
abbrev crowded : RateLimiter
crowded = record { limit = 2; window = 10; hits = (1, 5 ∷ []) ∷ (2, 6 ∷ []) ∷ [] }

allow_uncounted_example : allow 3 8 crowded ≡ (true, crowded)
unfolding is_idle lookup
allow_uncounted_example =
    allow_uncounted 3 8 crowded (omega arith) (omega arith) refl (refl, (refl, tt))
