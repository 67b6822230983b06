-- ===== src/Limiter/Window.antt =====
-- While fewer callers are on record than the limit, the deques decide exactly as a count over
-- the whole history would.
use korail_ktx_macro_telegra.Common.{
  ℕ, ◌≤◌, ◌<◌, ◌≡◌, refl, List, [], ◌∷◌, ◌++◌, arith, ltb, ◌==◌, if◌then◌else◌, length,
  length-append, All, All-append, All-map, ap, count_if, Bool-cases, inl, inr, ◌∙◌,
}
use korail_ktx_macro_telegra.Common.Dict.{lookup}
use korail_ktx_macro_telegra.Limiter.{RateLimiter, drop_old, recent, allow}
use korail_ktx_macro_telegra.Limiter.Step.{
  drop_old-drop_old, drop_old-append, Ascending, Ascending-append, in_window, length-drop_old,
  granted-allow, window-allow, limit-allow, lookup-allow, recent-some, recent_same,
  length-drop_old_le,
}

-- The deque of `key` holds what is recent of the log of its granted calls, the last at `last`.
record Tracks (key last : ℕ) (log : List ℕ) (r : RateLimiter) : Type 0 where
  agrees : (t : ℕ) → last ≤ t → recent key t r ≡ drop_old r.window t log
  ascending : Ascending 0 log
  below : All (λ h. h ≤ last) log

-- The log of `key` after a call of `k` at `c`.
abbrev next_log : ℕ → ℕ → ℕ → RateLimiter → List ℕ → List ℕ
next_log key k c r log = if k == key then (if (allow k c r).0 then log ++ c ∷ [] else log) else log

module _ (key k c : ℕ) (log : List ℕ) (r : RateLimiter) {last : ℕ} (h : Tracks key last log r)
    (later : last ≤ c) where
  recent-allow :
      length r.hits < r.limit
      → (t : ℕ) → c ≤ t
      → recent key t (allow k c r).1 ≡ drop_old r.window t (next_log key k c r log)
  recent-allow few t after = elim (Bool-cases (k == key)) [
    | inl same ↦ elim (Bool-cases (allow k c r).0) [
      | inl granted ↦ ground (
        arith,
        recent-some key t (allow k c r).1 (recent k c r ++ c ∷ []),
        lookup-allow k c r key few,
        window-allow k c r,
        h.agrees c later,
        drop_old-append r.window log after,
      )
      | inr refused ↦ ground (
        arith,
        recent-some key t (allow k c r).1 (recent k c r),
        lookup-allow k c r key few,
        window-allow k c r,
        h.agrees c later,
        drop_old-drop_old r.window log after,
      )
    ]
    | inr other ↦ ground (
      arith,
      recent_same key t r (allow k c r).1,
      lookup-allow k c r key few,
      window-allow k c r,
      h.agrees t (omega arith),
    )
  ]

  below-next_log : All (λ x. x ≤ c) (next_log key k c r log)
  below-next_log =
      let old : All (λ x. x ≤ c) log =
        All-map (λ x. x ≤ last) (λ x. x ≤ c) log (λ x b. omega arith) h.below in
      let new : All (λ x. x ≤ c) (log ++ c ∷ []) =
        All-append (λ x. x ≤ c) log (c ∷ []) old (omega arith, tt) in
      elim (Bool-cases (k == key)) [
        | inl same ↦ rw same (elim (Bool-cases (allow k c r).0) [
          | inl granted ↦ rw granted new
          | inr refused ↦ rw refused old
        ])
        | inr other ↦ rw other old
      ]

  Ascending-next_log : Ascending 0 (next_log key k c r log)
  Ascending-next_log =
      let old : Ascending 0 log = h.ascending in
      let new : Ascending 0 (log ++ c ∷ []) =
        Ascending-append 0 c log old (omega arith)
          (All-map (λ x. x ≤ last) (λ x. x ≤ c) log (λ x b. omega arith) h.below) in
      elim (Bool-cases (k == key)) [
        | inl same ↦ rw same (elim (Bool-cases (allow k c r).0) [
          | inl granted ↦ rw granted new
          | inr refused ↦ rw refused old
        ])
        | inr other ↦ rw other old
      ]

  Tracks-allow : length r.hits < r.limit → Tracks key c (next_log key k c r log) (allow k c r).1
  Tracks-allow few = record {
    agrees = λ t after. rw (window-allow k c r) (recent-allow few t after);
    ascending = Ascending-next_log;
    below = below-next_log;
  }

-- Calls, each with its caller and its moment.
abbrev pub Calls : Type 0
Calls = List (ℕ × ℕ)

unfoldable pub run : Calls → RateLimiter → RateLimiter
run [] r = r
run ((k, c) ∷ cs) r = run cs (allow k c r).1

-- The moments at which calls of `key` were allowed, after those of `log`.
unfoldable pub allowed_times : ℕ → Calls → List ℕ → RateLimiter → List ℕ
allowed_times key [] log r = log
allowed_times key ((k, c) ∷ cs) log r =
    allowed_times key cs (next_log key k c r log) (allow k c r).1

-- The moments do not fall, and at each call fewer callers than the limit are on record.
abbrev pub Uncrowded : ℕ → ℕ → Calls → RateLimiter → Type 0
Uncrowded last t [] r = last ≤ t
Uncrowded last t ((k, c) ∷ cs) r =
    (last ≤ c) × (length r.hits < r.limit) × Uncrowded c t cs (allow k c r).1

-- At no moment does a caller have more recent hits than the limit.
abbrev IsCapped : ℕ → RateLimiter → Type 0
IsCapped key r = (t : ℕ) → length (recent key t r) ≤ r.limit

module _ (key k c : ℕ) (r : RateLimiter) (few : length r.hits < r.limit) where
  length-recent-allow :
      IsCapped key r → (t : ℕ) → length (recent key t (allow k c r).1) ≤ (allow k c r).1.limit
  length-recent-allow h t = elim (Bool-cases (k == key)) [
    | inl same ↦ ground (
      arith,
      recent-some key t (allow k c r).1 (recent k c r ++ c ∷ []),
      recent-some key t (allow k c r).1 (recent k c r),
      lookup-allow k c r key few,
      window-allow k c r,
      limit-allow k c r,
      granted-allow k c r,
      h c,
      length-drop_old_le r.window t (recent k c r ++ c ∷ []),
      length-drop_old_le r.window t (recent k c r),
      length-append (recent k c r) (c ∷ []),
    )
    | inr other ↦ ground (
      arith,
      recent_same key t r (allow k c r).1,
      lookup-allow k c r key few,
      window-allow k c r,
      limit-allow k c r,
      h t,
    )
  ]

-- What holds of `key` after the calls, at a moment that is not before them.
record Follows (key t : ℕ) (log : List ℕ) (start r : RateLimiter) : Type 0 where
  same_window : r.window ≡ start.window
  same_limit : r.limit ≡ start.limit
  recent_log : recent key t r ≡ drop_old start.window t log
  ascending : Ascending 0 log
  capped : length (recent key t r) ≤ start.limit

run-Follows :
    (key t last : ℕ) (cs : Calls) (log : List ℕ) (r : RateLimiter)
    → Tracks key last log r
    → IsCapped key r
    → Uncrowded last t cs r
    → Follows key t (allowed_times key cs log r) r (run cs r)
unfolding run allowed_times
run-Follows key t last [] log r h small u = record {
  same_window = refl;
  same_limit = refl;
  recent_log = h.agrees t u;
  ascending = h.ascending;
  capped = small t;
}
run-Follows key t last ((k, c) ∷ cs) log r h small u =
    let r' = (allow k c r).1 in
    let rest : Follows key t (allowed_times key cs (next_log key k c r log) r') r' (run cs r') =
      run-Follows key t c cs (next_log key k c r log) r' (Tracks-allow key k c log r h u.0 u.1)
        (length-recent-allow key k c r u.1 small) u.2 in
    record {
      same_window = rest.same_window ∙ window-allow k c r;
      same_limit = rest.same_limit ∙ limit-allow k c r;
      recent_log =
          rest.recent_log
          ∙ ap (λ v. drop_old v t (allowed_times key cs (next_log key k c r log) r'))
              (window-allow k c r);
      ascending = rest.ascending;
      capped = omega (arith, rest.capped, limit-allow k c r);
    }

-- `RateLimiter(limit, window_seconds)`
unfoldable pub new_limiter : ℕ → ℕ → RateLimiter
new_limiter limit window = record { limit = limit; window = window; hits = [] }

module _ (limit window key t : ℕ) (cs : Calls)
    (u : Uncrowded 0 t cs (new_limiter limit window)) where
  follows :
      Follows key t
        (allowed_times key cs [] (new_limiter limit window))
        (new_limiter limit window)
        (run cs (new_limiter limit window))
  unfolding new_limiter recent lookup drop_old
  follows =
      run-Follows key t 0 cs [] (new_limiter limit window)
        (record { agrees = λ t h. refl; ascending = tt; below = tt }) (λ t. omega arith) u

  -- Starting from a new limiter, as long as the moments do not fall and fewer callers than the limit
  -- are on record at each call: a further request of a caller is allowed exactly if fewer of its
  -- requests than the limit were allowed within the window that ends now, counted over its whole
  -- history, and never more than the limit were.
  pub allow_sliding_window :
      let seen : ℕ =
        count_if (in_window window t) (allowed_times key cs [] (new_limiter limit window)) in
      ((allow key t (run cs (new_limiter limit window))).0 ≡ ltb seen limit) × (seen ≤ limit)
  unfolding new_limiter
  allow_sliding_window =
      let r = run cs (new_limiter limit window) in
      let log : List ℕ = allowed_times key cs [] (new_limiter limit window) in
      let counted : length (recent key t r) ≡ count_if (in_window window t) log =
        ap length follows.recent_log ∙ length-drop_old window t 0 log follows.ascending in
      (granted-allow key t r ∙ rw (counted, follows.same_limit) refl, rw counted at follows.capped)
