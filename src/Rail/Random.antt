-- ===== src/Rail/Random.antt =====
-- The random-seating loop: how many seats it holds when it returns.
use korail_ktx_macro_telegra.Common.{
  ℕ, zero, suc, ◌+◌, ◌≤◌, ◌<◌, ◌≡◌, refl, Bool, true, false, not, Bool-cases, Option, none, some,
  List, [], ◌∷◌, ◌++◌, arith, if◌then◌else◌, leb, ltb, inl, inr, length, length-append,
}
use korail_ktx_macro_telegra.Rail.{
  Settings, Booking, Round, Search, ask, Tried, got, raised, nothing, try_trains, waiting, ordinary,
  longer, counted_up, over_limit, Outcome, booked, duplicate_error, gave_up, all_booked, no_seats,
  out_of_fuel, left_loop, reserve_random,
}
use korail_ktx_macro_telegra.Rail.Consecutive.{ask-attempts}

-- A return with every seat, giving up with fewer, or the error for a reservation that is there.
unfoldable pub Fits : ℕ → Outcome → Type 0
Fits target (booked _) = ⊥
Fits target (all_booked l) = length l ≡ target
Fits target duplicate_error = Unit
Fits target (gave_up l) = length l < target
Fits target no_seats = ⊥
Fits target out_of_fuel = ⊥

leb-true : {a b : ℕ} → leb a b ≡ true → a ≤ b
leb-true h = ground arith

leb-false : {a b : ℕ} → leb a b ≡ false → b < a
leb-false h = ground arith

tried-Fits :
    (t : Tried) (target : ℕ) (held : List ℕ) (s2 : Search) (again : Outcome × Search)
    (more : List ℕ → Outcome × Search)
    → length held < target
    → Fits target again.0
    → ((h : List ℕ) → length h < target → Fits target (more h).0)
    → Fits target
        (elim t as (λ t. Outcome × Search) [
          | raised ↦ (duplicate_error, record s2 { duplicate_notified = true })
          | nothing ↦ again
          | got r ↦
              if leb target (length (held ++ r ∷ []))
              then (all_booked (held ++ r ∷ []), s2)
              else more (held ++ r ∷ [])
        ]).0
unfolding Fits
tried-Fits raised target held s2 again more few ha hm = tt
tried-Fits nothing target held s2 again more few ha hm = ha
tried-Fits (got r) target held s2 again more few ha hm =
    let longer_by_one : length (held ++ r ∷ []) ≡ length held + 1 = length-append held (r ∷ []) in
    elim (Bool-cases (leb target (length (held ++ r ∷ [])))) [
      | inl e ↦ rw e (let enough : target ≤ length (held ++ r ∷ []) = leb-true e in omega arith)
      | inr e ↦ rw e (hm (held ++ r ∷ []) (let short = leb-false e in omega arith))
    ]

found-Fits :
    (found : Option (List Booking)) (over notified : Bool) (target : ℕ) (held : List ℕ)
    (s s1 s2 : Search) (unavailable again : Outcome × Search) (more : List ℕ → Outcome × Search)
    → length held < target
    → (over ≡ false → Fits target unavailable.0)
    → (over ≡ false → Fits target again.0)
    → (over ≡ false → (h : List ℕ) → length h < target → Fits target (more h).0)
    → Fits target
        (if not (ltb (length held) target)
          then (left_loop held, s)
          else if over
          then (gave_up held, s1)
          else elim found as (λ f. Outcome × Search) [
            | none ↦ unavailable
            | some trains ↦ elim (try_trains notified trains) as (λ t. Outcome × Search) [
              | raised ↦ (duplicate_error, record s2 { duplicate_notified = true })
              | nothing ↦ again
              | got r ↦
                  if leb target (length (held ++ r ∷ []))
                  then (all_booked (held ++ r ∷ []), s2)
                  else more (held ++ r ∷ [])
            ]
          ]).0
unfolding Fits
found-Fits found true notified target held s s1 s2 un again more few hu ha hm = ground arith
found-Fits none false notified target held s s1 s2 un again more few hu ha hm =
    ground (arith, hu refl)
found-Fits (some ts) false notified target held s s1 s2 un again more few hu ha hm =
    let left : ltb (length held) target ≡ true = ground arith in
    rw left (tried-Fits (try_trains notified ts) target held s2 again more few (ha refl) (hm refl))

over_limit-false : (max n : ℕ) → 0 < max → over_limit max n ≡ false → n ≤ max
over_limit-false max n p h = ground arith

module _ (c : Settings) (rounds : ℕ → Round) where
  reserve_random-from :
      (max target fuel : ℕ) (held : List ℕ) (s : Search)
      → 0 < max
      → max < s.attempts + fuel
      → s.attempts ≤ max
      → length held < target
      → Fits target (reserve_random c rounds max fuel target held s).0
  unfolding reserve_random
  reserve_random-from max target zero held s bound enough started few = absurd (omega arith)
  reserve_random-from max target (suc fuel) held s bound enough started few =
      let s1 = counted_up s in
      let s2 : Search = (ask c (rounds s1.attempts) s1).1 in
      let kept : s2.attempts ≡ s.attempts + 1 = ask-attempts c (rounds s1.attempts) s1 in
      let within : over_limit max s1.attempts ≡ false → s2.attempts ≤ max =
        λ e. rw kept (over_limit-false max s1.attempts bound e) in
      found-Fits (ask c (rounds s1.attempts) s1).0 (over_limit max s1.attempts)
        s2.duplicate_notified target held s s1 s2 (reserve_random c rounds max fuel target held s2)
        (reserve_random c rounds max fuel target held (waiting ordinary s2))
        (λ h. reserve_random c rounds max fuel target h (waiting ordinary (waiting longer s2))) few
        (λ e. reserve_random-from max target fuel held s2 bound (omega arith) (within e) few)
        (λ e.
          reserve_random-from max target fuel held (waiting ordinary s2) bound (omega arith)
            (within e) few)
        (λ e h hf.
          reserve_random-from max target fuel h (waiting ordinary (waiting longer s2)) bound
            (omega arith) (within e) hf)

  -- A random-seating search with a bound on its passes and at least one seat to take, with fuel for
  -- one pass more than the bound: it returns, with exactly the number of seats asked for, by giving
  -- up with fewer, or by the error for a reservation that is there already.
  pub reserve_random_lem :
      (max target : ℕ) (s : Search)
      → 0 < max
      → 0 < target
      → s.attempts ≡ 0
      → Fits target (reserve_random c rounds max (suc max) target [] s).0
  reserve_random_lem max target s bound some_seat unstarted =
      reserve_random-from max target (suc max) [] s bound (omega arith) (omega arith) some_seat
