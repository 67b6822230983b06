-- ===== src/Rail/Consecutive.antt =====
-- The consecutive loop: what it returns, read off the trains that its passes found.
use korail_ktx_macro_telegra.Common.{
  ℕ, zero, suc, ◌+◌, ◌≤◌, ◌<◌, ◌≡◌, refl, ap, ◌∙◌, Bool, true, false, Option, none, some, List, [],
  ◌∷◌, ◌++◌, arith, if◌then◌else◌,
}
use korail_ktx_macro_telegra.Rail.{
  Settings, Booking, duplicate, sold_out, reserved, Round, Search, ask, Tried, got, raised, nothing,
  try_trains, waiting, ordinary, counted_up, over_limit, Outcome, booked, duplicate_error, gave_up,
  reserve_consecutive,
}

-- The first train that decides, in two lists one after the other.
try_trains-append :
    (xs ys : List Booking)
    → try_trains false (xs ++ ys) ≡ elim (try_trains false xs) [
      | got r ↦ got r
      | raised ↦ raised
      | nothing ↦ try_trains false ys
    ]
unfolding try_trains
try_trains-append [] ys = refl
try_trains-append (duplicate ∷ xs) ys = refl
try_trains-append (sold_out ∷ xs) ys = try_trains-append xs ys
try_trains-append (reserved r ∷ xs) ys = refl

pub ask-attempts : (c : Settings) (r : Round) (s : Search) → (ask c r s).1.attempts ≡ s.attempts
unfolding ask
ask-attempts c r s = ground arith

ask-duplicate_notified :
    (c : Settings) (r : Round) (s : Search)
    → (ask c r s).1.duplicate_notified ≡ s.duplicate_notified
unfolding ask
ask-duplicate_notified c r s = ground arith

-- What the loop returns for the way in which the trains were left.
abbrev pub conclude : Tried → Outcome
conclude (got r) = booked r
conclude raised = duplicate_error
conclude nothing = gave_up []

over_limit-within : (max n : ℕ) → n ≤ max → over_limit max n ≡ false
over_limit-within max n h = ground arith

over_limit-past : (max n : ℕ) → 0 < max → max < n → over_limit max n ≡ true
over_limit-past max n p h = ground arith

decided :
    (t : Tried) (a b : Search) (more : Outcome × Search) (ys : List Booking)
    → more.0 ≡ conclude (try_trains false ys)
    → (elim t as (λ t. Outcome × Search) [
      | got r ↦ (booked r, a)
      | raised ↦ (duplicate_error, b)
      | nothing ↦ more
    ]).0
      ≡ conclude (elim t [ got r ↦ got r | raised ↦ raised | nothing ↦ try_trains false ys ])
decided (got r) a b more ys h = refl
decided raised a b more ys h = refl
decided nothing a b more ys h = h

-- One pass, whatever it found, over what the passes after it return.
passed :
    (found : Option (List Booking)) (over notified : Bool) (s1 s2 : Search)
    (unavailable again : Outcome × Search) (ys zs : List Booking)
    → over ≡ false
    → notified ≡ false
    → unavailable.0 ≡ conclude (try_trains false ys)
    → again.0 ≡ conclude (try_trains false zs)
    → (if over then (gave_up [], s1) else elim found as (λ f. Outcome × Search) [
      | none ↦ unavailable
      | some trains ↦ elim (try_trains notified trains) as (λ t. Outcome × Search) [
        | got r ↦ (booked r, s2)
        | raised ↦ (duplicate_error, record s2 { duplicate_notified = true })
        | nothing ↦ again
      ]
    ]).0
      ≡ conclude (
          try_trains false
            (elim found as (λ f. List Booking) [ none ↦ ys | some trains ↦ trains ++ zs ]))
passed none over notified s1 s2 un again ys zs within fresh hy hz = rw within hy
passed (some ts) over notified s1 s2 un again ys zs within fresh hy hz =
    rw (within, fresh, try_trains-append ts zs)
      (decided (try_trains false ts) s2 (record s2 { duplicate_notified = true }) again zs hz)

module _ (c : Settings) (rounds : ℕ → Round) where
  -- The trains that the next `n` passes find if all of them take place.
  unfoldable pub trains_found : ℕ → Search → List Booking
  trains_found zero s = []
  trains_found (suc n) s =
      let s1 = counted_up s in
      let (answer, s2) = ask c (rounds s1.attempts) s1 in
      let unavailable = trains_found n s2 in
      let again = trains_found n (waiting ordinary s2) in
      elim answer [ none ↦ unavailable | some trains ↦ trains ++ again ]

  reserve_consecutive-from :
      (max n : ℕ) (s : Search)
      → 0 < max
      → s.attempts + n ≡ max
      → s.duplicate_notified ≡ false
      → (reserve_consecutive c rounds max (suc n) s).0
        ≡ conclude (try_trains false (trains_found n s))
  unfolding reserve_consecutive trains_found try_trains
  reserve_consecutive-from max zero s bound left fresh =
      rw (over_limit-past max (s.attempts + 1) bound (omega arith)) refl
  reserve_consecutive-from max (suc n) s bound left fresh =
      let s1 = counted_up s in
      let s2 : Search = (ask c (rounds s1.attempts) s1).1 in
      let fewer : s2.attempts + n ≡ max =
        ap (λ k. k + n) (ask-attempts c (rounds s1.attempts) s1) ∙ omega arith in
      let still_fresh : s2.duplicate_notified ≡ false =
        ask-duplicate_notified c (rounds s1.attempts) s1 ∙ fresh in
      let unavailable = reserve_consecutive-from max n s2 bound fewer still_fresh in
      let again = reserve_consecutive-from max n (waiting ordinary s2) bound fewer still_fresh in
      passed (ask c (rounds s1.attempts) s1).0 (over_limit max s1.attempts) s2.duplicate_notified s1
        s2 (reserve_consecutive c rounds max (suc n) s2)
        (reserve_consecutive c rounds max (suc n) (waiting ordinary s2)) (trains_found n s2)
        (trains_found n (waiting ordinary s2)) (over_limit-within max s1.attempts (omega arith))
        still_fresh unavailable again

  -- A search with a bound that has not started yet, with fuel for one pass more than the bound: it
  -- returns what the first train that decides says, in the order in which the bounded number of
  -- passes found them (the seat that is held, or the error for a reservation that is there already),
  -- and gives up if no train decides.
  pub reserve_consecutive_lem :
      (max : ℕ) (s : Search)
      → 0 < max
      → s.attempts ≡ 0
      → s.duplicate_notified ≡ false
      → (reserve_consecutive c rounds max (suc max) s).0
        ≡ conclude (try_trains false (trains_found max s))
  reserve_consecutive_lem max s bound unstarted fresh =
      reserve_consecutive-from max max s bound (omega arith) fresh
