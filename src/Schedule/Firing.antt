-- ===== src/Schedule/Firing.antt =====
-- Which schedules a pass takes, and how long it sleeps after.
use korail_ktx_macro_telegra.Common.{
  ℕ, ◌+◌, ◌≤◌, ◌-◌, ◌≡◌, refl, Bool, false, ◌&&◌, Option, none, some, List, [], ◌∷◌, arith, any,
  ◌==◌, if◌then◌else◌, All, min,
}
use korail_ktx_macro_telegra.Common.Dict.{Dict, lookup, erase, values, lookup-erase}
use korail_ktx_macro_telegra.Reservation.Process.{Os, Config}
use korail_ktx_macro_telegra.Schedule.{
  ScheduledSearch, Kept, Timing, Scheduler, is_due, live_search, live_searches,
  get_scheduled_search, get_all_scheduled_searches, delete_scheduled_search, seconds_until_due,
  fire, fire_with, fire_due, soonest, tick,
}

-- Each schedule stands under its own chat, and no chat has two.
unfoldable pub IsKept : Dict Kept → Type 0
IsKept [] = Unit
IsKept ((k, x) ∷ d) = (x.search.chat_id ≡ k) × (lookup k d ≡ none) × IsKept d

-- The schedule that was found is due.
abbrev pub due_at : ℕ → Option ScheduledSearch → Bool
due_at now found = elim found [ none ↦ false | some x ↦ is_due now x ]

-- What waits is not overslept.
abbrev pub InTimeFor : ℕ → ℕ → ScheduledSearch → Type 0
InTimeFor now delay x = is_due now x ≡ false → now + delay ≤ x.start_at

module _ (c : Config) (t : Timing) (os : ℕ → Os) (now : ℕ) where
  pub scheduled-fire :
      (x : ScheduledSearch) (w : Scheduler)
      → (fire c t os now x w).scheduled ≡ erase x.chat_id w.scheduled
  unfolding fire fire_with delete_scheduled_search
  scheduled-fire x w = ground arith

  -- One of the searches is the chat's, and it is due.
  abbrev due_for : ℕ → List ScheduledSearch → Bool
  due_for j xs = any (λ x. is_due now x && x.chat_id == j) xs

  lookup-fire_due :
      (j : ℕ) (xs : List ScheduledSearch) (w : Scheduler)
      → lookup j (fire_due c t os now xs w).scheduled
        ≡ (if due_for j xs then none else lookup j w.scheduled)
  unfolding fire_due
  lookup-fire_due j [] w = refl
  lookup-fire_due j (x ∷ xs) w =
      let w' = if is_due now x then fire c t os now x w else w in
      ground
        (arith, lookup-fire_due j xs w', scheduled-fire x w, lookup-erase x.chat_id j w.scheduled)

  due_elsewhere :
      (j : ℕ) (d : Dict Kept)
      → IsKept d
      → lookup j d ≡ none
      → due_for j (live_searches now (values d)) ≡ false
  unfolding IsKept lookup live_searches
  due_elsewhere j [] keyed e = refl
  due_elsewhere j ((k, x) ∷ d) keyed e = ground (arith, due_elsewhere j d)

  due_for-live :
      (j : ℕ) (d : Dict Kept)
      → IsKept d
      → due_for j (live_searches now (values d)) ≡ due_at now (live_search now (lookup j d))
  unfolding IsKept lookup live_searches live_search
  due_for-live j [] keyed = refl
  due_for-live j ((k, x) ∷ d) keyed = ground (arith, due_for-live j d, due_elsewhere j d)

  pub tick_takes :
      (j : ℕ) (w : Scheduler)
      → IsKept w.scheduled
      → get_scheduled_search j now (tick c t os now w).1
        ≡ (if due_at now (get_scheduled_search j now w) then none else get_scheduled_search j now w)
  unfolding tick get_scheduled_search get_all_scheduled_searches live_search
  tick_takes j w keyed = ground (
    arith,
    lookup-fire_due j (live_searches now (values w.scheduled)) w,
    due_for-live j w.scheduled keyed,
  )

  soonest-least : (xs : List ScheduledSearch) (best : ℕ) → soonest now xs best ≤ best
  unfolding soonest
  soonest-least [] best = omega arith
  soonest-least (x ∷ xs) best =
      ground (arith, soonest-least xs best, soonest-least xs (min (seconds_until_due now x) best))

  soonest-first :
      (x : ScheduledSearch) (xs : List ScheduledSearch) (best : ℕ)
      → InTimeFor now (soonest now (x ∷ xs) best) x
  unfolding soonest is_due seconds_until_due
  soonest-first x xs best waits =
      ground (arith, soonest-least xs (min (x.start_at - now) best), waits)

  soonest-InTimeFor :
      (xs : List ScheduledSearch) (best : ℕ) → All (InTimeFor now (soonest now xs best)) xs
  unfolding soonest
  soonest-InTimeFor [] best = tt
  soonest-InTimeFor (x ∷ xs) best = (
    soonest-first x xs best,
    soonest-InTimeFor xs (if is_due now x then best else min (seconds_until_due now x) best),
  )

  -- A pass sleeps no longer than the longest sleep, and never past the start of a search that waits.
  pub tick_sleeps :
      (w : Scheduler)
      → let delay = (tick c t os now w).0 in
        (delay ≤ t.poll) × All (InTimeFor now delay) (get_all_scheduled_searches now w)
  unfolding tick
  tick_sleeps w =
      let xs = get_all_scheduled_searches now w in
      (soonest-least xs t.poll, soonest-InTimeFor xs t.poll)
