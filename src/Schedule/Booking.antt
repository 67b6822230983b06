-- ===== src/Schedule/Booking.antt =====
-- Which start times are taken, and how long a booked search can be found.
use korail_ktx_macro_telegra.Common.{
  ℕ, ◌+◌, ◌≡◌, Bool, true, not, ◌&&◌, Option, none, some, arith, leb, ltb, ◌==◌, if◌then◌else◌,
  is_some, max, ◌-◌,
}
use korail_ktx_macro_telegra.Common.Dict.{lookup, lookup-insert}
use korail_ktx_macro_telegra.Reservation.Process.{TrainSearchParams, Credentials}
use korail_ktx_macro_telegra.Schedule.{
  ScheduledSearch, Timing, Scheduler, live_search, get_scheduled_search, save_scheduled_search,
  seconds_until_due, validate_start_time, schedule, Kept,
}

-- After now, not too far ahead, and before the departure if that is known.
unfoldable pub is_accepted : Timing → Option ℕ → ℕ → ℕ → Bool
is_accepted t departure now start_at =
    ltb now start_at
    && leb start_at (now + t.max_ahead)
    && elim departure [ none ↦ true | some leaves ↦ ltb start_at leaves ]

validate_lem :
    (t : Timing) (departure : Option ℕ) (now start_at : ℕ)
    → is_some (validate_start_time t departure now start_at)
      ≡ not (is_accepted t departure now start_at)
unfolding validate_start_time is_accepted
validate_lem t none now start_at = ground arith
validate_lem t (some leaves) now start_at = ground arith

abbrev pub booked : ℕ → Credentials → TrainSearchParams → ℕ → ScheduledSearch
booked chat login params start_at = record {
  chat_id = chat;
  korail_id = login.korail_id;
  search_params = params;
  start_at = start_at;
}

module _ (t : Timing) (departure_of : TrainSearchParams → Option ℕ) (now chat start_at : ℕ)
    (login : Credentials) (params : TrainSearchParams) where
  -- A start time is taken exactly if it lies ahead, not farther than the limit, and before the
  -- departure where that is known. Then the search is found for its chat at every moment before the
  -- grace period after its start ends, and not from then on, and the login is stored. A refused
  -- booking changes nothing, and no booking touches another chat.
  pub schedule_lem :
      (j later : ℕ) (w : Scheduler)
      → let (error, w') = schedule t departure_of now chat login params start_at w in
        let ok = is_accepted t (departure_of params) now start_at in
        (is_some error ≡ not ok)
        × (get_scheduled_search j later w' ≡ (
            if chat == j && ok
            then (if ltb later (start_at + t.grace)
                then some (booked chat login params start_at)
                else none)
            else get_scheduled_search j later w))
        × (lookup j w'.service.resume_credentials
            ≡ (if chat == j && ok then some login else lookup j w.service.resume_credentials))
  unfolding schedule get_scheduled_search save_scheduled_search seconds_until_due live_search
      is_accepted
  schedule_lem j later w =
      let kept : Kept = record {
        search = booked chat login params start_at;
        until = now + max (start_at - now + t.grace) t.grace;
      } in
      ground (
        arith,
        validate_lem t (departure_of params) now start_at,
        lookup-insert chat j login w.service.resume_credentials,
        lookup-insert chat j kept w.scheduled,
      )
