-- ===== src/Schedule.antt =====
-- src/korail_bot/services/scheduled_search_service.py: searches that wait for their start time, with
-- their key in src/korail_bot/storage/redis.py and its expiry. Moments are whole seconds, a pass reads
-- the clock once, and the departure of a search is a parameter, since its date and time are texts.
-- The thread around `tick` is not modelled, nor the expiry of the stored login.
pub mod Booking
pub mod Firing
pub mod Starts
pub mod Quiet
pub mod Missed
mod Tests
use korail_ktx_macro_telegra.Common.{
  ℕ, ◌+◌, ◌-◌, ◌*◌, min, max, Bool, true, false, not, Option, none, some, List, [], ◌∷◌, leb, ltb,
  if◌then◌else◌, is_some,
}
use korail_ktx_macro_telegra.Common.Dict.{Dict, lookup, insert, erase, values}
use korail_ktx_macro_telegra.Telegram.{
  Message, schedule_missed, schedule_no_credentials, schedule_starting, reservation_started,
}
use korail_ktx_macro_telegra.Reservation.Process.{TrainSearchParams, Credentials, State, Os, Config}
use korail_ktx_macro_telegra.Reservation.Start.{start_reservation_process}
use korail_ktx_macro_telegra.Reservation.Ending.{tells}

pub record ScheduledSearch : Type 0 where
  pub chat_id : ℕ
  pub korail_id : ℕ
  pub search_params : TrainSearchParams
  pub start_at : ℕ

unfoldable pub is_due : ℕ → ScheduledSearch → Bool
is_due now search = leb search.start_at now

unfoldable pub seconds_until_due : ℕ → ScheduledSearch → ℕ
seconds_until_due now search = search.start_at - now

-- `scheduled_search:{chat_id}`, and when Redis drops it.
pub record Kept : Type 0 where
  pub search : ScheduledSearch
  pub until : ℕ

pub record Timing : Type 0 where
  pub max_ahead : ℕ
  pub grace : ℕ
  pub poll : ℕ

pub record Scheduler : Type 0 where
  pub service : State
  pub scheduled : Dict Kept

unfoldable pub live_search : ℕ → Option Kept → Option ScheduledSearch
live_search now none = none
live_search now (some k) = if leb k.until now then none else some k.search

unfoldable pub get_scheduled_search : ℕ → ℕ → Scheduler → Option ScheduledSearch
get_scheduled_search chat now w = live_search now (lookup chat w.scheduled)

unfoldable pub save_scheduled_search : Timing → ℕ → ScheduledSearch → Scheduler → Scheduler
save_scheduled_search t now search w =
    let ttl = seconds_until_due now search + t.grace in
    record w {
      scheduled =
          insert search.chat_id (record { search = search; until = now + max ttl t.grace })
            w.scheduled;
    }

unfoldable pub delete_scheduled_search : ℕ → Scheduler → Scheduler
delete_scheduled_search chat w = record w { scheduled = erase chat w.scheduled }

unfoldable pub live_searches : ℕ → List Kept → List ScheduledSearch
live_searches now [] = []
live_searches now (k ∷ ks) =
    if leb k.until now then live_searches now ks else k.search ∷ live_searches now ks

unfoldable pub get_all_scheduled_searches : ℕ → Scheduler → List ScheduledSearch
get_all_scheduled_searches now w = live_searches now (values w.scheduled)

pub data ScheduleError : Type 0 where
  in_the_past too_far after_departure : ScheduleError

-- `none` lets the start time pass.
unfoldable pub validate_start_time : Timing → Option ℕ → ℕ → ℕ → Option ScheduleError
validate_start_time t departure now start_at =
    if leb start_at now
    then some in_the_past
    else if ltb (now + t.max_ahead) start_at
    then some too_far
    else elim departure [
      | none ↦ none
      | some leaves ↦ if leb leaves start_at then some after_departure else none
    ]

abbrev pub drop_credentials : ℕ → State → State
drop_credentials chat s = record s { resume_credentials = erase chat s.resume_credentials }

module _ (t : Timing) (departure_of : TrainSearchParams → Option ℕ) where
  unfoldable pub schedule :
      ℕ → ℕ → Credentials → TrainSearchParams → ℕ → Scheduler → Option ScheduleError × Scheduler
  schedule now chat login params start_at w =
      elim (validate_start_time t (departure_of params) now start_at) [
        | some error ↦ (some error, w)
        | none ↦
            let search : ScheduledSearch = record {
              chat_id = chat;
              korail_id = login.korail_id;
              search_params = params;
              start_at = start_at;
            } in
            let s = record w.service {
              resume_credentials = insert chat login w.service.resume_credentials;
            } in
            (none, save_scheduled_search t now search (record w { service = s }))
      ]

unfoldable pub cancel : ℕ → ℕ → Scheduler → Bool × Scheduler
cancel chat now w =
    if is_some (get_scheduled_search chat now w)
    then (let w' = delete_scheduled_search chat w in
        (true, record w' { service = drop_credentials chat w'.service }))
    else (false, w)

-- The shortest time until a search that waits is due, with the longest sleep for a start.
unfoldable pub soonest : ℕ → List ScheduledSearch → ℕ → ℕ
soonest now [] best = best
soonest now (x ∷ xs) best =
    soonest now xs (if is_due now x then best else min (seconds_until_due now x) best)

module _ (c : Config) (t : Timing) (os : ℕ → Os) (now : ℕ) where
  -- With the login at hand: the chat is told, and then the process is started.
  unfoldable pub fire_with : ScheduledSearch → Credentials → Scheduler → Scheduler
  fire_with search login w =
      let s = tells search.chat_id schedule_starting w.service in
      record w {
        service =
            (start_reservation_process c (os search.chat_id) search.chat_id login
              search.search_params false reservation_started s).1;
      }

  -- `_fire`
  unfoldable pub fire : ScheduledSearch → Scheduler → Scheduler
  fire search w =
      let w' = delete_scheduled_search search.chat_id w in
      if ltb t.grace (now - search.start_at)
      then record w' {
        service = drop_credentials search.chat_id (tells search.chat_id schedule_missed w'.service);
      }
      else elim (lookup search.chat_id w'.service.resume_credentials) [
        | none ↦ record w' { service = tells search.chat_id schedule_no_credentials w'.service }
        | some login ↦ fire_with search login w'
      ]

  unfoldable pub fire_due : List ScheduledSearch → Scheduler → Scheduler
  fire_due [] w = w
  fire_due (x ∷ xs) w = fire_due xs (if is_due now x then fire x w else w)

  unfoldable pub tick : Scheduler → ℕ × Scheduler
  tick w =
      let searches = get_all_scheduled_searches now w in
      (soonest now searches t.poll, fire_due searches w)
