-- ===== src/Schedule/Tests.antt =====
-- A search that is booked for moment 1000, and passes before and after.
use korail_ktx_macro_telegra.Reservation.Start.{
  start_reservation_process, under_limit, running_on, launch, record_search, note_process,
  keep_login,
}
use korail_ktx_macro_telegra.Common.{
  ℕ, ◌≤◌, ◌≡◌, refl, true, false, not, ◌&&◌, List, [], ◌∷◌, Option, none, some, is_some,
  if◌then◌else◌, ◌==◌, ltb, All,
}
use korail_ktx_macro_telegra.Common.Dict.{lookup, insert}
use korail_ktx_macro_telegra.Payment.{korail}
use korail_ktx_macro_telegra.Reservation.Process.{
  TrainSearchParams, Credentials, Os, Config, alive, delivered, reap_children,
}
use korail_ktx_macro_telegra.Schedule.{
  Timing, Scheduler, schedule, get_scheduled_search, get_all_scheduled_searches, tick, is_due,
  validate_start_time, save_scheduled_search, soonest, live_searches, seconds_until_due, fire_due,
  fire, delete_scheduled_search, fire_with,
}
use korail_ktx_macro_telegra.Schedule.Booking.{booked, is_accepted, schedule_lem}
use korail_ktx_macro_telegra.Schedule.Firing.{IsKept, due_at, tick_sleeps, InTimeFor}
use korail_ktx_macro_telegra.Schedule.Starts.{IsHandedOver, tick_fires}
use korail_ktx_macro_telegra.Schedule.Quiet.{missed}
use korail_ktx_macro_telegra.Schedule.Missed.{Event, books, ticks, history, never_missed}

abbrev config : Config
config = record { run_id = 8; resume_on_restart = true; max_concurrent_searches = 5 }

abbrev timing : Timing
timing = record { max_ahead = 259200; grace = 600; poll = 30 }

abbrev os : ℕ → Os
os chat = record {
  spawn = alive 500;
  exited = λ pid. false;
  owns = λ pid. true;
  terminate = λ pid. delivered;
  stops = λ pid. true;
  kill = λ pid. delivered;
  dies = λ pid. true;
}

abbrev leaves : TrainSearchParams → Option ℕ
leaves params = some 5000

abbrev to_busan : TrainSearchParams
to_busan = record { operator = korail; details = 3 }

abbrev login : Credentials
login = record { korail_id = 12; korail_pw = 34 }

abbrev empty : Scheduler
empty = record {
  service = record {
    running = [];
    dead = [];
    resume_credentials = [];
    app_session_starts = [];
    partial_reservations = [];
    sessions = [];
    children = [];
    shutting_down = false;
    sent = [];
  };
  scheduled = [];
}

abbrev waiting : Scheduler
waiting = (schedule timing leaves 100 7 login to_busan 1000 empty).1

schedule_lem_example :
    let (error, w') = schedule timing leaves 100 7 login to_busan 1000 empty in
    let ok = is_accepted timing (some 5000) 100 1000 in
    (is_some error ≡ not ok)
    × (get_scheduled_search 7 1200 w' ≡ (
        if 7 == 7 && ok
        then (if ltb 1200 1600 then some (booked 7 login to_busan 1000) else none)
        else get_scheduled_search 7 1200 empty))
    × (lookup 7 w'.service.resume_credentials
        ≡ (if 7 == 7 && ok then some login else lookup 7 empty.service.resume_credentials))
schedule_lem_example = schedule_lem timing leaves 100 7 1000 login to_busan 7 1200 empty

after_departure : is_some (schedule timing leaves 100 7 login to_busan 5000 empty).0 ≡ true
unfolding schedule validate_start_time
after_departure = refl

waiting-IsKept : IsKept waiting.scheduled
unfolding IsKept schedule validate_start_time save_scheduled_search insert lookup
waiting-IsKept = (refl, refl, tt)

tick_fires_example :
    let w' = (tick config timing os 1010 waiting).1 in
    let found = get_scheduled_search 7 1010 waiting in
    (get_scheduled_search 7 1010 w' ≡ (if due_at 1010 found then none else found))
    × IsHandedOver config timing os 1010 7 found waiting.service w'.service
tick_fires_example = tick_fires config timing os 1010 7 waiting waiting-IsKept

started_one : is_some (lookup 7 (tick config timing os 1010 waiting).1.service.running) ≡ true
unfolding lookup tick fire_due get_all_scheduled_searches live_searches schedule validate_start_time
    save_scheduled_search insert seconds_until_due is_due fire delete_scheduled_search fire_with
    start_reservation_process reap_children under_limit running_on launch record_search note_process
    keep_login
started_one = refl

tick_sleeps_example :
    let delay = (tick config timing os 990 waiting).0 in
    (delay ≤ 30) × All (InTimeFor 990 delay) (get_all_scheduled_searches 990 waiting)
tick_sleeps_example = tick_sleeps config timing os 990 waiting

sleeps_ten : (tick config timing os 990 waiting).0 ≡ 10
unfolding tick soonest get_all_scheduled_searches live_searches schedule validate_start_time
    save_scheduled_search insert seconds_until_due is_due
sleeps_ten = refl

-- The pass comes two hours late.
abbrev late : List Event
late = books 100 7 login to_busan 1000 ∷ ticks os 8200 ∷ []

never_missed_example :
    missed (history config timing leaves late empty).service.sent ≡ missed empty.service.sent
never_missed_example = never_missed config timing leaves late empty refl
