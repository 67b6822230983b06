-- ===== src/Callback/Tests.antt =====
-- A search of chat 7 that ends, as seen by the handler and by the sweep after it.
use korail_ktx_macro_telegra.Reservation.Keyed.{IsKeyed}
use korail_ktx_macro_telegra.Common.{◌≡◌, refl, true, false, [], ◌∷◌, is_some}
use korail_ktx_macro_telegra.Common.Dict.{lookup}
use korail_ktx_macro_telegra.Payment.{korail}
use korail_ktx_macro_telegra.Reservation.Process.{
  RunningReservation, TrainSearchParams, Credentials, Os, Config, alive, delivered, is_stale,
  reap_children,
}
use korail_ktx_macro_telegra.Reservation.Ending.{
  detect_dead_searches, detect_each, detect_one, is_lost,
}
use korail_ktx_macro_telegra.Callback.{
  Request, Callbacks, value, complete, get, verify_internal_request, is_given, chat_of, matches,
}
use korail_ktx_macro_telegra.Callback.Ended.{ends, ended_not_reported}

abbrev config : Config
config = record { run_id = 8; resume_on_restart = true; max_concurrent_searches = 5 }

-- No process is left.
abbrev os : Os
os = record {
  spawn = alive 500;
  exited = λ pid. true;
  owns = λ pid. false;
  terminate = λ pid. delivered;
  stops = λ pid. true;
  kill = λ pid. delivered;
  dies = λ pid. true;
}

abbrev to_busan : TrainSearchParams
to_busan = record { operator = korail; details = 3 }

abbrev search : RunningReservation
search = record {
  chat_id = 7;
  process_id = 500;
  korail_id = 12;
  search_params = to_busan;
  run_id = 8;
}

abbrev login : Credentials
login = record { korail_id = 12; korail_pw = 34 }

abbrev searching : Callbacks
searching = record {
  service = record {
    running = (7, search) ∷ [];
    dead = [];
    resume_credentials = (7, login) ∷ [];
    app_session_starts = [];
    partial_reservations = [];
    sessions = [];
    children = 500 ∷ [];
    shutting_down = false;
    sent = [];
  };
  has_multi_status = λ chat. false;
  reminders = [];
}

abbrev success : Request
success = record {
  from_loopback = true;
  token = 77;
  chat_id = value 7;
  msg = 90;
  status = complete;
  is_multi = false;
  readable_seats = true;
  is_random = false;
}

ended_not_reported_example :
    is_some (lookup 7 (detect_dead_searches config os (get 77 success searching).1.service).1.dead)
    ≡ is_some (lookup 7 searching.service.dead)
unfolding IsKeyed lookup ends is_given chat_of verify_internal_request matches
ended_not_reported_example = ended_not_reported 77 success searching config os (refl, refl, tt) refl

-- Without the callback the sweep reports a death.
without_callback : (detect_dead_searches config os searching.service).0 ≡ 1
unfolding detect_dead_searches detect_each detect_one is_lost is_stale lookup reap_children
without_callback = refl
