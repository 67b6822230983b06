-- ===== src/Reservation/Tests.antt =====
-- Two chats search on one railway under a ceiling of two; a process dies, and a restart follows.
use korail_ktx_macro_telegra.Common.{
  ◌+◌, ◌≤◌, ◌≡◌, refl, true, false, not, ◌&&◌, ◌||◌, [], ◌∷◌, arith, none, max, is_some,
  if◌then◌else◌, ◌==◌, count_if, length,
}
use korail_ktx_macro_telegra.Common.Dict.{lookup, insert, values}
use korail_ktx_macro_telegra.Payment.{korail}
use korail_ktx_macro_telegra.Telegram.{search_resumed, sent_to, sends, search_died}
use korail_ktx_macro_telegra.Reservation.Process.{
  TrainSearchParams, RunningReservation, State, Os, Config, Credentials, gone_early, alive,
  delivered, is_stale, reap_children, terminate_search_process,
}
use korail_ktx_macro_telegra.Reservation.Start.{
  start_reservation_process, running_on, under_limit, launch, record_search, note_process,
  keep_login,
}
use korail_ktx_macro_telegra.Reservation.Ending.{
  detect_dead_searches, reconcile_after_restart, reconcile_one, cancel_reservation,
  resume_dead_search, detect_each, detect_one, is_lost, reconcile_each, resume, has_partial,
}
use korail_ktx_macro_telegra.Reservation.Outcome.{
  start_lem, is_admitted, lives, record_after, death_after,
}
use korail_ktx_macro_telegra.Reservation.Limit.{start_bounded}
use korail_ktx_macro_telegra.Reservation.Keyed.{IsKeyed}
use korail_ktx_macro_telegra.Reservation.Death.{detect_lem, lost_at}
use korail_ktx_macro_telegra.Reservation.Restart.{reconcile_lem, fresh_at}
use korail_ktx_macro_telegra.Reservation.Stop.{cancel_lem, reconcile_dead_end, offers_resume}

abbrev config : Config
config = record { run_id = 8; resume_on_restart = true; max_concurrent_searches = 2 }

abbrev empty : State
empty = record {
  running = [];
  dead = [];
  resume_credentials = [];
  app_session_starts = [];
  partial_reservations = [];
  sessions = [];
  children = [];
  shutting_down = false;
  sent = [];
}

-- Process 500 starts and stays; 501 does not.
abbrev works : Os
works = record {
  spawn = alive 500;
  exited = λ c. c == 501;
  owns = λ c. c == 500;
  terminate = λ c. delivered;
  stops = λ c. true;
  kill = λ c. delivered;
  dies = λ c. true;
}

abbrev fails : Os
fails = record works { spawn = gone_early 502; owns = λ c. false }

abbrev to_busan : TrainSearchParams
to_busan = record { operator = korail; details = 3 }

abbrev login : Credentials
login = record { korail_id = 12; korail_pw = 34 }

abbrev searching : State
searching = (start_reservation_process config works 7 login to_busan false search_resumed empty).1

-- A record that the run before left behind.
abbrev left : RunningReservation
left = record {
  chat_id = 9;
  process_id = 400;
  korail_id = 12;
  search_params = to_busan;
  run_id = 6;
}

abbrev restarted : State
restarted = record empty { running = (9, left) ∷ []; resume_credentials = (9, login) ∷ [] }

start_lem_example :
    let (done, s') =
      start_reservation_process config works 7 login to_busan false search_resumed empty in
    let ok = is_admitted config 7 to_busan false empty in
    (done ≡ (ok && lives works.spawn))
    × (lookup 7 s'.running ≡ (
        if 7 == 7 && ok
        then record_after config 7 login to_busan works.spawn (lookup 7 empty.running)
        else lookup 7 empty.running))
    × (lookup 7 s'.dead ≡ (
        if 7 == 7 && ok
        then death_after config 7 login to_busan works.spawn (lookup 7 empty.dead)
        else lookup 7 empty.dead))
start_lem_example = start_lem config 7 login to_busan search_resumed 7 works false empty

start_bounded_example :
    running_on korail
      (start_reservation_process config works 8 login to_busan false search_resumed
        searching).1.running
    ≤ max (running_on korail searching.running) 2
start_bounded_example =
    start_bounded config 8 login to_busan search_resumed korail works searching (omega arith)

searching-IsKeyed : IsKeyed searching.running
unfolding IsKeyed start_reservation_process lookup reap_children under_limit running_on launch
    record_search note_process keep_login insert
searching-IsKeyed = (refl, refl, tt)

detect_lem_example :
    let (n, s') = detect_dead_searches config fails searching in
    let lost = not searching.shutting_down && lost_at config fails 7 searching.running in
    (lookup 7 s'.running ≡ (if lost then none else lookup 7 searching.running))
    × (is_some (lookup 7 s'.dead) ≡ (is_some (lookup 7 searching.dead) || lost))
    × (length s'.sent ≡ length searching.sent + n)
    × (sent_to 7 s'.sent ≡ (
        if lost
        then sends 7
            (search_died true (true && is_some (lookup 7 searching.resume_credentials)))
            (sent_to 7 searching.sent)
        else sent_to 7 searching.sent))
detect_lem_example = detect_lem config fails 7 searching searching-IsKeyed

one_found : (detect_dead_searches config fails searching).0 ≡ 1
unfolding detect_dead_searches start_reservation_process lookup reap_children under_limit running_on
    launch record_search note_process keep_login detect_each insert detect_one is_lost is_stale
one_found = refl

left-IsKeyed : IsKeyed restarted.running
unfolding IsKeyed lookup
left-IsKeyed = (refl, refl, tt)

reconcile_lem_example :
    let (n, s') = reconcile_after_restart config (λ chat. works) restarted in
    (fresh_at config 9 s'.running ≡ true)
    × (n.resumed + n.interrupted ≡ count_if (is_stale 8) (values restarted.running))
reconcile_lem_example = reconcile_lem config (λ chat. works) 9 restarted left-IsKeyed

resumed_one : (reconcile_after_restart config (λ chat. works) restarted).0.resumed ≡ 1
unfolding reconcile_after_restart reconcile_each is_stale reconcile_one resume has_partial lookup
    terminate_search_process start_reservation_process launch
resumed_one = refl

cancel_lem_example :
    let (done, s') = cancel_reservation works 7 searching in
    (done ≡ is_some (lookup 7 searching.running))
    × (lookup 7 s'.running ≡ (if 7 == 7 then none else lookup 7 searching.running))
    × (lookup 7 s'.resume_credentials
        ≡ (if 7 == 7 && done then none else lookup 7 searching.resume_credentials))
cancel_lem_example = cancel_lem works 7 7 searching

reconcile_dead_end_example :
    let (n, s') =
      reconcile_one config fails left (record { resumed = 0; interrupted = 0 }, restarted) in
    (offers_resume 9 s' ≡ true)
    × (lookup 9 s'.resume_credentials ≡ none)
    × ((resume_dead_search config works 9 s').0 ≡ false)
    × ((resume_dead_search config works 9 s').1.children ≡ s'.children)
    × ((resume_dead_search config works 9 s').1.running ≡ s'.running)
unfolding has_partial lookup
reconcile_dead_end_example =
    reconcile_dead_end config fails left login works (record { resumed = 0; interrupted = 0 }) 502
      restarted refl refl refl refl
