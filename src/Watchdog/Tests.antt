-- ===== src/Watchdog/Tests.antt =====
-- A pass over a small world, and instances of the theorems.
use korail_ktx_macro_telegra.Common.{
  ℕ, ◌+◌, ◌≡◌, refl, true, false, none, some, [], ◌∷◌, ◌==◌, length, if◌then◌else◌, some_inj, sym,
  ap, All2, ◌++◌, map,
}
use korail_ktx_macro_telegra.Common.Dict.{lookup, insert}
use korail_ktx_macro_telegra.Payment.{
  korail, srt, pending, PaymentStatus, MultiReservationStatus, SingleReservationInfo, past_deadline,
}
use korail_ktx_macro_telegra.Storage.{
  Storage, get_payment_status, get_multi_reservation_status, save_multi_reservation_status,
  claim_payment_watch,
}
use korail_ktx_macro_telegra.Watchdog.{
  still_watching, check, check_watching, check_claimed, client, listed, gone, raised, Client,
  Services, World, settle_single, settle_seats, settle_each, save_settled, newly_settled,
  store_settled, report_seats,
}
use korail_ktx_macro_telegra.Watchdog.Settled.{open_of, settled_seats, announcement, remaining_of}
use korail_ktx_macro_telegra.Watchdog.Seats.{
  settle_seats_counts, settle_seats-FollowsAnswer, FollowsAnswer,
}
use korail_ktx_macro_telegra.Watchdog.Single.{settle_single_once}
use korail_ktx_macro_telegra.Watchdog.Pass.{check_reports}
use korail_ktx_macro_telegra.Watchdog.Reports.{IsCheckedBy}
use korail_ktx_macro_telegra.Telegram.{payment_verified}

-- Chat 5 holds booking 900; chat 6 holds the seats 901 and 902 of a run.
abbrev booking : PaymentStatus
booking = record {
  chat_id = 5;
  completed = false;
  created_at = some 0;
  reminder_active = true;
  reservation_id = 900;
  train_info = 7;
  operator = srt;
  expires_at = some 600;
  cancelled = false;
}

abbrev seat : ℕ → SingleReservationInfo
seat n = record {
  reservation_id = 900 + n;
  reserved_at = 0;
  expires_at = 600;
  status = pending;
  seat_number = n;
  train_info = 7;
}

abbrev seats : MultiReservationStatus
seats = record {
  chat_id = 6;
  reservations = seat 1 ∷ seat 2 ∷ [];
  total_seats = 2;
  created_at = 0;
  manually_stopped = false;
  operator = korail;
}

abbrev storage : Storage
storage = record {
  payment_statuses = (5, booking) ∷ [];
  multi_statuses = (6, seats) ∷ [];
  payment_watches = (5, record { owner = 8; until = 400 }) ∷ [];
  current_seats = (6, 0) ∷ [];
  payment_ready = λ c i. false;
}

abbrev world : World
world = record { storage = storage; clients = []; busy = false; sent = [] }

-- The railway no longer lists booking 900 and seat 901.
abbrev services : Services
services = record {
  outstanding = λ c r. if r == 902 then listed else gone;
  login = λ op u p. true;
  get_onboarded_account = λ c op. some (11, 12);
  is_developer = λ c. false;
  preconfigured = λ op. none;
  owner = 7;
  lease = 60;
  verify_interval = 5;
  poll_interval = 30;
}

abbrev rail : Client
rail = record { operator = korail; username = 11 }

-- Seat 1 is reported and the next is released; seat 2 is still listed before its deadline.
settles_one : (settle_seats services 300 6 rail world).0 ≡ some 1
unfolding settle_seats lookup settle_each past_deadline save_settled newly_settled
settles_one = refl

releases_next : (settle_seats services 300 6 rail world).1.storage.payment_ready 6 0 ≡ true
unfolding settle_seats lookup insert settle_each past_deadline save_settled newly_settled
    store_settled report_seats save_multi_reservation_status
releases_next = refl

own_run :
    (m : MultiReservationStatus) → get_multi_reservation_status 6 storage ≡ some m → m.chat_id ≡ 6
unfolding get_multi_reservation_status lookup
own_run m e = ap (λ (r : MultiReservationStatus). r.chat_id) (sym (some_inj e))

own_record : (p : PaymentStatus) → get_payment_status 5 storage ≡ some p → p.chat_id ≡ 5
unfolding get_payment_status lookup
own_record p e = ap (λ (r : PaymentStatus). r.chat_id) (sym (some_inj e))

no_record : (p : PaymentStatus) → get_payment_status 6 storage ≡ some p → p.chat_id ≡ 6
unfolding get_payment_status lookup
no_record p e = cc

settle_seats_counts_example :
    let w' = (settle_seats services 300 6 rail world).1 in
    (1 ≡ length (settled_seats 6 world w'))
    × (w'.sent
        ≡ [] ++ map (announcement 6 (remaining_of 6 300 w'.storage)) (settled_seats 6 world w'))
    × (length w'.sent ≡ 0 + 1)
    × (open_of 6 storage ≡ 1 + open_of 6 w'.storage)
unfolding settle_seats lookup insert settle_each past_deadline save_settled newly_settled
settle_seats_counts_example =
    settle_seats_counts services 300 6 rail world {n = 1}
      {w' = (settle_seats services 300 6 rail world).1} own_run refl

settle_seats-FollowsAnswer_example :
    let w' = (settle_seats services 300 6 rail world).1 in
    (m' : MultiReservationStatus) × (get_multi_reservation_status 6 w'.storage ≡ some m')
    × All2
        (FollowsAnswer (λ r. services.outstanding rail r.reservation_id) 300)
        seats.reservations
        m'.reservations
unfolding lookup get_multi_reservation_status
settle_seats-FollowsAnswer_example =
    settle_seats-FollowsAnswer services 300 6 rail world seats refl refl

settle_single_once_example :
    let w' = (settle_single services 300 5 rail world).1 in
    settle_single (record services { outstanding = λ c r. raised }) 900 5 rail w' ≡ (some 0, w')
unfolding settle_single lookup insert
settle_single_once_example =
    settle_single_once services 300 5 rail world own_record refl
      (record services { outstanding = λ c r. raised }) 900 rail

check_reports_example : IsCheckedBy 300 6 services world 1 (check services 300 6 world).1
unfolding check check_watching check_claimed client claim_payment_watch settle_single settle_seats
    lookup insert settle_each past_deadline save_settled newly_settled
check_reports_example =
    check_reports services 300 6 world {n = 1} {w' = (check services 300 6 world).1} no_record
      own_run refl

-- Another watcher holds chat 5 until 400; the check after that reports its booking.
held_back : (check services 300 5 world).0 ≡ some 0
unfolding check claim_payment_watch lookup
held_back = refl

reported_later : (check services 450 5 world).1.sent ≡ (5, payment_verified) ∷ []
unfolding check check_watching check_claimed client claim_payment_watch settle_single settle_seats
    lookup insert settle_each past_deadline save_settled newly_settled still_watching
reported_later = refl
