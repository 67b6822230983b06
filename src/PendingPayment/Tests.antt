-- ===== src/PendingPayment/Tests.antt =====
-- Two seats of a run, of which the railway takes one back, and a single booking.
use korail_ktx_macro_telegra.Common.{
  ℕ, ◌≡◌, refl, true, false, ◌&&◌, none, some, [], ◌∷◌, any, ◌==◌, arith, length,
}
use korail_ktx_macro_telegra.Common.Dict.{lookup}
use korail_ktx_macro_telegra.Payment.{
  korail, PaymentStatus, SingleReservationInfo, MultiReservationStatus, ReservationPaymentStatus,
  get_pending_count, is_awaiting_payment,
}
use korail_ktx_macro_telegra.Storage.{
  Storage, get_multi_reservation_status, get_current_seat_index, get_payment_status,
}
use korail_ktx_macro_telegra.Watchdog.{Services, World, gone, settle_single}
use korail_ktx_macro_telegra.PendingPayment.{
  Rails, Desk, cancel, gives_back, pending_seats, cancel_items, pending_reservations, multi_status,
  still_booking, sign_in, login_of, give_back, single_status,
}
use korail_ktx_macro_telegra.PendingPayment.GiveBack.{may_ask, StillHeld, cancel-gives_back}
use korail_ktx_macro_telegra.PendingPayment.Silent.{given_back_silent}

-- Every login works, and reservation 41 can be given back.
abbrev rails : Rails
rails = record {
  login = λ op user password. true;
  cancel_reservation = λ op number. number == 41;
  get_onboarded_account = λ chat op. some (12, 34);
  is_developer = λ chat. false;
  preconfigured = λ op. none;
}

abbrev seat : ℕ → ℕ → SingleReservationInfo
seat number id = record {
  reservation_id = id;
  reserved_at = 50;
  expires_at = 600;
  status = ReservationPaymentStatus.pending;
  seat_number = number;
  train_info = 5;
}

abbrev two_seats : MultiReservationStatus
two_seats = record {
  chat_id = 7;
  reservations = seat 2 42 ∷ seat 1 41 ∷ [];
  total_seats = 2;
  created_at = 50;
  manually_stopped = false;
  operator = korail;
}

abbrev booking : PaymentStatus
booking = record {
  chat_id = 7;
  completed = false;
  created_at = some 50;
  reminder_active = true;
  reservation_id = 41;
  train_info = 5;
  operator = korail;
  expires_at = some 600;
  cancelled = false;
}

abbrev empty : Storage
empty = record {
  payment_statuses = [];
  multi_statuses = [];
  payment_watches = [];
  current_seats = [];
  payment_ready = λ chat seat. false;
}

abbrev with_run : Desk
with_run = record { storage = record empty { multi_statuses = (7, two_seats) ∷ [] }; sent = [] }

abbrev with_booking : Desk
with_booking = record { storage = record empty { payment_statuses = (7, booking) ∷ [] }; sent = [] }

cancel-gives_back_example :
    let (done, d') = cancel rails 100 7 with_run in
    (done ≡ (
      may_ask rails 7 korail with_run.storage
      && any (gives_back rails korail) (pending_seats 100 two_seats)))
    × StillHeld rails 100 7 two_seats done d'.storage
unfolding get_multi_reservation_status lookup get_pending_count
cancel-gives_back_example = cancel-gives_back rails 100 7 two_seats with_run refl refl (omega arith)

-- The chat is told of the seat that went back and of the one that did not.
both_told : length (cancel rails 100 7 with_run).1.sent ≡ 2
unfolding cancel cancel_items pending_reservations multi_status get_multi_reservation_status lookup
    get_pending_count pending_seats still_booking get_current_seat_index sign_in login_of give_back
    gives_back
both_told = refl

-- Railways that list nothing any more.
abbrev services : Services
services = record {
  outstanding = λ rail number. gone;
  login = λ op user password. true;
  get_onboarded_account = λ chat op. some (12, 34);
  is_developer = λ chat. false;
  preconfigured = λ op. none;
  owner = 1;
  lease = 60;
  verify_interval = 20;
  poll_interval = 30;
}

abbrev watch : World
watch = record {
  storage = (cancel rails 100 7 with_booking).1.storage;
  clients = [];
  busy = true;
  sent = [];
}

given_back_silent_example :
    settle_single services 200 7 (record { operator = korail; username = 12 }) watch
    ≡ (some 0, watch)
unfolding get_payment_status lookup get_multi_reservation_status cancel cancel_items
    pending_reservations multi_status single_status is_awaiting_payment still_booking
    get_current_seat_index sign_in login_of give_back gives_back
given_back_silent_example =
    given_back_silent rails 100 7 booking with_booking refl refl refl refl services 200
      (record { operator = korail; username = 12 }) watch refl
