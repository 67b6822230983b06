-- ===== src/BackProcess/Tests.antt =====
-- A booking of chat 7 whose railway answers late, and one whose railway never answers.
use korail_ktx_macro_telegra.Storage.{get_payment_status}
use korail_ktx_macro_telegra.Common.{
  ℕ, ◌+◌, ◌≤◌, ◌≡◌, refl, Bool, true, false, Option, none, some, List, [], ◌∷◌, length,
}
use korail_ktx_macro_telegra.Common.Dict.{lookup}
use korail_ktx_macro_telegra.Payment.{korail}
use korail_ktx_macro_telegra.Telegram.{sends, payment_expired_verified}
use korail_ktx_macro_telegra.Watchdog.{Services, World, gone, settle_single}
use korail_ktx_macro_telegra.PendingPayment.{Desk}
use korail_ktx_macro_telegra.BackProcess.{Poll, Booked, watch_payment, watch_loop}
use korail_ktx_macro_telegra.BackProcess.Watch.{watch_payment_once, silence_means_loss}

abbrev booked : Booked
booked = record {
  chat_id = 7;
  reservation_id = 41;
  train_info = 5;
  operator = korail;
  deadline = 600;
  watch_owner = 3;
  lease = 60;
}

abbrev desk : Desk
desk = record {
  storage = record {
    payment_statuses = [];
    multi_statuses = [];
    payment_watches = [];
    current_seats = [];
    payment_ready = λ chat seat. false;
  };
  sent = [];
}

abbrev poll : ℕ → Option Bool → Poll
poll now answer = record { now = now; woken = now; outstanding = answer }

abbrev paid_late : List Poll
paid_late = poll 100 (some true) ∷ poll 120 none ∷ poll 140 (some false) ∷ []

abbrev never_answered : List Poll
never_answered = poll 100 none ∷ poll 590 none ∷ poll 601 none ∷ []

abbrev services : Services
services = record {
  outstanding = λ rail number. gone;
  login = λ op user password. true;
  get_onboarded_account = λ chat op. some (12, 34);
  is_developer = λ chat. false;
  preconfigured = λ op. none;
  owner = 1;
  lease = 60;
  verify_interval = 20;
  poll_interval = 30;
}

abbrev watch : World
watch = record {
  storage = (watch_payment booked 90 paid_late desk).1.storage;
  clients = [];
  busy = true;
  sent = [];
}

watch_payment_once_example :
    (length (watch_payment booked 90 paid_late desk).1.sent ≤ length desk.sent + 1)
    × (settle_single services 200 7 (record { operator = korail; username = 12 }) watch
        ≡ (some 0, watch))
unfolding get_payment_status lookup watch_payment watch_loop
watch_payment_once_example =
    watch_payment_once booked 90 paid_late desk refl refl services 200
      (record { operator = korail; username = 12 }) watch refl

silence_means_loss_example :
    let (ended, d') = watch_payment booked 90 never_answered desk in
    (ended ≡ true) × (d'.sent ≡ sends 7 payment_expired_verified desk.sent)
silence_means_loss_example =
    silence_means_loss booked 90 never_answered desk (refl, (refl, (refl, tt))) refl
