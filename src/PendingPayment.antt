-- ===== src/PendingPayment.antt =====
-- src/korail_bot/services/pending_payment_service.py: the seats that a chat holds unpaid, and giving
-- them back. The clock is read once for each call; the railway's answers are a parameter, one for each
-- reservation number, and a client that raises is not modelled. The lines that describe a seat are
-- its reservation number here; `describe` only words them.
pub mod Seats
pub mod GiveBack
pub mod Silent
mod Tests
use korail_ktx_macro_telegra.Common.{
  ℕ, Bool, true, false, not, ◌&&◌, ◌||◌, Option, none, some, List, [], ◌∷◌, ltb, ◌==◌,
  if◌then◌else◌, is_some, any, keep, map, sort_by,
}
use korail_ktx_macro_telegra.Payment.{
  Operator, korail, PaymentStatus, is_awaiting_payment, cancelled, SingleReservationInfo,
  MultiReservationStatus, is_live, get_pending_count,
}
use korail_ktx_macro_telegra.Storage.{
  Storage, get_payment_status, save_payment_status, get_multi_reservation_status,
  save_multi_reservation_status, get_current_seat_index,
}
use korail_ktx_macro_telegra.Telegram.{
  Message, Outbox, sends, payment_cancel_nothing, payment_cancel_mid_run, payment_cancel_done,
  payment_cancel_confirm, payment_cancel_no_account, payment_cancel_login_failed,
  payment_cancel_refused,
}

pub record PendingReservation : Type 0 where
  pub reservation_id : ℕ
  pub train_info : ℕ
  pub expires_at : Option ℕ
  pub seat_number : Option ℕ

-- The railways, the accounts and the settings. A missing login is 0.
pub record Rails : Type 0 where
  pub login : Operator → ℕ → ℕ → Bool
  pub cancel_reservation : Operator → ℕ → Bool
  pub get_onboarded_account : ℕ → Operator → Option (ℕ × ℕ)
  pub is_developer : ℕ → Bool
  pub preconfigured : Operator → Option (ℕ × ℕ)

pub record Desk : Type 0 where
  pub storage : Storage
  pub sent : Outbox

abbrev pub tell : ℕ → Message → Desk → Desk
tell chat message d = record d { sent = sends chat message d.sent }

abbrev pub of_seat : SingleReservationInfo → PendingReservation
of_seat r = record {
  reservation_id = r.reservation_id;
  train_info = r.train_info;
  expires_at = some r.expires_at;
  seat_number = some r.seat_number;
}

abbrev pub of_booking : PaymentStatus → PendingReservation
of_booking p = record {
  reservation_id = p.reservation_id;
  train_info = p.train_info;
  expires_at = p.expires_at;
  seat_number = none;
}

unfoldable pub single_status : ℕ → ℕ → Storage → Option PaymentStatus
single_status now chat s = elim (get_payment_status chat s) [
  | none ↦ none
  | some p ↦ if is_awaiting_payment p now then some p else none
]

unfoldable pub multi_status : ℕ → ℕ → Storage → Option MultiReservationStatus
multi_status now chat s = elim (get_multi_reservation_status chat s) [
  | none ↦ none
  | some m ↦ if ltb 0 (get_pending_count m now) then some m else none
]

unfoldable pub pending_seats : ℕ → MultiReservationStatus → List PendingReservation
pending_seats now m = map of_seat (keep (is_live now) (sort_by (λ r. r.seat_number) m.reservations))

-- `pending`
unfoldable pub pending_reservations : ℕ → ℕ → Storage → List PendingReservation
pending_reservations now chat s = elim (multi_status now chat s) [
  | some m ↦ pending_seats now m
  | none ↦ elim (single_status now chat s) [ none ↦ [] | some p ↦ of_booking p ∷ [] ]
]

unfoldable pub holding_operator : ℕ → ℕ → Storage → Operator
holding_operator now chat s = elim (multi_status now chat s) [
  | some m ↦ m.operator
  | none ↦ elim (single_status now chat s) [ none ↦ korail | some p ↦ p.operator ]
]

unfoldable pub still_booking : ℕ → Storage → Bool
still_booking chat s = is_some (get_current_seat_index chat s)

abbrev pub is_empty : List PendingReservation → Bool
is_empty [] = true
is_empty (_ ∷ _) = false

abbrev pub lines : List PendingReservation → List ℕ
lines items = map (λ i. i.reservation_id) items

unfoldable pub confirm_cancellation : ℕ → ℕ → Desk → Desk
confirm_cancellation now chat d =
    let items = pending_reservations now chat d.storage in
    if is_empty items
    then tell chat payment_cancel_nothing d
    else if still_booking chat d.storage
    then tell chat payment_cancel_mid_run d
    else tell chat (payment_cancel_confirm (lines items)) d

-- One of the given numbers, of which the empty one counts for nothing.
unfoldable pub is_among : List PendingReservation → ℕ → Bool
is_among items number = any (λ i. not (i.reservation_id == 0) && i.reservation_id == number) items

unfoldable pub cancel_seat : List PendingReservation → SingleReservationInfo → SingleReservationInfo
cancel_seat items r = if is_among items r.reservation_id then record r { status = cancelled } else r

unfoldable pub cancel_seats : ℕ → List PendingReservation → Storage → Storage
cancel_seats chat items s = elim (get_multi_reservation_status chat s) [
  | none ↦ s
  | some m ↦
      save_multi_reservation_status
        (record m {
          reservations = map (cancel_seat items) m.reservations;
          manually_stopped = true;
        })
        s
]

unfoldable pub cancel_booking : ℕ → List PendingReservation → Storage → Storage
cancel_booking chat items s = elim (get_payment_status chat s) [
  | none ↦ s
  | some p ↦
      if is_among items p.reservation_id
      then save_payment_status
          (record p { cancelled = true; completed = true; reminder_active = false }) s
      else s
]

-- `_record_cancelled`
unfoldable pub record_cancelled : ℕ → List PendingReservation → Storage → Storage
record_cancelled chat items s =
    if is_empty items then s else cancel_booking chat items (cancel_seats chat items s)

module _ (rails : Rails) where
  unfoldable pub login_of : ℕ → Operator → ℕ × ℕ
  login_of chat op = elim (rails.get_onboarded_account chat op) [
    | some account ↦ account
    | none ↦
        if rails.is_developer chat
        then elim (rails.preconfigured op) [ none ↦ (0, 0) | some fixed ↦ fixed ]
        else (0, 0)
  ]

  -- `_sign_in`: `none` is a client that is logged in.
  unfoldable pub sign_in : ℕ → Operator → Option Message
  sign_in chat op =
      let (username, password) = login_of chat op in
      if username == 0 || password == 0
      then some (payment_cancel_no_account op)
      else if rails.login op username password
      then none
      else some (payment_cancel_login_failed op)

  unfoldable pub gives_back : Operator → PendingReservation → Bool
  gives_back op i = not (i.reservation_id == 0) && rails.cancel_reservation op i.reservation_id

  -- With a client at hand.
  unfoldable pub give_back : ℕ → Operator → List PendingReservation → Desk → Bool × Desk
  give_back chat op items d =
      let done = keep (gives_back op) items in
      let failed = keep (λ i. not (gives_back op i)) items in
      let d' = record d { storage = record_cancelled chat done d.storage } in
      let told = sends chat (payment_cancel_done (lines done)) d.sent in
      if is_empty done then (false, tell chat (payment_cancel_refused op) d') else (
        true,
        record d' {
          sent = if is_empty failed then told else sends chat (payment_cancel_refused op) told;
        },
      )

  -- With the seats that are pending and their railway.
  unfoldable pub cancel_items : ℕ → Operator → List PendingReservation → Desk → Bool × Desk
  cancel_items chat op items d =
      if is_empty items
      then (false, tell chat payment_cancel_nothing d)
      else if still_booking chat d.storage
      then (false, tell chat payment_cancel_mid_run d)
      else elim (sign_in chat op) [
        | some refusal ↦ (false, tell chat refusal d)
        | none ↦ give_back chat op items d
      ]

  unfoldable pub cancel : ℕ → ℕ → Desk → Bool × Desk
  cancel now chat d =
      cancel_items chat (holding_operator now chat d.storage)
        (pending_reservations now chat d.storage) d
