-- ===== src/Payment.antt =====
-- The payment records of src/korail_bot/models/reservation.py, with the railway of
-- models/operator.py. A time is a whole number of seconds; what a method reads from
-- `datetime.now()` is its argument `now`, so one call reads one time. A text that the program only
-- compares and tests for emptiness (a reservation number, a train's description) is a number, and
-- 0 is the empty text.
pub mod Seats
pub mod Counts
mod Tests
use korail_ktx_macro_telegra.Common.{
  ℕ, ◌-◌, Bool, true, false, not, ◌&&◌, ◌||◌, Option, none, some, List, [], ◌∷◌, ltb, leb, ◌==◌,
  if◌then◌else◌, count_if, keep, map,
}

pub data Operator : Type 0 where
  korail srt : Operator

pub record PaymentStatus : Type 0 where
  pub chat_id : ℕ
  pub completed : Bool
  pub created_at : Option ℕ
  pub reminder_active : Bool
  pub reservation_id : ℕ
  pub train_info : ℕ
  pub operator : Operator
  pub expires_at : Option ℕ
  pub cancelled : Bool

-- `deadline and datetime.now() >= deadline`
unfoldable pub past_deadline : Option ℕ → ℕ → Bool
past_deadline none now = false
past_deadline (some t) now = leb t now

unfoldable pub is_awaiting_payment : PaymentStatus → ℕ → Bool
unfolding past_deadline
is_awaiting_payment s now =
    if s.completed || s.cancelled then false else not (past_deadline s.expires_at now)

pub data ReservationPaymentStatus : Type 0 where
  pending paid expired cancelled : ReservationPaymentStatus

abbrev pub is_pending : ReservationPaymentStatus → Bool
is_pending pending = true
is_pending _ = false

abbrev pub is_paid : ReservationPaymentStatus → Bool
is_paid paid = true
is_paid _ = false

abbrev pub has_expired : ReservationPaymentStatus → Bool
has_expired expired = true
has_expired _ = false

pub record SingleReservationInfo : Type 0 where
  pub reservation_id : ℕ
  pub reserved_at : ℕ
  pub expires_at : ℕ
  pub status : ReservationPaymentStatus
  pub seat_number : ℕ
  pub train_info : ℕ

unfoldable pub is_expired : SingleReservationInfo → ℕ → Bool
is_expired r now = leb r.expires_at now

unfoldable pub get_remaining_seconds : SingleReservationInfo → ℕ → ℕ
get_remaining_seconds r now =
    if not (is_pending r.status) then 0 else if leb r.expires_at now then 0 else r.expires_at - now

pub record MultiReservationStatus : Type 0 where
  pub chat_id : ℕ
  pub reservations : List SingleReservationInfo
  pub total_seats : ℕ
  pub created_at : ℕ
  pub manually_stopped : Bool
  pub operator : Operator

-- The test that `get_pending_count` and `get_most_urgent_reservation` share.
unfoldable pub is_live : ℕ → SingleReservationInfo → Bool
unfolding is_expired
is_live now r = is_pending r.status && not (is_expired r now)

unfoldable pub get_pending_count : MultiReservationStatus → ℕ → ℕ
unfolding is_live
get_pending_count m now = count_if (is_live now) m.reservations

unfoldable pub get_paid_count : MultiReservationStatus → ℕ
get_paid_count m = count_if (λ r. is_paid r.status) m.reservations

unfoldable pub get_expired_count : MultiReservationStatus → ℕ → ℕ
unfolding is_expired
get_expired_count m now = count_if (λ r. has_expired r.status || is_expired r now) m.reservations

unfoldable pub should_show_reminder : MultiReservationStatus → ℕ → Bool
unfolding get_pending_count
should_show_reminder m now = if m.manually_stopped then false else ltb 0 (get_pending_count m now)

-- `min(pending, key=lambda r: r.expires_at)`: the first of the earliest.
unfoldable pub sooner : SingleReservationInfo → SingleReservationInfo → SingleReservationInfo
sooner best r = if ltb r.expires_at best.expires_at then r else best

unfoldable pub earliest : SingleReservationInfo → List SingleReservationInfo → SingleReservationInfo
earliest best [] = best
earliest best (r ∷ rs) = earliest (sooner best r) rs

unfoldable pub first_due : List SingleReservationInfo → Option SingleReservationInfo
unfolding earliest sooner
first_due [] = none
first_due (r ∷ rs) = some (earliest r rs)

unfoldable pub get_most_urgent_reservation :
    MultiReservationStatus → ℕ → Option SingleReservationInfo
unfolding first_due is_live
get_most_urgent_reservation m now = first_due (keep (is_live now) m.reservations)

unfoldable pub pay_seat : ℕ → List SingleReservationInfo → Bool × List SingleReservationInfo
pay_seat seat [] = (false, [])
pay_seat seat (r ∷ rs) =
    let (found, rest) = pay_seat seat rs in
    if r.seat_number == seat then (true, record r { status = paid } ∷ rs) else (found, r ∷ rest)

-- Marks the first record with the seat's number.
unfoldable pub mark_reservation_paid : MultiReservationStatus → ℕ → Bool × MultiReservationStatus
unfolding pay_seat
mark_reservation_paid m seat =
    let (found, rs) = pay_seat seat m.reservations in (found, record m { reservations = rs })

unfoldable pub expire_if_pending : SingleReservationInfo → SingleReservationInfo
expire_if_pending r = if is_pending r.status then record r { status = expired } else r

unfoldable pub mark_all_expired : MultiReservationStatus → MultiReservationStatus
unfolding expire_if_pending
mark_all_expired m = record m { reservations = map expire_if_pending m.reservations }
