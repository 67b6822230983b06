-- ===== src/Payment/Tests.antt =====
-- Runs of the payment records on one random-seating run, and instances of the theorems.
use mathlib.Core.List.{Mem}
use korail_ktx_macro_telegra.Common.{ℕ, ◌+◌, ◌≤◌, ◌≡◌, refl, true, false, [], ◌∷◌, All}
use korail_ktx_macro_telegra.Payment.{
  korail, pending, paid, ReservationPaymentStatus, SingleReservationInfo, MultiReservationStatus,
  is_live, get_most_urgent_reservation, get_pending_count, get_paid_count, get_expired_count,
  mark_reservation_paid, should_show_reminder, mark_all_expired,
}
use korail_ktx_macro_telegra.Payment.Seats.{most_urgent_earliest}

-- A seat with a number, a deadline and a status.
abbrev seat : ℕ → ℕ → ReservationPaymentStatus → SingleReservationInfo
seat n deadline status = record {
  reservation_id = 900 + n;
  reserved_at = 0;
  expires_at = deadline;
  status = status;
  seat_number = n;
  train_info = 7;
}

abbrev seats : MultiReservationStatus
seats = record {
  chat_id = 5;
  reservations = seat 1 600 paid ∷ seat 2 900 pending ∷ seat 3 700 pending ∷ [];
  total_seats = 3;
  created_at = 0;
  manually_stopped = false;
  operator = korail;
}

counts_before : (get_pending_count seats 650 ≡ 2) × (get_paid_count seats ≡ 1)
unfolding get_pending_count get_paid_count
counts_before = (refl, refl)

-- The paid seat is past its deadline, and is counted as expired too.
counted_twice : get_expired_count seats 650 ≡ 1
unfolding get_expired_count
counted_twice = refl

reminder_over : should_show_reminder (mark_all_expired seats) 650 ≡ false
unfolding should_show_reminder mark_all_expired
reminder_over = refl

mark_unknown : (mark_reservation_paid seats 9).0 ≡ false
unfolding mark_reservation_paid
mark_unknown = refl

most_urgent_earliest_example :
    Mem (seat 3 700 pending) seats.reservations
    × (is_live 650 (seat 3 700 pending) ≡ true)
    × All (λ r. is_live 650 r ≡ true → 700 ≤ r.expires_at) seats.reservations
unfolding get_most_urgent_reservation
most_urgent_earliest_example = most_urgent_earliest seats 650 {u = seat 3 700 pending} refl
