-- ===== src/Payment/Counts.antt =====
-- The three counts of a random-seating run that the reminder message shows.
use korail_ktx_macro_telegra.Common.{
  ℕ, ◌+◌, ◌≡◌, refl, Bool, true, false, not, ◌&&◌, ◌||◌, List, [], ◌∷◌, arith, leb, ◌==◌, length,
  count_if, any, keep,
}
use korail_ktx_macro_telegra.Payment.{
  SingleReservationInfo, ReservationPaymentStatus, cancelled, is_paid, is_live, is_expired,
  has_expired, pay_seat,
}

abbrev pub is_cancelled : ReservationPaymentStatus → Bool
is_cancelled cancelled = true
is_cancelled _ = false

-- The seats that two of the counts take: paid for, and past the deadline.
abbrev pub is_paid_late : ℕ → SingleReservationInfo → Bool
is_paid_late now r = is_paid r.status && leb r.expires_at now

-- The seats that none of the counts takes: given back before the deadline.
abbrev pub is_cancelled_early : ℕ → SingleReservationInfo → Bool
is_cancelled_early now r = is_cancelled r.status && not (leb r.expires_at now)

module _ (now : ℕ) where
  counts_of :
      (rs : List SingleReservationInfo)
      → count_if (is_live now) rs
          + count_if (λ r. is_paid r.status) rs
          + count_if (λ r. has_expired r.status || is_expired r now) rs
          + count_if (is_cancelled_early now) rs
        ≡ length rs + count_if (is_paid_late now) rs
  unfolding is_live is_expired
  counts_of [] = refl
  counts_of (r ∷ rs) = ground (arith, counts_of rs)

unfoldable pub has_number : ℕ → SingleReservationInfo → Bool
has_number seat r = r.seat_number == seat

module _ (seat : ℕ) where
  pay_seat-found :
      (rs : List SingleReservationInfo) → (pay_seat seat rs).0 ≡ any (has_number seat) rs
  unfolding pay_seat has_number
  pay_seat-found [] = refl
  pay_seat-found (r ∷ rs) = ground (arith, pay_seat-found rs)

  pay_seat-others :
      (rs : List SingleReservationInfo)
      → keep (λ r. not (has_number seat r)) (pay_seat seat rs).1
        ≡ keep (λ r. not (has_number seat r)) rs
  unfolding pay_seat has_number
  pay_seat-others [] = refl
  pay_seat-others (r ∷ rs) = ground (arith, pay_seat-others rs)

  pay_seat-is_paid :
      (rs : List SingleReservationInfo)
      → any (λ r. has_number seat r && is_paid r.status) (pay_seat seat rs).1
        ≡ any (has_number seat) rs
  unfolding pay_seat has_number
  pay_seat-is_paid [] = refl
  pay_seat-is_paid (r ∷ rs) = ground (arith, pay_seat-is_paid rs)
