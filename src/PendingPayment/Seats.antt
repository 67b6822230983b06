-- ===== src/PendingPayment/Seats.antt =====
-- Which seats of a run a cancellation marks, given the numbers that the railway confirmed.
use korail_ktx_macro_telegra.Common.{
  inl, inr, ap, ==_iff, ==-refl, Bool-cases, ℕ, ◌≡◌, refl, ◌∙◌, Bool, true, false, not, ◌&&◌, List,
  [], ◌∷◌, arith, ltb, ◌==◌, any, keep, map, sort_by, count_if, count_if-sort_by, All, Bool-cases,
  ==-refl, All-map,
}
use korail_ktx_macro_telegra.Payment.{
  Operator, SingleReservationInfo, MultiReservationStatus, is_live,
}
use korail_ktx_macro_telegra.PendingPayment.{
  PendingReservation, Rails, of_seat, pending_seats, is_among, cancel_seat, gives_back,
}

any-count {ℓ} : {A : Type ℓ} (p : A → Bool) (xs : List A) → any p xs ≡ ltb 0 (count_if p xs)
any-count p [] = refl
any-count p (x ∷ xs) = ground (arith, any-count p xs)

any-sort_by {ℓ} :
    {A : Type ℓ} (key : A → ℕ) (p : A → Bool) (xs : List A) → any p (sort_by key xs) ≡ any p xs
any-sort_by key p xs =
    ground (arith, any-count p xs, any-count p (sort_by key xs), count_if-sort_by key p xs)

-- The railway takes the number back.
abbrev pub confirms : Rails → Operator → ℕ → Bool
confirms rails op number = not (number == 0) && rails.cancel_reservation op number

pub is_among-keep :
    (rails : Rails) (op : Operator) (items : List PendingReservation) (number : ℕ)
    → is_among (keep (gives_back rails op) items) number
      ≡ (confirms rails op number && is_among items number)
unfolding is_among gives_back
is_among-keep rails op [] number = ground arith
is_among-keep rails op (i ∷ items) number = elim (Bool-cases (i.reservation_id == number)) [
  | inl e ↦
      let same : i.reservation_id ≡ number = (==_iff i.reservation_id number).0 e in
      ground (arith, is_among-keep rails op items number, ap (rails.cancel_reservation op) same)
  | inr e ↦ ground (arith, is_among-keep rails op items number)
]

module _ (now : ℕ) where
  -- A seat that is still held under the number.
  abbrev holds : ℕ → SingleReservationInfo → Bool
  holds number r = is_live now r && (not (r.reservation_id == 0) && r.reservation_id == number)

  is_among-live :
      (xs : List SingleReservationInfo) (number : ℕ)
      → is_among (map of_seat (keep (is_live now) xs)) number ≡ any (holds number) xs
  unfolding is_among
  is_among-live [] number = refl
  is_among-live (r ∷ xs) number = ground (arith, is_among-live xs number)

  is_among-pending_seats :
      (m : MultiReservationStatus) (number : ℕ)
      → is_among (pending_seats now m) number ≡ any (holds number) m.reservations
  unfolding pending_seats
  is_among-pending_seats m number =
      is_among-live (sort_by (λ r. r.seat_number) m.reservations) number
      ∙ any-sort_by (λ r. r.seat_number) (holds number) m.reservations

  -- What is said of the seats `ys` of a run with the seats `xs`.
  abbrev Named : List SingleReservationInfo → SingleReservationInfo → Type 0
  Named xs r =
      is_live now r ≡ true
      → (r.reservation_id == 0) ≡ false
      → any (holds r.reservation_id) xs ≡ true

  all-Named :
      (ys xs : List SingleReservationInfo)
      → ((number : ℕ) → any (holds number) ys ≡ true → any (holds number) xs ≡ true)
      → All (Named xs) ys
  all-Named [] xs within = tt
  all-Named (r ∷ ys) xs within = (
    (λ live known. within r.reservation_id (ground (arith, live, known, ==-refl r.reservation_id))),
    all-Named ys xs (λ number found. within number (ground (arith, found))),
  )

  module _ (rails : Rails) (op : Operator) (items : List PendingReservation) where
    -- The numbers among the items are those that the railway confirms, as far as held seats go.
    abbrev pub Agrees : SingleReservationInfo → Type 0
    Agrees r =
        is_live now r ≡ true → is_among items r.reservation_id ≡ confirms rails op r.reservation_id

    pub keep-cancel_seat :
        (xs : List SingleReservationInfo)
        → All Agrees xs
        → keep (is_live now) (map (cancel_seat items) xs)
          ≡ keep (λ r. is_live now r && not (confirms rails op r.reservation_id)) xs
    unfolding cancel_seat is_live
    keep-cancel_seat [] h = refl
    keep-cancel_seat (r ∷ xs) (here, rest) = ground (arith, here, keep-cancel_seat xs rest)

-- What the railway took back of the seats that were held.
abbrev pub taken_back : Rails → Operator → ℕ → MultiReservationStatus → List PendingReservation
taken_back rails op now m = keep (gives_back rails op) (pending_seats now m)

pub all-Agrees :
    (rails : Rails) (op : Operator) (now : ℕ) (m : MultiReservationStatus)
    → All (Agrees now rails op (taken_back rails op now m)) m.reservations
all-Agrees rails op now m =
    All-map (Named now m.reservations) (Agrees now rails op (taken_back rails op now m))
      m.reservations
      (λ r named live. ground (
        arith,
        is_among-keep rails op (pending_seats now m) r.reservation_id,
        is_among-pending_seats now m r.reservation_id,
        named live,
      ))
      (all-Named now m.reservations m.reservations (λ number found. found))
