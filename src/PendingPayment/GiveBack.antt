-- ===== src/PendingPayment/GiveBack.antt =====
-- What is still held after a cancellation, and what the watch on payments makes of it.
use mathlib.Core.Bool.{false≢true}
use korail_ktx_macro_telegra.Common.{
  Option-cases, ◌<◌, ◌⊎◌, ℕ, ◌≡◌, refl, Bool, true, false, not, ◌&&◌, some, List, [], ◌∷◌, arith,
  any, keep, map, inl, inr, is_some, ◌<◌, Bool-cases,
}
use korail_ktx_macro_telegra.Common.Dict.{lookup-insert}
use korail_ktx_macro_telegra.Payment.{MultiReservationStatus, is_live, get_pending_count, Operator}
use korail_ktx_macro_telegra.Storage.{
  Storage, get_payment_status, save_payment_status, get_multi_reservation_status,
  save_multi_reservation_status,
}
use korail_ktx_macro_telegra.PendingPayment.{
  PendingReservation, Rails, Desk, pending_seats, cancel_seat, cancel_seats, cancel_booking,
  record_cancelled, gives_back, give_back, is_empty, still_booking, cancel, pending_reservations,
  sign_in, holding_operator, multi_status, cancel_items,
}
use korail_ktx_macro_telegra.PendingPayment.Seats.{
  confirms, taken_back, all-Agrees, keep-cancel_seat,
}

-- Recording what was taken back leaves the run with the seats marked.
multi-record_cancelled :
    (chat : ℕ) (i : PendingReservation) (items : List PendingReservation)
    (m : MultiReservationStatus) (s : Storage)
    → m.chat_id ≡ chat
    → get_multi_reservation_status chat s ≡ some m
    → get_multi_reservation_status chat (record_cancelled chat (i ∷ items) s)
      ≡ some (record m {
        reservations = map (cancel_seat (i ∷ items)) m.reservations;
        manually_stopped = true;
      })
unfolding record_cancelled cancel_booking cancel_seats get_multi_reservation_status
    save_multi_reservation_status save_payment_status get_payment_status
multi-record_cancelled chat i items m s own found = ground (
  arith,
  own,
  found,
  lookup-insert m.chat_id chat
      (record m {
        reservations = map (cancel_seat (i ∷ items)) m.reservations;
        manually_stopped = true;
      })
      s.multi_statuses,
)

-- The run after a cancellation that took seats back or did not: what is still held are the seats
-- that were held and that the railway did not confirm.
abbrev pub StillHeld : Rails → ℕ → ℕ → MultiReservationStatus → Bool → Storage → Type 0
StillHeld rails now chat m done s =
    (m' : MultiReservationStatus) × (get_multi_reservation_status chat s ≡ some m')
    × (keep (is_live now) m'.reservations
        ≡ keep (λ r. is_live now r && not (done && confirms rails m.operator r.reservation_id))
            m.reservations)

keep-and_true {ℓ} :
    {A : Type ℓ} (p : A → Bool) (xs : List A) → keep p xs ≡ keep (λ x. p x && true) xs
keep-and_true p [] = refl
keep-and_true p (x ∷ xs) = ground (arith, keep-and_true p xs)

is_empty-keep :
    (p : PendingReservation → Bool) (xs : List PendingReservation)
    → is_empty (keep p xs) ≡ not (any p xs)
is_empty-keep p [] = refl
is_empty-keep p (x ∷ xs) = ground (arith, is_empty-keep p xs)

List-cases {ℓ} : {A : Type ℓ} (xs : List A) → (xs ≡ []) ⊎ ((x : A) × (ys : List A) × (xs ≡ x ∷ ys))
List-cases [] = inl refl
List-cases (x ∷ xs) = inr (x, xs, refl)

module _ (rails : Rails) (now chat : ℕ) (m : MultiReservationStatus) where
  unchanged :
      (s : Storage)
      → get_multi_reservation_status chat s ≡ some m
      → StillHeld rails now chat m false s
  unchanged s found = (m, found, keep-and_true (is_live now) m.reservations)

  marked :
      (i : PendingReservation) (items : List PendingReservation) (s : Storage)
      → m.chat_id ≡ chat
      → get_multi_reservation_status chat s ≡ some m
      → taken_back rails m.operator now m ≡ i ∷ items
      → StillHeld rails now chat m true (record_cancelled chat (i ∷ items) s)
  marked i items s own found e = (
    record m {
      reservations = map (cancel_seat (i ∷ items)) m.reservations;
      manually_stopped = true;
    },
    multi-record_cancelled chat i items m s own found,
    keep-cancel_seat now rails m.operator (i ∷ items) m.reservations
        (rw e at (all-Agrees rails m.operator now m)),
  )

  give_back_lem :
      (d : Desk)
      → m.chat_id ≡ chat
      → get_multi_reservation_status chat d.storage ≡ some m
      → let (done, d') = give_back rails chat m.operator (pending_seats now m) d in
        (done ≡ any (gives_back rails m.operator) (pending_seats now m))
        × StillHeld rails now chat m done d'.storage
  unfolding give_back record_cancelled
  give_back_lem d own found =
      let items = pending_seats now m in
      let none_or_some = is_empty-keep (gives_back rails m.operator) items in
      elim (List-cases (taken_back rails m.operator now m)) [
        | inl e ↦ rw e (ground (arith, none_or_some, e), unchanged d.storage found)
        | inr (i, ys, e) ↦ rw e (ground (arith, none_or_some, e), marked i ys d.storage own found e)
      ]

none_in_empty :
    (p : PendingReservation → Bool) (xs : List PendingReservation)
    → is_empty xs ≡ true
    → any p xs ≡ false
none_in_empty p [] e = refl
none_in_empty p (x ∷ xs) e = absurd (false≢true e)

-- Nothing stands against asking the railway.
abbrev pub may_ask : Rails → ℕ → Operator → Storage → Bool
may_ask rails chat op s = not (still_booking chat s) && not (is_some (sign_in rails chat op))

module _ (rails : Rails) (now chat : ℕ) (m : MultiReservationStatus) (d : Desk) where
  -- A cancellation that ended so.
  abbrev Ended : Bool × Desk → Type 0
  Ended (done, d') =
      (done ≡ (
        may_ask rails chat m.operator d.storage
        && any (gives_back rails m.operator) (pending_seats now m)))
      × StillHeld rails now chat m done d'.storage

  cancel_items_lem :
      m.chat_id ≡ chat
      → get_multi_reservation_status chat d.storage ≡ some m
      → Ended (cancel_items rails chat m.operator (pending_seats now m) d)
  unfolding cancel_items
  cancel_items_lem own found =
      let items = pending_seats now m in
      let same = unchanged rails now chat m d.storage found in
      let (told, held) = give_back_lem rails now chat m d own found in
      elim (Bool-cases (is_empty items)) [
        | inl e ↦ rw e (ground (arith, none_in_empty (gives_back rails m.operator) items e), same)
        | inr e ↦ rw e (elim (Bool-cases (still_booking chat d.storage)) [
          | inl e' ↦ rw e' (refl, same)
          | inr e' ↦ rw e' (elim (Option-cases (sign_in rails chat m.operator)) [
            | inl e'' ↦ rw e'' (told, held)
            | inr (refusal, e'') ↦ rw e'' (refl, same)
          ])
        ])
      ]

  cancel_of_run :
      get_multi_reservation_status chat d.storage ≡ some m
      → 0 < get_pending_count m now
      → cancel rails now chat d ≡ cancel_items rails chat m.operator (pending_seats now m) d
  unfolding cancel pending_reservations holding_operator multi_status
  cancel_of_run found holding = ground (arith, found, holding)

  -- Where a run stands under its own chat and holds a seat: a cancellation succeeds exactly if no
  -- search of the chat still books, the login works, and the railway confirms one of the held seats.
  -- The seats still held after it are those that were held, without the ones that the railway
  -- confirmed if it succeeded: a seat that the railway refused stays held.
  pub cancel-gives_back :
      m.chat_id ≡ chat
      → get_multi_reservation_status chat d.storage ≡ some m
      → 0 < get_pending_count m now
      → let (done, d') = cancel rails now chat d in
        (done ≡ (
          may_ask rails chat m.operator d.storage
          && any (gives_back rails m.operator) (pending_seats now m)))
        × StillHeld rails now chat m done d'.storage
  cancel-gives_back own found holding =
      rw (cancel_of_run found holding) (cancel_items_lem own found)
